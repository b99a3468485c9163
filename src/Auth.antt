-- ===== src/Auth.antt =====
-- auth/rpc/messaging.go: who may send what to a chat, over the memory stores.
pub mod Sending
mod Examples
use flipchat_server.Base.{
  if◌then◌else◌, ◌==◌, nat_eq, Bytes, bytes_eq, Result, ok, err, ◌>>=◌, ◌>>◌, ℕ, Bool, true, false,
  not, ◌&&◌, ◌||◌, Option, none, some,
}
use flipchat_server.Account.{Store, is_registered}
use flipchat_server.Account
use flipchat_server.Chat.{Metadata}
use flipchat_server.Chat
use flipchat_server.Chat.Rooms.{get_chat_metadata}
use flipchat_server.Chat.Members.{get_member, is_member, has_send_permission}
use flipchat_server.Intent.{
  is_fulfilled, CodeData, PaymentError, no_payment_metadata, lookup_failed, load_payment_metadata,
}
use flipchat_server.Intent
use flipchat_server.Messaging.{
  Content, text, reaction, reply, tip, deleted, review, other, Message, get_message,
  is_user_content,
}
use flipchat_server.Messaging

-- `MessagingAuthorizer`
pub record Authorizer : Type 0 where
  pub accounts : Account.Store
  pub chats : Chat.Store
  pub intents : Intent.Store
  pub messages : Messaging.Store
  pub code_data : CodeData

-- The reasons that come with a refusal.
pub data Reason : Type 0 where
  no_such_chat user_not_registered not_a_chat_member member_is_muted : Reason
  reference_not_found invalid_reference_content payment_not_provided : Reason
  payment_metadata_missing invalid_payment_metadata intent_already_fulfilled : Reason
  payment_for_different_chat payment_for_different_message payment_by_different_tipper : Reason
  payment_of_different_amount payment_by_different_user no_delete_permission : Reason
  sent_on_stage only_owners_review unsupported_content chat_is_closed : Reason

-- What a check returns: `false` with a reason, or the error of a store or of the provider. A check
-- that passes goes on.
pub data Refusal : Type 0 where
  denied : Reason → Refusal
  failed : Refusal

-- An early return where the condition holds.
abbrev pub deny_if : Bool → Reason → Result Refusal (Unit {0})
deny_if true r = err (denied r)
deny_if false r = ok tt

abbrev or_deny : {E A : Type 0} → Reason → Result E A → Result Refusal A
or_deny r (ok a) = ok a
or_deny r (err e) = err (denied r)

-- The errors of `LoadPaymentMetadata`.
abbrev payment_or_deny : {A : Type 0} → Result PaymentError A → Result Refusal A
payment_or_deny (ok a) = ok a
payment_or_deny (err Intent.no_payment_metadata) = err (denied payment_metadata_missing)
payment_or_deny (err Intent.invalid_payment_metadata) = err (denied invalid_payment_metadata)
payment_or_deny (err Intent.lookup_failed) = err failed

abbrev provided : Option Bytes → Result Refusal Bytes
provided none = err (denied payment_not_provided)
provided (some id) = ok id

unfoldable pub is_owner : Metadata → Bytes → Bool
is_owner md user_id = elim md.owner [ none ↦ false | some owner ↦ owner == user_id ]

-- The contents that `Deleted` may refer to.
abbrev is_deletable : Content → Bool
is_deletable (text t) = true
is_deletable (reply id t) = true
is_deletable (reaction id emoji) = true
is_deletable _ = false

-- The message that a content refers to, where its own content passes the test.
reference : (Content → Bool) → Bytes → Bytes → Authorizer → Result Refusal Message
reference test chat_id message_id a = do
  x ← or_deny reference_not_found (get_message chat_id message_id a.messages)
  deny_if (not (test x.content)) invalid_reference_content
  ok x

check_tip : Bytes → Bytes → Bytes → ℕ → Option Bytes → Authorizer → Result Refusal (Unit {0})
unfolding reference
check_tip chat_id user_id message_id quarks payment_intent a = do
  reference is_user_content chat_id message_id a
  id ← provided payment_intent
  (intent_record, metadata) ←
      payment_or_deny (load_payment_metadata a.code_data.unmarshal_tip a.code_data id)
  deny_if (is_fulfilled id a.intents) intent_already_fulfilled
  deny_if (not (chat_id == metadata.chat_id)) payment_for_different_chat
  deny_if (not (message_id == metadata.message_id)) payment_for_different_message
  deny_if (not (user_id == metadata.tipper_id)) payment_by_different_tipper
  deny_if (not (intent_record.quantity == quarks)) payment_of_different_amount

check_deleted : Bytes → Bytes → Bytes → Bool → Authorizer → Result Refusal (Unit {0})
unfolding reference
check_deleted chat_id user_id message_id owner a = do
  x ← reference is_deletable chat_id message_id a
  deny_if (not (owner || elim x.sender_id [ none ↦ false | some sender ↦ sender == user_id ]))
      no_delete_permission

check_review : Bytes → Bytes → Bool → Authorizer → Result Refusal (Unit {0})
check_review chat_id message_id owner a = do
  x ← or_deny reference_not_found (get_message chat_id message_id a.messages)
  deny_if (not x.was_sender_off_stage) sent_on_stage
  deny_if (not (is_user_content x.content)) invalid_reference_content
  deny_if (not owner) only_owners_review

-- The switch on the type of the content.
check_content :
    Bytes → Bytes → Content → Option Bytes → Bool → Authorizer → Result Refusal (Unit {0})
unfolding reference check_tip check_deleted check_review
check_content chat_id user_id (text t) payment_intent owner a = ok tt
check_content chat_id user_id (reaction id emoji) payment_intent owner a = do
  reference is_user_content chat_id id a
  ok tt
check_content chat_id user_id (reply id t) payment_intent owner a = do
  reference is_user_content chat_id id a
  ok tt
check_content chat_id user_id (tip id quarks) payment_intent owner a =
    check_tip chat_id user_id id quarks payment_intent a
check_content chat_id user_id (deleted id) payment_intent owner a =
    check_deleted chat_id user_id id owner a
check_content chat_id user_id (review id approved) payment_intent owner a =
    check_review chat_id id owner a
check_content chat_id user_id other payment_intent owner a = err (denied unsupported_content)

-- The variables that the switch sets.
abbrev pub can_send_when_closed : Content → Bool
can_send_when_closed c = not (is_user_content c)

abbrev pub requires_listener_payment : Content → Bool
requires_listener_payment = is_user_content

abbrev pub is_closed : Metadata → Bool
is_closed md = elim md.open_status [ none ↦ false | some is_open ↦ not is_open ]

check_listener_payment : Bytes → Bytes → Option Bytes → Authorizer → Result Refusal (Unit {0})
check_listener_payment chat_id user_id payment_intent a = do
  id ← provided payment_intent
  (_, metadata) ←
      payment_or_deny (load_payment_metadata a.code_data.unmarshal_listener a.code_data id)
  deny_if (is_fulfilled id a.intents) intent_already_fulfilled
  deny_if (not (chat_id == metadata.chat_id)) payment_for_different_chat
  deny_if (not (user_id == metadata.user_id)) payment_by_different_user

unfoldable pub can_send_message :
    Bytes → Bytes → Content → Option Bytes → Authorizer → Result Refusal (Unit {0})
unfolding is_owner check_content check_listener_payment
can_send_message chat_id user_id content payment_intent a = do
  md ← or_deny no_such_chat (get_chat_metadata chat_id a.chats)
  deny_if (not (is_registered user_id a.accounts)) user_not_registered
  member ← or_deny not_a_chat_member (get_member chat_id user_id a.chats)
  deny_if member.is_muted member_is_muted
  let owner = is_owner md user_id
  check_content chat_id user_id content payment_intent owner a
  deny_if (not (can_send_when_closed content) && not owner && is_closed md) chat_is_closed
  if not owner && not member.has_send_permission && requires_listener_payment content
      then check_listener_payment chat_id user_id payment_intent a
      else ok tt

-- Everybody may stream and read the messages of a chat.
pub can_stream_messages : Bytes → Bytes → Authorizer → Result Refusal (Unit {0})
can_stream_messages chat_id user_id a = ok tt

pub can_get_message : Bytes → Bytes → Authorizer → Result Refusal (Unit {0})
can_get_message chat_id user_id a = ok tt

pub can_get_messages : Bytes → Bytes → Authorizer → Result Refusal (Unit {0})
can_get_messages chat_id user_id a = ok tt

chat_membership_check : Bytes → Bytes → Authorizer → Result Refusal (Unit {0})
chat_membership_check chat_id user_id a =
    deny_if (not (is_member chat_id user_id a.chats)) not_a_chat_member

unfoldable pub can_advance_pointer : Bytes → Bytes → Authorizer → Result Refusal (Unit {0})
unfolding chat_membership_check
can_advance_pointer = chat_membership_check

unfoldable pub can_notify_is_typing : Bytes → Bytes → Authorizer → Result Refusal (Unit {0})
unfolding chat_membership_check
can_notify_is_typing = chat_membership_check
