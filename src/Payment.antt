-- ===== src/Payment.antt =====
-- intent/messaging/handler.go: which payments the server accepts for a listener's message and for
-- a tip. The decoding of a public key from its string is a parameter.
pub mod StartGroup
mod Validity
mod Examples
use flipchat_server.Base.{
  ◌==◌, nat_eq, Bytes, bytes_eq, Result, ok, err, ◌>>=◌, ◌>>◌, ℕ, Bool, true, false, not, ◌||◌,
  Option, none, some,
}
use flipchat_server.Account.{Store, get_user_id}
use flipchat_server.Account
use flipchat_server.Chat.{ChatType, group}
use flipchat_server.Chat
use flipchat_server.Chat.Rooms.{get_chat_metadata}
use flipchat_server.Intent.{TipMetadata, ListenerMetadata}
use flipchat_server.Messaging.{get_message, is_user_content}
use flipchat_server.Messaging

-- `codeintent.SendPublicPaymentMetadata`, with the fields that the handlers read.
pub record PublicPayment : Type 0 where
  pub destination_owner_account : Bytes
  pub destination_token_account : Bytes
  pub is_kin : Bool
  pub quantity : ℕ

-- `codeintent.Record`, with the fields that the handlers read. The metadata of a public payment
-- are a pointer, nil for an intent of another type.
pub record Submitted : Type 0 where
  pub is_public : Bool
  pub initiator_owner_account : Bytes
  pub payment : Option PublicPayment

-- The messages that may come with an intent; the one for a group is the id of its user.
pub data CustomMetadata : Type 0 where
  as_listener : ListenerMetadata → CustomMetadata
  tip_message : TipMetadata → CustomMetadata
  start_group : Bytes → CustomMetadata
  other_metadata : CustomMetadata

-- What the handlers read.
pub record Handler : Type 0 where
  pub accounts : Account.Store
  pub chats : Chat.Store
  pub messages : Messaging.Store
  pub account_from_string : Bytes → Option Bytes

-- The descriptions of an invalid intent.
pub data Description : Type 0 where
  chat_not_found paying_user_not_found paid_user_not_found must_be_group : Description
  no_messaging_fee must_be_public wrong_fee user_must_pay : Description
  no_chat_owner must_pay_owner owner_cannot_pay own_message : Description
  message_not_found cannot_be_tipped must_pay_sender must_be_kin : Description
  wrong_start_fee wrong_fee_destination : Description

-- An invalid intent, an error, or a panic: a nil pointer that is dereferenced.
pub data Rejection : Type 0 where
  invalid : Description → Rejection
  failed panicked : Rejection

abbrev or_invalid : {E A : Type 0} → Description → Result E A → Result Rejection A
or_invalid d (ok a) = ok a
or_invalid d (err e) = err (invalid d)

abbrev or_else : {A : Type 0} → Rejection → Option A → Result Rejection A
or_else r (some a) = ok a
or_else r none = err r

abbrev invalid_if : Bool → Description → Result Rejection (Unit {0})
invalid_if true d = err (invalid d)
invalid_if false d = ok tt

abbrev pub is_group : ChatType → Bool
is_group group = true
is_group _ = false

-- `SendMessageAsListenerIntentHandler.Validate` from the type assertion on.
unfoldable pub validate_listener :
    Submitted → ListenerMetadata → Handler → Result Rejection (Unit {0})
validate_listener r d h = do
  md ← or_invalid chat_not_found (get_chat_metadata d.chat_id h.chats)
  paying_owner ← or_else failed (h.account_from_string r.initiator_owner_account)
  payment ← or_else panicked r.payment
  paid_owner ← or_else failed (h.account_from_string payment.destination_owner_account)
  paying_user ← or_invalid paying_user_not_found (get_user_id paying_owner h.accounts)
  paid_user ← or_invalid paid_user_not_found (get_user_id paid_owner h.accounts)
  invalid_if (not (is_group md.kind)) must_be_group
  fee ← or_else (invalid no_messaging_fee) md.messaging_fee
  invalid_if (not r.is_public) must_be_public
  invalid_if (not payment.is_kin || not (payment.quantity == fee)) wrong_fee
  invalid_if (not (d.user_id == paying_user)) user_must_pay
  owner ← or_else (invalid no_chat_owner) md.owner
  invalid_if (not (paid_user == owner)) must_pay_owner
  invalid_if (paying_user == owner) owner_cannot_pay

unfoldable pub validate_message_as_listener :
    Submitted → CustomMetadata → Handler → Result Rejection (Unit {0})
validate_message_as_listener r (as_listener d) h = validate_listener r d h
validate_message_as_listener r (tip_message d) h = err failed
validate_message_as_listener r (start_group d) h = err failed
validate_message_as_listener r other_metadata h = err failed

-- `SendTipMessagePaymentIntentHandler.Validate` from the type assertion on.
unfoldable pub validate_tip : Submitted → TipMetadata → Handler → Result Rejection (Unit {0})
validate_tip r d h = do
  invalid_if (not r.is_public) must_be_public
  paying_owner ← or_else failed (h.account_from_string r.initiator_owner_account)
  payment ← or_else panicked r.payment
  paid_owner ← or_else failed (h.account_from_string payment.destination_owner_account)
  paying_user ← or_invalid paying_user_not_found (get_user_id paying_owner h.accounts)
  invalid_if (not (d.tipper_id == paying_user)) user_must_pay
  paid_user ← or_invalid paid_user_not_found (get_user_id paid_owner h.accounts)
  invalid_if (paying_user == paid_user) own_message
  x ← or_invalid message_not_found (get_message d.chat_id d.message_id h.messages)
  invalid_if (not (is_user_content x.content)) cannot_be_tipped
  sender ← or_else (invalid must_pay_sender) x.sender_id
  invalid_if (not (sender == paid_user)) must_pay_sender
  invalid_if (not payment.is_kin) must_be_kin

unfoldable pub validate_tip_message :
    Submitted → CustomMetadata → Handler → Result Rejection (Unit {0})
validate_tip_message r (as_listener d) h = err failed
validate_tip_message r (tip_message d) h = validate_tip r d h
validate_tip_message r (start_group d) h = err failed
validate_tip_message r other_metadata h = err failed
