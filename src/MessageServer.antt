-- ===== src/MessageServer.antt =====
-- messaging/server.go, messaging/transform.go: the server of messages, over the same stores as the
-- server of chats. `Authorize` is a parameter of the calls: they get the user id that it returns.
pub mod Receipts
pub mod Typing
pub mod Streaming
pub mod Silence
mod Examples
use flipchat_server.Query.{ProtoOptions, from_proto_options}
use flipchat_server.Intent.{Store, mark_fulfilled, get_payment_amount}
use flipchat_server.Auth.{
  Refusal, failed, can_send_message, can_get_message, can_get_messages, can_advance_pointer,
}
use flipchat_server.Backend.{
  Notice, sent_listener_message, sent_tip, received_tip, Effect, publishes, notes, Backend,
  with_messages, with_intents, emit, authorizer, chat_event, Failure, internal, invalid_argument,
  Answer, done, denied, not_found, Reply,
}
use flipchat_server.Messaging.{
  MessagingError, Content, text, reaction, reply, tip, Message, Draft, PointerType, delivered, read,
  Pointer, get_message, get_batch_messages, get_paged_messages, put_message, is_user_content,
  advance_pointer,
}
use flipchat_server.Messaging
use flipchat_server.Base.{
  if◌then◌else◌, has_value, Bytes, keep, Result, ok, err, Time, ℕ, Bool, true, false, not, ◌&&◌,
  Option, none, some, List, [], ◌∷◌, map,
}

-- `RemoveEmojiVariationModifiersTransform`; which runes are variation selectors is what Go's
-- tables of Unicode say.
remove_emoji_variation_modifiers : (ℕ → Bool) → Content → Content
remove_emoji_variation_modifiers is_variation_selector (reaction id emoji) =
    reaction id (keep (λ r. not (is_variation_selector r)) emoji)
remove_emoji_variation_modifiers is_variation_selector c = c

-- `ApplyTransforms`, with the one transform that there is.
unfoldable pub apply_transforms : (ℕ → Bool) → Content → Content
unfolding remove_emoji_variation_modifiers
apply_transforms is_variation_selector c = remove_emoji_variation_modifiers is_variation_selector c

message_event : Bytes → Message → Effect
message_event chat_id x = publishes (record (chat_event chat_id) { message_update = some x })

-- `Send`: `id` and `now` are the new message's id and the time.
unfoldable pub send :
    Bytes → Draft → Bytes → Time → Backend → Result MessagingError Message × Backend
unfolding message_event
send chat_id msg id now s =
    let (result, messages) = put_message chat_id msg id now s.messages in
    elim result [
      | err e ↦ (err e, with_messages messages s)
      | ok x ↦ (ok x, emit (message_event chat_id x ∷ []) (with_messages messages s))
    ]

-- The draft that `SendMessage` makes. With a payment, a text or a reply counts as sent off stage.
pub draft : (ℕ → Bool) → Bytes → Content → Option Bytes → Draft
unfolding apply_transforms
draft is_variation_selector user_id content payment_intent = record {
  message_id = none;
  sender_id = some user_id;
  content = apply_transforms is_variation_selector content;
  ts = none;
  was_sender_off_stage = has_value payment_intent && is_user_content content;
}

-- The amount of a payment; where it cannot be read the notice says zero.
amount_or_zero : Bytes → Backend → ℕ
amount_or_zero id s = elim (get_payment_amount s.code_data id) [ ok n ↦ n | err _ ↦ 0 ]

-- The sender of the message that got a tip, whose feed is not written without one.
tip_notices : Bytes → Bytes → ℕ → Message → Message → List Notice
tip_notices user_id chat_id amount reference x =
    sent_tip user_id chat_id reference.message_id amount x.ts ∷ elim reference.sender_id [
      | none ↦ []
      | some sender ↦ received_tip sender chat_id reference.message_id amount x.ts ∷ []
    ]

-- What a paid message notes in the activity feeds, in the background.
unfoldable pub payment_notices : Bytes → Bytes → Content → Bytes → Message → Backend → List Notice
unfolding amount_or_zero tip_notices
payment_notices chat_id user_id (text t) id x s =
    sent_listener_message user_id chat_id x.message_id (amount_or_zero id s) x.ts ∷ []
payment_notices chat_id user_id (reply r t) id x s =
    sent_listener_message user_id chat_id x.message_id (amount_or_zero id s) x.ts ∷ []
payment_notices chat_id user_id (tip r quarks) id x s = elim (get_message chat_id r s.messages) [
  | err _ ↦ []
  | ok reference ↦ tip_notices user_id chat_id (amount_or_zero id s) reference x
]
payment_notices chat_id user_id _ id x s = []

-- The end of `SendMessage`: the payment is used.
unfoldable pub use_intent :
    Bytes → Bytes → Content → Option Bytes → Message → Backend → Reply Message
unfolding payment_notices
use_intent chat_id user_id content none x s = (ok (done x), s)
use_intent chat_id user_id content (some id) x s =
    let (result, intents) = mark_fulfilled id s.intents in
    let s' = with_intents intents s in
    elim result [
      | err _ ↦ (ok denied, s')
      | ok _ ↦ (ok (done x), emit (map notes (payment_notices chat_id user_id content id x s')) s')
    ]

unfoldable pub send_message :
    (ℕ → Bool) → Bytes → Content → Option Bytes → Bytes → Time → Bytes → Backend → Reply Message
unfolding draft send use_intent
send_message is_variation_selector chat_id content payment_intent id now user_id s =
    elim (can_send_message chat_id user_id content payment_intent (authorizer s)) [
      | err failed ↦ (err internal, s)
      | err _ ↦ (ok denied, s)
      | ok _ ↦
          let (result, s') =
            send chat_id (draft is_variation_selector user_id content payment_intent) id now s in
          elim result [
            | err _ ↦ (err internal, s')
            | ok x ↦ use_intent chat_id user_id content payment_intent x s'
          ]
    ]

-- The checks of who may read, which pass for everybody.
abbrev if_allowed :
    {A : Type 0} → Result Refusal (Unit {0}) → Result Failure (Answer A) → Result Failure (Answer A)
if_allowed (ok _) answer = answer
if_allowed (err failed) answer = err internal
if_allowed (err _) answer = ok denied

pub handle_get_message : Bytes → Bytes → Bytes → Backend → Result Failure (Answer Message)
handle_get_message chat_id message_id user_id s =
    if_allowed (can_get_message chat_id user_id (authorizer s))
      (elim (get_message chat_id message_id s.messages) [
        | err _ ↦ ok not_found
        | ok x ↦ ok (done x)
      ])

-- `GetMessagesRequest_Query`: the ids of a batch, or options.
pub data MessageQuery : Type 0 where
  message_ids : List Bytes → MessageQuery
  options : Option ProtoOptions → MessageQuery

run_query : Bytes → MessageQuery → Messaging.Store → List Message
run_query chat_id (message_ids ids) m = get_batch_messages chat_id ids m
run_query chat_id (options o) m = get_paged_messages chat_id (from_proto_options o) m

pub get_messages : Bytes → MessageQuery → Bytes → Backend → Result Failure (Answer (List Message))
unfolding run_query
get_messages chat_id q user_id s =
    if_allowed (can_get_messages chat_id user_id (authorizer s))
      (ok (done (run_query chat_id q s.messages)))

-- The pointers that a client may advance.
abbrev pub is_client_pointer : PointerType → Bool
is_client_pointer delivered = true
is_client_pointer read = true
is_client_pointer _ = false

pointer_event : Bytes → Bytes → Pointer → Effect
pointer_event chat_id user_id pointer =
    publishes (record (chat_event chat_id) { pointer_update = some (user_id, pointer) })

-- `AdvancePointer`
unfoldable pub move_pointer : Bytes → Pointer → Bytes → Backend → Reply (Unit {0})
unfolding pointer_event
move_pointer chat_id pointer user_id s =
    if not (is_client_pointer pointer.kind)
    then (err invalid_argument, s)
    else elim (can_advance_pointer chat_id user_id (authorizer s)) [
      | err failed ↦ (err internal, s)
      | err _ ↦ (ok denied, s)
      | ok _ ↦
          let (advanced, messages) = advance_pointer chat_id user_id pointer s.messages in
          let s' = with_messages messages s in
          if advanced
          then (ok (done tt), emit (pointer_event chat_id user_id pointer ∷ []) s')
          else (ok (done tt), s')
    ]
