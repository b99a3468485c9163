-- ===== src/MessageServer/Receipts.antt =====
-- messaging/server.go: what a message that is sent leaves behind, and what its payment pays for.
use flipchat_server.Messaging.Sorting.{IsAscending, has_id, get_message-put_message}
use flipchat_server.Backend.{Backend, publishes, chat_event, authorizer, done, denied}
use flipchat_server.Base.{
  if◌then◌else◌, ◌==◌, ==_refl, Bytes, bytes_eq, lookup-insert, ok, Result-cases, Time, ℕ, ◌≡◌,
  refl, ◌≢◌, inl, inr, Bool, true, false, Option, none, some, List, [], ◌∷◌, ◌++◌, arith,
}
use flipchat_server.Auth.{Refusal, failed, can_send_message}
use flipchat_server.Messaging.{
  Content, Message, Draft, messages_of, get_message, stored_message, put_message,
}
use flipchat_server.Intent.{is_fulfilled, mark_fulfilled}
use flipchat_server.MessageServer.{message_event, send, draft, use_intent, send_message}

use_intent-done :
    (c u id : Bytes) (y : Content) (x m : Message) (s : Backend)
    → (use_intent c u y (some id) x s).0 ≡ ok (done m)
    → (is_fulfilled id s.intents ≡ false)
      × (is_fulfilled id (use_intent c u y (some id) x s).1.intents ≡ true)
unfolding use_intent mark_fulfilled is_fulfilled
use_intent-done c u id y x m s h =
    ground (arith, lookup-insert id id tt s.intents.fulfilled_intents)

send-intents :
    (c : Bytes) (d : Draft) (i : Bytes) (t : Time) (s : Backend)
    → (send c d i t s).1.intents ≡ s.intents
unfolding send
send-intents c d i t s = ground arith

pub send_lem :
    (c : Bytes) (d : Draft) (i : Bytes) (t : Time) (s : Backend)
    → d.message_id ≡ none
    → let (r, s') = send c d i t s in
      (r ≡ ok (stored_message i t d)) × (s'.messages ≡ (put_message c d i t s.messages).1)
unfolding send put_message
send_lem c d i t s h = (ground arith, ground arith)

pub use_intent-answer :
    (c u : Bytes) (y : Content) (p : Option Bytes) (x m : Message) (s : Backend)
    → (use_intent c u y p x s).0 ≡ ok (done m)
    → (m ≡ x) × ((use_intent c u y p x s).1.messages ≡ s.messages)
unfolding use_intent
use_intent-answer c u y none x m s h = (ground arith, ground arith)
use_intent-answer c u y (some id) x m s h = elim (Result-cases (mark_fulfilled id s.intents).0) [
  | inr (e, unmarked) ↦ ground arith
  | inl (o, marked) ↦ (ground arith, ground arith)
]

module _ (v : ℕ → Bool) (c : Bytes) (y : Content) (i : Bytes) (t : Time) (u : Bytes)
    (s : Backend) where
  sent_with-fulfilled :
      (id : Bytes) (m : Message)
      → (send_message v c y (some id) i t u s).0 ≡ ok (done m)
      → (is_fulfilled id s.intents ≡ false)
        × (is_fulfilled id (send_message v c y (some id) i t u s).1.intents ≡ true)
  unfolding send_message send
  sent_with-fulfilled id m h =
      elim (Result-cases (can_send_message c u y (some id) (authorizer s))) [
        | inr (failed, refused) ↦ ground arith
        | inr (Refusal.denied r, refused) ↦ ground arith
        | inl (allowed, accepted) ↦
            let d = draft v u y (some id) in
            elim (Result-cases (send c d i t s).0) [
              | inr (e, unsent) ↦ ground arith
              | inl (x, stored) ↦
                  ground
                    (arith, use_intent-done c u id y x m (send c d i t s).1, send-intents c d i t s)
            ]
      ]

-- A call of `SendMessage`, with the id and the time of the new message.
pub record SendCall : Type 0 where
  pub chat_id : Bytes
  pub content : Content
  pub payment : Option Bytes
  pub id : Bytes
  pub now : Time
  pub user_id : Bytes

module _ (v : ℕ → Bool) where
  unfoldable pub send_all : List SendCall → Backend → Backend
  send_all [] s = s
  send_all (a ∷ as') s =
      send_all as' (send_message v a.chat_id a.content a.payment a.id a.now a.user_id s).1

  use_intent-is_fulfilled :
      (c u id : Bytes) (y : Content) (p : Option Bytes) (x : Message) (s : Backend)
      → is_fulfilled id s.intents ≡ true
      → is_fulfilled id (use_intent c u y p x s).1.intents ≡ true
  unfolding use_intent mark_fulfilled is_fulfilled
  use_intent-is_fulfilled c u id y none x s h = ground (arith, h)
  use_intent-is_fulfilled c u id y (some j) x s h =
      ground (arith, h, lookup-insert j id tt s.intents.fulfilled_intents)

  send_message-is_fulfilled :
      (a : SendCall) (id : Bytes) (s : Backend)
      → is_fulfilled id s.intents ≡ true
      → is_fulfilled id
          (send_message v a.chat_id a.content a.payment a.id a.now a.user_id s).1.intents
        ≡ true
  unfolding send_message
  send_message-is_fulfilled a id s h =
      let d = draft v a.user_id a.content a.payment in
      let sent = send a.chat_id d a.id a.now s in
      let kept = send-intents a.chat_id d a.id a.now s in
      elim (Result-cases
        (can_send_message a.chat_id a.user_id a.content a.payment (authorizer s))) [
          | inr (failed, refused) ↦ ground arith
          | inr (Refusal.denied r, refused) ↦ ground arith
          | inl (allowed, accepted) ↦ elim (Result-cases sent.0) [
            | inr (e, unsent) ↦ ground arith
            | inl (x, stored) ↦ ground (
              arith,
              kept,
              use_intent-is_fulfilled a.chat_id a.user_id id a.content a.payment x sent.1,
            )
          ]
        ]

  send_all-is_fulfilled :
      (as' : List SendCall) (id : Bytes) (s : Backend)
      → is_fulfilled id s.intents ≡ true
      → is_fulfilled id (send_all as' s).intents ≡ true
  unfolding send_all
  send_all-is_fulfilled [] id s h = h
  send_all-is_fulfilled (a ∷ as') id s h =
      send_all-is_fulfilled as' id _ (send_message-is_fulfilled a id s h)

-- A payment is accepted for one message: once `SendMessage` has answered that a message with a
-- payment is sent, that payment was not used before, and no call that names it is answered so again,
-- whatever the chat, the content and the sender, and whatever calls of `SendMessage` come in between.
pub send_message-once :
    (v : ℕ → Bool) (c : Bytes) (y : Content) (id i : Bytes) (t : Time) (u : Bytes) (m : Message)
    (s : Backend) (as' : List SendCall) (c' : Bytes) (y' : Content) (i' : Bytes) (t' : Time)
    (u' : Bytes) (m' : Message)
    → (send_message v c y (some id) i t u s).0 ≡ ok (done m)
    → let s' = send_all v as' (send_message v c y (some id) i t u s).1 in
      (is_fulfilled id s.intents ≡ false)
      × ((send_message v c' y' (some id) i' t' u' s').0 ≢ ok (done m'))
send_message-once v c y id i t u m s as' c' y' i' t' u' m' h =
    let (unused, used) = sent_with-fulfilled v c y i t u s id m h in
    let still_used = send_all-is_fulfilled v as' id (send_message v c y (some id) i t u s).1 used in
    (
      unused,
      λ h'. let (unused', _) = sent_with-fulfilled v c' y' i' t' u' _ id m' h' in ground arith,
    )

-- `SendMessage` stores a message before it uses the payment: where a message is allowed, by somebody
-- who owns the chat or may speak in it, but comes with a payment that was used already, the answer
-- is that it is denied, and yet the message is found in the chat under its new id, and the event
-- with it was published, and nothing else. The chat's messages are in order and the id is new.
pub send_message-denied_but_sent :
    (v : ℕ → Bool) (c : Bytes) (y : Content) (id i : Bytes) (t : Time) (u : Bytes) (s : Backend)
    → can_send_message c u y (some id) (authorizer s) ≡ ok tt
    → is_fulfilled id s.intents ≡ true
    → IsAscending (messages_of c s.messages)
    → has_id i (messages_of c s.messages) ≡ false
    → let (answer, s') = send_message v c y (some id) i t u s in
      let x = stored_message i t (draft v u y (some id)) in
      (answer ≡ ok denied)
      × (get_message c i s'.messages ≡ ok x)
      × (s'.outbox ≡ s.outbox ++ publishes (record (chat_event c) { message_update = some x }) ∷ [])
unfolding send_message send use_intent put_message draft is_fulfilled mark_fulfilled message_event
send_message-denied_but_sent v c y id i t u s allowed used sorted fresh =
    let d = draft v u y (some id) in
    let found = get_message-put_message c c i i d t s.messages sorted fresh refl in
    (
      ground (arith, allowed, used),
      ground (arith, allowed, used, found, ==_refl i, ==_refl c),
      ground (arith, allowed, used),
    )

-- Where the chat's messages are in order, a message that `SendMessage` sends is found in the chat
-- under its new id, with its content transformed and the time of the call, and all messages that
-- were there are found as before.
pub send_message-get_message :
    (v : ℕ → Bool) (c : Bytes) (y : Content) (p : Option Bytes) (i : Bytes) (t : Time) (u : Bytes)
    (m : Message) (s : Backend) (j : Bytes)
    → IsAscending (messages_of c s.messages)
    → has_id i (messages_of c s.messages) ≡ false
    → (send_message v c y p i t u s).0 ≡ ok (done m)
    → (m ≡ stored_message i t (draft v u y p))
      × (get_message c j (send_message v c y p i t u s).1.messages
          ≡ (if j == i then ok m else get_message c j s.messages))
unfolding send_message draft
send_message-get_message v c y p i t u m s j sorted fresh h =
    let d = draft v u y p in
    let x = stored_message i t d in
    elim (Result-cases (can_send_message c u y p (authorizer s))) [
      | inr (failed, refused) ↦ ground arith
      | inr (Refusal.denied r, refused) ↦ ground arith
      | inl (allowed, accepted) ↦
          let (same, kept) =
            use_intent-answer c u y p x m (send c d i t s).1
              (ground (arith, send_lem c d i t s refl)) in
          (
            same,
            ground (
              arith,
              kept,
              same,
              send_lem c d i t s refl,
              get_message-put_message c c j i d t s.messages sorted fresh refl,
            ),
          )
    ]
