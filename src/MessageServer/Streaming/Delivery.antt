-- ===== src/MessageServer/Streaming/Delivery.antt =====
-- messaging/server.go: SendMessage and the streams of its chat.
use flipchat_server.Auth.{Refusal, failed, can_send_message}
use flipchat_server.Backend.{
  Effect, publishes, notes, Notice, Backend, authorizer, chat_event, done,
}
use flipchat_server.Event.Stream.{close, notify, send}
use flipchat_server.Intent.{mark_fulfilled}
use flipchat_server.MessageServer.{draft, use_intent, send_message, message_event, payment_notices}
use flipchat_server.MessageServer
use flipchat_server.MessageServer.Receipts.{use_intent-answer, send_lem}
use flipchat_server.MessageServer.Streaming.{
  messages, LiveStream, Streams, streams_of, selector, notify_all, handle_chat_updates,
}
use flipchat_server.Messaging.{stored_message, put_message, Message, Content, Draft}
use flipchat_server.Base.{
  ltb, if◌then◌else◌, ◌==◌, nat_eq, bytes_eq, Bytes, lookup-adjust, length, ok, Result-cases, Time,
  ℕ, ◌≡◌, refl, inl, inr, Bool, true, Option, none, some, List, [], ◌∷◌, ◌++◌, map, append_nil,
  arith,
}

-- The server's handler on the effects of the background: it is one of the event bus, so it runs on
-- the events that are published.
abbrev pub on_effect : Effect → Streams → Streams
on_effect (publishes e) streams = handle_chat_updates e.chat_id e streams
on_effect _ streams = streams

pub on_outbox : List Effect → Streams → Streams
on_outbox [] streams = streams
on_outbox (x ∷ xs) streams = on_outbox xs (on_effect x streams)

on_outbox-append :
    (xs ys : List Effect) (streams : Streams)
    → on_outbox (xs ++ ys) streams ≡ on_outbox ys (on_outbox xs streams)
unfolding on_outbox
on_outbox-append [] ys streams = refl
on_outbox-append (x ∷ xs) ys streams = on_outbox-append xs ys (on_effect x streams)

on_outbox-notes :
    (ns : List Notice) (streams : Streams) → on_outbox (map notes ns) streams ≡ streams
unfolding on_outbox
on_outbox-notes [] streams = refl
on_outbox-notes (n ∷ ns) streams = on_outbox-notes ns streams

-- What a stream becomes by a message: it is put behind the waiting ones, a stream with no room is
-- closed, and a closed one stays as it is.
abbrev pub receiving : Message → LiveStream → LiveStream
receiving x l = record l {
  stream =
      if l.stream.closed
      then l.stream
      else if ltb (length l.stream.ch) l.stream.capacity
      then record l.stream { ch = l.stream.ch ++ messages (x ∷ []) ∷ [] }
      else record l.stream { closed = true };
}

notify_all-message :
    (c : Bytes) (x : Message) (ls : List LiveStream)
    → notify_all (record (chat_event c) { message_update = some x }) ls ≡ map (receiving x) ls
unfolding notify_all notify selector send close
notify_all-message c x [] = refl
notify_all-message c x (l ∷ ls) = ground (arith, notify_all-message c x ls)

-- A message goes to the streams of its chat and to no other.
on_message :
    (c d : Bytes) (x : Message) (streams : Streams)
    → streams_of d
        (handle_chat_updates c (record (chat_event c) { message_update = some x }) streams)
      ≡ (if c == d then map (receiving x) (streams_of d streams) else streams_of d streams)
unfolding handle_chat_updates
on_message c d x streams =
    let e = record (chat_event c) { message_update = some x } in
    ground (
      arith,
      lookup-adjust c d (notify_all e) streams,
      notify_all-message c x (streams_of d streams),
    )

use_intent-outbox :
    (c u : Bytes) (y : Content) (p : Option Bytes) (x : Message) (s : Backend)
    → (ns : List Notice) × ((use_intent c u y p x s).1.outbox ≡ s.outbox ++ map notes ns)
unfolding use_intent
use_intent-outbox c u y none x s = ([], ground (arith, append_nil s.outbox))
use_intent-outbox c u y (some id) x s =
    let s' = record s { intents = (mark_fulfilled id s.intents).1 } in
    elim (Result-cases (mark_fulfilled id s.intents).0) [
      | inr (e, unmarked) ↦ ([], ground (arith, append_nil s.outbox))
      | inl (o, marked) ↦ (payment_notices c u y id x s', ground arith)
    ]

send-outbox :
    (c : Bytes) (d : Draft) (i : Bytes) (t : Time) (s : Backend)
    → d.message_id ≡ none
    → (MessageServer.send c d i t s).1.outbox
      ≡ s.outbox ++ message_event c (stored_message i t d) ∷ []
unfolding MessageServer.send put_message
send-outbox c d i t s h = ground arith

send_message-outbox :
    (v : ℕ → Bool) (c : Bytes) (y : Content) (p : Option Bytes) (i : Bytes) (t : Time) (u : Bytes)
    (s : Backend) (x : Message)
    → (send_message v c y p i t u s).0 ≡ ok (done x)
    → (ns : List Notice) × ((send_message v c y p i t u s).1.outbox
        ≡ (s.outbox ++ message_event c x ∷ []) ++ map notes ns)
unfolding send_message draft
send_message-outbox v c y p i t u s x h =
    let d = draft v u y p in
    let m = stored_message i t d in
    elim (Result-cases (can_send_message c u y p (authorizer s))) [
      | inr (failed, refused) ↦ absurd (ground arith)
      | inr (Refusal.denied r, refused) ↦ absurd (ground arith)
      | inl (allowed, accepted) ↦
          let s' = (MessageServer.send c d i t s).1 in
          let (ns, noted) = use_intent-outbox c u y p m s' in
          (
            ns,
            ground (
              arith,
              noted,
              send_lem c d i t s refl,
              send-outbox c d i t s refl,
              use_intent-answer c u y p m x s',
            ),
          )
    ]

-- A message that `SendMessage` answers with reaches every stream of its chat, and no other: where
-- the background handles what the server hands over in order, each stream of the chat has the
-- message behind all that was sent before if it is open and has room, is closed if it is open and
-- full, and each stream of another chat is as it was before.
pub send_message-delivered :
    (v : ℕ → Bool) (c : Bytes) (y : Content) (p : Option Bytes) (i : Bytes) (t : Time) (u : Bytes)
    (s : Backend) (x : Message) (d : Bytes) (streams : Streams)
    → (send_message v c y p i t u s).0 ≡ ok (done x)
    → let before = on_outbox s.outbox streams in
      let after = on_outbox (send_message v c y p i t u s).1.outbox streams in
      streams_of d after
      ≡ (if c == d then map (receiving x) (streams_of d before) else streams_of d before)
unfolding message_event on_outbox
send_message-delivered v c y p i t u s x d streams h =
    let (ns, noted) = send_message-outbox v c y p i t u s x h in
    let e = message_event c x in
    let before = on_outbox s.outbox streams in
    rw
      (
        noted,
        on_outbox-append (s.outbox ++ e ∷ []) (map notes ns) streams,
        on_outbox-append s.outbox (e ∷ []) streams,
        on_outbox-notes ns (on_outbox (e ∷ []) before),
      )
      (on_message c d x before)
