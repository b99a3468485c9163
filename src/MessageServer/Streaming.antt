-- ===== src/MessageServer/Streaming.antt =====
-- messaging/server.go: the streams of messages, at most one for each user and chat: what opens and
-- ends them, what an event becomes for them, and what the handler forwards to its client.
pub mod Single
pub mod Delivery
mod Examples
use flipchat_server.Auth.{Refusal, failed, can_stream_messages}
use flipchat_server.Backend.{Backend, authorizer}
use flipchat_server.Event.{TypingState, ChatEvent}
use flipchat_server.Event.Stream.{
  Stream, new_stream, close, notify, Received, received, ended, waiting,
}
use flipchat_server.Messaging.{Message, Pointer}
use flipchat_server.Base.{
  ltb, if◌then◌else◌, ◌==◌, nat_eq, bytes_eq, has_value, Bytes, Dict, insert, adjust, lookup_or,
  length, Result, ok, err, Time, ℕ, Bool, true, false, not, ◌&&◌, ◌||◌, Option, none, some, List,
  [], ◌∷◌, ◌++◌, map, ◌*◌, ◌^◌,
}

abbrev stream_buffer_size : ℕ
stream_buffer_size = 64

abbrev max_message_event_batch_size : ℕ
max_message_event_batch_size = 1024

-- `StreamMessagesResponse`, with the member whose a pointer or a typing state is.
pub data Response : Type 0 where
  messages : List Message → Response
  pointer_updates : List (Bytes × Pointer) → Response
  is_typing_notifications : List (Bytes × TypingState) → Response
  ping : Time → ℕ → Response
  stream_denied : Response

-- A `Stream` behind a pointer, which tells it apart from every other one. Its id is its user.
pub record LiveStream : Type 0 where
  pub address : ℕ
  pub stream : Stream Response

-- `Server.streams`, by the bytes of a chat id.
abbrev pub Streams : Type 0
Streams = Dict Bytes (List LiveStream)

abbrev pub streams_of : Bytes → Streams → List LiveStream
streams_of chat_id streams = lookup_or chat_id [] streams

-- The messages of an event: the new one, if there is one, and those of a flush.
event_messages : ChatEvent → List Message
event_messages e = elim e.message_update [ none ↦ [] | some x ↦ x ∷ [] ] ++ e.flushed_messages

-- The part of the selector for events without messages.
other_update : ChatEvent → Option Response
other_update e = elim e.pointer_update [
  | some p ↦ some (pointer_updates (p ∷ []))
  | none ↦ elim e.is_typing [ some t ↦ some (is_typing_notifications (t ∷ [])) | none ↦ none ]
]

unfoldable pub selector : ChatEvent → Option Response
unfolding event_messages other_update
selector e =
    let batch = event_messages e in
    if ltb max_message_event_batch_size (length batch)
    then none
    else if ltb 0 (length batch)
    then some (messages batch)
    else other_update e

-- The loop over the streams of a chat for the user's previous one, which is closed and taken off.
-- It comes with what its own handler still reads.
unfoldable pub close_previous : Bytes → List LiveStream → Option LiveStream × List LiveStream
close_previous user_id [] = (none, [])
close_previous user_id (l ∷ ls) =
    let (previous, rest) = close_previous user_id ls in
    if l.stream.id == user_id
    then (some (record l { stream = close l.stream }), ls)
    else (previous, l ∷ rest)

-- The stream that `StreamMessages` makes, at an address of its own.
abbrev pub new_live_stream : Bytes → ℕ → LiveStream
new_live_stream user_id address = record {
  address = address;
  stream = new_stream user_id stream_buffer_size;
}

-- The start of `StreamMessages`, behind its checks.
unfoldable pub open_stream : Bytes → Bytes → ℕ → Streams → Option LiveStream × Streams
unfolding close_previous
open_stream chat_id user_id address streams =
    let (previous, rest) = close_previous user_id (streams_of chat_id streams) in
    (previous, insert chat_id (rest ++ new_live_stream user_id address ∷ []) streams)

-- The loop of the deferred function: the handler's own stream is taken off, if it is still there.
unfoldable pub drop_address : ℕ → List LiveStream → List LiveStream
drop_address address [] = []
drop_address address (l ∷ ls) =
    let rest = drop_address address ls in if l.address == address then ls else l ∷ rest

-- The end of the handler whose stream has the address.
unfoldable pub end_stream : Bytes → ℕ → Streams → Streams
unfolding drop_address
end_stream chat_id address streams = adjust chat_id (drop_address address) streams

-- How a handler ends: by a message that it sends, or by a status.
pub data Start : Type 0 where
  missing_parameters authorization_failed : Start
  refuses : Response → Start
  opens_stream : Option LiveStream → Start

-- `StreamMessages` up to its loop, for the chat of its parameters and the user that `Authorize`
-- returns.
pub stream_messages : Option Bytes → Bytes → ℕ → Backend → Streams → Start × Streams
unfolding open_stream
stream_messages none user_id address s streams = (missing_parameters, streams)
stream_messages (some chat_id) user_id address s streams =
    elim (can_stream_messages chat_id user_id (authorizer s)) [
      | err failed ↦ (authorization_failed, streams)
      | err _ ↦ (refuses stream_denied, streams)
      | ok _ ↦
          let (previous, streams') = open_stream chat_id user_id address streams in
          (opens_stream previous, streams')
    ]

-- The loop over the streams of a chat; an error is logged.
unfoldable pub notify_all : ChatEvent → List LiveStream → List LiveStream
notify_all e [] = []
notify_all e (l ∷ ls) = record l { stream = (notify selector e l.stream).1 } ∷ notify_all e ls

-- The fast pass filter of `handleChatUpdates`.
abbrev pub is_for_streams : ChatEvent → Bool
is_for_streams e = not (
    not (has_value e.message_update)
    && length e.flushed_messages == 0
    && not (has_value e.pointer_update)
    && not (has_value e.is_typing))

unfoldable pub handle_chat_updates : Bytes → ChatEvent → Streams → Streams
unfolding notify_all
handle_chat_updates chat_id e streams =
    if is_for_streams e then adjust chat_id (notify_all e) streams else streams

-- What the handler's loop may find ready; `select` chooses among these.
pub data Ready : Type 0 where
  from_stream : Received Response → Ready
  ping_due : Time → Ready
  unhealthy cancelled : Ready

-- What the loop does: it sends a message and goes on, or it ends with a status; before anything is
-- ready it waits.
pub data Action : Type 0 where
  sends : Response → Action
  aborted internal_error canceled : Action
  waits : Action

-- `streamPingDelay`: 5 seconds, in nanoseconds.
abbrev stream_ping_delay : ℕ
stream_ping_delay = 5 * 10 ^ 9

forward : Response → Action
forward (messages xs) = sends (messages xs)
forward (pointer_updates ps) = sends (pointer_updates ps)
forward (is_typing_notifications ts) = sends (is_typing_notifications ts)
forward _ = internal_error

unfoldable pub on_ready : Ready → Action
unfolding forward
on_ready (from_stream (received response)) = forward response
on_ready (from_stream ended) = aborted
on_ready (from_stream waiting) = waits
on_ready (ping_due now) = sends (ping now stream_ping_delay)
on_ready unhealthy = aborted
on_ready cancelled = canceled
