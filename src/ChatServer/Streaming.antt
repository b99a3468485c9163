-- ===== src/ChatServer/Streaming.antt =====
-- chat/server.go: the streams of chat events, one for each user that is connected: what opens and
-- closes them, which events reach which of them, and what a new one is filled with.
pub mod Batches
pub mod Privacy
use flipchat_server.Chat.Rooms.{advance_last_chat_activity}
use flipchat_server.Query.{with_limit, with_descending}
use flipchat_server.ChatServer.Reads.{nil_pointer, is_read, get_unread_count, get_metadata_batched}
use flipchat_server.Chat.Members.{get_chats_for_user, get_members, is_member}
use flipchat_server.Messaging.{Message, get_paged_messages, is_user_content}
use flipchat_server.Chat.{Metadata, Member}
use flipchat_server.Backend.{Backend, with_chats, chat_event, Failure, panicked}
use flipchat_server.Event.Stream.{Stream, new_stream, close, stream_closed, timed_out, notify}
use flipchat_server.Event.{
  MemberView, MetadataUpdate, full_refresh, unread_count_changed, last_activity_changed,
  MemberUpdate, members_refreshed, member_refreshed, joined, left, promoted, demoted, muted,
  ChatEvent,
}
use flipchat_server.Base.{
  ltb, leb, if◌then◌else◌, ◌==◌, has_value, Bytes, bytes_eq, Dict, lookup, insert, erase, adjust,
  length, sort, Result, ok, err, ◌>>=◌, Time, unix_epoch, as_time, pos, ℕ, Bool, true, false, not,
  ◌&&◌, ◌||◌, Option, none, some, List, [], ◌∷◌, ◌++◌, map,
}

abbrev pub stream_buffer_size : ℕ
stream_buffer_size = 64

abbrev pub max_chat_event_batch_size : ℕ
max_chat_event_batch_size = 1024

abbrev pub flushed_chat_batch_size : ℕ
flushed_chat_batch_size = 32

-- `StreamChatEventsResponse_ChatUpdate`
pub record ChatUpdate : Type 0 where
  pub chat_id : Bytes
  pub metadata_updates : List MetadataUpdate
  pub member_updates : List MemberUpdate
  pub last_message : Option Message

-- `Server.streams`, by the bytes of a user id.
abbrev pub Streams : Type 0
Streams = Dict Bytes (Stream (List ChatUpdate))

-- The events that the selector does not route to a user: any pointer but the user's own read
-- pointer, and typing states.
unfoldable pub is_routed : Bytes → ChatEvent → Bool
is_routed user_id e =
    elim e.pointer_update [ none ↦ true | some (u, p) ↦ is_read p.kind && u == user_id ]
    && not (has_value e.is_typing)

mark_self : Bytes → MemberView → MemberView
mark_self user_id v = record v {
  member = record v.member { is_self = v.member.user_id == user_id };
}

mark_selves : Bytes → MemberUpdate → MemberUpdate
unfolding mark_self
mark_selves user_id (members_refreshed views) = members_refreshed (map (mark_self user_id) views)
mark_selves user_id (member_refreshed view) = member_refreshed (mark_self user_id view)
mark_selves user_id (joined view) = joined (mark_self user_id view)
mark_selves user_id (left u) = left u
mark_selves user_id (promoted u by) = promoted u by
mark_selves user_id (demoted u by) = demoted u by
mark_selves user_id (muted u by) = muted u by

abbrev has_user_content : ChatEvent → Bool
has_user_content e = elim e.message_update [ none ↦ false | some x ↦ is_user_content x.content ]

-- The user's own read pointer in an event.
own_read_pointer : Bytes → ChatEvent → Option Bytes
own_read_pointer user_id e = elim e.pointer_update [
  | none ↦ none
  | some (u, p) ↦ if is_read p.kind && u == user_id then some p.value else none
]

-- The unread count that comes with a message with user content, or with the user's read pointer.
unread_update : Bytes → ChatEvent → Backend → List MetadataUpdate
unfolding own_read_pointer
unread_update user_id e s =
    let read_ptr = own_read_pointer user_id e in
    let (n, more) = get_unread_count e.chat_id user_id read_ptr s in
    if has_user_content e || has_value read_ptr then unread_count_changed n more ∷ [] else []

unfoldable pub chat_update : Bytes → ChatEvent → Backend → ChatUpdate
unfolding unread_update mark_selves
chat_update user_id e s = record {
  chat_id = e.chat_id;
  metadata_updates = e.metadata_updates ++ unread_update user_id e s;
  member_updates = map (mark_selves user_id) e.member_updates;
  last_message = e.message_update;
}

-- The loop of the selector: events of chats of which the user is not a member are left out.
unfoldable pub chat_updates : Bytes → List ChatEvent → Backend → List ChatUpdate
chat_updates user_id [] s = []
chat_updates user_id (e ∷ es) s =
    let rest = chat_updates user_id es s in
    if is_routed user_id e && is_member e.chat_id user_id s.chats
    then chat_update user_id e s ∷ rest
    else rest

abbrev or_nothing : {A : Type 0} → List A → Option (List A)
or_nothing [] = none
or_nothing (x ∷ xs) = some (x ∷ xs)

unfoldable pub selector : Bytes → Backend → List ChatEvent → Option (List ChatUpdate)
unfolding chat_updates
selector user_id s events =
    if ltb max_chat_event_batch_size (length events)
    then none
    else or_nothing (chat_updates user_id events s)

-- The start of `StreamChatEvents`: a new stream replaces the user's previous one, which is closed.
-- It comes with what its own handler still reads.
unfoldable pub open_stream : Bytes → Streams → Option (Stream (List ChatUpdate)) × Streams
open_stream user_id streams = (
  elim (lookup user_id streams) [ none ↦ none | some existing ↦ some (close existing) ],
  insert user_id (new_stream user_id stream_buffer_size) streams,
)

-- The end of the handler that owns the user's current stream.
pub end_stream : Bytes → Streams → Streams
end_stream user_id streams = erase user_id streams

-- A notification of the stream of a user, if there is one; an error is logged.
unfoldable pub notify_user : Bytes → List ChatEvent → Backend → Streams → Streams
notify_user user_id events s streams =
    adjust user_id (λ stream. (notify (selector user_id s) events stream).1) streams

pub notify_members : List Member → ChatEvent → Backend → Streams → Streams
unfolding notify_user
notify_members [] e s streams = streams
notify_members (m ∷ ms) e s streams =
    notify_members ms e s (notify_user m.user_id (e ∷ []) s streams)

-- A message with user content brings the last activity of its chat up to its timestamp.
unfoldable pub advance_activity : Bytes → ChatEvent → Backend → ChatEvent × Backend
advance_activity chat_id e s = elim e.message_update [
  | none ↦ (e, s)
  | some x ↦
      if is_user_content x.content
      then (
        record e { metadata_updates = e.metadata_updates ++ last_activity_changed x.ts ∷ [] },
        with_chats (advance_last_chat_activity chat_id x.ts s.chats).1 s,
      )
      else (e, s)
]

-- The part of `OnChatEvent` for events that go to all the members of the chat.
unfoldable pub broadcast : Bytes → ChatEvent → Backend → Streams → Backend × Streams
unfolding advance_activity notify_members
broadcast chat_id e s streams =
    let (e', s') = advance_activity chat_id e s in
    (s', notify_members (get_members chat_id s'.chats) e' s' streams)

unfoldable pub on_chat_event : Bytes → ChatEvent → Backend → Streams → Backend × Streams
unfolding broadcast notify_user
on_chat_event chat_id e s streams = elim e.pointer_update [
  | some (u, p) ↦ (s, if is_read p.kind then notify_user u (e ∷ []) s streams else streams)
  | none ↦ if has_value e.is_typing then (s, streams) else broadcast chat_id e s streams
]

-- The last element, if there is one.
last_of : List Message → Option Message
last_of [] = none
last_of (x ∷ []) = some x
last_of (x ∷ y ∷ xs) = last_of (y ∷ xs)

-- The event that brings a chat to a new stream, with its last message.
flushed_event : Bytes → Metadata → Backend → ChatEvent
unfolding last_of
flushed_event chat_id md s = record (chat_event chat_id) {
  metadata_updates = full_refresh md ∷ [];
  message_update =
      last_of (get_paged_messages chat_id (with_descending ∷ with_limit (pos 1) ∷ []) s.messages);
}

-- The loop that makes the events; it dereferences the chat ids.
flushed_events : List Metadata → Backend → Result Failure (List ChatEvent)
unfolding flushed_event
flushed_events [] s = ok []
flushed_events (md ∷ mds) s =
    let rest = flushed_events mds s in
    elim md.chat_id [
      | none ↦ err panicked
      | some chat_id ↦ rest >>= λ es. ok (flushed_event chat_id md s ∷ es)
    ]

-- The last activity that the events are sorted by, that of their full refresh.
activity_of : List MetadataUpdate → Time
activity_of (full_refresh md ∷ us) = as_time md.last_activity
activity_of _ = unix_epoch

later : ChatEvent → ChatEvent → Bool
unfolding activity_of
later a b = ltb (activity_of b.metadata_updates) (activity_of a.metadata_updates)

-- The loop that cuts the events into batches, from the batch that it has begun.
unfoldable pub batches : ℕ → List ChatEvent → List ChatEvent → List (List ChatEvent)
batches size batch [] = if ltb 0 (length batch) then batch ∷ [] else []
batches size batch (e ∷ es) =
    let grown = batch ++ e ∷ [] in
    let cut = batches size [] es in
    let longer = batches size grown es in if leb size (length grown) then grown ∷ cut else longer

-- The first batch that the stream does not take ends the flush.
notify_batches :
    Bytes → Backend → List (List ChatEvent) → Stream (List ChatUpdate) → Stream (List ChatUpdate)
notify_batches user_id s [] stream = stream
notify_batches user_id s (batch ∷ rest) stream =
    let (result, stream') = notify (selector user_id s) batch stream in
    let all = notify_batches user_id s rest stream' in
    elim result [ stream_closed ↦ stream' | timed_out ↦ stream' | _ ↦ all ]

-- `flushInitialState`, on a stream that was just opened. Errors are logged.
unfoldable pub flush_initial_state :
    Bytes → Backend → Stream (List ChatUpdate) → Result Failure (Stream (List ChatUpdate))
unfolding flushed_events notify_batches later
flush_initial_state user_id s stream =
    elim (get_metadata_batched (get_chats_for_user user_id s.chats) (some user_id) s) [
      | err nil_pointer ↦ err panicked
      | err _ ↦ ok stream
      | ok mds ↦ flushed_events mds s >>= λ events.
          ok (
            notify_batches user_id s (batches flushed_chat_batch_size [] (sort later events))
              stream)
    ]
