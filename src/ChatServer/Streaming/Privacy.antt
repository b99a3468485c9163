-- ===== src/ChatServer/Streaming/Privacy.antt =====
-- chat/server.go: events of a chat reach its members only.
use flipchat_server.Backend.{Backend}
use flipchat_server.Chat.{Member, Store}
use flipchat_server.Event.{ChatEvent}
use flipchat_server.Chat.Members.{get_members, is_member}
use flipchat_server.Chat.Rooms.{advance_last_chat_activity, update_chat-members}
use flipchat_server.Event.Stream.{notify}
use flipchat_server.ChatServer.Streaming.{
  Streams, chat_updates, selector, notify_user, notify_members, advance_activity, broadcast,
  on_chat_event,
}
use flipchat_server.Chat
use flipchat_server.Base.{
  ◌==◌, Bool-cases, Option-cases, Bytes, bytes_eq, lookup, lookup-adjust, Time, ◌≡◌, refl, ◌∙◌, inl,
  inr, false, none, List, [], ◌∷◌, arith,
}

-- A batch of one event of a chat of which the user is no member selects nothing.
selector-not_member :
    (u : Bytes) (e : ChatEvent) (s : Backend)
    → is_member e.chat_id u s.chats ≡ false
    → selector u s (e ∷ []) ≡ none
unfolding selector chat_updates
selector-not_member u e s h = ground (arith, h)

notify_user-lookup :
    (v u : Bytes) (e : ChatEvent) (s : Backend) (streams : Streams)
    → is_member e.chat_id u s.chats ≡ false
    → lookup u (notify_user v (e ∷ []) s streams) ≡ lookup u streams
unfolding notify_user notify
notify_user-lookup v u e s streams h = elim (Bool-cases (v == u)) [
  | inl same ↦ ground (
    arith,
    lookup-adjust v u (λ stream. (notify (selector v s) (e ∷ []) stream).1) streams,
    selector-not_member u e s h,
  )
  | inr apart ↦
      ground
        (arith, lookup-adjust v u (λ stream. (notify (selector v s) (e ∷ []) stream).1) streams)
]

notify_members-lookup :
    (ms : List Member) (u : Bytes) (e : ChatEvent) (s : Backend) (streams : Streams)
    → is_member e.chat_id u s.chats ≡ false
    → lookup u (notify_members ms e s streams) ≡ lookup u streams
unfolding notify_members
notify_members-lookup [] u e s streams h = refl
notify_members-lookup (m ∷ ms) u e s streams h =
    notify_members-lookup ms u e s (notify_user m.user_id (e ∷ []) s streams) h
    ∙ notify_user-lookup m.user_id u e s streams h

advanced-members :
    (c : Bytes) (t : Time) (m : Chat.Store)
    → (advance_last_chat_activity c t m).1.members ≡ m.members
unfolding advance_last_chat_activity
advanced-members c t m = (update_chat-members c _ m).0

advance_activity-is_member :
    (c u : Bytes) (e : ChatEvent) (s : Backend)
    → let (e', s') = advance_activity c e s in
      is_member e'.chat_id u s'.chats ≡ is_member e.chat_id u s.chats
unfolding advance_activity is_member
advance_activity-is_member c u e s = elim (Option-cases e.message_update) [
  | inl absent ↦ ground arith
  | inr (x, present) ↦ ground (arith, advanced-members c x.ts s.chats)
]

-- An event of a chat never reaches the stream of a user who is not a member of the chat, not even
-- one who was a member before: whatever the event holds, handling it leaves that user's stream as
-- it was.
pub on_chat_event-not_member :
    (c u : Bytes) (e : ChatEvent) (s : Backend) (streams : Streams)
    → is_member e.chat_id u s.chats ≡ false
    → lookup u (on_chat_event c e s streams).1 ≡ lookup u streams
unfolding on_chat_event broadcast
on_chat_event-not_member c u e s streams h = elim (Option-cases e.pointer_update) [
  | inr ((w, p), present) ↦ ground (arith, notify_user-lookup w u e s streams h)
  | inl absent ↦
      let (e', s') = advance_activity c e s in
      ground (
        arith,
        advance_activity-is_member c u e s,
        notify_members-lookup (get_members c s'.chats) u e' s' streams,
      )
]
