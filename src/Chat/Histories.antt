-- ===== src/Chat/Histories.antt =====
-- chat/memory/store.go: the calls that write to the store, and what holds after any sequence of
-- them.
use flipchat_server.Chat.Rooms.Numbers.{
  Numbered, new_in_memory-Numbered, one_more, create_chat-Numbered, update_chat-Numbered,
  Numbered-get_chat_id,
}
use flipchat_server.Base.{
  if◌then◌else◌, Bytes, bytes_eq, length, count, Result, ok, err, Time, ℕ, ◌+◌, ◌<◌, ◌≡◌, refl, ◌↔◌,
  Bool, Option, some, List, [], ◌∷◌, arith,
}
use flipchat_server.Chat.{
  ChatError, member_not_found, Metadata, Member, Store, new_in_memory, uint64_mod,
}
use flipchat_server.Chat.Rooms.{
  get_chat_id, get_chat_metadata, create_chat, update_chat, set_display_name, set_description,
  set_messaging_fee, set_open_status, advance_last_chat_activity, create_chat-members,
  update_chat-members,
}
use flipchat_server.Chat.Members.{
  get_chats_for_user, is_member, add_member, remove_member, update_flag, with_muted,
  with_send_permission, with_push_enabled, set_mute_state, set_send_permission, set_push_state,
}
use flipchat_server.Chat.Members.Index.{
  IsValid, new_in_memory-IsValid, remove_member-IsValid, add_member-IsValid, update_flag-IsValid,
  same_members-IsValid,
}

pub data Call : Type 0 where
  creates : Metadata → Call
  names : Bytes → Bytes → Call
  describes : Bytes → Bytes → Call
  charges : Bytes → Option ℕ → Call
  opens : Bytes → Bool → Call
  advances : Bytes → Time → Call
  adds : Bytes → Member → Call
  removes : Bytes → Bytes → Call
  mutes : Bytes → Bytes → Bool → Call
  permits : Bytes → Bytes → Bool → Call
  pushes : Bytes → Bytes → Bool → Call

unfoldable pub step : Call → Store → Store
step (creates md) s = (create_chat md s).1
step (names c name) s = (set_display_name c name s).1
step (describes c text) s = (set_description c text s).1
step (charges c fee) s = (set_messaging_fee c fee s).1
step (opens c is_open) s = (set_open_status c is_open s).1
step (advances c ts) s = (advance_last_chat_activity c ts s).1
step (adds c m) s = (add_member c m s).1
step (removes c u) s = remove_member c u s
step (mutes c u b) s = (set_mute_state c u b s).1
step (permits c u b) s = (set_send_permission c u b s).1
step (pushes c u b) s = (set_push_state c u b s).1

unfoldable pub run : List Call → Store → Store
unfolding step
run [] s = s
run (c ∷ cs) s = run cs (step c s)

updated-IsValid :
    (c : Bytes) (f : Metadata → Metadata) (s : Store) → IsValid s → IsValid (update_chat c f s).1
updated-IsValid c f s v =
    let (same, index) = update_chat-members c f s in same_members-IsValid s _ same index v

step-IsValid : (c : Call) (s : Store) → IsValid s → IsValid (step c s)
unfolding step set_mute_state set_send_permission set_push_state set_display_name set_description
    set_messaging_fee set_open_status advance_last_chat_activity
step-IsValid (creates md) s v =
    let (same, index) = create_chat-members md s in same_members-IsValid s _ same index v
step-IsValid (names c name) s v = updated-IsValid c _ s v
step-IsValid (describes c text) s v = updated-IsValid c _ s v
step-IsValid (charges c fee) s v = updated-IsValid c _ s v
step-IsValid (opens c is_open) s v = updated-IsValid c _ s v
step-IsValid (advances c ts) s v = updated-IsValid c _ s v
step-IsValid (adds c m) s v = add_member-IsValid c m s v
step-IsValid (removes c u) s v = remove_member-IsValid c u s v
step-IsValid (mutes c u b) s v =
    update_flag-IsValid (err member_not_found) c u (with_muted b) s v (λ m. refl) (λ m. refl)
step-IsValid (permits c u b) s v =
    update_flag-IsValid (ok tt) c u (with_send_permission b) s v (λ m. refl) (λ m. refl)
step-IsValid (pushes c u b) s v =
    update_flag-IsValid (err member_not_found) c u (with_push_enabled b) s v (λ m. refl) (λ m. refl)

pub run-IsValid : (cs : List Call) (s : Store) → IsValid s → IsValid (run cs s)
unfolding run
run-IsValid [] s v = v
run-IsValid (c ∷ cs) s v = run-IsValid cs (step c s) (step-IsValid c s v)

pub reached-IsValid : (cs : List Call) → IsValid (run cs new_in_memory)
reached-IsValid cs = run-IsValid cs new_in_memory new_in_memory-IsValid

-- After any sequence of writes to a new store, `GetChatsForUser` lists a chat for a user once if
-- `IsMember` accepts the user in the chat, and not at all otherwise.
pub get_chats_for_user-is_member :
    (cs : List Call) (c u : Bytes)
    → let s = run cs new_in_memory in
      count c (get_chats_for_user u s) ≡ (if is_member c u s then 1 else 0)
unfolding get_chats_for_user is_member
get_chats_for_user-is_member cs c u = (reached-IsValid cs).agree c u

-- The operations on members leave the chats and the numbering of rooms alone.
abbrev SameRooms : Store → Store → Type 0
SameRooms s s' = (s'.chats ≡ s.chats) × (s'.ids ≡ s.ids) × (s'.next_room ≡ s.next_room)

add_member-SameRooms : (c : Bytes) (m : Member) (s : Store) → SameRooms s (add_member c m s).1
unfolding add_member
add_member-SameRooms c m s = (ground arith, ground arith, ground arith)

update_flag-SameRooms :
    (gone : Result ChatError (Unit {0})) (c u : Bytes) (f : Member → Member) (s : Store)
    → SameRooms s (update_flag gone c u f s).1
unfolding update_flag
update_flag-SameRooms gone c u f s = (ground arith, ground arith, ground arith)

same-Numbered : (n : ℕ) (s s' : Store) → SameRooms s s' → Numbered n s → Numbered n s'
same-Numbered n s s' (chats, ids, next_room) v = record {
  next = ground (arith, v.next);
  agree = λ r c. ground (arith, v.agree r c);
  below = λ r h. ground (arith, v.below r);
  own = λ c md h. ground (arith, v.own c md);
}

step-Numbered :
    (c : Call) (n : ℕ) (s : Store) → n + 2 < uint64_mod → Numbered n s → Numbered (n + 1) (step c s)
unfolding step remove_member set_mute_state set_send_permission set_push_state set_display_name
    set_description set_messaging_fee set_open_status advance_last_chat_activity
step-Numbered (creates md) n s room v = create_chat-Numbered n s v room md
step-Numbered (names c name) n s room v =
    one_more n _ (update_chat-Numbered n c _ s v (λ md. refl) (λ md. refl)) room
step-Numbered (describes c text) n s room v =
    one_more n _ (update_chat-Numbered n c _ s v (λ md. refl) (λ md. refl)) room
step-Numbered (charges c fee) n s room v =
    one_more n _ (update_chat-Numbered n c _ s v (λ md. refl) (λ md. refl)) room
step-Numbered (opens c is_open) n s room v =
    one_more n _ (update_chat-Numbered n c _ s v (λ md. refl) (λ md. refl)) room
step-Numbered (advances c ts) n s room v =
    one_more n _ (update_chat-Numbered n c _ s v (λ md. ground arith) (λ md. ground arith)) room
step-Numbered (adds c m) n s room v =
    one_more n _ (same-Numbered n s _ (add_member-SameRooms c m s) v) room
step-Numbered (removes c u) n s room v =
    one_more n _ (same-Numbered n s _ (refl, refl, refl) v) room
step-Numbered (mutes c u b) n s room v =
    one_more n _ (same-Numbered n s _ (update_flag-SameRooms _ c u _ s) v) room
step-Numbered (permits c u b) n s room v =
    one_more n _ (same-Numbered n s _ (update_flag-SameRooms _ c u _ s) v) room
step-Numbered (pushes c u b) n s room v =
    one_more n _ (same-Numbered n s _ (update_flag-SameRooms _ c u _ s) v) room

run-Numbered :
    (cs : List Call) (n : ℕ) (s : Store)
    → n + length cs + 2 < uint64_mod
    → Numbered n s
    → (k : ℕ) × Numbered k (run cs s)
unfolding run
run-Numbered [] n s room v = (n, v)
run-Numbered (c ∷ cs) n s room v =
    run-Numbered cs (n + 1) (step c s) (omega arith) (step-Numbered c n s (omega arith) v)

-- After a sequence of fewer than 2 ^ 64 - 2 writes to a new store, `GetChatID` returns a chat for
-- a room number exactly when `GetChatMetadata` finds the chat with that room number, under its own
-- chat id.
pub get_chat_id_iff :
    (cs : List Call) (r : ℕ) (c : Bytes)
    → length cs + 2 < uint64_mod
    → let s = run cs new_in_memory in
      (get_chat_id r s ≡ ok c) ↔ (
        (md : Metadata) × (get_chat_metadata c s ≡ ok md)
        × (md.room_number ≡ r)
        × (md.chat_id ≡ some c))
get_chat_id_iff cs r c room =
    let (k, v) = run-Numbered cs 0 new_in_memory (omega arith) new_in_memory-Numbered in
    Numbered-get_chat_id k r c _ v
