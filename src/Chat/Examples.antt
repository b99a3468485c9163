-- ===== src/Chat/Examples.antt =====
-- Runs of the chat store, and its theorems at concrete inputs.
use native.Mathlib.Decide.{ℕ_discrete}
use flipchat_server.Base.{
  if◌then◌else◌, nat_eq, Bytes, bytes_discrete, bytes_eq, bytes_lt, lookup, insert, adjust,
  contains, sort, count, ok, err, ◌≡◌, refl, ◌↔◌, true, false, none, some, List, [], ◌∷◌, arith,
}
use flipchat_server.Chat.{member_not_found, group, Metadata, Member, Store, new_in_memory}
use flipchat_server.Chat.Rooms.{get_chat_id, get_chat_metadata, create_chat}
use flipchat_server.Chat.Members.{
  get_chats_for_user, is_member, has_user, update_member, add_member, remove_member, is_user_muted,
  has_send_permission,
}
use flipchat_server.Chat.Members.Index.{IsValid}
use flipchat_server.Chat.Members.Flags.{is_user_muted_hidden}
use flipchat_server.Chat.Histories.{
  Call, creates, adds, removes, run, reached-IsValid, get_chats_for_user-is_member, get_chat_id_iff,
}

abbrev room : Bytes
room = 5 ∷ []

abbrev alice : Bytes
alice = 1 ∷ []

abbrev bob : Bytes
bob = 2 ∷ []

abbrev metadata : Metadata
metadata = record {
  chat_id = some room;
  kind = group;
  display_name = [];
  description = [];
  room_number = 0;
  is_push_enabled = true;
  can_disable_push = true;
  num_unread = 3;
  has_more_unread = true;
  owner = some alice;
  messaging_fee = some 1;
  last_activity = none;
  open_status = none;
}

abbrev member : Bytes → Member
member u = record {
  user_id = u;
  added_by = none;
  is_push_enabled = false;
  is_muted = false;
  has_mod_permission = false;
  has_send_permission = true;
  is_soft_deleted = false;
}

-- Bob joins before Alice; Alice leaves.
abbrev history : List Call
history =
    creates metadata ∷ adds room (member bob) ∷ adds room (member alice) ∷ removes room alice ∷ []

abbrev alice_gone : Member
alice_gone = record (member alice) {
  is_soft_deleted = true;
  is_push_enabled = true;
  has_send_permission = false;
}

abbrev bob_active : Member
bob_active = record (member bob) { is_push_enabled = true }

abbrev stored : Metadata
stored = record metadata {
  room_number = 1;
  num_unread = 0;
  has_more_unread = false;
  is_push_enabled = false;
  can_disable_push = false;
  open_status = some true;
}

abbrev reached : Store
reached = record {
  chats = (room, stored) ∷ [];
  members = (room, alice_gone ∷ bob_active ∷ []) ∷ [];
  next_room = 2;
  ids = (1, room) ∷ [];
  chats_by_member = (bob, room ∷ []) ∷ (alice, []) ∷ [];
}

run-history : run history new_in_memory ≡ reached
unfolding run create_chat add_member remove_member lookup insert adjust sort bytes_discrete bytes_lt
    ℕ_discrete contains update_member
run-history = refl

example-IsValid : IsValid reached
example-IsValid = rw run-history at (reached-IsValid history)

get_chats_for_user-is_member_example :
    let s = run history new_in_memory in
    count room (get_chats_for_user bob s) ≡ (if is_member room bob s then 1 else 0)
get_chats_for_user-is_member_example = get_chats_for_user-is_member history room bob

get_chat_id_iff_example :
    let s = run history new_in_memory in
    (get_chat_id 1 s ≡ ok room) ↔ (
      (md : Metadata) × (get_chat_metadata room s ≡ ok md)
      × (md.room_number ≡ 1)
      × (md.chat_id ≡ some room))
get_chat_id_iff_example = get_chat_id_iff history 1 room (omega arith)

is_user_muted_hidden_example :
    (is_user_muted room bob reached ≡ err member_not_found)
    × (has_send_permission room bob reached ≡ err member_not_found)
unfolding lookup has_user bytes_discrete
is_user_muted_hidden_example =
    is_user_muted_hidden room bob alice_gone [] (bob_active ∷ []) reached refl refl refl
