-- ===== src/Chat/Members.antt =====
-- chat/memory/store.go: the operations on the members of a chat.
pub mod Index
pub mod Flags
use flipchat_server.Base.{
  if◌then◌else◌, ◌==◌, Bytes, bytes_eq, bytes_lt, insert, has, lookup_or, adjust, keep, contains,
  sort, Result, ok, err, Bool, true, false, not, ◌&&◌, ◌||◌, Option, none, some, List, [], ◌∷◌,
  ◌++◌,
}
use flipchat_server.Chat.{ChatError, chat_not_found, member_not_found, soft_deleted, Member, Store}

abbrev pub members_of : Bytes → Store → List Member
members_of chat_id s = lookup_or chat_id [] s.members

unfoldable pub get_chats_for_user : Bytes → Store → List Bytes
get_chats_for_user user_id s = lookup_or user_id [] s.chats_by_member

unfoldable pub get_members : Bytes → Store → List Member
get_members chat_id s = keep (λ m. not m.is_soft_deleted) (members_of chat_id s)

-- The loop of `GetMember`.
unfoldable pub find_active : Bytes → List Member → Option Member
find_active u [] = none
find_active u (m ∷ ms) =
    if m.user_id == u && not m.is_soft_deleted then some m else find_active u ms

unfoldable pub get_member : Bytes → Bytes → Store → Result ChatError Member
unfolding find_active
get_member chat_id user_id s = elim (find_active user_id (members_of chat_id s)) [
  | none ↦ err member_not_found
  | some m ↦ ok m
]

-- The loop of `IsMember`.
unfoldable pub any_active : Bytes → List Member → Bool
any_active u [] = false
any_active u (m ∷ ms) = if m.user_id == u && not m.is_soft_deleted then true else any_active u ms

unfoldable pub is_member : Bytes → Bytes → Store → Bool
unfolding any_active
is_member chat_id user_id s = any_active user_id (members_of chat_id s)

-- Whether a loop over the members meets the user, soft deleted or not.
unfoldable pub has_user : Bytes → List Member → Bool
has_user u [] = false
has_user u (m ∷ ms) = m.user_id == u || has_user u ms

-- A change made in place to the first member with the user's id.
unfoldable pub update_member : Bytes → (Member → Member) → List Member → List Member
update_member u f [] = []
update_member u f (m ∷ ms) = if m.user_id == u then f m ∷ ms else m ∷ update_member u f ms

abbrev pub before : Member → Member → Bool
before a b = bytes_lt a.user_id b.user_id

-- What `AddMember` writes over a member that it finds.
unfoldable pub revive : Member → Member → Member
revive new m = record m {
  is_soft_deleted = false;
  added_by = new.added_by;
  is_push_enabled = true;
  is_muted = m.is_muted || new.is_muted;
  has_mod_permission = new.has_mod_permission;
  has_send_permission = new.has_send_permission;
}

unfoldable pub readd_member : Bytes → Member → Store → Store
unfolding revive
readd_member chat_id member s = record s {
  members = adjust chat_id (update_member member.user_id (revive member)) s.members;
  chats_by_member =
      let chats = lookup_or member.user_id [] s.chats_by_member in
      if contains chat_id chats
      then s.chats_by_member
      else insert member.user_id (chats ++ chat_id ∷ []) s.chats_by_member;
}

unfoldable pub append_member : Bytes → Member → Store → Store
append_member chat_id member s = record s {
  members =
      insert chat_id
        (sort before (members_of chat_id s ++ record member { is_push_enabled = true } ∷ []))
        s.members;
  chats_by_member =
      insert member.user_id (lookup_or member.user_id [] s.chats_by_member ++ chat_id ∷ [])
        s.chats_by_member;
}

unfoldable pub add_member : Bytes → Member → Store → Result ChatError (Unit {0}) × Store
unfolding readd_member append_member has_user
add_member chat_id member s =
    if member.is_soft_deleted
    then (err soft_deleted, s)
    else if not (has chat_id s.chats)
    then (err chat_not_found, s)
    else if has_user member.user_id (members_of chat_id s)
    then (ok tt, readd_member chat_id member s)
    else (ok tt, append_member chat_id member s)

-- What `RemoveMember` writes over the member that it finds.
unfoldable pub retire : Member → Member
retire m = record m {
  is_soft_deleted = true;
  added_by = none;
  is_push_enabled = true;
  has_mod_permission = false;
  has_send_permission = false;
}

-- The loop of `RemoveMember` over the index: `slices.Delete` of the first match.
unfoldable pub delete_first : Bytes → List Bytes → List Bytes
delete_first c [] = []
delete_first c (d ∷ ds) = if d == c then ds else d ∷ delete_first c ds

unfoldable pub remove_member : Bytes → Bytes → Store → Store
unfolding retire delete_first
remove_member chat_id member s = record s {
  members = adjust chat_id (update_member member retire) s.members;
  chats_by_member = adjust member (delete_first chat_id) s.chats_by_member;
}

-- The loop of the setters: the first member with the user's id, soft deleted or not.
unfoldable pub find_user : Bytes → List Member → Option Member
find_user u [] = none
find_user u (m ∷ ms) = if m.user_id == u then some m else find_user u ms

-- A setter that answers `gone` where the member is soft deleted.
unfoldable pub update_flag :
    Result ChatError (Unit {0})
    → Bytes
    → Bytes
    → (Member → Member)
    → Store
    → Result ChatError (Unit {0}) × Store
update_flag gone chat_id member f s = elim (find_user member (members_of chat_id s)) [
  | none ↦ (err member_not_found, s)
  | some m ↦
      if m.is_soft_deleted
      then (gone, s)
      else (ok tt, record s { members = adjust chat_id (update_member member f) s.members })
]

abbrev pub with_muted : Bool → Member → Member
with_muted b m = record m { is_muted = b }

abbrev pub with_send_permission : Bool → Member → Member
with_send_permission b m = record m { has_send_permission = b }

abbrev pub with_push_enabled : Bool → Member → Member
with_push_enabled b m = record m { is_push_enabled = b }

unfoldable pub set_mute_state : Bytes → Bytes → Bool → Store → Result ChatError (Unit {0}) × Store
unfolding update_flag find_user update_member
set_mute_state chat_id member is_muted =
    update_flag (err member_not_found) chat_id member (with_muted is_muted)

-- Setting the permission of a soft deleted member is no error.
unfoldable pub set_send_permission :
    Bytes → Bytes → Bool → Store → Result ChatError (Unit {0}) × Store
unfolding update_flag find_user update_member
set_send_permission chat_id member has_send_permission =
    update_flag (ok tt) chat_id member (with_send_permission has_send_permission)

unfoldable pub set_push_state : Bytes → Bytes → Bool → Store → Result ChatError (Unit {0}) × Store
unfolding update_flag find_user update_member
set_push_state chat_id member is_push_enabled =
    update_flag (err member_not_found) chat_id member (with_push_enabled is_push_enabled)

-- The loop of `IsUserMuted` and `HasSendPermission`: the test for a soft deleted member comes
-- before the test of the user's id.
read_flag : (Member → Bool) → Bytes → List Member → Result ChatError Bool
read_flag flag u [] = err member_not_found
read_flag flag u (m ∷ ms) =
    if m.is_soft_deleted
    then err member_not_found
    else if m.user_id == u
    then ok (flag m)
    else read_flag flag u ms

unfoldable pub is_user_muted : Bytes → Bytes → Store → Result ChatError Bool
unfolding read_flag
is_user_muted chat_id member s = read_flag (λ m. m.is_muted) member (members_of chat_id s)

unfoldable pub has_send_permission : Bytes → Bytes → Store → Result ChatError Bool
unfolding read_flag
has_send_permission chat_id member s =
    read_flag (λ m. m.has_send_permission) member (members_of chat_id s)

unfoldable pub is_push_enabled : Bytes → Bytes → Store → Result ChatError Bool
unfolding find_user
is_push_enabled chat_id member s = elim (find_user member (members_of chat_id s)) [
  | none ↦ err member_not_found
  | some m ↦ if m.is_soft_deleted then err member_not_found else ok m.is_push_enabled
]
