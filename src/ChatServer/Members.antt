-- ===== src/ChatServer/Members.antt =====
-- chat/server.go: the handlers on the members of a chat.
pub mod Ownership
pub mod Authority
use flipchat_server.ChatServer.Reads.{no_such_chat, get_metadata, failure}
use flipchat_server.Account.{is_registered}
use flipchat_server.Chat.Members.{
  get_member, is_member, remove_member, set_mute_state, set_send_permission, set_push_state,
  has_send_permission, is_push_enabled,
}
use flipchat_server.Chat.{member_not_found, Metadata, Member}
use flipchat_server.ChatServer.Settings.{owned_by, as_group_owner, finish}
use flipchat_server.Backend.{
  promoted_to_speaker, demoted_to_listener, user_muted, Effect, publishes, announces, Backend,
  with_chats, emit, chat_event, internal, done, denied, not_registered, Reply,
}
use flipchat_server.Event.{MemberUpdate, left, promoted, demoted, muted}
use flipchat_server.Base.{
  if◌then◌else◌, ◌==◌, Bytes, bytes_eq, ok, err, Bool, true, false, not, ◌||◌, none, [], ◌∷◌,
}
use flipchat_server.Chat

-- An event that one update of a member of a chat makes.
abbrev pub member_event : Bytes → MemberUpdate → Effect
member_event chat_id update =
    publishes (record (chat_event chat_id) { member_updates = update ∷ [] })

-- The member that a handler is about.
abbrev pub find_member : Bytes → Bytes → Backend → (Member → Reply (Unit {0})) → Reply (Unit {0})
find_member chat_id user_id s change = elim (get_member chat_id user_id s.chats) [
  | err Chat.member_not_found ↦ (ok denied, s)
  | err _ ↦ (err internal, s)
  | ok m ↦ change m
]

-- The part of `PromoteUser` behind the checks.
promote : Bytes → Bytes → Bytes → Bool → Member → Backend → Reply (Unit {0})
unfolding finish
promote chat_id owner_id user_id enable_send_permission m s =
    if not (is_registered m.user_id s.accounts)
    then (ok not_registered, s)
    else if not enable_send_permission || m.has_send_permission
    then (ok (done tt), s)
    else finish
        (announces chat_id (promoted_to_speaker owner_id user_id)
          ∷ member_event chat_id (promoted user_id owner_id)
          ∷ [])
        s (set_send_permission chat_id user_id true s.chats)

unfoldable pub promote_user : Bytes → Bytes → Bool → Bytes → Backend → Reply (Unit {0})
unfolding as_group_owner promote
promote_user chat_id user_id enable_send_permission owner_id s =
    if owner_id == user_id
    then (ok denied, s)
    else as_group_owner chat_id owner_id s (λ md.
      find_member chat_id user_id s
        (λ m. promote chat_id owner_id user_id enable_send_permission m s))

-- The part of `DemoteUser` behind the checks.
demote : Bytes → Bytes → Bytes → Bool → Member → Backend → Reply (Unit {0})
unfolding finish
demote chat_id owner_id user_id disable_send_permission m s =
    if not disable_send_permission || not m.has_send_permission
    then (ok (done tt), s)
    else finish
        (announces chat_id (demoted_to_listener user_id)
          ∷ member_event chat_id (demoted user_id owner_id)
          ∷ [])
        s (set_send_permission chat_id user_id false s.chats)

unfoldable pub demote_user : Bytes → Bytes → Bool → Bytes → Backend → Reply (Unit {0})
unfolding as_group_owner demote
demote_user chat_id user_id disable_send_permission owner_id s =
    if owner_id == user_id
    then (ok denied, s)
    else as_group_owner chat_id owner_id s (λ md.
      find_member chat_id user_id s
        (λ m. demote chat_id owner_id user_id disable_send_permission m s))

-- `RemoveUser` is disabled.
pub remove_user : Bytes → Bytes → Bytes → Backend → Reply (Unit {0})
remove_user chat_id user_id owner_id s = (ok denied, s)

-- The part of `MuteUser` behind the checks.
mute : Bytes → Bytes → Bytes → Member → Backend → Reply (Unit {0})
unfolding finish
mute chat_id owner_id user_id m s =
    if m.is_muted
    then (ok (done tt), s)
    else finish
        (announces chat_id (user_muted owner_id user_id)
          ∷ member_event chat_id (muted user_id owner_id)
          ∷ [])
        s (set_mute_state chat_id user_id true s.chats)

-- The checks of `MuteUser`, which leaves the type of the chat out.
as_owner : Bytes → Bytes → Backend → (Metadata → Reply (Unit {0})) → Reply (Unit {0})
as_owner chat_id user_id s change = elim (get_metadata chat_id none s) [
  | err no_such_chat ↦ (ok denied, s)
  | err e ↦ (err (failure e), s)
  | ok md ↦ if not (owned_by md user_id) then (ok denied, s) else change md
]

unfoldable pub mute_user : Bytes → Bytes → Bytes → Backend → Reply (Unit {0})
unfolding as_owner mute
mute_user chat_id user_id owner_id s =
    if owner_id == user_id
    then (ok denied, s)
    else as_owner chat_id owner_id s
        (λ md. find_member chat_id user_id s (λ m. mute chat_id owner_id user_id m s))

-- The body of `MuteChat` and of `UnmuteChat`.
unfoldable pub change_push_state : Bytes → Bool → Bytes → Backend → Reply (Unit {0})
unfolding finish
change_push_state chat_id is_push_enabled user_id s =
    if not (is_member chat_id user_id s.chats)
    then (ok denied, s)
    else finish [] s (set_push_state chat_id user_id is_push_enabled s.chats)

unfoldable pub mute_chat : Bytes → Bytes → Backend → Reply (Unit {0})
unfolding change_push_state
mute_chat chat_id user_id s = change_push_state chat_id false user_id s

unfoldable pub unmute_chat : Bytes → Bytes → Backend → Reply (Unit {0})
unfolding change_push_state
unmute_chat chat_id user_id s = change_push_state chat_id true user_id s

-- `ReportUser` does nothing yet.
pub report_user : Bytes → Bytes → Backend → Reply (Unit {0})
report_user user_id message_id s = (ok (done tt), s)

-- `LeaveChat`
unfoldable pub leave_chat : Bytes → Bytes → Backend → Reply (Unit {0})
leave_chat chat_id user_id s = (
  ok (done tt),
  emit (member_event chat_id (left user_id) ∷ [])
      (with_chats (remove_member chat_id user_id s.chats) s),
)
