-- ===== src/ChatServer/Members/Ownership.antt =====
-- chat/server.go: only the owner of a group changes its settings and the rights of its members.
use flipchat_server.Chat.{Metadata}
use flipchat_server.ChatServer.Reads.{get_metadata}
use flipchat_server.Backend.{Backend, denied, Reply}
use flipchat_server.Chat.Rooms.{get_chat_metadata}
use flipchat_server.ChatServer.Members.{
  find_member, promote, promote_user, demote, demote_user, mute, as_owner, mute_user,
}
use flipchat_server.ChatServer.Settings.{
  owned_by, as_group_owner, open_chat, close_chat, change_display_name, change_description,
  change_messaging_fee,
}
use flipchat_server.Base.{
  ◌==◌, Bool-cases, Bytes, bytes_eq, ok, ℕ, ◌≡◌, inl, inr, Bool, false, arith,
}

-- The calls that are for the owner of a group.
pub data OwnerCall : Type 0 where
  opens closes : OwnerCall
  renames : Bytes → OwnerCall
  describes : Bytes → OwnerCall
  charges : ℕ → OwnerCall
  promotes : Bytes → Bool → OwnerCall
  demotes : Bytes → Bool → OwnerCall
  mutes : Bytes → OwnerCall

unfoldable pub handle : OwnerCall → Bytes → Bytes → Backend → Reply (Unit {0})
handle opens c u s = open_chat c u s
handle closes c u s = close_chat c u s
handle (renames name) c u s = change_display_name c name u s
handle (describes text) c u s = change_description c text u s
handle (charges quarks) c u s = change_messaging_fee c quarks u s
handle (promotes v b) c u s = promote_user c v b u s
handle (demotes v b) c u s = demote_user c v b u s
handle (mutes v) c u s = mute_user c v u s

as_group_owner-denied :
    (c u : Bytes) (md : Metadata) (s : Backend) (change : Metadata → Reply (Unit {0}))
    → get_chat_metadata c s.chats ≡ ok md
    → owned_by md u ≡ false
    → as_group_owner c u s change ≡ (ok denied, s)
unfolding as_group_owner get_metadata owned_by
as_group_owner-denied c u md s change found other = ground (arith, found, other)

as_owner-denied :
    (c u : Bytes) (md : Metadata) (s : Backend) (change : Metadata → Reply (Unit {0}))
    → get_chat_metadata c s.chats ≡ ok md
    → owned_by md u ≡ false
    → as_owner c u s change ≡ (ok denied, s)
unfolding as_owner get_metadata owned_by
as_owner-denied c u md s change found other = ground (arith, found, other)

-- Each of the calls that are for the owner of a chat is denied to everybody else, whatever its
-- arguments: no store is changed and nothing is sent.
pub handle-denied :
    (call : OwnerCall) (c u : Bytes) (md : Metadata) (s : Backend)
    → get_chat_metadata c s.chats ≡ ok md
    → owned_by md u ≡ false
    → handle call c u s ≡ (ok denied, s)
unfolding handle open_chat close_chat change_display_name change_description change_messaging_fee
    promote_user demote_user mute_user
handle-denied opens c u md s found other = as_group_owner-denied c u md s _ found other
handle-denied closes c u md s found other = as_group_owner-denied c u md s _ found other
handle-denied (renames name) c u md s found other = as_group_owner-denied c u md s _ found other
handle-denied (describes text) c u md s found other = as_group_owner-denied c u md s _ found other
handle-denied (charges quarks) c u md s found other = as_group_owner-denied c u md s _ found other
handle-denied (promotes v b) c u md s found other = elim (Bool-cases (u == v)) [
  | inl self ↦ ground arith
  | inr apart ↦ ground (
    arith,
    as_group_owner-denied c u md s (λ md. find_member c v s (λ m. promote c u v b m s)) found other,
  )
]
handle-denied (demotes v b) c u md s found other = elim (Bool-cases (u == v)) [
  | inl self ↦ ground arith
  | inr apart ↦ ground (
    arith,
    as_group_owner-denied c u md s (λ md. find_member c v s (λ m. demote c u v b m s)) found other,
  )
]
handle-denied (mutes v) c u md s found other = elim (Bool-cases (u == v)) [
  | inl self ↦ ground arith
  | inr apart ↦
      ground (
        arith,
        as_owner-denied c u md s (λ md. find_member c v s (λ m. mute c u v m s)) found other,
      )
]
