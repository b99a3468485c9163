-- ===== src/MessageServer/Silence.antt =====
-- chat/server.go, messaging/server.go: what calls to the server of chats let a user send afterwards
-- through the server of messages.
use flipchat_server.Account.{is_registered}
use flipchat_server.ChatServer.Members.Authority.{mute_user-get_member, leave_chat-get_member}
use flipchat_server.Chat.Rooms.{get_chat_metadata}
use flipchat_server.Chat.{member_not_found, Member}
use flipchat_server.Chat.Members.{get_member}
use flipchat_server.ChatServer.Members.{mute_user, leave_chat}
use flipchat_server.Auth.{can_send_message}
use flipchat_server.Chat.Members.Index.{IsValid}
use flipchat_server.MessageServer.{send_message}
use flipchat_server.Messaging.{Content}
use flipchat_server.Backend.{Backend, done, denied}
use flipchat_server.Base.{
  Bool-cases, Bytes, ok, err, Result-cases, Time, ℕ, ◌≡◌, inl, inr, Bool, true, Option, arith,
}

module _ (v : ℕ → Bool) (c : Bytes) (x : Content) (p : Option Bytes) (i : Bytes) (t : Time)
    (u : Bytes) (s : Backend) where
  not_member-denied :
      get_member c u s.chats ≡ err member_not_found → send_message v c x p i t u s ≡ (ok denied, s)
  unfolding send_message can_send_message
  not_member-denied h = elim (Result-cases (get_chat_metadata c s.chats)) [
    | inr (e, missing) ↦ ground arith
    | inl (md, found) ↦ elim (Bool-cases (is_registered u s.accounts)) [
      | inl known ↦ ground arith
      | inr stranger ↦ ground arith
    ]
  ]

  muted-denied :
      (m : Member)
      → get_member c u s.chats ≡ ok m
      → m.is_muted ≡ true
      → send_message v c x p i t u s ≡ (ok denied, s)
  unfolding send_message can_send_message
  muted-denied m member muted = elim (Result-cases (get_chat_metadata c s.chats)) [
    | inr (e, missing) ↦ ground arith
    | inl (md, found) ↦ elim (Bool-cases (is_registered u s.accounts)) [
      | inl known ↦ ground arith
      | inr stranger ↦ ground arith
    ]
  ]

-- Where the chats' members are well formed, a user whom the owner has muted can send nothing to the
-- chat: after a `MuteUser` that succeeds, every message of that user is denied, with or without a
-- payment, and no store changes.
pub send_message-mute_user :
    (o c u : Bytes) (s : Backend) (v : ℕ → Bool) (x : Content) (p : Option Bytes) (i : Bytes)
    (t : Time)
    → IsValid s.chats
    → (mute_user c u o s).0 ≡ ok (done tt)
    → let s' = (mute_user c u o s).1 in send_message v c x p i t u s' ≡ (ok denied, s')
send_message-mute_user o c u s v x p i t valid h =
    let (m, member, muted) = mute_user-get_member c u o s valid h in
    muted-denied v c x p i t u (mute_user c u o s).1 m member muted

-- Where the chats' members are well formed, a user who left a chat can send nothing to it: after
-- `LeaveChat` every message of that user is denied, and no store changes.
pub send_message-leave_chat :
    (c u : Bytes) (s : Backend) (v : ℕ → Bool) (x : Content) (p : Option Bytes) (i : Bytes)
    (t : Time)
    → IsValid s.chats
    → let s' = (leave_chat c u s).1 in send_message v c x p i t u s' ≡ (ok denied, s')
send_message-leave_chat c u s v x p i t valid =
    not_member-denied v c x p i t u (leave_chat c u s).1 (leave_chat-get_member c u s valid)
