-- ===== src/ChatServer/Members/Authority.antt =====
-- chat/server.go: what the calls on members and on the open status leave behind where they succeed.
use flipchat_server.Chat.Members.Flags.{any_active-find_active, get_member-set_mute_state}
use flipchat_server.ChatServer.Reads.{get_metadata}
use flipchat_server.Chat.Members.{
  members_of, get_member, update_member, retire, remove_member, with_muted,
}
use flipchat_server.Chat.{member_not_found, Member}
use flipchat_server.Chat.Members.Index.{IsValid, any_active-retire, members_of-update}
use flipchat_server.Backend.{Backend, done}
use flipchat_server.ChatServer.Settings.{finish}
use flipchat_server.ChatServer.Members.{mute, as_owner, mute_user, leave_chat}
use flipchat_server.Base.{
  ◌==◌, Bool-cases, Bytes, bytes_eq, ok, err, Result-cases, ◌≡◌, refl, inl, inr, true, none, arith,
}

-- Where `MuteUser` succeeds, the user is a muted member of the chat afterwards.
pub mute_user-get_member :
    (c u o : Bytes) (s : Backend)
    → IsValid s.chats
    → (mute_user c u o s).0 ≡ ok (done tt)
    → (m : Member) × (get_member c u (mute_user c u o s).1.chats ≡ ok m) × (m.is_muted ≡ true)
unfolding mute_user as_owner mute finish
mute_user-get_member c u o s v h = elim (Bool-cases (o == u)) [
  | inl self ↦ ground arith
  | inr apart ↦ elim (Result-cases (get_metadata c none s)) [
    | inr (e, missing) ↦ ground arith
    | inl (md, found) ↦ elim (Result-cases (get_member c u s.chats)) [
      | inr (e, missing) ↦ ground arith
      | inl (m, member) ↦ elim (Bool-cases m.is_muted) [
        | inl already ↦ (m, ground arith, already)
        | inr audible ↦ (
          with_muted true m,
          ground (arith, get_member-set_mute_state c u true s.chats v c u),
          refl,
        )
      ]
    ]
  ]
]

-- After `LeaveChat`, `GetMember` does not find the user in the chat.
pub leave_chat-get_member :
    (c u : Bytes) (s : Backend)
    → IsValid s.chats
    → get_member c u (leave_chat c u s).1.chats ≡ err member_not_found
unfolding leave_chat remove_member get_member
leave_chat-get_member c u s v =
    let ms = members_of c s.chats in
    ground (
      arith,
      members_of-update c c u retire s.chats,
      any_active-retire u u ms,
      any_active-find_active u (update_member u retire ms),
      v.one c u,
    )
