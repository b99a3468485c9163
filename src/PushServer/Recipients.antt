-- ===== src/PushServer/Recipients.antt =====
-- push/messaging.go, push/pusher.go: who gets the push of a message.

use flipchat_server.Chat.Members.{get_members}
use flipchat_server.PushServer.{
  Title, MessagePush, push_title, push_preview, push_members, make_push, handle_message,
}
use flipchat_server.Payment.{is_group}
use flipchat_server.Chat.Rooms.{get_chat_metadata}
use flipchat_server.Messaging.{Content, Message, is_user_content}
use flipchat_server.Chat.{Metadata, Member}
use flipchat_server.Profile
use flipchat_server.Profile.{UserProfile, get_profile}
use flipchat_server.Auth.{is_owner}
use flipchat_server.Chat
use flipchat_server.Base.{
  ◌==◌, nat_eq, Option-cases, Bytes, bytes_eq, contains, ok, Result-cases, ◌≡◌, refl, inl, inr,
  Bool, true, false, not, ◌&&◌, ◌||◌, Option, none, some, List, [], ◌∷◌, arith,
}

-- Whether some active member with the user's id has pushes enabled.
pub wants_pushes : Bytes → List Member → Bool
wants_pushes u [] = false
wants_pushes u (m ∷ ms) = (m.is_push_enabled && m.user_id == u) || wants_pushes u ms

contains-push_members :
    (u sender_id : Bytes) (ms : List Member)
    → contains u (push_members sender_id ms) ≡ (wants_pushes u ms && not (u == sender_id))
unfolding contains push_members wants_pushes
contains-push_members u sender_id [] = refl
contains-push_members u sender_id (m ∷ ms) = ground (arith, contains-push_members u sender_id ms)

make_push_lem :
    (sender_id : Bytes) (sender : UserProfile) (us : List Bytes) (title : Option Title)
    (preview : Option Bytes) (p : MessagePush)
    → make_push sender_id sender us title preview ≡ some p
    → (p.recipients ≡ us) × ((t : Title) × (title ≡ some t)) × ((b : Bytes) × (preview ≡ some b))
unfolding make_push
make_push_lem sender_id sender [] title preview p h = ground arith
make_push_lem sender_id sender (u ∷ us) none preview p h = ground arith
make_push_lem sender_id sender (u ∷ us) (some t) none p h = ground arith
make_push_lem sender_id sender (u ∷ us) (some t) (some b) p h = (ground arith, (t, refl), (b, refl))

push_preview-is_user_content :
    (x : Content) (b : Bytes) → push_preview x ≡ some b → is_user_content x ≡ true
push_preview-is_user_content x b h = ground arith

push_title-is_owner :
    (md : Metadata) (u name : Bytes) (t : Title)
    → push_title md u name ≡ some t
    → (not (is_group md.kind) || is_owner md u) ≡ true
unfolding push_title is_owner
push_title-is_owner md u name t h = ground arith

-- A message that makes a push is a text or a reply with a sender, who owns the chat if it is a group;
-- the push goes to exactly the active members of the chat that have pushes enabled, except its
-- sender.
pub handle_message-recipients :
    (c : Bytes) (x : Message) (profiles : Profile.Store) (chats : Chat.Store) (p : MessagePush)
    (u : Bytes)
    → handle_message c x profiles chats ≡ some p
    → (is_user_content x.content ≡ true)
      × ((sender_id : Bytes) × (md : Metadata) × (x.sender_id ≡ some sender_id)
          × (get_chat_metadata c chats ≡ ok md)
          × ((not (is_group md.kind) || is_owner md sender_id) ≡ true)
          × (contains u p.recipients
              ≡ (wants_pushes u (get_members c chats) && not (u == sender_id))))
unfolding handle_message
handle_message-recipients c x profiles chats p u h = elim (Option-cases x.sender_id) [
  | inl anonymous ↦ ground arith
  | inr (sender_id, sent_by) ↦ elim (Result-cases (get_profile sender_id profiles)) [
    | inr (e, missing) ↦ ground arith
    | inl (sender, known) ↦ elim (Result-cases (get_chat_metadata c chats)) [
      | inr (e, missing) ↦ ground arith
      | inl (md, found) ↦
          let us = push_members sender_id (get_members c chats) in
          let (same, (t, titled), (b, previewed)) =
            make_push_lem sender_id sender us (push_title md sender_id sender.display_name)
              (push_preview x.content) p (ground arith) in
          (
            push_preview-is_user_content x.content b previewed,
            (
              sender_id,
              md,
              sent_by,
              found,
              push_title-is_owner md sender_id sender.display_name t titled,
              ground (arith, same, contains-push_members u sender_id (get_members c chats)),
            ),
          )
    ]
  ]
]
