-- ===== src/PushServer.antt =====
-- push/server.go, push/messaging.go, push/pusher.go: the registration of push tokens, and the pushes
-- that a new message makes. Firebase is a parameter: it tells for each token whether it is
-- unregistered, where it answers at all.
pub mod Recipients
pub mod Invalid
mod Examples
use flipchat_server.Chat.Members.{get_members, is_push_enabled}
use flipchat_server.Chat.Rooms.{get_chat_metadata}
use flipchat_server.Profile.{UserProfile, get_profile}
use flipchat_server.Push.{Token, get_tokens, get_tokens_batch, add_token, is_token, delete_token}
use flipchat_server.Messaging.{Content, text, reply, Message}
use flipchat_server.Chat.{two_way, group, Metadata, Member, Store}
use flipchat_server.Profile
use flipchat_server.Chat
use flipchat_server.Push
use flipchat_server.Base.{
  ltb, if◌then◌else◌, ◌==◌, nat_eq, Bytes, bytes_eq, length, ok, err, ℕ, Bool, false, not, ◌||◌,
  Option, none, some, List, [], ◌∷◌,
}

-- What `AddToken`, `DeleteToken` and `DeleteTokens` do for the user that `Authorize` returns.
abbrev pub handle_add_token : Bytes → ℕ → Bytes → Bytes → Push.Store → Push.Store
handle_add_token app_install kind token user_id m = add_token user_id app_install kind token m

any_token : ℕ → Bytes → List Token → Bool
any_token kind token [] = false
any_token kind token (x ∷ xs) = is_token kind token x || any_token kind token xs

unfoldable pub handle_delete_token : ℕ → Bytes → Bytes → Push.Store → Push.Store
unfolding any_token
handle_delete_token kind token user_id m =
    if any_token kind token (get_tokens user_id m) then delete_token kind token m else m

-- The loop of `DeleteTokens` over the tokens read before.
delete_install : Bytes → List Token → Push.Store → Push.Store
delete_install app_install [] m = m
delete_install app_install (x ∷ xs) m =
    delete_install app_install xs
      (if x.app_install_id == app_install then delete_token x.kind x.token m else m)

unfoldable pub handle_delete_tokens : Bytes → Bytes → Push.Store → Push.Store
unfolding delete_install
handle_delete_tokens app_install user_id m = delete_install app_install (get_tokens user_id m) m

-- The title of a push.
pub data Title : Type 0 where
  room : ℕ → Bytes → Title
  named : Bytes → Title
  no_title : Title

-- What `handleMessage` hands to the pusher.
pub record MessagePush : Type 0 where
  pub recipients : List Bytes
  pub title : Title
  pub preview : Bytes
  pub sender : Bytes

-- The title, where the sender of a message to a group owns it.
unfoldable pub push_title : Metadata → Bytes → Bytes → Option Title
push_title md sender_id sender_name = elim md.kind [
  | group ↦ elim md.owner [
    | none ↦ none
    | some owner ↦ if owner == sender_id then some (room md.room_number md.display_name) else none
  ]
  | two_way ↦ some (named sender_name)
  | _ ↦ some no_title
]

abbrev pub push_preview : Content → Option Bytes
push_preview (text t) = some t
push_preview (reply id t) = some t
push_preview _ = none

-- The members that get a push.
unfoldable pub push_members : Bytes → List Member → List Bytes
push_members sender_id [] = []
push_members sender_id (m ∷ ms) =
    let rest = push_members sender_id ms in
    if not m.is_push_enabled || m.user_id == sender_id then rest else m.user_id ∷ rest

-- The end of `handleMessage`.
make_push : Bytes → UserProfile → List Bytes → Option Title → Option Bytes → Option MessagePush
make_push sender_id sender [] title preview = none
make_push sender_id sender (u ∷ us) none preview = none
make_push sender_id sender (u ∷ us) (some title) none = none
make_push sender_id sender (u ∷ us) (some title) (some preview) =
    some (record {
      recipients = u ∷ us;
      title = title;
      preview = preview;
      sender = sender.display_name;
    })

-- `handleMessage`: the push of a message, if there is one. Errors are logged.
unfoldable pub handle_message : Bytes → Message → Profile.Store → Chat.Store → Option MessagePush
unfolding make_push
handle_message chat_id msg profiles chats = elim msg.sender_id [
  | none ↦ none
  | some sender_id ↦ elim (get_profile sender_id profiles) [
    | err _ ↦ none
    | ok sender ↦ elim (get_chat_metadata chat_id chats) [
      | err _ ↦ none
      | ok md ↦
          make_push sender_id sender (push_members sender_id (get_members chat_id chats))
            (push_title md sender_id sender.display_name) (push_preview msg.content)
    ]
  ]
]

-- What Firebase answers for a token.
pub data Delivery : Type 0 where
  delivered unregistered undelivered : Delivery

abbrev pub max_tokens : ℕ
max_tokens = 500

-- The tokens that one multicast message goes to, if any: none are too few, and more than 500 too
-- many.
unfoldable pub multicast : List Bytes → Push.Store → Option (List Token)
multicast users m =
    let push_tokens = get_tokens_batch users m in
    if ltb max_tokens (length push_tokens)
    then none
    else if length push_tokens == 0
    then none
    else some push_tokens

-- `processResponse` deletes the tokens that are not registered any more.
process_response : (Token → Delivery) → List Token → Push.Store → Push.Store
process_response answer [] m = m
process_response answer (x ∷ xs) m =
    process_response answer xs
      (elim (answer x) [ unregistered ↦ delete_token x.kind x.token m | _ ↦ m ])

-- `SendBasicPushes` and `SendPushes`, less the payload, where Firebase answers.
unfoldable pub send_pushes :
    (Token → Delivery) → List Bytes → Push.Store → Option (List Token) × Push.Store
unfolding process_response
send_pushes answer users m = elim (multicast users m) [
  | none ↦ (none, m)
  | some push_tokens ↦ (some push_tokens, process_response answer push_tokens m)
]
