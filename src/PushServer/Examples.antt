-- ===== src/PushServer/Examples.antt =====
-- The owner of a room writes to it, and a member gets a push.
use flipchat_server.Chat.Members.{get_members}
use Profile.{get_profile}
use flipchat_server.Payment.{is_group}
use flipchat_server.PushServer.Recipients.{wants_pushes, handle_message-recipients}
use flipchat_server.PushServer.Invalid.{is_invalid, tokens_sent, get_tokens-send_pushes}
use native.Mathlib.Decide.{ℕ_discrete}
use flipchat_server.Chat.Rooms.{get_chat_metadata}
use flipchat_server.Push.{get_tokens, delete_token, get_tokens_batch, Token, new_token}
use flipchat_server.PushServer.{
  unregistered, room, Delivery, MessagePush, handle_message, send_pushes, push_members, push_title,
  multicast, process_response,
}
use flipchat_server.Messaging.{text, Message, is_user_content}
use flipchat_server.Chat.{group, Member, Metadata}
use flipchat_server.Profile
use flipchat_server.Chat
use flipchat_server.Push
use flipchat_server.Auth.{is_owner}
use flipchat_server.Base.{
  ◌==◌, ◌&&◌, Bytes, [], contains, bytes_eq, false, length, none, not, ok, refl, some, true, ◌||◌,
  ◌∷◌, ◌≡◌, ◌≤◌, lookup, bytes_discrete, keep,
}

abbrev room_id : Bytes
room_id = 5 ∷ []

abbrev alice : Bytes
alice = 1 ∷ []

abbrev bob : Bytes
bob = 2 ∷ []

abbrev metadata : Metadata
metadata = record {
  chat_id = some room_id;
  kind = group;
  display_name = [];
  description = [];
  room_number = 1;
  is_push_enabled = false;
  can_disable_push = false;
  num_unread = 0;
  has_more_unread = false;
  owner = some alice;
  messaging_fee = none;
  last_activity = none;
  open_status = some true;
}

abbrev member : Bytes → Member
member u = record {
  user_id = u;
  added_by = none;
  is_push_enabled = true;
  is_muted = false;
  has_mod_permission = false;
  has_send_permission = true;
  is_soft_deleted = false;
}

abbrev chats : Chat.Store
chats = record Chat.new_in_memory {
  chats = (room_id, metadata) ∷ [];
  members = (room_id, member alice ∷ member bob ∷ []) ∷ [];
}

abbrev profiles : Profile.Store
profiles = record Profile.new_in_memory {
  profiles = (alice, record { display_name = 65 ∷ []; social_profiles = [] }) ∷ [];
}

abbrev message : Message
message = record {
  message_id = 3 ∷ [];
  sender_id = some alice;
  content = text (104 ∷ []);
  ts = 10;
  was_sender_off_stage = false;
}

abbrev pushed : MessagePush
pushed = record { recipients = bob ∷ []; title = room 1 []; preview = 104 ∷ []; sender = 65 ∷ [] }

message_pushed : handle_message room_id message profiles chats ≡ some pushed
unfolding handle_message get_profile lookup bytes_discrete get_chat_metadata push_members
    get_members keep push_title
message_pushed = refl

handle_message-recipients_example :
    (is_user_content message.content ≡ true)
    × ((sender_id : Bytes) × (md : Metadata) × (message.sender_id ≡ some sender_id)
        × (get_chat_metadata room_id chats ≡ ok md)
        × ((not (is_group md.kind) || is_owner md sender_id) ≡ true)
        × (contains bob pushed.recipients
            ≡ (wants_pushes bob (get_members room_id chats) && not (bob == sender_id))))
handle_message-recipients_example =
    handle_message-recipients room_id message profiles chats pushed bob message_pushed

abbrev tokens : Push.Store
tokens = record { tokens = (bob, (6 ∷ [], new_token (6 ∷ []) 1 (9 ∷ [])) ∷ []) ∷ [] }

abbrev answer : Token → Delivery
answer x = unregistered

get_tokens-send_pushes_example :
    let (sent, m') = send_pushes answer (bob ∷ []) tokens in
    (length (tokens_sent sent) ≤ 500)
    × (get_tokens bob m'
        ≡ keep (λ x. not (is_invalid answer (tokens_sent sent) x)) (get_tokens bob tokens))
get_tokens-send_pushes_example = get_tokens-send_pushes answer (bob ∷ []) tokens bob

-- The token that is not registered is sent to and deleted.
bob_unreachable : get_tokens bob (send_pushes answer (bob ∷ []) tokens).1 ≡ []
unfolding send_pushes multicast get_tokens_batch get_tokens process_response delete_token lookup
    bytes_discrete ℕ_discrete
bob_unreachable = refl
