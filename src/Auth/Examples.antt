-- ===== src/Auth/Examples.antt =====
-- A chat with a listener and a message, and what may be sent to it.
use flipchat_server.Base.{
  nat_eq, Bytes, bytes_discrete, lookup, ok, ◌≡◌, refl, ◌↔◌, true, false, none, some, [], ◌∷◌,
}
use flipchat_server.Account
use flipchat_server.Account.{new_in_memory, is_registered}
use flipchat_server.Chat
use flipchat_server.Chat.{group, Metadata, Member}
use flipchat_server.Chat.Rooms.{get_chat_metadata}
use flipchat_server.Chat.Members.{get_member}
use flipchat_server.Intent
use flipchat_server.Intent.{
  is_fulfilled, IntentRecord, TipMetadata, CodeData, load_payment_metadata,
}
use flipchat_server.Messaging
use flipchat_server.Messaging.{text, tip, Message, get_message, is_user_content}
use flipchat_server.Auth.{
  Authorizer, is_owner, reference, check_tip, check_content, check_listener_payment,
  can_send_message,
}
use flipchat_server.Auth.Sending.{
  IsSender, IsTip, MaySend, can_send_message_iff, can_send_message-tip,
}

abbrev room : Bytes
room = 5 ∷ []

abbrev owner : Bytes
owner = 1 ∷ []

abbrev listener : Bytes
listener = 2 ∷ []

abbrev message_id : Bytes
message_id = 3 ∷ []

abbrev intent_id : Bytes
intent_id = 4 ∷ []

abbrev metadata : Metadata
metadata = record {
  chat_id = some room;
  kind = group;
  display_name = [];
  description = [];
  room_number = 1;
  is_push_enabled = false;
  can_disable_push = true;
  num_unread = 0;
  has_more_unread = false;
  owner = some owner;
  messaging_fee = some 100;
  last_activity = none;
  open_status = some true;
}

abbrev member : Member
member = record {
  user_id = listener;
  added_by = none;
  is_push_enabled = true;
  is_muted = false;
  has_mod_permission = false;
  has_send_permission = false;
  is_soft_deleted = false;
}

abbrev message : Message
message = record {
  message_id = message_id;
  sender_id = some owner;
  content = text [];
  ts = 10;
  was_sender_off_stage = false;
}

abbrev payment : IntentRecord
payment = record { extended_metadata = 0 ∷ []; quantity = 100 }

-- Every intent is a payment by the listener.
abbrev code_data : CodeData
code_data = record {
  intent_id_string = λ id. id;
  get_intent = λ id. ok payment;
  unmarshal_extended = λ value. some value;
  unmarshal_tip =
      λ value. some (record { chat_id = room; message_id = message_id; tipper_id = listener });
  unmarshal_listener = λ value. some (record { chat_id = room; user_id = listener });
}

abbrev authorizer : Authorizer
authorizer = record {
  accounts = record Account.new_in_memory { registered_users = (listener, true) ∷ [] };
  chats = record Chat.new_in_memory {
    chats = (room, metadata) ∷ [];
    members = (room, member ∷ []) ∷ [];
  };
  intents = Intent.new_in_memory;
  messages = record Messaging.new_in_memory { messages = (room, message ∷ []) ∷ [] };
  code_data = code_data;
}

can_send_message-paid : can_send_message room listener (text []) (some intent_id) authorizer ≡ ok tt
unfolding can_send_message check_content check_listener_payment is_owner load_payment_metadata
    is_fulfilled get_member get_chat_metadata is_registered lookup bytes_discrete
can_send_message-paid = refl

can_send_message-tipped :
    can_send_message room listener (tip message_id 100) (some intent_id) authorizer ≡ ok tt
unfolding can_send_message check_content check_tip reference get_message load_payment_metadata
    is_fulfilled get_member get_chat_metadata is_registered lookup bytes_discrete is_owner
can_send_message-tipped = refl

can_send_message_iff_example :
    (can_send_message room listener (text []) (some intent_id) authorizer ≡ ok tt)
    ↔ MaySend room listener (some intent_id) authorizer
can_send_message_iff_example = can_send_message_iff room listener (some intent_id) authorizer []

can_send_message-tip_example :
    ((md : Metadata) × (x : Member) × IsSender room listener md x authorizer)
    × ((x : Message) × (get_message room message_id authorizer.messages ≡ ok x)
        × (is_user_content x.content ≡ true))
    × ((id : Bytes) × (r : IntentRecord) × (d : TipMetadata) × (some intent_id ≡ some id)
        × IsTip room listener message_id 100 id r d authorizer)
can_send_message-tip_example =
    can_send_message-tip room listener (some intent_id) authorizer message_id 100
      can_send_message-tipped
