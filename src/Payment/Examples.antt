-- ===== src/Payment/Examples.antt =====
-- Payments for a message, and the theorems on them at concrete inputs.
use flipchat_server.Base.{
  Bytes, bytes_discrete, lookup, ok, ◌≡◌, refl, ◌↔◌, true, false, Option, none, some, [], ◌∷◌,
}
use flipchat_server.Account
use flipchat_server.Account.{new_in_memory, get_user_id}
use flipchat_server.Chat
use flipchat_server.Chat.{group, Metadata}
use flipchat_server.Chat.Rooms.{get_chat_metadata}
use flipchat_server.Intent.{TipMetadata, ListenerMetadata}
use flipchat_server.Messaging
use flipchat_server.Messaging.{text, Message, get_message}
use flipchat_server.Payment.{
  PublicPayment, Submitted, as_listener, tip_message, Handler, validate_listener,
  validate_message_as_listener, validate_tip, validate_tip_message,
}
use flipchat_server.Payment.Validity.{IsListenerPayment, validate_message_as_listener_iff}

abbrev room : Bytes
room = 5 ∷ []

abbrev owner : Bytes
owner = 1 ∷ []

abbrev listener : Bytes
listener = 2 ∷ []

abbrev owner_key : Bytes
owner_key = 11 ∷ []

abbrev listener_key : Bytes
listener_key = 12 ∷ []

abbrev metadata : Metadata
metadata = record {
  chat_id = some room;
  kind = group;
  display_name = [];
  description = [];
  room_number = 1;
  is_push_enabled = false;
  can_disable_push = true;
  num_unread = 0;
  has_more_unread = false;
  owner = some owner;
  messaging_fee = some 100;
  last_activity = none;
  open_status = some true;
}

abbrev message : Message
message = record {
  message_id = 3 ∷ [];
  sender_id = some owner;
  content = text [];
  ts = 10;
  was_sender_off_stage = false;
}

abbrev handler : Handler
handler = record {
  accounts = record Account.new_in_memory {
    keys = (owner_key, owner) ∷ (listener_key, listener) ∷ [];
  };
  chats = record Chat.new_in_memory { chats = (room, metadata) ∷ [] };
  messages = record Messaging.new_in_memory { messages = (room, message ∷ []) ∷ [] };
  account_from_string = λ s. some s;
}

abbrev submitted : Option PublicPayment → Submitted
submitted p = record { is_public = true; initiator_owner_account = listener_key; payment = p }

abbrev fee : Submitted
fee = submitted (
    some (record {
      destination_owner_account = owner_key;
      destination_token_account = [];
      is_kin = true;
      quantity = 100;
    }))

abbrev as_payer : ListenerMetadata
as_payer = record { chat_id = room; user_id = listener }

abbrev as_tipper : TipMetadata
as_tipper = record { chat_id = room; message_id = 3 ∷ []; tipper_id = listener }

fee_accepted : validate_message_as_listener fee (as_listener as_payer) handler ≡ ok tt
unfolding validate_message_as_listener validate_listener get_chat_metadata get_user_id lookup
    bytes_discrete
fee_accepted = refl

tip_accepted : validate_tip_message fee (tip_message as_tipper) handler ≡ ok tt
unfolding validate_tip_message validate_tip get_message get_user_id lookup bytes_discrete
tip_accepted = refl

validate_message_as_listener_iff_example :
    (validate_message_as_listener fee (as_listener as_payer) handler ≡ ok tt) ↔ (
      (md : Metadata) × (p : PublicPayment) × (payee : Bytes) × IsListenerPayment fee as_payer
        handler md p payee)
validate_message_as_listener_iff_example = validate_message_as_listener_iff fee as_payer handler

found : get_chat_metadata room handler.chats ≡ ok metadata
unfolding get_chat_metadata lookup bytes_discrete
found = refl
