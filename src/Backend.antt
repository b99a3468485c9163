-- ===== src/Backend.antt =====
-- chat/server.go, messaging/server.go: what the servers of chats and of messages share, the stores
-- with the clients of services, and what their calls hand over to run in the background.
use flipchat_server.Base.{Bytes, Result, Time, ℕ, Bool, Option, none, List, [], ◌++◌}
use flipchat_server.Account
use flipchat_server.Chat
use flipchat_server.Intent.{Store, CodeData}
use flipchat_server.Intent
use flipchat_server.Messaging
use flipchat_server.Profile
use flipchat_server.Event.{ChatEvent}
use flipchat_server.Auth.{Authorizer}

-- The announcements that a server sends to a chat, by their builders in messaging/announcements.go.
pub data Announcement : Type 0 where
  is_live : ℕ → Announcement
  display_name_changed : Bytes → ℕ → Bytes → Announcement
  display_name_removed : Bytes → Announcement
  messaging_fee_changed : Bytes → ℕ → Announcement
  promoted_to_speaker : Bytes → Bytes → Announcement
  demoted_to_listener : Bytes → Announcement
  user_muted : Bytes → Bytes → Announcement

-- The notifications for a user's activity feed, by their builders in activity/notifications.go.
pub data Notice : Type 0 where
  created_group : Bytes → Bytes → Notice
  sent_listener_message : Bytes → Bytes → Bytes → ℕ → Time → Notice
  sent_tip : Bytes → Bytes → Bytes → ℕ → Time → Notice
  received_tip : Bytes → Bytes → Bytes → ℕ → Time → Notice

-- What a call hands to the event bus, the messenger and the activity feed.
pub data Effect : Type 0 where
  publishes : ChatEvent → Effect
  announces : Bytes → Announcement → Effect
  notes : Notice → Effect

pub record Backend : Type 0 where
  pub accounts : Account.Store
  pub chats : Chat.Store
  pub intents : Intent.Store
  pub messages : Messaging.Store
  pub profiles : Profile.Store
  pub code_data : CodeData
  pub classify_text : Bytes → Result (Unit {0}) Bool
  pub unmarshal_start_group : Bytes → Option Bytes
  pub sha256 : Bytes → Bytes
  pub outbox : List Effect

abbrev pub with_chats : Chat.Store → Backend → Backend
with_chats m s = record s { chats = m }

abbrev pub with_messages : Messaging.Store → Backend → Backend
with_messages m s = record s { messages = m }

abbrev pub with_intents : Intent.Store → Backend → Backend
with_intents m s = record s { intents = m }

abbrev pub emit : List Effect → Backend → Backend
emit es s = record s { outbox = s.outbox ++ es }

-- The authorizer over the same stores.
abbrev pub authorizer : Backend → Authorizer
authorizer s = record {
  accounts = s.accounts;
  chats = s.chats;
  intents = s.intents;
  messages = s.messages;
  code_data = s.code_data;
}

-- An event of a chat, with nothing in it.
abbrev pub chat_event : Bytes → ChatEvent
chat_event chat_id = record {
  chat_id = chat_id;
  metadata_updates = [];
  member_updates = [];
  message_update = none;
  flushed_messages = [];
  pointer_update = none;
  is_typing = none;
}

-- How a call fails: with a gRPC status, or by dereferencing a nil pointer.
pub data Failure : Type 0 where
  internal invalid_argument panicked : Failure

-- The result that a response names, with what comes along where it is `OK`.
pub data Answer (A : Type 0) : Type 0 where
  done : A → Answer A
  denied not_found cant_set not_registered : Answer A

abbrev pub Reply : Type 0 → Type 0
Reply A = Result Failure (Answer A) × Backend
