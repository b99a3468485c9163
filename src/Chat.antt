-- ===== src/Chat.antt =====
-- chat/store.go and the state of chat/memory/store.go: chats, their members, and the indexes.
pub mod Postgres
pub mod Rooms
pub mod Members
pub mod Histories
mod Examples
use flipchat_server.Base.{
  ◌==◌, Bytes, bytes_eq, Dict, Time, ℕ, ◌^◌, Bool, false, Option, none, some, List, [],
}

pub data ChatError : Type 0 where
  chat_not_found member_not_found missing_chat_id has_room_number soft_deleted : ChatError

-- `chatpb.Metadata_ChatType`
pub data ChatType : Type 0 where
  unknown two_way group : ChatType

-- `chatpb.Metadata`, with the fields that the server reads or writes. A pointer that may be nil
-- is an option; a fee is its number of quarks, an open status its flag.
pub record Metadata : Type 0 where
  pub chat_id : Option Bytes
  pub kind : ChatType
  pub display_name : Bytes
  pub description : Bytes
  pub room_number : ℕ
  pub is_push_enabled : Bool
  pub can_disable_push : Bool
  pub num_unread : ℕ
  pub has_more_unread : Bool
  pub owner : Option Bytes
  pub messaging_fee : Option ℕ
  pub last_activity : Option Time
  pub open_status : Option Bool

-- `chat.Member`; the user id is never nil where the store is called.
pub record Member : Type 0 where
  pub user_id : Bytes
  pub added_by : Option Bytes
  pub is_push_enabled : Bool
  pub is_muted : Bool
  pub has_mod_permission : Bool
  pub has_send_permission : Bool
  pub is_soft_deleted : Bool

-- `chatpb.Member`, as `ToProto` fills it in.
pub record ProtoMember : Type 0 where
  pub user_id : Bytes
  pub is_muted : Bool
  pub has_moderator_permission : Bool
  pub has_send_permission : Bool
  pub is_self : Bool

unfoldable pub to_proto : Member → Option Bytes → ProtoMember
to_proto m self = record {
  user_id = m.user_id;
  is_muted = m.is_muted;
  has_moderator_permission = m.has_mod_permission;
  has_send_permission = m.has_send_permission;
  is_self = elim self [ none ↦ false | some s ↦ m.user_id == s ];
}

-- `InMemoryStore`, maps keyed by the bytes of a chat id or of a user id, or by a room number.
pub record Store : Type 0 where
  pub chats : Dict Bytes Metadata
  pub members : Dict Bytes (List Member)
  pub next_room : ℕ
  pub ids : Dict ℕ Bytes
  pub chats_by_member : Dict Bytes (List Bytes)

abbrev pub new_in_memory : Store
new_in_memory = record { chats = []; members = []; next_room = 1; ids = []; chats_by_member = [] }

abbrev pub uint64_mod : ℕ
uint64_mod = 2 ^ 64
