-- ===== src/Chat/Postgres.antt =====
-- chat/postgres/model.go, chat/postgres/store.go, database/prisma/schema.prisma: chats and their
-- members in two tables of Postgres.
pub mod Rooms
pub mod Members
mod Examples
use flipchat_server.Chat.{ChatType, Metadata, Member}
use flipchat_server.Postgres.{Table}
use flipchat_server.Postgres.Encoding.{Codecs, encode, decode}
use flipchat_server.Base.{
  ltb, if◌then◌else◌, Eq, bytes_eq, bytes_discrete, Bytes, Result, ok, err, ◌>>=◌, Time, as_time, ℕ,
  Bool, true, false, Option, none, some, List, [], ◌∷◌,
}

-- `chatModel`, less the times of its writing.
pub record ChatRow : Type 0 where
  pub id : Bytes
  pub display_name : Option Bytes
  pub room_number : ℕ
  pub cover_charge : ℕ
  pub kind : ChatType
  pub is_open : Bool
  pub description : Option Bytes
  pub created_by : Bytes
  pub last_activity_at : Time

-- The primary key of `flipchat_members`.
pub record MemberKey : Type 0 where
  pub chat_id : Bytes
  pub user_id : Bytes

unfoldable pub member_key_discrete : Discrete MemberKey
member_key_discrete = hlevel (bytes_discrete)

instance abbrev pub member_key_eq : Eq MemberKey
member_key_eq = record { dec_eq = member_key_discrete }

-- `memberModel`, less the times of its writing.
pub record MemberRow : Type 0 where
  pub key : MemberKey
  pub added_by_id : Option Bytes
  pub is_muted : Bool
  pub is_push_enabled : Bool
  pub has_mod_permission : Bool
  pub has_send_permission : Bool
  pub is_soft_deleted : Bool

abbrev pub ChatTable : Type 1
ChatTable = Table ChatRow Bytes (λ r. r.id)

abbrev pub MemberTable : Type 1
MemberTable = Table MemberRow MemberKey (λ r. r.key)

-- `ErrChatNotFound`, `ErrMemberNotFound`, the two errors that `CreateChat` makes, that of
-- `pg.Decode`, and those of Postgres: for a number that a column does not hold, a value of a unique
-- column that another row has, and a chat that has no row.
pub data StoreError : Type 0 where
  chat_not_found member_not_found missing_chat_id has_room_number undecodable : StoreError
  out_of_range unique_violation foreign_key_violation : StoreError

-- A string that is empty is stored as a null.
abbrev pub string_column : Bytes → Option Bytes
string_column [] = none
string_column (b ∷ bs) = some (b ∷ bs)

abbrev pub string_or_empty : Option Bytes → Bytes
string_or_empty none = []
string_or_empty (some s) = s

abbrev pub fee_or_zero : Option ℕ → ℕ
fee_or_zero none = 0
fee_or_zero (some quarks) = quarks

abbrev pub open_or_true : Option Bool → Bool
open_or_true none = true
open_or_true (some is_open) = is_open

module _ (codecs : Codecs) where
  unfoldable pub encode_optional : Option Bytes → Option Bytes
  encode_optional none = none
  encode_optional (some x) = some (encode codecs x)

  abbrev pub member_key : Bytes → Bytes → MemberKey
  member_key chat_id user_id = record {
    chat_id = encode codecs chat_id;
    user_id = encode codecs user_id;
  }

  -- `toChatModel`, by what the column keeps of a time.
  unfoldable pub to_chat_model : (Time → Time) → Bytes → Metadata → ChatRow
  to_chat_model stored_time chat_id md = record {
    id = encode codecs chat_id;
    display_name = string_column md.display_name;
    room_number = md.room_number;
    cover_charge = fee_or_zero md.messaging_fee;
    kind = md.kind;
    is_open = open_or_true md.open_status;
    description = string_column md.description;
    created_by = string_or_empty (encode_optional md.owner);
    last_activity_at = stored_time (as_time md.last_activity);
  }

  unfoldable pub decode_bytes : Bytes → Result StoreError Bytes
  decode_bytes encoded = elim (decode codecs encoded) [ err e ↦ err undecodable | ok x ↦ ok x ]

  unfoldable pub decode_optional : Option Bytes → Result StoreError (Option Bytes)
  unfolding decode_bytes
  decode_optional none = ok none
  decode_optional (some encoded) = decode_bytes encoded >>= λ x. ok (some x)

  -- `fromChatModel`; the other fields are those of a new message of protobuf.
  unfoldable pub from_chat_model : ChatRow → Result StoreError Metadata
  unfolding decode_bytes decode_optional
  from_chat_model r = do
    chat_id ← decode_bytes r.id
    owner ← decode_optional (string_column r.created_by)
    ok (record {
      chat_id = some chat_id;
      kind = r.kind;
      display_name = string_or_empty r.display_name;
      description = string_or_empty r.description;
      room_number = r.room_number;
      is_push_enabled = false;
      can_disable_push = false;
      num_unread = 0;
      has_more_unread = false;
      owner = owner;
      messaging_fee = if ltb 0 r.cover_charge then some r.cover_charge else none;
      last_activity = some r.last_activity_at;
      open_status = some r.is_open;
    })

  -- `toMemberModel`
  unfoldable pub to_member_model : Bytes → Member → MemberRow
  to_member_model chat_id m = record {
    key = member_key chat_id m.user_id;
    added_by_id = encode_optional m.added_by;
    is_muted = m.is_muted;
    is_push_enabled = m.is_push_enabled;
    has_mod_permission = m.has_mod_permission;
    has_send_permission = m.has_send_permission;
    is_soft_deleted = m.is_soft_deleted;
  }

  -- `fromMemberModel`
  unfoldable pub from_member_model : MemberRow → Result StoreError Member
  unfolding decode_bytes decode_optional
  from_member_model r = do
    user_id ← decode_bytes r.key.user_id
    added_by ← decode_optional r.added_by_id
    ok (record {
      user_id = user_id;
      added_by = added_by;
      is_push_enabled = r.is_push_enabled;
      is_muted = r.is_muted;
      has_mod_permission = r.has_mod_permission;
      has_send_permission = r.has_send_permission;
      is_soft_deleted = r.is_soft_deleted;
    })
