-- ===== src/Chat/Rooms.antt =====
-- chat/memory/store.go: the operations on chats, and the numbering of rooms.
pub mod Numbers
use flipchat_server.Base.{
  ltb, if◌then◌else◌, ◌==◌, nat_eq, Bytes, bytes_eq, lookup, insert, Result, ok, err, ◌>>=◌, Time,
  as_time, ℕ, ◌+◌, ◌%◌, ◌≡◌, Bool, true, false, not, Option, none, some, List, [], ◌∷◌, arith,
}
use flipchat_server.Chat.{
  ChatError, chat_not_found, missing_chat_id, has_room_number, Metadata, Store, uint64_mod,
}

unfoldable pub get_chat_id : ℕ → Store → Result ChatError Bytes
get_chat_id room_id s = elim (lookup room_id s.ids) [ none ↦ err chat_not_found | some c ↦ ok c ]

unfoldable pub get_chat_metadata : Bytes → Store → Result ChatError Metadata
get_chat_metadata chat_id s = elim (lookup chat_id s.chats) [
  | none ↦ err chat_not_found
  | some md ↦ ok md
]

-- The first chat that is not found fails the whole batch.
pub get_chat_metadata_batched : List Bytes → Store → Result ChatError (List Metadata)
get_chat_metadata_batched [] s = ok []
get_chat_metadata_batched (chat_id ∷ chat_ids) s =
    let rest = get_chat_metadata_batched chat_ids s in
    elim (lookup chat_id s.chats) [
      | none ↦ err chat_not_found
      | some md ↦ rest >>= λ mds. ok (md ∷ mds)
    ]

-- What `CreateChat` returns: the new metadata, the existing one together with `ErrChatExists`, or
-- an error.
pub data Created : Type 0 where
  created : Metadata → Created
  chat_exists : Metadata → Created
  failed : ChatError → Created

-- The fields that `CreateChat` resets, and the open status that it defaults.
reset_fields : Metadata → Metadata
reset_fields md = record md {
  num_unread = 0;
  has_more_unread = false;
  is_push_enabled = false;
  can_disable_push = false;
  open_status = elim md.open_status [ none ↦ some true | some o ↦ some o ];
}

-- The rest of `CreateChat` for a chat id that is new. The room number is a `uint64`.
add_chat : Bytes → Metadata → Store → Created × Store
add_chat chat_id md s =
    let numbered : Metadata = record md { room_number = s.next_room } in
    (
      created numbered,
      record s {
        next_room = (s.next_room + 1) % uint64_mod;
        chats = insert chat_id numbered s.chats;
        ids = insert s.next_room chat_id s.ids;
      },
    )

unfoldable pub create_chat : Metadata → Store → Created × Store
unfolding reset_fields add_chat
create_chat md s = elim md.chat_id [
  | none ↦ (failed missing_chat_id, s)
  | some chat_id ↦
      if not (md.room_number == 0)
      then (failed has_room_number, s)
      else elim (lookup chat_id s.chats) [
        | some existing ↦ (chat_exists existing, s)
        | none ↦ add_chat chat_id (reset_fields md) s
      ]
]

-- A change made in place to the metadata of a chat that exists.
pub update_chat : Bytes → (Metadata → Metadata) → Store → Result ChatError (Unit {0}) × Store
update_chat chat_id f s = elim (lookup chat_id s.chats) [
  | none ↦ (err chat_not_found, s)
  | some md ↦ (ok tt, record s { chats = insert chat_id (f md) s.chats })
]

unfoldable pub set_display_name : Bytes → Bytes → Store → Result ChatError (Unit {0}) × Store
unfolding update_chat
set_display_name chat_id display_name =
    update_chat chat_id λ md. record md { display_name = display_name }

unfoldable pub set_description : Bytes → Bytes → Store → Result ChatError (Unit {0}) × Store
unfolding update_chat
set_description chat_id description =
    update_chat chat_id λ md. record md { description = description }

unfoldable pub set_messaging_fee : Bytes → Option ℕ → Store → Result ChatError (Unit {0}) × Store
unfolding update_chat
set_messaging_fee chat_id messaging_fee =
    update_chat chat_id λ md. record md { messaging_fee = messaging_fee }

unfoldable pub set_open_status : Bytes → Bool → Store → Result ChatError (Unit {0}) × Store
unfolding update_chat
set_open_status chat_id is_open = update_chat chat_id λ md. record md { open_status = some is_open }

unfoldable pub advance_last_chat_activity :
    Bytes → Time → Store → Result ChatError (Unit {0}) × Store
unfolding update_chat
advance_last_chat_activity chat_id ts =
    update_chat chat_id
      λ md. if ltb ts (as_time md.last_activity) then md else record md { last_activity = some ts }

-- The operations on chats leave the members and their index alone.
pub create_chat-members :
    (md : Metadata) (s : Store)
    → let s' = (create_chat md s).1 in
      (s'.members ≡ s.members) × (s'.chats_by_member ≡ s.chats_by_member)
unfolding create_chat
create_chat-members md s = (ground arith, ground arith)

pub update_chat-members :
    (chat_id : Bytes) (f : Metadata → Metadata) (s : Store)
    → let s' = (update_chat chat_id f s).1 in
      (s'.members ≡ s.members) × (s'.chats_by_member ≡ s.chats_by_member)
unfolding update_chat
update_chat-members chat_id f s = (ground arith, ground arith)
