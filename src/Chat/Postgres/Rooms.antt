-- ===== src/Chat/Postgres/Rooms.antt =====
-- chat/postgres/model.go, chat/postgres/store.go: chats, by their rows.
use flipchat_server.Chat.{Metadata}
use flipchat_server.Chat.Postgres.{
  ChatRow, ChatTable, StoreError, chat_not_found, missing_chat_id, has_room_number, out_of_range,
  unique_violation, string_column, decode_bytes, to_chat_model, from_chat_model,
}
use flipchat_server.Postgres.Encoding.{Codecs, encode}
use flipchat_server.Base.{
  ltb, leb, if◌then◌else◌, ◌==◌, nat_eq, bytes_eq, Bytes, contains, length, Result, ok, err, ◌>>=◌,
  Time, ℕ, ◌+◌, ◌^◌, Bool, true, not, ◌||◌, none, some, List, [], ◌∷◌, map,
}

-- What `CreateChat` returns: with `ErrChatExists` comes the chat that there is.
pub data Created : Type 0 where
  created chat_exists : Metadata → Created

largest_room : List ChatRow → ℕ
largest_room [] = 0
largest_room (r ∷ rs) =
    let largest = largest_room rs in if ltb largest r.room_number then r.room_number else largest

module _ (codecs : Codecs) (stored_time : Time → Time) (chats : ChatTable) where
  -- The first statement of `dbPut`.
  unfoldable pub next_room_number : chats.State → ℕ
  unfolding largest_room
  next_room_number t = largest_room (chats.select (λ r. true) t) + 1

  -- The second statement of `dbPut`: a room number is an `integer` that no two chats share, and a
  -- cover charge a `bigint`.
  unfoldable pub insert_chat : ChatRow → chats.State → Result StoreError ChatRow × chats.State
  insert_chat r t =
      if leb (2 ^ 31) r.room_number || leb (2 ^ 63) r.cover_charge
      then (err out_of_range, t)
      else if not (length (chats.select (λ x. x.room_number == r.room_number) t) == 0)
      then (err unique_violation, t)
      else elim (chats.insert r t) [ none ↦ (err unique_violation, t) | some t' ↦ (ok r, t') ]

  -- `dbPut`, two statements with nothing between them.
  unfoldable pub db_put : ChatRow → chats.State → Result StoreError ChatRow × chats.State
  db_put r t = insert_chat (record r { room_number = next_room_number t }) t

  -- `CreateChat`
  unfoldable pub create_chat : Metadata → chats.State → Result StoreError Created × chats.State
  create_chat md t = elim md.chat_id [
    | none ↦ (err missing_chat_id, t)
    | some chat_id ↦
        if not (md.room_number == 0)
        then (err has_room_number, t)
        else elim (chats.find (encode codecs chat_id) t) [
          | some existing ↦ (from_chat_model codecs existing >>= λ res. ok (chat_exists res), t)
          | none ↦
              let (put, t') = db_put (to_chat_model codecs stored_time chat_id md) t in
              (put >>= λ r. from_chat_model codecs r >>= λ res. ok (created res), t')
        ]
  ]

  -- `dbGetChatID`
  pub get_chat_id : ℕ → chats.State → Result StoreError Bytes
  get_chat_id room_number t = elim (chats.select (λ r. r.room_number == room_number) t) [
    | [] ↦ err chat_not_found
    | r ∷ rs ↦ decode_bytes codecs r.id
  ]

  -- `GetChatMetadata`
  unfoldable pub get_chat_metadata : Bytes → chats.State → Result StoreError Metadata
  get_chat_metadata chat_id t = elim (chats.find (encode codecs chat_id) t) [
    | none ↦ err chat_not_found
    | some r ↦ from_chat_model codecs r
  ]

  from_chats : List ChatRow → Result StoreError (List Metadata)
  from_chats [] = ok []
  from_chats (r ∷ rs) =
      let rest = from_chats rs in from_chat_model codecs r >>= λ md. rest >>= λ mds. ok (md ∷ mds)

  -- `dbGetChatMetadataBatched`: an id that comes twice has one row, so that the numbers differ.
  db_get_chat_metadata_batched : List Bytes → chats.State → Result StoreError (List ChatRow)
  db_get_chat_metadata_batched [] t = ok []
  db_get_chat_metadata_batched (id ∷ ids) t =
      let rows = chats.select (λ r. contains r.id (map (encode codecs) (id ∷ ids))) t in
      if length rows == length (id ∷ ids) then ok rows else err chat_not_found

  -- `GetChatMetadataBatched`
  pub get_chat_metadata_batched : List Bytes → chats.State → Result StoreError (List Metadata)
  unfolding from_chats db_get_chat_metadata_batched
  get_chat_metadata_batched ids t = db_get_chat_metadata_batched ids t >>= from_chats

  -- An `UPDATE` of a chat, which there has to be.
  unfoldable pub update_chat :
      Bytes → (ChatRow → ChatRow) → chats.State → Result StoreError (Unit {0}) × chats.State
  update_chat chat_id set t =
      let (rows_affected, t') = chats.update (λ r. r.id == encode codecs chat_id) set t in
      (if rows_affected == 0 then err chat_not_found else ok tt, t')

  -- `dbSetDisplayName`
  pub set_display_name : Bytes → Bytes → chats.State → Result StoreError (Unit {0}) × chats.State
  set_display_name chat_id display_name =
      update_chat chat_id (λ r. record r { display_name = string_column display_name })

  -- `dbSetDescription`
  pub set_description : Bytes → Bytes → chats.State → Result StoreError (Unit {0}) × chats.State
  set_description chat_id description =
      update_chat chat_id (λ r. record r { description = string_column description })

  -- `dbSetMessagingFee`, where a fee that no `bigint` holds is an error.
  unfoldable pub set_messaging_fee :
      Bytes → ℕ → chats.State → Result StoreError (Unit {0}) × chats.State
  set_messaging_fee chat_id quarks t =
      if leb (2 ^ 63) quarks
      then (err out_of_range, t)
      else update_chat chat_id (λ r. record r { cover_charge = quarks }) t

  -- `dbSetOpenStatus`
  pub set_open_status : Bytes → Bool → chats.State → Result StoreError (Unit {0}) × chats.State
  set_open_status chat_id is_open = update_chat chat_id (λ r. record r { is_open = is_open })

  -- `dbAdvanceLastChatActivity`, which goes back as well where the time is an earlier one.
  pub advance_last_chat_activity :
      Bytes → Time → chats.State → Result StoreError (Unit {0}) × chats.State
  advance_last_chat_activity chat_id ts =
      update_chat chat_id (λ r. record r { last_activity_at = stored_time ts })
