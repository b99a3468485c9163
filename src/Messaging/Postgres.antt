-- ===== src/Messaging/Postgres.antt =====
-- messaging/postgres/model.go, messaging/postgres/store.go: messages and pointers in two tables of
-- Postgres. Protobuf's encoding is a parameter; an enum is stored as its number.
pub mod RoundTrip
pub mod Advances
mod Examples
use flipchat_server.Postgres.{Table}
use flipchat_server.Postgres.Encoding.{Codecs, encode, decode}
use flipchat_server.Query.{Order, asc, desc, Setting, apply_options}
use flipchat_server.Messaging.{
  Content, text, reaction, reply, tip, deleted, review, other, Message, Draft, PointerType, Pointer,
  UserPointer, pointer_type_eq, pointer_type_discrete, stored_message,
}
use flipchat_server.Base.{
  ltb, if◌then◌else◌, Eq, ◌==◌, nat_eq, Bytes, bytes_eq, bytes_discrete, bytes_lt, contains, length,
  take, sort, Result, ok, err, ◌>>=◌, map_result, map, Time, as_time, ℤ, pos, negsuc, ℕ, Bool, true,
  false, not, ◌&&◌, ◌||◌, Option, none, some, List, [], ◌∷◌, ◌≡◌,
}

-- A row of `flipchat_messages`; `updatedAt` is not read.
pub record MessageRow : Type 0 where
  pub id : Bytes
  pub chat_id : Bytes
  pub sender_id : Option Bytes
  pub was_sender_off_stage : Bool
  pub version : ℕ
  pub content_type : ℕ
  pub content : Bytes
  pub created_at : Time

abbrev pub MessageTable : Type 1
MessageTable = Table MessageRow Bytes (λ r. r.id)

-- The primary key of `flipchat_pointers`.
pub record PointerKey : Type 0 where
  pub chat_id : Bytes
  pub user_id : Bytes
  pub kind : PointerType

unfoldable pub pointer_key_discrete : Discrete PointerKey
unfolding bytes_discrete pointer_type_discrete
pointer_key_discrete = hlevel (bytes_discrete, pointer_type_discrete)

instance abbrev pub pointer_key_eq : Eq PointerKey
pointer_key_eq = record { dec_eq = pointer_key_discrete }

pub record PointerRow : Type 0 where
  pub key : PointerKey
  pub value : Bytes

abbrev pub PointerTable : Type 1
PointerTable = Table PointerRow PointerKey (λ r. r.key)

-- `proto.Marshal` and `proto.Unmarshal` of a content and of a whole message: what is marshalled can
-- be unmarshalled. `other_type` is the number of a content that is not told apart here: 2 and 10
-- are those of announcements, and 0 is that of any other.
pub record Wire : Type 0 where
  pub marshal_content : Content → Option Bytes
  pub unmarshal_content : Bytes → Option Content
  pub marshal_message : Message → Option Bytes
  pub unmarshal_message : Bytes → Option Message
  pub other_type : ℕ
  pub content_round_trip :
      (c : Content) (b : Bytes) → marshal_content c ≡ some b → unmarshal_content b ≡ some c
  pub message_round_trip :
      (x : Message) (b : Bytes) → marshal_message x ≡ some b → unmarshal_message b ≡ some x

-- The errors of the store: a message that has an id, protobuf's, those of `pg.Decode` and of an
-- unknown version, a unique violation, a statement that is no SQL, and `ErrMessageNotFound`.
pub data StoreError : Type 0 where
  has_message_id not_marshalled not_unmarshalled undecodable unknown_version : StoreError
  unique_violation syntax_error message_not_found : StoreError

abbrev pub legacy_message_version : ℕ
legacy_message_version = 0

abbrev pub content_message_version : ℕ
content_message_version = 1

-- `getContentType`
unfoldable pub get_content_type : Wire → Content → ℕ
get_content_type wire (text t) = 1
get_content_type wire (reaction id emoji) = 5
get_content_type wire (reply id t) = 6
get_content_type wire (tip id quarks) = 7
get_content_type wire (deleted id) = 8
get_content_type wire (review id approved) = 9
get_content_type wire other = wire.other_type

module _ (codecs : Codecs) (wire : Wire) where
  encode_sender : Option Bytes → Option Bytes
  encode_sender none = none
  encode_sender (some sender) = some (encode codecs sender)

  -- `toContentMessageModel` for a message with an id; the table sets the time.
  unfoldable pub to_content_model : Bytes → Message → Result StoreError MessageRow
  unfolding encode_sender
  to_content_model chat_id x = elim (wire.marshal_content x.content) [
    | none ↦ err not_marshalled
    | some opaque_data ↦ ok (record {
      id = x.message_id;
      chat_id = encode codecs chat_id;
      sender_id = encode_sender x.sender_id;
      was_sender_off_stage = x.was_sender_off_stage;
      version = content_message_version;
      content_type = get_content_type wire x.content;
      content = opaque_data;
      created_at = x.ts;
    })
  ]

  -- `toLegacyMessageModel`
  unfoldable pub to_legacy_model : Bytes → Message → Result StoreError MessageRow
  unfolding encode_sender
  to_legacy_model chat_id x = elim (wire.marshal_message x) [
    | none ↦ err not_marshalled
    | some opaque_data ↦ ok (record {
      id = x.message_id;
      chat_id = encode codecs chat_id;
      sender_id = encode_sender x.sender_id;
      was_sender_off_stage = x.was_sender_off_stage;
      version = legacy_message_version;
      content_type = 0;
      content = opaque_data;
      created_at = x.ts;
    })
  ]

  decode_sender : Option Bytes → Result StoreError (Option Bytes)
  decode_sender none = ok none
  decode_sender (some encoded) = elim (decode codecs encoded) [
    | err e ↦ err undecodable
    | ok sender ↦ ok (some sender)
  ]

  -- A message of a row of the present version. A row without a time leaves the timestamp nil.
  from_content_model : MessageRow → Result StoreError Message
  unfolding decode_sender
  from_content_model r = elim (wire.unmarshal_content r.content) [
    | none ↦ err not_unmarshalled
    | some c ↦ do
      sender ← decode_sender r.sender_id
      ok (record {
        message_id = r.id;
        sender_id = sender;
        content = c;
        ts = as_time (if r.created_at == 0 then none else some r.created_at);
        was_sender_off_stage = r.was_sender_off_stage;
      })
  ]

  from_legacy_model : MessageRow → Result StoreError Message
  from_legacy_model r = elim (wire.unmarshal_message r.content) [
    | none ↦ err not_unmarshalled
    | some x ↦ ok (if r.created_at == 0 then x else record x { ts = r.created_at })
  ]

  -- `fromMessageModel`
  unfoldable pub from_message_model : MessageRow → Result StoreError Message
  unfolding from_content_model from_legacy_model
  from_message_model r =
      if r.version == legacy_message_version
      then from_legacy_model r
      else if r.version == content_message_version
      then from_content_model r
      else err unknown_version

  -- The loop that reads the rows of an answer; an error ends it.
  unfoldable pub from_models : List MessageRow → Result StoreError (List Message)
  from_models [] = ok []
  from_models (r ∷ rs) =
      let rest = from_models rs in from_message_model r >>= λ x. rest >>= λ xs. ok (x ∷ xs)

  module _ (db : MessageTable) where
    -- `dbPut`: the row that the table returns is the one that was inserted.
    db_put : MessageRow → db.State → Result StoreError MessageRow × db.State
    db_put r t = elim (db.insert r t) [ none ↦ (err unique_violation, t) | some t' ↦ (ok r, t') ]

    put_model : Result StoreError MessageRow → db.State → Result StoreError Message × db.State
    unfolding db_put
    put_model (err e) t = (err e, t)
    put_model (ok r) t = let (result, t') = db_put r t in (result >>= from_message_model, t')

    -- `PutMessage`, with the new message's id, and the time of the insertion in place of any that
    -- the message brings.
    unfoldable pub put_message :
        Bytes → Draft → Bytes → Time → db.State → Result StoreError Message × db.State
    unfolding put_model
    put_message chat_id msg id now t = elim msg.message_id [
      | some _ ↦ (err has_message_id, t)
      | none ↦
          put_model (to_content_model chat_id (record (stored_message id now msg) { ts = now })) t
    ]

    pub put_message_legacy :
        Bytes → Draft → Bytes → Time → db.State → Result StoreError Message × db.State
    unfolding put_model
    put_message_legacy chat_id msg id now t = elim msg.message_id [
      | some _ ↦ (err has_message_id, t)
      | none ↦
          put_model (to_legacy_model chat_id (record (stored_message id now msg) { ts = now })) t
    ]

    -- `SELECT … WHERE "chatId" = $1 AND "id" = $2`, where the id is the primary key.
    unfoldable pub db_get_message : Bytes → Bytes → db.State → Result StoreError MessageRow
    db_get_message chat_id message_id t = elim (db.find message_id t) [
      | none ↦ err message_not_found
      | some r ↦ if r.chat_id == encode codecs chat_id then ok r else err message_not_found
    ]

    unfoldable pub get_message : Bytes → Bytes → db.State → Result StoreError Message
    get_message chat_id message_id t = db_get_message chat_id message_id t >>= from_message_model

    -- `SELECT … WHERE "chatId" = $1 AND "id" IN (…)`; an empty list is no SQL.
    pub get_batch_messages : Bytes → List Bytes → db.State → Result StoreError (List Message)
    get_batch_messages chat_id [] t = err syntax_error
    get_batch_messages chat_id (id ∷ ids) t =
        from_models
          (db.select (λ r. r.chat_id == encode codecs chat_id && contains r.id (id ∷ ids)) t)

    -- The condition on the token.
    past_token : Order → Option Bytes → MessageRow → Bool
    past_token order none r = true
    past_token asc (some token) r = bytes_lt token r.id
    past_token desc (some token) r = bytes_lt r.id token

    -- `ORDER BY "id"`
    abbrev order_by_id : Order → List MessageRow → List MessageRow
    order_by_id asc rs = sort (λ a b. bytes_lt a.id b.id) rs
    order_by_id desc rs = sort (λ a b. bytes_lt b.id a.id) rs

    -- `LIMIT`, which is left out for a limit of zero.
    abbrev limit_to : ℕ → List MessageRow → List MessageRow
    limit_to limit rs = if ltb 0 limit then take limit rs else rs

    pub get_paged_messages : Bytes → List Setting → db.State → Result StoreError (List Message)
    unfolding past_token
    get_paged_messages chat_id options t =
        let o = apply_options options in
        let p =
          λ (r : MessageRow). r.chat_id == encode codecs chat_id && past_token o.order o.token r in
        from_models (limit_to o.limit (order_by_id o.order (db.select p t)))

    -- The rows that `CountUnread` counts.
    is_unread : Bytes → Bytes → Option Bytes → MessageRow → Bool
    is_unread chat_id user_id last_read r =
        r.chat_id == encode codecs chat_id
        && elim r.sender_id [ none ↦ true | some sender ↦ not (sender == encode codecs user_id) ]
        && (r.content_type == 0 || r.content_type == 1 || r.content_type == 6)
        && elim last_read [ none ↦ true | some id ↦ bytes_lt id r.id ]

    -- `COUNT(*)` of at most as many rows as the limit, if there is one.
    pub count_unread : Bytes → Bytes → Option Bytes → ℤ → db.State → ℕ
    unfolding is_unread
    count_unread chat_id user_id last_read max_value t =
        let found = db.select (is_unread chat_id user_id last_read) t in
        elim max_value [ negsuc _ ↦ length found | pos n ↦ length (take n found) ]

module _ (codecs : Codecs) (db : PointerTable) where
  abbrev pub pointer_key : Bytes → Bytes → PointerType → PointerKey
  pointer_key chat_id user_id kind = record {
    chat_id = encode codecs chat_id;
    user_id = encode codecs user_id;
    kind = kind;
  }

  -- `toPointerModel`
  abbrev to_pointer_model : Bytes → Bytes → Pointer → PointerRow
  to_pointer_model chat_id user_id pointer = record {
    key = pointer_key chat_id user_id pointer.kind;
    value = encode codecs pointer.value;
  }

  -- `fromPointerModel`
  unfoldable pub from_pointer_model : PointerRow → Result StoreError UserPointer
  from_pointer_model r = elim (decode codecs r.key.user_id) [
    | err e ↦ err undecodable
    | ok user_id ↦ elim (decode codecs r.value) [
      | err e ↦ err undecodable
      | ok value ↦
          ok (record { user_id = user_id; pointer = record { kind = r.key.kind; value = value } })
    ]
  ]

  -- `dbUpdate`: a row that is gone is an error.
  db_update : PointerRow → db.State → Result StoreError Bool × db.State
  db_update r t =
      let (n, t') = db.update (λ x. x.key == r.key) (λ x. record x { value = r.value }) t in
      if n == 0 then (err message_not_found, t') else (ok true, t')

  -- `dbPut` of a pointer.
  db_put_pointer : PointerRow → db.State → Result StoreError Bool × db.State
  db_put_pointer r t = elim (db.insert r t) [
    | none ↦ (err unique_violation, t)
    | some t' ↦ (ok true, t')
  ]

  -- `AdvancePointer`, run by itself.
  unfoldable pub advance_pointer :
      Bytes → Bytes → Pointer → db.State → Result StoreError Bool × db.State
  unfolding db_update db_put_pointer
  advance_pointer chat_id user_id pointer t =
      let model = to_pointer_model chat_id user_id pointer in
      elim (db.find model.key t) [
        | none ↦ db_put_pointer model t
        | some existing ↦ elim (decode codecs existing.value) [
          | err e ↦ (err undecodable, t)
          | ok value ↦
              if not (bytes_lt value pointer.value) then (ok false, t) else db_update model t
        ]
      ]

  from_pointer_models : List PointerRow → Result StoreError (List UserPointer)
  from_pointer_models [] = ok []
  from_pointer_models (r ∷ rs) =
      let rest = from_pointer_models rs in from_pointer_model r >>= λ p. rest >>= λ ps. ok (p ∷ ps)

  -- `GetPointers` and `GetAllPointers`
  pub get_pointers : Bytes → Bytes → db.State → Result StoreError (List Pointer)
  unfolding from_pointer_models
  get_pointers chat_id user_id t = map_result (map (λ p. p.pointer)) (
      from_pointer_models (
        db.select
          (λ r. r.key.chat_id == encode codecs chat_id && r.key.user_id == encode codecs user_id)
          t))

  pub get_all_pointers : Bytes → db.State → Result StoreError (List UserPointer)
  unfolding from_pointer_models
  get_all_pointers chat_id t =
      from_pointer_models (db.select (λ r. r.key.chat_id == encode codecs chat_id) t)
