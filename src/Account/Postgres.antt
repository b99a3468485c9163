-- ===== src/Account/Postgres.antt =====
-- account/postgres/model.go, account/postgres/store.go: users and public keys in two tables of
-- Postgres. A call that reads the clock in its statement takes the reading.
pub mod Keys
mod Examples
use flipchat_server.Postgres.{Table}
use flipchat_server.Postgres.Encoding.{Codecs, base58, encode, encode_as, decode}
use flipchat_server.Base.{
  ltb, if◌then◌else◌, ◌==◌, nat_eq, Bytes, bytes_eq, contains, Result, ok, err, ◌>>=◌, Time, ℕ,
  Bool, true, false, not, ◌&&◌, none, some, List, [], ◌∷◌, map,
}

-- A row of `flipchat_users`, less the display name and the timestamps of the row.
pub record UserRow : Type 0 where
  pub id : Bytes
  pub is_staff : Bool
  pub is_registered : Bool
  pub next_airdrop_at : Time
  pub eligible_until : Time

-- A row of `flipchat_publickeys`.
pub record KeyRow : Type 0 where
  pub key : Bytes
  pub user_id : Bytes

abbrev pub UserTable : Type 1
UserTable = Table UserRow Bytes (λ r. r.id)

abbrev pub KeyTable : Type 1
KeyTable = Table KeyRow Bytes (λ r. r.key)

-- `ErrNotFound`, and the errors of `pg.Decode` and of the database: a key that is there already,
-- and a list `IN ()` with nothing in it.
pub data StoreError : Type 0 where
  not_found undecodable unique_violation syntax_error : StoreError

module _ (codecs : Codecs) (users : UserTable) (keys : KeyTable) where
  -- Both tables at one moment.
  pub record Tables : Type 0 where
    pub user_rows : users.State
    pub key_rows : keys.State

  abbrev pub encode_key : Bytes → Bytes
  encode_key pub_key = encode_as codecs base58 pub_key

  decode_id : Bytes → Result StoreError Bytes
  decode_id encoded = elim (decode codecs encoded) [ err e ↦ err undecodable | ok id ↦ ok id ]

  -- `dbGetUserId`
  unfoldable pub get_user_id : Bytes → Tables → Result StoreError Bytes
  unfolding decode_id
  get_user_id pub_key t = elim (keys.find (encode_key pub_key) t.key_rows) [
    | none ↦ err not_found
    | some r ↦ decode_id r.user_id
  ]

  new_user_row : Bytes → Time → UserRow
  new_user_row user_id now = record {
    id = encode codecs user_id;
    is_staff = false;
    is_registered = false;
    next_airdrop_at = now;
    eligible_until = now;
  }

  -- `dbBind`: one transaction, of which nothing stays where the key cannot be inserted.
  db_bind : Bytes → Bytes → Time → Tables → Result StoreError Bytes × Tables
  unfolding new_user_row
  db_bind user_id pub_key now t =
      let user_rows = users.upsert (new_user_row user_id now) (λ r. r) t.user_rows in
      let row : KeyRow = record { key = encode_key pub_key; user_id = encode codecs user_id } in
      elim (keys.insert row t.key_rows) [
        | none ↦ (err unique_violation, t)
        | some key_rows ↦ (ok user_id, record { user_rows = user_rows; key_rows = key_rows })
      ]

  -- `Bind`, run by itself.
  unfoldable pub bind : Bytes → Bytes → Time → Tables → Result StoreError Bytes × Tables
  unfolding db_bind
  bind user_id pub_key now t = elim (get_user_id pub_key t) [
    | ok existing ↦ (ok existing, t)
    | err not_found ↦ db_bind user_id pub_key now t
    | err e ↦ (err e, t)
  ]

  decode_ids : List Bytes → Result StoreError (List Bytes)
  unfolding decode_id
  decode_ids [] = ok []
  decode_ids (x ∷ xs) =
      let rest = decode_ids xs in decode_id x >>= λ id. rest >>= λ ids. ok (id ∷ ids)

  pub get_pub_keys : Bytes → Tables → Result StoreError (List Bytes)
  unfolding decode_ids
  get_pub_keys user_id t =
      decode_ids
        (map (λ r. r.key) (keys.select (λ r. r.user_id == encode codecs user_id) t.key_rows))

  unfoldable pub remove_key : Bytes → Bytes → Tables → Tables
  remove_key user_id pub_key t = record t {
    key_rows =
        (keys.delete (λ r. r.key == encode_key pub_key && r.user_id == encode codecs user_id)
          t.key_rows).1;
  }

  unfoldable pub is_authorized : Bytes → Bytes → Tables → Result StoreError Bool
  is_authorized user_id pub_key t = elim (get_user_id pub_key t) [
    | err not_found ↦ ok false
    | err e ↦ err e
    | ok linked ↦ ok (linked == user_id)
  ]

  -- A user who has no row is no member of the staff and not registered.
  pub is_staff : Bytes → Tables → Bool
  is_staff user_id t = elim (users.find (encode codecs user_id) t.user_rows) [
    | none ↦ false
    | some r ↦ r.is_staff
  ]

  unfoldable pub is_registered : Bytes → Tables → Bool
  is_registered user_id t = elim (users.find (encode codecs user_id) t.user_rows) [
    | none ↦ false
    | some r ↦ r.is_registered
  ]

  -- `UPDATE … WHERE "id" = $2`, which wants a row to change.
  update_user : Bytes → (UserRow → UserRow) → Tables → Result StoreError (Unit {0}) × Tables
  update_user user_id f t =
      let (n, user_rows) = users.update (λ r. r.id == encode codecs user_id) f t.user_rows in
      let t' = record t { user_rows = user_rows } in
      if n == 0 then (err not_found, t') else (ok tt, t')

  unfoldable pub set_registration_flag :
      Bytes → Bool → Tables → Result StoreError (Unit {0}) × Tables
  unfolding update_user
  set_registration_flag user_id registered t =
      update_user user_id (λ r. record r { is_registered = registered }) t

  pub extend_airdrop_eligibility : Bytes → Time → Tables → Result StoreError (Unit {0}) × Tables
  unfolding update_user
  extend_airdrop_eligibility user_id until t =
      update_user user_id (λ r. record r { eligible_until = until }) t

  pub batch_set_next_airdrop_timestamp :
      Time → List Bytes → Tables → Result StoreError (Unit {0}) × Tables
  batch_set_next_airdrop_timestamp ts [] t = (err syntax_error, t)
  batch_set_next_airdrop_timestamp ts (u ∷ us) t =
      let ids = map (encode codecs) (u ∷ us) in
      let (n, user_rows) =
        users.update (λ r. contains r.id ids) (λ r. record r { next_airdrop_at = ts })
          t.user_rows in
      (ok tt, record t { user_rows = user_rows })

  pub get_next_airdrop_timestamp : Bytes → Tables → Result StoreError Time
  get_next_airdrop_timestamp user_id t = elim (users.find (encode codecs user_id) t.user_rows) [
    | none ↦ err not_found
    | some r ↦ ok r.next_airdrop_at
  ]

  pub get_airdrop_eligibility_timestamp : Bytes → Tables → Result StoreError Time
  get_airdrop_eligibility_timestamp user_id t =
      elim (users.find (encode codecs user_id) t.user_rows) [
        | none ↦ err not_found
        | some r ↦ ok r.eligible_until
      ]

  or_not_found : List Bytes → Result StoreError (List Bytes)
  unfolding decode_ids
  or_not_found [] = err not_found
  or_not_found (x ∷ xs) = decode_ids (x ∷ xs)

  pub get_users_to_airdrop : Time → Tables → Result StoreError (List Bytes)
  unfolding or_not_found
  get_users_to_airdrop at t = or_not_found (
      map (λ r. r.id)
        (users.select (λ r. r.is_registered && ltb r.next_airdrop_at at && ltb at r.eligible_until)
          t.user_rows))
