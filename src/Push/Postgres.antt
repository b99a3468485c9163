-- ===== src/Push/Postgres.antt =====
-- push/postgres/model.go, push/postgres/store.go: push tokens in a table of Postgres.
use flipchat_server.Push.{Token, new_token}
use flipchat_server.Postgres.{Table}
use flipchat_server.Postgres.Encoding.{Codecs, encode}
use flipchat_server.Base.{
  Eq, ◌==◌, nat_eq, Bytes, bytes_eq, bytes_discrete, contains, Result, ok, err, ℕ, ◌≡◌, false, ◌&&◌,
  some, List, [], ◌∷◌, map, refl, arith,
}

-- The primary key of `flipchat_pushtokens`.
pub record TokenKey : Type 0 where
  pub user_id : Bytes
  pub app_install_id : Bytes

unfoldable pub token_key_discrete : Discrete TokenKey
token_key_discrete = hlevel (bytes_discrete)

instance abbrev pub token_key_eq : Eq TokenKey
token_key_eq = record { dec_eq = token_key_discrete }

-- `model`, less the times of its writing.
pub record TokenRow : Type 0 where
  pub key : TokenKey
  pub token : Bytes
  pub kind : ℕ

abbrev pub TokenTable : Type 1
TokenTable = Table TokenRow TokenKey (λ r. r.key)

-- A list `IN ()` with nothing in it is no SQL.
pub data StoreError : Type 0 where
  syntax_error : StoreError

module _ (codecs : Codecs) (db : TokenTable) where
  abbrev pub token_key : Bytes → Bytes → TokenKey
  token_key user_id app_install_id = record {
    user_id = encode codecs user_id;
    app_install_id = app_install_id;
  }

  -- `toModel`
  abbrev pub to_model : Bytes → Token → TokenRow
  to_model user_id x = record {
    key = token_key user_id x.app_install_id;
    token = x.token;
    kind = x.kind;
  }

  -- `fromModel`
  abbrev pub from_model : TokenRow → Token
  from_model r = new_token r.key.app_install_id r.kind r.token

  -- `dbAdd`: of a row that is there the token is set, and nothing else.
  unfoldable pub db_add : TokenRow → db.State → db.State
  db_add r t = db.upsert r (λ x. record x { token = r.token }) t

  unfoldable pub add_token : Bytes → Bytes → ℕ → Bytes → db.State → db.State
  unfolding db_add
  add_token user_id app_install_id kind token t =
      db_add (to_model user_id (new_token app_install_id kind token)) t

  -- `dbGetTokensBatch`
  db_get_tokens_batch : List Bytes → db.State → Result StoreError (List TokenRow)
  db_get_tokens_batch [] t = err syntax_error
  db_get_tokens_batch (u ∷ us) t =
      ok (db.select (λ r. contains r.key.user_id (map (encode codecs) (u ∷ us))) t)

  pub get_tokens_batch : List Bytes → db.State → Result StoreError (List Token)
  unfolding db_get_tokens_batch
  get_tokens_batch user_ids t = elim (db_get_tokens_batch user_ids t) [
    | err e ↦ err e
    | ok rows ↦ ok (map from_model rows)
  ]

  pub get_tokens : Bytes → db.State → Result StoreError (List Token)
  get_tokens user_id t = get_tokens_batch (user_id ∷ []) t

  unfoldable pub delete_token : ℕ → Bytes → db.State → db.State
  delete_token kind token t = (db.delete (λ r. r.token == token && r.kind == kind) t).1

  pub clear_tokens : Bytes → db.State → db.State
  clear_tokens user_id t = (db.delete (λ r. r.key.user_id == encode codecs user_id) t).1

  -- Where an installation comes with a token of another type than it had, the row keeps the old
  -- type beside the new token, so that deleting the new token by its type leaves it there.
  pub delete_token-add_token :
      (u i : Bytes) (kind : ℕ) (token : Bytes) (r : TokenRow) (t : db.State)
      → db.find (token_key u i) t ≡ some r
      → (r.kind == kind) ≡ false
      → db.find (token_key u i) (delete_token kind token (add_token u i kind token t))
        ≡ some (record r { token = token })
  unfolding delete_token add_token
  delete_token-add_token u i kind token r t present other_kind =
      let row = to_model u (new_token i kind token) in
      ground (
        arith,
        db.find-upsert (token_key u i) row (λ x. record x { token = token }) t (λ x. refl),
        db.find-delete (token_key u i) (λ x. x.token == token && x.kind == kind)
            (add_token u i kind token t),
      )
