-- ===== src/Iap/Postgres.antt =====
-- iap/postgres/model.go, iap/postgres/store.go: purchases in a table of Postgres; an enum is stored
-- as its number.
use flipchat_server.Iap.{
  Platform, Product, product_unknown, product_create_account, State, state_fulfilled, Purchase,
}
use flipchat_server.Postgres.{Table}
use flipchat_server.Postgres.Encoding.{Codecs, base64, encode, decode, decode-encode_as, encode_eq}
use flipchat_server.Base.{
  if◌then◌else◌, ◌==◌, Option-cases, Bytes, bytes_eq, Result, ok, err, ◌>>=◌, ◌≡◌, inl, inr, none,
  some, arith,
}

-- A row of `flipchat_iap`; the time of its writing is not read.
pub record PurchaseRow : Type 0 where
  pub receipt_id : Bytes
  pub platform : Platform
  pub user_id : Bytes
  pub product : Product
  pub state : State

abbrev pub PurchaseTable : Type 1
PurchaseTable = Table PurchaseRow Bytes (λ r. r.receipt_id)

-- The two errors that `CreatePurchase` makes, `ErrExists`, `ErrNotFound`, and that of `pg.Decode`.
pub data StoreError : Type 0 where
  wrong_product wrong_state exists not_found undecodable : StoreError

module _ (codecs : Codecs) where
  -- `toModel`
  unfoldable pub to_model : Purchase → PurchaseRow
  to_model p = record {
    receipt_id = encode codecs p.receipt_id;
    platform = p.platform;
    user_id = encode codecs p.user;
    product = p.product;
    state = p.state;
  }

  decode_bytes : Bytes → Result StoreError Bytes
  decode_bytes encoded = elim (decode codecs encoded) [ err e ↦ err undecodable | ok x ↦ ok x ]

  -- `fromModel`, which leaves the time of the creation at Go's zero time.
  unfoldable pub from_model : PurchaseRow → Result StoreError Purchase
  unfolding decode_bytes
  from_model r = do
    receipt_id ← decode_bytes r.receipt_id
    user ← decode_bytes r.user_id
    ok (record {
      receipt_id = receipt_id;
      platform = r.platform;
      user = user;
      product = r.product;
      state = r.state;
      created_at = 0;
    })

  from_model-to_model : (p : Purchase) → from_model (to_model p) ≡ ok (record p { created_at = 0 })
  unfolding from_model to_model decode_bytes
  from_model-to_model p =
      ground
        (arith, decode-encode_as codecs base64 p.receipt_id, decode-encode_as codecs base64 p.user)

  module _ (db : PurchaseTable) where
    -- `dbPut`
    db_put : PurchaseRow → db.State → Result StoreError (Unit {0}) × db.State
    db_put r t = elim (db.insert r t) [ none ↦ (err exists, t) | some t' ↦ (ok tt, t') ]

    unfoldable pub create_purchase : Purchase → db.State → Result StoreError (Unit {0}) × db.State
    unfolding db_put
    create_purchase p t = elim p.product [
      | product_unknown ↦ (err wrong_product, t)
      | product_create_account ↦ elim p.state [
        | state_fulfilled ↦ db_put (to_model p) t
        | _ ↦ (err wrong_state, t)
      ]
    ]

    unfoldable pub get_purchase : Bytes → db.State → Result StoreError Purchase
    get_purchase receipt_id t = elim (db.find (encode codecs receipt_id) t) [
      | none ↦ err not_found
      | some r ↦ from_model r
    ]

    db_put-get_purchase :
        (p : Purchase) (id : Bytes) (t : db.State)
        → (db_put (to_model p) t).0 ≡ ok tt
        → get_purchase id (db_put (to_model p) t).1
          ≡ (if p.receipt_id == id then ok (record p { created_at = 0 }) else get_purchase id t)
    unfolding db_put get_purchase to_model
    db_put-get_purchase p id t h = elim (Option-cases (db.insert (to_model p) t)) [
      | inl taken ↦ absurd (ground arith)
      | inr (t', fresh) ↦ ground (
        arith,
        db.find-insert (encode codecs id) (to_model p) t,
        from_model-to_model p,
        encode_eq codecs base64 p.receipt_id id,
      )
    ]

    -- A purchase that `CreatePurchase` takes is read back, less the time of its creation, and no
    -- other purchase changes.
    pub create_purchase-get_purchase :
        (p : Purchase) (id : Bytes) (t : db.State)
        → (create_purchase p t).0 ≡ ok tt
        → get_purchase id (create_purchase p t).1
          ≡ (if p.receipt_id == id then ok (record p { created_at = 0 }) else get_purchase id t)
    unfolding create_purchase
    create_purchase-get_purchase p id t h = ground (arith, db_put-get_purchase p id t)
