-- ===== src/Intent/Postgres.antt =====
-- intent/postgres/model.go, intent/postgres/store.go: the used intents in a table of Postgres.
pub mod Sequential
pub mod Racing
mod Examples
use flipchat_server.Intent.{IntentError, already_fulfilled}
use flipchat_server.Postgres.{Table}
use flipchat_server.Postgres.Encoding.{Codecs, encode}
use flipchat_server.Base.{
  if◌then◌else◌, Bytes, bytes_eq, Result, ok, err, ℕ, Bool, true, false, none, some,
}

-- A row of `flipchat_intents`, less its timestamps.
pub record IntentRow : Type 0 where
  pub id : Bytes
  pub is_fulfilled : Bool

abbrev pub IntentTable : Type 1
IntentTable = Table IntentRow Bytes (λ r. r.id)

module _ (codecs : Codecs) (db : IntentTable) where
  -- `SELECT "isFulfilled" … WHERE "id" = $1`; a missing row is not fulfilled.
  unfoldable pub db_is_fulfilled : Bytes → db.State → Bool
  db_is_fulfilled id t = elim (db.find (encode codecs id) t) [
    | none ↦ false
    | some r ↦ r.is_fulfilled
  ]

  -- `INSERT … VALUES ($1, true, …) ON CONFLICT ("id") DO NOTHING`
  unfoldable pub db_mark_fulfilled : Bytes → db.State → db.State
  db_mark_fulfilled id t =
      db.upsert (record { id = encode codecs id; is_fulfilled = true }) (λ r. r) t

  -- `MarkFulfilled`, run by itself.
  unfoldable pub mark_fulfilled : Bytes → db.State → Result IntentError (Unit {0}) × db.State
  mark_fulfilled id t =
      if db_is_fulfilled id t then (err already_fulfilled, t) else (ok tt, db_mark_fulfilled id t)
