-- ===== src/Intent/Postgres/Racing.antt =====
-- intent/postgres/store.go: two calls of `MarkFulfilled` at once. Each of them reads whether the
-- intent is used and then writes, in two statements, with no transaction around them.
use flipchat_server.Intent.{IntentError, already_fulfilled}
use flipchat_server.Intent.Postgres.{IntentTable, db_is_fulfilled, db_mark_fulfilled}
use flipchat_server.Postgres.Encoding.{Codecs}
use flipchat_server.Base.{Bytes, Result, ok, err, ◌≡◌, true, false}

-- How far a call is: not begun, past its read, which found the intent unused, or returned.
pub data Progress : Type 0 where
  begins : Progress
  may_write : Progress
  returned : Result IntentError (Unit {0}) → Progress

module _ (codecs : Codecs) (db : IntentTable) (id : Bytes) where
  -- One statement of a call.
  pub data Step : Progress → db.State → Progress → db.State → Type 0 where
    finds_used :
        {t : db.State}
        → db_is_fulfilled codecs db id t ≡ true
        → Step begins t (returned (err already_fulfilled)) t
    finds_unused :
        {t : db.State} → db_is_fulfilled codecs db id t ≡ false → Step begins t may_write t
    writes : {t : db.State} → Step may_write t (returned (ok tt)) (db_mark_fulfilled codecs db id t)

  -- What two calls for the intent come to from a table, by their statements in any order.
  pub data Both (t₀ : db.State) : Progress → Progress → db.State → Type 0 where
    start : Both t₀ begins begins t₀
    first : {a a' b : Progress} {t t' : db.State} → Both t₀ a b t → Step a t a' t' → Both t₀ a' b t'
    second :
        {a b b' : Progress} {t t' : db.State} → Both t₀ a b t → Step b t b' t' → Both t₀ a b' t'

  -- A payment can be used twice: from any table in which an intent is not used, two calls of
  -- `MarkFulfilled` for it can come to both succeeding, as each reads the table before the other
  -- writes to it.
  pub used_twice :
      (t : db.State)
      → db_is_fulfilled codecs db id t ≡ false
      → (t' : db.State) × Both t (returned (ok tt)) (returned (ok tt)) t'
  used_twice t unused = (
    db_mark_fulfilled codecs db id (db_mark_fulfilled codecs db id t),
    second (first (second (first start (finds_unused unused)) (finds_unused unused)) writes) writes,
  )
