-- ===== src/Intent/Postgres/Sequential.antt =====
-- intent/postgres/store.go: the table beside the store in memory, where no two calls run at once.
use flipchat_server.Intent.{IntentError, Store, new_in_memory, is_fulfilled}
use flipchat_server.Intent
use flipchat_server.Intent.Postgres.{
  IntentTable, db_is_fulfilled, db_mark_fulfilled, mark_fulfilled,
}
use flipchat_server.Postgres.Encoding.{Codecs, base64, encode, encode_eq}
use flipchat_server.Base.{
  if◌then◌else◌, Bool-cases, Bytes, bytes_eq, lookup, insert, lookup-insert, Result, ◌≡◌, refl, inl,
  inr, true, false, none, some, List, [], ◌∷◌, arith,
}

-- The answers of a sequence of `MarkFulfilled` calls on the store in memory.
abbrev pub marked_in_memory : List Bytes → Store → List (Result IntentError (Unit {0}))
marked_in_memory [] s = []
marked_in_memory (id ∷ ids) s =
    let (answer, s') = Intent.mark_fulfilled id s in answer ∷ marked_in_memory ids s'

module _ (codecs : Codecs) (db : IntentTable) where
  -- The same calls on the table.
  abbrev pub marked_in_table : List Bytes → db.State → List (Result IntentError (Unit {0}))
  marked_in_table [] t = []
  marked_in_table (id ∷ ids) t =
      let (answer, t') = mark_fulfilled codecs db id t in answer ∷ marked_in_table ids t'

  -- The table has a row for each used intent, which says so.
  abbrev Represents : db.State → Store → Type 0
  Represents t s =
      (id : Bytes)
      → db.find (encode codecs id) t ≡ (
          if is_fulfilled id s
          then some (record { id = encode codecs id; is_fulfilled = true })
          else none)

  same_is_fulfilled :
      (id : Bytes) (t : db.State) (s : Store)
      → Represents t s
      → db_is_fulfilled codecs db id t ≡ is_fulfilled id s
  unfolding db_is_fulfilled
  same_is_fulfilled id t s h = ground (arith, h id)

  marked-Represents :
      (id : Bytes) (t : db.State) (s : Store)
      → Represents t s
      → is_fulfilled id s ≡ false
      → Represents
          (db_mark_fulfilled codecs db id t)
          (record s { fulfilled_intents = insert id tt s.fulfilled_intents })
  unfolding db_mark_fulfilled is_fulfilled
  marked-Represents id t s h unused j = ground (
    arith,
    db.find-upsert (encode codecs j) (record { id = encode codecs id; is_fulfilled = true })
        (λ r. r) t (λ r. refl),
    encode_eq codecs base64 id j,
    lookup-insert id j tt s.fulfilled_intents,
    h j,
  )

  same_answers :
      (ids : List Bytes) (t : db.State) (s : Store)
      → Represents t s
      → marked_in_table ids t ≡ marked_in_memory ids s
  unfolding mark_fulfilled Intent.mark_fulfilled is_fulfilled
  same_answers [] t s h = refl
  same_answers (id ∷ ids) t s h = elim (Bool-cases (is_fulfilled id s)) [
    | inl used ↦ ground (arith, same_is_fulfilled id t s h, same_answers ids t s h)
    | inr unused ↦ ground (
      arith,
      same_is_fulfilled id t s h,
      same_answers ids (db_mark_fulfilled codecs db id t)
          (record s { fulfilled_intents = insert id tt s.fulfilled_intents })
          (marked-Represents id t s h unused),
    )
  ]

  -- The intents in Postgres are used as those in memory are: calls of `MarkFulfilled` that run one
  -- after the other on an empty table get the answers that they get from a new store in memory.
  pub marked_in_table-marked_in_memory :
      (ids : List Bytes) → marked_in_table ids db.empty ≡ marked_in_memory ids new_in_memory
  unfolding is_fulfilled lookup
  marked_in_table-marked_in_memory ids =
      same_answers ids db.empty new_in_memory (λ id. db.find-empty (encode codecs id))
