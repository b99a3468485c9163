-- ===== src/Postgres/Lists.antt =====
-- A table as the list of its rows: it does what is asked of a table.
use flipchat_server.Postgres.{Table}
use flipchat_server.Base.{
  if◌then◌else◌, Eq, ◌==◌, ==_iff, Option-cases, length, keep, Bool, not, ◌≡◌, refl, inl, inr,
  Option, none, some, List, [], ◌∷◌, arith,
}

module _ {Row Key : Type 0} (key : Row → Key) ⦃e : Eq Key⦄ where
  -- The first row with a key.
  unfoldable pub row_at : Key → List Row → Option Row
  row_at k [] = none
  row_at k (r ∷ rs) = if key r == k then some r else row_at k rs

  drop_key : Key → List Row → List Row
  drop_key k [] = []
  drop_key k (r ∷ rs) = if key r == k then drop_key k rs else r ∷ drop_key k rs

  -- The rows that count: the first one with each key.
  unfoldable pub rows : List Row → List Row
  unfolding drop_key
  rows [] = []
  rows (r ∷ rs) = r ∷ drop_key (key r) (rows rs)

  row_at-keep-drop_key :
      (k j : Key) (p : Row → Bool) (rs : List Row)
      → row_at k (keep p (drop_key j rs)) ≡ (if j == k then none else row_at k (keep p rs))
  unfolding row_at drop_key keep
  row_at-keep-drop_key k j p [] = ground arith
  row_at-keep-drop_key k j p (r ∷ rs) = ground (arith, row_at-keep-drop_key k j p rs)

  row_at-keep-rows :
      (k : Key) (p : Row → Bool) (rs : List Row)
      → row_at k (keep p (rows rs))
        ≡ elim (row_at k rs) [ none ↦ none | some x ↦ if p x then some x else none ]
  unfolding row_at rows keep
  row_at-keep-rows k p [] = refl
  row_at-keep-rows k p (r ∷ rs) =
      ground (arith, row_at-keep-drop_key k (key r) p (rows rs), row_at-keep-rows k p rs)

  keep-drop_key :
      (k j : Key) (p : Row → Bool) (rs : List Row)
      → keep (λ r. key r == k) (keep p (drop_key j rs))
        ≡ (if j == k then [] else keep (λ r. key r == k) (keep p rs))
  unfolding drop_key keep
  keep-drop_key k j p [] = ground arith
  keep-drop_key k j p (r ∷ rs) = ground (arith, keep-drop_key k j p rs)

  pub keep-rows :
      (k : Key) (p : Row → Bool) (rs : List Row)
      → keep (λ r. key r == k) (keep p (rows rs))
        ≡ elim (row_at k rs) [ none ↦ [] | some r ↦ if p r then r ∷ [] else [] ]
  unfolding row_at rows keep
  keep-rows k p [] = refl
  keep-rows k p (r ∷ rs) = ground (arith, keep-drop_key k (key r) p (rows rs), keep-rows k p rs)

  -- `SET` on the rows that a condition holds of.
  unfoldable pub change : (Row → Bool) → (Row → Row) → List Row → List Row
  change p f [] = []
  change p f (r ∷ rs) = (if p r then f r else r) ∷ change p f rs

  pub row_at-change :
      (k : Key) (p : Row → Bool) (f : Row → Row) (rs : List Row)
      → ((x : Row) → key (f x) ≡ key x)
      → row_at k (change p f rs)
        ≡ elim (row_at k rs) [ none ↦ none | some x ↦ some (if p x then f x else x) ]
  unfolding row_at change
  row_at-change k p f [] h = refl
  row_at-change k p f (r ∷ rs) h = ground (arith, h r, row_at-change k p f rs h)

  -- The row that is found has the key.
  row_at_lem :
      (k : Key) (rs : List Row)
      → row_at k rs
        ≡ elim (row_at k rs) [ none ↦ none | some x ↦ if key x == k then some x else none ]
  unfolding row_at
  row_at_lem k [] = refl
  row_at_lem k (r ∷ rs) = ground (arith, row_at_lem k rs)

  pub row_at_key : (k : Key) (rs : List Row) (r : Row) → row_at k rs ≡ some r → key r ≡ k
  row_at_key k rs r h = (==_iff (key r) k).0 (ground (arith, row_at_lem k rs))

  unfoldable pub insert_row : Row → List Row → Option (List Row)
  insert_row r rs = elim (row_at (key r) rs) [ none ↦ some (r ∷ rs) | some old ↦ none ]

  unfoldable pub upsert_row : Row → (Row → Row) → List Row → List Row
  unfolding change
  upsert_row r f rs = elim (row_at (key r) rs) [
    | none ↦ r ∷ rs
    | some old ↦ change (λ x. key x == key r) f rs
  ]

  pub row_at-upsert_row :
      (k : Key) (r : Row) (f : Row → Row) (rs : List Row)
      → ((x : Row) → key (f x) ≡ key x)
      → row_at k (upsert_row r f rs) ≡ (
          if key r == k then some (elim (row_at k rs) [ none ↦ r | some x ↦ f x ]) else row_at k rs)
  unfolding upsert_row row_at
  row_at-upsert_row k r f rs h = elim (Option-cases (row_at (key r) rs)) [
    | inl absent ↦ ground (arith, absent)
    | inr (old, present) ↦
        ground (arith, row_at-change k (λ x. key x == key r) f rs h, row_at_lem k rs)
  ]

  pub row_at-delete :
      (k : Key) (p : Row → Bool) (rs : List Row)
      → row_at k (keep (λ r. not (p r)) (rows rs))
        ≡ elim (row_at k rs) [ none ↦ none | some x ↦ if p x then none else some x ]
  row_at-delete k p rs = elim (Option-cases (row_at k rs)) [
    | inl absent ↦ ground (arith, row_at-keep-rows k (λ r. not (p r)) rs)
    | inr (old, present) ↦ ground (arith, row_at-keep-rows k (λ r. not (p r)) rs)
  ]

  pub row_at-insert_row :
      (k : Key) (r : Row) (rs : List Row)
      → elim (insert_row r rs) [ none ↦ none | some rs' ↦ some (row_at k rs') ]
        ≡ elim (row_at (key r) rs) [
          | some old ↦ none
          | none ↦ some (if key r == k then some r else row_at k rs)
        ]
  unfolding insert_row row_at
  row_at-insert_row k r rs = elim (Option-cases (row_at (key r) rs)) [
    | inl absent ↦ rw absent refl
    | inr (old, present) ↦ rw present refl
  ]

  unfoldable pub list_table : Table Row Key key
  unfolding row_at rows insert_row upsert_row change
  list_table = record {
    State = List Row;
    empty = [];
    find = row_at;
    select = λ p rs. keep p (rows rs);
    insert = insert_row;
    upsert = upsert_row;
    update = λ p f rs. (length (keep p (rows rs)), change p f rs);
    delete = λ p rs. (length (keep p (rows rs)), keep (λ r. not (p r)) (rows rs));
    find-empty = λ k. refl;
    find_key = λ k r t h. row_at_key k t r h;
    select_lem = λ k p t. keep-rows k p t;
    find-insert = λ k r t. row_at-insert_row k r t;
    find-upsert = λ k r f t h. row_at-upsert_row k r f t h;
    find-update = λ k p f t h. row_at-change k p f t h;
    find-delete = λ k p t. row_at-delete k p t;
    updated = λ p f t. refl;
    deleted = λ p t. refl;
  }
