-- ===== src/Postgres/Counts.antt =====
-- database/postgres: how many rows a condition on the primary key selects.
use flipchat_server.Postgres.{Table}
use flipchat_server.Base.{
  Eq, ◌==◌, ==_refl, nat_eq, Option-cases, List-cases, has_value, length, keep, ◌≡◌, inl, inr, not,
  arith,
}

module _ {Row Key : Type 0} {key : Row → Key} ⦃e : Eq Key⦄ (db : Table Row Key key) where
  -- No row is selected by a key exactly where no row has it.
  pub length-select_key :
      (k : Key) (t : db.State)
      → (length (db.select (λ r. key r == k) t) == 0) ≡ not (has_value (db.find k t))
  unfolding keep
  length-select_key k t =
      let p = λ (r : Row). key r == k in
      elim (List-cases (db.select p t)) [
        | inl empty ↦ elim (Option-cases (db.find k t)) [
          | inl absent ↦ ground arith
          | inr (r, present) ↦ ground (arith, db.select_lem k p t, db.find_key k r t present)
        ]
        | inr (x, xs, some_rows) ↦
            ground (arith, ==_refl (key x), db.select_lem (key x) p t, db.select_lem k p t)
      ]
