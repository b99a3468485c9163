-- ===== src/Postgres.antt =====
-- database/postgres: a table of the database behind the stores in postgres/, by what Postgres
-- documents of the statements that the stores run. The database answers: where it does not, every
-- call fails with its error.
pub mod Encoding
pub mod Lists
pub mod Counts
pub mod Examples
use flipchat_server.Base.{
  if◌then◌else◌, Eq, ◌==◌, length, keep, ℕ, Bool, ◌≡◌, Option, none, some, List, [], ◌∷◌,
}

-- A table whose rows have a primary key, at one moment: a call gives the table after it. `insert`
-- fails with a unique violation; `upsert` is `INSERT … ON CONFLICT … DO UPDATE SET`, where the
-- change is that of `SET`, and none for `DO NOTHING`; `update` tells how many rows it changed, and
-- `delete` how many it removed. The rows of `select` come in no particular order.
pub record Table (Row Key : Type 0) (key : Row → Key) ⦃e : Eq Key⦄ : Type 1 where
  pub State : Type 0
  pub empty : State
  pub find : Key → State → Option Row
  pub select : (Row → Bool) → State → List Row
  pub insert : Row → State → Option State
  pub upsert : Row → (Row → Row) → State → State
  pub update : (Row → Bool) → (Row → Row) → State → ℕ × State
  pub delete : (Row → Bool) → State → ℕ × State
  pub find-empty : (k : Key) → find k empty ≡ none
  pub find_key : (k : Key) (r : Row) (t : State) → find k t ≡ some r → key r ≡ k
  pub select_lem :
      (k : Key) (p : Row → Bool) (t : State)
      → keep (λ r. key r == k) (select p t)
        ≡ elim (find k t) [ none ↦ [] | some r ↦ if p r then r ∷ [] else [] ]
  pub find-insert :
      (k : Key) (r : Row) (t : State)
      → elim (insert r t) [ none ↦ none | some t' ↦ some (find k t') ] ≡ elim (find (key r) t) [
        | some old ↦ none
        | none ↦ some (if key r == k then some r else find k t)
      ]
  pub find-upsert :
      (k : Key) (r : Row) (f : Row → Row) (t : State)
      → ((x : Row) → key (f x) ≡ key x)
      → find k (upsert r f t)
        ≡ (if key r == k then some (elim (find k t) [ none ↦ r | some x ↦ f x ]) else find k t)
  pub find-update :
      (k : Key) (p : Row → Bool) (f : Row → Row) (t : State)
      → ((x : Row) → key (f x) ≡ key x)
      → find k (update p f t).1
        ≡ elim (find k t) [ none ↦ none | some x ↦ some (if p x then f x else x) ]
  pub find-delete :
      (k : Key) (p : Row → Bool) (t : State)
      → find k (delete p t).1
        ≡ elim (find k t) [ none ↦ none | some x ↦ if p x then none else some x ]
  pub updated :
      (p : Row → Bool) (f : Row → Row) (t : State) → (update p f t).0 ≡ length (select p t)
  pub deleted : (p : Row → Bool) (t : State) → (delete p t).0 ≡ length (select p t)
