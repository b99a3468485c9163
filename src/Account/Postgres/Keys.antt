-- ===== src/Account/Postgres/Keys.antt =====
-- account/postgres/store.go and account/memory/store.go: the answers on keys and on who is
-- registered.
use flipchat_server.Account.{Store, new_in_memory}
use flipchat_server.Account
use flipchat_server.Account.Keys.{IsValid, new_in_memory-IsValid, step-IsValid}
use flipchat_server.Account.Postgres.{
  UserRow, KeyRow, UserTable, KeyTable, StoreError, not_found, Tables, encode_key, decode_id,
  get_user_id, new_user_row, db_bind, bind, remove_key, is_authorized, is_registered, update_user,
  set_registration_flag,
}
use flipchat_server.Postgres.Counts.{length-select_key}
use flipchat_server.Postgres.Encoding.{Codecs, base58, base64, encode, decode-encode_as, encode_eq}
use flipchat_server.Base.{
  if◌then◌else◌, ◌==◌, nat_eq, Option-cases, Bytes, bytes_eq, lookup, has, lookup-insert,
  lookup-erase, lookup_or, ◌++◌, contains, keep, Result, ok, err, Time, ◌≡◌, refl, inl, inr, Bool,
  true, not, ◌&&◌, Option, none, some, List, [], ◌∷◌, arith,
}

-- A call of the store, with the readings of the clock that it makes.
pub data Call : Type 0 where
  binds : Bytes → Bytes → Time → Time → Call
  removes : Bytes → Bytes → Call
  flags : Bytes → Bool → Call
  finds : Bytes → Call
  authorizes : Bytes → Bytes → Call
  asks_registered : Bytes → Call

-- What a call answers.
pub data Answer : Type 0 where
  user : Bytes → Answer
  says : Bool → Answer
  done missing failed : Answer

abbrev memory_user : Result Account.AccountError Bytes → Answer
memory_user (ok u) = user u
memory_user (err e) = missing

abbrev memory_done : Result Account.AccountError (Unit {0}) → Answer
memory_done (ok _) = done
memory_done (err e) = missing

-- The store in memory.
unfoldable pub on_memory : Call → Store → Answer × Store
on_memory (binds u k now later) m =
    let (owner, m') = Account.bind u k now later m in (user owner, m')
on_memory (removes u k) m = (done, Account.remove_key u k m)
on_memory (flags u b) m =
    let (result, m') = Account.set_registration_flag u b m in (memory_done result, m')
on_memory (finds k) m = (memory_user (Account.get_user_id k m), m)
on_memory (authorizes u k) m = (says (Account.is_authorized u k m), m)
on_memory (asks_registered u) m = (says (Account.is_registered u m), m)

abbrev pub memory_answers : List Call → Store → List Answer
memory_answers [] m = []
memory_answers (x ∷ xs) m = let (answer, m') = on_memory x m in answer ∷ memory_answers xs m'

abbrev table_user : Result StoreError Bytes → Answer
table_user (ok u) = user u
table_user (err not_found) = missing
table_user (err e) = failed

abbrev table_done : Result StoreError (Unit {0}) → Answer
table_done (ok _) = done
table_done (err not_found) = missing
table_done (err e) = failed

abbrev table_says : Result StoreError Bool → Answer
table_says (ok b) = says b
table_says (err e) = failed

module _ (codecs : Codecs) (users : UserTable) (keys : KeyTable) where
  abbrev TablesOf : Type 0
  TablesOf = Tables codecs users keys

  unfoldable pub on_tables : Call → TablesOf → Answer × TablesOf
  on_tables (binds u k now later) t =
      let (result, t') = bind codecs users keys u k now t in (table_user result, t')
  on_tables (removes u k) t = (done, remove_key codecs users keys u k t)
  on_tables (flags u b) t =
      let (result, t') = set_registration_flag codecs users keys u b t in (table_done result, t')
  on_tables (finds k) t = (table_user (get_user_id codecs users keys k t), t)
  on_tables (authorizes u k) t = (table_says (is_authorized codecs users keys u k t), t)
  on_tables (asks_registered u) t = (says (is_registered codecs users keys u t), t)

  abbrev pub table_answers : List Call → TablesOf → List Answer
  table_answers [] t = []
  table_answers (x ∷ xs) t = let (answer, t') = on_tables x t in answer ∷ table_answers xs t'

  abbrev key_row : Bytes → Option Bytes → Option KeyRow
  key_row k none = none
  key_row k (some u) =
      some (record { key = encode_key codecs users keys k; user_id = encode codecs u })

  abbrev flag_of : Option UserRow → Option Bool
  flag_of none = none
  flag_of (some r) = some r.is_registered

  -- The tables hold the keys of the store, and its users with who is registered.
  record Represents (t : TablesOf) (m : Store) : Type 0 where
    pub valid : IsValid m
    pub same_keys :
        (k : Bytes)
        → keys.find (encode_key codecs users keys k) t.key_rows ≡ key_row k (lookup k m.keys)
    pub same_users :
        (u : Bytes)
        → flag_of (users.find (encode codecs u) t.user_rows)
          ≡ (if has u m.users then some (has u m.registered_users) else none)

  module _ (t : TablesOf) (m : Store) (v : Represents t m) where
    same_user_id :
        (k : Bytes)
        → get_user_id codecs users keys k t
          ≡ elim (lookup k m.keys) [ none ↦ err not_found | some u ↦ ok u ]
    unfolding get_user_id decode_id
    same_user_id k = elim (Option-cases (lookup k m.keys)) [
      | inl absent ↦ ground (arith, v.same_keys k)
      | inr (u, present) ↦ ground (arith, v.same_keys k, decode-encode_as codecs base64 u)
    ]

    finds-same : (k : Bytes) → (on_tables (finds k) t).0 ≡ (on_memory (finds k) m).0
    unfolding on_tables on_memory Account.get_user_id
    finds-same k = ground (arith, same_user_id k)

    authorizes-same :
        (u k : Bytes) → (on_tables (authorizes u k) t).0 ≡ (on_memory (authorizes u k) m).0
    unfolding on_tables on_memory is_authorized Account.is_authorized contains
    authorizes-same u k = ground (arith, same_user_id k, v.valid.agree u k)

    asks_registered-same :
        (u : Bytes) → (on_tables (asks_registered u) t).0 ≡ (on_memory (asks_registered u) m).0
    unfolding on_tables on_memory is_registered Account.is_registered
    asks_registered-same u = ground (arith, v.same_users u, v.valid.known u)

  -- A key that is not bound is inserted, with its user where that is new.
  db_bind_lem :
      (u k : Bytes) (now : Time) (t : TablesOf) (j w : Bytes)
      → keys.find (encode_key codecs users keys k) t.key_rows ≡ none
      → let (result, t') = db_bind codecs users keys u k now t in
        (result ≡ ok u)
        × (keys.find j t'.key_rows ≡ (
            if encode_key codecs users keys k == j
            then key_row k (some u)
            else keys.find j t.key_rows))
        × (users.find w t'.user_rows ≡ (
            if encode codecs u == w
            then some (elim (users.find w t.user_rows) [
              | none ↦ new_user_row codecs users keys u now
              | some x ↦ x
            ])
            else users.find w t.user_rows))
  unfolding db_bind new_user_row
  db_bind_lem u k now t j w absent =
      let row : KeyRow = record {
        key = encode_key codecs users keys k;
        user_id = encode codecs u;
      } in
      elim (Option-cases (keys.insert row t.key_rows)) [
        | inl taken ↦ absurd (ground (arith, keys.find-insert j row t.key_rows))
        | inr (rows, fresh) ↦ (
          ground arith,
          ground (arith, keys.find-insert j row t.key_rows),
          ground (
            arith,
            users.find-upsert w (new_user_row codecs users keys u now) (λ r. r) t.user_rows
                (λ r. refl),
          ),
        )
      ]

  -- A call gets the same answer of both, and leaves the tables with what the store holds.
  abbrev StepsAlike : Call → TablesOf → Store → Type 0
  StepsAlike x t m =
      ((on_tables x t).0 ≡ (on_memory x m).0) × Represents (on_tables x t).1 (on_memory x m).1

  module _ (u k : Bytes) (now later : Time) (t : TablesOf) (m : Store) (v : Represents t m) where
    bind_new-Represents :
        lookup k m.keys ≡ none
        → Represents (db_bind codecs users keys u k now t).1 (Account.bind u k now later m).1
    unfolding Account.bind Account.add_key new_user_row Account.step
    bind_new-Represents absent =
        let missing : keys.find (encode_key codecs users keys k) t.key_rows ≡ none =
          ground (arith, v.same_keys k) in
        record {
          valid = step-IsValid (Account.binds u k now later) m v.valid;
          same_keys = λ j. ground (
            arith,
            db_bind_lem u k now t (encode_key codecs users keys j) u missing,
            encode_eq codecs base58 k j,
            lookup-insert k j u m.keys,
            v.same_keys j,
          );
          same_users = λ w. ground (
            arith,
            db_bind_lem u k now t k (encode codecs w) missing,
            encode_eq codecs base64 u w,
            lookup-insert u w (lookup_or u [] m.users ++ k ∷ []) m.users,
            v.same_users w,
            v.valid.known w,
          );
        }

    bind_old : (w : Bytes) → lookup k m.keys ≡ some w → bind codecs users keys u k now t ≡ (ok w, t)
    unfolding bind
    bind_old w present = ground (arith, same_user_id t m v k)

    bind_new :
        lookup k m.keys ≡ none
        → bind codecs users keys u k now t ≡ db_bind codecs users keys u k now t
    unfolding bind
    bind_new absent = ground (arith, same_user_id t m v k)

    memory_bind_old : (w : Bytes) → lookup k m.keys ≡ some w → Account.bind u k now later m ≡ (w, m)
    unfolding Account.bind
    memory_bind_old w present = ground arith

    memory_bind_new : lookup k m.keys ≡ none → (Account.bind u k now later m).0 ≡ u
    unfolding Account.bind
    memory_bind_new absent = ground arith

    binds-step : StepsAlike (binds u k now later) t m
    unfolding on_tables on_memory
    binds-step = elim (Option-cases (lookup k m.keys)) [
      | inr (w, present) ↦ rw (bind_old w present, memory_bind_old w present) (refl, v)
      | inl absent ↦
          let missing : keys.find (encode_key codecs users keys k) t.key_rows ≡ none =
            ground (arith, v.same_keys k) in
          let bound = db_bind_lem u k now t k u missing in
          rw (bind_new absent)
            (ground (arith, bound, memory_bind_new absent), bind_new-Represents absent)
    ]

  removed-same_keys :
      (u k : Bytes) (t : TablesOf) (m : Store)
      → Represents t m
      → (j : Bytes)
      → keys.find (encode_key codecs users keys j) (remove_key codecs users keys u k t).key_rows
        ≡ key_row j (lookup j (Account.remove_key u k m).keys)
  unfolding remove_key Account.remove_key Account.unbind_key
  removed-same_keys u k t m v j =
      let p =
        λ (r : KeyRow). r.key == encode_key codecs users keys k && r.user_id == encode codecs u in
      let law = keys.find-delete (encode_key codecs users keys j) p t.key_rows in
      elim (Option-cases (lookup j m.keys)) [
        | inl absent ↦ ground (arith, law, v.same_keys j, lookup-erase k j m.keys)
        | inr (w, present) ↦ ground (
          arith,
          law,
          v.same_keys j,
          lookup-erase k j m.keys,
          encode_eq codecs base58 j k,
          encode_eq codecs base64 w u,
        )
      ]

  -- Removing a key.
  removes-step :
      (u k : Bytes) (t : TablesOf) (m : Store) → Represents t m → StepsAlike (removes u k) t m
  unfolding on_tables on_memory remove_key Account.remove_key Account.unbind_key Account.step
      contains
  removes-step u k t m v = (
    refl,
    record {
      valid = step-IsValid (Account.removes u k) m v.valid;
      same_keys = λ j. removed-same_keys u k t m v j;
      same_users = λ w. ground (
        arith,
        lookup-insert u w (keep (λ x. not (x == k)) (lookup_or u [] m.users)) m.users,
        v.same_users w,
        v.valid.agree u k,
      );
    },
  )

  -- The registration of a user.
  flags-step :
      (u : Bytes) (b : Bool) (t : TablesOf) (m : Store)
      → Represents t m
      → StepsAlike (flags u b) t m
  unfolding on_tables on_memory set_registration_flag update_user Account.set_registration_flag
      Account.step
  flags-step u b t m v =
      let p = λ (r : UserRow). r.id == encode codecs u in
      let f = λ (r : UserRow). record r { is_registered = b } in
      let count = length-select_key users (encode codecs u) t.user_rows in
      (
        ground (arith, users.updated p f t.user_rows, count, v.same_users u),
        record {
          valid = step-IsValid (Account.flags u b) m v.valid;
          same_keys = λ k. ground (arith, v.same_keys k);
          same_users = λ w. elim (Option-cases (users.find (encode codecs w) t.user_rows)) [
            | inl absent ↦ ground (
              arith,
              users.updated p f t.user_rows,
              count,
              v.same_users u,
              v.same_users w,
              users.find-update (encode codecs w) p f t.user_rows (λ r. refl),
              lookup-insert u w true m.registered_users,
              lookup-erase u w m.registered_users,
            )
            | inr (x, present) ↦ ground (
              arith,
              users.updated p f t.user_rows,
              count,
              v.same_users u,
              v.same_users w,
              users.find-update (encode codecs w) p f t.user_rows (λ r. refl),
              users.find_key (encode codecs w) x t.user_rows present,
              encode_eq codecs base64 w u,
              lookup-insert u w true m.registered_users,
              lookup-erase u w m.registered_users,
            )
          ];
        },
      )

  step_alike : (x : Call) (t : TablesOf) (m : Store) → Represents t m → StepsAlike x t m
  unfolding on_tables on_memory
  step_alike (binds u k now later) t m v = binds-step u k now later t m v
  step_alike (removes u k) t m v = removes-step u k t m v
  step_alike (flags u b) t m v = flags-step u b t m v
  step_alike (finds k) t m v = (finds-same t m v k, v)
  step_alike (authorizes u k) t m v = (authorizes-same t m v u k, v)
  step_alike (asks_registered u) t m v = (asks_registered-same t m v u, v)

  same_answers :
      (xs : List Call) (t : TablesOf) (m : Store)
      → Represents t m
      → table_answers xs t ≡ memory_answers xs m
  same_answers [] t m v = refl
  same_answers (x ∷ xs) t m v =
      let (same, v') = step_alike x t m v in
      ground (arith, same, same_answers xs (on_tables x t).1 (on_memory x m).1 v')

  -- The tables of accounts refine the store in memory: calls that run one after the other, from
  -- empty tables and from a new store, get the same answers, whether they bind or remove keys,
  -- register users, or ask for the user of a key, for an authorization or for a registration.
  pub table_answers-memory_answers :
      (xs : List Call)
      → table_answers xs (record { user_rows = users.empty; key_rows = keys.empty })
        ≡ memory_answers xs new_in_memory
  unfolding lookup
  table_answers-memory_answers xs = same_answers xs _ new_in_memory (record {
    valid = new_in_memory-IsValid;
    same_keys = λ k. keys.find-empty (encode_key codecs users keys k);
    same_users = λ u. rw (users.find-empty (encode codecs u)) refl;
  })
