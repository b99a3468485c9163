-- ===== src/Push/Devices.antt =====
-- push/memory/store.go: the tokens of each device, and what each write leaves of them.
use flipchat_server.Base.{
  if◌then◌else◌, ◌==◌, Option-cases, Bytes, bytes_eq, Dict, lookup, insert, lookup-insert,
  lookup-erase, lookup_or, keep, ℕ, ◌≡◌, refl, inl, inr, not, none, some, List, [], ◌∷◌, arith,
}
use flipchat_server.Push.{
  Token, Store, new_in_memory, values, get_tokens, get_tokens_batch, new_token, add_token, is_token,
  delete_from, delete_all, delete_token, clear_tokens, Call, adds, deletes, clears, step, run,
}

-- Every token stands under its own installation, and no installation stands twice.
pub HasKeys : Dict Bytes Token → Type 0
HasKeys [] = Unit
HasKeys ((id, x) ∷ d) = (x.app_install_id ≡ id) × (lookup id d ≡ none) × HasKeys d

keep-none :
    (id : Bytes) (d : Dict Bytes Token)
    → HasKeys d
    → lookup id d ≡ none
    → keep (λ x. x.app_install_id == id) (values d) ≡ []
unfolding HasKeys lookup keep
keep-none id [] v h = refl
keep-none id ((w, y) ∷ d) v h = ground (arith, keep-none id d v.2)

keep-insert_same :
    (id : Bytes) (x : Token) (d : Dict Bytes Token)
    → HasKeys d
    → x.app_install_id ≡ id
    → keep (λ y. y.app_install_id == id) (values (insert id x d)) ≡ x ∷ []
unfolding HasKeys insert lookup keep
keep-insert_same id x [] v h = ground arith
keep-insert_same id x ((w, y) ∷ d) v h =
    ground (arith, keep-insert_same id x d v.2 h, keep-none id d v.2)

keep-insert_other :
    (id : Bytes) (x : Token) (d : Dict Bytes Token)
    → HasKeys d
    → x.app_install_id ≡ id
    → keep (λ y. not (y.app_install_id == id)) (values (insert id x d))
      ≡ keep (λ y. not (y.app_install_id == id)) (values d)
unfolding HasKeys insert lookup keep
keep-insert_other id x [] v h = ground arith
keep-insert_other id x ((w, y) ∷ d) v h = ground (arith, keep-insert_other id x d v.2 h)

insert-HasKeys :
    (id : Bytes) (x : Token) (d : Dict Bytes Token)
    → HasKeys d
    → x.app_install_id ≡ id
    → HasKeys (insert id x d)
unfolding HasKeys insert lookup
insert-HasKeys id x [] v h = ground arith
insert-HasKeys id x ((w, y) ∷ d) v h =
    ground (arith, insert-HasKeys id x d v.2 h, lookup-insert id w x d)

lookup-delete_from :
    (kind : ℕ) (token id : Bytes) (d : Dict Bytes Token)
    → lookup id d ≡ none
    → lookup id (delete_from kind token d) ≡ none
unfolding delete_from lookup
lookup-delete_from kind token id [] h = refl
lookup-delete_from kind token id ((w, y) ∷ d) h = ground (arith, lookup-delete_from kind token id d)

delete_from-HasKeys :
    (kind : ℕ) (token : Bytes) (d : Dict Bytes Token)
    → HasKeys d
    → HasKeys (delete_from kind token d)
unfolding HasKeys delete_from lookup
delete_from-HasKeys kind token [] v = tt
delete_from-HasKeys kind token ((w, y) ∷ d) v =
    ground (arith, delete_from-HasKeys kind token d v.2, lookup-delete_from kind token w d)

values-delete_from :
    (kind : ℕ) (token : Bytes) (d : Dict Bytes Token)
    → values (delete_from kind token d) ≡ keep (λ x. not (is_token kind token x)) (values d)
unfolding delete_from keep
values-delete_from kind token [] = refl
values-delete_from kind token ((w, y) ∷ d) = ground (arith, values-delete_from kind token d)

lookup-delete_all :
    (kind : ℕ) (token u : Bytes) (users : Dict Bytes (Dict Bytes Token))
    → lookup u (delete_all kind token users)
      ≡ elim (lookup u users) [ none ↦ none | some d ↦ some (delete_from kind token d) ]
unfolding delete_all lookup
lookup-delete_all kind token u [] = refl
lookup-delete_all kind token u ((w, d) ∷ users) =
    ground (arith, lookup-delete_all kind token u users)

-- The devices of every user have keys of their own.
pub IsValid : Store → Type 0
IsValid m = (u : Bytes) → HasKeys (lookup_or u [] m.tokens)

step-IsValid : (c : Call) (m : Store) → IsValid m → IsValid (step c m)
unfolding step IsValid HasKeys add_token delete_token clear_tokens
step-IsValid (adds w id kind token) m v u =
    let x = new_token id kind token in
    let d = lookup_or w [] m.tokens in
    ground
      (arith, lookup-insert w u (insert id x d) m.tokens, insert-HasKeys id x d (v w) refl, v u)
step-IsValid (deletes kind token) m v u =
    let lost = lookup-delete_all kind token u m.tokens in
    elim (Option-cases (lookup u m.tokens)) [
      | inl absent ↦ ground (arith, v u)
      | inr (d, present) ↦ ground (arith, v u, delete_from-HasKeys kind token d)
    ]
step-IsValid (clears w) m v u = ground (arith, lookup-erase w u m.tokens, v u)

run-IsValid : (cs : List Call) (m : Store) → IsValid m → IsValid (run cs m)
unfolding run
run-IsValid [] m v = v
run-IsValid (c ∷ cs) m v = run-IsValid cs (step c m) (step-IsValid c m v)

reached-IsValid : (cs : List Call) → IsValid (run cs new_in_memory)
unfolding IsValid HasKeys lookup
reached-IsValid cs = run-IsValid cs new_in_memory (λ u. ground arith)

get_tokens_lem : (u : Bytes) (m : Store) → get_tokens u m ≡ values (lookup_or u [] m.tokens)
unfolding get_tokens
get_tokens_lem u m = ground arith

-- After any sequence of writes to a new store, adding a token makes it the only one of that device
-- of the user; the tokens of the user's other devices stay as they are, and so do those of every
-- other user.
pub get_tokens-add :
    (cs : List Call) (u w id : Bytes) (kind : ℕ) (token : Bytes)
    → let m = run cs new_in_memory in
      let m' = add_token u id kind token m in
      (keep (λ x. x.app_install_id == id) (get_tokens u m') ≡ new_token id kind token ∷ [])
      × (keep (λ x. not (x.app_install_id == id)) (get_tokens u m')
          ≡ keep (λ x. not (x.app_install_id == id)) (get_tokens u m))
      × (get_tokens w m' ≡ (if u == w then get_tokens u m' else get_tokens w m))
unfolding IsValid add_token get_tokens
get_tokens-add cs u w id kind token =
    let m = run cs new_in_memory in
    let d = lookup_or u [] m.tokens in
    let x = new_token id kind token in
    let v = reached-IsValid cs u in
    let same = keep-insert_same id x d v refl in
    let other = keep-insert_other id x d v refl in
    let written = lookup-insert u u (insert id x d) m.tokens in
    let at_w = lookup-insert u w (insert id x d) m.tokens in
    (ground arith, ground arith, ground arith)

-- Deleting a token removes it from every device of every user, and removes no other token.
pub get_tokens-delete :
    (kind : ℕ) (token u : Bytes) (m : Store)
    → get_tokens u (delete_token kind token m)
      ≡ keep (λ x. not (is_token kind token x)) (get_tokens u m)
unfolding delete_token get_tokens keep
get_tokens-delete kind token u m =
    let lost = lookup-delete_all kind token u m.tokens in
    elim (Option-cases (lookup u m.tokens)) [
      | inl absent ↦ ground arith
      | inr (d, present) ↦ ground (arith, values-delete_from kind token d)
    ]

-- The tokens of a batch of users are those of its users, one user after the other; after clearing
-- a user's tokens the batch has those of the others.
pub get_tokens_batch-clear :
    (us : List Bytes) (u : Bytes) (m : Store)
    → get_tokens_batch us (clear_tokens u m) ≡ get_tokens_batch (keep (λ w. not (w == u)) us) m
unfolding get_tokens_batch clear_tokens keep
get_tokens_batch-clear [] u m = refl
get_tokens_batch-clear (w ∷ us) u m =
    ground (arith, get_tokens_batch-clear us u m, lookup-erase u w m.tokens)
