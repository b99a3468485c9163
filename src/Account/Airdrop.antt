-- ===== src/Account/Airdrop.antt =====
-- account/memory/store.go: whom `GetUsersToAirdrop` selects, and what the operations on the
-- airdrop times change.
use flipchat_server.Base.{
  if◌then◌else◌, ◌==◌, Bytes, bytes_eq, Dict, lookup, lookup-insert, has, lookup_or, keep, contains,
  Result, ok, err, Time, ◌<◌, ◌≡◌, refl, ◌↔◌, Bool, true, ◌&&◌, List, [], ◌∷◌, map, arith,
}
use flipchat_server.Account.Keys.{IsValid, reached-IsValid}
use flipchat_server.Account.{
  AccountError, Store, new_in_memory, is_registered, set_next_airdrop,
  batch_set_next_airdrop_timestamp, get_next_airdrop_timestamp, get_airdrop_eligibility_timestamp,
  is_due, get_users_to_airdrop, Call, run,
}

-- The users that a call returns; it reports an error in place of an empty list.
abbrev pub selected : Result AccountError (List Bytes) → List Bytes
selected (ok us) = us
selected (err e) = []

contains-keep :
    (p : Bytes → Bool) (u : Bytes) (us : List Bytes)
    → contains u (keep p us) ≡ (contains u us && p u)
unfolding contains keep
contains-keep p u [] = refl
contains-keep p u (w ∷ us) = ground (arith, contains-keep p u us)

contains-keys : (u : Bytes) (d : Dict Bytes Bool) → contains u (map (λ entry. entry.0) d) ≡ has u d
unfolding contains lookup
contains-keys u [] = refl
contains-keys u ((w, b) ∷ d) = ground (arith, contains-keys u d)

selected_lem :
    (at : Time) (m : Store)
    → selected (get_users_to_airdrop at m)
      ≡ keep (is_due at m) (map (λ entry. entry.0) m.registered_users)
unfolding get_users_to_airdrop
selected_lem at m = ground arith

contains-selected :
    (at : Time) (u : Bytes) (m : Store)
    → contains u (selected (get_users_to_airdrop at m)) ≡ (is_registered u m && is_due at m u)
unfolding is_registered
contains-selected at u m = rw (
  selected_lem at m,
  contains-keep (is_due at m) u (map (λ entry. entry.0) m.registered_users),
  contains-keys u m.registered_users,
)

-- A user is due at a time when registered, with the next airdrop before that time and the
-- eligibility ending after it, as the other operations of the store report them.
abbrev pub IsDue : Time → Bytes → Store → Type 0
IsDue at u m =
    (is_registered u m ≡ true)
    × ((next : Time) × (get_next_airdrop_timestamp u m ≡ ok next) × (next < at))
    × ((until : Time) × (get_airdrop_eligibility_timestamp u m ≡ ok until) × (at < until))

is_due-IsDue :
    (at : Time) (u : Bytes) (m : Store)
    → IsValid m
    → ((is_registered u m && is_due at m u) ≡ true) ↔ IsDue at u m
unfolding is_registered is_due get_next_airdrop_timestamp get_airdrop_eligibility_timestamp
is_due-IsDue at u m v = (
  λ h. (
    ground arith,
    (lookup_or u 0 m.next_airdrop, ground (arith, v.known u), ground arith),
    (lookup_or u 0 m.airdrop_eligibility, ground (arith, v.known u), ground arith),
  ),
  λ h. ground (arith, v.known u),
)

-- In a store whose maps agree.
pub selected-IsDue :
    (at : Time) (u : Bytes) (m : Store)
    → IsValid m
    → (contains u (selected (get_users_to_airdrop at m)) ≡ true) ↔ IsDue at u m
selected-IsDue at u m v = rw (contains-selected at u m) (is_due-IsDue at u m v)

-- After any sequence of writes to a new store, `GetUsersToAirdrop` returns exactly the users that
-- are due: registered, with the next airdrop before the time and the eligibility ending after it.
pub get_users_to_airdrop_iff :
    (cs : List Call) (at : Time) (u : Bytes)
    → let m = run cs new_in_memory in
      (contains u (selected (get_users_to_airdrop at m)) ≡ true) ↔ IsDue at u m
get_users_to_airdrop_iff cs at u = selected-IsDue at u (run cs new_in_memory) (reached-IsValid cs)

get_next_airdrop_timestamp-set :
    (ts : Time) (w u : Bytes) (m : Store)
    → let m' = set_next_airdrop ts w m in
      (get_next_airdrop_timestamp u m'
        ≡ (if w == u && has u m.users then ok ts else get_next_airdrop_timestamp u m))
      × (get_airdrop_eligibility_timestamp u m' ≡ get_airdrop_eligibility_timestamp u m)
      × (is_registered u m' ≡ is_registered u m)
      × (has u m'.users ≡ has u m.users)
unfolding set_next_airdrop get_next_airdrop_timestamp get_airdrop_eligibility_timestamp
    is_registered
get_next_airdrop_timestamp-set ts w u m =
    let written = lookup-insert w u ts m.next_airdrop in
    (ground arith, ground arith, ground arith, ground arith)

-- `BatchSetNextAirdropTimestamp` sets the next airdrop of the listed users that have an account,
-- and of no others; it creates no account, and leaves eligibility and registration alone.
pub get_next_airdrop_timestamp-batch_set :
    (ts : Time) (us : List Bytes) (u : Bytes) (m : Store)
    → let m' = batch_set_next_airdrop_timestamp ts us m in
      (get_next_airdrop_timestamp u m'
        ≡ (if contains u us && has u m.users then ok ts else get_next_airdrop_timestamp u m))
      × (get_airdrop_eligibility_timestamp u m' ≡ get_airdrop_eligibility_timestamp u m)
      × (is_registered u m' ≡ is_registered u m)
unfolding batch_set_next_airdrop_timestamp contains
get_next_airdrop_timestamp-batch_set ts [] u m = (refl, refl, refl)
get_next_airdrop_timestamp-batch_set ts (w ∷ us) u m =
    let first = get_next_airdrop_timestamp-set ts w u m in
    let rest = get_next_airdrop_timestamp-batch_set ts us u (set_next_airdrop ts w m) in
    (ground arith, ground arith, ground arith)
