-- ===== src/Account.antt =====
-- account/store.go, account/memory/store.go: which public keys act for which user, who has
-- registered, and when each user is next paid an airdrop. An operation takes the readings of the
-- clock that it makes.
pub mod Keys
pub mod Airdrop
pub mod Cache
pub mod Postgres
mod Examples
use flipchat_server.Base.{
  ltb, if◌then◌else◌, ◌==◌, Bytes, bytes_eq, Dict, lookup, insert, erase, has, lookup_or, keep,
  contains, Result, ok, err, Time, Bool, true, false, not, ◌&&◌, none, some, List, [], ◌∷◌, ◌++◌,
  map,
}

-- `ErrNotFound` of account/store.go.
pub data AccountError : Type 0 where
  not_found : AccountError

-- The fields of `memory`, maps keyed by the bytes of a user id or of a public key.
pub record Store : Type 0 where
  pub users : Dict Bytes (List Bytes)
  pub keys : Dict Bytes Bytes
  pub next_airdrop : Dict Bytes Time
  pub airdrop_eligibility : Dict Bytes Time
  pub registered_users : Dict Bytes Bool

abbrev pub new_in_memory : Store
new_in_memory = record {
  users = [];
  keys = [];
  next_airdrop = [];
  airdrop_eligibility = [];
  registered_users = [];
}

-- `reset` clears two of the five maps.
pub reset : Store → Store
reset m = record m { users = []; keys = [] }

-- The rest of `Bind` where the key is not bound yet.
unfoldable pub add_key : Bytes → Bytes → Time → Time → Store → Store
add_key user_id pub_key now later m = record m {
  users = insert user_id (lookup_or user_id [] m.users ++ pub_key ∷ []) m.users;
  keys = insert pub_key user_id m.keys;
  next_airdrop = insert user_id now m.next_airdrop;
  airdrop_eligibility = insert user_id later m.airdrop_eligibility;
}

-- `Bind` reads the clock twice, at `now` and at `later`.
unfoldable pub bind : Bytes → Bytes → Time → Time → Store → Bytes × Store
bind user_id pub_key now later m = elim (lookup pub_key m.keys) [
  | some prev ↦ (prev, m)
  | none ↦ (user_id, add_key user_id pub_key now later m)
]

unfoldable pub get_user_id : Bytes → Store → Result AccountError Bytes
get_user_id pub_key m = elim (lookup pub_key m.keys) [ none ↦ err not_found | some u ↦ ok u ]

unfoldable pub get_pub_keys : Bytes → Store → List Bytes
get_pub_keys user_id m = lookup_or user_id [] m.users

-- The rest of `RemoveKey` where the key is bound to the user.
unbind_key : Bytes → Bytes → Store → Store
unbind_key user_id pub_key m = record m {
  keys = erase pub_key m.keys;
  users = insert user_id (keep (λ e. not (e == pub_key)) (lookup_or user_id [] m.users)) m.users;
}

pub remove_key : Bytes → Bytes → Store → Store
remove_key user_id pub_key m = elim (lookup pub_key m.keys) [
  | none ↦ m
  | some bound_user_id ↦ if not (bound_user_id == user_id) then m else unbind_key user_id pub_key m
]

unfoldable pub is_authorized : Bytes → Bytes → Store → Bool
is_authorized user_id pub_key m = elim (lookup user_id m.users) [
  | none ↦ false
  | some keys ↦ contains pub_key keys
]

unfoldable pub is_staff : Bytes → Store → Bool
is_staff user_id m = false

unfoldable pub is_registered : Bytes → Store → Bool
is_registered user_id m = has user_id m.registered_users

unfoldable pub set_registration_flag : Bytes → Bool → Store → Result AccountError (Unit {0}) × Store
set_registration_flag user_id registered m =
    if not (has user_id m.users)
    then (err not_found, m)
    else if registered
    then (ok tt, record m { registered_users = insert user_id true m.registered_users })
    else (ok tt, record m { registered_users = erase user_id m.registered_users })

-- The body of the loop of `BatchSetNextAirdropTimestamp`.
pub set_next_airdrop : Time → Bytes → Store → Store
set_next_airdrop ts user_id m =
    if not (has user_id m.users)
    then m
    else record m { next_airdrop = insert user_id ts m.next_airdrop }

unfoldable pub batch_set_next_airdrop_timestamp : Time → List Bytes → Store → Store
unfolding set_next_airdrop
batch_set_next_airdrop_timestamp ts [] m = m
batch_set_next_airdrop_timestamp ts (user_id ∷ user_ids) m =
    batch_set_next_airdrop_timestamp ts user_ids (set_next_airdrop ts user_id m)

-- A missing entry reads as the zero time.
pub get_next_airdrop_timestamp : Bytes → Store → Result AccountError Time
get_next_airdrop_timestamp user_id m =
    if not (has user_id m.users) then err not_found else ok (lookup_or user_id 0 m.next_airdrop)

unfoldable pub extend_airdrop_eligibility :
    Bytes → Time → Store → Result AccountError (Unit {0}) × Store
extend_airdrop_eligibility user_id until m =
    if not (has user_id m.users)
    then (err not_found, m)
    else (ok tt, record m { airdrop_eligibility = insert user_id until m.airdrop_eligibility })

pub get_airdrop_eligibility_timestamp : Bytes → Store → Result AccountError Time
get_airdrop_eligibility_timestamp user_id m =
    if not (has user_id m.users)
    then err not_found
    else ok (lookup_or user_id 0 m.airdrop_eligibility)

-- The test of the loop of `GetUsersToAirdrop`.
is_due : Time → Store → Bytes → Bool
is_due at m user_id =
    ltb (lookup_or user_id 0 m.next_airdrop) at
    && ltb at (lookup_or user_id 0 m.airdrop_eligibility)

-- `range` visits the registered users in an order of its own: the result is read as a set.
unfoldable pub get_users_to_airdrop : Time → Store → Result AccountError (List Bytes)
unfolding is_due
get_users_to_airdrop at m = elim (keep (is_due at m) (map (λ entry. entry.0) m.registered_users)) [
  | [] ↦ err not_found
  | user_id ∷ rest ↦ ok (user_id ∷ rest)
]

-- The calls that write to the store, with the readings of the clock that they make.
pub data Call : Type 0 where
  binds : Bytes → Bytes → Time → Time → Call
  removes : Bytes → Bytes → Call
  flags : Bytes → Bool → Call
  schedules : Time → List Bytes → Call
  extends : Bytes → Time → Call

unfoldable pub step : Call → Store → Store
step (binds u k now later) m = (bind u k now later m).1
step (removes u k) m = remove_key u k m
step (flags u registered) m = (set_registration_flag u registered m).1
step (schedules ts us) m = batch_set_next_airdrop_timestamp ts us m
step (extends u until) m = (extend_airdrop_eligibility u until m).1

unfoldable pub run : List Call → Store → Store
run [] m = m
run (c ∷ cs) m = run cs (step c m)
