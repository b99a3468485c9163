-- ===== src/Account/Cache.antt =====
-- account/cache/store.go: the cache in front of the store of accounts. A cache keeps what is set
-- until it drops the entry: it has no time to live, and may be evicted.
pub mod Refinement
mod Examples
use flipchat_server.Account.{AccountError, Store}
use flipchat_server.Account
use flipchat_server.Base.{
  if◌then◌else◌, ◌==◌, Bytes, bytes_eq, Dict, lookup, insert, Result, ok, err, Time, Bool, true,
  false, none, some, List, [],
}

-- `Cache`
pub record Cache : Type 0 where
  pub db : Store
  pub pubkey_to_user : Dict Bytes Bytes
  pub registered_user : Dict Bytes Bool
  pub staff_flag : Dict Bytes Bool

abbrev pub new_in_cache : Store → Cache
new_in_cache db = record { db = db; pubkey_to_user = []; registered_user = []; staff_flag = [] }

unfoldable pub get_user_id : Bytes → Cache → Result AccountError Bytes × Cache
get_user_id pub_key c = elim (lookup pub_key c.pubkey_to_user) [
  | some cached ↦ (ok cached, c)
  | none ↦ elim (Account.get_user_id pub_key c.db) [
    | err e ↦ (err e, c)
    | ok user_id ↦
        (ok user_id, record c { pubkey_to_user = insert pub_key user_id c.pubkey_to_user })
  ]
]

-- A key that is not bound is an error here, where the store answers `false`.
unfoldable pub is_authorized : Bytes → Bytes → Cache → Result AccountError Bool × Cache
unfolding get_user_id
is_authorized user_id pub_key c =
    let (found, c') = get_user_id pub_key c in
    elim found [ err e ↦ (err e, c') | ok linked ↦ (ok (linked == user_id), c') ]

-- "disabled for cache implementations"
pub data Disabled : Type 0 where
  disabled : Disabled

-- `RemoveKey`
unfoldable pub remove_key : Bytes → Bytes → Cache → Result Disabled (Unit {0}) × Cache
remove_key user_id pub_key c = (err disabled, c)

unfoldable pub is_staff : Bytes → Cache → Bool × Cache
is_staff user_id c = elim (lookup user_id c.staff_flag) [
  | some cached ↦ (cached, c)
  | none ↦
      let staff = Account.is_staff user_id c.db in
      (staff, record c { staff_flag = insert user_id staff c.staff_flag })
]

-- Only a positive result is cached.
unfoldable pub is_registered : Bytes → Cache → Bool × Cache
is_registered user_id c = elim (lookup user_id c.registered_user) [
  | some cached ↦ (cached, c)
  | none ↦
      if Account.is_registered user_id c.db
      then (true, record c { registered_user = insert user_id true c.registered_user })
      else (false, c)
]

-- The operations that the cache hands on to its store.
abbrev pub with_db : Store → Cache → Cache
with_db db c = record c { db = db }

abbrev pub bind : Bytes → Bytes → Time → Time → Cache → Bytes × Cache
bind user_id pub_key now later c =
    let (bound, db) = Account.bind user_id pub_key now later c.db in (bound, with_db db c)

abbrev pub set_registration_flag : Bytes → Bool → Cache → Result AccountError (Unit {0}) × Cache
set_registration_flag user_id registered c =
    let (result, db) = Account.set_registration_flag user_id registered c.db in
    (result, with_db db c)

abbrev pub batch_set_next_airdrop_timestamp : Time → List Bytes → Cache → Cache
batch_set_next_airdrop_timestamp ts user_ids c =
    with_db (Account.batch_set_next_airdrop_timestamp ts user_ids c.db) c

abbrev pub extend_airdrop_eligibility :
    Bytes → Time → Cache → Result AccountError (Unit {0}) × Cache
extend_airdrop_eligibility user_id until c =
    let (result, db) = Account.extend_airdrop_eligibility user_id until c.db in
    (result, with_db db c)

pub get_pub_keys : Bytes → Cache → List Bytes
get_pub_keys user_id c = Account.get_pub_keys user_id c.db

pub get_next_airdrop_timestamp : Bytes → Cache → Result AccountError Time
get_next_airdrop_timestamp user_id c = Account.get_next_airdrop_timestamp user_id c.db

pub get_users_to_airdrop : Time → Cache → Result AccountError (List Bytes)
get_users_to_airdrop at c = Account.get_users_to_airdrop at c.db

pub get_airdrop_eligibility_timestamp : Bytes → Cache → Result AccountError Time
get_airdrop_eligibility_timestamp user_id c = Account.get_airdrop_eligibility_timestamp user_id c.db
