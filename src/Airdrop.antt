-- ===== src/Airdrop.antt =====
-- airdrop/integration.go: when the next airdrop is, and whom an airdrop pays. The clock is an
-- argument; the decoding of a public key is a parameter.
mod Schedule
mod Examples
use flipchat_server.Base.{
  ltb, if◌then◌else◌, nat_eq, Bytes, Result, ok, err, ◌>>=◌, Time, ℕ, zero, suc, ◌+◌, ◌*◌, ◌^◌, not,
  ◌&&◌, Option, none, some, List, [], ◌∷◌,
}
use flipchat_server.Account.{
  AccountError, not_found, Store, get_user_id, get_pub_keys, is_staff,
  batch_set_next_airdrop_timestamp, get_users_to_airdrop,
}

-- One week.
abbrev pub frequency : Time
frequency = 7 * 24 * 3600 * 10 ^ 9

-- The loop of `getNextAirdropTime`, from `ts` on.
unfoldable pub next_from : ℕ → Time → Time → Option Time
next_from zero now ts = none
next_from (suc fuel) now ts =
    let later = next_from fuel now (ts + frequency) in if ltb now ts then some ts else later

-- `getNextAirdropTime`: more steps than there are units of time before now are fuel enough.
unfoldable pub get_next_airdrop_time : Time → Time → Option Time
unfolding next_from
get_next_airdrop_time now inaugural_ts = next_from (suc (suc now)) now inaugural_ts

-- The owner account of a public key is not one that Code's library accepts.
pub data AirdropError : Type 0 where
  invalid_public_key : AirdropError

-- The loop of `GetOwnersToAirdropNow`; the clock is read anew for each user, as `clock` tells.
unfoldable pub owners_of :
    (Bytes → Option Bytes)
    → (Bytes → Time)
    → Time
    → List Bytes
    → Store
    → Result AirdropError (List Bytes)
owners_of account_from_bytes clock inaugural_ts [] m = ok []
owners_of account_from_bytes clock inaugural_ts (user_id ∷ user_ids) m =
    let rest = owners_of account_from_bytes clock inaugural_ts user_ids m in
    if not (is_staff user_id m) && ltb (clock user_id) inaugural_ts
    then rest
    else elim (get_pub_keys user_id m) [
      | [] ↦ rest
      | pub_key ∷ [] ↦ elim (account_from_bytes pub_key) [
        | none ↦ err invalid_public_key
        | some owner ↦ rest >>= λ owners. ok (owner ∷ owners)
      ]
      | pub_key ∷ _ ∷ _ ↦ rest
    ]

-- `GetOwnersToAirdropNow`; the amount is the same for all.
unfoldable pub get_owners_to_airdrop_now :
    (Bytes → Option Bytes) → Time → (Bytes → Time) → Time → Store → Result AirdropError (List Bytes)
unfolding owners_of
get_owners_to_airdrop_now account_from_bytes now clock inaugural_ts m =
    elim (get_users_to_airdrop now m) [
      | err not_found ↦ ok []
      | ok user_ids ↦ owners_of account_from_bytes clock inaugural_ts user_ids m
    ]

-- The loop of `OnSuccess` that finds the users of the owners' keys.
unfoldable pub user_ids_of : List Bytes → Store → Result AccountError (List Bytes)
user_ids_of [] m = ok []
user_ids_of (owner ∷ owners) m =
    let rest = user_ids_of owners m in
    elim (get_user_id owner m) [
      | err e ↦ err e
      | ok user_id ↦ rest >>= λ user_ids. ok (user_id ∷ user_ids)
    ]

-- `OnSuccess` up to the notifications, whose errors are only logged; `next` is the time that
-- `GetNextAirdropTime` returns.
unfoldable pub on_success : List Bytes → Time → Store → Result AccountError (Unit {0}) × Store
unfolding user_ids_of
on_success owners next m = elim (user_ids_of owners m) [
  | err e ↦ (err e, m)
  | ok user_ids ↦ (ok tt, batch_set_next_airdrop_timestamp next user_ids m)
]
