-- ===== src/Account/Examples.antt =====
-- Runs of the account store, and its theorems at concrete inputs.
use flipchat_server.Base.{
  Bytes, bytes_discrete, bytes_eq, lookup, insert, keep, ok, ◌≡◌, refl, ◌↔◌, true, List, [], ◌∷◌,
}
use flipchat_server.Account.{
  Store, new_in_memory, add_key, bind, get_user_id, remove_key, is_authorized,
  set_registration_flag, batch_set_next_airdrop_timestamp, extend_airdrop_eligibility,
  get_users_to_airdrop, Call, binds, removes, flags, schedules, extends, step, run,
}
use flipchat_server.Account.Keys.{IsValid, reached-IsValid, is_authorized_iff_get_user_id}

abbrev alice : Bytes
alice = 1 ∷ 7 ∷ []

abbrev bob : Bytes
bob = 2 ∷ []

abbrev key : Bytes
key = 9 ∷ []

abbrev spare : Bytes
spare = 8 ∷ []

-- Bob tries to take a key of Alice's; she registers, and her airdrops are scheduled.
abbrev history : List Call
history =
    binds alice key 10 11
    ∷ binds bob key 12 13
    ∷ binds alice spare 14 15
    ∷ flags alice true
    ∷ flags bob true
    ∷ extends alice 100
    ∷ schedules 50 (alice ∷ bob ∷ [])
    ∷ removes bob spare
    ∷ []

abbrev reached : Store
reached = record {
  users = (alice, key ∷ spare ∷ []) ∷ [];
  keys = (key, alice) ∷ (spare, alice) ∷ [];
  next_airdrop = (alice, 50) ∷ [];
  airdrop_eligibility = (alice, 100) ∷ [];
  registered_users = (alice, true) ∷ [];
}

run-history : run history new_in_memory ≡ reached
unfolding run step bind add_key set_registration_flag extend_airdrop_eligibility
    batch_set_next_airdrop_timestamp remove_key lookup insert bytes_discrete
run-history = refl

get_users_to_airdrop-reached : get_users_to_airdrop 60 reached ≡ ok (alice ∷ [])
unfolding get_users_to_airdrop lookup keep bytes_discrete
get_users_to_airdrop-reached = refl

example-IsValid : IsValid reached
example-IsValid = rw run-history at (reached-IsValid history)

is_authorized_iff_get_user_id_example :
    let m = run history new_in_memory in
    (is_authorized alice key m ≡ true) ↔ (get_user_id key m ≡ ok alice)
is_authorized_iff_get_user_id_example = is_authorized_iff_get_user_id history alice key
