-- ===== src/Airdrop/Examples.antt =====
-- An airdrop, and the theorems on its schedule at concrete inputs.
use flipchat_server.Base.{
  Bytes, bytes_discrete, bytes_eq, lookup, insert, keep, contains, ok, Time, ◌≡◌, refl, true, some,
  List, [], ◌∷◌,
}
use flipchat_server.Account.{
  Store, new_in_memory, add_key, bind, get_user_id, get_pub_keys, is_staff, set_registration_flag,
  batch_set_next_airdrop_timestamp, extend_airdrop_eligibility, get_users_to_airdrop, Call, binds,
  flags, extends, step, run,
}
use flipchat_server.Airdrop.{get_next_airdrop_time, get_owners_to_airdrop_now, on_success}
use flipchat_server.Airdrop.Schedule.{IsNext, get_next_airdrop_time-IsNext}

abbrev alice : Bytes
alice = 1 ∷ []

abbrev key : Bytes
key = 9 ∷ []

-- Alice registers and may be paid until 100.
abbrev history : List Call
history = binds alice key 10 11 ∷ flags alice true ∷ extends alice 100 ∷ []

abbrev store : Store
store = run history new_in_memory

get_owners_to_airdrop_now-store :
    get_owners_to_airdrop_now (λ k. some k) 20 (λ u. 21) 5 store ≡ ok (key ∷ [])
unfolding get_owners_to_airdrop_now get_users_to_airdrop is_staff get_pub_keys keep run step bind
    add_key set_registration_flag extend_airdrop_eligibility lookup insert bytes_discrete
get_owners_to_airdrop_now-store = refl

on_success-store : (on_success (key ∷ []) 50 store).0 ≡ ok tt
unfolding on_success run step bind add_key get_user_id set_registration_flag
    extend_airdrop_eligibility batch_set_next_airdrop_timestamp lookup insert bytes_discrete
on_success-store = refl

get_user_id-store : get_user_id key store ≡ ok alice
unfolding get_user_id run step bind add_key set_registration_flag extend_airdrop_eligibility lookup
    insert bytes_discrete
get_user_id-store = refl

contains-key : contains key (key ∷ []) ≡ true
unfolding contains bytes_discrete
contains-key = refl

get_next_airdrop_time-IsNext_example :
    (next : Time) × (get_next_airdrop_time 20 5 ≡ some next) × IsNext 20 5 next
get_next_airdrop_time-IsNext_example = get_next_airdrop_time-IsNext 20 5
