-- ===== src/Push/Examples.antt =====
-- Runs of the token store, and its theorems at concrete inputs.
use flipchat_server.Base.{Bytes, bytes_discrete, bytes_eq, lookup, insert, ◌≡◌, refl, List, [], ◌∷◌}
use flipchat_server.Push.{
  new_in_memory, get_tokens_batch, new_token, add_token, delete_from, delete_all, delete_token,
  Call, adds, deletes, step, run,
}

abbrev alice : Bytes
alice = 1 ∷ []

abbrev bob : Bytes
bob = 2 ∷ []

abbrev phone : Bytes
phone = 7 ∷ []

abbrev tablet : Bytes
tablet = 8 ∷ []

-- Alice has two devices, of which one gets a new token.
abbrev history : List Call
history =
    adds alice phone 1 (3 ∷ [])
    ∷ adds alice tablet 1 (4 ∷ [])
    ∷ adds bob phone 2 (5 ∷ [])
    ∷ adds alice phone 1 (6 ∷ [])
    ∷ deletes 2 (5 ∷ [])
    ∷ []

run-history :
    get_tokens_batch (alice ∷ bob ∷ []) (run history new_in_memory)
    ≡ new_token phone 1 (6 ∷ []) ∷ new_token tablet 1 (4 ∷ []) ∷ []
unfolding run step add_token delete_token delete_all delete_from get_tokens_batch lookup insert
    bytes_discrete
run-history = refl
