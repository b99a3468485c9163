-- ===== src/Account/Cache/Examples.antt =====
-- A cache and its store, asked the same.
use flipchat_server.Account.Cache.Refinement.{
  CacheCall, binds, registers, looks_up, asks_registered, evicts, removes, asks_authorized,
  store_answers, cache_answers, cache_answers-store_answers,
}
use flipchat_server.Account
use flipchat_server.Account.Keys.{new_in_memory-IsValid}
use flipchat_server.Account.Cache.{new_in_cache}
use flipchat_server.Base.{bytes_eq, ◌≡◌, List, [], ◌∷◌}

abbrev questions : List CacheCall
questions =
    binds (1 ∷ []) (9 ∷ []) 10 10
    ∷ looks_up (9 ∷ [])
    ∷ looks_up (9 ∷ [])
    ∷ asks_registered (1 ∷ [])
    ∷ registers (1 ∷ [])
    ∷ asks_registered (1 ∷ [])
    ∷ evicts (9 ∷ [])
    ∷ looks_up (9 ∷ [])
    ∷ removes (1 ∷ []) (9 ∷ [])
    ∷ asks_authorized (1 ∷ []) (9 ∷ [])
    ∷ asks_authorized (1 ∷ []) (8 ∷ [])
    ∷ []

cache_answers-store_answers_example :
    cache_answers questions (new_in_cache Account.new_in_memory)
    ≡ store_answers questions Account.new_in_memory
cache_answers-store_answers_example =
    cache_answers-store_answers questions Account.new_in_memory new_in_memory-IsValid
