-- ===== src/Intent/Examples.antt =====
-- The theorem on intents at a concrete sequence of calls.
use flipchat_server.Base.{if◌then◌else◌, Bytes, bytes_eq, contains, ◌≡◌, not, ◌&&◌, List, [], ◌∷◌}
use flipchat_server.Intent.{new_in_memory, is_fulfilled}
use flipchat_server.Intent.Once.{successes, successes_lem}

abbrev marks : List Bytes
marks = (1 ∷ []) ∷ (2 ∷ []) ∷ (1 ∷ []) ∷ []

successes_example :
    successes (1 ∷ []) marks new_in_memory
    ≡ (if contains (1 ∷ []) marks && not (is_fulfilled (1 ∷ []) new_in_memory) then 1 else 0)
successes_example = successes_lem (1 ∷ []) marks new_in_memory
