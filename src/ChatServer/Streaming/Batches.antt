-- ===== src/ChatServer/Streaming/Batches.antt =====
-- chat/server.go: the batches in which a new stream is filled.
use flipchat_server.Event.{ChatEvent}
use flipchat_server.ChatServer.Streaming.{batches}
use flipchat_server.Base.{
  leb, Bool-cases, length, append_assoc, length-append_one, All, ℕ, ◌≤◌, ◌<◌, ◌≡◌, refl, inl, inr,
  List, [], ◌∷◌, ◌++◌, arith,
}

pub concat : List (List ChatEvent) → List ChatEvent
concat [] = []
concat (b ∷ bs) = b ++ concat bs

-- A batch that is neither empty nor longer than the limit.
pub IsBatch : ℕ → List ChatEvent → Type 0
IsBatch size b = (0 < length b) × (length b ≤ size)

batches-concat :
    (size : ℕ) (batch es : List ChatEvent) → concat (batches size batch es) ≡ batch ++ es
unfolding concat batches
batches-concat size [] [] = refl
batches-concat size (b ∷ batch) [] = ground arith
batches-concat size batch (e ∷ es) = ground (
  arith,
  batches-concat size [] es,
  batches-concat size (batch ++ e ∷ []) es,
  append_assoc batch (e ∷ []) es,
)

batches-All :
    (size : ℕ) (batch es : List ChatEvent)
    → length batch < size
    → All (IsBatch size) (batches size batch es)
unfolding batches IsBatch
batches-All size [] [] h = tt
batches-All size (b ∷ batch) [] h = ground (arith, h)
batches-All size batch (e ∷ es) h =
    let grown = batch ++ e ∷ [] in
    elim (Bool-cases (leb size (length grown))) [
      | inl full ↦
          ground (arith, batches-All size [] es (omega (arith, h)), length-append_one e batch)
      | inr short ↦ ground (arith, batches-All size grown es (ground arith))
    ]

-- The batches that fill a new stream hold all its events, in order, and each of them holds at least
-- one event and no more than the size of a batch.
pub batches_complete :
    (size : ℕ) (es : List ChatEvent)
    → 0 < size
    → (concat (batches size [] es) ≡ es) × All (IsBatch size) (batches size [] es)
batches_complete size es h = (batches-concat size [] es, batches-All size [] es h)
