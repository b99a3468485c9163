-- ===== src/Base/ByteStrings.antt =====
-- Byte strings, as Go's `[]byte` and `string`: `bytes.Equal` is `==`, `bytes.Compare` is the
-- lexicographic order.
use Prim.Native.Nat.{ℕ, compare, Ordering}
use mathlib.Core.Path.{◌≡◌, refl}
use mathlib.Core.Bool.{Bool, true, false}
use mathlib.Core.List.{List, [], ◌∷◌}
use native.Mathlib.Decide.{ℕ_discrete}
use native.Mathlib.Omega.{arith}
use flipchat_server.Base.Conditions.{Eq}

abbrev pub Bytes : Type 0
Bytes = List ℕ

pub nil-ne-cons : (b : ℕ) (bs : Bytes) → ¬ ([] ≡ b ∷ bs)
nil-ne-cons b bs e = cc

pub cons-ne-nil : (a : ℕ) (as' : Bytes) → ¬ (a ∷ as' ≡ [])
cons-ne-nil a as' e = cc

pub cons_eq : (a b : ℕ) (as' bs : Bytes) → a ≡ b → as' ≡ bs → a ∷ as' ≡ b ∷ bs
cons_eq a b as' bs p q = cc

pub cons_ne_head : (a b : ℕ) (as' bs : Bytes) → ¬ (a ≡ b) → ¬ (a ∷ as' ≡ b ∷ bs)
cons_ne_head a b as' bs n e = ground arith

pub cons_ne_tail : (a b : ℕ) (as' bs : Bytes) → ¬ (as' ≡ bs) → ¬ (a ∷ as' ≡ b ∷ bs)
cons_ne_tail a b as' bs n e = ground arith

unfoldable pub bytes_discrete : Discrete Bytes
unfolding ℕ_discrete
bytes_discrete [] [] = yes refl
bytes_discrete [] (b ∷ bs) = no (nil-ne-cons b bs)
bytes_discrete (a ∷ as') [] = no (cons-ne-nil a as')
bytes_discrete (a ∷ as') (b ∷ bs) = elim (bytes_discrete as' bs) [
  | no n ↦ no (cons_ne_tail a b as' bs n)
  | yes q ↦ elim (ℕ_discrete a b) [
    | yes p ↦ yes (cons_eq a b as' bs p q)
    | no n ↦ no (cons_ne_head a b as' bs n)
  ]
]

instance abbrev pub bytes_eq : Eq Bytes
bytes_eq = record { dec_eq = bytes_discrete }

-- `bytes.Compare(a, b) < 0`
unfoldable pub bytes_lt : Bytes → Bytes → Bool
bytes_lt [] [] = false
bytes_lt [] (b ∷ bs) = true
bytes_lt (a ∷ as') [] = false
bytes_lt (a ∷ as') (b ∷ bs) =
    let rest = bytes_lt as' bs in
    elim (compare a b) [ Ordering.lt ↦ true | Ordering.eq ↦ rest | Ordering.gt ↦ false ]

pub bytes_lt_irrefl : (a : Bytes) → bytes_lt a a ≡ false
unfolding bytes_lt
bytes_lt_irrefl [] = refl
bytes_lt_irrefl (a ∷ as') = ground (arith, bytes_lt_irrefl as')

pub bytes_lt_trans :
    (a b c : Bytes) → bytes_lt a b ≡ true → bytes_lt b c ≡ true → bytes_lt a c ≡ true
unfolding bytes_lt
bytes_lt_trans [] [] c p q = cc
bytes_lt_trans [] (b ∷ bs) [] p q = cc
bytes_lt_trans [] (b ∷ bs) (c ∷ cs) p q = refl
bytes_lt_trans (a ∷ as') [] c p q = cc
bytes_lt_trans (a ∷ as') (b ∷ bs) [] p q = cc
bytes_lt_trans (a ∷ as') (b ∷ bs) (c ∷ cs) p q = ground (arith, bytes_lt_trans as' bs cs)

pub bytes_lt_total : (a b : Bytes) → bytes_lt a b ≡ false → bytes_lt b a ≡ false → a ≡ b
unfolding bytes_lt
bytes_lt_total [] [] p q = refl
bytes_lt_total [] (b ∷ bs) p q = cc
bytes_lt_total (a ∷ as') [] p q = cc
bytes_lt_total (a ∷ as') (b ∷ bs) p q = ground (arith, bytes_lt_total as' bs)
