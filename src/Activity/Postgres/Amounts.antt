-- ===== src/Activity/Postgres/Amounts.antt =====
-- activity/postgres/model.go: amounts of `uint64` as the `int64` that is stored, and the sum of two
-- numbers of `bigint` in Postgres.
use flipchat_server.Base.{
  ltb, if◌then◌else◌, ℤ, pos, negsuc, ℕ, ◌+◌, ◌-◌, ◌^◌, ◌<◌, ◌≡◌, Option, none, some, arith,
}

abbrev int64_bound : ℕ
int64_bound = 2 ^ 63

abbrev uint64_max : ℕ
uint64_max = 2 ^ 64 - 1

-- `int64(x)` of a `uint64`
unfoldable pub to_int64 : ℕ → ℤ
to_int64 x = if ltb x int64_bound then pos x else negsuc (uint64_max - x)

-- `uint64(x)` of an `int64`
unfoldable pub to_uint64 : ℤ → ℕ
to_uint64 (pos x) = x
to_uint64 (negsuc x) = uint64_max - x

-- The sum of two numbers of `bigint`, none where it is "out of range".
unfoldable pub add_int64 : ℤ → ℤ → Option ℤ
add_int64 (pos a) (pos b) = if ltb (a + b) int64_bound then some (pos (a + b)) else none
add_int64 (pos a) (negsuc b) = if ltb b a then some (pos (a - (b + 1))) else some (negsuc (b - a))
add_int64 (negsuc a) (pos b) = if ltb a b then some (pos (b - (a + 1))) else some (negsuc (a - b))
add_int64 (negsuc a) (negsuc b) =
    if ltb (a + b + 1) int64_bound then some (negsuc (a + b + 1)) else none

-- An amount that is stored is read back, also where it is stored as a negative number.
pub to_uint64-to_int64 : (x : ℕ) → x < 2 ^ 64 → to_uint64 (to_int64 x) ≡ x
unfolding to_uint64 to_int64
to_uint64-to_int64 x bound = ground arith

-- Two amounts below `2 ^ 63` add up as long as their sum is below it as well, and not otherwise.
pub add_int64-to_int64 :
    (a b : ℕ)
    → a < 2 ^ 63
    → b < 2 ^ 63
    → add_int64 (to_int64 a) (to_int64 b)
      ≡ (if ltb (a + b) (2 ^ 63) then some (to_int64 (a + b)) else none)
unfolding add_int64 to_int64
add_int64-to_int64 a b ha hb = ground arith
