-- ===== src/Base/Encoding.antt =====
-- `encoding/binary`: numbers as bytes.
use Prim.Native.Nat.{ℕ, zero, suc, ◌+◌, ◌*◌, ◌/◌, ◌%◌, ◌^◌, ◌<◌}
use mathlib.Core.Path.{◌≡◌, refl}
use mathlib.Core.List.{[], ◌∷◌}
use native.Mathlib.Omega.{arith}
use flipchat_server.Base.ByteStrings.{Bytes}
use flipchat_server.Base.Slices.{length}

-- `binary.LittleEndian`: the bytes of a number, the lowest first.
unfoldable pub little_endian : ℕ → ℕ → Bytes
little_endian zero n = []
little_endian (suc k) n = (n % 256) ∷ little_endian k (n / 256)

unfoldable pub from_little_endian : Bytes → ℕ
from_little_endian [] = 0
from_little_endian (b ∷ bs) = b + 256 * from_little_endian bs

pub length-little_endian : (k n : ℕ) → length (little_endian k n) ≡ k
unfolding little_endian
length-little_endian zero n = refl
length-little_endian (suc k) n = cc (length-little_endian k (n / 256))

pub from_little_endian-little_endian :
    (k n : ℕ) → n < 256 ^ k → from_little_endian (little_endian k n) ≡ n
unfolding from_little_endian little_endian
from_little_endian-little_endian zero n h = omega arith
from_little_endian-little_endian (suc k) n h =
    omega (arith, from_little_endian-little_endian k (n / 256) (omega arith))
