-- ===== src/Base/Times.antt =====
-- Go's `int64` where it may be negative, and `time.Time`, as the number of nanoseconds since its
-- zero time, and timestamps.
use Prim.Native.Nat.{ℕ, ◌*◌, ◌^◌}
use mathlib.Core.Option.{Option, none, some}

abbrev pub Time : Type 0
Time = ℕ

-- `AsTime` of a nil timestamp is the Unix epoch.
abbrev pub unix_epoch : Time
unix_epoch = 62135596800 * 10 ^ 9

abbrev pub as_time : Option Time → Time
as_time none = unix_epoch
as_time (some t) = t

-- `negsuc n` is -(n + 1).
pub data ℤ : Type 0 where
  pos : ℕ → ℤ
  negsuc : ℕ → ℤ
