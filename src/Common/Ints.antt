-- ===== src/Common/Ints.antt =====
-- Signed 64-bit integers, as durations and counts are. `negsuc n` is -(n + 1).
use Prim.Native.Nat.{ℕ, suc, ◌+◌, ◌-◌, ◌%◌, ◌^◌}
use mathlib.Core.Path.{◌≡◌}
use mathlib.Core.Bool.{false}
use native.Mathlib.Omega.{arith}
use tunneledge.Common.Tests.{ltb, le→ltb, if◌then◌else◌}

pub data ℤ : Type 0 where
  pos negsuc : ℕ → ℤ

abbrev pub IsNegative : ℤ → Type 0
IsNegative (pos n) = ⊥
IsNegative (negsuc n) = Unit

-- int64 of a number that may not fit: it wraps around.
abbrev pub wrap_int64 : ℕ → ℤ
wrap_int64 n = let m = n % 2 ^ 64 in if ltb m (2 ^ 63) then pos m else negsuc (2 ^ 64 - 1 - m)

-- t.Add(d). A clock shows more than 2^63 ns since the zero time, so no duration leads before it.
abbrev pub time_add : ℕ → ℤ → ℕ
time_add t (pos n) = t + n
time_add t (negsuc n) = t - suc n

-- A duration that is not negative leads to no earlier time.
pub time_add-later : (t : ℕ) (d : ℤ) → ¬ IsNegative d → ltb (time_add t d) t ≡ false
time_add-later t (pos n) h = le→ltb (t + n) t (omega arith)
time_add-later t (negsuc n) h = absurd (h tt)
