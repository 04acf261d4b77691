-- ===== src/Base/Int.antt =====
-- The signed integers of a column, over the native numbers, and the conversions of Rust that read
-- them: `try_from` into an unsigned type fails on a negative number.
use Prim.Native.Nat.{ℕ, ◌-◌, ◌^◌}
use mathlib.Core.Option.{Option, none, some}

-- `negsuc n` is `-(n + 1)`.
pub data ℤ : Type 0 where
  pos : ℕ → ℤ
  negsuc : ℕ → ℤ

-- `u64::try_from`, of an `i32`
abbrev pub try_from : ℤ → Option ℕ
try_from (pos n) = some n
try_from (negsuc n) = none

-- `usize::MAX` and `u64::MAX`
abbrev pub usize_max : ℕ
usize_max = 2 ^ 64 - 1
