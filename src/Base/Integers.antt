-- ===== src/Base/Integers.antt =====
-- Python's `int` where it can be negative, over the native numbers.
use Prim.Native.Nat.{ℕ, zero, suc, ◌+◌, ◌-◌}
use mathlib.Core.Bool.{Bool, true, false}
use mathlib.Core.Option.{Option, none, some}
use coldwatch.Base.Tests.{leb, if◌then◌else◌}

-- `negsuc n` is `-(n + 1)`.
pub data ℤ : Type 0 where
  pos negsuc : ℕ → ℤ

abbrev pub sucℤ : ℤ → ℤ
sucℤ (pos n) = pos (suc n)
sucℤ (negsuc zero) = pos 0
sucℤ (negsuc (suc n)) = negsuc n

-- `n >= 0`.
abbrev pub is_pos : ℤ → Bool
is_pos (pos n) = true
is_pos (negsuc n) = false

-- `b - a`, where it is not negative.
abbrev pub distance : ℤ → ℤ → Option ℕ
distance (pos a) (pos b) = if leb a b then some (b - a) else none
distance (pos a) (negsuc b) = none
distance (negsuc a) (pos b) = some (suc a + b)
distance (negsuc a) (negsuc b) = if leb b a then some (a - b) else none
