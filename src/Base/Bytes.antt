-- ===== src/Base/Bytes.antt =====
-- `bytes` as lists of numbers, and the little-endian forms that `struct` packs and unpacks.
use Prim.Native.Nat.{ℕ, zero, suc, ◌+◌, ◌*◌, ◌/◌, ◌%◌, ◌^◌, ◌<◌}
use mathlib.Core.Path.{◌≡◌, refl, ap}
use mathlib.Core.List.{List, [], ◌∷◌}
use native.Mathlib.Omega.{arith}
use coldwatch.Base.Lists.{length, All}

abbrev pub IsByte : ℕ → Type 0
IsByte b = b < 256

abbrev pub IsBytes : List ℕ → Type 0
IsBytes = All IsByte

-- `struct.unpack("<...")` of one unsigned field, and `int.from_bytes(_, "little")`.
unfoldable pub from_le : List ℕ → ℕ
from_le [] = 0
from_le (b ∷ bs) = b + 256 * from_le bs

-- `struct.pack("<...")` of one unsigned field of the given width in bytes.
unfoldable pub to_le : ℕ → ℕ → List ℕ
to_le zero v = []
to_le (suc k) v = (v % 256) ∷ to_le k (v / 256)

pub length-to_le : (k v : ℕ) → length (to_le k v) ≡ k
unfolding to_le
length-to_le zero v = refl
length-to_le (suc k) v = ap suc (length-to_le k (v / 256))

pub to_le-IsBytes : (k v : ℕ) → IsBytes (to_le k v)
unfolding to_le
to_le-IsBytes zero v = tt
to_le-IsBytes (suc k) v = (omega arith, to_le-IsBytes k (v / 256))

pow_suc : (k : ℕ) → 256 ^ suc k ≡ 256 * 256 ^ k
pow_suc k = omega arith

pub from_le-to_le : (k v : ℕ) → v < 256 ^ k → from_le (to_le k v) ≡ v
unfolding from_le to_le
from_le-to_le zero v h = omega arith
from_le-to_le (suc k) v h =
    omega (arith, pow_suc k, from_le-to_le k (v / 256) (omega (arith, pow_suc k)))

pub from_le-lt : (bs : List ℕ) → IsBytes bs → from_le bs < 256 ^ length bs
unfolding from_le
from_le-lt [] h = omega arith
from_le-lt (b ∷ bs) (hb, hbs) = omega (arith, pow_suc (length bs), from_le-lt bs hbs)

pub to_le-from_le : (bs : List ℕ) → IsBytes bs → to_le (length bs) (from_le bs) ≡ bs
unfolding from_le to_le
to_le-from_le [] h = refl
to_le-from_le (b ∷ bs) (hb, hbs) =
    ground (arith, to_le-from_le bs hbs, ap (λ t. to_le (length bs) t) high)
  where
    high : (b + 256 * from_le bs) / 256 ≡ from_le bs
    high = omega arith
