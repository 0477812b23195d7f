-- ===== src/Base/Keys.antt =====
-- Equality tests of dictionary keys, as an interface: texts, byte strings and numbers.
use Prim.Native.Nat.{ℕ}
use Prim.Native.String.{String}
use mathlib.Core.Path.{◌≡◌, refl}
use mathlib.Core.Logic.{◌↔◌}
use mathlib.Core.Bool.{Bool, true, false, ◌&&◌}
use mathlib.Core.List.{List, [], ◌∷◌}
use native.Mathlib.Omega.{arith}
use text.Mathlib.Text.{◌==◌ as str_eq}
use text.Mathlib.TextEquality.{eq_iff}
use coldwatch.Base.Tests.{◌==◌, ==_iff}

pub record Key (A : Type 0) : Type 0 where
  pub agree : A → A → Bool
  pub agree_iff : (a b : A) → (agree a b ≡ true) ↔ (a ≡ b)

-- `==` on `bytes`.
abbrev pub bytes_beq : List ℕ → List ℕ → Bool
bytes_beq [] [] = true
bytes_beq [] (y ∷ ys) = false
bytes_beq (x ∷ xs) [] = false
bytes_beq (x ∷ xs) (y ∷ ys) = x == y && bytes_beq xs ys

pub bytes_beq_iff : (xs ys : List ℕ) → (bytes_beq xs ys ≡ true) ↔ (xs ≡ ys)
bytes_beq_iff [] [] = ground arith
bytes_beq_iff [] (y ∷ ys) = ground arith
bytes_beq_iff (x ∷ xs) [] = ground arith
bytes_beq_iff (x ∷ xs) (y ∷ ys) = ground (arith, bytes_beq_iff xs ys)

instance abbrev pub ℕ_key : Key ℕ
ℕ_key = record { agree = ◌==◌; agree_iff = ==_iff }

instance abbrev pub string_key : Key String
string_key = record { agree = str_eq; agree_iff = eq_iff }

instance abbrev pub bytes_key : Key (List ℕ)
bytes_key = record { agree = bytes_beq; agree_iff = bytes_beq_iff }

module _ {A : Type 0} ⦃e : Key A⦄ where
  pub agree_refl : (a : A) → e.agree a a ≡ true
  agree_refl a = (e.agree_iff a a).1 refl
