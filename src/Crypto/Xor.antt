-- ===== src/Crypto/Xor.antt =====
-- The exclusive or of bytes, as the stream cipher uses it.
use Prim.Native.Nat.{bit_xor}
use coldwatch.Base.{
  ℕ, zero, suc, ◌≤◌, ◌<◌, ◌≡◌, refl, ap, Bool, true, List, [], ◌∷◌, ◌&&◌, ◌==◌, ==_iff, ltb, ltb→lt,
  length, arith,
}
use coldwatch.Base.Bytes.{IsBytes}

-- Every row of a table below `n`.
all_below : ℕ → (ℕ → Bool) → Bool
all_below zero p = true
all_below (suc n) p = p n && all_below n p

all_below_lem : (n : ℕ) (p : ℕ → Bool) (x : ℕ) → all_below n p ≡ true → x < n → p x ≡ true
unfolding all_below
all_below_lem zero p x h lt = absurd (omega arith)
all_below_lem (suc n) p x h lt = ground (arith, all_below_lem n p x)

xor_table : all_below 256 (λ a. all_below 256 (λ b. bit_xor (bit_xor a b) b == a)) ≡ true
unfolding all_below
xor_table = refl

pub xor_twice : (a b : ℕ) → a < 256 → b < 256 → bit_xor (bit_xor a b) b ≡ a
xor_twice a b ha hb = (==_iff _ a).0 (all_below_lem 256 _ b (all_below_lem 256 _ a xor_table ha) hb)

byte_table : all_below 256 (λ a. all_below 256 (λ b. ltb (bit_xor a b) 256)) ≡ true
unfolding all_below
byte_table = refl

xor-IsByte : (a b : ℕ) → a < 256 → b < 256 → bit_xor a b < 256
xor-IsByte a b ha hb = ltb→lt _ 256 (all_below_lem 256 _ b (all_below_lem 256 _ a byte_table ha) hb)

-- `bytes(a ^ b for a, b in zip(chunk, keystream))`.
unfoldable pub zip_xor : List ℕ → List ℕ → List ℕ
zip_xor [] ks = []
zip_xor (x ∷ xs) [] = []
zip_xor (x ∷ xs) (k ∷ ks) = bit_xor x k ∷ zip_xor xs ks

pub length-zip_xor : (xs ks : List ℕ) → length xs ≤ length ks → length (zip_xor xs ks) ≡ length xs
unfolding zip_xor
length-zip_xor [] ks h = refl
length-zip_xor (x ∷ xs) [] h = absurd (omega arith)
length-zip_xor (x ∷ xs) (k ∷ ks) h = ap suc (length-zip_xor xs ks (omega arith))

pub zip_xor-IsBytes : (xs ks : List ℕ) → IsBytes xs → IsBytes ks → IsBytes (zip_xor xs ks)
unfolding zip_xor
zip_xor-IsBytes [] ks hx hk = tt
zip_xor-IsBytes (x ∷ xs) [] hx hk = tt
zip_xor-IsBytes (x ∷ xs) (k ∷ ks) (bx, hx) (bk, hk) =
    (xor-IsByte x k bx bk, zip_xor-IsBytes xs ks hx hk)

pub zip_xor_twice :
    (xs ks : List ℕ)
    → IsBytes xs
    → IsBytes ks
    → length xs ≤ length ks
    → zip_xor (zip_xor xs ks) ks ≡ xs
unfolding zip_xor
zip_xor_twice [] ks hx hk h = refl
zip_xor_twice (x ∷ xs) [] hx hk h = absurd (omega arith)
zip_xor_twice (x ∷ xs) (k ∷ ks) (bx, hx) (bk, hk) h =
    cc (xor_twice x k bx bk, zip_xor_twice xs ks hx hk (omega arith))
