-- ===== src/Match/Keys/Tests.antt =====
-- The theorems on keys at concrete inputs.
use coldwatch.Base.{some, none, refl, ℕ, ◌+◌, ◌≡◌, List, [], ◌∷◌, length, replicate}
use coldwatch.Base.Bytes.{to_le, from_le, length-to_le}
use coldwatch.Match.Keys.Display.{to_hex, from_hex, digit, digit_value, is_space, hex_pair}

-- A function in place of HMAC-SHA256, with results of 32 bytes.
abbrev toy_hmac : List ℕ → List ℕ → List ℕ
toy_hmac k m = to_le 32 (from_le k + from_le m)

toy_size : (k m : List ℕ) → length (toy_hmac k m) ≡ 32
toy_size k m = length-to_le 32 (from_le k + from_le m)

abbrev master : List ℕ
master = replicate 16 9

abbrev some_txid : List ℕ
some_txid = replicate 32 7

-- Text of bytes, and upper case and white space read.
hexed :
    (to_hex (31 ∷ 0 ∷ []) ≡ b'1' ∷ b'f' ∷ b'0' ∷ b'0' ∷ [])
    × (from_hex (b'1' ∷ b'F' ∷ b' ' ∷ b'0' ∷ b'0' ∷ []) ≡ some (31 ∷ 0 ∷ []))
    × (from_hex (b'1' ∷ b' ' ∷ b'F' ∷ []) ≡ none)
unfolding to_hex from_hex digit digit_value is_space hex_pair
hexed = (refl, refl, refl)
