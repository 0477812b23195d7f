-- ===== src/Match/Keys/Display.antt =====
-- match/keys.py: a txid as text, in the byte order of explorers and of the node's calls. A text is the list
-- of its characters' codes; `bytes.hex` and `bytes.fromhex` are written out.
use coldwatch.Base.{
  ℕ, ◌+◌, ◌*◌, ◌-◌, ◌/◌, ◌%◌, ◌<◌, ◌≡◌, refl, ap, ◌∙◌, Bool, false, Option, none, some, List, [],
  ◌∷◌, ◌++◌, ltb, ◌==◌, ◌&&◌, ◌||◌, not, if◌then◌else◌, length, length-append, All-append, arith,
}
use coldwatch.Base.Bytes.{IsByte, IsBytes}
use coldwatch.Base.Results.{Result, ok, err}
use coldwatch.Match.Keys.{KeysError, bad_txid, bad_hex}

unfoldable pub digit : ℕ → ℕ
digit v = if ltb v 10 then v + 48 else v + 87

unfoldable pub digit_value : ℕ → Option ℕ
digit_value c =
    if ltb 47 c && ltb c 58
    then some (c - 48)
    else if ltb 96 c && ltb c 103
    then some (c - 87)
    else if ltb 64 c && ltb c 71
    then some (c - 55)
    else none

-- The white space that `bytes.fromhex` skips between bytes.
unfoldable pub is_space : ℕ → Bool
is_space c = c == 32 || (ltb 8 c && ltb c 14)

-- `bytes.hex()`.
unfoldable pub to_hex : List ℕ → List ℕ
unfolding digit
to_hex [] = []
to_hex (b ∷ bytes) = digit (b / 16) ∷ digit (b % 16) ∷ to_hex bytes

unfoldable pub hex_pair : ℕ → ℕ → Option (List ℕ) → Option (List ℕ)
hex_pair c d more = elim (digit_value c) [
  | none ↦ none
  | some high ↦ elim (digit_value d) [
    | none ↦ none
    | some low ↦ elim more [ none ↦ none | some bytes ↦ some ((16 * high + low) ∷ bytes) ]
  ]
]

-- `bytes.fromhex(text)`.
unfoldable pub from_hex : List ℕ → Option (List ℕ)
unfolding is_space hex_pair
from_hex [] = some []
from_hex (c ∷ []) = if is_space c then some [] else none
from_hex (c ∷ d ∷ text) =
    let skipped = from_hex (d ∷ text) in
    let rest = from_hex text in if is_space c then skipped else hex_pair c d rest

-- `data[::-1]`.
unfoldable pub reverse : List ℕ → List ℕ
reverse [] = []
reverse (b ∷ bytes) = reverse bytes ++ b ∷ []

unfoldable pub txid_from_display : List ℕ → Result KeysError (List ℕ)
txid_from_display text = elim (from_hex text) [
  | none ↦ err bad_hex
  | some raw ↦ if not (length raw == 32) then err bad_txid else ok (reverse raw)
]

unfoldable pub txid_to_display : List ℕ → Result KeysError (List ℕ)
txid_to_display txid = if not (length txid == 32) then err bad_txid else ok (to_hex (reverse txid))

digit_lem : (v : ℕ) → v < 16 → (digit_value (digit v) ≡ some v) × (is_space (digit v) ≡ false)
unfolding digit digit_value is_space
digit_lem v h = (ground arith, ground arith)

from_hex-to_hex : (bytes : List ℕ) → IsBytes bytes → from_hex (to_hex bytes) ≡ some bytes
unfolding from_hex to_hex
from_hex-to_hex [] h = refl
from_hex-to_hex (b ∷ bytes) (hb, h) =
    let (high, visible) = digit_lem (b / 16) (omega arith) in
    let (low, _) = digit_lem (b % 16) (omega arith) in
    let whole : 16 * (b / 16) + b % 16 ≡ b = omega arith in
    rw (visible, hex_pair, high, low, from_hex-to_hex bytes h, whole) refl

length-reverse : (bytes : List ℕ) → length (reverse bytes) ≡ length bytes
unfolding reverse
length-reverse [] = refl
length-reverse (b ∷ bytes) =
    omega (arith, length-append (reverse bytes) (b ∷ []), length-reverse bytes)

reverse-append : (xs : List ℕ) (y : ℕ) → reverse (xs ++ y ∷ []) ≡ y ∷ reverse xs
unfolding reverse
reverse-append [] y = refl
reverse-append (x ∷ xs) y = ap (λ (l : List ℕ). l ++ x ∷ []) (reverse-append xs y)

reverse-reverse : (bytes : List ℕ) → reverse (reverse bytes) ≡ bytes
unfolding reverse
reverse-reverse [] = refl
reverse-reverse (b ∷ bytes) =
    reverse-append (reverse bytes) b ∙ ap (λ (l : List ℕ). b ∷ l) (reverse-reverse bytes)

reverse-IsBytes : (bytes : List ℕ) → IsBytes bytes → IsBytes (reverse bytes)
unfolding reverse
reverse-IsBytes [] h = tt
reverse-IsBytes (b ∷ bytes) (hb, h) =
    All-append IsByte (reverse bytes) (b ∷ []) (reverse-IsBytes bytes h) (hb, tt)

-- A txid of 32 bytes has a text, and `txid_from_display` reads it back.
pub txid_from_display-txid_to_display :
    (txid : List ℕ)
    → length txid ≡ 32
    → IsBytes txid
    → (text : List ℕ) × (txid_to_display txid ≡ ok text) × (txid_from_display text ≡ ok txid)
unfolding txid_from_display txid_to_display
txid_from_display-txid_to_display txid size bytes =
    let back = from_hex-to_hex (reverse txid) (reverse-IsBytes txid bytes) in
    (
      to_hex (reverse txid),
      rw size refl,
      rw (txid_from_display, back, length-reverse txid, size, reverse-reverse txid) refl,
    )
