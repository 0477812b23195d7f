-- ===== src/Nostr/Base64.antt =====
-- The base64 of Python's `base64`: `b64encode`, and `b64decode` with `validate=True`. A text is the list
-- of its characters' codes.
use coldwatch.Base.{
  ℕ, ◌+◌, ◌*◌, ◌-◌, ◌/◌, ◌%◌, ◌<◌, ◌≡◌, refl, ap, ◌∙◌, Bool, true, false, Option, none, some, List,
  [], ◌∷◌, ltb, ◌==◌, ◌&&◌, not, if◌then◌else◌, length, arith,
}
use coldwatch.Base.Bytes.{IsBytes}

-- The alphabet: A-Z, a-z, 0-9, `+` and `/`.
unfoldable pub character : ℕ → ℕ
character v =
    if ltb v 26
    then v + 65
    else if ltb v 52
    then v + 71
    else if ltb v 62
    then v - 4
    else if v == 62
    then b'+'
    else b'/'

unfoldable pub value : ℕ → Option ℕ
value c =
    if ltb 64 c && ltb c 91
    then some (c - 65)
    else if ltb 96 c && ltb c 123
    then some (c - 71)
    else if ltb 47 c && ltb c 58
    then some (c + 4)
    else if c == b'+'
    then some 62
    else if c == b'/'
    then some 63
    else none

unfoldable pub b64encode : List ℕ → List ℕ
b64encode [] = []
b64encode (a ∷ []) = character (a / 4) ∷ character (a % 4 * 16) ∷ b'=' ∷ b'=' ∷ []
b64encode (a ∷ b ∷ []) =
    character (a / 4) ∷ character (a % 4 * 16 + b / 16) ∷ character (b % 16 * 4) ∷ b'=' ∷ []
b64encode (a ∷ b ∷ c ∷ rest) =
    character (a / 4)
    ∷ character (a % 4 * 16 + b / 16)
    ∷ character (b % 16 * 4 + c / 64)
    ∷ character (c % 64)
    ∷ b64encode rest

infixl 5 ◌>>=◌
abbrev ◌>>=◌ : {A B : Type 0} → Option A → (A → Option B) → Option B
none >>= next = none
some a >>= next = next a

unfoldable pub is_nil : List ℕ → Bool
is_nil [] = true
is_nil (c ∷ text) = false

-- The bytes of four characters, by how many of them are padding; what follows is already decoded.
unfoldable pub quad : ℕ → ℕ → ℕ → ℕ → Bool → Option (List ℕ) → Option (List ℕ)
unfolding value
quad w x y z last more = do
  p ← value w
  q ← value x
  if z == b'='
      then (if not last
          then none
          else if y == b'='
          then some ((p * 4 + q / 16) ∷ [])
          else do r ← value y; some ((p * 4 + q / 16) ∷ (q % 16 * 16 + r / 4) ∷ []))
      else do
        r ← value y
        s ← value z
        rest ← more
        some ((p * 4 + q / 16) ∷ (q % 16 * 16 + r / 4) ∷ (r % 4 * 64 + s) ∷ rest)

unfoldable pub b64decode : List ℕ → Option (List ℕ)
unfolding quad is_nil
b64decode [] = some []
b64decode (w ∷ x ∷ y ∷ z ∷ text) = quad w x y z (is_nil text) (b64decode text)
b64decode text = none

value-character : (v : ℕ) → v < 64 → value (character v) ≡ some v
unfolding value character
value-character v h = ground arith

character-ne : (v : ℕ) → v < 64 → (character v == b'=') ≡ false
unfolding character
character-ne v h = ground arith

-- Characters of the alphabet decode to what they stand for.
quad_full :
    (a b c d : ℕ) (last : Bool) (rest : List ℕ)
    → a < 64
    → b < 64
    → c < 64
    → d < 64
    → quad (character a) (character b) (character c) (character d) last (some rest)
      ≡ some ((a * 4 + b / 16) ∷ (b % 16 * 16 + c / 4) ∷ (c % 4 * 64 + d) ∷ rest)
unfolding quad
quad_full a b c d last rest ha hb hc hd =
    rw
      (
        value-character a ha,
        value-character b hb,
        character-ne d hd,
        value-character c hc,
        value-character d hd,
      )
      refl

-- The bytes put together again from their parts.
first_lem : (a b : ℕ) → b < 256 → a / 4 * 4 + (a % 4 * 16 + b / 16) / 16 ≡ a
first_lem a b h = omega arith

second_lem :
    (a b c : ℕ)
    → b < 256
    → c < 256
    → (a % 4 * 16 + b / 16) % 16 * 16 + (b % 16 * 4 + c / 64) / 4 ≡ b
second_lem a b c h k = omega arith

last_lem : (a b : ℕ) → b < 256 → (a % 4 * 16 + b / 16) % 16 * 16 + b % 16 * 4 / 4 ≡ b
last_lem a b h = omega arith

third_lem : (b c : ℕ) → c < 256 → (b % 16 * 4 + c / 64) % 4 * 64 + c % 64 ≡ c
third_lem b c h = omega arith

-- What `b64encode` returns for bytes, `b64decode` reads back.
pub b64decode-b64encode :
    (bytes : List ℕ) → IsBytes bytes → b64decode (b64encode bytes) ≡ some bytes
unfolding b64decode b64encode is_nil
b64decode-b64encode [] h = refl
b64decode-b64encode (a ∷ []) (ha, h) =
    rw (quad, value-character (a / 4) (omega arith), value-character (a % 4 * 16) (omega arith))
      (ap (λ (t : ℕ). some (t ∷ [])) (omega arith))
b64decode-b64encode (a ∷ b ∷ []) (ha, (hb, h)) =
    rw
      (
        quad,
        value-character (a / 4) (omega arith),
        value-character (a % 4 * 16 + b / 16) (omega arith),
        character-ne (b % 16 * 4) (omega arith),
        value-character (b % 16 * 4) (omega arith),
      )
      (ap (λ (t : ℕ). some (t ∷ ((a % 4 * 16 + b / 16) % 16 * 16 + b % 16 * 4 / 4) ∷ []))
          (first_lem a b hb)
        ∙ ap (λ (t : ℕ). some (a ∷ t ∷ [])) (last_lem a b hb))
b64decode-b64encode (a ∷ b ∷ c ∷ rest) (ha, (hb, (hc, h))) =
    rw
      (
        b64decode-b64encode rest h,
        quad_full (a / 4) (a % 4 * 16 + b / 16) (b % 16 * 4 + c / 64) (c % 64)
            (is_nil (b64encode rest)) rest (omega arith) (omega arith) (omega arith) (omega arith),
        first_lem a b hb,
        second_lem a b c hb hc,
        third_lem b c hc,
      )
      refl

-- Four characters for each three bytes begun.
pub length-b64encode : (bytes : List ℕ) → length (b64encode bytes) ≡ 4 * ((length bytes + 2) / 3)
unfolding b64encode
length-b64encode [] = refl
length-b64encode (a ∷ []) = refl
length-b64encode (a ∷ b ∷ []) = refl
length-b64encode (a ∷ b ∷ c ∷ rest) = omega (arith, length-b64encode rest)
