-- ===== src/Nostr/Nip44/Padding.antt =====
-- How long a padded plaintext is, and that the padding comes off.
use native.Mathlib.Nat.{pow-succ', mul-div-le, lt-mul-div-succ}
use coldwatch.Base.{
  ℕ, zero, suc, ◌+◌, ◌*◌, ◌-◌, ◌/◌, ◌%◌, ◌^◌, ◌<◌, ◌≤◌, ◌≡◌, refl, ap, ◌∙◌, Bool, true, false,
  Bool-cases, inl, inr, List, ◌∷◌, ◌++◌, ◌||◌, ◌==◌, ==_refl, ltb, leb, length, replicate,
  All-append, length-append, length-replicate, take-append, drop-append, le→ltb_false, arith,
}
use coldwatch.Base.Bytes.{IsByte, IsBytes}
use coldwatch.Base.Results.{ok}
use coldwatch.Nostr.Nip44.{
  floor_log2, next_power, chunk_size, calc_padded_len, to_be, from_be, length_prefix, pad, unpad_at,
  unpad,
}

pow_double : (k : ℕ) → 2 ^ (k + 1) ≡ 2 * 2 ^ k
pow_double k = ap (λ (t : ℕ). 2 ^ t) {x = k + 1} {y = suc k} (omega arith) ∙ pow-succ' 2 k

floor_log2_lem :
    (fuel n : ℕ)
    → 1 ≤ n
    → n < 2 ^ fuel
    → (2 ^ floor_log2 fuel n ≤ n) × (n < 2 * 2 ^ floor_log2 fuel n)
unfolding floor_log2
floor_log2_lem zero n one small = omega arith
floor_log2_lem (suc fuel) n one small = elim (Bool-cases (ltb n 2)) [
  | inl low ↦ rw low (omega arith, ground arith)
  | inr high ↦
      let k = floor_log2 fuel (n / 2) in
      let doubled : 2 ^ suc fuel ≡ 2 * 2 ^ fuel = pow-succ' 2 fuel in
      let (low, up) = floor_log2_lem fuel (n / 2) (ground arith) (omega arith) in
      let power : 2 ^ (k + 1) ≡ 2 * 2 ^ k = pow_double k in rw high (omega arith, omega arith)
]

-- The chunk is 32 bytes, or at most a quarter of what is padded.
chunk_lem :
    (n : ℕ) → 32 < n → n ≤ 0xFFFFFFFF → let c = chunk_size n in (32 ≤ c) × (c ≤ 32 + (n - 1) / 4)
unfolding chunk_size next_power
chunk_lem n long short =
    let k = floor_log2 64 (n - 1) in
    let (low, up) = floor_log2_lem 64 (n - 1) (omega arith) (omega arith) in
    let power : 2 ^ (k + 1) ≡ 2 * 2 ^ k = pow_double k in
    elim (Bool-cases (leb (2 ^ (k + 1)) 256)) [
      | inl few ↦ rw few (omega arith, omega arith)
      | inr many ↦ let big : 256 < 2 ^ (k + 1) = ground arith in rw many (omega arith, omega arith)
    ]

multiple_lem : (c m : ℕ) → 0 < c → (m < c * (m / c + 1)) × (c * (m / c + 1) ≤ m + c)
multiple_lem c m pos =
    let spread : c * (m / c + 1) ≡ c * (m / c) + c = omega arith in
    (lt-mul-div-succ m pos, omega (arith, mul-div-le m c))

-- A plaintext of 1 to 2^32 - 1 bytes is padded to at least its length and at least 32 bytes, by less
-- than 32 bytes and a quarter of it.
pub calc_padded_len_lem :
    (n : ℕ)
    → 1 ≤ n
    → n ≤ 0xFFFFFFFF
    → (n ≤ calc_padded_len n) × (32 ≤ calc_padded_len n) × (calc_padded_len n < n + 32 + n / 4)
unfolding calc_padded_len
calc_padded_len_lem n one small = elim (Bool-cases (leb n 32)) [
  | inl low ↦ rw low (ground arith, omega arith, omega arith)
  | inr high ↦
      let long : 32 < n = ground arith in
      let (floor, ceiling) = chunk_lem n long small in
      let (above, below) = multiple_lem (chunk_size n) (n - 1) (omega arith) in
      rw high (omega arith, omega arith, omega arith)
]

zeros-IsBytes : (n : ℕ) → IsBytes (replicate n 0)
zeros-IsBytes zero = tt
zeros-IsBytes (suc n) = (omega arith, zeros-IsBytes n)

-- `_unpad`'s slices of a prefix, a plaintext and its padding.
module _ (is_utf8 : List ℕ → Bool) (plain : List ℕ) (utf8 : is_utf8 plain ≡ true)
    (one : 1 ≤ length plain) (small : length plain ≤ 0xFFFFFFFF) where
  unpad_at_lem :
      (front : List ℕ)
      → unpad_at is_utf8
          (front ++ (plain ++ replicate (calc_padded_len (length plain) - length plain) 0))
          (length front)
          (length plain)
        ≡ ok plain
  unfolding unpad_at
  unpad_at_lem front =
      let n = length plain in
      let zeros : List ℕ = replicate (calc_padded_len n - n) 0 in
      let (fits, _, _) = calc_padded_len_lem n one small in
      let size : length (front ++ (plain ++ zeros)) ≡ length front + calc_padded_len n = omega (
        arith,
        length-append front (plain ++ zeros),
        length-append plain zeros,
        length-replicate {A = ℕ} (calc_padded_len n - n) 0,
      ) in
      let there : (n == 0) ≡ false = ground arith in
      rw
        (
          drop-append front (plain ++ zeros),
          take-append plain zeros,
          size,
          there,
          ==_refl n,
          ==_refl (length front + calc_padded_len n),
          utf8,
        )
        refl

  total :
      (front : List ℕ)
      → length front + 32
        ≤ length (front ++ (plain ++ replicate (calc_padded_len (length plain) - length plain) 0))
  total front =
      let n = length plain in
      let (fits, long, _) = calc_padded_len_lem n one small in
      let zeros : List ℕ = replicate (calc_padded_len n - n) 0 in
      omega (
        arith,
        length-append front (plain ++ zeros),
        length-append plain zeros,
        length-replicate {A = ℕ} (calc_padded_len n - n) 0,
      )

  padded-IsBytes :
      (front : List ℕ)
      → IsBytes front
      → IsBytes plain
      → IsBytes (front ++ (plain ++ replicate (calc_padded_len (length plain) - length plain) 0))
  padded-IsBytes front h k =
      let zeros : List ℕ = replicate (calc_padded_len (length plain) - length plain) 0 in
      All-append IsByte front (plain ++ zeros) h (All-append IsByte plain zeros k (zeros-IsBytes _))

  -- `_unpad` gives back what `_pad` pads.
  pub unpad-pad :
      (padded : List ℕ) × (pad plain ≡ ok padded)
      × (unpad is_utf8 padded ≡ ok plain)
      × (34 ≤ length padded)
      × (IsBytes plain → IsBytes padded)
  unfolding pad unpad length_prefix to_be from_be
  unpad-pad =
      let n = length plain in
      let zeros : List ℕ = replicate (calc_padded_len n - n) 0 in
      let in_range : (ltb n 1 || ltb 0xFFFFFFFF n) ≡ false = ground arith in
      elim (Bool-cases (leb 65536 n)) [
        | inr short ↦
            let front : List ℕ = to_be 2 n in
            let less : n < 65536 = ground arith in
            let value : (0 * 256 + n / 256 % 256) * 256 + n % 256 ≡ n = omega arith in
            let nonzero : (n == 0) ≡ false = ground arith in
            (
              front ++ (plain ++ zeros),
              rw (in_range, short) refl,
              rw (value, nonzero) (unpad_at_lem front),
              omega (arith, total front),
              padded-IsBytes front (omega arith, (omega arith, tt)),
            )
        | inl long ↦
            let front : List ℕ = 0 ∷ 0 ∷ to_be 4 n in
            let more : 65536 ≤ n = ground arith in
            let value : (((0 * 256 + n / 256 / 256 / 256 % 256) * 256 + n / 256 / 256 % 256) * 256
                      + n / 256 % 256)
                    * 256
                  + n % 256
                ≡ n =
              omega arith in
            let enough : ltb (length (front ++ (plain ++ zeros))) 6 ≡ false =
              le→ltb_false _ 6 (omega (arith, length-append front (plain ++ zeros))) in
            let extended : ltb n 65536 ≡ false = le→ltb_false n 65536 more in
            (
              front ++ (plain ++ zeros),
              rw (in_range, long) refl,
              rw (enough, value, extended) (unpad_at_lem front),
              omega (arith, total front),
              padded-IsBytes front (
                omega arith,
                (omega arith, (omega arith, (omega arith, (omega arith, (omega arith, tt))))),
              ),
            )
      ]
