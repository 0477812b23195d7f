-- ===== src/Crypto/ChaCha20/Laws.antt =====
-- The cipher is its own inverse and keeps lengths.
use Prim.Native.Nat.{min}
use coldwatch.Base.{
  All-append, Bool-cases, ltb, ltb→lt, ℕ, zero, suc, ◌+◌, ◌*◌, ◌/◌, ◌-◌, ◌≤◌, ◌≡◌, ◌⊎◌, inl, inr,
  refl, ap, ◌∙◌, List, [], ◌∷◌, ◌++◌, append-nil, take, drop, length, length-append, length-take,
  length-drop, take-append, drop-append, All-take, All-drop, arith,
}
use coldwatch.Base.Bytes.{IsByte, IsBytes, length-to_le, to_le-IsBytes}
use coldwatch.Base.Results.{ok}
use coldwatch.Crypto.Xor.{zip_xor, length-zip_xor, zip_xor-IsBytes, zip_xor_twice}
use coldwatch.Crypto.ChaCha20.{pack_sums, keystream_block, xor_chunks, chacha20_xor}

length-pack_sums : (n i : ℕ) (w s : List ℕ) → length (pack_sums n i w s) ≡ 4 * n
unfolding pack_sums
length-pack_sums zero i w s = omega arith
length-pack_sums (suc n) i w s =
    rw (length-append, length-to_le) (omega (arith, length-pack_sums n (i + 1) w s))

pack_sums-IsBytes : (n i : ℕ) (w s : List ℕ) → IsBytes (pack_sums n i w s)
unfolding pack_sums
pack_sums-IsBytes zero i w s = tt
pack_sums-IsBytes (suc n) i w s =
    All-append IsByte _ _ (to_le-IsBytes 4 _) (pack_sums-IsBytes n (i + 1) w s)

length-keystream_block :
    (key : List ℕ) (counter : ℕ) (nonce : List ℕ) → length (keystream_block key counter nonce) ≡ 64
unfolding keystream_block
length-keystream_block key counter nonce = length-pack_sums 16 0 _ _

keystream_block-IsBytes :
    (key : List ℕ) (counter : ℕ) (nonce : List ℕ) → IsBytes (keystream_block key counter nonce)
unfolding keystream_block
keystream_block-IsBytes key counter nonce = pack_sums-IsBytes 16 0 _ _

take_all : (n : ℕ) (xs : List ℕ) → length xs ≤ n → take n xs ≡ xs
take_all zero [] h = refl
take_all zero (x ∷ xs) h = absurd (omega arith)
take_all (suc n) [] h = refl
take_all (suc n) (x ∷ xs) h = ap (λ t. x ∷ t) (take_all n xs (omega arith))

drop_all : (n : ℕ) (xs : List ℕ) → length xs ≤ n → drop n xs ≡ []
drop_all zero [] h = refl
drop_all zero (x ∷ xs) h = absurd (omega arith)
drop_all (suc n) [] h = refl
drop_all (suc n) (x ∷ xs) h = drop_all n xs (omega arith)

pub take-drop : (n : ℕ) (xs : List ℕ) → take n xs ++ drop n xs ≡ xs
take-drop zero xs = refl
take-drop (suc n) [] = refl
take-drop (suc n) (x ∷ xs) = ap (λ t. x ∷ t) (take-drop n xs)

length_zero : (xs : List ℕ) → length xs ≡ 0 → xs ≡ []
length_zero [] h = refl
length_zero (x ∷ xs) h = absurd (omega arith)

-- Where the first part is full, or nothing follows it, the first `n` are that part.
split_back :
    (n : ℕ) (xs ys : List ℕ)
    → (length xs ≡ n) ⊎ ((length xs ≤ n) × (length ys ≡ 0))
    → (take n (xs ++ ys) ≡ xs) × (drop n (xs ++ ys) ≡ ys)
split_back n xs ys (inl e) = rw (← e) (take-append xs ys, drop-append xs ys)
split_back n xs ys (inr (small, none_left)) =
    rw (length_zero ys none_left, append-nil) (take_all n xs small, drop_all n xs small)

full_or_last :
    (size first rest : ℕ)
    → first ≡ min 64 size
    → rest ≡ size - 64
    → (first ≡ 64) ⊎ ((first ≤ 64) × (rest ≡ 0))
full_or_last size first rest f r = elim (Bool-cases (ltb size 64)) [
  | inl short ↦ inr (omega arith, omega (arith, ltb→lt size 64 short))
  | inr long ↦ inl (ground (arith, f, long))
]

module _ (key nonce : List ℕ) where
  -- A chunk of the keystream is as long as the chunk of the text.
  length-chunk :
      (counter : ℕ) (xs : List ℕ)
      → length (zip_xor (take 64 xs) (keystream_block key counter nonce)) ≡ length (take 64 xs)
  length-chunk counter xs =
      length-zip_xor (take 64 xs) _
        (omega (arith, length-take 64 xs, length-keystream_block key counter nonce))

  pub length-xor_chunks :
      (n counter : ℕ) (xs : List ℕ)
      → length xs ≤ 64 * n
      → length (xor_chunks n key counter nonce xs) ≡ length xs
  unfolding xor_chunks
  length-xor_chunks zero counter xs h = omega arith
  length-xor_chunks (suc n) counter xs h =
      rw (length-append, length-chunk counter xs)
        (omega (
          arith,
          length-xor_chunks n (counter + 1) (drop 64 xs) (omega (arith, length-drop 64 xs)),
          length-take 64 xs,
          length-drop 64 xs,
        ))

  pub xor_chunks-IsBytes :
      (n counter : ℕ) (xs : List ℕ) → IsBytes xs → IsBytes (xor_chunks n key counter nonce xs)
  unfolding xor_chunks
  xor_chunks-IsBytes zero counter xs h = tt
  xor_chunks-IsBytes (suc n) counter xs h =
      All-append IsByte _ _
        (zip_xor-IsBytes (take 64 xs) _ (All-take IsByte 64 xs h)
          (keystream_block-IsBytes key counter nonce))
        (xor_chunks-IsBytes n (counter + 1) (drop 64 xs) (All-drop IsByte 64 xs h))

  pub xor_chunks_twice :
      (n counter : ℕ) (xs : List ℕ)
      → IsBytes xs
      → length xs ≤ 64 * n
      → xor_chunks n key counter nonce (xor_chunks n key counter nonce xs) ≡ xs
  unfolding xor_chunks
  xor_chunks_twice zero counter [] bytes h = refl
  xor_chunks_twice zero counter (x ∷ xs) bytes h = absurd (omega arith)
  xor_chunks_twice (suc n) counter xs bytes h =
      let ks = keystream_block key counter nonce in
      let first = zip_xor (take 64 xs) ks in
      let rest = xor_chunks n key (counter + 1) nonce (drop 64 xs) in
      let left =
        length-xor_chunks n (counter + 1) (drop 64 xs) (omega (arith, length-drop 64 xs)) in
      let full : (length first ≡ 64) ⊎ ((length first ≤ 64) × (length rest ≡ 0)) =
        full_or_last (length xs) (length first) (length rest)
          (length-chunk counter xs ∙ length-take 64 xs) (left ∙ length-drop 64 xs) in
      let (front, back) = split_back 64 first rest full in
      let again =
        zip_xor_twice (take 64 xs) ks (All-take IsByte 64 xs bytes)
          (keystream_block-IsBytes key counter nonce)
          (omega (arith, length-take 64 xs, length-keystream_block key counter nonce)) in
      let more =
        xor_chunks_twice n (counter + 1) (drop 64 xs) (All-drop IsByte 64 xs bytes)
          (omega (arith, length-drop 64 xs)) in
      rw (front, back, again, more) (take-drop 64 xs)

-- With a key of 32 bytes and a nonce of 12, `chacha20_xor` returns bytes, as many as it is given, and
-- called again with the same key, nonce and counter it returns what it was given.
pub chacha20_xor_twice :
    (key nonce xs : List ℕ) (counter : ℕ)
    → length key ≡ 32
    → length nonce ≡ 12
    → IsBytes xs
    → (out : List ℕ) × (chacha20_xor key nonce xs counter ≡ ok out)
      × IsBytes out
      × (length out ≡ length xs)
      × (chacha20_xor key nonce out counter ≡ ok xs)
unfolding chacha20_xor
chacha20_xor_twice key nonce xs counter hk hn bytes =
    let n = (length xs + 63) / 64 in
    let size = length-xor_chunks key nonce n counter xs (omega arith) in
    rw (hk, hn)
      (
        xor_chunks n key counter nonce xs,
        refl,
        xor_chunks-IsBytes key nonce n counter xs bytes,
        size,
        rw size (ap ok (xor_chunks_twice key nonce n counter xs bytes (omega arith))),
      )
