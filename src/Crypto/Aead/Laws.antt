-- ===== src/Crypto/Aead/Laws.antt =====
-- `open_` inverts `seal`, and accepts nothing else.
use coldwatch.Base.{
  three_parts, ℕ, zero, suc, ◌+◌, ◌-◌, ◌≤◌, ◌≡◌, refl, sym, ap, ◌∙◌, Bool-cases, inl, inr, List, [],
  ◌∷◌, ◌++◌, append_assoc, ltb, le→ltb_false, true, ◌==◌, ==_iff, take, drop, length, replicate,
  length-append, length-take, All-take, All-drop, arith,
}
use coldwatch.Base.Keys.{bytes_beq, bytes_beq_iff}
use coldwatch.Base.Bytes.{IsByte, IsBytes}
use coldwatch.Base.Results.{ok}
use coldwatch.Crypto.ChaCha20.{chacha20_xor}
use coldwatch.Crypto.ChaCha20.Laws.{chacha20_xor_twice, take-drop}
use coldwatch.Crypto.Poly1305.Laws.{poly1305_mac-polynomial}
use coldwatch.Crypto.Aead.{tag_of, mac_data, seal_with_nonce, seal, open_parts, open_}

zeros-IsBytes : IsBytes (replicate 32 0)
zeros-IsBytes = omega arith

-- The calls that `seal` and `open_` share, for a key of 32 bytes and a nonce of 12.
module _ (key nonce : List ℕ) (hk : length key ≡ 32) (hn : length nonce ≡ 12) where
  tag_lem :
      (aad ciphertext : List ℕ)
      → (otk tag : List ℕ) × (chacha20_xor key nonce (replicate 32 0) 0 ≡ ok otk)
        × (tag_of otk aad ciphertext ≡ ok tag)
        × (length tag ≡ 16)
  unfolding tag_of
  tag_lem aad ciphertext =
      let (otk, q, b, size, _) =
        chacha20_xor_twice key nonce (replicate 32 0) 0 hk hn zeros-IsBytes in
      let (tag, q', size', _) = poly1305_mac-polynomial otk (mac_data aad ciphertext) size in
      (otk, tag, q, q', size')

-- With a key of 32 bytes and a nonce of 12, `seal` of bytes returns a value 28 bytes longer, and
-- `open_` with the same key and associated data returns what was sealed.
pub open-seal :
    (key nonce plaintext aad : List ℕ)
    → length key ≡ 32
    → length nonce ≡ 12
    → IsBytes plaintext
    → (sealed : List ℕ) × (seal nonce key plaintext aad ≡ ok sealed)
      × (length sealed ≡ length plaintext + 28)
      × (open_ key sealed aad ≡ ok plaintext)
unfolding seal seal_with_nonce open_ open_parts
open-seal key nonce plaintext aad hk hn bytes =
    let (ct, q, _, size, back) = chacha20_xor_twice key nonce plaintext 1 hk hn bytes in
    let (otk, tag, q', q2, ht) = tag_lem key nonce hk hn aad ct in
    let (p1, p2, p3, long) = three_parts nonce ct tag 12 16 hn ht in
    let same : bytes_beq tag tag ≡ true = (bytes_beq_iff tag tag).1 refl in
    (
      nonce ++ (ct ++ tag),
      rw (hk, q', q, q2),
      omega (arith, length-append nonce (ct ++ tag), length-append ct tag),
      rw
          (
            hk,
            le→ltb_false (length (nonce ++ (ct ++ tag))) 28 (omega arith),
            p1,
            p2,
            p3,
            q',
            q2,
            same,
          )
          back,
    )

take-take : (m k : ℕ) (xs : List ℕ) → m ≤ k → take m (take k xs) ≡ take m xs
take-take zero k xs h = refl
take-take (suc m) zero xs h = absurd (omega arith)
take-take (suc m) (suc k) [] h = refl
take-take (suc m) (suc k) (x ∷ xs) h = ap (λ t. x ∷ t) (take-take m k xs (omega arith))

-- The three slices put together again.
whole_lem :
    (end : ℕ) (sealed : List ℕ)
    → 12 ≤ end
    → take 12 sealed ++ (drop 12 (take end sealed) ++ drop end sealed) ≡ sealed
whole_lem end sealed h =
    ap (λ t. t ++ (drop 12 (take end sealed) ++ drop end sealed)) (sym (take-take 12 end sealed h))
    ∙ sym (append_assoc (take 12 (take end sealed)) (drop 12 (take end sealed)) (drop end sealed))
    ∙ ap (λ t. t ++ drop end sealed) (take-drop 12 (take end sealed))
    ∙ take-drop end sealed

accepted :
    (key sealed plaintext aad : List ℕ)
    → length key ≡ 32
    → 28 ≤ length sealed
    → IsBytes sealed
    → open_parts key
        (take 12 sealed)
        (drop 12 (take (length sealed - 16) sealed))
        (drop (length sealed - 16) sealed)
        aad
      ≡ ok plaintext
    → seal (take 12 sealed) key plaintext aad ≡ ok sealed
unfolding seal seal_with_nonce open_parts
accepted key sealed plaintext aad hk long bytes opened =
    let end = length sealed - 16 in
    let nonce = take 12 sealed in
    let ct = drop 12 (take end sealed) in
    let hn : length nonce ≡ 12 = omega (arith, length-take 12 sealed) in
    let ct_bytes : IsBytes ct =
      All-drop IsByte 12 (take end sealed) (All-take IsByte end sealed bytes) in
    let (out, q, _, _, back) = chacha20_xor_twice key nonce ct 1 hk hn ct_bytes in
    let (otk, tag, q', q2, _) = tag_lem key nonce hk hn aad ct in
    elim (Bool-cases (bytes_beq tag (drop end sealed))) [
      | inr other ↦ absurd (ground (arith, rw (open_parts, q', q2, other) at opened))
      | inl same ↦
          let plain : out ≡ plaintext =
            ground (arith, q, rw (open_parts, q', q2, same) at opened) in
          let match_ : tag ≡ drop end sealed = (bytes_beq_iff tag (drop end sealed)).0 same in
          rw (← plain) (rw (hk, q', back, q2, match_) (ap ok (whole_lem end sealed (omega arith))))
    ]

-- Where `open_` of a value of bytes returns a plaintext, the key has 32 bytes and `seal` of that
-- plaintext, with the nonce in front of the value and the same associated data, returns the value.
pub open-only_sealed :
    (key sealed plaintext aad : List ℕ)
    → IsBytes sealed
    → open_ key sealed aad ≡ ok plaintext
    → (length key ≡ 32) × (seal (take 12 sealed) key plaintext aad ≡ ok sealed)
unfolding seal seal_with_nonce open_ open_parts
open-only_sealed key sealed plaintext aad bytes opened = elim (Bool-cases (length key == 32)) [
  | inr other ↦ absurd (ground (arith, rw (other, open_) at opened))
  | inl hk ↦ elim (Bool-cases (ltb (length sealed) 28)) [
    | inl short ↦ absurd (ground (arith, rw (hk, short, open_) at opened))
    | inr long ↦ (
      (==_iff _ 32).0 hk,
      accepted key sealed plaintext aad ((==_iff _ 32).0 hk) (ground arith) bytes
          (rw (hk, long, open_) at opened),
    )
  ]
]
