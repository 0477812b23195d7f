-- ===== src/Match/Keys/Laws.antt =====
-- What the hashed messages say, and that the derivation returns.
use coldwatch.Base.{
  ℕ, zero, suc, ◌+◌, ◌*◌, ◌^◌, ◌≤◌, ◌<◌, ◌≡◌, ◌≢◌, ◌∙◌, sym, ap, false, List, [], ◌∷◌, ◌++◌, ltb,
  length, take, length-append, length-take, take-append, drop-append, drop, arith, Bool-cases, ◌⊎◌,
  inl, inr, le→ltb_false,
}
use coldwatch.Base.Bytes.{to_le, from_le, from_le-to_le}
use coldwatch.Base.Results.{ok, err}
use coldwatch.Match.Keys.{
  Subkeys, info_match, info_store, min_master_bytes, short_master, tag_spk, tag_outpoint,
  tagged_message, canonical_outpoint, expand, hkdf, derive_subkeys,
}

-- What is hashed for a script and for an outpoint is never the same message.
pub messages_apart :
    (spk payload : List ℕ) → tagged_message tag_spk spk ≢ tagged_message tag_outpoint payload
unfolding tagged_message
messages_apart spk payload e = ground arith

canonical_outpoint_lem :
    (txid : List ℕ) (vout : ℕ) (b : List ℕ)
    → canonical_outpoint txid vout ≡ ok b
    → (length txid ≡ 32) × (vout < 2 ^ 32) × (b ≡ txid ++ to_le 4 vout)
unfolding canonical_outpoint
canonical_outpoint_lem txid vout b e = ground arith

pub canonical_outpoint_ok :
    (txid : List ℕ) (vout : ℕ)
    → length txid ≡ 32
    → vout < 2 ^ 32
    → canonical_outpoint txid vout ≡ ok (txid ++ to_le 4 vout)
unfolding canonical_outpoint
canonical_outpoint_ok txid vout h k = ground arith

take_32 : (txid rest : List ℕ) → length txid ≡ 32 → take 32 (txid ++ rest) ≡ txid
take_32 txid rest h = rw (← h) (take-append txid rest)

drop_32 : (txid rest : List ℕ) → length txid ≡ 32 → drop 32 (txid ++ rest) ≡ rest
drop_32 txid rest h = rw (← h) (drop-append txid rest)

-- Two outpoints with the same canonical form are the same outpoint.
pub canonical_outpoint_injective :
    (txid txid' : List ℕ) (vout vout' : ℕ) (b : List ℕ)
    → canonical_outpoint txid vout ≡ ok b
    → canonical_outpoint txid' vout' ≡ ok b
    → (txid ≡ txid') × (vout ≡ vout')
canonical_outpoint_injective txid txid' vout vout' b e e' =
    let (h, k, p) = canonical_outpoint_lem txid vout b e in
    let (h', k', p') = canonical_outpoint_lem txid' vout' b e' in
    let same : txid ++ to_le 4 vout ≡ txid' ++ to_le 4 vout' = sym p ∙ p' in
    (
      sym (take_32 txid _ h) ∙ ap (take 32) same ∙ take_32 txid' _ h',
      sym (from_le-to_le 4 vout (omega arith))
          ∙ ap from_le (sym (drop_32 txid _ h) ∙ ap (drop 32) same ∙ drop_32 txid' _ h')
          ∙ from_le-to_le 4 vout' (omega arith),
    )

module _ (hmac : List ℕ → List ℕ → List ℕ)
    (hash_size : (k m : List ℕ) → length (hmac k m) ≡ 32) where
  expand_returns :
      (fuel : ℕ) (prk info : List ℕ) (size : ℕ) (out block : List ℕ) (counter : ℕ)
      → 0 < fuel
      → size < length out + fuel
      → length out + 32 ≡ 32 * counter
      → size ≤ 255 * 32
      → (okm : List ℕ) × (expand hmac fuel prk info size out block counter ≡ ok okm)
        × (length okm ≡ size)
  unfolding expand
  expand_returns zero prk info size out block counter some enough at small = absurd (omega arith)
  expand_returns (suc fuel) prk info size out block counter some enough at small =
      elim (Bool-cases (ltb (length out) size)) [
        | inl short ↦
            let next = hmac prk (block ++ (info ++ (counter ∷ []))) in
            let grown : length (out ++ next) ≡ length out + 32 =
              length-append out next ∙ ap (λ (n : ℕ). length out + n) (hash_size prk _) in
            let in_byte : ltb 255 counter ≡ false = ground arith in
            rw (short, in_byte)
              (expand_returns fuel prk info size (out ++ next) next (counter + 1) (ground arith)
                (omega arith) (omega arith) small)
        | inr long ↦ (take size out, rw long, rw length-take (ground arith))
      ]

  -- For every size that RFC 5869 allows, `hkdf` returns a key of that size: its loop ends, and its
  -- counter stays in a byte.
  pub hkdf_returns :
      (ikm info salt : List ℕ) (size : ℕ)
      → 1 ≤ size
      → size ≤ 255 * 32
      → (okm : List ℕ) × (hkdf hmac ikm info salt size ≡ ok okm) × (length okm ≡ size)
  unfolding hkdf
  hkdf_returns ikm info salt size lo hi =
      rw (le→ltb_false size 1 lo, le→ltb_false (255 * 32) size hi)
        (expand_returns (size + 1) _ info size [] [] 1 (omega arith) (omega arith) (omega arith) hi)

  -- `derive_subkeys` refuses a master secret below 16 bytes, and from any other returns two keys of
  -- 32 bytes.
  pub derive_subkeys_returns :
      (master : List ℕ)
      → ((length master < min_master_bytes) × (derive_subkeys hmac master ≡ err short_master))
        ⊎ ((min_master_bytes ≤ length master)
            × ((keys : Subkeys) × (derive_subkeys hmac master ≡ ok keys)
                × (length keys.match ≡ 32)
                × (length keys.store ≡ 32)))
  unfolding derive_subkeys
  derive_subkeys_returns master = elim (Bool-cases (ltb (length master) min_master_bytes)) [
    | inl short ↦ inl (ground arith, rw short)
    | inr long ↦
        let (m, em, lm) = hkdf_returns master info_match [] 32 (omega arith) (omega arith) in
        let (s, es, ls) = hkdf_returns master info_store [] 32 (omega arith) (omega arith) in
        inr (ground arith, (record { match = m; store = s }, rw (long, em, es), lm, ls))
  ]
