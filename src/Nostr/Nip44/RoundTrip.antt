-- ===== src/Nostr/Nip44/RoundTrip.antt =====
-- What `encrypt` returns, `decrypt` reads.
use coldwatch.Base.{
  ℕ, zero, suc, ◌+◌, ◌*◌, ◌/◌, ◌≤◌, ◌<◌, ◌≡◌, refl, sym, ap, ◌∙◌, Bool, true, false, Bool-cases,
  inl, inr, List, [], ◌∷◌, ◌++◌, ◌==◌, ==_iff, ltb, le→ltb_false, length, take, drop, length-append,
  length-take, length-drop, All-append, three_parts, arith,
}
use coldwatch.Base.Keys.{bytes_beq, bytes_beq_iff}
use coldwatch.Base.Bytes.{IsByte, IsBytes}
use coldwatch.Base.Results.{ok, >>=-returned}
use coldwatch.Crypto.ChaCha20.{chacha20_xor}
use coldwatch.Crypto.ChaCha20.Laws.{chacha20_xor_twice}
use coldwatch.Nostr.Base64.{character, b64encode, b64decode-b64encode, length-b64encode}
use coldwatch.Nostr.Nip44.{
  version, split_payload, decode_payload, hkdf_loop, hkdf_expand, get_message_keys, hmac_aad,
  ciphered, unpad_at, unpad, calc_padded_len, from_be, encrypt, decrypt,
}
use coldwatch.Nostr.Nip44.Padding.{unpad-pad}

-- No payload that starts with a version starts with `#`.
take-b64encode : (a : ℕ) (rest : List ℕ) → take 1 (b64encode (a ∷ rest)) ≡ character (a / 4) ∷ []
unfolding b64encode
take-b64encode a [] = refl
take-b64encode a (b ∷ []) = refl
take-b64encode a (b ∷ c ∷ rest) = refl

decode_payload_lem :
    (nonce ciphertext mac : List ℕ)
    → length nonce ≡ 32
    → length mac ≡ 32
    → 34 ≤ length ciphertext
    → IsBytes nonce
    → IsBytes ciphertext
    → IsBytes mac
    → decode_payload (b64encode (version ∷ (nonce ++ (ciphertext ++ mac))))
      ≡ ok (nonce, ciphertext, mac)
unfolding decode_payload split_payload character
decode_payload_lem nonce ciphertext mac hn hm long bn bc bm =
    let rest = nonce ++ (ciphertext ++ mac) in
    let raw : List ℕ = version ∷ rest in
    let bytes : IsBytes raw = (
      omega arith,
      All-append IsByte nonce (ciphertext ++ mac) bn (All-append IsByte ciphertext mac bc bm),
    ) in
    let (p1, p2, p3, size) = three_parts nonce ciphertext mac 32 32 hn hm in
    let chars : 132 ≤ length (b64encode raw) = omega (arith, length-b64encode raw) in
    let there : (length (b64encode raw) == 0) ≡ false = ground arith in
    let enough : ltb (length (b64encode raw)) 132 ≡ false = le→ltb_false _ 132 chars in
    let enough' : ltb (length raw) 99 ≡ false = le→ltb_false _ 99 (omega arith) in
    rw
      (
        there,
        take-b64encode version rest,
        enough,
        b64decode-b64encode raw bytes,
        enough',
        p1,
        p2,
        p3,
      )
      refl

keys_fit : 76 ≤ 255 * 32
keys_fit = omega arith

module _ (hmac : List ℕ → List ℕ → List ℕ) (hash_size : (k m : List ℕ) → length (hmac k m) ≡ 32)
    (hash_bytes : (k m : List ℕ) → IsBytes (hmac k m)) where
  hkdf_loop_returns :
      (fuel : ℕ) (prk info : List ℕ) (size : ℕ) (out t : List ℕ) (counter : ℕ)
      → size < length out + fuel
      → length out + 32 ≡ 32 * counter
      → size ≤ 255 * 32
      → 0 < fuel
      → (okm : List ℕ) × (hkdf_loop hmac fuel prk info size out t counter ≡ ok okm)
        × (length okm ≡ size)
  unfolding hkdf_loop
  hkdf_loop_returns zero prk info size out t counter enough at small fuelled = absurd (omega arith)
  hkdf_loop_returns (suc fuel) prk info size out t counter enough at small fuelled =
      elim (Bool-cases (ltb (length out) size)) [
        | inr long ↦ (take size out, rw long, rw length-take (ground arith))
        | inl short ↦
            let next = hmac prk (t ++ (info ++ counter ∷ [])) in
            let grown : length (out ++ next) ≡ length out + 32 =
              length-append out next ∙ ap (λ (n : ℕ). length out + n) (hash_size prk _) in
            let in_byte : ltb 255 counter ≡ false = ground arith in
            rw (short, in_byte)
              (hkdf_loop_returns fuel prk info size (out ++ next) next (counter + 1) (omega arith)
                (omega arith) small (ground arith))
      ]

  -- For a size of at most 255 hashes, `_hkdf_expand` returns so many bytes.
  hkdf_expand_returns :
      (prk info : List ℕ) (size : ℕ)
      → size ≤ 255 * 32
      → (okm : List ℕ) × (hkdf_expand hmac prk info size ≡ ok okm) × (length okm ≡ size)
  unfolding hkdf_expand
  hkdf_expand_returns prk info size small =
      hkdf_loop_returns (size + 1) prk info size [] [] 1 (omega arith) (omega arith) small
        (omega arith)

  get_message_keys_lem :
      (conversation_key nonce : List ℕ)
      → length conversation_key ≡ 32
      → length nonce ≡ 32
      → (key : List ℕ) × (cipher_nonce : List ℕ) × (mac_key : List ℕ) × (get_message_keys hmac
            conversation_key nonce
          ≡ ok (key, cipher_nonce, mac_key))
        × (length key ≡ 32)
        × (length cipher_nonce ≡ 12)
  unfolding get_message_keys
  get_message_keys_lem conversation_key nonce hk hn =
      let (okm, e, size) = hkdf_expand_returns conversation_key nonce 76 keys_fit in
      (
        take 32 okm,
        take 12 (drop 32 okm),
        take 32 (drop 44 okm),
        rw (hk, hn, e) refl,
        omega (arith, length-take 32 okm),
        omega (arith, length-take 12 (drop 32 okm), length-drop 32 okm),
      )

  -- With a conversation key and a nonce of 32 bytes, `encrypt` of 1 to 2^32 - 1 bytes of UTF-8 returns a
  -- payload, and `decrypt` of it under the same key returns the plaintext.
  pub decrypt-encrypt :
      (is_utf8 : List ℕ → Bool) (plain conversation_key nonce : List ℕ)
      → length conversation_key ≡ 32
      → length nonce ≡ 32
      → IsBytes nonce
      → IsBytes plain
      → is_utf8 plain ≡ true
      → 1 ≤ length plain
      → length plain ≤ 0xFFFFFFFF
      → (payload : List ℕ) × (encrypt hmac plain conversation_key nonce ≡ ok payload)
        × (decrypt hmac is_utf8 payload conversation_key ≡ ok plain)
  unfolding encrypt decrypt hmac_aad ciphered
  decrypt-encrypt is_utf8 plain conversation_key nonce hk hn bn bp utf8 one small =
      let (key, cipher_nonce, mac_key, derived, size, size') =
        get_message_keys_lem conversation_key nonce hk hn in
      let (padded, pads, unpads, long, bytes) = unpad-pad is_utf8 plain utf8 one small in
      let (ct, enciphers, bc, same, deciphers) =
        chacha20_xor_twice key cipher_nonce padded 0 size size' (bytes bp) in
      let mac = hmac mac_key (nonce ++ ct) in
      let parts =
        decode_payload_lem nonce ct mac hn (hash_size mac_key (nonce ++ ct)) (omega arith) bn bc
          (hash_bytes mac_key (nonce ++ ct)) in
      let agrees : bytes_beq mac mac ≡ true = (bytes_beq_iff mac mac).1 refl in
      (
        b64encode (version ∷ (nonce ++ (ct ++ mac))),
        rw (derived, pads, enciphers, hn) refl,
        rw (parts, derived, hn, agrees, deciphers) unpads,
      )

unpad_at_returned :
    (is_utf8 : List ℕ → Bool) (padded : List ℕ) (prefix n : ℕ) (plain : List ℕ)
    → unpad_at is_utf8 padded prefix n ≡ ok plain
    → (is_utf8 plain ≡ true)
      × (1 ≤ length plain)
      × (length padded ≡ prefix + calc_padded_len (length plain))
unfolding unpad_at
unpad_at_returned is_utf8 padded prefix n plain e =
    let cut : List ℕ = take n (drop prefix padded) in
    ground (arith, ==_iff (length cut) n, ==_iff (length padded) (prefix + calc_padded_len n))

unpad_returned :
    (is_utf8 : List ℕ → Bool) (padded plain : List ℕ)
    → unpad is_utf8 padded ≡ ok plain
    → (is_utf8 plain ≡ true) × (1 ≤ length plain)
unfolding unpad
unpad_returned is_utf8 padded plain e = ground (
  arith,
  unpad_at_returned is_utf8 padded 6 (from_be 0 (take 4 (drop 2 padded))) plain,
  unpad_at_returned is_utf8 padded 2 (from_be 0 (take 2 padded)) plain,
)

module _ (hmac : List ℕ → List ℕ → List ℕ) where
  hmac_aad_returned :
      (key message aad tag : List ℕ)
      → hmac_aad hmac key message aad ≡ ok tag
      → (length aad ≡ 32) × (tag ≡ hmac key (aad ++ message))
  unfolding hmac_aad
  hmac_aad_returned key message aad tag e = ground (arith, ==_iff (length aad) 32)

  -- Where `decrypt` returns a plaintext, it is not empty and it is UTF-8, and the payload is a nonce of
  -- 32 bytes, a ciphertext and the MAC of both under the third of the message keys.
  pub decrypt-authentic :
      (is_utf8 : List ℕ → Bool) (payload conversation_key plain : List ℕ)
      → decrypt hmac is_utf8 payload conversation_key ≡ ok plain
      → (nonce ciphertext mac key cipher_nonce mac_key : List ℕ) × (decode_payload payload
          ≡ ok (nonce, ciphertext, mac))
        × (get_message_keys hmac conversation_key nonce ≡ ok (key, cipher_nonce, mac_key))
        × (length nonce ≡ 32)
        × (mac ≡ hmac mac_key (nonce ++ ciphertext))
        × (is_utf8 plain ≡ true)
        × (1 ≤ length plain)
  unfolding decrypt
  decrypt-authentic is_utf8 payload conversation_key plain returned =
      let ((nonce, ciphertext, mac), parts, e) = >>=-returned (decode_payload payload) _ returned in
      let ((key, cipher_nonce, mac_key), derived, e') =
        >>=-returned (get_message_keys hmac conversation_key nonce) _ e in
      let (computed, authentic, e'') = >>=-returned (hmac_aad hmac mac_key ciphertext nonce) _ e' in
      elim (Bool-cases (bytes_beq computed mac)) [
        | inr other ↦ absurd (ground (arith, rw other at e''))
        | inl same ↦
            let (padded, deciphered, e3) =
              >>=-returned (ciphered (chacha20_xor key cipher_nonce ciphertext 0)) _
                (rw same at e'') in
            let (utf8, one) = unpad_returned is_utf8 padded plain e3 in
            let (size, tag) = hmac_aad_returned mac_key ciphertext nonce computed authentic in
            (
              nonce,
              ciphertext,
              mac,
              key,
              cipher_nonce,
              mac_key,
              parts,
              derived,
              size,
              sym ((bytes_beq_iff computed mac).0 same) ∙ tag,
              utf8,
              one,
            )
      ]
