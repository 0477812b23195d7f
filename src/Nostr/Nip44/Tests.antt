-- ===== src/Nostr/Nip44/Tests.antt =====
-- The padding at the lengths of the published vectors, and the theorems at concrete inputs.
use coldwatch.Base.{
  ℕ, ◌+◌, ◌/◌, ◌≤◌, ◌<◌, ◌≡◌, refl, true, none, List, [], ◌∷◌, ◌++◌, map, replicate, length, arith,
}
use coldwatch.Base.Bytes.{to_le, from_le, length-to_le, to_le-IsBytes}
use coldwatch.Base.Results.{ok}
use coldwatch.Nostr.Base64.{b64encode, b64decode, quad, value, character, is_nil}
use coldwatch.Nostr.Nip44.{
  floor_log2, next_power, chunk_size, calc_padded_len, decode_payload, get_message_keys, encrypt,
  decrypt,
}
use coldwatch.Nostr.Nip44.Padding.{calc_padded_len_lem}
use coldwatch.Nostr.Nip44.RoundTrip.{decrypt-encrypt, decrypt-authentic}

padded :
    map calc_padded_len
      (16 ∷ 32 ∷ 33 ∷ 64 ∷ 65 ∷ 100 ∷ 200 ∷ 320 ∷ 384 ∷ 400 ∷ 515 ∷ 900 ∷ 65536 ∷ [])
    ≡ 32 ∷ 32 ∷ 64 ∷ 64 ∷ 96 ∷ 128 ∷ 224 ∷ 320 ∷ 384 ∷ 448 ∷ 640 ∷ 1024 ∷ 65536 ∷ []
unfolding calc_padded_len chunk_size next_power floor_log2
padded = refl

-- "hi!" and "hi", and a text whose padding ends too soon.
coded :
    (b64encode (104 ∷ 105 ∷ 33 ∷ []) ≡ b'a' ∷ b'G' ∷ b'k' ∷ b'h' ∷ [])
    × (b64encode (104 ∷ 105 ∷ []) ≡ b'a' ∷ b'G' ∷ b'k' ∷ b'=' ∷ [])
    × (b64decode (b'a' ∷ b'G' ∷ b'k' ∷ b'=' ∷ b'a' ∷ b'G' ∷ b'k' ∷ b'h' ∷ []) ≡ none)
unfolding b64encode b64decode quad value character is_nil
coded = (refl, refl, refl)

abbrev toy_hmac : List ℕ → List ℕ → List ℕ
toy_hmac key message = to_le 32 (from_le message + length key)

calc_padded_len_lem_example :
    (33 ≤ calc_padded_len 33) × (32 ≤ calc_padded_len 33) × (calc_padded_len 33 < 33 + 32 + 33 / 4)
calc_padded_len_lem_example = calc_padded_len_lem 33 (omega arith) (omega arith)

decrypt-encrypt_example :
    (payload : List ℕ) × (encrypt toy_hmac (104 ∷ 105 ∷ []) (replicate 32 1) (replicate 32 2)
      ≡ ok payload)
    × (decrypt toy_hmac (λ bytes. true) payload (replicate 32 1) ≡ ok (104 ∷ 105 ∷ []))
decrypt-encrypt_example =
    decrypt-encrypt toy_hmac (λ k m. length-to_le 32 _) (λ k m. to_le-IsBytes 32 _) (λ bytes. true)
      (104 ∷ 105 ∷ []) (replicate 32 1) (replicate 32 2) refl refl (omega arith) (omega arith) refl
      (omega arith) (omega arith)

-- A payload, with the proof that it decrypts.
sent :
    (payload : List ℕ) × (encrypt toy_hmac (104 ∷ 105 ∷ []) (replicate 32 1) (replicate 32 2)
      ≡ ok payload)
    × (decrypt toy_hmac (λ bytes. true) payload (replicate 32 1) ≡ ok (104 ∷ 105 ∷ []))
sent =
    decrypt-encrypt toy_hmac (λ k m. length-to_le 32 _) (λ k m. to_le-IsBytes 32 _) (λ bytes. true)
      (104 ∷ 105 ∷ []) (replicate 32 1) (replicate 32 2) refl refl (omega arith) (omega arith) refl
      (omega arith) (omega arith)

decrypt-authentic_example :
    (nonce ciphertext mac key cipher_nonce mac_key : List ℕ) × (decode_payload sent.0
      ≡ ok (nonce, ciphertext, mac))
    × (get_message_keys toy_hmac (replicate 32 1) nonce ≡ ok (key, cipher_nonce, mac_key))
    × (length nonce ≡ 32)
    × (mac ≡ toy_hmac mac_key (nonce ++ ciphertext))
    × (true ≡ true)
    × (1 ≤ 2)
decrypt-authentic_example =
    decrypt-authentic toy_hmac (λ bytes. true) sent.0 (replicate 32 1) (104 ∷ 105 ∷ []) sent.2
