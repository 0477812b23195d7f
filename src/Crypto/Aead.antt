-- ===== src/Crypto/Aead.antt =====
-- crypto/aead.py. The nonce that `seal` draws from `secrets` is an argument.
pub mod Laws
use coldwatch.Base.{
  ℕ, ◌+◌, ◌-◌, ◌%◌, List, [], ◌∷◌, ◌++◌, not, ltb, ◌==◌, if◌then◌else◌, take, drop, length,
  replicate,
}
use coldwatch.Base.Keys.{bytes_beq}
use coldwatch.Base.Bytes.{to_le}
use coldwatch.Base.Results.{Result, ok, err, ◌>>=◌}
use coldwatch.Crypto.ChaCha20.{CryptoError, bad_key, authentication_failed, chacha20_xor}
use coldwatch.Crypto.Poly1305.{poly1305_mac}

abbrev pub nonce_len : ℕ
nonce_len = 12

abbrev pub tag_len : ℕ
tag_len = 16

-- `bytes(-len(data) % 16)`.
unfoldable pub pad16 : List ℕ → List ℕ
pad16 bytes = replicate ((16 - length bytes % 16) % 16) 0

unfoldable pub mac_data : List ℕ → List ℕ → List ℕ
mac_data aad ciphertext =
    aad
    ++ (pad16 aad
        ++ (ciphertext
            ++ (pad16 ciphertext ++ (to_le 8 (length aad) ++ to_le 8 (length ciphertext)))))

-- `_tag`.
unfoldable pub tag_of : List ℕ → List ℕ → List ℕ → Result CryptoError (List ℕ)
tag_of otk aad ciphertext = poly1305_mac otk (mac_data aad ciphertext)

-- `_seal_with_nonce`.
unfoldable pub seal_with_nonce : List ℕ → List ℕ → List ℕ → List ℕ → Result CryptoError (List ℕ)
seal_with_nonce key nonce plaintext aad = do
  otk ← chacha20_xor key nonce (replicate 32 0) 0
  ciphertext ← chacha20_xor key nonce plaintext 1
  tag ← tag_of otk aad ciphertext
  ok (nonce ++ (ciphertext ++ tag))

-- `seal(key, plaintext, aad)`, with the nonce that it draws.
unfoldable pub seal : List ℕ → List ℕ → List ℕ → List ℕ → Result CryptoError (List ℕ)
seal nonce key plaintext aad =
    if not (length key == 32) then err bad_key else seal_with_nonce key nonce plaintext aad

-- The end of `open_`, for the parts of the sealed value.
unfoldable pub open_parts : List ℕ → List ℕ → List ℕ → List ℕ → List ℕ → Result CryptoError (List ℕ)
open_parts key nonce ciphertext tag aad = do
  otk ← chacha20_xor key nonce (replicate 32 0) 0
  expected ← tag_of otk aad ciphertext
  if bytes_beq expected tag then chacha20_xor key nonce ciphertext 1 else err authentication_failed

-- `open_(key, sealed, aad)`.
unfoldable pub open_ : List ℕ → List ℕ → List ℕ → Result CryptoError (List ℕ)
open_ key sealed aad =
    if not (length key == 32)
    then err bad_key
    else if ltb (length sealed) (nonce_len + tag_len)
    then err authentication_failed
    else let end = length sealed - tag_len in
      open_parts key (take nonce_len sealed) (drop nonce_len (take end sealed)) (drop end sealed)
        aad
