-- ===== src/Nostr/Nip44.antt =====
-- channels/nostr/nip44.py. A plaintext is its UTF-8 bytes and a payload its characters' codes. HMAC-SHA256
-- of hashlib is a parameter, and so is the test that bytes are UTF-8; the key that both sides derive
-- from the curve of coincurve is an argument.
pub mod Padding
pub mod RoundTrip
mod Tests
use coldwatch.Base.{
  ℕ, zero, suc, ◌+◌, ◌*◌, ◌-◌, ◌/◌, ◌%◌, ◌^◌, Bool, true, false, Option, none, some, List, [], ◌∷◌,
  ◌++◌, ◌||◌, ◌==◌, not, ltb, leb, if◌then◌else◌, length, take, drop, replicate,
}
use coldwatch.Base.Keys.{bytes_beq}
use coldwatch.Base.Results.{Result, ok, err, ◌>>=◌}
use coldwatch.Crypto.ChaCha20.{CryptoError, chacha20_xor}
use coldwatch.Nostr.Base64.{b64encode, b64decode}

-- Each `raise ValueError(...)` of the module and of what it calls; `out_of_fuel` is no error of the
-- program.
pub data Nip44Error : Type 0 where
  bad_conversation_key bad_nonce bad_plaintext_length bad_padding bad_aad bad_counter : Nip44Error
  unsupported_version bad_payload_size bad_base64 bad_data_size bad_mac bad_text : Nip44Error
  out_of_fuel : Nip44Error
  cipher : CryptoError → Nip44Error

abbrev pub version : ℕ
version = 2

abbrev pub min_payload_chars : ℕ
min_payload_chars = 132

abbrev pub min_decoded_bytes : ℕ
min_decoded_bytes = 99

abbrev pub extended_prefix_threshold : ℕ
extended_prefix_threshold = 65536

abbrev pub max_plaintext_size : ℕ
max_plaintext_size = 0xFFFFFFFF

-- `math.floor(math.log2(n))`, of at most 64 bits.
unfoldable pub floor_log2 : ℕ → ℕ → ℕ
floor_log2 zero n = 0
floor_log2 (suc fuel) n = let more = floor_log2 fuel (n / 2) in if ltb n 2 then 0 else more + 1

-- `_calc_padded_len`.
unfoldable pub next_power : ℕ → ℕ
next_power n = 2 ^ (floor_log2 64 (n - 1) + 1)

unfoldable pub chunk_size : ℕ → ℕ
chunk_size n = if leb (next_power n) 256 then 32 else next_power n / 8

unfoldable pub calc_padded_len : ℕ → ℕ
calc_padded_len n = if leb n 32 then 32 else chunk_size n * ((n - 1) / chunk_size n + 1)

-- `n.to_bytes(size, "big")` and `int.from_bytes(data, "big")`.
unfoldable pub to_be : ℕ → ℕ → List ℕ
to_be zero n = []
to_be (suc size) n = to_be size (n / 256) ++ n % 256 ∷ []

unfoldable pub from_be : ℕ → List ℕ → ℕ
from_be acc [] = acc
from_be acc (b ∷ bytes) = from_be (acc * 256 + b) bytes

unfoldable pub length_prefix : ℕ → List ℕ
length_prefix n = if leb extended_prefix_threshold n then 0 ∷ 0 ∷ to_be 4 n else to_be 2 n

-- `_pad`.
unfoldable pub pad : List ℕ → Result Nip44Error (List ℕ)
pad unpadded =
    let n = length unpadded in
    if ltb n 1 || ltb max_plaintext_size n
    then err bad_plaintext_length
    else ok (length_prefix n ++ (unpadded ++ replicate (calc_padded_len n - n) 0))

-- The end of `_unpad`, for a prefix that says how long the plaintext is.
unfoldable pub unpad_at : (List ℕ → Bool) → List ℕ → ℕ → ℕ → Result Nip44Error (List ℕ)
unpad_at is_utf8 padded prefix_len n =
    let unpadded = take n (drop prefix_len padded) in
    if n == 0
      || (not (length unpadded == n) || not (length padded == prefix_len + calc_padded_len n))
    then err bad_padding
    else if is_utf8 unpadded
    then ok unpadded
    else err bad_text

-- `_unpad`.
unfoldable pub unpad : (List ℕ → Bool) → List ℕ → Result Nip44Error (List ℕ)
unpad is_utf8 padded =
    let first_two = from_be 0 (take 2 padded) in
    let extended = from_be 0 (take 4 (drop 2 padded)) in
    if first_two == 0
    then (if ltb (length padded) 6
        then err bad_padding
        else if ltb extended extended_prefix_threshold
        then err bad_padding
        else unpad_at is_utf8 padded 6 extended)
    else unpad_at is_utf8 padded 2 first_two

-- An error of the cipher passes through.
unfoldable pub ciphered : Result CryptoError (List ℕ) → Result Nip44Error (List ℕ)
ciphered (ok bytes) = ok bytes
ciphered (err why) = err (cipher why)

-- `_decode_payload`: nonce, ciphertext and MAC.
unfoldable pub split_payload : List ℕ → Result Nip44Error (List ℕ × List ℕ × List ℕ)
split_payload [] = err unsupported_version
split_payload (v ∷ rest) =
    let size = length rest - 32 in
    if not (v == version)
    then err unsupported_version
    else ok (take 32 rest, drop 32 (take size rest), drop size rest)

unfoldable pub decode_payload : List ℕ → Result Nip44Error (List ℕ × List ℕ × List ℕ)
decode_payload payload =
    if length payload == 0 || bytes_beq (take 1 payload) (b'#' ∷ [])
    then err unsupported_version
    else if ltb (length payload) min_payload_chars
    then err bad_payload_size
    else elim (b64decode payload) [
      | none ↦ err bad_base64
      | some raw ↦
          if ltb (length raw) min_decoded_bytes then err bad_data_size else split_payload raw
    ]

module _ (hmac : List ℕ → List ℕ → List ℕ) where
  -- `_hkdf_extract`.
  unfoldable pub hkdf_extract : List ℕ → List ℕ → List ℕ
  hkdf_extract salt ikm = hmac salt ikm

  -- The loop of `_hkdf_expand`: `bytes([counter])` refuses a counter above 255.
  unfoldable pub hkdf_loop :
      ℕ → List ℕ → List ℕ → ℕ → List ℕ → List ℕ → ℕ → Result Nip44Error (List ℕ)
  hkdf_loop zero prk info size out t counter = err out_of_fuel
  hkdf_loop (suc fuel) prk info size out t counter =
      let next = hmac prk (t ++ (info ++ counter ∷ [])) in
      let more = hkdf_loop fuel prk info size (out ++ next) next (counter + 1) in
      if not (ltb (length out) size)
      then ok (take size out)
      else if ltb 255 counter
      then err bad_counter
      else more

  -- `_hkdf_expand`.
  unfoldable pub hkdf_expand : List ℕ → List ℕ → ℕ → Result Nip44Error (List ℕ)
  hkdf_expand prk info size = hkdf_loop (size + 1) prk info size [] [] 1

  -- `_get_message_keys`: the key and the nonce of the cipher, and the key of the MAC.
  unfoldable pub get_message_keys : List ℕ → List ℕ → Result Nip44Error (List ℕ × List ℕ × List ℕ)
  get_message_keys conversation_key nonce =
      if not (length conversation_key == 32)
      then err bad_conversation_key
      else if not (length nonce == 32)
      then err bad_nonce
      else do
        keys ← hkdf_expand conversation_key nonce 76
        ok (take 32 keys, take 12 (drop 32 keys), take 32 (drop 44 keys))

  -- `_hmac_aad`.
  unfoldable pub hmac_aad : List ℕ → List ℕ → List ℕ → Result Nip44Error (List ℕ)
  hmac_aad key message aad =
      if not (length aad == 32) then err bad_aad else ok (hmac key (aad ++ message))

  -- `encrypt(plaintext, conversation_key, nonce)`.
  unfoldable pub encrypt : List ℕ → List ℕ → List ℕ → Result Nip44Error (List ℕ)
  encrypt plaintext conversation_key nonce = do
    keys ← get_message_keys conversation_key nonce
    padded ← pad plaintext
    ciphertext ← ciphered (chacha20_xor keys.0 keys.1 padded 0)
    mac ← hmac_aad keys.2 ciphertext nonce
    ok (b64encode (version ∷ (nonce ++ (ciphertext ++ mac))))

  -- `decrypt(payload, conversation_key)`.
  unfoldable pub decrypt : (List ℕ → Bool) → List ℕ → List ℕ → Result Nip44Error (List ℕ)
  decrypt is_utf8 payload conversation_key = do
    parts ← decode_payload payload
    keys ← get_message_keys conversation_key parts.0
    mac ← hmac_aad keys.2 parts.1 parts.0
    if not (bytes_beq mac parts.2)
        then err bad_mac
        else do padded ← ciphered (chacha20_xor keys.0 keys.1 parts.1 0); unpad is_utf8 padded
