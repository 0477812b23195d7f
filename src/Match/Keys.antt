-- ===== src/Match/Keys.antt =====
-- match/keys.py: the key derivation and the keyed hashes. `hmac` is HMAC-SHA256 of hashlib, a
-- parameter: a function of the key and the message.
pub mod Laws
pub mod Display
mod Tests
use coldwatch.Base.{
  ℕ, zero, suc, ◌+◌, ◌*◌, Bool, true, false, List, [], ◌∷◌, ◌++◌, ltb, leb, ◌==◌, ◌||◌, not,
  if◌then◌else◌, length, take, replicate,
}
use coldwatch.Base.Bytes.{to_le}
use coldwatch.Base.Results.{Result, ok, err, ◌>>=◌}

-- Each `raise ValueError(...)` of the module; `out_of_fuel` is no error of the program.
pub data KeysError : Type 0 where
  bad_length short_master bad_counter bad_txid bad_vout bad_hex out_of_fuel : KeysError

abbrev pub hash_len : ℕ
hash_len = 32

-- b"coldwatch/match/v1" and b"coldwatch/store/v1".
abbrev pub info_match : List ℕ
info_match =
    b'c' ∷ b'o' ∷ b'l' ∷ b'd' ∷ b'w' ∷ b'a' ∷ b't' ∷ b'c' ∷ b'h' ∷ b'/' ∷ b'm' ∷ b'a' ∷ b't' ∷ b'c'
    ∷ b'h' ∷ b'/' ∷ b'v' ∷ b'1' ∷ []

abbrev pub info_store : List ℕ
info_store =
    b'c' ∷ b'o' ∷ b'l' ∷ b'd' ∷ b'w' ∷ b'a' ∷ b't' ∷ b'c' ∷ b'h' ∷ b'/' ∷ b's' ∷ b't' ∷ b'o' ∷ b'r'
    ∷ b'e' ∷ b'/' ∷ b'v' ∷ b'1' ∷ []

-- b"spk" and b"outpoint".
abbrev pub tag_spk : List ℕ
tag_spk = b's' ∷ b'p' ∷ b'k' ∷ []

abbrev pub tag_outpoint : List ℕ
tag_outpoint = b'o' ∷ b'u' ∷ b't' ∷ b'p' ∷ b'o' ∷ b'i' ∷ b'n' ∷ b't' ∷ []

abbrev pub min_master_bytes : ℕ
min_master_bytes = 16

-- The keys that `derive_subkeys` returns; `match` and `store` in the source.
pub record Subkeys : Type 0 where
  pub match : List ℕ
  pub store : List ℕ

-- The message that `_tagged` authenticates.
unfoldable pub tagged_message : List ℕ → List ℕ → List ℕ
tagged_message tag payload = tag ++ (0 ∷ payload)

unfoldable pub canonical_outpoint : List ℕ → ℕ → Result KeysError (List ℕ)
canonical_outpoint txid vout =
    if not (length txid == 32)
    then err bad_txid
    else if not (leb vout 0xFFFFFFFF)
    then err bad_vout
    else ok (txid ++ to_le 4 vout)

module _ (hmac : List ℕ → List ℕ → List ℕ) where
  -- The loop of `hkdf`: `bytes([counter])` refuses a counter above 255.
  unfoldable pub expand : ℕ → List ℕ → List ℕ → ℕ → List ℕ → List ℕ → ℕ → Result KeysError (List ℕ)
  expand zero prk info size out block counter = err out_of_fuel
  expand (suc fuel) prk info size out block counter =
      let next = hmac prk (block ++ (info ++ (counter ∷ []))) in
      let more = expand fuel prk info size (out ++ next) next (counter + 1) in
      if not (ltb (length out) size)
      then ok (take size out)
      else if ltb 255 counter
      then err bad_counter
      else more

  -- `hkdf(ikm, info, salt, length)`.
  unfoldable pub hkdf : List ℕ → List ℕ → List ℕ → ℕ → Result KeysError (List ℕ)
  hkdf ikm info salt size =
      if ltb size 1 || ltb (255 * hash_len) size
      then err bad_length
      else let zeros : List ℕ = replicate hash_len 0 in
        let prk = hmac (if length salt == 0 then zeros else salt) ikm in
        expand (size + 1) prk info size [] [] 1

  unfoldable pub derive_subkeys : List ℕ → Result KeysError Subkeys
  derive_subkeys master = if ltb (length master) min_master_bytes then err short_master else do
    m ← hkdf master info_match [] hash_len
    s ← hkdf master info_store [] hash_len
    ok (record { match = m; store = s })

  unfoldable pub tagged : List ℕ → List ℕ → List ℕ → List ℕ
  tagged key tag payload = hmac key (tagged_message tag payload)

  unfoldable pub spk_hmac : List ℕ → List ℕ → List ℕ
  spk_hmac k_match spk = tagged k_match tag_spk spk

  unfoldable pub outpoint_hmac : List ℕ → List ℕ → ℕ → Result KeysError (List ℕ)
  outpoint_hmac k_match txid vout = do
    payload ← canonical_outpoint txid vout
    ok (tagged k_match tag_outpoint payload)
