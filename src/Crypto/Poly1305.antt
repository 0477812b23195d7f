-- ===== src/Crypto/Poly1305.antt =====
-- crypto/poly1305.py.
pub mod Laws
use Prim.Native.Nat.{bit_and, bit_or}
use coldwatch.Base.{
  ℕ, zero, suc, ◌+◌, ◌*◌, ◌/◌, ◌%◌, ◌^◌, ◌-◌, List, [], ◌∷◌, not, ◌==◌, if◌then◌else◌, take, drop,
  length,
}
use coldwatch.Base.Bytes.{from_le, to_le}
use coldwatch.Base.Results.{Result, ok, err}
use coldwatch.Crypto.ChaCha20.{CryptoError, bad_key}

abbrev pub prime : ℕ
prime = 2 ^ 130 - 5

abbrev pub r_clamp : ℕ
r_clamp = 0x0FFFFFFC0FFFFFFC0FFFFFFC0FFFFFFF

-- A block as a number, with a 1 bit behind its highest byte.
unfoldable pub block_number : List ℕ → ℕ
block_number chunk = bit_or (from_le chunk) (2 ^ (8 * length chunk))

-- The loop over the message, with `n` passes left.
unfoldable pub absorb : ℕ → ℕ → ℕ → List ℕ → ℕ
absorb zero acc r message = acc
absorb (suc n) acc r message =
    absorb n ((acc + block_number (take 16 message)) * r % prime) r (drop 16 message)

unfoldable pub point : List ℕ → ℕ
point key = bit_and (from_le (take 16 key)) r_clamp

-- `poly1305_mac(key, message)`: a pass for each 16 bytes begun.
unfoldable pub poly1305_mac : List ℕ → List ℕ → Result CryptoError (List ℕ)
poly1305_mac key message =
    if not (length key == 32)
    then err bad_key
    else let acc = absorb ((length message + 15) / 16) 0 (point key) message in
      ok (to_le 16 ((acc + from_le (drop 16 key)) % 2 ^ 128))
