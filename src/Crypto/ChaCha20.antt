-- ===== src/Crypto/ChaCha20.antt =====
-- crypto/chacha20.py. A word is a number below 2^32, and the state a list of sixteen of them.
pub mod Laws
use Prim.Native.Nat.{bit_or, bit_xor}
use coldwatch.Base.{
  ℕ, zero, suc, ◌+◌, ◌*◌, ◌/◌, ◌%◌, ◌^◌, ◌-◌, ◌≡◌, List, [], ◌∷◌, ◌++◌, not, ◌==◌, if◌then◌else◌,
  get_or, take, drop, length,
}
use coldwatch.Base.Bytes.{from_le, to_le}
use coldwatch.Base.Results.{Result, ok, err}
use coldwatch.Crypto.Xor.{zip_xor}

-- The ValueErrors of the package's lengths, and the failure of `open_`.
pub data CryptoError : Type 0 where
  bad_key bad_nonce authentication_failed : CryptoError

abbrev pub mask32 : ℕ → ℕ
mask32 x = x % 2 ^ 32

abbrev pub constants : List ℕ
constants = 0x61707865 ∷ 0x3320646E ∷ 0x79622D32 ∷ 0x6B206574 ∷ []

unfoldable pub rotl : ℕ → ℕ → ℕ
rotl x n = mask32 (bit_or (x * 2 ^ n) (x / 2 ^ (32 - n)))

-- `s[i] = v`.
unfoldable pub set : List ℕ → ℕ → ℕ → List ℕ
set [] i v = []
set (x ∷ xs) zero v = v ∷ xs
set (x ∷ xs) (suc i) v = x ∷ set xs i v

-- `s[x] = (s[x] + s[y]) & _MASK32`.
unfoldable pub add_into : ℕ → ℕ → List ℕ → List ℕ
add_into x y s = set s x (mask32 (get_or s x 0 + get_or s y 0))

-- `s[x] = _rotl(s[x] ^ s[y], n)`.
unfoldable pub turn_into : ℕ → ℕ → ℕ → List ℕ → List ℕ
turn_into x y n s = set s x (rotl (bit_xor (get_or s x 0) (get_or s y 0)) n)

unfoldable pub quarter_round : ℕ → ℕ → ℕ → ℕ → List ℕ → List ℕ
quarter_round a b c d s =
    let s1 = turn_into d a 16 (add_into a b s) in
    let s2 = turn_into b c 12 (add_into c d s1) in
    let s3 = turn_into d a 8 (add_into a b s2) in turn_into b c 7 (add_into c d s3)

-- One pass of the loop of `_block`.
unfoldable pub double_round : List ℕ → List ℕ
double_round s =
    let s1 =
      quarter_round 3 7 11 15
        (quarter_round 2 6 10 14 (quarter_round 1 5 9 13 (quarter_round 0 4 8 12 s))) in
    quarter_round 3 4 9 14
      (quarter_round 2 7 8 13 (quarter_round 1 6 11 12 (quarter_round 0 5 10 15 s1)))

unfoldable pub rounds : ℕ → List ℕ → List ℕ
rounds zero s = s
rounds (suc n) s = rounds n (double_round s)

-- `struct.unpack("<nI", bytes)`.
unfoldable pub words : ℕ → List ℕ → List ℕ
words zero bs = []
words (suc n) bs = from_le (take 4 bs) ∷ words n (drop 4 bs)

unfoldable pub initial : List ℕ → ℕ → List ℕ → List ℕ
initial key counter nonce = constants ++ (words 8 key ++ (mask32 counter ∷ words 3 nonce))

-- `struct.pack("<16I", *((working[i] + state[i]) & _MASK32 ...))`, for the words from `i` on.
unfoldable pub pack_sums : ℕ → ℕ → List ℕ → List ℕ → List ℕ
pack_sums zero i working state = []
pack_sums (suc n) i working state =
    to_le 4 (mask32 (get_or working i 0 + get_or state i 0)) ++ pack_sums n (i + 1) working state

unfoldable pub keystream_block : List ℕ → ℕ → List ℕ → List ℕ
keystream_block key counter nonce =
    let state = initial key counter nonce in pack_sums 16 0 (rounds 10 state) state

-- The loop of `chacha20_xor`, with `n` passes left.
unfoldable pub xor_chunks : ℕ → List ℕ → ℕ → List ℕ → List ℕ → List ℕ
xor_chunks zero key counter nonce xs = []
xor_chunks (suc n) key counter nonce xs =
    zip_xor (take 64 xs) (keystream_block key counter nonce)
    ++ xor_chunks n key (counter + 1) nonce (drop 64 xs)

-- `chacha20_xor(key, nonce, data, counter)`: a pass for each 64 bytes begun.
unfoldable pub chacha20_xor : List ℕ → List ℕ → List ℕ → ℕ → Result CryptoError (List ℕ)
chacha20_xor key nonce xs counter =
    if not (length key == 32)
    then err bad_key
    else if not (length nonce == 12)
    then err bad_nonce
    else ok (xor_chunks ((length xs + 63) / 64) key counter nonce xs)
