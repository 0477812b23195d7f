-- ===== src/Crypto/Tests.antt =====
-- Vectors of RFC 8439, and the theorems at small inputs.
use coldwatch.Base.{
  ℕ, ◌+◌, ◌/◌, ◌%◌, ◌^◌, ◌≡◌, refl, List, [], ◌∷◌, ◌++◌, length, take, drop, replicate, arith,
}
use coldwatch.Base.Bytes.{IsBytes, from_le, to_le}
use coldwatch.Base.Results.{ok}
use coldwatch.Crypto.Xor.{zip_xor}
use coldwatch.Crypto.ChaCha20.{
  rotl, set, add_into, turn_into, quarter_round, double_round, rounds, words, initial, pack_sums,
  keystream_block, xor_chunks, chacha20_xor,
}
use coldwatch.Crypto.ChaCha20.Laws.{chacha20_xor_twice}
use coldwatch.Crypto.Poly1305.{prime, block_number, absorb, point, poly1305_mac}
use coldwatch.Crypto.Poly1305.Laws.{blocks, polynomial, poly1305_mac-polynomial}
use coldwatch.Crypto.Aead.{pad16, mac_data, tag_of, seal, open_parts, open_}
use coldwatch.Crypto.Aead.Laws.{open-seal, open-only_sealed}

-- Section 2.1.1.
quarter_round_vector :
    quarter_round 0 1 2 3 (0x11111111 ∷ 0x01020304 ∷ 0x9b8d6f43 ∷ 0x01234567 ∷ [])
    ≡ 0xea2a92f4 ∷ 0xcb1cf8ce ∷ 0x4581472e ∷ 0x5881c4bb ∷ []
unfolding quarter_round turn_into add_into set rotl
quarter_round_vector = refl

-- The key 00 01 .. 1f of section 2.3.2.
abbrev count_up : ℕ → ℕ → List ℕ
count_up ℕ.zero b = []
count_up (ℕ.suc n) b = b ∷ count_up n (b + 1)

block_vector :
    take 8
      (keystream_block (count_up 32 0) 1 (0 ∷ 0 ∷ 0 ∷ 9 ∷ 0 ∷ 0 ∷ 0 ∷ 0x4a ∷ 0 ∷ 0 ∷ 0 ∷ 0 ∷ []))
    ≡ 0x10 ∷ 0xf1 ∷ 0xe7 ∷ 0xe4 ∷ 0xd1 ∷ 0x3b ∷ 0x59 ∷ 0x15 ∷ []
unfolding keystream_block initial words rounds double_round quarter_round turn_into add_into set
    rotl pack_sums from_le to_le
block_vector = refl

abbrev key : List ℕ
key = replicate 32 7

abbrev nonce : List ℕ
nonce = replicate 12 9

chacha20_xor_twice_example :
    (out : List ℕ) × (chacha20_xor key nonce (1 ∷ 2 ∷ []) 1 ≡ ok out)
    × IsBytes out
    × (length out ≡ 2)
    × (chacha20_xor key nonce out 1 ≡ ok (1 ∷ 2 ∷ []))
chacha20_xor_twice_example = chacha20_xor_twice key nonce (1 ∷ 2 ∷ []) 1 refl refl (omega arith)

poly1305_mac-polynomial_example :
    (tag : List ℕ) × (poly1305_mac key (3 ∷ 4 ∷ []) ≡ ok tag)
    × (length tag ≡ 16)
    × (from_le tag
        ≡ (polynomial (blocks ((2 + 15) / 16) (3 ∷ 4 ∷ [])) (point key) % prime
            + from_le (drop 16 key))
          % 2 ^ 128)
poly1305_mac-polynomial_example = poly1305_mac-polynomial key (3 ∷ 4 ∷ []) refl

open-seal_example :
    (sealed : List ℕ) × (seal nonce key (1 ∷ 2 ∷ []) (5 ∷ []) ≡ ok sealed)
    × (length sealed ≡ 2 + 28)
    × (open_ key sealed (5 ∷ []) ≡ ok (1 ∷ 2 ∷ []))
open-seal_example = open-seal key nonce (1 ∷ 2 ∷ []) (5 ∷ []) refl refl (omega arith)

-- The sealing of two bytes, and a check that it opens.
abbrev sealed : List ℕ
sealed =
    nonce
    ++ (253 ∷ 123 ∷ 10 ∷ 63 ∷ 45 ∷ 221 ∷ 49 ∷ 213 ∷ 56 ∷ 27 ∷ 208 ∷ 56 ∷ 143 ∷ 203 ∷ 13 ∷ 85 ∷ 198
        ∷ 127 ∷ [])

sealed_opens : open_ key sealed (5 ∷ []) ≡ ok (1 ∷ 2 ∷ [])
unfolding open_ open_parts tag_of mac_data pad16 chacha20_xor xor_chunks zip_xor keystream_block
    initial words rounds double_round quarter_round turn_into add_into set rotl pack_sums from_le
    to_le poly1305_mac absorb block_number point
sealed_opens = refl

open-only_sealed_example :
    (length key ≡ 32) × (seal (take 12 sealed) key (1 ∷ 2 ∷ []) (5 ∷ []) ≡ ok sealed)
open-only_sealed_example =
    open-only_sealed key sealed (1 ∷ 2 ∷ []) (5 ∷ []) (omega arith) sealed_opens
