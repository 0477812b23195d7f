-- ===== src/Match/Samples.antt =====
-- A transaction and a hash function for the tests.
use coldwatch.Base.{ℕ, ◌+◌, List, [], ◌∷◌, true, replicate, arith}
use coldwatch.Base.Bytes.{from_le, to_le}
use coldwatch.Match.Tx.Wire.{WireTx, IsWireTx}

-- A function in place of hashlib's.
abbrev pub toy_hash : List ℕ → List ℕ
toy_hash l = to_le 32 (from_le l + 1)

abbrev pub payment : WireTx
payment = record {
  version = 2;
  segwit = true;
  inputs = record { txid = replicate 32 7; vout = 1; script = []; sequence = 5 } ∷ [];
  outputs = record { value = 90; spk = 0x51 ∷ [] } ∷ [];
  witness = ((1 ∷ 2 ∷ []) ∷ []) ∷ [];
  locktime = 0;
}

pub payment-IsWireTx : IsWireTx payment
payment-IsWireTx = omega arith
