-- ===== src/Match/Tx/RoundTrip.antt =====
-- `read_tx` reads back what the serialiser of `Wire` writes, wherever it stands in the buffer.
pub mod Parts
pub mod Whole
use coldwatch.Base.{
  ℕ, ◌+◌, ◌≡◌, refl, ap, ◌∙◌, sym, Bool, true, false, List, [], ◌∷◌, ◌++◌, length, ◌==◌,
  length-append, drop-append, append-nil, arith,
}
use coldwatch.Base.Results.{ok, err}
use coldwatch.Match.Tx.{trailing, parse_tx, read_tx, check_end}
use coldwatch.Match.Tx.Wire.{WireTx, IsWireTx, serialise, strip, decoded, encode_io, encode_witness}
use coldwatch.Match.Tx.Reads.{Rest}
use coldwatch.Match.Tx.RoundTrip.Whole

Rest-append : (before l : List ℕ) → Rest (before ++ l) (length before) l
Rest-append before l = record {
  follows = drop-append before l;
  fits = sym (length-append before l);
}

module _ (sha256 : List ℕ → List ℕ) (t : WireTx) (w : IsWireTx t) where
  -- Between any bytes, `read_tx` at the position of a serialised transaction returns its inputs
  -- (none for a coinbase), its outputs in order and the hash of its stripped form, with the
  -- position just behind it.
  pub read_tx-serialise :
      (before after : List ℕ)
      → read_tx sha256 (before ++ (serialise t ++ after)) (length before)
        ≡ ok (decoded sha256 t, length before + length (serialise t))
  read_tx-serialise before after =
      Whole.read_tx-serialise sha256 (before ++ (serialise t ++ after)) (length before) t w after
        (Rest-append before (serialise t ++ after))

  read_first :
      (after : List ℕ)
      → read_tx sha256 (serialise t ++ after) 0 ≡ ok (decoded sha256 t, length (serialise t))
  read_first after =
      read_tx-serialise [] after ∙ ap (λ (n : ℕ). ok (decoded sha256 t, n)) (omega arith)

  -- `parse_tx` returns a transaction that fills its buffer, and refuses one that bytes follow.
  pub parse_tx-serialise :
      (b : ℕ) (more : List ℕ)
      → (parse_tx sha256 (serialise t) ≡ ok (decoded sha256 t))
        × (parse_tx sha256 (serialise t ++ (b ∷ more)) ≡ err trailing)
  unfolding parse_tx
  parse_tx-serialise b more = (
    rw (rw append-nil at (read_first []), parse_tx) (ends_there (serialise t)),
    rw (read_first (b ∷ more), parse_tx) (ends_early (serialise t) b more),
  )
    where
      ends_there :
          (l : List ℕ) → check_end sha256 l (decoded sha256 t, length l) ≡ ok (decoded sha256 t)
      ends_there l = ground arith

      ends_early :
          (l : List ℕ) (b : ℕ) (more : List ℕ)
          → check_end sha256 (l ++ (b ∷ more)) (decoded sha256 t, length l) ≡ err trailing
      ends_early l b more = ground (arith, length-append l (b ∷ more))

legacy : WireTx → WireTx
legacy t = record t { segwit = false }

serialise-legacy : (t : WireTx) → serialise (legacy t) ≡ strip t
unfolding legacy serialise strip encode_io encode_witness
serialise-legacy t = refl

legacy-IsWireTx : (t : WireTx) → IsWireTx t → IsWireTx (legacy t)
unfolding legacy
legacy-IsWireTx t w = record {
  version = w.version;
  some_input = w.some_input;
  count_inputs = w.count_inputs;
  inputs = w.inputs;
  count_outputs = w.count_outputs;
  outputs = w.outputs;
  count_witness = w.count_witness;
  witness = w.witness;
  locktime = w.locktime;
}

decoded-legacy :
    (sha256 : List ℕ → List ℕ) (t : WireTx)
    → decoded sha256 (legacy t) ≡ record (decoded sha256 t) { has_witness = false }
unfolding legacy strip encode_io
decoded-legacy sha256 t = refl

-- A segwit transaction and its stripped form parse to the same txid, inputs and outputs: the
-- witnesses have no part in any of them.
pub parse_tx-strip :
    (sha256 : List ℕ → List ℕ) (t : WireTx)
    → IsWireTx t
    → (parse_tx sha256 (serialise t) ≡ ok (decoded sha256 t))
      × (parse_tx sha256 (strip t) ≡ ok (record (decoded sha256 t) { has_witness = false }))
parse_tx-strip sha256 t w = (
  (parse_tx-serialise sha256 t w 0 []).0,
  rw (serialise-legacy t, decoded-legacy sha256 t) at
      ((parse_tx-serialise sha256 (legacy t) (legacy-IsWireTx t w) 0 []).0),
)
