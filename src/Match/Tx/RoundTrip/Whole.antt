-- ===== src/Match/Tx/RoundTrip/Whole.antt =====
-- The whole of a serialised transaction, anywhere in a buffer.
use coldwatch.Base.{
  ℕ, ◌+◌, ◌*◌, ◌≤◌, ◌<◌, ◌≡◌, ap, ◌∙◌, subst, Bool, true, false, List, [], ◌++◌, ◌==◌,
  if◌then◌else◌, length, get_or, length-append, append-nil, append_assoc, arith, le→ltb_false,
  Bool-cases, inl, inr,
}
use coldwatch.Base.Bytes.{to_le, length-to_le}
use coldwatch.Base.Results.{ok}
use coldwatch.Match.Tx.{
  Reader, TxOutput, raise, no_inputs, ◌>>=◌, ◌>>◌, read_tail, Transaction, pure, tell, slice, uint,
  count, read_outputs, skip_witnesses, preimage, dsha256, marker, finish, read_rest, read_body,
  read_tx,
}
use coldwatch.Match.Tx.Wire.{
  encode_varint, encode_each, encode_input, encode_output, encode_marker, encode_io, encode_witness,
  serialise, strip, WireTx, IsWireTx, outpoints, numbered, decoded,
}
use coldwatch.Match.Tx.Reads.{
  Rest, Rest-advance, Rest-slice, Reads, Reads-bind, Reads-pure, Reads-uint, Reads-count,
}
use coldwatch.Match.Tx.RoundTrip.Parts.{
  Reads-inputs, Reads-outputs, Reads-witnesses, Reads-marker, length-encode_inputs,
  length-encode_outputs,
}

-- `tell` reads nothing.
Reads-tell :
    {B : Type 0} {buf : List ℕ} {pos : ℕ} {r : List ℕ} (f : ℕ → Reader B) {cs : List ℕ} {b : B}
    → Reads buf pos r (f pos) cs b
    → Reads buf pos r (tell >>= f) cs b
Reads-tell f h = record { run = λ e. h.run e }

-- A last step that reads nothing.
Reads-last :
    {A B : Type 0} {buf : List ℕ} {pos : ℕ} {r : List ℕ} {m : Reader A} (f : A → Reader B)
    {bs : List ℕ} {a : A} {b : B}
    → Reads buf pos r m bs a
    → Reads buf (pos + length bs) r (f a) [] b
    → Reads buf pos r (m >>= f) bs b
Reads-last {buf = buf} {pos} {r} {m} f {bs} {a} {b} hm hf =
    subst (λ l. Reads buf pos r (m >>= f) l b) (append-nil bs) (Reads-bind f hm hf)

preimage_segwit :
    (raw : List ℕ) (start : ℕ) (segwit : Bool) (ws ls end : ℕ)
    → segwit ≡ true
    → preimage raw start segwit ws ls end
      ≡ slice raw start (start + 4) ++ (slice raw (start + 6) ws ++ slice raw ls end)
unfolding preimage
preimage_segwit raw start segwit ws ls end h = rw h

preimage_legacy :
    (raw : List ℕ) (start : ℕ) (segwit : Bool) (ws ls end : ℕ)
    → segwit ≡ false
    → preimage raw start segwit ws ls end ≡ slice raw start end
unfolding preimage
preimage_legacy raw start segwit ws ls end h = rw h

serialise_legacy : (t : WireTx) → t.segwit ≡ false → serialise t ≡ strip t
unfolding serialise strip encode_witness
serialise_legacy t h = rw h

varint_not_zero : (n : ℕ) (l : List ℕ) → 0 < n → (get_or (encode_varint n ++ l) 0 0 == 0) ≡ false
unfolding encode_varint
varint_not_zero n l h = ground arith

module _ (sha256 : List ℕ → List ℕ) (buf : List ℕ) (start : ℕ) (t : WireTx) (w : IsWireTx t) where
  -- What the parser returns where it noted these positions.
  abbrev result : ℕ → ℕ → ℕ → Transaction
  result witness_start locktime_start end = record (decoded sha256 t) {
    txid = dsha256 sha256 (preimage buf start t.segwit witness_start locktime_start end);
  }

  abbrev behind_inputs : List ℕ
  behind_inputs =
      encode_varint (length t.outputs)
      ++ (encode_each encode_output t.outputs ++ (encode_witness t ++ to_le 4 t.locktime))

  abbrev past_outputs : ℕ → ℕ
  past_outputs pos =
      pos
      + length (encode_each encode_input t.inputs)
      + length (encode_varint (length t.outputs))
      + length (encode_each encode_output t.outputs)

  abbrev result_at : ℕ → Transaction
  result_at ws =
      let ls = ws + length (encode_witness t) in result ws ls (ls + length (to_le 4 t.locktime))

  Reads-finish :
      {pos : ℕ} {r : List ℕ} (ws ls end : ℕ)
      → Reads buf pos r
          (finish sha256 start t.segwit (outpoints t.inputs) (numbered 0 t.outputs) ws ls end)
          []
          (result ws ls end)
  unfolding finish
  Reads-finish ws ls end = record {
    run = λ e. ap (λ (n : ℕ). ok (result ws ls end, n)) (omega arith);
  }

  Reads-witness_section :
      {pos : ℕ} {r : List ℕ}
      → Reads buf pos r
          (if t.segwit then skip_witnesses (length t.inputs) else pure tt)
          (encode_witness t)
          tt
  unfolding encode_witness
  Reads-witness_section {pos} {r} = elim (Bool-cases t.segwit) [
    | inl s ↦ rw (s, ← w.count_witness) (Reads-witnesses t.witness w.witness)
    | inr s ↦ rw s Reads-pure
  ]

  Reads-tail :
      {r : List ℕ} (ws : ℕ)
      → Reads buf ws r
          (read_tail sha256 start t.segwit
            (length t.inputs)
            (outpoints t.inputs)
            (numbered 0 t.outputs)
            ws)
          (encode_witness t ++ to_le 4 t.locktime)
          (result_at ws)
  unfolding read_tail
  Reads-tail ws =
      let ls = ws + length (encode_witness t) in
      let last : ℕ → ℕ → Reader Transaction = λ ls end.
        finish sha256 start t.segwit (outpoints t.inputs) (numbered 0 t.outputs) ws ls end in
      Reads-bind (λ _. tell >>= λ ls. uint 4 >> (tell >>= last ls)) Reads-witness_section
        (Reads-tell (λ ls. uint 4 >> (tell >>= last ls))
          (Reads-last (λ _. tell >>= last ls) (Reads-uint 4 t.locktime (omega (arith, w.locktime)))
            (Reads-tell (last ls) (Reads-finish ws ls (ls + length (to_le 4 t.locktime))))))

  room_for_outputs :
      (r : List ℕ)
      → length t.outputs * 9
        ≤ length
            ((encode_each encode_output t.outputs ++ (encode_witness t ++ to_le 4 t.locktime)) ++ r)
  room_for_outputs r =
      rw (length-append, length-append) (omega (arith, length-encode_outputs t.outputs w.outputs))

  Reads-rest :
      {pos : ℕ} {r : List ℕ}
      → Reads buf pos r
          (read_rest sha256 start t.segwit (length t.inputs))
          (encode_each encode_input t.inputs ++ behind_inputs)
          (result_at (past_outputs pos))
  unfolding read_rest
  Reads-rest {pos} {r} =
      let tail : List TxOutput → ℕ → Reader Transaction =
        λ outs ws. read_tail sha256 start t.segwit (length t.inputs) (outpoints t.inputs) outs ws in
      Reads-bind _ (Reads-inputs t.inputs w.inputs) (
        Reads-bind (λ n. read_outputs n 0 >>= λ outs. tell >>= tail outs)
          (Reads-count 9 (length t.outputs) w.count_outputs (room_for_outputs r))
          (Reads-bind (λ outs. tell >>= tail outs) (Reads-outputs t.outputs 0 w.outputs)
            (Reads-tell (tail (numbered 0 t.outputs)) (Reads-tail (past_outputs pos)))))

  -- Everything behind the marker, as the parser takes it apart.
  io_and_tail :
      encode_io t ++ (encode_witness t ++ to_le 4 t.locktime)
      ≡ encode_varint (length t.inputs) ++ (encode_each encode_input t.inputs ++ behind_inputs)
  unfolding encode_io
  io_and_tail = simp append_assoc

  room_for_inputs :
      (r : List ℕ)
      → length t.inputs * 41 ≤ length ((encode_each encode_input t.inputs ++ behind_inputs) ++ r)
  room_for_inputs r =
      rw (length-append, length-append) (omega (arith, length-encode_inputs t.inputs w.inputs))

  -- The position behind the count of inputs.
  abbrev io_start : ℕ
  io_start = start + 4 + length (encode_marker t.segwit)

  Reads-io :
      {pos : ℕ} {r : List ℕ}
      → Reads buf pos r
          (do n ← count 41; if n == 0 then raise no_inputs else read_rest sha256 start t.segwit n)
          (encode_io t ++ (encode_witness t ++ to_le 4 t.locktime))
          (result_at (past_outputs (pos + length (encode_varint (length t.inputs)))))
  Reads-io {pos} {r} =
      let some_inputs : (length t.inputs == 0) ≡ false = ground (arith, w.some_input) in
      rw io_and_tail (
        Reads-bind (λ n. if n == 0 then raise no_inputs else read_rest sha256 start t.segwit n)
          (Reads-count 41 (length t.inputs) w.count_inputs (room_for_inputs r))
          (rw some_inputs Reads-rest))

  Reads-body :
      {r : List ℕ}
      → Reads buf start r
          (read_body sha256 start)
          (serialise t)
          (result_at (past_outputs (io_start + length (encode_varint (length t.inputs)))))
  unfolding read_body serialise
  Reads-body {r} =
      Reads-bind (λ _. marker start >>= io) (Reads-uint 4 t.version (omega (arith, w.version)))
        (rw length-to_le (Reads-bind io (Reads-marker start t.segwit first_count) Reads-io))
    where
      io : Bool → Reader Transaction
      io segwit = do
        n ← count 41
        if n == 0 then raise no_inputs else read_rest sha256 start segwit n

      first_count :
          t.segwit ≡ false
          → (get_or ((encode_io t ++ (encode_witness t ++ to_le 4 t.locktime)) ++ r) 0 0 == 0)
            ≡ false
      first_count _ =
          rw (io_and_tail, append_assoc) (varint_not_zero (length t.inputs) _ w.some_input)

  abbrev outputs_end : ℕ
  outputs_end = past_outputs (io_start + length (encode_varint (length t.inputs)))

  abbrev lock_start : ℕ
  lock_start = outputs_end + length (encode_witness t)

  length-io : outputs_end ≡ io_start + length (encode_io t)
  unfolding encode_io
  length-io = rw (length-append, length-append, length-append) (omega arith)

  length-serialise : start + length (serialise t) ≡ lock_start + 4
  unfolding serialise
  length-serialise =
      rw (length-append, length-append, length-append, length-append, length-to_le, length-to_le)
        (omega (arith, length-io))

  module _ (r : List ℕ) (e : Rest buf start (serialise t ++ r)) where
    at_version : Rest buf start (
        to_le 4 t.version
        ++ (encode_marker t.segwit
            ++ (encode_io t ++ (encode_witness t ++ (to_le 4 t.locktime ++ r)))))
    unfolding serialise
    at_version = simp append_assoc at e

    at_io : Rest buf io_start (encode_io t ++ (encode_witness t ++ (to_le 4 t.locktime ++ r)))
    at_io =
        let behind : List ℕ = encode_io t ++ (encode_witness t ++ (to_le 4 t.locktime ++ r)) in
        Rest-advance (encode_marker t.segwit) behind (
          rw length-to_le at
            (Rest-advance (to_le 4 t.version) (encode_marker t.segwit ++ behind) at_version))

    at_lock : Rest buf lock_start (to_le 4 t.locktime ++ r)
    at_lock = Rest-advance (encode_witness t) (to_le 4 t.locktime ++ r) (
        rw (← length-io) at
          (Rest-advance (encode_io t) (encode_witness t ++ (to_le 4 t.locktime ++ r)) at_io))

    slice_version : slice buf start (start + 4) ≡ to_le 4 t.version
    slice_version = rw length-to_le at (Rest-slice (to_le 4 t.version) _ at_version)

    slice_io : slice buf io_start outputs_end ≡ encode_io t
    slice_io = rw length-io (Rest-slice (encode_io t) _ at_io)

    slice_lock : slice buf lock_start (lock_start + 4) ≡ to_le 4 t.locktime
    slice_lock = rw length-to_le at (Rest-slice (to_le 4 t.locktime) r at_lock)

    -- What is hashed is the stripped serialisation.
    preimage-strip : preimage buf start t.segwit outputs_end lock_start (lock_start + 4) ≡ strip t
    unfolding strip
    preimage-strip = elim (Bool-cases t.segwit) [
      | inl s ↦
          let six : start + 6 ≡ io_start = rw s (omega arith) in
          preimage_segwit buf start t.segwit outputs_end lock_start (lock_start + 4) s
          ∙ rw (six, slice_version, slice_io, slice_lock)
      | inr s ↦
          preimage_legacy buf start t.segwit outputs_end lock_start (lock_start + 4) s
          ∙ rw (← length-serialise) (Rest-slice (serialise t) r e)
          ∙ serialise_legacy t s
    ]

    pub read_tx-serialise :
        read_tx sha256 buf start ≡ ok (decoded sha256 t, start + length (serialise t))
    unfolding read_tx
    read_tx-serialise = rw (le→ltb_false (length buf) start (omega (arith, e.fits))) (
        Reads-body.run e
        ∙ ap
            (λ x.
              ok (
                record (decoded sha256 t) { txid = dsha256 sha256 x },
                start + length (serialise t),
              ))
            (rw length-to_le preimage-strip))
