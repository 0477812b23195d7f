-- ===== src/Match/Block/RoundTrip.antt =====
-- `parse_block` reads back a header and the transactions that the serialiser of `Tx.Wire` writes.
use coldwatch.Base.{
  ℕ, ◌+◌, ◌*◌, ◌^◌, ◌≤◌, ◌<◌, ◌≡◌, refl, ap, ◌∙◌, true, false, List, [], ◌∷◌, ◌++◌, map, ltb, ◌==◌,
  length, get_or, take, All, arith, Bool-cases, inl, inr, length-append, take-append, drop-append,
  le→ltb_false, ==_refl, All-map,
}
use coldwatch.Base.Bytes.{to_le, length-to_le, from_le-to_le}
use coldwatch.Base.Results.{ok}
use coldwatch.Match.Tx.{slice, dsha256}
use coldwatch.Match.Tx.Wire.{
  WireTx, IsWireTx, encode_varint, encode_each, encode_io, serialise, decoded,
}
use coldwatch.Match.Tx.Reads.{Rest, Rest-advance, Rest-slice}
use coldwatch.Match.Tx.RoundTrip.Parts.{
  byte_at, length-encode_inputs, length-encode_outputs, length-encode_varint_pos,
}
use coldwatch.Match.Tx.RoundTrip.Whole
use coldwatch.Match.Block.{
  Block, header_size, unpack_from, wide_count, count_from, read_count, read_transactions,
  close_block, read_counted, parse_block,
}

length-serialise-ge : (t : WireTx) → IsWireTx t → 51 + 9 * length t.outputs ≤ length (serialise t)
unfolding serialise encode_io
length-serialise-ge t w =
    rw
      (
        length-append, length-append, length-append, length-append, length-append, length-append,
        length-append, length-to_le, length-to_le,
      )
      (omega (
        arith,
        w.some_input,
        length-encode_inputs t.inputs w.inputs,
        length-encode_outputs t.outputs w.outputs,
        length-encode_varint_pos (length t.inputs),
        length-encode_varint_pos (length t.outputs),
      ))

module _ {raw : List ℕ} where
  wide_count-to_le :
      (k n pos : ℕ) (r : List ℕ)
      → n < 256 ^ k
      → Rest raw (pos + 1) (to_le k n ++ r)
      → wide_count k raw pos ≡ ok (n, pos + 1 + k)
  unfolding wide_count unpack_from
  wide_count-to_le k n pos r h e =
      let piece : slice raw (pos + 1) (pos + 1 + k) ≡ to_le k n =
        rw length-to_le at (Rest-slice (to_le k n) r e) in
      rw
        (
          le→ltb_false (length raw) (pos + 1 + k)
              (omega (arith, e.fits, length-append (to_le k n) r, length-to_le k n)),
          piece,
        )
        (ap (λ (v : ℕ). ok (v, pos + 1 + k)) (from_le-to_le k n h))

  -- Where the first byte of the count is `first`.
  first_of :
      (first pos : ℕ) (bs r : List ℕ)
      → Rest raw pos (first ∷ (bs ++ r))
      → (get_or raw pos 0 ≡ first) × Rest raw (pos + 1) (bs ++ r)
  first_of first pos bs r e = (byte_at 0 pos e (omega arith), Rest-advance (first ∷ []) (bs ++ r) e)

  -- Where the first byte announces a field of `k` bytes.
  wide_case :
      (first k n pos : ℕ) (r : List ℕ)
      → n < 256 ^ k
      → count_from first raw pos ≡ wide_count k raw pos
      → Rest raw pos (first ∷ (to_le k n ++ r))
      → read_count raw pos ≡ ok (n, pos + length (first ∷ to_le k n))
  unfolding read_count
  wide_case first k n pos r h form e =
      let (head, next) = first_of first pos (to_le k n) r e in
      rw head (
        form
        ∙ wide_count-to_le k n pos r h next
        ∙ ap (λ (p : ℕ). ok (n, p)) (omega (arith, length-to_le k n)))

  narrow_case :
      (n pos : ℕ) (r : List ℕ)
      → ltb n 0xFD ≡ true
      → Rest raw pos (n ∷ r)
      → read_count raw pos ≡ ok (n, pos + 1)
  unfolding read_count count_from
  narrow_case n pos r small e = rw ((first_of n pos [] r e).0, small)

  read_count-encode_varint :
      (n pos : ℕ) (r : List ℕ)
      → n < 2 ^ 64
      → Rest raw pos (encode_varint n ++ r)
      → read_count raw pos ≡ ok (n, pos + length (encode_varint n))
  unfolding encode_varint count_from
  read_count-encode_varint n pos r h e = elim (Bool-cases (ltb n 0xFD)) [
    | inl small ↦ rw small (narrow_case n pos r small (rw (small, encode_varint) at e))
    | inr l ↦ elim (Bool-cases (ltb n (2 ^ 16))) [
      | inl two ↦
          rw (l, two)
            (wide_case 0xFD 2 n pos r (ground arith) refl (rw (l, two, encode_varint) at e))
      | inr m ↦ elim (Bool-cases (ltb n (2 ^ 32))) [
        | inl four ↦
            rw (l, m, four)
              (wide_case 0xFE 4 n pos r (ground arith) refl (rw (l, m, four, encode_varint) at e))
        | inr o ↦
            rw (l, m, o)
              (wide_case 0xFF 8 n pos r (ground arith) refl (rw (l, m, o, encode_varint) at e))
      ]
    ]
  ]

module _ (sha256 : List ℕ → List ℕ) {raw : List ℕ} where
  read_transactions-serialise :
      (ts : List WireTx) (pos : ℕ)
      → All IsWireTx ts
      → Rest raw pos (encode_each serialise ts)
      → read_transactions sha256 (length ts) raw pos ≡ ok (map (decoded sha256) ts, length raw)
  unfolding read_transactions encode_each
  read_transactions-serialise [] pos w e = ap (λ (n : ℕ). ok ([], n)) (omega (arith, e.fits))
  read_transactions-serialise (t ∷ ts) pos (w, ws) e =
      let next : Rest raw (pos + length (serialise t)) (encode_each serialise ts) =
        Rest-advance (serialise t) (encode_each serialise ts) e in
      rw
        (Whole.read_tx-serialise sha256 raw pos t w (encode_each serialise ts) e, read_transactions)
        (rw (read_transactions-serialise ts (pos + length (serialise t)) ws next) refl)

abbrev pub serialise_block : List ℕ → List WireTx → List ℕ
serialise_block header ts = header ++ (encode_varint (length ts) ++ encode_each serialise ts)

-- A transaction that can be written and pays to some output.
abbrev pub IsPaying : WireTx → Type 0
IsPaying t = IsWireTx t × (0 < length t.outputs)

room_for_transactions :
    (ts : List WireTx) → All IsPaying ts → length ts * 60 ≤ length (encode_each serialise ts)
unfolding encode_each
room_for_transactions [] w = omega arith
room_for_transactions (t ∷ ts) ((w, pays), ws) =
    rw length-append (omega (arith, length-serialise-ge t w, room_for_transactions ts ws))

module _ (sha256 : List ℕ → List ℕ) (header : List ℕ) (ts : List WireTx) where
  abbrev raw : List ℕ
  raw = serialise_block header ts

  abbrev pub block : Block
  block = record {
    block_hash = dsha256 sha256 header;
    prev_hash = slice header 4 36;
    transactions = map (decoded sha256) ts;
  }

  module _ (eighty : length header ≡ 80) where
    at_count : Rest raw header_size (encode_varint (length ts) ++ encode_each serialise ts)
    at_count = record {
      follows =
          rw (← eighty)
            (drop-append header (encode_varint (length ts) ++ encode_each serialise ts));
      fits = rw (length-append header) (omega (arith, eighty));
    }

    take_header : take header_size raw ≡ header
    take_header =
        rw (← eighty) (take-append header (encode_varint (length ts) ++ encode_each serialise ts))

    close-raw : close_block sha256 raw (map (decoded sha256) ts, length raw) ≡ ok block
    unfolding close_block
    close-raw = rw (==_refl (length raw), take_header) refl

    counted :
        0 < length ts
        → All IsPaying ts
        → read_counted sha256 raw (length ts, header_size + length (encode_varint (length ts)))
          ≡ ok block
    unfolding read_counted
    counted some paying =
        let start = header_size + length (encode_varint (length ts)) in
        let e : Rest raw start (encode_each serialise ts) =
          Rest-advance (encode_varint (length ts)) (encode_each serialise ts) at_count in
        let some' : (length ts == 0) ≡ false = ground arith in
        rw
          (
            some',
            le→ltb_false (length raw) (length ts * 60 + start)
                (omega (arith, room_for_transactions ts paying, e.fits)),
            read_transactions-serialise sha256 ts start (All-map _ _ ts (λ t w. w.0) paying) e,
          )
          close-raw

  -- A header of 80 bytes, the count and the transactions, each paying to some output: the parser
  -- returns them all, with the hash of the header and the parent that the header names.
  pub parse_block-serialise :
      length header ≡ 80
      → 0 < length ts
      → length ts < 2 ^ 64
      → All IsPaying ts
      → parse_block sha256 raw ≡ ok block
  unfolding parse_block
  parse_block-serialise eighty some few paying =
      let e = at_count eighty in
      rw
        (
          le→ltb_false (length raw) (header_size + 1) (
              omega (
                arith,
                e.fits,
                length-append (encode_varint (length ts)) (encode_each serialise ts),
                length-encode_varint_pos (length ts),
              )),
          read_count-encode_varint (length ts) header_size (encode_each serialise ts) few e,
        )
        (counted eighty some paying)
