-- ===== src/Match/Tx/Tests.antt =====
-- A small transaction, run through the parser, and the theorems at it.
use coldwatch.Base.{◌+◌, ◌≡◌, refl, false, [], ◌∷◌, ◌++◌, length, arith, append-nil}
use coldwatch.Base.Bytes.{IsBytes, from_le, to_le}
use coldwatch.Base.Results.{ok, err}
use coldwatch.Match.Tx.{
  truncated, no_inputs, read_tx, parse_tx, read_body, count, varint, varint_from, uint, take_bytes,
  marker,
}
use coldwatch.Match.Tx.Wire.{
  serialise, strip, decoded, encode_io, encode_witness, encode_each, encode_input, encode_output,
  encode_items, encode_sized, encode_varint,
}
use coldwatch.Match.Samples.{toy_hash, payment, payment-IsWireTx}
use coldwatch.Match.Tx.RoundTrip.{read_tx-serialise, parse_tx-strip}
use coldwatch.Match.Tx.Bounds.{IsParsed, read_tx-IsParsed}

cut_short : parse_tx toy_hash (1 ∷ 0 ∷ 0 ∷ []) ≡ err truncated
unfolding parse_tx read_tx read_body uint take_bytes
cut_short = refl

none_claimed : parse_tx toy_hash (1 ∷ 0 ∷ 0 ∷ 0 ∷ 0 ∷ []) ≡ err no_inputs
unfolding parse_tx read_tx read_body uint take_bytes from_le marker count varint varint_from
none_claimed = refl

read_tx-serialise_example :
    read_tx toy_hash ((9 ∷ 9 ∷ []) ++ (serialise payment ++ (8 ∷ []))) 2
    ≡ ok (decoded toy_hash payment, 2 + length (serialise payment))
read_tx-serialise_example =
    read_tx-serialise toy_hash payment payment-IsWireTx (9 ∷ 9 ∷ []) (8 ∷ [])

parse_tx-strip_example :
    (parse_tx toy_hash (serialise payment) ≡ ok (decoded toy_hash payment))
    × (parse_tx toy_hash (strip payment)
        ≡ ok (record (decoded toy_hash payment) { has_witness = false }))
parse_tx-strip_example = parse_tx-strip toy_hash payment payment-IsWireTx

payment-IsBytes : IsBytes (serialise payment)
unfolding serialise encode_io encode_witness encode_each encode_input encode_output encode_items
    encode_sized encode_varint to_le
payment-IsBytes = omega arith

payment_read :
    read_tx toy_hash (serialise payment) 0
    ≡ ok (decoded toy_hash payment, length (serialise payment))
unfolding serialise to_le encode_io encode_varint encode_each encode_input encode_sized
    encode_output encode_witness encode_items
payment_read = rw append-nil at (read_tx-serialise toy_hash payment payment-IsWireTx [] [])

read_tx-IsParsed_example :
    IsParsed toy_hash (serialise payment) 0 (decoded toy_hash payment) (length (serialise payment))
read_tx-IsParsed_example =
    read_tx-IsParsed toy_hash payment-IsBytes 0 (decoded toy_hash payment)
      (length (serialise payment)) payment_read
