-- ===== src/Match/Block.antt =====
-- match/block.py: the raw-block parser. `struct.unpack_from` raises `struct.error`, which is neither
-- a `MalformedBlock` nor a `ValueError`, where its field does not fit the buffer.
pub mod Errors
pub mod Tiling
pub mod RoundTrip
mod Tests
use coldwatch.Base.{
  ℕ, zero, suc, ◌+◌, ◌*◌, Bool, true, false, List, [], ◌∷◌, ltb, ◌==◌, not, if◌then◌else◌, length,
  get_or, take, drop,
}
use coldwatch.Base.Bytes.{from_le}
use coldwatch.Base.Results.{Result, ok, err, ◌>>=◌}
use coldwatch.Match.Tx.{MalformedTransaction, Transaction, slice, read_tx, dsha256}

abbrev pub header_size : ℕ
header_size = 80

-- The messages of `MalformedBlock`.
pub data MalformedBlock : Type 0 where
  truncated_header no_transactions bad_count trailing : MalformedBlock
  bad_transaction : MalformedTransaction → MalformedBlock

-- What `parse_block` can raise.
pub data BlockError : Type 0 where
  malformed : MalformedBlock → BlockError
  struct_error : BlockError

pub record Block : Type 0 where
  pub block_hash : List ℕ
  pub prev_hash : List ℕ
  pub transactions : List Transaction

-- `struct.unpack_from` of one unsigned field of `width` bytes at `offset`.
unfoldable pub unpack_from : ℕ → List ℕ → ℕ → Result BlockError ℕ
unpack_from width raw offset =
    if ltb (length raw) (offset + width)
    then err struct_error
    else ok (from_le (slice raw offset (offset + width)))

-- The field of the count behind `first`, and the position behind it.
unfoldable pub wide_count : ℕ → List ℕ → ℕ → Result BlockError (ℕ × ℕ)
wide_count width raw pos = do n ← unpack_from width raw (pos + 1); ok (n, pos + 1 + width)

-- The count whose first byte, at `pos`, is `first`.
unfoldable pub count_from : ℕ → List ℕ → ℕ → Result BlockError (ℕ × ℕ)
count_from first raw pos =
    if ltb first 0xFD
    then ok (first, pos + 1)
    else if first == 0xFD
    then wide_count 2 raw pos
    else if first == 0xFE
    then wide_count 4 raw pos
    else wide_count 8 raw pos

-- The transaction count at `pos`, and the position behind it.
unfoldable pub read_count : List ℕ → ℕ → Result BlockError (ℕ × ℕ)
read_count raw pos = count_from (get_or raw pos 0) raw pos

module _ (sha256 : List ℕ → List ℕ) where
  -- The loop over the transactions: `count` passes from `pos` on.
  unfoldable pub read_transactions : ℕ → List ℕ → ℕ → Result BlockError (List Transaction × ℕ)
  read_transactions zero raw pos = ok ([], pos)
  read_transactions (suc count) raw pos = elim (read_tx sha256 raw pos) [
    | err e ↦ err (malformed (bad_transaction e))
    | ok (tx, next) ↦ read_transactions count raw next >>= λ (txs, end). ok (tx ∷ txs, end)
  ]

  -- The block, once its transactions are read.
  unfoldable pub close_block : List ℕ → List Transaction × ℕ → Result BlockError Block
  close_block raw (txs, pos) =
      if not (pos == length raw)
      then err (malformed trailing)
      else ok (record {
        block_hash = dsha256 sha256 (take header_size raw);
        prev_hash = slice (take header_size raw) 4 36;
        transactions = txs;
      })

  -- The tests of the count, and the loop.
  unfoldable pub read_counted : List ℕ → ℕ × ℕ → Result BlockError Block
  read_counted raw (count, pos) =
      if count == 0
      then err (malformed no_transactions)
      else if ltb (length raw) (count * 60 + pos)
      then err (malformed bad_count)
      else read_transactions count raw pos >>= close_block raw

  unfoldable pub parse_block : List ℕ → Result BlockError Block
  parse_block raw =
      if ltb (length raw) (header_size + 1)
      then err (malformed truncated_header)
      else read_count raw header_size >>= read_counted raw
