-- ===== src/Match/Block/Tiling.antt =====
-- What `parse_block` promises of a block that it returns.
use coldwatch.Base.{
  ℕ, zero, suc, ◌+◌, ◌*◌, ◌<◌, ◌≡◌, refl, ap, List, [], ◌∷◌, ltb, ◌==◌, length, take, arith,
  Bool-cases, inl, inr, subst, ==_iff,
}
use coldwatch.Base.Results.{Result, ok, ◌>>=◌, Result-cases, >>=-returned}
use coldwatch.Match.Tx.{Transaction, slice, read_tx, dsha256}
use coldwatch.Match.Block.{
  Block, BlockError, header_size, read_count, read_transactions, close_block, read_counted,
  parse_block,
}

module _ (sha256 : List ℕ → List ℕ) (raw : List ℕ) where
  -- The transactions stand back to back from a position to the end of the buffer, each one what
  -- `read_tx` returns where the one before it ended.
  pub data Tiles : ℕ → List Transaction → Type 0 where
    done : {pos : ℕ} → pos ≡ length raw → Tiles pos []
    tile :
        {pos next : ℕ} {tx : Transaction} {txs : List Transaction}
        → read_tx sha256 raw pos ≡ ok (tx, next)
        → Tiles next txs
        → Tiles pos (tx ∷ txs)

  read_transactions-Tiles :
      (n pos end : ℕ) (txs : List Transaction)
      → read_transactions sha256 n raw pos ≡ ok (txs, end)
      → end ≡ length raw
      → Tiles pos txs × (length txs ≡ n)
  unfolding read_transactions
  read_transactions-Tiles zero pos end txs e last =
      subst (λ l. Tiles pos l × (length l ≡ 0)) (cc) (done (cc), refl)
  read_transactions-Tiles (suc n) pos end txs e last =
      elim (Result-cases (read_tx sha256 raw pos)) [
        | inl ((tx, next), k) ↦
            let ((rest, end'), m, q) =
              >>=-returned (read_transactions sha256 n raw next) _
                (rw (k, read_transactions) at e) in
            let (tiles, count) = read_transactions-Tiles n next end' rest m (cc) in
            subst (λ l. Tiles pos l × (length l ≡ suc n)) (cc) (tile k tiles, ap suc count)
        | inr (x, k) ↦ cc (rw (k, read_transactions) at e)
      ]

  -- What `parse_block` promises of a block.
  pub record IsWhole (b : Block) : Type 0 where
    pub count : ℕ
    pub start : ℕ
    pub counted : read_count raw header_size ≡ ok (count, start)
    pub some_transaction : 0 < count
    pub as_many : length b.transactions ≡ count
    pub tiles : Tiles start b.transactions
    pub block_hash : b.block_hash ≡ dsha256 sha256 (take header_size raw)
    pub prev_hash : b.prev_hash ≡ slice (take header_size raw) 4 36
    pub header : header_size < length raw

  abbrev closed : List Transaction → Block
  closed txs = record {
    block_hash = dsha256 sha256 (take header_size raw);
    prev_hash = slice (take header_size raw) 4 36;
    transactions = txs;
  }

  close_block-closed :
      (txs : List Transaction) (end : ℕ) (b : Block)
      → close_block sha256 raw (txs, end) ≡ ok b
      → (end ≡ length raw) × (closed txs ≡ b)
  unfolding close_block
  close_block-closed txs end b e = elim (Bool-cases (end == length raw)) [
    | inl last ↦ ((==_iff end (length raw)).0 last, ok_eq (rw last at e))
    | inr short ↦ cc (rw short at e)
  ]
    where
      ok_eq : {a c : Block} → ◌≡◌ {A = Result BlockError Block} (ok a) (ok c) → a ≡ c
      ok_eq q = cc

  read_counted-run :
      (b : Block) (count start : ℕ)
      → read_counted sha256 raw (count, start) ≡ ok b
      → (0 < count) × ((read_transactions sha256 count raw start >>= close_block sha256 raw) ≡ ok b)
  unfolding read_counted
  read_counted-run b count start e = elim (Bool-cases (count == 0)) [
    | inl none_claimed ↦ cc (rw none_claimed at e)
    | inr some_claimed ↦ elim (Bool-cases (ltb (length raw) (count * 60 + start))) [
      | inl large ↦ cc (rw (some_claimed, large) at e)
      | inr fits ↦ (ground (arith, some_claimed), rw (some_claimed, fits) at e)
    ]
  ]

  read_counted-IsWhole :
      (b : Block) (count start : ℕ)
      → header_size < length raw
      → read_count raw header_size ≡ ok (count, start)
      → read_counted sha256 raw (count, start) ≡ ok b
      → IsWhole b
  read_counted-IsWhole b count start header counted e =
      let (some, run) = read_counted-run b count start e in
      let ((txs, end), m, q) =
        >>=-returned (read_transactions sha256 count raw start) (close_block sha256 raw) run in
      let (last, same) = close_block-closed txs end b q in
      let (tiles, as_many) = read_transactions-Tiles count start end txs m last in
      subst IsWhole same (record {
        count = count;
        start = start;
        counted = counted;
        some_transaction = some;
        as_many = as_many;
        tiles = tiles;
        block_hash = refl;
        prev_hash = refl;
        header = header;
      })

  -- A block is returned only whole: its transactions tile the buffer from behind the count to the
  -- end, as many as the count says and at least one, and its hashes are those of the first 80 bytes.
  pub parse_block-IsWhole : (b : Block) → parse_block sha256 raw ≡ ok b → IsWhole b
  unfolding parse_block
  parse_block-IsWhole b e = elim (Bool-cases (ltb (length raw) (header_size + 1))) [
    | inl short ↦ cc (rw (short, parse_block) at e)
    | inr long ↦
        let ((count, start), m, q) =
          >>=-returned (read_count raw header_size) (read_counted sha256 raw)
            (rw (long, parse_block) at e) in
        read_counted-IsWhole b count start (ground arith) m q
  ]
