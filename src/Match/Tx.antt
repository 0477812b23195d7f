-- ===== src/Match/Tx.antt =====
-- match/tx.py: the raw-transaction parser. A method of `_Reader` is a function of the buffer, of
-- the position where it starts and, if it returns, of the position that it leaves. `sha256` is
-- hashlib's, a parameter.
pub mod Wire
pub mod Reads
pub mod RoundTrip
pub mod Ensures
pub mod Loops
pub mod Bounds
mod Tests
use coldwatch.Base.{
  ℕ, zero, suc, ◌+◌, ◌*◌, ◌-◌, Bool, true, false, List, [], ◌∷◌, ◌++◌, ltb, leb, ◌==◌, ◌&&◌, not,
  if◌then◌else◌, length, get_or, take, drop, replicate,
}
use coldwatch.Base.Keys.{bytes_beq}
use coldwatch.Base.Bytes.{from_le}
use coldwatch.Base.Results.{Result, ok, err}

-- The messages of `MalformedTransaction`.
pub data MalformedTransaction : Type 0 where
  truncated bad_count past_end zero_flag no_inputs trailing : MalformedTransaction

-- A method of `_Reader` on the buffer `buf`, from a position to a value and a new position.
abbrev pub Reader : Type 0 → Type 0
Reader A = List ℕ → ℕ → Result MalformedTransaction (A × ℕ)

infixl 5 ◌>>=◌ ◌>>◌
abbrev pub ◌>>=◌ : {A B : Type 0} → Reader A → (A → Reader B) → Reader B
◌>>=◌ m f buf pos = elim (m buf pos) [ err e ↦ err e | ok (a, pos') ↦ f a buf pos' ]

abbrev pub ◌>>◌ : {A B : Type 0} → Reader A → Reader B → Reader B
m >> k = m >>= λ _. k

abbrev pub pure : {A : Type 0} → A → Reader A
pure a buf pos = ok (a, pos)

abbrev pub raise : {A : Type 0} → MalformedTransaction → Reader A
raise e buf pos = err e

-- `buf[a:b]`.
abbrev pub slice : List ℕ → ℕ → ℕ → List ℕ
slice buf a b = take (b - a) (drop a buf)

-- `take(n)`; the callers' `n` are never negative.
unfoldable pub take_bytes : ℕ → Reader (List ℕ)
take_bytes n buf pos =
    if ltb (length buf) (pos + n) then err truncated else ok (slice buf pos (pos + n), pos + n)

-- `uint32()`, and the other unsigned fields that `varint()` unpacks.
unfoldable pub uint : ℕ → Reader ℕ
uint width = do b ← take_bytes width; pure (from_le b)

-- `varint()` behind its first byte.
unfoldable pub varint_from : ℕ → Reader ℕ
varint_from first =
    if ltb first 0xFD
    then pure first
    else if first == 0xFD
    then uint 2
    else if first == 0xFE
    then uint 4
    else uint 8

unfoldable pub varint : Reader ℕ
varint = do b ← take_bytes 1; varint_from (get_or b 0 0)

-- The test `n * min_item_bytes > len(self.buf) - self.pos`, where the difference may be negative.
check_count : ℕ → ℕ → Reader ℕ
check_count min_item_bytes n buf pos =
    if ltb (length buf) (n * min_item_bytes + pos) then err bad_count else ok (n, pos)

-- `count(min_item_bytes)`.
unfoldable pub count : ℕ → Reader ℕ
unfolding check_count
count min_item_bytes = do n ← varint; check_count min_item_bytes n

pub record OutPoint : Type 0 where
  pub txid : List ℕ
  pub vout : ℕ

pub record TxOutput : Type 0 where
  pub vout : ℕ
  pub spk : List ℕ

pub record Transaction : Type 0 where
  pub txid : List ℕ
  pub inputs : List OutPoint
  pub outputs : List TxOutput
  pub is_coinbase : Bool
  pub has_witness : Bool

abbrev pub null_txid : List ℕ
null_txid = replicate 32 0

abbrev pub coinbase_vout : ℕ
coinbase_vout = 0xFFFFFFFF

-- The scripts and witness items: a count of bytes, then the bytes.
unfoldable pub sized_bytes : Reader (List ℕ)
sized_bytes = do n ← count 1; take_bytes n

-- One pass of the loop over the inputs.
unfoldable pub read_input : Reader OutPoint
read_input = do
  txid ← take_bytes 32
  vout ← uint 4
  sized_bytes
  uint 4
  pure (record { txid = txid; vout = vout })

unfoldable pub read_inputs : ℕ → Reader (List OutPoint)
read_inputs zero = pure []
read_inputs (suc n) = do op ← read_input; ops ← read_inputs n; pure (op ∷ ops)

-- One pass of the loop over the outputs; the value is read past.
unfoldable pub read_output : ℕ → Reader TxOutput
read_output vout = do take_bytes 8; spk ← sized_bytes; pure (record { vout = vout; spk = spk })

-- `for vout in range(n_out)`, from `vout` on with `n` passes left.
unfoldable pub read_outputs : ℕ → ℕ → Reader (List TxOutput)
read_outputs zero vout = pure []
read_outputs (suc n) vout = do
  out ← read_output vout
  outs ← read_outputs n (vout + 1)
  pure (out ∷ outs)

-- The inner loop over one input's witness items.
unfoldable pub skip_items : ℕ → Reader (Unit {0})
skip_items zero = pure tt
skip_items (suc n) = do sized_bytes; skip_items n

-- `for _ in range(r.count(1)): r.take(r.count(1))`.
unfoldable pub skip_witness : Reader (Unit {0})
skip_witness = do items ← count 1; skip_items items

-- `for _ in range(n_in)` over the witnesses.
unfoldable pub skip_witnesses : ℕ → Reader (Unit {0})
skip_witnesses zero = pure tt
skip_witnesses (suc n) = do skip_witness; skip_witnesses n

is_coinbase_input : OutPoint → Bool
is_coinbase_input op = bytes_beq op.txid null_txid && op.vout == coinbase_vout

-- `len(inputs) == 1 and inputs[0].txid == NULL_TXID and inputs[0].vout == COINBASE_VOUT`.
unfoldable pub is_coinbase_of : List OutPoint → Bool
unfolding is_coinbase_input
is_coinbase_of (op ∷ []) = is_coinbase_input op
is_coinbase_of _ = false

-- The BIP144 marker and flag, at the position behind the version.
unfoldable pub marker : ℕ → Reader Bool
marker start buf =
    if leb (start + 6) (length buf) && get_or buf (start + 4) 0 == 0
    then (if get_or buf (start + 5) 0 == 0
        then raise zero_flag buf
        else (do take_bytes 2; pure true) buf)
    else pure false buf

-- `r.pos`.
abbrev pub tell : Reader ℕ
tell buf pos = ok (pos, pos)

-- The serialisation that the txid hashes, between the positions that the parser noted.
unfoldable pub preimage : List ℕ → ℕ → Bool → ℕ → ℕ → ℕ → List ℕ
preimage raw start has_witness witness_start locktime_start end =
    if not has_witness
    then slice raw start end
    else slice raw start (start + 4)
      ++ (slice raw (start + 6) witness_start ++ slice raw locktime_start end)

module _ (sha256 : List ℕ → List ℕ) where
  unfoldable pub dsha256 : List ℕ → List ℕ
  dsha256 d = sha256 (sha256 d)

  -- The result of `read_tx`, from what it read and the positions that it noted.
  unfoldable pub finish : ℕ → Bool → List OutPoint → List TxOutput → ℕ → ℕ → ℕ → Reader Transaction
  finish start has_witness inputs outputs witness_start locktime_start end raw pos = ok (
    record {
      txid = dsha256 (preimage raw start has_witness witness_start locktime_start end);
      inputs = if is_coinbase_of inputs then [] else inputs;
      outputs = outputs;
      is_coinbase = is_coinbase_of inputs;
      has_witness = has_witness;
    },
    pos,
  )

  -- What `read_tx` reads behind the outputs: the witnesses and the locktime.
  unfoldable pub read_tail : ℕ → Bool → ℕ → List OutPoint → List TxOutput → ℕ → Reader Transaction
  read_tail start has_witness n_in inputs outputs witness_start = do
    if has_witness then skip_witnesses n_in else pure tt
    locktime_start ← tell
    uint 4
    end ← tell
    finish start has_witness inputs outputs witness_start locktime_start end

  -- What `read_tx` reads behind the count of inputs.
  unfoldable pub read_rest : ℕ → Bool → ℕ → Reader Transaction
  read_rest start has_witness n_in = do
    inputs ← read_inputs n_in
    n_out ← count 9
    outputs ← read_outputs n_out 0
    witness_start ← tell
    read_tail start has_witness n_in inputs outputs witness_start

  -- What `read_tx` reads from `start` on.
  unfoldable pub read_body : ℕ → Reader Transaction
  read_body start = do
    uint 4
    has_witness ← marker start
    n_in ← count 41
    if n_in == 0 then raise no_inputs else read_rest start has_witness n_in

  -- `read_tx(raw, start)`.
  unfoldable pub read_tx : List ℕ → ℕ → Result MalformedTransaction (Transaction × ℕ)
  read_tx raw start = if ltb (length raw) start then err past_end else read_body start raw start

  check_end : List ℕ → Transaction × ℕ → Result MalformedTransaction Transaction
  check_end raw (tx, end) = if not (end == length raw) then err trailing else ok tx

  -- `parse_tx(raw)`.
  unfoldable pub parse_tx : List ℕ → Result MalformedTransaction Transaction
  unfolding check_end
  parse_tx raw = elim (read_tx raw 0) [ err e ↦ err e | ok p ↦ check_end raw p ]
