-- ===== src/Match/Tx/Wire.antt =====
-- The wire format of a transaction, written as a serialiser that is independent of the parser:
-- the canonical CompactSize, and the legacy and BIP144 layouts.
use coldwatch.Base.{
  ℕ, ◌+◌, ◌^◌, ◌<◌, ◌≡◌, Bool, List, [], ◌∷◌, ◌++◌, ltb, if◌then◌else◌, length, All,
}
use coldwatch.Base.Bytes.{to_le}
use coldwatch.Match.Tx.{OutPoint, TxOutput, Transaction, is_coinbase_of, dsha256}

unfoldable pub encode_varint : ℕ → List ℕ
encode_varint n =
    if ltb n 0xFD
    then n ∷ []
    else if ltb n (2 ^ 16)
    then 0xFD ∷ to_le 2 n
    else if ltb n (2 ^ 32)
    then 0xFE ∷ to_le 4 n
    else 0xFF ∷ to_le 8 n

unfoldable pub encode_sized : List ℕ → List ℕ
encode_sized bs = encode_varint (length bs) ++ bs

pub record WireInput : Type 0 where
  pub txid : List ℕ
  pub vout : ℕ
  pub script : List ℕ
  pub sequence : ℕ

pub record WireOutput : Type 0 where
  pub value : ℕ
  pub spk : List ℕ

-- `witness` holds the items of each input, and is written only if `segwit` is set.
pub record WireTx : Type 0 where
  pub version : ℕ
  pub segwit : Bool
  pub inputs : List WireInput
  pub outputs : List WireOutput
  pub witness : List (List (List ℕ))
  pub locktime : ℕ

unfoldable pub encode_input : WireInput → List ℕ
encode_input i = i.txid ++ (to_le 4 i.vout ++ (encode_sized i.script ++ to_le 4 i.sequence))

unfoldable pub encode_output : WireOutput → List ℕ
encode_output o = to_le 8 o.value ++ encode_sized o.spk

-- The encodings of a list, one after the other.
unfoldable pub encode_each {ℓ} : {A : Type ℓ} → (A → List ℕ) → List A → List ℕ
encode_each f [] = []
encode_each f (x ∷ xs) = f x ++ encode_each f xs

unfoldable pub encode_items : List (List ℕ) → List ℕ
encode_items items = encode_varint (length items) ++ encode_each encode_sized items

abbrev pub encode_marker : Bool → List ℕ
encode_marker segwit = if segwit then 0x00 ∷ 0x01 ∷ [] else []

-- The input and output sections, which the txid covers.
unfoldable pub encode_io : WireTx → List ℕ
encode_io t =
    encode_varint (length t.inputs)
    ++ (encode_each encode_input t.inputs
        ++ (encode_varint (length t.outputs) ++ encode_each encode_output t.outputs))

unfoldable pub encode_witness : WireTx → List ℕ
encode_witness t = if t.segwit then encode_each encode_items t.witness else []

unfoldable pub serialise : WireTx → List ℕ
serialise t =
    to_le 4 t.version
    ++ (encode_marker t.segwit ++ (encode_io t ++ (encode_witness t ++ to_le 4 t.locktime)))

-- Without marker, flag and witnesses: what the txid hashes.
unfoldable pub strip : WireTx → List ℕ
strip t = to_le 4 t.version ++ (encode_io t ++ to_le 4 t.locktime)

abbrev pub IsSized : List ℕ → Type 0
IsSized bs = length bs < 2 ^ 64

pub record IsInput (i : WireInput) : Type 0 where
  pub txid : length i.txid ≡ 32
  pub vout : i.vout < 2 ^ 32
  pub script : IsSized i.script
  pub sequence : i.sequence < 2 ^ 32

abbrev pub IsOutput : WireOutput → Type 0
IsOutput o = (o.value < 2 ^ 64) × IsSized o.spk

abbrev pub IsItems : List (List ℕ) → Type 0
IsItems items = (length items < 2 ^ 64) × All IsSized items

-- What every field must meet to be written; no consensus rule but that there is an input.
pub record IsWireTx (t : WireTx) : Type 0 where
  pub version : t.version < 2 ^ 32
  pub some_input : 0 < length t.inputs
  pub count_inputs : length t.inputs < 2 ^ 64
  pub inputs : All IsInput t.inputs
  pub count_outputs : length t.outputs < 2 ^ 64
  pub outputs : All IsOutput t.outputs
  pub count_witness : length t.witness ≡ length t.inputs
  pub witness : All IsItems t.witness
  pub locktime : t.locktime < 2 ^ 32

abbrev pub outpoint_of : WireInput → OutPoint
outpoint_of i = record { txid = i.txid; vout = i.vout }

abbrev pub outpoints : List WireInput → List OutPoint
outpoints [] = []
outpoints (i ∷ is) = outpoint_of i ∷ outpoints is

-- The outputs numbered from `n` on.
abbrev pub numbered : ℕ → List WireOutput → List TxOutput
numbered n [] = []
numbered n (o ∷ os) = record { vout = n; spk = o.spk } ∷ numbered (n + 1) os

-- What a reader of the transaction is to learn.
abbrev pub decoded : (List ℕ → List ℕ) → WireTx → Transaction
decoded sha256 t = record {
  txid = dsha256 sha256 (strip t);
  inputs = if is_coinbase_of (outpoints t.inputs) then [] else outpoints t.inputs;
  outputs = numbered 0 t.outputs;
  is_coinbase = is_coinbase_of (outpoints t.inputs);
  has_witness = t.segwit;
}
