-- ===== src/Match/Stream.antt =====
-- match/stream.py: `StreamIngest`. The hook that gives the blocks a record still owes, and the
-- callback on anomalies, are parameters; a method takes the ingest's state and returns its outcome
-- with the state that it leaves, since what was written before an exception stays written.
pub mod Seen
pub mod Writes
pub mod Folds
pub mod Flag
pub mod Alerts
pub mod Returns
mod Tests
use Prim.Native.String.{String}
use coldwatch.Base.{
  ℕ, suc, ◌+◌, Bool, true, false, Option, none, some, List, [], ◌∷◌, ◌++◌, if◌then◌else◌,
}
use coldwatch.Base.Keys.{string_key}
use coldwatch.Base.Results.{Result, ok, err}
use coldwatch.Match.Sequence.{
  SequenceTracker, SequenceError, Anomaly, observe, flag_for_reconciliation, reconciled,
}
use coldwatch.Match.Keys.{KeysError}
use coldwatch.Match.Tx.{Transaction, parse_tx}
use coldwatch.Match.Block.{Block, BlockError, malformed, struct_error, parse_block}
use coldwatch.Match.Index.Contract.{WatchIndex}
use coldwatch.Match.Matcher.{Match, Matcher, match, apply, note_unconfirmed}
use coldwatch.Match.Stream.Seen
use coldwatch.Match.Stream.Seen.{SeenTransactions}

abbrev pub topic_tx : String
topic_tx = "rawtx"

abbrev pub topic_block : String
topic_block = "rawblock"

pub record StreamMessage : Type 0 where
  pub topic : String
  pub body : List ℕ
  pub seq : ℕ

-- What can come out of `handle`: a number out of range, an outpoint that is refused, the
-- `struct.error` of `parse_block`, or what the hook raises.
pub data StreamError (X : Type 0) : Type 0 where
  bad_seq : SequenceError → StreamError X
  bad_outpoint : KeysError → StreamError X
  bad_struct : StreamError X
  hook_raised : X → StreamError X

-- The generator that the hook returns: it ends or raises, or yields a block. `F` is what the hook's
-- owner holds then; at a yield, what it holds if it is not resumed.
pub data Owed (F X : Type 0) : Type 0 where
  finished : F → Owed F X
  raised : X → F → Owed F X
  due : Block → F → Owed F X → Owed F X

pub record StreamIngest (S F : Type 0) : Type 0 where
  pub matcher : Matcher S
  pub tracker : SequenceTracker
  pub seen : SeenTransactions
  pub follower : F
  -- The calls of `on_anomaly`, the last one first.
  pub announced : List Anomaly
  pub parsed : ℕ
  pub malformed : ℕ
  pub ignored : ℕ
  pub blocks : ℕ
  pub confirmed : ℕ
  pub suppressed : ℕ
  pub catch_up_failures : ℕ

-- The outcome of a method, and the state it leaves.
abbrev pub Outcome : Type 0 → Type 0 → Type 0 → Type 0 → Type 0
Outcome X S F A = Result (StreamError X) A × StreamIngest S F

-- `if self.seen.add(txid)`, where there are matches: whether they are new.
unfoldable pub note_seen :
    {S F : Type 0} → List Match → List ℕ → StreamIngest S F → Bool × StreamIngest S F
note_seen [] txid s = (true, s)
note_seen (found ∷ more) txid s =
    let (new, seen) = Seen.add txid s.seen in (new, record s { seen = seen })

module _ {S F X : Type 0} (ix : WatchIndex S) (hmac : List ℕ → List ℕ → List ℕ) (k : List ℕ) where
  -- `_handle_tx`, once the transaction is parsed.
  unfoldable pub alert_tx : Transaction → StreamIngest S F → Outcome X S F (List Match)
  alert_tx tx s = elim (match ix hmac k tx s.matcher) [
    | err e ↦ (err (bad_outpoint e), s)
    | ok found ↦ noted found (note_unconfirmed ix hmac k tx s.matcher)
  ]
    where
      noted : List Match → Result KeysError (Unit {0}) × Matcher S → Outcome X S F (List Match)
      noted found (err e, m) = (err (bad_outpoint e), record s { matcher = m })
      noted found (ok _, m) =
          let (new, s') = note_seen found tx.txid (record s { matcher = m }) in
          (ok (if new then found else []), s')

  -- One pass of the loop of `_apply_block`, with the alerts it adds.
  unfoldable pub confirm : Transaction → StreamIngest S F → Outcome X S F (List Match)
  confirm tx s = elim (match ix hmac k tx s.matcher) [
    | err e ↦ (err (bad_outpoint e), s)
    | ok found ↦ applied found (apply ix hmac k tx s.matcher)
  ]
    where
      applied : List Match → Result KeysError (Unit {0}) × Matcher S → Outcome X S F (List Match)
      applied found (err e, m) = (err (bad_outpoint e), record s { matcher = m })
      applied found (ok _, m) =
          let (new, s') =
            note_seen found tx.txid (record s { matcher = m; confirmed = s.confirmed + 1 }) in
          if new then (ok found, s') else (ok [], record s' { suppressed = s'.suppressed + 1 })

  -- The loop of `_apply_block`.
  unfoldable pub confirm_all :
      List Transaction → List Match → StreamIngest S F → Outcome X S F (List Match)
  confirm_all [] alerts s = (ok alerts, s)
  confirm_all (tx ∷ txs) alerts s =
      let (r, s') = confirm tx s in
      elim r [ err e ↦ (err e, s') | ok found ↦ confirm_all txs (alerts ++ found) s' ]

  unfoldable pub apply_block : Block → StreamIngest S F → Outcome X S F (List Match)
  apply_block block s = confirm_all block.transactions [] (record s { blocks = s.blocks + 1 })

  -- The body of `try` in `_handle_block`.
  unfoldable pub consume : Owed F X → List Match → StreamIngest S F → Outcome X S F (List Match)
  consume (finished f) alerts s = (ok alerts, record s { follower = f })
  consume (raised x f) alerts s = (err (hook_raised x), record s { follower = f })
  consume (due block f rest) alerts s =
      let (r, s') = apply_block block (record s { follower = f }) in
      elim r [ err e ↦ (err e, s') | ok found ↦ consume rest (alerts ++ found) s' ]

module _ {S F X : Type 0} where
  -- The `except` of that `try`, and its `else`.
  unfoldable pub settle : Outcome X S F (List Match) → Outcome X S F (List Match)
  settle (err e, s) = (
    err e,
    record s {
      tracker = flag_for_reconciliation s.tracker;
      catch_up_failures = s.catch_up_failures + 1;
    },
  )
  settle (ok alerts, s) = (ok alerts, record s { tracker = reconciled s.tracker })

module _ {S F X : Type 0} (sha256 : List ℕ → List ℕ) (ix : WatchIndex S)
    (hmac : List ℕ → List ℕ → List ℕ) (k : List ℕ) (expand : Option (F → Block → Owed F X)) where
  unfoldable pub handle_tx : List ℕ → StreamIngest S F → Outcome X S F (List Match)
  handle_tx body s = elim (parse_tx sha256 body) [
    | err e ↦ (ok [], record s { malformed = s.malformed + 1 })
    | ok tx ↦ alert_tx ix hmac k tx (record s { parsed = s.parsed + 1 })
  ]

  -- `_handle_block`, once the block is parsed.
  unfoldable pub expand_block : Block → StreamIngest S F → Outcome X S F (List Match)
  expand_block block s = elim expand [
    | none ↦ apply_block ix hmac k block s
    | some hook ↦ settle (consume ix hmac k (hook s.follower block) [] s)
  ]

  unfoldable pub handle_block : List ℕ → StreamIngest S F → Outcome X S F (List Match)
  handle_block body s = elim (parse_block sha256 body) [
    | err (malformed why) ↦ (
      ok [],
      record s { malformed = s.malformed + 1; tracker = flag_for_reconciliation s.tracker },
    )
    | err struct_error ↦ (err bad_struct, s)
    | ok block ↦ expand_block block s
  ]

  -- `handle`, behind the sequence number.
  unfoldable pub dispatch : StreamMessage → StreamIngest S F → Outcome X S F (List Match)
  dispatch message s =
      if string_key.agree message.topic topic_tx
      then handle_tx message.body s
      else if string_key.agree message.topic topic_block
      then handle_block message.body s
      else (ok [], record s { ignored = s.ignored + 1 })

  unfoldable pub handle : StreamMessage → StreamIngest S F → Outcome X S F (List Match)
  handle message s = tracked (observe message.topic message.seq s.tracker)
    where
      tracked : Result SequenceError (Option Anomaly) × SequenceTracker → Outcome X S F (List Match)
      tracked (err e, t) = (err (bad_seq e), record s { tracker = t })
      tracked (ok none, t) = dispatch message (record s { tracker = t })
      tracked (ok (some anomaly), t) =
          dispatch message (record s { tracker = t; announced = anomaly ∷ s.announced })

  -- `run(messages)`.
  unfoldable pub run :
      List StreamMessage → List Match → StreamIngest S F → Outcome X S F (List Match)
  run [] found s = (ok found, s)
  run (message ∷ messages) found s =
      let (r, s') = handle message s in
      elim r [ err e ↦ (err e, s') | ok new ↦ run messages (found ++ new) s' ]
