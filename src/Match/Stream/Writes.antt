-- ===== src/Match/Stream/Writes.antt =====
-- Which messages can write to the record, and which fields a pass over a block leaves alone.
use coldwatch.Base.{ℕ, ◌+◌, ◌≡◌, ◌⊎◌, refl, Option, none, some, List, [], ◌∷◌, Bool-cases, inl, inr}
use coldwatch.Base.Keys.{string_key}
use coldwatch.Base.Results.{ok, Result-cases}
use coldwatch.Match.Sequence.{observe}
use coldwatch.Match.Tx.{Transaction, parse_tx}
use coldwatch.Match.Block.{Block, malformed, struct_error, parse_block}
use coldwatch.Match.Index.Contract.{WatchIndex, IsWatchIndex}
use coldwatch.Match.Matcher.{Match, match, note_unconfirmed}
use coldwatch.Match.Matcher.Alarm.{note_unconfirmed_keeps}
use coldwatch.Match.Stream.{
  StreamMessage, StreamIngest, Owed, topic_block, topic_tx, note_seen, alert_tx, handle_tx,
  handle_block, dispatch, handle,
}

module _ {S F : Type 0} where
  pub note_seen_keeps :
      (found : List Match) (txid : List ℕ) (s : StreamIngest S F)
      → ((note_seen found txid s).1.matcher ≡ s.matcher)
        × ((note_seen found txid s).1.tracker ≡ s.tracker)
  unfolding note_seen
  note_seen_keeps [] txid s = (refl, refl)
  note_seen_keeps (x ∷ found) txid s = (refl, refl)

module _ {S F : Type 0} (X : Type 0) {ix : WatchIndex S} (w : IsWatchIndex ix)
    (hmac : List ℕ → List ℕ → List ℕ) (k : List ℕ) where
  pub alert_tx_keeps :
      (tx : Transaction) (s : StreamIngest S F)
      → (alert_tx {X = X} ix hmac k tx s).1.matcher.index ≡ s.matcher.index
  unfolding alert_tx
  alert_tx_keeps tx s = elim (Result-cases (match ix hmac k tx s.matcher)) [
    | inr (e, q) ↦ rw (alert_tx, q)
    | inl (found, q) ↦ elim (Result-cases (note_unconfirmed ix hmac k tx s.matcher).0) [
      | inr (e, q') ↦ rw (alert_tx, q, q') (note_unconfirmed_keeps w hmac k tx s.matcher)
      | inl (u, q') ↦
          let m = (note_unconfirmed ix hmac k tx s.matcher).1 in
          let noted = note_seen_keeps found tx.txid (record s { matcher = m }) in
          rw (alert_tx, q, q', noted.0) (note_unconfirmed_keeps w hmac k tx s.matcher)
    ]
  ]

  module _ (sha256 : List ℕ → List ℕ) (expand : Option (F → Block → Owed F X)) where
    handle_tx_keeps :
        (body : List ℕ) (s : StreamIngest S F)
        → (handle_tx sha256 ix hmac k expand body s).1.matcher.index ≡ s.matcher.index
    unfolding handle_tx
    handle_tx_keeps body s = elim (Result-cases (parse_tx sha256 body)) [
      | inr (e, q) ↦ rw (handle_tx, q)
      | inl (tx, q) ↦ rw (handle_tx, q) (alert_tx_keeps tx (record s { parsed = s.parsed + 1 }))
    ]

    handle_block_writes :
        (body : List ℕ) (s : StreamIngest S F)
        → ((handle_block sha256 ix hmac k expand body s).1.matcher.index ≡ s.matcher.index)
          ⊎ ((block : Block) × (parse_block sha256 body ≡ ok block))
    unfolding handle_block
    handle_block_writes body s = elim (Result-cases (parse_block sha256 body)) [
      | inl (block, q) ↦ inr (block, q)
      | inr (malformed why, q) ↦ inl (rw (handle_block, q))
      | inr (struct_error, q) ↦ inl (rw (handle_block, q))
    ]

    dispatch_writes :
        (message : StreamMessage) (s : StreamIngest S F)
        → ((dispatch sha256 ix hmac k expand message s).1.matcher.index ≡ s.matcher.index)
          ⊎ ((message.topic ≡ topic_block)
              × ((block : Block) × (parse_block sha256 message.body ≡ ok block)))
    unfolding dispatch
    dispatch_writes message s = elim (Bool-cases (string_key.agree message.topic topic_tx)) [
      | inl tx ↦ inl (rw (dispatch, tx) (handle_tx_keeps message.body s))
      | inr other ↦ elim (Bool-cases (string_key.agree message.topic topic_block)) [
        | inr neither ↦ inl (rw (dispatch, other, neither))
        | inl block ↦ elim (handle_block_writes message.body s) [
          | inl kept ↦ inl (rw (dispatch, other, block) kept)
          | inr parsed ↦ inr ((string_key.agree_iff message.topic topic_block).0 block, parsed)
        ]
      ]
    ]

    -- Only a block that parses can write to the record: after any other message, one of the mempool
    -- or with a body that does not parse or a number out of range, it is what it was.
    pub handle_writes :
        (message : StreamMessage) (s : StreamIngest S F)
        → ((handle sha256 ix hmac k expand message s).1.matcher.index ≡ s.matcher.index)
          ⊎ ((message.topic ≡ topic_block)
              × ((block : Block) × (parse_block sha256 message.body ≡ ok block)))
    unfolding handle parse_block
    handle_writes message s =
        let t = (observe message.topic message.seq s.tracker).1 in
        elim (Result-cases (observe message.topic message.seq s.tracker).0) [
          | inr (e, q) ↦ inl (rw (handle, q))
          | inl (none, q) ↦ rw (handle, q) (dispatch_writes message (record s { tracker = t }))
          | inl (some anomaly, q) ↦
              rw (handle, q)
                (dispatch_writes message
                  (record s { tracker = t; announced = anomaly ∷ s.announced }))
        ]
