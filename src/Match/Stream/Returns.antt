-- ===== src/Match/Stream/Returns.antt =====
-- What a payload can make `handle` raise, over an index that keeps the contract.
use Prim.Native.String.{String}
use coldwatch.Base.{
  ℕ, ◌+◌, ◌^◌, ◌≤◌, ◌<◌, ◌≡◌, ◌≢◌, map, ◌⊎◌, refl, none, some, List, [], ◌∷◌, ◌++◌, length, All,
  Bool-cases, inl, inr, arith,
}
use coldwatch.Base.Keys.{string_key}
use coldwatch.Base.Bytes.{IsBytes}
use coldwatch.Base.Results.{ok, err, Result-cases}
use coldwatch.Match.Sequence.{SequenceTracker, SequenceError, uint32, observe}
use coldwatch.Match.Keys.{spk_hmac}
use coldwatch.Match.Tx.{TxOutput, Transaction, dsha256, parse_tx}
use coldwatch.Match.Tx.Loops.{IsNumbered}
use coldwatch.Match.Tx.Bounds.{IsParsed, read_tx-IsParsed, parse_tx-IsParsed}
use coldwatch.Match.Block.{malformed, struct_error, parse_block}
use coldwatch.Match.Block.Tiling.{Tiles, done, tile, parse_block-IsWhole}
use coldwatch.Match.Index.Contract.{WatchIndex, IsWatchIndex}
use coldwatch.Match.Index.Items.{is_empty}
use coldwatch.Match.Provisional
use coldwatch.Match.Matcher.{
  outgoing, incoming, Match, Matcher, each, note_output, note_unconfirmed,
}
use coldwatch.Match.Matcher.Reports.{IsMatchable, HasIndex, outpoint_hmac_ok, match_reports}
use coldwatch.Match.Matcher.Record.{apply-Rewrites}
use coldwatch.Match.Stream.{
  StreamMessage, StreamIngest, topic_block, topic_tx, note_seen, alert_tx, handle_tx, confirm,
  confirm_all, apply_block, expand_block, handle_block, dispatch, handle,
}
use coldwatch.Match.Stream.Writes.{note_seen_keeps}

observe_in_range :
    (topic : String) (seq : ℕ) (t : SequenceTracker)
    → seq < uint32
    → (why : SequenceError) → (observe topic seq t).0 ≢ err why
unfolding observe
observe_in_range topic seq t range why = λ q. ground (arith, q, range)

numbered_lem :
    (n : ℕ) (outs : List TxOutput)
    → IsNumbered n outs
    → n + length outs ≤ 2 ^ 32
    → All HasIndex outs
numbered_lem n [] h small = tt
numbered_lem n (out ∷ outs) (h, hs) small =
    (omega (arith, h), numbered_lem (n + 1) outs hs (omega arith))

module _ (sha256 : List ℕ → List ℕ) (hash_size : (d : List ℕ) → length (sha256 d) ≡ 32) where
  IsParsed-IsMatchable :
      {raw : List ℕ} {start end : ℕ} {tx : Transaction}
      → length raw < 2 ^ 32
      → IsParsed sha256 raw start tx end
      → IsMatchable tx
  unfolding dsha256
  IsParsed-IsMatchable {tx = tx} small h = record {
    own_txid = rw h.hashed.1 (hash_size _);
    spent = h.inputs;
    indexed = numbered_lem 0 tx.outputs h.numbered (omega (arith, h.room, h.in_buffer));
  }

  parse_tx-IsMatchable :
      (raw : List ℕ) {tx : Transaction}
      → IsBytes raw
      → length raw < 2 ^ 32
      → parse_tx sha256 raw ≡ ok tx
      → IsMatchable tx
  parse_tx-IsMatchable raw {tx} bytes small parsed =
      IsParsed-IsMatchable small (parse_tx-IsParsed sha256 tx bytes parsed).1

  Tiles-IsMatchable :
      {raw : List ℕ} {pos : ℕ} {txs : List Transaction}
      → IsBytes raw
      → length raw < 2 ^ 32
      → Tiles sha256 raw pos txs
      → All IsMatchable txs
  Tiles-IsMatchable bytes small (done e) = tt
  Tiles-IsMatchable bytes small (tile {pos} {next} {tx} read rest) = (
    IsParsed-IsMatchable small (read_tx-IsParsed sha256 bytes pos tx next read),
    Tiles-IsMatchable bytes small rest,
  )

module _ {S : Type 0} {ix : WatchIndex S} (w : IsWatchIndex ix) (hmac : List ℕ → List ℕ → List ℕ)
    (k : List ℕ) where
  each_note_returns :
      (txid : List ℕ) (outs : List TxOutput) (m : Matcher S)
      → length txid ≡ 32
      → All HasIndex outs
      → (each (note_output ix hmac k txid) outs m).0 ≡ ok tt
  unfolding each note_output
  each_note_returns txid [] m size hs = refl
  each_note_returns txid (out ∷ outs) m size (h, hs) =
      elim (Bool-cases (is_empty (ix.items_watching_spk (spk_hmac hmac k out.spk) m.index))) [
        | inl nobody ↦ rw (each, nobody) (each_note_returns txid outs m size hs)
        | inr some_one ↦
            rw (each, some_one, outpoint_hmac_ok hmac k txid out.vout size h)
              (each_note_returns txid outs _ size hs)
      ]

  note_unconfirmed_returns :
      (tx : Transaction) (m : Matcher S)
      → IsMatchable tx
      → (note_unconfirmed ix hmac k tx m).0 ≡ ok tt
  unfolding note_unconfirmed
  note_unconfirmed_returns tx m h = each_note_returns tx.txid tx.outputs m h.own_txid h.indexed

module _ {S F : Type 0} (X : Type 0) {ix : WatchIndex S} (w : IsWatchIndex ix)
    (hmac : List ℕ → List ℕ → List ℕ) (k : List ℕ) where
  alert_tx_returns :
      (tx : Transaction) (s : StreamIngest S F)
      → IsMatchable tx
      → (alerts : List Match) × ((alert_tx {X = X} ix hmac k tx s).0 ≡ ok alerts)
  unfolding alert_tx
  alert_tx_returns tx s h =
      let (out, into, q, u, c, c') = match_reports hmac k ix tx s.matcher h in
      rw (alert_tx, q, note_unconfirmed_returns w hmac k tx s.matcher h) (_, refl)

  confirm_returns :
      (tx : Transaction) (s : StreamIngest S F)
      → IsMatchable tx
      → w.IsSound s.matcher.index
      → (alerts : List Match) × ((confirm {X = X} ix hmac k tx s).0 ≡ ok alerts)
        × w.IsSound (confirm {X = X} ix hmac k tx s).1.matcher.index
  unfolding confirm
  confirm_returns tx s h sound =
      let (out, into, q, u, c, c') = match_reports hmac k ix tx s.matcher h in
      let (t, q', after) = apply-Rewrites w hmac k tx s.matcher h sound in
      let found : List Match =
        map (λ i. record { item_id = i; direction = outgoing }) out
        ++ map (λ i. record { item_id = i; direction = incoming }) into in
      let m : Matcher S = record {
        index = t;
        provisional = Provisional.forget tx.txid s.matcher.provisional;
      } in
      let s1 : StreamIngest S F = record s { matcher = m; confirmed = s.confirmed + 1 } in
      let (kept, _) = note_seen_keeps found tx.txid s1 in
      elim (Bool-cases (note_seen found tx.txid s1).0) [
        | inl new ↦ rw (confirm, q, q', new, kept) (_, refl, after.sound)
        | inr old ↦ rw (confirm, q, q', old, kept) (_, refl, after.sound)
      ]

  confirm_all_returns :
      (txs : List Transaction) (alerts : List Match) (s : StreamIngest S F)
      → All IsMatchable txs
      → w.IsSound s.matcher.index
      → (all : List Match) × ((confirm_all {X = X} ix hmac k txs alerts s).0 ≡ ok all)
        × w.IsSound (confirm_all {X = X} ix hmac k txs alerts s).1.matcher.index
  unfolding confirm_all
  confirm_all_returns [] alerts s hs sound = (alerts, refl, sound)
  confirm_all_returns (tx ∷ txs) alerts s (h, hs) sound =
      let (found, q, sound') = confirm_returns tx s h sound in
      rw (confirm_all, q) (confirm_all_returns txs (alerts ++ found) _ hs sound')

  module _ (sha256 : List ℕ → List ℕ) (hash_size : (d : List ℕ) → length (sha256 d) ≡ 32) where
    handle_tx_returns :
        (body : List ℕ) (s : StreamIngest S F)
        → IsBytes body
        → length body < 2 ^ 32
        → (alerts : List Match) × ((handle_tx {X = X} sha256 ix hmac k none body s).0 ≡ ok alerts)
    unfolding handle_tx
    handle_tx_returns body s bytes small = elim (Result-cases (parse_tx sha256 body)) [
      | inr (e, q) ↦ rw (handle_tx, q) ([], refl)
      | inl (tx, q) ↦
          rw (handle_tx, q)
            (alert_tx_returns tx _ (parse_tx-IsMatchable sha256 hash_size body bytes small q))
    ]

    handle_block_returns :
        (body : List ℕ) (s : StreamIngest S F)
        → IsBytes body
        → length body < 2 ^ 32
        → w.IsSound s.matcher.index
        → ((alerts : List Match) × ((handle_block {X = X} sha256 ix hmac k none body s).0
              ≡ ok alerts))
          ⊎ (parse_block sha256 body ≡ err struct_error)
    unfolding handle_block expand_block apply_block
    handle_block_returns body s bytes small sound = elim (Result-cases (parse_block sha256 body)) [
      | inr (malformed why, q) ↦ rw (handle_block, q) (inl ([], refl))
      | inr (struct_error, q) ↦ inr q
      | inl (block, q) ↦
          let whole = parse_block-IsWhole sha256 body block q in
          let good = Tiles-IsMatchable sha256 hash_size bytes small whole.tiles in
          let (alerts, q', _) =
            confirm_all_returns block.transactions [] (record s { blocks = s.blocks + 1 }) good
              sound in
          rw (handle_block, q, expand_block, apply_block) (inl (alerts, q'))
    ]

    dispatch_returns :
        (message : StreamMessage) (s : StreamIngest S F)
        → IsBytes message.body
        → length message.body < 2 ^ 32
        → w.IsSound s.matcher.index
        → ((alerts : List Match) × ((dispatch {X = X} sha256 ix hmac k none message s).0
              ≡ ok alerts))
          ⊎ ((message.topic ≡ topic_block) × (parse_block sha256 message.body ≡ err struct_error))
    unfolding dispatch
    dispatch_returns message s bytes small sound =
        elim (Bool-cases (string_key.agree message.topic topic_tx)) [
          | inl tx ↦ inl (rw (dispatch, tx) (handle_tx_returns message.body s bytes small))
          | inr other ↦ elim (Bool-cases (string_key.agree message.topic topic_block)) [
            | inr neither ↦ inl (rw (dispatch, other, neither) ([], refl))
            | inl block ↦ elim (handle_block_returns message.body s bytes small sound) [
              | inl back ↦ inl (rw (dispatch, other, block) back)
              | inr stop ↦ inr ((string_key.agree_iff message.topic topic_block).0 block, stop)
            ]
          ]
        ]

    -- With no hook, a hash of 32 bytes and a body of bytes, shorter than 4 GiB, and a number in range:
    -- `handle` returns alerts whatever the body says, but for a block whose count `parse_block`
    -- leaves with `struct.error`.
    pub handle_returns :
        (message : StreamMessage) (s : StreamIngest S F)
        → message.seq < uint32
        → IsBytes message.body
        → length message.body < 2 ^ 32
        → w.IsSound s.matcher.index
        → ((alerts : List Match) × ((handle {X = X} sha256 ix hmac k none message s).0 ≡ ok alerts))
          ⊎ ((message.topic ≡ topic_block) × (parse_block sha256 message.body ≡ err struct_error))
    unfolding handle parse_block
    handle_returns message s range bytes small sound =
        let t = (observe message.topic message.seq s.tracker).1 in
        elim (Result-cases (observe message.topic message.seq s.tracker).0) [
          | inr (e, q) ↦ absurd (observe_in_range message.topic message.seq s.tracker range e q)
          | inl (none, q) ↦
              rw (handle, q) (dispatch_returns message (record s { tracker = t }) bytes small sound)
          | inl (some anomaly, q) ↦
              rw (handle, q)
                (dispatch_returns message
                  (record s { tracker = t; announced = anomaly ∷ s.announced }) bytes small sound)
        ]
