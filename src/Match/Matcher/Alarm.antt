-- ===== src/Match/Matcher/Alarm.antt =====
-- A confirmed deposit arms the alarm until the coin is spent, whatever comes between.
use coldwatch.Base.{
  ℕ, ◌≡◌, refl, true, false, List, [], ◌∷◌, ◌++◌, map, Bool-cases, inl, inr, arith,
}
use coldwatch.Base.Keys.{bytes_beq, bytes_beq_iff}
use coldwatch.Base.Results.{ok, Result-cases}
use coldwatch.Match.Keys.{spk_hmac, outpoint_hmac}
use coldwatch.Match.Tx.{OutPoint, TxOutput, Transaction}
use coldwatch.Match.Index.Contract.{WatchIndex, IsWatchIndex}
use coldwatch.Match.Index.Items.{has_item, is_empty}
use coldwatch.Match.Matcher.{
  outgoing, incoming, Matcher, each, note_output, note_unconfirmed, apply, match,
}
use coldwatch.Match.Matcher.Reports.{IsMatchable, coin, spends_from, match_reports}
use coldwatch.Match.Matcher.Record.{spends, creates, apply-Rewrites}

module _ {S : Type 0} {ix : WatchIndex S} (w : IsWatchIndex ix) (hmac : List ℕ → List ℕ → List ℕ)
    (k : List ℕ) where
  each_note_keeps :
      (txid : List ℕ) (outs : List TxOutput) (m : Matcher S)
      → (each (note_output ix hmac k txid) outs m).1.index ≡ m.index
  unfolding each note_output
  each_note_keeps txid [] m = refl
  each_note_keeps txid (out ∷ outs) m =
      elim (Bool-cases (is_empty (ix.items_watching_spk (spk_hmac hmac k out.spk) m.index))) [
        | inl nobody ↦ rw (each, nobody) (each_note_keeps txid outs m)
        | inr some_one ↦ elim (Result-cases (outpoint_hmac hmac k txid out.vout)) [
          | inl (h, e) ↦ rw (each, some_one, e) (each_note_keeps txid outs _)
          | inr (why, e) ↦ rw (each, some_one, e)
        ]
      ]

  -- A transaction seen in the mempool writes nothing to the record.
  pub note_unconfirmed_keeps :
      (tx : Transaction) (m : Matcher S) → (note_unconfirmed ix hmac k tx m).1.index ≡ m.index
  unfolding note_unconfirmed
  note_unconfirmed_keeps tx m = each_note_keeps tx.txid tx.outputs m

  -- Transactions in a row that do not spend the coin `h`: confirmed ones are applied, those of the
  -- mempool noted.
  pub data Unspent (h : List ℕ) (m : Matcher S) : Matcher S → Type 0 where
    here : Unspent h m m
    confirmed :
        {n : Matcher S}
        → Unspent h m n
        → (tx : Transaction) → IsMatchable tx
        → spends hmac k tx.inputs h ≡ false
        → Unspent h m (apply ix hmac k tx n).1
    unconfirmed :
        {n : Matcher S}
        → Unspent h m n
        → (tx : Transaction) → Unspent h m (note_unconfirmed ix hmac k tx n).1

  Unspent-keeps_owner :
      (i : ℕ) (h : List ℕ) {m n : Matcher S}
      → Unspent h m n
      → w.IsSound m.index
      → has_item i (ix.items_owning_outpoint h m.index) ≡ true
      → w.IsSound n.index × (has_item i (ix.items_owning_outpoint h n.index) ≡ true)
  Unspent-keeps_owner i h here sound own = (sound, own)
  Unspent-keeps_owner i h (confirmed {n} rest tx good other) sound own =
      let (sound', own') = Unspent-keeps_owner i h rest sound own in
      let (t, e, after) = apply-Rewrites w hmac k tx n good sound' in
      rw e (after.sound, ground (arith, after.owned i h))
  Unspent-keeps_owner i h (unconfirmed {n} rest tx) sound own =
      rw (note_unconfirmed_keeps tx n) (Unspent-keeps_owner i h rest sound own)

  pub spends_from_owner :
      (i : ℕ) (h : List ℕ) (ops : List OutPoint) (m : Matcher S)
      → spends hmac k ops h ≡ true
      → has_item i (ix.items_owning_outpoint h m.index) ≡ true
      → spends_from hmac k ix i ops m ≡ true
  unfolding spends spends_from
  spends_from_owner i h [] m spent own = absurd (ground arith)
  spends_from_owner i h (op ∷ ops) m spent own =
      elim (Bool-cases (bytes_beq (coin hmac k op.txid op.vout) h)) [
        | inl same ↦ let e = (bytes_beq_iff (coin hmac k op.txid op.vout) h).0 same in rw (e, own)
        | inr other ↦ ground (arith, spends_from_owner i h ops m)
      ]

  -- Once `apply` has folded in a deposit of the coin `h` to a script that item `i` watches, and until
  -- a transaction spends it, whatever others are confirmed or seen in the mempool: `match` of a
  -- transaction that spends the coin reports an alarm for the item.
  pub deposit_arms :
      (i : ℕ) (h : List ℕ) (deposit spender : Transaction) (m : Matcher S) {n : Matcher S}
      → w.IsSound m.index
      → IsMatchable deposit
      → creates hmac k ix i deposit.txid deposit.outputs h m.index ≡ true
      → Unspent h (apply ix hmac k deposit m).1 n
      → IsMatchable spender
      → spends hmac k spender.inputs h ≡ true
      → (out into : List ℕ) × (match ix hmac k spender n
          ≡ ok (
              map (λ j. record { item_id = j; direction = outgoing }) out
              ++ map (λ j. record { item_id = j; direction = incoming }) into))
        × (has_item i out ≡ true)
  deposit_arms i h deposit spender m {n} sound good pays rest good' spent =
      let (t, e, after) = apply-Rewrites w hmac k deposit m good sound in
      let armed : has_item i (ix.items_owning_outpoint h t) ≡ true =
        ground (arith, after.owned i h) in
      let (sound', own) = Unspent-keeps_owner i h rest (rw e after.sound) (rw e armed) in
      let (out, into, returned, u, c, c') = match_reports hmac k ix spender n good' in
      (out, into, returned, rw (c i) (spends_from_owner i h spender.inputs n spent own))
