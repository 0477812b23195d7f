-- ===== src/Match/Stream/Alerts.antt =====
-- One alert for a transaction that the mempool and a block both bring.
use coldwatch.Base.{◌+◌, length, ℕ, ◌≤◌, ◌≡◌, refl, true, List, [], ◌∷◌, inl, inr, arith}
use coldwatch.Base.Results.{ok, Result-cases}
use coldwatch.Match.Tx.{Transaction}
use coldwatch.Match.Index.Contract.{WatchIndex, IsWatchIndex}
use coldwatch.Match.Matcher.{Match, match, apply, note_unconfirmed}
use coldwatch.Match.Matcher.Reports.{IsMatchable, match_reports}
use coldwatch.Match.Matcher.Record.{apply-Rewrites}
use coldwatch.Match.Stream.Seen.{knows, add_remembers, add_known, add_all, add_all_keeps}
use coldwatch.Match.Stream.{StreamIngest, note_seen, alert_tx, confirm}

module _ {S F : Type 0} (X : Type 0) (ix : WatchIndex S) (hmac : List ℕ → List ℕ → List ℕ)
    (k : List ℕ) where
  -- A transaction that has alerted is known.
  alert_tx_remembers :
      (tx : Transaction) (s : StreamIngest S F) (x : Match) (found : List Match)
      → 1 ≤ s.seen.maxlen
      → (alert_tx {X = X} ix hmac k tx s).0 ≡ ok (x ∷ found)
      → knows tx.txid (alert_tx {X = X} ix hmac k tx s).1.seen ≡ true
  unfolding alert_tx note_seen
  alert_tx_remembers tx s x found room alerted =
      elim (Result-cases (match ix hmac k tx s.matcher)) [
        | inr (e, q) ↦ absurd (ground (arith, q))
        | inl ([], q) ↦ elim (Result-cases (note_unconfirmed ix hmac k tx s.matcher).0) [
          | inr (e, q') ↦ absurd (ground (arith, q, q'))
          | inl (u, q') ↦ absurd (ground (arith, q, q'))
        ]
        | inl (y ∷ l, q) ↦ elim (Result-cases (note_unconfirmed ix hmac k tx s.matcher).0) [
          | inr (e, q') ↦ absurd (ground (arith, q, q'))
          | inl (u, q') ↦ rw (alert_tx, q, q', note_seen) (add_remembers tx.txid s.seen room).1
        ]
      ]

module _ {S F : Type 0} (X : Type 0) {ix : WatchIndex S} (w : IsWatchIndex ix)
    (hmac : List ℕ → List ℕ → List ℕ) (k : List ℕ) where
  -- A known transaction is folded in when a block confirms it, and gives no alert, whatever it
  -- matches.
  confirm_known :
      (tx : Transaction) (s : StreamIngest S F)
      → IsMatchable tx
      → w.IsSound s.matcher.index
      → knows tx.txid s.seen ≡ true
      → ((confirm {X = X} ix hmac k tx s).0 ≡ ok [])
        × ((confirm {X = X} ix hmac k tx s).1.confirmed ≡ s.confirmed + 1)
        × (apply ix hmac k tx s.matcher ≡ (ok tt, (confirm {X = X} ix hmac k tx s).1.matcher))
  unfolding confirm note_seen
  confirm_known tx s h sound known =
      let (out, into, q, u, c, c') = match_reports hmac k ix tx s.matcher h in
      let (t, q', after) = apply-Rewrites w hmac k tx s.matcher h sound in
      elim (Result-cases (match ix hmac k tx s.matcher)) [
        | inr (e, p) ↦ absurd (ground (arith, p, q))
        | inl ([], p) ↦ rw (confirm, p, q', note_seen) (refl, refl, refl)
        | inl (x ∷ l, p) ↦
            rw (confirm, p, q', note_seen, add_known tx.txid s.seen known) (refl, refl, refl)
      ]

  -- A transaction whose txid has 32 bytes and whose indices have 32 bits, and whose alert the
  -- mempool has sent, is not alerted on again when a block confirms it over a sound index, if since
  -- then no more txids were added than there is room for without an eviction: the confirmation
  -- returns without an alert, counts the transaction, and leaves the matcher that `apply` leaves.
  pub alert_once :
      (tx : Transaction) (s t : StreamIngest S F) (x : Match) (found : List Match)
      (others : List (List ℕ))
      → IsMatchable tx
      → 1 ≤ s.seen.maxlen
      → (alert_tx {X = X} ix hmac k tx s).0 ≡ ok (x ∷ found)
      → length (alert_tx {X = X} ix hmac k tx s).1.seen.seen + length others
        ≤ (alert_tx {X = X} ix hmac k tx s).1.seen.maxlen
      → t.seen ≡ add_all others (alert_tx {X = X} ix hmac k tx s).1.seen
      → w.IsSound t.matcher.index
      → ((confirm {X = X} ix hmac k tx t).0 ≡ ok [])
        × ((confirm {X = X} ix hmac k tx t).1.confirmed ≡ t.confirmed + 1)
        × (apply ix hmac k tx t.matcher ≡ (ok tt, (confirm {X = X} ix hmac k tx t).1.matcher))
  alert_once tx s t x found others h some_room alerted room same sound =
      confirm_known tx t h sound (
        rw same (
          add_all_keeps tx.txid others _
            (alert_tx_remembers X ix hmac k tx s x found some_room alerted) room))
