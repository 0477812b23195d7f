-- ===== src/Match/Matcher.antt =====
-- match/matcher.py: `Matcher`, over any watch index. A method takes the matcher's state and returns
-- its outcome with the state that it leaves; a hash that is refused raises, and what was written
-- before stays written.
pub mod Reports
pub mod Record
pub mod Alarm
pub mod Samples
mod Tests
use coldwatch.Base.{ℕ, Bool, List, [], ◌∷◌, ◌++◌, map, if◌then◌else◌}
use coldwatch.Base.Results.{Result, ok, err, ◌>>=◌}
use coldwatch.Match.Keys.{KeysError, spk_hmac, outpoint_hmac}
use coldwatch.Match.Tx.{OutPoint, TxOutput, Transaction}
use coldwatch.Match.Index.Contract.{WatchIndex}
use coldwatch.Match.Index.Items.{add_items, is_empty}
use coldwatch.Match.Provisional
use coldwatch.Match.Provisional.{ProvisionalOutpoints}

-- channels/base.py.
pub data Direction : Type 0 where
  outgoing incoming : Direction

pub record Match : Type 0 where
  pub item_id : ℕ
  pub direction : Direction

-- What a matcher holds that changes.
pub record Matcher (S : Type 0) : Type 0 where
  pub index : S
  pub provisional : ProvisionalOutpoints

-- `for item_id in items: self.provisional.add(txid, item_id, op_h)`.
unfoldable pub add_provisional :
    List ℕ → List ℕ → List ℕ → ProvisionalOutpoints → ProvisionalOutpoints
add_provisional [] txid h p = p
add_provisional (i ∷ items) txid h p = add_provisional items txid h (Provisional.add txid i h p)

module _ {S : Type 0} where
  -- A loop whose passes may raise.
  unfoldable pub each :
      {A : Type 0}
      → (A → Matcher S → Result KeysError (Matcher S))
      → List A
      → Matcher S
      → Result KeysError (Unit {0}) × Matcher S
  each f [] m = (ok tt, m)
  each f (x ∷ xs) m = elim (f x m) [ err e ↦ (err e, m) | ok m' ↦ each f xs m' ]

  unfoldable pub forget : List ℕ → Matcher S → Matcher S
  forget txid m = record m { provisional = Provisional.forget txid m.provisional }

module _ {S : Type 0} (ix : WatchIndex S) where
  -- `for item_id in ...: self._index.drop_outpoint(item_id, op_h)`, and the same with `add_outpoint`.
  unfoldable pub drop_owners : List ℕ → List ℕ → S → S
  drop_owners [] h s = s
  drop_owners (i ∷ items) h s = drop_owners items h (ix.drop_outpoint i h s)

  unfoldable pub add_owners : List ℕ → List ℕ → S → S
  add_owners [] h s = s
  add_owners (i ∷ items) h s = add_owners items h (ix.add_outpoint i h s)

module _ {S : Type 0} (ix : WatchIndex S) (hmac : List ℕ → List ℕ → List ℕ) (k : List ℕ) where
  -- The loop over the inputs, with the items found so far.
  unfoldable pub outgoing_of : List OutPoint → List ℕ → Matcher S → Result KeysError (List ℕ)
  outgoing_of [] found m = ok found
  outgoing_of (op ∷ ops) found m = do
    h ← outpoint_hmac hmac k op.txid op.vout
    outgoing_of ops
        (add_items (ix.items_owning_outpoint h m.index ++ Provisional.items h m.provisional) found)
        m

  -- The loop over the outputs.
  unfoldable pub incoming_of : List TxOutput → List ℕ → Matcher S → List ℕ
  incoming_of [] found m = found
  incoming_of (out ∷ outs) found m =
      incoming_of outs (add_items (ix.items_watching_spk (spk_hmac hmac k out.spk) m.index) found) m

  unfoldable pub match : Transaction → Matcher S → Result KeysError (List Match)
  match tx m = do
    out ← outgoing_of tx.inputs [] m
    ok (
        map (λ i. record { item_id = i; direction = outgoing }) out
        ++ map (λ i. record { item_id = i; direction = incoming }) (incoming_of tx.outputs [] m))

  unfoldable pub note_output : List ℕ → TxOutput → Matcher S → Result KeysError (Matcher S)
  note_output txid out m =
      let items = ix.items_watching_spk (spk_hmac hmac k out.spk) m.index in
      if is_empty items then ok m else do
        h ← outpoint_hmac hmac k txid out.vout
        ok (record m { provisional = add_provisional items txid h m.provisional })

  unfoldable pub note_unconfirmed :
      Transaction → Matcher S → Result KeysError (Unit {0}) × Matcher S
  note_unconfirmed tx m = each (note_output tx.txid) tx.outputs m

  unfoldable pub spend_input : OutPoint → Matcher S → Result KeysError (Matcher S)
  spend_input op m = do
    h ← outpoint_hmac hmac k op.txid op.vout
    ok (record m { index = drop_owners ix (ix.items_owning_outpoint h m.index) h m.index })

  unfoldable pub pay_output : List ℕ → TxOutput → Matcher S → Result KeysError (Matcher S)
  pay_output txid out m =
      let items = ix.items_watching_spk (spk_hmac hmac k out.spk) m.index in
      if is_empty items then ok m else do
        h ← outpoint_hmac hmac k txid out.vout
        ok (record m { index = add_owners ix items h m.index })

  -- The second half of `apply`, and its end.
  unfoldable pub apply_outputs :
      Transaction
      → Result KeysError (Unit {0}) × Matcher S
      → Result KeysError (Unit {0}) × Matcher S
  apply_outputs tx (err e, m) = (err e, m)
  apply_outputs tx (ok _, m) = close (each (pay_output tx.txid) tx.outputs m)
    where
      close : Result KeysError (Unit {0}) × Matcher S → Result KeysError (Unit {0}) × Matcher S
      close (err e, m') = (err e, m')
      close (ok _, m') = (ok tt, forget tx.txid m')

  unfoldable pub apply : Transaction → Matcher S → Result KeysError (Unit {0}) × Matcher S
  apply tx m = apply_outputs tx (each spend_input tx.inputs m)

  -- `process(tx)`.
  unfoldable pub process : Transaction → Matcher S → Result KeysError (List Match) × Matcher S
  process tx m = elim (match tx m) [
    | err e ↦ (err e, m)
    | ok found ↦ let (r, m') = apply tx m in (r >>= (λ _. ok found), m')
  ]
