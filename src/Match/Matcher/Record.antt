-- ===== src/Match/Matcher/Record.antt =====
-- What `Matcher.apply` leaves in the record, over any index that keeps the contract.
use coldwatch.Base.{
  ℕ, ◌≡◌, refl, Bool, true, false, List, [], ◌∷◌, ◌&&◌, ==_iff, Bool-cases, inl, inr, if◌then◌else◌,
  length, All, arith,
}
use coldwatch.Base.Keys.{bytes_beq, bytes_beq_iff}
use coldwatch.Base.Results.{ok}
use coldwatch.Match.Keys.{spk_hmac}
use coldwatch.Match.Tx.{OutPoint, TxOutput, Transaction}
use coldwatch.Match.Tx.Loops.{IsOutPoint}
use coldwatch.Match.Index.Contract.{WatchIndex, IsWatchIndex}
use coldwatch.Match.Index.Items.{has_item, is_empty, has_item-is_empty}
use coldwatch.Match.Provisional
use coldwatch.Match.Matcher.{
  Matcher, each, drop_owners, add_owners, spend_input, pay_output, forget, apply_outputs, apply,
}
use coldwatch.Match.Matcher.Reports.{IsMatchable, HasIndex, coin, outpoint_hmac_ok}

module _ (hmac : List ℕ → List ℕ → List ℕ) (k : List ℕ) where
  -- One of the inputs is the coin `h`.
  unfoldable pub spends : List OutPoint → List ℕ → Bool
  spends [] h = false
  spends (op ∷ ops) h = if bytes_beq (coin hmac k op.txid op.vout) h then true else spends ops h

  module _ {S : Type 0} (ix : WatchIndex S) where
    -- One of the outputs is the coin `h` and pays to a script that the item watches in `s`.
    unfoldable pub creates : ℕ → List ℕ → List TxOutput → List ℕ → S → Bool
    creates i txid [] h s = false
    creates i txid (out ∷ outs) h s =
        if bytes_beq (coin hmac k txid out.vout) h
          && has_item i (ix.items_watching_spk (spk_hmac hmac k out.spk) s)
        then true
        else creates i txid outs h s

module _ {S : Type 0} {ix : WatchIndex S} (w : IsWatchIndex ix) where
  abbrev owns : ℕ → List ℕ → S → Bool
  owns i h s = has_item i (ix.items_owning_outpoint h s)

  -- From `s` to `t` the owners become those that `q` names, and nothing else is touched.
  pub record Rewrites (s t : S) (q : ℕ → List ℕ → Bool) : Type 0 where
    pub sound : w.IsSound t
    pub owned : (i : ℕ) (h : List ℕ) → has_item i (ix.items_owning_outpoint h t) ≡ q i h
    pub watched : (h : List ℕ) → ix.items_watching_spk h t ≡ ix.items_watching_spk h s
    pub tracked : (i : ℕ) → w.tracks i t ≡ w.tracks i s

  drop_all_lem :
      (items : List ℕ) (h : List ℕ) (s : S)
      → w.IsSound s
      → Rewrites s
          (drop_owners ix items h s)
          (λ i g. if has_item i items && bytes_beq h g then false else owns i g s)
  unfolding drop_owners has_item
  drop_all_lem [] h s sound = record {
    sound = sound;
    owned = λ i g. refl;
    watched = λ g. refl;
    tracked = λ i. refl;
  }
  drop_all_lem (j ∷ items) h s sound =
      let rest = drop_all_lem items h (ix.drop_outpoint j h s) (w.drop-IsSound j h s sound) in
      record {
        sound = rest.sound;
        owned = λ i g. ground (arith, rest.owned i g, w.owning-drop j i h g s sound);
        watched = λ g. rw (rest.watched g) (w.watching-drop j h g s);
        tracked = λ i. rw (rest.tracked i) (w.tracks-drop j i h s);
      }

  add_all_lem :
      (items : List ℕ) (h : List ℕ) (s : S)
      → w.IsSound s
      → Rewrites s
          (add_owners ix items h s)
          (λ i g. if has_item i items && (bytes_beq h g && w.tracks i s) then true else owns i g s)
  unfolding add_owners has_item
  add_all_lem [] h s sound = record {
    sound = sound;
    owned = λ i g. refl;
    watched = λ g. refl;
    tracked = λ i. refl;
  }
  add_all_lem (j ∷ items) h s sound =
      let rest = add_all_lem items h (ix.add_outpoint j h s) (w.add-IsSound j h s sound) in
      record {
        sound = rest.sound;
        owned = λ i g.
            ground (
              arith,
              rest.owned i g,
              w.owning-add j i h g s sound,
              w.tracks-add j i h s,
              ==_iff j i,
            );
        watched = λ g. rw (rest.watched g) (w.watching-add j h g s);
        tracked = λ i. rw (rest.tracked i) (w.tracks-add j i h s);
      }

  module _ (hmac : List ℕ → List ℕ → List ℕ) (k : List ℕ) where
    spend_lem :
        (ops : List OutPoint) (m : Matcher S)
        → All IsOutPoint ops
        → w.IsSound m.index
        → (t : S) × (each (spend_input ix hmac k) ops m ≡ (ok tt, record m { index = t }))
          × Rewrites m.index t (λ i h. if spends hmac k ops h then false else owns i h m.index)
    unfolding each spend_input spends
    spend_lem [] m hs sound = (
      m.index,
      refl,
      record { sound = sound; owned = λ i h. refl; watched = λ h. refl; tracked = λ i. refl },
    )
    spend_lem (op ∷ ops) m (h, hs) sound =
        let key = coin hmac k op.txid op.vout in
        let first = drop_all_lem (ix.items_owning_outpoint key m.index) key m.index sound in
        let s = drop_owners ix (ix.items_owning_outpoint key m.index) key m.index in
        let (t, e, rest) = spend_lem ops (record m { index = s }) hs first.sound in
        (
          t,
          rw (each, outpoint_hmac_ok hmac k op.txid op.vout h.0 h.1) e,
          record {
            sound = rest.sound;
            owned = λ i g. ground (arith, rest.owned i g, first.owned i g, bytes_beq_iff key g);
            watched = λ g. rw (rest.watched g) (first.watched g);
            tracked = λ i. rw (rest.tracked i) (first.tracked i);
          },
        )

    creates_stable :
        (i : ℕ) (txid : List ℕ) (outs : List TxOutput) (h : List ℕ) (s t : S)
        → ((g : List ℕ) → ix.items_watching_spk g t ≡ ix.items_watching_spk g s)
        → creates hmac k ix i txid outs h t ≡ creates hmac k ix i txid outs h s
    unfolding creates
    creates_stable i txid [] h s t e = refl
    creates_stable i txid (out ∷ outs) h s t e =
        rw (e (spk_hmac hmac k out.spk), creates_stable i txid outs h s t e)

    pay_lem :
        (txid : List ℕ) (outs : List TxOutput) (m : Matcher S)
        → length txid ≡ 32
        → All HasIndex outs
        → w.IsSound m.index
        → (t : S) × (each (pay_output ix hmac k txid) outs m ≡ (ok tt, record m { index = t }))
          × Rewrites m.index t
              (λ i h. if creates hmac k ix i txid outs h m.index then true else owns i h m.index)
    unfolding each pay_output creates
    pay_lem txid [] m size hs sound = (
      m.index,
      refl,
      record { sound = sound; owned = λ i h. refl; watched = λ h. refl; tracked = λ i. refl },
    )
    pay_lem txid (out ∷ outs) m size (v, hs) sound =
        let items = ix.items_watching_spk (spk_hmac hmac k out.spk) m.index in
        let key = coin hmac k txid out.vout in
        let spk = spk_hmac hmac k out.spk in
        elim (Bool-cases (is_empty items)) [
          | inl nobody ↦
              let (t, e, rest) = pay_lem txid outs m size hs sound in
              (
                t,
                rw (each, nobody) e,
                record {
                  sound = rest.sound;
                  owned =
                      λ i g. rw (rest.owned i g) (ground (arith, has_item-is_empty i items nobody));
                  watched = rest.watched;
                  tracked = rest.tracked;
                },
              )
          | inr some_one ↦
              let first = add_all_lem items key m.index sound in
              let s = add_owners ix items key m.index in
              let (t, e, rest) = pay_lem txid outs (record m { index = s }) size hs first.sound in
              (
                t,
                rw (each, some_one, outpoint_hmac_ok hmac k txid out.vout size v) e,
                record {
                  sound = rest.sound;
                  owned = λ i g. ground (
                    arith,
                    rest.owned i g,
                    first.owned i g,
                    creates_stable i txid outs g m.index s first.watched,
                    w.watching_tracked i spk m.index sound,
                  );
                  watched = λ g. rw (rest.watched g) (first.watched g);
                  tracked = λ i. rw (rest.tracked i) (first.tracked i);
                },
              )
        ]

    -- `apply` returns. After it an item owns a coin if the transaction pays that coin to a script it
    -- watches, or if it owned the coin before and no input spends it; the watched scripts are as they
    -- were, and the coins of the transaction leave memory.
    pub apply-Rewrites :
        (tx : Transaction) (m : Matcher S)
        → IsMatchable tx
        → w.IsSound m.index
        → (t : S) × (apply ix hmac k tx m
            ≡ (ok tt, record { index = t; provisional = Provisional.forget tx.txid m.provisional }))
          × Rewrites m.index t (λ i h.
            if creates hmac k ix i tx.txid tx.outputs h m.index
            then true
            else if spends hmac k tx.inputs h
            then false
            else has_item i (ix.items_owning_outpoint h m.index))
    unfolding apply apply_outputs forget
    apply-Rewrites tx m h sound =
        let (s, e, first) = spend_lem tx.inputs m h.spent sound in
        let (t, e', rest) =
          pay_lem tx.txid tx.outputs (record m { index = s }) h.own_txid h.indexed first.sound in
        (
          t,
          rw (e, e'),
          record {
            sound = rest.sound;
            owned = λ i g. ground (
              arith,
              rest.owned i g,
              first.owned i g,
              creates_stable i tx.txid tx.outputs g m.index s first.watched,
            );
            watched = λ g. rw (rest.watched g) (first.watched g);
            tracked = λ i. rw (rest.tracked i) (first.tracked i);
          },
        )
