-- ===== src/Match/Matcher/Reports.antt =====
-- What `Matcher.match` reports, for transactions whose outpoints can be hashed.
use coldwatch.Base.{
  ℕ, ◌<◌, ◌^◌, ◌≡◌, refl, Bool, true, false, List, [], ◌∷◌, ◌++◌, map, if◌then◌else◌, length, All,
  arith,
}
use coldwatch.Base.Bytes.{to_le}
use coldwatch.Base.Results.{ok}
use coldwatch.Match.Keys.{tag_outpoint, tagged, spk_hmac, outpoint_hmac}
use coldwatch.Match.Keys.Laws.{canonical_outpoint_ok}
use coldwatch.Match.Tx.{OutPoint, TxOutput, Transaction}
use coldwatch.Match.Tx.Loops.{IsOutPoint}
use coldwatch.Match.Index.Contract.{WatchIndex}
use coldwatch.Match.Index.Items.{
  has_item, add_items, IsDistinct, has_item-append, has_item-add_items, add_items-IsDistinct,
}
use coldwatch.Match.Provisional
use coldwatch.Match.Matcher.{outgoing, incoming, Matcher, outgoing_of, incoming_of, match}

abbrev pub HasIndex : TxOutput → Type 0
HasIndex out = out.vout < 2 ^ 32

-- A txid of 32 bytes, and indices of 32 bits.
pub record IsMatchable (tx : Transaction) : Type 0 where
  pub own_txid : length tx.txid ≡ 32
  pub spent : All IsOutPoint tx.inputs
  pub indexed : All HasIndex tx.outputs

module _ (hmac : List ℕ → List ℕ → List ℕ) (k : List ℕ) where
  -- The hash under which the coin `txid:vout` is kept.
  abbrev pub coin : List ℕ → ℕ → List ℕ
  coin txid vout = tagged hmac k tag_outpoint (txid ++ to_le 4 vout)

  pub outpoint_hmac_ok :
      (txid : List ℕ) (vout : ℕ)
      → length txid ≡ 32
      → vout < 2 ^ 32
      → outpoint_hmac hmac k txid vout ≡ ok (coin txid vout)
  unfolding outpoint_hmac
  outpoint_hmac_ok txid vout h v = rw (canonical_outpoint_ok txid vout h v)

  module _ {S : Type 0} (ix : WatchIndex S) where
    -- The item owns the coin `h`, in the record or in the mempool.
    abbrev pub holds : ℕ → List ℕ → Matcher S → Bool
    holds i h m =
        if has_item i (ix.items_owning_outpoint h m.index)
        then true
        else has_item i (Provisional.items h m.provisional)

    -- One of the inputs spends a coin that the item owns.
    unfoldable pub spends_from : ℕ → List OutPoint → Matcher S → Bool
    spends_from i [] m = false
    spends_from i (op ∷ ops) m =
        if holds i (coin op.txid op.vout) m then true else spends_from i ops m

    -- One of the outputs pays to a script that the item watches.
    unfoldable pub pays_to : ℕ → List TxOutput → Matcher S → Bool
    pays_to i [] m = false
    pays_to i (out ∷ outs) m =
        if has_item i (ix.items_watching_spk (spk_hmac hmac k out.spk) m.index)
        then true
        else pays_to i outs m

    outgoing_lem :
        (ops : List OutPoint) (found : List ℕ) (m : Matcher S)
        → All IsOutPoint ops
        → IsDistinct found
        → (l : List ℕ) × (outgoing_of ix hmac k ops found m ≡ ok l)
          × IsDistinct l
          × ((i : ℕ) → has_item i l ≡ (if has_item i found then true else spends_from i ops m))
    unfolding outgoing_of spends_from
    outgoing_lem [] found m h d = (found, refl, d, λ i. ground arith)
    outgoing_lem (op ∷ ops) found m (h, hs) d =
        let key = coin op.txid op.vout in
        let new = ix.items_owning_outpoint key m.index ++ Provisional.items key m.provisional in
        let (l, e, u, c) =
          outgoing_lem ops (add_items new found) m hs (add_items-IsDistinct new found d) in
        (
          l,
          rw (outpoint_hmac_ok op.txid op.vout h.0 h.1) e,
          u,
          λ i. rw (c i, has_item-add_items i new found, has_item-append) (ground arith),
        )

    incoming_lem :
        (outs : List TxOutput) (found : List ℕ) (m : Matcher S)
        → IsDistinct found
        → IsDistinct (incoming_of ix hmac k outs found m)
          × ((i : ℕ)
              → has_item i (incoming_of ix hmac k outs found m)
                ≡ (if has_item i found then true else pays_to i outs m))
    unfolding incoming_of pays_to
    incoming_lem [] found m d = (d, λ i. ground arith)
    incoming_lem (out ∷ outs) found m d =
        let new = ix.items_watching_spk (spk_hmac hmac k out.spk) m.index in
        let (u, c) = incoming_lem outs (add_items new found) m (add_items-IsDistinct new found d) in
        (u, λ i. rw (c i, has_item-add_items i new found) (ground arith))

    -- `match` returns the alarms and behind them the receipts, no item twice among either; an alarm
    -- for exactly the items that own a coin which an input spends, in the record or in the mempool,
    -- and a receipt for exactly those that watch the script of an output.
    pub match_reports :
        (tx : Transaction) (m : Matcher S)
        → IsMatchable tx
        → (out into : List ℕ) × (match ix hmac k tx m
            ≡ ok (
                map (λ i. record { item_id = i; direction = outgoing }) out
                ++ map (λ i. record { item_id = i; direction = incoming }) into))
          × (IsDistinct out × IsDistinct into)
          × ((i : ℕ) → has_item i out ≡ spends_from i tx.inputs m)
          × ((i : ℕ) → has_item i into ≡ pays_to i tx.outputs m)
    unfolding match has_item IsDistinct
    match_reports tx m h =
        let (out, e, u, c) = outgoing_lem tx.inputs [] m h.spent tt in
        let (v, c') = incoming_lem tx.outputs [] m tt in
        (out, incoming_of ix hmac k tx.outputs [] m, rw e, (u, v), c, c')
