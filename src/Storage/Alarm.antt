-- ===== src/Storage/Alarm.antt =====
-- The matcher over the store: an item that is enrolled alarms on the spend of its coin.
use coldwatch.Base.{
  ℕ, ◌≡◌, refl, sym, ◌∙◌, subst, true, false, some, List, [], ◌∷◌, ◌++◌, map, arith,
}
use coldwatch.Base.Keys.{ℕ_key, bytes_beq, bytes_beq_iff}
use coldwatch.Base.Dict.{get}
use coldwatch.Match.Index.Contract.{IsWatchIndex}
use coldwatch.Base.Results.{ok}
use coldwatch.Match.Keys.{Subkeys, spk_hmac}
use coldwatch.Match.Tx.{TxOutput, Transaction}
use coldwatch.Match.Index.Items.{has_item}
use coldwatch.Match.Matcher.{Matcher, outgoing, incoming, note_unconfirmed, apply, match}
use coldwatch.Match.Matcher.Reports.{IsMatchable, coin, match_reports}
use coldwatch.Match.Matcher.Record.{spends, creates, apply-Rewrites}
use coldwatch.Match.Matcher.Alarm.{note_unconfirmed_keeps, spends_from_owner}
use coldwatch.Storage.Rows.{is_tracked, ItemRow, Database}
use coldwatch.Storage.Store.Index.{
  add_outpoint, drop_outpoint, items_owning_outpoint, items_watching_spk, tracks, store_index,
}
use coldwatch.Storage.Store.Contract.{store_index-IsWatchIndex}
use coldwatch.Storage.Store.Steps.Valid.{IsValid}
use coldwatch.Storage.Store.Steps.{Call, is_drop, after, Step, spend}
use coldwatch.Storage.Store.Steps.Taken.{after-Step, add_outpoint-Step}
use coldwatch.Storage.Store.Steps.Sound.{Step-IsValid}
use coldwatch.Storage.Store.Steps.Holding.{Step-keeps}
use coldwatch.Storage.Coins.{has_item-owners}
use coldwatch.Storage.Store.Steps.Sealed.{has_item-watching}

module _ (hmac : List ℕ → List ℕ → List ℕ) (k : List ℕ) where
  -- An output to the script of an item that is tracked is a coin of the item.
  creates_lem :
      (i : ℕ) (row : ItemRow) (txid : List ℕ) (front rest : List TxOutput) (out : TxOutput)
      (db : Database)
      → IsValid db
      → get i db.items ≡ some row
      → is_tracked row.status ≡ true
      → row.spk_hmac ≡ spk_hmac hmac k out.spk
      → creates hmac k store_index i txid (front ++ out ∷ rest) (coin hmac k txid out.vout) db
        ≡ true
  unfolding creates items_watching_spk
  creates_lem i row txid [] rest out db w there live hashed =
      let key = coin hmac k txid out.vout in
      let same : bytes_beq key key ≡ true = (bytes_beq_iff key key).1 refl in
      let hash = spk_hmac hmac k out.spk in
      let same' : bytes_beq hash hash ≡ true = (bytes_beq_iff hash hash).1 refl in
      rw (same, has_item-watching i hash db.items w.items.unique, there, hashed, same', live) refl
  creates_lem i row txid (o ∷ front) rest out db w there live hashed =
      ground (arith, creates_lem i row txid front rest out db w there live hashed)

-- The contract again, for the databases that are in order.
abbrev kept : IsWatchIndex store_index
kept = store_index-IsWatchIndex.0

keyed : (db : Database) → IsValid db → kept.IsSound db
keyed db w = store_index-IsWatchIndex.1 db w.items.unique

add-IsValid : (i : ℕ) (h : List ℕ) (db : Database) → IsValid db → IsValid (add_outpoint i h db)
add-IsValid i h db w = Step-IsValid {d = false} (add_outpoint-Step i h db) w

drop-IsValid : (i : ℕ) (h : List ℕ) (db : Database) → IsValid db → IsValid (drop_outpoint i h db)
unfolding drop_outpoint
drop-IsValid i h db w = Step-IsValid (spend i h refl) w

abbrev laws : IsWatchIndex store_index
laws = record {
  IsSound = IsValid;
  tracks = kept.tracks;
  add-IsSound = add-IsValid;
  drop-IsSound = drop-IsValid;
  owning-add = λ i j h k db w. kept.owning-add i j h k db (keyed db w);
  owning-drop = λ i j h k db w. kept.owning-drop i j h k db (keyed db w);
  watching-add = kept.watching-add;
  watching-drop = kept.watching-drop;
  tracks-add = kept.tracks-add;
  tracks-drop = kept.tracks-drop;
  watching_tracked = λ i k db w there. kept.watching_tracked i k db (keyed db w) there;
}

module _ (sha256 : List ℕ → List ℕ) (hmac : List ℕ → List ℕ → List ℕ) (keys : Subkeys) where
  -- What may come between the deposit of the coin `h` and its spend: confirmed transactions that do not
  -- spend it, transactions of the mempool, and calls of the store that leave the item `i` tracked and
  -- are not the drop of a coin, which only `apply` makes.
  pub data Between (i : ℕ) (h : List ℕ) (m : Matcher Database) : Matcher Database → Type 0 where
    here : Between i h m m
    confirmed :
        {n : Matcher Database}
        → Between i h m n
        → (tx : Transaction) → IsMatchable tx
        → spends hmac keys.match tx.inputs h ≡ false
        → Between i h m (apply store_index hmac keys.match tx n).1
    unconfirmed :
        {n : Matcher Database}
        → Between i h m n
        → (tx : Transaction) → Between i h m (note_unconfirmed store_index hmac keys.match tx n).1
    called :
        {n : Matcher Database}
        → Between i h m n
        → (call : Call) → is_drop call ≡ false
        → tracks i (after sha256 hmac keys call n.index) ≡ true
        → Between i h m (record n { index = after sha256 hmac keys call n.index })

  call_keeps :
      (i : ℕ) (h : List ℕ) (call : Call) (db : Database)
      → IsValid db
      → has_item i (items_owning_outpoint h db) ≡ true
      → is_drop call ≡ false
      → tracks i (after sha256 hmac keys call db) ≡ true
      → IsValid (after sha256 hmac keys call db)
        × (has_item i (items_owning_outpoint h (after sha256 hmac keys call db)) ≡ true)
  unfolding items_owning_outpoint
  call_keeps i h call db w own other live =
      let new = after sha256 hmac keys call db in
      let step = subst (λ d. Step d db new) other (after-Step sha256 hmac keys call db) in
      let coin = sym (has_item-owners i h db.utxos) ∙ own in
      (Step-IsValid step w, has_item-owners i h new.utxos ∙ Step-keeps step w i h coin live)

  Between-keeps :
      (i : ℕ) (h : List ℕ) {m n : Matcher Database}
      → Between i h m n
      → IsValid m.index
      → has_item i (items_owning_outpoint h m.index) ≡ true
      → IsValid n.index × (has_item i (items_owning_outpoint h n.index) ≡ true)
  Between-keeps i h here w own = (w, own)
  Between-keeps i h (confirmed {n} rest tx good other) w own =
      let (w', own') = Between-keeps i h rest w own in
      let (t, e, after') = apply-Rewrites laws hmac keys.match tx n good w' in
      rw e (after'.sound, ground (arith, after'.owned i h))
  Between-keeps i h (unconfirmed {n} rest tx) w own =
      rw (note_unconfirmed_keeps laws hmac keys.match tx n) (Between-keeps i h rest w own)
  Between-keeps i h (called {n} rest call other live) w own =
      let (w', own') = Between-keeps i h rest w own in
      call_keeps i h call n.index w' own' other live

  -- The store as the matcher's index: a database in order, and an item of it that is armed, active or
  -- paused. Once `apply` has folded in a deposit to its script, and until a transaction spends that
  -- coin, whatever others are confirmed or seen in the mempool and whatever calls of the store come
  -- between them that leave the item tracked and drop no coin: `match` of a transaction that spends the
  -- coin reports an alarm for the item.
  pub store_alarms :
      (i : ℕ) (row : ItemRow) (deposit spender : Transaction) (front rest : List TxOutput)
      (out : TxOutput) (m : Matcher Database) {n : Matcher Database}
      → IsValid m.index
      → get i m.index.items ≡ some row
      → is_tracked row.status ≡ true
      → row.spk_hmac ≡ spk_hmac hmac keys.match out.spk
      → IsMatchable deposit
      → deposit.outputs ≡ front ++ out ∷ rest
      → Between i
          (coin hmac keys.match deposit.txid out.vout)
          (apply store_index hmac keys.match deposit m).1
          n
      → IsMatchable spender
      → spends hmac keys.match spender.inputs (coin hmac keys.match deposit.txid out.vout) ≡ true
      → (alarmed told : List ℕ) × (match store_index hmac keys.match spender n
          ≡ ok (
              map (λ j. record { item_id = j; direction = outgoing }) alarmed
              ++ map (λ j. record { item_id = j; direction = incoming }) told))
        × (has_item i alarmed ≡ true)
  store_alarms i row deposit spender front rest out m {n} w there live hashed good outs between
        good' spent =
      let h = coin hmac keys.match deposit.txid out.vout in
      let paid =
        creates_lem hmac keys.match i row deposit.txid front rest out m.index w there live hashed in
      let (t, e, after') = apply-Rewrites laws hmac keys.match deposit m good w in
      let armed : has_item i (items_owning_outpoint h t) ≡ true =
        ground (arith, after'.owned i h, paid, outs) in
      let (w', own) = Between-keeps i h between (rw e after'.sound) (rw e armed) in
      let (alarmed, told, returned, u, c, c') =
        match_reports hmac keys.match store_index spender n good' in
      (
        alarmed,
        told,
        returned,
        rw (c i) (spends_from_owner laws hmac keys.match i h spender.inputs n spent own),
      )
