-- ===== src/Match/Stream/Folds.antt =====
-- What a pass over blocks does to the record: the fold of `Matcher.apply` over their transactions.
use coldwatch.Base.{ℕ, ◌+◌, ◌≡◌, ◌⊎◌, refl, List, [], ◌∷◌, ◌++◌, Bool-cases, inl, inr, arith}
use coldwatch.Base.Results.{ok, err, Result-cases}
use coldwatch.Match.Tx.{Transaction}
use coldwatch.Match.Block.{Block}
use coldwatch.Match.Index.Contract.{WatchIndex}
use coldwatch.Match.Matcher.{Match, Matcher, match, apply}
use coldwatch.Match.Stream.{
  StreamIngest, StreamError, Owed, finished, raised, due, note_seen, confirm, confirm_all,
  apply_block, consume,
}
use coldwatch.Match.Stream.Writes.{note_seen_keeps}

-- The transactions of blocks, in order.
unfoldable pub transactions_of : List Block → List Transaction
transactions_of [] = []
transactions_of (block ∷ blocks) = block.transactions ++ transactions_of blocks

module _ {F X : Type 0} where
  -- The blocks that the generator yields.
  unfoldable pub owed_blocks : Owed F X → List Block
  owed_blocks (finished f) = []
  owed_blocks (raised x f) = []
  owed_blocks (due block f rest) = block ∷ owed_blocks rest

module _ {S : Type 0} (ix : WatchIndex S) (hmac : List ℕ → List ℕ → List ℕ) (k : List ℕ) where
  -- `apply` was called on each of the transactions in order, on the matcher that the call before
  -- left, and each call returned.
  pub data Folds : List Transaction → Matcher S → Matcher S → Type 0 where
    nothing : {m : Matcher S} → Folds [] m m
    fold :
        {tx : Transaction} {txs : List Transaction} {m after last : Matcher S}
        → apply ix hmac k tx m ≡ (ok tt, after)
        → Folds txs after last
        → Folds (tx ∷ txs) m last

  pub Folds-append :
      {txs more : List Transaction} {m after last : Matcher S}
      → Folds txs m after
      → Folds more after last
      → Folds (txs ++ more) m last
  Folds-append nothing b = b
  Folds-append (fold e a) b = fold e (Folds-append a b)

module _ {S F : Type 0} (X : Type 0) (ix : WatchIndex S) (hmac : List ℕ → List ℕ → List ℕ)
    (k : List ℕ) where
  -- A pass over one transaction raises, or folds it in.
  pub confirm-Folds :
      (tx : Transaction) (s : StreamIngest S F)
      → ((why : StreamError X) × ((confirm {X = X} ix hmac k tx s).0 ≡ err why))
        ⊎ (apply ix hmac k tx s.matcher ≡ (ok tt, (confirm {X = X} ix hmac k tx s).1.matcher))
  unfolding confirm
  confirm-Folds tx s = elim (Result-cases (match ix hmac k tx s.matcher)) [
    | inr (e, q) ↦ rw (confirm, q) (inl (_, refl))
    | inl (found, q) ↦ elim (Result-cases (apply ix hmac k tx s.matcher).0) [
      | inr (e, q') ↦ rw (confirm, q, q') (inl (_, refl))
      | inl (u, q') ↦
          let m = (apply ix hmac k tx s.matcher).1 in
          let s1 : StreamIngest S F = record s { matcher = m; confirmed = s.confirmed + 1 } in
          let (kept, _) = note_seen_keeps found tx.txid s1 in
          elim (Bool-cases (note_seen found tx.txid s1).0) [
            | inl new ↦ rw (confirm, q, q', new, kept) (inr refl)
            | inr old ↦ rw (confirm, q, q', old, kept) (inr refl)
          ]
    ]
  ]

  pub confirm_all-Folds :
      (txs : List Transaction) (alerts : List Match) (s : StreamIngest S F)
      → ((why : StreamError X) × ((confirm_all {X = X} ix hmac k txs alerts s).0 ≡ err why))
        ⊎ Folds ix hmac k txs s.matcher (confirm_all {X = X} ix hmac k txs alerts s).1.matcher
  unfolding confirm_all
  confirm_all-Folds [] alerts s = inr nothing
  confirm_all-Folds (tx ∷ txs) alerts s = elim (Result-cases (confirm {X = X} ix hmac k tx s).0) [
    | inr (e, q) ↦ rw (confirm_all, q) (inl (e, refl))
    | inl (found, q) ↦
        let s1 = (confirm {X = X} ix hmac k tx s).1 in
        rw (confirm_all, q)
          (elim (confirm-Folds tx s) [
            | inl (why, stop) ↦ absurd (ground (arith, q, stop))
            | inr one ↦ elim (confirm_all-Folds txs (alerts ++ found) s1) [
              | inl raises ↦ inl raises
              | inr rest ↦ inr (fold one rest)
            ]
          ])
  ]

  apply_block-Folds :
      (block : Block) (s : StreamIngest S F)
      → ((why : StreamError X) × ((apply_block {X = X} ix hmac k block s).0 ≡ err why))
        ⊎ Folds ix hmac k block.transactions s.matcher
            (apply_block {X = X} ix hmac k block s).1.matcher
  unfolding apply_block
  apply_block-Folds block s =
      confirm_all-Folds block.transactions [] (record s { blocks = s.blocks + 1 })

  -- A pass over the blocks owed raises, or folds in the transactions of every one of them.
  pub consume-Folds :
      (owed : Owed F X) (alerts : List Match) (s : StreamIngest S F)
      → ((why : StreamError X) × ((consume ix hmac k owed alerts s).0 ≡ err why))
        ⊎ Folds ix hmac k
            (transactions_of (owed_blocks owed))
            s.matcher
            (consume ix hmac k owed alerts s).1.matcher
  unfolding consume owed_blocks transactions_of
  consume-Folds (finished f) alerts s = inr nothing
  consume-Folds (raised x f) alerts s = inl (_, refl)
  consume-Folds (due block f rest) alerts s =
      let s0 : StreamIngest S F = record s { follower = f } in
      elim (Result-cases (apply_block {X = X} ix hmac k block s0).0) [
        | inr (e, q) ↦ rw (consume, q) (inl (e, refl))
        | inl (found, q) ↦
            let s1 = (apply_block {X = X} ix hmac k block s0).1 in
            rw (consume, q)
              (elim (apply_block-Folds block s0) [
                | inl (why, stop) ↦ absurd (ground (arith, q, stop))
                | inr one ↦ elim (consume-Folds rest (alerts ++ found) s1) [
                  | inl raises ↦ inl raises
                  | inr more ↦ inr (Folds-append ix hmac k one more)
                ]
              ])
      ]
