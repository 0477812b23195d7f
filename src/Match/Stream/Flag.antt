-- ===== src/Match/Stream/Flag.antt =====
-- The flag over a pass through a block, and what a pass that returned has counted and applied.
use coldwatch.Base.{
  ℕ, ◌+◌, ◌≡◌, ◌⊎◌, ◌∙◌, refl, true, false, Option, none, some, List, [], ◌∷◌, ◌++◌, length,
  Bool-cases, inl, inr, arith,
}
use coldwatch.Base.Keys.{string_key}
use coldwatch.Base.Results.{ok, err, Result-cases}
use coldwatch.Match.Sequence.{flag_for_reconciliation, reconciled}
use coldwatch.Match.Tx.{Transaction}
use coldwatch.Match.Block.{Block, parse_block}
use coldwatch.Match.Index.Contract.{WatchIndex}
use coldwatch.Match.Matcher.{Match, match, apply}
use coldwatch.Match.Stream.{
  StreamIngest, StreamError, Owed, finished, raised, due, note_seen, confirm, confirm_all,
  apply_block, consume, settle, expand_block, handle_block,
}
use coldwatch.Match.Stream.Folds.{Folds, transactions_of, owed_blocks, consume-Folds}

module _ {F X : Type 0} where
  -- What it raises behind the last one.
  unfoldable pub fault : Owed F X → Option X
  fault (finished f) = none
  fault (raised x f) = some x
  fault (due block f rest) = fault rest

  -- What the hook's owner holds when it was resumed to its end.
  unfoldable pub last_state : Owed F X → F
  last_state (finished f) = f
  last_state (raised x f) = f
  last_state (due block f rest) = last_state rest

unfoldable pub transaction_count : List Block → ℕ
transaction_count [] = 0
transaction_count (block ∷ blocks) = length block.transactions + transaction_count blocks

module _ {S F : Type 0} where
  note_seen_counts :
      (found : List Match) (txid : List ℕ) (s : StreamIngest S F)
      → ((note_seen found txid s).1.blocks ≡ s.blocks)
        × ((note_seen found txid s).1.confirmed ≡ s.confirmed)
        × ((note_seen found txid s).1.tracker ≡ s.tracker)
  unfolding note_seen
  note_seen_counts [] txid s = (refl, refl, refl)
  note_seen_counts (x ∷ found) txid s = (refl, refl, refl)

module _ {S F : Type 0} (X : Type 0) (ix : WatchIndex S) (hmac : List ℕ → List ℕ → List ℕ)
    (k : List ℕ) where
  confirm_lem :
      (tx : Transaction) (s : StreamIngest S F)
      → ((confirm {X = X} ix hmac k tx s).1.tracker ≡ s.tracker)
        × ((confirm {X = X} ix hmac k tx s).1.blocks ≡ s.blocks)
        × (((why : StreamError X) × ((confirm {X = X} ix hmac k tx s).0 ≡ err why))
            ⊎ ((confirm {X = X} ix hmac k tx s).1.confirmed ≡ s.confirmed + 1))
  unfolding confirm
  confirm_lem tx s = elim (Result-cases (match ix hmac k tx s.matcher)) [
    | inr (e, q) ↦ rw (confirm, q) (refl, refl, inl (_, refl))
    | inl (found, q) ↦ elim (Result-cases (apply ix hmac k tx s.matcher).0) [
      | inr (e, q') ↦ rw (confirm, q, q') (refl, refl, inl (_, refl))
      | inl (u, q') ↦
          let m = (apply ix hmac k tx s.matcher).1 in
          let s1 : StreamIngest S F = record s { matcher = m; confirmed = s.confirmed + 1 } in
          let (b, c, t) = note_seen_counts found tx.txid s1 in
          elim (Bool-cases (note_seen found tx.txid s1).0) [
            | inl new ↦ rw (confirm, q, q', new) (t, b, inr c)
            | inr old ↦ rw (confirm, q, q', old) (t, b, inr c)
          ]
    ]
  ]

  -- A pass over transactions keeps the tracker and, unless it raises, counts each of them.
  confirm_all_lem :
      (txs : List Transaction) (alerts : List Match) (s : StreamIngest S F)
      → ((confirm_all {X = X} ix hmac k txs alerts s).1.tracker ≡ s.tracker)
        × ((confirm_all {X = X} ix hmac k txs alerts s).1.blocks ≡ s.blocks)
        × (((why : StreamError X) × ((confirm_all {X = X} ix hmac k txs alerts s).0 ≡ err why))
            ⊎ ((confirm_all {X = X} ix hmac k txs alerts s).1.confirmed ≡ s.confirmed + length txs))
  unfolding confirm_all
  confirm_all_lem [] alerts s = (refl, refl, inr (omega arith))
  confirm_all_lem (tx ∷ txs) alerts s =
      let (t, b, c) = confirm_lem tx s in
      elim (Result-cases (confirm {X = X} ix hmac k tx s).0) [
        | inr (e, q) ↦ rw (confirm_all, q) (t, b, inl (e, refl))
        | inl (found, q) ↦
            let s1 = (confirm {X = X} ix hmac k tx s).1 in
            let (t', b', c') = confirm_all_lem txs (alerts ++ found) s1 in
            rw (confirm_all, q)
              (
                t' ∙ t,
                b' ∙ b,
                elim c' [
                  | inl raises ↦ inl raises
                  | inr counted ↦ elim c [
                    | inl (why, stop) ↦ absurd (ground (arith, q, stop))
                    | inr one ↦ inr (omega (arith, counted, one))
                  ]
                ],
              )
      ]

  apply_block_lem :
      (block : Block) (s : StreamIngest S F)
      → ((apply_block {X = X} ix hmac k block s).1.tracker ≡ s.tracker)
        × ((apply_block {X = X} ix hmac k block s).1.blocks ≡ s.blocks + 1)
        × (((why : StreamError X) × ((apply_block {X = X} ix hmac k block s).0 ≡ err why))
            ⊎ ((apply_block {X = X} ix hmac k block s).1.confirmed
                ≡ s.confirmed + length block.transactions))
  unfolding apply_block
  apply_block_lem block s =
      confirm_all_lem block.transactions [] (record s { blocks = s.blocks + 1 })

  -- A pass over the blocks owed either raises, or none is missing and the generator came to its end.
  consume_lem :
      (owed : Owed F X) (alerts : List Match) (s : StreamIngest S F)
      → ((consume ix hmac k owed alerts s).1.tracker ≡ s.tracker)
        × (((why : StreamError X) × ((consume ix hmac k owed alerts s).0 ≡ err why))
            ⊎ ((fault owed ≡ none)
                × ((consume ix hmac k owed alerts s).1.follower ≡ last_state owed)
                × ((consume ix hmac k owed alerts s).1.blocks
                    ≡ s.blocks + length (owed_blocks owed))
                × ((consume ix hmac k owed alerts s).1.confirmed
                    ≡ s.confirmed + transaction_count (owed_blocks owed))))
  unfolding consume fault last_state owed_blocks transaction_count
  consume_lem (finished f) alerts s = (refl, inr (refl, refl, omega arith, omega arith))
  consume_lem (raised x f) alerts s = (refl, inl (_, refl))
  consume_lem (due block f rest) alerts s =
      let s0 : StreamIngest S F = record s { follower = f } in
      let (t, b, c) = apply_block_lem block s0 in
      elim (Result-cases (apply_block {X = X} ix hmac k block s0).0) [
        | inr (e, q) ↦ rw (consume, q) (t, inl (e, refl))
        | inl (found, q) ↦
            let s1 = (apply_block {X = X} ix hmac k block s0).1 in
            let (t', c') = consume_lem rest (alerts ++ found) s1 in
            rw (consume, q)
              (
                t' ∙ t,
                elim c' [
                  | inl raises ↦ inl raises
                  | inr (done, f', b', n') ↦ elim c [
                    | inl (why, stop) ↦ absurd (ground (arith, q, stop))
                    | inr n ↦ inr (done, f', omega (arith, b', b), omega (arith, n', n))
                  ]
                ],
              )
      ]

module _ {S F X : Type 0} (sha256 : List ℕ → List ℕ) (ix : WatchIndex S)
    (hmac : List ℕ → List ℕ → List ℕ) (k : List ℕ) where
  -- `_handle_block` of a block that parses, with a hook: either it raises, and then the flag is
  -- set; or it returns with the flag clear, and then the generator raised
  -- nothing and was resumed to its end, the counters went up by the blocks it yielded and by their
  -- transactions, and the matcher is what `apply` made of it, called on every transaction of those
  -- blocks in order and returning each time.
  pub repair_settles :
      (hook : F → Block → Owed F X) (body : List ℕ) (block : Block) (s : StreamIngest S F)
      → parse_block sha256 body ≡ ok block
      → ((why : StreamError X) × ((handle_block sha256 ix hmac k (some hook) body s).0 ≡ err why)
          × ((handle_block sha256 ix hmac k (some hook) body s).1.tracker.needs_reconciliation
              ≡ true))
        ⊎ ((alerts : List Match) × ((handle_block sha256 ix hmac k (some hook) body s).0
              ≡ ok alerts)
            × ((handle_block sha256 ix hmac k (some hook) body s).1.tracker.needs_reconciliation
                ≡ false)
            × (fault (hook s.follower block) ≡ none)
            × ((handle_block sha256 ix hmac k (some hook) body s).1.follower
                ≡ last_state (hook s.follower block))
            × ((handle_block sha256 ix hmac k (some hook) body s).1.blocks
                ≡ s.blocks + length (owed_blocks (hook s.follower block)))
            × ((handle_block sha256 ix hmac k (some hook) body s).1.confirmed
                ≡ s.confirmed + transaction_count (owed_blocks (hook s.follower block)))
            × Folds ix hmac k
                (transactions_of (owed_blocks (hook s.follower block)))
                s.matcher
                (handle_block sha256 ix hmac k (some hook) body s).1.matcher)
  unfolding handle_block expand_block settle flag_for_reconciliation reconciled
  repair_settles hook body block s parsed =
      let owed = hook s.follower block in
      let (t, c) = consume_lem X ix hmac k owed [] s in
      elim (Result-cases (consume ix hmac k owed [] s).0) [
        | inr (e, q) ↦ rw (handle_block, parsed, expand_block, settle, q) (inl (e, refl, refl))
        | inl (alerts, q) ↦ elim c [
          | inl (why, stop) ↦ absurd (ground (arith, q, stop))
          | inr (done, f', b', n') ↦ elim (consume-Folds X ix hmac k owed [] s) [
            | inl (why, stop) ↦ absurd (ground (arith, q, stop))
            | inr folds ↦
                rw (handle_block, parsed, expand_block, settle, q)
                  (inr (alerts, refl, refl, done, f', b', n', folds))
          ]
        ]
      ]
