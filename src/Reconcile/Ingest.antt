-- ===== src/Reconcile/Ingest.antt =====
-- The ingest with the follower as its hook.
use coldwatch.Base.{ℕ, ◌+◌, ◌≡◌, ◌⊎◌, ◌∙◌, ap, true, false, some, List, [], length, inl, inr, arith}
use coldwatch.Base.Integers.{ℤ}
use coldwatch.Base.Results.{ok, err}
use coldwatch.Match.Block.{Block, parse_block}
use coldwatch.Match.Index.Contract.{WatchIndex}
use coldwatch.Match.Matcher.{Match}
use coldwatch.Match.Stream.{StreamIngest, StreamError, handle_block}
use coldwatch.Match.Stream.Folds.{Folds, transactions_of, owed_blocks}
use coldwatch.Match.Stream.Flag.{transaction_count, repair_settles}
use coldwatch.Reconcile.{BitcoinRpc, ChainTip, ChainFollower, FollowError, blocks_to_apply}
use coldwatch.Reconcile.Chain.{Chain}
use coldwatch.Reconcile.Repair.{known, failed, repaired, blocks_to_apply-Repairs}

-- The outcome of a block for an ingest that has followed the chain to `tip` and whose follower
-- yielded `owed`: from `s` to `t`, either the block is the tip and nothing was yielded or changed;
-- or `owed` is a chain from the tip to the block, `apply` folded every transaction of it into the
-- matcher in order, and the block is the tip.
pub data Applied {S R : Type 0} (ix : WatchIndex S) (hmac : List ℕ → List ℕ → List ℕ) (k : List ℕ)
    (tip : ChainTip) (block : Block) (owed : List Block) (s t : StreamIngest S (ChainFollower R))
    : Type 0 where
  repeated :
      block.block_hash ≡ tip.hash
      → owed ≡ []
      → t.follower.tip ≡ s.follower.tip
      → t.blocks ≡ s.blocks
      → t.confirmed ≡ s.confirmed
      → Folds ix hmac k [] s.matcher t.matcher
      → Applied ix hmac k tip block owed s t
  advanced :
      (height : ℤ)
      → Chain tip.hash owed block.block_hash
      → t.follower.tip ≡ some (record { hash = block.block_hash; height = height })
      → t.blocks ≡ s.blocks + length owed
      → t.confirmed ≡ s.confirmed + transaction_count owed
      → Folds ix hmac k (transactions_of owed) s.matcher t.matcher
      → Applied ix hmac k tip block owed s t

module _ {S R J : Type 0} (node : BitcoinRpc R J) (sha256 : List ℕ → List ℕ) (ix : WatchIndex S)
    (hmac : List ℕ → List ℕ → List ℕ) (k : List ℕ) where
  -- With a follower at `tip` as its hook, `_handle_block` of a block that parses either raises and
  -- sets the flag, or clears the flag; and then either the block was the tip, the follower yielded
  -- nothing and the matcher is unchanged, or the blocks that the follower yielded are an unbroken
  -- chain from the tip to the block, `apply` returned on every transaction of them in order and
  -- made the matcher what it is, and the block is the new tip.
  pub handle_block-Applied :
      (body : List ℕ) (block : Block) (tip : ChainTip) (s : StreamIngest S (ChainFollower R))
      → parse_block sha256 body ≡ ok block
      → s.follower.tip ≡ some tip
      → ((why : StreamError FollowError) × ((handle_block sha256 ix hmac k
              (some (blocks_to_apply node sha256))
              body
              s).0
            ≡ err why)
          × ((handle_block sha256 ix hmac k
                (some (blocks_to_apply node sha256))
                body
                s).1.tracker.needs_reconciliation
              ≡ true))
        ⊎ ((alerts : List Match) × ((handle_block sha256 ix hmac k
                (some (blocks_to_apply node sha256))
                body
                s).0
              ≡ ok alerts)
            × ((handle_block sha256 ix hmac k
                  (some (blocks_to_apply node sha256))
                  body
                  s).1.tracker.needs_reconciliation
                ≡ false)
            × Applied ix hmac k tip block
                (owed_blocks (blocks_to_apply node sha256 s.follower block))
                s
                (handle_block sha256 ix hmac k (some (blocks_to_apply node sha256)) body s).1)
  unfolding transaction_count transactions_of
  handle_block-Applied body block tip s parsed at =
      elim (repair_settles sha256 ix hmac k (blocks_to_apply node sha256) body block s parsed) [
        | inl raises ↦ inl raises
        | inr (alerts, returned, clear, whole, f, b, n, folds) ↦ inr (
          alerts,
          returned,
          clear,
          elim (blocks_to_apply-Repairs node sha256 s.follower tip block at) [
            | known same nothing _ stays ↦
                repeated same nothing (ap (λ (g : ChainFollower R). g.tip) f ∙ stays)
                  (omega (arith, rw nothing at b)) (omega (arith, rw nothing at n))
                  (rw nothing at folds)
            | failed why nothing raises stays ↦ absurd (ground (arith, whole, raises))
            | repaired height chain few _ moved ↦
                advanced height chain (ap (λ (g : ChainFollower R). g.tip) f ∙ moved) b n folds
          ],
        )
      ]
