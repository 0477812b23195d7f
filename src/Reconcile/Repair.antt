-- ===== src/Reconcile/Repair.antt =====
-- What `blocks_to_apply` owes the record, whatever the node answers.
use coldwatch.Base.{
  ℕ, ◌+◌, ◌≤◌, ◌≡◌, refl, sym, ap, none, some, List, [], ◌∷◌, ◌++◌, length, length-append,
  Bool-cases, inl, inr, arith,
}
use coldwatch.Base.Keys.{bytes_beq, bytes_beq_iff}
use coldwatch.Base.Integers.{ℤ, sucℤ}
use coldwatch.Base.Results.{Result-cases}
use coldwatch.Match.Block.{Block}
use coldwatch.Match.Stream.{Owed}
use coldwatch.Match.Stream.Folds.{owed_blocks}
use coldwatch.Match.Stream.Flag.{fault, last_state}
use coldwatch.Reconcile.{
  BitcoinRpc, ChainTip, ChainFollower, FollowError, height_of, advance, advance_all, catch_up,
  blocks_to_apply,
}
use coldwatch.Reconcile.Chain.{
  Chain, stop, link, Stays, Stays-trans, height_of-Stays, fetch_gap_lem,
}

-- The ways in which a follower at `tip` answers a block: the block is the tip itself, and nothing is
-- owed; it raises before it yields, and the tip stays; or it yields a chain that begins at the tip
-- and ends with the block, which is then the tip, within the ceiling.
pub data Repairs {R : Type 0} (tip : ChainTip) (block : Block) (f : ChainFollower R)
    (owed : Owed (ChainFollower R) FollowError) : Type 0 where
  known :
      block.block_hash ≡ tip.hash
      → owed_blocks owed ≡ []
      → fault owed ≡ none
      → (last_state owed).tip ≡ f.tip
      → Repairs tip block f owed
  failed :
      (why : FollowError)
      → owed_blocks owed ≡ []
      → fault owed ≡ some why
      → (last_state owed).tip ≡ f.tip
      → Repairs tip block f owed
  repaired :
      (height : ℤ)
      → Chain tip.hash (owed_blocks owed) block.block_hash
      → length (owed_blocks owed) ≤ f.max_catch_up + 1
      → fault owed ≡ none
      → (last_state owed).tip ≡ some (record { hash = block.block_hash; height = height })
      → Repairs tip block f owed

module _ {R J : Type 0} (node : BitcoinRpc R J) (sha256 : List ℕ → List ℕ) where
  advance_all_lem :
      (blocks : List Block) (height : ℤ) (block : Block) (target : ℤ) (f : ChainFollower R)
      → (owed_blocks (advance_all node sha256 blocks height block target f) ≡ blocks ++ block ∷ [])
        × (fault (advance_all node sha256 blocks height block target f) ≡ none)
        × ((last_state (advance_all node sha256 blocks height block target f)).tip
            ≡ some (record { hash = block.block_hash; height = target }))
  unfolding advance_all advance owed_blocks fault last_state
  advance_all_lem [] height block target f = (refl, refl, refl)
  advance_all_lem (b ∷ bs) height block target f =
      let next : ChainFollower R = record f {
        tip = some (record { hash = b.block_hash; height = sucℤ height });
      } in
      let (o, n, l) = advance_all_lem bs (sucℤ height) block target next in
      (ap (λ t. b ∷ t) o, n, l)

  advance_all-Repairs :
      (tip : ChainTip) (blocks : List Block) (height : ℤ) (block : Block) (target : ℤ)
      (f g : ChainFollower R)
      → Chain tip.hash (blocks ++ block ∷ []) block.block_hash
      → length blocks ≤ f.max_catch_up
      → Repairs tip block f (advance_all node sha256 blocks height block target g)
  advance_all-Repairs tip blocks height block target f g chain few =
      let (o, n, l) = advance_all_lem blocks height block target g in
      repaired target (rw o chain) (rw (o, length-append) (omega arith)) n l

  catch_up-Repairs :
      (tip : ChainTip) (block : Block) (f g : ChainFollower R)
      → Stays f g
      → Repairs tip block f (catch_up node sha256 block tip g)
  unfolding catch_up owed_blocks fault last_state
  catch_up-Repairs tip block f g same =
      let at_target = Stays-trans same (height_of-Stays node block g) in
      let g1 = (height_of node block g).1 in
      elim (Result-cases (height_of node block g).0) [
        | inr (e, q) ↦ rw (catch_up, q) (failed e refl refl at_target.tip)
        | inl (target, q) ↦
            let (stays, c) = fetch_gap_lem node sha256 block target tip g1 in
            elim c [
              | inl (why, r) ↦
                  rw (catch_up, q, r) (failed why refl refl (Stays-trans at_target stays).tip)
              | inr (all, r, chain, few) ↦
                  rw (catch_up, q, r)
                    (advance_all-Repairs tip all tip.height block target f _ chain
                      (rw (← at_target.ceiling) few))
            ]
      ]

  -- Whatever the node answers, a follower at a tip either finds that the block is the tip and owes
  -- nothing, or raises before it yields and keeps its tip, or yields blocks each of which names the
  -- one before it as its parent, from the tip to the block, no more than the ceiling and the block
  -- itself, and has the block as its tip once they are applied.
  pub blocks_to_apply-Repairs :
      (f : ChainFollower R) (tip : ChainTip) (block : Block)
      → f.tip ≡ some tip
      → Repairs tip block f (blocks_to_apply node sha256 f block)
  unfolding blocks_to_apply advance owed_blocks fault last_state
  blocks_to_apply-Repairs f tip block q = elim (Bool-cases (bytes_beq block.prev_hash tip.hash)) [
    | inl child ↦
        simp (blocks_to_apply, q, child)
          (repaired (sucℤ tip.height) (link ((bytes_beq_iff block.prev_hash tip.hash).0 child) stop)
            (omega arith) refl refl)
    | inr other ↦ elim (Bool-cases (bytes_beq block.block_hash tip.hash)) [
      | inl same ↦
          simp (blocks_to_apply, q, other, same)
            (known ((bytes_beq_iff block.block_hash tip.hash).0 same) refl refl refl)
      | inr new ↦
          simp (blocks_to_apply, q, other, new)
            (catch_up-Repairs tip block f _ (record { tip = sym q; ceiling = refl }))
    ]
  ]
