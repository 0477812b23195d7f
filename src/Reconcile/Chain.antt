-- ===== src/Reconcile/Chain.antt =====
-- The blocks that `blocks_to_apply` yields, whatever the node answers.
use coldwatch.Base.{
  ℕ, zero, suc, ◌+◌, ◌≤◌, ◌≡◌, ◌⊎◌, ◌∙◌, refl, true, false, Option-cases, List, [], ◌∷◌, ◌++◌, ltb,
  length, length-append, Bool-cases, inl, inr, arith,
}
use coldwatch.Base.Keys.{bytes_beq, bytes_beq_iff}
use coldwatch.Base.Integers.{ℤ, sucℤ, distance}
use coldwatch.Base.Results.{Result, ok, err, Result-cases}
use coldwatch.Match.Block.{Block}
use coldwatch.Reconcile.{
  RpcFault, BitcoinRpc, ChainTip, ChainFollower, FollowError, answered, describe, field_of,
  height_of, on_active_chain, fetch, fetch_blocks, follows, fetch_missing, fetch_gap,
}

-- Each block names the one before it as its parent, from the hash `h` to the hash `e`.
pub data Chain : List ℕ → List Block → List ℕ → Type 0 where
  stop : {h : List ℕ} → Chain h [] h
  link :
      {h e : List ℕ} {b : Block} {bs : List Block}
      → b.prev_hash ≡ h
      → Chain b.block_hash bs e
      → Chain h (b ∷ bs) e

Chain-append :
    {h e : List ℕ} {bs : List Block} (b : Block)
    → Chain h bs e
    → b.prev_hash ≡ e
    → Chain h (bs ++ b ∷ []) b.block_hash
Chain-append b stop p = link p stop
Chain-append b (link q c) p = link q (Chain-append b c p)

-- A call of the node moves neither the tip nor the ceiling.
pub record Stays {R : Type 0} (f f' : ChainFollower R) : Type 0 where
  pub tip : f'.tip ≡ f.tip
  pub ceiling : f'.max_catch_up ≡ f.max_catch_up

Stays-refl : {R : Type 0} (f : ChainFollower R) → Stays f f
Stays-refl f = record { tip = refl; ceiling = refl }

pub Stays-trans : {R : Type 0} {f g h : ChainFollower R} → Stays f g → Stays g h → Stays f h
Stays-trans a b = record { tip = b.tip ∙ a.tip; ceiling = b.ceiling ∙ a.ceiling }

module _ {R J : Type 0} (node : BitcoinRpc R J) where
  answered-Stays : (a : Result RpcFault J × R) (f : ChainFollower R) → Stays f (answered node a f).1
  unfolding answered
  answered-Stays (err e, r) f = record { tip = refl; ceiling = refl }
  answered-Stays (ok a, r) f = record { tip = refl; ceiling = refl }

  describe-Stays : (hash : List ℕ) (f : ChainFollower R) → Stays f (describe node hash f).1
  unfolding describe
  describe-Stays hash f =
      let call = node.getblock_described hash f.rpc in
      elim (Result-cases (answered node call f).0) [
        | inr (e, q) ↦ rw (describe, q) (answered-Stays call f)
        | inl (a, q) ↦ elim (Bool-cases (node.is_dict a)) [
          | inl d ↦ rw (describe, q, d) (answered-Stays call f)
          | inr d ↦ rw (describe, q, d) (answered-Stays call f)
        ]
      ]

  pub height_of-Stays : (b : Block) (f : ChainFollower R) → Stays f (height_of node b f).1
  unfolding height_of
  height_of-Stays b f = elim (Result-cases (describe node b.block_hash f).0) [
    | inr (e, q) ↦ rw (height_of, q) (describe-Stays b.block_hash f)
    | inl (a, q) ↦ rw (height_of, q) (describe-Stays b.block_hash f)
  ]

  on_active_chain-Stays : (h : List ℕ) (f : ChainFollower R) → Stays f (on_active_chain node h f).1
  unfolding on_active_chain
  on_active_chain-Stays h f = elim (Result-cases (describe node h f).0) [
    | inr (e, q) ↦ rw (on_active_chain, q) (describe-Stays h f)
    | inl (a, q) ↦ elim (Result-cases (field_of node (node.confirmations a))) [
      | inr (e, q') ↦ rw (on_active_chain, q, q') (describe-Stays h f)
      | inl (n, q') ↦ rw (on_active_chain, q, q') (describe-Stays h f)
    ]
  ]

  module _ (sha256 : List ℕ → List ℕ) where
    fetch-Stays : (n : ℤ) (f : ChainFollower R) → Stays f (fetch node sha256 n f).1
    unfolding fetch
    fetch-Stays n f =
        let call = node.getblockhash n f.rpc in
        let f1 = (answered node call f).1 in
        elim (Result-cases (answered node call f).0) [
          | inr (e, q) ↦ rw (fetch, q) (answered-Stays call f)
          | inl (a, q) ↦
              let call' = node.getblock_raw a f1.rpc in
              elim (Result-cases (answered node call' f1).0) [
                | inr (e, q') ↦
                    rw (fetch, q, q')
                      (Stays-trans (answered-Stays call f) (answered-Stays call' f1))
                | inl (b, q') ↦
                    rw (fetch, q, q')
                      (Stays-trans (answered-Stays call f) (answered-Stays call' f1))
              ]
        ]

    -- The loop raises, or leaves a chain of `n` more blocks.
    fetch_blocks_lem :
        (n : ℕ) (at : ℤ) (start parent : List ℕ) (blocks : List Block) (f : ChainFollower R)
        → Chain start blocks parent
        → Stays f (fetch_blocks node sha256 n at parent blocks f).1
          × (((why : FollowError) × ((fetch_blocks node sha256 n at parent blocks f).0 ≡ err why))
              ⊎ ((all : List Block) × (end : List ℕ) × ((fetch_blocks node sha256 n at parent blocks
                      f).0
                    ≡ ok (all, end))
                  × Chain start all end
                  × (length all ≡ length blocks + n)))
    unfolding fetch_blocks
    fetch_blocks_lem zero at start parent blocks f c =
        (Stays-refl f, inr (blocks, parent, refl, c, omega arith))
    fetch_blocks_lem (suc n) at start parent blocks f c =
        elim (Result-cases (fetch node sha256 at f).0) [
          | inr (e, q) ↦ rw (fetch_blocks, q) (fetch-Stays at f, inl (e, refl))
          | inl (b, q) ↦
              let f' = (fetch node sha256 at f).1 in
              let g : ChainFollower R = record f' { fetched = f'.fetched + 1 } in
              elim (Bool-cases (bytes_beq b.prev_hash parent)) [
                | inr other ↦ rw (fetch_blocks, q, other) (fetch-Stays at f, inl (_, refl))
                | inl child ↦
                    let c' = Chain-append b c ((bytes_beq_iff b.prev_hash parent).0 child) in
                    let (stays, more) =
                      fetch_blocks_lem n (sucℤ at) start b.block_hash (blocks ++ b ∷ []) g c' in
                    let back : Stays f g = record {
                      tip = (fetch-Stays at f).tip;
                      ceiling = (fetch-Stays at f).ceiling;
                    } in
                    rw (fetch_blocks, q, child)
                      (
                        Stays-trans back stays,
                        elim more [
                          | inl raises ↦ inl raises
                          | inr (all, end, r, chain, size) ↦
                              inr (all, end, r, chain, size ∙ rw length-append (omega arith))
                        ],
                      )
              ]
        ]

    fetch_missing_lem :
        (block : Block) (target : ℤ) (tip : ChainTip) (f : ChainFollower R)
        → Stays f (fetch_missing node sha256 block target tip f).1
          × (((why : FollowError) × ((fetch_missing node sha256 block target tip f).0 ≡ err why))
              ⊎ ((all : List Block) × ((fetch_missing node sha256 block target tip f).0 ≡ ok all)
                  × Chain tip.hash (all ++ block ∷ []) block.block_hash
                  × (length all ≤ f.max_catch_up)))
    unfolding fetch_missing follows
    fetch_missing_lem block target tip f = elim (Option-cases (distance (sucℤ tip.height) target)) [
      | inl q ↦ rw (fetch_missing, q) (Stays-refl f, inl (_, refl))
      | inr (n, q) ↦ elim (Bool-cases (ltb f.max_catch_up n)) [
        | inl far ↦ rw (fetch_missing, q, far) (Stays-refl f, inl (_, refl))
        | inr near ↦
            let (stays, c) = fetch_blocks_lem n (sucℤ tip.height) tip.hash tip.hash [] f stop in
            elim c [
              | inl (why, r) ↦ rw (fetch_missing, q, near, r) (stays, inl (why, refl))
              | inr (all, end, r, chain, size) ↦ elim (Bool-cases (bytes_beq block.prev_hash end)) [
                | inr other ↦ rw (fetch_missing, q, near, r, other) (stays, inl (_, refl))
                | inl child ↦
                    rw (fetch_missing, q, near, r, child)
                      (
                        stays,
                        inr (
                          all,
                          refl,
                          Chain-append block chain ((bytes_beq_iff block.prev_hash end).0 child),
                          ground (arith, size),
                        ),
                      )
              ]
            ]
      ]
    ]

    -- `_fetch_gap` raises, or the blocks it returns and then `block` form a chain from the tip, no
    -- more of them than the ceiling allows.
    pub fetch_gap_lem :
        (block : Block) (target : ℤ) (tip : ChainTip) (f : ChainFollower R)
        → Stays f (fetch_gap node sha256 block target tip f).1
          × (((why : FollowError) × ((fetch_gap node sha256 block target tip f).0 ≡ err why))
              ⊎ ((all : List Block) × ((fetch_gap node sha256 block target tip f).0 ≡ ok all)
                  × Chain tip.hash (all ++ block ∷ []) block.block_hash
                  × (length all ≤ f.max_catch_up)))
    unfolding fetch_gap
    fetch_gap_lem block target tip f =
        let stays = on_active_chain-Stays tip.hash f in
        let f' = (on_active_chain node tip.hash f).1 in
        elim (Result-cases (on_active_chain node tip.hash f).0) [
          | inr (e, q) ↦ rw (fetch_gap, q) (stays, inl (e, refl))
          | inl (true, q) ↦
              let (stays', c) = fetch_missing_lem block target tip f' in
              rw (fetch_gap, q)
                (
                  Stays-trans stays stays',
                  elim c [
                    | inl raises ↦ inl raises
                    | inr (all, r, chain, few) ↦ inr (all, r, chain, rw (← stays.ceiling) few)
                  ],
                )
          | inl (false, q) ↦ rw (fetch_gap, q) (stays, inl (_, refl))
        ]
