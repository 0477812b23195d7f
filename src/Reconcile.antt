-- ===== src/Reconcile.antt =====
-- src/coldwatch/reconcile.py: `ChainFollower`. The client of the node is a parameter: a state of its
-- own, and for each kind of call an answer or a fault with the state it leaves. Of an answer the
-- code reads a hex string or an integer field.
pub mod Chain
pub mod Repair
pub mod Ingest
mod Tests
use coldwatch.Base.{
  ℕ, zero, suc, ◌+◌, Bool, true, false, Option, none, some, List, [], ◌∷◌, ◌++◌, ltb, if◌then◌else◌,
  length,
}
use coldwatch.Base.Keys.{bytes_beq}
use coldwatch.Base.Integers.{ℤ, sucℤ, is_pos, distance}
use coldwatch.Base.Results.{Result, ok, err}
use coldwatch.Match.Block.{Block, malformed, struct_error, parse_block}
use coldwatch.Match.Stream.{Owed, finished, raised, due}

-- `RpcError` and `RpcTransportError`.
pub data RpcFault : Type 0 where
  rpc_error : ℤ → RpcFault
  transport : RpcFault

-- What `isinstance(raw, str)` and `bytes.fromhex(raw)` say of an answer.
pub data Hex : Type 0 where
  not_text bad_hex : Hex
  decoded : List ℕ → Hex

-- What `int(described[...])` makes of a field: KeyError, TypeError or ValueError; the OverflowError of
-- a float that is infinite; or a number.
pub data Field : Type 0 where
  unusable infinite : Field
  number : ℤ → Field

-- The calls that the follower makes. `J` is the type of answers.
pub record BitcoinRpc (R J : Type 0) : Type 0 where
  -- `call("getblockhash", height)`.
  pub getblockhash : ℤ → R → Result RpcFault J × R
  -- `call("getblock", block_hash, 0)`.
  pub getblock_raw : J → R → Result RpcFault J × R
  -- `call("getblock", hash.hex(), 1)`, of a hash in internal byte order.
  pub getblock_described : List ℕ → R → Result RpcFault J × R
  pub as_hex : J → Hex
  pub is_dict : J → Bool
  pub height : J → Field
  pub confirmations : J → Field

pub data FollowError : Type 0 where
  catch_up_failed reorg_detected : FollowError
  -- `struct.error` out of `parse_block`, which `_fetch` does not name.
  fetch_struct_error : FollowError
  -- OverflowError out of `int`, which `_height_of` and `_on_active_chain` do not name.
  field_overflow : FollowError

pub record ChainTip : Type 0 where
  pub hash : List ℕ
  pub height : ℤ

pub record ChainFollower (R : Type 0) : Type 0 where
  pub rpc : R
  pub tip : Option ChainTip
  pub max_catch_up : ℕ
  pub fetched : ℕ
  pub catch_ups : ℕ

-- The outcome of a method, and the follower it leaves.
abbrev pub Followed : Type 0 → Type 0 → Type 0
Followed R A = Result FollowError A × ChainFollower R

module _ {R J : Type 0} (node : BitcoinRpc R J) where
  -- An answer to the follower, every fault a `CatchUpFailed`.
  unfoldable pub answered : Result RpcFault J × R → ChainFollower R → Followed R J
  answered (err fault, r) f = (err catch_up_failed, record f { rpc = r })
  answered (ok answer, r) f = (ok answer, record f { rpc = r })

  -- `_describe`.
  unfoldable pub describe : List ℕ → ChainFollower R → Followed R J
  describe block_hash f =
      let (r, f') = answered (node.getblock_described block_hash f.rpc) f in
      elim r [
        | err e ↦ (err e, f')
        | ok answer ↦ if node.is_dict answer then (ok answer, f') else (err catch_up_failed, f')
      ]

  unfoldable pub field_of : Field → Result FollowError ℤ
  field_of unusable = err catch_up_failed
  field_of infinite = err field_overflow
  field_of (number n) = ok n

  -- `_height_of`.
  unfoldable pub height_of : Block → ChainFollower R → Followed R ℤ
  height_of block f =
      let (r, f') = describe block.block_hash f in
      elim r [ err e ↦ (err e, f') | ok answer ↦ (field_of (node.height answer), f') ]

  -- `_on_active_chain`.
  unfoldable pub on_active_chain : List ℕ → ChainFollower R → Followed R Bool
  on_active_chain block_hash f =
      let (r, f') = describe block_hash f in
      elim r [
        | err e ↦ (err e, f')
        | ok answer ↦ elim (field_of (node.confirmations answer)) [
          | err e ↦ (err e, f')
          | ok n ↦ (ok (is_pos n), f')
        ]
      ]

  module _ (sha256 : List ℕ → List ℕ) where
    unfoldable pub parse_fetched : Hex → Result FollowError Block
    parse_fetched not_text = err catch_up_failed
    parse_fetched bad_hex = err catch_up_failed
    parse_fetched (decoded raw) = elim (parse_block sha256 raw) [
      | ok block ↦ ok block
      | err (malformed why) ↦ err catch_up_failed
      | err struct_error ↦ err fetch_struct_error
    ]

    -- `_fetch`.
    unfoldable pub fetch : ℤ → ChainFollower R → Followed R Block
    fetch height f =
        let (r, f1) = answered (node.getblockhash height f.rpc) f in
        elim r [
          | err e ↦ (err e, f1)
          | ok block_hash ↦
              let (r', f2) = answered (node.getblock_raw block_hash f1.rpc) f1 in
              elim r' [ err e ↦ (err e, f2) | ok raw ↦ (parse_fetched (node.as_hex raw), f2) ]
        ]

    -- The loop of `_fetch_gap`: `n` heights from `height` on, the blocks so far in front.
    unfoldable pub fetch_blocks :
        ℕ → ℤ → List ℕ → List Block → ChainFollower R → Followed R (List Block × List ℕ)
    fetch_blocks zero height parent blocks f = (ok (blocks, parent), f)
    fetch_blocks (suc n) height parent blocks f =
        let (r, f') = fetch height f in
        elim r [
          | err e ↦ (err e, f')
          | ok block ↦
              let rest =
                fetch_blocks n (sucℤ height) block.block_hash (blocks ++ block ∷ [])
                  (record f' { fetched = f'.fetched + 1 }) in
              if bytes_beq block.prev_hash parent then rest else (err reorg_detected, f')
        ]

    -- The end of `_fetch_gap`: the block must follow the last one.
    unfoldable pub follows :
        Block → Result FollowError (List Block × List ℕ) → Result FollowError (List Block)
    follows block (err e) = err e
    follows block (ok (blocks, parent)) =
        if bytes_beq block.prev_hash parent then ok blocks else err reorg_detected

    -- Its middle: how many blocks are missing below `target`.
    unfoldable pub fetch_missing : Block → ℤ → ChainTip → ChainFollower R → Followed R (List Block)
    fetch_missing block target tip f = elim (distance (sucℤ tip.height) target) [
      | none ↦ (err reorg_detected, f)
      | some missing ↦
          let (r, f') = fetch_blocks missing (sucℤ tip.height) tip.hash [] f in
          if ltb f.max_catch_up missing then (err catch_up_failed, f) else (follows block r, f')
    ]

    -- `_fetch_gap`.
    unfoldable pub fetch_gap : Block → ℤ → ChainTip → ChainFollower R → Followed R (List Block)
    fetch_gap block target tip f =
        let (r, f') = on_active_chain tip.hash f in
        elim r [
          | err e ↦ (err e, f')
          | ok active ↦
              if active then fetch_missing block target tip f' else (err reorg_detected, f')
        ]

    -- `_advance`, with what comes behind it.
    unfoldable pub advance :
        Block
        → ℤ
        → ChainFollower R
        → (ChainFollower R → Owed (ChainFollower R) FollowError)
        → Owed (ChainFollower R) FollowError
    advance block height f rest =
        due block f
          (rest (record f { tip = some (record { hash = block.block_hash; height = height }) }))

    -- The blocks fetched, each one above the tip at `height`, and the block at `target`.
    unfoldable pub advance_all :
        List Block → ℤ → Block → ℤ → ChainFollower R → Owed (ChainFollower R) FollowError
    advance_all [] height block target f = advance block target f finished
    advance_all (missing ∷ blocks) height block target f =
        advance missing (sucℤ height) f (advance_all blocks (sucℤ height) block target)

    -- Its part behind `self.catch_ups += 1`.
    unfoldable pub catch_up :
        Block → ChainTip → ChainFollower R → Owed (ChainFollower R) FollowError
    catch_up block tip f =
        let (r, f') = height_of block f in
        elim r [
          | err e ↦ raised e f'
          | ok target ↦
              let (r', f2) = fetch_gap block target tip f' in
              elim r' [
                | err e ↦ raised e f2
                | ok blocks ↦ advance_all blocks tip.height block target f2
              ]
        ]

    -- `blocks_to_apply` with no tip.
    unfoldable pub first_block : Block → ChainFollower R → Owed (ChainFollower R) FollowError
    first_block block f =
        let (r, f') = height_of block f in
        elim r [ err e ↦ raised e f' | ok height ↦ advance block height f' finished ]

    -- `blocks_to_apply`.
    unfoldable pub blocks_to_apply : ChainFollower R → Block → Owed (ChainFollower R) FollowError
    blocks_to_apply f block = elim f.tip [
      | none ↦ first_block block f
      | some tip ↦
          if bytes_beq block.prev_hash tip.hash
          then advance block (sucℤ tip.height) f finished
          else if bytes_beq block.block_hash tip.hash
          then finished f
          else catch_up block tip (record f { catch_ups = f.catch_ups + 1 })
    ]
