-- ===== src/Reconcile/Tests.antt =====
-- A follower one block behind, against a node that answers.
use coldwatch.Base.{ℕ, ◌≡◌, ◌⊎◌, refl, true, false, some, List, [], ◌∷◌, replicate, arith}
use coldwatch.Base.Integers.{pos}
use coldwatch.Base.Results.{ok, err}
use coldwatch.Match.Samples.{toy_hash, payment, payment-IsWireTx}
use coldwatch.Match.Sequence.{new_tracker}
use coldwatch.Match.Block.{Block, parse_block}
use coldwatch.Match.Block.RoundTrip.{serialise_block, parse_block-serialise, block}
use coldwatch.Match.Index.Memory.{InMemoryWatchIndex, memory_index}
use coldwatch.Match.Matcher.{Match}
use coldwatch.Match.Matcher.Samples.{toy_hmac, toy_key, watcher}
use coldwatch.Match.Stream.Folds.{owed_blocks}
use coldwatch.Match.Stream.{StreamIngest, StreamError, handle_block}
use coldwatch.Reconcile.{
  BitcoinRpc, number, decoded, FollowError, ChainTip, ChainFollower, blocks_to_apply,
}
use coldwatch.Reconcile.Repair.{Repairs, blocks_to_apply-Repairs}
use coldwatch.Reconcile.Ingest.{Applied, handle_block-Applied}

-- Every answer describes height 9, and every block fetched is the same.
abbrev node : BitcoinRpc ℕ ℕ
node = record {
  getblockhash = λ height r. (ok 1, r);
  getblock_raw = λ hash r. (ok 2, r);
  getblock_described = λ hash r. (ok 3, r);
  as_hex = λ answer. decoded (serialise_block (replicate 80 3) (payment ∷ []));
  is_dict = λ answer. true;
  height = λ answer. number (pos 9);
  confirmations = λ answer. number (pos 1);
}

abbrev tip : ChainTip
tip = record { hash = replicate 32 3; height = pos 7 }

abbrev follower : ChainFollower ℕ
follower = record { rpc = 0; tip = some tip; max_catch_up = 144; fetched = 0; catch_ups = 0 }

abbrev newest : Block
newest = record {
  block_hash = replicate 32 8;
  prev_hash = (block toy_hash (replicate 80 3) (payment ∷ [])).block_hash;
  transactions = [];
}

blocks_to_apply-Repairs_example :
    Repairs tip newest follower (blocks_to_apply node toy_hash follower newest)
blocks_to_apply-Repairs_example = blocks_to_apply-Repairs node toy_hash follower tip newest refl

abbrev raw : List ℕ
raw = serialise_block (replicate 80 3) (payment ∷ [])

abbrev mined : Block
mined = block toy_hash (replicate 80 3) (payment ∷ [])

raw_parses : parse_block toy_hash raw ≡ ok mined
raw_parses =
    parse_block-serialise toy_hash (replicate 80 3) (payment ∷ []) refl (omega arith) (omega arith)
      ((payment-IsWireTx, omega arith), tt)

-- The tip is the parent that the header names.
abbrev ingest : StreamIngest InMemoryWatchIndex (ChainFollower ℕ)
ingest = record {
  matcher = watcher;
  tracker = new_tracker;
  seen = record { maxlen = 2; seen = []; evicted = 0 };
  follower = follower;
  announced = [];
  parsed = 0;
  malformed = 0;
  ignored = 0;
  blocks = 0;
  confirmed = 0;
  suppressed = 0;
  catch_up_failures = 0;
}

handle_block-Applied_example :
    ((why : StreamError FollowError) × ((handle_block toy_hash memory_index toy_hmac toy_key
          (some (blocks_to_apply node toy_hash))
          raw
          ingest).0
        ≡ err why)
      × ((handle_block toy_hash memory_index toy_hmac toy_key
            (some (blocks_to_apply node toy_hash))
            raw
            ingest).1.tracker.needs_reconciliation
          ≡ true))
    ⊎ ((alerts : List Match) × ((handle_block toy_hash memory_index toy_hmac toy_key
            (some (blocks_to_apply node toy_hash))
            raw
            ingest).0
          ≡ ok alerts)
        × ((handle_block toy_hash memory_index toy_hmac toy_key
              (some (blocks_to_apply node toy_hash))
              raw
              ingest).1.tracker.needs_reconciliation
            ≡ false)
        × Applied memory_index toy_hmac toy_key tip mined
            (owed_blocks (blocks_to_apply node toy_hash follower mined))
            ingest
            (handle_block toy_hash memory_index toy_hmac toy_key
              (some (blocks_to_apply node toy_hash))
              raw
              ingest).1)
handle_block-Applied_example =
    handle_block-Applied node toy_hash memory_index toy_hmac toy_key raw mined tip ingest raw_parses
      refl
