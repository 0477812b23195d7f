-- ===== src/Match/Stream/Tests.antt =====
-- The theorems on the ingest at concrete inputs.
use Prim.Native.String.{String}
use coldwatch.Base.{
  ℕ, ◌+◌, ◌≤◌, ◌≡◌, ◌⊎◌, refl, true, false, none, some, List, [], ◌∷◌, length, replicate, arith,
}
use coldwatch.Base.Bytes.{from_le, to_le, length-to_le}
use coldwatch.Base.Dict.{get, put, has}
use coldwatch.Base.Results.{ok, err}
use coldwatch.Match.Sequence.{new_tracker}
use coldwatch.Match.Keys.{spk_hmac, tagged, tagged_message, outpoint_hmac, canonical_outpoint}
use coldwatch.Match.Samples.{toy_hash, payment, payment-IsWireTx}
use coldwatch.Match.Block.{Block, struct_error, parse_block}
use coldwatch.Match.Block.RoundTrip.{serialise_block, parse_block-serialise, block}
use coldwatch.Match.Index.Items.{has_item, add_item, add_items, is_empty}
use coldwatch.Match.Index.Memory.{
  InMemoryWatchIndex, in_memory, watch_all, items_at, items_watching_spk, memory_index,
}
use coldwatch.Match.Matcher.{
  Match, incoming, match, apply, incoming_of, outgoing_of, note_unconfirmed, note_output, each,
}
use coldwatch.Match.Matcher.Samples.{
  toy_hmac, toy_key, laws, watcher, watcher-IsSound, deposit, deposit-IsMatchable,
}
use coldwatch.Match.Stream.Seen
use coldwatch.Match.Stream.Seen.{SeenTransactions, knows, add_remembers}
use coldwatch.Match.Stream.{
  StreamMessage, StreamIngest, StreamError, Owed, finished, due, topic_block, note_seen, alert_tx,
  confirm, handle_block, handle,
}
use coldwatch.Match.Stream.Writes.{alert_tx_keeps, handle_writes}
use coldwatch.Match.Stream.Folds.{Folds, transactions_of, owed_blocks}
use coldwatch.Match.Stream.Flag.{fault, last_state, transaction_count, repair_settles}
use coldwatch.Match.Stream.Alerts.{alert_once}
use coldwatch.Match.Stream.Returns.{handle_returns}

abbrev two_seen : SeenTransactions
two_seen = record {
  maxlen = 2;
  seen = (replicate 32 5, tt) ∷ (replicate 32 6, tt) ∷ [];
  evicted = 0;
}

abbrev ingest : StreamIngest InMemoryWatchIndex ℕ
ingest = record {
  matcher = watcher;
  tracker = new_tracker;
  seen = two_seen;
  follower = 0;
  announced = [];
  parsed = 0;
  malformed = 0;
  ignored = 0;
  blocks = 0;
  confirmed = 0;
  suppressed = 0;
  catch_up_failures = 0;
}

-- A hook that yields the block it is given, and counts.
abbrev one_block : ℕ → Block → Owed ℕ String
one_block n b = due b n (finished (n + 1))

abbrev message : StreamMessage
message = record { topic = "rawtx"; body = 1 ∷ 2 ∷ []; seq = 4 }

handle_writes_example :
    ((handle toy_hash memory_index toy_hmac toy_key (some one_block) message ingest).1.matcher.index
      ≡ ingest.matcher.index)
    ⊎ ((message.topic ≡ topic_block) × ((b : Block) × (parse_block toy_hash message.body ≡ ok b)))
handle_writes_example =
    handle_writes String laws toy_hmac toy_key toy_hash (some one_block) message ingest

abbrev raw : List ℕ
raw = serialise_block (replicate 80 3) (payment ∷ [])

abbrev mined : Block
mined = block toy_hash (replicate 80 3) (payment ∷ [])

raw_parses : parse_block toy_hash raw ≡ ok mined
raw_parses =
    parse_block-serialise toy_hash (replicate 80 3) (payment ∷ []) refl (omega arith) (omega arith)
      ((payment-IsWireTx, omega arith), tt)

repair_settles_example :
    ((why : StreamError String) × ((handle_block toy_hash memory_index toy_hmac toy_key
          (some one_block)
          raw
          ingest).0
        ≡ err why)
      × ((handle_block toy_hash memory_index toy_hmac toy_key
            (some one_block)
            raw
            ingest).1.tracker.needs_reconciliation
          ≡ true))
    ⊎ ((alerts : List Match) × ((handle_block toy_hash memory_index toy_hmac toy_key
            (some one_block)
            raw
            ingest).0
          ≡ ok alerts)
        × ((handle_block toy_hash memory_index toy_hmac toy_key
              (some one_block)
              raw
              ingest).1.tracker.needs_reconciliation
            ≡ false)
        × (fault (one_block 0 mined) ≡ none)
        × ((handle_block toy_hash memory_index toy_hmac toy_key
              (some one_block)
              raw
              ingest).1.follower
            ≡ last_state (one_block 0 mined))
        × ((handle_block toy_hash memory_index toy_hmac toy_key
              (some one_block)
              raw
              ingest).1.blocks
            ≡ 0 + length (owed_blocks (one_block 0 mined)))
        × ((handle_block toy_hash memory_index toy_hmac toy_key
              (some one_block)
              raw
              ingest).1.confirmed
            ≡ 0 + transaction_count (owed_blocks (one_block 0 mined)))
        × Folds memory_index toy_hmac toy_key
            (transactions_of (owed_blocks (one_block 0 mined)))
            watcher
            (handle_block toy_hash memory_index toy_hmac toy_key
              (some one_block)
              raw
              ingest).1.matcher)
repair_settles_example =
    repair_settles toy_hash memory_index toy_hmac toy_key one_block raw mined ingest raw_parses

abbrev roomy : StreamIngest InMemoryWatchIndex ℕ
roomy = record ingest { seen = record two_seen { maxlen = 4 } }

abbrev noted : StreamIngest InMemoryWatchIndex ℕ
noted = (alert_tx {X = String} memory_index toy_hmac toy_key deposit roomy).1

deposit_alerts :
    (alert_tx {X = String} memory_index toy_hmac toy_key deposit roomy).0
    ≡ ok (record { item_id = 7; direction = incoming } ∷ [])
unfolding alert_tx match outgoing_of incoming_of note_unconfirmed each note_output outpoint_hmac
    canonical_outpoint add_items add_item is_empty in_memory watch_all items_watching_spk items_at
    get put has_item spk_hmac tagged tagged_message to_le note_seen Seen.add has
deposit_alerts = refl

noted_room : length noted.seen.seen + 1 ≤ noted.seen.maxlen
unfolding alert_tx match outgoing_of incoming_of note_unconfirmed each note_output outpoint_hmac
    canonical_outpoint add_items add_item is_empty in_memory watch_all items_watching_spk items_at
    get put has_item spk_hmac tagged tagged_message to_le note_seen Seen.add has Seen.forget_oldest
noted_room = omega arith

-- Another transaction has alerted in between.
abbrev later : StreamIngest InMemoryWatchIndex ℕ
later = record noted { seen = Seen.add_all (replicate 32 7 ∷ []) noted.seen }

-- The mempool wrote nothing to the record.
later-IsSound : laws.IsSound later.matcher.index
later-IsSound = rw (alert_tx_keeps String laws toy_hmac toy_key deposit roomy) watcher-IsSound

alert_once_example :
    ((confirm {X = String} memory_index toy_hmac toy_key deposit later).0 ≡ ok [])
    × ((confirm {X = String} memory_index toy_hmac toy_key deposit later).1.confirmed
        ≡ later.confirmed + 1)
    × (apply memory_index toy_hmac toy_key deposit later.matcher
        ≡ (ok tt, (confirm {X = String} memory_index toy_hmac toy_key deposit later).1.matcher))
alert_once_example =
    alert_once String laws toy_hmac toy_key deposit roomy later
      (record { item_id = 7; direction = incoming }) [] (replicate 32 7 ∷ []) deposit-IsMatchable
      (omega arith) deposit_alerts noted_room refl later-IsSound

toy_hash_size : (d : List ℕ) → length (toy_hash d) ≡ 32
toy_hash_size d = length-to_le 32 (from_le d + 1)

handle_returns_example :
    ((alerts : List Match) × ((handle {X = String} toy_hash memory_index toy_hmac toy_key none
          message ingest).0
        ≡ ok alerts))
    ⊎ ((message.topic ≡ topic_block) × (parse_block toy_hash message.body ≡ err struct_error))
handle_returns_example =
    handle_returns String laws toy_hmac toy_key toy_hash toy_hash_size message ingest (omega arith)
      (omega arith, (omega arith, tt)) (omega arith) watcher-IsSound
