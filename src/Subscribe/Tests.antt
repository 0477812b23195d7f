-- ===== src/Subscribe/Tests.antt =====
-- A pass over envelopes, and the theorem at them.
use coldwatch.Base.{
  ℕ, ◌+◌, ◌≡◌, String, Option, none, some, List, [], ◌∷◌, ◌++◌, if◌then◌else◌, arith,
}
use coldwatch.Base.Keys.{bytes_beq}
use coldwatch.Match.Sequence.{new_tracker, parse_seq_part}
use coldwatch.Match.Samples.{toy_hash}
use coldwatch.Match.Index.Memory.{InMemoryWatchIndex, memory_index}
use coldwatch.Match.Matcher.Samples.{toy_hmac, toy_key, watcher}
use coldwatch.Match.Stream.{StreamIngest, run}
use coldwatch.Subscribe.{Subscriber, Envelope, decode_parts, poll_once}
use coldwatch.Subscribe.Outcomes.{flatten, messages_of, undecoded, one_without, Refines}
use coldwatch.Subscribe.Passes.{poll_once-Refines}

abbrev ingest : StreamIngest InMemoryWatchIndex ℕ
ingest = record {
  matcher = watcher;
  tracker = new_tracker;
  seen = record { maxlen = 2; seen = []; evicted = 0 };
  follower = 0;
  announced = [];
  parsed = 0;
  malformed = 0;
  ignored = 0;
  blocks = 0;
  confirmed = 0;
  suppressed = 0;
  catch_up_failures = 0;
}

abbrev subscriber : Subscriber InMemoryWatchIndex ℕ
subscriber = record { ingest = ingest; malformed_envelopes = 0; delivered = [] }

-- The one topic that is ASCII here is "A".
abbrev ascii : List ℕ → Option String
ascii topic = if bytes_beq topic (65 ∷ []) then some "rawtx" else none

abbrev blocks : List Envelope
blocks = ((65 ∷ []) ∷ (1 ∷ 2 ∷ []) ∷ (4 ∷ 0 ∷ 0 ∷ 0 ∷ []) ∷ []) ∷ ((65 ∷ []) ∷ []) ∷ []

abbrev txs : List Envelope
txs = ((200 ∷ []) ∷ [] ∷ (4 ∷ 0 ∷ 0 ∷ 0 ∷ []) ∷ []) ∷ ((65 ∷ []) ∷ [] ∷ (4 ∷ 0 ∷ []) ∷ []) ∷ []

-- An envelope of one part, a topic that is not ASCII and a counter of two bytes are malformed.
three_malformed : undecoded ascii (blocks ++ txs) ≡ 3
unfolding undecoded one_without decode_parts parse_seq_part
three_malformed = omega arith

poll_once-Refines_example :
    Refines {X = String}
      (run toy_hash memory_index toy_hmac toy_key none
        (messages_of ascii (blocks ++ txs))
        (flatten [])
        ingest)
      (poll_once ascii toy_hash memory_index toy_hmac toy_key none blocks txs subscriber)
      (2 + 2)
      (0 + undecoded ascii (blocks ++ txs))
poll_once-Refines_example =
    poll_once-Refines ascii toy_hash memory_index toy_hmac toy_key none blocks txs subscriber
