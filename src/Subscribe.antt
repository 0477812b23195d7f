-- ===== src/Subscribe.antt =====
-- src/coldwatch/subscribe.py: `Subscriber`, from the envelopes that the sockets give to the ingest. The
-- sockets and their poller are ZeroMQ's: a pass is what the block socket and then the transaction
-- socket give until they are empty, and nothing of a socket that was not ready. `decode` is
-- `bytes.decode("ascii")`.
pub mod Outcomes
pub mod Drain
pub mod Passes
mod Tests
use coldwatch.Base.{ℕ, suc, ◌+◌, Bool, true, false, String, Option, none, some, List, [], ◌∷◌, ◌++◌}
use coldwatch.Base.Results.{Result, ok, err}
use coldwatch.Match.Sequence.{parse_seq_part}
use coldwatch.Match.Block.{Block}
use coldwatch.Match.Index.Contract.{WatchIndex}
use coldwatch.Match.Matcher.{Match}
use coldwatch.Match.Stream.{StreamMessage, StreamIngest, StreamError, Owed, Outcome, handle}

pub record Subscriber (S F : Type 0) : Type 0 where
  pub ingest : StreamIngest S F
  pub malformed_envelopes : ℕ
  -- The calls of `on_match`, the first one first.
  pub delivered : List (List Match)

-- The parts of a multipart message.
abbrev pub Envelope : Type 0
Envelope = List (List ℕ)

-- The message in an envelope, or none where `_receive` counts it as malformed.
unfoldable pub decode_parts : (List ℕ → Option String) → Envelope → Option StreamMessage
decode_parts decode (topic ∷ body ∷ seq ∷ []) = elim (decode topic) [
  | none ↦ none
  | some name ↦ elim (parse_seq_part seq) [
    | err why ↦ none
    | ok number ↦ some (record { topic = name; body = body; seq = number })
  ]
]
decode_parts decode _ = none

-- `if matches and on_match is not None: on_match(matches)`, with a callback that is given and returns.
unfoldable pub notify : {S F : Type 0} → List Match → Subscriber S F → Subscriber S F
notify [] s = s
notify (found ∷ more) s = record s { delivered = s.delivered ++ (found ∷ more) ∷ [] }

-- A malformed envelope is counted.
unfoldable pub count_malformed :
    {S F : Type 0} → Option StreamMessage → Subscriber S F → Option StreamMessage × Subscriber S F
count_malformed none s = (none, record s { malformed_envelopes = suc s.malformed_envelopes })
count_malformed (some message) s = (some message, s)

unfoldable pub receive :
    {S F : Type 0}
    → (List ℕ → Option String)
    → Envelope
    → Subscriber S F
    → Option StreamMessage × Subscriber S F
receive decode parts s = count_malformed (decode_parts decode parts) s

-- What `handle` returned or raised, and the callback.
unfoldable pub hand_on :
    {S F X : Type 0}
    → Outcome X S F (List Match)
    → Subscriber S F
    → Result (StreamError X) Unit × Subscriber S F
hand_on (err e, ingest) s = (err e, record s { ingest = ingest })
hand_on (ok found, ingest) s = (ok tt, notify found (record s { ingest = ingest }))

-- What follows a call, unless it raised.
unfoldable pub after_feed :
    {S F X : Type 0}
    → (Subscriber S F → Result (StreamError X) ℕ × Subscriber S F)
    → Result (StreamError X) Unit × Subscriber S F
    → Result (StreamError X) ℕ × Subscriber S F
after_feed go_on (err e, s) = (err e, s)
after_feed go_on (ok _, s) = go_on s

-- `if message is not None`, and the rest of the loop.
unfoldable pub after_receive :
    {S F X : Type 0}
    → (StreamMessage → Subscriber S F → Result (StreamError X) Unit × Subscriber S F)
    → (Subscriber S F → Result (StreamError X) ℕ × Subscriber S F)
    → Option StreamMessage × Subscriber S F
    → Result (StreamError X) ℕ × Subscriber S F
unfolding after_feed
after_receive feed go_on (none, s) = go_on s
after_receive feed go_on (some message, s) = after_feed go_on (feed message s)

module _ {S F X : Type 0} (decode : List ℕ → Option String) (sha256 : List ℕ → List ℕ)
    (ix : WatchIndex S) (hmac : List ℕ → List ℕ → List ℕ) (k : List ℕ)
    (expand : Option (F → Block → Owed F X)) where
  -- `self.ingest.handle(message)`, and the callback.
  unfoldable pub feed :
      StreamMessage → Subscriber S F → Result (StreamError X) Unit × Subscriber S F
  feed message s = hand_on (handle sha256 ix hmac k expand message s.ingest) s

  -- The loop over what one socket gives, with the count of what was handled.
  unfoldable pub drain_socket :
      List Envelope → ℕ → Subscriber S F → Result (StreamError X) ℕ × Subscriber S F
  unfolding after_receive receive feed
  drain_socket [] handled s = (ok handled, s)
  drain_socket (parts ∷ envelopes) handled s =
      after_receive feed (drain_socket envelopes (handled + 1)) (receive decode parts s)

  -- The loop over the next socket, unless that over the first raised.
  unfoldable pub drain_next :
      List Envelope
      → Result (StreamError X) ℕ × Subscriber S F
      → Result (StreamError X) ℕ × Subscriber S F
  drain_next txs (err e, s) = (err e, s)
  drain_next txs (ok handled, s) = drain_socket txs handled s

  -- `poll_once`: the block socket first.
  unfoldable pub poll_once :
      List Envelope → List Envelope → Subscriber S F → Result (StreamError X) ℕ × Subscriber S F
  poll_once blocks txs s = drain_next txs (drain_socket blocks 0 s)

  -- `run`, up to the pass after which `stop` was called.
  unfoldable pub run_passes :
      List (List Envelope × List Envelope)
      → Subscriber S F
      → Result (StreamError X) Unit × Subscriber S F
  run_passes [] s = (ok tt, s)
  run_passes ((blocks, txs) ∷ passes) s =
      let (r, polled) = poll_once blocks txs s in
      elim r [ err e ↦ (err e, polled) | ok handled ↦ run_passes passes polled ]
