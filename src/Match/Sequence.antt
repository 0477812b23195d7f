-- ===== src/Match/Sequence.antt =====
-- match/sequence.py: the counters that show when the message stream dropped something. A method
-- takes the tracker and returns its result with the tracker that it leaves. Sequence numbers come
-- from `parse_seq_part`, so they are natural numbers.
pub mod Detection
pub mod Counters
mod Tests
use coldwatch.Base.{
  ℕ, ◌+◌, ◌-◌, ◌^◌, String, Bool, true, false, Option, none, some, List, [], ◌∷◌, ltb, leb, ◌==◌,
  if◌then◌else◌, length, not, ◌&&◌,
}
use coldwatch.Base.Keys.{string_key}
use coldwatch.Base.Dict.{Dict, get, put}
use coldwatch.Base.Bytes.{from_le}
use coldwatch.Base.Results.{Result, ok, err}

abbrev pub uint32 : ℕ
uint32 = 2 ^ 32

abbrev pub wrap_margin : ℕ
wrap_margin = 2 ^ 16

pub data AnomalyKind : Type 0 where
  gap restart duplicate : AnomalyKind

pub record Anomaly : Type 0 where
  pub topic : String
  pub kind : AnomalyKind
  pub last_seq : ℕ
  pub seq : ℕ
  pub missing : ℕ

pub record TopicState : Type 0 where
  pub last_seq : Option ℕ
  pub received : ℕ
  pub missing_total : ℕ
  pub gaps : ℕ
  pub restarts : ℕ
  pub duplicates : ℕ

-- `TopicState()`.
abbrev pub fresh_topic : TopicState
fresh_topic = record {
  last_seq = none;
  received = 0;
  missing_total = 0;
  gaps = 0;
  restarts = 0;
  duplicates = 0;
}

-- Each `raise ValueError(...)` of the module.
pub data SequenceError : Type 0 where
  bad_length out_of_range : SequenceError

-- `struct.unpack("<I", part)` reads four bytes, lowest first.
unfoldable pub parse_seq_part : List ℕ → Result SequenceError ℕ
parse_seq_part part = if not (length part == 4) then err bad_length else ok (from_le part)

pub record SequenceTracker : Type 0 where
  pub topics : Dict String TopicState
  pub needs_reconciliation : Bool

-- `SequenceTracker()`.
abbrev pub new_tracker : SequenceTracker
new_tracker = record { topics = []; needs_reconciliation = false }

-- `state(topic)`, which is also what `self._topics[topic]` reads: a default for an unseen topic.
unfoldable pub state : SequenceTracker → String → TopicState
state t topic = elim (get topic t.topics) [ none ↦ fresh_topic | some s ↦ s ]

-- What one message does to the counters of its topic: the anomaly, the counters, and whether
-- `_needs_reconciliation` is set.
unfoldable pub observe_topic : String → ℕ → TopicState → Option Anomaly × TopicState × Bool
observe_topic topic seq s =
    let s' : TopicState = record s { received = s.received + 1; last_seq = some seq } in
    elim s.last_seq [
      | none ↦ (none, s', false)
      | some last ↦
          if seq == last + 1
          then (none, s', false)
          else if seq == last
          then (
            some (record {
              topic = topic;
              kind = duplicate;
              last_seq = last;
              seq = seq;
              missing = 0;
            }),
            record s' { duplicates = s.duplicates + 1 },
            false,
          )
          else if ltb (last + 1) seq
          then lost last s' (seq - last - 1)
          else if leb (uint32 - wrap_margin) last && ltb seq wrap_margin
          then lost last s' (seq + uint32 - last - 1)
          else (
            some
                (record { topic = topic; kind = restart; last_seq = last; seq = seq; missing = 0 }),
            record s' { restarts = s.restarts + 1 },
            true,
          )
    ]
  where
    lost : ℕ → TopicState → ℕ → Option Anomaly × TopicState × Bool
    lost last s' missing = (
      some (record { topic = topic; kind = gap; last_seq = last; seq = seq; missing = missing }),
      record s' { gaps = s.gaps + 1; missing_total = s.missing_total + missing },
      true,
    )

-- `observe(topic, seq)`.
unfoldable pub observe :
    String → ℕ → SequenceTracker → Result SequenceError (Option Anomaly) × SequenceTracker
observe topic seq t =
    if not (ltb seq uint32)
    then (err out_of_range, t)
    else (let (anomaly, s, loss) = observe_topic topic seq (state t topic) in
        (
          ok anomaly,
          record {
            topics = put topic s t.topics;
            needs_reconciliation = if loss then true else t.needs_reconciliation;
          },
        ))

unfoldable pub flag_for_reconciliation : SequenceTracker → SequenceTracker
flag_for_reconciliation t = record t { needs_reconciliation = true }

unfoldable pub reconciled : SequenceTracker → SequenceTracker
reconciled t = record t { needs_reconciliation = false }

abbrev pub sum_missing : Dict String TopicState → ℕ
sum_missing [] = 0
sum_missing ((topic, s) ∷ rest) = s.missing_total + sum_missing rest

-- `missing_total` of the tracker.
unfoldable pub missing_total : SequenceTracker → ℕ
missing_total t = sum_missing t.topics
