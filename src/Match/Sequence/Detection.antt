-- ===== src/Match/Sequence/Detection.antt =====
-- What `observe` reports, for a publisher that numbers its messages 0, 1, 2, ... and sends each
-- number modulo 2^32, as bitcoind does.
use coldwatch.Base.{
  ℕ, ◌+◌, ◌-◌, ◌/◌, ◌%◌, ◌≤◌, ◌<◌, String, ◌≡◌, ◌⊎◌, true, none, some, arith, if◌then◌else◌, lt→ltb,
  ◌==◌, List, length, sym,
}
use coldwatch.Base.Keys.{string_key}
use coldwatch.Base.Dict.{get-put}
use coldwatch.Base.Bytes.{IsBytes, from_le, to_le, to_le-from_le, from_le-lt}
use coldwatch.Base.Results.{ok}
use coldwatch.Match.Sequence.{
  uint32, wrap_margin, SequenceTracker, gap, state, observe, observe_topic, parse_seq_part,
}

-- After a message the state of its topic is the one that `observe_topic` computes; every other
-- topic keeps its state.
pub state-observe :
    (topic other : String) (seq : ℕ) (t : SequenceTracker)
    → seq < uint32
    → state (observe topic seq t).1 other ≡ (
        if string_key.agree topic other
        then (observe_topic topic seq (state t topic)).1
        else state t other)
unfolding state observe
state-observe topic other seq t h =
    rw lt→ltb
      (ground (arith, get-put topic other (observe_topic topic seq (state t topic)).1 t.topics))

pub observe_in_range :
    (topic : String) (seq : ℕ) (t : SequenceTracker)
    → seq < uint32
    → ((observe topic seq t).0 ≡ ok (observe_topic topic seq (state t topic)).0)
      × ((observe topic seq t).1.needs_reconciliation
          ≡ (if (observe_topic topic seq (state t topic)).2 then true else t.needs_reconciliation))
unfolding observe
observe_in_range topic seq t h = ground (arith)

-- A loss of 1 to 2^32 - 2 messages on a topic sets the flag, wherever the counter wraps.
pub observe-flags_loss :
    (topic : String) (l m : ℕ) (t : SequenceTracker)
    → (state t topic).last_seq ≡ some (l % uint32)
    → l + 1 < m
    → m < l + uint32
    → (observe topic (m % uint32) t).1.needs_reconciliation ≡ true
unfolding observe_topic
observe-flags_loss topic l m t last lost fits =
    ground (arith, observe_in_range topic (m % uint32) t)

-- Where the numbers of the last message and of this one stand within one turn of the counter, or
-- this one stands less than 2^16 past a wrap and the last less than 2^16 before it, the anomaly is
-- a gap, its `missing` is the number of messages lost, and `missing_total` grows by that number.
pub observe-counts_gap :
    (topic : String) (l m : ℕ) (t : SequenceTracker)
    → (state t topic).last_seq ≡ some (l % uint32)
    → l + 1 < m
    → (m / uint32 ≡ l / uint32)
      ⊎ ((m / uint32 ≡ l / uint32 + 1)
          × (uint32 - wrap_margin ≤ l % uint32)
          × (m % uint32 < wrap_margin))
    → ((observe topic (m % uint32) t).0
        ≡ ok (
            some (record {
              topic = topic;
              kind = gap;
              last_seq = l % uint32;
              seq = m % uint32;
              missing = m - l - 1;
            })))
      × ((state (observe topic (m % uint32) t).1 topic).missing_total
          ≡ (state t topic).missing_total + (m - l - 1))
unfolding observe_topic
observe-counts_gap topic l m t last lost near = ground (
  arith,
  observe_in_range topic (m % uint32) t,
  state-observe topic topic (m % uint32) t,
  string_key.agree_iff topic topic,
)

-- A message that follows the last one is no anomaly and leaves the flag as it is, unless the
-- counter wraps between the two: then it is reported as a gap of 0 messages and sets the flag.
pub observe_next :
    (topic : String) (l : ℕ) (t : SequenceTracker)
    → (state t topic).last_seq ≡ some (l % uint32)
    → ((observe topic ((l + 1) % uint32) t).0
        ≡ ok (
            if (l + 1) % uint32 == 0
            then some
                (record { topic = topic; kind = gap; last_seq = l % uint32; seq = 0; missing = 0 })
            else none))
      × ((observe topic ((l + 1) % uint32) t).1.needs_reconciliation
          ≡ (if (l + 1) % uint32 == 0 then true else t.needs_reconciliation))
unfolding observe_topic
observe_next topic l t last = ground (arith, observe_in_range topic ((l + 1) % uint32) t)

-- A counter that `parse_seq_part` returns for a part of bytes is one that `observe` accepts, and
-- the part is its four bytes, lowest first.
pub observe-parse_seq_part :
    (part : List ℕ) (seq : ℕ) (topic : String) (t : SequenceTracker)
    → IsBytes part
    → parse_seq_part part ≡ ok seq
    → (part ≡ to_le 4 seq)
      × ((observe topic seq t).0 ≡ ok (observe_topic topic seq (state t topic)).0)
unfolding parse_seq_part
observe-parse_seq_part part seq topic t bytes e =
    let four : length part ≡ 4 = ground arith in
    let value : from_le part ≡ seq = ground arith in
    (
      sym (rw (four, value) at (to_le-from_le part bytes)),
      (observe_in_range topic seq t (rw (four, value) at (from_le-lt part bytes))).0,
    )
