-- ===== src/Match/Sequence/Tests.antt =====
-- Runs of the tracker, and its theorems at concrete inputs.
use coldwatch.Base.{ℕ, ◌+◌, ◌<◌, ◌≡◌, refl, inr, true, some, [], ◌∷◌, arith}
use coldwatch.Base.Keys.{string_key}
use coldwatch.Base.Dict.{get, put}
use coldwatch.Base.Bytes.{from_le}
use coldwatch.Base.Results.{ok}
use coldwatch.Match.Sequence.{
  uint32, SequenceTracker, gap, new_tracker, state, observe, observe_topic, parse_seq_part,
}
use coldwatch.Match.Sequence.Detection.{observe-flags_loss, observe-counts_gap}

abbrev after : ℕ → SequenceTracker
after seq = (observe "rawtx" seq new_tracker).1

little_endian : parse_seq_part (0x78 ∷ 0x56 ∷ 0x34 ∷ 0x12 ∷ []) ≡ ok 305_419_896
unfolding parse_seq_part from_le
little_endian = refl

after_last : (seq : ℕ) → seq < uint32 → (state (after seq) "rawtx").last_seq ≡ some seq
unfolding state observe observe_topic get put
after_last seq h = ground arith

observe-flags_loss_example : (observe "rawtx" 1 (after 4_294_967_294)).1.needs_reconciliation ≡ true
observe-flags_loss_example =
    observe-flags_loss "rawtx" 4_294_967_294 4_294_967_297 (after 4_294_967_294)
      (after_last 4_294_967_294 (omega arith)) (omega arith) (omega arith)

observe-counts_gap_example :
    ((observe "rawtx" 1 (after 4_294_967_294)).0
      ≡ ok (
          some (record {
            topic = "rawtx";
            kind = gap;
            last_seq = 4_294_967_294;
            seq = 1;
            missing = 2;
          })))
    × ((state (observe "rawtx" 1 (after 4_294_967_294)).1 "rawtx").missing_total
        ≡ (state (after 4_294_967_294) "rawtx").missing_total + 2)
observe-counts_gap_example =
    observe-counts_gap "rawtx" 4_294_967_294 4_294_967_297 (after 4_294_967_294)
      (after_last 4_294_967_294 (omega arith)) (omega arith) (inr (omega arith))
