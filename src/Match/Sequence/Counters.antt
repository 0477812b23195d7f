-- ===== src/Match/Sequence/Counters.antt =====
-- The counters of the tracker over a run of messages, flags and reconciliations.
use coldwatch.Base.{
  ℕ, ◌+◌, ◌≤◌, ◌<◌, String, ◌≡◌, ◌≢◌, inl, inr, true, false, none, some, List, [], ◌∷◌, arith, refl,
  ap, ◌∙◌, Bool-cases, Option-cases, ltb, ltb→lt,
}
use coldwatch.Base.Keys.{string_key, agree_refl}
use coldwatch.Base.Dict.{get}
use coldwatch.Match.Sequence.{
  uint32, SequenceTracker, TopicState, fresh_topic, new_tracker, state, observe, observe_topic,
  flag_for_reconciliation,
}
use coldwatch.Match.Sequence.Detection.{state-observe}

-- One call of the tracker by its users.
pub data Step (t : SequenceTracker) : SequenceTracker → Type 0 where
  observed : (topic : String) (seq : ℕ) → Step t (observe topic seq t).1
  flagged : Step t (flag_for_reconciliation t)

-- Calls other than `reconciled`, in a row.
pub data Steps (t : SequenceTracker) : SequenceTracker → Type 0 where
  here : Steps t t
  next : {u v : SequenceTracker} → Steps t u → Step u v → Steps t v

Step-keeps_flag :
    {t u : SequenceTracker}
    → Step t u
    → t.needs_reconciliation ≡ true
    → u.needs_reconciliation ≡ true
unfolding observe flag_for_reconciliation
Step-keeps_flag (observed topic seq) h = ground arith
Step-keeps_flag flagged h = refl

-- Once a pass is needed it stays needed, whatever arrives, until `reconciled` is called.
pub flag_is_sticky :
    {t u : SequenceTracker}
    → Steps t u
    → t.needs_reconciliation ≡ true
    → u.needs_reconciliation ≡ true
flag_is_sticky here h = h
flag_is_sticky (next r s) h = Step-keeps_flag s (flag_is_sticky r h)

-- What the counters of one topic can be.
pub record IsAccounted (s : TopicState) : Type 0 where
  pub nothing_seen : s.last_seq ≡ none → s ≡ fresh_topic
  pub kinds : s.last_seq ≢ none → s.gaps + s.restarts + s.duplicates + 1 ≤ s.received
  pub quiet : s.gaps ≡ 0 → s.missing_total ≡ 0

observe_topic-IsAccounted :
    (topic : String) (seq : ℕ) (s : TopicState)
    → IsAccounted s
    → IsAccounted (observe_topic topic seq s).1
unfolding observe_topic
observe_topic-IsAccounted topic seq s h = record {
  nothing_seen = ground arith;
  kinds = λ _. elim (Option-cases s.last_seq) [
    | inl e ↦ ground (arith, h.nothing_seen e)
    | inr (l, e) ↦ ground (arith, h.kinds (λ p. cc (p, e)))
  ];
  quiet = ground (arith, h.quiet);
}

observe_out_of_range :
    (topic : String) (seq : ℕ) (t : SequenceTracker)
    → ltb seq uint32 ≡ false
    → (observe topic seq t).1 ≡ t
unfolding observe
observe_out_of_range topic seq t h = rw h

state-flag :
    (t : SequenceTracker) (topic : String) → state (flag_for_reconciliation t) topic ≡ state t topic
unfolding state flag_for_reconciliation
state-flag t topic = refl

observe-IsAccounted :
    (topic other : String) (seq : ℕ) (t : SequenceTracker)
    → ((x : String) → IsAccounted (state t x))
    → IsAccounted (state (observe topic seq t).1 other)
observe-IsAccounted topic other seq t h = elim (Bool-cases (ltb seq uint32)) [
  | inl fits ↦
      rw (state-observe topic other seq t (ltb→lt seq uint32 fits))
        (elim (Bool-cases (string_key.agree topic other)) [
          | inl same ↦ rw same (observe_topic-IsAccounted topic seq (state t topic) (h topic))
          | inr different ↦ rw different (h other)
        ])
  | inr large ↦ rw (observe_out_of_range topic seq t large) (h other)
]

-- In every tracker that calls from a new one reach: a topic with no message has the counters of a
-- new topic, one with messages has at most one anomaly for each message after the first, and
-- messages are missing only if there was a gap.
pub Steps-IsAccounted :
    {t : SequenceTracker} (topic : String) → Steps new_tracker t → IsAccounted (state t topic)
unfolding state get
Steps-IsAccounted topic here = record {
  nothing_seen = λ _. refl;
  kinds = λ h. absurd (h refl);
  quiet = λ _. refl;
}
Steps-IsAccounted topic (next {u} r (observed x seq)) =
    observe-IsAccounted x topic seq u (λ y. Steps-IsAccounted y r)
Steps-IsAccounted topic (next {u} r flagged) = rw (state-flag u topic) (Steps-IsAccounted topic r)

-- The messages of one topic, in turn.
pub observe_all : String → List ℕ → SequenceTracker → SequenceTracker
observe_all topic [] t = t
observe_all topic (seq ∷ rest) t = observe_all topic rest (observe topic seq t).1

-- Increasing numbers above `last`, within one turn of the counter.
abbrev pub IsIncreasing : ℕ → List ℕ → Type 0
IsIncreasing last [] = Unit
IsIncreasing last (seq ∷ rest) = (last < seq) × (seq < uint32) × IsIncreasing seq rest

abbrev pub final : ℕ → List ℕ → ℕ
final last [] = last
final last (seq ∷ rest) = final seq rest

step_accounts :
    (topic : String) (last seq : ℕ) (s : TopicState)
    → s.last_seq ≡ some last
    → last < seq
    → ((observe_topic topic seq s).1.missing_total + (observe_topic topic seq s).1.received + last
        ≡ s.missing_total + s.received + seq)
      × ((observe_topic topic seq s).1.last_seq ≡ some seq)
unfolding observe_topic
step_accounts topic last seq s e h = ground arith

-- Over increasing numbers on one topic, each number passed is either received or counted as
-- missing.
pub observe_all-accounts :
    (topic : String) (seqs : List ℕ) (last : ℕ) (t : SequenceTracker)
    → (state t topic).last_seq ≡ some last
    → IsIncreasing last seqs
    → (state (observe_all topic seqs t) topic).missing_total
        + (state (observe_all topic seqs t) topic).received
        + last
      ≡ (state t topic).missing_total + (state t topic).received + final last seqs
unfolding observe_all
observe_all-accounts topic [] last t e h = refl
observe_all-accounts topic (seq ∷ rest) last t e (lo, hi, more) =
    let t' = (observe topic seq t).1 in
    let same : state t' topic ≡ (observe_topic topic seq (state t topic)).1 =
      state-observe topic topic seq t hi ∙ rw (agree_refl topic) in
    let (count, now) = step_accounts topic last seq (state t topic) e lo in
    omega (
      arith,
      observe_all-accounts topic rest seq t' (rw same now) more,
      count,
      ap (λ (s : TopicState). s.missing_total) same,
      ap (λ (s : TopicState). s.received) same,
    )
