-- ===== src/Node/Supervisor/Bounds/Steps.antt =====
-- The bounds where the worker takes from the queue and starts a batch.
use coldwatch.Base.{
  ℕ, suc, ◌<◌, ◌≤◌, ◌≡◌, subst, ◌⊎◌, Bool, Option, none, some, List, [], ◌∷◌, ◌++◌, ltb,
  if◌then◌else◌, length, length-append, if-elim, Option-cases, inl, inr, arith,
}
use coldwatch.Base.Keys.{ℕ_key}
use coldwatch.Base.Dict.{Dict, put}
use coldwatch.Node.Futures.{Future, state_of, set_running}
use coldwatch.Node.Supervisor.{Request, Phase, collected, Supervisor, take_live}
use coldwatch.Node.Supervisor.Worker.{take_next}
use coldwatch.Node.Supervisor.Served.{in_hand}

-- A batch always takes its first request.
abbrev pub batch_bound : ℕ → ℕ
batch_bound batch_max = if ltb 1 batch_max then batch_max else 1

pub record IsBounded (batch_max queue_maxsize : ℕ) (s : Supervisor) : Type 0 where
  pub same_batch : s.batch_max ≡ batch_max
  pub same_maxsize : s.queue_maxsize ≡ queue_maxsize
  pub queue_bound : (queue_maxsize ≡ 0) ⊎ (length s.queue ≤ queue_maxsize)
  pub hand_bound : length (in_hand s.phase) ≤ batch_bound batch_max

module _ (b m : ℕ) where
  -- A supervisor with another phase, and a queue no longer than before.
  pub rephased :
      (p : Phase) (queue : List (Option Request)) (futures : Dict ℕ Future) (flight : Bool)
      (runs : ℕ) (s : Supervisor)
      → length queue ≤ length s.queue
      → length (in_hand p) ≤ batch_bound b
      → IsBounded b m s
      → IsBounded b m (record s {
        phase = p;
        queue = queue;
        futures = futures;
        scan_in_flight = flight;
        batches_run = runs;
      })
  rephased p queue futures flight runs s shorter few w = record {
    same_batch = w.same_batch;
    same_maxsize = w.same_maxsize;
    queue_bound = elim w.queue_bound [
      | inl free ↦ inl free
      | inr room ↦ inr (omega (arith, room, shorter))
    ];
    hand_bound = few;
  }

  pub take_next-IsBounded :
      (batch : List Request) (loop : List Request → Phase) (otherwise : Phase)
      (queue : List (Option Request)) (s : Supervisor)
      → ((grown : List Request) → in_hand (loop grown) ≡ grown)
      → length (in_hand otherwise) ≤ batch_bound b
      → length batch < batch_bound b
      → IsBounded b m (record s { queue = queue })
      → IsBounded b m (take_next batch loop otherwise (record s { queue = queue }))
  unfolding take_next in_hand
  take_next-IsBounded batch loop otherwise [] s into few room w =
      rephased otherwise [] s.futures s.scan_in_flight s.batches_run (record s { queue = [] })
        (omega arith) few w
  take_next-IsBounded batch loop otherwise (none ∷ queue) s into few room w =
      rephased (collected batch) queue s.futures s.scan_in_flight s.batches_run
        (record s { queue = none ∷ queue }) (omega arith) (omega (arith, room)) w
  take_next-IsBounded batch loop otherwise (some r ∷ queue) s into few room w =
      rephased (loop (batch ++ r ∷ [])) queue s.futures s.scan_in_flight s.batches_run
        (record s { queue = some r ∷ queue }) (omega arith)
        (rw (into (batch ++ r ∷ [])) (omega (arith, room, length-append batch (r ∷ [])))) w

-- The length of a result of `take_live`.
abbrev pub started : Option (List Request × Dict ℕ Future) → ℕ
started none = 0
started (some (live, left)) = length live

pub take_live_le :
    (batch : List Request) (futures : Dict ℕ Future)
    → started (take_live batch futures) ≤ length batch
unfolding take_live
take_live_le [] futures = omega arith
take_live_le (r ∷ batch) futures = elim (Option-cases (set_running (state_of r.future futures))) [
  | inl e ↦ rw (take_live, e) (omega arith)
  | inr ((runs, state), e) ↦
      let rest = take_live_le batch (put r.future state futures) in
      elim (Option-cases (take_live batch (put r.future state futures))) [
        | inl e' ↦ rw (take_live, e, e') (omega arith)
        | inr ((live, left), e') ↦
            let few : length live ≤ length batch =
              subst (λ (t : Option (List Request × Dict ℕ Future)). started t ≤ length batch) e'
                rest in
            rw (take_live, e, e')
              (if-elim (λ (l : List Request). length l ≤ suc (length batch)) runs
                (λ t. omega (arith, few)) (λ t. omega (arith, few)))
      ]
]
