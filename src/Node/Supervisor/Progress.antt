-- ===== src/Node/Supervisor/Progress.antt =====
-- How far the worker is from having served the queue, and from its end.
use coldwatch.Base.{
  ℕ, ◌+◌, ◌*◌, ◌<◌, ◌≤◌, ◌≡◌, ◌≢◌, refl, sym, subst, ◌⊎◌, Bool, true, false, Option, none, some,
  List, [], ◌∷◌, ◌++◌, if◌then◌else◌, length, if-elim, Option-cases, inl, inr, arith,
}
use coldwatch.Base.Integers.{ℤ}
use coldwatch.Base.Dict.{Dict}
use coldwatch.Base.Results.{Result, ok, err}
use coldwatch.Node.Json.{PyError}
use coldwatch.Node.Rpc.{Reply}
use coldwatch.Node.Scan.{ScanUtxo, ScanError, failed, uncaught}
use coldwatch.Node.Futures.{Future, is_running, state_of}
use coldwatch.Node.Supervisor.{
  Request, Phase, unborn, idle, waiting, gathering, lingering, collected, cleared, scanning, gone,
  crashed, Supervisor, deliver_all,
}
use coldwatch.Node.Supervisor.Worker.{
  spk_requests, take_next, scan, execute, begin, answer_to, resolve,
}
use coldwatch.Node.Supervisor.Outcomes.{ids, requests_of, take_live_lem}
use coldwatch.Node.Supervisor.Delivery.{deliver_live}
use coldwatch.Node.Supervisor.Holds.{Holds}
use coldwatch.Node.Supervisor.Served.{Waits}
use coldwatch.Node.Supervisor.Kept.{runs_undone}

-- No answer to a scan that this reply brings raises past the handlers of `_execute`.
abbrev pub IsReadable : (List ℕ → Option ℤ) → Reply → Type 0
IsReadable read_int reply =
    (live : List Request) (why : PyError) → answer_to read_int reply live ≢ err (uncaught why)

-- The worker is in its loop.
abbrev pub is_serving : Phase → Bool
is_serving unborn = false
is_serving idle = true
is_serving waiting = true
is_serving (gathering batch) = true
is_serving (lingering batch) = true
is_serving (collected batch) = true
is_serving (cleared batch) = true
is_serving (scanning live) = true
is_serving gone = false
is_serving (crashed live) = false

-- Nothing is queued, and nothing is in the worker's hand.
abbrev pub is_quiet : Phase → List (Option Request) → Bool
is_quiet idle [] = true
is_quiet waiting [] = true
is_quiet (collected []) [] = true
is_quiet _ _ = false

abbrev pub rank : Phase → List (Option Request) → ℕ
rank unborn queue = 0
rank idle queue = 7 * length queue + 1
rank waiting queue = 7 * length queue
rank (gathering batch) queue = 7 * length queue + 6
rank (lingering batch) queue = 7 * length queue + 5
rank (collected batch) queue = 7 * length queue + 4
rank (cleared batch) queue = 7 * length queue + 3
rank (scanning live) queue = 7 * length queue + 2
rank gone queue = 0
rank (crashed live) queue = 0

-- A step of a worker that serves brings it closer to a quiet state, or keeps it there.
pub record Advances (p : Phase) (queue : List (Option Request)) (t : Supervisor) : Type 0 where
  pub serving : is_serving t.phase ≡ true
  pub progress : (rank t.phase t.queue < rank p queue) ⊎ (is_quiet t.phase t.queue ≡ true)
  pub calm : is_quiet p queue ≡ true → is_quiet t.phase t.queue ≡ true

scan-Advances :
    (batch live : List Request) (left : Dict ℕ Future) (s : Supervisor)
    → Advances (cleared batch) s.queue (scan live left s)
unfolding scan
scan-Advances batch [] left s = record {
  serving = refl;
  progress = inl (omega arith);
  calm = λ h. absurd (ground arith);
}
scan-Advances batch (r ∷ live) left s = record {
  serving = refl;
  progress = inl (omega arith);
  calm = λ h. absurd (ground arith);
}

idle-Advances :
    (queue : List (Option Request)) (s : Supervisor)
    → Advances (collected []) queue (record s { queue = queue; phase = idle })
idle-Advances [] s = record { serving = refl; progress = inr refl; calm = λ h. refl }
idle-Advances (r ∷ queue) s = record {
  serving = refl;
  progress = inl (omega arith);
  calm = λ h. absurd (ground arith);
}

pub begin-Advances :
    (batch : List Request) (s : Supervisor)
    → s.stopping ≡ false
    → Advances (collected batch) s.queue (begin batch s)
unfolding begin
begin-Advances [] s serves =
    subst
      (λ (t : Bool).
        Advances (collected []) s.queue (record s { phase = if t then gone else idle }))
      (sym serves) (idle-Advances s.queue s)
begin-Advances (r ∷ requests) s serves =
    if-elim (Advances (collected (r ∷ requests)) s.queue) s.stopping
      (λ stops. absurd (ground arith))
      (λ going. record {
        serving = refl;
        progress = inl (omega arith);
        calm = λ h. absurd (ground arith);
      })

pub execute-Advances :
    (batch : List Request) (s : Supervisor)
    → Waits batch s
    → Advances (cleared batch) s.queue (execute batch s)
unfolding execute
execute-Advances batch s w =
    let (live, left, e, t) =
      take_live_lem batch s.futures w.holds.hand_distinct w.holds.hand_fits in
    rw (execute, e) (scan-Advances batch live left s)

pub resolve_phase :
    (r : Result ScanError (Dict (List ℕ) (List ScanUtxo))) (live : List Request) (s : Supervisor)
    → ((why : PyError) → r ≢ err (uncaught why))
    → Holds is_running (ids live) (ids (requests_of s.queue)) s.issued s.futures
    → (resolve r live s).phase ≡ idle
unfolding resolve
resolve_phase (err (uncaught why)) live s readable h = absurd (readable why refl)
resolve_phase (err (failed error)) live s readable h = refl
resolve_phase (ok found) live s readable h =
    let (left, e, states) =
      deliver_live found live s.futures h.hand_distinct
        (λ i here. runs_undone (state_of i s.futures) (h.hand_fits i here)) in
    rw (resolve, spk_requests, e) refl

pub resolve_queue :
    (r : Result ScanError (Dict (List ℕ) (List ScanUtxo))) (live : List Request) (s : Supervisor)
    → (resolve r live s).queue ≡ s.queue
unfolding resolve
resolve_queue (err (uncaught why)) live s = refl
resolve_queue (err (failed error)) live s = refl
resolve_queue (ok found) live s =
    elim (Option-cases (deliver_all found (spk_requests live) s.futures)) [
      | inl e ↦ rw (resolve, e) refl
      | inr (left, e) ↦ rw (resolve, e) refl
    ]

pub take_next-Advances :
    (batch : List Request) (loop : List Request → Phase) (p otherwise : Phase)
    (queue : List (Option Request)) (s : Supervisor)
    → ((grown : List Request) (rest : List (Option Request))
        → (is_serving (loop grown) ≡ true) × (rank (loop grown) rest ≤ 7 * length rest + 6))
    → ((rest : List (Option Request)) → 7 * length rest ≤ rank p rest)
    → ((item : Option Request) (rest : List (Option Request)) → is_quiet p (item ∷ rest) ≡ false)
    → Advances p [] (record s { queue = []; phase = otherwise })
    → Advances p queue (take_next batch loop otherwise (record s { queue = queue }))
unfolding take_next
take_next-Advances batch loop p otherwise [] s into from busy dry = record {
  serving = dry.serving;
  progress = dry.progress;
  calm = dry.calm;
}
take_next-Advances batch loop p otherwise (none ∷ queue) s into from busy dry = record {
  serving = refl;
  progress = inl (omega (arith, from (none ∷ queue)));
  calm = λ h. absurd (cc (h, busy none queue));
}
take_next-Advances batch loop p otherwise (some r ∷ queue) s into from busy dry = record {
  serving = (into (batch ++ r ∷ []) queue).0;
  progress = inl (omega (arith, from (some r ∷ queue), (into (batch ++ r ∷ []) queue).1));
  calm = λ h. absurd (cc (h, busy (some r) queue));
}
