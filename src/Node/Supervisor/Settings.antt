-- ===== src/Node/Supervisor/Settings.antt =====
-- What the steps of the worker leave as it is, and when there is a worker.
use coldwatch.Base.{
  ℕ, ◌≡◌, refl, ap, Bool, true, false, Option, none, some, List, [], ◌∷◌, ◌++◌, ltb, ◌||◌,
  if◌then◌else◌, length, if-elim, Option-cases, inl, inr, ◌≢◌,
}
use coldwatch.Base.Integers.{ℤ}
use coldwatch.Base.Dict.{Dict}
use coldwatch.Base.Results.{Result, ok, err}
use coldwatch.Node.Rpc.{Reply}
use coldwatch.Node.Scan.{ScanUtxo, ScanError, failed, uncaught}
use coldwatch.Node.Futures.{Future}
use coldwatch.Node.Supervisor.{
  Request, Phase, unborn, idle, waiting, gathering, lingering, collected, cleared, scanning, gone,
  crashed, Supervisor, take_live, deliver_all,
}
use coldwatch.Node.Supervisor.Worker.{
  spk_requests, take_next, scan, execute, begin, answer_to, resolve, finish_scan, work,
}

-- The two supervisors agree on all but the queue, the futures, the scan and the phase.
pub record Same (s t : Supervisor) : Type 0 where
  pub same_batch_max : t.batch_max ≡ s.batch_max
  pub same_maxsize : t.queue_maxsize ≡ s.queue_maxsize
  pub same_issued : t.issued ≡ s.issued
  pub same_entering : t.entering ≡ s.entering
  pub same_stopping : t.stopping ≡ s.stopping
  pub same_worker : t.has_worker ≡ s.has_worker
  pub same_closed : t.closed ≡ s.closed
  pub same_joining : t.joining ≡ s.joining
  pub born : t.phase ≢ unborn

abbrev is_unborn : Phase → Bool
is_unborn unborn = true
is_unborn _ = false

same :
    {queue : List (Option Request)} {futures : Dict ℕ Future} {flight : Bool} {runs : ℕ} {p : Phase}
    (s : Supervisor)
    → is_unborn p ≡ false
    → Same s (record s {
      queue = queue;
      futures = futures;
      scan_in_flight = flight;
      batches_run = runs;
      phase = p;
    })
same s b = record {
  same_batch_max = refl;
  same_maxsize = refl;
  same_issued = refl;
  same_entering = refl;
  same_stopping = refl;
  same_worker = refl;
  same_closed = refl;
  same_joining = refl;
  born = λ e. absurd (cc (ap is_unborn e));
}

take_next-Same :
    (batch : List Request) (loop : List Request → Phase) (otherwise : Phase)
    (queue : List (Option Request)) (s : Supervisor)
    → is_unborn otherwise ≡ false
    → ((grown : List Request) → is_unborn (loop grown) ≡ false)
    → Same s (take_next batch loop otherwise (record s { queue = queue }))
unfolding take_next
take_next-Same batch loop otherwise [] s o l = same s o
take_next-Same batch loop otherwise (none ∷ queue) s o l = same s refl
take_next-Same batch loop otherwise (some r ∷ queue) s o l = same s (l (batch ++ r ∷ []))

scan-Same :
    (live : List Request) (left : Dict ℕ Future) (s : Supervisor) → Same s (scan live left s)
unfolding scan
scan-Same [] left s = same s refl
scan-Same (r ∷ live) left s = same s refl

execute-Same : (batch : List Request) (s : Supervisor) → Same s (execute batch s)
unfolding execute
execute-Same batch s = elim (Option-cases (take_live batch s.futures)) [
  | inl e ↦ rw (execute, e) (same s refl)
  | inr ((live, left), e) ↦ rw (execute, e) (scan-Same live left s)
]

begin-Same : (batch : List Request) (s : Supervisor) → Same s (begin batch s)
unfolding begin
begin-Same [] s =
    same s (if-elim (λ (p : Phase). is_unborn p ≡ false) s.stopping (λ e. refl) (λ e. refl))
begin-Same (r ∷ requests) s =
    if-elim (Same s) s.stopping (λ stops. same s refl) (λ serves. same s refl)

resolve-Same :
    (r : Result ScanError (Dict (List ℕ) (List ScanUtxo))) (live : List Request) (s : Supervisor)
    → Same s (resolve r live s)
unfolding resolve
resolve-Same (err (uncaught why)) live s = same s refl
resolve-Same (err (failed error)) live s = same s refl
resolve-Same (ok found) live s =
    elim (Option-cases (deliver_all found (spk_requests live) s.futures)) [
      | inl e ↦ rw (resolve, e) (same s refl)
      | inr (left, e) ↦ rw (resolve, e) (same s refl)
    ]

landed :
    {p : Phase} {flight : Bool} {runs : ℕ} {t : Supervisor} (s : Supervisor)
    → Same (record s { scan_in_flight = flight; batches_run = runs; phase = p }) t
    → Same (record s { phase = p }) t
landed s h = record {
  same_batch_max = h.same_batch_max;
  same_maxsize = h.same_maxsize;
  same_issued = h.same_issued;
  same_entering = h.same_entering;
  same_stopping = h.same_stopping;
  same_worker = h.same_worker;
  same_closed = h.same_closed;
  same_joining = h.same_joining;
  born = h.born;
}

-- A step of a worker that has started.
pub work-Same :
    (read_int : List ℕ → Option ℤ) (p : Phase) (expired : Bool) (reply : Reply) (s : Supervisor)
    → p ≢ unborn
    → Same (record s { phase = p }) (work read_int expired reply (record s { phase = p }))
unfolding work finish_scan
work-Same read_int unborn expired reply s b = absurd (b refl)
work-Same read_int idle expired reply s b =
    same (record s { phase = idle })
      (if-elim (λ (p : Phase). is_unborn p ≡ false) s.stopping (λ e. refl) (λ e. refl))
work-Same read_int waiting expired reply s b =
    take_next-Same [] gathering (if expired then collected [] else waiting) s.queue
      (record s { phase = waiting })
      (if-elim (λ (p : Phase). is_unborn p ≡ false) expired (λ e. refl) (λ e. refl)) (λ grown. refl)
work-Same read_int (gathering batch) expired reply s b =
    let here : Supervisor = record s { phase = gathering batch } in
    if-elim (Same here) (ltb (length batch) s.batch_max)
      (λ room. take_next-Same batch gathering (lingering batch) s.queue here refl (λ grown. refl))
      (λ full. same here refl)
work-Same read_int (lingering batch) expired reply s b =
    let here : Supervisor = record s { phase = lingering batch } in
    if-elim (Same here) (ltb (length batch) s.batch_max)
      (λ room.
        if-elim (Same here) (s.stopping || expired) (λ ends. same here refl)
          (λ goes_on.
            take_next-Same batch lingering (lingering batch) s.queue here refl (λ grown. refl)))
      (λ full. same here refl)
work-Same read_int (collected batch) expired reply s b =
    begin-Same batch (record s { phase = collected batch })
work-Same read_int (cleared batch) expired reply s b =
    execute-Same batch (record s { phase = cleared batch })
work-Same read_int (scanning live) expired reply s b =
    landed s (resolve-Same (answer_to read_int reply live) live _)
work-Same read_int gone expired reply s b = same (record s { phase = gone }) refl
work-Same read_int (crashed live) expired reply s b = same (record s { phase = crashed live }) refl
