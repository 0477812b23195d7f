-- ===== src/Node/Supervisor/Closed/Scans.antt =====
-- The scans that a supervisor makes once it is stopping.
use coldwatch.Base.{
  ℕ, suc, ◌+◌, ◌≤◌, Option-cases, ◌≡◌, refl, Bool, true, false, Option, none, some, List, [], ◌∷◌,
  ◌++◌, ltb, ◌||◌, if◌then◌else◌, length, if-elim, inl, inr, arith,
}
use coldwatch.Base.Integers.{ℤ}
use coldwatch.Base.Dict.{Dict}
use coldwatch.Base.Results.{Result, ok, err}
use coldwatch.Node.Scan.{ScanUtxo, ScanError, failed, uncaught}
use coldwatch.Node.Futures.{Future}
use coldwatch.Node.Rpc.{Reply}
use coldwatch.Node.Supervisor.{
  Request, Phase, unborn, idle, waiting, gathering, lingering, collected, cleared, scanning, gone,
  crashed, Supervisor, take_live, deliver_all,
}
use coldwatch.Node.Supervisor.Worker.{
  spk_requests, take_next, scan, execute, begin, answer_to, resolve, finish_scan, work,
}

-- One scan is under way, or its batch has passed the test of `_stopping`.
abbrev pub pending_scan : Phase → ℕ
pending_scan (cleared batch) = 1
pending_scan (scanning live) = 1
pending_scan _ = 0

-- No scan comes to an end in `t` that was not pending or done in `s`, and those done stay done.
pub record Spends (s t : Supervisor) : Type 0 where
  pub fewer : t.batches_run + pending_scan t.phase ≤ s.batches_run + pending_scan s.phase
  pub done_on : s.batches_run ≤ t.batches_run

pub spends : {s : Supervisor} → Spends s s
spends = record { fewer = omega arith; done_on = omega arith }

-- A step to a phase with no scan pending.
rests_in :
    {queue : List (Option Request)} {futures : Dict ℕ Future} {p : Phase} (s : Supervisor)
    → pending_scan p ≡ 0
    → Spends s (record s { queue = queue; futures = futures; phase = p })
rests_in s none_pending = record { fewer = omega (arith, none_pending); done_on = omega arith }

take_next-Spends :
    (batch : List Request) (loop : List Request → Phase) (otherwise : Phase)
    (queue : List (Option Request)) (s : Supervisor)
    → ((grown : List Request) → pending_scan (loop grown) ≡ 0)
    → pending_scan otherwise ≡ 0
    → Spends s (take_next batch loop otherwise (record s { queue = queue }))
unfolding take_next
take_next-Spends batch loop otherwise [] s l o = rests_in s o
take_next-Spends batch loop otherwise (none ∷ queue) s l o = rests_in s refl
take_next-Spends batch loop otherwise (some r ∷ queue) s l o = rests_in s (l (batch ++ r ∷ []))

begin-Spends :
    (batch : List Request) (s : Supervisor) → s.stopping ≡ true → Spends s (begin batch s)
unfolding begin
begin-Spends [] s stops =
    rests_in s (if-elim (λ (p : Phase). pending_scan p ≡ 0) s.stopping (λ e. refl) (λ e. refl))
begin-Spends (r ∷ requests) s stops =
    if-elim (Spends s) s.stopping (λ e. rests_in s refl) (λ e. absurd (ground arith))

scan-Spends :
    (batch live : List Request) (left : Dict ℕ Future) (s : Supervisor)
    → Spends
        (record s { phase = cleared batch })
        (scan live left (record s { phase = cleared batch }))
unfolding scan
scan-Spends batch [] left s = record { fewer = omega arith; done_on = omega arith }
scan-Spends batch (r ∷ live) left s = record { fewer = omega arith; done_on = omega arith }

execute-Spends :
    (batch : List Request) (s : Supervisor)
    → Spends
        (record s { phase = cleared batch })
        (execute batch (record s { phase = cleared batch }))
unfolding execute
execute-Spends batch s = elim (Option-cases (take_live batch s.futures)) [
  | inl e ↦ rw (execute, e) (rests_in (record s { phase = cleared batch }) refl)
  | inr ((live, left), e) ↦ rw (execute, e) (scan-Spends batch live left s)
]

resolve_ends :
    (r : Result ScanError (Dict (List ℕ) (List ScanUtxo))) (live : List Request) (s : Supervisor)
    → ((resolve r live s).batches_run ≡ s.batches_run) × (pending_scan (resolve r live s).phase ≡ 0)
unfolding resolve
resolve_ends (err (uncaught why)) live s = (refl, refl)
resolve_ends (err (failed error)) live s = (refl, refl)
resolve_ends (ok found) live s =
    elim (Option-cases (deliver_all found (spk_requests live) s.futures)) [
      | inl e ↦ rw (resolve, e) (refl, refl)
      | inr (left, e) ↦ rw (resolve, e) (refl, refl)
    ]

module _ (read_int : List ℕ → Option ℤ) where
  finish_scan-Spends :
      (reply : Reply) (live : List Request) (s : Supervisor)
      → Spends
          (record s { phase = scanning live })
          (finish_scan read_int reply live (record s { phase = scanning live }))
  unfolding finish_scan
  finish_scan-Spends reply live s =
      let (runs, none_pending) = resolve_ends (answer_to read_int reply live) live (record s {
        scan_in_flight = false;
        batches_run = suc s.batches_run;
        phase = scanning live;
      }) in
      record { fewer = omega (arith, runs, none_pending); done_on = omega (arith, runs) }

  pub work-Spends :
      (p : Phase) (expired : Bool) (reply : Reply) (s : Supervisor)
      → s.stopping ≡ true
      → Spends (record s { phase = p }) (work read_int expired reply (record s { phase = p }))
  unfolding work
  work-Spends unborn expired reply s stops = spends
  work-Spends gone expired reply s stops = spends
  work-Spends (crashed held) expired reply s stops = spends
  work-Spends (scanning live) expired reply s stops = finish_scan-Spends reply live s
  work-Spends (cleared batch) expired reply s stops = execute-Spends batch s
  work-Spends idle expired reply s stops =
      rests_in (record s { phase = idle })
        (if-elim (λ (p : Phase). pending_scan p ≡ 0) s.stopping (λ e. refl) (λ e. refl))
  work-Spends waiting expired reply s stops =
      take_next-Spends [] gathering (if expired then collected [] else waiting) s.queue
        (record s { phase = waiting }) (λ grown. refl)
        (if-elim (λ (p : Phase). pending_scan p ≡ 0) expired (λ e. refl) (λ e. refl))
  work-Spends (gathering batch) expired reply s stops =
      let here : Supervisor = record s { phase = gathering batch } in
      if-elim (Spends here) (ltb (length batch) s.batch_max)
        (λ room.
          take_next-Spends batch gathering (lingering batch) s.queue here (λ grown. refl) refl)
        (λ full. rests_in here refl)
  work-Spends (lingering batch) expired reply s stops =
      let here : Supervisor = record s { phase = lingering batch } in
      if-elim (Spends here) (ltb (length batch) s.batch_max)
        (λ room.
          if-elim (Spends here) (s.stopping || expired) (λ ends. rests_in here refl)
            (λ goes_on.
              take_next-Spends batch lingering (lingering batch) s.queue here (λ grown. refl) refl))
        (λ full. rests_in here refl)
  work-Spends (collected batch) expired reply s stops =
      begin-Spends batch (record s { phase = collected batch }) stops
