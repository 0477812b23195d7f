-- ===== src/Node/Supervisor/Bounds/Worker.antt =====
-- The bounds over a step of the worker.
use coldwatch.Base.{
  ℕ, suc, ◌<◌, ◌≤◌, ◌≡◌, refl, subst, Bool, true, false, Option, List, [], ◌∷◌, ltb, ltb→lt, ◌||◌,
  if◌then◌else◌, length, if-elim, Option-cases, inl, inr, arith,
}
use coldwatch.Base.Integers.{ℤ}
use coldwatch.Base.Keys.{ℕ_key}
use coldwatch.Base.Dict.{Dict}
use coldwatch.Base.Results.{Result, ok, err}
use coldwatch.Node.Rpc.{Reply}
use coldwatch.Node.Scan.{ScanUtxo, ScanError, failed, uncaught}
use coldwatch.Node.Futures.{Future}
use coldwatch.Node.Supervisor.{
  Request, Phase, unborn, idle, waiting, gathering, lingering, collected, cleared, scanning, gone,
  crashed, Supervisor, take_live, deliver_all,
}
use coldwatch.Node.Supervisor.Worker.{
  spk_requests, scan, execute, begin, answer_to, resolve, finish_scan, work,
}
use coldwatch.Node.Supervisor.Served.{in_hand}
use coldwatch.Node.Supervisor.Bounds.Steps.{
  batch_bound, IsBounded, rephased, take_next-IsBounded, started, take_live_le,
}

module _ (b m : ℕ) where
  scan-IsBounded :
      (live : List Request) (left : Dict ℕ Future) (s : Supervisor)
      → length live ≤ batch_bound b
      → IsBounded b m s
      → IsBounded b m (scan live left s)
  unfolding scan in_hand
  scan-IsBounded [] left s few w =
      rephased b m idle s.queue left s.scan_in_flight s.batches_run s (omega arith) (omega arith) w
  scan-IsBounded (r ∷ live) left s few w =
      rephased b m (scanning (r ∷ live)) s.queue left true s.batches_run s (omega arith) few w

  execute-IsBounded :
      (batch : List Request) (s : Supervisor)
      → length batch ≤ batch_bound b
      → IsBounded b m s
      → IsBounded b m (execute batch s)
  unfolding execute in_hand
  execute-IsBounded batch s few w = elim (Option-cases (take_live batch s.futures)) [
    | inl e ↦
        rw (execute, e)
          (rephased b m (crashed batch) s.queue s.futures s.scan_in_flight s.batches_run s
            (omega arith) few w)
    | inr ((live, left), e) ↦
        let less : length live ≤ length batch =
          subst (λ (t : Option (List Request × Dict ℕ Future)). started t ≤ length batch) e
            (take_live_le batch s.futures) in
        rw (execute, e) (scan-IsBounded live left s (omega (arith, less, few)) w)
  ]

  begin-IsBounded :
      (batch : List Request) (s : Supervisor)
      → length batch ≤ batch_bound b
      → IsBounded b m s
      → IsBounded b m (begin batch s)
  unfolding begin in_hand
  begin-IsBounded [] s few w =
      rephased b m (if s.stopping then gone else idle) s.queue s.futures s.scan_in_flight
        s.batches_run s (omega arith)
        (if-elim (λ (p : Phase). length (in_hand p) ≤ batch_bound b) s.stopping (λ e. omega arith)
          (λ e. omega arith))
        w
  begin-IsBounded (r ∷ requests) s few w =
      if-elim (IsBounded b m) s.stopping
        (λ stops.
          rephased b m gone s.queue _ s.scan_in_flight s.batches_run s (omega arith) (omega arith)
            w)
        (λ serves.
          rephased b m (cleared (r ∷ requests)) s.queue s.futures s.scan_in_flight s.batches_run s
            (omega arith) few w)

  resolve-IsBounded :
      (r : Result ScanError (Dict (List ℕ) (List ScanUtxo))) (live : List Request) (s : Supervisor)
      → length live ≤ batch_bound b
      → IsBounded b m s
      → IsBounded b m (resolve r live s)
  unfolding resolve in_hand
  resolve-IsBounded (err (uncaught why)) live s few w =
      rephased b m (crashed live) s.queue s.futures s.scan_in_flight s.batches_run s (omega arith)
        few w
  resolve-IsBounded (err (failed error)) live s few w =
      rephased b m idle s.queue _ s.scan_in_flight s.batches_run s (omega arith) (omega arith) w
  resolve-IsBounded (ok found) live s few w =
      elim (Option-cases (deliver_all found (spk_requests live) s.futures)) [
        | inl e ↦
            rw (resolve, e)
              (rephased b m (crashed live) s.queue s.futures s.scan_in_flight s.batches_run s
                (omega arith) few w)
        | inr (left, e) ↦
            rw (resolve, e)
              (rephased b m idle s.queue left s.scan_in_flight s.batches_run s (omega arith)
                (omega arith) w)
      ]

  below :
      (s : Supervisor) (batch : List Request)
      → s.batch_max ≡ b
      → ltb (length batch) s.batch_max ≡ true
      → length batch < batch_bound b
  below s batch e room =
      if-elim (λ (n : ℕ). length batch < n) (ltb 1 b)
        (λ two. omega (arith, ltb→lt (length batch) s.batch_max room, e))
        (λ one. ground (arith, ltb→lt (length batch) s.batch_max room))

  pub work-IsBounded :
      (read_int : List ℕ → Option ℤ) (p : Phase) (expired : Bool) (reply : Reply) (s : Supervisor)
      → IsBounded b m (record s { phase = p })
      → IsBounded b m (work read_int expired reply (record s { phase = p }))
  unfolding work finish_scan in_hand
  work-IsBounded read_int unborn expired reply s w = w
  work-IsBounded read_int gone expired reply s w = w
  work-IsBounded read_int (crashed held) expired reply s w = w
  work-IsBounded read_int idle expired reply s w =
      rephased b m (if s.stopping then gone else waiting) s.queue s.futures s.scan_in_flight
        s.batches_run (record s { phase = idle }) (omega arith)
        (if-elim (λ (p : Phase). length (in_hand p) ≤ batch_bound b) s.stopping (λ e. omega arith)
          (λ e. omega arith))
        w
  work-IsBounded read_int waiting expired reply s w =
      take_next-IsBounded b m [] gathering (if expired then collected [] else waiting) s.queue
        (record s { phase = waiting }) (λ grown. refl)
        (if-elim (λ (p : Phase). length (in_hand p) ≤ batch_bound b) expired (λ e. omega arith)
          (λ e. omega arith))
        (if-elim (λ (n : ℕ). 0 < n) (ltb 1 b) (λ two. ground arith) (λ one. omega arith)) w
  work-IsBounded read_int (gathering batch) expired reply s w =
      let here : Supervisor = record s { phase = gathering batch } in
      if-elim (IsBounded b m) (ltb (length batch) s.batch_max)
        (λ room.
          take_next-IsBounded b m batch gathering (lingering batch) s.queue here (λ grown. refl)
            w.hand_bound (below here batch w.same_batch room) w)
        (λ full.
          rephased b m (lingering batch) s.queue s.futures s.scan_in_flight s.batches_run here
            (omega arith) w.hand_bound w)
  work-IsBounded read_int (lingering batch) expired reply s w =
      let here : Supervisor = record s { phase = lingering batch } in
      let out =
        rephased b m (collected batch) s.queue s.futures s.scan_in_flight s.batches_run here
          (omega arith) w.hand_bound w in
      if-elim (IsBounded b m) (ltb (length batch) s.batch_max)
        (λ room.
          if-elim (IsBounded b m) (s.stopping || expired) (λ ends. out)
            (λ goes_on.
              take_next-IsBounded b m batch lingering (lingering batch) s.queue here (λ grown. refl)
                w.hand_bound (below here batch w.same_batch room) w))
        (λ full. out)
  work-IsBounded read_int (collected batch) expired reply s w =
      begin-IsBounded batch (record s { phase = collected batch }) w.hand_bound w
  work-IsBounded read_int (cleared batch) expired reply s w =
      execute-IsBounded batch (record s { phase = cleared batch }) w.hand_bound w
  work-IsBounded read_int (scanning live) expired reply s w =
      resolve-IsBounded (answer_to read_int reply live) live
        (record s {
          scan_in_flight = false;
          batches_run = suc s.batches_run;
          phase = scanning live;
        })
        w.hand_bound
        (rephased b m (scanning live) s.queue s.futures false (suc s.batches_run)
          (record s { phase = scanning live }) (omega arith) w.hand_bound w)
