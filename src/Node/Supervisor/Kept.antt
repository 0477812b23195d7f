-- ===== src/Node/Supervisor/Kept.antt =====
-- Each event keeps the invariant of the supervisor.
use coldwatch.Base.{
  ℕ, suc, ◌≡◌, refl, sym, ◌∙◌, subst, Bool, true, false, Option, none, List, [], ◌∷◌, ◌++◌,
  append-nil, ltb, ◌||◌, if◌then◌else◌, length, if-elim, inl, inr, arith,
}
use coldwatch.Base.Integers.{ℤ}
use coldwatch.Base.Dict.{Dict}
use coldwatch.Base.Results.{Result, ok, err, Result-cases}
use coldwatch.Node.Rpc.{Reply}
use coldwatch.Node.Scan.{ScanUtxo, ScanError, failed, uncaught, shut_down}
use coldwatch.Node.Futures.{Future, done, is_running, state_of}
use coldwatch.Node.Supervisor.{
  Request, Phase, unborn, idle, waiting, gathering, lingering, collected, cleared, scanning, gone,
  crashed, Supervisor, SupervisorError, is_full,
}
use coldwatch.Node.Supervisor.Worker.{
  spk_requests, answer_to, resolve, finish_scan, work, start, abort_scan, close_begin, close_end,
}
use coldwatch.Node.Supervisor.Outcomes.{ids, requests_of, requests_of-append, drain-fail}
use coldwatch.Node.Supervisor.Delivery.{deliver_live}
use coldwatch.Node.Supervisor.Holds.{Holds, fail-Holds, drain-Holds, deliver-Holds}
use coldwatch.Node.Supervisor.Served.{
  in_hand, fits, is_scanning, IsServed, IsGathering, is_idle, is_waiting_first, is_gathering,
  is_lingering, is_collected, is_gone, is_unborn, Waits-IsServed, served-Waits, take_next-IsServed,
  is_cleared, execute-IsServed, begin-IsServed,
}

pub runs_undone : (state : Future) → is_running state ≡ true → done state ≡ false
runs_undone Future.running h = refl
runs_undone _ h = absurd (ground arith)

resolve-IsServed :
    (r : Result ScanError (Dict (List ℕ) (List ScanUtxo))) (live : List Request) (s : Supervisor)
    → Holds is_running (ids live) (ids (requests_of s.queue)) s.issued s.futures
    → s.scan_in_flight ≡ false
    → IsServed (resolve r live s)
unfolding resolve ids in_hand is_scanning fits spk_requests
resolve-IsServed (err (uncaught why)) live s h n = record { holds = h; flight = n }
resolve-IsServed (err (failed error)) live s h n = record {
  holds = fail-Holds is_running (fits idle) error live _ s.issued s.futures h;
  flight = n;
}
resolve-IsServed (ok found) live s h n =
    let (left, e, states) =
      deliver_live found live s.futures h.hand_distinct
        (λ i here. runs_undone (state_of i s.futures) (h.hand_fits i here)) in
    rw (resolve, spk_requests, e)
      (record {
        holds = deliver-Holds (fits idle) found live _ s.issued s.futures left states h;
        flight = n;
      })

started-IsServed :
    (found : Bool) (s : Supervisor)
    → (s.stopping ≡ false → s.phase ≡ unborn)
    → IsServed s
    → IsServed (record s {
      orphans_aborted = if found then suc s.orphans_aborted else s.orphans_aborted;
      has_worker = true;
      phase = if s.stopping then s.phase else idle;
    })
started-IsServed found s fresh w =
    let Kept : Phase → Type 0 = λ p. IsServed (record s { phase = p }) in
    let kept : Kept (if s.stopping then s.phase else idle) =
      if-elim Kept s.stopping (λ stops. w)
        (λ serves.
          Waits-IsServed idle [] s is_idle (served-Waits [] s (rw (fresh serves) is_unborn) w)) in
    record { holds = kept.holds; flight = kept.flight }

woken-requests :
    (full : Bool) (queue : List (Option Request))
    → requests_of (if full then queue else queue ++ none ∷ []) ≡ requests_of queue
unfolding requests_of
woken-requests true queue = refl
woken-requests false queue = requests_of-append queue (none ∷ []) ∙ append-nil (requests_of queue)

told-IsServed :
    (s : Supervisor)
    → IsServed s
    → (joining : Bool)
    → IsServed (record s {
      closed = true;
      stopping = true;
      queue = if is_full s then s.queue else s.queue ++ none ∷ [];
      joining = joining;
    })
told-IsServed s w joining = record {
  holds = rw (woken-requests (is_full s) s.queue) w.holds;
  flight = w.flight;
}

module _ (read_int : List ℕ → Option ℤ) where
  finish_scan-IsServed :
      (reply : Reply) (live : List Request) (s : Supervisor)
      → IsServed (record s { phase = scanning live })
      → IsServed (finish_scan read_int reply live s)
  unfolding finish_scan in_hand fits
  finish_scan-IsServed reply live s w =
      resolve-IsServed (answer_to read_int reply live) live
        (record s { scan_in_flight = false; batches_run = suc s.batches_run }) w.holds refl

  pub work_in-IsServed :
      (p : Phase) (expired : Bool) (reply : Reply) (s : Supervisor)
      → IsServed (record s { phase = p })
      → IsServed (work read_int expired reply (record s { phase = p }))
  unfolding work
  work_in-IsServed unborn expired reply s w = w
  work_in-IsServed idle expired reply s w =
      Waits-IsServed (if s.stopping then gone else waiting) [] (record s { phase = idle })
        (if-elim (λ (p : Phase). IsGathering p []) s.stopping (λ stops. is_gone)
          (λ serves. is_waiting_first))
        (served-Waits [] (record s { phase = idle }) is_idle w)
  work_in-IsServed waiting expired reply s w =
      take_next-IsServed [] gathering (if expired then collected [] else waiting) s.queue
        (record s { phase = waiting }) is_gathering
        (if-elim (λ (p : Phase). IsGathering p []) expired (λ e. is_collected [])
          (λ e. is_waiting_first))
        (served-Waits [] (record s { phase = waiting }) is_waiting_first w)
  work_in-IsServed (gathering batch) expired reply s w =
      let waits =
        served-Waits batch (record s { phase = gathering batch }) (is_gathering batch) w in
      if-elim IsServed (ltb (length batch) s.batch_max)
        (λ room.
          take_next-IsServed batch gathering (lingering batch) s.queue
            (record s { phase = gathering batch }) is_gathering (is_lingering batch) waits)
        (λ full.
          Waits-IsServed (lingering batch) batch (record s { phase = gathering batch })
            (is_lingering batch) waits)
  work_in-IsServed (lingering batch) expired reply s w =
      let here : Supervisor = record s { phase = lingering batch } in
      let waits = served-Waits batch here (is_lingering batch) w in
      let out = Waits-IsServed (collected batch) batch here (is_collected batch) waits in
      if-elim IsServed (ltb (length batch) s.batch_max)
        (λ room.
          if-elim IsServed (s.stopping || expired) (λ ends. out)
            (λ goes_on.
              take_next-IsServed batch lingering (lingering batch) s.queue here is_lingering
                (is_lingering batch) waits))
        (λ full. out)
  work_in-IsServed (collected batch) expired reply s w =
      begin-IsServed batch (record s { phase = collected batch })
        (served-Waits batch (record s { phase = collected batch }) (is_collected batch) w)
  work_in-IsServed (cleared batch) expired reply s w =
      execute-IsServed batch (record s { phase = cleared batch })
        (served-Waits batch (record s { phase = cleared batch }) (is_cleared batch) w)
  work_in-IsServed (scanning live) expired reply s w =
      finish_scan-IsServed reply live (record s { phase = scanning live }) w
  work_in-IsServed gone expired reply s w = w
  work_in-IsServed (crashed live) expired reply s w = w

  pub start-IsServed :
      (reply : Reply) (s : Supervisor)
      → (s.has_worker ≡ false → s.stopping ≡ false → s.phase ≡ unborn)
      → IsServed s
      → IsServed (start read_int reply s).1
  unfolding start
  start-IsServed reply s fresh w =
      let Kept : Result SupervisorError Unit × Supervisor → Type 0 = λ r. IsServed r.1 in
      if-elim Kept s.has_worker (λ there. w)
        (λ new. elim (Result-cases (abort_scan read_int reply)) [
          | inr (why, e) ↦ rw e w
          | inl (found, e) ↦ rw e (started-IsServed found s (fresh new) w)
        ])

  pub close_begin-IsServed :
      (reply : Reply) (s : Supervisor) → IsServed s → IsServed (close_begin read_int reply s).1
  unfolding close_begin
  close_begin-IsServed reply s w =
      let Kept : Result SupervisorError Unit × Supervisor → Type 0 = λ r. IsServed r.1 in
      let told = told-IsServed s w in
      if-elim Kept s.closed (λ over. w)
        (λ new.
          if-elim Kept s.scan_in_flight
            (λ flies. elim (Result-cases (abort_scan read_int reply)) [
              | inr (why, e) ↦ rw e (told s.joining)
              | inl (found, e) ↦ rw e (told true)
            ])
            (λ rests. told true))

pub close_end-IsServed : (s : Supervisor) → IsServed s → IsServed (close_end s)
unfolding close_end requests_of ids
close_end-IsServed s w =
    if-elim IsServed s.joining
      (λ joins. record {
        holds =
            subst
              (λ (t : Dict ℕ Future). Holds (fits s.phase) (ids (in_hand s.phase)) [] s.issued t)
              (sym (drain-fail shut_down s.queue s.futures))
              (drain-Holds (fits s.phase) (ids (in_hand s.phase)) shut_down (requests_of s.queue)
                s.issued s.futures w.holds);
        flight = w.flight;
      })
      (λ other. w)
