-- ===== src/Node/Supervisor/Closed.antt =====
-- What a supervisor that is closed no longer does.
pub mod Scans
use coldwatch.Base.{
  ℕ, zero, suc, ◌+◌, ◌≤◌, Option-cases, ◌≡◌, refl, sym, ◌∙◌, subst, Bool, true, false, Option, none,
  some, List, [], ◌∷◌, ◌++◌, ltb, ◌||◌, if◌then◌else◌, length, if-elim, inl, inr, arith,
}
use coldwatch.Base.Integers.{ℤ}
use coldwatch.Base.Dict.{Dict}
use coldwatch.Base.Results.{Result, ok, err, Result-cases}
use coldwatch.Node.Scan.{ScanUtxo, ScanError, failed, uncaught}
use coldwatch.Node.Futures.{Future}
use coldwatch.Node.Rpc.{Reply}
use coldwatch.Node.Supervisor.{
  Request, Phase, unborn, idle, waiting, gathering, lingering, collected, cleared, scanning, gone,
  crashed, Supervisor, SupervisorError, is_closed, new_supervisor, put_request, submit, cancel,
  is_full, take_live, deliver_all,
}
use coldwatch.Node.Supervisor.Worker.{
  spk_requests, take_next, scan, execute, begin, answer_to, resolve, finish_scan, work, start,
  abort_scan, close_begin, close_end,
}
use coldwatch.Node.Supervisor.Events.{
  Event, enters, puts, cancels, starts, closes, drains, works, enter, proceed, after, after_all,
}
use coldwatch.Node.Supervisor.Settings.{work-Same}
use coldwatch.Node.Supervisor.Invariant.{unborn-cases, rests, after_all-IsStarted}
use coldwatch.Node.Supervisor.Closing.Steps.{is_over}
use coldwatch.Node.Supervisor.Closed.Scans.{pending_scan, Spends, spends, work-Spends}

-- The second supervisor is as closed as the first, hands out a future only to a caller that was past
-- the test of `submit` in the first, and makes no scan but the one pending there.
record Stays (s t : Supervisor) : Type 0 where
  closed_on : t.closed ≡ true
  stopping_on : t.stopping ≡ true
  no_caller : t.entering ≤ s.entering
  no_future : t.issued + t.entering ≤ s.issued + s.entering
  scans : Spends s t

stays : {s : Supervisor} → s.closed ≡ true → s.stopping ≡ true → Stays s s
stays over stops = record {
  closed_on = over;
  stopping_on = stops;
  no_caller = omega arith;
  no_future = omega arith;
  scans = spends;
}

refused : (spk : List ℕ) (t : Supervisor) → t.closed ≡ true → submit spk t ≡ (err is_closed, t)
unfolding submit
refused spk t over =
    if-elim (λ (r : Result SupervisorError ℕ × Supervisor). r ≡ (err is_closed, t)) t.closed
      (λ e. refl) (λ e. absurd (ground arith))

proceed-Stays :
    (callers : ℕ) (spk : List ℕ) (s : Supervisor)
    → s.closed ≡ true
    → s.stopping ≡ true
    → callers ≡ s.entering
    → Stays s (proceed callers spk s)
unfolding proceed put_request
proceed-Stays zero spk s over stops e = stays over stops
proceed-Stays (suc others) spk s over stops e =
    let here : Supervisor = record s { entering = others } in
    if-elim (λ (r : Result SupervisorError ℕ × Supervisor). Stays s r.1) (is_full here)
      (λ full. record {
        closed_on = over;
        stopping_on = stops;
        no_caller = omega (arith, e);
        no_future = omega (arith, e);
        scans = record { fewer = omega arith; done_on = omega arith };
      })
      (λ room. record {
        closed_on = over;
        stopping_on = stops;
        no_caller = omega (arith, e);
        no_future = omega (arith, e);
        scans = record { fewer = omega arith; done_on = omega arith };
      })

module _ (read_int : List ℕ → Option ℤ) where
  work-Stays :
      (expired : Bool) (reply : Reply) (s : Supervisor)
      → s.closed ≡ true
      → s.stopping ≡ true
      → Stays s (work read_int expired reply s)
  work-Stays expired reply s over stops = elim (unborn-cases s.phase) [
    | inl e ↦ subst (Stays s) (sym (rests read_int expired reply s e)) (stays over stops)
    | inr born ↦
        let k = work-Same read_int s.phase expired reply s born in
        record {
          closed_on = k.same_closed ∙ over;
          stopping_on = k.same_stopping ∙ stops;
          no_caller = omega (arith, k.same_entering);
          no_future = omega (arith, k.same_issued, k.same_entering);
          scans = work-Spends read_int s.phase expired reply s stops;
        }
  ]

  after-Stays :
      (event : Event) (s : Supervisor)
      → s.closed ≡ true
      → s.stopping ≡ true
      → Stays s (after read_int event s)
  unfolding after enter cancel start close_begin close_end
  after-Stays enters s over stops =
      if-elim (Stays s) s.closed (λ e. stays over stops) (λ e. absurd (ground arith))
  after-Stays (puts spk) s over stops = proceed-Stays s.entering spk s over stops refl
  after-Stays (cancels i) s over stops =
      if-elim (Stays s) (ltb i s.issued)
        (λ known. record {
          closed_on = over;
          stopping_on = stops;
          no_caller = omega arith;
          no_future = omega arith;
          scans = record { fewer = omega arith; done_on = omega arith };
        })
        (λ unknown. stays over stops)
  after-Stays (starts reply) s over stops =
      let Kept : Result SupervisorError Unit × Supervisor → Type 0 = λ r. Stays s r.1 in
      if-elim Kept s.has_worker (λ there. stays over stops)
        (λ new. elim (Result-cases (abort_scan read_int reply)) [
          | inr (why, e) ↦ rw e (stays over stops)
          | inl (found, e) ↦ rw e (record {
            closed_on = over;
            stopping_on = stops;
            no_caller = omega arith;
            no_future = omega arith;
            scans = record {
              fewer =
                  subst
                    (λ (t : Bool).
                      s.batches_run + pending_scan (if t then s.phase else idle)
                      ≤ s.batches_run + pending_scan s.phase)
                    (sym stops) (omega arith);
              done_on = omega arith;
            };
          })
        ])
  after-Stays (closes reply) s over stops =
      let Kept : Result SupervisorError Unit × Supervisor → Type 0 = λ r. Stays s r.1 in
      if-elim Kept s.closed (λ e. stays over stops) (λ e. absurd (ground arith))
  after-Stays drains s over stops =
      if-elim (Stays s) s.joining
        (λ joins. record {
          closed_on = over;
          stopping_on = stops;
          no_caller = omega arith;
          no_future = omega arith;
          scans = record { fewer = omega arith; done_on = omega arith };
        })
        (λ other. stays over stops)
  after-Stays (works expired reply) s over stops = work-Stays expired reply s over stops

  after_all-Stays :
      (events : List Event) (s : Supervisor)
      → s.closed ≡ true
      → s.stopping ≡ true
      → Stays s (after_all read_int events s)
  unfolding after_all
  after_all-Stays [] s over stops = stays over stops
  after_all-Stays (event ∷ events) s over stops =
      let one = after-Stays event s over stops in
      let rest = after_all-Stays events (after read_int event s) one.closed_on one.stopping_on in
      record {
        closed_on = rest.closed_on;
        stopping_on = rest.stopping_on;
        no_caller = omega (arith, rest.no_caller, one.no_caller);
        no_future = omega (arith, rest.no_future, one.no_future);
        scans = record {
          fewer = omega (arith, rest.scans.fewer, one.scans.fewer);
          done_on = omega (arith, rest.scans.done_on, one.scans.done_on);
        };
      }

  -- Once a `close` has set its flags, whatever follows: a `submit` that makes its test is refused and
  -- changes nothing, a future is handed out only to a caller that was past that test before, one to
  -- each at most, and no scan ends but those that had ended and the one that was under way, or whose
  -- batch had passed the test of `_stopping`, if there was one.
  pub closed_for_good :
      (batch_max queue_maxsize : ℕ) (events later : List Event) (spk : List ℕ)
      → let s = after_all read_int events (new_supervisor batch_max queue_maxsize) in
        s.closed ≡ true
        → let t = after_all read_int later s in
          (submit spk t ≡ (err is_closed, t))
          × (t.entering ≤ s.entering)
          × (t.issued + t.entering ≤ s.issued + s.entering)
          × Spends s t
  closed_for_good batch_max queue_maxsize events later spk over =
      let s = after_all read_int events (new_supervisor batch_max queue_maxsize) in
      let k = after_all-IsStarted read_int batch_max queue_maxsize events in
      let on = after_all-Stays later s over (sym k.shut ∙ over) in
      (refused spk (after_all read_int later s) on.closed_on, on.no_caller, on.no_future, on.scans)
