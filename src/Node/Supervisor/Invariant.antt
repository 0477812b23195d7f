-- ===== src/Node/Supervisor/Invariant.antt =====
-- The invariants of a supervisor over any row of events.
use coldwatch.Base.{
  ℕ, zero, suc, ◌≡◌, ◌≢◌, refl, sym, ◌∙◌, subst, ◌⊎◌, Bool, true, false, Option, List, [], ◌∷◌, ltb,
  if-elim, inl, inr, arith,
}
use coldwatch.Base.Integers.{ℤ}
use coldwatch.Base.Results.{Result, Result-cases}
use coldwatch.Match.Index.Items.{has_item, IsDistinct}
use coldwatch.Node.Rpc.{Reply}
use coldwatch.Node.Supervisor.{
  Phase, unborn, idle, waiting, gathering, lingering, collected, cleared, scanning, gone, crashed,
  Supervisor, SupervisorError, new_supervisor, put_request, cancel, is_full,
}
use coldwatch.Node.Supervisor.Worker.{work, start, abort_scan, close_begin, close_end}
use coldwatch.Node.Supervisor.Outcomes.{ids, requests_of}
use coldwatch.Node.Supervisor.Events.{
  Event, enters, puts, cancels, starts, closes, drains, works, enter, proceed, after, after_all,
}
use coldwatch.Node.Supervisor.Served.{
  in_hand, fits, is_scanning, IsServed, enter-IsServed, proceed-IsServed, cancel-IsServed,
}
use coldwatch.Node.Supervisor.Kept.{
  work_in-IsServed, start-IsServed, close_begin-IsServed, close_end-IsServed,
}
use coldwatch.Node.Supervisor.Settings.{work-Same}

-- When there is a worker, and when a `close` is under way.
pub record IsStarted (s : Supervisor) : Type 0 where
  pub fresh : s.has_worker ≡ false → s.stopping ≡ false → s.phase ≡ unborn
  pub joins : s.joining ≡ true → s.stopping ≡ true
  pub shut : s.closed ≡ s.stopping

pub unborn-cases : (p : Phase) → (p ≡ unborn) ⊎ (p ≢ unborn)
unborn-cases unborn = inl refl
unborn-cases idle = inr (λ e. cc)
unborn-cases waiting = inr (λ e. cc)
unborn-cases (gathering batch) = inr (λ e. cc)
unborn-cases (lingering batch) = inr (λ e. cc)
unborn-cases (collected batch) = inr (λ e. cc)
unborn-cases (cleared batch) = inr (λ e. cc)
unborn-cases (scanning live) = inr (λ e. cc)
unborn-cases gone = inr (λ e. cc)
unborn-cases (crashed live) = inr (λ e. cc)

proceed-IsStarted :
    (callers : ℕ) (spk : List ℕ) (s : Supervisor) → IsStarted s → IsStarted (proceed callers spk s)
unfolding proceed put_request
proceed-IsStarted zero spk s w = w
proceed-IsStarted (suc others) spk s w =
    let here : Supervisor = record s { entering = others } in
    if-elim (λ (r : Result SupervisorError ℕ × Supervisor). IsStarted r.1) (is_full here)
      (λ full. record { fresh = w.fresh; joins = w.joins; shut = w.shut })
      (λ room. record { fresh = w.fresh; joins = w.joins; shut = w.shut })

module _ (read_int : List ℕ → Option ℤ) where
  pub rests :
      (expired : Bool) (reply : Reply) (s : Supervisor)
      → s.phase ≡ unborn
      → work read_int expired reply s ≡ s
  unfolding work
  rests expired reply s e =
      subst
        (λ (p : Phase).
          work read_int expired reply (record s { phase = p }) ≡ record s { phase = p })
        (sym e) refl

  work-IsStarted :
      (expired : Bool) (reply : Reply) (s : Supervisor)
      → IsStarted s
      → IsStarted (work read_int expired reply s)
  work-IsStarted expired reply s w = elim (unborn-cases s.phase) [
    | inl e ↦ subst IsStarted (sym (rests expired reply s e)) w
    | inr born ↦
        let k = work-Same read_int s.phase expired reply s born in
        record {
          fresh = λ no_worker serves.
              absurd
                (born (w.fresh (sym k.same_worker ∙ no_worker) (sym k.same_stopping ∙ serves)));
          joins = λ j. k.same_stopping ∙ w.joins (sym k.same_joining ∙ j);
          shut = k.same_closed ∙ w.shut ∙ sym k.same_stopping;
        }
  ]

  after-IsStarted :
      (event : Event) (s : Supervisor) → IsStarted s → IsStarted (after read_int event s)
  unfolding after enter cancel start close_begin close_end
  after-IsStarted enters s w =
      if-elim IsStarted s.closed (λ over. w)
        (λ live. record { fresh = w.fresh; joins = w.joins; shut = w.shut })
  after-IsStarted (puts spk) s w = proceed-IsStarted s.entering spk s w
  after-IsStarted (cancels i) s w =
      if-elim IsStarted (ltb i s.issued)
        (λ known. record { fresh = w.fresh; joins = w.joins; shut = w.shut }) (λ unknown. w)
  after-IsStarted (starts reply) s w =
      let Kept : Result SupervisorError Unit × Supervisor → Type 0 = λ r. IsStarted r.1 in
      if-elim Kept s.has_worker (λ there. w)
        (λ new. elim (Result-cases (abort_scan read_int reply)) [
          | inr (why, e) ↦ rw e w
          | inl (found, e) ↦ rw e (record { fresh = λ t. cc; joins = w.joins; shut = w.shut })
        ])
  after-IsStarted (closes reply) s w =
      let Kept : Result SupervisorError Unit × Supervisor → Type 0 = λ r. IsStarted r.1 in
      if-elim Kept s.closed (λ over. w)
        (λ new.
          if-elim Kept s.scan_in_flight
            (λ flies. elim (Result-cases (abort_scan read_int reply)) [
              | inr (why, e) ↦ rw e (record { fresh = λ n t. cc; joins = λ j. refl; shut = refl })
              | inl (found, e) ↦ rw e (record { fresh = λ n t. cc; joins = λ j. refl; shut = refl })
            ])
            (λ rests. record { fresh = λ n t. cc; joins = λ j. refl; shut = refl }))
  after-IsStarted drains s w =
      if-elim IsStarted s.joining
        (λ joins. record { fresh = λ n serves. cc (w.joins joins); joins = λ j. cc; shut = w.shut })
        (λ other. w)
  after-IsStarted (works expired reply) s w = work-IsStarted expired reply s w

  after-IsServed :
      (event : Event) (s : Supervisor)
      → IsStarted s
      → IsServed s
      → IsServed (after read_int event s)
  unfolding after
  after-IsServed enters s k w = enter-IsServed s w
  after-IsServed (puts spk) s k w = proceed-IsServed s.entering spk s w
  after-IsServed (cancels i) s k w =
      if-elim IsServed (ltb i s.issued) (λ known. cancel-IsServed i s w) (λ unknown. w)
  after-IsServed (starts reply) s k w = start-IsServed read_int reply s k.fresh w
  after-IsServed (closes reply) s k w = close_begin-IsServed read_int reply s w
  after-IsServed drains s k w = close_end-IsServed s w
  after-IsServed (works expired reply) s k w = work_in-IsServed read_int s.phase expired reply s w

  pub after_all-invariants :
      (events : List Event) (s : Supervisor)
      → IsStarted s
      → IsServed s
      → IsStarted (after_all read_int events s) × IsServed (after_all read_int events s)
  unfolding after_all
  after_all-invariants [] s k w = (k, w)
  after_all-invariants (event ∷ events) s k w =
      after_all-invariants events (after read_int event s) (after-IsStarted event s k)
        (after-IsServed event s k w)

new-IsServed : (batch_max queue_maxsize : ℕ) → IsServed (new_supervisor batch_max queue_maxsize)
unfolding in_hand fits is_scanning ids requests_of has_item IsDistinct
new-IsServed batch_max queue_maxsize = record {
  holds = record {
    hand_distinct = tt;
    queue_distinct = tt;
    apart = λ i h. cc;
    hand_known = λ i h. absurd (ground arith);
    queue_known = λ i h. absurd (ground arith);
    hand_fits = λ i h. absurd (ground arith);
    queue_waits = λ i h. absurd (ground arith);
    settled = λ i below off left. absurd (ground arith);
  };
  flight = refl;
}

new-IsStarted : (batch_max queue_maxsize : ℕ) → IsStarted (new_supervisor batch_max queue_maxsize)
new-IsStarted batch_max queue_maxsize = record { fresh = λ h t. refl; joins = λ j. cc; shut = refl }

-- Whatever happens to a new supervisor, every future that it has handed out is done, or is held by
-- exactly one request, of the queue or of the worker: of the queue or of a batch it waits or is
-- cancelled, of a scan it runs. A scan is in flight exactly while the worker is in its call.
pub after_all-IsServed :
    (read_int : List ℕ → Option ℤ) (batch_max queue_maxsize : ℕ) (events : List Event)
    → IsServed (after_all read_int events (new_supervisor batch_max queue_maxsize))
after_all-IsServed read_int batch_max queue_maxsize events =
    (after_all-invariants read_int events (new_supervisor batch_max queue_maxsize)
      (new-IsStarted batch_max queue_maxsize) (new-IsServed batch_max queue_maxsize)).1

pub after_all-IsStarted :
    (read_int : List ℕ → Option ℤ) (batch_max queue_maxsize : ℕ) (events : List Event)
    → IsStarted (after_all read_int events (new_supervisor batch_max queue_maxsize))
after_all-IsStarted read_int batch_max queue_maxsize events =
    (after_all-invariants read_int events (new_supervisor batch_max queue_maxsize)
      (new-IsStarted batch_max queue_maxsize) (new-IsServed batch_max queue_maxsize)).0
