-- ===== src/Node/Supervisor/Bounds.antt =====
-- The bounds on the queue and on a batch.
pub mod Steps
mod Worker
use coldwatch.Base.{
  ℕ, zero, suc, ◌+◌, ◌<◌, ◌≤◌, ◌≡◌, ◌≢◌, refl, sym, ◌∙◌, ap, subst, ◌⊎◌, Bool, true, false, Option,
  none, some, List, [], ◌∷◌, ◌++◌, ltb, ltb→lt, leb, ◌==◌, not, ◌&&◌, ◌||◌, if◌then◌else◌, length,
  length-append, if-elim, Bool-cases, Option-cases, inl, inr, arith,
}
use coldwatch.Base.Integers.{ℤ}
use coldwatch.Base.Keys.{ℕ_key}
use coldwatch.Base.Dict.{Dict, put}
use coldwatch.Base.Results.{Result, ok, err, Result-cases}
use coldwatch.Node.Rpc.{Reply}
use coldwatch.Node.Scan.{ScanUtxo, ScanError, failed, uncaught}
use coldwatch.Node.Futures.{Future, state_of, set_running}
use coldwatch.Node.Supervisor.{
  Request, Phase, unborn, idle, waiting, gathering, lingering, collected, cleared, scanning, gone,
  crashed, Supervisor, SupervisorError, new_supervisor, is_full, put_request, cancel, take_live,
  deliver_all,
}
use coldwatch.Node.Supervisor.Worker.{
  spk_requests, take_next, scan, begin, answer_to, resolve, finish_scan, work, start, abort_scan,
  close_begin, close_end,
}
use coldwatch.Node.Supervisor.Events.{
  Event, enters, puts, cancels, starts, closes, drains, works, enter, proceed, after, after_all,
}
use coldwatch.Node.Supervisor.Served.{in_hand}
use coldwatch.Node.Supervisor.Bounds.Steps.{batch_bound, IsBounded, rephased}
use coldwatch.Node.Supervisor.Bounds.Worker.{work-IsBounded}

module _ (b m : ℕ) where
  no_hand : length (in_hand idle) ≤ batch_bound b
  unfolding in_hand
  no_hand = omega arith

  longer :
      (s : Supervisor) (item : Option Request)
      → IsBounded b m s
      → is_full s ≡ false
      → (m ≡ 0) ⊎ (length (s.queue ++ item ∷ []) ≤ m)
  unfolding is_full
  longer s item w room = elim (Bool-cases (s.queue_maxsize == 0)) [
    | inl free ↦ inl (ground (arith, w.same_maxsize))
    | inr bound ↦ inr (ground (arith, w.same_maxsize, length-append s.queue (item ∷ [])))
  ]

  told :
      (s : Supervisor)
      → IsBounded b m s
      → (joining : Bool)
      → IsBounded b m (record s {
        closed = true;
        stopping = true;
        queue = if is_full s then s.queue else s.queue ++ none ∷ [];
        joining = joining;
      })
  told s w joining = record {
    same_batch = w.same_batch;
    same_maxsize = w.same_maxsize;
    queue_bound =
        if-elim (λ (q : List (Option Request)). (m ≡ 0) ⊎ (length q ≤ m)) (is_full s)
          (λ full. w.queue_bound) (λ room. longer s none w room);
    hand_bound = w.hand_bound;
  }

  entered :
      (callers : ℕ) (s : Supervisor)
      → IsBounded b m s
      → IsBounded b m (record s { entering = callers })
  entered callers s w = record {
    same_batch = w.same_batch;
    same_maxsize = w.same_maxsize;
    queue_bound = w.queue_bound;
    hand_bound = w.hand_bound;
  }

  proceed-IsBounded :
      (callers : ℕ) (spk : List ℕ) (s : Supervisor)
      → IsBounded b m s
      → IsBounded b m (proceed callers spk s)
  unfolding proceed put_request
  proceed-IsBounded zero spk s w = w
  proceed-IsBounded (suc others) spk s w =
      let here : Supervisor = record s { entering = others } in
      if-elim (λ (r : Result SupervisorError ℕ × Supervisor). IsBounded b m r.1) (is_full here)
        (λ full. entered others s w)
        (λ room. record {
          same_batch = w.same_batch;
          same_maxsize = w.same_maxsize;
          queue_bound =
              longer here (some (record { spk = spk; future = s.issued })) (entered others s w)
                room;
          hand_bound = w.hand_bound;
        })

  after-IsBounded :
      (read_int : List ℕ → Option ℤ) (event : Event) (s : Supervisor)
      → IsBounded b m s
      → IsBounded b m (after read_int event s)
  unfolding after enter cancel start close_begin close_end
  after-IsBounded read_int enters s w =
      if-elim (IsBounded b m) s.closed (λ over. w) (λ live. entered (suc s.entering) s w)
  after-IsBounded read_int (puts spk) s w = proceed-IsBounded s.entering spk s w
  after-IsBounded read_int (cancels i) s w =
      if-elim (IsBounded b m) (ltb i s.issued)
        (λ known.
          rephased b m s.phase s.queue _ s.scan_in_flight s.batches_run s (omega arith) w.hand_bound
            w)
        (λ unknown. w)
  after-IsBounded read_int (starts reply) s w =
      let Kept : Result SupervisorError Unit × Supervisor → Type 0 = λ r. IsBounded b m r.1 in
      if-elim Kept s.has_worker (λ there. w)
        (λ new. elim (Result-cases (abort_scan read_int reply)) [
          | inr (why, e) ↦ rw e w
          | inl (found, e) ↦ rw e (record {
            same_batch = w.same_batch;
            same_maxsize = w.same_maxsize;
            queue_bound = w.queue_bound;
            hand_bound =
                if-elim (λ (p : Phase). length (in_hand p) ≤ batch_bound b) s.stopping
                  (λ stops. w.hand_bound) (λ serves. no_hand);
          })
        ])
  after-IsBounded read_int (closes reply) s w =
      let Kept : Result SupervisorError Unit × Supervisor → Type 0 = λ r. IsBounded b m r.1 in
      if-elim Kept s.closed (λ over. w)
        (λ new.
          if-elim Kept s.scan_in_flight
            (λ flies. elim (Result-cases (abort_scan read_int reply)) [
              | inr (why, e) ↦ rw e (told s w s.joining)
              | inl (found, e) ↦ rw e (told s w true)
            ])
            (λ rests. told s w true))
  after-IsBounded read_int drains s w =
      if-elim (IsBounded b m) s.joining
        (λ joins. record {
          same_batch = w.same_batch;
          same_maxsize = w.same_maxsize;
          queue_bound = elim w.queue_bound [ inl free ↦ inl free | inr room ↦ inr (omega arith) ];
          hand_bound = w.hand_bound;
        })
        (λ other. w)
  after-IsBounded read_int (works expired reply) s w =
      work-IsBounded b m read_int s.phase expired reply s w

  after_all-bounded :
      (read_int : List ℕ → Option ℤ) (events : List Event) (s : Supervisor)
      → IsBounded b m s
      → IsBounded b m (after_all read_int events s)
  unfolding after_all
  after_all-bounded read_int [] s w = w
  after_all-bounded read_int (event ∷ events) s w =
      after_all-bounded read_int events (after read_int event s)
        (after-IsBounded read_int event s w)

-- Whatever happens to a new supervisor, its queue holds no more items than its bound, where the bound
-- is not 0, and its worker has no more than batch_max requests in hand, or one if batch_max is less.
pub after_all-IsBounded :
    (read_int : List ℕ → Option ℤ) (batch_max queue_maxsize : ℕ) (events : List Event)
    → IsBounded batch_max queue_maxsize
        (after_all read_int events (new_supervisor batch_max queue_maxsize))
unfolding in_hand
after_all-IsBounded read_int batch_max queue_maxsize events =
    after_all-bounded batch_max queue_maxsize read_int events
      (new_supervisor batch_max queue_maxsize)
      (record {
        same_batch = refl;
        same_maxsize = refl;
        queue_bound = inr (omega arith);
        hand_bound = omega arith;
      })
