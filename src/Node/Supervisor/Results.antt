-- ===== src/Node/Supervisor/Results.antt =====
-- The end of a scan: each request of it gets the outcome of its own script.
use coldwatch.Base.{
  ℕ, suc, ◌≡◌, refl, sym, ◌∙◌, subst, Bool, true, false, Option, some, List, Bool-cases,
  Option-cases, inl, inr, arith,
}
use coldwatch.Base.Integers.{ℤ}
use coldwatch.Base.Dict.{Dict}
use coldwatch.Base.Results.{Result, ok, err}
use coldwatch.Match.Index.Items.{has_item}
use coldwatch.Node.Json.{PyError}
use coldwatch.Node.Rpc.{Reply}
use coldwatch.Node.Scan.{ScanUtxo, ScanError, failed, uncaught}
use coldwatch.Node.Futures.{Future, is_running, state_of}
use coldwatch.Node.Supervisor.{
  Request, Phase, idle, scanning, crashed, Supervisor, new_supervisor, deliver_all,
}
use coldwatch.Node.Supervisor.Worker.{spk_requests, answer_to, resolve, finish_scan, work}
use coldwatch.Node.Supervisor.Outcomes.{ids, requests_of, state_of-fail}
use coldwatch.Node.Supervisor.Groups.{script_of}
use coldwatch.Node.Supervisor.Delivery.{deliver_live, script_of-absent}
use coldwatch.Node.Supervisor.Holds.{Holds}
use coldwatch.Node.Supervisor.Events.{Event, after_all}
use coldwatch.Node.Supervisor.Served.{in_hand, fits, IsServed}
use coldwatch.Node.Supervisor.Kept.{runs_undone}
use coldwatch.Node.Supervisor.Invariant.{after_all-IsServed}
use coldwatch.Node.Supervisor.Answers.{outcome, Agrees, reply-Agrees}

-- What a scan's end does for one request: its future takes the outcome and the worker goes on, or the
-- exception ends the worker and leaves the future as it was.
unfoldable pub Settles :
    Result PyError Future → ℕ → List Request → Dict ℕ Future → Supervisor → Type 0
Settles (ok state) i live before t = (state_of i t.futures ≡ state) × (t.phase ≡ idle)
Settles (err why) i live before t = (t.futures ≡ before) × (t.phase ≡ crashed live)

in_live :
    (i : ℕ) (live : List Request) {spk : List ℕ}
    → script_of i live ≡ some spk
    → has_item i (ids live) ≡ true
in_live i live mine = elim (Bool-cases (has_item i (ids live))) [
  | inl here ↦ here
  | inr absent ↦ absurd (cc (mine, script_of-absent i live absent))
]

resolve-Settles :
    (r : Result ScanError (Dict (List ℕ) (List ScanUtxo))) (live : List Request) (i : ℕ)
    (spk : List ℕ) (o : Result PyError Future) (s : Supervisor)
    → Holds is_running (ids live) (ids (requests_of s.queue)) s.issued s.futures
    → script_of i live ≡ some spk
    → Agrees spk r o
    → Settles o i live s.futures (resolve r live s)
unfolding Agrees resolve Settles in_hand spk_requests
resolve-Settles (err (uncaught why)) live i spk o s h mine e = rw e (refl, refl)
resolve-Settles (err (failed error)) live i spk o s h mine e = rw e (
  ground (
    arith,
    state_of-fail i error live s.futures,
    in_live i live mine,
    runs_undone (state_of i s.futures) (h.hand_fits i (in_live i live mine)),
  ),
  refl,
)
resolve-Settles (ok found) live i spk o s h mine e =
    let (left, e', states) =
      deliver_live found live s.futures h.hand_distinct
        (λ j here. runs_undone (state_of j s.futures) (h.hand_fits j here)) in
    rw (e, resolve, spk_requests, e') (states i ∙ rw mine refl, refl)

-- The futures that are not of the scan.
resolve-others :
    (r : Result ScanError (Dict (List ℕ) (List ScanUtxo))) (live : List Request) (i : ℕ)
    (s : Supervisor)
    → Holds is_running (ids live) (ids (requests_of s.queue)) s.issued s.futures
    → has_item i (ids live) ≡ false
    → state_of i (resolve r live s).futures ≡ state_of i s.futures
unfolding resolve
resolve-others (err (uncaught why)) live i s h off = refl
resolve-others (err (failed error)) live i s h off =
    ground (arith, state_of-fail i error live s.futures)
resolve-others (ok found) live i s h off =
    let (left, e, states) =
      deliver_live found live s.futures h.hand_distinct
        (λ j here. runs_undone (state_of j s.futures) (h.hand_fits j here)) in
    rw (resolve, spk_requests, e) (states i ∙ rw (script_of-absent i live off) refl)

resolve-flight :
    (r : Result ScanError (Dict (List ℕ) (List ScanUtxo))) (live : List Request) (s : Supervisor)
    → (resolve r live s).scan_in_flight ≡ s.scan_in_flight
unfolding resolve
resolve-flight (err (uncaught why)) live s = refl
resolve-flight (err (failed error)) live s = refl
resolve-flight (ok found) live s =
    elim (Option-cases (deliver_all found (spk_requests live) s.futures)) [
      | inl e ↦ rw (resolve, e) refl
      | inr (left, e) ↦ rw (resolve, e) refl
    ]

module _ (read_int : List ℕ → Option ℤ) where
  -- What the step out of the call of the node leaves.
  Settled : Reply → List Request → Supervisor → Supervisor → Type 0
  Settled reply live s t =
      ((i : ℕ) (spk : List ℕ)
        → script_of i live ≡ some spk
        → Settles (outcome read_int spk reply) i live s.futures t)
      × ((i : ℕ) → has_item i (ids live) ≡ false → state_of i t.futures ≡ state_of i s.futures)
      × (t.scan_in_flight ≡ false)

  finish_settles :
      (live : List Request) (expired : Bool) (reply : Reply) (s : Supervisor)
      → IsServed (record s { phase = scanning live })
      → Settled reply live
          (record s { phase = scanning live })
          (work read_int expired reply (record s { phase = scanning live }))
  unfolding Settled work finish_scan in_hand fits
  finish_settles live expired reply s w =
      let ended : Supervisor = record s {
        scan_in_flight = false;
        batches_run = suc s.batches_run;
        phase = scanning live;
      } in
      let r = answer_to read_int reply live in
      (
        λ i spk mine.
            resolve-Settles r live i spk (outcome read_int spk reply) ended w.holds mine
              (reply-Agrees read_int reply live i spk mine),
        λ i off. resolve-others r live i ended w.holds off,
        resolve-flight r live ended,
      )

  outcomes_in :
      (p : Phase) (live : List Request) (expired : Bool) (reply : Reply) (s : Supervisor)
      → p ≡ scanning live
      → IsServed (record s { phase = p })
      → Settled reply live
          (record s { phase = p })
          (work read_int expired reply (record s { phase = p }))
  outcomes_in p live expired reply s at w =
      subst
        (λ (q : Phase).
          IsServed (record s { phase = q })
          → Settled reply live (record s { phase = q })
              (work read_int expired reply (record s { phase = q })))
        (sym at) (finish_settles live expired reply s) w

  -- Of a supervisor in any state that events lead to, with its worker in the call of the node for some
  -- requests: when the call has ended, the future of each of them has the outcome of its own script,
  -- which is the unspent outputs of the answer that pay the script, in its order and with their
  -- txids reversed, or the failure that the reply comes to, and the worker goes on; or the
  -- reply raises past the handlers, the worker is ended and no future is resolved. No future but
  -- those of the scan changes, and no scan is in flight.
  pub scan_outcomes :
      (batch_max queue_maxsize : ℕ) (events : List Event) (expired : Bool) (reply : Reply)
      (live : List Request)
      → let s = after_all read_int events (new_supervisor batch_max queue_maxsize) in
        s.phase ≡ scanning live
        → let t = work read_int expired reply s in
          ((i : ℕ) (spk : List ℕ)
            → script_of i live ≡ some spk
            → Settles (outcome read_int spk reply) i live s.futures t)
          × ((i : ℕ) → has_item i (ids live) ≡ false → state_of i t.futures ≡ state_of i s.futures)
          × (t.scan_in_flight ≡ false)
  unfolding Settled
  scan_outcomes batch_max queue_maxsize events expired reply live at =
      outcomes_in (after_all read_int events (new_supervisor batch_max queue_maxsize)).phase live
        expired reply (after_all read_int events (new_supervisor batch_max queue_maxsize)) at
        (after_all-IsServed read_int batch_max queue_maxsize events)
