-- ===== src/Node/Supervisor/Served.antt =====
-- The invariant of the supervisor: no future that it has handed out is lost.
use coldwatch.Base.{
  ℕ, zero, suc, ◌≡◌, refl, sym, ◌∙◌, ap, subst, Bool, true, false, Option, none, some, List, [],
  ◌∷◌, ◌++◌, if-elim,
}
use coldwatch.Base.Keys.{ℕ_key}
use coldwatch.Base.Dict.{Dict, put}
use coldwatch.Base.Results.{Result}
use coldwatch.Node.Scan.{shut_down}
use coldwatch.Node.Futures.{Future, is_waiting, is_running}
use coldwatch.Node.Supervisor.{
  Request, Phase, unborn, idle, waiting, gathering, lingering, collected, cleared, scanning, gone,
  crashed, Supervisor, SupervisorError, put_request, cancel, is_full,
}
use coldwatch.Node.Supervisor.Worker.{take_next, scan, execute, begin}
use coldwatch.Node.Supervisor.Events.{enter, proceed}
use coldwatch.Node.Supervisor.Outcomes.{
  ids, requests_of, ids-append, requests_of-append, take_live_lem,
}
use coldwatch.Node.Supervisor.Holds.{
  Holds, take-Holds, submit-Holds, cancel-Holds, start-Holds, fail-Holds, emptied-Holds, waits_on,
  runs_on, IsStable,
}

-- The requests that the worker has taken from the queue and not resolved.
unfoldable pub in_hand : Phase → List Request
in_hand unborn = []
in_hand idle = []
in_hand waiting = []
in_hand (gathering batch) = batch
in_hand (lingering batch) = batch
in_hand (collected batch) = batch
in_hand (cleared batch) = batch
in_hand (scanning live) = live
in_hand gone = []
in_hand (crashed live) = live

-- The futures of a scan run, those of a batch wait.
unfoldable pub fits : Phase → Future → Bool
fits (scanning live) = is_running
fits (crashed live) = is_running
fits unborn = is_waiting
fits idle = is_waiting
fits waiting = is_waiting
fits (gathering batch) = is_waiting
fits (lingering batch) = is_waiting
fits (collected batch) = is_waiting
fits (cleared batch) = is_waiting
fits gone = is_waiting

unfoldable pub is_scanning : Phase → Bool
is_scanning (scanning live) = true
is_scanning (crashed live) = false
is_scanning unborn = false
is_scanning idle = false
is_scanning waiting = false
is_scanning (gathering batch) = false
is_scanning (lingering batch) = false
is_scanning (collected batch) = false
is_scanning (cleared batch) = false
is_scanning gone = false

pub record IsServed (s : Supervisor) : Type 0 where
  pub holds :
      Holds (fits s.phase) (ids (in_hand s.phase)) (ids (requests_of s.queue)) s.issued s.futures
  pub flight : s.scan_in_flight ≡ is_scanning s.phase

queued-Holds :
    (test : Future → Bool) (hand : List ℕ) (r : Request) (queue : List (Option Request))
    (futures : Dict ℕ Future)
    → Holds test hand (ids (requests_of queue)) r.future futures
    → Holds test hand
        (ids (requests_of (queue ++ some r ∷ [])))
        (suc r.future)
        (put r.future Future.pending futures)
unfolding ids requests_of
queued-Holds test hand r queue futures h =
    let e : ids (requests_of (queue ++ some r ∷ [])) ≡ ids (requests_of queue) ++ r.future ∷ [] =
      ap ids (requests_of-append queue (some r ∷ [])) ∙ ids-append (requests_of queue) (r ∷ []) in
    rw e (submit-Holds test hand (ids (requests_of queue)) r.future futures h)

pub enter-IsServed : (s : Supervisor) → IsServed s → IsServed (enter s)
unfolding enter
enter-IsServed s w =
    if-elim IsServed s.closed (λ over. w) (λ live. record { holds = w.holds; flight = w.flight })

put_request-IsServed : (spk : List ℕ) (s : Supervisor) → IsServed s → IsServed (put_request spk s).1
unfolding put_request
put_request-IsServed spk s w =
    if-elim (λ (r : Result SupervisorError ℕ × Supervisor). IsServed r.1) (is_full s) (λ full. w)
      (λ room. record {
        holds =
            queued-Holds (fits s.phase) _ (record { spk = spk; future = s.issued }) s.queue
              s.futures w.holds;
        flight = w.flight;
      })

pub proceed-IsServed :
    (callers : ℕ) (spk : List ℕ) (s : Supervisor) → IsServed s → IsServed (proceed callers spk s)
unfolding proceed
proceed-IsServed zero spk s w = w
proceed-IsServed (suc others) spk s w =
    put_request-IsServed spk (record s { entering = others })
      (record { holds = w.holds; flight = w.flight })

fits_on : (p : Phase) → IsStable (fits p)
unfolding fits
fits_on (scanning live) = runs_on
fits_on (crashed live) = runs_on
fits_on _ = waits_on

pub cancel-IsServed : (i : ℕ) (s : Supervisor) → IsServed s → IsServed (cancel i s)
unfolding cancel
cancel-IsServed i s w = record {
  holds = cancel-Holds (fits s.phase) i _ _ s.issued s.futures (fits_on s.phase) w.holds;
  flight = w.flight;
}

-- The supervisor while a batch waits: what is in the worker's hand, and no scan.
pub record Waits (batch : List Request) (s : Supervisor) : Type 0 where
  pub holds : Holds is_waiting (ids batch) (ids (requests_of s.queue)) s.issued s.futures
  pub flight : s.scan_in_flight ≡ false

-- A phase in which a batch waits.
pub record IsGathering (p : Phase) (batch : List Request) : Type 0 where
  pub hand : in_hand p ≡ batch
  pub fits_waiting : fits p ≡ is_waiting
  pub no_scan : is_scanning p ≡ false

pub is_unborn : IsGathering unborn []
unfolding in_hand fits is_scanning
is_unborn = record { hand = refl; fits_waiting = refl; no_scan = refl }

pub is_idle : IsGathering idle []
unfolding in_hand fits is_scanning
is_idle = record { hand = refl; fits_waiting = refl; no_scan = refl }

pub is_waiting_first : IsGathering waiting []
unfolding in_hand fits is_scanning
is_waiting_first = record { hand = refl; fits_waiting = refl; no_scan = refl }

pub is_gathering : (batch : List Request) → IsGathering (gathering batch) batch
unfolding in_hand fits is_scanning
is_gathering batch = record { hand = refl; fits_waiting = refl; no_scan = refl }

pub is_lingering : (batch : List Request) → IsGathering (lingering batch) batch
unfolding in_hand fits is_scanning
is_lingering batch = record { hand = refl; fits_waiting = refl; no_scan = refl }

pub is_collected : (batch : List Request) → IsGathering (collected batch) batch
unfolding in_hand fits is_scanning
is_collected batch = record { hand = refl; fits_waiting = refl; no_scan = refl }

pub is_cleared : (batch : List Request) → IsGathering (cleared batch) batch
unfolding in_hand fits is_scanning
is_cleared batch = record { hand = refl; fits_waiting = refl; no_scan = refl }

pub is_gone : IsGathering gone []
unfolding in_hand fits is_scanning
is_gone = record { hand = refl; fits_waiting = refl; no_scan = refl }

pub Waits-IsServed :
    (p : Phase) (batch : List Request) (s : Supervisor)
    → IsGathering p batch
    → Waits batch s
    → IsServed (record s { phase = p })
Waits-IsServed p batch s g w = record {
  holds = rw (g.fits_waiting, g.hand) w.holds;
  flight = w.flight ∙ sym g.no_scan;
}

pub served-Waits :
    (batch : List Request) (s : Supervisor) → IsGathering s.phase batch → IsServed s → Waits batch s
served-Waits batch s g w = record {
  holds =
      subst
        (λ (t : Future → Bool). Holds t (ids batch) (ids (requests_of s.queue)) s.issued s.futures)
        g.fits_waiting
        (subst
          (λ (t : List Request).
            Holds (fits s.phase) (ids t) (ids (requests_of s.queue)) s.issued s.futures)
          g.hand w.holds);
  flight = w.flight ∙ g.no_scan;
}

taken-Holds :
    (batch : List Request) (r : Request) (queue : List ℕ) (issued : ℕ) (futures : Dict ℕ Future)
    → Holds is_waiting (ids batch) (r.future ∷ queue) issued futures
    → Holds is_waiting (ids (batch ++ r ∷ [])) queue issued futures
unfolding ids
taken-Holds batch r queue issued futures h =
    rw (ids-append batch (r ∷ [])) (take-Holds (ids batch) r.future queue issued futures h)

pub take_next-IsServed :
    (batch : List Request) (loop : List Request → Phase) (otherwise : Phase)
    (queue : List (Option Request)) (s : Supervisor)
    → ((grown : List Request) → IsGathering (loop grown) grown)
    → IsGathering otherwise batch
    → Waits batch (record s { queue = queue })
    → IsServed (take_next batch loop otherwise (record s { queue = queue }))
unfolding take_next requests_of ids
take_next-IsServed batch loop otherwise [] s g o w =
    Waits-IsServed otherwise batch (record s { queue = [] }) o w
take_next-IsServed batch loop otherwise (none ∷ queue) s g o w =
    Waits-IsServed (collected batch) batch (record s { queue = queue }) (is_collected batch)
      (record { holds = w.holds; flight = w.flight })
take_next-IsServed batch loop otherwise (some r ∷ queue) s g o w =
    Waits-IsServed (loop (batch ++ r ∷ [])) (batch ++ r ∷ []) (record s { queue = queue })
      (g (batch ++ r ∷ []))
      (record {
        holds = taken-Holds batch r (ids (requests_of queue)) s.issued s.futures w.holds;
        flight = w.flight;
      })

-- What `_execute` goes on to with the requests that are live.
scan-IsServed :
    (live : List Request) (left : Dict ℕ Future) (s : Supervisor)
    → Holds is_running (ids live) (ids (requests_of s.queue)) s.issued left
    → s.scan_in_flight ≡ false
    → IsServed (scan live left s)
unfolding scan ids in_hand is_scanning fits
scan-IsServed [] left s h n = record {
  holds = emptied-Holds is_running (fits idle) (ids (requests_of s.queue)) s.issued left h;
  flight = n;
}
scan-IsServed (r ∷ live) left s h n = record { holds = h; flight = refl }

pub execute-IsServed :
    (batch : List Request) (s : Supervisor) → Waits batch s → IsServed (execute batch s)
unfolding execute
execute-IsServed batch s w =
    let (live, left, e, t) =
      take_live_lem batch s.futures w.holds.hand_distinct w.holds.hand_fits in
    rw (execute, e)
      (scan-IsServed live left s (start-Holds batch live _ s.issued s.futures left t w.holds)
        w.flight)

pub begin-IsServed :
    (batch : List Request) (s : Supervisor) → Waits batch s → IsServed (begin batch s)
unfolding begin ids in_hand is_scanning
begin-IsServed [] s w =
    Waits-IsServed _ [] s
      (if-elim (λ (p : Phase). IsGathering p []) s.stopping (λ e. is_gone) (λ e. is_idle)) w
begin-IsServed (r ∷ requests) s w =
    if-elim IsServed s.stopping
      (λ stops. record {
        holds =
            fail-Holds is_waiting (fits gone) shut_down (r ∷ requests) _ s.issued s.futures w.holds;
        flight = w.flight;
      })
      (λ serves. Waits-IsServed (cleared (r ∷ requests)) (r ∷ requests) s (is_cleared _) w)
