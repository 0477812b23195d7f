-- ===== src/Node/Supervisor/Holds.antt =====
-- Every future that the supervisor has handed out is done, or held by exactly one request of the worker
-- or of the queue, in a state that lets the worker and `close` resolve it.
use coldwatch.Base.{
  ℕ, suc, ◌<◌, ◌≡◌, refl, Bool, true, false, none, some, List, [], ◌∷◌, ◌++◌, ◌==◌, ==_iff,
  Bool-cases, inl, inr, arith,
}
use coldwatch.Base.Keys.{ℕ_key}
use coldwatch.Base.Dict.{Dict, put}
use coldwatch.Match.Index.Items.{has_item, IsDistinct, has_item-append, append-IsDistinct}
use coldwatch.Node.Scan.{ScanUtxo, ScanFailed}
use coldwatch.Node.Futures.{
  Future, done, is_waiting, is_running, state_of, state_of-put, cancel_future,
}
use coldwatch.Node.Supervisor.{Request, fail, found_of}
use coldwatch.Node.Supervisor.Outcomes.{ids, state_of-fail, TakesLive}
use coldwatch.Node.Supervisor.Delivery.{script_of-absent, script_of-there}
use coldwatch.Node.Supervisor.Groups.{script_of}

-- `fits` is what the worker expects of the futures in its hand.
pub record Holds (fits : Future → Bool) (hand queue : List ℕ) (issued : ℕ) (futures : Dict ℕ Future)
    : Type 0 where
  pub hand_distinct : IsDistinct hand
  pub queue_distinct : IsDistinct queue
  pub apart : (i : ℕ) → has_item i hand ≡ true → has_item i queue ≡ false
  pub hand_known : (i : ℕ) → has_item i hand ≡ true → i < issued
  pub queue_known : (i : ℕ) → has_item i queue ≡ true → i < issued
  pub hand_fits : (i : ℕ) → has_item i hand ≡ true → fits (state_of i futures) ≡ true
  pub queue_waits : (i : ℕ) → has_item i queue ≡ true → is_waiting (state_of i futures) ≡ true
  pub settled :
      (i : ℕ)
      → i < issued
      → has_item i hand ≡ false
      → has_item i queue ≡ false
      → done (state_of i futures) ≡ true

pub take-Holds :
    (hand : List ℕ) (i : ℕ) (queue : List ℕ) (issued : ℕ) (futures : Dict ℕ Future)
    → Holds is_waiting hand (i ∷ queue) issued futures
    → Holds is_waiting (hand ++ i ∷ []) queue issued futures
unfolding has_item IsDistinct
take-Holds hand i queue issued futures h = record {
  hand_distinct = append-IsDistinct hand i h.hand_distinct (ground (arith, h.apart i));
  queue_distinct = h.queue_distinct.1;
  apart = λ j here.
      ground (arith, h.apart j, h.queue_distinct.0, has_item-append j hand (i ∷ []), ==_iff i j);
  hand_known =
      λ j here. ground (arith, h.hand_known j, h.queue_known j, has_item-append j hand (i ∷ []));
  queue_known = λ j here. ground (arith, h.queue_known j);
  hand_fits =
      λ j here. ground (arith, h.hand_fits j, h.queue_waits j, has_item-append j hand (i ∷ []));
  queue_waits = λ j here. ground (arith, h.queue_waits j);
  settled = λ j below off left. ground (arith, h.settled j, has_item-append j hand (i ∷ []));
}

pub submit-Holds :
    (fits : Future → Bool) (hand queue : List ℕ) (issued : ℕ) (futures : Dict ℕ Future)
    → Holds fits hand queue issued futures
    → Holds fits hand (queue ++ issued ∷ []) (suc issued) (put issued Future.pending futures)
unfolding has_item
submit-Holds fits hand queue issued futures h = record {
  hand_distinct = h.hand_distinct;
  queue_distinct = append-IsDistinct queue issued h.queue_distinct (fresh queue h.queue_known);
  apart =
      λ j here. ground (arith, h.apart j, h.hand_known j, has_item-append j queue (issued ∷ []));
  hand_known = λ j here. ground (arith, h.hand_known j);
  queue_known = λ j here. ground (arith, h.queue_known j, has_item-append j queue (issued ∷ []));
  hand_fits = λ j here.
      rw (state_of-put issued j Future.pending futures)
        (rw (other j (h.hand_known j here)) (h.hand_fits j here));
  queue_waits = λ j here. ground (
    arith,
    h.queue_waits j,
    has_item-append j queue (issued ∷ []),
    state_of-put issued j Future.pending futures,
  );
  settled = λ j below off left. ground (
    arith,
    h.settled j,
    has_item-append j queue (issued ∷ []),
    state_of-put issued j Future.pending futures,
  );
}
  where
    other : (j : ℕ) → j < issued → (issued == j) ≡ false
    other j below = ground arith

    fresh : (l : List ℕ) → ((i : ℕ) → has_item i l ≡ true → i < issued) → has_item issued l ≡ false
    fresh l known = elim (Bool-cases (has_item issued l)) [
      | inl here ↦ absurd (ground (arith, known issued here))
      | inr absent ↦ absent
    ]

-- `cancel` keeps the futures that the worker expects to wait, to run, or to be anything.
abbrev pub IsStable : (Future → Bool) → Type 0
IsStable fits = (state : Future) → fits state ≡ true → fits (cancel_future state) ≡ true

pub waits_on : IsStable is_waiting
unfolding cancel_future
waits_on Future.pending h = refl
waits_on Future.cancelled h = refl
waits_on _ h = absurd (ground arith)

pub runs_on : IsStable is_running
unfolding cancel_future
runs_on Future.running h = refl
runs_on _ h = absurd (ground arith)

done_on : IsStable done
unfolding cancel_future
done_on Future.pending h = refl
done_on Future.running h = absurd (ground arith)
done_on Future.cancelled h = refl
done_on Future.notified h = refl
done_on (Future.result utxos) h = refl
done_on (Future.failed error) h = refl

kept_by_cancel :
    (fits : Future → Bool) (c j : ℕ) (futures : Dict ℕ Future)
    → IsStable fits
    → fits (state_of j futures) ≡ true
    → fits (state_of j (put c (cancel_future (state_of c futures)) futures)) ≡ true
kept_by_cancel fits c j futures stable h =
    rw (state_of-put c j (cancel_future (state_of c futures)) futures) (elim (Bool-cases (c == j)) [
      | inl same ↦ rw (same, (==_iff c j).0 same) (stable (state_of j futures) h)
      | inr other ↦ rw other h
    ])

pub cancel-Holds :
    (fits : Future → Bool) (c : ℕ) (hand queue : List ℕ) (issued : ℕ) (futures : Dict ℕ Future)
    → IsStable fits
    → Holds fits hand queue issued futures
    → Holds fits hand queue issued (put c (cancel_future (state_of c futures)) futures)
cancel-Holds fits c hand queue issued futures stable h = record {
  hand_distinct = h.hand_distinct;
  queue_distinct = h.queue_distinct;
  apart = h.apart;
  hand_known = h.hand_known;
  queue_known = h.queue_known;
  hand_fits = λ j here. kept_by_cancel fits c j futures stable (h.hand_fits j here);
  queue_waits = λ j here. kept_by_cancel is_waiting c j futures waits_on (h.queue_waits j here);
  settled =
      λ j below off left. kept_by_cancel done c j futures done_on (h.settled j below off left);
}

pub start-Holds :
    (batch live : List Request) (queue : List ℕ) (issued : ℕ) (futures left : Dict ℕ Future)
    → TakesLive batch live futures left
    → Holds is_waiting (ids batch) queue issued futures
    → Holds is_running (ids live) queue issued left
start-Holds batch live queue issued futures left t h = record {
  hand_distinct = t.distinct;
  queue_distinct = h.queue_distinct;
  apart = λ j here. ground (arith, t.lives j, h.apart j);
  hand_known = λ j here. ground (arith, t.lives j, h.hand_known j);
  queue_known = h.queue_known;
  hand_fits = λ j here. ground (arith, t.lives j, t.starts j);
  queue_waits = λ j here. ground (arith, t.starts j, h.apart j, h.queue_waits j);
  settled = λ j below off left. ground (arith, t.lives j, t.starts j, h.hand_fits j, h.settled j);
}

pub fail-Holds :
    (fits after : Future → Bool) (error : ScanFailed) (requests : List Request) (queue : List ℕ)
    (issued : ℕ) (futures : Dict ℕ Future)
    → Holds fits (ids requests) queue issued futures
    → Holds after [] queue issued (fail error requests futures)
unfolding has_item IsDistinct
fail-Holds fits after error requests queue issued futures h = record {
  hand_distinct = tt;
  queue_distinct = h.queue_distinct;
  apart = λ j here. absurd (ground arith);
  hand_known = λ j here. absurd (ground arith);
  queue_known = h.queue_known;
  hand_fits = λ j here. absurd (ground arith);
  queue_waits =
      λ j here. ground (arith, state_of-fail j error requests futures, h.apart j, h.queue_waits j);
  settled = λ j below off left. ground (arith, state_of-fail j error requests futures, h.settled j);
}

pub drain-Holds :
    (fits : Future → Bool) (hand : List ℕ) (error : ScanFailed) (requests : List Request)
    (issued : ℕ) (futures : Dict ℕ Future)
    → Holds fits hand (ids requests) issued futures
    → Holds fits hand [] issued (fail error requests futures)
unfolding has_item IsDistinct
drain-Holds fits hand error requests issued futures h = record {
  hand_distinct = h.hand_distinct;
  queue_distinct = tt;
  apart = λ j here. refl;
  hand_known = h.hand_known;
  queue_known = λ j here. absurd (ground arith);
  hand_fits = λ j here. rw (untouched j here) (h.hand_fits j here);
  queue_waits = λ j here. absurd (ground arith);
  settled = λ j below off left. ground (arith, state_of-fail j error requests futures, h.settled j);
}
  where
    untouched :
        (j : ℕ)
        → has_item j hand ≡ true
        → state_of j (fail error requests futures) ≡ state_of j futures
    untouched j here = ground (arith, state_of-fail j error requests futures, h.apart j)

pub deliver-Holds :
    (after : Future → Bool) (found : Dict (List ℕ) (List ScanUtxo)) (live : List Request)
    (queue : List ℕ) (issued : ℕ) (futures left : Dict ℕ Future)
    → ((i : ℕ)
        → state_of i left ≡ elim (script_of i live) [
          | none ↦ state_of i futures
          | some spk ↦ Future.result (found_of spk found)
        ])
    → Holds is_running (ids live) queue issued futures
    → Holds after [] queue issued left
unfolding has_item IsDistinct
deliver-Holds after found live queue issued futures left states h = record {
  hand_distinct = tt;
  queue_distinct = h.queue_distinct;
  apart = λ j here. absurd (ground arith);
  hand_known = λ j here. absurd (ground arith);
  queue_known = h.queue_known;
  hand_fits = λ j here. absurd (ground arith);
  queue_waits =
      λ j here. ground (arith, states j, script_of-absent j live, h.apart j, h.queue_waits j);
  settled = λ j below off rest. elim (Bool-cases (has_item j (ids live))) [
    | inl here ↦ let (spk, e) = script_of-there j live here in ground (arith, states j)
    | inr absent ↦ ground (arith, states j, script_of-absent j live absent, h.settled j)
  ];
}

pub emptied-Holds :
    (fits after : Future → Bool) (queue : List ℕ) (issued : ℕ) (futures : Dict ℕ Future)
    → Holds fits [] queue issued futures
    → Holds after [] queue issued futures
unfolding has_item
emptied-Holds fits after queue issued futures h = record {
  hand_distinct = h.hand_distinct;
  queue_distinct = h.queue_distinct;
  apart = h.apart;
  hand_known = h.hand_known;
  queue_known = h.queue_known;
  hand_fits = λ j here. absurd (ground arith);
  queue_waits = h.queue_waits;
  settled = h.settled;
}
