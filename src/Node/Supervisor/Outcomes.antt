-- ===== src/Node/Supervisor/Outcomes.antt =====
-- What `_fail`, `_drain_queue` and the start of a batch do to the futures.
use coldwatch.Base.{
  ℕ, ◌≡◌, refl, ap, Bool, true, false, Option, none, some, List, [], ◌∷◌, ◌++◌, ==_iff,
  if◌then◌else◌, Bool-cases, inl, inr, ◌⊎◌, not, ◌&&◌, arith,
}
use coldwatch.Base.Keys.{ℕ_key}
use coldwatch.Base.Dict.{Dict, put}
use coldwatch.Match.Index.Items.{has_item, IsDistinct}
use coldwatch.Node.Scan.{ScanFailed}
use coldwatch.Node.Futures.{Future, done, is_waiting, state_of, state_of-put, set_running}
use coldwatch.Node.Supervisor.{Request, fail, drain, take_live}

-- The futures of some requests.
unfoldable pub ids : List Request → List ℕ
ids [] = []
ids (request ∷ requests) = request.future ∷ ids requests

unfoldable pub requests_of : List (Option Request) → List Request
requests_of [] = []
requests_of (none ∷ queue) = requests_of queue
requests_of (some request ∷ queue) = request ∷ requests_of queue

pub ids-append : (xs ys : List Request) → ids (xs ++ ys) ≡ ids xs ++ ids ys
unfolding ids
ids-append [] ys = refl
ids-append (x ∷ xs) ys = ap (λ t. x.future ∷ t) (ids-append xs ys)

pub requests_of-append :
    (p q : List (Option Request)) → requests_of (p ++ q) ≡ requests_of p ++ requests_of q
unfolding requests_of
requests_of-append [] q = refl
requests_of-append (none ∷ p) q = requests_of-append p q
requests_of-append (some r ∷ p) q = ap (λ t. r ∷ t) (requests_of-append p q)

-- `_fail` fails those of its futures that are not done, and leaves all others as they are.
pub state_of-fail :
    (i : ℕ) (error : ScanFailed) (requests : List Request) (futures : Dict ℕ Future)
    → state_of i (fail error requests futures) ≡ (
        if has_item i (ids requests) && not (done (state_of i futures))
        then Future.failed error
        else state_of i futures)
unfolding fail ids has_item
state_of-fail i error [] futures = refl
state_of-fail i error (r ∷ requests) futures =
    elim (Bool-cases (done (state_of r.future futures))) [
      | inl ended ↦
          rw ended (ground (arith, state_of-fail i error requests futures, ==_iff r.future i))
      | inr awaited ↦ rw awaited (
          ground (
            arith,
            state_of-fail i error requests (put r.future (Future.failed error) futures),
            state_of-put r.future i (Future.failed error) futures,
            ==_iff r.future i,
          ))
    ]

pub drain-fail :
    (error : ScanFailed) (queue : List (Option Request)) (futures : Dict ℕ Future)
    → drain error queue futures ≡ fail error (requests_of queue) futures
unfolding drain fail requests_of
drain-fail error [] futures = refl
drain-fail error (none ∷ queue) futures = drain-fail error queue futures
drain-fail error (some r ∷ queue) futures = ground (
  arith,
  drain-fail error queue futures,
  drain-fail error queue (put r.future (Future.failed error) futures),
)

abbrev pub is_pending : Future → Bool
is_pending state = is_waiting state && not (done state)

-- What the start of a batch makes of the futures: those that wait run, those cancelled are notified
-- and left out of the scan, and no other changes.
pub record TakesLive (batch live : List Request) (futures left : Dict ℕ Future) : Type 0 where
  pub lives :
      (i : ℕ) → has_item i (ids live) ≡ (has_item i (ids batch) && is_pending (state_of i futures))
  pub starts :
      (i : ℕ)
      → state_of i left ≡ (
          if has_item i (ids batch)
          then (if done (state_of i futures) then Future.notified else Future.running)
          else state_of i futures)
  pub distinct : IsDistinct (ids live)

abbrev Waits : List Request → Dict ℕ Future → Type 0
Waits batch futures =
    (i : ℕ) → has_item i (ids batch) ≡ true → is_waiting (state_of i futures) ≡ true

waiting_cases :
    (state : Future)
    → is_waiting state ≡ true
    → (state ≡ Future.pending) ⊎ (state ≡ Future.cancelled)
waiting_cases Future.pending h = inl refl
waiting_cases Future.cancelled h = inr refl
waiting_cases _ h = absurd (ground arith)

Waits-put :
    (r : Request) (batch : List Request) (futures : Dict ℕ Future) (state : Future)
    → has_item r.future (ids batch) ≡ false
    → Waits (r ∷ batch) futures
    → Waits batch (put r.future state futures)
unfolding ids has_item
Waits-put r batch futures state new w =
    λ i here. ground (arith, w i, state_of-put r.future i state futures, ==_iff r.future i)

TakesLive-pending :
    (r : Request) (batch live : List Request) (futures left : Dict ℕ Future)
    → state_of r.future futures ≡ Future.pending
    → has_item r.future (ids batch) ≡ false
    → TakesLive batch live (put r.future Future.running futures) left
    → TakesLive (r ∷ batch) (r ∷ live) futures left
unfolding ids has_item IsDistinct
TakesLive-pending r batch live futures left waits new t = record {
  lives = λ i.
      ground (arith, t.lives i, state_of-put r.future i Future.running futures, ==_iff r.future i);
  starts = λ i.
      ground (arith, t.starts i, state_of-put r.future i Future.running futures, ==_iff r.future i);
  distinct = (ground (arith, t.lives r.future), t.distinct);
}

TakesLive-cancelled :
    (r : Request) (batch live : List Request) (futures left : Dict ℕ Future)
    → state_of r.future futures ≡ Future.cancelled
    → has_item r.future (ids batch) ≡ false
    → TakesLive batch live (put r.future Future.notified futures) left
    → TakesLive (r ∷ batch) live futures left
unfolding ids has_item
TakesLive-cancelled r batch live futures left stopped new t = record {
  lives = λ i.
      ground (arith, t.lives i, state_of-put r.future i Future.notified futures, ==_iff r.future i);
  starts = λ i.
      ground
        (arith, t.starts i, state_of-put r.future i Future.notified futures, ==_iff r.future i);
  distinct = t.distinct;
}

take_live-pending :
    (r : Request) (batch : List Request) (futures : Dict ℕ Future)
    → {live : List Request} → {left : Dict ℕ Future} → state_of r.future futures ≡ Future.pending
    → take_live batch (put r.future Future.running futures) ≡ some (live, left)
    → take_live (r ∷ batch) futures ≡ some (r ∷ live, left)
unfolding take_live set_running
take_live-pending r batch futures waits e = ground arith

take_live-cancelled :
    (r : Request) (batch : List Request) (futures : Dict ℕ Future)
    → {live : List Request} → {left : Dict ℕ Future} → state_of r.future futures ≡ Future.cancelled
    → take_live batch (put r.future Future.notified futures) ≡ some (live, left)
    → take_live (r ∷ batch) futures ≡ some (live, left)
unfolding take_live set_running
take_live-cancelled r batch futures stopped e = ground arith

pub take_live_lem :
    (batch : List Request) (futures : Dict ℕ Future)
    → IsDistinct (ids batch)
    → Waits batch futures
    → (live : List Request) × (left : Dict ℕ Future) × (take_live batch futures ≡ some (live, left))
      × TakesLive batch live futures left
unfolding take_live ids IsDistinct has_item
take_live_lem [] futures d w =
    ([], futures, refl, record { lives = λ i. refl; starts = λ i. refl; distinct = tt })
take_live_lem (r ∷ batch) futures (new, d) w =
    elim (waiting_cases (state_of r.future futures) (w r.future (ground arith))) [
      | inl starts ↦
          let here = put r.future Future.running futures in
          let (live, left, e, t) =
            take_live_lem batch here d (Waits-put r batch futures Future.running new w) in
          (
            r ∷ live,
            left,
            take_live-pending r batch futures starts e,
            TakesLive-pending r batch live futures left starts new t,
          )
      | inr stopped ↦
          let here = put r.future Future.notified futures in
          let (live, left, e, t) =
            take_live_lem batch here d (Waits-put r batch futures Future.notified new w) in
          (
            live,
            left,
            take_live-cancelled r batch futures stopped e,
            TakesLive-cancelled r batch live futures left stopped new t,
          )
    ]
