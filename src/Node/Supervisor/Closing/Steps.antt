-- ===== src/Node/Supervisor/Closing/Steps.antt =====
-- How near the worker is to its end once the supervisor is stopping, and the drain behind it.
use coldwatch.Base.{
  ℕ, ◌+◌, ◌<◌, ◌≤◌, ◌≡◌, refl, ap, ◌⊎◌, Bool, true, false, Option, none, some, List, [], ◌∷◌, ◌++◌,
  if◌then◌else◌, length, if-elim, inl, inr, arith,
}
use coldwatch.Match.Index.Items.{has_item}
use coldwatch.Base.Dict.{Dict}
use coldwatch.Node.Futures.{Future, done, state_of}
use coldwatch.Node.Supervisor.{
  Request, Phase, unborn, idle, waiting, gathering, lingering, collected, cleared, scanning, gone,
  crashed, Supervisor,
}
use coldwatch.Node.Supervisor.Worker.{take_next, scan, execute, begin, close_end}
use coldwatch.Node.Supervisor.Outcomes.{ids, requests_of, take_live_lem}
use coldwatch.Node.Supervisor.Served.{in_hand, IsServed, Waits}
use coldwatch.Node.Supervisor.Kept.{close_end-IsServed}
use coldwatch.Node.Supervisor.Progress.{is_serving}

-- No worker runs: it has not started or has returned.
abbrev pub is_over : Phase → Bool
is_over unborn = true
is_over gone = true
is_over _ = false

-- The steps that a worker takes at most once the supervisor is stopping.
abbrev pub steps_left : Phase → List (Option Request) → ℕ
steps_left unborn queue = 0
steps_left idle queue = 1
steps_left waiting queue = length queue + 4
steps_left (gathering batch) queue = length queue + 3
steps_left (lingering batch) queue = 2
steps_left (collected batch) queue = 1
steps_left (cleared batch) queue = 3
steps_left (scanning live) queue = 2
steps_left gone queue = 0
steps_left (crashed live) queue = 0

-- A step of a worker that is to stop: it has ended, or it is a step nearer its end.
unfoldable pub Nears : Phase → List (Option Request) → Supervisor → Type 0
Nears p queue t =
    (is_over t.phase ≡ true)
    ⊎ ((is_serving t.phase ≡ true) × (steps_left t.phase t.queue < steps_left p queue))

pub take_next-Nears :
    (batch : List Request) (loop : List Request → Phase) (p otherwise : Phase)
    (queue : List (Option Request)) (s : Supervisor)
    → ((grown : List Request) (rest : List (Option Request))
        → (is_serving (loop grown) ≡ true) × (steps_left (loop grown) rest ≤ length rest + 3))
    → ((rest : List (Option Request)) → length rest + 3 ≤ steps_left p rest)
    → (is_serving otherwise ≡ true) × (steps_left otherwise [] < 3)
    → Nears p queue (take_next batch loop otherwise (record s { queue = queue }))
unfolding take_next Nears
take_next-Nears batch loop p otherwise [] s into from dry =
    inr (dry.0, omega (arith, dry.1, from []))
take_next-Nears batch loop p otherwise (none ∷ queue) s into from dry =
    inr (refl, omega (arith, from (none ∷ queue)))
take_next-Nears batch loop p otherwise (some r ∷ queue) s into from dry = inr (
  (into (batch ++ r ∷ []) queue).0,
  omega (arith, from (some r ∷ queue), (into (batch ++ r ∷ []) queue).1),
)

pub begin-over :
    (batch : List Request) (s : Supervisor)
    → s.stopping ≡ true
    → is_over (begin batch s).phase ≡ true
unfolding begin
begin-over [] s stops = ap (λ (t : Bool). is_over (if t then gone else idle)) stops
begin-over (r ∷ requests) s stops =
    if-elim (λ (t : Supervisor). is_over t.phase ≡ true) s.stopping (λ e. refl)
      (λ e. absurd (ground arith))

scan-Nears :
    (batch live : List Request) (left : Dict ℕ Future) (s : Supervisor)
    → Nears (cleared batch) s.queue (scan live left s)
unfolding scan Nears
scan-Nears batch [] left s = inr (refl, omega arith)
scan-Nears batch (r ∷ live) left s = inr (refl, omega arith)

-- A batch past the test of `_stopping` is scanned for even when a `close` has set it.
pub execute-Nears :
    (batch : List Request) (s : Supervisor)
    → Waits batch s
    → Nears (cleared batch) s.queue (execute batch s)
unfolding execute
execute-Nears batch s w =
    let (live, left, e, t) =
      take_live_lem batch s.futures w.holds.hand_distinct w.holds.hand_fits in
    rw (execute, e) (scan-Nears batch live left s)

pub steps_positive :
    (p : Phase) (queue : List (Option Request)) → is_serving p ≡ true → 0 < steps_left p queue
steps_positive unborn queue serves = absurd (ground arith)
steps_positive idle queue serves = omega arith
steps_positive waiting queue serves = omega arith
steps_positive (gathering batch) queue serves = omega arith
steps_positive (lingering batch) queue serves = omega arith
steps_positive (collected batch) queue serves = omega arith
steps_positive (cleared batch) queue serves = omega arith
steps_positive (scanning live) queue serves = omega arith
steps_positive gone queue serves = absurd (ground arith)
steps_positive (crashed live) queue serves = absurd (ground arith)

pub steps_bound :
    (p : Phase) (queue : List (Option Request)) → steps_left p queue ≤ length queue + 4
steps_bound unborn queue = omega arith
steps_bound idle queue = omega arith
steps_bound waiting queue = omega arith
steps_bound (gathering batch) queue = omega arith
steps_bound (lingering batch) queue = omega arith
steps_bound (collected batch) queue = omega arith
steps_bound (cleared batch) queue = omega arith
steps_bound (scanning live) queue = omega arith
steps_bound gone queue = omega arith
steps_bound (crashed live) queue = omega arith

over-empty : (p : Phase) → is_over p ≡ true → in_hand p ≡ []
unfolding in_hand
over-empty unborn over = refl
over-empty gone over = refl
over-empty _ over = absurd (ground arith)

-- Behind the drain of a worker that has ended, nothing is unresolved.
pub drained-done :
    (s : Supervisor)
    → is_over s.phase ≡ true
    → s.joining ≡ true
    → IsServed s
    → (is_over (close_end s).phase ≡ true)
      × ((close_end s).queue ≡ [])
      × ((i : ℕ) → i < (close_end s).issued → done (state_of i (close_end s).futures) ≡ true)
unfolding close_end ids requests_of has_item
drained-done s over joins w =
    let Drained : Supervisor → Type 0 = λ t.
      IsServed t
      → (is_over t.phase ≡ true)
        × (t.queue ≡ [])
        × ((i : ℕ) → i < t.issued → done (state_of i t.futures) ≡ true) in
    (if-elim Drained s.joining
        (λ j. λ w'. (
          over,
          refl,
          λ i below.
              w'.holds.settled i below
                (ap (λ (t : List Request). has_item i (ids t)) (over-empty s.phase over)) refl,
        ))
        (λ j. absurd (ground arith)))
      (close_end-IsServed s w)

abbrev pub is_crashed : Phase → Bool
is_crashed (crashed held) = true
is_crashed _ = false

pub sound-cases : (p : Phase) → is_crashed p ≡ false → (is_over p ≡ true) ⊎ (is_serving p ≡ true)
sound-cases unborn h = inl refl
sound-cases gone h = inl refl
sound-cases (crashed held) h = absurd (ground arith)
sound-cases idle h = inr refl
sound-cases waiting h = inr refl
sound-cases (gathering batch) h = inr refl
sound-cases (lingering batch) h = inr refl
sound-cases (collected batch) h = inr refl
sound-cases (cleared batch) h = inr refl
sound-cases (scanning live) h = inr refl
