-- ===== src/Node/Supervisor/Closing.antt =====
-- A supervisor that is closed: the worker ends, and behind the drain nothing is unresolved.
pub mod Steps
use coldwatch.Base.{
  ℕ, suc, ◌+◌, ◌<◌, ◌≤◌, ◌≡◌, refl, sym, ◌∙◌, ap, subst, ◌⊎◌, Bool, true, false, Option, none, some,
  List, [], ◌∷◌, ◌++◌, ltb, ◌||◌, if◌then◌else◌, length, All, if-elim, inl, inr, arith,
}
use coldwatch.Base.Integers.{ℤ}
use coldwatch.Match.Index.Items.{has_item}
use coldwatch.Node.Rpc.{Reply}
use coldwatch.Node.Futures.{done, state_of}
use coldwatch.Node.Supervisor.{
  Request, Phase, unborn, idle, waiting, gathering, lingering, collected, cleared, scanning, gone,
  crashed, Supervisor, new_supervisor,
}
use coldwatch.Node.Supervisor.Worker.{
  take_next, begin, answer_to, resolve, finish_scan, work, close_end,
}
use coldwatch.Node.Supervisor.Outcomes.{ids, requests_of}
use coldwatch.Node.Supervisor.Events.{Event, after_all}
use coldwatch.Node.Supervisor.Served.{in_hand, fits, IsServed, served-Waits, is_cleared}
use coldwatch.Node.Supervisor.Kept.{work_in-IsServed, close_end-IsServed}
use coldwatch.Node.Supervisor.Settings.{work-Same}
use coldwatch.Node.Supervisor.Invariant.{after_all-IsServed, after_all-IsStarted}
use coldwatch.Node.Supervisor.Progress.{IsReadable, is_serving, resolve_phase}
use coldwatch.Node.Supervisor.Serving.{work_all, serves-born}
use coldwatch.Node.Supervisor.Closing.Steps.{
  is_over, steps_left, Nears, take_next-Nears, begin-over, execute-Nears, steps_positive,
  steps_bound, drained-done, is_crashed, sound-cases,
}

module _ (read_int : List ℕ → Option ℤ) where
  work-Nears :
      (p : Phase) (reply : Reply) (s : Supervisor)
      → is_serving p ≡ true
      → s.stopping ≡ true
      → IsReadable read_int reply
      → IsServed (record s { phase = p })
      → Nears p s.queue (work read_int true reply (record s { phase = p }))
  unfolding work finish_scan in_hand fits Nears
  work-Nears unborn reply s serves stops readable w = absurd (ground arith)
  work-Nears gone reply s serves stops readable w = absurd (ground arith)
  work-Nears (crashed live) reply s serves stops readable w = absurd (ground arith)
  work-Nears idle reply s serves stops readable w =
      inl (ap (λ (t : Bool). is_over (if t then gone else waiting)) stops)
  work-Nears waiting reply s serves stops readable w =
      take_next-Nears [] gathering waiting (collected []) s.queue (record s { phase = waiting })
        (λ grown rest. (refl, omega arith)) (λ rest. omega arith) (refl, omega arith)
  work-Nears (gathering batch) reply s serves stops readable w =
      if-elim (Nears (gathering batch) s.queue) (ltb (length batch) s.batch_max)
        (λ room.
          take_next-Nears batch gathering (gathering batch) (lingering batch) s.queue
            (record s { phase = gathering batch }) (λ grown rest. (refl, omega arith))
            (λ rest. omega arith) (refl, omega arith))
        (λ full. inr (refl, omega arith))
  work-Nears (lingering batch) reply s serves stops readable w =
      if-elim (Nears (lingering batch) s.queue) (ltb (length batch) s.batch_max)
        (λ room.
          if-elim (Nears (lingering batch) s.queue) (s.stopping || true)
            (λ ends. inr (refl, omega arith)) (λ goes_on. absurd (ground arith)))
        (λ full. inr (refl, omega arith))
  work-Nears (collected batch) reply s serves stops readable w =
      inl (begin-over batch (record s { phase = collected batch }) stops)
  work-Nears (cleared batch) reply s serves stops readable w =
      execute-Nears batch (record s { phase = cleared batch })
        (served-Waits batch (record s { phase = cleared batch }) (is_cleared batch) w)
  work-Nears (scanning live) reply s serves stops readable w =
      let ended : Supervisor = record s {
        scan_in_flight = false;
        batches_run = suc s.batches_run;
        phase = scanning live;
      } in
      let r = answer_to read_int reply live in
      let e : (resolve r live ended).phase ≡ idle =
        resolve_phase r live ended (readable live) w.holds in
      inr (rw e refl, rw e (omega arith))

  work-over :
      (p : Phase) (reply : Reply) (s : Supervisor)
      → is_over p ≡ true
      → work read_int true reply (record s { phase = p }) ≡ record s { phase = p }
  unfolding work
  work-over unborn reply s over = refl
  work-over gone reply s over = refl
  work-over _ reply s over = absurd (ground arith)

  -- The steps end the worker, keep the invariant and hand out no future.
  Ended : Supervisor → Supervisor → Type 0
  Ended s t =
      (is_over t.phase ≡ true) × IsServed t × (t.issued ≡ s.issued) × (t.joining ≡ s.joining)

  work_all-over :
      (replies : List Reply) (s : Supervisor)
      → is_over s.phase ≡ true
      → work_all read_int replies s ≡ s
  unfolding work_all
  work_all-over [] s over = refl
  work_all-over (reply ∷ replies) s over =
      ap (work_all read_int replies) (work-over s.phase reply s over) ∙ work_all-over replies s over

  work_all-ends :
      (replies : List Reply) (s : Supervisor)
      → is_serving s.phase ≡ true
      → s.stopping ≡ true
      → All (IsReadable read_int) replies
      → IsServed s
      → steps_left s.phase s.queue ≤ length replies
      → Ended s (work_all read_int replies s)
  unfolding work_all Ended Nears
  work_all-ends [] s serves stops readable w near =
      absurd (omega (arith, steps_positive s.phase s.queue serves, near))
  work_all-ends (reply ∷ replies) s serves stops (reads, readable) w near =
      let t = work read_int true reply s in
      let k = work-Same read_int s.phase true reply s (serves-born s.phase serves) in
      let w' = work_in-IsServed read_int s.phase true reply s w in
      elim (work-Nears s.phase reply s serves stops reads w) [
        | inl over ↦
            subst (Ended s) (sym (work_all-over replies t over))
              (over, w', k.same_issued, k.same_joining)
        | inr (serves', nearer) ↦
            let (over, w'', e, j) =
              work_all-ends replies t serves' (k.same_stopping ∙ stops) readable w'
                (omega (arith, near, nearer)) in
            (over, w'', e ∙ k.same_issued, j ∙ k.same_joining)
      ]

  worker_stops :
      (replies : List Reply) (s : Supervisor)
      → (is_over s.phase ≡ true) ⊎ (is_serving s.phase ≡ true)
      → s.stopping ≡ true
      → All (IsReadable read_int) replies
      → IsServed s
      → steps_left s.phase s.queue ≤ length replies
      → let t = work_all read_int replies s in
        (is_over t.phase ≡ true) × IsServed t × (t.joining ≡ s.joining)
  unfolding Ended
  worker_stops replies s (inl over) stops readable w near =
      subst (λ (t : Supervisor). (is_over t.phase ≡ true) × IsServed t × (t.joining ≡ s.joining))
        (sym (work_all-over replies s over)) (over, w, refl)
  worker_stops replies s (inr serves) stops readable w near =
      let (over, w', e, j) = work_all-ends replies s serves stops readable w near in (over, w', j)

  -- A supervisor in any state that events lead to, with a `close` that waits for the worker, and no
  -- exception behind it that ended the worker: after four steps of the worker and one for each item
  -- queued the worker has returned, if it had started, whatever the node answers so long as no answer
  -- raises past the handlers; and when `close` then returns, the queue is empty and every future
  -- handed out is resolved.
  pub close_resolves :
      (batch_max queue_maxsize : ℕ) (events : List Event) (replies : List Reply)
      → let s = after_all read_int events (new_supervisor batch_max queue_maxsize) in
        s.joining ≡ true
        → is_crashed s.phase ≡ false
        → All (IsReadable read_int) replies
        → length s.queue + 4 ≤ length replies
        → let t = close_end (work_all read_int replies s) in
          (is_over t.phase ≡ true)
          × (t.queue ≡ [])
          × ((i : ℕ) → i < t.issued → done (state_of i t.futures) ≡ true)
  close_resolves batch_max queue_maxsize events replies joins sound readable enough =
      let s = after_all read_int events (new_supervisor batch_max queue_maxsize) in
      let w = after_all-IsServed read_int batch_max queue_maxsize events in
      let k = after_all-IsStarted read_int batch_max queue_maxsize events in
      let (over, w', j) =
        worker_stops replies s (sound-cases s.phase sound) (k.joins joins) readable w
          (omega (arith, steps_bound s.phase s.queue, enough)) in
      drained-done (work_all read_int replies s) over (j ∙ joins) w'
