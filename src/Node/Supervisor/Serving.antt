-- ===== src/Node/Supervisor/Serving.antt =====
-- A worker that serves comes to a quiet state, so every future is resolved in the end.
use coldwatch.Base.{
  ℕ, suc, ◌+◌, ◌*◌, ◌<◌, ◌≤◌, ◌≡◌, ◌≢◌, refl, sym, ◌∙◌, ap, subst, ◌⊎◌, Bool, true, false, Option,
  List, [], ◌∷◌, ltb, ◌||◌, if◌then◌else◌, length, All, if-elim, inl, inr, arith,
}
use coldwatch.Base.Integers.{ℤ}
use coldwatch.Match.Index.Items.{has_item}
use coldwatch.Node.Rpc.{Reply}
use coldwatch.Node.Futures.{done, state_of}
use coldwatch.Node.Supervisor.{
  Request, Phase, unborn, idle, waiting, gathering, lingering, collected, cleared, scanning, gone,
  crashed, Supervisor, new_supervisor,
}
use coldwatch.Node.Supervisor.Worker.{answer_to, resolve, finish_scan, work}
use coldwatch.Node.Supervisor.Outcomes.{ids, requests_of}
use coldwatch.Node.Supervisor.Events.{Event, after_all}
use coldwatch.Node.Supervisor.Served.{in_hand, fits, IsServed, served-Waits, is_cleared}
use coldwatch.Node.Supervisor.Kept.{work_in-IsServed}
use coldwatch.Node.Supervisor.Settings.{work-Same}
use coldwatch.Node.Supervisor.Invariant.{after_all-IsServed}
use coldwatch.Node.Supervisor.Progress.{
  IsReadable, is_serving, is_quiet, rank, Advances, begin-Advances, execute-Advances, resolve_phase,
  resolve_queue, take_next-Advances,
}

module _ (read_int : List ℕ → Option ℤ) where
  -- Steps of the worker, whose every wait has run out, with what the node answers at each.
  unfoldable pub work_all : List Reply → Supervisor → Supervisor
  work_all [] s = s
  work_all (reply ∷ replies) s = work_all replies (work read_int true reply s)

  finish_scan-Advances :
      (reply : Reply) (live : List Request) (s : Supervisor)
      → IsReadable read_int reply
      → IsServed (record s { phase = scanning live })
      → Advances (scanning live) s.queue (finish_scan read_int reply live s)
  unfolding finish_scan in_hand fits
  finish_scan-Advances reply live s readable w =
      let ended : Supervisor = record s {
        scan_in_flight = false;
        batches_run = suc s.batches_run;
      } in
      let r = answer_to read_int reply live in
      let e : (resolve r live ended).phase ≡ idle =
        resolve_phase r live ended (readable live) w.holds in
      let q : (resolve r live ended).queue ≡ s.queue = resolve_queue r live ended in
      record {
        serving = rw e refl;
        progress = inl (rw (e, q) (omega arith));
        calm = λ h. absurd (ground arith);
      }

  work-Advances :
      (p : Phase) (reply : Reply) (s : Supervisor)
      → is_serving p ≡ true
      → s.stopping ≡ false
      → IsReadable read_int reply
      → IsServed (record s { phase = p })
      → Advances p s.queue (work read_int true reply (record s { phase = p }))
  unfolding work
  work-Advances unborn reply s serves goes readable w = absurd (ground arith)
  work-Advances gone reply s serves goes readable w = absurd (ground arith)
  work-Advances (crashed live) reply s serves goes readable w = absurd (ground arith)
  work-Advances idle reply s serves goes readable w =
      subst (λ (t : Bool). Advances idle s.queue (record s { phase = if t then gone else waiting }))
        (sym goes)
        (record { serving = refl; progress = inl (omega arith); calm = calm_waiting s.queue })
    where
      calm_waiting :
          (queue : List (Option Request))
          → is_quiet idle queue ≡ true
          → is_quiet waiting queue ≡ true
      calm_waiting [] h = refl
      calm_waiting (r ∷ queue) h = h
  work-Advances waiting reply s serves goes readable w =
      take_next-Advances [] gathering waiting (collected []) s.queue (record s { phase = waiting })
        (λ grown rest. (refl, omega arith)) (λ rest. omega arith) (λ item rest. refl)
        (record { serving = refl; progress = inr refl; calm = λ h. refl })
  work-Advances (gathering batch) reply s serves goes readable w =
      let here : Supervisor = record s { phase = gathering batch } in
      if-elim (Advances (gathering batch) s.queue) (ltb (length batch) s.batch_max)
        (λ room.
          take_next-Advances batch gathering (gathering batch) (lingering batch) s.queue here
            (λ grown rest. (refl, omega arith)) (λ rest. omega arith) (λ item rest. refl)
            (record {
              serving = refl;
              progress = inl (omega arith);
              calm = λ h. absurd (ground arith);
            }))
        (λ full. record {
          serving = refl;
          progress = inl (omega arith);
          calm = λ h. absurd (ground arith);
        })
  work-Advances (lingering batch) reply s serves goes readable w =
      if-elim (Advances (lingering batch) s.queue) (ltb (length batch) s.batch_max)
        (λ room.
          if-elim (Advances (lingering batch) s.queue) (s.stopping || true)
            (λ ends. record {
              serving = refl;
              progress = inl (omega arith);
              calm = λ h. absurd (ground arith);
            })
            (λ goes_on. absurd (ground arith)))
        (λ full. record {
          serving = refl;
          progress = inl (omega arith);
          calm = λ h. absurd (ground arith);
        })
  work-Advances (collected batch) reply s serves goes readable w =
      begin-Advances batch (record s { phase = collected batch }) goes
  work-Advances (cleared batch) reply s serves goes readable w =
      execute-Advances batch (record s { phase = cleared batch })
        (served-Waits batch (record s { phase = cleared batch }) (is_cleared batch) w)
  work-Advances (scanning live) reply s serves goes readable w =
      finish_scan-Advances reply live (record s { phase = scanning live }) readable w

quiet_zero :
    (p : Phase) (queue : List (Option Request))
    → is_serving p ≡ true
    → rank p queue ≤ 0
    → is_quiet p queue ≡ true
quiet_zero waiting [] serves h = refl
quiet_zero waiting (r ∷ queue) serves h = absurd (omega (arith, h))
quiet_zero idle queue serves h = absurd (omega (arith, h))
quiet_zero (gathering batch) queue serves h = absurd (omega (arith, h))
quiet_zero (lingering batch) queue serves h = absurd (omega (arith, h))
quiet_zero (collected batch) queue serves h = absurd (omega (arith, h))
quiet_zero (cleared batch) queue serves h = absurd (omega (arith, h))
quiet_zero (scanning live) queue serves h = absurd (omega (arith, h))
quiet_zero unborn queue serves h = absurd (ground arith)
quiet_zero gone queue serves h = absurd (ground arith)
quiet_zero (crashed live) queue serves h = absurd (ground arith)

rank_bound : (p : Phase) (queue : List (Option Request)) → rank p queue ≤ 7 * length queue + 6
rank_bound unborn queue = omega arith
rank_bound idle queue = omega arith
rank_bound waiting queue = omega arith
rank_bound (gathering batch) queue = omega arith
rank_bound (lingering batch) queue = omega arith
rank_bound (collected batch) queue = omega arith
rank_bound (cleared batch) queue = omega arith
rank_bound (scanning live) queue = omega arith
rank_bound gone queue = omega arith
rank_bound (crashed live) queue = omega arith

quiet-empty :
    (p : Phase) (queue : List (Option Request))
    → is_quiet p queue ≡ true
    → (in_hand p ≡ []) × (queue ≡ [])
unfolding in_hand
quiet-empty idle [] h = (refl, refl)
quiet-empty waiting [] h = (refl, refl)
quiet-empty (collected []) [] h = (refl, refl)
quiet-empty _ _ h = absurd (ground arith)

-- In a quiet state nothing is unresolved.
quiet-done :
    (s : Supervisor)
    → is_quiet s.phase s.queue ≡ true
    → IsServed s
    → (i : ℕ) → i < s.issued
    → done (state_of i s.futures) ≡ true
unfolding ids requests_of has_item
quiet-done s quiet w i below =
    let (hand, queue) = quiet-empty s.phase s.queue quiet in
    w.holds.settled i below (ap (λ (t : List Request). has_item i (ids t)) hand)
      (ap (λ (t : List (Option Request)). has_item i (ids (requests_of t))) queue)

pub serves-born : (p : Phase) → is_serving p ≡ true → p ≢ unborn
serves-born p h = λ e. absurd (cc (h, ap is_serving e))

module _ (read_int : List ℕ → Option ℤ) where
  work_all-done :
      (replies : List Reply) (s : Supervisor)
      → is_serving s.phase ≡ true
      → s.stopping ≡ false
      → All (IsReadable read_int) replies
      → IsServed s
      → (is_quiet s.phase s.queue ≡ true) ⊎ (rank s.phase s.queue ≤ length replies)
      → (i : ℕ) → i < s.issued
      → done (state_of i (work_all read_int replies s).futures) ≡ true
  unfolding work_all
  work_all-done [] s serves goes readable w (inl quiet) i below = quiet-done s quiet w i below
  work_all-done [] s serves goes readable w (inr near) i below =
      quiet-done s (quiet_zero s.phase s.queue serves near) w i below
  work_all-done (reply ∷ replies) s serves goes (reads, readable) w near i below =
      let k = work-Same read_int s.phase true reply s (serves-born s.phase serves) in
      let a = work-Advances read_int s.phase reply s serves goes reads w in
      work_all-done replies (work read_int true reply s) a.serving (k.same_stopping ∙ goes) readable
        (work_in-IsServed read_int s.phase true reply s w)
        (closer s (work read_int true reply s) (length replies) a near) i
        (subst (λ (t : ℕ). i < t) (sym k.same_issued) below)
    where
      closer :
          (s t : Supervisor) (n : ℕ)
          → Advances s.phase s.queue t
          → (is_quiet s.phase s.queue ≡ true) ⊎ (rank s.phase s.queue ≤ suc n)
          → (is_quiet t.phase t.queue ≡ true) ⊎ (rank t.phase t.queue ≤ n)
      closer s t n a (inl quiet) = inl (a.calm quiet)
      closer s t n a (inr near) = elim a.progress [
        | inl down ↦ inr (omega arith)
        | inr quiet ↦ inl quiet
      ]

  -- Of a supervisor in any state that events lead to, with its worker in its loop and not stopping:
  -- after six steps of the worker and seven for each item queued, every future handed out is
  -- resolved, whatever the node answers, so long as no answer raises past the handlers.
  pub requests_resolved :
      (batch_max queue_maxsize : ℕ) (events : List Event) (replies : List Reply)
      → is_serving (after_all read_int events (new_supervisor batch_max queue_maxsize)).phase ≡ true
      → (after_all read_int events (new_supervisor batch_max queue_maxsize)).stopping ≡ false
      → All (IsReadable read_int) replies
      → 7 * length (after_all read_int events (new_supervisor batch_max queue_maxsize)).queue + 6
        ≤ length replies
      → (i : ℕ) → i < (after_all read_int events (new_supervisor batch_max queue_maxsize)).issued
      → done (
          state_of i
            (work_all read_int replies
              (after_all read_int events (new_supervisor batch_max queue_maxsize))).futures)
        ≡ true
  requests_resolved batch_max queue_maxsize events replies serves goes readable enough =
      let s = after_all read_int events (new_supervisor batch_max queue_maxsize) in
      work_all-done replies s serves goes readable
        (after_all-IsServed read_int batch_max queue_maxsize events)
        (inr (omega (arith, rank_bound s.phase s.queue, enough)))
