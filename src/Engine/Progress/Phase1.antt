-- ===== src/Engine/Progress/Phase1.antt =====
-- How long phase 1 of `step` (crates/pirx-core/src/engine/mod.rs) takes.
use pirx.Common.{
  ℕ, zero, suc, ◌+◌, ◌≤◌, ◌<◌, ◌≡◌, refl, sym, subst, ◌∙◌, List, [], ◌∷◌, some, arith, Option-cases,
  ◌==◌, inl, inr, if◌then◌else◌, u64_max, length, All,
}
use pirx.World.{World}
use pirx.Events.{EngineEvent, TimedEvent, EventQueue, push_heap, schedule}
use pirx.Events.Order.{heap_of_pop}
use pirx.Engine.State.{Engine}
use pirx.Engine.Dispatch.{process_event}
use pirx.Engine.Run.{next_due, drain, settle, step}
use pirx.Engine.Refinement.Handlers.{ArePunctual, process_event-Runs}
use pirx.Engine.Refinement.Loop.{
  next_due-eq-some, drain_over, drain_next, step_idle, step_at, peek-cases,
}
use pirx.Engine.Progress.{ArePrompt, Later, process_event-Later}

-- How many events wait for a cycle.
pub due : ℕ → List TimedEvent → ℕ
due c [] = 0
due c (e ∷ es) = (if e.cycle == c then 1 else 0) + due c es

pub due-le-length : (c : ℕ) (es : List TimedEvent) → due c es ≤ length es
unfolding due
due-le-length c [] = omega arith
due-le-length c (e ∷ es) = ground (arith, due-le-length c es)

due-push_heap :
    (c : ℕ) (x : TimedEvent) (xs : List TimedEvent) → due c (push_heap x xs) ≡ due c (x ∷ xs)
unfolding due push_heap
due-push_heap c x [] = refl
due-push_heap c x (y ∷ ys) = ground (arith, due-push_heap c x ys)

due-schedule :
    (c cycle : ℕ) (q : EventQueue) (ev : EngineEvent)
    → c < cycle
    → due c (schedule q cycle ev).heap ≡ due c q.heap
unfolding schedule
due-schedule c cycle q ev h = due-push_heap c _ q.heap ∙ unfold due in ground arith

due-Later :
    (P : EngineEvent → Type 0) (now : ℕ) (q q' : EventQueue)
    → Later P now q q'
    → due now q'.heap ≡ due now q.heap
due-Later P now q q' (inl same) = rw same refl
due-Later P now q q' (inr (c, ev, later, _, e)) = rw e (due-schedule now c q ev later)

due-next :
    (c : ℕ) (q rest : EventQueue) (ev : TimedEvent)
    → next_due c q ≡ some (ev, rest)
    → due c q.heap ≡ suc (due c rest.heap)
unfolding due
due-next c q rest ev h =
    let (popped, at) = next_due-eq-some c q rest ev h in
    let (head, _) = heap_of_pop q rest ev popped in rw head (ground arith)

module _ {W : World} where
  -- With prompt and punctual factories phase 1 ends within as many rounds as events are due.
  pub drain_ends :
      (fuel c : ℕ) (e : Engine W)
      → e.current_cycle ≡ c
      → c < u64_max
      → ArePunctual W e.factories
      → ArePrompt W e.factories
      → due c e.event_queue.heap ≤ fuel
      → (e' : Engine W) × (drain fuel c e ≡ some e')
  drain_ends zero c e now r h p f = elim (Option-cases (next_due c e.event_queue)) [
    | inl over ↦ (e, drain_over zero c e over)
    | inr ((ev, rest), found) ↦ absurd (omega (arith, due-next c e.event_queue rest ev found))
  ]
  drain_ends (suc fuel) c e now r h p f = elim (Option-cases (next_due c e.event_queue)) [
    | inl over ↦ (e, drain_over (suc fuel) c e over)
    | inr ((ev, rest), found) ↦
        let popped = next_due-eq-some c e.event_queue rest ev found in
        let e1 = process_event (record e { event_queue = rest }) ev in
        let run = process_event-Runs e ev rest popped.0 (popped.1 ∙ sym now) h in
        let added =
          process_event-Later (record e { event_queue = rest }) ev (popped.1 ∙ sym now) p
            (subst (λ n. n < u64_max) (sym now) r) in
        let kept : due c e1.event_queue.heap ≡ due c rest.heap =
          subst (λ n. due n e1.event_queue.heap ≡ due n rest.heap) now
            (due-Later _ e.current_cycle rest e1.event_queue added) in
        let (e', ends) =
          drain_ends fuel c e1 (run.now ∙ now) r (subst (ArePunctual W) (sym run.factories) h)
            (subst (ArePrompt W) (sym run.factories) p)
            (omega (arith, kept, due-next c e.event_queue rest ev found)) in
        (e', drain_next fuel c e ev rest found ∙ ends)
  ]

  -- With factories that are punctual and prompt, a step returns a state when it gets as much fuel
  -- as there are events in the queue and all of them lie before the last cycle of the clock.
  pub step_returns :
      (fuel : ℕ) (e : Engine W)
      → ArePunctual W e.factories
      → ArePrompt W e.factories
      → All (λ ev. ev.cycle < u64_max) e.event_queue.heap
      → length e.event_queue.heap ≤ fuel
      → (e' : Engine W) × (step fuel e ≡ some e')
  step_returns fuel e h p range f = elim (peek-cases e.event_queue) [
    | inl (empty, idle) ↦ (e, step_idle fuel e idle)
    | inr (ev, rest, head, next) ↦
        let bound = subst (All (λ x. x.cycle < u64_max)) head range in
        let (drained, ends) =
          drain_ends fuel ev.cycle (record e { current_cycle = ev.cycle }) refl bound.0 h p
            (omega (arith, due-le-length ev.cycle e.event_queue.heap)) in
        (settle drained, step_at fuel e ev.cycle (some drained) next ends)
  ]
