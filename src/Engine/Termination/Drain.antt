-- ===== src/Engine/Termination/Drain.antt =====
-- Phase 1 of `step` (crates/pirx-core/src/engine/mod.rs) keeps a run going.
use pirx.Common.{
  ℕ, zero, suc, ◌≤◌, ◌<◌, ◌≡◌, refl, sym, subst, ◌∙◌, true, List, [], ◌∷◌, none, some, arith,
  Bool-cases, Option-cases, inl, inr, All, length, u64_max, eq_of_some,
}
use pirx.World.{World}
use pirx.Events.{EngineEvent, TimedEvent, EventQueue, pop}
use pirx.Events.Order.{Before, IsOrdered, heap_of_pop}
use pirx.Events.Counts.{waiting, waiting-cons, waiting-schedule}
use pirx.Engine.State.{Engine}
use pirx.Engine.Dispatch.{process_event}
use pirx.Engine.Run.{next_due, drain}
use pirx.Engine.Refinement.Handlers.{ArePunctual, process_event-Runs}
use pirx.Engine.Refinement.Loop.{next_due-eq-some, drain_over, drain_next, drain_short}
use pirx.Engine.Progress.{
  ArePrompt, is_factory, IsOf, IsOther, Follows, Adds, Later, process_event-Later,
}
use pirx.Engine.Progress.Restart.{IsThere, process_event-Adds}
use pirx.Engine.Termination.{core, IsHere, IsAlive, All-schedule_events}
use pirx.Engine.Termination.Handlers.{process_event-Keeps}

IsOther-IsHere : (n : ℕ) (ev : EngineEvent) → IsOther ev → IsHere n ev
IsOther-IsHere n (EngineEvent.factory_produced id) h = cc
IsOther-IsHere n (EngineEvent.factory_failed id) h = cc
IsOther-IsHere n (EngineEvent.gate_completed gate) h = tt
IsOther-IsHere n (EngineEvent.hook_activation gate hook_id outcome) h = tt

IsOf-IsHere : (n id : ℕ) (ev : EngineEvent) → id < n → IsOf id ev → IsHere n ev
IsOf-IsHere n id ev h (inl e) = rw e h
IsOf-IsHere n id ev h (inr e) = rw e h

Follows-IsHere : (n : ℕ) (ev next : EngineEvent) → IsHere n ev → Follows ev next → IsHere n next
Follows-IsHere n (EngineEvent.factory_produced id) next h f = IsOf-IsHere n id next h f
Follows-IsHere n (EngineEvent.factory_failed id) next h f = IsOf-IsHere n id next h f
Follows-IsHere n (EngineEvent.gate_completed gate) next h f = IsOther-IsHere n next f
Follows-IsHere n (EngineEvent.hook_activation gate hook_id outcome) next h f =
    IsOther-IsHere n next f

IsOf-is_factory : (id : ℕ) (ev : EngineEvent) → IsOf id ev → is_factory ev ≡ true
IsOf-is_factory id ev (inl e) = rw e refl
IsOf-is_factory id ev (inr e) = rw e refl

-- What follows an event is of a factory when the event is.
Follows-is_factory : (ev next : EngineEvent) → Follows ev next → is_factory next ≡ is_factory ev
Follows-is_factory (EngineEvent.factory_produced id) next f = IsOf-is_factory id next f
Follows-is_factory (EngineEvent.factory_failed id) next f = IsOf-is_factory id next f
Follows-is_factory (EngineEvent.gate_completed gate) next f = f
Follows-is_factory (EngineEvent.hook_activation gate hook_id outcome) next f = f

-- The events after one more is added, or none.
Later-All :
    (P : EngineEvent → Type 0) (Q : EngineEvent → Type 0) (now : ℕ) (q q' : EventQueue)
    → ((ev : EngineEvent) → P ev → Q ev)
    → Later P now q q'
    → All (λ x. Q x.event) q.heap
    → All (λ x. Q x.event) q'.heap
Later-All P Q now q q' f (inl same) h = rw same h
Later-All P Q now q q' f (inr (c, ev, _, p, e)) h =
    rw e (All-schedule_events (λ x. Q x.event) q c ev (f ev p) h)

Adds-working :
    (P : EngineEvent → Type 0) (now : ℕ) (q q' : EventQueue)
    → ((ev : EngineEvent) → P ev → is_factory ev ≡ true)
    → Adds P now q q'
    → 0 < waiting is_factory q'.heap
Adds-working P now q q' f (c, ev, _, p, e) =
    let s = waiting-schedule is_factory q c ev in let t = f ev p in rw e (ground arith)

Later-working :
    (P : EngineEvent → Type 0) (now : ℕ) (q q' : EventQueue)
    → Later P now q q'
    → 0 < waiting is_factory q.heap
    → 0 < waiting is_factory q'.heap
Later-working P now q q' (inl same) h = rw same h
Later-working P now q q' (inr (c, ev, _, p, e)) h =
    let s = waiting-schedule is_factory q c ev in rw e (ground arith)

module _ {W : World} (n : ℕ) where
  IsHere-IsThere :
      (e : Engine W) (ev : EngineEvent)
      → length e.factories ≡ n
      → length e.factory_rngs ≡ n
      → IsHere n ev
      → IsThere e ev
  IsHere-IsThere e (EngineEvent.factory_produced id) f g h = (rw f h, rw g h)
  IsHere-IsThere e (EngineEvent.factory_failed id) f g h = (rw f h, rw g h)
  IsHere-IsThere e (EngineEvent.gate_completed gate) f g h = tt
  IsHere-IsThere e (EngineEvent.hook_activation gate hook_id outcome) f g h = tt

  -- An event of the current cycle leaves a factory at work.
  process_event-IsAlive :
      (e : Engine W) (ev : TimedEvent) (rest : EventQueue)
      → pop e.event_queue ≡ some (ev, rest)
      → ev.cycle ≡ e.current_cycle
      → e.current_cycle < u64_max
      → ArePrompt W e.factories
      → length e.factories ≡ n
      → IsAlive n (core e)
      → IsAlive n (core (process_event (record e { event_queue = rest }) ev))
  process_event-IsAlive e ev rest popped due r p len a =
      let popped_e = record e { event_queue = rest } in
      let e1 = process_event popped_e ev in
      let (head, _) = heap_of_pop e.event_queue rest ev popped in
      let here = subst (All (λ x. IsHere n x.event)) head a.ids in
      let later = process_event-Later popped_e ev due p r in
      let keeps = process_event-Keeps popped_e ev in
      let working : 0 < waiting is_factory e1.event_queue.heap =
        elim (Bool-cases (is_factory ev.event)) [
          | inl f ↦
              Adds-working (Follows ev.event) e.current_cycle rest e1.event_queue
                (λ next g. Follows-is_factory ev.event next g ∙ f)
                (process_event-Adds popped_e ev due f
                  (IsHere-IsThere popped_e ev.event len a.generators here.0) p r)
          | inr other ↦ Later-working (Follows ev.event) e.current_cycle rest e1.event_queue later (
              let w = subst (λ q. 0 < waiting is_factory q) head a.working in
              let s = waiting-cons is_factory ev rest.heap in ground arith)
        ] in
      record {
        ids =
            Later-All (Follows ev.event) (IsHere n) e.current_cycle rest e1.event_queue
              (λ next. Follows-IsHere n ev.event next here.0) later here.1;
        working = working;
        generators = keeps.generators ∙ a.generators;
        costly = keeps.costly a.costly;
      }

  pub drain-IsAlive :
      (fuel c : ℕ) (e e' : Engine W)
      → e.current_cycle ≡ c
      → c < u64_max
      → ArePunctual W e.factories
      → ArePrompt W e.factories
      → length e.factories ≡ n
      → IsAlive n (core e)
      → drain fuel c e ≡ some e'
      → IsAlive n (core e')
  drain-IsAlive zero c e e' now r h p len a ran = elim (Option-cases (next_due c e.event_queue)) [
    | inl over ↦
        subst (λ x. IsAlive n (core x)) (eq_of_some (sym (drain_over zero c e over) ∙ ran)) a
    | inr ((ev, rest), found) ↦ absurd (cc (drain_short c e ev rest found))
  ]
  drain-IsAlive (suc fuel) c e e' now r h p len a ran =
      elim (Option-cases (next_due c e.event_queue)) [
        | inl over ↦
            subst (λ x. IsAlive n (core x))
              (eq_of_some (sym (drain_over (suc fuel) c e over) ∙ ran)) a
        | inr ((ev, rest), found) ↦
            let (popped, due) = next_due-eq-some c e.event_queue rest ev found in
            let run = process_event-Runs e ev rest popped (due ∙ sym now) h in
            drain-IsAlive fuel c (process_event (record e { event_queue = rest }) ev) e'
              (run.now ∙ now) r (subst (ArePunctual W) (sym run.factories) h)
              (subst (ArePrompt W) (sym run.factories) p)
              (subst (λ fs. length fs ≡ n) (sym run.factories) len)
              (process_event-IsAlive e ev rest popped (due ∙ sym now)
                (subst (λ x. x < u64_max) (sym now) r) p len a)
              (sym (drain_next fuel c e ev rest found) ∙ ran)
      ]

not_due :
    (c : ℕ) (q : EventQueue) (ev : TimedEvent) (xs : List TimedEvent)
    → q.heap ≡ ev ∷ xs
    → next_due c q ≡ none
    → c ≤ ev.cycle
    → c < ev.cycle
unfolding next_due pop
not_due c q ev xs e over h = ground arith

-- In an ordered queue without past events and with none that is due, all wait for a later cycle.
pub over-IsAhead :
    (c : ℕ) (q : EventQueue)
    → IsOrdered q.heap
    → All (λ x. (c ≤ x.cycle) × (x.cycle ≤ u64_max)) q.heap
    → next_due c q ≡ none
    → All (λ x. c < x.cycle) q.heap
over-IsAhead c q o f over = go q.heap refl
  where
    rest_ahead :
        (ev : TimedEvent) (xs : List TimedEvent)
        → c < ev.cycle
        → All (Before ev) xs
        → All (λ x. c < x.cycle) xs
    rest_ahead ev [] h b = tt
    rest_ahead ev (x ∷ xs) h b = (ground arith, rest_ahead ev xs h b.1)

    go : (xs : List TimedEvent) → q.heap ≡ xs → All (λ x. c < x.cycle) q.heap
    go [] e = rw e tt
    go (ev ∷ xs) e =
        let o' = subst IsOrdered e o in
        let f' = subst (All (λ x. (c ≤ x.cycle) × (x.cycle ≤ u64_max))) e f in
        let first = not_due c q ev xs e over f'.0.0 in rw e (first, rest_ahead ev xs first o'.0)
