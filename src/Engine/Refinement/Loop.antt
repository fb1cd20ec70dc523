-- ===== src/Engine/Refinement/Loop.antt =====
-- `step` (crates/pirx-core/src/engine/mod.rs) against the moves of the abstract machine.
use pirx.Common.{
  ℕ, zero, suc, ◌≡◌, refl, sym, subst, ◌∙◌, List, [], ◌∷◌, Option, none, some, eq_of_some, ◌⊎◌,
  arith, Option-cases, List-cases, inl, inr,
}
use pirx.World.{World}
use pirx.Events.{TimedEvent, EventQueue, pop, peek_cycle}
use pirx.Engine.State.{Engine}
use pirx.Engine.Dispatch.{process_event}
use pirx.Engine.Run.{next_due, drain, settle, step}
use pirx.Engine.Moves.{view, Move, Moves, Moves-trans, one_move, done}
use pirx.Engine.Moves
use pirx.Engine.Refinement.{
  Runs, Runs-refl, Runs-trans, schedule_ready_gates-Runs, try_serve_stalled_gates-Runs,
}
use pirx.Engine.Refinement.Handlers.{ArePunctual, process_event-Runs}

pub next_due-eq-some :
    (c : ℕ) (q rest : EventQueue) (ev : TimedEvent)
    → next_due c q ≡ some (ev, rest)
    → (pop q ≡ some (ev, rest)) × (ev.cycle ≡ c)
unfolding next_due
next_due-eq-some c q rest ev h = ground arith

pub peek-cases :
    (q : EventQueue)
    → ((q.heap ≡ []) × (peek_cycle q ≡ none))
      ⊎ ((ev : TimedEvent) × (rest : List TimedEvent) × (q.heap ≡ ev ∷ rest)
          × (peek_cycle q ≡ some ev.cycle))
unfolding peek_cycle
peek-cases q = elim (List-cases q.heap) [
  | inl e ↦ inl (e, rw (e, peek_cycle))
  | inr (ev, rest, e) ↦ inr (ev, rest, e, rw (e, peek_cycle))
]

module _ {W : World} where
  -- Nothing is due: phase 1 is over.
  pub drain_over :
      (fuel c : ℕ) (e : Engine W) → next_due c e.event_queue ≡ none → drain fuel c e ≡ some e
  unfolding drain
  drain_over zero c e h = rw (h, drain)
  drain_over (suc fuel) c e h = rw (h, drain)

  pub drain_next :
      (fuel c : ℕ) (e : Engine W) (ev : TimedEvent) (rest : EventQueue)
      → next_due c e.event_queue ≡ some (ev, rest)
      → drain (suc fuel) c e ≡ drain fuel c (process_event (record e { event_queue = rest }) ev)
  unfolding drain
  drain_next fuel c e ev rest h = rw (h, drain)

  pub drain_short :
      (c : ℕ) (e : Engine W) (ev : TimedEvent) (rest : EventQueue)
      → next_due c e.event_queue ≡ some (ev, rest)
      → drain zero c e ≡ none
  unfolding drain
  drain_short c e ev rest h = rw (h, drain)

  same_Runs : {e e' : Engine W} → some e ≡ some e' → Runs e e'
  same_Runs {e} h = subst (Runs e) (eq_of_some h) (Runs-refl e)

  -- Phase 1 keeps to the cycle, and leaves nothing that is due.
  pub drain-Runs :
      (fuel c : ℕ) (e e' : Engine W)
      → e.current_cycle ≡ c
      → ArePunctual W e.factories
      → drain fuel c e ≡ some e'
      → Runs e e' × (next_due c e'.event_queue ≡ none)
  drain-Runs zero c e e' now h r = elim (Option-cases (next_due c e.event_queue)) [
    | inl over ↦
        let same : some e ≡ some e' = sym (drain_over zero c e over) ∙ r in
        (same_Runs same, subst (λ x. next_due c x.event_queue ≡ none) (eq_of_some same) over)
    | inr ((ev, rest), found) ↦ absurd (cc (drain_short c e ev rest found))
  ]
  drain-Runs (suc fuel) c e e' now h r = elim (Option-cases (next_due c e.event_queue)) [
    | inl over ↦
        let same : some e ≡ some e' = sym (drain_over (suc fuel) c e over) ∙ r in
        (same_Runs same, subst (λ x. next_due c x.event_queue ≡ none) (eq_of_some same) over)
    | inr ((ev, rest), found) ↦
        let (popped, due) = next_due-eq-some c e.event_queue rest ev found in
        let run = process_event-Runs e ev rest popped (due ∙ sym now) h in
        let (runs, over) =
          drain-Runs fuel c (process_event (record e { event_queue = rest }) ev) e' (run.now ∙ now)
            (subst (ArePunctual W) (sym run.factories) h)
            (sym (drain_next fuel c e ev rest found) ∙ r) in
        (Runs-trans run runs, over)
  ]

  pub settle-Runs : (e : Engine W) → Runs e (settle e)
  unfolding settle
  settle-Runs e = Runs-trans (try_serve_stalled_gates-Runs e) (schedule_ready_gates-Runs _)

  -- From one state to another, by moves that may advance the clock.
  pub record Advances (e e' : Engine W) : Type 0 where
    pub moves : Moves (view e) (view e')
    pub factories : e'.factories ≡ e.factories
    pub limit : e'.max_cycles ≡ e.max_cycles

  -- The parts of a step: the cycle it is for, and the end of phase 1.
  pub record Steps (e e' : Engine W) : Type 0 where
    pub ev : TimedEvent
    pub rest : List TimedEvent
    pub head : e.event_queue.heap ≡ ev ∷ rest
    pub drained : Engine W
    pub phase1 : Runs (record e { current_cycle = ev.cycle }) drained
    pub over : next_due ev.cycle drained.event_queue ≡ none
    pub settled : e' ≡ settle drained

  pub step_idle : (fuel : ℕ) (e : Engine W) → peek_cycle e.event_queue ≡ none → step fuel e ≡ some e
  unfolding step
  step_idle fuel e h = rw (h, step)

  pub step_at :
      (fuel : ℕ) (e : Engine W) (c : ℕ) (r : Option (Engine W))
      → peek_cycle e.event_queue ≡ some c
      → drain fuel c (record e { current_cycle = c }) ≡ r
      → step fuel e ≡ elim r [ none ↦ none | some drained ↦ some (settle drained) ]
  unfolding step
  step_at fuel e c r h d = rw (h, step, d)

  -- With factories that are punctual, a step that returns does nothing on an empty queue; else it
  -- sets the clock to the first event, makes moves in that cycle until no event of the queue is
  -- due, and then serves the stalled gates and starts the ready ones.
  pub step-Steps :
      (fuel : ℕ) (e e' : Engine W)
      → ArePunctual W e.factories
      → step fuel e ≡ some e'
      → ((e.event_queue.heap ≡ []) × (e' ≡ e)) ⊎ Steps e e'
  step-Steps fuel e e' h r = elim (peek-cases e.event_queue) [
    | inl (empty, idle) ↦ inl (empty, sym (eq_of_some (sym (step_idle fuel e idle) ∙ r)))
    | inr (ev, rest, head, next) ↦
        elim (Option-cases (drain fuel ev.cycle (record e { current_cycle = ev.cycle }))) [
          | inl short ↦ absurd (cc (step_at fuel e ev.cycle none next short))
          | inr (drained, ends) ↦
              let (runs, over) = drain-Runs fuel ev.cycle _ drained refl h ends in
              inr (record {
                ev = ev;
                rest = rest;
                head = head;
                drained = drained;
                phase1 = runs;
                over = over;
                settled =
                    sym (eq_of_some (sym (step_at fuel e ev.cycle (some drained) next ends) ∙ r));
              })
        ]
  ]

  pub Steps-Advances : {e e' : Engine W} → Steps e e' → Advances e e'
  Steps-Advances {e} {e'} s = subst (Advances e) (sym s.settled) (record {
    moves =
        Moves-trans (one_move (Moves.advance s.ev s.rest s.head refl))
          (Moves-trans s.phase1.moves last.moves);
    factories = last.factories ∙ s.phase1.factories;
    limit = last.limit ∙ s.phase1.limit;
  })
    where
      last : Runs s.drained (settle s.drained)
      last = settle-Runs s.drained
