-- ===== src/Engine/Progress.antt =====
-- What the event handlers (crates/pirx-core/src/engine/dispatch.rs) add to the event queue.
pub mod Phase1
pub mod Prompt
pub mod Restart
use pirx.Common.{
  ℕ, zero, suc, ◌+◌, ◌≤◌, ◌<◌, ◌≡◌, ◌≢◌, refl, sym, subst, ap, ◌∙◌, Bool, true, false, List, [],
  ◌∷◌, Option, none, some, arith, Bool-cases, Option-cases, ◌==◌, inl, inr, ◌⊎◌, OpKey, get_elem?,
  get_elem?-some, length, if◌then◌else◌, sat_add64, u64_max,
}
use pirx.World.{World}
use pirx.Ir.{MeasurementHookId, MeasurementOutcome}
use pirx.Buffer.{try_enqueue}
use pirx.Events.{EngineEvent, TimedEvent, EventQueue, schedule}
use pirx.Trace.{TraceEventKind}
use pirx.Factory.{FactoryKind, FactoryOutcome, schedule_production}
use pirx.Factory.Timing.{ends_at}
use pirx.Dag.{OpKind}
use pirx.Engine.State.{Engine, log, trace_id}
use pirx.Engine.Dispatch.{
  hook_table_index, outcome_event, begin_production, start_factory, activate_targets, activate_hook,
  count_activated, draw_outcome, feed_back, dispatch_hook, draw_injection, insert_fixup,
  finish_gate, release_gate, complete_gate, kind_of, mark_completed, store_state, handle,
  process_event,
}
use pirx.Engine.Run.{next_due, drain}

-- An attempt takes time, as long as the clock has not reached its end.
abbrev pub IsPrompt : (W : World) → FactoryKind W.F64 → Type 0
IsPrompt W f = (c : ℕ) (rng : W.Rng) → c < u64_max → c < ends_at (schedule_production W f c rng).0

abbrev pub ArePrompt : (W : World) → List (FactoryKind W.F64) → Type 0
ArePrompt W fs = (id : ℕ) (f : FactoryKind W.F64) → get_elem? fs id ≡ some f → IsPrompt W f

-- An event of a factory.
abbrev pub is_factory : EngineEvent → Bool
is_factory (EngineEvent.factory_produced id) = true
is_factory (EngineEvent.factory_failed id) = true
is_factory ev = false

-- An event of a given factory.
abbrev pub IsOf : ℕ → EngineEvent → Type 0
IsOf id ev = (ev ≡ EngineEvent.factory_produced id) ⊎ (ev ≡ EngineEvent.factory_failed id)

abbrev pub IsOther : EngineEvent → Type 0
IsOther ev = is_factory ev ≡ false

-- What an event may lead to: one of a factory to another of the same, the others to none of a factory.
abbrev pub Follows : EngineEvent → EngineEvent → Type 0
Follows (EngineEvent.factory_produced id) = IsOf id
Follows (EngineEvent.factory_failed id) = IsOf id
Follows other = IsOther

-- One event of a kind is added to the queue, for a cycle after `now`.
abbrev pub Adds : (EngineEvent → Type 0) → ℕ → EventQueue → EventQueue → Type 0
Adds P now q q' = (c : ℕ) × (ev : EngineEvent) × (now < c) × P ev × (q' ≡ schedule q c ev)

-- What may be added to the queue at the cycle `now`: nothing, or one event for a later cycle.
abbrev pub Later : (EngineEvent → Type 0) → ℕ → EventQueue → EventQueue → Type 0
Later P now q q' = (q' ≡ q) ⊎ Adds P now q q'

module _ {W : World} where
  activate_targets-queue :
      (e : Engine W) (gate : OpKey) (keys : List OpKey)
      → (activate_targets e gate keys).event_queue ≡ e.event_queue
  unfolding activate_targets
  activate_targets-queue e gate [] = refl
  activate_targets-queue e gate (key ∷ keys) = refl

  activate_hook-queue :
      (e : Engine W) (gate : OpKey) (hook_id : MeasurementHookId) (outcome : MeasurementOutcome)
      → (activate_hook e gate hook_id outcome).event_queue ≡ e.event_queue
  unfolding activate_hook
  activate_hook-queue e gate hook_id outcome =
      elim (Option-cases (get_elem? e.hook_table (hook_table_index hook_id outcome))) [
        | inl missing ↦ rw (missing, activate_hook) refl
        | inr (keys, found) ↦ rw (found, activate_hook) (activate_targets-queue e gate keys)
      ]

  pub record SameClock (e e' : Engine W) : Type 0 where
    queue : e'.event_queue ≡ e.event_queue
    delay : e'.feedback_delay ≡ e.feedback_delay
    now : e'.current_cycle ≡ e.current_cycle
    factories : e'.factories ≡ e.factories
    generators : e'.factory_rngs ≡ e.factory_rngs

  count_activated-SameClock :
      (e : Engine W) (hook_id : MeasurementHookId) (outcome : MeasurementOutcome)
      → SameClock e (count_activated e hook_id outcome)
  unfolding count_activated
  count_activated-SameClock e hook_id outcome = ground arith

  feed_back-Later :
      (e : Engine W) (gate : OpKey) (hook_id : MeasurementHookId) (outcome : MeasurementOutcome)
      → e.current_cycle < u64_max
      → Later IsOther e.current_cycle e.event_queue (feed_back e gate hook_id outcome).event_queue
  unfolding feed_back
  feed_back-Later e gate hook_id outcome h = elim (Bool-cases (e.feedback_delay == 0)) [
    | inl instant ↦ rw instant (inl (activate_hook-queue e gate hook_id outcome))
    | inr delayed ↦ rw delayed (inr (_, _, ground arith, refl, refl))
  ]

  -- The next state of the queue, when the clock stays.
  follow :
      (P : EngineEvent → Type 0) (e m : Engine W) (q : EventQueue)
      → SameClock e m
      → Later P m.current_cycle m.event_queue q
      → Later P e.current_cycle e.event_queue q
  follow P e m q s l =
      subst (λ n. Later P n e.event_queue q) s.now
        (subst (λ x. Later P m.current_cycle x q) s.queue l)

  dispatch_hook-Later :
      (e : Engine W) (gate : OpKey) (hook_id : MeasurementHookId)
      → e.current_cycle < u64_max
      → Later IsOther e.current_cycle e.event_queue (dispatch_hook e gate hook_id).event_queue
  unfolding dispatch_hook
  dispatch_hook-Later e gate hook_id h =
      let (outcome, drawn) = draw_outcome e in
      let logged = log e.current_cycle (TraceEventKind.measured (trace_id e gate) outcome) drawn in
      let s = count_activated-SameClock logged hook_id outcome in
      follow IsOther e (count_activated logged hook_id outcome) _
        (record {
          queue = s.queue;
          delay = s.delay;
          now = s.now;
          factories = s.factories;
          generators = s.generators;
        })
        (feed_back-Later _ gate hook_id _ (subst (λ n. n < u64_max) (sym s.now) h))

  finish_gate-Later :
      (e : Engine W) (gate : OpKey) (kind : OpKind)
      → e.current_cycle < u64_max
      → Later IsOther e.current_cycle e.event_queue (finish_gate e gate kind).event_queue
  unfolding finish_gate release_gate
  finish_gate-Later e gate (OpKind.measurement (some hook_id)) h =
      dispatch_hook-Later e gate hook_id h
  finish_gate-Later e gate kind h = inl refl

  draw_injection-SameClock : (e : Engine W) (kind : OpKind) → SameClock e (draw_injection e kind).1
  unfolding draw_injection
  draw_injection-SameClock e OpKind.t_gate = record {
    queue = refl;
    delay = refl;
    now = refl;
    factories = refl;
    generators = refl;
  }
  draw_injection-SameClock e kind = record {
    queue = refl;
    delay = refl;
    now = refl;
    factories = refl;
    generators = refl;
  }

  complete_gate-Later :
      (e : Engine W) (gate : OpKey) (kind : Option OpKind)
      → e.current_cycle < u64_max
      → Later IsOther e.current_cycle e.event_queue (complete_gate e gate kind).event_queue
  unfolding complete_gate insert_fixup
  complete_gate-Later e gate none h = inl refl
  complete_gate-Later e gate (some kind) h =
      let s = draw_injection-SameClock e kind in
      let h' = subst (λ n. n < u64_max) (sym s.now) h in
      elim (Bool-cases (draw_injection e kind).0) [
        | inl inject ↦ rw inject (inl s.queue)
        | inr clean ↦ rw clean (follow IsOther e _ _ s (finish_gate-Later _ gate kind h'))
      ]

  begin_production-Adds :
      (e : Engine W) (id : ℕ) (outcome : FactoryOutcome) (rng : W.Rng)
      → e.current_cycle < ends_at outcome
      → Adds
          (IsOf id)
          e.current_cycle
          e.event_queue
          (begin_production e id e.current_cycle (outcome, rng)).event_queue
  unfolding begin_production
  begin_production-Adds e id (FactoryOutcome.produced c) rng h = (c, _, h, inl refl, refl)
  begin_production-Adds e id (FactoryOutcome.failed c) rng h = (c, _, h, inr refl, refl)

  -- A factory that is there starts an attempt.
  pub start_factory-Adds :
      (e : Engine W) (id : ℕ) (f : FactoryKind W.F64) (rng : W.Rng)
      → get_elem? e.factories id ≡ some f
      → get_elem? e.factory_rngs id ≡ some rng
      → ArePrompt W e.factories
      → e.current_cycle < u64_max
      → Adds
          (IsOf id)
          e.current_cycle
          e.event_queue
          (start_factory e id e.current_cycle).event_queue
  unfolding start_factory
  start_factory-Adds e id f rng found drawn p h =
      rw (found, drawn, start_factory)
        (begin_production-Adds e id _ (schedule_production W f e.current_cycle rng).1
          (p id f found e.current_cycle rng h))

  start_factory-Later :
      (e : Engine W) (id : ℕ)
      → ArePrompt W e.factories
      → e.current_cycle < u64_max
      → Later
          (IsOf id)
          e.current_cycle
          e.event_queue
          (start_factory e id e.current_cycle).event_queue
  unfolding start_factory
  start_factory-Later e id p h = elim (Option-cases (get_elem? e.factories id)) [
    | inl missing ↦ rw (missing, start_factory) (inl refl)
    | inr (f, found) ↦ elim (Option-cases (get_elem? e.factory_rngs id)) [
      | inl missing ↦ rw (found, missing, start_factory) (inl refl)
      | inr (rng, drawn) ↦ inr (start_factory-Adds e id f rng found drawn p h)
    ]
  ]

  pub store_state-SameClock : (e : Engine W) (cycle : ℕ) → SameClock e (store_state e cycle)
  unfolding store_state try_enqueue
  store_state-SameClock e cycle = ground arith

  -- The engine restarts a factory at the cycle of its event, which is the current one.
  restart-Later :
      (e m : Engine W) (id : ℕ)
      → SameClock e m
      → ArePrompt W e.factories
      → e.current_cycle < u64_max
      → Later
          (IsOf id)
          e.current_cycle
          e.event_queue
          (start_factory m id e.current_cycle).event_queue
  restart-Later e m id s p h =
      subst (λ n. Later (IsOf id) e.current_cycle e.event_queue (start_factory m id n).event_queue)
        s.now
        (follow (IsOf id) e m _ s (
          start_factory-Later m id (subst (ArePrompt W) (sym s.factories) p)
            (subst (λ n. n < u64_max) (sym s.now) h)))

  handle-Later :
      (e : Engine W) (event : EngineEvent)
      → ArePrompt W e.factories
      → e.current_cycle < u64_max
      → Later
          (Follows event)
          e.current_cycle
          e.event_queue
          (handle e e.current_cycle event).event_queue
  unfolding handle mark_completed
  handle-Later e (EngineEvent.factory_produced id) p h =
      let logged = log e.current_cycle (TraceEventKind.factory_produced id) e in
      let s = store_state-SameClock logged e.current_cycle in
      restart-Later e (store_state logged e.current_cycle) id
        (record {
          queue = s.queue;
          delay = s.delay;
          now = s.now;
          factories = s.factories;
          generators = s.generators;
        })
        p h
  handle-Later e (EngineEvent.factory_failed id) p h = start_factory-Later _ id p h
  handle-Later e (EngineEvent.gate_completed gate) p h = complete_gate-Later _ gate _ h
  handle-Later e (EngineEvent.hook_activation gate hook_id outcome) p h =
      inl (activate_hook-queue e gate hook_id outcome)

  -- An event that is processed at its cycle schedules at most one other, for a later cycle; an event
  -- of a factory another of this factory, and the others none of a factory.
  pub process_event-Later :
      (e : Engine W) (ev : TimedEvent)
      → ev.cycle ≡ e.current_cycle
      → ArePrompt W e.factories
      → e.current_cycle < u64_max
      → Later (Follows ev.event) e.current_cycle e.event_queue (process_event e ev).event_queue
  unfolding process_event
  process_event-Later e ev due p h = rw due (handle-Later e ev.event p h)
