-- ===== src/Engine/Refinement/Handlers.antt =====
-- The event handlers (crates/pirx-core/src/engine/dispatch.rs) against the moves of the abstract machine.
use pirx.Common.{
  ℕ, ◌≡◌, refl, sym, subst, Bool, true, false, List, [], ◌∷◌, Option, none, some, arith, Bool-cases,
  Option-cases, ltb, ◌==◌, inl, inr, OpKey, get_elem?,
}
use pirx.World.{World}
use pirx.Ir.{MeasurementHookId, MeasurementOutcome}
use pirx.Buffer.{try_enqueue}
use pirx.Events.{EngineEvent, TimedEvent, EventQueue, pop}
use pirx.Events.Order.{heap_of_pop}
use pirx.Trace.{TraceEventKind}
use pirx.Factory.{FactoryKind, FactoryOutcome}
use pirx.Factory.Timing.{IsPunctual, ends_at}
use pirx.Dag.{OpKind}
use pirx.Engine.State.{Engine, log, trace_id}
use pirx.Engine.Dispatch.{
  hook_table_index, begin_production, start_factory, activate_targets, activate_hook,
  count_activated, feed_back, dispatch_hook, draw_injection, insert_fixup, finish_gate,
  release_gate, complete_gate, completion, kind_of, mark_completed, store_state, handle,
  process_event,
}
use pirx.Engine.Moves.{
  View, view, Move, Moves, one_move, done, more, Delivers, IsTimely, factory_event, completion_kind,
}
use pirx.Engine.Moves
use pirx.Engine.Refinement.{Runs, Runs-refl, Runs-trans}

completion-cases :
    (kind : Option OpKind) (id : ℕ) → (b : Bool) × (completion kind id ≡ completion_kind b id)
completion-cases (some OpKind.fixup) id = (true, refl)
completion-cases (some OpKind.clifford) id = (false, refl)
completion-cases (some OpKind.t_gate) id = (false, refl)
completion-cases (some (OpKind.measurement hook)) id = (false, refl)
completion-cases (some (OpKind.rotation i)) id = (false, refl)
completion-cases none id = (false, refl)

-- Every factory is punctual.
abbrev pub ArePunctual : (W : World) → List (FactoryKind W.F64) → Type 0
ArePunctual W fs = (id : ℕ) (f : FactoryKind W.F64) → get_elem? fs id ≡ some f → IsPunctual W f

module _ {W : World} where
  activate_targets-Runs :
      (e : Engine W) (gate : OpKey) (keys : List OpKey) → Runs e (activate_targets e gate keys)
  unfolding activate_targets
  activate_targets-Runs e gate [] = Runs-refl e
  activate_targets-Runs e gate (key ∷ keys) = record {
    moves = one_move (Moves.note _ refl refl);
    factories = refl;
    limit = refl;
    now = refl;
  }

  activate_hook-Runs :
      (e : Engine W) (gate : OpKey) (hook_id : MeasurementHookId) (outcome : MeasurementOutcome)
      → Runs e (activate_hook e gate hook_id outcome)
  unfolding activate_hook
  activate_hook-Runs e gate hook_id outcome =
      elim (Option-cases (get_elem? e.hook_table (hook_table_index hook_id outcome))) [
        | inl missing ↦ rw (missing, activate_hook) (Runs-refl e)
        | inr (keys, found) ↦ rw (found, activate_hook) (activate_targets-Runs e gate keys)
      ]

  -- Only the count of operations changes.
  count_activated-Runs :
      (e : Engine W) (hook_id : MeasurementHookId) (outcome : MeasurementOutcome)
      → Runs e (count_activated e hook_id outcome)
  unfolding count_activated
  count_activated-Runs e hook_id outcome =
      elim (Option-cases (get_elem? e.hook_table (hook_table_index hook_id outcome))) [
        | inl missing ↦ rw (missing, count_activated) (Runs-refl e)
        | inr (keys, found) ↦
            rw (found, count_activated)
              (record { moves = done; factories = refl; limit = refl; now = refl })
      ]

  feed_back-Runs :
      (e : Engine W) (gate : OpKey) (hook_id : MeasurementHookId) (outcome : MeasurementOutcome)
      → Runs e (feed_back e gate hook_id outcome)
  unfolding feed_back
  feed_back-Runs e gate hook_id outcome = elim (Bool-cases (e.feedback_delay == 0)) [
    | inl instant ↦ rw instant (activate_hook-Runs e gate hook_id outcome)
    | inr delayed ↦ rw delayed (record {
      moves = one_move (Moves.feed_back e.feedback_delay gate hook_id outcome refl);
      factories = refl;
      limit = refl;
      now = refl;
    })
  ]

  dispatch_hook-Runs :
      (e : Engine W) (gate : OpKey) (hook_id : MeasurementHookId)
      → Runs e (dispatch_hook e gate hook_id)
  unfolding dispatch_hook
  dispatch_hook-Runs e gate hook_id =
      Runs-trans
        (record {
          moves = one_move (Moves.note _ refl refl);
          factories = refl;
          limit = refl;
          now = refl;
        })
        (Runs-trans (count_activated-Runs _ hook_id _) (feed_back-Runs _ gate hook_id _))

  insert_fixup-Runs : (e : Engine W) (gate : OpKey) → Runs e (insert_fixup e gate)
  unfolding insert_fixup
  insert_fixup-Runs e gate = record {
    moves = more (one_move (Moves.note _ refl refl)) (Moves.note _ refl refl);
    factories = refl;
    limit = refl;
    now = refl;
  }

  release_gate-Runs : (e : Engine W) (gate : OpKey) → Runs e (release_gate e gate)
  unfolding release_gate
  release_gate-Runs e gate = record { moves = done; factories = refl; limit = refl; now = refl }

  finish_gate-Runs :
      (e : Engine W) (gate : OpKey) (kind : OpKind) → Runs e (finish_gate e gate kind)
  unfolding finish_gate
  finish_gate-Runs e gate (OpKind.measurement (some hook_id)) =
      Runs-trans (dispatch_hook-Runs e gate hook_id) (release_gate-Runs _ gate)
  finish_gate-Runs e gate kind = release_gate-Runs e gate

  draw_injection-Runs : (e : Engine W) (kind : OpKind) → Runs e (draw_injection e kind).1
  unfolding draw_injection
  draw_injection-Runs e OpKind.t_gate = record {
    moves = done;
    factories = refl;
    limit = refl;
    now = refl;
  }
  draw_injection-Runs e (OpKind.rotation i) = record {
    moves = done;
    factories = refl;
    limit = refl;
    now = refl;
  }
  draw_injection-Runs e kind = Runs-refl e

  complete_gate-Runs :
      (e : Engine W) (gate : OpKey) (kind : Option OpKind) → Runs e (complete_gate e gate kind)
  unfolding complete_gate
  complete_gate-Runs e gate none = Runs-refl e
  complete_gate-Runs e gate (some kind) =
      let drawn = draw_injection-Runs e kind in
      elim (Bool-cases (draw_injection e kind).0) [
        | inl inject ↦ rw inject (Runs-trans drawn (insert_fixup-Runs _ gate))
        | inr clean ↦ rw clean (Runs-trans drawn (finish_gate-Runs _ gate kind))
      ]

  -- The factory's next attempt.
  begin_production-Runs :
      (e : Engine W) (id : ℕ) (outcome : FactoryOutcome) (rng : W.Rng)
      → IsTimely e.current_cycle (ends_at outcome)
      → Runs e (begin_production e id e.current_cycle (outcome, rng))
  unfolding begin_production
  begin_production-Runs e id (FactoryOutcome.produced c) rng h = record {
    moves = one_move (Moves.restart id c true h refl);
    factories = refl;
    limit = refl;
    now = refl;
  }
  begin_production-Runs e id (FactoryOutcome.failed c) rng h = record {
    moves = one_move (Moves.restart id c false h refl);
    factories = refl;
    limit = refl;
    now = refl;
  }

  start_factory-Runs :
      (e : Engine W) (id : ℕ)
      → ArePunctual W e.factories
      → Runs e (start_factory e id e.current_cycle)
  unfolding start_factory
  start_factory-Runs e id h = elim (Option-cases (get_elem? e.factories id)) [
    | inl missing ↦ rw (missing, start_factory) (Runs-refl e)
    | inr (f, found) ↦ elim (Option-cases (get_elem? e.factory_rngs id)) [
      | inl missing ↦ rw (found, missing, start_factory) (Runs-refl e)
      | inr (rng, drawn) ↦
          rw (found, drawn, start_factory)
            (begin_production-Runs e id _ _ (h id f found e.current_cycle rng))
    ]
  ]

  store_state-now :
      (e : Engine W) (cycle : ℕ)
      → ((store_state e cycle).current_cycle ≡ e.current_cycle)
        × ((store_state e cycle).factories ≡ e.factories)
  unfolding store_state try_enqueue
  store_state-now e cycle = ground arith

  module _ (e : Engine W) (ev : TimedEvent) (rest : EventQueue)
      (d : Delivers (view e) ev rest) where
    mark_completed-Runs :
        (gate : OpKey)
        → ev.event ≡ EngineEvent.gate_completed gate
        → Runs e (mark_completed (record e { event_queue = rest }) e.current_cycle gate)
    unfolding mark_completed trace_id
    mark_completed-Runs gate k =
        let (is_fixup, kind) =
          completion-cases (kind_of (record e { event_queue = rest }) gate) (trace_id e gate) in
        record {
          moves =
              one_move (Moves.complete ev rest gate (trace_id e gate) is_fixup d k (rw kind refl));
          factories = refl;
          limit = refl;
          now = refl;
        }

    store_state-Runs :
        (id : ℕ)
        → ev.event ≡ EngineEvent.factory_produced id
        → Runs e (
            store_state
              (log e.current_cycle
                (TraceEventKind.factory_produced id)
                (record e { event_queue = rest }))
              e.current_cycle)
    unfolding store_state try_enqueue
    store_state-Runs id k = elim (Bool-cases (ltb e.buffer.occupancy e.buffer.capacity)) [
      | inl room ↦ rw room (record {
        moves = one_move (Moves.store ev rest id d k (ground arith) refl);
        factories = refl;
        limit = refl;
        now = refl;
      })
      | inr full ↦ rw full (record {
        moves = one_move (Moves.waste ev rest id d k (ground arith) refl);
        factories = refl;
        limit = refl;
        now = refl;
      })
    ]

    restarted :
        (id : ℕ)
        → ArePunctual W e.factories
        → let e' =
            store_state
              (log e.current_cycle
                (TraceEventKind.factory_produced id)
                (record e { event_queue = rest }))
              e.current_cycle in
          Runs e' (start_factory e' id e.current_cycle)
    restarted id h =
        let e' =
          store_state
            (log e.current_cycle (TraceEventKind.factory_produced id)
              (record e { event_queue = rest }))
            e.current_cycle in
        let (now, same) = store_state-now _ e.current_cycle in
        subst (λ c. Runs e' (start_factory e' id c)) now
          (start_factory-Runs e' id (subst (ArePunctual W) (sym same) h))

    handle-Runs :
        (event : EngineEvent)
        → ev.event ≡ event
        → ArePunctual W e.factories
        → Runs e (handle (record e { event_queue = rest }) e.current_cycle event)
    unfolding handle
    handle-Runs (EngineEvent.factory_produced id) k h =
        let stored = store_state-Runs id k in Runs-trans stored (restarted id h)
    handle-Runs (EngineEvent.factory_failed id) k h =
        Runs-trans
          (record {
            moves = one_move (Moves.abort ev rest id d k refl);
            factories = refl;
            limit = refl;
            now = refl;
          })
          (start_factory-Runs _ id h)
    handle-Runs (EngineEvent.gate_completed gate) k h =
        Runs-trans (mark_completed-Runs gate k) (complete_gate-Runs _ gate _)
    handle-Runs (EngineEvent.hook_activation gate hook_id outcome) k h =
        Runs-trans
          (record {
            moves = one_move (Moves.fed_back ev rest gate hook_id outcome d k refl);
            factories = refl;
            limit = refl;
            now = refl;
          })
          (activate_hook-Runs _ gate hook_id outcome)

  -- With factories that are punctual, processing the event at the front of the queue at its own
  -- cycle is a sequence of moves of the abstract machine, and keeps the factories, the limit and
  -- the clock.
  pub process_event-Runs :
      (e : Engine W) (ev : TimedEvent) (rest : EventQueue)
      → pop e.event_queue ≡ some (ev, rest)
      → ev.cycle ≡ e.current_cycle
      → ArePunctual W e.factories
      → Runs e (process_event (record e { event_queue = rest }) ev)
  unfolding process_event
  process_event-Runs e ev rest popped due h =
      let (head, number) = heap_of_pop e.event_queue rest ev popped in
      let d : Delivers (view e) ev rest = record { head = head; number = sym number; due = due } in
      rw due (handle-Runs e ev rest d ev.event refl h)
