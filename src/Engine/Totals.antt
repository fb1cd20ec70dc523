-- ===== src/Engine/Totals.antt =====
-- The counter `total_ops` of the engine (crates/pirx-core/src/engine/) over the handlers and a run.
use pirx.Common.{
  ℕ, zero, suc, ◌≤◌, ◌≡◌, refl, sym, subst, ◌∙◌, min, List, [], ◌∷◌, Option, none, some, arith,
  eq_of_some, Bool-cases, Option-cases, inl, inr, ltb, u64_max, OpKey, get_elem?,
}
use pirx.World.{World}
use pirx.Ir.{MeasurementHookId, MeasurementOutcome}
use pirx.Buffer.{try_enqueue, try_dequeue}
use pirx.Events.{EngineEvent, TimedEvent}
use pirx.Dag.{OpKind}
use pirx.Trace.{TraceEventKind}
use pirx.Engine.State.{Engine, log, trace_id}
use pirx.Engine.Dispatch.{
  hook_table_index, begin_production, start_factory, activate_targets, activate_hook,
  count_activated, draw_outcome, feed_back, dispatch_hook, draw_injection, insert_fixup,
  release_gate, finish_gate, complete_gate, kind_of, mark_completed, store_state, handle,
  process_event, log_routing, total_gate_cost, schedule_gate_completion, serve, schedule_one,
  schedule_all, schedule_ready_gates, serve_all, try_serve_stalled_gates,
}
use pirx.Engine.Refinement.Loop.{
  peek-cases, step_idle, step_at, drain_over, drain_next, drain_short,
}
use pirx.Engine.Run.{drain, settle, step, next_due}

module _ {W : World} where
  -- The counter does not fall, within the range of u64.
  abbrev pub Grows : Engine W → Engine W → Type 0
  Grows e e' = min e.total_ops u64_max ≤ e'.total_ops

  Grows-trans : (a b c : Engine W) → Grows a b → Grows b c → Grows a c
  Grows-trans a b c g h = omega arith

  activate_hook-total :
      (e : Engine W) (gate : OpKey) (hook_id : MeasurementHookId) (outcome : MeasurementOutcome)
      → (activate_hook e gate hook_id outcome).total_ops ≡ e.total_ops
  unfolding activate_hook activate_targets
  activate_hook-total e gate hook_id outcome =
      elim (Option-cases (get_elem? e.hook_table (hook_table_index hook_id outcome))) [
        | inl missing ↦ rw (missing, activate_hook) refl
        | inr ([], found) ↦ rw (found, activate_hook) refl
        | inr (key ∷ keys, found) ↦ rw (found, activate_hook) refl
      ]

  feed_back-Grows :
      (e : Engine W) (gate : OpKey) (hook_id : MeasurementHookId) (outcome : MeasurementOutcome)
      → Grows e (feed_back e gate hook_id outcome)
  unfolding feed_back
  feed_back-Grows e gate hook_id outcome =
      ground (arith, activate_hook-total e gate hook_id outcome)

  count_activated-Grows :
      (e : Engine W) (hook_id : MeasurementHookId) (outcome : MeasurementOutcome)
      → Grows e (count_activated e hook_id outcome)
  unfolding count_activated
  count_activated-Grows e hook_id outcome = ground arith

  dispatch_hook-Grows :
      (e : Engine W) (gate : OpKey) (hook_id : MeasurementHookId)
      → Grows e (dispatch_hook e gate hook_id)
  unfolding dispatch_hook draw_outcome
  dispatch_hook-Grows e gate hook_id =
      let (outcome, drawn) = draw_outcome e in
      let logged = log e.current_cycle (TraceEventKind.measured (trace_id e gate) outcome) drawn in
      let counted = count_activated logged hook_id outcome in
      Grows-trans logged counted (feed_back counted gate hook_id outcome)
        (count_activated-Grows logged hook_id outcome)
        (feed_back-Grows counted gate hook_id outcome)

  finish_gate-Grows :
      (e : Engine W) (gate : OpKey) (kind : OpKind) → Grows e (finish_gate e gate kind)
  unfolding finish_gate release_gate
  finish_gate-Grows e gate (OpKind.measurement (some hook_id)) = dispatch_hook-Grows e gate hook_id
  finish_gate-Grows e gate kind = omega arith

  draw_injection-total :
      (e : Engine W) (kind : OpKind) → (draw_injection e kind).1.total_ops ≡ e.total_ops
  unfolding draw_injection
  draw_injection-total e OpKind.t_gate = refl
  draw_injection-total e kind = refl

  insert_fixup-Grows : (e : Engine W) (gate : OpKey) → Grows e (insert_fixup e gate)
  unfolding insert_fixup
  insert_fixup-Grows e gate = omega arith

  complete_gate-Grows :
      (e : Engine W) (gate : OpKey) (kind : Option OpKind) → Grows e (complete_gate e gate kind)
  unfolding complete_gate
  complete_gate-Grows e gate none = omega arith
  complete_gate-Grows e gate (some kind) =
      let drawn = (draw_injection e kind).1 in
      let same = draw_injection-total e kind in
      elim (Bool-cases (draw_injection e kind).0) [
        | inl inject ↦ rw inject (omega (arith, insert_fixup-Grows drawn gate))
        | inr clean ↦ rw clean (omega (arith, finish_gate-Grows drawn gate kind))
      ]

  start_factory-total : (e : Engine W) (id c : ℕ) → (start_factory e id c).total_ops ≡ e.total_ops
  unfolding start_factory begin_production
  start_factory-total e id c = elim (Option-cases (get_elem? e.factories id)) [
    | inl missing ↦ rw (missing, start_factory) refl
    | inr (f, found) ↦ elim (Option-cases (get_elem? e.factory_rngs id)) [
      | inl missing ↦ rw (found, missing, start_factory) refl
      | inr (rng, drawn) ↦ rw (found, drawn, start_factory) refl
    ]
  ]

  store_state-total : (e : Engine W) (c : ℕ) → (store_state e c).total_ops ≡ e.total_ops
  unfolding store_state try_enqueue
  store_state-total e c = ground arith

  handle-Grows : (e : Engine W) (c : ℕ) (event : EngineEvent) → Grows e (handle e c event)
  unfolding handle mark_completed
  handle-Grows e c (EngineEvent.factory_produced id) =
      let logged = log c (TraceEventKind.factory_produced id) e in
      omega (arith, start_factory-total (store_state logged c) id c, store_state-total logged c)
  handle-Grows e c (EngineEvent.factory_failed id) =
      omega (arith, start_factory-total (log c (TraceEventKind.factory_failed id) e) id c)
  handle-Grows e c (EngineEvent.gate_completed gate) =
      complete_gate-Grows (mark_completed e c gate) gate (kind_of e gate)
  handle-Grows e c (EngineEvent.hook_activation gate hook_id outcome) =
      omega (arith, activate_hook-total e gate hook_id outcome)

  process_event-Grows : (e : Engine W) (ev : TimedEvent) → Grows e (process_event e ev)
  unfolding process_event
  process_event-Grows e ev = handle-Grows e ev.cycle ev.event

  launch-total :
      (e : Engine W) (gate : OpKey) → (schedule_gate_completion e gate).total_ops ≡ e.total_ops
  unfolding schedule_gate_completion total_gate_cost log_routing
  launch-total e gate = ground arith

  serve-total :
      (e : Engine W) (gate : OpKey) (wait : ℕ) → (serve e gate wait).total_ops ≡ e.total_ops
  unfolding serve
  serve-total e gate wait = launch-total _ gate

  schedule_one-total : (e : Engine W) (gate : OpKey) → (schedule_one e gate).total_ops ≡ e.total_ops
  unfolding schedule_one try_dequeue
  schedule_one-total e gate = grind (arith, launch-total, serve-total)

  schedule_all-total :
      (gates : List OpKey) (e : Engine W) → (schedule_all gates e).total_ops ≡ e.total_ops
  unfolding schedule_all
  schedule_all-total [] e = refl
  schedule_all-total (gate ∷ rest) e =
      schedule_all-total rest _ ∙ schedule_one-total (record e { ready_set = rest }) gate

  serve_all-total :
      (stalled : List (OpKey × ℕ)) (e : Engine W) → (serve_all stalled e).total_ops ≡ e.total_ops
  unfolding serve_all try_dequeue
  serve_all-total [] e = refl
  serve_all-total ((gate, since) ∷ rest) e = elim (Bool-cases (ltb 0 e.buffer.occupancy)) [
    | inl taken ↦ rw taken (serve_all-total rest _ ∙ serve-total _ gate _)
    | inr empty ↦ rw empty refl
  ]

  settle-total : (e : Engine W) → (settle e).total_ops ≡ e.total_ops
  unfolding settle schedule_ready_gates try_serve_stalled_gates
  settle-total e =
      schedule_all-total (serve_all e.stalled_gates e).ready_set _
      ∙ serve_all-total e.stalled_gates e

  drain-Grows : (fuel c : ℕ) (e e' : Engine W) → drain fuel c e ≡ some e' → Grows e e'
  drain-Grows zero c e e' r = elim (Option-cases (next_due c e.event_queue)) [
    | inl over ↦ subst (Grows e) (eq_of_some (sym (drain_over zero c e over) ∙ r)) (omega arith)
    | inr ((ev, rest), found) ↦ absurd (cc (drain_short c e ev rest found))
  ]
  drain-Grows (suc fuel) c e e' r = elim (Option-cases (next_due c e.event_queue)) [
    | inl over ↦
        subst (Grows e) (eq_of_some (sym (drain_over (suc fuel) c e over) ∙ r)) (omega arith)
    | inr ((ev, rest), found) ↦
        let popped = record e { event_queue = rest } in
        let next = process_event popped ev in
        Grows-trans e next e' (process_event-Grows popped ev)
          (drain-Grows fuel c next e' (sym (drain_next fuel c e ev rest found) ∙ r))
  ]

  pub step-Grows : (fuel : ℕ) (e e' : Engine W) → step fuel e ≡ some e' → Grows e e'
  step-Grows fuel e e' r = elim (peek-cases e.event_queue) [
    | inl (empty, idle) ↦
        subst (Grows e) (eq_of_some (sym (step_idle fuel e idle) ∙ r)) (omega arith)
    | inr (ev, rest, head, next) ↦
        elim (Option-cases (drain fuel ev.cycle (record e { current_cycle = ev.cycle }))) [
          | inl short ↦ absurd (cc (step_at fuel e ev.cycle none next short))
          | inr (drained, ends) ↦
              subst (Grows e)
                (eq_of_some (sym (step_at fuel e ev.cycle (some drained) next ends) ∙ r))
                (omega (arith, drain-Grows fuel ev.cycle _ drained ends, settle-total drained))
        ]
  ]
