-- ===== src/Engine/Dispatch.antt =====
-- Event processing and gate scheduling (crates/pirx-core/src/engine/dispatch.rs).
use Prim.Native.Nat.{bit_or}
use pirx.Common.{
  ℕ, ◌+◌, ◌-◌, ◌*◌, ◌%◌, min, Bool, true, false, List, [], ◌∷◌, ◌++◌, Option, none, some, length,
  get_elem?, set, ltb, ◌==◌, if◌then◌else◌, OpKey, update, sat_add64, sat_add32, u32_max,
}
use pirx.World.{World}
use pirx.Ir.{MeasurementHookId, MeasurementOutcome}
use pirx.Buffer.{try_enqueue, try_dequeue}
use pirx.Events.{EngineEvent, TimedEvent, schedule}
use pirx.Routing.{latency}
use pirx.Trace.{TraceEventKind, synthetic_id_flag}
use pirx.Factory.{FactoryOutcome, schedule_production}
use pirx.Dag.{OpKind, OpData, release_successors, activate_ops, inject_fixup}
use pirx.Dag
use pirx.Engine.State.{Engine, log, trace_id}

abbrev pub ordinal : MeasurementOutcome → ℕ
ordinal MeasurementOutcome.zero = 0
ordinal MeasurementOutcome.one = 1

-- At 64 bits: a u32 id twice, and one, does not saturate.
unfoldable pub hook_table_index : MeasurementHookId → MeasurementOutcome → ℕ
hook_table_index hook_id outcome = hook_id * 2 + ordinal outcome

-- The cycle and the event that a production attempt ends with.
unfoldable pub outcome_event : ℕ → FactoryOutcome → ℕ × EngineEvent
outcome_event id (FactoryOutcome.produced c) = (c, EngineEvent.factory_produced id)
outcome_event id (FactoryOutcome.failed c) = (c, EngineEvent.factory_failed id)

unfoldable pub needs_magic_state : Option OpData → Bool
needs_magic_state none = false
needs_magic_state (some op) = elim op.kind [
  | OpKind.t_gate ↦ true
  | OpKind.rotation i ↦ true
  | _ ↦ false
]

-- The record of a completed gate.
abbrev pub completion : Option OpKind → ℕ → TraceEventKind
completion (some OpKind.fixup) gate_id = TraceEventKind.fixup_completed gate_id
completion kind gate_id = TraceEventKind.gate_completed gate_id

module _ {W : World} where
  -- The outcome of `schedule_production` is stored: the generator's new state, the trace, the event.
  unfoldable pub begin_production : Engine W → ℕ → ℕ → FactoryOutcome × W.Rng → Engine W
  unfolding outcome_event
  begin_production e factory_id current_cycle (outcome, rng) =
      let (event_cycle, event) = outcome_event factory_id outcome in
      let e' = record e { factory_rngs = set e.factory_rngs factory_id rng } in
      let logged = log current_cycle (TraceEventKind.factory_started factory_id) e' in
      record logged { event_queue = schedule e.event_queue event_cycle event }

  -- A factory has a generator of its own, so the second lookup finds one. (The source indexes, and
  -- would panic without one.)
  unfoldable pub start_factory : Engine W → ℕ → ℕ → Engine W
  unfolding begin_production
  start_factory e factory_id current_cycle = elim (get_elem? e.factories factory_id) [
    | none ↦ e
    | some factory ↦ elim (get_elem? e.factory_rngs factory_id) [
      | none ↦ e
      | some rng ↦
          begin_production e factory_id current_cycle
            (schedule_production W factory current_cycle rng)
    ]
  ]

  -- The completion test that the engine hands to `activate_ops`.
  abbrev pub has_completed : Engine W → OpKey → Bool
  has_completed e k = elim (e.completed_set k) [ none ↦ false | some _ ↦ true ]

  unfoldable pub activate_targets : Engine W → OpKey → List OpKey → Engine W
  activate_targets e gate [] = e
  activate_targets e gate (key ∷ keys) =
      let (dag, ready) = activate_ops (key ∷ keys) (has_completed e) (e.dag, e.ready_set) in
      log e.current_cycle
        (TraceEventKind.ops_activated (trace_id e gate) (length (key ∷ keys) % 4294967296))
        (record e { dag = dag; ready_set = ready })

  unfoldable pub activate_hook :
      Engine W → OpKey → MeasurementHookId → MeasurementOutcome → Engine W
  unfolding activate_targets
  activate_hook e gate hook_id outcome =
      elim (get_elem? e.hook_table (hook_table_index hook_id outcome)) [
        | none ↦ e
        | some to_activate ↦ activate_targets e gate to_activate
      ]

  -- The ops to activate count as soon as the outcome is known.
  unfoldable pub count_activated : Engine W → MeasurementHookId → MeasurementOutcome → Engine W
  count_activated e hook_id outcome =
      elim (get_elem? e.hook_table (hook_table_index hook_id outcome)) [
        | none ↦ e
        | some to_activate ↦ record e { total_ops = sat_add64 e.total_ops (length to_activate) }
      ]

  unfoldable pub draw_outcome : Engine W → MeasurementOutcome × Engine W
  draw_outcome e =
      let (one, rng) = W.random_bool e.rng in
      (if one then MeasurementOutcome.one else MeasurementOutcome.zero, record e { rng = rng })

  -- Without delay the hook is activated at once, else an event will do it.
  unfoldable pub feed_back : Engine W → OpKey → MeasurementHookId → MeasurementOutcome → Engine W
  feed_back e gate hook_id outcome =
      if e.feedback_delay == 0 then activate_hook e gate hook_id outcome else record e {
        event_queue =
            schedule e.event_queue (sat_add64 e.current_cycle e.feedback_delay)
              (EngineEvent.hook_activation gate hook_id outcome);
      }

  unfoldable pub dispatch_hook : Engine W → OpKey → MeasurementHookId → Engine W
  unfolding draw_outcome
  dispatch_hook e gate hook_id =
      let (outcome, drawn) = draw_outcome e in
      let logged = log e.current_cycle (TraceEventKind.measured (trace_id e gate) outcome) drawn in
      feed_back (count_activated logged hook_id outcome) gate hook_id outcome

  -- Whether the completed gate suffered an injection error; only T-gates and rotations draw.
  unfoldable pub draw_injection : Engine W → OpKind → Bool × Engine W
  draw_injection e kind =
      let (x, rng) = W.random_f64 e.rng in
      let drawn : Bool × Engine W =
        (W.f64_lt x e.injection_error_probability, record e { rng = rng }) in
      elim kind [ OpKind.t_gate ↦ drawn | OpKind.rotation i ↦ drawn | _ ↦ (false, e) ]

  -- The branch of an injection error in `complete_gate`.
  unfoldable pub insert_fixup : Engine W → OpKey → Engine W
  insert_fixup e gate =
      let gate_id = trace_id e gate in
      let erred = log e.current_cycle (TraceEventKind.injection_error gate_id) e in
      let (dag, ready, fixup_key) = inject_fixup W erred.dag gate erred.ready_set in
      let synthetic_id = bit_or synthetic_id_flag e.next_synthetic_id in
      let inserted =
        log e.current_cycle (TraceEventKind.fixup_inserted synthetic_id gate_id) (record erred {
          dag = dag;
          ready_set = ready;
          next_synthetic_id = sat_add64 e.next_synthetic_id 1;
          key_to_op_id = update e.key_to_op_id fixup_key synthetic_id;
        }) in
      record inserted { total_ops = sat_add64 e.total_ops 1 }

  unfoldable pub release_gate : Engine W → OpKey → Engine W
  release_gate e gate =
      let (dag, ready) = release_successors e.dag gate e.ready_set in
      record e { dag = dag; ready_set = ready }

  -- The other branch: the hook of a measurement, then the successors.
  unfoldable pub finish_gate : Engine W → OpKey → OpKind → Engine W
  unfolding release_gate
  finish_gate e gate (OpKind.measurement (some hook_id)) =
      release_gate (dispatch_hook e gate hook_id) gate
  finish_gate e gate kind = release_gate e gate

  unfoldable pub complete_gate : Engine W → OpKey → Option OpKind → Engine W
  unfolding draw_injection
  complete_gate e gate none = e
  complete_gate e gate (some kind) =
      let (inject, drawn) = draw_injection e kind in
      if inject then insert_fixup drawn gate else finish_gate drawn gate kind

  abbrev pub kind_of : Engine W → OpKey → Option OpKind
  kind_of e gate = elim (Dag.get e.dag gate) [ none ↦ none | some op ↦ some op.kind ]

  -- What `process_event` records of a completed gate before `complete_gate`.
  unfoldable pub mark_completed : Engine W → ℕ → OpKey → Engine W
  mark_completed e cycle gate =
      let logged = log cycle (completion (kind_of e gate) (trace_id e gate)) e in
      record logged {
        completed_ops = sat_add64 e.completed_ops 1;
        completed_set = elim e.hook_table [
          | [] ↦ e.completed_set
          | _ ∷ _ ↦ update e.completed_set gate tt
        ];
      }

  -- A produced state enters the buffer, or is wasted.
  unfoldable pub store_state : Engine W → ℕ → Engine W
  store_state e cycle =
      let (buffer, stored) = try_enqueue e.buffer in
      if stored
      then log cycle (TraceEventKind.buffer_enqueue buffer.occupancy) (record e { buffer = buffer })
      else log cycle TraceEventKind.buffer_full e

  unfoldable pub handle : Engine W → ℕ → EngineEvent → Engine W
  handle e cycle (EngineEvent.factory_produced id) =
      start_factory (store_state (log cycle (TraceEventKind.factory_produced id) e) cycle) id cycle
  handle e cycle (EngineEvent.factory_failed id) =
      start_factory (log cycle (TraceEventKind.factory_failed id) e) id cycle
  handle e cycle (EngineEvent.gate_completed gate) =
      complete_gate (mark_completed e cycle gate) gate (kind_of e gate)
  handle e cycle (EngineEvent.hook_activation gate hook_id outcome) =
      activate_hook e gate hook_id outcome

  unfoldable pub process_event : Engine W → TimedEvent → Engine W
  unfolding handle
  process_event e ev = handle e ev.cycle ev.event

  -- The base cost and the routing cost of a gate.
  unfoldable pub gate_costs : Engine W → OpKey → ℕ × ℕ
  gate_costs e gate = elim (Dag.get e.dag gate) [
    | none ↦ (1, 0)
    | some op ↦ (op.cycle_cost, latency e.routing op.qubits e.position_index)
  ]

  unfoldable pub log_routing : Engine W → OpKey → ℕ → Engine W
  log_routing e gate routing_cost =
      let gate_id = trace_id e gate in
      let started = log e.current_cycle (TraceEventKind.routing_started gate_id) e in
      if ltb 0 routing_cost
      then log e.current_cycle (TraceEventKind.routing_completed gate_id routing_cost) started
      else e

  unfoldable pub total_gate_cost : Engine W → OpKey → ℕ × Engine W
  unfolding gate_costs log_routing
  total_gate_cost e gate =
      let (base_cost, routing_cost) = gate_costs e gate in
      (sat_add32 base_cost routing_cost, log_routing e gate routing_cost)

  unfoldable pub schedule_gate_completion : Engine W → OpKey → Engine W
  unfolding total_gate_cost
  schedule_gate_completion e gate =
      let (cost, routed) = total_gate_cost e gate in
      record routed {
        event_queue =
            schedule routed.event_queue (sat_add64 routed.current_cycle cost)
              (EngineEvent.gate_completed gate);
      }

  -- A gate gets the state that was just taken out of the buffer.
  unfoldable pub serve : Engine W → OpKey → ℕ → Engine W
  serve e gate wait =
      let taken = log e.current_cycle (TraceEventKind.buffer_dequeue e.buffer.occupancy) e in
      let served = log e.current_cycle (TraceEventKind.gate_served (trace_id e gate) wait) taken in
      schedule_gate_completion
        (record served { magic_states_consumed = sat_add64 e.magic_states_consumed 1 }) gate

  -- One gate of the ready set; it has left the set.
  unfoldable pub schedule_one : Engine W → OpKey → Engine W
  schedule_one e gate =
      let gate_id = trace_id e gate in
      let ready = log e.current_cycle (TraceEventKind.gate_ready gate_id) e in
      let (buffer, taken) = try_dequeue ready.buffer in
      let stalled =
        log e.current_cycle (TraceEventKind.gate_stalled gate_id)
          (record ready { stalled_gates = e.stalled_gates ++ (gate, e.current_cycle) ∷ [] }) in
      let scheduled = log e.current_cycle (TraceEventKind.gate_scheduled gate_id) ready in
      if needs_magic_state (Dag.get e.dag gate)
      then (if taken then serve (record ready { buffer = buffer }) gate 0 else stalled)
      else schedule_gate_completion scheduled gate

  -- `while let Some(gate) = self.ready_set.pop()`: the body adds nothing to the set.
  unfoldable pub schedule_all : List OpKey → Engine W → Engine W
  schedule_all [] e = e
  schedule_all (gate ∷ rest) e =
      schedule_all rest (schedule_one (record e { ready_set = rest }) gate)

  unfoldable pub schedule_ready_gates : Engine W → Engine W
  unfolding schedule_all
  schedule_ready_gates e = schedule_all e.ready_set e

  -- `while let Some(&(gate, stall_cycle)) = self.stalled_gates.front()`.
  unfoldable pub serve_all : List (OpKey × ℕ) → Engine W → Engine W
  serve_all [] e = e
  serve_all ((gate, stall_cycle) ∷ rest) e =
      let (buffer, taken) = try_dequeue e.buffer in
      let served =
        serve (record e { buffer = buffer; stalled_gates = rest }) gate
          (min (e.current_cycle - stall_cycle) u32_max) in
      let others = serve_all rest served in if taken then others else e

  unfoldable pub try_serve_stalled_gates : Engine W → Engine W
  unfolding serve_all
  try_serve_stalled_gates e = serve_all e.stalled_gates e
