-- ===== src/Engine/Construct.antt =====
-- `Engine::new` (crates/pirx-core/src/engine/mod.rs).
use pirx.Common.{
  ℕ, zero, suc, ◌+◌, ◌*◌, ◌%◌, max, Bool, true, false, List, [], ◌∷◌, ◌++◌, Option, none, some,
  length, set, replicate, ◌==◌, OpKey, SecondaryMap, update, get_or, Result, ok, err, ◌>>=◌,
}
use pirx.World.{World}
use pirx.Ir.{OpId, MeasurementHook, ConditionalActivation, ProfilerCircuit}
use pirx.Hw.{HardwareModel, RoutingConfig}
use pirx.Hw
use pirx.Buffer
use pirx.Events.{EventQueue, schedule}
use pirx.Events
use pirx.Routing.{from_config, build_position_index}
use pirx.Trace.{TraceCollector, TraceEventKind}
use pirx.Trace
use pirx.Factory.{FactoryKind, FactoryOutcome, create_factories, schedule_production}
use pirx.Dag.{initial_ready_set, active_op_count}
use pirx.Dag.Build.{DagBuild, DagError, IdToKey, lookup_id, from_circuit}
use pirx.Engine.State.{
  Engine, EngineConfig, EngineError, no_factories, zero_buffer, missing_qubit_positions,
  dangling_hook_target, from_dag_error,
}
use pirx.Engine.Dispatch.{hook_table_index, outcome_event}

-- The reverse of the id map.
unfoldable pub reverse_ids : IdToKey → SecondaryMap ℕ → SecondaryMap ℕ
reverse_ids [] m = m
reverse_ids ((op_id, key) ∷ rest) m = reverse_ids rest (update m key op_id)

-- `map_err(EngineError::from)`, which `?` applies.
abbrev pub lift {ℓ} : {A : Type ℓ} → Result DagError A → Result EngineError A
lift (ok a) = ok a
lift (err e) = err (from_dag_error e)

abbrev pub check : Bool → EngineError → Result EngineError (Unit {0})
check true e = err e
check false e = ok tt

-- `matches!(hw.routing, RoutingConfig::Manhattan { .. }) && circuit.qubit_positions.is_none()`.
unfoldable pub lacks_positions {ℓ} : {A : Type ℓ} → RoutingConfig → Option A → Bool
lacks_positions (RoutingConfig.manhattan w h hop) none = true
lacks_positions routing positions = false

-- The length of the hook table: twice the largest id and one.
unfoldable pub hook_count : List MeasurementHook → ℕ
hook_count [] = 0
hook_count (h ∷ hooks) = max (h.id + 1) (hook_count hooks)

unfoldable pub resolve_targets : IdToKey → ℕ → List OpId → Result EngineError (List OpKey)
resolve_targets ids hook_id [] = ok []
resolve_targets ids hook_id (op_id ∷ op_ids) =
    let rest = resolve_targets ids hook_id op_ids in
    elim (lookup_id ids op_id) [
      | none ↦ err (dangling_hook_target hook_id op_id)
      | some key ↦ rest >>= λ keys. ok (key ∷ keys)
    ]

unfoldable pub fill_activations :
    IdToKey
    → ℕ
    → List ConditionalActivation
    → List (List OpKey)
    → Result EngineError (List (List OpKey))
unfolding resolve_targets
fill_activations ids hook_id [] table = ok table
fill_activations ids hook_id (a ∷ rest) table =
    resolve_targets ids hook_id a.ops_to_activate >>= λ keys.
    fill_activations ids hook_id rest (set table (hook_table_index hook_id a.outcome) keys)

unfoldable pub fill_hook_table :
    IdToKey → List MeasurementHook → List (List OpKey) → Result EngineError (List (List OpKey))
unfolding fill_activations
fill_hook_table ids [] table = ok table
fill_hook_table ids (h ∷ hooks) table =
    fill_activations ids h.id h.activations table >>= λ table'. fill_hook_table ids hooks table'

-- `seed.wrapping_add(i).wrapping_mul(0x9E37_79B9_7F4A_7C15)`.
abbrev pub factory_seed : ℕ → ℕ → ℕ
factory_seed seed i =
    (seed + i) % 18446744073709551616 * 0x9E37_79B9_7F4A_7C15 % 18446744073709551616

module _ (W : World) where
  unfoldable pub seed_factories : ℕ → ℕ → ℕ → List W.Rng
  seed_factories seed i zero = []
  seed_factories seed i (suc left) =
      W.seed_from_u64 (factory_seed seed i) ∷ seed_factories seed (i + 1) left

  -- The trace, the queue and the generators while the factories are started.
  pub record Startup : Type 0 where
    pub trace : TraceCollector
    pub event_queue : EventQueue
    pub factory_rngs : List W.Rng

  -- The first attempt of a factory, with the generator's new state.
  unfoldable pub begin_first : ℕ → Startup → FactoryOutcome × W.Rng → Startup
  begin_first factory_id s (outcome, rng) =
      let (event_cycle, event) = outcome_event factory_id outcome in
      record {
        trace = Trace.append s.trace 0 (TraceEventKind.factory_started factory_id);
        event_queue = schedule s.event_queue event_cycle event;
        factory_rngs = s.factory_rngs ++ rng ∷ [];
      }

  -- The body of the loop that starts the factories: factory `id` has the generator `rng`.
  unfoldable pub start_one : ℕ → FactoryKind W.F64 → W.Rng → Startup → Startup
  unfolding begin_first
  start_one id factory rng s = begin_first (id % 65536) s (schedule_production W factory 0 rng)

  unfoldable pub start_factories : ℕ → List (FactoryKind W.F64) → List W.Rng → Startup → Startup
  unfolding start_one
  start_factories id (f ∷ fs) (rng ∷ rngs) s =
      start_factories (id + 1) fs rngs (start_one id f rng s)
  start_factories id fs rngs s = s

  unfoldable pub started : List (FactoryKind W.F64) → ℕ → Startup
  started factories seed =
      start_factories 0 factories (seed_factories seed 0 (length factories))
        (record { trace = Trace.new; event_queue = Events.new; factory_rngs = [] })

  -- The state that `new` returns. `QecConfig::logical_error_rate` computes with `powf`: it is an
  -- argument.
  unfoldable pub assemble :
      W.F64
      → ProfilerCircuit W.F64
      → HardwareModel W.F64
      → EngineConfig
      → DagBuild W.F64
      → List (List OpKey)
      → Engine W
  assemble logical_error_rate circuit hw config build table =
      let factories = create_factories hw.factory hw.qec in
      let startup = started factories config.seed in
      record {
        dag = build.dag;
        ready_set = initial_ready_set build.dag;
        injection_error_probability = hw.injection.error_probability;
        factories = factories;
        buffer = Buffer.new hw.buffer.capacity hw.buffer.preload;
        routing = from_config hw.routing;
        position_index =
            build_position_index (get_or circuit.qubit_positions []) circuit.qubit_count;
        event_queue = startup.event_queue;
        current_cycle = 0;
        rng = W.seed_from_u64 config.seed;
        factory_rngs = startup.factory_rngs;
        seed = config.seed;
        max_cycles = config.max_cycles;
        feedback_delay =
            W.ceil_u64 (W.f64_div hw.timing.classical_feedback_latency_us hw.timing.cycle_time_us);
        stalled_gates = [];
        hook_table = table;
        completed_set = λ _. none;
        total_ops = active_op_count build.dag;
        completed_ops = 0;
        key_to_op_id = reverse_ids build.id_to_key (λ _. none);
        next_synthetic_id = 0;
        p_logical = logical_error_rate;
        magic_states_consumed = 0;
        trace = startup.trace;
      }

  unfoldable pub new :
      W.F64
      → ProfilerCircuit W.F64
      → HardwareModel W.F64
      → EngineConfig
      → Result EngineError (Engine W)
  new logical_error_rate circuit hw config = do
    _ ← check (Hw.count hw.factory == 0) no_factories
    _ ← check (hw.buffer.capacity == 0) zero_buffer
    build ← lift (from_circuit W circuit hw)
    _ ← check (lacks_positions hw.routing circuit.qubit_positions) missing_qubit_positions
    table ←
        fill_hook_table build.id_to_key circuit.hooks (replicate (hook_count circuit.hooks * 2) [])
    ok (assemble logical_error_rate circuit hw config build table)
