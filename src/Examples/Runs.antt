-- ===== src/Examples/Runs.antt =====
-- The engine on the small circuit (crates/pirx-core/src/engine/).
use pirx.Common.{
  ℕ, ◌≡◌, refl, [], Option, none, some, arith, Result, ok, err, length, Bool, true, false,
}
use pirx.Common.{count_if, count_if-append, min, ◌≤◌, u64_max, ◌∷◌}
use pirx.World.{KeysAreVisited}
use pirx.Trace.Tally.{is_completion}
use pirx.Dag.Actives.{active_ops}
use pirx.Engine.Completion.{new-run-Completes}
use pirx.Examples.Graphs.{counting-KeysAreFresh}
use pirx.Hw.{HardwareModel, FactoryConfig}
use pirx.Hw
use pirx.Buffer.{try_enqueue, try_dequeue}
use pirx.Buffer
use pirx.Events
use pirx.Events.{EventQueue, schedule, pop, peek_cycle, push_heap, cmp}
use pirx.Trace.{Trace, finish, finish_truncated, append}
use pirx.Trace
use pirx.Routing.{from_config, build_position_index}
use pirx.Factory.{create_factories, cultivate, schedule_production}
use pirx.Dag.{initial_ready_set, active_op_count}
use pirx.Dag
use pirx.Dag.Build.{from_circuit, empty_build}
use pirx.Dag.Build
use pirx.Engine.Dispatch.{
  process_event, start_factory, store_state, schedule_ready_gates, outcome_event,
  try_serve_stalled_gates, handle, mark_completed, complete_gate, finish_gate, dispatch_hook,
  feed_back, activate_hook, count_activated, hook_table_index, schedule_all, schedule_one, serve,
  serve_all, schedule_gate_completion, total_gate_cost, log_routing, needs_magic_state,
  insert_fixup, release_gate, draw_injection, draw_outcome, begin_production, activate_targets,
}
use pirx.Routing
use pirx.Dag.{release_successors, activate_ops, inject_fixup}
use pirx.Engine.State.{Engine, EngineError, is_complete, trace_id}
use pirx.Engine.Construct.{
  new, assemble, fill_hook_table, hook_count, started, seed_factories, start_factories,
  lacks_positions, reverse_ids,
}
use pirx.Engine.Run.{step, run, hits_limit, settle, drain}
use pirx.Engine.Soundness.{IsConsistent}
use pirx.Engine.Start.{new-run-IsConsistent}
use pirx.Examples.{counting_world, small_circuit, small_hardware, cultivating, small_config}

abbrev pub unused : FactoryConfig ℕ → Engine counting_world
unused f =
    assemble counting_world 0 small_circuit (small_hardware f) small_config
      (empty_build counting_world 1) []

abbrev pub value {ℓ} : {A : Type ℓ} → Result EngineError A → A → A
value (ok a) d = a
value (err e) d = d

abbrev pub small_engine : FactoryConfig ℕ → Engine counting_world
small_engine f =
    value (new counting_world 0 small_circuit (small_hardware f) small_config) (unused f)

pub new-small :
    new counting_world 0 small_circuit (small_hardware cultivating) small_config
    ≡ ok (small_engine cultivating)
unfolding new lacks_positions from_circuit fill_hook_table hook_count Hw.count Build.insert_id
new-small = refl

abbrev pub value_or {ℓ} : {A : Type ℓ} → Option A → A → A
value_or none d = d
value_or (some a) d = a

abbrev pub returns {ℓ} : {A : Type ℓ} → Option A → Bool
returns none = false
returns (some a) = true

pub some_value {ℓ} :
    {A : Type ℓ} (o : Option A) (d : A) → returns o ≡ true → o ≡ some (value_or o d)
some_value none d h = cc
some_value (some a) d h = refl

abbrev pub small_trace : Trace ℕ
small_trace = value_or (run 40 40 (small_engine cultivating)) (finish Trace.new 0 0 0 0)

-- The run of the small circuit returns.
returns-run : returns (run 40 40 (small_engine cultivating)) ≡ true
unfolding run new lacks_positions from_circuit fill_hook_table hook_count Hw.count Build.insert_id
    step peek_cycle is_complete hits_limit finish finish_truncated assemble active_op_count
    initial_ready_set started start_factories create_factories seed_factories schedule push_heap
    Events.new Trace.new append schedule_production try_enqueue try_dequeue Buffer.new reverse_ids
    trace_id settle drain pop Routing.latency from_config build_position_index Dag.get
    release_successors activate_ops inject_fixup process_event start_factory store_state
    schedule_ready_gates outcome_event try_serve_stalled_gates handle mark_completed complete_gate
    finish_gate dispatch_hook feed_back activate_hook count_activated hook_table_index schedule_all
    schedule_one serve serve_all schedule_gate_completion total_gate_cost log_routing
    needs_magic_state insert_fixup release_gate draw_injection draw_outcome begin_production
    activate_targets cultivate
returns-run = refl

pub run-small : run 40 40 (small_engine cultivating) ≡ some small_trace
run-small = some_value _ _ returns-run

-- It completes all operations, with the hook's.
complete-small : (length small_trace.events ≡ 24) × (small_trace.truncated ≡ false)
unfolding run new lacks_positions from_circuit fill_hook_table hook_count Hw.count Build.insert_id
    step peek_cycle is_complete hits_limit finish finish_truncated assemble active_op_count
    initial_ready_set started start_factories create_factories seed_factories schedule push_heap
    Events.new Trace.new append schedule_production try_enqueue try_dequeue Buffer.new reverse_ids
    trace_id settle drain pop Routing.latency from_config build_position_index Dag.get
    release_successors activate_ops inject_fixup process_event start_factory store_state
    schedule_ready_gates outcome_event try_serve_stalled_gates handle mark_completed complete_gate
    finish_gate dispatch_hook feed_back activate_hook count_activated hook_table_index schedule_all
    schedule_one serve serve_all schedule_gate_completion total_gate_cost log_routing
    needs_magic_state insert_fixup release_gate draw_injection draw_outcome begin_production
    activate_targets cultivate
complete-small = (refl, refl)

new-run-IsConsistent_example : IsConsistent 0 2 small_trace
new-run-IsConsistent_example =
    new-run-IsConsistent counting_world 0 small_circuit (small_hardware cultivating) small_config
      (small_engine cultivating) 40 40 small_trace (λ rng. ground arith) new-small run-small

-- The arena of the examples puts a key last.
counting-KeysAreVisited : KeysAreVisited counting_world
counting-KeysAreVisited p k ks = omega (arith, count_if-append p ks (k ∷ []))

new-run-Completes_example :
    min (active_ops small_circuit.ops) u64_max
    ≤ count_if (λ ev. is_completion ev.kind) small_trace.events
new-run-Completes_example =
    new-run-Completes counting_world 0 small_circuit (small_hardware cultivating) small_config
      (small_engine cultivating) 40 40 small_trace counting-KeysAreFresh counting-KeysAreVisited
      (λ rng. ground arith) new-small run-small complete-small.1
