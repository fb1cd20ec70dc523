-- ===== src/Examples/Steps.antt =====
-- One step of the engine on the small circuit (crates/pirx-core/src/engine/mod.rs).
use pirx.Common.{
  ◌≡◌, ◌<◌, ◌≤◌, refl, [], ◌∷◌, some, arith, length, All, u64_max, subst, sym, ◌⊎◌, true,
}
use pirx.Hw.{HardwareModel, FactoryConfig}
use pirx.Hw
use pirx.Buffer.{try_enqueue, try_dequeue}
use pirx.Buffer
use pirx.Events
use pirx.Events.{EventQueue, schedule, pop, peek_cycle, push_heap, cmp}
use pirx.Trace.{Trace, finish, finish_truncated, append}
use pirx.Trace
use pirx.Routing.{from_config, build_position_index}
use pirx.Factory.{create_factories, cultivate, schedule_production}
use pirx.Dag.{initial_ready_set, active_op_count}
use pirx.Dag
use pirx.Dag.Build.{from_circuit, empty_build}
use pirx.Dag.Build
use pirx.Engine.Dispatch.{
  process_event, start_factory, store_state, schedule_ready_gates, outcome_event,
  try_serve_stalled_gates, handle, mark_completed, complete_gate, finish_gate, dispatch_hook,
  feed_back, activate_hook, count_activated, hook_table_index, schedule_all, schedule_one, serve,
  serve_all, schedule_gate_completion, total_gate_cost, log_routing, needs_magic_state,
  insert_fixup, release_gate, draw_injection, draw_outcome, begin_production, activate_targets,
}
use pirx.Routing
use pirx.Dag.{release_successors, activate_ops, inject_fixup}
use pirx.Engine.State.{Engine, trace_id}
use pirx.Engine.Construct.{
  new, assemble, fill_hook_table, hook_count, started, seed_factories, start_factories,
  lacks_positions, reverse_ids,
}
use pirx.Engine.Run.{step, settle, drain}
use pirx.Examples.{
  counting_world, small_circuit, small_hardware, distilling, cultivating, small_config,
}
use pirx.Engine.Construct.{begin_first, start_one}
use pirx.Events.{TimedEvent, EngineEvent}
use pirx.Engine.Moves.{view}
use pirx.Engine.Soundness.{Accounts, step-Accounts}
use pirx.Engine.Start.{new-Accounts, create_factories-ArePunctual}
use pirx.Engine.Refinement.{Runs}
use pirx.Engine.Refinement.Handlers.{ArePunctual, process_event-Runs}
use pirx.Engine.Refinement.Loop.{Steps, step-Steps}
use pirx.Engine.Fairness.{
  IsServed, ServesOldest, step-IsServed, try_serve_stalled_gates-ServesOldest,
}
use pirx.Engine.Progress.{ArePrompt}
use pirx.Engine.Progress.Phase1.{step_returns}
use pirx.Engine.Progress.Prompt.{create_factories-ArePrompt}
use pirx.Examples.{small_qec}
use pirx.Examples.Runs.{small_engine, value_or, returns, new-small, some_value}

abbrev start : Engine counting_world
start = small_engine cultivating

abbrev first : TimedEvent
first = record { cycle = 3; seq = 0; event = EngineEvent.factory_produced 0 }

start-heap : start.event_queue.heap ≡ first ∷ []
unfolding new lacks_positions from_circuit fill_hook_table hook_count Hw.count Build.insert_id
    assemble started start_factories create_factories seed_factories schedule push_heap Events.new
    schedule_production cultivate outcome_event cmp begin_first start_one Build.add_ops
start-heap = refl

start-factories : start.factories ≡ create_factories cultivating small_qec
unfolding new lacks_positions from_circuit fill_hook_table hook_count Hw.count Build.insert_id
    assemble started start_factories create_factories seed_factories schedule push_heap Events.new
    schedule_production cultivate outcome_event cmp begin_first start_one Build.add_ops
start-factories = refl

start-ArePunctual : ArePunctual counting_world start.factories
start-ArePunctual =
    subst (ArePunctual counting_world) (sym start-factories)
      (create_factories-ArePunctual counting_world cultivating small_qec (λ rng. ground arith))

start-ArePrompt : ArePrompt counting_world start.factories
start-ArePrompt =
    subst (ArePrompt counting_world) (sym start-factories)
      (create_factories-ArePrompt counting_world cultivating small_qec tt)

create_factories-ArePrompt_example :
    ArePrompt counting_world (create_factories distilling small_qec)
create_factories-ArePrompt_example =
    create_factories-ArePrompt counting_world distilling small_qec (omega arith, omega arith)

new-Accounts_example : Accounts 0 2 (view start)
new-Accounts_example =
    new-Accounts counting_world 0 small_circuit (small_hardware cultivating) small_config start
      (λ rng. ground arith) new-small

abbrev stepped : Engine counting_world
stepped = value_or (step 5 start) start

returns-step : returns (step 5 start) ≡ true
unfolding new lacks_positions from_circuit fill_hook_table hook_count Hw.count Build.insert_id step
    peek_cycle assemble active_op_count initial_ready_set started start_factories create_factories
    seed_factories schedule push_heap Events.new Trace.new append schedule_production try_enqueue
    try_dequeue Buffer.new reverse_ids trace_id settle drain pop Routing.latency from_config
    build_position_index Dag.get release_successors activate_ops inject_fixup process_event
    start_factory store_state schedule_ready_gates outcome_event try_serve_stalled_gates handle
    mark_completed complete_gate finish_gate dispatch_hook feed_back activate_hook count_activated
    hook_table_index schedule_all schedule_one serve serve_all schedule_gate_completion
    total_gate_cost log_routing needs_magic_state insert_fixup release_gate draw_injection
    draw_outcome begin_production activate_targets cultivate
returns-step = refl

step-start : step 5 start ≡ some stepped
step-start = some_value _ _ returns-step

start-Accounts : Accounts 0 2 (view start)
start-Accounts =
    new-Accounts counting_world 0 small_circuit (small_hardware cultivating) small_config start
      (λ rng. ground arith) new-small

step-Accounts_example : Accounts 0 2 (view stepped)
step-Accounts_example =
    step-Accounts 0 2 5 start stepped start-ArePunctual start-Accounts step-start

step-Steps_example : ((start.event_queue.heap ≡ []) × (stepped ≡ start)) ⊎ Steps start stepped
step-Steps_example = step-Steps 5 start stepped start-ArePunctual step-start

step-IsServed_example : IsServed stepped × (stepped.ready_set ≡ [])
step-IsServed_example =
    step-IsServed 5 start stepped first [] start-ArePunctual start-heap step-start

abbrev waiting_engine : Engine counting_world
waiting_engine = record start {
  stalled_gates = (1, 0) ∷ (2, 1) ∷ [];
  buffer = record { capacity = 2; occupancy = 1 };
}

try_serve_stalled_gates-ServesOldest_example :
    ServesOldest ((1, 0) ∷ (2, 1) ∷ []) waiting_engine (try_serve_stalled_gates waiting_engine)
try_serve_stalled_gates-ServesOldest_example = try_serve_stalled_gates-ServesOldest waiting_engine

step_returns_example : (e' : Engine counting_world) × (step 1 start ≡ some e')
step_returns_example =
    step_returns 1 start start-ArePunctual start-ArePrompt
      (subst (All (λ ev. ev.cycle < u64_max)) (sym start-heap) (omega arith, tt))
      (subst (λ h. length h ≤ 1) (sym start-heap) (omega arith))

-- The engine when the clock has come to its first event.
abbrev due_engine : Engine counting_world
due_engine = record start { current_cycle = 3 }

abbrev nothing_left : EventQueue
nothing_left = record start.event_queue { heap = [] }

pop-start : pop start.event_queue ≡ some (first, nothing_left)
unfolding new lacks_positions from_circuit fill_hook_table hook_count Hw.count Build.insert_id
    assemble started start_factories create_factories seed_factories schedule push_heap Events.new
    schedule_production cultivate outcome_event cmp begin_first start_one Build.add_ops pop
pop-start = refl

process_event-Runs_example :
    Runs due_engine (process_event (record due_engine { event_queue = nothing_left }) first)
process_event-Runs_example =
    process_event-Runs due_engine first nothing_left pop-start refl start-ArePunctual
