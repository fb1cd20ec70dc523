-- ===== src/Examples/Circuits.antt =====
-- The validation of circuits (crates/pirx-ir/src/validate.rs) on the small circuit, and the engine
-- behind it.
use pirx.Common.{ℕ, ◌≡◌, ◌↔◌, refl, ◌∷◌, some, Result, ok, err, arith, All}
use pirx.Ir.{ProfilerCircuit}
use pirx.Ir.Validate.{
  ValidationError, cyclic_dag, check_positions, check_qubit_positions, check_dep, collect_ids,
  check_qubits, check_hook_reference, index_of, check_target, check_hook, relax, relax_all, visit,
  sort, sources, add_edge, add_edges, adjacency, visited, check_against, check_references, validate,
}
use pirx.Ir.Validate.Index.{ids}
use pirx.Ir.Validate.WellFormed.{IsWellFormed, validate-IsWellFormed}
use pirx.Hw.{HardwareModel, count}
use pirx.Hw.Validate as HwValidate
use pirx.Trace.{Trace}
use pirx.Engine.Run.{run}
use pirx.Engine.Soundness.{IsConsistent}
use pirx.Engine.Termination.Simulation.{validated-new-run}
use pirx.Dag.Build.{DagBuild, from_circuit}
use pirx.Dag.Total.{Knows, from_circuit_ok}
use pirx.Engine.State.{Engine}
use pirx.Engine.Construct.{new, lacks_positions}
use pirx.Engine.Accepted.{validated-new}
use pirx.Examples.{counting_world, small_circuit, small_config, distilling}
use pirx.Examples.Queues.{percents, no_rounds_model, validate-no_rounds}

pub validate-small : validate small_circuit ≡ some (ok small_circuit)
unfolding validate check_references check_against collect_ids check_qubits check_qubit_positions
    check_positions check_dep check_hook_reference check_hook check_target index_of visited
    adjacency add_edges add_edge sources sort visit relax_all relax
validate-small = refl

-- The measurement before the T-gate, and behind it.
abbrev looping_circuit : ProfilerCircuit ℕ
looping_circuit = record small_circuit { deps = record { from = 20; to = 10 } ∷ small_circuit.deps }

validate-looping : validate looping_circuit ≡ some (err cyclic_dag)
unfolding validate check_references check_against collect_ids check_qubits check_qubit_positions
    check_positions check_dep check_hook_reference check_hook check_target index_of visited
    adjacency add_edges add_edge sources sort visit relax_all relax
validate-looping = refl

validate-IsWellFormed_example :
    ((r : Result ValidationError (ProfilerCircuit ℕ)) × (validate looping_circuit ≡ some r))
    × ((validate looping_circuit ≡ some (ok looping_circuit)) ↔ IsWellFormed looping_circuit)
validate-IsWellFormed_example = validate-IsWellFormed looping_circuit (omega arith)

validated-new_example :
    (e : Engine counting_world) × (new counting_world 0 small_circuit no_rounds_model small_config
      ≡ ok e)
unfolding lacks_positions
validated-new_example =
    validated-new counting_world percents 0 small_circuit no_rounds_model small_config
      validate-small validate-no_rounds refl (omega arith) (omega arith)

from_circuit_ok_example :
    (build : DagBuild ℕ) × (from_circuit counting_world small_circuit no_rounds_model ≡ ok build)
    × All (Knows build.id_to_key) (ids small_circuit.ops)
from_circuit_ok_example =
    from_circuit_ok counting_world small_circuit no_rounds_model ((refl, refl), ((refl, refl), tt))
      (omega arith)

abbrev pub simulated_model : HardwareModel ℕ
simulated_model = record no_rounds_model { factory = distilling }

pub validate-simulated : HwValidate.validate percents simulated_model ≡ ok tt
unfolding HwValidate.validate count
validate-simulated = refl

validated-new-run_example :
    (e : Engine counting_world) × (fuel : ℕ) × (t : Trace ℕ) × (new counting_world 0 small_circuit
        simulated_model small_config
      ≡ ok e)
    × (run 201 fuel e ≡ some t)
    × IsConsistent 0 2 t
unfolding lacks_positions
validated-new-run_example =
    validated-new-run percents 0 small_circuit simulated_model small_config 200 validate-small
      validate-simulated refl (omega arith) (omega arith) refl (omega arith) tt
      (omega arith, omega arith) (omega arith)
