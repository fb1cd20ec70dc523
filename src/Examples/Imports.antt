-- ===== src/Examples/Imports.antt =====
-- Circuits that the adapters build (crates/pirx-adapters/src/tket_json.rs).
use pirx.Common.{ℕ, ◌≡◌, refl, List, [], ◌∷◌, some, none, ok, err, arith}
use pirx.Ir.{OpKind, QubitId}
use pirx.Ir.Validate.{
  cyclic_dag, check_positions, check_qubit_positions, check_dep, collect_ids, check_qubits,
  check_hook_reference, index_of, check_target, check_hook, relax, relax_all, visit, sort, sources,
  add_edge, add_edges, adjacency, visited, check_against, check_references, validate,
}
use pirx.Adapters.{
  new_builder, link, deepest, set_depths, count_op, emit_operation, emit_all, built_circuit,
  finish_builder,
}
use pirx.Adapters.Emits.{finish_builder-ok}

-- A T-gate, a CNOT behind it, and a measurement.
abbrev bell_gates : List (OpKind ℕ × List QubitId)
bell_gates =
    (OpKind.t_gate, 0 ∷ []) ∷ (OpKind.clifford, 0 ∷ 1 ∷ []) ∷ (OpKind.measurement none, 1 ∷ []) ∷ []

deps-bell :
    (emit_all bell_gates (new_builder 2)).deps
    ≡ record { from = 0; to = 1 } ∷ record { from = 1; to = 2 } ∷ []
unfolding emit_all emit_operation link count_op new_builder deepest set_depths
deps-bell = refl

-- A gate on one qubit twice depends on itself.
finish_builder-twice :
    finish_builder {F = ℕ} (emit_all ((OpKind.clifford, 0 ∷ 0 ∷ []) ∷ []) (new_builder 1)) "" "tket"
    ≡ some (err cyclic_dag)
unfolding finish_builder built_circuit emit_all emit_operation link count_op new_builder deepest
    set_depths validate check_references check_against collect_ids check_qubits
    check_qubit_positions check_positions check_dep check_hook_reference check_hook check_target
    index_of visited adjacency add_edges add_edge sources sort visit relax_all relax
finish_builder-twice = refl

finish_builder-ok_example :
    finish_builder (emit_all bell_gates (new_builder 2)) "bell" "tket"
    ≡ some (ok (built_circuit (emit_all bell_gates (new_builder 2)) "bell" "tket"))
unfolding emit_all emit_operation link count_op new_builder deepest set_depths
finish_builder-ok_example =
    finish_builder-ok 2 bell_gates "bell" "tket" (omega arith) (omega arith)
      (
        record { hookless = tt; placed = (omega arith, tt); distinct = (refl, tt) },
        (
          record {
            hookless = tt;
            placed = (omega arith, (omega arith, tt));
            distinct = (refl, (refl, tt));
          },
          (record { hookless = tt; placed = (omega arith, tt); distinct = (refl, tt) }, tt),
        ),
      )
      (omega arith)
