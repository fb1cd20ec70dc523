-- ===== src/Adapters.antt =====
-- The circuit builder of the adapters (crates/pirx-adapters/src/tket_json.rs; openqasm.rs has the
-- same one). The gates that the parsers read and classify are its input.
pub mod Emits
use Prim.Native.String.{String}
use pirx.Common.{
  ℕ, ◌+◌, ◌%◌, max, true, List, [], ◌∷◌, ◌++◌, Option, none, some, get_elem?, get_or, set,
  replicate, Result,
}
use pirx.Ir.{QubitId, OpId, OpKind, Operation, Dependency, ProfilerCircuit}
use pirx.Ir.Validate.{ValidationError, validate}
use pirx.Analysis.{started_at}

pub record CircuitBuilder (F : Type 0) : Type 0 where
  pub qubit_count : ℕ
  pub ops : List (Operation F)
  pub deps : List Dependency
  pub last_on_qubit : List (Option OpId)
  pub next_id : OpId
  pub t_count : ℕ
  pub clifford_count : ℕ
  pub rotation_count : ℕ
  pub depth_at_qubit : List ℕ

-- `x += 1` at u64.
abbrev pub next_of : ℕ → ℕ
next_of n = n + 1

-- `CircuitBuilder::new` for a number of qubits.
unfoldable pub new_builder : {F : Type 0} → ℕ → CircuitBuilder F
new_builder qubit_count = record {
  qubit_count = qubit_count;
  ops = [];
  deps = [];
  last_on_qubit = replicate qubit_count none;
  next_id = 0;
  t_count = 0;
  clifford_count = 0;
  rotation_count = 0;
  depth_at_qubit = replicate qubit_count 0;
}

-- The dependency on the last operation of a qubit.
abbrev pub depend : OpId → Option OpId → List Dependency → List Dependency
depend id none deps = deps
depend id (some prev) deps = deps ++ record { from = prev; to = id } ∷ []

-- The loop over the qubits of an operation: the last operations and the dependencies.
unfoldable pub link :
    OpId
    → List QubitId
    → List (Option OpId) × List Dependency
    → List (Option OpId) × List Dependency
link id [] s = s
link id (q ∷ qs) (last, deps) =
    link id qs (set last q (some id), depend id (started_at last q) deps)

-- The largest depth of some qubits.
unfoldable pub deepest : List ℕ → List QubitId → ℕ
deepest depths [] = 0
deepest depths (q ∷ qs) = max (get_or (get_elem? depths q) 0) (deepest depths qs)

unfoldable pub set_depths : List QubitId → ℕ → List ℕ → List ℕ
set_depths [] depth depths = depths
set_depths (q ∷ qs) depth depths = set_depths qs depth (set depths q depth)

abbrev pub largest_depth : List ℕ → ℕ
largest_depth [] = 0
largest_depth (d ∷ ds) = max d (largest_depth ds)

module _ {F : Type 0} where
  -- The counters of the kinds.
  unfoldable pub count_op : OpKind F → CircuitBuilder F → CircuitBuilder F
  count_op OpKind.t_gate b = record b { t_count = next_of b.t_count }
  count_op OpKind.clifford b = record b { clifford_count = next_of b.clifford_count }
  count_op (OpKind.rotation angle) b = record b { rotation_count = next_of b.rotation_count }
  count_op (OpKind.measurement hook) b = b

  unfoldable pub emit_operation : CircuitBuilder F → OpKind F → List QubitId → CircuitBuilder F
  unfolding link deepest set_depths count_op
  emit_operation b kind qubits =
      let (last, deps) = link b.next_id qubits (b.last_on_qubit, b.deps) in
      let depth = next_of (deepest b.depth_at_qubit qubits) in
      let counted = count_op kind b in
      record counted {
        ops =
            b.ops
            ++ record { id = b.next_id; kind = kind; qubits = qubits; initially_active = true }
              ∷ [];
        deps = deps;
        last_on_qubit = last;
        depth_at_qubit = set_depths qubits depth b.depth_at_qubit;
        next_id = next_of b.next_id;
      }

  -- The loop over the gates.
  unfoldable pub emit_all : List (OpKind F × List QubitId) → CircuitBuilder F → CircuitBuilder F
  unfolding emit_operation
  emit_all [] b = b
  emit_all ((kind, qubits) ∷ gates) b = emit_all gates (emit_operation b kind qubits)

  -- The circuit that `finish` validates.
  unfoldable pub built_circuit : CircuitBuilder F → (name framework : String) → ProfilerCircuit F
  built_circuit b name framework = record {
    ops = b.ops;
    deps = b.deps;
    qubit_count = b.qubit_count;
    qubit_positions = none;
    hooks = [];
    metadata = record {
      name = name;
      source_framework = framework;
      t_count = b.t_count;
      clifford_count = b.clifford_count;
      rotation_count = b.rotation_count;
      depth = largest_depth b.depth_at_qubit;
    };
  }

  unfoldable pub finish_builder :
      CircuitBuilder F
      → (name framework : String) → Option (Result ValidationError (ProfilerCircuit F))
  unfolding built_circuit
  finish_builder b name framework = validate (built_circuit b name framework)
