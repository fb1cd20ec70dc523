-- ===== src/Dag/Build.antt =====
-- The construction of the graph from a validated circuit (crates/pirx-core/src/dag/build.rs).
use pirx.Common.{
  ℕ, ◌+◌, max, List, [], ◌∷◌, ◌++◌, Option, none, some, ◌==◌, leb, if◌then◌else◌, length, OpKey,
  update, modify, Result, ok, err, ◌>>=◌, u16_max, sat_add32,
}
use pirx.World.{World}
use pirx.Ir
use pirx.Ir.{OpId, Operation, Dependency, ProfilerCircuit}
use pirx.Hw.{HardwareModel}
use pirx.Dag.{OpKind, DagAdjacency, Dag, insert_op}

-- The text of an internal error, by the endpoint that it names.
pub data MissingEndpoint : Type 0 where
  dep_from dep_to : OpId → MissingEndpoint

pub data DagError : Type 0 where
  too_many_distinct_angles : ℕ → DagError
  internal : MissingEndpoint → DagError

-- `HashMap<OpId, OpKey>`: an entry for each id.
abbrev pub IdToKey : Type 0
IdToKey = List (OpId × OpKey)

unfoldable pub insert_id : IdToKey → OpId → OpKey → IdToKey
insert_id [] id key = (id, key) ∷ []
insert_id ((i, k) ∷ rest) id key =
    if i == id then (id, key) ∷ rest else (i, k) ∷ insert_id rest id key

unfoldable pub lookup_id : IdToKey → OpId → Option OpKey
lookup_id [] id = none
lookup_id ((i, k) ∷ rest) id = if i == id then some k else lookup_id rest id

pub record DagBuild (F : Type 0) : Type 0 where
  pub dag : Dag F
  pub id_to_key : IdToKey

-- `angle_table.iter().position(..)`: the first angle with the given bits.
unfoldable pub position_of : {F : Type 0} → (F → ℕ) → ℕ → List F → Option ℕ
position_of to_bits bits [] = none
position_of to_bits bits (a ∷ angles) =
    let rest = position_of to_bits bits angles in
    if to_bits a == bits then some 0 else elim rest [ none ↦ none | some i ↦ some (i + 1) ]

-- `u16::try_from(idx)`.
unfoldable pub rotation_at : ℕ → Result DagError OpKind
rotation_at idx =
    if leb idx u16_max then ok (OpKind.rotation idx) else err (too_many_distinct_angles idx)

module _ (W : World) where
  open W use {F64, to_bits, f64_div, ceil_u32}

  -- The index of an angle, and the table with the angle in it.
  unfoldable pub angle_slot : F64 → List F64 → ℕ × List F64
  unfolding position_of
  angle_slot angle table = elim (position_of to_bits (to_bits angle) table) [
    | some i ↦ (i, table)
    | none ↦ (length table, table ++ angle ∷ [])
  ]

  unfoldable pub ir_kind_to_engine : Ir.OpKind F64 → List F64 → Result DagError (OpKind × List F64)
  unfolding angle_slot rotation_at
  ir_kind_to_engine Ir.OpKind.clifford table = ok (OpKind.clifford, table)
  ir_kind_to_engine Ir.OpKind.t_gate table = ok (OpKind.t_gate, table)
  ir_kind_to_engine (Ir.OpKind.measurement hook) table = ok (OpKind.measurement hook, table)
  ir_kind_to_engine (Ir.OpKind.rotation angle) table =
      let (idx, table') = angle_slot angle table in rotation_at idx >>= λ kind. ok (kind, table')

  unfoldable pub op_cost : ℕ → OpKind → ℕ
  op_cost measurement_cycles (OpKind.measurement hook) = measurement_cycles
  op_cost measurement_cycles kind = 1

  -- The body of the loop over the operations.
  unfoldable pub add_op : ℕ → DagBuild F64 → Operation F64 → Result DagError (DagBuild F64)
  unfolding ir_kind_to_engine op_cost insert_op
  add_op measurement_cycles b op = ir_kind_to_engine op.kind b.dag.angle_table >>= λ (kind, table).
      let (ops, key) = insert_op W b.dag.ops (record {
        kind = kind;
        qubits = op.qubits;
        cycle_cost = op_cost measurement_cycles kind;
        active = op.initially_active;
      }) in
      let adjacency = b.dag.adjacency in
      ok (record {
        dag = record b.dag {
          ops = ops;
          adjacency = record {
            successors = update adjacency.successors key [];
            predecessors = update adjacency.predecessors key [];
            predecessor_count = update adjacency.predecessor_count key 0;
          };
          angle_table = table;
        };
        id_to_key = insert_id b.id_to_key op.id key;
      })

  unfoldable pub add_ops : ℕ → DagBuild F64 → List (Operation F64) → Result DagError (DagBuild F64)
  unfolding add_op
  add_ops cycles b [] = ok b
  add_ops cycles b (op ∷ ops) = add_op cycles b op >>= λ b'. add_ops cycles b' ops

  unfoldable pub resolve : MissingEndpoint → IdToKey → OpId → Result DagError OpKey
  unfolding lookup_id
  resolve missing ids id = elim (lookup_id ids id) [ none ↦ err (internal missing) | some k ↦ ok k ]

  -- One edge of the graph.
  unfoldable pub add_edge : DagAdjacency → OpKey → OpKey → DagAdjacency
  add_edge a from_key to_key = record {
    successors = modify a.successors from_key (λ s. s ++ to_key ∷ []);
    predecessors = modify a.predecessors to_key (λ s. s ++ from_key ∷ []);
    predecessor_count = modify a.predecessor_count to_key (λ n. sat_add32 n 1);
  }

  -- The body of the loop over the dependencies.
  unfoldable pub add_dep : IdToKey → DagAdjacency → Dependency → Result DagError DagAdjacency
  unfolding resolve add_edge
  add_dep ids a dep = resolve (dep_from dep.from) ids dep.from >>= λ from_key.
      resolve (dep_to dep.to) ids dep.to >>= λ to_key. ok (add_edge a from_key to_key)

  unfoldable pub add_deps : IdToKey → DagAdjacency → List Dependency → Result DagError DagAdjacency
  unfolding add_dep
  add_deps ids a [] = ok a
  add_deps ids a (dep ∷ deps) = add_dep ids a dep >>= λ a'. add_deps ids a' deps

  abbrev pub empty_build : ℕ → DagBuild F64
  empty_build fixup_cost_cycles = record {
    dag = record {
      ops = record { slot = λ _. none; keys = [] };
      adjacency = record {
        successors = λ _. none;
        predecessors = λ _. none;
        predecessor_count = λ _. none;
      };
      angle_table = [];
      fixup_cost_cycles = fixup_cost_cycles;
    };
    id_to_key = [];
  }

  unfoldable pub from_circuit :
      ProfilerCircuit F64 → HardwareModel F64 → Result DagError (DagBuild F64)
  unfolding add_ops add_deps
  from_circuit circuit hw =
      let cycles =
        max (ceil_u32 (f64_div hw.timing.measurement_time_us hw.timing.cycle_time_us)) 1 in
      add_ops cycles (empty_build hw.injection.fixup_cost_cycles) circuit.ops >>= λ b.
      add_deps b.id_to_key b.dag.adjacency circuit.deps >>= λ adjacency.
      ok (record b { dag = record b.dag { adjacency = adjacency } })
