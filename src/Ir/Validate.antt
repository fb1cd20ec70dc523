-- ===== src/Ir/Validate.antt =====
-- `validate` (crates/pirx-ir/src/validate.rs). A `ValidatedCircuit` is the circuit inside of it. The loop
-- of the topological sort takes fuel; `none` means that it ran out.
pub mod Relax
pub mod Sort
pub mod Edges
pub mod WellFormed
pub mod Unique
pub mod Acyclic
pub mod Index
use pirx.Common.{
  ℕ, zero, suc, ◌+◌, ◌-◌, min, Bool, true, false, not, ◌&&◌, List, [], ◌∷◌, ◌++◌, Option, none,
  some, leb, ◌==◌, if◌then◌else◌, length, get_elem?, get_or, replicate, update_at, mem, Result, ok,
  err, ◌>>=◌, reject, check_each, sat_add32, u32_max,
}
use pirx.Ir.{
  OpId, QubitId, MeasurementHookId, GridPosition, OpKind, Operation, Dependency,
  ConditionalActivation, MeasurementHook, ProfilerCircuit,
}

pub data ValidationError : Type 0 where
  empty_circuit : ValidationError
  dangling_dependency : OpId → ValidationError
  invalid_qubit : (op_id : OpId) (qubit_id : QubitId) (qubit_count : ℕ) → ValidationError
  cyclic_dag : ValidationError
  duplicate_op_id : OpId → ValidationError
  qubit_position_count_mismatch : (expected got : ℕ) → ValidationError
  duplicate_qubit_position : QubitId → ValidationError
  qubit_position_invalid_qubit : (qubit_id : QubitId) (qubit_count : ℕ) → ValidationError
  dangling_hook_reference : MeasurementHookId → ValidationError
  active_op_in_hook orphaned_inactive_op : OpId → ValidationError

abbrev pub Check : Type 0
Check = Result ValidationError (Unit {0})

-- The qubits of the positions: in range, and none of them twice. `seen` is the set of earlier ones.
unfoldable pub check_positions : ℕ → List QubitId → List GridPosition → Check
check_positions qubit_count seen [] = ok tt
check_positions qubit_count seen (pos ∷ rest) = do
  _ ← reject (leb qubit_count pos.qubit) (qubit_position_invalid_qubit pos.qubit qubit_count)
  _ ← reject (mem pos.qubit seen) (duplicate_qubit_position pos.qubit)
  check_positions qubit_count (pos.qubit ∷ seen) rest

unfoldable pub check_qubit_positions : ℕ → Option (List GridPosition) → Check
unfolding check_positions
check_qubit_positions qubit_count none = ok tt
check_qubit_positions qubit_count (some positions) = do
  _ ←
      reject (not (length positions == qubit_count))
        (qubit_position_count_mismatch qubit_count (min (length positions) u32_max))
  check_positions qubit_count [] positions

-- `id_set.contains(id)`.
abbrev pub contains : List OpId → OpId → Bool
contains id_set id = mem id id_set

unfoldable pub check_dep : List OpId → Dependency → Check
check_dep id_set dep = do
  _ ← reject (not (contains id_set dep.from)) (dangling_dependency dep.from)
  reject (not (contains id_set dep.to)) (dangling_dependency dep.to)

abbrev pub has_hook : MeasurementHookId → List MeasurementHook → Bool
has_hook id [] = false
has_hook id (h ∷ hooks) = if h.id == id then true else has_hook id hooks

module _ {F : Type 0} where
  -- The loop that fills `id_set`.
  unfoldable pub collect_ids : List OpId → List (Operation F) → Result ValidationError (List OpId)
  collect_ids id_set [] = ok id_set
  collect_ids id_set (op ∷ ops) = do
    _ ← reject (mem op.id id_set) (duplicate_op_id op.id)
    collect_ids (op.id ∷ id_set) ops

  unfoldable pub check_qubits : ℕ → Operation F → Check
  check_qubits qubit_count op =
      check_each (λ q. reject (leb qubit_count q) (invalid_qubit op.id q qubit_count)) op.qubits

  unfoldable pub check_hook_reference : List MeasurementHook → Operation F → Check
  check_hook_reference hooks op = elim op.kind [
    | OpKind.measurement hook ↦ elim hook [
      | some id ↦ reject (not (has_hook id hooks)) (dangling_hook_reference id)
      | none ↦ ok tt
    ]
    | _ ↦ ok tt
  ]

  -- `id_to_idx.get(id)`, where `i` is the index of the first operation. A later entry of the map
  -- replaces an earlier one.
  unfoldable pub index_of : ℕ → List (Operation F) → OpId → Option ℕ
  index_of i [] id = none
  index_of i (op ∷ ops) id = elim (index_of (i + 1) ops id) [
    | some j ↦ some j
    | none ↦ if op.id == id then some i else none
  ]

  -- An operation that a hook activates: it exists and is inactive.
  unfoldable pub check_target : List (Operation F) → OpId → Check
  unfolding index_of
  check_target ops op_id = elim (index_of 0 ops op_id) [
    | none ↦ err (dangling_dependency op_id)
    | some idx ↦ elim (get_elem? ops idx) [
      | some op ↦ reject op.initially_active (active_op_in_hook op_id)
      | none ↦ ok tt
    ]
  ]

  unfoldable pub check_hook : List (Operation F) → MeasurementHook → Check
  unfolding check_target
  check_hook ops hook =
      check_each (λ a. check_each (check_target ops) a.ops_to_activate) hook.activations

-- `hook_targets`.
abbrev pub activation_targets : List ConditionalActivation → List OpId
activation_targets [] = []
activation_targets (a ∷ rest) = a.ops_to_activate ++ activation_targets rest

abbrev pub hook_targets : List MeasurementHook → List OpId
hook_targets [] = []
hook_targets (h ∷ hooks) = activation_targets h.activations ++ hook_targets hooks

-- The state of the topological sort. (`visited` counts operations of a list in memory, so its
-- `+= 1` does not overflow.)
pub record Kahn : Type 0 where
  pub in_degree : List ℕ
  pub queue : List ℕ
  pub visited : ℕ

-- One successor of a visited node.
unfoldable pub relax : ℕ → Kahn → Kahn
relax succ s = elim (get_elem? s.in_degree succ) [
  | none ↦ s
  | some deg ↦ record s {
    in_degree = update_at s.in_degree succ (λ d. d - 1);
    queue = if deg - 1 == 0 then s.queue ++ succ ∷ [] else s.queue;
  }
]

unfoldable pub relax_all : List ℕ → Kahn → Kahn
unfolding relax
relax_all [] s = s
relax_all (succ ∷ succs) s = relax_all succs (relax succ s)

-- The successors of a node.
abbrev pub succs_of : List (List ℕ) → ℕ → List ℕ
succs_of successors node = get_or (get_elem? successors node) []

-- One round of the loop: the node is out of the queue.
unfoldable pub visit : List (List ℕ) → ℕ → List ℕ → Kahn → Kahn
unfolding relax_all
visit successors node rest s =
    relax_all (succs_of successors node) (record s { queue = rest; visited = s.visited + 1 })

unfoldable pub sort : List (List ℕ) → ℕ → Kahn → Option ℕ
unfolding visit
sort successors zero s = elim s.queue [ [] ↦ some s.visited | _ ∷ _ ↦ none ]
sort successors (suc fuel) s = elim s.queue [
  | [] ↦ some s.visited
  | node ∷ rest ↦ sort successors fuel (visit successors node rest s)
]

-- The initial queue: the indices without predecessors, from `i` on.
unfoldable pub sources : ℕ → List ℕ → List ℕ
sources i [] = []
sources i (deg ∷ degs) = if deg == 0 then i ∷ sources (i + 1) degs else sources (i + 1) degs

-- The adjacency by index.
pub record Adjacency : Type 0 where
  pub in_degree : List ℕ
  pub successors : List (List ℕ)

unfoldable pub add_edge : Adjacency → ℕ → ℕ → Adjacency
add_edge a from_idx to_idx = record {
  in_degree = update_at a.in_degree to_idx (λ deg. sat_add32 deg 1);
  successors = update_at a.successors from_idx (λ s. s ++ to_idx ∷ []);
}

module _ {F : Type 0} where
  unfoldable pub add_edges : List (Operation F) → List Dependency → Adjacency → Adjacency
  unfolding add_edge index_of
  add_edges ops [] a = a
  add_edges ops (dep ∷ deps) a = add_edges ops deps (elim (index_of 0 ops dep.from) [
    | none ↦ a
    | some from_idx ↦ elim (index_of 0 ops dep.to) [
      | none ↦ a
      | some to_idx ↦ add_edge a from_idx to_idx
    ]
  ])

  unfoldable pub adjacency : ProfilerCircuit F → Adjacency
  unfolding add_edges
  adjacency c =
      let n = length c.ops in
      add_edges c.ops c.deps (record { in_degree = replicate n 0; successors = replicate n [] })

  -- How many operations the topological sort visits. As many rounds as operations are enough fuel.
  unfoldable pub visited : ProfilerCircuit F → Option ℕ
  unfolding adjacency sort sources
  visited c =
      let a = adjacency c in
      sort a.successors (length c.ops)
        (record { in_degree = a.in_degree; queue = sources 0 a.in_degree; visited = 0 })

  -- The checks between the set of ids and the topological sort.
  unfoldable pub check_against : ProfilerCircuit F → List OpId → Check
  unfolding check_qubits check_qubit_positions check_dep check_hook_reference check_hook
  check_against c id_set = do
    _ ← check_each (check_qubits c.qubit_count) c.ops
    _ ← check_qubit_positions c.qubit_count c.qubit_positions
    _ ← check_each (check_dep id_set) c.deps
    _ ← check_each (check_hook_reference c.hooks) c.ops
    _ ← check_each (check_hook c.ops) c.hooks
    check_each
        (λ op.
          reject (not op.initially_active && not (mem op.id (hook_targets c.hooks)))
            (orphaned_inactive_op op.id))
        c.ops

  -- All checks but the topological sort.
  unfoldable pub check_references : ProfilerCircuit F → Check
  unfolding collect_ids check_against
  check_references c = do
    _ ← reject (length c.ops == 0) empty_circuit
    id_set ← collect_ids [] c.ops
    check_against c id_set

  -- `validate`.
  unfoldable pub validate : ProfilerCircuit F → Option (Result ValidationError (ProfilerCircuit F))
  validate c = elim (check_references c) [
    | err e ↦ some (err e)
    | ok _ ↦ elim (visited c) [
      | none ↦ none
      | some n ↦ some (if n == length c.ops then ok c else err cyclic_dag)
    ]
  ]
