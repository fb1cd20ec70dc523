-- ===== src/Dag/Total.antt =====
-- When the construction of the graph (crates/pirx-core/src/dag/build.rs) succeeds.
use pirx.Common.{
  >>=_ok, ℕ, suc, ◌+◌, ◌≤◌, ◌<◌, ◌≡◌, refl, ◌∙◌, true, List, [], ◌∷◌, some, arith, leb, ◌==◌,
  if◌then◌else◌, Bool-cases, Option-cases, length, length-append, All, All-map, All-mem, OpKey, ok,
  u16_max, inl, inr,
}
use pirx.World.{World}
use pirx.Ir
use pirx.Ir.{OpId, Operation, Dependency, ProfilerCircuit}
use pirx.Ir.Validate.Index.{ids}
use pirx.Ir.Validate.Acyclic.{Resolves}
use pirx.Hw.{HardwareModel}
use pirx.Dag.{OpKind, DagAdjacency}
use pirx.Dag.Build.{
  DagBuild, IdToKey, insert_id, lookup_id, position_of, rotation_at, angle_slot, ir_kind_to_engine,
  add_op, add_ops, add_dep, add_deps, add_edge, dep_from, dep_to, resolve, empty_build,
  from_circuit,
}

-- The id has a key.
abbrev pub Knows : IdToKey → OpId → Type 0
Knows m id = (key : OpKey) × (lookup_id m id ≡ some key)

lookup_id-insert_id :
    (m : IdToKey) (id j : OpId) (key : OpKey)
    → lookup_id (insert_id m id key) j ≡ (if id == j then some key else lookup_id m j)
unfolding lookup_id insert_id
lookup_id-insert_id [] id j key = ground arith
lookup_id-insert_id ((i, k) ∷ rest) id j key = ground (arith, lookup_id-insert_id rest id j key)

insert_id-Knows :
    (m : IdToKey) (id j : OpId) (key : OpKey) → Knows m j → Knows (insert_id m id key) j
insert_id-Knows m id j key (k, e) = elim (Bool-cases (id == j)) [
  | inl same ↦ (key, ground (arith, lookup_id-insert_id m id j key))
  | inr other ↦ (k, ground (arith, lookup_id-insert_id m id j key))
]

insert_id_self : (m : IdToKey) (id : OpId) (key : OpKey) → Knows (insert_id m id key) id
insert_id_self m id key = (key, ground (arith, lookup_id-insert_id m id id key))

position_of-lt :
    {F : Type 0} (to_bits : F → ℕ) (bits i : ℕ) (table : List F)
    → position_of to_bits bits table ≡ some i
    → i < length table
unfolding position_of
position_of-lt to_bits bits i [] h = cc
position_of-lt to_bits bits i (a ∷ table) h = elim (Option-cases (position_of to_bits bits table)) [
  | inl missing ↦ ground arith
  | inr (j, found) ↦ ground (arith, position_of-lt to_bits bits j table found)
]

module _ (W : World) where
  angle_slot_bounds :
      (angle : W.F64) (table : List W.F64)
      → ((angle_slot W angle table).0 ≤ length table)
        × (length (angle_slot W angle table).1 ≤ suc (length table))
  unfolding angle_slot
  angle_slot_bounds angle table =
      elim (Option-cases (position_of W.to_bits (W.to_bits angle) table)) [
        | inl missing ↦ rw (angle_slot, missing) (omega (arith, length-append table (angle ∷ [])))
        | inr (i, found) ↦
            rw (angle_slot, found)
              (omega (arith, position_of-lt W.to_bits (W.to_bits angle) i table found))
      ]

  ir_kind_to_engine_ok :
      (kind : Ir.OpKind W.F64) (table : List W.F64)
      → length table ≤ u16_max
      → (r : OpKind × List W.F64) × (ir_kind_to_engine W kind table ≡ ok r)
        × (length r.1 ≤ suc (length table))
  unfolding ir_kind_to_engine rotation_at
  ir_kind_to_engine_ok Ir.OpKind.clifford table h = (_, refl, omega arith)
  ir_kind_to_engine_ok Ir.OpKind.t_gate table h = (_, refl, omega arith)
  ir_kind_to_engine_ok (Ir.OpKind.measurement hook) table h = (_, refl, omega arith)
  ir_kind_to_engine_ok (Ir.OpKind.rotation angle) table h =
      let (low, few) = angle_slot_bounds angle table in
      let fits : leb (angle_slot W angle table).0 u16_max ≡ true = ground arith in
      (
        (OpKind.rotation (angle_slot W angle table).0, (angle_slot W angle table).1),
        rw fits refl,
        few,
      )

  -- A step of the construction that succeeds, and what it keeps.
  record Adds (b b' : DagBuild W.F64) (more : ℕ) : Type 0 where
    table : length b'.dag.angle_table ≤ more + length b.dag.angle_table
    keeps : (id : OpId) → Knows b.id_to_key id → Knows b'.id_to_key id

  add_op_ok :
      (cycles : ℕ) (b : DagBuild W.F64) (op : Operation W.F64)
      → length b.dag.angle_table ≤ u16_max
      → (b' : DagBuild W.F64) × (add_op W cycles b op ≡ ok b')
        × Adds b b' 1
        × Knows b'.id_to_key op.id
  unfolding add_op
  add_op_ok cycles b op h =
      let (r, e, few) = ir_kind_to_engine_ok op.kind b.dag.angle_table h in
      (
        _,
        >>=_ok (ir_kind_to_engine W op.kind b.dag.angle_table) _ e,
        record { table = omega arith; keeps = λ id k. insert_id-Knows b.id_to_key op.id id _ k },
        insert_id_self b.id_to_key op.id _,
      )

  add_ops_ok :
      (cycles : ℕ) (ops : List (Operation W.F64)) (b : DagBuild W.F64)
      → length b.dag.angle_table + length ops ≤ suc u16_max
      → (b' : DagBuild W.F64) × (add_ops W cycles b ops ≡ ok b')
        × Adds b b' (length ops)
        × All (Knows b'.id_to_key) (ids ops)
  unfolding add_ops
  add_ops_ok cycles [] b h = (b, refl, record { table = omega arith; keeps = λ id k. k }, tt)
  add_ops_ok cycles (op ∷ ops) b h =
      let (b1, e1, a1, own) = add_op_ok cycles b op (omega arith) in
      let (b2, e2, a2, others) = add_ops_ok cycles ops b1 (omega (arith, a1.table)) in
      (
        b2,
        >>=_ok (add_op W cycles b op) _ e1 ∙ e2,
        record {
          table = omega (arith, a1.table, a2.table);
          keeps = λ id k. a2.keeps id (a1.keeps id k);
        },
        (a2.keeps op.id own, others),
      )

  resolve_ok :
      (m : IdToKey) (id : OpId) (missing : _)
      → Knows m id
      → (key : OpKey) × (resolve W missing m id ≡ ok key)
  unfolding resolve
  resolve_ok m id missing (key, e) = (key, rw (resolve, e) refl)

  add_deps_ok :
      (m : IdToKey) (deps : List Dependency) (a : DagAdjacency)
      → All (λ dep. Knows m dep.from × Knows m dep.to) deps
      → (a' : DagAdjacency) × (add_deps W m a deps ≡ ok a')
  unfolding add_deps add_dep
  add_deps_ok m [] a h = (a, refl)
  add_deps_ok m (dep ∷ deps) a h =
      let (x, ex) = resolve_ok m dep.from _ h.0.0 in
      let (y, ey) = resolve_ok m dep.to _ h.0.1 in
      let (a', e) = add_deps_ok m deps (add_edge W a x y) h.1 in
      let first : add_dep W m a dep ≡ ok (add_edge W a x y) =
        >>=_ok (resolve W (dep_from dep.from) m dep.from) _ ex
        ∙ >>=_ok (resolve W (dep_to dep.to) m dep.to) _ ey in
      (a', >>=_ok (add_dep W m a dep) _ first ∙ e)

  -- The construction of the graph succeeds for a circuit whose dependencies refer to its operations,
  -- when there are no more operations than angle indices, and every operation has a key.
  pub from_circuit_ok :
      (c : ProfilerCircuit W.F64) (hw : HardwareModel W.F64)
      → All (Resolves c.ops) c.deps
      → length c.ops ≤ suc u16_max
      → (build : DagBuild W.F64) × (from_circuit W c hw ≡ ok build)
        × All (Knows build.id_to_key) (ids c.ops)
  unfolding from_circuit
  from_circuit_ok c hw h few =
      let (b, e, adds, known) =
        add_ops_ok _ c.ops (empty_build W hw.injection.fixup_cost_cycles) (omega arith) in
      let ends =
        All-map (Resolves c.ops) (λ dep. Knows b.id_to_key dep.from × Knows b.id_to_key dep.to)
          (λ dep r. (
            All-mem (Knows b.id_to_key) dep.from (ids c.ops) known r.0,
            All-mem (Knows b.id_to_key) dep.to (ids c.ops) known r.1,
          ))
          c.deps h in
      let (a, e') = add_deps_ok b.id_to_key c.deps b.dag.adjacency ends in
      (
        record b { dag = record b.dag { adjacency = a } },
        >>=_ok (add_ops W _ (empty_build W hw.injection.fixup_cost_cycles) c.ops) _ e
            ∙ >>=_ok (add_deps W b.id_to_key b.dag.adjacency c.deps) _ e',
        known,
      )
