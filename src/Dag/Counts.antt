-- ===== src/Dag/Counts.antt =====
-- The counts of open predecessors that the construction (crates/pirx-core/src/dag/build.rs) leaves.
use pirx.Common.{
  ℕ, ◌≡◌, refl, subst, min, List, [], ◌∷◌, ◌++◌, Option, none, some, arith, ◌==◌, if◌then◌else◌,
  length, length-append, OpKey, ok, >>=-eq-ok, eq_of_ok, u32_max, sat_add32,
}
use pirx.World.{World}
use pirx.Ir.{Operation, Dependency, ProfilerCircuit}
use pirx.Hw.{HardwareModel}
use pirx.Dag.{DagAdjacency}
use pirx.Dag.Build.{
  DagBuild, IdToKey, add_op, add_ops, add_edge, add_dep, add_deps, resolve, dep_from, dep_to,
  ir_kind_to_engine, empty_build, from_circuit,
}

-- The count that belongs to a list of predecessors, up to the range of u32.
abbrev pub count_of : Option (List OpKey) → Option ℕ
count_of none = none
count_of (some preds) = some (min (length preds) u32_max)

-- Every operation's count is the number of its predecessors.
abbrev pub IsCounted : DagAdjacency → Type 0
IsCounted a = (k : OpKey) → a.predecessor_count k ≡ count_of (a.predecessors k)

-- One more predecessor for one operation.
count_of-append :
    (to_key from_key k : OpKey) (preds : Option (List OpKey)) (n : Option ℕ)
    → n ≡ count_of preds
    → elim n as (λ _. Option ℕ) [
      | none ↦ none
      | some c ↦ some (if to_key == k then sat_add32 c 1 else c)
    ]
      ≡ count_of (elim preds as (λ _. Option (List OpKey)) [
        | none ↦ none
        | some ps ↦ some (if to_key == k then ps ++ from_key ∷ [] else ps)
      ])
count_of-append to_key from_key k none n h = ground arith
count_of-append to_key from_key k (some ps) n h =
    rw h (ground (arith, length-append ps (from_key ∷ [])))

module _ (W : World) where
  add_edge-IsCounted :
      (a : DagAdjacency) (from_key to_key : OpKey)
      → IsCounted a
      → IsCounted (add_edge W a from_key to_key)
  unfolding add_edge
  add_edge-IsCounted a from_key to_key h k =
      count_of-append to_key from_key k (a.predecessors k) (a.predecessor_count k) (h k)

  add_dep-IsCounted :
      (ids : IdToKey) (a b : DagAdjacency) (dep : Dependency)
      → IsCounted a
      → add_dep W ids a dep ≡ ok b
      → IsCounted b
  unfolding add_dep
  add_dep-IsCounted ids a b dep h r =
      let (from_key, _, r1) = >>=-eq-ok (resolve W (dep_from dep.from) ids dep.from) _ r in
      let (to_key, _, r2) = >>=-eq-ok (resolve W (dep_to dep.to) ids dep.to) _ r1 in
      subst IsCounted (eq_of_ok r2) (add_edge-IsCounted a from_key to_key h)

  add_deps-IsCounted :
      (ids : IdToKey) (a b : DagAdjacency) (deps : List Dependency)
      → IsCounted a
      → add_deps W ids a deps ≡ ok b
      → IsCounted b
  unfolding add_deps
  add_deps-IsCounted ids a b [] h r = subst IsCounted (eq_of_ok r) h
  add_deps-IsCounted ids a b (dep ∷ deps) h r =
      let (a', s, r1) = >>=-eq-ok (add_dep W ids a dep) _ r in
      add_deps-IsCounted ids a' b deps (add_dep-IsCounted ids a a' dep h s) r1

  add_op-IsCounted :
      (cycles : ℕ) (b b' : DagBuild W.F64) (op : Operation W.F64)
      → IsCounted b.dag.adjacency
      → add_op W cycles b op ≡ ok b'
      → IsCounted b'.dag.adjacency
  unfolding add_op
  add_op-IsCounted cycles b b' op h r =
      let (kind, _, r1) = >>=-eq-ok (ir_kind_to_engine W op.kind b.dag.angle_table) _ r in
      subst (λ x. IsCounted x.dag.adjacency) (eq_of_ok r1) (λ k. ground (arith, h k))

  add_ops-IsCounted :
      (cycles : ℕ) (b b' : DagBuild W.F64) (ops : List (Operation W.F64))
      → IsCounted b.dag.adjacency
      → add_ops W cycles b ops ≡ ok b'
      → IsCounted b'.dag.adjacency
  unfolding add_ops
  add_ops-IsCounted cycles b b' [] h r = subst (λ x. IsCounted x.dag.adjacency) (eq_of_ok r) h
  add_ops-IsCounted cycles b b' (op ∷ ops) h r =
      let (b1, s, r1) = >>=-eq-ok (add_op W cycles b op) _ r in
      add_ops-IsCounted cycles b1 b' ops (add_op-IsCounted cycles b b1 op h s) r1

  -- In a graph that is built from a circuit, every operation's count of open predecessors is the
  -- number of the operation's predecessors, up to the range of u32.
  pub from_circuit-IsCounted :
      (circuit : ProfilerCircuit W.F64) (hw : HardwareModel W.F64) (build : DagBuild W.F64)
      → from_circuit W circuit hw ≡ ok build
      → IsCounted build.dag.adjacency
  unfolding from_circuit
  from_circuit-IsCounted circuit hw build r =
      let (b, s, r1) =
        >>=-eq-ok (add_ops W _ (empty_build W hw.injection.fixup_cost_cycles) circuit.ops) _ r in
      let (a, t, r2) = >>=-eq-ok (add_deps W b.id_to_key b.dag.adjacency circuit.deps) _ r1 in
      subst (λ x. IsCounted x.dag.adjacency) (eq_of_ok r2)
        (add_deps-IsCounted b.id_to_key b.dag.adjacency a circuit.deps
          (add_ops-IsCounted _ _ b circuit.ops (λ k. refl) s) t)
