-- ===== src/Dag/Costs.antt =====
-- The costs of the operations of a graph (crates/pirx-core/src/dag/).
use pirx.Common.{
  ℕ, ◌<◌, ◌≡◌, subst, Bool, true, List, [], ◌∷◌, Option, none, some, arith, ◌==◌, if◌then◌else◌,
  Option-cases, inl, inr, OpKey, SecondaryMap, update, ok, >>=-eq-ok, eq_of_ok,
}
use pirx.World.{World}
use pirx.Ir.{Operation, ProfilerCircuit}
use pirx.Hw.{HardwareModel}
use pirx.Dag.{
  OpData, Dag, FifoReadyQueue, release_successors, activate_one, activate_ops, inject_fixup,
}
use pirx.Dag.Build.{
  DagBuild, add_op, add_ops, add_deps, ir_kind_to_engine, op_cost, empty_build, from_circuit,
}

abbrev pub Costs : Option OpData → Type 0
Costs none = Unit
Costs (some op) = 0 < op.cycle_cost

-- Every operation takes time, and so does a fixup that is still to come.
pub record IsCostly {F : Type 0} (d : Dag F) : Type 0 where
  pub each : (k : OpKey) → Costs (d.ops.slot k)
  pub fixups : 0 < d.fixup_cost_cycles

module _ {F : Type 0} where
  pub release_successors-IsCostly :
      (d : Dag F) (gate : OpKey) (queue : FifoReadyQueue)
      → IsCostly d
      → IsCostly (release_successors d gate queue).0
  unfolding release_successors
  release_successors-IsCostly d gate queue h = elim (Option-cases (d.adjacency.successors gate)) [
    | inl missing ↦ rw (release_successors, missing) h
    | inr (succs, found) ↦
        rw (release_successors, found) (record { each = h.each; fixups = h.fixups })
  ]

  activate_one-IsCostly :
      (completed : OpKey → Bool) (key : OpKey) (s : Dag F × FifoReadyQueue)
      → IsCostly s.0
      → IsCostly (activate_one completed key s).0
  unfolding activate_one
  activate_one-IsCostly completed key s h = record {
    each = λ k. kept k (s.0.ops.slot k) (h.each k);
    fixups = h.fixups;
  }
    where
      kept :
          (k : OpKey) (o : Option OpData)
          → Costs o
          → Costs (elim o as (λ _. Option OpData) [
            | none ↦ none
            | some op ↦ some (if key == k then record op { active = true } else op)
          ])
      kept k none c = tt
      kept k (some op) c = ground arith

  pub activate_ops-IsCostly :
      (keys : List OpKey) (completed : OpKey → Bool) (s : Dag F × FifoReadyQueue)
      → IsCostly s.0
      → IsCostly (activate_ops keys completed s).0
  unfolding activate_ops
  activate_ops-IsCostly [] completed s h = h
  activate_ops-IsCostly (key ∷ keys) completed s h =
      activate_ops-IsCostly keys completed (activate_one completed key s)
        (activate_one-IsCostly completed key s h)

update-Costs :
    (slot : SecondaryMap OpData) (key k : OpKey) (op : OpData)
    → 0 < op.cycle_cost
    → Costs (slot k)
    → Costs (update slot key op k)
update-Costs slot key k op h c = ground arith

module _ (W : World) where
  pub inject_fixup-IsCostly :
      (d : Dag W.F64) (gate : OpKey) (queue : FifoReadyQueue)
      → IsCostly d
      → IsCostly (inject_fixup W d gate queue).0
  unfolding inject_fixup
  inject_fixup-IsCostly d gate queue h = record {
    each = λ k. update-Costs d.ops.slot _ k _ h.fixups (h.each k);
    fixups = h.fixups;
  }

  add_op-IsCostly :
      (cycles : ℕ) (b b' : DagBuild W.F64) (op : Operation W.F64)
      → 0 < cycles
      → IsCostly b.dag
      → add_op W cycles b op ≡ ok b'
      → IsCostly b'.dag
  unfolding add_op op_cost
  add_op-IsCostly cycles b b' op pos h r =
      let (kind, _, r1) = >>=-eq-ok (ir_kind_to_engine W op.kind b.dag.angle_table) _ r in
      subst (λ x. IsCostly x.dag) (eq_of_ok r1)
        (record {
          each = λ k. update-Costs b.dag.ops.slot _ k _ (ground arith) (h.each k);
          fixups = h.fixups;
        })

  add_ops-IsCostly :
      (cycles : ℕ) (b b' : DagBuild W.F64) (ops : List (Operation W.F64))
      → 0 < cycles
      → IsCostly b.dag
      → add_ops W cycles b ops ≡ ok b'
      → IsCostly b'.dag
  unfolding add_ops
  add_ops-IsCostly cycles b b' [] pos h r = subst (λ x. IsCostly x.dag) (eq_of_ok r) h
  add_ops-IsCostly cycles b b' (op ∷ ops) pos h r =
      let (b1, s, r1) = >>=-eq-ok (add_op W cycles b op) _ r in
      add_ops-IsCostly cycles b1 b' ops pos (add_op-IsCostly cycles b b1 op pos h s) r1

  pub from_circuit-IsCostly :
      (c : ProfilerCircuit W.F64) (hw : HardwareModel W.F64) (build : DagBuild W.F64)
      → 0 < hw.injection.fixup_cost_cycles
      → from_circuit W c hw ≡ ok build
      → IsCostly build.dag
  unfolding from_circuit
  from_circuit-IsCostly c hw build pos r =
      let (b, s, r1) =
        >>=-eq-ok (add_ops W _ (empty_build W hw.injection.fixup_cost_cycles) c.ops) _ r in
      let (a, t, r2) = >>=-eq-ok (add_deps W b.id_to_key b.dag.adjacency c.deps) _ r1 in
      let costly =
        add_ops-IsCostly _ _ b c.ops (omega arith) (record { each = λ k. tt; fixups = pos }) s in
      subst (λ x. IsCostly x.dag) (eq_of_ok r2)
        (record { each = costly.each; fixups = costly.fixups })
