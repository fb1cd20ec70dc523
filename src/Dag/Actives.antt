-- ===== src/Dag/Actives.antt =====
-- How many operations of a new graph (crates/pirx-core/src/dag/build.rs) are active.
use pirx.Common.{
  ℕ, ◌+◌, ◌≡◌, refl, sym, ap, ◌∙◌, Bool, true, false, Option, none, some, List, [], ◌∷◌, arith,
  ◌==◌, if◌then◌else◌, count_if, mem, update, SecondaryMap, OpKey, ok, >>=-eq-ok, eq_of_ok,
}
use pirx.World.{World, KeysAreFresh, KeysAreVisited}
use pirx.Ir.{Operation, ProfilerCircuit}
use pirx.Hw.{HardwareModel}
use pirx.Dag.{OpData, SlotMap, is_active, active_op_count, insert_op}
use pirx.Dag.Build.{
  DagBuild, add_op, add_ops, add_deps, ir_kind_to_engine, empty_build, from_circuit,
}

-- The operations of a circuit that are active from the start.
abbrev pub active_ops : {F : Type 0} → List (Operation F) → ℕ
active_ops = count_if (λ op. op.initially_active)

is_active-update :
    (slot : SecondaryMap OpData) (key : OpKey) (op : OpData) (k : OpKey)
    → is_active (update slot key op) k ≡ (if key == k then op.active else is_active slot k)
is_active-update slot key op k = one (key == k) (slot k)
  where
    one :
        (here : Bool) (old : Option OpData)
        → elim (if here then some op else old) [ none ↦ false | some o ↦ o.active ]
          ≡ (if here then op.active else elim old [ none ↦ false | some o ↦ o.active ])
    one true old = refl
    one false old = refl

apart :
    (a k : OpKey) (ks : List OpKey)
    → mem a (k ∷ ks) ≡ false
    → ((a == k) ≡ false) × (mem a ks ≡ false)
apart a k ks h = ground arith

same_key : (k : OpKey) → (k == k) ≡ true
same_key k = ground arith

active-update :
    (slot : SecondaryMap OpData) (key : OpKey) (op : OpData) (ks : List OpKey)
    → mem key ks ≡ false
    → count_if (is_active (update slot key op)) ks ≡ count_if (is_active slot) ks
active-update slot key op [] h = refl
active-update slot key op (k ∷ ks) h =
    let (other, absent) = apart key k ks h in
    ap (λ b. (if b then 1 else 0) + count_if (is_active (update slot key op)) ks)
      (is_active-update slot key op k ∙ ap (λ b. if b then op.active else is_active slot k) other)
    ∙ ap (λ n. (if is_active slot k then 1 else 0) + n) (active-update slot key op ks absent)

module _ (W : World) (fresh : KeysAreFresh W) (visited : KeysAreVisited W) where
  insert_op-active :
      (m : SlotMap) (op : OpData)
      → let m' = (insert_op W m op).0 in
        count_if (is_active m'.slot) m'.keys
        ≡ (if op.active then 1 else 0) + count_if (is_active m.slot) m.keys
  unfolding insert_op
  insert_op-active m op =
      let key = W.fresh_key m.keys in
      visited (is_active (update m.slot key op)) key m.keys
      ∙ ap (λ b. (if b then 1 else 0) + count_if (is_active (update m.slot key op)) m.keys)
          (is_active-update m.slot key op key
            ∙ ap (λ b. if b then op.active else is_active m.slot key) (same_key key))
      ∙ ap (λ n. (if op.active then 1 else 0) + n)
          (active-update m.slot key op m.keys (fresh m.keys))

  add_op-active :
      (cycles : ℕ) (b b' : DagBuild W.F64) (op : Operation W.F64)
      → add_op W cycles b op ≡ ok b'
      → active_op_count b'.dag ≡ (if op.initially_active then 1 else 0) + active_op_count b.dag
  unfolding add_op active_op_count
  add_op-active cycles b b' op r =
      let (kind, _, r1) = >>=-eq-ok (ir_kind_to_engine W op.kind b.dag.angle_table) _ r in
      ap (λ x. active_op_count x.dag) (sym (eq_of_ok r1)) ∙ insert_op-active b.dag.ops _

  add_ops-active :
      (cycles : ℕ) (b b' : DagBuild W.F64) (ops : List (Operation W.F64))
      → add_ops W cycles b ops ≡ ok b'
      → active_op_count b'.dag ≡ active_ops ops + active_op_count b.dag
  unfolding add_ops
  add_ops-active cycles b b' [] r = ap (λ x. active_op_count x.dag) (sym (eq_of_ok r)) ∙ omega arith
  add_ops-active cycles b b' (op ∷ ops) r =
      let (b1, s, r1) = >>=-eq-ok (add_op W cycles b op) _ r in
      omega (arith, add_ops-active cycles b1 b' ops r1, add_op-active cycles b b1 op s)

  -- The active operations of the graph are those of the circuit.
  pub from_circuit-active :
      (circuit : ProfilerCircuit W.F64) (hw : HardwareModel W.F64) (b : DagBuild W.F64)
      → from_circuit W circuit hw ≡ ok b
      → active_op_count b.dag ≡ active_ops circuit.ops
  unfolding from_circuit active_op_count
  from_circuit-active circuit hw b r =
      let (b1, s, r1) =
        >>=-eq-ok (add_ops W _ (empty_build W hw.injection.fixup_cost_cycles) circuit.ops) _ r in
      let (adjacency, _, r2) =
        >>=-eq-ok (add_deps W b1.id_to_key b1.dag.adjacency circuit.deps) _ r1 in
      ap (λ x. active_op_count x.dag) (sym (eq_of_ok r2))
      ∙ add_ops-active _ (empty_build W hw.injection.fixup_cost_cycles) b1 circuit.ops s
      ∙ omega arith
