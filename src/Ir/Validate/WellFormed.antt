-- ===== src/Ir/Validate/WellFormed.antt =====
-- The circuits that `validate` (crates/pirx-ir/src/validate.rs) accepts.
use pirx.Common.{
  Result-cases, All-get_elem?, ℕ, zero, suc, ◌≤◌, ◌<◌, ◌≡◌, ◌↔◌, refl, sym, subst, ◌∙◌, Bool, true,
  false, not, ◌&&◌, List, [], ◌∷◌, none, some, arith, ◌==◌, if◌then◌else◌, Option-cases, times, mem,
  length, get_elem?, All, Result, ok, err, reject, check_each_iff, both, passes, ◌>>=◌, >>=-eq-ok,
  u32_max, inl, inr,
}
use pirx.Ir.{OpId, Operation, OpKind, Dependency, MeasurementHook, ProfilerCircuit}
use pirx.Ir.Validate.{
  ValidationError, collect_ids, check_qubits, check_dep, has_hook, check_hook_reference, index_of,
  check_target, check_hook, hook_targets, visited, check_against, check_references, validate,
  cyclic_dag, orphaned_inactive_op, empty_circuit, active_op_in_hook, dangling_dependency,
}
use pirx.Ir.Validate.Index.{ids, index_of-Found, index_of-some, mem_of_index_of}
use pirx.Ir.Validate.Unique.{
  IsUnique, IsPlaced, check_qubit_positions-IsPlaced, gathered, mem-gathered, collect_ids-IsUnique,
}
use pirx.Ir.Validate.Acyclic.{IsAcyclic, Resolves, visited-IsAcyclic}

orphan_iff :
    (a m : Bool) (e : ValidationError)
    → (reject (not a && not m) e ≡ ok tt) ↔ (a ≡ false → m ≡ true)
orphan_iff true m e = (λ h q. cc, λ h. refl)
orphan_iff false true e = (λ h q. refl, λ h. refl)
orphan_iff false false e = (λ h. cc, λ h. cc (h refl))

and_then {κ μ} :
    {P : Type κ} {Q : Type μ} (r s : Result ValidationError (Unit {0}))
    → (r ≡ ok tt) ↔ P
    → (s ≡ ok tt) ↔ Q
    → ((r >>= λ _. s) ≡ ok tt) ↔ (P × Q)
and_then r s p q =
    (λ h. let (a, b) = (both r s tt).0 h in (p.0 a, q.0 b), λ h. (both r s tt).1 (p.1 h.0, q.1 h.1))

module _ {F : Type 0} where
  -- The hook of a measurement exists.
  abbrev pub RefersHook : List MeasurementHook → OpKind F → Type 0
  RefersHook hooks (OpKind.measurement (some id)) = has_hook id hooks ≡ true
  RefersHook hooks kind = Unit

  -- An operation with the id exists, and is inactive.
  abbrev pub IsTarget : List (Operation F) → OpId → Type 0
  IsTarget ops id =
      (mem id (ids ops) ≡ true) × All (λ op. op.id ≡ id → op.initially_active ≡ false) ops

  abbrev pub IsHook : List (Operation F) → MeasurementHook → Type 0
  IsHook ops hook = All (λ a. All (IsTarget ops) a.ops_to_activate) hook.activations

  -- All references of a circuit are to what exists.
  pub record HasReferences (c : ProfilerCircuit F) : Type 0 where
    pub nonempty : 0 < length c.ops
    pub unique : IsUnique (ids c.ops)
    pub qubits : All (λ op. All (λ q. q < c.qubit_count) op.qubits) c.ops
    pub positions : IsPlaced c.qubit_count c.qubit_positions
    pub deps : All (Resolves c.ops) c.deps
    pub measurements : All (λ op. RefersHook c.hooks op.kind) c.ops
    pub hooks : All (IsHook c.ops) c.hooks
    pub activated :
        All (λ op. op.initially_active ≡ false → mem op.id (hook_targets c.hooks) ≡ true) c.ops

  pub record IsWellFormed (c : ProfilerCircuit F) : Type 0 where
    pub references : HasReferences c
    pub acyclic : IsAcyclic c.deps

  check_qubits_iff :
      (n : ℕ) (op : Operation F) → (check_qubits n op ≡ ok tt) ↔ All (λ q. q < n) op.qubits
  unfolding check_qubits
  check_qubits_iff n op =
      check_each_iff (λ q. q < n) _
        (λ q. (λ h. let a = (passes _ _).0 h in ground arith, λ h. (passes _ _).1 (ground arith)))
        op.qubits

  check_dep_iff :
      (ops : List (Operation F)) (dep : Dependency)
      → (check_dep (gathered [] ops) dep ≡ ok tt) ↔ Resolves ops dep
  unfolding check_dep
  check_dep_iff ops dep = ground (arith, mem-gathered dep.from [] ops, mem-gathered dep.to [] ops)

  check_hook_reference_iff :
      (hooks : List MeasurementHook) (op : Operation F)
      → (check_hook_reference hooks op ≡ ok tt) ↔ RefersHook hooks op.kind
  unfolding check_hook_reference
  check_hook_reference_iff hooks op = ground arith

  abbrev Inactive : OpId → Operation F → Type 0
  Inactive id op = op.id ≡ id → op.initially_active ≡ false

  absent-Inactive :
      (ops : List (Operation F)) (id : OpId) → times id (ids ops) ≡ 0 → All (Inactive id) ops
  absent-Inactive [] id h = tt
  absent-Inactive (op ∷ ops) id h =
      (λ e. absurd (ground arith), absent-Inactive ops id (ground arith))

  -- Where ids are unique, the operation with an id is the only one.
  only-Inactive :
      (ops : List (Operation F)) (j : ℕ) (op : Operation F)
      → times op.id (ids ops) ≤ 1
      → get_elem? ops j ≡ some op
      → op.initially_active ≡ false
      → (0 < times op.id (ids ops)) × All (Inactive op.id) ops
  only-Inactive [] j op u e a = cc
  only-Inactive (o ∷ ops) zero op u e a =
      let same : o ≡ op = cc in
      let id : o.id ≡ op.id = cc in
      (ground arith, (λ _. cc, absent-Inactive ops op.id (ground arith)))
  only-Inactive (o ∷ ops) (suc j) op u e a =
      let (found, rest) = only-Inactive ops j op (ground arith) e a in
      (ground arith, (λ h. absurd (ground arith), rest))

  check_target-some :
      (ops : List (Operation F)) (id : OpId) (j : ℕ) (op : Operation F)
      → index_of 0 ops id ≡ some j
      → get_elem? ops j ≡ some op
      → check_target ops id ≡ reject op.initially_active (active_op_in_hook id)
  unfolding check_target
  check_target-some ops id j op found entry = rw (found, check_target, entry) refl

  check_target-none :
      (ops : List (Operation F)) (id : OpId)
      → index_of 0 ops id ≡ none
      → check_target ops id ≡ err (dangling_dependency id)
  unfolding check_target
  check_target-none ops id missing = rw (missing, check_target) refl

  -- The operation that `id_to_idx` finds.
  entry_at :
      (ops : List (Operation F)) (id : OpId) (j : ℕ)
      → index_of 0 ops id ≡ some j
      → (op : Operation F) × (get_elem? ops j ≡ some op) × (op.id ≡ id)
  entry_at ops id j found =
      let f = index_of-Found ops 0 id j found in
      let e : f.place ≡ j = omega (arith, f.shift) in
      (f.op, subst (λ i. get_elem? ops i ≡ some f.op) e f.entry, f.same)

  check_target_iff :
      (ops : List (Operation F)) (id : OpId)
      → IsUnique (ids ops)
      → (check_target ops id ≡ ok tt) ↔ IsTarget ops id
  check_target_iff ops id u = (
    λ h. elim (Option-cases (index_of 0 ops id)) [
      | inl missing ↦ cc (check_target-none ops id missing)
      | inr (j, found) ↦
          let (op, entry, same) = entry_at ops id j found in
          let inactive = (passes _ _).0 (sym (check_target-some ops id j op found entry) ∙ h) in
          let (_, all) = only-Inactive ops j op (u op.id) entry inactive in
          (mem_of_index_of ops 0 id j found, subst (λ i. All (Inactive i) ops) same all)
    ],
    λ h.
        let (j, found) = index_of-some ops 0 id h.0 in
        let (op, entry, same) = entry_at ops id j found in
        let inactive = All-get_elem? (Inactive id) ops j op h.1 entry same in
        check_target-some ops id j op found entry ∙ (passes _ _).1 inactive,
  )

  check_hook_iff :
      (ops : List (Operation F)) (hook : MeasurementHook)
      → IsUnique (ids ops)
      → (check_hook ops hook ≡ ok tt) ↔ IsHook ops hook
  unfolding check_hook
  check_hook_iff ops hook u =
      check_each_iff (λ a. All (IsTarget ops) a.ops_to_activate) _
        (λ a.
          check_each_iff (IsTarget ops) (check_target ops) (λ id. check_target_iff ops id u)
            a.ops_to_activate)
        hook.activations

  check_activated_iff :
      (targets : List OpId) (op : Operation F) (e : ValidationError)
      → (reject (not op.initially_active && not (mem op.id targets)) e ≡ ok tt)
        ↔ (op.initially_active ≡ false → mem op.id targets ≡ true)
  check_activated_iff targets op e = orphan_iff _ _ e

  -- The checks that come after the set of ids.
  abbrev RefersTo : ProfilerCircuit F → Type 0
  RefersTo c =
      All (λ op. All (λ q. q < c.qubit_count) op.qubits) c.ops
      × (IsPlaced c.qubit_count c.qubit_positions
          × (All (Resolves c.ops) c.deps
              × (All (λ op. RefersHook c.hooks op.kind) c.ops
                  × (All (IsHook c.ops) c.hooks
                      × All
                          (λ op.
                            op.initially_active ≡ false → mem op.id (hook_targets c.hooks) ≡ true)
                          c.ops))))

  check_against-RefersTo :
      (c : ProfilerCircuit F)
      → IsUnique (ids c.ops)
      → (check_against c (gathered [] c.ops) ≡ ok tt) ↔ RefersTo c
  unfolding check_against
  check_against-RefersTo c u =
      and_then _ _ (check_each_iff _ _ (check_qubits_iff c.qubit_count) c.ops) (
        and_then _ _ (check_qubit_positions-IsPlaced c.qubit_count c.qubit_positions) (
          and_then _ _ (check_each_iff _ _ (check_dep_iff c.ops) c.deps) (
            and_then _ _ (check_each_iff _ _ (check_hook_reference_iff c.hooks) c.ops) (
              and_then _ _ (check_each_iff _ _ (λ h. check_hook_iff c.ops h u) c.hooks) (
                check_each_iff _ _
                  (λ op. check_activated_iff (hook_targets c.hooks) op (orphaned_inactive_op op.id))
                  c.ops)))))

  pub check_references-HasReferences :
      (c : ProfilerCircuit F) → (check_references c ≡ ok tt) ↔ HasReferences c
  unfolding check_references
  check_references-HasReferences c = (
    λ h.
        let (a, h1) = (both (reject (length c.ops == 0) empty_circuit) _ tt).0 h in
        let (set, b, h2) = >>=-eq-ok (collect_ids [] c.ops) _ h1 in
        let (u, e) = (collect_ids-IsUnique set c.ops).0 b in
        let some_op = (passes _ _).0 a in
        let (qubits, (positions, (deps, (measurements, (hooks, activated))))) =
          (check_against-RefersTo c u).0 (subst (λ x. check_against c x ≡ ok tt) e h2) in
        record {
          nonempty = ground arith;
          unique = u;
          qubits = qubits;
          positions = positions;
          deps = deps;
          measurements = measurements;
          hooks = hooks;
          activated = activated;
        },
    λ r.
        let set = (collect_ids-IsUnique (gathered [] c.ops) c.ops).1 (r.unique, refl) in
        (both (reject (length c.ops == 0) empty_circuit) _ tt).1 (
          (passes _ _).1 (let some_op = r.nonempty in ground arith),
          rw set (
              (check_against-RefersTo c r.unique).1
                (r.qubits, (r.positions, (r.deps, (r.measurements, (r.hooks, r.activated)))))),
        ),
  )

  validate_err :
      (c : ProfilerCircuit F) (e : ValidationError)
      → check_references c ≡ err e
      → validate c ≡ some (err e)
  unfolding validate
  validate_err c e h = rw (h, validate) refl

  validate_ok :
      (c : ProfilerCircuit F) (n : ℕ)
      → check_references c ≡ ok tt
      → visited c ≡ some n
      → (validate c ≡ some (if n == length c.ops then ok c else err cyclic_dag))
  unfolding validate
  validate_ok c n h v = rw (h, validate, v) refl

  -- `validate` returns, and accepts a circuit exactly when it is well formed, as long as the
  -- dependencies are no more than u32 counts: it has operations with ids of their own, on qubits of
  -- the circuit; every qubit has one position, where there are positions; dependencies, measurements and
  -- hooks refer to what exists; hooks activate inactive operations, and every inactive operation is
  -- activated by one; and the dependencies have no cycle.
  pub validate-IsWellFormed :
      (c : ProfilerCircuit F)
      → length c.deps ≤ u32_max
      → ((r : Result ValidationError (ProfilerCircuit F)) × (validate c ≡ some r))
        × ((validate c ≡ some (ok c)) ↔ IsWellFormed c)
  validate-IsWellFormed c few = elim (Result-cases (check_references c)) [
    | inr (e, bad) ↦ (
      (err e, validate_err c e bad),
      (λ h. cc (validate_err c e bad), λ w. cc ((check_references-HasReferences c).1 w.references)),
    )
    | inl (u, good) ↦
        let r = (check_references-HasReferences c).0 good in
        let (n, v, all) = visited-IsAcyclic c r.deps few in
        let e = validate_ok c n good v in
        (
          (_, e),
          (
            λ h. record { references = r; acyclic = all.0 (ground arith) },
            λ w. let full = all.1 w.acyclic in ground arith,
          ),
        )
  ]
