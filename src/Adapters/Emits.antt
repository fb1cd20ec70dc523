-- ===== src/Adapters/Emits.antt =====
-- What the circuit builder of the adapters (crates/pirx-adapters/src/tket_json.rs) emits is well formed.
use Prim.Native.String.{String}
use pirx.Common.{
  ℕ, zero, suc, ◌+◌, ◌≤◌, ◌<◌, ◌≡◌, refl, sym, subst, ◌∙◌, true, false, List, [], ◌∷◌, ◌++◌, Option,
  none, some, arith, ltb, ◌==◌, if◌then◌else◌, All, All-append, All-map, length, set, replicate,
  mem, times, Bool-cases, inl, inr, ok, u32_max, u64_max,
}
use pirx.Ir.{QubitId, OpId, OpKind, Operation, Dependency}
use pirx.Ir.Validate.Index.{ids}
use pirx.Ir.Validate.Acyclic.{Resolves}
use pirx.Ir.Validate.WellFormed.{RefersHook, IsWellFormed, validate-IsWellFormed}
use pirx.Analysis.{started_at}
use pirx.Adapters.{
  CircuitBuilder, new_builder, depend, link, count_op, emit_operation, emit_all, built_circuit,
  finish_builder,
}

abbrev pub Distinct : List QubitId → Type 0
Distinct [] = Unit
Distinct (q ∷ qs) = (mem q qs ≡ false) × Distinct qs

-- A gate on distinct qubits of the circuit, and no measurement with a hook.
pub record IsGate {F : Type 0} (n : ℕ) (gate : OpKind F × List QubitId) : Type 0 where
  pub hookless : RefersHook [] gate.0
  pub placed : All (λ q. q < n) gate.1
  pub distinct : Distinct gate.1

abbrev Below : ℕ → Option OpId → Type 0
Below n none = Unit
Below n (some id) = id < n

abbrev IsForward : ℕ → Dependency → Type 0
IsForward n dep = (dep.from < dep.to) × (dep.to < n)

started_at-set :
    (xs : List (Option OpId)) (q r : ℕ) (v : Option OpId)
    → (q == r) ≡ false
    → started_at (set xs q v) r ≡ started_at xs r
started_at-set [] q r v h = refl
started_at-set (x ∷ xs) zero zero v h = cc
started_at-set (x ∷ xs) zero (suc r) v h = refl
started_at-set (x ∷ xs) (suc q) zero v h = refl
started_at-set (x ∷ xs) (suc q) (suc r) v h = started_at-set xs q r v (ground arith)

started_at-Below :
    (n : ℕ) (xs : List (Option OpId)) (q : ℕ) → All (Below n) xs → Below n (started_at xs q)
started_at-Below n [] q h = tt
started_at-Below n (x ∷ xs) zero h = h.0
started_at-Below n (x ∷ xs) (suc q) h = started_at-Below n xs q h.1

set-Below :
    (n : ℕ) (xs : List (Option OpId)) (q : ℕ) (v : Option OpId)
    → All (Below n) xs
    → Below n v
    → All (Below n) (set xs q v)
set-Below n [] q v h b = tt
set-Below n (x ∷ xs) zero v h b = (b, h.1)
set-Below n (x ∷ xs) (suc q) v h b = (h.0, set-Below n xs q v h.1 b)

later-Below : (n : ℕ) (o : Option OpId) → Below n o → Below (n + 1) o
later-Below n none h = tt
later-Below n (some id) h = omega arith

depend-IsForward :
    (id : OpId) (o : Option OpId) (deps : List Dependency)
    → Below id o
    → All (IsForward (id + 1)) deps
    → All (IsForward (id + 1)) (depend id o deps)
depend-IsForward id none deps b h = h
depend-IsForward id (some prev) deps b h =
    All-append (IsForward (id + 1)) deps _ h ((b, omega arith), tt)

-- The qubits that are still to be linked had earlier operations last.
link-IsForward :
    (id : OpId) (qs : List QubitId) (last : List (Option OpId)) (deps : List Dependency)
    → Distinct qs
    → ((q : ℕ) → mem q qs ≡ true → Below id (started_at last q))
    → All (Below (id + 1)) last
    → All (IsForward (id + 1)) deps
    → All (Below (id + 1)) (link id qs (last, deps)).0
      × All (IsForward (id + 1)) (link id qs (last, deps)).1
unfolding link
link-IsForward id [] last deps d before b h = (b, h)
link-IsForward id (q ∷ qs) last deps d before b h =
    link-IsForward id qs (set last q (some id)) (depend id (started_at last q) deps) d.1
      (λ r inside. elim (Bool-cases (q == r)) [
        | inl same ↦ absurd (ground (arith, d.0, inside, same))
        | inr other ↦
            subst (Below id) (sym (started_at-set last q r (some id) other))
              (before r (ground arith))
      ])
      (set-Below (id + 1) last q (some id) b (omega arith))
      (depend-IsForward id (started_at last q) deps (before q (ground arith)) h)

-- What the builder has built so far, of the next id `n`.
record Builds {F : Type 0} (count n : ℕ) (b : CircuitBuilder F) : Type 0 where
  next : b.next_id ≡ n
  qubits : b.qubit_count ≡ count
  each : (k : ℕ) → times k (ids b.ops) ≡ (if ltb k n then 1 else 0)
  placed : All (λ op. All (λ q. q < count) op.qubits) b.ops
  hookless : All (λ op. RefersHook [] op.kind) b.ops
  active : All (λ op. op.initially_active ≡ false → mem op.id [] ≡ true) b.ops
  forward : All (IsForward n) b.deps
  last : All (Below n) b.last_on_qubit

later-IsForward : (n : ℕ) (dep : Dependency) → IsForward n dep → IsForward (n + 1) dep
later-IsForward n dep h = (h.0, omega arith)

times-ids :
    {F : Type 0} (k : ℕ) (ops : List (Operation F)) (op : Operation F)
    → times k (ids (ops ++ op ∷ [])) ≡ times k (ids ops) + (if op.id == k then 1 else 0)
times-ids k [] op = omega arith
times-ids k (x ∷ ops) op = omega (arith, times-ids k ops op)

count_op-qubit_count :
    {F : Type 0} (kind : OpKind F) (b : CircuitBuilder F)
    → (count_op kind b).qubit_count ≡ b.qubit_count
unfolding count_op
count_op-qubit_count OpKind.t_gate b = refl
count_op-qubit_count OpKind.clifford b = refl
count_op-qubit_count (OpKind.rotation angle) b = refl
count_op-qubit_count (OpKind.measurement hook) b = refl

module _ {F : Type 0} (count n : ℕ) where
  emit_operation-Builds :
      (b : CircuitBuilder F) (kind : OpKind F) (qubits : List QubitId)
      → n < u64_max
      → IsGate count (kind, qubits)
      → Builds count n b
      → Builds count (n + 1) (emit_operation b kind qubits)
  unfolding emit_operation
  emit_operation-Builds b kind qubits few g h =
      let now : All (Below b.next_id) b.last_on_qubit =
        subst (λ m. All (Below m) b.last_on_qubit) (sym h.next) h.last in
      let forward : All (IsForward b.next_id) b.deps =
        subst (λ m. All (IsForward m) b.deps) (sym h.next) h.forward in
      let linked =
        link-IsForward b.next_id qubits b.last_on_qubit b.deps g.distinct
          (λ q inside. started_at-Below b.next_id b.last_on_qubit q now)
          (All-map (Below b.next_id) (Below (b.next_id + 1)) (later-Below b.next_id) b.last_on_qubit
            now)
          (All-map (IsForward b.next_id) (IsForward (b.next_id + 1)) (later-IsForward b.next_id)
            b.deps forward) in
      let next = h.next in
      record {
        next = omega arith;
        qubits = count_op-qubit_count kind b ∙ h.qubits;
        each = λ k.
            let e = h.each k in
            let t =
              times-ids k b.ops (record {
                id = b.next_id;
                kind = kind;
                qubits = qubits;
                initially_active = true;
              }) in
            ground arith;
        placed = All-append (λ op. All (λ q. q < count) op.qubits) b.ops _ h.placed (g.placed, tt);
        hookless = All-append (λ op. RefersHook [] op.kind) b.ops _ h.hookless (g.hookless, tt);
        active =
            All-append (λ op. op.initially_active ≡ false → mem op.id [] ≡ true) b.ops _ h.active
              ((λ e. cc), tt);
        forward =
            subst (λ m. All (IsForward (m + 1)) (link b.next_id qubits (b.last_on_qubit, b.deps)).1)
              h.next linked.1;
        last =
            subst (λ m. All (Below (m + 1)) (link b.next_id qubits (b.last_on_qubit, b.deps)).0)
              h.next linked.0;
      }

none-Below : (k : ℕ) → All (Below 0) (replicate k none)
none-Below zero = tt
none-Below (suc k) = (tt, none-Below k)

module _ {F : Type 0} (count : ℕ) where
  emit_all-Builds :
      (n : ℕ) (gates : List (OpKind F × List QubitId)) (b : CircuitBuilder F)
      → n + length gates ≤ u64_max
      → All (IsGate count) gates
      → Builds count n b
      → Builds count (n + length gates) (emit_all gates b)
  unfolding emit_all
  emit_all-Builds n [] b few g h = subst (λ m. Builds count m b) (omega arith) h
  emit_all-Builds n ((kind, qubits) ∷ gates) b few g h =
      subst (λ m. Builds count m (emit_all gates (emit_operation b kind qubits))) (omega arith)
        (emit_all-Builds (n + 1) gates (emit_operation b kind qubits) (omega arith) g.1
          (emit_operation-Builds count n b kind qubits (omega arith) g.0 h))

  new_builder-Builds : Builds count 0 (new_builder {F = F} count)
  unfolding new_builder
  new_builder-Builds = record {
    next = refl;
    qubits = refl;
    each = λ k. ground arith;
    placed = tt;
    hookless = tt;
    active = tt;
    forward = tt;
    last = none-Below count;
  }

mem_of_times : (k : ℕ) (xs : List ℕ) → 0 < times k xs → mem k xs ≡ true
mem_of_times k [] h = absurd (omega arith)
mem_of_times k (x ∷ xs) h = elim (Bool-cases (x == k)) [
  | inl same ↦ rw same refl
  | inr other ↦ rw other (mem_of_times k xs (ground arith))
]

length-ids : {F : Type 0} (ops : List (Operation F)) → 0 < times 0 (ids ops) → 0 < length ops
length-ids [] h = absurd (omega arith)
length-ids (op ∷ ops) h = omega arith

module _ {F : Type 0} where
  built_circuit-IsWellFormed :
      (count n : ℕ) (b : CircuitBuilder F) (name framework : String)
      → 0 < n
      → Builds count n b
      → IsWellFormed (built_circuit b name framework)
  unfolding built_circuit
  built_circuit-IsWellFormed count n b name framework some_gate h = record {
    references = record {
      nonempty = length-ids b.ops (let e = h.each 0 in ground arith);
      unique = λ k. let e = h.each k in ground arith;
      qubits = subst (λ m. All (λ op. All (λ q. q < m) op.qubits) b.ops) (sym h.qubits) h.placed;
      positions = tt;
      deps =
          All-map (IsForward n) (Resolves b.ops)
            (λ dep f. (
              mem_of_times dep.from (ids b.ops)
                  (let e = h.each dep.from in let l = f.0 in let m = f.1 in ground arith),
              mem_of_times dep.to (ids b.ops)
                  (let e = h.each dep.to in let m = f.1 in ground arith),
            ))
            b.deps h.forward;
      measurements = h.hookless;
      hooks = tt;
      activated = h.active;
    };
    acyclic = (
      λ id. id,
      All-map (IsForward n) (λ dep. dep.from < dep.to) (λ dep f. f.0) b.deps h.forward,
    );
  }

  -- The circuit that is built of some gates passes the validation, when every gate is on distinct qubits
  -- of the circuit, none is a measurement with a hook, and the gates and the dependencies are no more
  -- than u64 and u32 count.
  pub finish_builder-ok :
      (count : ℕ) (gates : List (OpKind F × List QubitId)) (name framework : String)
      → 0 < length gates
      → length gates ≤ u64_max
      → All (IsGate count) gates
      → length (emit_all gates (new_builder count)).deps ≤ u32_max
      → finish_builder (emit_all gates (new_builder count)) name framework
        ≡ some (ok (built_circuit (emit_all gates (new_builder count)) name framework))
  unfolding finish_builder
  finish_builder-ok count gates name framework some_gate few g deps =
      let b = emit_all gates (new_builder count) in
      let h =
        emit_all-Builds count 0 gates (new_builder count) (omega arith) g
          (new_builder-Builds count) in
      (validate-IsWellFormed (built_circuit b name framework) (unfold built_circuit in deps)).1.1
        (built_circuit-IsWellFormed count (0 + length gates) b name framework (omega arith) h)
