-- ===== src/Ir/Validate/Unique.antt =====
-- The sets of `validate` (crates/pirx-ir/src/validate.rs) that find what occurs twice.
use pirx.Common.{
  ℕ, ◌+◌, ◌≤◌, ◌<◌, ◌≡◌, ◌↔◌, refl, sym, subst, false, ◌||◌, List, [], ◌∷◌, Option, none, some,
  arith, leb, ◌==◌, Bool-cases, times, mem, All, ok, reject, both, passes, eq_of_ok, inl, inr,
  length, not,
}
use pirx.Ir.{OpId, QubitId, Operation, GridPosition}
use pirx.Ir.Validate.{collect_ids, check_positions, check_qubit_positions}
use pirx.Ir.Validate.Sort.{flag}
use pirx.Ir.Validate.Index.{ids}

-- Nothing occurs twice.
abbrev pub IsUnique : List ℕ → Type 0
IsUnique xs = (x : ℕ) → times x xs ≤ 1

-- Nothing occurs twice, nor once when it was seen before.
abbrev Fresh : List ℕ → List ℕ → Type 0
Fresh seen xs = (x : ℕ) → times x xs + flag (mem x seen) ≤ 1

Fresh-cons :
    (seen xs : List ℕ) (y : ℕ) → Fresh seen (y ∷ xs) ↔ ((mem y seen ≡ false) × Fresh (y ∷ seen) xs)
Fresh-cons seen xs y = (
  λ h. (
    let own = h y in ground arith,
    λ x. let here = h x in let own = h y in fresh_tail x here own,
  ),
  λ h x. fresh_head x h.0 (h.1 x),
)
  where
    fresh_tail :
        (x : ℕ)
        → times x (y ∷ xs) + flag (mem x seen) ≤ 1
        → times y (y ∷ xs) + flag (mem y seen) ≤ 1
        → times x xs + flag (mem x (y ∷ seen)) ≤ 1
    fresh_tail x h own = elim (Bool-cases (y == x)) [
      | inl same ↦ ground arith
      | inr other ↦ ground arith
    ]

    fresh_head :
        (x : ℕ)
        → mem y seen ≡ false
        → times x xs + flag (mem x (y ∷ seen)) ≤ 1
        → times x (y ∷ xs) + flag (mem x seen) ≤ 1
    fresh_head x new h = elim (Bool-cases (y == x)) [
      | inl same ↦
          let e : y ≡ x = ground arith in
          let new' = subst (λ z. mem z seen ≡ false) e new in ground arith
      | inr other ↦ ground arith
    ]

Fresh-nil : (xs : List ℕ) → Fresh [] xs ↔ IsUnique xs
Fresh-nil xs = (λ h x. let a = h x in omega arith, λ h x. let a = h x in omega arith)

abbrev position_qubits : List GridPosition → List QubitId
position_qubits [] = []
position_qubits (pos ∷ rest) = pos.qubit ∷ position_qubits rest

-- The positions of a circuit: one for each qubit.
abbrev pub IsPlaced : ℕ → Option (List GridPosition) → Type 0
IsPlaced qubit_count none = Unit
IsPlaced qubit_count (some positions) =
    (length positions ≡ qubit_count)
    × All (λ pos. pos.qubit < qubit_count) positions
    × IsUnique (position_qubits positions)

check_positions_iff :
    (n : ℕ) (seen : List QubitId) (ps : List GridPosition)
    → (check_positions n seen ps ≡ ok tt)
      ↔ (All (λ pos. pos.qubit < n) ps × Fresh seen (position_qubits ps))
unfolding check_positions
check_positions_iff n seen [] = (λ h. (tt, λ x. ground arith), λ h. refl)
check_positions_iff n seen (p ∷ ps) = (
  λ h.
      let (a, h1) = (both (reject (leb n p.qubit) _) _ tt).0 h in
      let (b, h2) = (both (reject (mem p.qubit seen) _) _ tt).0 h1 in
      let (c, d) = (check_positions_iff n (p.qubit ∷ seen) ps).0 h2 in
      let inside = (passes _ _).0 a in
      ((ground arith, c), (Fresh-cons seen (position_qubits ps) p.qubit).1 ((passes _ _).0 b, d)),
  λ h.
      let (new, d) = (Fresh-cons seen (position_qubits ps) p.qubit).0 h.1 in
      (both (reject (leb n p.qubit) _) _ tt).1 (
        (passes _ _).1 (let a = h.0.0 in ground arith),
        (both (reject (mem p.qubit seen) _) _ tt).1
            ((passes _ _).1 new, (check_positions_iff n (p.qubit ∷ seen) ps).1 (h.0.1, d)),
      ),
)

pub check_qubit_positions-IsPlaced :
    (n : ℕ) (ps : Option (List GridPosition)) → (check_qubit_positions n ps ≡ ok tt) ↔ IsPlaced n ps
unfolding check_qubit_positions
check_qubit_positions-IsPlaced n none = (λ h. tt, λ h. refl)
check_qubit_positions-IsPlaced n (some ps) = (
  λ h.
      let (a, b) = (both (reject (not (length ps == n)) _) _ tt).0 h in
      let (c, d) = (check_positions_iff n [] ps).0 b in
      let same = (passes _ _).0 a in (ground arith, c, (Fresh-nil _).0 d),
  λ h. (both (reject (not (length ps == n)) _) _ tt).1 (
    (passes _ _).1 (let a = h.0 in ground arith),
    (check_positions_iff n [] ps).1 (h.1, (Fresh-nil _).1 h.2),
  ),
)

module _ {F : Type 0} where
  -- The set of ids, after those of the operations are in it.
  abbrev pub gathered : List OpId → List (Operation F) → List OpId
  gathered id_set [] = id_set
  gathered id_set (op ∷ ops) = gathered (op.id ∷ id_set) ops

  pub mem-gathered :
      (id : OpId) (id_set : List OpId) (ops : List (Operation F))
      → mem id (gathered id_set ops) ≡ (mem id id_set || mem id (ids ops))
  mem-gathered id id_set [] = ground arith
  mem-gathered id id_set (op ∷ ops) = ground (arith, mem-gathered id (op.id ∷ id_set) ops)

  collect_ids_iff :
      (id_set s : List OpId) (ops : List (Operation F))
      → (collect_ids id_set ops ≡ ok s) ↔ (Fresh id_set (ids ops) × (s ≡ gathered id_set ops))
  unfolding collect_ids
  collect_ids_iff id_set s [] = (λ h. (λ x. ground arith, sym (eq_of_ok h)), λ h. rw (h.1) refl)
  collect_ids_iff id_set s (op ∷ ops) = (
    λ h.
        let (a, b) = (both (reject (mem op.id id_set) _) _ s).0 h in
        let (fresh, e) = (collect_ids_iff (op.id ∷ id_set) s ops).0 b in
        ((Fresh-cons id_set (ids ops) op.id).1 ((passes _ _).0 a, fresh), e),
    λ h.
        let (new, fresh) = (Fresh-cons id_set (ids ops) op.id).0 h.0 in
        (both (reject (mem op.id id_set) _) _ s).1
          ((passes _ _).1 new, (collect_ids_iff (op.id ∷ id_set) s ops).1 (fresh, h.1)),
  )

  pub collect_ids-IsUnique :
      (s : List OpId) (ops : List (Operation F))
      → (collect_ids [] ops ≡ ok s) ↔ (IsUnique (ids ops) × (s ≡ gathered [] ops))
  collect_ids-IsUnique s ops = (
    λ h. let (a, b) = (collect_ids_iff [] s ops).0 h in ((Fresh-nil (ids ops)).0 a, b),
    λ h. (collect_ids_iff [] s ops).1 ((Fresh-nil (ids ops)).1 h.0, h.1),
  )
