-- ===== src/Ir/Validate/Index.antt =====
-- `id_to_idx` and `id_set` of `validate` (crates/pirx-ir/src/validate.rs).
use pirx.Common.{
  ℕ, suc, ◌+◌, ◌<◌, ◌≡◌, refl, true, List, [], ◌∷◌, some, arith, ◌==◌, Bool-cases, Option-cases,
  length, get_elem?, mem, inl, inr,
}
use pirx.Ir.{OpId, Operation}
use pirx.Ir.Validate.{index_of}

abbrev pub ids : {F : Type 0} → List (Operation F) → List OpId
ids [] = []
ids (op ∷ ops) = op.id ∷ ids ops

module _ {F : Type 0} where
  -- The place of an operation with an id.
  pub record Found (ops : List (Operation F)) (i : ℕ) (id : OpId) (j : ℕ) : Type 0 where
    pub place : ℕ
    pub shift : j ≡ i + place
    pub inside : place < length ops
    pub op : Operation F
    pub entry : get_elem? ops place ≡ some op
    pub same : op.id ≡ id

  pub index_of-Found :
      (ops : List (Operation F)) (i : ℕ) (id : OpId) (j : ℕ)
      → index_of i ops id ≡ some j
      → Found ops i id j
  unfolding index_of
  index_of-Found [] i id j h = cc
  index_of-Found (op ∷ ops) i id j h = elim (Option-cases (index_of (i + 1) ops id)) [
    | inr (k, later) ↦
        let f = index_of-Found ops (i + 1) id k later in
        record {
          place = suc f.place;
          shift = ground (arith, f.shift);
          inside = omega (arith, f.inside);
          op = f.op;
          entry = f.entry;
          same = f.same;
        }
    | inl here ↦ record {
      place = 0;
      shift = ground arith;
      inside = omega arith;
      op = op;
      entry = refl;
      same = ground arith;
    }
  ]

  pub index_of-some :
      (ops : List (Operation F)) (i : ℕ) (id : OpId)
      → mem id (ids ops) ≡ true
      → (j : ℕ) × (index_of i ops id ≡ some j)
  unfolding index_of
  index_of-some [] i id h = cc
  index_of-some (op ∷ ops) i id h = elim (Option-cases (index_of (i + 1) ops id)) [
    | inr (k, later) ↦ (k, rw (later, index_of) refl)
    | inl missing ↦ elim (Bool-cases (op.id == id)) [
      | inl here ↦ (i, rw (missing, index_of, here) refl)
      | inr other ↦ let (j, e) = index_of-some ops (i + 1) id (ground arith) in absurd (cc)
    ]
  ]

  pub mem_of_index_of :
      (ops : List (Operation F)) (i : ℕ) (id : OpId) (j : ℕ)
      → index_of i ops id ≡ some j
      → mem id (ids ops) ≡ true
  unfolding index_of
  mem_of_index_of [] i id j h = cc
  mem_of_index_of (op ∷ ops) i id j h = elim (Option-cases (index_of (i + 1) ops id)) [
    | inr (k, later) ↦ ground (arith, mem_of_index_of ops (i + 1) id k later)
    | inl missing ↦ ground arith
  ]
