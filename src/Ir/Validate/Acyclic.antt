-- ===== src/Ir/Validate/Acyclic.antt =====
-- The acyclicity check of `validate` (crates/pirx-ir/src/validate.rs): when all operations are visited.
use pirx.Common.{
  length-replicate, length-update_at, ◌&&◌, ℕ, suc, ◌+◌, ◌≤◌, ◌<◌, ◌≡◌, ◌↔◌, refl, subst, ap, ◌∙◌,
  true, List, [], ◌∷◌, none, some, arith, ◌==◌, if◌then◌else◌, Bool-cases, length, get_elem?, All,
  u32_max, mem, inl, inr,
}
use pirx.Ir.{OpId, Operation, Dependency, ProfilerCircuit}
use pirx.Ir.Validate.{Adjacency, add_edge, add_edges, adjacency, index_of, visited}
use pirx.Ir.Validate.Relax.{edge}
use pirx.Ir.Validate.Sort.{
  Ends, IsRanking, sort-Ends, all_visited-IsRanking, ranked-all_visited, flag,
}
use pirx.Ir.Validate.Edges.{
  IsBuilt, add_edge-IsBuilt, edge-add_edge, edge_zero, no_edges-IsBuilt, IsBuilt-Sorts,
}
use pirx.Ir.Validate.Index.{ids, index_of-Found, index_of-some}

-- The ranks grow along every dependency.
abbrev pub Ranks : (OpId → ℕ) → List Dependency → Type 0
Ranks rank deps = All (λ dep. rank dep.from < rank dep.to) deps

-- The dependencies have no cycle: there is such a ranking.
abbrev pub IsAcyclic : List Dependency → Type 0
IsAcyclic deps = (rank : OpId → ℕ) × Ranks rank deps

-- Both ends of the dependency are operations.
abbrev pub Resolves : {F : Type 0} → List (Operation F) → Dependency → Type 0
Resolves ops dep = (mem dep.from (ids ops) ≡ true) × (mem dep.to (ids ops) ≡ true)

-- A number that grows along every edge.
abbrev Grows : (ℕ → ℕ) → Adjacency → Type 0
Grows r a = (u v : ℕ) → 0 < edge a.successors u v → r u < r v

add_edge-rows : (a : Adjacency) (x y : ℕ) → length (add_edge a x y).successors ≡ length a.successors
unfolding add_edge
add_edge-rows a x y = length-update_at a.successors x _

grown :
    (r : ℕ → ℕ) (a : Adjacency) (x y u v : ℕ)
    → r x < r y
    → (0 < edge a.successors u v → r u < r v)
    → edge (add_edge a x y).successors u v
      ≡ edge a.successors u v + (if x == u then flag (y == v) else 0)
    → 0 < edge (add_edge a x y).successors u v
    → r u < r v
grown r a x y u v lower old e p = elim (Bool-cases (x == u && y == v)) [
  | inl new ↦
      let eu : x ≡ u = ground arith in
      let ev : y ≡ v = ground arith in subst (λ z. r u < r z) ev (subst (λ z. r z < r y) eu lower)
  | inr other ↦ old (ground arith)
]

module _ {F : Type 0} where
  -- The edge of a dependency.
  record Edge (ops : List (Operation F)) (dep : Dependency) : Type 0 where
    source : ℕ
    target : ℕ
    source_below : source < length ops
    target_below : target < length ops
    source_found : index_of 0 ops dep.from ≡ some source
    target_found : index_of 0 ops dep.to ≡ some target

  resolve_dep : (ops : List (Operation F)) (dep : Dependency) → Resolves ops dep → Edge ops dep
  resolve_dep ops dep h =
      let (u, e) = index_of-some ops 0 dep.from h.0 in
      let (v, g) = index_of-some ops 0 dep.to h.1 in
      let fu = index_of-Found ops 0 dep.from u e in
      let fv = index_of-Found ops 0 dep.to v g in
      record {
        source = u;
        target = v;
        source_below = omega (arith, fu.shift, fu.inside);
        target_below = omega (arith, fv.shift, fv.inside);
        source_found = e;
        target_found = g;
      }

  add_edges-cons :
      (ops : List (Operation F)) (dep : Dependency) (deps : List Dependency) (a : Adjacency)
      (e : Edge ops dep)
      → add_edges ops (dep ∷ deps) a ≡ add_edges ops deps (add_edge a e.source e.target)
  unfolding add_edges
  add_edges-cons ops dep deps a e = rw (e.source_found, e.target_found) refl

  add_edges-IsBuilt :
      (ops : List (Operation F)) (deps : List Dependency) (k : ℕ) (a : Adjacency)
      → All (Resolves ops) deps
      → IsBuilt (length ops) k a
      → k + length deps ≤ u32_max
      → IsBuilt (length ops) (k + length deps) (add_edges ops deps a)
  add_edges-IsBuilt ops [] k a h b few =
      let e : k + 0 ≡ k = omega arith in unfold add_edges in rw e b
  add_edges-IsBuilt ops (dep ∷ deps) k a h b few =
      let e = resolve_dep ops dep h.0 in
      let e' : k + suc (length deps) ≡ suc k + length deps = omega arith in
      rw (add_edges-cons ops dep deps a e, e')
        (add_edges-IsBuilt ops deps (suc k) (add_edge a e.source e.target) h.1
          (add_edge-IsBuilt (length ops) k a e.source e.target b e.source_below e.target_below
            (omega arith))
          (omega arith))

  -- Every edge comes from a dependency: what ranks the dependencies ranks the edges.
  add_edges-Grows :
      (r : ℕ → ℕ) (rank : OpId → ℕ) (ops : List (Operation F)) (deps : List Dependency)
      (a : Adjacency)
      → All (Resolves ops) deps
      → length a.successors ≡ length ops
      → ((id : OpId) (i : ℕ) → index_of 0 ops id ≡ some i → r i ≡ rank id)
      → Ranks rank deps
      → Grows r a
      → Grows r (add_edges ops deps a)
  add_edges-Grows r rank ops [] a h l same ranks g = unfold add_edges in g
  add_edges-Grows r rank ops (dep ∷ deps) a h l same ranks g =
      let e = resolve_dep ops dep h.0 in
      let x = e.source in
      let y = e.target in
      let lower : r x < r y =
        omega (arith, same dep.from x e.source_found, same dep.to y e.target_found, ranks.0) in
      rw (add_edges-cons ops dep deps a e) (
        add_edges-Grows r rank ops deps (add_edge a x y) h.1 (add_edge-rows a x y ∙ l) same ranks.1
          (λ u v p.
            grown r a x y u v lower (g u v)
              (omega (arith, edge-add_edge a x y u v (omega (arith, l, e.source_below)))) p))

  add_edges_mono :
      (ops : List (Operation F)) (deps : List Dependency) (a : Adjacency) (u v : ℕ)
      → All (Resolves ops) deps
      → length a.successors ≡ length ops
      → edge a.successors u v ≤ edge (add_edges ops deps a).successors u v
  add_edges_mono ops [] a u v h l = unfold add_edges in omega arith
  add_edges_mono ops (dep ∷ deps) a u v h l =
      let e = resolve_dep ops dep h.0 in
      let next = add_edge a e.source e.target in
      rw (add_edges-cons ops dep deps a e) (
        omega (
          arith,
          add_edges_mono ops deps next u v h.1 (add_edge-rows a e.source e.target ∙ l),
          edge-add_edge a e.source e.target u v (omega (arith, l, e.source_below)),
        ))

  -- The rank of an operation's place.
  abbrev rank_of : List (Operation F) → (ℕ → ℕ) → OpId → ℕ
  rank_of ops r id = elim (index_of 0 ops id) [ none ↦ 0 | some i ↦ r i ]

  -- Every dependency has an edge: what ranks the edges ranks the dependencies.
  add_edges-Ranks :
      (r : ℕ → ℕ) (ops : List (Operation F)) (deps : List Dependency) (a : Adjacency)
      → All (Resolves ops) deps
      → length a.successors ≡ length ops
      → IsRanking (length ops) (add_edges ops deps a).successors r
      → Ranks (rank_of ops r) deps
  add_edges-Ranks r ops [] a h l g = tt
  add_edges-Ranks r ops (dep ∷ deps) a h l g =
      let e = resolve_dep ops dep h.0 in
      let x = e.source in
      let y = e.target in
      let next = add_edge a x y in
      let l' = add_edge-rows a x y ∙ l in
      let g' =
        subst (λ b. IsRanking (length ops) b.successors r) (add_edges-cons ops dep deps a e) g in
      let own : 0 < edge next.successors x y =
        ground (arith, edge-add_edge a x y x y (omega (arith, l, e.source_below))) in
      let lower : r x < r y =
        g' x y e.source_below e.target_below
          (omega (arith, own, add_edges_mono ops deps next x y h.1 l')) in
      (
        rw (rank_of, e.source_found, e.target_found) lower,
        add_edges-Ranks r ops deps next h.1 l' g',
      )

  -- The rank of the operation at a place.
  abbrev rank_at : List (Operation F) → (OpId → ℕ) → ℕ → ℕ
  rank_at ops rank i = elim (get_elem? ops i) [ none ↦ 0 | some op ↦ rank op.id ]

  rank_at-index_of :
      (ops : List (Operation F)) (rank : OpId → ℕ) (id : OpId) (i : ℕ)
      → index_of 0 ops id ≡ some i
      → rank_at ops rank i ≡ rank id
  rank_at-index_of ops rank id i h =
      let f = index_of-Found ops 0 id i h in
      let e : i ≡ f.place = omega (arith, f.shift) in rw (e, rank_at, f.entry) (ap rank f.same)

  adjacency-Grows :
      (c : ProfilerCircuit F) (rank : OpId → ℕ)
      → All (Resolves c.ops) c.deps
      → Ranks rank c.deps
      → Grows (rank_at c.ops rank) (adjacency c)
  unfolding adjacency
  adjacency-Grows c rank h ranks =
      add_edges-Grows (rank_at c.ops rank) rank c.ops c.deps _ h
        (length-replicate (length c.ops) []) (rank_at-index_of c.ops rank) ranks
        (λ u v p. absurd (omega (arith, edge_zero (length c.ops) u v)))

  adjacency-Ranks :
      (c : ProfilerCircuit F) (r : ℕ → ℕ)
      → All (Resolves c.ops) c.deps
      → IsRanking (length c.ops) (adjacency c).successors r
      → Ranks (rank_of c.ops r) c.deps
  unfolding adjacency
  adjacency-Ranks c r h g =
      add_edges-Ranks r c.ops c.deps _ h (length-replicate (length c.ops) []) g

  -- The parts of a sort that ended.
  record Sorted (c : ProfilerCircuit F) : Type 0 where
    built : IsBuilt (length c.ops) (length c.deps) (adjacency c)
    count : ℕ
    ran : visited c ≡ some count
    ends : Ends (length c.ops) (adjacency c).successors built.graph count

  adjacency-IsBuilt :
      (c : ProfilerCircuit F)
      → All (Resolves c.ops) c.deps
      → length c.deps ≤ u32_max
      → IsBuilt (length c.ops) (length c.deps) (adjacency c)
  unfolding adjacency
  adjacency-IsBuilt c h few =
      let k : 0 + length c.deps ≡ length c.deps = omega arith in
      subst (λ m. IsBuilt (length c.ops) m (adjacency c)) k
        (add_edges-IsBuilt c.ops c.deps 0 _ h (no_edges-IsBuilt (length c.ops)) (omega arith))

  sorted :
      (c : ProfilerCircuit F) → All (Resolves c.ops) c.deps → length c.deps ≤ u32_max → Sorted c
  sorted c h few =
      let b = adjacency-IsBuilt c h few in
      let (count, ran, ends) =
        sort-Ends (length c.ops) (adjacency c).successors b.graph (length c.ops) _
          (IsBuilt-Sorts (length c.ops) (length c.deps) (adjacency c) b) (omega arith) in
      record { built = b; count = count; ran = unfold visited in ran; ends = ends }

  pub visited-IsAcyclic :
      (c : ProfilerCircuit F)
      → All (Resolves c.ops) c.deps
      → length c.deps ≤ u32_max
      → (count : ℕ) × (visited c ≡ some count) × ((count ≡ length c.ops) ↔ IsAcyclic c.deps)
  visited-IsAcyclic c h few =
      let s = sorted c h few in
      let n = length c.ops in
      (
        s.count,
        s.ran,
        (
          λ full.
              let r =
                all_visited-IsRanking n (adjacency c).successors s.built.graph s.count s.ends
                  full in
              (rank_of c.ops s.ends.sorts.rank, adjacency-Ranks c s.ends.sorts.rank h r),
          λ acyclic.
              ranked-all_visited n (adjacency c).successors s.built.graph (rank_at c.ops acyclic.0)
                (λ u v _ _ p. adjacency-Grows c acyclic.0 h acyclic.1 u v p) s.count s.ends,
        ),
      )
