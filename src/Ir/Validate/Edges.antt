-- ===== src/Ir/Validate/Edges.antt =====
-- The adjacency by index that `validate` (crates/pirx-ir/src/validate.rs) builds for the sort.
use pirx.Common.{
  ℕ, suc, ◌+◌, ◌-◌, ◌≤◌, ◌<◌, ◌≡◌, refl, sym, subst, ◌∙◌, false, ◌&&◌, List, [], ◌∷◌, ◌++◌, Option,
  none, some, arith, ltb, leb, ◌==◌, if◌then◌else◌, Bool-cases, length, get_elem?, get_or, times,
  count_if-append, All, All-append, replicate, get_elem?-replicate, length-replicate,
  length-update_at, get_elem?-update_at, get_elem?-some, sat_add32, u32_max, sum_below,
  sum_below-point, sum_below_zero, inl, inr, ◌⊎◌,
}
use pirx.Ir.Validate.{succs_of, sources, Adjacency, add_edge}
use pirx.Ir.Validate.Relax.{edge}
use pirx.Ir.Validate.Sort.{IsGraph, Sorts, flag}

-- An adjacency of `n` nodes with at most `k` edges.
pub record IsBuilt (n k : ℕ) (a : Adjacency) : Type 0 where
  pub nodes : length a.in_degree ≡ n
  pub rows : length a.successors ≡ n
  pub graph : IsGraph n a.successors
  pub degrees :
      (v : ℕ)
      → v < n
      → get_or (get_elem? a.in_degree v) 0 ≡ sum_below n (λ u. edge a.successors u v)
  pub few : (v : ℕ) → sum_below n (λ u. edge a.successors u v) ≤ k

pub edge-add_edge :
    (a : Adjacency) (x y u v : ℕ)
    → x < length a.successors
    → edge (add_edge a x y).successors u v
      ≡ edge a.successors u v + (if x == u then flag (y == v) else 0)
unfolding add_edge
edge-add_edge a x y u v h = elim (Bool-cases (x == u)) [
  | inl same ↦
      let e : x ≡ u = ground arith in
      let (row, found) = get_elem?-some a.successors u (subst (λ z. z < length a.successors) e h) in
      ground (
        arith,
        get_elem?-update_at a.successors x u (λ s. s ++ y ∷ []),
        count_if-append (λ z. z == v) row (y ∷ []),
      )
  | inr other ↦ ground (arith, get_elem?-update_at a.successors x u (λ s. s ++ y ∷ []))
]

succs_of-add_edge :
    (n : ℕ) (a : Adjacency) (x y u : ℕ)
    → y < n
    → All (λ v. v < n) (succs_of a.successors u)
    → All (λ v. v < n) (succs_of (add_edge a x y).successors u)
unfolding add_edge
succs_of-add_edge n a x y u h g =
    rw (get_elem?-update_at a.successors x u (λ s. s ++ y ∷ []))
      (row_below (get_elem? a.successors u) g)
  where
    row_below :
        (o : Option (List ℕ))
        → All (λ v. v < n) (get_or o [])
        → All
            (λ v. v < n)
            (get_or
              (elim o as (λ _. Option (List ℕ)) [
                | none ↦ none
                | some s ↦ some (if x == u then s ++ y ∷ [] else s)
              ])
              [])
    row_below none g = g
    row_below (some s) g = elim (Bool-cases (x == u)) [
      | inl same ↦ rw same (All-append (λ v. v < n) s (y ∷ []) g (h, tt))
      | inr other ↦ rw other g
    ]

pub add_edge-IsBuilt :
    (n k : ℕ) (a : Adjacency) (x y : ℕ)
    → IsBuilt n k a
    → x < n
    → y < n
    → suc k ≤ u32_max
    → IsBuilt n (suc k) (add_edge a x y)
add_edge-IsBuilt n k a x y b hx hy few =
    let row : x < length a.successors = omega (arith, b.rows) in
    let sums : (v : ℕ)
        → sum_below n (λ u. edge (add_edge a x y).successors u v)
          ≡ sum_below n (λ u. edge a.successors u v) + flag (y == v) =
      λ v.
        sum_below-point n x (flag (y == v)) (λ u. edge (add_edge a x y).successors u v)
          (λ u. edge a.successors u v) hx (λ u ne. ground (arith, edge-add_edge a x y u v row))
          (ground (arith, edge-add_edge a x y x v row)) in
    record {
      nodes = unfold add_edge in (length-update_at a.in_degree y _ ∙ b.nodes);
      rows = unfold add_edge in (length-update_at a.successors x _ ∙ b.rows);
      graph = λ u. succs_of-add_edge n a x y u hy (b.graph u);
      degrees = λ v h.
          let (d, found) = get_elem?-some a.in_degree v (omega (arith, b.nodes)) in
          unfold add_edge in
          ground (
            arith,
            get_elem?-update_at a.in_degree y v (λ deg. sat_add32 deg 1),
            sums v,
            b.degrees v h,
            b.few v,
          );
      few = λ v. ground (arith, sums v, b.few v);
    }

pub edge_zero : (n u v : ℕ) → edge (replicate n []) u v ≡ 0
edge_zero n u v = ground (arith, get_elem?-replicate {A = List ℕ} n u [])

pub no_edges-IsBuilt :
    (n : ℕ) → IsBuilt n 0 (record { in_degree = replicate n 0; successors = replicate n [] })
no_edges-IsBuilt n =
    let nothing : (v : ℕ) → sum_below n (λ u. edge (replicate n []) u v) ≡ 0 =
      λ v. sum_below_zero n (λ u. edge (replicate n []) u v) (λ u h. edge_zero n u v) in
    record {
      nodes = length-replicate n 0;
      rows = length-replicate n [];
      graph = λ u.
          rw (get_elem?-replicate {A = List ℕ} n u []) (elim (Bool-cases (ltb u n)) [
            | inl inside ↦ rw inside tt
            | inr outside ↦ rw outside tt
          ]);
      degrees = λ v h. ground (arith, get_elem?-replicate {A = ℕ} n v 0, nothing v);
      few = λ v. omega (arith, nothing v);
    }

-- Among the numbers from `i` on, the queue begins with those without open edges.
sources-times :
    (i v : ℕ) (degs : List ℕ)
    → times v (sources i degs)
      ≡ flag (leb i v && ltb (v - i) (length degs) && (get_or (get_elem? degs (v - i)) 0 == 0))
unfolding sources
sources-times i v [] = ground arith
sources-times i v (d ∷ degs) =
    let split : (v < i) ⊎ (v ≡ i) ⊎ (i < v) = omega arith in
    let ih = sources-times (i + 1) v degs in
    elim split [
      | inl before ↦ ground (arith, ih)
      | inr (inl here) ↦ let first : v - i ≡ 0 = omega arith in rw first (ground (arith, ih))
      | inr (inr later) ↦
          let next : v - i ≡ suc (v - (i + 1)) = omega arith in rw next (ground (arith, ih))
    ]

-- Before the first round no node is done.
pub IsBuilt-Sorts :
    (n k : ℕ) (a : Adjacency)
    → IsBuilt n k a
    → Sorts n a.successors
        (record { in_degree = a.in_degree; queue = sources 0 a.in_degree; visited = 0 })
IsBuilt-Sorts n k a b = record {
  done = λ v. false;
  rank = λ v. 0;
  size = b.nodes;
  open_edges = b.degrees;
  queued = λ v. ground (arith, sources-times 0 v a.in_degree, b.nodes);
  closed = λ v h. cc;
  counted = sym (sum_below_zero n (λ v. if false then 1 else 0) (λ u h. refl));
  ranked = λ v h. cc;
  order = λ u v b e h. cc;
}
