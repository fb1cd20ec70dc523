-- ===== src/Ir/Validate/Sort.antt =====
-- The invariant of the topological sort of `validate` (crates/pirx-ir/src/validate.rs) and its end.
use pirx.Common.{
  ℕ, zero, suc, ◌+◌, ◌-◌, ◌≤◌, ◌<◌, ◌≡◌, ◌≢◌, refl, sym, subst, ◌∙◌, Bool, true, false, not, ◌&&◌,
  List, [], ◌∷◌, some, arith, ltb, ◌==◌, if◌then◌else◌, Bool-cases, List-cases, length, times, All,
  sum_below, count_below, sum_below-point, le-sum_below, sum_below_zero, count_below-le,
  count_below_all, all_of_count_below, inl, inr, ◌⊎◌,
}
use pirx.Ir.Validate.{Kahn, succs_of, visit, sort}
use pirx.Ir.Validate.Relax.{
  degree, edge, relax_all-degree, relax_all-length, relax_all-visited, relax_all-queue,
}

-- All successors of a node are nodes.
abbrev pub IsGraph : ℕ → List (List ℕ) → Type 0
IsGraph n succs = (u : ℕ) → All (λ v. v < n) (succs_of succs u)

-- The edges from nodes that are not done.
abbrev pub remaining : (ℕ → Bool) → List (List ℕ) → ℕ → ℕ → ℕ
remaining done succs v u = if done u then 0 else edge succs u v

abbrev pub flag : Bool → ℕ
flag b = if b then 1 else 0

pub record Sorts (n : ℕ) (succs : List (List ℕ)) (s : Kahn) : Type 0 where
  pub done : ℕ → Bool
  pub rank : ℕ → ℕ
  pub size : length s.in_degree ≡ n
  pub open_edges : (v : ℕ) → v < n → degree s v ≡ sum_below n (remaining done succs v)
  pub queued : (v : ℕ) → times v s.queue ≡ flag (ltb v n && (degree s v == 0) && not (done v))
  pub closed : (v : ℕ) → done v ≡ true → (v < n) × (degree s v ≡ 0)
  pub counted : s.visited ≡ count_below n done
  pub ranked : (v : ℕ) → done v ≡ true → rank v < s.visited
  pub order :
      (u v : ℕ) → u < n → 0 < edge succs u v → done v ≡ true → (done u ≡ true) × (rank u < rank v)

-- The ranks grow along every edge.
abbrev pub IsRanking : ℕ → List (List ℕ) → (ℕ → ℕ) → Type 0
IsRanking n succs rank = (u v : ℕ) → u < n → v < n → 0 < edge succs u v → rank u < rank v

module _ (n : ℕ) (succs : List (List ℕ)) (graph : IsGraph n succs) where
  -- The node at the front of the queue.
  record Front (s : Kahn) (r : Sorts n succs s) (node : ℕ) (rest : List ℕ) : Type 0 where
    shape : s.queue ≡ node ∷ rest
    below : node < n
    free : degree s node ≡ 0
    waits : r.done node ≡ false
    behind : (v : ℕ) → times v s.queue ≡ flag (node == v) + times v rest

  front :
      (s : Kahn) (r : Sorts n succs s) (node : ℕ) (rest : List ℕ)
      → s.queue ≡ node ∷ rest
      → Front s r node rest
  front s r node rest e =
      let behind : (v : ℕ) → times v s.queue ≡ flag (node == v) + times v rest = λ v. rw e refl in
      let q = r.queued node in
      let b = behind node in
      record {
        shape = e;
        below = ground arith;
        free = ground arith;
        waits = ground arith;
        behind = behind;
      }

  abbrev done' : (s : Kahn) → Sorts n succs s → ℕ → ℕ → Bool
  done' s r node v = if node == v then true else r.done v

  abbrev rank' : (s : Kahn) → Sorts n succs s → ℕ → ℕ → ℕ
  rank' s r node v = if node == v then s.visited else r.rank v

  module _ (s : Kahn) (r : Sorts n succs s) (node : ℕ) (rest : List ℕ)
      (f : Front s r node rest) where
    -- The edges of a node that is done close.
    less_open :
        (v : ℕ)
        → sum_below n (remaining r.done succs v)
          ≡ sum_below n (remaining (done' s r node) succs v) + edge succs node v
    less_open v =
        sum_below-point n node (edge succs node v) (remaining r.done succs v)
          (remaining (done' s r node) succs v) f.below (λ u ne. ground arith)
          (ground (arith, f.waits))

    degree-visit : (v : ℕ) → degree (visit succs node rest s) v ≡ degree s v - edge succs node v
    unfolding visit
    degree-visit v = relax_all-degree (succs_of succs node) v _

    edge-le-degree : (v : ℕ) → v < n → edge succs node v ≤ degree s v
    edge-le-degree v h = omega (arith, less_open v, r.open_edges v h)

    edge_below : (v : ℕ) → n ≤ v → edge succs node v ≡ 0
    edge_below v h = none_above (succs_of succs node) v (graph node) h
      where
        none_above : (xs : List ℕ) (v : ℕ) → All (λ x. x < n) xs → n ≤ v → times v xs ≡ 0
        none_above [] v a h = refl
        none_above (x ∷ xs) v a h = ground (arith, none_above xs v a.1 h)

    edge-le : (v : ℕ) → edge succs node v ≤ degree s v
    edge-le v =
        let split : (v < n) ⊎ (n ≤ v) = omega arith in
        elim split [
          | inl inside ↦ edge-le-degree v inside
          | inr outside ↦ omega (arith, edge_below v outside)
        ]

    queue-visit :
        (v : ℕ)
        → times v (visit succs node rest s).queue
          ≡ times v rest + flag (ltb 0 (edge succs node v) && degree s v == edge succs node v)
    unfolding visit
    queue-visit v =
        relax_all-queue (succs_of succs node) v (record s { queue = rest; visited = s.visited + 1 })
          (subst (λ m. All (λ x. x < m) (succs_of succs node)) (sym r.size) (graph node))
          (edge-le v)

    visited-visit : (visit succs node rest s).visited ≡ s.visited + 1
    unfolding visit
    visited-visit = relax_all-visited (succs_of succs node) _

    length-visit : length (visit succs node rest s).in_degree ≡ n
    unfolding visit
    length-visit = relax_all-length (succs_of succs node) _ ∙ r.size

    -- No edge leads back from the node to one that is done, or to itself.
    forward : (v : ℕ) → done' s r node v ≡ true → edge succs node v ≡ 0
    forward v h = elim (Bool-cases (node == v)) [
      | inl same ↦
          let e : node ≡ v = ground arith in
          omega (arith, edge-le v, subst (λ x. degree s x ≡ 0) e f.free)
      | inr other ↦
          let d : r.done v ≡ true = ground arith in
          let (_, zero_degree) = r.closed v d in omega (arith, edge-le v)
    ]

    queued-visit :
        (v : ℕ)
        → times v (visit succs node rest s).queue
          ≡ flag (ltb v n && (degree (visit succs node rest s) v == 0) && not (done' s r node v))
    queued-visit v = elim (Bool-cases (node == v)) [
      | inl same ↦
          let e : node ≡ v = ground arith in
          let free = subst (λ x. degree s x ≡ 0) e f.free in
          let waits = subst (λ x. r.done x ≡ false) e f.waits in
          let below = subst (λ x. x < n) e f.below in
          ground (arith, queue-visit v, degree-visit v, f.behind v, r.queued v, edge-le v)
      | inr other ↦ elim (Bool-cases (r.done v)) [
        | inl d ↦
            let (inside, free) = r.closed v d in
            ground (arith, queue-visit v, degree-visit v, f.behind v, r.queued v, edge-le v)
        | inr d ↦
            ground (
              arith,
              queue-visit v,
              degree-visit v,
              f.behind v,
              r.queued v,
              edge-le v,
              edge_below v,
            )
      ]
    ]

    -- A node without open edges has only predecessors that are done.
    before : (u v : ℕ) → u < n → v < n → 0 < edge succs u v → degree s v ≡ 0 → r.done u ≡ true
    before u v b c e z =
        let le = le-sum_below n u (remaining r.done succs v) b in ground (arith, r.open_edges v c)

    order-visit :
        (u v : ℕ)
        → u < n
        → 0 < edge succs u v
        → done' s r node v ≡ true
        → (r.done u ≡ true) × (rank' s r node u < rank' s r node v)
    order-visit u v b e h = elim (Bool-cases (node == v)) [
      | inl same ↦
          let eq : node ≡ v = ground arith in
          let d =
            before u v b (subst (λ x. x < n) eq f.below) e
              (subst (λ x. degree s x ≡ 0) eq f.free) in
          let lower = r.ranked u d in
          let other : node ≢ u = λ q. cc (subst (λ x. r.done x ≡ false) q f.waits, d) in
          (d, ground arith)
      | inr differs ↦
          let dv : r.done v ≡ true = ground arith in
          let (d, lower) = r.order u v b e dv in
          let other : node ≢ u = λ q. cc (subst (λ x. r.done x ≡ false) q f.waits, d) in
          (d, ground arith)
    ]

    ranked-visit :
        (v : ℕ) → done' s r node v ≡ true → rank' s r node v < (visit succs node rest s).visited
    ranked-visit v h = elim (Bool-cases (node == v)) [
      | inl same ↦ ground (arith, visited-visit)
      | inr other ↦
          let d : r.done v ≡ true = ground arith in ground (arith, visited-visit, r.ranked v d)
    ]

    closed-visit :
        (v : ℕ) → done' s r node v ≡ true → (v < n) × (degree (visit succs node rest s) v ≡ 0)
    closed-visit v h = elim (Bool-cases (node == v)) [
      | inl same ↦
          let e : node ≡ v = ground arith in
          let free = subst (λ x. degree s x ≡ 0) e f.free in
          (subst (λ x. x < n) e f.below, omega (arith, degree-visit v))
      | inr other ↦
          let d : r.done v ≡ true = ground arith in
          let (inside, free) = r.closed v d in (inside, omega (arith, degree-visit v))
    ]

    counted-visit : (visit succs node rest s).visited ≡ count_below n (done' s r node)
    counted-visit =
        let more =
          sum_below-point n node 1 (λ v. if done' s r node v then 1 else 0)
            (λ v. if r.done v then 1 else 0) f.below (λ u ne. ground arith)
            (ground (arith, f.waits)) in
        omega (arith, visited-visit, r.counted)

    visit-Sorts : Sorts n succs (visit succs node rest s)
    visit-Sorts = record {
      done = done' s r node;
      rank = rank' s r node;
      size = length-visit;
      open_edges = λ v h. omega (arith, degree-visit v, r.open_edges v h, less_open v);
      queued = queued-visit;
      closed = closed-visit;
      counted = counted-visit;
      ranked = ranked-visit;
      order = λ u v b e h. let (d, lower) = order-visit u v b e h in (ground arith, lower);
    }

  -- How the sort ends: with an empty queue, in a state of which the invariant holds.
  pub record Ends (count : ℕ) : Type 0 where
    pub final : Kahn
    pub sorts : Sorts n succs final
    pub empty : final.queue ≡ []
    pub visits : count ≡ final.visited

  sort_empty : (fuel : ℕ) (s : Kahn) → s.queue ≡ [] → sort succs fuel s ≡ some s.visited
  unfolding sort
  sort_empty zero s e = rw (e, sort) refl
  sort_empty (suc fuel) s e = rw (e, sort) refl

  sort_next :
      (fuel : ℕ) (s : Kahn) (node : ℕ) (rest : List ℕ)
      → s.queue ≡ node ∷ rest
      → sort succs (suc fuel) s ≡ sort succs fuel (visit succs node rest s)
  unfolding sort
  sort_next fuel s node rest e = rw (e, sort) refl

  sort_end :
      (fuel : ℕ) (s : Kahn)
      → Sorts n succs s
      → s.queue ≡ []
      → (count : ℕ) × (sort succs fuel s ≡ some count) × Ends count
  sort_end fuel s r empty = (
    s.visited,
    sort_empty fuel s empty,
    record { final = s; sorts = r; empty = empty; visits = refl },
  )

  -- With as much fuel as nodes are left the sort ends.
  pub sort-Ends :
      (fuel : ℕ) (s : Kahn)
      → Sorts n succs s
      → n ≤ s.visited + fuel
      → (count : ℕ) × (sort succs fuel s ≡ some count) × Ends count
  sort-Ends zero s r enough = elim (List-cases s.queue) [
    | inl empty ↦ sort_end zero s r empty
    | inr (node, rest, e) ↦
        let f = front s r node rest e in
        let full : count_below n r.done ≡ n = omega (arith, r.counted, count_below-le n r.done) in
        absurd (cc (all_of_count_below n r.done full node f.below, f.waits))
  ]
  sort-Ends (suc fuel) s r enough = elim (List-cases s.queue) [
    | inl empty ↦ sort_end (suc fuel) s r empty
    | inr (node, rest, e) ↦
        let f = front s r node rest e in
        let (count, ran, ends) =
          sort-Ends fuel (visit succs node rest s) (visit-Sorts s r node rest f)
            (omega (arith, visited-visit s r node rest f)) in
        (count, sort_next fuel s node rest e ∙ ran, ends)
  ]

  pub all_visited-IsRanking :
      (count : ℕ) (e : Ends count) → count ≡ n → IsRanking n succs e.sorts.rank
  all_visited-IsRanking count e full u v a b h =
      let done = all_of_count_below n e.sorts.done (omega (arith, e.sorts.counted, e.visits)) v b in
      (e.sorts.order u v a h done).1

  all_done :
      (rank : ℕ → ℕ)
      → IsRanking n succs rank
      → (count : ℕ) (e : Ends count) (bound v : ℕ) → v < n
      → rank v < bound
      → e.sorts.done v ≡ true
  all_done rank h count e zero v b l = absurd (omega arith)
  all_done rank h count e (suc bound) v b l = elim (Bool-cases (e.sorts.done v)) [
    | inl d ↦ d
    | inr waits ↦
        let none_open = sum_below_zero n (remaining e.sorts.done succs v) (λ u a.
          elim (Bool-cases (ltb 0 (edge succs u v))) [
            | inl some_edge ↦
                let d =
                  all_done rank h count e bound u a
                    (let lower = h u v a b (ground arith) in omega arith) in
                ground arith
            | inr no_edge ↦ ground arith
          ]) in
        let nothing : times v e.final.queue ≡ 0 = rw e.empty refl in
        absurd (ground (arith, e.sorts.queued v, e.sorts.open_edges v b))
  ]

  pub ranked-all_visited :
      (rank : ℕ → ℕ) → IsRanking n succs rank → (count : ℕ) → Ends count → count ≡ n
  ranked-all_visited rank h count e =
      let full =
        count_below_all n e.sorts.done
          (λ v b. all_done rank h count e (suc (rank v)) v b (omega arith)) in
      omega (arith, e.sorts.counted, e.visits)
