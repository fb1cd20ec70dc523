-- ===== src/Ir/Validate/Relax.antt =====
-- The topological sort of `validate` (crates/pirx-ir/src/validate.rs), over any adjacency by index.
use pirx.Common.{
  ℕ, ◌+◌, ◌-◌, ◌≤◌, ◌<◌, ◌≡◌, refl, sym, subst, ◌∙◌, ◌&&◌, List, [], ◌∷◌, arith, ltb, leb, ◌==◌,
  if◌then◌else◌, length, get_elem?, get_or, times, count_if-append, length-update_at,
  get_elem?-update_at, get_elem?-some, All,
}
use pirx.Ir.Validate.{Kahn, relax, relax_all, succs_of}

-- How many open edges lead to a node.
abbrev pub degree : Kahn → ℕ → ℕ
degree s v = get_or (get_elem? s.in_degree v) 0

-- How many edges lead from one node to another.
abbrev pub edge : List (List ℕ) → ℕ → ℕ → ℕ
edge succs u v = times v (succs_of succs u)

relax-degree : (x v : ℕ) (s : Kahn) → degree (relax x s) v ≡ degree s v - (if x == v then 1 else 0)
unfolding relax
relax-degree x v s = ground (arith, get_elem?-update_at s.in_degree x v (λ d. d - 1))

relax-length : (x : ℕ) (s : Kahn) → length (relax x s).in_degree ≡ length s.in_degree
unfolding relax
relax-length x s = ground (arith, length-update_at s.in_degree x (λ d. d - 1))

relax-visited : (x : ℕ) (s : Kahn) → (relax x s).visited ≡ s.visited
unfolding relax
relax-visited x s = ground arith

relax-queue :
    (x v : ℕ) (s : Kahn)
    → x < length s.in_degree
    → times v (relax x s).queue ≡ times v s.queue + (if x == v && leb (degree s v) 1 then 1 else 0)
unfolding relax
relax-queue x v s h =
    ground (arith, get_elem?-some s.in_degree x h, count_if-append (λ y. y == v) s.queue (x ∷ []))

pub relax_all-degree :
    (xs : List ℕ) (v : ℕ) (s : Kahn) → degree (relax_all xs s) v ≡ degree s v - times v xs
unfolding relax_all
relax_all-degree [] v s = omega arith
relax_all-degree (x ∷ xs) v s =
    ground (arith, relax_all-degree xs v (relax x s), relax-degree x v s)

pub relax_all-length :
    (xs : List ℕ) (s : Kahn) → length (relax_all xs s).in_degree ≡ length s.in_degree
unfolding relax_all
relax_all-length [] s = refl
relax_all-length (x ∷ xs) s = relax_all-length xs (relax x s) ∙ relax-length x s

pub relax_all-visited : (xs : List ℕ) (s : Kahn) → (relax_all xs s).visited ≡ s.visited
unfolding relax_all
relax_all-visited [] s = refl
relax_all-visited (x ∷ xs) s = relax_all-visited xs (relax x s) ∙ relax-visited x s

-- A node joins the queue when its last open edges go.
pub relax_all-queue :
    (xs : List ℕ) (v : ℕ) (s : Kahn)
    → All (λ x. x < length s.in_degree) xs
    → times v xs ≤ degree s v
    → times v (relax_all xs s).queue
      ≡ times v s.queue + (if ltb 0 (times v xs) && degree s v == times v xs then 1 else 0)
unfolding relax_all
relax_all-queue [] v s h le = ground arith
relax_all-queue (x ∷ xs) v s h le =
    let ih =
      relax_all-queue xs v (relax x s)
        (subst (λ n. All (λ y. y < n) xs) (sym (relax-length x s)) h.1) in
    ground (arith, ih, relax-degree x v s, relax-queue x v s h.0)
