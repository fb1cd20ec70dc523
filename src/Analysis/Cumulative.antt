-- ===== src/Analysis/Cumulative.antt =====
-- The running sums (crates/pirx-core/src/analysis/profile.rs).
use pirx.Common.{
  ℕ, zero, suc, ◌+◌, ◌<◌, ◌≡◌, refl, sym, ap, ◌∙◌, min, Bool, ◌&&◌, List, [], ◌∷◌, some, ltb, arith,
  ◌==◌, count_if, get_elem?, length, sum_below, sum_below-suc, sat_add64, u64_max, eq_of_some,
}
use pirx.Analysis.{running_sums}

-- Entry `j` is the sum of the entries up to `j`, up to the range of u64.
pub running_sums-sum_below :
    (cs : List ℕ) (running j : ℕ) (c : ℕ → ℕ)
    → ((i : ℕ) → i < length cs → get_elem? cs i ≡ some (c i))
    → j < length cs
    → get_elem? (running_sums (min running u64_max) cs) j
      ≡ some (min (running + sum_below (suc j) c) u64_max)
unfolding running_sums
running_sums-sum_below [] running j c e h = absurd (omega arith)
running_sums-sum_below (x ∷ cs) running zero c e h =
    let first = eq_of_some (e 0 (omega arith)) in ap some (omega arith)
running_sums-sum_below (x ∷ cs) running (suc j) c e h =
    let first = eq_of_some (e 0 (omega arith)) in
    let same : sat_add64 (min running u64_max) x ≡ min (running + x) u64_max = omega arith in
    ap (λ r. get_elem? (running_sums r cs) j) same
    ∙ running_sums-sum_below cs (running + x) j (λ i. c (suc i)) (λ i b. e (suc i) (omega arith))
        (omega arith)
    ∙ ap (λ n. some (min n u64_max)) (omega (arith, sum_below-suc (suc j) c))

-- Entries that are cut off do not change a sum that is cut off.
sum_below_cut :
    (n : ℕ) (c : ℕ → ℕ)
    → min (sum_below n (λ i. min (c i) u64_max)) u64_max ≡ min (sum_below n c) u64_max
sum_below_cut zero c = refl
sum_below_cut (suc n) c = omega (arith, sum_below_cut n c)

module _ {A : Type 0} (p : A → Bool) (g : A → ℕ) where
  count_more :
      (n : ℕ) (xs : List A)
      → count_if (λ a. p a && ltb (g a) (suc n)) xs
        ≡ count_if (λ a. p a && ltb (g a) n) xs + count_if (λ a. p a && (g a == n)) xs
  count_more n [] = omega arith
  count_more n (x ∷ xs) = ground (arith, count_more n xs)

  count_none : (xs : List A) → count_if (λ a. p a && ltb (g a) 0) xs ≡ 0
  count_none [] = refl
  count_none (x ∷ xs) = ground (arith, count_none xs)

  sum_below_class :
      (n : ℕ) (xs : List A)
      → sum_below n (λ i. count_if (λ a. p a && (g a == i)) xs)
        ≡ count_if (λ a. p a && ltb (g a) n) xs
  sum_below_class zero xs = sym (count_none xs)
  sum_below_class (suc n) xs = omega (arith, sum_below_class n xs, count_more n xs)

  count_below_all :
      (n : ℕ) (xs : List A)
      → ((a : A) → g a < n)
      → count_if (λ a. p a && ltb (g a) n) xs ≡ count_if p xs
  count_below_all n [] h = refl
  count_below_all n (x ∷ xs) h = let b = h x in ground (arith, count_below_all n xs h)

  -- The counts per class, each cut off, add up to the whole count, cut off.
  pub sum_below_classes :
      (n : ℕ) (xs : List A)
      → ((a : A) → g a < n)
      → min (sum_below n (λ i. min (count_if (λ a. p a && (g a == i)) xs) u64_max)) u64_max
        ≡ min (count_if p xs) u64_max
  sum_below_classes n xs h =
      sum_below_cut n (λ i. count_if (λ a. p a && (g a == i)) xs)
      ∙ ap (λ k. min k u64_max) (sum_below_class n xs ∙ count_below_all n xs h)
