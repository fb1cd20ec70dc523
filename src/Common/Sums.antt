-- ===== src/Common/Sums.antt =====
-- Sums and counts over the numbers below a bound.
use Prim.Native.Nat.{ℕ, zero, suc, ◌+◌, ◌≤◌, ◌<◌}
use mathlib.Core.Path.{◌≡◌, refl, subst}
use mathlib.Core.Logic.{◌≢◌, ◌⊎◌, inl, inr}
use mathlib.Core.Bool.{Bool, true}
use native.Mathlib.Omega.{arith}
use pirx.Common.Tests.{if◌then◌else◌}

abbrev pub sum_below : ℕ → (ℕ → ℕ) → ℕ
sum_below zero f = 0
sum_below (suc n) f = sum_below n f + f n

abbrev pub count_below : ℕ → (ℕ → Bool) → ℕ
count_below n p = sum_below n (λ v. if p v then 1 else 0)

pub sum_below-ext :
    (n : ℕ) (f g : ℕ → ℕ) → ((u : ℕ) → u < n → f u ≡ g u) → sum_below n f ≡ sum_below n g
sum_below-ext zero f g h = refl
sum_below-ext (suc n) f g h =
    omega (arith, sum_below-ext n f g (λ u p. h u (omega arith)), h n (omega arith))

-- Two functions that differ at one place.
pub sum_below-point :
    (n u0 d : ℕ) (f g : ℕ → ℕ)
    → u0 < n
    → ((u : ℕ) → u ≢ u0 → f u ≡ g u)
    → f u0 ≡ g u0 + d
    → sum_below n f ≡ sum_below n g + d
sum_below-point zero u0 d f g p h e = absurd (omega arith)
sum_below-point (suc n) u0 d f g p h e =
    let split : (u0 ≡ n) ⊎ (u0 < n) = omega arith in
    elim split [
      | inl last ↦ omega (
        arith,
        sum_below-ext n f g (λ u q. h u (λ s. omega arith)),
        subst (λ x. f x ≡ g x + d) last e,
      )
      | inr inner ↦ omega (arith, sum_below-point n u0 d f g inner h e, h n (λ s. omega arith))
    ]

pub le-sum_below : (n u : ℕ) (f : ℕ → ℕ) → u < n → f u ≤ sum_below n f
le-sum_below zero u f p = absurd (omega arith)
le-sum_below (suc n) u f p =
    let split : (u ≡ n) ⊎ (u < n) = omega arith in
    elim split [
      | inl last ↦ rw last (omega arith)
      | inr inner ↦ omega (arith, le-sum_below n u f inner)
    ]

pub sum_below_zero : (n : ℕ) (f : ℕ → ℕ) → ((u : ℕ) → u < n → f u ≡ 0) → sum_below n f ≡ 0
sum_below_zero zero f h = refl
sum_below_zero (suc n) f h =
    omega (arith, sum_below_zero n f (λ u p. h u (omega arith)), h n (omega arith))

pub count_below-le : (n : ℕ) (p : ℕ → Bool) → count_below n p ≤ n
count_below-le zero p = omega arith
count_below-le (suc n) p = ground (arith, count_below-le n p)

pub count_below_all : (n : ℕ) (p : ℕ → Bool) → ((v : ℕ) → v < n → p v ≡ true) → count_below n p ≡ n
count_below_all zero p h = refl
count_below_all (suc n) p h =
    ground (arith, count_below_all n p (λ v q. h v (omega arith)), h n (omega arith))

-- A full count leaves nothing out.
pub all_of_count_below : (n : ℕ) (p : ℕ → Bool) → count_below n p ≡ n → (v : ℕ) → v < n → p v ≡ true
all_of_count_below zero p e v q = absurd (omega arith)
all_of_count_below (suc n) p e v q =
    let split : (v ≡ n) ⊎ (v < n) = omega arith in
    let bound = count_below-le n p in
    elim split [
      | inl last ↦ rw last (ground arith)
      | inr inner ↦ all_of_count_below n p (ground arith) v inner
    ]

pub sum_below-suc : (n : ℕ) (f : ℕ → ℕ) → sum_below (suc n) f ≡ f 0 + sum_below n (λ i. f (suc i))
sum_below-suc zero f = omega arith
sum_below-suc (suc n) f = omega (arith, sum_below-suc n f)
