-- ===== src/Common/Results.antt =====
-- Rust's `Result`, with the bind of the `?` operator.
use mathlib.Core.Path.{◌≡◌, refl}
use mathlib.Core.Logic.{◌↔◌, ◌⊎◌, inl, inr}
use mathlib.Core.Bool.{Bool, true, false}
use mathlib.Core.List.{List, [], ◌∷◌}
use pirx.Common.Lists.{All}

pub data Result {ℓ κ} (E : Type ℓ) (A : Type κ) : Type (ℓ ⊔ κ) where
  ok : A → Result E A
  err : E → Result E A

infixl 5 ◌>>=◌
abbrev pub ◌>>=◌ {ℓ κ μ} :
    {E : Type ℓ} {A : Type κ} {B : Type μ} → Result E A → (A → Result E B) → Result E B
ok a >>= f = f a
err e >>= f = err e

-- A bind succeeds when its first part does, with a value on which the second part succeeds.
pub >>=-eq-ok {ℓ κ μ} :
    {E : Type ℓ} {A : Type κ} {B : Type μ} (first : Result E A) (next : A → Result E B) {b : B}
    → (first >>= next) ≡ ok b
    → (found : A) × (first ≡ ok found) × (next found ≡ ok b)
>>=-eq-ok (err failure) next h = cc
>>=-eq-ok (ok found) next h = (found, refl, h)

-- A bind goes on with the value of its first part.
pub >>=_ok {ℓ κ μ} :
    {E : Type ℓ} {A : Type κ} {B : Type μ} (first : Result E A) (next : A → Result E B) {a : A}
    → first ≡ ok a
    → (first >>= next) ≡ next a
>>=_ok first next e = rw e refl

pub eq_of_ok {ℓ κ} :
    {E : Type ℓ} {A : Type κ} {a b : A} → ◌≡◌ {A = Result E A} (ok a) (ok b) → a ≡ b
eq_of_ok h = cc

pub Result-cases {ℓ κ} :
    {E : Type ℓ} {A : Type κ} (r : Result E A) → ((a : A) × (r ≡ ok a)) ⊎ ((e : E) × (r ≡ err e))
Result-cases (ok a) = inl (a, refl)
Result-cases (err e) = inr (e, refl)

-- `if bad { return Err(error); }`
abbrev pub reject {ℓ} : {E : Type ℓ} → Bool → E → Result E (Unit {0})
reject true error = err error
reject false error = ok tt

-- `for a in list { check(a)?; }`
abbrev pub check_each {ℓ κ} :
    {A : Type ℓ} {E : Type κ} → (A → Result E (Unit {0})) → List A → Result E (Unit {0})
check_each check [] = ok tt
check_each check (a ∷ rest) = check a >>= λ _. check_each check rest

-- Two checks pass one after the other when both do.
pub both {ℓ κ} :
    {E : Type ℓ} {A : Type κ} (r : Result E (Unit {0})) (s : Result E A) (a : A)
    → ((r >>= λ _. s) ≡ ok a) ↔ ((r ≡ ok tt) × (s ≡ ok a))
both (ok tt) s a = (λ h. (refl, h), λ h. h.1)
both (err e) s a = (λ h. cc, λ h. cc)

pub passes {ℓ} : {E : Type ℓ} (b : Bool) (e : E) → (reject b e ≡ ok tt) ↔ (b ≡ false)
passes true e = (λ h. cc, λ h. cc)
passes false e = (λ h. refl, λ h. refl)

pub check_each_iff {ℓ κ μ} :
    {A : Type ℓ} {E : Type κ} (P : A → Type μ) (check : A → Result E (Unit {0}))
    → ((a : A) → (check a ≡ ok tt) ↔ P a)
    → (xs : List A) → (check_each check xs ≡ ok tt) ↔ All P xs
check_each_iff P check h [] = (λ _. tt, λ _. refl)
check_each_iff P check h (x ∷ xs) = (
  λ r.
      let (a, b) = (both (check x) (check_each check xs) tt).0 r in
      ((h x).0 a, (check_each_iff P check h xs).0 b),
  λ r.
      (both (check x) (check_each check xs) tt).1
        ((h x).1 r.0, (check_each_iff P check h xs).1 r.1),
)
