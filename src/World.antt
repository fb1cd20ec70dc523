-- ===== src/World.antt =====
-- What the program takes from outside the repository, as one parameter: the floating-point
-- numbers, the random number generator (crates rand, rand_chacha, rand_distr) and the keys that
-- the arena issues (crate slotmap). Nothing is assumed here; the theorems name what they need.
use pirx.Common.{ℕ, ◌≤◌, ◌∷◌, count_if, ◌≡◌, Bool, false, Option, List, OpKey, u64_max, mem}

pub record World : Type 1 where
  -- f64, `<`, `/`, `to_bits`, `f64::from(u32)`, and `x.ceil()` as u64 and as u32.
  pub F64 : Type 0
  pub f64_lt : F64 → F64 → Bool
  pub f64_div : F64 → F64 → F64
  pub to_bits : F64 → ℕ
  pub from_u32 : ℕ → F64
  pub one : F64
  pub ceil_u64 : F64 → ℕ
  pub ceil_u32 : F64 → ℕ
  -- ChaCha12Rng.
  pub Rng : Type 0
  pub seed_from_u64 : ℕ → Rng
  pub random_f64 : Rng → F64 × Rng
  pub random_bool : Rng → Bool × Rng
  -- `Exp::new(rate)` and a sample of it; `none` where `Exp::new` refuses the rate.
  pub exp_sample : F64 → Rng → Option (F64 × Rng)
  -- The key that `SlotMap::insert` issues, given the keys in use.
  pub fresh_key : List OpKey → OpKey
  -- The place that a new key takes in the order of iteration.
  pub place_key : OpKey → List OpKey → List OpKey

-- A cast of a float to u64 saturates.
abbrev pub CastSaturates : World → Type 0
CastSaturates W = (x : W.F64) → W.ceil_u64 x ≤ u64_max

-- An issued key is not in use.
abbrev pub KeysAreFresh : World → Type 0
KeysAreFresh W = (ks : List OpKey) → mem (W.fresh_key ks) ks ≡ false

-- The iteration visits every key once, in an order of its own.
abbrev pub KeysAreVisited : World → Type 0
KeysAreVisited W =
    (p : OpKey → Bool) (k : OpKey) (ks : List OpKey)
    → count_if p (W.place_key k ks) ≡ count_if p (k ∷ ks)
