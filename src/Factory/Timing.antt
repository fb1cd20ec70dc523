-- ===== src/Factory/Timing.antt =====
-- When a production attempt (crates/pirx-core/src/factory/) ends.
use pirx.Common.{
  ℕ, zero, suc, ◌+◌, ◌≤◌, ◌<◌, ◌≡◌, ◌≢◌, ◌⊎◌, inl, inr, refl, none, arith, Bool-cases, sat_add64,
  sat_mul64, u64_max,
}
use pirx.World.{World}
use pirx.Factory.{
  FactoryOutcome, produced, failed, FactoryKind, DistillationFactory, distillation, cultivation,
  rz_synthesis, distill, cultivate, synthesize, schedule_production,
}

-- The cycle at which an attempt ends.
abbrev pub ends_at : FactoryOutcome → ℕ
ends_at (produced c) = c
ends_at (failed c) = c

module _ (W : World) where
  -- No attempt ends before it starts, nor beyond the range of a cycle.
  abbrev pub IsPunctual : FactoryKind W.F64 → Type 0
  IsPunctual f =
      (c : ℕ) (rng : W.Rng)
      → c ≤ u64_max
      → (c ≤ ends_at (schedule_production W f c rng).0)
        × (ends_at (schedule_production W f c rng).0 ≤ u64_max)

  -- The generator accepts the rate of an exponential factory. (`Exp::new` refuses a rate that is
  -- negative or not a number.)
  abbrev pub AcceptsRate : W.F64 → Type 0
  AcceptsRate rate = (rng : W.Rng) → W.exp_sample rate rng ≢ none

  -- Without a rate to check, a distillation factory has nothing to ask for.
  abbrev pub HasRate : FactoryKind W.F64 → Type 0
  HasRate (distillation f) = Unit
  HasRate (cultivation f) = AcceptsRate f.lambda_raw
  HasRate (rz_synthesis f) = AcceptsRate (W.f64_div W.one f.mean_cycles)

  -- The end of a distillation attempt that has come to a round: success after all rounds, or
  -- failure at the end of that round or a later one.
  abbrev pub Distills : DistillationFactory W.F64 → ℕ → ℕ → ℕ → FactoryOutcome → Type 0
  Distills f c round left o =
      (o ≡ produced (sat_add64 c (sat_mul64 f.cycles_per_round f.rounds)))
      ⊎ ((k : ℕ) × (round < k)
          × (k ≤ round + left)
          × (o ≡ failed (sat_add64 c (sat_mul64 f.cycles_per_round k))))

  distill-Distills :
      (f : DistillationFactory W.F64) (c round left : ℕ) (rng : W.Rng)
      → Distills f c round left (distill W f c round left rng).0
  unfolding distill
  distill-Distills f c round zero rng = inl refl
  distill-Distills f c round (suc left) rng =
      elim (Bool-cases (W.f64_lt (W.random_f64 rng).0 f.abort_probability)) [
        | inl aborts ↦ rw aborts (inr (round + 1, omega arith, omega arith, refl))
        | inr goes_on ↦
            rw goes_on (elim (distill-Distills f c (round + 1) left (W.random_f64 rng).1) [
              | inl e ↦ inl e
              | inr (k, lo, hi, e) ↦ inr (k, omega arith, omega arith, e)
            ])
      ]

  -- A distillation attempt succeeds after all its rounds, or fails at the end of one of them, from
  -- the first to the last.
  pub schedule_production-Distills :
      (f : DistillationFactory W.F64) (c : ℕ) (rng : W.Rng)
      → Distills f c 0 f.rounds (schedule_production W (distillation f) c rng).0
  unfolding schedule_production
  schedule_production-Distills f c rng = distill-Distills f c 0 f.rounds rng

  -- An attempt that starts in the range of a cycle ends in it and not before its start, when the
  -- generator accepts the rate of the factory.
  pub schedule_production-IsPunctual : (f : FactoryKind W.F64) → HasRate f → IsPunctual f
  unfolding schedule_production cultivate synthesize
  schedule_production-IsPunctual (distillation f) h c rng r =
      elim (schedule_production-Distills f c rng) [
        | inl e ↦ ground arith
        | inr (k, lo, hi, e) ↦ ground arith
      ]
  schedule_production-IsPunctual (cultivation f) h c rng r = ground (arith, h rng)
  schedule_production-IsPunctual (rz_synthesis f) h c rng r = ground (arith, h rng)
