-- ===== src/Engine/Progress/Prompt.antt =====
-- How long the attempts of configured factories (crates/pirx-core/src/factory/) take.
use pirx.Common.{ℕ, zero, suc, ◌*◌, ◌<◌, subst, eq_of_some, arith, inl, inr, replicate}
use pirx.World.{World}
use pirx.Hw.{FactoryConfig, QecConfig}
use pirx.Factory.{
  FactoryKind, DistillationFactory, create_factories, schedule_production, cultivate, synthesize,
  distillation, cultivation, rz_synthesis,
}
use pirx.Factory.Timing.{schedule_production-Distills}
use pirx.Engine.Progress.{IsPrompt, ArePrompt}

-- A distillation attempt has a round, and a round takes a cycle. The validation of the hardware
-- model does not ask for this.
abbrev pub TakesTime : {F : Type 0} → FactoryConfig F → Type 0
TakesTime (FactoryConfig.distillation n protocol cycles rounds abort) = (0 < cycles) × (0 < rounds)
TakesTime (FactoryConfig.cultivation n lambda_raw fault_distance) = Unit
TakesTime (FactoryConfig.rz_synthesis n angles mean) = Unit

product_pos : (a b : ℕ) → 0 < a → 0 < b → 0 < a * b
product_pos zero b h g = elim h [ ]
product_pos (suc a) zero h g = elim g [ ]
product_pos (suc a) (suc b) h g = ground arith

module _ (W : World) where
  distillation-IsPrompt :
      (f : DistillationFactory W.F64)
      → 0 < f.cycles_per_round
      → 0 < f.rounds
      → IsPrompt W (distillation f)
  distillation-IsPrompt f h g c rng r = elim (schedule_production-Distills W f c rng) [
    | inl e ↦ ground (arith, product_pos f.cycles_per_round f.rounds h g)
    | inr (k, lo, hi, e) ↦ ground (arith, product_pos f.cycles_per_round k h lo)
  ]

  cultivation-IsPrompt : (f : _) → IsPrompt W (cultivation f)
  unfolding schedule_production cultivate
  cultivation-IsPrompt f c rng r = ground arith

  rz_synthesis-IsPrompt : (f : _) → IsPrompt W (rz_synthesis f)
  unfolding schedule_production synthesize
  rz_synthesis-IsPrompt f c rng r = ground arith

  replicate-ArePrompt : (n : ℕ) (f : FactoryKind W.F64) → IsPrompt W f → ArePrompt W (replicate n f)
  replicate-ArePrompt zero f h id g e = cc
  replicate-ArePrompt (suc n) f h zero g e = subst (IsPrompt W) (eq_of_some e) h
  replicate-ArePrompt (suc n) f h (suc id) g e = replicate-ArePrompt n f h id g e

  -- All factories of a configuration take time for an attempt, as long as the clock has not reached
  -- its end, when a distillation factory has at least one round of at least one cycle.
  pub create_factories-ArePrompt :
      (config : FactoryConfig W.F64) (qec : QecConfig W.F64)
      → TakesTime config
      → ArePrompt W (create_factories config qec)
  unfolding create_factories
  create_factories-ArePrompt (FactoryConfig.distillation n protocol cycles rounds abort) qec h =
      replicate-ArePrompt n _ (distillation-IsPrompt _ h.0 h.1)
  create_factories-ArePrompt (FactoryConfig.cultivation n lambda_raw fault_distance) qec h =
      replicate-ArePrompt n _ (cultivation-IsPrompt _)
  create_factories-ArePrompt (FactoryConfig.rz_synthesis n angles mean) qec h =
      replicate-ArePrompt n _ (rz_synthesis-IsPrompt _)
