-- ===== src/Factory.antt =====
-- Magic state factories (crates/pirx-core/src/factory/).
pub mod Timing
use pirx.Common.{
  ℕ, zero, suc, ◌+◌, ◌%◌, max, Bool, List, [], ◌∷◌, Option, none, some, replicate, if◌then◌else◌,
  sat_add64, sat_mul64, u64_max,
}
use pirx.World.{World}
use pirx.Hw.{FactoryConfig, QecConfig}

pub data FactoryOutcome : Type 0 where
  produced : (completion_cycle : ℕ) → FactoryOutcome
  failed : (failure_cycle : ℕ) → FactoryOutcome

pub record DistillationFactory (F : Type 0) : Type 0 where
  pub cycles_per_round : ℕ
  pub rounds : ℕ
  pub abort_probability : F

pub record CultivationFactory (F : Type 0) : Type 0 where
  pub lambda_raw : F
  pub code_distance : ℕ

pub record RzSynthesisFactory (F : Type 0) : Type 0 where
  pub mean_cycles : F

pub data FactoryKind (F : Type 0) : Type 0 where
  distillation : DistillationFactory F → FactoryKind F
  cultivation : CultivationFactory F → FactoryKind F
  rz_synthesis : RzSynthesisFactory F → FactoryKind F

-- `create_factories`.
unfoldable pub create_factories :
    {F : Type 0} → FactoryConfig F → QecConfig F → List (FactoryKind F)
create_factories (FactoryConfig.distillation n protocol cycles rounds abort) qec = replicate n (
    distillation (record { cycles_per_round = cycles; rounds = rounds; abort_probability = abort }))
create_factories (FactoryConfig.cultivation n lambda_raw fault_distance) qec =
    replicate n
      (cultivation (record { lambda_raw = lambda_raw; code_distance = qec.code_distance }))
create_factories (FactoryConfig.rz_synthesis n angles mean) qec =
    replicate n (rz_synthesis (record { mean_cycles = mean }))

-- A plain `current_cycle + 1` at u64. The source panics at the last cycle (overflow-checks), where
-- this is past the range of a cycle: no event of the source has it.
abbrev pub next_cycle : ℕ → ℕ
next_cycle c = c + 1

module _ (W : World) where
  open W use {F64, f64_lt, f64_div, one, from_u32, ceil_u64, Rng, random_f64, exp_sample}

  -- The loop over the rounds: `left` rounds from `round` on.
  unfoldable pub distill : DistillationFactory F64 → ℕ → ℕ → ℕ → Rng → FactoryOutcome × Rng
  distill f current_cycle round zero rng =
      (produced (sat_add64 current_cycle (sat_mul64 f.cycles_per_round f.rounds)), rng)
  distill f current_cycle round (suc left) rng =
      let (x, rng') = random_f64 rng in
      let rest = distill f current_cycle (round + 1) left rng' in
      if f64_lt x f.abort_probability
      then (failed (sat_add64 current_cycle (sat_mul64 f.cycles_per_round (round + 1))), rng')
      else rest

  -- `CultivationFactory::schedule_production`.
  unfoldable pub cultivate : CultivationFactory F64 → ℕ → Rng → FactoryOutcome × Rng
  cultivate f current_cycle rng = elim (exp_sample f.lambda_raw rng) [
    | none ↦ (produced (next_cycle current_cycle), rng)
    | some (raw_time, rng') ↦
        let cycles = ceil_u64 (f64_div raw_time (from_u32 f.code_distance)) in
        (produced (sat_add64 current_cycle (max cycles 1)), rng')
  ]

  -- `RzSynthesisFactory::schedule_production`.
  unfoldable pub synthesize : RzSynthesisFactory F64 → ℕ → Rng → FactoryOutcome × Rng
  synthesize f current_cycle rng = elim (exp_sample (f64_div one f.mean_cycles) rng) [
    | none ↦ (produced (next_cycle current_cycle), rng)
    | some (raw_time, rng') ↦ (produced (sat_add64 current_cycle (max (ceil_u64 raw_time) 1)), rng')
  ]

  -- `FactoryKind::schedule_production`.
  unfoldable pub schedule_production : FactoryKind F64 → ℕ → Rng → FactoryOutcome × Rng
  schedule_production (distillation f) current_cycle rng = distill f current_cycle 0 f.rounds rng
  schedule_production (cultivation f) current_cycle rng = cultivate f current_cycle rng
  schedule_production (rz_synthesis f) current_cycle rng = synthesize f current_cycle rng
