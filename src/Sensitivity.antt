-- ===== src/Sensitivity.antt =====
-- The parameters of a sweep and their application to a hardware model
-- (crates/pirx-sensitivity/src/parameter.rs, mutate.rs and error.rs).
pub mod Mutation
use Prim.Native.String.{String}
use Prim.Native.String as Text
use Prim.Native.Nat.{Ordering}
use pirx.Common.{
  ℕ, zero, suc, ◌%◌, Bool, true, false, not, ◌&&◌, ◌||◌, List, [], ◌∷◌, Option, none, some, ltb,
  ◌==◌, if◌then◌else◌, length, Result, ok, err, ◌>>=◌, reject, check_each, ℤ,
}
use pirx.Hw.{HardwareModel, FactoryConfig, RoutingConfig}
use pirx.Hw.Validate.{FloatTests, HardwareModelError}
use pirx.Hw.Validate as HwValidate
use pirx.Engine.State.{EngineError}
use pirx.MonteCarlo.{MonteCarloError}

-- The name of a parameter: one of those that the source spells, or any other string.
pub data Name : Type 0 where
  code_distance physical_error_rate error_correction_threshold logical_error_prefactor : Name
  cycle_time_us measurement_time_us feedback_latency_us factory_count : Name
  lambda_raw fault_distance cycles_per_round rounds abort_probability : Name
  mean_cycles_per_state distinct_angles injection_error_probability fixup_cost_cycles : Name
  overhead_cycles buffer_capacity buffer_preload : Name
  other : String → Name

-- The place of a name in KNOWN_PARAMS, from 1; 0 for any other.
abbrev pub rank : Name → ℕ
rank code_distance = 1
rank physical_error_rate = 2
rank error_correction_threshold = 3
rank logical_error_prefactor = 4
rank cycle_time_us = 5
rank measurement_time_us = 6
rank feedback_latency_us = 7
rank factory_count = 8
rank lambda_raw = 9
rank fault_distance = 10
rank cycles_per_round = 11
rank rounds = 12
rank abort_probability = 13
rank mean_cycles_per_state = 14
rank distinct_angles = 15
rank injection_error_probability = 16
rank fixup_cost_cycles = 17
rank overhead_cycles = 18
rank buffer_capacity = 19
rank buffer_preload = 20
rank (other s) = 0

abbrev pub same_text : String → String → Bool
same_text s t = elim (Text.compare s t) [ Ordering.eq ↦ true | _ ↦ false ]

-- The equality of strings.
abbrev pub same_name : Name → Name → Bool
same_name (other s) (other t) = same_text s t
same_name m n = rank m == rank n

abbrev pub contains : List Name → Name → Bool
contains [] n = false
contains (m ∷ names) n = same_name m n || contains names n

abbrev pub known_params : List Name
known_params =
    code_distance ∷ physical_error_rate ∷ error_correction_threshold ∷ logical_error_prefactor
    ∷ cycle_time_us ∷ measurement_time_us ∷ feedback_latency_us ∷ factory_count ∷ lambda_raw
    ∷ fault_distance ∷ cycles_per_round ∷ rounds ∷ abort_probability ∷ mean_cycles_per_state
    ∷ distinct_angles ∷ injection_error_probability ∷ fixup_cost_cycles ∷ overhead_cycles
    ∷ buffer_capacity ∷ buffer_preload ∷ []

abbrev pub cultivation_params : List Name
cultivation_params = lambda_raw ∷ fault_distance ∷ []

abbrev pub distillation_params : List Name
distillation_params = cycles_per_round ∷ rounds ∷ abort_probability ∷ []

abbrev pub rz_synthesis_params : List Name
rz_synthesis_params = mean_cycles_per_state ∷ distinct_angles ∷ []

abbrev pub scalar_routing_params : List Name
scalar_routing_params = overhead_cycles ∷ []

pub data ParameterKind : Type 0 where
  continuous integer odd_integer : ParameterKind

pub record ParameterDef (F : Type 0) : Type 0 where
  pub name : Name
  pub min : F
  pub max : F
  pub kind : ParameterKind

pub record ParameterSpace (F : Type 0) : Type 0 where
  pub params : List (ParameterDef F)

pub data SensitivityError (F : Type 0) : Type 0 where
  unknown_parameter : Name → SensitivityError F
  factory_type_mismatch routing_type_mismatch :
      (param : Name) (expected : String) → SensitivityError F
  invalid_range : (name : Name) (min max : F) → SensitivityError F
  duplicate_parameter : Name → SensitivityError F
  hardware_validation : HardwareModelError F → SensitivityError F
  engine : EngineError → SensitivityError F
  monte_carlo : MonteCarloError → SensitivityError F
  empty_parameter_space : SensitivityError F
  dimension_mismatch : (expected actual : ℕ) → SensitivityError F
  config_parse : String → SensitivityError F
  invalid_morris_levels not_power_of_two insufficient_samples : ℕ → SensitivityError F
  insufficient_trajectories : ℕ → SensitivityError F
  non_integer_bound non_odd_bound : (param : Name) (min max : F) → SensitivityError F
  negative_bound : (param : Name) (min : F) → SensitivityError F
  too_many_parameters : (max actual : ℕ) → SensitivityError F

-- More of f64: `round() as u32`, `as i64`, and `fract().abs() > f64::EPSILON`.
pub record FloatRounding (F : Type 0) : Type 0 where
  pub round_u32 : F → ℕ
  pub as_i64 : F → ℤ
  pub has_fraction : F → Bool

abbrev pub Outcome : Type 0 → Type 0 → Type 0
Outcome F A = Result (SensitivityError F) A

abbrev pub is_cultivation : {F : Type 0} → FactoryConfig F → Bool
is_cultivation (FactoryConfig.cultivation n l d) = true
is_cultivation factory = false

abbrev pub is_distillation : {F : Type 0} → FactoryConfig F → Bool
is_distillation (FactoryConfig.distillation n protocol c r a) = true
is_distillation factory = false

abbrev pub is_rz_synthesis : {F : Type 0} → FactoryConfig F → Bool
is_rz_synthesis (FactoryConfig.rz_synthesis n a m) = true
is_rz_synthesis factory = false

abbrev pub is_scalar : RoutingConfig → Bool
is_scalar (RoutingConfig.scalar overhead) = true
is_scalar routing = false

abbrev pub less_than_three : ℤ → Bool
less_than_three (ℤ.pos n) = ltb n 3
less_than_three (ℤ.negsuc n) = true

-- `x % 2 == 0` at i64.
abbrev pub is_even : ℤ → Bool
is_even (ℤ.pos n) = n % 2 == 0
is_even (ℤ.negsuc n) = suc n % 2 == 0

module _ {F : Type 0} (f : FloatTests F) (g : FloatRounding F) where
  open f use {le, lt}
  open g use {round_u32, as_i64, has_fraction}

  -- The bounds of a parameter of a kind.
  unfoldable pub check_kind : ParameterDef F → Outcome F (Unit {0})
  check_kind p = elim p.kind [
    | continuous ↦ ok tt
    | integer ↦
        reject (has_fraction p.min || has_fraction p.max) (non_integer_bound p.name p.min p.max)
    | odd_integer ↦
        reject
          (less_than_three (as_i64 p.min)
            || (is_even (as_i64 p.min)
                || (is_even (as_i64 p.max) || (has_fraction p.min || has_fraction p.max))))
          (non_odd_bound p.name p.min p.max)
  ]

  -- The loop of `validate_internal`; `seen` has the names before.
  unfoldable pub check_params : List Name → List (ParameterDef F) → Outcome F (Unit {0})
  unfolding check_kind
  check_params seen [] = ok tt
  check_params seen (p ∷ ps) = do
    _ ← reject (contains seen p.name) (duplicate_parameter p.name)
    _ ← reject (le p.max p.min) (invalid_range p.name p.min p.max)
    _ ← reject (lt p.min f.zero) (negative_bound p.name p.min)
    _ ← check_kind p
    check_params (p.name ∷ seen) ps

  unfoldable pub validate_internal : ParameterSpace F → Outcome F (Unit {0})
  unfolding check_params
  validate_internal space = do
    _ ← reject (length space.params == 0) empty_parameter_space
    check_params [] space.params

  unfoldable pub check_against_hw : HardwareModel F → ParameterDef F → Outcome F (Unit {0})
  check_against_hw hw p = do
    _ ← reject (not (contains known_params p.name)) (unknown_parameter p.name)
    _ ←
        reject (contains cultivation_params p.name && not (is_cultivation hw.factory))
          (factory_type_mismatch p.name "cultivation")
    _ ←
        reject (contains distillation_params p.name && not (is_distillation hw.factory))
          (factory_type_mismatch p.name "distillation")
    _ ←
        reject (contains rz_synthesis_params p.name && not (is_rz_synthesis hw.factory))
          (factory_type_mismatch p.name "rz_synthesis")
    reject (contains scalar_routing_params p.name && not (is_scalar hw.routing))
        (routing_type_mismatch p.name "scalar")

  -- `ParameterSpace::validate`.
  unfoldable pub validate : ParameterSpace F → HardwareModel F → Outcome F (Unit {0})
  unfolding validate_internal check_against_hw
  validate space hw = do _ ← validate_internal space; check_each (check_against_hw hw) space.params

  -- The count of a factory.
  abbrev pub with_count : ℕ → FactoryConfig F → FactoryConfig F
  with_count n (FactoryConfig.distillation m protocol c r a) =
      FactoryConfig.distillation n protocol c r a
  with_count n (FactoryConfig.cultivation m l d) = FactoryConfig.cultivation n l d
  with_count n (FactoryConfig.rz_synthesis m a mean) = FactoryConfig.rz_synthesis n a mean

  -- A parameter of the factory.
  unfoldable pub apply_factory : FactoryConfig F → Name → F → Outcome F (FactoryConfig F)
  apply_factory (FactoryConfig.cultivation n l d) lambda_raw value =
      ok (FactoryConfig.cultivation n value d)
  apply_factory (FactoryConfig.cultivation n l d) fault_distance value =
      ok (FactoryConfig.cultivation n l (round_u32 value))
  apply_factory (FactoryConfig.distillation n protocol c r a) abort_probability value =
      ok (FactoryConfig.distillation n protocol c r value)
  apply_factory (FactoryConfig.distillation n protocol c r a) cycles_per_round value =
      ok (FactoryConfig.distillation n protocol (round_u32 value) r a)
  apply_factory (FactoryConfig.distillation n protocol c r a) rounds value =
      ok (FactoryConfig.distillation n protocol c (round_u32 value) a)
  apply_factory (FactoryConfig.rz_synthesis n a m) mean_cycles_per_state value =
      ok (FactoryConfig.rz_synthesis n a value)
  apply_factory (FactoryConfig.rz_synthesis n a m) distinct_angles value =
      ok (FactoryConfig.rz_synthesis n (round_u32 value) m)
  apply_factory factory lambda_raw value = err (factory_type_mismatch lambda_raw "cultivation")
  apply_factory factory fault_distance value =
      err (factory_type_mismatch fault_distance "cultivation")
  apply_factory factory abort_probability value =
      err (factory_type_mismatch abort_probability "distillation")
  apply_factory factory cycles_per_round value =
      err (factory_type_mismatch cycles_per_round "distillation")
  apply_factory factory rounds value = err (factory_type_mismatch rounds "distillation")
  apply_factory factory mean_cycles_per_state value =
      err (factory_type_mismatch mean_cycles_per_state "rz_synthesis")
  apply_factory factory distinct_angles value =
      err (factory_type_mismatch distinct_angles "rz_synthesis")
  apply_factory factory name value = ok factory

  unfoldable pub apply_routing : RoutingConfig → F → Outcome F RoutingConfig
  apply_routing (RoutingConfig.scalar overhead) value = ok (RoutingConfig.scalar (round_u32 value))
  apply_routing routing value = err (routing_type_mismatch overhead_cycles "scalar")

  -- `apply_single`.
  unfoldable pub apply_single : HardwareModel F → Name → F → Outcome F (HardwareModel F)
  unfolding apply_factory apply_routing
  apply_single hw code_distance value =
      ok (record hw { qec = record hw.qec { code_distance = round_u32 value } })
  apply_single hw physical_error_rate value =
      ok (record hw { qec = record hw.qec { physical_error_rate = value } })
  apply_single hw error_correction_threshold value =
      ok (record hw { qec = record hw.qec { error_correction_threshold = value } })
  apply_single hw logical_error_prefactor value =
      ok (record hw { qec = record hw.qec { logical_error_prefactor = value } })
  apply_single hw cycle_time_us value =
      ok (record hw { timing = record hw.timing { cycle_time_us = value } })
  apply_single hw measurement_time_us value =
      ok (record hw { timing = record hw.timing { measurement_time_us = value } })
  apply_single hw feedback_latency_us value =
      ok (record hw { timing = record hw.timing { classical_feedback_latency_us = value } })
  apply_single hw factory_count value =
      ok (record hw { factory = with_count (round_u32 value) hw.factory })
  apply_single hw injection_error_probability value =
      ok (record hw { injection = record hw.injection { error_probability = value } })
  apply_single hw fixup_cost_cycles value =
      ok (record hw { injection = record hw.injection { fixup_cost_cycles = round_u32 value } })
  apply_single hw overhead_cycles value = do
    routing ← apply_routing hw.routing value
    ok (record hw { routing = routing })
  apply_single hw buffer_capacity value =
      ok (record hw { buffer = record hw.buffer { capacity = round_u32 value } })
  apply_single hw buffer_preload value =
      ok (record hw { buffer = record hw.buffer { preload = round_u32 value } })
  apply_single hw (other s) value = err (unknown_parameter (other s))
  apply_single hw name value = do
    factory ← apply_factory hw.factory name value
    ok (record hw { factory = factory })

  -- `hw.validate()` with its error wrapped.
  unfoldable pub validated : HardwareModel F → Outcome F (HardwareModel F)
  validated hw = elim (HwValidate.validate f hw) [
    | err e ↦ err (hardware_validation e)
    | ok _ ↦ ok hw
  ]

  unfoldable pub mutate_hw : HardwareModel F → Name → F → Outcome F (HardwareModel F)
  unfolding apply_single validated
  mutate_hw base name value = apply_single base name value >>= λ hw. validated hw

  -- The loop of `mutate_hw_multi`, which has as many values as parameters.
  unfoldable pub apply_all :
      HardwareModel F → List (ParameterDef F) → List F → Outcome F (HardwareModel F)
  unfolding apply_single
  apply_all hw (p ∷ ps) (v ∷ vs) = apply_single hw p.name v >>= λ hw'. apply_all hw' ps vs
  apply_all hw ps vs = ok hw

  unfoldable pub mutate_hw_multi :
      HardwareModel F → ParameterSpace F → List F → Outcome F (HardwareModel F)
  unfolding apply_all validated
  mutate_hw_multi base space values = do
    _ ←
        reject (not (length values == length space.params))
          (dimension_mismatch (length space.params) (length values))
    hw ← apply_all base space.params values
    validated hw
