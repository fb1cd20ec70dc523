-- ===== src/Hw/Validate.antt =====
-- `HardwareModel::validate` (crates/pirx-hw/src/model.rs) with its errors (error.rs). The comparisons
-- of floats are parameters.
pub mod Domain
use pirx.Common.{
  ℕ, ◌%◌, Bool, true, false, not, ◌&&◌, ◌||◌, ltb, ◌==◌, Result, ok, err, ◌>>=◌, u16_max, reject,
}
use pirx.Hw.{
  HardwareModel, QecConfig, TimingConfig, FactoryConfig, InjectionConfig, RoutingConfig,
  BufferConfig, count,
}

-- Comparisons of f64 with 0.0 and 1.0.
pub record FloatTests (F : Type 0) : Type 0 where
  pub zero : F
  pub one : F
  pub le : F → F → Bool
  pub lt : F → F → Bool
  pub is_nan : F → Bool

-- Without the error of the TOML parser, which `validate` does not return.
pub data HardwareModelError (F : Type 0) : Type 0 where
  invalid_code_distance : ℕ → HardwareModelError F
  invalid_physical_error_rate invalid_error_correction_threshold : F → HardwareModelError F
  invalid_logical_error_prefactor invalid_cycle_time : F → HardwareModelError F
  invalid_measurement_time invalid_feedback_latency : F → HardwareModelError F
  zero_factories zero_buffer_capacity : HardwareModelError F
  invalid_lambda_raw invalid_abort_probability : F → HardwareModelError F
  invalid_injection_probability : F → HardwareModelError F
  factory_count_exceeds_limit : ℕ → HardwareModelError F
  preload_exceeds_capacity : (preload capacity : ℕ) → HardwareModelError F
  invalid_mean_cycles_per_state : F → HardwareModelError F
  zero_distinct_angles zero_grid_dimension zero_cycles_per_hop : HardwareModelError F

abbrev pub Validation : Type 0 → Type 0
Validation F = Result (HardwareModelError F) (Unit {0})

module _ {F : Type 0} (f : FloatTests F) where
  open f use {le, lt, is_nan}

  -- `x <= 0.0 || x.is_nan()`
  abbrev pub not_positive : F → Bool
  not_positive x = le x f.zero || is_nan x

  -- `x <= 0.0 || x >= 1.0 || x.is_nan()`
  abbrev pub not_rate : F → Bool
  not_rate x = le x f.zero || le f.one x || is_nan x

  -- `!(0.0..=1.0).contains(&x) || x.is_nan()`
  abbrev pub not_probability : F → Bool
  not_probability x = not (le f.zero x && le x f.one) || is_nan x

  unfoldable pub validate_qec : QecConfig F → Validation F
  validate_qec q = do
    _ ←
        reject (ltb q.code_distance 3 || q.code_distance % 2 == 0)
          (invalid_code_distance q.code_distance)
    _ ← reject (not_rate q.physical_error_rate) (invalid_physical_error_rate q.physical_error_rate)
    _ ←
        reject (not_rate q.error_correction_threshold)
          (invalid_error_correction_threshold q.error_correction_threshold)
    reject (not_positive q.logical_error_prefactor)
        (invalid_logical_error_prefactor q.logical_error_prefactor)

  unfoldable pub validate_timing : TimingConfig F → Validation F
  validate_timing t = do
    _ ← reject (not_positive t.cycle_time_us) (invalid_cycle_time t.cycle_time_us)
    _ ← reject (not_positive t.measurement_time_us) (invalid_measurement_time t.measurement_time_us)
    reject (lt t.classical_feedback_latency_us f.zero || is_nan t.classical_feedback_latency_us)
        (invalid_feedback_latency t.classical_feedback_latency_us)

  unfoldable pub validate_kind : FactoryConfig F → Validation F
  validate_kind (FactoryConfig.cultivation n lambda_raw fault_distance) =
      reject (not_positive lambda_raw) (invalid_lambda_raw lambda_raw)
  validate_kind (FactoryConfig.distillation n protocol cycles rounds abort_probability) =
      reject (not_probability abort_probability) (invalid_abort_probability abort_probability)
  validate_kind (FactoryConfig.rz_synthesis n distinct_angles mean) = do
    _ ← reject (not_positive mean) (invalid_mean_cycles_per_state mean)
    reject (distinct_angles == 0) zero_distinct_angles

  unfoldable pub validate_factory : FactoryConfig F → Validation F
  unfolding validate_kind
  validate_factory c = do
    _ ← reject (count c == 0) zero_factories
    _ ← reject (ltb u16_max (count c)) (factory_count_exceeds_limit (count c))
    validate_kind c

  unfoldable pub validate_injection : InjectionConfig F → Validation F
  validate_injection i =
      reject (not_probability i.error_probability)
        (invalid_injection_probability i.error_probability)

  unfoldable pub validate_routing : RoutingConfig → Validation F
  validate_routing (RoutingConfig.scalar overhead) = ok tt
  validate_routing (RoutingConfig.manhattan width height hop) = do
    _ ← reject (width == 0 || height == 0) zero_grid_dimension
    reject (hop == 0) zero_cycles_per_hop

  unfoldable pub validate_buffer : BufferConfig → Validation F
  validate_buffer b = do
    _ ← reject (b.capacity == 0) zero_buffer_capacity
    reject (ltb b.capacity b.preload) (preload_exceeds_capacity b.preload b.capacity)

  unfoldable pub validate : HardwareModel F → Validation F
  unfolding validate_qec validate_timing validate_factory validate_injection validate_routing
      validate_buffer
  validate hw = do
    _ ← validate_qec hw.qec
    _ ← validate_timing hw.timing
    _ ← validate_factory hw.factory
    _ ← validate_injection hw.injection
    _ ← validate_routing hw.routing
    validate_buffer hw.buffer
