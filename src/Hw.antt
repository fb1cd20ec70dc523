-- ===== src/Hw.antt =====
-- The hardware model (crates/pirx-hw/src/config.rs and model.rs), over the type of floats.
pub mod Validate
use Prim.Native.String.{String}
use pirx.Common.{ℕ}

pub data CodeType : Type 0 where
  surface_code color_code qldpc : CodeType

pub data DistillationProtocol : Type 0 where
  fifteen_to_one ccz_to_two_t : DistillationProtocol

pub record MetaConfig : Type 0 where
  pub name : String
  pub description : String

pub record QecConfig (F : Type 0) : Type 0 where
  pub code_type : CodeType
  pub code_distance : ℕ
  pub physical_error_rate : F
  pub error_correction_threshold : F
  pub logical_error_prefactor : F

pub record TimingConfig (F : Type 0) : Type 0 where
  pub cycle_time_us : F
  pub measurement_time_us : F
  pub classical_feedback_latency_us : F

pub data FactoryConfig (F : Type 0) : Type 0 where
  distillation :
      (count : ℕ) (protocol : DistillationProtocol) (cycles_per_round rounds : ℕ)
      (abort_probability : F)
      → FactoryConfig F
  cultivation : (count : ℕ) (lambda_raw : F) (fault_distance : ℕ) → FactoryConfig F
  rz_synthesis : (count distinct_angles : ℕ) (mean_cycles_per_state : F) → FactoryConfig F

-- `FactoryConfig::count`.
unfoldable pub count : {F : Type 0} → FactoryConfig F → ℕ
count (distillation n protocol cycles rounds abort) = n
count (cultivation n lambda_raw fault_distance) = n
count (rz_synthesis n angles mean) = n

pub record InjectionConfig (F : Type 0) : Type 0 where
  pub error_probability : F
  pub fixup_cost_cycles : ℕ

pub data RoutingConfig : Type 0 where
  scalar : (overhead_cycles : ℕ) → RoutingConfig
  manhattan : (grid_width grid_height cycles_per_hop : ℕ) → RoutingConfig

pub record BufferConfig : Type 0 where
  pub capacity : ℕ
  pub preload : ℕ

pub record HardwareModel (F : Type 0) : Type 0 where
  pub meta : MetaConfig
  pub qec : QecConfig F
  pub timing : TimingConfig F
  pub factory : FactoryConfig F
  pub injection : InjectionConfig F
  pub routing : RoutingConfig
  pub buffer : BufferConfig
