-- ===== src/Examples.antt =====
-- A small world, a small circuit on it, and the runs of the engine (crates/pirx-core/src/engine/) on
-- them: the data of the tests.
pub mod Queues
pub mod Graphs
pub mod Runs
pub mod Steps
pub mod Circuits
pub mod Profiles
pub mod Replicas
pub mod Sweeps
pub mod Imports
use Prim.Native.String.{String}
use pirx.Common.{
  ℕ, zero, suc, ◌+◌, ◌%◌, ◌/◌, ◌≡◌, refl, min, max, Bool, true, false, List, [], ◌∷◌, ◌++◌, Option,
  none, some, ltb, ◌==◌, u64_max, OpKey, Result, ok, err, get_or,
}
use pirx.World.{World}
use pirx.Ir.{
  OpKind, Operation, Dependency, MeasurementHook, ConditionalActivation, MeasurementOutcome,
  ProfilerCircuit,
}
use pirx.Hw.{HardwareModel, FactoryConfig, RoutingConfig, CodeType, DistillationProtocol, QecConfig}
use pirx.Engine.State.{Engine, EngineConfig, EngineError}
use pirx.Engine.Construct.{new, assemble}

abbrev pub largest : List OpKey → OpKey
largest [] = 0
largest (k ∷ ks) = max k (largest ks)

-- Numbers for floats, and a generator that counts.
abbrev pub counting_world : World
counting_world = record {
  F64 = ℕ;
  f64_lt = ltb;
  f64_div = λ a b. a;
  to_bits = λ x. x;
  from_u32 = λ n. n;
  one = 1;
  ceil_u64 = λ x. min x u64_max;
  ceil_u32 = λ x. min x 4294967295;
  Rng = ℕ;
  seed_from_u64 = λ seed. seed % 7;
  random_f64 = λ r. (r % 3, r + 1);
  random_bool = λ r. (r % 2 == 1, r + 1);
  exp_sample = λ rate r. some (rate + r % 2, r + 1);
  fresh_key = λ ks. suc (largest ks);
  place_key = λ k ks. ks ++ k ∷ [];
}

-- A T-gate, a measurement behind it, and an operation that the outcome one activates.
abbrev pub small_circuit : ProfilerCircuit ℕ
small_circuit = record {
  ops =
      record { id = 10; kind = OpKind.t_gate; qubits = 0 ∷ []; initially_active = true }
      ∷ record {
        id = 20;
        kind = OpKind.measurement (some 0);
        qubits = 0 ∷ [];
        initially_active = true;
      }
      ∷ record { id = 30; kind = OpKind.clifford; qubits = 0 ∷ 1 ∷ []; initially_active = false }
      ∷ [];
  deps = record { from = 10; to = 20 } ∷ record { from = 20; to = 30 } ∷ [];
  qubit_count = 2;
  qubit_positions = none;
  hooks =
      record {
        id = 0;
        activations =
            record { outcome = MeasurementOutcome.one; ops_to_activate = 30 ∷ [] }
            ∷ record { outcome = MeasurementOutcome.zero; ops_to_activate = 30 ∷ [] }
            ∷ [];
      }
      ∷ [];
  metadata = record {
    name = "small";
    source_framework = "";
    t_count = 1;
    clifford_count = 1;
    rotation_count = 0;
    depth = 3;
  };
}

abbrev pub small_qec : QecConfig ℕ
small_qec = record {
  code_type = CodeType.surface_code;
  code_distance = 3;
  physical_error_rate = 0;
  error_correction_threshold = 0;
  logical_error_prefactor = 0;
}

abbrev pub small_hardware : FactoryConfig ℕ → HardwareModel ℕ
small_hardware factory = record {
  meta = record { name = "small"; description = "" };
  qec = small_qec;
  timing = record { cycle_time_us = 1; measurement_time_us = 1; classical_feedback_latency_us = 2 };
  factory = factory;
  injection = record { error_probability = 2; fixup_cost_cycles = 1 };
  routing = RoutingConfig.scalar 5;
  buffer = record { capacity = 2; preload = 0 };
}

abbrev pub distilling : FactoryConfig ℕ
distilling = FactoryConfig.distillation 2 DistillationProtocol.fifteen_to_one 4 2 1

abbrev pub cultivating : FactoryConfig ℕ
cultivating = FactoryConfig.cultivation 1 3 3

abbrev pub small_config : EngineConfig
small_config = record { seed = 5; max_cycles = some 200 }
