-- ===== src/Trace.antt =====
-- The execution trace (crates/pirx-core/src/trace.rs).
pub mod Tally
use Prim.Native.String.{String}
use pirx.Common.{ℕ, ◌+◌, Bool, true, false, List, [], ◌∷◌, ◌++◌}
use pirx.Ir.{MeasurementOutcome}

-- `1 << 63`, and `SYNTHETIC_ID_FLAG | counter` for a counter below it.
abbrev pub synthetic_id_flag : ℕ
synthetic_id_flag = 9223372036854775808

pub data TraceEventKind : Type 0 where
  factory_started : (factory_id : ℕ) → TraceEventKind
  factory_produced : (factory_id : ℕ) → TraceEventKind
  factory_failed : (factory_id : ℕ) → TraceEventKind
  gate_ready : (gate : ℕ) → TraceEventKind
  gate_scheduled : (gate : ℕ) → TraceEventKind
  gate_stalled : (gate : ℕ) → TraceEventKind
  gate_served : (gate wait : ℕ) → TraceEventKind
  gate_completed : (gate : ℕ) → TraceEventKind
  injection_error : (gate : ℕ) → TraceEventKind
  fixup_inserted : (fixup original : ℕ) → TraceEventKind
  fixup_completed : (fixup : ℕ) → TraceEventKind
  buffer_enqueue : (occupancy : ℕ) → TraceEventKind
  buffer_dequeue : (occupancy : ℕ) → TraceEventKind
  buffer_full : TraceEventKind
  routing_started : (gate : ℕ) → TraceEventKind
  routing_completed : (gate latency : ℕ) → TraceEventKind
  measured : (gate : ℕ) (outcome : MeasurementOutcome) → TraceEventKind
  ops_activated : (gate activated_count : ℕ) → TraceEventKind

pub record TraceEvent : Type 0 where
  pub cycle : ℕ
  pub kind : TraceEventKind

pub record Trace (F : Type 0) : Type 0 where
  pub schema_version : String
  pub events : List TraceEvent
  pub seed : ℕ
  pub total_cycles : ℕ
  pub truncated : Bool
  pub p_logical : F
  pub magic_states_consumed : ℕ

pub record TraceCollector : Type 0 where
  pub events : List TraceEvent

unfoldable pub new : TraceCollector
new = record { events = [] }

-- `TraceCollector::record`.
unfoldable pub append : TraceCollector → ℕ → TraceEventKind → TraceCollector
append t cycle kind = record t { events = t.events ++ record { cycle = cycle; kind = kind } ∷ [] }

module _ {F : Type 0} where
  unfoldable pub finish : TraceCollector → ℕ → ℕ → F → ℕ → Trace F
  finish t seed total_cycles p_logical consumed = record {
    schema_version = "1.1";
    events = t.events;
    seed = seed;
    total_cycles = total_cycles;
    truncated = false;
    p_logical = p_logical;
    magic_states_consumed = consumed;
  }

  unfoldable pub finish_truncated : TraceCollector → ℕ → ℕ → F → ℕ → Trace F
  finish_truncated t seed total_cycles p_logical consumed = record {
    schema_version = "1.1";
    events = t.events;
    seed = seed;
    total_cycles = total_cycles;
    truncated = true;
    p_logical = p_logical;
    magic_states_consumed = consumed;
  }
