-- ===== src/Engine/State.antt =====
-- The engine's state (crates/pirx-core/src/engine/mod.rs and config.rs).
use pirx.Common.{ℕ, Bool, List, Option, leb, OpKey, SecondaryMap, get_or}
use pirx.World.{World}
use pirx.Ir.{OpId, MeasurementHookId}
use pirx.Buffer.{MagicStateBuffer}
use pirx.Events.{EventQueue}
use pirx.Routing.{RoutingKind, PositionIndex}
use pirx.Trace.{TraceCollector, TraceEventKind}
use pirx.Trace
use pirx.Factory.{FactoryKind}
use pirx.Dag.{Dag, FifoReadyQueue}
use pirx.Dag.Build.{MissingEndpoint, DagError, too_many_distinct_angles}
use pirx.Dag.Build

pub record EngineConfig : Type 0 where
  pub seed : ℕ
  pub max_cycles : Option ℕ

pub data EngineError : Type 0 where
  too_many_rotation_angles : ℕ → EngineError
  no_factories zero_buffer missing_qubit_positions : EngineError
  dangling_hook_target : (hook_id : MeasurementHookId) (op_id : OpId) → EngineError
  internal : MissingEndpoint → EngineError

-- `From<DagError> for EngineError`.
unfoldable pub from_dag_error : DagError → EngineError
from_dag_error (too_many_distinct_angles n) = too_many_rotation_angles n
from_dag_error (Build.internal e) = internal e

pub record Engine (W : World) : Type 0 where
  pub dag : Dag W.F64
  pub ready_set : FifoReadyQueue
  pub injection_error_probability : W.F64
  pub factories : List (FactoryKind W.F64)
  pub buffer : MagicStateBuffer
  pub routing : RoutingKind
  pub position_index : PositionIndex
  pub event_queue : EventQueue
  pub current_cycle : ℕ
  pub rng : W.Rng
  pub factory_rngs : List W.Rng
  pub seed : ℕ
  pub max_cycles : Option ℕ
  pub feedback_delay : ℕ
  pub stalled_gates : List (OpKey × ℕ)
  pub hook_table : List (List OpKey)
  pub completed_set : SecondaryMap (Unit {0})
  pub total_ops : ℕ
  pub completed_ops : ℕ
  pub key_to_op_id : SecondaryMap ℕ
  pub next_synthetic_id : ℕ
  pub p_logical : W.F64
  pub magic_states_consumed : ℕ
  pub trace : TraceCollector

module _ {W : World} where
  -- `self.trace.record(cycle, kind)`.
  abbrev pub log : ℕ → TraceEventKind → Engine W → Engine W
  log cycle kind e = record e { trace = Trace.append e.trace cycle kind }

  unfoldable pub trace_id : Engine W → OpKey → ℕ
  trace_id e key = get_or (e.key_to_op_id key) 0

  unfoldable pub is_complete : Engine W → Bool
  is_complete e = leb e.total_ops e.completed_ops
