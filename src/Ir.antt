-- ===== src/Ir.antt =====
-- The circuit representation (crates/pirx-ir/src/circuit.rs). An angle is a float, so the types
-- that hold one take the type of floats as their parameter.
pub mod Validate
use Prim.Native.String.{String}
use pirx.Common.{ℕ, Bool, List, Option}

abbrev pub OpId : Type 0
OpId = ℕ

abbrev pub QubitId : Type 0
QubitId = ℕ

abbrev pub MeasurementHookId : Type 0
MeasurementHookId = ℕ

pub record GridPosition : Type 0 where
  pub qubit : QubitId
  pub row : ℕ
  pub col : ℕ

pub data MeasurementOutcome : Type 0 where
  zero one : MeasurementOutcome

pub record ConditionalActivation : Type 0 where
  pub outcome : MeasurementOutcome
  pub ops_to_activate : List OpId

pub record MeasurementHook : Type 0 where
  pub id : MeasurementHookId
  pub activations : List ConditionalActivation

pub data OpKind (F : Type 0) : Type 0 where
  clifford : OpKind F
  t_gate : OpKind F
  measurement : (hook : Option MeasurementHookId) → OpKind F
  rotation : (angle : F) → OpKind F

pub record Operation (F : Type 0) : Type 0 where
  pub id : OpId
  pub kind : OpKind F
  pub qubits : List QubitId
  pub initially_active : Bool

pub record Dependency : Type 0 where
  pub from : OpId
  pub to : OpId

pub record CircuitMetadata : Type 0 where
  pub name : String
  pub source_framework : String
  pub t_count : ℕ
  pub clifford_count : ℕ
  pub rotation_count : ℕ
  pub depth : ℕ

pub record ProfilerCircuit (F : Type 0) : Type 0 where
  pub ops : List (Operation F)
  pub deps : List Dependency
  pub qubit_count : ℕ
  pub qubit_positions : Option (List GridPosition)
  pub hooks : List MeasurementHook
  pub metadata : CircuitMetadata
