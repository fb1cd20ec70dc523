-- ===== src/Engine/Accepted.antt =====
-- `Engine::new` (crates/pirx-core/src/engine/mod.rs) on what the validations accept
-- (crates/pirx-ir/src/validate.rs, crates/pirx-hw/src/model.rs).
use pirx.Common.{
  ℕ, suc, ◌≤◌, ◌<◌, ◌*◌, ◌≡◌, refl, ◌∙◌, false, List, [], ◌∷◌, some, arith, ◌==◌, length, replicate,
  All, All-map, All-mem, OpKey, ok, >>=_ok, u16_max, u32_max, set,
}
use pirx.World.{World}
use pirx.Ir.{OpId, ConditionalActivation, MeasurementHook, ProfilerCircuit}
use pirx.Ir.Validate as IrValidate
use pirx.Ir.Validate.Index.{ids}
use pirx.Ir.Validate.WellFormed.{IsTarget, IsHook, HasReferences, validate-IsWellFormed}
use pirx.Hw.{HardwareModel}
use pirx.Hw
use pirx.Hw.Validate.{FloatTests}
use pirx.Hw.Validate as HwValidate
use pirx.Hw.Validate.Domain.{validate-IsDomainModel}
use pirx.Dag.Build.{IdToKey}
use pirx.Dag.Total.{Knows, from_circuit_ok}
use pirx.Engine.State.{Engine, EngineConfig}
use pirx.Engine.Dispatch.{hook_table_index}
use pirx.Engine.Construct.{
  lacks_positions, hook_count, resolve_targets, fill_activations, fill_hook_table, assemble, new,
}

resolve_targets_ok :
    (m : IdToKey) (hook_id : ℕ) (targets : List OpId)
    → All (Knows m) targets
    → (keys : List OpKey) × (resolve_targets m hook_id targets ≡ ok keys)
unfolding resolve_targets
resolve_targets_ok m hook_id [] h = ([], refl)
resolve_targets_ok m hook_id (id ∷ targets) ((key, e), h) =
    let (keys, es) = resolve_targets_ok m hook_id targets h in
    (key ∷ keys, rw (resolve_targets, e, es) refl)

fill_activations_ok :
    (m : IdToKey) (hook_id : ℕ) (activations : List ConditionalActivation)
    (table : List (List OpKey))
    → All (λ a. All (Knows m) a.ops_to_activate) activations
    → (table' : List (List OpKey)) × (fill_activations m hook_id activations table ≡ ok table')
unfolding fill_activations
fill_activations_ok m hook_id [] table h = (table, refl)
fill_activations_ok m hook_id (a ∷ rest) table h =
    let (keys, e) = resolve_targets_ok m hook_id a.ops_to_activate h.0 in
    let (table', es) =
      fill_activations_ok m hook_id rest (set table (hook_table_index hook_id a.outcome) keys)
        h.1 in
    (table', >>=_ok (resolve_targets m hook_id a.ops_to_activate) _ e ∙ es)

fill_hook_table_ok :
    (m : IdToKey) (hooks : List MeasurementHook) (table : List (List OpKey))
    → All (λ h. All (λ a. All (Knows m) a.ops_to_activate) h.activations) hooks
    → (table' : List (List OpKey)) × (fill_hook_table m hooks table ≡ ok table')
unfolding fill_hook_table
fill_hook_table_ok m [] table h = (table, refl)
fill_hook_table_ok m (hook ∷ hooks) table h =
    let (next, e) = fill_activations_ok m hook.id hook.activations table h.0 in
    let (table', es) = fill_hook_table_ok m hooks next h.1 in
    (table', >>=_ok (fill_activations m hook.id hook.activations table) _ e ∙ es)

module _ (W : World) where
  new_ok :
      (p : W.F64) (c : ProfilerCircuit W.F64) (hw : HardwareModel W.F64) (config : EngineConfig)
      → HasReferences c
      → length c.ops ≤ suc u16_max
      → 0 < Hw.count hw.factory
      → 0 < hw.buffer.capacity
      → lacks_positions hw.routing c.qubit_positions ≡ false
      → (e : Engine W) × (new W p c hw config ≡ ok e)
  unfolding new
  new_ok p c hw config r few factories capacity placed =
      let (build, e, known) = from_circuit_ok W c hw r.deps few in
      let targets =
        All-map (IsHook c.ops)
          (λ h. All (λ a. All (Knows build.id_to_key) a.ops_to_activate) h.activations)
          (λ h.
            All-map (λ a. All (IsTarget c.ops) a.ops_to_activate)
              (λ a. All (Knows build.id_to_key) a.ops_to_activate)
              (λ a.
                All-map (IsTarget c.ops) (Knows build.id_to_key)
                  (λ id t. All-mem (Knows build.id_to_key) id (ids c.ops) known t.0)
                  a.ops_to_activate)
              h.activations)
          c.hooks r.hooks in
      let (table, filled) =
        fill_hook_table_ok build.id_to_key c.hooks (replicate (hook_count c.hooks * 2) [])
          targets in
      let some_factory : (Hw.count hw.factory == 0) ≡ false = ground arith in
      let some_buffer : (hw.buffer.capacity == 0) ≡ false = ground arith in
      (
        assemble W p c hw config build table,
        rw (some_factory, some_buffer, e, placed)
            (>>=_ok (fill_hook_table build.id_to_key c.hooks _) _ filled),
      )

  -- For a circuit and a hardware model that the validations accept `new` returns an engine, when
  -- Manhattan routing has its positions, and there are no more operations than angle indices and no
  -- more dependencies than u32 counts.
  pub validated-new :
      (f : FloatTests W.F64) (p : W.F64) (c : ProfilerCircuit W.F64) (hw : HardwareModel W.F64)
      (config : EngineConfig)
      → IrValidate.validate c ≡ some (ok c)
      → HwValidate.validate f hw ≡ ok tt
      → lacks_positions hw.routing c.qubit_positions ≡ false
      → length c.ops ≤ suc u16_max
      → length c.deps ≤ u32_max
      → (e : Engine W) × (new W p c hw config ≡ ok e)
  validated-new f p c hw config circuit model placed few deps =
      let w = (validate-IsWellFormed c deps).1.0 circuit in
      let d = (validate-IsDomainModel f hw).0 model in
      new_ok p c hw config w.references few d.factories.0 d.buffer.0 placed
