-- ===== src/Engine/Termination/Simulation.antt =====
-- A whole simulation: the validations (crates/pirx-ir/src/validate.rs, crates/pirx-hw/src/model.rs),
-- `Engine::new` and `run` (crates/pirx-core/src/engine/mod.rs).
use pirx.Common.{
  ℕ, suc, ◌≤◌, ◌<◌, ◌≡◌, ◌∙◌, min, false, some, length, u16_max, u32_max, u64_max, ok,
}
use pirx.World.{World}
use pirx.Ir.{ProfilerCircuit}
use pirx.Ir.Validate as IrValidate
use pirx.Hw.{HardwareModel}
use pirx.Hw.Validate.{FloatTests}
use pirx.Hw.Validate as HwValidate
use pirx.Hw.Validate.Domain.{validate-IsDomainModel}
use pirx.Trace.{Trace}
use pirx.Engine.State.{Engine, EngineConfig}
use pirx.Engine.Construct.{new, lacks_positions}
use pirx.Engine.Run.{run}
use pirx.Engine.Soundness.{IsConsistent}
use pirx.Engine.Start.{AcceptsConfig, new-run-IsConsistent}
use pirx.Engine.Accepted.{validated-new}
use pirx.Engine.Progress.Prompt.{TakesTime}
use pirx.Engine.Termination.Loop.{run-IsLive}
use pirx.Engine.Termination.Begin.{new-IsLive}

module _ {W : World} where
  -- For a circuit and a hardware model that the validations accept, with positions for Manhattan
  -- routing, no more operations than angle indices and no more dependencies than u32 counts, with a
  -- limit on the cycles, a rate that the generator accepts, and attempts and fixups that take time:
  -- `new` returns an engine, its run returns a trace, and the trace is consistent.
  pub validated-new-run :
      (f : FloatTests W.F64) (p : W.F64) (c : ProfilerCircuit W.F64) (hw : HardwareModel W.F64)
      (config : EngineConfig) (limit : ℕ)
      → IrValidate.validate c ≡ some (ok c)
      → HwValidate.validate f hw ≡ ok tt
      → lacks_positions hw.routing c.qubit_positions ≡ false
      → length c.ops ≤ suc u16_max
      → length c.deps ≤ u32_max
      → config.max_cycles ≡ some limit
      → limit ≤ u64_max
      → AcceptsConfig W hw.factory
      → TakesTime hw.factory
      → 0 < hw.injection.fixup_cost_cycles
      → (e : Engine W) × (fuel : ℕ) × (t : Trace W.F64) × (new W p c hw config ≡ ok e)
        × (run (suc limit) fuel e ≡ some t)
        × IsConsistent (min hw.buffer.preload hw.buffer.capacity) hw.buffer.capacity t
  validated-new-run f p c hw config limit circuit model placed ops deps l range accepts times cost =
      let (e, made) = validated-new W f p c hw config circuit model placed ops deps in
      let d = (validate-IsDomainModel f hw).0 model in
      let (live, kept) =
        new-IsLive W p c hw config e accepts times d.factories.0 d.factories.1 cost made in
      let (fuel, t, ran) = run-IsLive _ e limit (kept ∙ l) range live in
      (
        e,
        fuel,
        t,
        made,
        ran,
        new-run-IsConsistent W p c hw config e (suc limit) fuel t accepts made ran,
      )
