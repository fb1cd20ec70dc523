-- ===== src/Engine/Completion.antt =====
-- What a run that is not truncated (crates/pirx-core/src/engine/mod.rs) says of its circuit.
use pirx.Common.{ℕ, ◌≤◌, ◌≡◌, ap, min, false, some, ok, arith, inl, inr, count_if, u64_max}
use pirx.World.{World, KeysAreFresh, KeysAreVisited}
use pirx.Ir.{ProfilerCircuit}
use pirx.Hw.{HardwareModel}
use pirx.Trace.{Trace}
use pirx.Trace.Tally.{is_completion}
use pirx.Dag.Actives.{active_ops, from_circuit-active}
use pirx.Engine.State.{Engine, EngineConfig}
use pirx.Engine.Construct.{new, assemble}
use pirx.Engine.Run.{run}
use pirx.Engine.Soundness.{run-Finishes}
use pirx.Engine.Start.{AcceptsConfig, new-Constructs, new-Accounts, new-ArePunctual}

module _ (W : World) where
  -- When `new` returns an engine of a circuit, for fresh keys and an arena that is visited once, and a
  -- rate that the generator accepts, and the run returns a trace that is not truncated, then the trace
  -- has at least as many completions of gates and fixups as the circuit has operations that are active
  -- from the start, counted up to the range of u64.
  pub new-run-Completes :
      (p : W.F64) (circuit : ProfilerCircuit W.F64) (hw : HardwareModel W.F64)
      (config : EngineConfig) (e : Engine W) (rounds fuel : ℕ) (t : Trace W.F64)
      → KeysAreFresh W
      → KeysAreVisited W
      → AcceptsConfig W hw.factory
      → new W p circuit hw config ≡ ok e
      → run rounds fuel e ≡ some t
      → t.truncated ≡ false
      → min (active_ops circuit.ops) u64_max ≤ count_if (λ ev. is_completion ev.kind) t.events
  unfolding assemble
  new-run-Completes p circuit hw config e rounds fuel t fresh visited accepts made ran whole =
      let c = new-Constructs W p circuit hw config e made in
      let active = from_circuit-active W fresh visited circuit hw c.build c.built in
      let total = ap (λ x. x.total_ops) c.result in
      let f =
        run-Finishes _ _ rounds fuel e t (new-ArePunctual W p circuit hw config e accepts made)
          (new-Accounts W p circuit hw config e accepts made) ran in
      let grown = f.grows in
      elim f.reason [
        | inl (_, enough) ↦ omega (arith, total, active, grown, enough)
        | inr (cut, _, _) ↦ absurd (cc (cut, whole))
      ]
