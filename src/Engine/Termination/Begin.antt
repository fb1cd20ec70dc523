-- ===== src/Engine/Termination/Begin.antt =====
-- The engine that `Engine::new` (crates/pirx-core/src/engine/mod.rs) returns goes on.
use pirx.Common.{
  ℕ, zero, suc, ◌+◌, ◌%◌, ◌≤◌, ◌<◌, ◌≡◌, refl, sym, subst, List, [], ◌∷◌, arith, All, length,
  length-append, length-replicate, u16_max, ok,
}
use pirx.World.{World}
use pirx.Ir.{ProfilerCircuit}
use pirx.Hw.{FactoryConfig, HardwareModel, QecConfig}
use pirx.Hw
use pirx.Events.{EngineEvent}
use pirx.Events
use pirx.Events.Counts.{waiting, waiting-schedule}
use pirx.Factory.{FactoryKind, FactoryOutcome, create_factories, schedule_production}
use pirx.Factory.Timing.{ends_at}
use pirx.Dag.Costs.{from_circuit-IsCostly}
use pirx.Engine.State.{Engine, EngineConfig}
use pirx.Engine.Dispatch.{outcome_event}
use pirx.Engine.Construct.{
  Startup, begin_first, start_factories, started, seed_factories, assemble, new,
}
use pirx.Engine.Start.{AcceptsConfig, create_factories-ArePunctual, new-Constructs, new-Accounts}
use pirx.Engine.Moves.{view}
use pirx.Engine.Accounts.Clock.{ClockOf}
use pirx.Engine.Progress.{ArePrompt, is_factory}
use pirx.Engine.Progress.Prompt.{TakesTime, create_factories-ArePrompt}
use pirx.Engine.Termination.{IsHere, All-schedule_events}
use pirx.Engine.Termination.Loop.{IsLive}

module _ {W : World} where
  -- The first attempts of the factories before `id` are under way.
  record Begun (n id : ℕ) (s : Startup W) : Type 0 where
    ids : All (λ x. IsHere n x.event) s.event_queue.heap
    ahead : All (λ x. 0 < x.cycle) s.event_queue.heap
    working : waiting is_factory s.event_queue.heap ≡ id
    generators : length s.factory_rngs ≡ id

  begin_first-Begun :
      (n id factory : ℕ) (s : Startup W) (outcome : FactoryOutcome) (rng : W.Rng)
      → factory < n
      → 0 < ends_at outcome
      → Begun n id s
      → Begun n (id + 1) (begin_first W factory s (outcome, rng))
  unfolding begin_first outcome_event
  begin_first-Begun n id factory s (FactoryOutcome.produced c) rng here later b = record {
    ids = All-schedule_events (λ x. IsHere n x.event) s.event_queue c _ here b.ids;
    ahead = All-schedule_events (λ x. 0 < x.cycle) s.event_queue c _ later b.ahead;
    working =
        let w =
          waiting-schedule is_factory s.event_queue c (EngineEvent.factory_produced factory) in
        let v = b.working in omega arith;
    generators =
        let l = length-append s.factory_rngs (rng ∷ []) in let g = b.generators in omega arith;
  }
  begin_first-Begun n id factory s (FactoryOutcome.failed c) rng here later b = record {
    ids = All-schedule_events (λ x. IsHere n x.event) s.event_queue c _ here b.ids;
    ahead = All-schedule_events (λ x. 0 < x.cycle) s.event_queue c _ later b.ahead;
    working =
        let w = waiting-schedule is_factory s.event_queue c (EngineEvent.factory_failed factory) in
        let v = b.working in omega arith;
    generators =
        let l = length-append s.factory_rngs (rng ∷ []) in let g = b.generators in omega arith;
  }

  start_factories-Begun :
      (n id : ℕ) (fs : List (FactoryKind W.F64)) (rngs : List W.Rng) (s : Startup W)
      → n ≤ u16_max
      → id + length fs ≡ n
      → length rngs ≡ length fs
      → ArePrompt W fs
      → Begun n id s
      → Begun n n (start_factories W id fs rngs s)
  unfolding start_factories
  start_factories-Begun n id [] rngs s small sum same p b = subst (λ k. Begun n k s) (omega arith) b
  start_factories-Begun n id (f ∷ fs) [] s small sum same p b = absurd (omega arith)
  start_factories-Begun n id (f ∷ fs) (rng ∷ rngs) s small sum same p b =
      start_factories-Begun n (id + 1) fs rngs _ small (omega arith) (omega arith) (λ k. p (suc k))
        (begin_first-Begun n id (id % 65536) s (schedule_production W f 0 rng).0 _ (omega arith)
          (p 0 f refl 0 rng (omega arith)) b)

module _ (W : World) where
  seeded_length : (seed i k : ℕ) → length (seed_factories W seed i k) ≡ k
  unfolding seed_factories
  seeded_length seed i zero = refl
  seeded_length seed i (suc k) = let l = seeded_length seed (i + 1) k in omega arith

  created_length :
      (config : FactoryConfig W.F64) (qec : QecConfig W.F64)
      → length (create_factories config qec) ≡ Hw.count config
  unfolding create_factories Hw.count
  created_length (FactoryConfig.distillation n protocol cycles rounds abort) qec =
      length-replicate n _
  created_length (FactoryConfig.cultivation n lambda_raw fault_distance) qec = length-replicate n _
  created_length (FactoryConfig.rz_synthesis n angles mean) qec = length-replicate n _

  started-Begun :
      (fs : List (FactoryKind W.F64)) (seed : ℕ)
      → length fs ≤ u16_max
      → ArePrompt W fs
      → Begun (length fs) (length fs) (started W fs seed)
  unfolding started Events.new waiting
  started-Begun fs seed small p =
      start_factories-Begun (length fs) 0 fs _ _ small (omega arith)
        (seeded_length seed 0 (length fs)) p
        (record { ids = tt; ahead = tt; working = refl; generators = refl })

  -- The engine that `new` returns is live: for factories whose attempts take time, no more than u16
  -- counts, and fixups that take time.
  pub new-IsLive :
      (p : W.F64) (circuit : ProfilerCircuit W.F64) (hw : HardwareModel W.F64)
      (config : EngineConfig) (e : Engine W)
      → AcceptsConfig W hw.factory
      → TakesTime hw.factory
      → 0 < Hw.count hw.factory
      → Hw.count hw.factory ≤ u16_max
      → 0 < hw.injection.fixup_cost_cycles
      → new W p circuit hw config ≡ ok e
      → IsLive (length (create_factories hw.factory hw.qec)) e × (e.max_cycles ≡ config.max_cycles)
  unfolding assemble
  new-IsLive p circuit hw config e accepts times some_factory few cost r =
      let c = new-Constructs W p circuit hw config e r in
      let fs = create_factories hw.factory hw.qec in
      let count = created_length hw.factory hw.qec in
      let prompt = create_factories-ArePrompt W hw.factory hw.qec times in
      let b = started-Begun fs config.seed (omega arith) prompt in
      let clock = (new-Accounts W p circuit hw config e accepts r).clock in
      subst (λ x. IsLive (length fs) x × (x.max_cycles ≡ config.max_cycles)) (sym c.result)
        (
          (record {
            alive = record {
              ids = b.ids;
              working = let w = b.working in omega arith;
              generators = b.generators;
              costly = from_circuit-IsCostly W circuit hw c.build cost c.built;
            };
            ahead = b.ahead;
            clock = subst (λ x. ClockOf (view x)) c.result clock;
            factories = refl;
            punctual = create_factories-ArePunctual W hw.factory hw.qec accepts;
            prompt = prompt;
          }),
          refl,
        )
