-- ===== src/Engine/Start.antt =====
-- The state that `Engine::new` returns: the conditions under which it returns one, and its accounts.
use pirx.Common.{
  ℕ, zero, suc, ◌+◌, ◌*◌, ◌≡◌, refl, sym, subst, min, Bool, true, false, List, [], ◌∷◌, some, arith,
  replicate, eq_of_some, Result, ok, err, >>=-eq-ok, eq_of_ok, ◌==◌, OpKey,
}
use pirx.World.{World}
use pirx.Ir.{ProfilerCircuit}
use pirx.Hw.{FactoryConfig, HardwareModel, QecConfig}
use pirx.Hw
use pirx.Buffer.{MagicStateBuffer}
use pirx.Buffer
use pirx.Events
use pirx.Events.Counts.{waiting}
use pirx.Trace
use pirx.Trace.Tally.{tally}
use pirx.Factory.{FactoryKind, create_factories, schedule_production, FactoryOutcome}
use pirx.Factory.Timing.{IsPunctual, AcceptsRate, schedule_production-IsPunctual, ends_at}
use pirx.Dag.Build.{DagBuild, DagError, from_circuit}
use pirx.Engine.State.{
  Engine, EngineConfig, EngineError, no_factories, zero_buffer, missing_qubit_positions,
}
use pirx.Engine.Dispatch.{outcome_event}
use pirx.Engine.Construct.{
  check, lift, Startup, begin_first, start_factories, started, assemble, new, lacks_positions,
  fill_hook_table, hook_count,
}
use pirx.Engine.Moves.{
  View, view, Move, Moves, Moves-trans, one_move, done, IsTimely, factory_event,
}
use pirx.Engine.Moves
use pirx.Engine.Refinement.Handlers.{ArePunctual}
use pirx.Engine.Run.{run}
use pirx.Engine.Soundness.{Accounts, Moves-Accounts, IsConsistent, run-IsConsistent}

-- The generator accepts the rate that the configuration gives.
abbrev pub AcceptsConfig : (W : World) → FactoryConfig W.F64 → Type 0
AcceptsConfig W (FactoryConfig.distillation n protocol cycles rounds abort) = Unit
AcceptsConfig W (FactoryConfig.cultivation n lambda_raw fault_distance) = AcceptsRate W lambda_raw
AcceptsConfig W (FactoryConfig.rz_synthesis n angles mean) = AcceptsRate W (W.f64_div W.one mean)

module _ (W : World) where
  replicate-ArePunctual :
      (n : ℕ) (f : FactoryKind W.F64) → IsPunctual W f → ArePunctual W (replicate n f)
  replicate-ArePunctual zero f h id g e = cc
  replicate-ArePunctual (suc n) f h zero g e = subst (IsPunctual W) (eq_of_some e) h
  replicate-ArePunctual (suc n) f h (suc id) g e = replicate-ArePunctual n f h id g e

  pub create_factories-ArePunctual :
      (config : FactoryConfig W.F64) (qec : QecConfig W.F64)
      → AcceptsConfig W config
      → ArePunctual W (create_factories config qec)
  unfolding create_factories
  create_factories-ArePunctual (FactoryConfig.distillation n protocol cycles rounds abort) qec h =
      replicate-ArePunctual n _ (schedule_production-IsPunctual W _ h)
  create_factories-ArePunctual (FactoryConfig.cultivation n lambda_raw fault_distance) qec h =
      replicate-ArePunctual n _ (schedule_production-IsPunctual W _ h)
  create_factories-ArePunctual (FactoryConfig.rz_synthesis n angles mean) qec h =
      replicate-ArePunctual n _ (schedule_production-IsPunctual W _ h)

module _ {W : World} where
  -- The view of an engine that is being started.
  abbrev starting : MagicStateBuffer → Startup W → View
  starting buffer s = record {
    now = 0;
    buffer = buffer;
    queue = s.event_queue;
    trace = s.trace;
    stalled = [];
    consumed = 0;
    completed = 0;
  }

  begin_first-Move :
      (b : MagicStateBuffer) (id : ℕ) (s : Startup W) (outcome : FactoryOutcome) (rng : W.Rng)
      → IsTimely 0 (ends_at outcome)
      → Move (starting b s) (starting b (begin_first W id s (outcome, rng)))
  unfolding begin_first outcome_event
  begin_first-Move b id s (FactoryOutcome.produced c) rng h = Moves.restart id c true h refl
  begin_first-Move b id s (FactoryOutcome.failed c) rng h = Moves.restart id c false h refl

  start_factories-Moves :
      (b : MagicStateBuffer) (id : ℕ) (fs : List (FactoryKind W.F64)) (rngs : List W.Rng)
      (s : Startup W)
      → ArePunctual W fs
      → Moves (starting b s) (starting b (start_factories W id fs rngs s))
  unfolding start_factories
  start_factories-Moves b id [] rngs s h = done
  start_factories-Moves b id (f ∷ fs) [] s h = done
  start_factories-Moves b id (f ∷ fs) (rng ∷ rngs) s h =
      Moves-trans
        (one_move (begin_first-Move b _ s _ (schedule_production W f 0 rng).1 (h 0 f refl 0 rng)))
        (start_factories-Moves b (id + 1) fs rngs _ (λ k. h (suc k)))

module _ (W : World) where
  -- Before anything has happened, all accounts are balanced.
  empty-Accounts :
      (hw : HardwareModel W.F64)
      → Accounts (min hw.buffer.preload hw.buffer.capacity) hw.buffer.capacity (
          starting {W = W}
            (Buffer.new hw.buffer.capacity hw.buffer.preload)
            (record { trace = Trace.new; event_queue = Events.new; factory_rngs = [] }))
  unfolding Buffer.new Trace.new Events.new tally waiting
  empty-Accounts hw = record { supply = omega arith; flow = omega arith; clock = omega arith }

  assemble-Accounts :
      (p : W.F64) (circuit : ProfilerCircuit W.F64) (hw : HardwareModel W.F64)
      (config : EngineConfig) (build : DagBuild W.F64) (table : List (List OpKey))
      → AcceptsConfig W hw.factory
      → Accounts
          (min hw.buffer.preload hw.buffer.capacity)
          hw.buffer.capacity
          (view (assemble W p circuit hw config build table))
  unfolding assemble started
  assemble-Accounts p circuit hw config build table h =
      Moves-Accounts _ _ (empty-Accounts hw)
        (start_factories-Moves _ 0 _ _ _ (create_factories-ArePunctual W hw.factory hw.qec h))

  -- The parts of a successful `Engine::new`.
  pub record Constructs (p : W.F64) (circuit : ProfilerCircuit W.F64) (hw : HardwareModel W.F64)
      (config : EngineConfig) (e : Engine W) : Type 0 where
    pub has_factory : (Hw.count hw.factory == 0) ≡ false
    pub has_buffer : (hw.buffer.capacity == 0) ≡ false
    pub build : DagBuild W.F64
    pub built : from_circuit W circuit hw ≡ ok build
    pub placed : lacks_positions hw.routing circuit.qubit_positions ≡ false
    pub table : List (List OpKey)
    pub filled :
        fill_hook_table build.id_to_key circuit.hooks (replicate (hook_count circuit.hooks * 2) [])
        ≡ ok table
    pub result : e ≡ assemble W p circuit hw config build table

  check-eq-ok : (b : Bool) (error : EngineError) (u : Unit {0}) → check b error ≡ ok u → b ≡ false
  check-eq-ok true error u h = cc
  check-eq-ok false error u h = refl

  lift-eq-ok : {A : Type 0} (r : Result DagError A) (a : A) → lift r ≡ ok a → r ≡ ok a
  lift-eq-ok (ok x) a h = cc
  lift-eq-ok (err x) a h = cc

  -- When `new` returns an engine, the hardware has a factory and a buffer, the graph was built from
  -- the circuit, Manhattan routing has the positions it needs, all targets of the hooks were found,
  -- and the engine is the one assembled from these parts.
  pub new-Constructs :
      (p : W.F64) (circuit : ProfilerCircuit W.F64) (hw : HardwareModel W.F64)
      (config : EngineConfig) (e : Engine W)
      → new W p circuit hw config ≡ ok e
      → Constructs p circuit hw config e
  unfolding new
  new-Constructs p circuit hw config e h =
      let (u1, c1, h1) = >>=-eq-ok (check (Hw.count hw.factory == 0) no_factories) _ h in
      let (u2, c2, h2) = >>=-eq-ok (check (hw.buffer.capacity == 0) zero_buffer) _ h1 in
      let (build, c3, h3) = >>=-eq-ok (lift (from_circuit W circuit hw)) _ h2 in
      let (u4, c4, h4) =
        >>=-eq-ok
          (check (lacks_positions hw.routing circuit.qubit_positions) missing_qubit_positions) _
          h3 in
      let (table, c5, h5) =
        >>=-eq-ok
          (fill_hook_table build.id_to_key circuit.hooks
            (replicate (hook_count circuit.hooks * 2) []))
          _ h4 in
      record {
        has_factory = check-eq-ok _ _ u1 c1;
        has_buffer = check-eq-ok _ _ u2 c2;
        build = build;
        built = lift-eq-ok _ build c3;
        placed = check-eq-ok _ _ u4 c4;
        table = table;
        filled = c5;
        result = sym (eq_of_ok h5);
      }

  -- When the generator accepts the configured rate, the accounts of an engine that `new` returns
  -- are balanced: its stock is the preload, as far as the buffer holds it.
  pub new-Accounts :
      (p : W.F64) (circuit : ProfilerCircuit W.F64) (hw : HardwareModel W.F64)
      (config : EngineConfig) (e : Engine W)
      → AcceptsConfig W hw.factory
      → new W p circuit hw config ≡ ok e
      → Accounts (min hw.buffer.preload hw.buffer.capacity) hw.buffer.capacity (view e)
  new-Accounts p circuit hw config e h r =
      let c = new-Constructs p circuit hw config e r in
      subst (λ x. Accounts (min hw.buffer.preload hw.buffer.capacity) hw.buffer.capacity (view x))
        (sym c.result) (assemble-Accounts p circuit hw config c.build c.table h)

  assemble-ArePunctual :
      (p : W.F64) (circuit : ProfilerCircuit W.F64) (hw : HardwareModel W.F64)
      (config : EngineConfig) (build : DagBuild W.F64) (table : List (List OpKey))
      → AcceptsConfig W hw.factory
      → ArePunctual W (assemble W p circuit hw config build table).factories
  unfolding assemble
  assemble-ArePunctual p circuit hw config build table h =
      create_factories-ArePunctual W hw.factory hw.qec h

  pub new-ArePunctual :
      (p : W.F64) (circuit : ProfilerCircuit W.F64) (hw : HardwareModel W.F64)
      (config : EngineConfig) (e : Engine W)
      → AcceptsConfig W hw.factory
      → new W p circuit hw config ≡ ok e
      → ArePunctual W e.factories
  new-ArePunctual p circuit hw config e h r =
      let c = new-Constructs p circuit hw config e r in
      subst (λ x. ArePunctual W x.factories) (sym c.result)
        (assemble-ArePunctual p circuit hw config c.build c.table h)

  -- When the generator accepts the configured rate, `new` returns an engine and its run returns a
  -- trace, the trace is consistent: its records are in the order of time and none is later than
  -- `total_cycles`; from the preload, as far as the buffer holds it, it serves no more states than
  -- were stored and never stores more than the capacity; every state produced is stored or lost to
  -- a full buffer; it consumed what it served, up to the range of u64; and no more gates complete
  -- than start, nor start than become ready.
  pub new-run-IsConsistent :
      (p : W.F64) (circuit : ProfilerCircuit W.F64) (hw : HardwareModel W.F64)
      (config : EngineConfig) (e : Engine W) (rounds fuel : ℕ) (t : Trace.Trace W.F64)
      → AcceptsConfig W hw.factory
      → new W p circuit hw config ≡ ok e
      → run rounds fuel e ≡ some t
      → IsConsistent (min hw.buffer.preload hw.buffer.capacity) hw.buffer.capacity t
  new-run-IsConsistent p circuit hw config e rounds fuel t h r ran =
      run-IsConsistent _ _ rounds fuel e t (new-ArePunctual p circuit hw config e h r)
        (new-Accounts p circuit hw config e h r) ran
