-- ===== src/MonteCarlo/Replicas.antt =====
-- The replicas of a Monte Carlo run (crates/pirx-core/src/monte_carlo.rs).
use Prim.Native.String.{String}
use pirx.Common.{
  ◌%◌, ℕ, zero, suc, ◌+◌, ◌≤◌, ◌<◌, ◌≡◌, refl, sym, ap, subst, ◌∙◌, min, max, false, ◌⊎◌, inl, inr,
  List, [], ◌∷◌, Option, none, some, arith, Option-cases, get_elem?, length, ok, u16_max, u32_max,
  u64_max,
}
use pirx.World.{World}
use pirx.Ir.{ProfilerCircuit}
use pirx.Ir.Validate as IrValidate
use pirx.Hw.{HardwareModel}
use pirx.Hw.Validate.{FloatTests}
use pirx.Hw.Validate as HwValidate
use pirx.Trace.{Trace}
use pirx.Engine.State.{Engine}
use pirx.Engine.Construct.{new, lacks_positions}
use pirx.Engine.Run.{run}
use pirx.Engine.Soundness.{IsConsistent}
use pirx.Engine.Start.{AcceptsConfig}
use pirx.Engine.Progress.Prompt.{TakesTime}
use pirx.Engine.Termination.Fuel.{run_more}
use pirx.Engine.Termination.Simulation.{validated-new-run}
use pirx.MonteCarlo.{
  FloatStats, MonteCarloConfig, MonteCarloResult, ReplicaSummary, extract_summary, aggregate,
  replica_count, replica_seed, replica_config, run_replica, cons_summary, collect_from,
  collect_summaries, factories_of, run_monte_carlo,
}

-- The pool is built, where one is asked for.
abbrev pub HasPool : (ℕ → Option String) → Option ℕ → Type 0
HasPool build_pool none = Unit
HasPool build_pool (some n) = build_pool n ≡ none

plus_zero : (i : ℕ) → i + 0 ≡ i
plus_zero i = omega arith

plus_suc : (i k : ℕ) → i + suc k ≡ i + 1 + k
plus_suc i k = omega arith

zero_plus : (i : ℕ) → 0 + i ≡ i
zero_plus i = omega arith

module _ (W : World) (f : FloatStats W.F64) (p : W.F64) (circuit : ProfilerCircuit W.F64)
    (hw : HardwareModel W.F64) (config : MonteCarloConfig) (rounds : ℕ) where
  -- The replica `i` constructs its engine with a seed of its own and runs to a consistent trace.
  pub record Simulates (fuel i : ℕ) : Type 0 where
    pub engine : Engine W
    pub trace : Trace W.F64
    pub made :
        new W p circuit hw (record {
          seed = (config.base_seed + i) % 18446744073709551616;
          max_cycles = config.max_cycles;
        })
        ≡ ok engine
    pub ran : run rounds fuel engine ≡ some trace
    pub consistent :
        IsConsistent (min hw.buffer.preload hw.buffer.capacity) hw.buffer.capacity trace

  more_fuel : (fuel fuel' i : ℕ) → fuel ≤ fuel' → Simulates fuel i → Simulates fuel' i
  more_fuel fuel fuel' i le s = record {
    engine = s.engine;
    trace = s.trace;
    made = s.made;
    ran = run_more rounds fuel fuel' s.engine s.trace le s.ran;
    consistent = s.consistent;
  }

  -- Fuel for some replicas.
  common_fuel :
      ((i : ℕ) → (fuel : ℕ) × Simulates fuel i)
      → (n : ℕ) → (fuel : ℕ) × ((i : ℕ) → i < n → Simulates fuel i)
  common_fuel h zero = (0, λ i b. absurd (omega arith))
  common_fuel h (suc n) =
      let (fuel, others) = common_fuel h n in
      let (last, s) = h n in
      (
        max fuel last,
        λ i b. elim (split i b) [
          | inl same ↦
              subst (Simulates (max fuel last)) (sym same)
                (more_fuel last (max fuel last) n (omega arith) s)
          | inr below ↦ more_fuel fuel (max fuel last) i (omega arith) (others i below)
        ],
      )
    where
      split : (i : ℕ) → i < suc n → (i ≡ n) ⊎ (i < n)
      split i b = omega arith

  -- The summary of a replica of its own trace.
  pub record IsReplica (fuel factory_count i : ℕ) (s : ReplicaSummary W.F64) : Type 0 where
    pub simulates : Simulates fuel i
    pub summary :
        s
        ≡ extract_summary f simulates.trace
            ((config.base_seed + i) % 18446744073709551616)
            factory_count

  run_replica-ok :
      (fuel factory_count i : ℕ) (s : Simulates fuel i)
      → run_replica W f p circuit hw rounds fuel config factory_count i
        ≡ some (ok (extract_summary f s.trace (replica_seed config i) factory_count))
  unfolding run_replica
  run_replica-ok fuel factory_count i s = rw (s.made, run_replica, s.ran) refl

  -- The summaries of the replicas from `i` on, in their order.
  record Collected (fuel factory_count i left : ℕ) : Type 0 where
    summaries : List (ReplicaSummary W.F64)
    collected :
        collect_from W f p circuit hw rounds fuel config factory_count i left ≡ some (ok summaries)
    size : length summaries ≡ left
    each :
        (k : ℕ)
        → k < left
        → (s : ReplicaSummary W.F64) × (get_elem? summaries k ≡ some s)
          × IsReplica fuel factory_count (i + k) s

  collect_from-Collected :
      (fuel factory_count i left : ℕ)
      → ((k : ℕ) → k < left → Simulates fuel (i + k))
      → Collected fuel factory_count i left
  unfolding collect_from cons_summary
  collect_from-Collected fuel factory_count i zero h = record {
    summaries = [];
    collected = refl;
    size = refl;
    each = λ k b. absurd (omega arith);
  }
  collect_from-Collected fuel factory_count i (suc left) h =
      let here : Simulates fuel i = subst (Simulates fuel) (plus_zero i) (h 0 (omega arith)) in
      let rest =
        collect_from-Collected fuel factory_count (i + 1) left
          (λ k b. subst (Simulates fuel) (plus_suc i k) (h (suc k) (omega arith))) in
      let first = extract_summary f here.trace (replica_seed config i) factory_count in
      record {
        summaries = first ∷ rest.summaries;
        collected = rw (run_replica-ok fuel factory_count i here, rest.collected) refl;
        size = ap suc rest.size;
        each =
            each fuel factory_count i left first rest.summaries
              (record { simulates = here; summary = refl }) rest.each;
      }
    where
      each :
          (fuel factory_count i left : ℕ) (first : ReplicaSummary W.F64)
          (others : List (ReplicaSummary W.F64))
          → IsReplica fuel factory_count i first
          → ((k : ℕ)
              → k < left
              → (s : ReplicaSummary W.F64) × (get_elem? others k ≡ some s)
                × IsReplica fuel factory_count (i + 1 + k) s)
          → (k : ℕ) → k < suc left
          → (s : ReplicaSummary W.F64) × (get_elem? (first ∷ others) k ≡ some s)
            × IsReplica fuel factory_count (i + k) s
      each fuel factory_count i left first others r h zero b =
          (first, refl, subst (λ n. IsReplica fuel factory_count n first) (sym (plus_zero i)) r)
      each fuel factory_count i left first others r h (suc k) b =
          let (s, got, is) = h k (omega arith) in
          (s, got, subst (λ n. IsReplica fuel factory_count n s) (sym (plus_suc i k)) is)

  pub record IsResult (fuel : ℕ) (r : MonteCarloResult W.F64) : Type 0 where
    pub size : length r.replicas ≡ replica_count config
    pub each :
        (i : ℕ)
        → i < replica_count config
        → (s : ReplicaSummary W.F64) × (get_elem? r.replicas i ≡ some s)
          × IsReplica fuel (factories_of W f p circuit hw rounds fuel) i s

  pooled :
      (fuel : ℕ) (build_pool : ℕ → Option String)
      → HasPool build_pool config.threads
      → collect_summaries W f p circuit hw rounds fuel build_pool config
          (factories_of W f p circuit hw rounds fuel)
        ≡ collect_from W f p circuit hw rounds fuel config
            (factories_of W f p circuit hw rounds fuel)
            0
            (replica_count config)
  unfolding collect_summaries
  pooled fuel build_pool pool = elim (Option-cases config.threads) [
    | inl unset ↦ rw (unset, collect_summaries) refl
    | inr (n, set) ↦
        let built : build_pool n ≡ none = subst (HasPool build_pool) set pool in
        rw (set, collect_summaries, built) refl
  ]

  runs :
      (fuel : ℕ) (e : Engine W) (summaries : List (ReplicaSummary W.F64))
      (build_pool : ℕ → Option String)
      → HasPool build_pool config.threads
      → new W p circuit hw (record { seed = config.base_seed; max_cycles = config.max_cycles })
        ≡ ok e
      → collect_from W f p circuit hw rounds fuel config
          (factories_of W f p circuit hw rounds fuel)
          0
          (replica_count config)
        ≡ some (ok summaries)
      → run_monte_carlo W f p circuit hw rounds fuel build_pool config
        ≡ some (ok (aggregate f summaries config))
  unfolding run_monte_carlo
  runs fuel e summaries build_pool pool made collected =
      rw (made, run_monte_carlo, pooled fuel build_pool pool ∙ collected) refl

  result :
      (fuel : ℕ)
      (c : Collected fuel (factories_of W f p circuit hw rounds fuel) 0 (replica_count config))
      → IsResult fuel (aggregate f c.summaries config)
  unfolding aggregate
  result fuel c = record {
    size = c.size;
    each = λ i b.
        let (s, got, is) = c.each i b in
        (
          s,
          got,
          subst (λ n. IsReplica fuel (factories_of W f p circuit hw rounds fuel) n s) (zero_plus i)
              is,
        );
  }

  run_monte_carlo-IsResult :
      (build_pool : ℕ → Option String)
      → HasPool build_pool config.threads
      → ((i : ℕ) → (fuel : ℕ) × Simulates fuel i)
      → config.base_seed ≤ u64_max
      → (fuel : ℕ) × (r : MonteCarloResult W.F64) × (run_monte_carlo W f p circuit hw rounds fuel
            build_pool config
          ≡ some (ok r))
        × IsResult fuel r
  run_monte_carlo-IsResult build_pool pool h seed =
      let (fuel, all) = common_fuel h (replica_count config) in
      let factory_count = factories_of W f p circuit hw rounds fuel in
      let c =
        collect_from-Collected fuel factory_count 0 (replica_count config)
          (λ k b. subst (Simulates fuel) (sym (zero_plus k)) (all k b)) in
      let first = all 0 (omega arith) in
      (
        fuel,
        aggregate f c.summaries config,
        runs fuel first.engine c.summaries build_pool pool
            (subst
              (λ n.
                new W p circuit hw (record { seed = n; max_cycles = config.max_cycles })
                ≡ ok first.engine)
              (omega arith) first.made)
            c.collected,
        result fuel c,
      )

module _ (W : World) where
  -- For a circuit and a hardware model that the validations accept, with positions for Manhattan
  -- routing, no more operations than angle indices and no more dependencies than u32 counts, with a
  -- limit on the cycles, a rate that the generator accepts, attempts and fixups that take time, and a
  -- pool of threads that is built: the Monte Carlo run returns a result with the summary of each
  -- replica at its place, at least one, and replica `i` ran, with the seed that is `i` behind the base
  -- seed, to a consistent trace.
  pub validated-run_monte_carlo :
      (f : FloatStats W.F64) (tests : FloatTests W.F64) (p : W.F64) (c : ProfilerCircuit W.F64)
      (hw : HardwareModel W.F64) (config : MonteCarloConfig) (limit : ℕ)
      (build_pool : ℕ → Option String)
      → IrValidate.validate c ≡ some (ok c)
      → HwValidate.validate tests hw ≡ ok tt
      → lacks_positions hw.routing c.qubit_positions ≡ false
      → length c.ops ≤ suc u16_max
      → length c.deps ≤ u32_max
      → config.max_cycles ≡ some limit
      → limit ≤ u64_max
      → AcceptsConfig W hw.factory
      → TakesTime hw.factory
      → 0 < hw.injection.fixup_cost_cycles
      → HasPool build_pool config.threads
      → config.base_seed ≤ u64_max
      → (fuel : ℕ) × (r : MonteCarloResult W.F64) × (run_monte_carlo W f p c hw
            (suc limit)
            fuel
            build_pool
            config
          ≡ some (ok r))
        × IsResult W f p c hw config (suc limit) fuel r
  validated-run_monte_carlo f tests p c hw config limit build_pool circuit model placed ops deps l
        range accepts times cost pool seed =
      run_monte_carlo-IsResult W f p c hw config (suc limit) build_pool pool
        (λ i.
          let (e, fuel, t, made, ran, consistent) =
            validated-new-run tests p c hw (replica_config config i) limit circuit model placed ops
              deps l range accepts times cost in
          (fuel, record { engine = e; trace = t; made = made; ran = ran; consistent = consistent }))
        seed
