-- ===== src/MonteCarlo.antt =====
-- The Monte Carlo runner (crates/pirx-core/src/monte_carlo.rs). The replicas of the thread pool are
-- independent and their results are collected in the order of the replicas, so they are run one after
-- another here, as on WASM. The fuel is that of `run`; `none` means that it ran out.
pub mod Summary
pub mod Replicas
use Prim.Native.String.{String}
use pirx.Common.{
  ℕ, zero, suc, ◌+◌, ◌-◌, ◌%◌, min, max, Bool, true, false, ◌&&◌, List, [], ◌∷◌, Option, none, some,
  ltb, ◌==◌, if◌then◌else◌, length, get_elem?, get_or, set, replicate, map, count_if, sat_add64,
  u16_max, Result, ok, err,
}
use pirx.World.{World}
use pirx.Ir.{ProfilerCircuit}
use pirx.Hw.{HardwareModel}
use pirx.Hw
use pirx.Trace.{Trace, TraceEvent, TraceEventKind}
use pirx.Analysis.{started_at}
use pirx.Engine.State.{EngineConfig, EngineError}
use pirx.Engine.Construct.{new}
use pirx.Engine.Run.{run}

pub data MonteCarloError : Type 0 where
  engine : EngineError → MonteCarloError
  thread_pool : (threads : ℕ) (reason : String) → MonteCarloError

pub record MonteCarloConfig : Type 0 where
  pub replicas : ℕ
  pub base_seed : ℕ
  pub max_cycles : Option ℕ
  pub threads : Option ℕ

pub record ReplicaSummary (F : Type 0) : Type 0 where
  pub seed : ℕ
  pub total_cycles : ℕ
  pub truncated : Bool
  pub stall_count : ℕ
  pub total_stall_cycles : ℕ
  pub max_stall_cycles : ℕ
  pub injection_errors : ℕ
  pub fixups_inserted : ℕ
  pub mean_factory_utilization : F
  pub buffer_full_events : ℕ
  pub magic_states_consumed : ℕ
  pub total_infidelity : F

pub record Distribution (F : Type 0) : Type 0 where
  pub mean : F
  pub stddev : F
  pub minimum : F
  pub maximum : F
  pub p5 : F
  pub p25 : F
  pub median : F
  pub p75 : F
  pub p95 : F

pub record MonteCarloResult (F : Type 0) : Type 0 where
  pub replicas : List (ReplicaSummary F)
  pub total_cycles : Distribution F
  pub stall_count : Distribution F
  pub total_stall_cycles : Distribution F
  pub injection_errors : Distribution F
  pub fixups_inserted : Distribution F
  pub max_stall_cycles : Distribution F
  pub mean_factory_utilization : Distribution F
  pub buffer_full_events : Distribution F
  pub magic_states_consumed : Distribution F
  pub total_infidelity : Distribution F
  pub truncated_count : ℕ
  pub config : MonteCarloConfig

-- The operations of f64: 0.0, `u64 as f64` and `f64::from(u32)`, the arithmetic, `sqrt`, `<`,
-- `round() as usize`, and the decimals 0.05, 0.25, 0.50, 0.75 and 0.95 as hundredths.
pub record FloatStats (F : Type 0) : Type 0 where
  pub zero : F
  pub from_u64 : ℕ → F
  pub add : F → F → F
  pub sub : F → F → F
  pub mul : F → F → F
  pub div : F → F → F
  pub sqrt : F → F
  pub lt : F → F → Bool
  pub round_usize : F → ℕ
  pub hundredths : ℕ → F

-- The counters of `extract_summary`.
pub record Counts : Type 0 where
  pub stall_count : ℕ
  pub total_stall_cycles : ℕ
  pub max_stall_cycles : ℕ
  pub injection_errors : ℕ
  pub fixups_inserted : ℕ
  pub buffer_full_events : ℕ
  pub total_factory_active_cycles : ℕ
  pub factory_starts : List (Option ℕ)

-- `x += 1`. It counts events of a list in memory, and does not reach the range of u64, where it would
-- panic (overflow-checks).
abbrev pub increment : ℕ → ℕ
increment n = n + 1

-- An attempt of a factory ends.
unfoldable pub stop_attempt : (cycle factory_id : ℕ) → Counts → Counts
stop_attempt cycle factory_id s = record s {
  total_factory_active_cycles = elim (started_at s.factory_starts factory_id) [
    | none ↦ s.total_factory_active_cycles
    | some start ↦ sat_add64 s.total_factory_active_cycles (cycle - start)
  ];
  factory_starts = set s.factory_starts factory_id none;
}

unfoldable pub count_kind : (cycle : ℕ) → TraceEventKind → Counts → Counts
unfolding stop_attempt
count_kind cycle (TraceEventKind.gate_served gate wait) s =
    if ltb 0 wait
    then record s {
      stall_count = increment s.stall_count;
      total_stall_cycles = sat_add64 s.total_stall_cycles wait;
      max_stall_cycles = max s.max_stall_cycles wait;
    }
    else s
count_kind cycle (TraceEventKind.injection_error gate) s = record s {
  injection_errors = increment s.injection_errors;
}
count_kind cycle (TraceEventKind.fixup_inserted fixup original) s = record s {
  fixups_inserted = increment s.fixups_inserted;
}
count_kind cycle TraceEventKind.buffer_full s = record s {
  buffer_full_events = increment s.buffer_full_events;
}
count_kind cycle (TraceEventKind.factory_started id) s = record s {
  factory_starts = set s.factory_starts id (some cycle);
}
count_kind cycle (TraceEventKind.factory_produced id) s = stop_attempt cycle id s
count_kind cycle (TraceEventKind.factory_failed id) s = stop_attempt cycle id s
count_kind cycle kind s = s

unfoldable pub count_events : List TraceEvent → Counts → Counts
unfolding count_kind
count_events [] s = s
count_events (ev ∷ evs) s = count_events evs (count_kind ev.cycle ev.kind s)

unfoldable pub no_counts : ℕ → Counts
no_counts factory_count = record {
  stall_count = 0;
  total_stall_cycles = 0;
  max_stall_cycles = 0;
  injection_errors = 0;
  fixups_inserted = 0;
  buffer_full_events = 0;
  total_factory_active_cycles = 0;
  factory_starts = replicate factory_count none;
}

module _ {F : Type 0} (f : FloatStats F) where
  unfoldable pub mean_utilization : (total_active total_cycles factory_count : ℕ) → F
  mean_utilization total_active total_cycles factory_count =
      if ltb 0 total_cycles && ltb 0 factory_count
      then f.div (f.from_u64 total_active)
          (f.mul (f.from_u64 total_cycles) (f.from_u64 factory_count))
      else f.zero

  unfoldable pub extract_summary : Trace F → (seed factory_count : ℕ) → ReplicaSummary F
  unfolding count_events no_counts mean_utilization
  extract_summary trace seed factory_count =
      let s = count_events trace.events (no_counts factory_count) in
      record {
        seed = seed;
        total_cycles = trace.total_cycles;
        truncated = trace.truncated;
        stall_count = s.stall_count;
        total_stall_cycles = s.total_stall_cycles;
        max_stall_cycles = s.max_stall_cycles;
        injection_errors = s.injection_errors;
        fixups_inserted = s.fixups_inserted;
        mean_factory_utilization =
            mean_utilization s.total_factory_active_cycles trace.total_cycles factory_count;
        buffer_full_events = s.buffer_full_events;
        magic_states_consumed = trace.magic_states_consumed;
        total_infidelity = f.mul (f.from_u64 trace.magic_states_consumed) trace.p_logical;
      }

  -- `sort_unstable_by` with `partial_cmp`: no value is before a smaller one.
  unfoldable pub insert_value : F → List F → List F
  insert_value v [] = v ∷ []
  insert_value v (x ∷ xs) =
      let rest = insert_value v xs in if f.lt x v then x ∷ rest else v ∷ x ∷ xs

  unfoldable pub sort_values : List F → List F
  unfolding insert_value
  sort_values [] = []
  sort_values (v ∷ vs) = insert_value v (sort_values vs)

  unfoldable pub percentile : List F → F → F
  percentile [] p = f.zero
  percentile (v ∷ vs) p =
      let idx = f.round_usize (f.mul p (f.from_u64 (length vs))) in
      get_or (get_elem? (v ∷ vs) (min idx (length vs))) f.zero

  unfoldable pub sum_values : F → List F → F
  sum_values acc [] = acc
  sum_values acc (v ∷ vs) = sum_values (f.add acc v) vs

  -- `values.last().copied().unwrap_or(0.0)`.
  abbrev pub last_value : List F → F
  last_value [] = f.zero
  last_value (v ∷ []) = v
  last_value (v ∷ w ∷ vs) = last_value (w ∷ vs)

  abbrev pub square : F → F
  square x = f.mul x x

  unfoldable pub distribution_of : List F → Distribution F
  unfolding sum_values percentile
  distribution_of [] = record {
    mean = f.zero;
    stddev = f.zero;
    minimum = f.zero;
    maximum = f.zero;
    p5 = f.zero;
    p25 = f.zero;
    median = f.zero;
    p75 = f.zero;
    p95 = f.zero;
  }
  distribution_of (v ∷ vs) =
      let n = f.from_u64 (suc (length vs)) in
      let mean = f.div (sum_values f.zero (v ∷ vs)) n in
      let variance = f.div (sum_values f.zero (map (λ x. square (f.sub x mean)) (v ∷ vs))) n in
      record {
        mean = mean;
        stddev = f.sqrt variance;
        minimum = v;
        maximum = last_value (v ∷ vs);
        p5 = percentile (v ∷ vs) (f.hundredths 5);
        p25 = percentile (v ∷ vs) (f.hundredths 25);
        median = percentile (v ∷ vs) (f.hundredths 50);
        p75 = percentile (v ∷ vs) (f.hundredths 75);
        p95 = percentile (v ∷ vs) (f.hundredths 95);
      }

  unfoldable pub distribution_from :
      List (ReplicaSummary F) → (ReplicaSummary F → F) → Distribution F
  unfolding sort_values distribution_of
  distribution_from summaries g = distribution_of (sort_values (map g summaries))

  unfoldable pub aggregate : List (ReplicaSummary F) → MonteCarloConfig → MonteCarloResult F
  unfolding distribution_from
  aggregate summaries config = record {
    replicas = summaries;
    total_cycles = distribution_from summaries (λ s. f.from_u64 s.total_cycles);
    stall_count = distribution_from summaries (λ s. f.from_u64 s.stall_count);
    total_stall_cycles = distribution_from summaries (λ s. f.from_u64 s.total_stall_cycles);
    injection_errors = distribution_from summaries (λ s. f.from_u64 s.injection_errors);
    fixups_inserted = distribution_from summaries (λ s. f.from_u64 s.fixups_inserted);
    max_stall_cycles = distribution_from summaries (λ s. f.from_u64 s.max_stall_cycles);
    mean_factory_utilization = distribution_from summaries (λ s. s.mean_factory_utilization);
    buffer_full_events = distribution_from summaries (λ s. f.from_u64 s.buffer_full_events);
    magic_states_consumed = distribution_from summaries (λ s. f.from_u64 s.magic_states_consumed);
    total_infidelity = distribution_from summaries (λ s. s.total_infidelity);
    truncated_count = count_if (λ s. s.truncated) summaries % 4294967296;
    config = config;
  }

-- The number of replicas, at least one.
abbrev pub replica_count : MonteCarloConfig → ℕ
replica_count config = max config.replicas 1

-- `config.base_seed.wrapping_add(u64::from(i))`.
abbrev pub replica_seed : MonteCarloConfig → ℕ → ℕ
replica_seed config i = (config.base_seed + i) % 18446744073709551616

abbrev pub replica_config : MonteCarloConfig → ℕ → EngineConfig
replica_config config i = record { seed = replica_seed config i; max_cycles = config.max_cycles }

module _ (W : World) (f : FloatStats W.F64) (p : W.F64) (circuit : ProfilerCircuit W.F64)
    (hw : HardwareModel W.F64) (rounds fuel : ℕ) where
  abbrev pub Summarised : Type 0 → Type 0
  Summarised A = Option (Result MonteCarloError A)

  unfoldable pub run_replica : MonteCarloConfig → ℕ → ℕ → Summarised (ReplicaSummary W.F64)
  run_replica config factory_count i = elim (new W p circuit hw (replica_config config i)) [
    | err e ↦ some (err (engine e))
    | ok e ↦ elim (run rounds fuel e) [
      | none ↦ none
      | some trace ↦ some (ok (extract_summary f trace (replica_seed config i) factory_count))
    ]
  ]

  -- One summary before the others; the first error ends the collection.
  unfoldable pub cons_summary :
      Summarised (ReplicaSummary W.F64)
      → Summarised (List (ReplicaSummary W.F64))
      → Summarised (List (ReplicaSummary W.F64))
  cons_summary none rest = none
  cons_summary (some (err e)) rest = some (err e)
  cons_summary (some (ok s)) none = none
  cons_summary (some (ok s)) (some (err e)) = some (err e)
  cons_summary (some (ok s)) (some (ok ss)) = some (ok (s ∷ ss))

  -- The replicas from `i` on, `left` of them.
  unfoldable pub collect_from :
      MonteCarloConfig → (factory_count i left : ℕ) → Summarised (List (ReplicaSummary W.F64))
  unfolding run_replica cons_summary
  collect_from config factory_count i zero = some (ok [])
  collect_from config factory_count i (suc left) =
      cons_summary (run_replica config factory_count i)
        (collect_from config factory_count (i + 1) left)

  -- `build_pool n` is the reason for which rayon refuses a pool of `n` threads.
  unfoldable pub collect_summaries :
      (ℕ → Option String) → MonteCarloConfig → ℕ → Summarised (List (ReplicaSummary W.F64))
  unfolding collect_from
  collect_summaries build_pool config factory_count = elim config.threads [
    | none ↦ collect_from config factory_count 0 (replica_count config)
    | some n ↦ elim (build_pool n) [
      | some reason ↦ some (err (thread_pool n reason))
      | none ↦ collect_from config factory_count 0 (replica_count config)
    ]
  ]

  abbrev pub factories_of : ℕ
  factories_of = min (Hw.count hw.factory) u16_max

  unfoldable pub run_monte_carlo :
      (ℕ → Option String) → MonteCarloConfig → Summarised (MonteCarloResult W.F64)
  unfolding collect_summaries aggregate
  run_monte_carlo build_pool config =
      elim (new W p circuit hw
        (record { seed = config.base_seed; max_cycles = config.max_cycles })) [
          | err e ↦ some (err (engine e))
          | ok _ ↦ elim (collect_summaries build_pool config factories_of) [
            | none ↦ none
            | some (err e) ↦ some (err e)
            | some (ok summaries) ↦ some (ok (aggregate f summaries config))
          ]
        ]
