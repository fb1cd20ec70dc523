-- ===== src/Analysis.antt =====
-- The analysis of a trace (crates/pirx-core/src/analysis/analyzer.rs and profile.rs). A counter
-- of events of a list in memory does not reach the bounds of u64 or i64, where its `+= 1` would panic
-- (overflow-checks); it is a number or an integer here.
pub mod Buckets
pub mod Counters
pub mod Attempts
pub mod Cover
pub mod Cumulative
pub mod Profile
use Prim.Native.Nat.{bit_or, bit_and}
use pirx.Common.{
  ℕ, zero, suc, ◌+◌, ◌-◌, ◌*◌, ◌/◌, ◌%◌, min, max, Bool, true, false, not, List, [], ◌∷◌, ◌++◌,
  Option, none, some, leb, ltb, ◌==◌, if◌then◌else◌, length, get_elem?, set, update_at, take,
  replicate, map, SecondaryMap, update, sat_add64, ℤ, ◌+ℤ◌,
}
use pirx.Trace.{Trace, TraceEvent, TraceEventKind}

pub data BottleneckType : Type 0 where
  no_bottleneck factory_throughput routing_contention balanced : BottleneckType

pub record StallRecord : Type 0 where
  pub cycle : ℕ
  pub gate_id : ℕ
  pub wait_cycles : ℕ

pub record ExecutionProfile (F : Type 0) : Type 0 where
  pub resolution : ℕ
  pub total_cycles : ℕ
  pub factory_utilization : List F
  pub buffer_occupancy : List ℕ
  pub bottleneck_type : List BottleneckType
  pub stall_events : List StallRecord
  pub injection_errors : ℕ
  pub fixups_inserted : ℕ
  pub critical_path_extension : ℕ
  pub p_logical : F
  pub magic_states_consumed : ℕ
  pub total_infidelity : F
  pub magic_states_per_bucket : List ℕ

-- The operations of f64: `f64::from(u32)`, `u64 as f64`, `/`, `*`, `f64::min`, and 1.0.
pub record FloatArith (F : Type 0) : Type 0 where
  pub from_u32 : ℕ → F
  pub from_u64 : ℕ → F
  pub div : F → F → F
  pub mul : F → F → F
  pub min_of : F → F → F
  pub one : F

abbrev pub had_stall : ℕ
had_stall = 1

abbrev pub had_routing : ℕ
had_routing = 4

-- What the pass over the events accumulates.
pub record Buffers : Type 0 where
  pub factory_active_deltas : List ℤ
  pub buffer_occupancy : List ℕ
  pub bucket_flags : List ℕ
  pub stall_events : List StallRecord
  pub injection_errors : ℕ
  pub fixups_inserted : ℕ
  pub critical_path_extension : ℕ
  pub magic_states_per_bucket : List ℕ
  pub factory_starts : List (Option ℕ)
  pub fixup_starts : SecondaryMap ℕ

-- `remove(key)`.
abbrev pub without : SecondaryMap ℕ → ℕ → SecondaryMap ℕ
without m k j = if k == j then none else m j

-- `get(i).copied().flatten()`.
abbrev pub started_at : List (Option ℕ) → ℕ → Option ℕ
started_at starts i = elim (get_elem? starts i) [ none ↦ none | some slot ↦ slot ]

-- On 64 bits a bucket's number is within usize.
unfoldable pub to_bucket : (resolution num_buckets cycle : ℕ) → ℕ
to_bucket resolution num_buckets cycle = min (cycle / resolution) (num_buckets - 1)

-- The deltas of an interval: +1 at its first bucket, -1 behind its last.
unfoldable pub add_interval : List ℤ → ℕ → ℕ → List ℤ
add_interval deltas start_b end_b =
    update_at (update_at deltas start_b (λ d. d +ℤ ℤ.pos 1)) (end_b + 1) (λ d. d +ℤ ℤ.negsuc 0)

module _ (resolution num_buckets : ℕ) where
  -- An attempt of a factory ends in the bucket `b`.
  unfoldable pub end_attempt : ℕ → ℕ → Buffers → Buffers
  unfolding add_interval to_bucket
  end_attempt b factory_id s = record s {
    factory_active_deltas = elim (started_at s.factory_starts factory_id) [
      | none ↦ s.factory_active_deltas
      | some start ↦ add_interval s.factory_active_deltas (to_bucket resolution num_buckets start) b
    ];
    factory_starts = set s.factory_starts factory_id none;
  }

  -- A gate that was served in the bucket `b`.
  unfoldable pub record_served : ℕ → (cycle gate wait : ℕ) → Buffers → Buffers
  record_served b cycle gate wait s =
      let counted = record s {
        magic_states_per_bucket = update_at s.magic_states_per_bucket b (λ n. sat_add64 n 1);
      } in
      if ltb 0 wait
      then record counted {
        stall_events =
            s.stall_events ++ record { cycle = cycle; gate_id = gate; wait_cycles = wait } ∷ [];
        bucket_flags = update_at s.bucket_flags b (λ f. bit_or f had_stall);
      }
      else counted

  -- The end of a fixup, if its start is known.
  unfoldable pub end_fixup : (cycle fixup : ℕ) → Buffers → Buffers
  end_fixup cycle fixup s = elim (s.fixup_starts fixup) [
    | none ↦ s
    | some start ↦ record s {
      critical_path_extension = sat_add64 s.critical_path_extension (cycle - start);
      fixup_starts = without s.fixup_starts fixup;
    }
  ]

  -- One event, of the bucket `b`.
  unfoldable pub observe_kind : (b cycle : ℕ) → TraceEventKind → Buffers → Buffers
  unfolding end_attempt record_served end_fixup
  observe_kind b cycle (TraceEventKind.factory_started id) s = record s {
    factory_starts = set s.factory_starts id (some cycle);
  }
  observe_kind b cycle (TraceEventKind.factory_produced id) s = end_attempt b id s
  observe_kind b cycle (TraceEventKind.factory_failed id) s = end_attempt b id s
  observe_kind b cycle (TraceEventKind.buffer_enqueue occupancy) s = record s {
    buffer_occupancy = set s.buffer_occupancy b occupancy;
  }
  observe_kind b cycle (TraceEventKind.buffer_dequeue occupancy) s = record s {
    buffer_occupancy = set s.buffer_occupancy b occupancy;
  }
  observe_kind b cycle (TraceEventKind.gate_served gate wait) s = record_served b cycle gate wait s
  observe_kind b cycle (TraceEventKind.injection_error gate) s = record s {
    injection_errors = s.injection_errors + 1;
  }
  observe_kind b cycle (TraceEventKind.fixup_inserted fixup original) s = record s {
    fixups_inserted = s.fixups_inserted + 1;
    fixup_starts = update s.fixup_starts fixup cycle;
  }
  observe_kind b cycle (TraceEventKind.fixup_completed fixup) s = end_fixup cycle fixup s
  observe_kind b cycle (TraceEventKind.routing_completed gate latency) s =
      if ltb 0 latency
      then record s { bucket_flags = update_at s.bucket_flags b (λ f. bit_or f had_routing) }
      else s
  observe_kind b cycle kind s = s

  unfoldable pub observe : TraceEvent → Buffers → Buffers
  unfolding observe_kind to_bucket
  observe ev s = observe_kind (to_bucket resolution num_buckets ev.cycle) ev.cycle ev.kind s

  -- The pass over the events.
  unfoldable pub scan : List TraceEvent → Buffers → Buffers
  unfolding observe
  scan [] s = s
  scan (ev ∷ evs) s = scan evs (observe ev s)

  -- The attempts that did not end last until the bucket `last_b`.
  unfoldable pub fill_partial : ℕ → List (Option ℕ) → List ℤ → List ℤ
  unfolding add_interval to_bucket
  fill_partial last_b [] deltas = deltas
  fill_partial last_b (none ∷ starts) deltas = fill_partial last_b starts deltas
  fill_partial last_b (some start ∷ starts) deltas =
      fill_partial last_b starts
        (add_interval deltas (to_bucket resolution num_buckets start) last_b)

-- The accumulators before the pass.
unfoldable pub empty_buffers : (factory_count num_buckets : ℕ) → Buffers
empty_buffers factory_count num_buckets = record {
  factory_active_deltas = replicate (sat_add64 num_buckets 1) (ℤ.pos 0);
  buffer_occupancy = replicate num_buckets 0;
  bucket_flags = replicate num_buckets 0;
  stall_events = [];
  injection_errors = 0;
  fixups_inserted = 0;
  critical_path_extension = 0;
  magic_states_per_bucket = replicate num_buckets 0;
  factory_starts = replicate factory_count none;
  fixup_starts = λ _. none;
}

-- `if running > 0 { running as u32 } else { 0 }`; the cast keeps 32 bits.
abbrev pub as_active : ℤ → ℕ
as_active (ℤ.pos n) = n % 4294967296
as_active (ℤ.negsuc n) = 0

-- The prefix sums of the deltas.
unfoldable pub active_counts : ℤ → List ℤ → List ℕ
active_counts running [] = []
active_counts running (delta ∷ deltas) =
    as_active (running +ℤ delta) ∷ active_counts (running +ℤ delta) deltas

-- `get(..n).unwrap_or_default()`.
abbrev pub first_of : ℕ → List ℤ → List ℤ
first_of n deltas = if leb n (length deltas) then take n deltas else []

-- The type of a bucket from its two flags.
abbrev pub bottleneck : Bool → Bool → BottleneckType
bottleneck true true = balanced
bottleneck true false = factory_throughput
bottleneck false true = routing_contention
bottleneck false false = no_bottleneck

unfoldable pub classify : ℕ → BottleneckType
classify f = bottleneck (not (bit_and f had_stall == 0)) (not (bit_and f had_routing == 0))

-- `(total_cycles / resolution).saturating_add(1)`.
unfoldable pub bucket_count : (total_cycles resolution : ℕ) → ℕ
bucket_count total_cycles resolution = sat_add64 (total_cycles / resolution) 1

module _ {F : Type 0} where
  unfoldable pub scanned : (factory_count resolution : ℕ) → Trace F → Buffers
  unfolding bucket_count empty_buffers scan
  scanned factory_count resolution trace =
      let num_buckets = bucket_count trace.total_cycles resolution in
      scan resolution num_buckets trace.events (empty_buffers factory_count num_buckets)

  -- How many factories are active, by bucket.
  unfoldable pub active_factories : (factory_count resolution : ℕ) → Trace F → List ℕ
  unfolding scanned fill_partial active_counts bucket_count to_bucket
  active_factories factory_count resolution trace =
      let num_buckets = bucket_count trace.total_cycles resolution in
      let s = scanned factory_count resolution trace in
      let last_b = to_bucket resolution num_buckets trace.total_cycles in
      active_counts (ℤ.pos 0) (
        first_of num_buckets
          (fill_partial resolution num_buckets last_b s.factory_starts s.factory_active_deltas))

  -- `ProfileAnalyzer::analyze`.
  unfoldable pub analyze :
      FloatArith F → Trace F → (factory_count resolution : ℕ) → ExecutionProfile F
  unfolding scanned active_factories classify
  analyze f trace factory_count requested =
      let resolution = max requested 1 in
      let s = scanned factory_count resolution trace in
      record {
        resolution = resolution;
        total_cycles = trace.total_cycles;
        factory_utilization =
            map
              (λ active.
                f.min_of (f.div (f.from_u32 active) (f.from_u32 (max factory_count 1))) f.one)
              (active_factories factory_count resolution trace);
        buffer_occupancy = s.buffer_occupancy;
        bottleneck_type = map classify s.bucket_flags;
        stall_events = s.stall_events;
        injection_errors = s.injection_errors;
        fixups_inserted = s.fixups_inserted;
        critical_path_extension = s.critical_path_extension;
        p_logical = trace.p_logical;
        magic_states_consumed = trace.magic_states_consumed;
        total_infidelity = f.mul (f.from_u64 trace.magic_states_consumed) trace.p_logical;
        magic_states_per_bucket = s.magic_states_per_bucket;
      }

-- The running sums of `cumulative_magic_states`.
unfoldable pub running_sums : ℕ → List ℕ → List ℕ
running_sums running [] = []
running_sums running (c ∷ cs) = sat_add64 running c ∷ running_sums (sat_add64 running c) cs

module _ {F : Type 0} where
  unfoldable pub cumulative_magic_states : ExecutionProfile F → List ℕ
  unfolding running_sums
  cumulative_magic_states profile = running_sums 0 profile.magic_states_per_bucket

  unfoldable pub cumulative_infidelity : FloatArith F → ExecutionProfile F → List F
  unfolding running_sums
  cumulative_infidelity f profile =
      map (λ running. f.mul (f.from_u64 running) profile.p_logical)
        (running_sums 0 profile.magic_states_per_bucket)
