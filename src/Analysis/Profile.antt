-- ===== src/Analysis/Profile.antt =====
-- What a profile says of its trace (crates/pirx-core/src/analysis/).
use pirx.Common.{
  ℕ, zero, suc, ◌+◌, ◌-◌, ◌<◌, ◌≡◌, refl, ap, ◌∙◌, min, max, Bool, true, false, ◌||◌, List, [], ◌∷◌,
  some, ◌*◌, ◌/◌, leb, ltb, ◌==◌, ◌&&◌, if◌then◌else◌, subst, fun_ext, arith, count_if, get_elem?,
  length, length-replicate, get_elem?-replicate, map, u64_max, sum_below,
}
use native.Mathlib.Nat.{le-div_iff_mul-le, div-lt_iff_lt-mul}
use pirx.Trace.{Trace}
use pirx.Trace.Tally.{is_served}
use pirx.Engine.Soundness.{IsConsistent}
use pirx.Analysis.{
  FloatArith, ExecutionProfile, no_bottleneck, factory_throughput, routing_contention, balanced,
  bottleneck, to_bucket, classify, bucket_count, empty_buffers, scan, scanned, analyze,
  cumulative_magic_states,
}
use pirx.Analysis.Buckets.{
  goes_to, in_bucket, has_waited, is_delayed, any_of, classify-flags, last_occupancy, Holds,
  scan-Holds, scan-SameLengths,
}
use pirx.Analysis.Counters.{stalls, is_error, is_insertion, Tallies, scan-Tallies}
use pirx.Analysis.Cumulative.{running_sums-sum_below, sum_below_classes}

-- The cycles of the span `j` of `resolution` cycles; the last of `n` spans has no end.
abbrev pub in_span : (resolution n j cycle : ℕ) → Bool
in_span resolution n j cycle =
    leb (j * resolution) cycle && (ltb cycle ((j + 1) * resolution) || (j + 1 == n))

-- What a bucket of a profile says of the events at its cycles.
pub record IsBucket {F : Type 0} (here : ℕ → Bool) (j : ℕ) (trace : Trace F)
    (profile : ExecutionProfile F) : Type 0 where
  pub served :
      get_elem? profile.magic_states_per_bucket j
      ≡ some (min (count_if (in_bucket here is_served) trace.events) u64_max)
  pub kind :
      get_elem? profile.bottleneck_type j
      ≡ some (
          if any_of (in_bucket here has_waited) trace.events
          then (if any_of (in_bucket here is_delayed) trace.events
              then balanced
              else factory_throughput)
          else (if any_of (in_bucket here is_delayed) trace.events
              then routing_contention
              else no_bottleneck))
  pub occupancy : get_elem? profile.buffer_occupancy j ≡ some (last_occupancy here 0 trace.events)

-- A profile of a trace with `n` buckets, which have the cycles `here`.
pub record IsProfile {F : Type 0} (here : ℕ → ℕ → Bool) (n : ℕ) (trace : Trace F)
    (profile : ExecutionProfile F) : Type 0 where
  pub buckets : (j : ℕ) → j < n → IsBucket (here j) j trace profile
  pub served_length : length profile.magic_states_per_bucket ≡ n
  pub kind_length : length profile.bottleneck_type ≡ n
  pub occupancy_length : length profile.buffer_occupancy ≡ n
  pub stalled : profile.stall_events ≡ stalls trace.events
  pub errors : profile.injection_errors ≡ count_if (λ ev. is_error ev.kind) trace.events
  pub fixups : profile.fixups_inserted ≡ count_if (λ ev. is_insertion ev.kind) trace.events

bottleneck-if :
    (waited delayed : Bool)
    → bottleneck waited delayed ≡ (
        if waited
        then (if delayed then balanced else factory_throughput)
        else (if delayed then routing_contention else no_bottleneck))
bottleneck-if true true = refl
bottleneck-if true false = refl
bottleneck-if false true = refl
bottleneck-if false false = refl

-- The bucket that `to_bucket` computes is the span that has the cycle.
to_bucket-in_span :
    (resolution n j cycle : ℕ)
    → 0 < resolution
    → j < n
    → (to_bucket resolution n cycle == j) ≡ in_span resolution n j cycle
unfolding to_bucket
to_bucket-in_span resolution n j cycle h b =
    let lo = le-div_iff_mul-le {k = resolution} {x = j} {y = cycle} h in
    let hi = div-lt_iff_lt-mul {k = resolution} {x = cycle} {y = j + 1} h in ground (arith, lo, hi)

get_elem?-map :
    {A B : Type 0} (f : A → B) (xs : List A) (i : ℕ) (a : A)
    → get_elem? xs i ≡ some a
    → get_elem? (map f xs) i ≡ some (f a)
get_elem?-map f [] i a h = cc
get_elem?-map f (x ∷ xs) zero a h = ap some (cc)
get_elem?-map f (x ∷ xs) (suc i) a h = get_elem?-map f xs i a h

length-map : {A B : Type 0} (f : A → B) (xs : List A) → length (map f xs) ≡ length xs
length-map f [] = refl
length-map f (x ∷ xs) = ap suc (length-map f xs)

empty-Holds :
    (factory_count n j : ℕ) → j < n → Holds j 0 false false 0 (empty_buffers factory_count n)
unfolding empty_buffers
empty-Holds factory_count n j h = record {
  served = get_elem?-replicate n j 0 ∙ ground arith;
  flag = get_elem?-replicate n j 0 ∙ ground arith;
  occupied = get_elem?-replicate n j 0 ∙ ground arith;
}

empty-Tallies : (factory_count n : ℕ) → Tallies 0 0 [] (empty_buffers factory_count n)
unfolding empty_buffers
empty-Tallies factory_count n = record { errors = refl; fixups = refl; stalled = refl }

empty_sizes :
    (factory_count n : ℕ)
    → let s = empty_buffers factory_count n in
      (length s.magic_states_per_bucket ≡ n)
      × (length s.bucket_flags ≡ n)
      × (length s.buffer_occupancy ≡ n)
unfolding empty_buffers
empty_sizes factory_count n = (length-replicate n 0, length-replicate n 0, length-replicate n 0)

to_bucket-lt : (resolution n cycle : ℕ) → 0 < n → to_bucket resolution n cycle < n
unfolding to_bucket
to_bucket-lt resolution n cycle h = omega arith

bucket_count_pos : (total resolution : ℕ) → 0 < bucket_count total resolution
unfolding bucket_count
bucket_count_pos total resolution = omega arith

any_or_false : (b : Bool) → (b || false) ≡ b
any_or_false true = refl
any_or_false false = refl

module _ {F : Type 0} where
  analyze_by_bucket :
      (f : FloatArith F) (trace : Trace F) (factory_count resolution : ℕ)
      → IsProfile
          (goes_to (max resolution 1) (bucket_count trace.total_cycles (max resolution 1)))
          (bucket_count trace.total_cycles (max resolution 1))
          trace
          (analyze f trace factory_count resolution)
  unfolding analyze scanned
  analyze_by_bucket f trace factory_count requested =
      let resolution = max requested 1 in
      let n = bucket_count trace.total_cycles resolution in
      let begin = empty_buffers factory_count n in
      let s = scan resolution n trace.events begin in
      let same = scan-SameLengths resolution n trace.events begin in
      let sizes = empty_sizes factory_count n in
      let tallies =
        scan-Tallies resolution n 0 0 [] trace.events begin (empty-Tallies factory_count n) in
      record {
        buckets = λ j h.
            let waited = any_of (in_bucket (goes_to resolution n j) has_waited) trace.events in
            let routed = any_of (in_bucket (goes_to resolution n j) is_delayed) trace.events in
            let b =
              scan-Holds resolution n j 0 false false 0 trace.events begin
                (empty-Holds factory_count n j h) in
            record {
              served = b.served ∙ ap (λ k. some (min k u64_max)) (omega arith);
              kind =
                  get_elem?-map classify s.bucket_flags j _ b.flag
                  ∙ ap some (classify-flags (waited || false) (routed || false))
                  ∙ ap (λ x. some (bottleneck x (routed || false))) (any_or_false waited)
                  ∙ ap (λ x. some (bottleneck waited x)) (any_or_false routed)
                  ∙ ap some (bottleneck-if waited routed);
              occupancy = b.occupied;
            };
        served_length = same.served ∙ sizes.0;
        kind_length = length-map classify s.bucket_flags ∙ same.flags_of ∙ sizes.1;
        occupancy_length = same.occupancy ∙ sizes.2;
        stalled = tallies.stalled;
        errors = let e = tallies.errors in omega arith;
        fixups = let e = tallies.fixups in omega arith;
      }

  -- A profile has a bucket for each span of `resolution` cycles (of one cycle, for a resolution of
  -- zero) that begins at or before the end of the trace, up to the range of u64; the last one has all
  -- cycles from its begin. A bucket tells how many gates were served in it, up to the range of u64, and
  -- the last occupancy of the buffer that was reported in it; it is balanced when a gate that waited
  -- was served in it and a gate was routed over a distance, a bottleneck of the factories or of the
  -- routing when there was only the one or the other, and none else. The stalls are those of the gates
  -- that waited, and the counters count the injection errors and the inserted fixups.
  pub analyze-IsProfile :
      (f : FloatArith F) (trace : Trace F) (factory_count resolution : ℕ)
      → IsProfile
          (in_span (max resolution 1) (min (trace.total_cycles / max resolution 1 + 1) u64_max))
          (min (trace.total_cycles / max resolution 1 + 1) u64_max)
          trace
          (analyze f trace factory_count resolution)
  unfolding bucket_count
  analyze-IsProfile f trace factory_count requested =
      let resolution = max requested 1 in
      let n = bucket_count trace.total_cycles resolution in
      let profile = analyze f trace factory_count requested in
      let p = analyze_by_bucket f trace factory_count requested in
      record {
        buckets = λ j h.
            subst (λ here. IsBucket here j trace profile)
              (fun_ext (λ cycle. to_bucket-in_span resolution n j cycle (omega arith) h))
              (p.buckets j h);
        served_length = p.served_length;
        kind_length = p.kind_length;
        occupancy_length = p.occupancy_length;
        stalled = p.stalled;
        errors = p.errors;
        fixups = p.fixups;
      }

  -- For a consistent trace, as those of a run are, the last cumulative number of a profile is the
  -- number of magic states that the trace says were consumed.
  pub cumulative_magic_states-IsConsistent :
      (f : FloatArith F) (trace : Trace F) (factory_count resolution stock capacity : ℕ)
      → IsConsistent stock capacity trace
      → get_elem?
          (cumulative_magic_states (analyze f trace factory_count resolution))
          (bucket_count trace.total_cycles (max resolution 1) - 1)
        ≡ some trace.magic_states_consumed
  unfolding cumulative_magic_states analyze
  cumulative_magic_states-IsConsistent f trace factory_count requested stock capacity consistent =
      let resolution = max requested 1 in
      let n = bucket_count trace.total_cycles resolution in
      let p = analyze_by_bucket f trace factory_count requested in
      let size = p.served_length in
      let pos = bucket_count_pos trace.total_cycles resolution in
      let entry : ℕ → ℕ =
        λ i. min (count_if (in_bucket (goes_to resolution n i) is_served) trace.events) u64_max in
      let whole =
        sum_below_classes (λ ev. is_served ev.kind) (λ ev. to_bucket resolution n ev.cycle) n
          trace.events (λ ev. to_bucket-lt resolution n ev.cycle pos) in
      let up : suc (n - 1) ≡ n = omega arith in
      let consumed = consistent.consumed in
      running_sums-sum_below (analyze f trace factory_count requested).magic_states_per_bucket 0
        (n - 1) entry (λ i h. (p.buckets i (omega arith)).served) (omega arith)
      ∙ ap (λ k. some (min (0 + sum_below k entry) u64_max)) up
      ∙ ap some (omega (arith, whole, consumed))
