-- ===== src/Examples/Profiles.antt =====
-- The analysis of a small trace (crates/pirx-core/src/analysis/).
use pirx.Common.{ℕ, ◌*◌, ◌/◌, ◌≡◌, refl, min, [], ◌∷◌, some, false, arith, get_elem?}
use pirx.Trace.{Trace, TraceEventKind}
use pirx.Engine.Soundness.{IsConsistent}
use pirx.Analysis.{
  FloatArith, analyze, active_factories, cumulative_magic_states, bucket_count, to_bucket, scanned,
  scan, observe, observe_kind, end_attempt, record_served, end_fixup, add_interval, fill_partial,
  active_counts, empty_buffers, running_sums,
}
use pirx.Analysis.Cover.{active_factories-Covers}
use pirx.Analysis.Profile.{
  in_span, IsProfile, analyze-IsProfile, cumulative_magic_states-IsConsistent,
}

-- Percents for floats.
abbrev percent_arith : FloatArith ℕ
percent_arith = record {
  from_u32 = λ n. n * 100;
  from_u64 = λ n. n * 100;
  div = λ a b. a * 100 / b;
  mul = λ a b. a * b / 100;
  min_of = min;
  one = 100;
}

-- A factory produces a state, a gate that waited takes it, and a second attempt goes on.
abbrev pub waiting_trace : Trace ℕ
waiting_trace = record {
  schema_version = "1.1";
  events =
      record { cycle = 0; kind = TraceEventKind.factory_started 0 }
      ∷ record { cycle = 2; kind = TraceEventKind.gate_ready 7 }
      ∷ record { cycle = 13; kind = TraceEventKind.factory_produced 0 }
      ∷ record { cycle = 13; kind = TraceEventKind.buffer_enqueue 1 }
      ∷ record { cycle = 13; kind = TraceEventKind.factory_started 0 }
      ∷ record { cycle = 13; kind = TraceEventKind.buffer_dequeue 0 }
      ∷ record { cycle = 13; kind = TraceEventKind.gate_served 7 11 }
      ∷ record { cycle = 15; kind = TraceEventKind.gate_completed 7 }
      ∷ [];
  seed = 0;
  total_cycles = 25;
  truncated = false;
  p_logical = 1;
  magic_states_consumed = 1;
}

active-waiting : active_factories 1 10 waiting_trace ≡ 1 ∷ 2 ∷ 1 ∷ []
unfolding active_factories scanned scan observe observe_kind end_attempt record_served end_fixup
    add_interval fill_partial active_counts empty_buffers bucket_count to_bucket
active-waiting = refl

cumulative-waiting :
    cumulative_magic_states (analyze percent_arith waiting_trace 1 10) ≡ 0 ∷ 1 ∷ 1 ∷ []
unfolding cumulative_magic_states running_sums analyze scanned scan observe observe_kind end_attempt
    record_served end_fixup empty_buffers bucket_count to_bucket
cumulative-waiting = refl

waiting-IsConsistent : IsConsistent 0 1 waiting_trace
waiting-IsConsistent = record {
  ordered = ground arith;
  supplied = omega arith;
  kept = omega arith;
  accounted = refl;
  consumed = refl;
  started = omega arith;
  ready = omega arith;
}

analyze-IsProfile_example :
    IsProfile (in_span 10 3) 3 waiting_trace (analyze percent_arith waiting_trace 1 10)
unfolding bucket_count
analyze-IsProfile_example = analyze-IsProfile percent_arith waiting_trace 1 10

cumulative_magic_states-IsConsistent_example :
    get_elem? (cumulative_magic_states (analyze percent_arith waiting_trace 1 10)) 2 ≡ some 1
unfolding bucket_count
cumulative_magic_states-IsConsistent_example =
    cumulative_magic_states-IsConsistent percent_arith waiting_trace 1 10 0 1 waiting-IsConsistent

active_factories-Covers_example : get_elem? (active_factories 1 10 waiting_trace) 1 ≡ some 2
unfolding bucket_count to_bucket
active_factories-Covers_example =
    active_factories-Covers waiting_trace 1 10 1 (omega arith) (omega arith)
      waiting-IsConsistent.ordered (omega arith)
