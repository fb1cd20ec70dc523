-- ===== src/MonteCarlo/Summary.antt =====
-- What a summary says of its trace (`extract_summary`, crates/pirx-core/src/monte_carlo.rs).
use pirx.Common.{
  ℕ, ◌+◌, ◌-◌, ◌&&◌, ◌≤◌, ◌≡◌, refl, sym, ap, ◌∙◌, min, max, Bool, List, [], ◌∷◌, none, some, ltb,
  arith, if◌then◌else◌, count_if, count_one, Option-cases, Bool-cases, inl, inr, set, replicate,
  sat_add64, u64_max,
}
use pirx.Trace.{Trace, TraceEvent, TraceEventKind}
use pirx.Trace.Tally.{is_full}
use pirx.Analysis.{started_at}
use pirx.Analysis.Buckets.{has_waited}
use pirx.Analysis.Counters.{is_error, is_insertion}
use pirx.Analysis.Attempts.{Attempt, Attempts, ended, note_attempt, note_attempts}
use pirx.MonteCarlo.{
  FloatStats, ReplicaSummary, Counts, increment, stop_attempt, count_kind, count_events, no_counts,
  mean_utilization, extract_summary,
}

-- How long a gate waited.
abbrev pub wait_of : TraceEventKind → ℕ
wait_of (TraceEventKind.gate_served gate wait) = wait
wait_of kind = 0

abbrev pub total_wait : List TraceEvent → ℕ
total_wait [] = 0
total_wait (ev ∷ evs) = wait_of ev.kind + total_wait evs

abbrev pub longest_wait : List TraceEvent → ℕ
longest_wait [] = 0
longest_wait (ev ∷ evs) = max (wait_of ev.kind) (longest_wait evs)

-- The cycles of attempts that ended.
abbrev pub busy_cycles : List Attempt → ℕ
busy_cycles [] = 0
busy_cycles (a ∷ list) = (a.stop - a.start) + busy_cycles list

-- A counter that every event of a kind increments.
abbrev Increments : (Counts → ℕ) → (TraceEventKind → Bool) → Type 0
Increments field p =
    (cycle : ℕ) (kind : TraceEventKind) (s : Counts)
    → field (count_kind cycle kind s) ≡ (if p kind then increment (field s) else field s)

count_events-Increments :
    (field : Counts → ℕ) (p : TraceEventKind → Bool)
    → Increments field p
    → (evs : List TraceEvent) (s : Counts) (n : ℕ) → field s ≡ n
    → field (count_events evs s) ≡ count_if (λ ev. p ev.kind) evs + n
unfolding count_events
count_events-Increments field p h [] s n e = omega (arith, e)
count_events-Increments field p h (ev ∷ evs) s n e =
    let one = h ev.cycle ev.kind s in
    count_events-Increments field p h evs (count_kind ev.cycle ev.kind s)
      (if p ev.kind then n + 1 else n) (ground arith)
    ∙ count_one (p ev.kind) (count_if (λ ev. p ev.kind) evs) n

stalls-Increments : Increments (λ s. s.stall_count) has_waited
unfolding count_kind stop_attempt
stalls-Increments cycle kind s = ground arith

errors-Increments : Increments (λ s. s.injection_errors) is_error
unfolding count_kind stop_attempt
errors-Increments cycle kind s = ground arith

fixups-Increments : Increments (λ s. s.fixups_inserted) is_insertion
unfolding count_kind stop_attempt
fixups-Increments cycle kind s = ground arith

full-Increments : Increments (λ s. s.buffer_full_events) is_full
unfolding count_kind stop_attempt
full-Increments cycle kind s = ground arith

kind_wait :
    (cycle : ℕ) (kind : TraceEventKind) (s : Counts)
    → s.total_stall_cycles ≤ u64_max
    → ((count_kind cycle kind s).total_stall_cycles ≡ sat_add64 s.total_stall_cycles (wait_of kind))
      × ((count_kind cycle kind s).max_stall_cycles ≡ max s.max_stall_cycles (wait_of kind))
unfolding count_kind stop_attempt
kind_wait cycle kind s h = ground arith

count_events_wait :
    (evs : List TraceEvent) (s : Counts) (n : ℕ)
    → s.total_stall_cycles ≡ min n u64_max
    → ((count_events evs s).total_stall_cycles ≡ min (n + total_wait evs) u64_max)
      × ((count_events evs s).max_stall_cycles ≡ max s.max_stall_cycles (longest_wait evs))
unfolding count_events
count_events_wait [] s n e = (omega arith, omega arith)
count_events_wait (ev ∷ evs) s n e =
    let (total, longest) = kind_wait ev.cycle ev.kind s (omega arith) in
    let rest =
      count_events_wait evs (count_kind ev.cycle ev.kind s) (n + wait_of ev.kind) (omega arith) in
    let a = rest.0 in let b = rest.1 in (omega arith, omega arith)

-- The starts and the busy cycles, against the attempts of the trace.
record Busy (s : Counts) (a : Attempts) : Type 0 where
  starts : s.factory_starts ≡ a.1
  cycles : s.total_factory_active_cycles ≡ min (busy_cycles a.0) u64_max

stop_attempt-Busy :
    (cycle id : ℕ) (s : Counts) (a : Attempts)
    → Busy s a
    → Busy (stop_attempt cycle id s) (ended (started_at a.1 id) cycle a.0, set a.1 id none)
unfolding stop_attempt
stop_attempt-Busy cycle id s a h = elim (Option-cases (started_at s.factory_starts id)) [
  | inl idle ↦
      let same : started_at a.1 id ≡ none = ap (λ x. started_at x id) (sym h.starts) ∙ idle in
      rw (idle, same, stop_attempt)
        (record { starts = ap (λ x. set x id none) h.starts; cycles = h.cycles })
  | inr (start, busy) ↦
      let same : started_at a.1 id ≡ some start = ap (λ x. started_at x id) (sym h.starts) ∙ busy in
      rw (busy, same, stop_attempt)
        (record {
          starts = ap (λ x. set x id none) h.starts;
          cycles = let c = h.cycles in omega arith;
        })
]

count_kind-Busy :
    (cycle : ℕ) (kind : TraceEventKind) (s : Counts) (a : Attempts)
    → Busy s a
    → Busy (count_kind cycle kind s) (note_attempt cycle kind a)
unfolding count_kind
count_kind-Busy cycle (TraceEventKind.factory_started id) s a h = record {
  starts = ap (λ x. set x id (some cycle)) h.starts;
  cycles = h.cycles;
}
count_kind-Busy cycle (TraceEventKind.factory_produced id) s a h = stop_attempt-Busy cycle id s a h
count_kind-Busy cycle (TraceEventKind.factory_failed id) s a h = stop_attempt-Busy cycle id s a h
count_kind-Busy cycle (TraceEventKind.gate_served gate wait) s a h =
    elim (Bool-cases (ltb 0 wait)) [
      | inl waits ↦ rw waits (record { starts = h.starts; cycles = h.cycles })
      | inr prompt ↦ rw prompt h
    ]
count_kind-Busy cycle kind s a h = record { starts = h.starts; cycles = h.cycles }

count_events-Busy :
    (evs : List TraceEvent) (s : Counts) (a : Attempts)
    → Busy s a
    → Busy (count_events evs s) (note_attempts evs a)
unfolding count_events
count_events-Busy [] s a h = h
count_events-Busy (ev ∷ evs) s a h =
    count_events-Busy evs (count_kind ev.cycle ev.kind s) (note_attempt ev.cycle ev.kind a)
      (count_kind-Busy ev.cycle ev.kind s a h)

-- What a summary says of its trace.
pub record Summarises {F : Type 0} (f : FloatStats F) (trace : Trace F) (factory_count : ℕ)
    (s : ReplicaSummary F) : Type 0 where
  pub stalls : s.stall_count ≡ count_if (λ ev. has_waited ev.kind) trace.events
  pub waits : s.total_stall_cycles ≡ min (total_wait trace.events) u64_max
  pub longest : s.max_stall_cycles ≡ longest_wait trace.events
  pub errors : s.injection_errors ≡ count_if (λ ev. is_error ev.kind) trace.events
  pub fixups : s.fixups_inserted ≡ count_if (λ ev. is_insertion ev.kind) trace.events
  pub full : s.buffer_full_events ≡ count_if (λ ev. is_full ev.kind) trace.events
  pub utilization : s.mean_factory_utilization ≡ (
      if ltb 0 trace.total_cycles && ltb 0 factory_count
      then f.div
          (f.from_u64 (
            min
              (busy_cycles (note_attempts trace.events ([], replicate factory_count none)).0)
              u64_max))
          (f.mul (f.from_u64 trace.total_cycles) (f.from_u64 factory_count))
      else f.zero)

module _ {F : Type 0} where
  -- A summary counts the gates that waited, the injection errors, the inserted fixups and the states
  -- that were lost to a full buffer; it has the sum of all waits, up to the range of u64, and the
  -- longest wait; and its utilization is zero when there is no cycle or no factory, and else the
  -- quotient of the cycles of the attempts that ended, up to the range of u64, by the product of the
  -- cycles of the trace and the number of factories.
  pub extract_summary-Summarises :
      (f : FloatStats F) (trace : Trace F) (seed factory_count : ℕ)
      → Summarises f trace factory_count (extract_summary f trace seed factory_count)
  unfolding extract_summary no_counts mean_utilization
  extract_summary-Summarises f trace seed factory_count =
      let begin = no_counts factory_count in
      let evs = trace.events in
      let stalls =
        count_events-Increments (λ s. s.stall_count) has_waited stalls-Increments evs begin 0
          refl in
      let errors =
        count_events-Increments (λ s. s.injection_errors) is_error errors-Increments evs begin 0
          refl in
      let fixups =
        count_events-Increments (λ s. s.fixups_inserted) is_insertion fixups-Increments evs begin 0
          refl in
      let full =
        count_events-Increments (λ s. s.buffer_full_events) is_full full-Increments evs begin 0
          refl in
      let waits = count_events_wait evs begin 0 refl in
      let total = waits.0 in
      let longest = waits.1 in
      let busy =
        count_events-Busy evs begin ([], replicate factory_count none)
          (record { starts = refl; cycles = refl }) in
      record {
        stalls = omega arith;
        waits = omega arith;
        longest = omega arith;
        errors = omega arith;
        fixups = omega arith;
        full = omega arith;
        utilization =
            ap
              (λ n.
                if ltb 0 trace.total_cycles && ltb 0 factory_count
                then f.div (f.from_u64 n)
                    (f.mul (f.from_u64 trace.total_cycles) (f.from_u64 factory_count))
                else f.zero)
              busy.cycles;
      }
