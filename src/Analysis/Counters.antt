-- ===== src/Analysis/Counters.antt =====
-- What the pass over the events (crates/pirx-core/src/analysis/analyzer.rs) counts, and the stalls.
use pirx.Common.{
  ℕ, ◌+◌, ◌≡◌, refl, ap, ◌∙◌, Bool, true, false, List, [], ◌∷◌, ◌++◌, ltb, arith, if◌then◌else◌,
  count_if, count_one, Option-cases, Bool-cases, inl, inr,
}
use pirx.Trace.{TraceEvent, TraceEventKind}
use pirx.Analysis.{
  Buffers, StallRecord, to_bucket, end_attempt, record_served, end_fixup, observe_kind, observe,
  scan,
}

abbrev pub is_error : TraceEventKind → Bool
is_error (TraceEventKind.injection_error gate) = true
is_error kind = false

abbrev pub is_insertion : TraceEventKind → Bool
is_insertion (TraceEventKind.fixup_inserted fixup original) = true
is_insertion kind = false

-- The stall that an event reports: a gate that was served after a wait.
abbrev pub stall_of : ℕ → TraceEventKind → List StallRecord
stall_of cycle (TraceEventKind.gate_served gate wait) =
    if ltb 0 wait then record { cycle = cycle; gate_id = gate; wait_cycles = wait } ∷ [] else []
stall_of cycle kind = []

abbrev pub stalls : List TraceEvent → List StallRecord
stalls [] = []
stalls (ev ∷ evs) = stall_of ev.cycle ev.kind ++ stalls evs

-- After `n` injection errors, `m` inserted fixups and the stalls `l`.
pub record Tallies (n m : ℕ) (l : List StallRecord) (s : Buffers) : Type 0 where
  pub errors : s.injection_errors ≡ n
  pub fixups : s.fixups_inserted ≡ m
  pub stalled : s.stall_events ≡ l

append_nil : (l : List StallRecord) → l ++ [] ≡ l
append_nil [] = refl
append_nil (x ∷ l) = ap (λ r. x ∷ r) (append_nil l)

append_assoc : (a b c : List StallRecord) → (a ++ b) ++ c ≡ a ++ (b ++ c)
append_assoc [] b c = refl
append_assoc (x ∷ a) b c = ap (λ r. x ∷ r) (append_assoc a b c)

module _ (resolution num_buckets : ℕ) where
  observe_kind-Tallies :
      (at cycle n m : ℕ) (l : List StallRecord) (kind : TraceEventKind) (s : Buffers)
      → Tallies n m l s
      → Tallies
          (if is_error kind then n + 1 else n)
          (if is_insertion kind then m + 1 else m)
          (l ++ stall_of cycle kind)
          (observe_kind resolution num_buckets at cycle kind s)
  unfolding observe_kind end_attempt record_served end_fixup
  observe_kind-Tallies at cycle n m l (TraceEventKind.gate_served gate wait) s h =
      elim (Bool-cases (ltb 0 wait)) [
        | inl waits ↦ rw waits (record {
          errors = h.errors;
          fixups = h.fixups;
          stalled =
              ap (λ x. x ++ record { cycle = cycle; gate_id = gate; wait_cycles = wait } ∷ [])
                h.stalled;
        })
        | inr prompt ↦
            rw (prompt, append_nil l)
              (record { errors = h.errors; fixups = h.fixups; stalled = h.stalled })
      ]
  observe_kind-Tallies at cycle n m l (TraceEventKind.routing_completed gate latency) s h =
      elim (Bool-cases (ltb 0 latency)) [
        | inl far ↦
            rw (far, append_nil l)
              (record { errors = h.errors; fixups = h.fixups; stalled = h.stalled })
        | inr near ↦ rw (near, append_nil l) h
      ]
  observe_kind-Tallies at cycle n m l (TraceEventKind.injection_error gate) s h =
      rw (append_nil l) (record {
        errors = let e = h.errors in omega arith;
        fixups = h.fixups;
        stalled = h.stalled;
      })
  observe_kind-Tallies at cycle n m l (TraceEventKind.fixup_inserted fixup original) s h =
      rw (append_nil l) (record {
        errors = h.errors;
        fixups = let e = h.fixups in omega arith;
        stalled = h.stalled;
      })
  observe_kind-Tallies at cycle n m l (TraceEventKind.fixup_completed fixup) s h =
      elim (Option-cases (s.fixup_starts fixup)) [
        | inl unknown ↦ rw (unknown, end_fixup, append_nil l) h
        | inr (start, known) ↦
            rw (known, end_fixup, append_nil l)
              (record { errors = h.errors; fixups = h.fixups; stalled = h.stalled })
      ]
  observe_kind-Tallies at cycle n m l kind s h =
      rw (append_nil l) (record { errors = h.errors; fixups = h.fixups; stalled = h.stalled })

  pub scan-Tallies :
      (n m : ℕ) (l : List StallRecord) (evs : List TraceEvent) (s : Buffers)
      → Tallies n m l s
      → Tallies
          (count_if (λ ev. is_error ev.kind) evs + n)
          (count_if (λ ev. is_insertion ev.kind) evs + m)
          (l ++ stalls evs)
          (scan resolution num_buckets evs s)
  unfolding scan observe
  scan-Tallies n m l [] s h = record {
    errors = let e = h.errors in omega arith;
    fixups = let e = h.fixups in omega arith;
    stalled = rw (append_nil l) h.stalled;
  }
  scan-Tallies n m l (ev ∷ evs) s h =
      let first =
        observe_kind-Tallies (to_bucket resolution num_buckets ev.cycle) ev.cycle n m l ev.kind s
          h in
      let rest =
        scan-Tallies (if is_error ev.kind then n + 1 else n)
          (if is_insertion ev.kind then m + 1 else m) (l ++ stall_of ev.cycle ev.kind) evs
          (observe resolution num_buckets ev s) first in
      record {
        errors =
            rest.errors ∙ count_one (is_error ev.kind) (count_if (λ ev. is_error ev.kind) evs) n;
        fixups =
            rest.fixups
            ∙ count_one (is_insertion ev.kind) (count_if (λ ev. is_insertion ev.kind) evs) m;
        stalled = rest.stalled ∙ append_assoc l (stall_of ev.cycle ev.kind) (stalls evs);
      }
