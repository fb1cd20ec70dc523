-- ===== src/Analysis/Attempts.antt =====
-- The attempts of the factories in a trace, and the difference array that the pass over the events
-- (crates/pirx-core/src/analysis/analyzer.rs) makes of them.
use pirx.Common.{
  ℕ, ◌+◌, ◌<◌, ◌≡◌, sym, ap, ◌∙◌, Bool, true, false, List, [], ◌∷◌, Option, none, some, ltb, arith,
  ◌==◌, if◌then◌else◌, count_if, get_elem?, set, update_at, Option-cases, Bool-cases, inl, inr, ℤ,
  ◌+ℤ◌, diff, length, replicate,
}
use pirx.Trace.{TraceEvent, TraceEventKind}
use pirx.Analysis.Buckets.{length-add_interval, get_elem?_changed}
use pirx.Analysis.{
  Buffers, started_at, to_bucket, add_interval, end_attempt, record_served, end_fixup, observe_kind,
  observe, scan, fill_partial,
}

-- An attempt of a factory, by its first and its last cycle.
pub record Attempt : Type 0 where
  pub start : ℕ
  pub stop : ℕ

-- The attempts that ended, and the starts of those that did not, by factory.
abbrev pub Attempts : Type 0
Attempts = List Attempt × List (Option ℕ)

abbrev pub ended : Option ℕ → ℕ → List Attempt → List Attempt
ended none stop done = done
ended (some start) stop done = record { start = start; stop = stop } ∷ done

abbrev pub note_attempt : ℕ → TraceEventKind → Attempts → Attempts
note_attempt cycle (TraceEventKind.factory_started id) (done, starts) =
    (done, set starts id (some cycle))
note_attempt cycle (TraceEventKind.factory_produced id) (done, starts) =
    (ended (started_at starts id) cycle done, set starts id none)
note_attempt cycle (TraceEventKind.factory_failed id) (done, starts) =
    (ended (started_at starts id) cycle done, set starts id none)
note_attempt cycle kind a = a

abbrev pub note_attempts : List TraceEvent → Attempts → Attempts
note_attempts [] a = a
note_attempts (ev ∷ evs) a = note_attempts evs (note_attempt ev.cycle ev.kind a)

-- The attempts that are under way at the end last until the end.
abbrev pub end_all : ℕ → List (Option ℕ) → List Attempt → List Attempt
end_all total [] done = done
end_all total (o ∷ starts) done = end_all total starts (ended o total done)

-- The attempts of `factory_count` factories in a trace.
abbrev pub attempts : (factory_count total_cycles : ℕ) → List TraceEvent → List Attempt
attempts factory_count total_cycles evs =
    let (done, starts) = note_attempts evs ([], replicate factory_count none) in
    end_all total_cycles starts done

module _ (resolution num_buckets : ℕ) where
  abbrev pub bucket : ℕ → ℕ
  bucket = to_bucket resolution num_buckets

  -- The deltas count the attempts by their first bucket, less those by the bucket behind their last.
  pub record Tracks (deltas : List ℤ) (list : List Attempt) : Type 0 where
    pub size : length deltas ≡ num_buckets + 1
    pub entry :
        (j : ℕ)
        → j < num_buckets + 1
        → get_elem? deltas j
          ≡ some (
              diff
                (count_if (λ a. bucket a.start == j) list)
                (count_if (λ a. bucket a.stop + 1 == j) list))

  raised :
      (here : Bool) (u d : ℕ)
      → (if here then diff u d +ℤ ℤ.pos 1 else diff u d) ≡ diff ((if here then 1 else 0) + u) d
  raised true u d = ground arith
  raised false u d = ground arith

  lowered :
      (here : Bool) (u d : ℕ)
      → (if here then diff u d +ℤ ℤ.negsuc 0 else diff u d) ≡ diff u ((if here then 1 else 0) + d)
  lowered true u d = ground arith
  lowered false u d = ground arith

  add_interval-Tracks :
      (deltas : List ℤ) (list : List Attempt) (a : Attempt)
      → Tracks deltas list
      → Tracks (add_interval deltas (bucket a.start) (bucket a.stop)) (a ∷ list)
  unfolding add_interval
  add_interval-Tracks deltas list a t = record {
    size = length-add_interval deltas (bucket a.start) (bucket a.stop) ∙ t.size;
    entry = λ j h.
        get_elem?_changed (update_at deltas (bucket a.start) (λ d. d +ℤ ℤ.pos 1))
          (bucket a.stop + 1) j (λ d. d +ℤ ℤ.negsuc 0) _ _
          (get_elem?_changed deltas (bucket a.start) j (λ d. d +ℤ ℤ.pos 1) _ _ (t.entry j h)
            (raised (bucket a.start == j) _ _))
          (lowered (bucket a.stop + 1 == j) _ _);
  }

  -- The accumulators after the attempts that were noted.
  pub record Notes (s : Buffers) (a : Attempts) : Type 0 where
    pub starts : s.factory_starts ≡ a.1
    pub tracks : Tracks s.factory_active_deltas a.0

  end_attempt-Notes :
      (cycle id : ℕ) (s : Buffers) (a : Attempts)
      → Notes s a
      → Notes
          (end_attempt resolution num_buckets (bucket cycle) id s)
          (ended (started_at a.1 id) cycle a.0, set a.1 id none)
  unfolding end_attempt
  end_attempt-Notes cycle id s a h = elim (Option-cases (started_at s.factory_starts id)) [
    | inl idle ↦
        let same : started_at a.1 id ≡ none = ap (λ x. started_at x id) (sym h.starts) ∙ idle in
        rw (idle, same, end_attempt)
          (record { starts = ap (λ x. set x id none) h.starts; tracks = h.tracks })
    | inr (start, busy) ↦
        let same : started_at a.1 id ≡ some start =
          ap (λ x. started_at x id) (sym h.starts) ∙ busy in
        rw (busy, same, end_attempt)
          (record {
            starts = ap (λ x. set x id none) h.starts;
            tracks =
                add_interval-Tracks s.factory_active_deltas a.0
                  (record { start = start; stop = cycle }) h.tracks;
          })
  ]

  observe_kind-Notes :
      (cycle : ℕ) (kind : TraceEventKind) (s : Buffers) (a : Attempts)
      → Notes s a
      → Notes
          (observe_kind resolution num_buckets (bucket cycle) cycle kind s)
          (note_attempt cycle kind a)
  unfolding observe_kind record_served end_fixup
  observe_kind-Notes cycle (TraceEventKind.factory_started id) s a h = record {
    starts = ap (λ x. set x id (some cycle)) h.starts;
    tracks = h.tracks;
  }
  observe_kind-Notes cycle (TraceEventKind.factory_produced id) s a h =
      end_attempt-Notes cycle id s a h
  observe_kind-Notes cycle (TraceEventKind.factory_failed id) s a h =
      end_attempt-Notes cycle id s a h
  observe_kind-Notes cycle (TraceEventKind.gate_served gate wait) s a h =
      elim (Bool-cases (ltb 0 wait)) [
        | inl waits ↦ rw waits (record { starts = h.starts; tracks = h.tracks })
        | inr prompt ↦ rw prompt (record { starts = h.starts; tracks = h.tracks })
      ]
  observe_kind-Notes cycle (TraceEventKind.routing_completed gate latency) s a h =
      elim (Bool-cases (ltb 0 latency)) [
        | inl far ↦ rw far (record { starts = h.starts; tracks = h.tracks })
        | inr near ↦ rw near h
      ]
  observe_kind-Notes cycle (TraceEventKind.fixup_completed fixup) s a h =
      elim (Option-cases (s.fixup_starts fixup)) [
        | inl unknown ↦ rw (unknown, end_fixup) h
        | inr (start, known) ↦
            rw (known, end_fixup) (record { starts = h.starts; tracks = h.tracks })
      ]
  observe_kind-Notes cycle kind s a h = record { starts = h.starts; tracks = h.tracks }

  pub scan-Notes :
      (evs : List TraceEvent) (s : Buffers) (a : Attempts)
      → Notes s a
      → Notes (scan resolution num_buckets evs s) (note_attempts evs a)
  unfolding scan observe
  scan-Notes [] s a h = h
  scan-Notes (ev ∷ evs) s a h =
      scan-Notes evs _ (note_attempt ev.cycle ev.kind a) (observe_kind-Notes ev.cycle ev.kind s a h)

  pub fill_partial-Tracks :
      (total : ℕ) (starts : List (Option ℕ)) (deltas : List ℤ) (done : List Attempt)
      → Tracks deltas done
      → Tracks
          (fill_partial resolution num_buckets (bucket total) starts deltas)
          (end_all total starts done)
  unfolding fill_partial
  fill_partial-Tracks total [] deltas done t = t
  fill_partial-Tracks total (none ∷ starts) deltas done t =
      fill_partial-Tracks total starts deltas done t
  fill_partial-Tracks total (some start ∷ starts) deltas done t =
      fill_partial-Tracks total starts _ _
        (add_interval-Tracks deltas done (record { start = start; stop = total }) t)
