-- ===== src/Analysis/Cover.antt =====
-- How many factories are active in a bucket (crates/pirx-core/src/analysis/analyzer.rs).
use native.Mathlib.Nat.{le-div_iff_mul-le, div-mul-le_self}
use pirx.Common.{
  ℕ, zero, suc, ◌+◌, ◌/◌, ◌%◌, ◌≤◌, ◌<◌, ◌≡◌, refl, sym, ap, ◌∙◌, Bool, true, ◌&&◌, List, [], ◌∷◌,
  Option, none, some, ltb, leb, arith, ◌==◌, count_if, get_elem?, take, set, All, All-map, u64_max,
  sat_add64, ℤ, ◌+ℤ◌, diff, diff-+ℤ, diff_same, pos_diff, eq_of_some, length, length-replicate,
  replicate, get_elem?-replicate, sum_below, sum_below-suc,
}
use pirx.Trace.{Trace, TraceEvent, TraceEventKind}
use pirx.Trace.Tally.{IsChronicle}
use pirx.Analysis.{
  started_at, to_bucket, as_active, active_counts, first_of, bucket_count, empty_buffers, scan,
  scanned, active_factories,
}
use pirx.Analysis.Attempts.{
  Attempt, Attempts, attempts, ended, note_attempt, note_attempts, end_all, Tracks, Notes,
  scan-Notes, fill_partial-Tracks,
}

-- The prefix sums of differences.
active_counts_prefix :
    (ds : List ℤ) (u0 d0 : ℕ) (u d : ℕ → ℕ) (j : ℕ)
    → ((i : ℕ) → i < length ds → get_elem? ds i ≡ some (diff (u i) (d i)))
    → j < length ds
    → get_elem? (active_counts (diff u0 d0) ds) j
      ≡ some (as_active (diff (u0 + sum_below (suc j) u) (d0 + sum_below (suc j) d)))
unfolding active_counts
active_counts_prefix [] u0 d0 u d j e h = absurd (omega arith)
active_counts_prefix (x ∷ ds) u0 d0 u d zero e h =
    let first = ap (λ y. diff u0 d0 +ℤ y) (eq_of_some (e 0 (omega arith))) in
    ap (λ z. some (as_active z))
      (first ∙ diff-+ℤ u0 d0 (u 0) (d 0) ∙ diff_same (omega arith) (omega arith))
active_counts_prefix (x ∷ ds) u0 d0 u d (suc j) e h =
    let first = ap (λ y. diff u0 d0 +ℤ y) (eq_of_some (e 0 (omega arith))) in
    let rest =
      active_counts_prefix ds (u0 + u 0) (d0 + d 0) (λ i. u (suc i)) (λ i. d (suc i)) j
        (λ i b. e (suc i) (omega arith)) (omega arith) in
    ap (λ z. get_elem? (active_counts z ds) j) (first ∙ diff-+ℤ u0 d0 (u 0) (d 0))
    ∙ rest
    ∙ ap (λ z. some (as_active z))
        (diff_same (omega (arith, sum_below-suc (suc j) u))
          (omega (arith, sum_below-suc (suc j) d)))

get_elem?-take {ℓ} :
    {A : Type ℓ} (n j : ℕ) (xs : List A) → j < n → get_elem? (take n xs) j ≡ get_elem? xs j
get_elem?-take zero j xs h = absurd (omega arith)
get_elem?-take (suc n) j [] h = refl
get_elem?-take (suc n) zero (x ∷ xs) h = refl
get_elem?-take (suc n) (suc j) (x ∷ xs) h = get_elem?-take n j xs (omega arith)

length-take {ℓ} : {A : Type ℓ} (n : ℕ) (xs : List A) → n ≤ length xs → length (take n xs) ≡ n
length-take zero xs h = refl
length-take (suc n) [] h = absurd (omega arith)
length-take (suc n) (x ∷ xs) h = ap suc (length-take n xs (omega arith))

module _ {A : Type 0} (g : A → ℕ) where
  count_step :
      (n : ℕ) (xs : List A)
      → count_if (λ a. ltb (g a) (suc n)) xs
        ≡ count_if (λ a. ltb (g a) n) xs + count_if (λ a. g a == n) xs
  count_step n [] = omega arith
  count_step n (x ∷ xs) = ground (arith, count_step n xs)

  count_none : (xs : List A) → count_if (λ a. ltb (g a) 0) xs ≡ 0
  count_none [] = refl
  count_none (x ∷ xs) = ground (arith, count_none xs)

  -- Counts by value add up to the count below a bound.
  sum_below_count :
      (n : ℕ) (xs : List A)
      → sum_below n (λ i. count_if (λ a. g a == i) xs) ≡ count_if (λ a. ltb (g a) n) xs
  sum_below_count zero xs = sym (count_none xs)
  sum_below_count (suc n) xs = omega (arith, sum_below_count n xs, count_step n xs)

module _ {A : Type 0} (first last : A → ℕ) where
  -- Those that started and did not end before `j` cover it.
  count_cover :
      (j : ℕ) (xs : List A)
      → All (λ a. first a ≤ last a) xs
      → count_if (λ a. ltb (first a) (suc j)) xs
        ≡ count_if (λ a. leb (first a) j && leb j (last a)) xs
          + count_if (λ a. ltb (last a + 1) (suc j)) xs
  count_cover j [] h = omega arith
  count_cover j (x ∷ xs) h = let o = h.0 in ground (arith, count_cover j xs h.1)

-- An attempt does not end before it starts.
abbrev IsTimed : Attempt → Type 0
IsTimed a = a.start ≤ a.stop

abbrev UpTo : ℕ → Option ℕ → Type 0
UpTo now none = Unit
UpTo now (some c) = c ≤ now

record Timed (now : ℕ) (a : Attempts) : Type 0 where
  done : All IsTimed a.0
  open_starts : All (UpTo now) a.1

UpTo-mono : (m n : ℕ) → m ≤ n → (o : Option ℕ) → UpTo m o → UpTo n o
UpTo-mono m n h none u = tt
UpTo-mono m n h (some c) u = omega arith

All-set {ℓ} :
    {A : Type ℓ} (P : A → Type 0) (xs : List A) (i : ℕ) (v : A)
    → All P xs
    → P v
    → All P (set xs i v)
All-set P [] i v h p = tt
All-set P (x ∷ xs) zero v h p = (p, h.1)
All-set P (x ∷ xs) (suc i) v h p = (h.0, All-set P xs i v h.1 p)

started_UpTo :
    (now : ℕ) (starts : List (Option ℕ)) (i : ℕ)
    → All (UpTo now) starts
    → UpTo now (started_at starts i)
started_UpTo now [] i h = tt
started_UpTo now (o ∷ starts) zero h = h.0
started_UpTo now (o ∷ starts) (suc i) h = started_UpTo now starts i h.1

ended_Timed :
    (o : Option ℕ) (now : ℕ) (done : List Attempt)
    → UpTo now o
    → All IsTimed done
    → All IsTimed (ended o now done)
ended_Timed none now done u h = h
ended_Timed (some c) now done u h = (u, h)

end_attempt-Timed :
    (now id : ℕ) (a : Attempts)
    → Timed now a
    → Timed now (ended (started_at a.1 id) now a.0, set a.1 id none)
end_attempt-Timed now id a t = record {
  done = ended_Timed (started_at a.1 id) now a.0 (started_UpTo now a.1 id t.open_starts) t.done;
  open_starts = All-set (UpTo now) a.1 id none t.open_starts tt;
}

note_attempt-Timed :
    (now : ℕ) (kind : TraceEventKind) (a : Attempts)
    → Timed now a
    → Timed now (note_attempt now kind a)
note_attempt-Timed now (TraceEventKind.factory_started id) a t = record {
  done = t.done;
  open_starts = All-set (UpTo now) a.1 id (some now) t.open_starts (omega arith);
}
note_attempt-Timed now (TraceEventKind.factory_produced id) a t = end_attempt-Timed now id a t
note_attempt-Timed now (TraceEventKind.factory_failed id) a t = end_attempt-Timed now id a t
note_attempt-Timed now kind a t = record { done = t.done; open_starts = t.open_starts }

later_Timed : (m n : ℕ) (a : Attempts) → m ≤ n → Timed m a → Timed n a
later_Timed m n a h t = record {
  done = t.done;
  open_starts = All-map (UpTo m) (UpTo n) (UpTo-mono m n h) a.1 t.open_starts;
}

note_attempts-Timed :
    (evs : List TraceEvent) (now total : ℕ) (a : Attempts)
    → now ≤ total
    → All (λ ev. now ≤ ev.cycle) evs
    → IsChronicle total evs
    → Timed now a
    → Timed total (note_attempts evs a)
note_attempts-Timed [] now total a h l c t = later_Timed now total a h t
note_attempts-Timed (ev ∷ evs) now total a h l c t =
    note_attempts-Timed evs ev.cycle total (note_attempt ev.cycle ev.kind a) c.0 c.1 c.2
      (note_attempt-Timed ev.cycle ev.kind a (later_Timed now ev.cycle a l.0 t))

end_all-Timed :
    (total : ℕ) (starts : List (Option ℕ)) (done : List Attempt)
    → All (UpTo total) starts
    → All IsTimed done
    → All IsTimed (end_all total starts done)
end_all-Timed total [] done u h = h
end_all-Timed total (o ∷ starts) done u h =
    end_all-Timed total starts (ended o total done) u.1 (ended_Timed o total done u.0 h)

to_bucket_mono :
    (resolution num_buckets m n : ℕ)
    → 0 < resolution
    → m ≤ n
    → to_bucket resolution num_buckets m ≤ to_bucket resolution num_buckets n
unfolding to_bucket
to_bucket_mono resolution num_buckets m n pos h =
    let below = div-mul-le_self m resolution in
    let d = (le-div_iff_mul-le {k = resolution} {x = m / resolution} {y = n} pos).1 (omega arith) in
    omega arith

-- An attempt is under way in a bucket.
abbrev pub covers : (resolution num_buckets j : ℕ) → Attempt → Bool
covers resolution num_buckets j a =
    leb (to_bucket resolution num_buckets a.start) j
    && leb j (to_bucket resolution num_buckets a.stop)

empty-Notes :
    (resolution factory_count num_buckets : ℕ)
    → num_buckets < u64_max
    → Notes resolution num_buckets
        (empty_buffers factory_count num_buckets)
        ([], replicate factory_count none)
unfolding empty_buffers
empty-Notes resolution factory_count num_buckets h = record {
  starts = refl;
  tracks = record {
    size = length-replicate (sat_add64 num_buckets 1) (ℤ.pos 0) ∙ omega arith;
    entry = λ j b. get_elem?-replicate (sat_add64 num_buckets 1) j (ℤ.pos 0) ∙ ground arith;
  };
}

-- The active counts of a difference array are the attempts that cover a bucket.
active_counts-Tracks :
    (resolution num_buckets j : ℕ) (deltas : List ℤ) (list : List Attempt)
    → Tracks resolution num_buckets deltas list
    → All
        (λ a. to_bucket resolution num_buckets a.start ≤ to_bucket resolution num_buckets a.stop)
        list
    → j < num_buckets
    → get_elem? (active_counts (ℤ.pos 0) (first_of num_buckets deltas)) j
      ≡ some (count_if (covers resolution num_buckets j) list % 4294967296)
active_counts-Tracks resolution num_buckets j deltas list t timed h =
    let bucket = to_bucket resolution num_buckets in
    let started = sum_below_count (λ a. bucket a.start) (suc j) list in
    let stopped = sum_below_count (λ a. bucket a.stop + 1) (suc j) list in
    let split = count_cover (λ a. bucket a.start) (λ a. bucket a.stop) j list timed in
    let size = t.size in
    let enough : leb num_buckets (length deltas) ≡ true = ground arith in
    let n = length-take num_buckets deltas (omega arith) in
    let prefix =
      active_counts_prefix (take num_buckets deltas) 0 0 _ _ j
        (λ i b. get_elem?-take num_buckets i deltas (omega arith) ∙ t.entry i (omega arith))
        (omega arith) in
    rw enough (
      prefix
      ∙ ap (λ z. some (as_active z))
          (diff_same {c = count_if (λ a. ltb (bucket a.start) (suc j)) list}
              {d = count_if (λ a. ltb (bucket a.stop + 1) (suc j)) list} (omega (arith, started))
              (omega (arith, stopped))
            ∙ pos_diff _ _ (omega arith)
            ∙ ap ℤ.pos (omega (arith, split))))

none_early : (evs : List TraceEvent) → All (λ ev. 0 ≤ ev.cycle) evs
none_early [] = tt
none_early (ev ∷ evs) = (omega arith, none_early evs)

none-Timed : (n : ℕ) → Timed 0 ([], replicate n none)
none-Timed n = record { done = tt; open_starts = go n }
  where
    go : (n : ℕ) → All (UpTo 0) (replicate n none)
    go zero = tt
    go (suc n) = (tt, go n)

module _ {F : Type 0} where
  -- In a trace in the order of time, the number of factories that are active in a bucket is the
  -- number of attempts that cover it, in 32 bits: an attempt is under way from the bucket in which a
  -- factory starts until the one in which it next produces or fails, or until the end of the trace.
  pub active_factories-Covers :
      (trace : Trace F) (factory_count resolution j : ℕ)
      → 0 < resolution
      → bucket_count trace.total_cycles resolution < u64_max
      → IsChronicle trace.total_cycles trace.events
      → j < bucket_count trace.total_cycles resolution
      → get_elem? (active_factories factory_count resolution trace) j
        ≡ some (
            count_if
              (covers resolution (bucket_count trace.total_cycles resolution) j)
              (attempts factory_count trace.total_cycles trace.events)
            % 4294967296)
  unfolding active_factories scanned
  active_factories-Covers trace factory_count resolution j pos few order h =
      let total = trace.total_cycles in
      let num_buckets = bucket_count total resolution in
      let empty : Attempts = ([], replicate factory_count none) in
      let noted = note_attempts trace.events empty in
      let notes =
        scan-Notes resolution num_buckets trace.events (empty_buffers factory_count num_buckets)
          empty (empty-Notes resolution factory_count num_buckets few) in
      let s = scan resolution num_buckets trace.events (empty_buffers factory_count num_buckets) in
      let tracks =
        fill_partial-Tracks resolution num_buckets total noted.1 s.factory_active_deltas noted.0
          notes.tracks in
      let timed =
        note_attempts-Timed trace.events 0 total empty (omega arith) (none_early trace.events) order
          (none-Timed factory_count) in
      let all_timed = end_all-Timed total noted.1 noted.0 timed.open_starts timed.done in
      let buckets =
        All-map IsTimed
          (λ a. to_bucket resolution num_buckets a.start ≤ to_bucket resolution num_buckets a.stop)
          (λ a le. to_bucket_mono resolution num_buckets a.start a.stop pos le) _ all_timed in
      rw notes.starts (
        active_counts-Tracks resolution num_buckets j _ (attempts factory_count total trace.events)
          tracks buckets h)
