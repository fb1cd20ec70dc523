-- ===== src/Analysis/Buckets.antt =====
-- What the pass over the events (crates/pirx-core/src/analysis/analyzer.rs) leaves in each bucket.
use Prim.Native.Nat.{bit_or}
use pirx.Common.{
  ℕ, zero, suc, ◌+◌, ◌≡◌, refl, ap, subst, ◌∙◌, Bool, true, false, ◌&&◌, ◌||◌, List, [], ◌∷◌, some,
  ltb, ◌==◌, arith, if◌then◌else◌, get_elem?, get_elem?-update_at, changed, set, update_at,
  count_if, count_one, sat_add64, Option-cases, inl, inr, Bool-cases, ℤ, ◌+ℤ◌, length, length-set,
  length-update_at, min, u64_max,
}
use pirx.Trace.{TraceEvent, TraceEventKind}
use pirx.Trace.Tally.{is_served}
use pirx.Analysis.{
  Buffers, bottleneck, classify, had_stall, had_routing, started_at, to_bucket, end_attempt,
  record_served, end_fixup, observe_kind, observe, scan, add_interval,
}

-- A gate that waited for its magic state, and a gate that was routed over some distance.
abbrev pub has_waited : TraceEventKind → Bool
has_waited (TraceEventKind.gate_served gate wait) = ltb 0 wait
has_waited kind = false

abbrev pub is_delayed : TraceEventKind → Bool
is_delayed (TraceEventKind.routing_completed gate latency) = ltb 0 latency
is_delayed kind = false

-- The flags of a bucket.
abbrev pub flags : Bool → Bool → ℕ
flags true true = 5
flags true false = 1
flags false true = 4
flags false false = 0

pub classify-flags : (s r : Bool) → classify (flags s r) ≡ bottleneck s r
unfolding classify
classify-flags true true = refl
classify-flags true false = refl
classify-flags false true = refl
classify-flags false false = refl

stall_flag : (s r : Bool) → bit_or (flags s r) had_stall ≡ flags true r
stall_flag true true = refl
stall_flag true false = refl
stall_flag false true = refl
stall_flag false false = refl

routing_flag : (s r : Bool) → bit_or (flags s r) had_routing ≡ flags s true
routing_flag true true = refl
routing_flag true false = refl
routing_flag false true = refl
routing_flag false false = refl

abbrev pub any_of {ℓ} : {A : Type ℓ} → (A → Bool) → List A → Bool
any_of p [] = false
any_of p (x ∷ xs) = p x || any_of p xs

-- The occupancy of a bucket after an event, which is of this bucket or of another.
abbrev pub reported : Bool → TraceEventKind → ℕ → ℕ
reported here (TraceEventKind.buffer_enqueue occupancy) before = if here then occupancy else before
reported here (TraceEventKind.buffer_dequeue occupancy) before = if here then occupancy else before
reported here kind before = before

-- An event of a kind, at one of some cycles.
abbrev pub in_bucket : (ℕ → Bool) → (TraceEventKind → Bool) → TraceEvent → Bool
in_bucket here p ev = p ev.kind && here ev.cycle

-- The last occupancy that events at some cycles report.
abbrev pub last_occupancy : (ℕ → Bool) → ℕ → List TraceEvent → ℕ
last_occupancy here o [] = o
last_occupancy here o (ev ∷ evs) = last_occupancy here (reported (here ev.cycle) ev.kind o) evs

-- `set` at an index, and elsewhere.
get_elem?-set {ℓ} :
    {A : Type ℓ} (xs : List A) (i j : ℕ) (v : A)
    → get_elem? (set xs i v) j ≡ changed (i == j) (λ _. v) (get_elem? xs j)
get_elem?-set [] i j v = refl
get_elem?-set (x ∷ xs) zero zero v = refl
get_elem?-set (x ∷ xs) zero (suc j) v = ground arith
get_elem?-set (x ∷ xs) (suc i) zero v = ground arith
get_elem?-set (x ∷ xs) (suc i) (suc j) v = ground (arith, get_elem?-set xs i j v)

-- The four lists by bucket have as many entries.
pub record SameLengths (s t : Buffers) : Type 0 where
  pub deltas : length t.factory_active_deltas ≡ length s.factory_active_deltas
  pub occupancy : length t.buffer_occupancy ≡ length s.buffer_occupancy
  pub flags_of : length t.bucket_flags ≡ length s.bucket_flags
  pub served : length t.magic_states_per_bucket ≡ length s.magic_states_per_bucket

stall_flags :
    (here w r : Bool)
    → (if here then bit_or (flags w r) had_stall else flags w r) ≡ flags (here || w) r
stall_flags true w r = stall_flag w r
stall_flags false w r = refl

routing_flags :
    (here w r : Bool)
    → (if here then bit_or (flags w r) had_routing else flags w r) ≡ flags w (here || r)
routing_flags true w r = routing_flag w r
routing_flags false w r = refl

one_more :
    (here : Bool) (n : ℕ)
    → (if here then sat_add64 (min n u64_max) 1 else min n u64_max)
      ≡ min (if here then n + 1 else n) u64_max
one_more true n = omega arith
one_more false n = refl

pub get_elem?_changed {ℓ} :
    {A : Type ℓ} (xs : List A) (i j : ℕ) (f : A → A) (a b : A)
    → get_elem? xs j ≡ some a
    → (if i == j then f a else a) ≡ b
    → get_elem? (update_at xs i f) j ≡ some b
get_elem?_changed xs i j f a b h e =
    get_elem?-update_at xs i j f ∙ ap (changed (i == j) f) h ∙ ap some e

get_elem?_replaced {ℓ} :
    {A : Type ℓ} (xs : List A) (i j : ℕ) (v a : A)
    → get_elem? xs j ≡ some a
    → get_elem? (set xs i v) j ≡ some (if i == j then v else a)
get_elem?_replaced xs i j v a h = get_elem?-set xs i j v ∙ ap (changed (i == j) (λ _. v)) h

-- What the bucket `b` holds: `n` gates served, whether one waited and whether one was routed, and
-- the last occupancy.
pub record Holds (b n : ℕ) (waited routed : Bool) (occupancy : ℕ) (s : Buffers) : Type 0 where
  pub served : get_elem? s.magic_states_per_bucket b ≡ some (min n u64_max)
  pub flag : get_elem? s.bucket_flags b ≡ some (flags waited routed)
  pub occupied : get_elem? s.buffer_occupancy b ≡ some occupancy

same :
    (s t : Buffers)
    → t.factory_active_deltas ≡ s.factory_active_deltas
    → t.buffer_occupancy ≡ s.buffer_occupancy
    → t.bucket_flags ≡ s.bucket_flags
    → t.magic_states_per_bucket ≡ s.magic_states_per_bucket
    → SameLengths s t
same s t d o f m = record {
  deltas = ap length d;
  occupancy = ap length o;
  flags_of = ap length f;
  served = ap length m;
}

SameLengths-refl : (s : Buffers) → SameLengths s s
SameLengths-refl s = same s s refl refl refl refl

pub length-add_interval : (ds : List ℤ) (a b : ℕ) → length (add_interval ds a b) ≡ length ds
unfolding add_interval
length-add_interval ds a b =
    length-update_at (update_at ds a (λ d. d +ℤ ℤ.pos 1)) (b + 1) _ ∙ length-update_at ds a _

module _ (resolution num_buckets : ℕ) where
  end_attempt-SameLengths :
      (at id : ℕ) (s : Buffers) → SameLengths s (end_attempt resolution num_buckets at id s)
  unfolding end_attempt
  end_attempt-SameLengths at id s = elim (Option-cases (started_at s.factory_starts id)) [
    | inl idle ↦ rw (idle, end_attempt) (same s _ refl refl refl refl)
    | inr (start, busy) ↦
        rw (busy, end_attempt)
          (record {
            deltas = length-add_interval s.factory_active_deltas _ at;
            occupancy = refl;
            flags_of = refl;
            served = refl;
          })
  ]

  observe_kind-Holds :
      (at cycle b n : ℕ) (waited routed : Bool) (occupancy : ℕ) (kind : TraceEventKind)
      (s : Buffers)
      → Holds b n waited routed occupancy s
      → Holds b
          (if is_served kind && (at == b) then n + 1 else n)
          ((has_waited kind && (at == b)) || waited)
          ((is_delayed kind && (at == b)) || routed)
          (reported (at == b) kind occupancy)
          (observe_kind resolution num_buckets at cycle kind s)
  unfolding observe_kind end_attempt record_served end_fixup
  observe_kind-Holds at cycle b n w r o (TraceEventKind.gate_served gate wait) s h =
      let served =
        get_elem?_changed s.magic_states_per_bucket at b (λ n. sat_add64 n 1) _ _ h.served
          (one_more (at == b) n) in
      elim (Bool-cases (ltb 0 wait)) [
        | inl waits ↦ rw waits (record {
          served = served;
          flag =
              get_elem?_changed s.bucket_flags at b (λ f. bit_or f had_stall) _ _ h.flag
                (stall_flags (at == b) w r);
          occupied = h.occupied;
        })
        | inr prompt ↦ rw prompt (record { served = served; flag = h.flag; occupied = h.occupied })
      ]
  observe_kind-Holds at cycle b n w r o (TraceEventKind.routing_completed gate latency) s h =
      elim (Bool-cases (ltb 0 latency)) [
        | inl far ↦ rw far (record {
          served = h.served;
          flag =
              get_elem?_changed s.bucket_flags at b (λ f. bit_or f had_routing) _ _ h.flag
                (routing_flags (at == b) w r);
          occupied = h.occupied;
        })
        | inr near ↦ rw near h
      ]
  observe_kind-Holds at cycle b n w r o (TraceEventKind.buffer_enqueue occupancy) s h = record {
    served = h.served;
    flag = h.flag;
    occupied = get_elem?_replaced s.buffer_occupancy at b occupancy o h.occupied;
  }
  observe_kind-Holds at cycle b n w r o (TraceEventKind.buffer_dequeue occupancy) s h = record {
    served = h.served;
    flag = h.flag;
    occupied = get_elem?_replaced s.buffer_occupancy at b occupancy o h.occupied;
  }
  observe_kind-Holds at cycle b n w r o (TraceEventKind.fixup_completed fixup) s h =
      elim (Option-cases (s.fixup_starts fixup)) [
        | inl unknown ↦ rw (unknown, end_fixup) h
        | inr (start, known) ↦
            rw (known, end_fixup)
              (record { served = h.served; flag = h.flag; occupied = h.occupied })
      ]
  observe_kind-Holds at cycle b n w r o kind s h = record {
    served = h.served;
    flag = h.flag;
    occupied = h.occupied;
  }

  -- The cycles that `to_bucket` puts in the bucket `b`.
  abbrev pub goes_to : ℕ → ℕ → Bool
  goes_to b cycle = to_bucket resolution num_buckets cycle == b

  any_one : (p a w : Bool) → (a || (p || w)) ≡ ((p || a) || w)
  any_one true true w = refl
  any_one true false w = refl
  any_one false a w = refl

  pub scan-Holds :
      (b n : ℕ) (w r : Bool) (o : ℕ) (evs : List TraceEvent) (s : Buffers)
      → Holds b n w r o s
      → Holds b
          (count_if (in_bucket (goes_to b) is_served) evs + n)
          (any_of (in_bucket (goes_to b) has_waited) evs || w)
          (any_of (in_bucket (goes_to b) is_delayed) evs || r)
          (last_occupancy (goes_to b) o evs)
          (scan resolution num_buckets evs s)
  unfolding scan observe
  scan-Holds b n w r o [] s h = subst (λ k. Holds b k w r o s) (omega arith) h
  scan-Holds b n w r o (ev ∷ evs) s h =
      let here = to_bucket resolution num_buckets ev.cycle == b in
      let first =
        observe_kind-Holds (to_bucket resolution num_buckets ev.cycle) ev.cycle b n w r o ev.kind s
          h in
      let rest =
        scan-Holds b (if is_served ev.kind && here then n + 1 else n)
          ((has_waited ev.kind && here) || w) ((is_delayed ev.kind && here) || r)
          (reported here ev.kind o) evs (observe resolution num_buckets ev s) first in
      record {
        served =
            rest.served
            ∙ ap (λ k. some (min k u64_max))
                (count_one (is_served ev.kind && here)
                  (count_if (in_bucket (goes_to b) is_served) evs) n);
        flag =
            rest.flag
            ∙ ap
                (λ x. some (
                  flags x (
                    any_of (in_bucket (goes_to b) is_delayed) evs
                    || ((is_delayed ev.kind && here) || r))))
                (any_one (has_waited ev.kind && here)
                  (any_of (in_bucket (goes_to b) has_waited) evs) w)
            ∙ ap (λ x. some (flags ((any_of (in_bucket (goes_to b) has_waited) (ev ∷ evs)) || w) x))
                (any_one (is_delayed ev.kind && here)
                  (any_of (in_bucket (goes_to b) is_delayed) evs) r);
        occupied = rest.occupied;
      }

  observe_kind-SameLengths :
      (at cycle : ℕ) (kind : TraceEventKind) (s : Buffers)
      → SameLengths s (observe_kind resolution num_buckets at cycle kind s)
  unfolding observe_kind end_attempt record_served end_fixup
  observe_kind-SameLengths at cycle (TraceEventKind.factory_produced id) s =
      end_attempt-SameLengths at id s
  observe_kind-SameLengths at cycle (TraceEventKind.factory_failed id) s =
      end_attempt-SameLengths at id s
  observe_kind-SameLengths at cycle (TraceEventKind.buffer_enqueue occupancy) s = record {
    deltas = refl;
    occupancy = length-set s.buffer_occupancy at occupancy;
    flags_of = refl;
    served = refl;
  }
  observe_kind-SameLengths at cycle (TraceEventKind.buffer_dequeue occupancy) s = record {
    deltas = refl;
    occupancy = length-set s.buffer_occupancy at occupancy;
    flags_of = refl;
    served = refl;
  }
  observe_kind-SameLengths at cycle (TraceEventKind.gate_served gate wait) s =
      let counted = length-update_at s.magic_states_per_bucket at (λ n. sat_add64 n 1) in
      elim (Bool-cases (ltb 0 wait)) [
        | inl waits ↦ rw waits (record {
          deltas = refl;
          occupancy = refl;
          flags_of = length-update_at s.bucket_flags at (λ f. bit_or f had_stall);
          served = counted;
        })
        | inr prompt ↦
            rw prompt
              (record { deltas = refl; occupancy = refl; flags_of = refl; served = counted })
      ]
  observe_kind-SameLengths at cycle (TraceEventKind.routing_completed gate latency) s =
      elim (Bool-cases (ltb 0 latency)) [
        | inl far ↦ rw far (record {
          deltas = refl;
          occupancy = refl;
          flags_of = length-update_at s.bucket_flags at (λ f. bit_or f had_routing);
          served = refl;
        })
        | inr near ↦ rw near (SameLengths-refl s)
      ]
  observe_kind-SameLengths at cycle (TraceEventKind.fixup_completed fixup) s =
      elim (Option-cases (s.fixup_starts fixup)) [
        | inl unknown ↦ rw (unknown, end_fixup) (SameLengths-refl s)
        | inr (start, known) ↦ rw (known, end_fixup) (same s _ refl refl refl refl)
      ]
  observe_kind-SameLengths at cycle kind s = same s _ refl refl refl refl

  pub scan-SameLengths :
      (evs : List TraceEvent) (s : Buffers) → SameLengths s (scan resolution num_buckets evs s)
  unfolding scan observe
  scan-SameLengths [] s = SameLengths-refl s
  scan-SameLengths (ev ∷ evs) s =
      let first =
        observe_kind-SameLengths (to_bucket resolution num_buckets ev.cycle) ev.cycle ev.kind s in
      let rest = scan-SameLengths evs (observe resolution num_buckets ev s) in
      record {
        deltas = rest.deltas ∙ first.deltas;
        occupancy = rest.occupancy ∙ first.occupancy;
        flags_of = rest.flags_of ∙ first.flags_of;
        served = rest.served ∙ first.served;
      }
