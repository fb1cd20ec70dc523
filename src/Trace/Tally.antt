-- ===== src/Trace/Tally.antt =====
-- Events of a trace (crates/pirx-core/src/trace.rs), counted by kind, and the order of their cycles.
use pirx.Common.{
  ℕ, ◌+◌, ◌≤◌, ◌≡◌, Bool, true, false, List, [], ◌∷◌, ◌++◌, if◌then◌else◌, count_if,
  count_if-append, All, arith,
}
use pirx.Trace.{TraceEvent, TraceEventKind, TraceCollector, append}

unfoldable pub tally : (TraceEventKind → Bool) → TraceCollector → ℕ
tally p t = count_if (λ ev. p ev.kind) t.events

pub tally-append :
    (p : TraceEventKind → Bool) (t : TraceCollector) (cycle : ℕ) (k : TraceEventKind)
    → tally p (append t cycle k) ≡ tally p t + (if p k then 1 else 0)
unfolding tally append
tally-append p t cycle k =
    omega
      (arith, count_if-append (λ ev. p ev.kind) t.events (record { cycle = cycle; kind = k } ∷ []))

abbrev pub is_enqueue : TraceEventKind → Bool
is_enqueue (TraceEventKind.buffer_enqueue occupancy) = true
is_enqueue kind = false

abbrev pub is_dequeue : TraceEventKind → Bool
is_dequeue (TraceEventKind.buffer_dequeue occupancy) = true
is_dequeue kind = false

abbrev pub is_full : TraceEventKind → Bool
is_full TraceEventKind.buffer_full = true
is_full kind = false

abbrev pub is_produced : TraceEventKind → Bool
is_produced (TraceEventKind.factory_produced id) = true
is_produced kind = false

abbrev pub is_ready : TraceEventKind → Bool
is_ready (TraceEventKind.gate_ready gate) = true
is_ready kind = false

abbrev pub is_scheduled : TraceEventKind → Bool
is_scheduled (TraceEventKind.gate_scheduled gate) = true
is_scheduled kind = false

abbrev pub is_served : TraceEventKind → Bool
is_served (TraceEventKind.gate_served gate wait) = true
is_served kind = false

-- A gate or a fixup has completed.
abbrev pub is_completion : TraceEventKind → Bool
is_completion (TraceEventKind.gate_completed gate) = true
is_completion (TraceEventKind.fixup_completed fixup) = true
is_completion kind = false

-- The cycles of a trace never fall, and none lies behind `now`.
abbrev pub IsChronicle : ℕ → List TraceEvent → Type 0
IsChronicle now [] = Unit {0}
IsChronicle now (ev ∷ evs) =
    (ev.cycle ≤ now) × All (λ later. ev.cycle ≤ later.cycle) evs × IsChronicle now evs

pub IsChronicle-mono :
    (m n : ℕ) (evs : List TraceEvent) → m ≤ n → IsChronicle m evs → IsChronicle n evs
IsChronicle-mono m n [] h c = tt
IsChronicle-mono m n (ev ∷ evs) h c = (omega arith, c.1, IsChronicle-mono m n evs h c.2)

All-snoc {ℓ} :
    (P : TraceEvent → Type ℓ) (evs : List TraceEvent) (ev : TraceEvent)
    → All P evs
    → P ev
    → All P (evs ++ ev ∷ [])
All-snoc P [] ev h p = (p, tt)
All-snoc P (x ∷ evs) ev h p = (h.0, All-snoc P evs ev h.1 p)

IsChronicle-snoc :
    (now : ℕ) (evs : List TraceEvent) (k : TraceEventKind)
    → IsChronicle now evs
    → IsChronicle now (evs ++ record { cycle = now; kind = k } ∷ [])
IsChronicle-snoc now [] k c = (omega arith, tt, tt)
IsChronicle-snoc now (ev ∷ evs) k c =
    (c.0, All-snoc (λ later. ev.cycle ≤ later.cycle) evs _ c.1 c.0, IsChronicle-snoc now evs k c.2)

pub IsChronicle-append :
    (now : ℕ) (t : TraceCollector) (k : TraceEventKind)
    → IsChronicle now t.events
    → IsChronicle now (append t now k).events
unfolding append
IsChronicle-append now t k c = IsChronicle-snoc now t.events k c
