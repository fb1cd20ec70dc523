-- ===== src/Events/Counts.antt =====
-- `schedule` and `pop` (crates/pirx-core/src/events.rs), seen through properties and counts of events.
use pirx.Common.{ℕ, ◌+◌, ◌≡◌, refl, ◌∙◌, Bool, List, [], ◌∷◌, if◌then◌else◌, All, arith}
use pirx.Events.{EngineEvent, TimedEvent, EventQueue, push_heap, schedule}
use pirx.Events.Order.{All-push_heap, IsOrdered, push_heap-IsOrdered}

-- How many of the waiting events are of a kind.
unfoldable pub waiting : (EngineEvent → Bool) → List TimedEvent → ℕ
waiting p [] = 0
waiting p (e ∷ es) = (if p e.event then 1 else 0) + waiting p es

waiting-push_heap :
    (p : EngineEvent → Bool) (x : TimedEvent) (xs : List TimedEvent)
    → waiting p (push_heap x xs) ≡ waiting p (x ∷ xs)
unfolding waiting push_heap
waiting-push_heap p x [] = refl
waiting-push_heap p x (y ∷ ys) = ground (arith, waiting-push_heap p x ys)

pub waiting-cons :
    (p : EngineEvent → Bool) (x : TimedEvent) (xs : List TimedEvent)
    → waiting p (x ∷ xs) ≡ (if p x.event then 1 else 0) + waiting p xs
unfolding waiting
waiting-cons p x xs = refl

pub waiting-schedule :
    (p : EngineEvent → Bool) (q : EventQueue) (c : ℕ) (ev : EngineEvent)
    → waiting p (schedule q c ev).heap ≡ (if p ev then 1 else 0) + waiting p q.heap
unfolding schedule
waiting-schedule p q c ev = waiting-push_heap p _ q.heap ∙ waiting-cons p _ q.heap

-- A property of the cycles holds of a queue with one more event.
pub All-schedule {ℓ} :
    (P : ℕ → Type ℓ) (q : EventQueue) (c : ℕ) (ev : EngineEvent)
    → P c
    → All (λ e. P e.cycle) q.heap
    → All (λ e. P e.cycle) (schedule q c ev).heap
unfolding schedule
All-schedule P q c ev p h = All-push_heap (λ e. P e.cycle) _ q.heap p h

pub schedule-IsOrdered :
    (q : EventQueue) (c : ℕ) (ev : EngineEvent)
    → IsOrdered q.heap
    → IsOrdered (schedule q c ev).heap
unfolding schedule
schedule-IsOrdered q c ev h = push_heap-IsOrdered _ q.heap h
