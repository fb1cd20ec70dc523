-- ===== src/Events/Order.antt =====
-- The order in which the event queue (crates/pirx-core/src/events.rs) hands out its events.
use pirx.Common.{
  ℕ, ◌≢◌, sat_add64, ◌≤◌, ◌<◌, ◌≡◌, ◌⊎◌, inl, inr, refl, List, [], ◌∷◌, ◌++◌, none, some, arith,
  All, All-map, ◌==◌, if◌then◌else◌, u64_max,
}
use pirx.Events.{TimedEvent, EngineEvent, EventQueue, new, push_heap, schedule, pop}

-- `a` is delivered no later than `b`.
abbrev pub Before : TimedEvent → TimedEvent → Type 0
Before a b = (a.cycle < b.cycle) ⊎ (a.cycle ≡ b.cycle) × (a.seq ≤ b.seq)

-- Every entry is delivered before all entries behind it.
abbrev pub IsOrdered : List TimedEvent → Type 0
IsOrdered [] = Unit {0}
IsOrdered (x ∷ xs) = All (Before x) xs × IsOrdered xs

pub All-push_heap {ℓ} :
    (P : TimedEvent → Type ℓ) (x : TimedEvent) (xs : List TimedEvent)
    → P x
    → All P xs
    → All P (push_heap x xs)
unfolding push_heap
All-push_heap P x [] p h = (p, tt)
All-push_heap P x (y ∷ ys) p h = ground (arith, All-push_heap P x ys p h.1)

Before-trans : (a b c : TimedEvent) → Before a b → Before b c → Before a c
Before-trans a b c p q = ground arith

-- A new entry goes in front of the first entry that is strictly later.
push_heap-cases :
    (x y : TimedEvent) (ys : List TimedEvent)
    → ((push_heap x (y ∷ ys) ≡ x ∷ y ∷ ys) × Before x y × (y.seq < x.seq → x.cycle < y.cycle))
      ⊎ (push_heap x (y ∷ ys) ≡ y ∷ push_heap x ys) × Before y x
unfolding push_heap
push_heap-cases x y ys = ground arith

push_heap-nil : (x : TimedEvent) → push_heap x [] ≡ x ∷ []
unfolding push_heap
push_heap-nil x = refl

pub push_heap-IsOrdered :
    (x : TimedEvent) (xs : List TimedEvent) → IsOrdered xs → IsOrdered (push_heap x xs)
push_heap-IsOrdered x [] h = unfold push_heap in (tt, tt)
push_heap-IsOrdered x (y ∷ ys) h = elim (push_heap-cases x y ys) [
  | inl (e, p, _) ↦ rw e ((p, All-map (Before y) (Before x) (λ z. Before-trans x y z p) ys h.0), h)
  | inr (e, p) ↦ rw e (All-push_heap (Before y) x ys p h.0, push_heap-IsOrdered x ys h.1)
]

-- The events that wait for cycle `c`, in the order of delivery.
unfoldable pub at : ℕ → List TimedEvent → List EngineEvent
at c [] = []
at c (e ∷ es) = if e.cycle == c then e.event ∷ at c es else at c es

at_none : (c : ℕ) (xs : List TimedEvent) → All (λ e. c < e.cycle) xs → at c xs ≡ []
unfolding at
at_none c [] h = refl
at_none c (x ∷ xs) h = ground (arith, at_none c xs h.1)

at-push_heap :
    (c : ℕ) (x : TimedEvent) (xs : List TimedEvent)
    → IsOrdered xs
    → All (λ e. e.seq < x.seq) xs
    → at c (push_heap x xs) ≡ (if x.cycle == c then at c xs ++ x.event ∷ [] else at c xs)
unfolding at
at-push_heap c x [] o h = rw (push_heap-nil x) (ground arith)
at-push_heap c x (y ∷ ys) o h = elim (push_heap-cases x y ys) [
  | inl (e, _, p) ↦
      let later =
        All-map (Before y) (λ z. x.cycle < z.cycle) (λ z b. ground (arith, p h.0)) ys o.0 in
      rw e (ground (arith, at_none x.cycle (y ∷ ys) (p h.0, later)))
  | inr (e, p) ↦ rw e (ground (arith, at-push_heap c x ys o.1 h.1))
]

-- The queue as the engine uses it: ordered, and every sequence number was handed out before.
pub record IsValid (q : EventQueue) : Type 0 where
  pub ordered : IsOrdered q.heap
  pub numbered : All (λ e. e.seq < q.next_seq) q.heap

-- Scheduling keeps a queue valid while its counter has not reached the maximum of u64: it stays
-- ordered by cycle and number, and all numbers were handed out before.
pub schedule-IsValid :
    (q : EventQueue) (cycle : ℕ) (event : EngineEvent)
    → IsValid q
    → q.next_seq < u64_max
    → IsValid (schedule q cycle event)
unfolding schedule
schedule-IsValid q cycle event v h =
    let e : TimedEvent = record { cycle = cycle; seq = q.next_seq; event = event } in
    record {
      ordered = push_heap-IsOrdered _ q.heap v.ordered;
      numbered =
          All-push_heap (λ e. e.seq < sat_add64 q.next_seq 1) _ q.heap (omega arith)
            (All-map (λ e. e.seq < q.next_seq) (λ e. e.seq < sat_add64 q.next_seq 1)
              (λ e p. omega arith) q.heap v.numbered);
    }

-- Scheduling an event in a valid queue puts it behind the events that wait for the same cycle, and
-- changes nothing for any other cycle.
pub at-schedule :
    (q : EventQueue) (cycle c : ℕ) (event : EngineEvent)
    → IsValid q
    → at c (schedule q cycle event).heap
      ≡ (if cycle == c then at c q.heap ++ event ∷ [] else at c q.heap)
unfolding schedule
at-schedule q cycle c event v = at-push_heap c _ q.heap v.ordered v.numbered

-- `pop` of a valid queue returns none exactly when nothing waits for any cycle; else it returns the
-- first of the events of a cycle for which no earlier event waits, and takes out nothing else.
pub record PopsEarliest (q : EventQueue) (e : TimedEvent) (rest : EventQueue) : Type 0 where
  pub first : at e.cycle q.heap ≡ e.event ∷ at e.cycle rest.heap
  pub others : (c : ℕ) → c ≢ e.cycle → at c rest.heap ≡ at c q.heap
  pub earliest : (c : ℕ) → c < e.cycle → at c q.heap ≡ []
  pub kept : IsValid rest

pub heap_of_pop :
    (q rest : EventQueue) (e : TimedEvent)
    → pop q ≡ some (e, rest)
    → (q.heap ≡ e ∷ rest.heap) × (q.next_seq ≡ rest.next_seq)
unfolding pop
heap_of_pop q rest e h = ground arith

-- What `pop` takes from a valid queue is the first of the events of its cycle; no event waits for
-- an earlier cycle, the events of the other cycles stay, and the queue stays valid.
pub pop-PopsEarliest :
    (q rest : EventQueue) (e : TimedEvent)
    → IsValid q
    → pop q ≡ some (e, rest)
    → PopsEarliest q e rest
unfolding at
pop-PopsEarliest q rest e v h =
    let (shape, count) = heap_of_pop q rest e h in
    let ordered : IsOrdered (e ∷ rest.heap) = rw shape at v.ordered in
    let numbered : All (λ x. x.seq < q.next_seq) (e ∷ rest.heap) = rw shape at v.numbered in
    record {
      first = rw shape (ground arith);
      others = λ c n. rw shape (ground arith);
      earliest = λ c l. rw shape (
          ground (
            arith,
            at_none c rest.heap
                (All-map (Before e) (λ x. c < x.cycle) (λ x b. ground arith) rest.heap ordered.0),
          ));
      kept = record { ordered = ordered.1; numbered = rw (← count) numbered.1 };
    }

pub pop-eq-none : (q : EventQueue) → pop q ≡ none → (c : ℕ) → at c q.heap ≡ []
unfolding pop at
pop-eq-none q h c = ground arith

-- An empty queue is valid, and nothing waits in it.
pub new-IsValid : IsValid new
unfolding new
new-IsValid = record { ordered = tt; numbered = tt }
