-- ===== src/Events.antt =====
-- The event queue (crates/pirx-core/src/events.rs): a priority queue ordered by (cycle, seq).
-- The binary heap is the list of its entries in the order in which `pop` returns them.
pub mod Order
pub mod Counts
use pirx.Common.{
  ℕ, ◌+◌, Bool, List, [], ◌∷◌, Option, none, some, compare, Ordering, OpKey, sat_add64,
}
use pirx.Ir.{MeasurementHookId, MeasurementOutcome}

pub data EngineEvent : Type 0 where
  factory_produced : (factory_id : ℕ) → EngineEvent
  factory_failed : (factory_id : ℕ) → EngineEvent
  gate_completed : (gate : OpKey) → EngineEvent
  hook_activation :
      (gate : OpKey) (hook_id : MeasurementHookId) (outcome : MeasurementOutcome) → EngineEvent

pub record TimedEvent : Type 0 where
  pub cycle : ℕ
  pub seq : ℕ
  pub event : EngineEvent

-- `Ord for TimedEvent`: by cycle, then by sequence number.
unfoldable pub cmp : TimedEvent → TimedEvent → Ordering
cmp a b = elim (compare a.cycle b.cycle) [
  | Ordering.lt ↦ Ordering.lt
  | Ordering.gt ↦ Ordering.gt
  | Ordering.eq ↦ compare a.seq b.seq
]

pub record EventQueue : Type 0 where
  pub heap : List TimedEvent
  pub next_seq : ℕ

unfoldable pub new : EventQueue
new = record { heap = []; next_seq = 0 }

-- `BinaryHeap::push` of the reversed entry: behind all entries that do not compare greater.
unfoldable pub push_heap : TimedEvent → List TimedEvent → List TimedEvent
unfolding cmp
push_heap x [] = x ∷ []
push_heap x (y ∷ ys) = elim (cmp x y) [ Ordering.lt ↦ x ∷ y ∷ ys | _ ↦ y ∷ push_heap x ys ]

unfoldable pub schedule : EventQueue → ℕ → EngineEvent → EventQueue
unfolding push_heap
schedule q cycle event = record {
  heap = push_heap (record { cycle = cycle; seq = q.next_seq; event = event }) q.heap;
  next_seq = sat_add64 q.next_seq 1;
}

unfoldable pub pop : EventQueue → Option (TimedEvent × EventQueue)
pop q = elim q.heap [ [] ↦ none | e ∷ rest ↦ some (e, record q { heap = rest }) ]

unfoldable pub peek_cycle : EventQueue → Option ℕ
peek_cycle q = elim q.heap [ [] ↦ none | e ∷ rest ↦ some e.cycle ]
