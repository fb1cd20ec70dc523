-- ===== src/Engine/Moves.antt =====
-- The engine as an abstract transition system: the part of the state that a move can change, and the
-- moves. What a handler does to the graph, the ready set and the generators is left open here.
use pirx.Common.{
  ℕ, ◌+◌, ◌-◌, ◌≤◌, ◌<◌, ◌≡◌, Bool, true, false, List, [], ◌∷◌, ◌++◌, All, OpKey, sat_add64,
  u64_max,
}
use pirx.World.{World}
use pirx.Ir.{MeasurementHookId, MeasurementOutcome}
use pirx.Buffer.{MagicStateBuffer}
use pirx.Events.{EngineEvent, TimedEvent, EventQueue, schedule}
use pirx.Trace.{TraceCollector, TraceEventKind, append}
use pirx.Engine.State.{Engine}

pub record View : Type 0 where
  pub now : ℕ
  pub buffer : MagicStateBuffer
  pub queue : EventQueue
  pub trace : TraceCollector
  pub stalled : List (OpKey × ℕ)
  pub consumed : ℕ
  pub completed : ℕ

abbrev pub view : {W : World} → Engine W → View
view e = record {
  now = e.current_cycle;
  buffer = e.buffer;
  queue = e.event_queue;
  trace = e.trace;
  stalled = e.stalled_gates;
  consumed = e.magic_states_consumed;
  completed = e.completed_ops;
}

-- Several events of one cycle.
abbrev pub append_all : TraceCollector → ℕ → List TraceEventKind → TraceCollector
append_all t cycle [] = t
append_all t cycle (k ∷ ks) = append_all (append t cycle k) cycle ks

-- Kinds of trace events that no account below speaks of.
abbrev pub is_quiet : TraceEventKind → Bool
is_quiet (TraceEventKind.injection_error gate) = true
is_quiet (TraceEventKind.fixup_inserted fixup original) = true
is_quiet (TraceEventKind.routing_started gate) = true
is_quiet (TraceEventKind.routing_completed gate latency) = true
is_quiet (TraceEventKind.measured gate outcome) = true
is_quiet (TraceEventKind.ops_activated gate count) = true
is_quiet kind = false

abbrev pub IsQuiet : List TraceEventKind → Type 0
IsQuiet = All (λ k. is_quiet k ≡ true)

-- The event `ev` leaves the queue, at its cycle.
pub record Delivers (v : View) (ev : TimedEvent) (rest : EventQueue) : Type 0 where
  pub head : v.queue.heap ≡ ev ∷ rest.heap
  pub number : rest.next_seq ≡ v.queue.next_seq
  pub due : ev.cycle ≡ v.now

-- A cycle that a factory returns for an attempt that starts at `now`.
abbrev pub IsTimely : ℕ → ℕ → Type 0
IsTimely now c = now ≤ u64_max → (now ≤ c) × (c ≤ u64_max)

abbrev pub factory_event : ℕ → Bool → EngineEvent
factory_event id true = EngineEvent.factory_produced id
factory_event id false = EngineEvent.factory_failed id

abbrev pub completion_kind : Bool → ℕ → TraceEventKind
completion_kind true gate = TraceEventKind.fixup_completed gate
completion_kind false gate = TraceEventKind.gate_completed gate

pub data Move (v w : View) : Type 0 where
  -- The clock goes on to the next event.
  advance :
      (ev : TimedEvent) (rest : List TimedEvent)
      → v.queue.heap ≡ ev ∷ rest
      → w ≡ record v { now = ev.cycle }
      → Move v w
  note :
      (k : TraceEventKind)
      → is_quiet k ≡ true
      → w ≡ record v { trace = append v.trace v.now k }
      → Move v w
  -- A measurement's outcome is fed back later.
  feed_back :
      (delay : ℕ) (gate : OpKey) (hook_id : MeasurementHookId) (outcome : MeasurementOutcome)
      → w ≡ record v {
        queue =
            schedule v.queue
              (sat_add64 v.now delay)
              (EngineEvent.hook_activation gate hook_id outcome);
      }
      → Move v w
  fed_back :
      (ev : TimedEvent) (rest : EventQueue) (gate : OpKey) (hook_id : MeasurementHookId)
      (outcome : MeasurementOutcome)
      → Delivers v ev rest
      → ev.event ≡ EngineEvent.hook_activation gate hook_id outcome
      → w ≡ record v { queue = rest }
      → Move v w
  -- A produced state is stored, or wasted when the buffer is full.
  store :
      (ev : TimedEvent) (rest : EventQueue) (id : ℕ)
      → Delivers v ev rest
      → ev.event ≡ EngineEvent.factory_produced id
      → v.buffer.occupancy < v.buffer.capacity
      → w ≡ record v {
        queue = rest;
        buffer = record v.buffer { occupancy = v.buffer.occupancy + 1 };
        trace = append_all v.trace v.now (
            TraceEventKind.factory_produced id
            ∷ TraceEventKind.buffer_enqueue (v.buffer.occupancy + 1)
            ∷ []);
      }
      → Move v w
  waste :
      (ev : TimedEvent) (rest : EventQueue) (id : ℕ)
      → Delivers v ev rest
      → ev.event ≡ EngineEvent.factory_produced id
      → v.buffer.capacity ≤ v.buffer.occupancy
      → w ≡ record v {
        queue = rest;
        trace =
            append_all v.trace v.now
              (TraceEventKind.factory_produced id ∷ TraceEventKind.buffer_full ∷ []);
      }
      → Move v w
  abort :
      (ev : TimedEvent) (rest : EventQueue) (id : ℕ)
      → Delivers v ev rest
      → ev.event ≡ EngineEvent.factory_failed id
      → w
        ≡ record v { queue = rest; trace = append v.trace v.now (TraceEventKind.factory_failed id) }
      → Move v w
  restart :
      (id c : ℕ) (succeeds : Bool)
      → IsTimely v.now c
      → w ≡ record v {
        queue = schedule v.queue c (factory_event id succeeds);
        trace = append v.trace v.now (TraceEventKind.factory_started id);
      }
      → Move v w
  complete :
      (ev : TimedEvent) (rest : EventQueue) (gate : OpKey) (id : ℕ) (is_fixup : Bool)
      → Delivers v ev rest
      → ev.event ≡ EngineEvent.gate_completed gate
      → w ≡ record v {
        queue = rest;
        trace = append v.trace v.now (completion_kind is_fixup id);
        completed = sat_add64 v.completed 1;
      }
      → Move v w
  -- A gate without need of a magic state starts.
  start :
      (gate : OpKey) (id cost : ℕ) (ks : List TraceEventKind)
      → IsQuiet ks
      → w ≡ record v {
        queue = schedule v.queue (sat_add64 v.now cost) (EngineEvent.gate_completed gate);
        trace =
            append_all v.trace v.now
              (TraceEventKind.gate_ready id ∷ TraceEventKind.gate_scheduled id ∷ ks);
      }
      → Move v w
  -- A gate gets a magic state at once.
  supply :
      (gate : OpKey) (id cost : ℕ) (ks : List TraceEventKind)
      → IsQuiet ks
      → 0 < v.buffer.occupancy
      → w ≡ record v {
        queue = schedule v.queue (sat_add64 v.now cost) (EngineEvent.gate_completed gate);
        buffer = record v.buffer { occupancy = v.buffer.occupancy - 1 };
        trace = append_all v.trace v.now (
            TraceEventKind.gate_ready id
            ∷ TraceEventKind.buffer_dequeue (v.buffer.occupancy - 1)
            ∷ TraceEventKind.gate_served id 0
            ∷ ks);
        consumed = sat_add64 v.consumed 1;
      }
      → Move v w
  stall :
      (gate : OpKey) (id : ℕ)
      → v.buffer.occupancy ≡ 0
      → w ≡ record v {
        stalled = v.stalled ++ (gate, v.now) ∷ [];
        trace =
            append_all v.trace v.now
              (TraceEventKind.gate_ready id ∷ TraceEventKind.gate_stalled id ∷ []);
      }
      → Move v w
  -- The oldest stalled gate gets a magic state.
  resume :
      (gate : OpKey) (since : ℕ) (others : List (OpKey × ℕ)) (id wait cost : ℕ)
      (ks : List TraceEventKind)
      → IsQuiet ks
      → v.stalled ≡ (gate, since) ∷ others
      → 0 < v.buffer.occupancy
      → w ≡ record v {
        queue = schedule v.queue (sat_add64 v.now cost) (EngineEvent.gate_completed gate);
        buffer = record v.buffer { occupancy = v.buffer.occupancy - 1 };
        stalled = others;
        trace = append_all v.trace v.now (
            TraceEventKind.buffer_dequeue (v.buffer.occupancy - 1)
            ∷ TraceEventKind.gate_served id wait
            ∷ ks);
        consumed = sat_add64 v.consumed 1;
      }
      → Move v w

-- Any number of moves.
pub data Moves (v : View) : View → Type 0 where
  done : Moves v v
  more : {u w : View} → Moves v u → Move u w → Moves v w

pub Moves-trans : {u v w : View} → Moves u v → Moves v w → Moves u w
Moves-trans p done = p
Moves-trans p (more q m) = more (Moves-trans p q) m

pub one_move : {v w : View} → Move v w → Moves v w
one_move m = more done m
