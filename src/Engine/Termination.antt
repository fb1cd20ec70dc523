-- ===== src/Engine/Termination.antt =====
-- What keeps a run (crates/pirx-core/src/engine/mod.rs) going: an attempt of a factory is always
-- under way, and everything takes time.
pub mod Fuel
pub mod Handlers
pub mod Settle
pub mod Drain
pub mod Begin
pub mod Loop
pub mod Simulation
use pirx.Common.{ℕ, ◌+◌, ◌<◌, ◌≡◌, List, All, arith, length, sat_add64, u64_max, OpKey, true, ◌∙◌}
use pirx.World.{World}
use pirx.Events.{EngineEvent, TimedEvent, EventQueue, schedule}
use pirx.Events.Order.{All-push_heap}
use pirx.Events.Counts.{waiting, waiting-schedule}
use pirx.Dag.{Dag}
use pirx.Dag.Costs.{IsCostly}
use pirx.Engine.State.{Engine}
use pirx.Engine.Progress.{is_factory}

-- The part of the engine's state that the progress of a run depends on.
pub record Core (W : World) : Type 0 where
  pub now : ℕ
  pub queue : EventQueue
  pub dag : Dag W.F64
  pub rngs : List W.Rng

abbrev pub core : {W : World} → Engine W → Core W
core e = record { now = e.current_cycle; queue = e.event_queue; dag = e.dag; rngs = e.factory_rngs }

-- The factory of an event is one of `n`.
abbrev pub IsHere : ℕ → EngineEvent → Type 0
IsHere n (EngineEvent.factory_produced id) = id < n
IsHere n (EngineEvent.factory_failed id) = id < n
IsHere n other = Unit

-- One of the `n` factories is at work, each has a generator, and every gate takes time.
pub record IsAlive {W : World} (n : ℕ) (k : Core W) : Type 0 where
  pub ids : All (λ x. IsHere n x.event) k.queue.heap
  pub working : 0 < waiting is_factory k.queue.heap
  pub generators : length k.rngs ≡ n
  pub costly : IsCostly k.dag

-- All that waits, waits for a later cycle.
abbrev pub IsAhead : {W : World} → Core W → Type 0
IsAhead k = All (λ x. k.now < x.cycle) k.queue.heap

pub All-schedule_events {ℓ} :
    (P : TimedEvent → Type ℓ) (q : EventQueue) (c : ℕ) (ev : EngineEvent)
    → P (record { cycle = c; seq = q.next_seq; event = ev })
    → All P q.heap
    → All P (schedule q c ev).heap
unfolding schedule
All-schedule_events P q c ev p h = All-push_heap P _ q.heap p h

module _ {W : World} (n : ℕ) (k : Core W) where
  -- A gate's completion enters the queue.
  abbrev pub launched : ℕ → OpKey → Core W
  launched cost gate = record k {
    queue = schedule k.queue (sat_add64 k.now cost) (EngineEvent.gate_completed gate);
  }

  pub launched-IsAlive : (cost : ℕ) (gate : OpKey) → IsAlive n k → IsAlive n (launched cost gate)
  launched-IsAlive cost gate a = record {
    ids = All-schedule_events (λ x. IsHere n x.event) k.queue _ _ tt a.ids;
    working =
        let s =
          waiting-schedule is_factory k.queue (sat_add64 k.now cost)
            (EngineEvent.gate_completed gate) in
        let w = a.working in omega arith;
    generators = a.generators;
    costly = a.costly;
  }

  pub launched-IsAhead :
      (cost : ℕ) (gate : OpKey)
      → k.now < u64_max
      → 0 < cost
      → IsAhead k
      → IsAhead (launched cost gate)
  launched-IsAhead cost gate h pos a =
      All-schedule_events (λ x. k.now < x.cycle) k.queue _ _ (omega arith) a
