-- ===== src/Engine/Accounts/Flow.antt =====
-- The account of gates (crates/pirx-core/src/engine/dispatch.rs): ready, scheduled, served, completed.
use pirx.Common.{
  ℕ, ◌+◌, ◌≡◌, min, Bool, true, false, List, [], ◌∷◌, arith, length, length-append, if◌then◌else◌,
  u64_max, ap,
}
use pirx.Events.{EngineEvent, TimedEvent, EventQueue}
use pirx.Events.Counts.{waiting, waiting-cons, waiting-schedule}
use pirx.Trace.{TraceCollector, TraceEventKind}
use pirx.Trace.Tally.{tally, tally-append, is_ready, is_scheduled, is_served, is_completion}
use pirx.Engine.Moves.{View, Move, Delivers, append_all, is_quiet, IsQuiet}
use pirx.Engine.Moves
use pirx.Engine.Accounts.{
  tally_quiet, ready-IsLoud, scheduled-IsLoud, served-IsLoud, completion-IsLoud,
}

abbrev pub is_gate : EngineEvent → Bool
is_gate (EngineEvent.gate_completed gate) = true
is_gate event = false

-- Every gate that became ready was scheduled or served, or is stalled; every gate that was
-- scheduled or served is completed, or its completion waits in the queue.
pub record Flow (v : View) : Type 0 where
  pub ready :
      tally is_ready v.trace
      ≡ tally is_scheduled v.trace + tally is_served v.trace + length v.stalled
  pub flight :
      tally is_scheduled v.trace + tally is_served v.trace
      ≡ tally is_completion v.trace + waiting is_gate v.queue.heap
  pub completed : v.completed ≡ min (tally is_completion v.trace) u64_max

record SameFlow (t u : TraceCollector) : Type 0 where
  ready : tally is_ready u ≡ tally is_ready t
  scheduled : tally is_scheduled u ≡ tally is_scheduled t
  served : tally is_served u ≡ tally is_served t
  completion : tally is_completion u ≡ tally is_completion t

quiet_flow :
    (t : TraceCollector) (cycle : ℕ) (ks : List TraceEventKind)
    → IsQuiet ks
    → SameFlow t (append_all t cycle ks)
quiet_flow t cycle ks h = record {
  ready = tally_quiet is_ready ready-IsLoud t cycle ks h;
  scheduled = tally_quiet is_scheduled scheduled-IsLoud t cycle ks h;
  served = tally_quiet is_served served-IsLoud t cycle ks h;
  completion = tally_quiet is_completion completion-IsLoud t cycle ks h;
}

-- The gates in flight before and after a delivery.
delivered :
    (v : View) (ev : TimedEvent) (rest : EventQueue)
    → Delivers v ev rest
    → waiting is_gate v.queue.heap ≡ (if is_gate ev.event then 1 else 0) + waiting is_gate rest.heap
delivered v ev rest d = rw d.head (waiting-cons is_gate ev rest.heap)

module _ {v w : View} (a : Flow v) where
  pub Move-Flow : Move v w → Flow w
  Move-Flow (Moves.advance ev rest h e) = ground arith
  Move-Flow (Moves.note k q e) = grind (arith, tally-append)
  Move-Flow (Moves.feed_back delay gate hook_id outcome e) = grind (arith, waiting-schedule)
  Move-Flow (Moves.fed_back ev rest gate hook_id outcome d k e) =
      grind (arith, delivered v ev rest d)
  Move-Flow (Moves.store ev rest id d k room e) = grind (arith, tally-append, delivered v ev rest d)
  Move-Flow (Moves.waste ev rest id d k room e) = grind (arith, tally-append, delivered v ev rest d)
  Move-Flow (Moves.abort ev rest id d k e) = grind (arith, tally-append, delivered v ev rest d)
  Move-Flow (Moves.restart id c true h e) = grind (arith, tally-append, waiting-schedule)
  Move-Flow (Moves.restart id c false h e) = grind (arith, tally-append, waiting-schedule)
  Move-Flow (Moves.complete ev rest gate id true d k e) =
      grind (arith, tally-append, delivered v ev rest d)
  Move-Flow (Moves.complete ev rest gate id false d k e) =
      grind (arith, tally-append, delivered v ev rest d)
  Move-Flow (Moves.start gate id cost ks q e) =
      grind (arith, tally-append, waiting-schedule, quiet_flow)
  Move-Flow (Moves.supply gate id cost ks q h e) =
      grind (arith, tally-append, waiting-schedule, quiet_flow)
  Move-Flow (Moves.stall gate id h e) =
      grind (arith, tally-append, length-append v.stalled ((gate, v.now) ∷ []))
  Move-Flow (Moves.resume gate since others id wait cost ks q h o e) =
      grind (arith, tally-append, waiting-schedule, quiet_flow, ap length h)
