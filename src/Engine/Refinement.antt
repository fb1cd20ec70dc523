-- ===== src/Engine/Refinement.antt =====
-- Phases 2 and 3 (crates/pirx-core/src/engine/dispatch.rs) against the moves of the abstract machine.
pub mod Handlers
pub mod Loop
use pirx.Common.{
  ℕ, suc, ◌+◌, ◌-◌, ◌≤◌, ◌<◌, ◌≡◌, refl, sym, ap, ◌∙◌, min, Bool, true, false, not, ◌&&◌, List, [],
  ◌∷◌, ◌++◌, Option, none, some, All, arith, Bool-cases, Option-cases, List-cases, ltb, ◌==◌, inl,
  inr, if◌then◌else◌, sat_add64, sat_add32, u64_max, u32_max, OpKey, get_elem?,
}
use pirx.World.{World}
use pirx.Buffer.{MagicStateBuffer, try_enqueue, try_dequeue}
use pirx.Events.{EngineEvent, TimedEvent, EventQueue, schedule}
use pirx.Trace.{TraceCollector, TraceEventKind, append}
use pirx.Factory.{FactoryKind}
use pirx.Factory.Timing.{IsPunctual}
use pirx.Dag.{OpKind}
use pirx.Dag
use pirx.Engine.State.{Engine, log, trace_id}
use pirx.Engine.Dispatch.{
  gate_costs, log_routing, schedule_gate_completion, serve, schedule_one, schedule_all,
  schedule_ready_gates, serve_all, try_serve_stalled_gates, needs_magic_state,
}
use pirx.Engine.Moves.{
  View, view, Move, Moves, Moves-trans, one_move, done, append_all, is_quiet, IsQuiet,
}
use pirx.Engine.Moves

-- The trace events of a routed gate.
abbrev routing_notes : ℕ → ℕ → List TraceEventKind
routing_notes id cost =
    if ltb 0 cost
    then TraceEventKind.routing_started id ∷ TraceEventKind.routing_completed id cost ∷ []
    else []

routing_notes-IsQuiet : (id cost : ℕ) → IsQuiet (routing_notes id cost)
routing_notes-IsQuiet id cost = ground arith

module _ {W : World} where
  -- From one state of the engine to another: by moves in one cycle, with the same factories and
  -- the same limit.
  pub record Runs (e e' : Engine W) : Type 0 where
    pub moves : Moves (view e) (view e')
    pub factories : e'.factories ≡ e.factories
    pub limit : e'.max_cycles ≡ e.max_cycles
    pub now : e'.current_cycle ≡ e.current_cycle

  pub Runs-refl : (e : Engine W) → Runs e e
  Runs-refl e = record { moves = done; factories = refl; limit = refl; now = refl }

  pub Runs-trans : {a b c : Engine W} → Runs a b → Runs b c → Runs a c
  Runs-trans r s = record {
    moves = Moves-trans r.moves s.moves;
    factories = s.factories ∙ r.factories;
    limit = s.limit ∙ r.limit;
    now = s.now ∙ r.now;
  }

  -- What the launch of a gate does: quiet notes, and the completion in the queue.
  record Launches (e : Engine W) (gate : OpKey) (e' : Engine W) : Type 0 where
    notes : List TraceEventKind
    quiet : IsQuiet notes
    cost : ℕ
    becomes : view e' ≡ record (view e) {
      queue =
          schedule e.event_queue (sat_add64 e.current_cycle cost) (EngineEvent.gate_completed gate);
      trace = append_all e.trace e.current_cycle notes;
    }
    factories : e'.factories ≡ e.factories
    limit : e'.max_cycles ≡ e.max_cycles
    now : e'.current_cycle ≡ e.current_cycle

  launch : (e : Engine W) (gate : OpKey) → Launches e gate (schedule_gate_completion e gate)
  unfolding schedule_gate_completion
  launch e gate =
      let routing = (gate_costs e gate).1 in
      elim (Bool-cases (ltb 0 routing)) [
        | inl routed ↦ record {
          notes = routing_notes (trace_id e gate) routing;
          quiet = routing_notes-IsQuiet (trace_id e gate) routing;
          cost = sat_add32 (gate_costs e gate).0 routing;
          becomes = rw routed refl;
          factories = rw routed refl;
          limit = rw routed refl;
          now = rw routed refl;
        }
        | inr direct ↦ record {
          notes = [];
          quiet = tt;
          cost = sat_add32 (gate_costs e gate).0 routing;
          becomes = rw direct refl;
          factories = rw direct refl;
          limit = rw direct refl;
          now = rw direct refl;
        }
      ]

  -- What serving a gate does.
  record Serves (e : Engine W) (gate : OpKey) (wait : ℕ) (e' : Engine W) : Type 0 where
    notes : List TraceEventKind
    quiet : IsQuiet notes
    cost : ℕ
    becomes : view e' ≡ record (view e) {
      queue =
          schedule e.event_queue (sat_add64 e.current_cycle cost) (EngineEvent.gate_completed gate);
      trace = append_all e.trace e.current_cycle (
          TraceEventKind.buffer_dequeue e.buffer.occupancy
          ∷ TraceEventKind.gate_served (trace_id e gate) wait
          ∷ notes);
      consumed = sat_add64 e.magic_states_consumed 1;
    }
    factories : e'.factories ≡ e.factories
    limit : e'.max_cycles ≡ e.max_cycles
    now : e'.current_cycle ≡ e.current_cycle

  serves : (e : Engine W) (gate : OpKey) (wait : ℕ) → Serves e gate wait (serve e gate wait)
  unfolding serve
  serves e gate wait =
      let l = launch _ gate in
      record {
        notes = l.notes;
        quiet = l.quiet;
        cost = l.cost;
        becomes = l.becomes;
        factories = l.factories;
        limit = l.limit;
        now = l.now;
      }

  pub schedule_one-Runs : (e : Engine W) (gate : OpKey) → Runs e (schedule_one e gate)
  unfolding schedule_one try_dequeue trace_id
  schedule_one-Runs e gate =
      let id = trace_id e gate in
      elim (Bool-cases (needs_magic_state (Dag.get e.dag gate))) [
        | inr plain ↦
            let l = launch _ gate in
            rw plain (record {
              moves = one_move (Moves.start gate id l.cost l.notes l.quiet l.becomes);
              factories = l.factories;
              limit = l.limit;
              now = l.now;
            })
        | inl magic ↦ elim (Bool-cases (ltb 0 e.buffer.occupancy)) [
          | inl taken ↦
              let l = serves _ gate 0 in
              rw (magic, taken)
                (record {
                  moves =
                      one_move
                        (Moves.supply gate id l.cost l.notes l.quiet (ground arith) l.becomes);
                  factories = l.factories;
                  limit = l.limit;
                  now = l.now;
                })
          | inr empty ↦
              rw (magic, empty)
                (record {
                  moves = one_move (Moves.stall gate id (ground arith) refl);
                  factories = refl;
                  limit = refl;
                  now = refl;
                })
        ]
      ]

  pub schedule_all-Runs : (gates : List OpKey) (e : Engine W) → Runs e (schedule_all gates e)
  unfolding schedule_all
  schedule_all-Runs [] e = Runs-refl e
  schedule_all-Runs (gate ∷ rest) e =
      let e' = record e { ready_set = rest } in
      let popped : Runs e e' = record {
        moves = done;
        factories = refl;
        limit = refl;
        now = refl;
      } in
      Runs-trans popped
        (Runs-trans (schedule_one-Runs e' gate) (schedule_all-Runs rest (schedule_one e' gate)))

  pub schedule_ready_gates-Runs : (e : Engine W) → Runs e (schedule_ready_gates e)
  unfolding schedule_ready_gates
  schedule_ready_gates-Runs e = schedule_all-Runs e.ready_set e

  -- The engine after the oldest stalled gate got a state.
  abbrev resumed : Engine W → OpKey → ℕ → List (OpKey × ℕ) → Engine W
  resumed e gate since rest =
      serve
        (record e {
          buffer = record e.buffer { occupancy = e.buffer.occupancy - 1 };
          stalled_gates = rest;
        })
        gate (min (e.current_cycle - since) u32_max)

  resumed-Runs :
      (e : Engine W) (gate : OpKey) (since : ℕ) (rest : List (OpKey × ℕ))
      → e.stalled_gates ≡ (gate, since) ∷ rest
      → 0 < e.buffer.occupancy
      → Runs e (resumed e gate since rest) × ((resumed e gate since rest).stalled_gates ≡ rest)
  unfolding trace_id
  resumed-Runs e gate since rest h room =
      let l = serves _ gate _ in
      (
        record {
          moves = one_move (
              Moves.resume gate since rest (trace_id e gate) _ l.cost l.notes l.quiet h room
                l.becomes);
          factories = l.factories;
          limit = l.limit;
          now = l.now;
        },
        ap (λ v. v.stalled) l.becomes,
      )

  serve_all-Runs :
      (stalled : List (OpKey × ℕ)) (e : Engine W)
      → e.stalled_gates ≡ stalled
      → Runs e (serve_all stalled e)
  unfolding serve_all try_dequeue
  serve_all-Runs [] e h = Runs-refl e
  serve_all-Runs ((gate, since) ∷ rest) e h = elim (Bool-cases (ltb 0 e.buffer.occupancy)) [
    | inr empty ↦ rw empty (Runs-refl e)
    | inl taken ↦
        let (run, left) = resumed-Runs e gate since rest h (ground arith) in
        rw taken (Runs-trans run (serve_all-Runs rest (resumed e gate since rest) left))
  ]

  pub try_serve_stalled_gates-Runs : (e : Engine W) → Runs e (try_serve_stalled_gates e)
  unfolding try_serve_stalled_gates
  try_serve_stalled_gates-Runs e = serve_all-Runs e.stalled_gates e refl
