-- ===== src/Engine/Run.antt =====
-- `step` and `run` (crates/pirx-core/src/engine/mod.rs). The loop over the events of a cycle and the
-- loop of `run` take fuel; `none` means that it ran out.
use pirx.Common.{ℕ, zero, suc, Bool, true, false, Option, none, some, leb, ◌==◌, if◌then◌else◌}
use pirx.World.{World}
use pirx.Events.{TimedEvent, EventQueue, pop, peek_cycle}
use pirx.Trace.{Trace, finish, finish_truncated}
use pirx.Engine.State.{Engine, is_complete}
use pirx.Engine.Dispatch.{process_event, schedule_ready_gates, try_serve_stalled_gates}

-- The next event, if it is due at the given cycle.
unfoldable pub next_due : ℕ → EventQueue → Option (TimedEvent × EventQueue)
unfolding pop
next_due cycle q = elim (pop q) [
  | none ↦ none
  | some (ev, rest) ↦ if ev.cycle == cycle then some (ev, rest) else none
]

module _ {W : World} where
  -- Phase 1: `while self.event_queue.peek_cycle() == Some(cycle)`.
  unfoldable pub drain : ℕ → ℕ → Engine W → Option (Engine W)
  unfolding next_due
  drain zero cycle e = elim (next_due cycle e.event_queue) [ none ↦ some e | some _ ↦ none ]
  drain (suc fuel) cycle e = elim (next_due cycle e.event_queue) [
    | none ↦ some e
    | some (ev, rest) ↦ drain fuel cycle (process_event (record e { event_queue = rest }) ev)
  ]

  -- Phases 2 and 3.
  unfoldable pub settle : Engine W → Engine W
  settle e = schedule_ready_gates (try_serve_stalled_gates e)

  unfoldable pub step : ℕ → Engine W → Option (Engine W)
  unfolding peek_cycle drain settle
  step fuel e = elim (peek_cycle e.event_queue) [
    | none ↦ some e
    | some cycle ↦ elim (drain fuel cycle (record e { current_cycle = cycle })) [
      | none ↦ none
      | some drained ↦ some (settle drained)
    ]
  ]

  -- The next event lies at or behind the limit.
  unfoldable pub hits_limit : Engine W → Bool
  unfolding peek_cycle
  hits_limit e = elim e.max_cycles [
    | none ↦ false
    | some limit ↦ elim (peek_cycle e.event_queue) [ none ↦ false | some c ↦ leb limit c ]
  ]

  unfoldable pub run : ℕ → ℕ → Engine W → Option (Trace W.F64)
  run zero fuel e = none
  run (suc rounds) fuel e = elim (is_complete e) [
    | true ↦ some (finish e.trace e.seed e.current_cycle e.p_logical e.magic_states_consumed)
    | false ↦ elim (hits_limit e) [
      | true ↦
          some (finish_truncated e.trace e.seed e.current_cycle e.p_logical e.magic_states_consumed)
      | false ↦ elim (step fuel e) [ none ↦ none | some e' ↦ run rounds fuel e' ]
    ]
  ]
