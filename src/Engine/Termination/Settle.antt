-- ===== src/Engine/Termination/Settle.antt =====
-- Phases 2 and 3 of `step` (crates/pirx-core/src/engine/dispatch.rs) keep a run going.
use pirx.Common.{
  ℕ, ◌<◌, ◌≡◌, subst, sym, List, [], ◌∷◌, arith, Bool-cases, inl, inr, OpKey, u64_max, sat_add32,
}
use pirx.World.{World}
use pirx.Buffer.{try_dequeue}
use pirx.Dag.{OpData}
use pirx.Dag
use pirx.Dag.Costs.{IsCostly}
use pirx.Engine.State.{Engine}
use pirx.Engine.Dispatch.{
  gate_costs, log_routing, total_gate_cost, schedule_gate_completion, serve, schedule_one,
  schedule_all, schedule_ready_gates, serve_all, try_serve_stalled_gates, needs_magic_state,
}
use pirx.Engine.Run.{settle}
use pirx.Engine.Termination.{
  Core, core, IsAlive, IsAhead, launched, launched-IsAlive, launched-IsAhead,
}

-- A factory is at work, all that waits is ahead, and the clock has not reached its end.
pub record Goes {W : World} (n : ℕ) (k : Core W) : Type 0 where
  pub alive : IsAlive n k
  pub ahead : IsAhead k
  pub range : k.now < u64_max

module _ {W : World} (n : ℕ) where
  log_routing-core :
      (e : Engine W) (gate : OpKey) (cost : ℕ) → core (log_routing e gate cost) ≡ core e
  unfolding log_routing
  log_routing-core e gate cost = ground arith

  gate_costs_pos : (e : Engine W) (gate : OpKey) → IsCostly e.dag → 0 < (gate_costs e gate).0
  unfolding gate_costs Dag.get
  gate_costs_pos e gate h = let c = h.each gate in ground arith

  schedule_gate_completion-Goes :
      (e : Engine W) (gate : OpKey)
      → Goes n (core e)
      → Goes n (core (schedule_gate_completion e gate))
  unfolding schedule_gate_completion total_gate_cost
  schedule_gate_completion-Goes e gate g =
      let (base, routing) = gate_costs e gate in
      let cost = sat_add32 base routing in
      let pos : 0 < cost = let p = gate_costs_pos e gate g.alive.costly in omega arith in
      subst (λ k. Goes n (launched n k cost gate)) (sym (log_routing-core e gate routing))
        (record {
          alive = launched-IsAlive n (core e) cost gate g.alive;
          ahead = launched-IsAhead n (core e) cost gate g.range pos g.ahead;
          range = g.range;
        })

  serve-Goes :
      (e : Engine W) (gate : OpKey) (wait : ℕ) → Goes n (core e) → Goes n (core (serve e gate wait))
  unfolding serve
  serve-Goes e gate wait g = schedule_gate_completion-Goes _ gate g

  schedule_one-Goes :
      (e : Engine W) (gate : OpKey) → Goes n (core e) → Goes n (core (schedule_one e gate))
  unfolding schedule_one
  schedule_one-Goes e gate g = elim (Bool-cases (needs_magic_state (Dag.get e.dag gate))) [
    | inl needs ↦ elim (Bool-cases (try_dequeue e.buffer).1) [
      | inl taken ↦ rw (needs, taken) (serve-Goes _ gate 0 g)
      | inr empty ↦ rw (needs, empty) g
    ]
    | inr free ↦ rw free (schedule_gate_completion-Goes _ gate g)
  ]

  schedule_all-Goes :
      (gates : List OpKey) (e : Engine W) → Goes n (core e) → Goes n (core (schedule_all gates e))
  unfolding schedule_all
  schedule_all-Goes [] e g = g
  schedule_all-Goes (gate ∷ rest) e g =
      schedule_all-Goes rest _ (schedule_one-Goes (record e { ready_set = rest }) gate g)

  serve_all-Goes :
      (stalled : List (OpKey × ℕ)) (e : Engine W)
      → Goes n (core e)
      → Goes n (core (serve_all stalled e))
  unfolding serve_all
  serve_all-Goes [] e g = g
  serve_all-Goes ((gate, since) ∷ rest) e g = elim (Bool-cases (try_dequeue e.buffer).1) [
    | inl taken ↦ rw taken (serve_all-Goes rest _ (serve-Goes _ gate _ g))
    | inr empty ↦ rw empty g
  ]

  pub settle-Goes : (e : Engine W) → Goes n (core e) → Goes n (core (settle e))
  unfolding settle schedule_ready_gates try_serve_stalled_gates
  settle-Goes e g =
      let served = serve_all e.stalled_gates e in
      schedule_all-Goes served.ready_set served (serve_all-Goes e.stalled_gates e g)
