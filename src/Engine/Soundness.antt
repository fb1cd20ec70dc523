-- ===== src/Engine/Soundness.antt =====
-- The accounts and the clock of the states that `step` and `run` (crates/pirx-core/src/engine/mod.rs)
-- reach, and what a trace says of itself.
use pirx.Common.{
  ℕ, zero, suc, ◌+◌, ◌≤◌, ◌<◌, ◌≡◌, refl, sym, ap, subst, ◌∙◌, min, true, false, Option, none, some,
  eq_of_some, arith, Bool-cases, Option-cases, inl, inr, ◌⊎◌, u64_max, count_if,
}
use pirx.World.{World}
use pirx.Events.{peek_cycle}
use pirx.Trace.{Trace, finish, finish_truncated}
use pirx.Trace.Tally.{
  tally, is_enqueue, is_full, is_produced, is_ready, is_scheduled, is_served, is_completion,
  IsChronicle,
}
use pirx.Engine.State.{Engine, is_complete}
use pirx.Engine.Totals.{Grows, step-Grows}
use pirx.Engine.Run.{step, hits_limit, run}
use pirx.Engine.Moves.{view, View, Moves, Moves-trans, done, more}
use pirx.Engine.Accounts.Supply.{Supply, Move-Supply}
use pirx.Engine.Accounts.Flow.{Flow, Move-Flow}
use pirx.Engine.Accounts.Clock.{ClockOf, Move-Clock}
use pirx.Engine.Refinement.Handlers.{ArePunctual}
use pirx.Engine.Refinement.Loop.{Advances, step-Steps, Steps-Advances}

-- The account of magic states, the account of gates, and the clock.
pub record Accounts (stock capacity : ℕ) (v : View) : Type 0 where
  pub supply : Supply stock capacity v
  pub flow : Flow v
  pub clock : ClockOf v

pub Moves-Accounts :
    (stock capacity : ℕ) {v w : View}
    → Accounts stock capacity v
    → Moves v w
    → Accounts stock capacity w
Moves-Accounts stock capacity a done = a
Moves-Accounts stock capacity a (more ms m) =
    let b = Moves-Accounts stock capacity a ms in
    record {
      supply = Move-Supply stock capacity b.supply m;
      flow = Move-Flow b.flow m;
      clock = Move-Clock b.clock m;
    }

module _ {W : World} where
  Advances-refl : (e : Engine W) → Advances e e
  Advances-refl e = record { moves = done; factories = refl; limit = refl }

  Advances-trans : {a b c : Engine W} → Advances a b → Advances b c → Advances a c
  Advances-trans r s = record {
    moves = Moves-trans r.moves s.moves;
    factories = s.factories ∙ r.factories;
    limit = s.limit ∙ r.limit;
  }

  pub step-Advances :
      (fuel : ℕ) (e e' : Engine W)
      → ArePunctual W e.factories
      → step fuel e ≡ some e'
      → Advances e e'
  step-Advances fuel e e' h r = elim (step-Steps fuel e e' h r) [
    | inl (_, same) ↦ subst (Advances e) (sym same) (Advances-refl e)
    | inr s ↦ Steps-Advances s
  ]

  -- With factories that are punctual, a step that returns keeps the accounts: of the magic states
  -- against preload and capacity, of the gates from ready to completed, and of the clock against
  -- the queue and the trace.
  pub step-Accounts :
      (stock capacity fuel : ℕ) (e e' : Engine W)
      → ArePunctual W e.factories
      → Accounts stock capacity (view e)
      → step fuel e ≡ some e'
      → Accounts stock capacity (view e')
  step-Accounts stock capacity fuel e e' h a r =
      Moves-Accounts stock capacity a (step-Advances fuel e e' h r).moves

  -- How a run ended: in a state that the start reaches by moves, by completion or by the limit.
  pub record Ends (e : Engine W) (t : Trace W.F64) : Type 0 where
    pub final : Engine W
    pub advances : Advances e final
    pub grows : min e.total_ops u64_max ≤ final.total_ops
    pub events : t.events ≡ final.trace.events
    pub total_cycles : t.total_cycles ≡ final.current_cycle
    pub consumed : t.magic_states_consumed ≡ final.magic_states_consumed
    pub reason :
        ((t.truncated ≡ false) × (final.total_ops ≤ final.completed_ops))
        ⊎ ((t.truncated ≡ true)
            × (final.completed_ops < final.total_ops)
            × ((limit : ℕ) × (c : ℕ) × (final.max_cycles ≡ some limit)
                × (peek_cycle final.event_queue ≡ some c)
                × (limit ≤ c)))

  pub run_complete :
      (rounds fuel : ℕ) (e : Engine W)
      → is_complete e ≡ true
      → run (suc rounds) fuel e
        ≡ some (finish e.trace e.seed e.current_cycle e.p_logical e.magic_states_consumed)
  unfolding run
  run_complete rounds fuel e h = rw (h, run)

  pub run_limit :
      (rounds fuel : ℕ) (e : Engine W)
      → is_complete e ≡ false
      → hits_limit e ≡ true
      → run (suc rounds) fuel e
        ≡ some (finish_truncated e.trace e.seed e.current_cycle e.p_logical e.magic_states_consumed)
  unfolding run
  run_limit rounds fuel e h l = rw (h, run, l)

  pub run-step :
      (rounds fuel : ℕ) (e : Engine W) (r : Option (Engine W))
      → is_complete e ≡ false
      → hits_limit e ≡ false
      → step fuel e ≡ r
      → run (suc rounds) fuel e ≡ elim r [ none ↦ none | some e' ↦ run rounds fuel e' ]
  unfolding run
  run-step rounds fuel e r h l s = rw (h, run, l, s)

  limit_hit :
      (e : Engine W)
      → hits_limit e ≡ true
      → (limit : ℕ) × (c : ℕ) × (e.max_cycles ≡ some limit)
        × (peek_cycle e.event_queue ≡ some c)
        × (limit ≤ c)
  unfolding hits_limit
  limit_hit e h = ground arith

  completed :
      (e : Engine W)
      → is_complete e ≡ true
      → Ends e (finish e.trace e.seed e.current_cycle e.p_logical e.magic_states_consumed)
  unfolding is_complete finish
  completed e h = record {
    final = e;
    advances = Advances-refl e;
    grows = omega arith;
    events = refl;
    total_cycles = refl;
    consumed = refl;
    reason = inl (refl, ground arith);
  }

  stopped :
      (e : Engine W)
      → is_complete e ≡ false
      → hits_limit e ≡ true
      → Ends e (finish_truncated e.trace e.seed e.current_cycle e.p_logical e.magic_states_consumed)
  unfolding is_complete finish_truncated
  stopped e h hit = record {
    final = e;
    advances = Advances-refl e;
    grows = omega arith;
    events = refl;
    total_cycles = refl;
    consumed = refl;
    reason = inr (refl, ground arith, limit_hit e hit);
  }

  extend : {e e' : Engine W} {t : Trace W.F64} → Advances e e' → Grows e e' → Ends e' t → Ends e t
  extend first grown rest = record {
    final = rest.final;
    advances = Advances-trans first rest.advances;
    grows = let g = rest.grows in omega arith;
    events = rest.events;
    total_cycles = rest.total_cycles;
    consumed = rest.consumed;
    reason = rest.reason;
  }

  run-none : (fuel : ℕ) (e : Engine W) → run zero fuel e ≡ none
  unfolding run
  run-none fuel e = refl

  -- A run that returns ended in a state that the start reaches by moves, by the counters of operations or by the limit.
  pub run-Ends :
      (rounds fuel : ℕ) (e : Engine W) (t : Trace W.F64)
      → ArePunctual W e.factories
      → run rounds fuel e ≡ some t
      → Ends e t
  run-Ends zero fuel e t h r = absurd (cc (run-none fuel e))
  run-Ends (suc rounds) fuel e t h r = elim (Bool-cases (is_complete e)) [
    | inl complete ↦
        let same = eq_of_some (sym (run_complete rounds fuel e complete) ∙ r) in
        subst (Ends e) same (completed e complete)
    | inr busy ↦ elim (Bool-cases (hits_limit e)) [
      | inl hit ↦
          let same = eq_of_some (sym (run_limit rounds fuel e busy hit) ∙ r) in
          subst (Ends e) same (stopped e busy hit)
      | inr free ↦ elim (Option-cases (step fuel e)) [
        | inl short ↦ absurd (cc (run-step rounds fuel e none busy free short))
        | inr (e', stepped) ↦
            let first = step-Advances fuel e e' h stepped in
            let rest =
              run-Ends rounds fuel e' t (subst (ArePunctual W) (sym first.factories) h)
                (sym (run-step rounds fuel e (some e') busy free stepped) ∙ r) in
            extend first (step-Grows fuel e e' stepped) rest
      ]
    ]
  ]

-- What a trace says of itself: `kinds` counts its events of a kind.
pub record IsConsistent {F : Type 0} (stock capacity : ℕ) (t : Trace F) : Type 0 where
  pub ordered : IsChronicle t.total_cycles t.events
  pub supplied :
      count_if (λ ev. is_served ev.kind) t.events
      ≤ stock + count_if (λ ev. is_enqueue ev.kind) t.events
  pub kept :
      stock + count_if (λ ev. is_enqueue ev.kind) t.events
      ≤ capacity + count_if (λ ev. is_served ev.kind) t.events
  pub accounted :
      count_if (λ ev. is_produced ev.kind) t.events
      ≡ count_if (λ ev. is_enqueue ev.kind) t.events + count_if (λ ev. is_full ev.kind) t.events
  pub consumed : t.magic_states_consumed ≡ min (count_if (λ ev. is_served ev.kind) t.events) u64_max
  pub started :
      count_if (λ ev. is_completion ev.kind) t.events
      ≤ count_if (λ ev. is_scheduled ev.kind) t.events + count_if (λ ev. is_served ev.kind) t.events
  pub ready :
      count_if (λ ev. is_scheduled ev.kind) t.events + count_if (λ ev. is_served ev.kind) t.events
      ≤ count_if (λ ev. is_ready ev.kind) t.events

module _ {W : World} where
  -- The trace of a run that returns is in the order of time, serves no more states than were stored,
  -- stores no more than the buffer holds, counts what it served, and has no gate complete that did
  -- not start, nor start that was not ready.
  pub run-IsConsistent :
      (stock capacity rounds fuel : ℕ) (e : Engine W) (t : Trace W.F64)
      → ArePunctual W e.factories
      → Accounts stock capacity (view e)
      → run rounds fuel e ≡ some t
      → IsConsistent stock capacity t
  unfolding tally
  run-IsConsistent stock capacity rounds fuel e t h a r =
      let ends = run-Ends rounds fuel e t h r in
      let b = Moves-Accounts stock capacity a ends.advances.moves in
      let s = b.supply in
      let f = b.flow in
      record {
        ordered = rw (ends.events, ends.total_cycles) b.clock.chronicle;
        supplied = rw ends.events (omega arith);
        kept = rw ends.events (omega arith);
        accounted = rw ends.events s.produced;
        consumed = rw (ends.events, ends.consumed) s.consumed;
        started = rw ends.events (omega arith);
        ready = rw ends.events (omega arith);
      }

  -- How a run ended, by what its trace says.
  pub record Finishes (e : Engine W) (t : Trace W.F64) : Type 0 where
    pub final : Engine W
    pub advances : Advances e final
    pub grows : min e.total_ops u64_max ≤ final.total_ops
    pub events : t.events ≡ final.trace.events
    pub total_cycles : t.total_cycles ≡ final.current_cycle
    pub consumed : t.magic_states_consumed ≡ final.magic_states_consumed
    pub reason :
        ((t.truncated ≡ false)
          × (final.total_ops ≤ count_if (λ ev. is_completion ev.kind) t.events))
        ⊎ ((t.truncated ≡ true)
            × (min (count_if (λ ev. is_completion ev.kind) t.events) u64_max < final.total_ops)
            × ((limit : ℕ) × (c : ℕ) × (e.max_cycles ≡ some limit)
                × (peek_cycle final.event_queue ≡ some c)
                × (limit ≤ c)))

  pub run-Finishes :
      (stock capacity rounds fuel : ℕ) (e : Engine W) (t : Trace W.F64)
      → ArePunctual W e.factories
      → Accounts stock capacity (view e)
      → run rounds fuel e ≡ some t
      → Finishes e t
  unfolding tally
  run-Finishes stock capacity rounds fuel e t h a r =
      let ends = run-Ends rounds fuel e t h r in
      let b = Moves-Accounts stock capacity a ends.advances.moves in
      let count = b.flow.completed in
      let same = ap (count_if (λ ev. is_completion ev.kind)) ends.events in
      record {
        final = ends.final;
        advances = ends.advances;
        grows = ends.grows;
        events = ends.events;
        total_cycles = ends.total_cycles;
        consumed = ends.consumed;
        reason = elim ends.reason [
          | inl (whole, enough) ↦ inl (whole, omega arith)
          | inr (cut, fewer, (limit, c, l, peeked, behind)) ↦
              inr (cut, omega arith, (limit, c, sym ends.advances.limit ∙ l, peeked, behind))
        ];
      }
