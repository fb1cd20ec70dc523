-- ===== src/Engine/Termination/Loop.antt =====
-- `run` with a limit (crates/pirx-core/src/engine/mod.rs) ends.
use pirx.Common.{
  ℕ, zero, suc, ◌+◌, ◌≤◌, ◌<◌, ◌≡◌, refl, sym, subst, ◌∙◌, max, false, List, [], ◌∷◌, some, arith,
  Bool-cases, inl, inr, All, length, u64_max,
}
use pirx.World.{World}
use pirx.Events.{TimedEvent, peek_cycle}
use pirx.Events.Counts.{waiting}
use pirx.Trace.{Trace}
use pirx.Engine.State.{Engine, is_complete}
use pirx.Engine.Run.{settle, step, hits_limit, run}
use pirx.Engine.Moves.{View, view, Move, Moves, done, more, one_move}
use pirx.Engine.Moves
use pirx.Engine.Accounts.Clock.{ClockOf, Move-Clock}
use pirx.Engine.Refinement.Handlers.{ArePunctual}
use pirx.Engine.Refinement.Loop.{peek-cases, drain-Runs, settle-Runs, step_at}
use pirx.Engine.Soundness.{run_complete, run_limit, run-step}
use pirx.Engine.Progress.{ArePrompt, is_factory}
use pirx.Engine.Progress.Phase1.{due-le-length, drain_ends}
use pirx.Engine.Termination.{core, IsAlive, IsAhead}
use pirx.Engine.Termination.Fuel.{step_more, run_more}
use pirx.Engine.Termination.Settle.{settle-Goes}
use pirx.Engine.Termination.Drain.{drain-IsAlive, over-IsAhead}

Moves-Clock : {v w : View} → ClockOf v → Moves v w → ClockOf w
Moves-Clock c done = c
Moves-Clock c (more ms m) = Move-Clock (Moves-Clock c ms) m

-- A state between two steps from which a run goes on: one of the `n` factories is at work, and
-- everything that waits is ahead.
pub record IsLive {W : World} (n : ℕ) (e : Engine W) : Type 0 where
  pub alive : IsAlive n (core e)
  pub ahead : IsAhead (core e)
  pub clock : ClockOf (view e)
  pub factories : length e.factories ≡ n
  pub punctual : ArePunctual W e.factories
  pub prompt : ArePrompt W e.factories

working_waits :
    (xs : List TimedEvent)
    → 0 < waiting is_factory xs
    → (ev : TimedEvent) × (rest : List TimedEvent) × (xs ≡ ev ∷ rest)
unfolding waiting
working_waits [] h = absurd (omega arith)
working_waits (ev ∷ rest) h = (ev, rest, refl)

module _ {W : World} (n : ℕ) where
  below_limit :
      (e : Engine W) (limit c : ℕ)
      → e.max_cycles ≡ some limit
      → hits_limit e ≡ false
      → peek_cycle e.event_queue ≡ some c
      → c < limit
  unfolding hits_limit
  below_limit e limit c l free next = ground arith

  -- A step forward, which leaves a state that goes on.
  record GoesOn (e : Engine W) (limit : ℕ) : Type 0 where
    fuel : ℕ
    next : Engine W
    ran : step fuel e ≡ some next
    live : IsLive n next
    later : e.current_cycle < next.current_cycle
    before : next.current_cycle < limit
    kept : next.max_cycles ≡ e.max_cycles

  step-GoesOn :
      (e : Engine W) (limit : ℕ)
      → e.max_cycles ≡ some limit
      → limit ≤ u64_max
      → hits_limit e ≡ false
      → IsLive n e
      → GoesOn e limit
  step-GoesOn e limit l range free v = elim (peek-cases e.event_queue) [
    | inl (empty, idle) ↦
        let (ev, rest, some_event) = working_waits e.event_queue.heap v.alive.working in
        absurd (cc (some_event, empty))
    | inr (ev, rest, head, next) ↦
        let e0 = record e { current_cycle = ev.cycle } in
        let below = below_limit e limit ev.cycle l free next in
        let r : ev.cycle < u64_max = omega arith in
        let fuel = length e.event_queue.heap in
        let (d, ends) =
          drain_ends fuel ev.cycle e0 refl r v.punctual v.prompt
            (due-le-length ev.cycle e.event_queue.heap) in
        let (runs, over) = drain-Runs fuel ev.cycle e0 d refl v.punctual ends in
        let clock =
          Moves-Clock (Move-Clock {v = view e} v.clock (Moves.advance ev rest head refl))
            runs.moves in
        let alive =
          drain-IsAlive n fuel ev.cycle e0 d refl r v.punctual v.prompt v.factories
            (record {
              ids = v.alive.ids;
              working = v.alive.working;
              generators = v.alive.generators;
              costly = v.alive.costly;
            })
            ends in
        let goes = settle-Goes n d (record {
          alive = alive;
          ahead =
              subst (λ c. All (λ x. c < x.cycle) d.event_queue.heap) (sym runs.now)
                (over-IsAhead ev.cycle d.event_queue clock.ordered
                  (subst (λ c. All (λ x. (c ≤ x.cycle) × (x.cycle ≤ u64_max)) d.event_queue.heap)
                    runs.now clock.future)
                  over);
          range = subst (λ c. c < u64_max) (sym runs.now) r;
        }) in
        let last = settle-Runs d in
        let same = last.factories ∙ runs.factories in
        let ahead = subst (All (λ x. e.current_cycle < x.cycle)) head v.ahead in
        record {
          fuel = fuel;
          next = settle d;
          ran = step_at fuel e ev.cycle (some d) next ends;
          live = record {
            alive = goes.alive;
            ahead = goes.ahead;
            clock = Moves-Clock clock last.moves;
            factories = subst (λ fs. length fs ≡ n) (sym same) v.factories;
            punctual = subst (ArePunctual W) (sym same) v.punctual;
            prompt = subst (ArePrompt W) (sym same) v.prompt;
          };
          later = subst (λ c. e.current_cycle < c) (sym (last.now ∙ runs.now)) ahead.0;
          before = subst (λ c. c < limit) (sym (last.now ∙ runs.now)) below;
          kept = last.limit ∙ runs.limit;
        }
  ]

  -- As many rounds are left as there are cycles before the limit.
  run_ends :
      (left : ℕ) (e : Engine W) (limit : ℕ)
      → e.max_cycles ≡ some limit
      → limit ≤ u64_max
      → limit ≤ e.current_cycle + left
      → IsLive n e
      → (fuel : ℕ) × (t : Trace W.F64) × (run (suc left) fuel e ≡ some t)
  run_ends zero e limit l range close v = elim (Bool-cases (is_complete e)) [
    | inl complete ↦ (0, _, run_complete zero 0 e complete)
    | inr busy ↦ elim (Bool-cases (hits_limit e)) [
      | inl hit ↦ (0, _, run_limit zero 0 e busy hit)
      | inr free ↦
          let g = step-GoesOn e limit l range free v in
          let a = g.later in let b = g.before in absurd (omega arith)
    ]
  ]
  run_ends (suc left) e limit l range close v = elim (Bool-cases (is_complete e)) [
    | inl complete ↦ (0, _, run_complete (suc left) 0 e complete)
    | inr busy ↦ elim (Bool-cases (hits_limit e)) [
      | inl hit ↦ (0, _, run_limit (suc left) 0 e busy hit)
      | inr free ↦
          let g = step-GoesOn e limit l range free v in
          let a = g.later in
          let (fuel, t, ran) = run_ends left g.next limit (g.kept ∙ l) range (omega arith) g.live in
          let most = max g.fuel fuel in
          (
            most,
            t,
            run-step (suc left) most e (some g.next) busy free
                  (step_more g.fuel most e g.next (omega arith) g.ran)
                ∙ run_more (suc left) fuel most g.next t (omega arith) ran,
          )
    ]
  ]

  -- With a limit within u64, the run of a live engine returns a trace: one round more than the limit
  -- is enough, with some fuel for the steps.
  pub run-IsLive :
      (e : Engine W) (limit : ℕ)
      → e.max_cycles ≡ some limit
      → limit ≤ u64_max
      → IsLive n e
      → (fuel : ℕ) × (t : Trace W.F64) × (run (suc limit) fuel e ≡ some t)
  run-IsLive e limit l range v = run_ends limit e limit l range (omega arith) v
