-- ===== src/Engine/Termination/Fuel.antt =====
-- More fuel than enough (crates/pirx-core/src/engine/mod.rs).
use pirx.Common.{
  ℕ, zero, suc, ◌≤◌, ◌≡◌, sym, ◌∙◌, none, some, arith, Bool-cases, Option-cases, inl, inr,
}
use pirx.World.{World}
use pirx.Events.{peek_cycle}
use pirx.Trace.{Trace}
use pirx.Engine.State.{Engine, is_complete}
use pirx.Engine.Run.{next_due, drain, step, hits_limit, run}
use pirx.Engine.Refinement.Loop.{drain_over, drain_next, step_at, step_idle}
use pirx.Engine.Soundness.{run_complete, run_limit, run-step}

module _ {W : World} where
  drain_more :
      (fuel fuel' c : ℕ) (e e' : Engine W)
      → fuel ≤ fuel'
      → drain fuel c e ≡ some e'
      → drain fuel' c e ≡ some e'
  unfolding drain
  drain_more zero fuel' c e e' le h = elim (Option-cases (next_due c e.event_queue)) [
    | inl over ↦ drain_over fuel' c e over ∙ sym (drain_over zero c e over) ∙ h
    | inr (found, due) ↦ absurd (ground arith)
  ]
  drain_more (suc fuel) zero c e e' le h = absurd (omega arith)
  drain_more (suc fuel) (suc fuel') c e e' le h = elim (Option-cases (next_due c e.event_queue)) [
    | inl over ↦ drain_over (suc fuel') c e over ∙ sym (drain_over (suc fuel) c e over) ∙ h
    | inr ((ev, rest), due) ↦
        drain_next fuel' c e ev rest due
        ∙ drain_more fuel fuel' c _ e' (omega arith) (sym (drain_next fuel c e ev rest due) ∙ h)
  ]

  pub step_more :
      (fuel fuel' : ℕ) (e e' : Engine W)
      → fuel ≤ fuel'
      → step fuel e ≡ some e'
      → step fuel' e ≡ some e'
  step_more fuel fuel' e e' le h = elim (Option-cases (peek_cycle e.event_queue)) [
    | inl idle ↦ step_idle fuel' e idle ∙ sym (step_idle fuel e idle) ∙ h
    | inr (c, next) ↦ elim (Option-cases (drain fuel c (record e { current_cycle = c }))) [
      | inl short ↦ absurd (cc (step_at fuel e c none next short))
      | inr (d, ends) ↦
          step_at fuel' e c (some d) next (drain_more fuel fuel' c _ d le ends)
          ∙ sym (step_at fuel e c (some d) next ends)
          ∙ h
    ]
  ]

  -- A run that returns a trace returns it with more fuel too.
  pub run_more :
      (rounds fuel fuel' : ℕ) (e : Engine W) (t : Trace W.F64)
      → fuel ≤ fuel'
      → run rounds fuel e ≡ some t
      → run rounds fuel' e ≡ some t
  unfolding run
  run_more zero fuel fuel' e t le h = h
  run_more (suc rounds) fuel fuel' e t le h = elim (Bool-cases (is_complete e)) [
    | inl complete ↦
        run_complete rounds fuel' e complete ∙ sym (run_complete rounds fuel e complete) ∙ h
    | inr busy ↦ elim (Bool-cases (hits_limit e)) [
      | inl hit ↦ run_limit rounds fuel' e busy hit ∙ sym (run_limit rounds fuel e busy hit) ∙ h
      | inr free ↦ elim (Option-cases (step fuel e)) [
        | inl short ↦ absurd (cc (run-step rounds fuel e none busy free short))
        | inr (e', stepped) ↦
            run-step rounds fuel' e (some e') busy free (step_more fuel fuel' e e' le stepped)
            ∙ run_more rounds fuel fuel' e' t le
                (sym (run-step rounds fuel e (some e') busy free stepped) ∙ h)
      ]
    ]
  ]
