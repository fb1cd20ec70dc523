-- ===== src/Engine/Termination/Handlers.antt =====
-- What the event handlers (crates/pirx-core/src/engine/dispatch.rs) keep of the generators and the
-- costs of the gates.
use pirx.Common.{
  ℕ, ◌≡◌, refl, ◌∙◌, List, [], ◌∷◌, Option, none, some, ◌==◌, Bool-cases, Option-cases, inl, inr,
  OpKey, length, length-set, get_elem?,
}
use pirx.World.{World}
use pirx.Ir.{MeasurementHookId, MeasurementOutcome}
use pirx.Buffer.{try_enqueue}
use pirx.Events.{EngineEvent, TimedEvent}
use pirx.Factory.{FactoryOutcome}
use pirx.Dag.{OpKind}
use pirx.Dag.Costs.{
  IsCostly, release_successors-IsCostly, activate_ops-IsCostly, inject_fixup-IsCostly,
}
use pirx.Engine.State.{Engine}
use pirx.Engine.Dispatch.{
  hook_table_index, begin_production, start_factory, activate_targets, activate_hook,
  count_activated, draw_outcome, feed_back, dispatch_hook, draw_injection, insert_fixup,
  finish_gate, release_gate, complete_gate, mark_completed, store_state, handle, process_event,
}

module _ {W : World} where
  pub record Keeps (e e' : Engine W) : Type 0 where
    pub generators : length e'.factory_rngs ≡ length e.factory_rngs
    pub costly : IsCostly e.dag → IsCostly e'.dag

  Keeps-trans : {a b c : Engine W} → Keeps a b → Keeps b c → Keeps a c
  Keeps-trans r s = record {
    generators = s.generators ∙ r.generators;
    costly = λ h. s.costly (r.costly h);
  }

  Keeps-refl : (e : Engine W) → Keeps e e
  Keeps-refl e = record { generators = refl; costly = λ h. h }

  begin_production-Keeps :
      (e : Engine W) (id now : ℕ) (outcome : FactoryOutcome) (rng : W.Rng)
      → Keeps e (begin_production e id now (outcome, rng))
  unfolding begin_production
  begin_production-Keeps e id now outcome rng = record {
    generators = length-set e.factory_rngs id rng;
    costly = λ h. h;
  }

  start_factory-Keeps : (e : Engine W) (id now : ℕ) → Keeps e (start_factory e id now)
  unfolding start_factory
  start_factory-Keeps e id now = elim (Option-cases (get_elem? e.factories id)) [
    | inl missing ↦ rw (missing, start_factory) (Keeps-refl e)
    | inr (f, found) ↦ elim (Option-cases (get_elem? e.factory_rngs id)) [
      | inl missing ↦ rw (found, missing, start_factory) (Keeps-refl e)
      | inr (rng, drawn) ↦ rw (found, drawn, start_factory) (begin_production-Keeps e id now _ _)
    ]
  ]

  activate_targets-Keeps :
      (e : Engine W) (gate : OpKey) (keys : List OpKey) → Keeps e (activate_targets e gate keys)
  unfolding activate_targets
  activate_targets-Keeps e gate [] = Keeps-refl e
  activate_targets-Keeps e gate (key ∷ keys) = record {
    generators = refl;
    costly = activate_ops-IsCostly (key ∷ keys) _ (e.dag, e.ready_set);
  }

  activate_hook-Keeps :
      (e : Engine W) (gate : OpKey) (hook_id : MeasurementHookId) (outcome : MeasurementOutcome)
      → Keeps e (activate_hook e gate hook_id outcome)
  unfolding activate_hook
  activate_hook-Keeps e gate hook_id outcome =
      elim (Option-cases (get_elem? e.hook_table (hook_table_index hook_id outcome))) [
        | inl missing ↦ rw (missing, activate_hook) (Keeps-refl e)
        | inr (keys, found) ↦ rw (found, activate_hook) (activate_targets-Keeps e gate keys)
      ]

  count_activated-Keeps :
      (e : Engine W) (hook_id : MeasurementHookId) (outcome : MeasurementOutcome)
      → Keeps e (count_activated e hook_id outcome)
  unfolding count_activated
  count_activated-Keeps e hook_id outcome =
      elim (Option-cases (get_elem? e.hook_table (hook_table_index hook_id outcome))) [
        | inl missing ↦ rw (missing, count_activated) (Keeps-refl e)
        | inr (keys, found) ↦
            rw (found, count_activated) (record { generators = refl; costly = λ h. h })
      ]

  feed_back-Keeps :
      (e : Engine W) (gate : OpKey) (hook_id : MeasurementHookId) (outcome : MeasurementOutcome)
      → Keeps e (feed_back e gate hook_id outcome)
  unfolding feed_back
  feed_back-Keeps e gate hook_id outcome = elim (Bool-cases (e.feedback_delay == 0)) [
    | inl instant ↦ rw instant (activate_hook-Keeps e gate hook_id outcome)
    | inr delayed ↦ rw delayed (record { generators = refl; costly = λ h. h })
  ]

  dispatch_hook-Keeps :
      (e : Engine W) (gate : OpKey) (hook_id : MeasurementHookId)
      → Keeps e (dispatch_hook e gate hook_id)
  unfolding dispatch_hook draw_outcome
  dispatch_hook-Keeps e gate hook_id =
      let k = Keeps-trans (count_activated-Keeps _ hook_id _) (feed_back-Keeps _ gate hook_id _) in
      record { generators = k.generators; costly = k.costly }

  finish_gate-Keeps :
      (e : Engine W) (gate : OpKey) (kind : OpKind) → Keeps e (finish_gate e gate kind)
  unfolding finish_gate release_gate
  finish_gate-Keeps e gate (OpKind.measurement (some hook_id)) =
      let d = dispatch_hook e gate hook_id in
      let k = dispatch_hook-Keeps e gate hook_id in
      record {
        generators = k.generators;
        costly = λ h. release_successors-IsCostly d.dag gate d.ready_set (k.costly h);
      }
  finish_gate-Keeps e gate kind = record {
    generators = refl;
    costly = release_successors-IsCostly e.dag gate e.ready_set;
  }

  draw_injection-Keeps : (e : Engine W) (kind : OpKind) → Keeps e (draw_injection e kind).1
  unfolding draw_injection
  draw_injection-Keeps e OpKind.t_gate = record { generators = refl; costly = λ h. h }
  draw_injection-Keeps e (OpKind.rotation i) = record { generators = refl; costly = λ h. h }
  draw_injection-Keeps e kind = Keeps-refl e

  complete_gate-Keeps :
      (e : Engine W) (gate : OpKey) (kind : Option OpKind) → Keeps e (complete_gate e gate kind)
  unfolding complete_gate insert_fixup
  complete_gate-Keeps e gate none = Keeps-refl e
  complete_gate-Keeps e gate (some kind) =
      let d = (draw_injection e kind).1 in
      let k = draw_injection-Keeps e kind in
      elim (Bool-cases (draw_injection e kind).0) [
        | inl inject ↦ rw inject (record {
          generators = k.generators;
          costly = λ h. inject_fixup-IsCostly W d.dag gate d.ready_set (k.costly h);
        })
        | inr clean ↦ rw clean (Keeps-trans k (finish_gate-Keeps d gate kind))
      ]

  store_state-Keeps : (e : Engine W) (cycle : ℕ) → Keeps e (store_state e cycle)
  unfolding store_state
  store_state-Keeps e cycle = elim (Bool-cases (try_enqueue e.buffer).1) [
    | inl stored ↦ rw stored (record { generators = refl; costly = λ h. h })
    | inr full ↦ rw full (record { generators = refl; costly = λ h. h })
  ]

  handle-Keeps : (e : Engine W) (cycle : ℕ) (event : EngineEvent) → Keeps e (handle e cycle event)
  unfolding handle mark_completed
  handle-Keeps e cycle (EngineEvent.factory_produced id) =
      let k = Keeps-trans (store_state-Keeps _ cycle) (start_factory-Keeps _ id cycle) in
      record { generators = k.generators; costly = k.costly }
  handle-Keeps e cycle (EngineEvent.factory_failed id) =
      let k = start_factory-Keeps _ id cycle in
      record { generators = k.generators; costly = k.costly }
  handle-Keeps e cycle (EngineEvent.gate_completed gate) =
      let k = complete_gate-Keeps _ gate _ in
      record { generators = k.generators; costly = k.costly }
  handle-Keeps e cycle (EngineEvent.hook_activation gate hook_id outcome) =
      activate_hook-Keeps e gate hook_id outcome

  -- An event leaves as many generators, and costs of gates that are positive.
  pub process_event-Keeps : (e : Engine W) (ev : TimedEvent) → Keeps e (process_event e ev)
  unfolding process_event
  process_event-Keeps e ev = handle-Keeps e ev.cycle ev.event
