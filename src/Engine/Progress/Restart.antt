-- ===== src/Engine/Progress/Restart.antt =====
-- How the engine restarts a factory whose event it processes (crates/pirx-core/src/engine/dispatch.rs).
use pirx.Common.{
  ℕ, ◌<◌, ◌≡◌, sym, subst, ap, ◌∙◌, true, refl, get_elem?, get_elem?-some, length, u64_max,
}
use pirx.World.{World}
use pirx.Events.{EngineEvent, TimedEvent}
use pirx.Trace.{TraceEventKind}
use pirx.Engine.State.{Engine, log}
use pirx.Engine.Dispatch.{start_factory, store_state, handle, process_event}
use pirx.Engine.Progress.{
  is_factory, ArePrompt, Adds, IsOf, Follows, SameClock, start_factory-Adds, store_state-SameClock,
}

module _ {W : World} where
  -- The engine restarts a factory that is there.
  restart-Adds :
      (e m : Engine W) (id : ℕ)
      → SameClock e m
      → id < length e.factories
      → id < length e.factory_rngs
      → ArePrompt W e.factories
      → e.current_cycle < u64_max
      → Adds
          (IsOf id)
          e.current_cycle
          e.event_queue
          (start_factory m id e.current_cycle).event_queue
  restart-Adds e m id s there seeded p h =
      let (f, found) = get_elem?-some e.factories id there in
      let (rng, drawn) = get_elem?-some e.factory_rngs id seeded in
      subst (λ n. Adds (IsOf id) e.current_cycle e.event_queue (start_factory m id n).event_queue)
        s.now
        (subst
          (λ n. Adds (IsOf id) n e.event_queue (start_factory m id m.current_cycle).event_queue)
          s.now
          (subst
            (λ q. Adds (IsOf id) m.current_cycle q (start_factory m id m.current_cycle).event_queue)
            s.queue
            (start_factory-Adds m id f rng (ap (λ fs. get_elem? fs id) s.factories ∙ found)
              (ap (λ rs. get_elem? rs id) s.generators ∙ drawn)
              (subst (ArePrompt W) (sym s.factories) p) (subst (λ n. n < u64_max) (sym s.now) h))))

  -- The factory of an event is there, with its generator.
  abbrev pub IsThere : Engine W → EngineEvent → Type 0
  IsThere e (EngineEvent.factory_produced id) =
      (id < length e.factories) × (id < length e.factory_rngs)
  IsThere e (EngineEvent.factory_failed id) =
      (id < length e.factories) × (id < length e.factory_rngs)
  IsThere e other = Unit

  handle-Adds :
      (e : Engine W) (event : EngineEvent)
      → is_factory event ≡ true
      → IsThere e event
      → ArePrompt W e.factories
      → e.current_cycle < u64_max
      → Adds
          (Follows event)
          e.current_cycle
          e.event_queue
          (handle e e.current_cycle event).event_queue
  unfolding handle
  handle-Adds e (EngineEvent.factory_produced id) f t p h =
      let logged = log e.current_cycle (TraceEventKind.factory_produced id) e in
      let s = store_state-SameClock logged e.current_cycle in
      restart-Adds e (store_state logged e.current_cycle) id
        (record {
          queue = s.queue;
          delay = s.delay;
          now = s.now;
          factories = s.factories;
          generators = s.generators;
        })
        t.0 t.1 p h
  handle-Adds e (EngineEvent.factory_failed id) f t p h =
      let logged = log e.current_cycle (TraceEventKind.factory_failed id) e in
      restart-Adds e logged id
        (record { queue = refl; delay = refl; now = refl; factories = refl; generators = refl }) t.0
        t.1 p h
  handle-Adds e (EngineEvent.gate_completed gate) f t p h = cc
  handle-Adds e (EngineEvent.hook_activation gate hook_id outcome) f t p h = cc

  -- An event of a factory that is there schedules the next one of this factory.
  pub process_event-Adds :
      (e : Engine W) (ev : TimedEvent)
      → ev.cycle ≡ e.current_cycle
      → is_factory ev.event ≡ true
      → IsThere e ev.event
      → ArePrompt W e.factories
      → e.current_cycle < u64_max
      → Adds (Follows ev.event) e.current_cycle e.event_queue (process_event e ev).event_queue
  unfolding process_event
  process_event-Adds e ev due f t p h = rw due (handle-Adds e ev.event f t p h)
