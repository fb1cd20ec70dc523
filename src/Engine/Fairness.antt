-- ===== src/Engine/Fairness.antt =====
-- What phases 2 and 3 of `step` (crates/pirx-core/src/engine/mod.rs) leave behind.
use pirx.Common.{
  ℕ, zero, suc, ◌-◌, ◌≤◌, ◌<◌, ◌≡◌, refl, sym, subst, ◌∙◌, min, ap, ◌+◌, ◌==◌, ◌++◌, Bool, false,
  take, get_or, count_if, if◌then◌else◌, sat_add64, u64_max, SecondaryMap, List, [], ◌∷◌, some,
  arith, Bool-cases, ltb, inl, inr, ◌⊎◌, OpKey, drop, length, u32_max,
}
use pirx.World.{World}
use pirx.Buffer.{try_dequeue}
use mathlib.Core.List.{append_assoc, append-nil}
use pirx.Trace.{TraceCollector, TraceEvent, TraceEventKind, append}
use pirx.Events.Counts.{waiting, waiting-schedule}
use pirx.Engine.State.{Engine, trace_id}
use pirx.Engine.Dispatch.{
  schedule_gate_completion, total_gate_cost, log_routing, gate_costs, serve, schedule_one,
  schedule_all, schedule_ready_gates, serve_all, try_serve_stalled_gates,
}
use pirx.Events.{EngineEvent, TimedEvent}
use pirx.Engine.Run.{settle, step}
use pirx.Engine.Refinement.Handlers.{ArePunctual}
use pirx.Engine.Refinement.Loop.{step-Steps}

drop-zero {ℓ} : {A : Type ℓ} (n : ℕ) (xs : List A) → n ≡ 0 → drop n xs ≡ xs
drop-zero n xs h = rw h refl

drop_all {ℓ} : {A : Type ℓ} (n : ℕ) (xs : List A) → length xs ≤ n → drop n xs ≡ []
drop_all zero [] h = refl
drop_all (suc n) [] h = refl
drop_all zero (x ∷ xs) h = absurd (omega arith)
drop_all (suc n) (x ∷ xs) h = drop_all n xs (omega arith)

drop-suc {ℓ} :
    {A : Type ℓ} (m n : ℕ) (x : A) (xs : List A) → m ≡ suc n → drop m (x ∷ xs) ≡ drop n xs
drop-suc m n x xs h = rw h refl

take-suc {ℓ} :
    {A : Type ℓ} (m n : ℕ) (x : A) (xs : List A) → m ≡ suc n → take m (x ∷ xs) ≡ x ∷ take n xs
take-suc m n x xs h = rw h refl

take-zero {ℓ} : {A : Type ℓ} (n : ℕ) (xs : List A) → n ≡ 0 → take n xs ≡ []
take-zero n xs h = rw h refl

-- The gates that a trace says were served, each with its wait.
abbrev pub service_of : TraceEventKind → List (ℕ × ℕ)
service_of (TraceEventKind.gate_served gate wait) = (gate, wait) ∷ []
service_of kind = []

abbrev pub services : List TraceEvent → List (ℕ × ℕ)
services [] = []
services (ev ∷ evs) = service_of ev.kind ++ services evs

-- What a trace says of stalled gates that are served at `now`.
abbrev pub services_at : SecondaryMap ℕ → ℕ → List (OpKey × ℕ) → List (ℕ × ℕ)
services_at ids now [] = []
services_at ids now ((gate, since) ∷ rest) =
    (get_or (ids gate) 0, min (now - since) u32_max) ∷ services_at ids now rest

-- The completion of a gate.
abbrev pub completes : OpKey → EngineEvent → Bool
completes k (EngineEvent.gate_completed gate) = gate == k
completes k event = false

services-append : (xs ys : List TraceEvent) → services (xs ++ ys) ≡ services xs ++ services ys
services-append [] ys = refl
services-append (ev ∷ xs) ys =
    ap (λ l. service_of ev.kind ++ l) (services-append xs ys)
    ∙ sym (append_assoc (service_of ev.kind) (services xs) (services ys))

append-services :
    (t : TraceCollector) (cycle : ℕ) (kind : TraceEventKind)
    → services (append t cycle kind).events ≡ services t.events ++ service_of kind
unfolding append
append-services t cycle kind =
    services-append t.events _ ∙ ap (λ l. services t.events ++ l) (append-nil (service_of kind))

-- No gate waits for a magic state while there is one.
abbrev pub IsServed : {W : World} → Engine W → Type 0
IsServed e = (e.stalled_gates ≡ []) ⊎ (e.buffer.occupancy ≡ 0)

module _ {W : World} where
  -- The launch of a gate leaves the buffer and the waiting gates alone.
  record SameWaiting (e e' : Engine W) : Type 0 where
    ready : e'.ready_set ≡ e.ready_set
    stalled : e'.stalled_gates ≡ e.stalled_gates
    occupancy : e'.buffer.occupancy ≡ e.buffer.occupancy

  launch-SameWaiting :
      (e : Engine W) (gate : OpKey) → SameWaiting e (schedule_gate_completion e gate)
  unfolding schedule_gate_completion
  launch-SameWaiting e gate = ground arith

  serve-SameWaiting : (e : Engine W) (gate : OpKey) (wait : ℕ) → SameWaiting e (serve e gate wait)
  unfolding serve
  serve-SameWaiting e gate wait =
      let h = launch-SameWaiting _ gate in
      record { ready = h.ready; stalled = h.stalled; occupancy = h.occupancy }

  schedule_one-IsServed :
      (e : Engine W) (gate : OpKey)
      → IsServed e
      → IsServed (schedule_one e gate) × ((schedule_one e gate).ready_set ≡ e.ready_set)
  unfolding schedule_one try_dequeue
  schedule_one-IsServed e gate h = grind (arith, launch-SameWaiting, serve-SameWaiting)

  schedule_all-IsServed :
      (gates : List OpKey) (e : Engine W)
      → e.ready_set ≡ gates
      → IsServed e
      → IsServed (schedule_all gates e) × ((schedule_all gates e).ready_set ≡ [])
  unfolding schedule_all
  schedule_all-IsServed [] e r h = (h, r)
  schedule_all-IsServed (gate ∷ rest) e r h =
      let (served, same) = schedule_one-IsServed (record e { ready_set = rest }) gate h in
      schedule_all-IsServed rest (schedule_one (record e { ready_set = rest }) gate) same served

  -- A gate is launched: its completion is scheduled, and none is served besides.
  record Launches (gate : OpKey) (e e' : Engine W) : Type 0 where
    served : services e'.trace.events ≡ services e.trace.events
    ids : e'.key_to_op_id ≡ e.key_to_op_id
    now : e'.current_cycle ≡ e.current_cycle
    consumed : e'.magic_states_consumed ≡ e.magic_states_consumed
    flight :
        (k : OpKey)
        → waiting (completes k) e'.event_queue.heap
          ≡ (if gate == k then 1 else 0) + waiting (completes k) e.event_queue.heap

  launch-Launches :
      (e : Engine W) (gate : OpKey) → Launches gate e (schedule_gate_completion e gate)
  unfolding schedule_gate_completion total_gate_cost log_routing
  launch-Launches e gate = elim (Bool-cases (ltb 0 (gate_costs e gate).1)) [
    | inl far ↦ rw far (record {
      served =
          append-services _ e.current_cycle _
          ∙ append-nil _
          ∙ append-services e.trace e.current_cycle _
          ∙ append-nil _;
      ids = refl;
      now = refl;
      consumed = refl;
      flight = λ k. waiting-schedule (completes k) e.event_queue _ _;
    })
    | inr near ↦ rw near (record {
      served = refl;
      ids = refl;
      now = refl;
      consumed = refl;
      flight = λ k. waiting-schedule (completes k) e.event_queue _ _;
    })
  ]

  -- A gate is served: the trace says so, a state is consumed, and its completion is scheduled.
  record Serves (gate : OpKey) (wait : ℕ) (e e' : Engine W) : Type 0 where
    served :
        services e'.trace.events
        ≡ services e.trace.events ++ (get_or (e.key_to_op_id gate) 0, wait) ∷ []
    ids : e'.key_to_op_id ≡ e.key_to_op_id
    now : e'.current_cycle ≡ e.current_cycle
    consumed : e'.magic_states_consumed ≡ sat_add64 e.magic_states_consumed 1
    flight :
        (k : OpKey)
        → waiting (completes k) e'.event_queue.heap
          ≡ (if gate == k then 1 else 0) + waiting (completes k) e.event_queue.heap

  serve-Serves : (e : Engine W) (gate : OpKey) (wait : ℕ) → Serves gate wait e (serve e gate wait)
  unfolding serve trace_id
  serve-Serves e gate wait =
      let l = launch-Launches _ gate in
      record {
        served =
            l.served
            ∙ append-services _ e.current_cycle _
            ∙ ap (λ x. x ++ (get_or (e.key_to_op_id gate) 0, wait) ∷ [])
                (append-services e.trace e.current_cycle _ ∙ append-nil _);
        ids = l.ids;
        now = l.now;
        consumed = l.consumed;
        flight = l.flight;
      }

  -- The oldest stalled gates are served, as many as there are states; the others keep their order.
  pub record ServesOldest (stalled : List (OpKey × ℕ)) (e e' : Engine W) : Type 0 where
    pub left : e'.stalled_gates ≡ drop (min e.buffer.occupancy (length stalled)) stalled
    pub states : e'.buffer.occupancy ≡ e.buffer.occupancy - length stalled
    pub ready : e'.ready_set ≡ e.ready_set
    pub served :
        services e'.trace.events
        ≡ services e.trace.events
          ++ services_at e.key_to_op_id e.current_cycle
              (take (min e.buffer.occupancy (length stalled)) stalled)
    pub consumed :
        min e'.magic_states_consumed u64_max
        ≡ min (e.magic_states_consumed + min e.buffer.occupancy (length stalled)) u64_max
    pub scheduled :
        (k : OpKey)
        → waiting (completes k) e'.event_queue.heap
          ≡ count_if (λ s. s.0 == k) (take (min e.buffer.occupancy (length stalled)) stalled)
            + waiting (completes k) e.event_queue.heap

  -- No gate is served without a state or a gate that waits.
  idle-ServesOldest :
      (stalled : List (OpKey × ℕ)) (e : Engine W)
      → e.stalled_gates ≡ stalled
      → min e.buffer.occupancy (length stalled) ≡ 0
      → ServesOldest stalled e e
  idle-ServesOldest stalled e h z = record {
    left = h ∙ sym (drop-zero _ stalled z);
    states = omega arith;
    ready = refl;
    served =
        sym (append-nil _)
        ∙ ap (λ l. services e.trace.events ++ services_at e.key_to_op_id e.current_cycle l)
            (sym (take-zero _ stalled z));
    consumed = omega arith;
    scheduled = λ k. omega (arith, ap (count_if (λ s. s.0 == k)) (take-zero _ stalled z));
  }

  -- The oldest gate is served, and then the others.
  first-ServesOldest :
      (gate : OpKey) (since : ℕ) (rest : List (OpKey × ℕ)) (e e1 e' : Engine W)
      → 0 < e.buffer.occupancy
      → e1.buffer.occupancy ≡ e.buffer.occupancy - 1
      → e1.ready_set ≡ e.ready_set
      → Serves gate (min (e.current_cycle - since) u32_max) e e1
      → ServesOldest rest e1 e'
      → ServesOldest ((gate, since) ∷ rest) e e'
  first-ServesOldest gate since rest e e1 e' room occupancy ready here ih =
      let m = min e1.buffer.occupancy (length rest) in
      let id = get_or (e.key_to_op_id gate) 0 in
      let wait = min (e.current_cycle - since) u32_max in
      let more : min e.buffer.occupancy (length ((gate, since) ∷ rest)) ≡ suc m = omega arith in
      let taken = take-suc _ m (gate, since) rest more in
      record {
        left = ih.left ∙ sym (drop-suc _ _ (gate, since) rest more);
        states = omega (arith, ih.states);
        ready = ih.ready ∙ ready;
        served =
            ih.served
            ∙ ap (λ l. l ++ services_at e1.key_to_op_id e1.current_cycle (take m rest)) here.served
            ∙ append_assoc (services e.trace.events) _ _
            ∙ ap
                (λ ids.
                  services e.trace.events
                  ++ (id, wait) ∷ services_at ids e1.current_cycle (take m rest))
                here.ids
            ∙ ap
                (λ now.
                  services e.trace.events
                  ++ (id, wait) ∷ services_at e.key_to_op_id now (take m rest))
                here.now
            ∙ ap (λ l. services e.trace.events ++ services_at e.key_to_op_id e.current_cycle l)
                (sym taken);
        consumed = omega (arith, ih.consumed, here.consumed);
        scheduled = λ k.
            omega (arith, ih.scheduled k, here.flight k)
            ∙ ap (λ l. count_if (λ s. s.0 == k) l + waiting (completes k) e.event_queue.heap)
                (sym taken);
      }

  serve_all-ServesOldest :
      (stalled : List (OpKey × ℕ)) (e : Engine W)
      → e.stalled_gates ≡ stalled
      → ServesOldest stalled e (serve_all stalled e)
  unfolding serve_all try_dequeue
  serve_all-ServesOldest [] e h = idle-ServesOldest [] e h (omega arith)
  serve_all-ServesOldest ((gate, since) ∷ rest) e h = elim (Bool-cases (ltb 0 e.buffer.occupancy)) [
    | inr empty ↦
        let none_left : e.buffer.occupancy ≡ 0 = ground arith in
        rw empty (idle-ServesOldest ((gate, since) ∷ rest) e h (omega arith))
    | inl taken ↦
        let buffer = record e.buffer { occupancy = e.buffer.occupancy - 1 } in
        let before = record e { buffer = buffer; stalled_gates = rest } in
        let wait = min (e.current_cycle - since) u32_max in
        let same = serve-SameWaiting before gate wait in
        let here = serve-Serves before gate wait in
        let ih = serve_all-ServesOldest rest (serve before gate wait) same.stalled in
        rw taken (
          first-ServesOldest gate since rest e (serve before gate wait) _ (ground arith)
            same.occupancy same.ready
            (record {
              served = here.served;
              ids = here.ids;
              now = here.now;
              consumed = here.consumed;
              flight = here.flight;
            })
            ih)
  ]

  -- Phase 2 serves the gates that are stalled longest, as many as there are magic states: in their
  -- order the trace says of each that it was served and how long it waited, up to the range of u32; for
  -- each, one state leaves the buffer, one is counted as consumed, up to the range of u64, and its
  -- completion joins the event queue. No other gate is served or has its completion scheduled; the
  -- others stay stalled in their order, and the ready queue as it is.
  pub try_serve_stalled_gates-ServesOldest :
      (e : Engine W) → ServesOldest e.stalled_gates e (try_serve_stalled_gates e)
  unfolding try_serve_stalled_gates
  try_serve_stalled_gates-ServesOldest e = serve_all-ServesOldest e.stalled_gates e refl

  try_serve-IsServed : (e : Engine W) → IsServed (try_serve_stalled_gates e)
  try_serve-IsServed e =
      let o = try_serve_stalled_gates-ServesOldest e in
      let n = length e.stalled_gates in
      let either : (e.buffer.occupancy ≤ n) ⊎ (n ≤ e.buffer.occupancy) = omega arith in
      elim either [
        | inl few ↦ inr (omega (arith, o.states))
        | inr many ↦ inl (o.left ∙ drop_all _ e.stalled_gates (omega arith))
      ]

  -- After phases 2 and 3 no gate is ready, and none is stalled while there is a magic state.
  pub settle-IsServed : (e : Engine W) → IsServed (settle e) × ((settle e).ready_set ≡ [])
  unfolding settle schedule_ready_gates
  settle-IsServed e =
      schedule_all-IsServed (try_serve_stalled_gates e).ready_set (try_serve_stalled_gates e) refl
        (try_serve-IsServed e)

  -- With factories that are punctual, a step that returns on a queue that is not empty leaves no
  -- gate in the ready queue, and no gate stalled while there is a magic state in the buffer.
  pub step-IsServed :
      (fuel : ℕ) (e e' : Engine W) (ev : TimedEvent) (rest : List TimedEvent)
      → ArePunctual W e.factories
      → e.event_queue.heap ≡ ev ∷ rest
      → step fuel e ≡ some e'
      → IsServed e' × (e'.ready_set ≡ [])
  step-IsServed fuel e e' ev rest h busy r = elim (step-Steps fuel e e' h r) [
    | inl (idle, _) ↦ absurd (cc)
    | inr s ↦
        subst (λ x. IsServed x × (x.ready_set ≡ [])) (sym s.settled) (settle-IsServed s.drained)
  ]
