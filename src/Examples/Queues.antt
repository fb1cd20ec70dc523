-- ===== src/Examples/Queues.antt =====
-- The event queue and the factories at work (crates/pirx-core/src/events.rs and factory/), and
-- the validation of a hardware model (crates/pirx-hw/src/model.rs).
use pirx.Common.{◌↔◌, false, leb, ltb, ok, ℕ, ◌≡◌, refl, [], ◌∷◌, arith}
use pirx.Events.{EngineEvent, TimedEvent, EventQueue, schedule, pop, new, push_heap}
use pirx.Events.Order.{
  IsValid, at, PopsEarliest, new-IsValid, schedule-IsValid, at-schedule, pop-PopsEarliest,
}
use pirx.Factory.{
  DistillationFactory, CultivationFactory, schedule_production, distillation, cultivation,
}
use pirx.Factory.Timing.{
  Distills, IsPunctual, schedule_production-Distills, schedule_production-IsPunctual,
}
use pirx.Hw.{HardwareModel, FactoryConfig, DistillationProtocol, CodeType, count}
use pirx.Hw.Validate.{FloatTests, validate}
use pirx.Hw.Validate.Domain.{IsDomainModel, validate-IsDomainModel}
use pirx.Examples.{counting_world, small_hardware, distilling}

abbrev done_at : ℕ → EventQueue
done_at c =
    schedule (schedule new 7 (EngineEvent.gate_completed 1)) c (EngineEvent.gate_completed 2)

done_at-IsValid : IsValid (done_at 7)
unfolding schedule new
done_at-IsValid =
    schedule-IsValid (schedule new 7 (EngineEvent.gate_completed 1)) 7
      (EngineEvent.gate_completed 2)
      (schedule-IsValid new 7 (EngineEvent.gate_completed 1) new-IsValid (omega arith))
      (omega arith)

schedule-IsValid_example : IsValid (schedule new 7 (EngineEvent.gate_completed 1))
unfolding new
schedule-IsValid_example =
    schedule-IsValid new 7 (EngineEvent.gate_completed 1) new-IsValid (omega arith)

-- A third event at the same cycle comes last.
at-schedule_example :
    at 7 (schedule (done_at 7) 7 (EngineEvent.gate_completed 3)).heap
    ≡ EngineEvent.gate_completed 1
      ∷ EngineEvent.gate_completed 2
      ∷ EngineEvent.gate_completed 3
      ∷ []
unfolding schedule new push_heap at
at-schedule_example = at-schedule (done_at 7) 7 7 (EngineEvent.gate_completed 3) done_at-IsValid

abbrev first_event : TimedEvent
first_event = record { cycle = 7; seq = 0; event = EngineEvent.gate_completed 1 }

abbrev one_left : EventQueue
one_left = record {
  heap = record { cycle = 7; seq = 1; event = EngineEvent.gate_completed 2 } ∷ [];
  next_seq = 2;
}

pop-PopsEarliest_example : PopsEarliest (done_at 7) first_event one_left
unfolding schedule new push_heap pop
pop-PopsEarliest_example = pop-PopsEarliest (done_at 7) one_left first_event done_at-IsValid refl

abbrev distillery : DistillationFactory ℕ
distillery = record { cycles_per_round = 4; rounds = 2; abort_probability = 1 }

schedule_production-Distills_example :
    Distills counting_world distillery 9 0 2
      (schedule_production counting_world (distillation distillery) 9 1).0
schedule_production-Distills_example = schedule_production-Distills counting_world distillery 9 1

abbrev cultivator : CultivationFactory ℕ
cultivator = record { lambda_raw = 3; code_distance = 3 }

schedule_production-IsPunctual_example : IsPunctual counting_world (cultivation cultivator)
schedule_production-IsPunctual_example =
    schedule_production-IsPunctual counting_world (cultivation cultivator) (λ rng. ground arith)

-- Percents for floats.
abbrev pub percents : FloatTests ℕ
percents = record { zero = 0; one = 100; le = leb; lt = ltb; is_nan = λ _. false }

-- A model whose distillation factories have no rounds.
abbrev pub no_rounds_model : HardwareModel ℕ
no_rounds_model = record (small_hardware distilling) {
  qec = record {
    code_type = CodeType.surface_code;
    code_distance = 17;
    physical_error_rate = 1;
    error_correction_threshold = 2;
    logical_error_prefactor = 4;
  };
  factory = FactoryConfig.distillation 2 DistillationProtocol.fifteen_to_one 0 0 1;
}

-- It is accepted nevertheless.
pub validate-no_rounds : validate percents no_rounds_model ≡ ok tt
unfolding validate count
validate-no_rounds = refl

validate-IsDomainModel_example :
    (validate percents no_rounds_model ≡ ok tt) ↔ IsDomainModel percents no_rounds_model
validate-IsDomainModel_example = validate-IsDomainModel percents no_rounds_model
