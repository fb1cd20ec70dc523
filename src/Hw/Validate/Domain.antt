-- ===== src/Hw/Validate/Domain.antt =====
-- The hardware models in the domain of the simulator, against `validate` (crates/pirx-hw/src/model.rs).
use pirx.Common.{◌%◌, ◌≤◌, ◌<◌, ◌≡◌, ◌↔◌, refl, true, false, arith, ok, u16_max, both}
use pirx.Hw.{
  HardwareModel, QecConfig, TimingConfig, FactoryConfig, InjectionConfig, RoutingConfig,
  BufferConfig, count,
}
use pirx.Hw.Validate.{
  FloatTests, validate_qec, validate_timing, validate_kind, validate_factory, validate_injection,
  validate_routing, validate_buffer, validate,
}

module _ {F : Type 0} (f : FloatTests F) where
  open f use {le, lt, is_nan}

  -- A positive number, a number in (0, 1), and a number in [0, 1].
  abbrev pub IsPositive : F → Type 0
  IsPositive x = (le x f.zero ≡ false) × (is_nan x ≡ false)

  abbrev pub IsRate : F → Type 0
  IsRate x = (le x f.zero ≡ false) × (le f.one x ≡ false) × (is_nan x ≡ false)

  abbrev pub IsProbability : F → Type 0
  IsProbability x = (le f.zero x ≡ true) × (le x f.one ≡ true) × (is_nan x ≡ false)

  -- What the kinds of factories and of routing ask for.
  abbrev pub AcceptsKind : FactoryConfig F → Type 0
  AcceptsKind (FactoryConfig.cultivation n lambda_raw fault_distance) = IsPositive lambda_raw
  AcceptsKind (FactoryConfig.distillation n protocol cycles rounds abort_probability) =
      IsProbability abort_probability
  AcceptsKind (FactoryConfig.rz_synthesis n distinct_angles mean) =
      (IsPositive mean) × (0 < distinct_angles)

  abbrev pub AcceptsRouting : RoutingConfig → Type 0
  AcceptsRouting (RoutingConfig.scalar overhead) = Unit
  AcceptsRouting (RoutingConfig.manhattan width height hop) = (0 < width) × (0 < height) × (0 < hop)

  -- A hardware model in the domain of the simulator.
  pub record IsDomainModel (hw : HardwareModel F) : Type 0 where
    pub distance : (3 ≤ hw.qec.code_distance) × (hw.qec.code_distance % 2 ≡ 1)
    pub rates :
        (IsRate hw.qec.physical_error_rate)
        × (IsRate hw.qec.error_correction_threshold)
        × (IsPositive hw.qec.logical_error_prefactor)
    pub times : (IsPositive hw.timing.cycle_time_us) × (IsPositive hw.timing.measurement_time_us)
    pub latency :
        (lt hw.timing.classical_feedback_latency_us f.zero ≡ false)
        × (is_nan hw.timing.classical_feedback_latency_us ≡ false)
    pub factories : (0 < count hw.factory) × (count hw.factory ≤ u16_max)
    pub kind : AcceptsKind hw.factory
    pub injection : IsProbability hw.injection.error_probability
    pub routing : AcceptsRouting hw.routing
    pub buffer : (0 < hw.buffer.capacity) × (hw.buffer.preload ≤ hw.buffer.capacity)

  validate_kind-AcceptsKind : (c : FactoryConfig F) → (validate_kind f c ≡ ok tt) ↔ AcceptsKind c
  unfolding validate_kind
  validate_kind-AcceptsKind (FactoryConfig.cultivation n lambda_raw fault_distance) = ground arith
  validate_kind-AcceptsKind (FactoryConfig.distillation n protocol cycles rounds abort) =
      ground arith
  validate_kind-AcceptsKind (FactoryConfig.rz_synthesis n angles mean) = ground arith

  validate_routing-AcceptsRouting :
      (c : RoutingConfig) → (validate_routing f c ≡ ok tt) ↔ AcceptsRouting c
  unfolding validate_routing
  validate_routing-AcceptsRouting (RoutingConfig.scalar overhead) = (λ h. tt, λ h. refl)
  validate_routing-AcceptsRouting (RoutingConfig.manhattan width height hop) = ground arith

  validate_buffer_iff :
      (b : BufferConfig)
      → (validate_buffer f b ≡ ok tt) ↔ ((0 < b.capacity) × (b.preload ≤ b.capacity))
  unfolding validate_buffer
  validate_buffer_iff b = ground arith

  validate_factory_iff :
      (c : FactoryConfig F)
      → (validate_factory f c ≡ ok tt) ↔ ((0 < count c) × (count c ≤ u16_max) × AcceptsKind c)
  unfolding validate_factory
  validate_factory_iff c = ground (arith, validate_kind-AcceptsKind c)

  validate_timing_iff :
      (t : TimingConfig F)
      → (validate_timing f t ≡ ok tt) ↔ (
          (IsPositive t.cycle_time_us)
          × (IsPositive t.measurement_time_us)
          × (lt t.classical_feedback_latency_us f.zero ≡ false)
          × (is_nan t.classical_feedback_latency_us ≡ false))
  unfolding validate_timing
  validate_timing_iff t = ground arith

  validate_qec_iff :
      (q : QecConfig F)
      → (validate_qec f q ≡ ok tt) ↔ (
          (3 ≤ q.code_distance)
          × (q.code_distance % 2 ≡ 1)
          × (IsRate q.physical_error_rate)
          × (IsRate q.error_correction_threshold)
          × (IsPositive q.logical_error_prefactor))
  unfolding validate_qec
  validate_qec_iff q = ground arith

  validate_injection_iff :
      (i : InjectionConfig F)
      → (validate_injection f i ≡ ok tt) ↔ (IsProbability i.error_probability)
  unfolding validate_injection
  validate_injection_iff i = ground arith

  -- `validate` accepts a hardware model exactly when it lies in the domain of the simulator: an odd
  -- code distance of at least 3, rates in (0, 1), a positive prefactor, positive times and a latency
  -- that is no NaN and not negative, 1 to 65535 factories (with a positive `lambda_raw`, an abort
  -- probability in [0, 1], or a positive mean, which may be infinite, and at least one angle), an
  -- injection probability in [0, 1], a grid with hops that cost where there is one, and a buffer
  -- that holds at least one state and the preload.
  pub validate-IsDomainModel : (hw : HardwareModel F) → (validate f hw ≡ ok tt) ↔ IsDomainModel hw
  unfolding validate
  validate-IsDomainModel hw = (
    λ h.
        let (q, h1) = (both (validate_qec f hw.qec) _ tt).0 h in
        let (t, h2) = (both (validate_timing f hw.timing) _ tt).0 h1 in
        let (c, h3) = (both (validate_factory f hw.factory) _ tt).0 h2 in
        let (i, h4) = (both (validate_injection f hw.injection) _ tt).0 h3 in
        let (r, b) = (both (validate_routing f hw.routing) _ tt).0 h4 in
        let (distance, odd, p, e, l) = (validate_qec_iff hw.qec).0 q in
        let (ct, mt, fl, fn) = (validate_timing_iff hw.timing).0 t in
        let (some_factory, few, kind) = (validate_factory_iff hw.factory).0 c in
        record {
          distance = (distance, odd);
          rates = (p, e, l);
          times = (ct, mt);
          latency = (fl, fn);
          factories = (some_factory, few);
          kind = kind;
          injection = (validate_injection_iff hw.injection).0 i;
          routing = (validate_routing-AcceptsRouting hw.routing).0 r;
          buffer = (validate_buffer_iff hw.buffer).0 b;
        },
    λ d.
        let q =
          (validate_qec_iff hw.qec).1
            (d.distance.0, d.distance.1, d.rates.0, d.rates.1, d.rates.2) in
        let t =
          (validate_timing_iff hw.timing).1 (d.times.0, d.times.1, d.latency.0, d.latency.1) in
        let c = (validate_factory_iff hw.factory).1 (d.factories.0, d.factories.1, d.kind) in
        let i = (validate_injection_iff hw.injection).1 d.injection in
        let r = (validate_routing-AcceptsRouting hw.routing).1 d.routing in
        let b = (validate_buffer_iff hw.buffer).1 d.buffer in
        (both (validate_qec f hw.qec) _ tt).1 (
          q,
          (both (validate_timing f hw.timing) _ tt).1 (
            t,
            (both (validate_factory f hw.factory) _ tt).1 (
              c,
              (both (validate_injection f hw.injection) _ tt).1
                  (i, (both (validate_routing f hw.routing) _ tt).1 (r, b)),
            ),
          ),
        ),
  )
