-- ===== src/Sensitivity/Mutation.antt =====
-- What the validation of a parameter space (crates/pirx-sensitivity/src/parameter.rs) is good for: its
-- parameters can be applied to the model (mutate.rs).
use pirx.Common.{
  ℕ, ◌≡◌, ◌⊎◌, inl, inr, refl, sym, ap, ◌∙◌, true, List, [], ◌∷◌, arith, ◌==◌, All, All-map, length,
  Result-cases, ok, err, ◌>>=◌, >>=-eq-ok, >>=_ok, check_each_iff,
}
use pirx.Hw.{HardwareModel, FactoryConfig, RoutingConfig}
use pirx.Hw.Validate.{FloatTests}
use pirx.Hw.Validate as HwValidate
use pirx.Sensitivity.{
  Name, ParameterDef, ParameterSpace, FloatRounding, Outcome, is_cultivation, is_distillation,
  is_rz_synthesis, is_scalar, check_against_hw, validate_internal, validate, with_count,
  apply_factory, apply_routing, apply_single, validated, apply_all, mutate_hw_multi,
  hardware_validation,
}

-- The kinds of the factory and of the routing are the same.
record SameKinds {F : Type 0} (hw hw' : HardwareModel F) : Type 0 where
  cultivates : is_cultivation hw'.factory ≡ is_cultivation hw.factory
  distills : is_distillation hw'.factory ≡ is_distillation hw.factory
  synthesizes : is_rz_synthesis hw'.factory ≡ is_rz_synthesis hw.factory
  routes : is_scalar hw'.routing ≡ is_scalar hw.routing

record SameFactory {F : Type 0} (fc fc' : FactoryConfig F) : Type 0 where
  cultivates : is_cultivation fc' ≡ is_cultivation fc
  distills : is_distillation fc' ≡ is_distillation fc
  synthesizes : is_rz_synthesis fc' ≡ is_rz_synthesis fc

with_count-SameFactory :
    {F : Type 0} (f : FloatTests F) (g : FloatRounding F) (n : ℕ) (fc : FactoryConfig F)
    → SameFactory fc (with_count f g n fc)
with_count-SameFactory f g n (FactoryConfig.distillation m protocol c r a) = record {
  cultivates = refl;
  distills = refl;
  synthesizes = refl;
}
with_count-SameFactory f g n (FactoryConfig.cultivation m l d) = record {
  cultivates = refl;
  distills = refl;
  synthesizes = refl;
}
with_count-SameFactory f g n (FactoryConfig.rz_synthesis m a mean) = record {
  cultivates = refl;
  distills = refl;
  synthesizes = refl;
}

module _ {F : Type 0} (f : FloatTests F) (g : FloatRounding F) where
  -- What the parameter `name` becomes for a factory of its kind.
  record FactoryApplied (fc : FactoryConfig F) (name : Name) (value : F) : Type 0 where
    result : FactoryConfig F
    applied : apply_factory f g fc name value ≡ ok result
    same : SameFactory fc result

  -- The kind of factory that a parameter asks for.
  abbrev Fits : FactoryConfig F → Name → Type 0
  Fits fc Name.lambda_raw = is_cultivation fc ≡ true
  Fits fc Name.fault_distance = is_cultivation fc ≡ true
  Fits fc Name.cycles_per_round = is_distillation fc ≡ true
  Fits fc Name.rounds = is_distillation fc ≡ true
  Fits fc Name.abort_probability = is_distillation fc ≡ true
  Fits fc Name.mean_cycles_per_state = is_rz_synthesis fc ≡ true
  Fits fc Name.distinct_angles = is_rz_synthesis fc ≡ true
  Fits fc name = Unit

  apply_factory-FactoryApplied :
      (fc : FactoryConfig F) (name : Name) (value : F) → Fits fc name → FactoryApplied fc name value
  unfolding apply_factory
  apply_factory-FactoryApplied (FactoryConfig.cultivation n l d) Name.cycles_per_round value h =
      absurd (ground arith)
  apply_factory-FactoryApplied (FactoryConfig.cultivation n l d) Name.rounds value h =
      absurd (ground arith)
  apply_factory-FactoryApplied (FactoryConfig.cultivation n l d) Name.abort_probability value h =
      absurd (ground arith)
  apply_factory-FactoryApplied (FactoryConfig.cultivation n l d) Name.mean_cycles_per_state value
        h =
      absurd (ground arith)
  apply_factory-FactoryApplied (FactoryConfig.cultivation n l d) Name.distinct_angles value h =
      absurd (ground arith)
  apply_factory-FactoryApplied (FactoryConfig.cultivation n l d) name value h = record {
    result = _;
    applied = refl;
    same = record { cultivates = refl; distills = refl; synthesizes = refl };
  }
  apply_factory-FactoryApplied (FactoryConfig.distillation n protocol c r a) Name.lambda_raw value
        h =
      absurd (ground arith)
  apply_factory-FactoryApplied (FactoryConfig.distillation n protocol c r a) Name.fault_distance
        value h =
      absurd (ground arith)
  apply_factory-FactoryApplied (FactoryConfig.distillation n protocol c r a)
        Name.mean_cycles_per_state value h =
      absurd (ground arith)
  apply_factory-FactoryApplied (FactoryConfig.distillation n protocol c r a) Name.distinct_angles
        value h =
      absurd (ground arith)
  apply_factory-FactoryApplied (FactoryConfig.distillation n protocol c r a) name value h = record {
    result = _;
    applied = refl;
    same = record { cultivates = refl; distills = refl; synthesizes = refl };
  }
  apply_factory-FactoryApplied (FactoryConfig.rz_synthesis n a m) Name.lambda_raw value h =
      absurd (ground arith)
  apply_factory-FactoryApplied (FactoryConfig.rz_synthesis n a m) Name.fault_distance value h =
      absurd (ground arith)
  apply_factory-FactoryApplied (FactoryConfig.rz_synthesis n a m) Name.cycles_per_round value h =
      absurd (ground arith)
  apply_factory-FactoryApplied (FactoryConfig.rz_synthesis n a m) Name.rounds value h =
      absurd (ground arith)
  apply_factory-FactoryApplied (FactoryConfig.rz_synthesis n a m) Name.abort_probability value h =
      absurd (ground arith)
  apply_factory-FactoryApplied (FactoryConfig.rz_synthesis n a m) name value h = record {
    result = _;
    applied = refl;
    same = record { cultivates = refl; distills = refl; synthesizes = refl };
  }

  -- The parameter `name` is applied, and the kinds stay.
  record Applied (hw : HardwareModel F) (name : Name) (value : F) : Type 0 where
    result : HardwareModel F
    applied : apply_single f g hw name value ≡ ok result
    same : SameKinds hw result

  by_factory :
      (hw : HardwareModel F) (name : Name) (value : F)
      → apply_single f g hw name value ≡ (
          apply_factory f g hw.factory name value >>= λ factory.
          ok (record hw { factory = factory }))
      → FactoryApplied hw.factory name value
      → Applied hw name value
  by_factory hw name value e a = record {
    result = record hw { factory = a.result };
    applied = e ∙ >>=_ok (apply_factory f g hw.factory name value) _ a.applied;
    same = record {
      cultivates = a.same.cultivates;
      distills = a.same.distills;
      synthesizes = a.same.synthesizes;
      routes = refl;
    };
  }

  at_once :
      (hw hw' : HardwareModel F) (name : Name) (value : F)
      → apply_single f g hw name value ≡ ok hw'
      → hw'.factory ≡ hw.factory
      → hw'.routing ≡ hw.routing
      → Applied hw name value
  at_once hw hw' name value e same_factory same_routing = record {
    result = hw';
    applied = e;
    same = record {
      cultivates = ap is_cultivation same_factory;
      distills = ap is_distillation same_factory;
      synthesizes = ap is_rz_synthesis same_factory;
      routes = ap is_scalar same_routing;
    };
  }

  scalar_cases :
      (r : RoutingConfig)
      → is_scalar r ≡ true
      → (overhead : ℕ) × (r ≡ RoutingConfig.scalar overhead)
  scalar_cases (RoutingConfig.scalar overhead) h = (overhead, refl)
  scalar_cases (RoutingConfig.manhattan w l c) h = cc

  by_routing :
      (hw : HardwareModel F) (value : F)
      → is_scalar hw.routing ≡ true
      → Applied hw Name.overhead_cycles value
  unfolding apply_single apply_routing
  by_routing hw value h =
      let (overhead, e) = scalar_cases hw.routing h in
      record {
        result = record hw { routing = RoutingConfig.scalar (g.round_u32 value) };
        applied = rw (e, apply_single) refl;
        same = record { cultivates = refl; distills = refl; synthesizes = refl; routes = sym h };
      }

  -- What the check of a parameter against the model tells of its factory and its routing.
  checked-Fits :
      (hw : HardwareModel F) (p : ParameterDef F) (name : Name)
      → check_against_hw f g hw (record p { name = name }) ≡ ok tt
      → Fits hw.factory name
  unfolding check_against_hw
  checked-Fits hw p Name.lambda_raw h = ground arith
  checked-Fits hw p Name.fault_distance h = ground arith
  checked-Fits hw p Name.cycles_per_round h = ground arith
  checked-Fits hw p Name.rounds h = ground arith
  checked-Fits hw p Name.abort_probability h = ground arith
  checked-Fits hw p Name.mean_cycles_per_state h = ground arith
  checked-Fits hw p Name.distinct_angles h = ground arith
  checked-Fits hw p name h = tt

  checked_scalar :
      (hw : HardwareModel F) (p : ParameterDef F)
      → check_against_hw f g hw (record p { name = Name.overhead_cycles }) ≡ ok tt
      → is_scalar hw.routing ≡ true
  unfolding check_against_hw
  checked_scalar hw p h = ground arith

  apply_single-Applied :
      (hw : HardwareModel F) (p : ParameterDef F) (name : Name) (value : F)
      → check_against_hw f g hw (record p { name = name }) ≡ ok tt
      → Applied hw name value
  unfolding apply_single check_against_hw
  apply_single-Applied hw p Name.factory_count value h =
      let s = with_count-SameFactory f g (g.round_u32 value) hw.factory in
      record {
        result = _;
        applied = refl;
        same = record {
          cultivates = s.cultivates;
          distills = s.distills;
          synthesizes = s.synthesizes;
          routes = refl;
        };
      }
  apply_single-Applied hw p (Name.other s) value h = cc
  apply_single-Applied hw p Name.overhead_cycles value h =
      by_routing hw value (checked_scalar hw p h)
  apply_single-Applied hw p Name.lambda_raw value h = by_factory hw Name.lambda_raw value refl (
      apply_factory-FactoryApplied hw.factory Name.lambda_raw value
        (checked-Fits hw p Name.lambda_raw h))
  apply_single-Applied hw p Name.fault_distance value h =
      by_factory hw Name.fault_distance value refl (
        apply_factory-FactoryApplied hw.factory Name.fault_distance value
          (checked-Fits hw p Name.fault_distance h))
  apply_single-Applied hw p Name.cycles_per_round value h =
      by_factory hw Name.cycles_per_round value refl (
        apply_factory-FactoryApplied hw.factory Name.cycles_per_round value
          (checked-Fits hw p Name.cycles_per_round h))
  apply_single-Applied hw p Name.rounds value h =
      by_factory hw Name.rounds value refl (
        apply_factory-FactoryApplied hw.factory Name.rounds value (checked-Fits hw p Name.rounds h))
  apply_single-Applied hw p Name.abort_probability value h =
      by_factory hw Name.abort_probability value refl (
        apply_factory-FactoryApplied hw.factory Name.abort_probability value
          (checked-Fits hw p Name.abort_probability h))
  apply_single-Applied hw p Name.mean_cycles_per_state value h =
      by_factory hw Name.mean_cycles_per_state value refl (
        apply_factory-FactoryApplied hw.factory Name.mean_cycles_per_state value
          (checked-Fits hw p Name.mean_cycles_per_state h))
  apply_single-Applied hw p Name.distinct_angles value h =
      by_factory hw Name.distinct_angles value refl (
        apply_factory-FactoryApplied hw.factory Name.distinct_angles value
          (checked-Fits hw p Name.distinct_angles h))
  apply_single-Applied hw p name value h = at_once hw _ _ value refl refl refl

  -- The check of a parameter depends on the kinds of factory and routing alone.
  check-SameKinds :
      (hw hw' : HardwareModel F) (p : ParameterDef F)
      → SameKinds hw hw'
      → check_against_hw f g hw p ≡ ok tt
      → check_against_hw f g hw' p ≡ ok tt
  unfolding check_against_hw
  check-SameKinds hw hw' p s h = rw (s.cultivates, s.distills, s.synthesizes, s.routes) h

  apply_all-ok :
      (hw : HardwareModel F) (ps : List (ParameterDef F)) (vs : List F)
      → All (λ p. check_against_hw f g hw p ≡ ok tt) ps
      → (hw' : HardwareModel F) × (apply_all f g hw ps vs ≡ ok hw')
  unfolding apply_all
  apply_all-ok hw [] vs h = (hw, refl)
  apply_all-ok hw (p ∷ ps) [] h = (hw, refl)
  apply_all-ok hw (p ∷ ps) (v ∷ vs) h =
      let a = apply_single-Applied hw p p.name v h.0 in
      let (hw', e) = apply_all-ok a.result ps vs (
        All-map (λ q. check_against_hw f g hw q ≡ ok tt)
          (λ q. check_against_hw f g a.result q ≡ ok tt) (λ q. check-SameKinds hw a.result q a.same)
          ps h.1) in
      (hw', >>=_ok (apply_single f g hw p.name v) _ a.applied ∙ e)

  -- The result of a mutation: a model that the validation accepts, or its error.
  abbrev pub IsMutation : Outcome F (HardwareModel F) → Type 0
  IsMutation r =
      ((hw : HardwareModel F) × (r ≡ ok hw) × (HwValidate.validate f hw ≡ ok tt))
      ⊎ ((e : HwValidate.HardwareModelError F) × (r ≡ err (hardware_validation e)))

  validated-IsMutation : (hw : HardwareModel F) → IsMutation (validated f g hw)
  unfolding validated
  validated-IsMutation hw = elim (Result-cases (HwValidate.validate f hw)) [
    | inl (u, good) ↦ inl (hw, rw (good, validated) refl, good)
    | inr (e, bad) ↦ inr (e, rw (bad, validated) refl)
  ]

  -- For a parameter space that the validation accepts for the base model, and as many values as
  -- parameters, the mutation returns a model that the validation of hardware models accepts, or fails
  -- with an error of that validation, never with one of a parameter.
  pub validate-mutate_hw_multi :
      (base : HardwareModel F) (space : ParameterSpace F) (values : List F)
      → validate f g space base ≡ ok tt
      → length values ≡ length space.params
      → IsMutation (mutate_hw_multi f g base space values)
  unfolding validate mutate_hw_multi
  validate-mutate_hw_multi base space values h size =
      let (u, good, each) = >>=-eq-ok (validate_internal f g space) _ h in
      let checks =
        (check_each_iff (λ p. check_against_hw f g base p ≡ ok tt) (check_against_hw f g base)
            (λ p. (λ e. e, λ e. e)) space.params).0
          each in
      let (hw, applied) = apply_all-ok base space.params values checks in
      let same : (length values == length space.params) ≡ true = ground arith in
      rw (same, applied) (validated-IsMutation hw)
