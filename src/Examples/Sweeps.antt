-- ===== src/Examples/Sweeps.antt =====
-- A sweep over two parameters (crates/pirx-sensitivity/src/).
use pirx.Common.{ℕ, ◌≡◌, refl, false, [], ◌∷◌, ok, err, ℤ}
use pirx.Sensitivity.{
  Name, ParameterKind, ParameterSpace, FloatRounding, factory_type_mismatch, validate,
  validate_internal, check_params, check_kind, check_against_hw, mutate_hw_multi, mutate_hw,
  apply_single, apply_factory,
}
use pirx.Sensitivity.Mutation.{IsMutation, validate-mutate_hw_multi}
use pirx.Examples.Queues.{percents}
use pirx.Examples.Circuits.{simulated_model}

abbrev whole_rounding : FloatRounding ℕ
whole_rounding = record { round_u32 = λ n. n; as_i64 = ℤ.pos; has_fraction = λ n. false }

abbrev swept : ParameterSpace ℕ
swept = record {
  params =
      record { name = Name.code_distance; min = 3; max = 9; kind = ParameterKind.odd_integer }
      ∷ record { name = Name.rounds; min = 1; max = 6; kind = ParameterKind.integer }
      ∷ [];
}

validate-swept : validate percents whole_rounding swept simulated_model ≡ ok tt
unfolding validate validate_internal check_params check_kind check_against_hw
validate-swept = refl

-- The factory distills.
mutate-lambda_raw :
    mutate_hw percents whole_rounding simulated_model Name.lambda_raw 5
    ≡ err (factory_type_mismatch Name.lambda_raw "cultivation")
unfolding mutate_hw apply_single apply_factory
mutate-lambda_raw = refl

validate-mutate_hw_multi_example :
    IsMutation percents whole_rounding
      (mutate_hw_multi percents whole_rounding simulated_model swept (7 ∷ 4 ∷ []))
validate-mutate_hw_multi_example =
    validate-mutate_hw_multi percents whole_rounding simulated_model swept (7 ∷ 4 ∷ [])
      validate-swept refl
