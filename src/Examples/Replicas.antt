-- ===== src/Examples/Replicas.antt =====
-- A Monte Carlo run on the small circuit (crates/pirx-core/src/monte_carlo.rs).
use pirx.Common.{ℕ, ◌+◌, ◌-◌, ◌*◌, ◌/◌, ◌≡◌, refl, [], ◌∷◌, some, none, ltb, arith, ok}
use pirx.MonteCarlo.{
  FloatStats, MonteCarloConfig, MonteCarloResult, extract_summary, run_monte_carlo, percentile,
  sort_values, insert_value,
}
use pirx.Engine.Construct.{lacks_positions}
use pirx.MonteCarlo.Summary.{Summarises, extract_summary-Summarises}
use pirx.MonteCarlo.Replicas.{IsResult, validated-run_monte_carlo}
use pirx.Examples.{counting_world, small_circuit}
use pirx.Examples.Queues.{percents}
use pirx.Examples.Circuits.{validate-small, simulated_model, validate-simulated}
use pirx.Examples.Profiles.{waiting_trace}

-- Whole numbers for floats.
abbrev whole_stats : FloatStats ℕ
whole_stats = record {
  zero = 0;
  from_u64 = λ n. n;
  add = λ a b. a + b;
  sub = λ a b. a - b;
  mul = λ a b. a * b;
  div = λ a b. a / b;
  sqrt = λ a. a;
  lt = ltb;
  round_usize = λ n. n / 100;
  hundredths = λ n. n;
}

abbrev two_replicas : MonteCarloConfig
two_replicas = record { replicas = 2; base_seed = 5; max_cycles = some 200; threads = some 4 }

percentile-sorted : percentile whole_stats (sort_values whole_stats (3 ∷ 1 ∷ 2 ∷ [])) 50 ≡ 2
unfolding percentile sort_values insert_value
percentile-sorted = refl

validated-run_monte_carlo_example :
    (fuel : ℕ) × (r : MonteCarloResult ℕ) × (run_monte_carlo counting_world whole_stats 0
        small_circuit simulated_model 201 fuel
        (λ n. none)
        two_replicas
      ≡ some (ok r))
    × IsResult counting_world whole_stats 0 small_circuit simulated_model two_replicas 201 fuel r
unfolding lacks_positions
validated-run_monte_carlo_example =
    validated-run_monte_carlo counting_world whole_stats percents 0 small_circuit simulated_model
      two_replicas 200 (λ n. none) validate-small validate-simulated refl (omega arith)
      (omega arith) refl (omega arith) tt (omega arith, omega arith) (omega arith) refl
      (omega arith)

extract_summary-Summarises_example :
    Summarises whole_stats waiting_trace 1 (extract_summary whole_stats waiting_trace 5 1)
extract_summary-Summarises_example = extract_summary-Summarises whole_stats waiting_trace 5 1
