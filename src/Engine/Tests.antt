-- ===== src/Engine/Tests.antt =====
-- Tests of the engine's arithmetic, and the witnesses of its theorems.
use zenbench.Prelude.{ℕ, ◌+◌, ◌*◌, ◌≤◌, ◌≡◌, refl, [], ◌∷◌, length, if◌then◌else◌, ltb, arith}
use zenbench.Prelude.Counts.{occurrences}
use zenbench.Engine.Estimate.{
  EstimateConfig, estimate_iterations, estimate_rounds, new_iterations, wanted_iterations,
  new_iterations-wanted, IsEstimate, estimate_iterations-IsEstimate,
}
use zenbench.Engine.Shuffle.{shuffle, random_permutation, random_permutation-IsPermutation}
use zenbench.Engine.Dates.{timestamp, is_leap, count_years, month_days, count_months}
use zenbench.Engine.Timestamp.{IsTimestamp, timestamp-IsTimestamp}

-- One millisecond a sample, as the defaults of a group have it.
abbrev config : EstimateConfig
config = record {
  sample_target_ns = 1_000_000;
  min_sample_ns = 5_000_000;
  min_iterations = 1;
  max_iterations = 10_000_000;
}

-- A benchmark of 400 ns an iteration.
abbrev bench : ℕ → ℕ → ℕ
bench round iters = 400 * iters

estimates : estimate_iterations config 25 bench ≡ (2_500, 400)
unfolding estimate_iterations estimate_rounds new_iterations
estimates = refl

new_iterations-wanted_example : new_iterations config 25 400 ≡ wanted_iterations config 25 400
new_iterations-wanted_example = new_iterations-wanted config 25 400 (omega arith)

estimate_iterations-IsEstimate_example :
    let (iterations, cold_start_ns) = estimate_iterations config 25 bench in
    IsEstimate config 25 bench 5 iterations
    × (1 ≤ iterations)
    × (iterations ≤ 10_000_000)
    × (cold_start_ns ≡ 400)
estimate_iterations-IsEstimate_example =
    estimate_iterations-IsEstimate config 25 bench (omega arith) (omega arith)

abbrev counting : ℕ → ℕ × ℕ
counting n = (n * 7, n + 1)

shuffles : random_permutation counting 4 3 ≡ (0 ∷ 2 ∷ 3 ∷ 1 ∷ [], 6)
unfolding random_permutation shuffle
shuffles = refl

random_permutation-IsPermutation_example :
    (length ((random_permutation counting 4 3).0) ≡ 4)
    × ((x : ℕ) → occurrences x ((random_permutation counting 4 3).0) ≡ (if ltb x 4 then 1 else 0))
random_permutation-IsPermutation_example = random_permutation-IsPermutation counting 4 3

leap_day :
    timestamp 951_827_696
    ≡ record { year = 2000; month = 2; day = 29; hours = 12; minutes = 34; seconds = 56 }
unfolding timestamp count_years count_months month_days is_leap
leap_day = refl

timestamp-IsTimestamp_example : IsTimestamp 86_399 (timestamp 86_399)
timestamp-IsTimestamp_example = timestamp-IsTimestamp 86_399
