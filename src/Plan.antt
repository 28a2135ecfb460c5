-- ===== src/Plan.antt =====
-- src/plan.rs: the measurement plan and its validation. `Options` has the command line, `Resolve`
-- the plan that the command line and the environment make, `Valid` what validation decides.
-- A duration is a number of nanoseconds, a text the list of its code points.
pub mod Options
pub mod Accepted
pub mod Harness
pub mod Normalized
pub mod Resolve
pub mod Valid
pub mod Given
pub mod Known
pub mod Fields
pub mod Resolved
mod Tests
use zenbench.Prelude.{
  ℕ, ◌+◌, ◌*◌, ◌%◌, ◌^◌, Bool, true, false, Option, none, some, List, [], ◌∷◌, if◌then◌else◌, ltb,
  ◌==◌, not, ◌&&◌, ◌||◌, Result, ok, err, ◌>>=◌, ◌>>◌, fail_if,
}
use zenbench.Prelude.Float.{Float}
use zenbench.Prelude.Text.{Text, trim, is_empty}

pub data BenchmarkMode : Type 0 where
  iterate confirm evidence : BenchmarkMode

-- `struct BenchmarkPlan`
pub record BenchmarkPlan (f : Float) : Type 0 where
  pub mode : BenchmarkMode
  pub processes : ℕ
  pub rounds : Option ℕ
  pub margin_pct : f.F
  pub confidence : f.F
  pub workload_id : Option Text
  pub scope : Option Text
  pub timeout : ℕ

abbrev pub nanos_per_second : ℕ
nanos_per_second = 1_000_000_000

-- `impl Default for BenchmarkPlan`
abbrev pub default_plan : (f : Float) → BenchmarkPlan f
default_plan f = record {
  mode = BenchmarkMode.iterate;
  processes = 5;
  rounds = none;
  margin_pct = f.hundredths 100;
  confidence = f.hundredths 95;
  workload_id = none;
  scope = none;
  timeout = 300 * nanos_per_second;
}

pub data PlanError : Type 0 where
  margin_range : PlanError
  confidence_range : PlanError
  not_positive : PlanError
  fractional_timeout : PlanError
  few_rounds : PlanError
  few_processes : PlanError
  no_workload : PlanError
  no_scope : PlanError
  repeated_option : Text → PlanError
  unknown_mode : Text → PlanError
  invalid_value : Text → PlanError
  processes_need_confirmation : PlanError
  legacy_repetitions : PlanError
  invalid_format : PlanError

abbrev pub is_iterate : BenchmarkMode → Bool
is_iterate BenchmarkMode.iterate = true
is_iterate _ = false

abbrev pub is_evidence : BenchmarkMode → Bool
is_evidence BenchmarkMode.evidence = true
is_evidence _ = false

-- `text.is_none_or(|s| s.trim().is_empty())`
abbrev pub is_blank : Option Text → Bool
is_blank none = true
is_blank (some text) = is_empty (trim text)

-- `rounds == Some(0)` and `rounds.is_some_and(|n| n < 2)`
abbrev pub is_zero : Option ℕ → Bool
is_zero none = false
is_zero (some n) = n == 0

abbrev pub is_below_two : Option ℕ → Bool
is_below_two none = false
is_below_two (some n) = ltb n 2

module _ {f : Float} where
  open f use {flt, fle, is_finite, hundredths}

  -- the tests of a plan that confirms
  unfoldable pub validate_confirmation : BenchmarkPlan f → Result PlanError (Unit {0})
  validate_confirmation p = do
    fail_if (is_below_two p.rounds) PlanError.few_rounds
    fail_if (ltb p.processes 3) PlanError.few_processes
    fail_if (is_blank p.workload_id) PlanError.no_workload
    fail_if (is_evidence p.mode && is_blank p.scope) PlanError.no_scope

  -- `BenchmarkPlan::validate`
  unfoldable pub validate : BenchmarkPlan f → Result PlanError (Unit {0})
  unfolding validate_confirmation
  validate p = do
    fail_if
        (not (is_finite p.margin_pct)
          || not (fle (hundredths 0) p.margin_pct && flt p.margin_pct (hundredths 10_000)))
        PlanError.margin_range
    fail_if
        (not (is_finite p.confidence)
          || not (fle (hundredths 50) p.confidence && flt p.confidence (hundredths 100)))
        PlanError.confidence_range
    fail_if (is_zero p.rounds || p.processes == 0 || p.timeout == 0) PlanError.not_positive
    fail_if (not (p.timeout % nanos_per_second == 0)) PlanError.fractional_timeout
    if is_iterate p.mode then ok tt else validate_confirmation p
