-- ===== src/Plan/Tests.antt =====
-- Tests of the plan's model, and the witnesses of its theorems. Floats are whole hundredths.
use zenbench.Prelude.{
  ℕ, ◌*◌, ◌≡◌, refl, true, Option, none, some, List, [], ◌∷◌, ok, err, list_eq, if◌then◌else◌, ◌↔◌,
}
use zenbench.Prelude.Float.{whole}
use zenbench.Prelude.Text.{Text, codes, parse_usize}
use zenbench.Plan.{
  BenchmarkMode, BenchmarkPlan, PlanError, default_plan, validate, validate_confirmation,
}
use zenbench.Plan.Valid.{IsValid, validate_iff}
use zenbench.Plan.Options.{
  HarnessError, is_valued, normalize_harness_args, validate_harness_args, option_of, valued_options,
  check_option, check_argument, check_arguments, check_combinations,
}
use zenbench.Plan.Normalized.{IsCanonical, normalize-joined, normalize_harness_args-IsCanonical}
use zenbench.Plan.Harness.{IsHarness, validate_harness_args_sound}
use zenbench.Plan.Resolve.{
  resolve, from_processes, from_rounds, from_margin, from_confidence, from_workload, from_scope,
  from_timeout, finish_plan, settle_processes, set_from, value_of, parse_mode, Environment,
}
use zenbench.Plan.Resolved.{IsResolved, resolve_exact}

abbrev whole_float : Text → Option ℕ
whole_float text = elim (parse_usize text) [ none ↦ none | some n ↦ some (n * 100) ]

abbrev confirmation : BenchmarkPlan whole
confirmation = record (default_plan whole) {
  mode = BenchmarkMode.confirm;
  rounds = some 30;
  workload_id = some (codes "v1");
}

confirms : validate confirmation ≡ ok tt
unfolding validate validate_confirmation
confirms = refl

needs_workload :
    validate (record confirmation { workload_id = some (codes " ") }) ≡ err PlanError.no_workload
unfolding validate validate_confirmation
needs_workload = refl

needs_whole_seconds :
    validate (record confirmation { timeout = 1_500_000_000 }) ≡ err PlanError.fractional_timeout
unfolding validate validate_confirmation
needs_whole_seconds = refl

validate_iff_example : (validate confirmation ≡ ok tt) ↔ IsValid confirmation
validate_iff_example = validate_iff confirmation

abbrev command : List Text
command =
    codes "--mode"
    ∷ codes "confirm"
    ∷ codes "--workload-id=v1"
    ∷ codes "--rounds=30"
    ∷ codes "--bench"
    ∷ []

abbrev normal_command : List Text
normal_command =
    codes "--mode=confirm" ∷ codes "--workload-id=v1" ∷ codes "--rounds=30" ∷ codes "--bench" ∷ []

normalizes : normalize_harness_args command ≡ ok normal_command
unfolding normalize_harness_args is_valued valued_options
normalizes = refl

normalize_harness_args-IsCanonical_example : IsCanonical normal_command
normalize_harness_args-IsCanonical_example =
    normalize_harness_args-IsCanonical command normal_command normalizes

is_valued_mode : is_valued (codes "--mode") ≡ true
unfolding is_valued valued_options
is_valued_mode = refl

normalize-joined_example :
    normalize_harness_args (codes "--mode" ∷ codes "confirm" ∷ [])
    ≡ normalize_harness_args (codes "--mode=confirm" ∷ [])
normalize-joined_example =
    normalize-joined (codes "--mode") (codes "confirm") [] is_valued_mode refl

validates : validate_harness_args whole whole_float command ≡ ok tt
unfolding validate_harness_args normalize_harness_args is_valued valued_options check_arguments
    check_argument check_option option_of check_combinations
validates = refl

validate_harness_args_sound_example :
    (normalized : List Text) × (normalize_harness_args command ≡ ok normalized)
    × IsHarness whole whole_float normalized
validate_harness_args_sound_example =
    validate_harness_args_sound whole whole_float command validates

refuses_both_baselines :
    validate_harness_args whole whole_float (codes "--baseline=a" ∷ codes "--save-baseline=a" ∷ [])
    ≡ err HarnessError.baseline_replaced
unfolding validate_harness_args normalize_harness_args is_valued valued_options check_arguments
    check_argument check_option option_of check_combinations
refuses_both_baselines = refl

refuses_lone_update :
    validate_harness_args whole whole_float (codes "--update-on-pass" ∷ [])
    ≡ err HarnessError.update_needs_baseline
unfolding validate_harness_args normalize_harness_args is_valued valued_options check_arguments
    check_argument check_option option_of check_combinations
refuses_lone_update = refl

abbrev environment : Environment
environment var = if list_eq var (codes "ZENBENCH_ROUNDS") then some (codes "12") else none

abbrev resolved : BenchmarkPlan whole
resolved = record confirmation { processes = 5 }

resolves : resolve whole whole_float normal_command environment (default_plan whole) ≡ ok resolved
unfolding resolve from_processes from_rounds from_margin from_confidence from_workload from_scope
    from_timeout finish_plan settle_processes set_from value_of parse_mode validate
    validate_confirmation
resolves = refl

resolve_exact_example :
    IsValid resolved
    × IsResolved whole whole_float normal_command environment (default_plan whole) resolved
resolve_exact_example =
    resolve_exact whole whole_float normal_command environment (default_plan whole) resolved
      resolves
