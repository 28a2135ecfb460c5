-- ===== src/Plan/Options.antt =====
-- src/plan.rs: the benchmark's command line, `normalize_harness_args` and `validate_harness_args`.
-- The parser of `f64` is the standard library's and comes as an argument.
use zenbench.Prelude.{
  ℕ, Bool, true, false, Option, none, some, List, [], ◌∷◌, ◌++◌, if◌then◌else◌, not, ◌&&◌, ◌||◌,
  Result, ok, err, ◌>>=◌, ◌>>◌, fail_if, list_eq, any, ◌==◌,
}
use zenbench.Prelude.Float.{Float}
use zenbench.Prelude.Text.{
  Text, codes, starts_with, ends_with, has, strip_prefix, split_once, is_empty, listed, parse_usize,
}

-- `VALUED_OPTIONS`
unfoldable pub valued_options : List Text
valued_options =
    codes "mode"
    ∷ codes "processes"
    ∷ codes "rounds"
    ∷ codes "margin"
    ∷ codes "confidence"
    ∷ codes "workload-id"
    ∷ codes "scope"
    ∷ codes "timeout"
    ∷ codes "group"
    ∷ codes "format"
    ∷ codes "save-baseline"
    ∷ codes "baseline"
    ∷ codes "max-regression"
    ∷ codes "best-of-passes"
    ∷ codes "mean-of-passes"
    ∷ codes "median-of-passes"
    ∷ codes "best-of-processes"
    ∷ codes "mean-of-processes"
    ∷ codes "median-of-processes"
    ∷ codes "cpu-policy"
    ∷ codes "cpu-set"
    ∷ []

pub data HarnessError : Type 0 where
  needs_value : Text → HarnessError
  unknown_argument : Text → HarnessError
  unknown_or_empty_option : Text → HarnessError
  duplicate_option : Text → HarnessError
  invalid_repetition : Text → HarnessError
  unknown_format : Text → HarnessError
  regression_range : HarnessError
  baseline_replaced : HarnessError
  update_needs_baseline : HarnessError
  regression_needs_baseline : HarnessError
  processes_conflict : HarnessError

abbrev pub is_valued_name : Option Text → Bool
is_valued_name none = false
is_valued_name (some name) = listed valued_options name

-- `--name`, for an option that takes a value
unfoldable pub is_valued : Text → Bool
is_valued arg = is_valued_name (strip_prefix arg (codes "--"))

-- `value.is_empty() || value.starts_with("--")`
abbrev pub is_no_value : Text → Bool
is_no_value value = is_empty value || starts_with value (codes "--")

-- `format!("{arg}={value}")`
abbrev pub joined : Text → Text → Text
joined arg value = arg ++ (b'=' ∷ value)

-- `normalize_harness_args`
unfoldable pub normalize_harness_args : List Text → Result HarnessError (List Text)
normalize_harness_args [] = ok []
normalize_harness_args (arg ∷ []) =
    if is_valued arg then err (HarnessError.needs_value arg) else ok (arg ∷ [])
normalize_harness_args (arg ∷ value ∷ args) = elim (is_valued arg) [
  | true ↦
      if is_no_value value
      then err (HarnessError.needs_value arg)
      else normalize_harness_args args >>= λ normalized. ok (joined arg value ∷ normalized)
  | false ↦ normalize_harness_args (value ∷ args) >>= λ normalized. ok (arg ∷ normalized)
]

abbrev pub bare_flags : List Text
bare_flags =
    codes "--bench" ∷ codes "--no-busy-gate" ∷ codes "--update-on-pass" ∷ codes "--dry-run" ∷ []

abbrev pub formats : List Text
formats =
    codes "llm" ∷ codes "csv" ∷ codes "md" ∷ codes "markdown" ∷ codes "json" ∷ codes "html" ∷ []

-- `arg.strip_prefix("--").and_then(|s| s.split_once('='))`
unfoldable pub option_of : Text → Option (Text × Text)
option_of arg = elim (strip_prefix arg (codes "--")) [
  | none ↦ none
  | some rest ↦ split_once b'=' rest
]

-- a count that parses and is not zero
abbrev pub is_count : Option ℕ → Bool
is_count none = false
is_count (some n) = not (n == 0)

-- the tests of combinations at the end of `validate_harness_args`
unfoldable pub check_combinations : List Text → List Text → Result HarnessError (Unit {0})
check_combinations args seen = do
  fail_if (listed seen (codes "save-baseline") && listed seen (codes "baseline"))
      HarnessError.baseline_replaced
  fail_if (listed args (codes "--update-on-pass") && not (listed seen (codes "baseline")))
      HarnessError.update_needs_baseline
  fail_if (listed seen (codes "max-regression") && not (listed seen (codes "baseline")))
      HarnessError.regression_needs_baseline
  fail_if
      (listed seen (codes "processes") && any (λ name. ends_with name (codes "-of-processes")) seen)
      HarnessError.processes_conflict

-- the range of `max-regression`
abbrev pub is_regression : (f : Float) → Option f.F → Bool
is_regression f none = false
is_regression f (some v) =
    f.is_finite v && (f.fle (f.hundredths 0) v && f.flt v (f.hundredths 10_000))

module _ (f : Float) (parse_float : Text → Option f.F) where
  -- the tests of one option in the loop of `validate_harness_args`
  unfoldable pub check_option : List Text → Text → Text → Text → Result HarnessError (List Text)
  unfolding valued_options
  check_option seen arg name value = do
    fail_if (not (listed valued_options name) || is_empty value)
        (HarnessError.unknown_or_empty_option arg)
    fail_if (listed seen name) (HarnessError.duplicate_option name)
    fail_if (has name (codes "-of-") && not (is_count (parse_usize value)))
        (HarnessError.invalid_repetition arg)
    fail_if (list_eq name (codes "format") && not (listed formats value))
        (HarnessError.unknown_format value)
    fail_if (list_eq name (codes "max-regression") && not (is_regression f (parse_float value)))
        HarnessError.regression_range
    ok (name ∷ seen)

  -- the loop's body, at one argument
  unfoldable pub check_argument : List Text → Text → Result HarnessError (List Text)
  unfolding check_option option_of
  check_argument seen arg = if listed bare_flags arg then ok seen else elim (option_of arg) [
    | none ↦ err (HarnessError.unknown_argument arg)
    | some (name, value) ↦ check_option seen arg name value
  ]

  -- the loop of `validate_harness_args`, which returns the options that it saw
  unfoldable pub check_arguments : List Text → List Text → Result HarnessError (List Text)
  unfolding check_argument
  check_arguments seen [] = ok seen
  check_arguments seen (arg ∷ args) = check_argument seen arg >>= λ s. check_arguments s args

  -- `validate_harness_args`
  unfoldable pub validate_harness_args : List Text → Result HarnessError (Unit {0})
  unfolding normalize_harness_args check_arguments check_combinations
  validate_harness_args args = do
    normalized ← normalize_harness_args args
    seen ← check_arguments [] normalized
    check_combinations normalized seen
