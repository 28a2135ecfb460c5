-- ===== src/Plan/Resolve.antt =====
-- src/plan.rs: `BenchmarkPlan::resolve`, which lays the command line and the environment over a
-- plan. The arguments are the normalized ones; `env` is `std::env::var(..).ok()`, `parse_float`
-- the standard library's parser of `f64`.
use zenbench.Prelude.{
  ℕ, ◌*◌, Bool, true, false, Option, none, some, List, [], ◌∷◌, ◌++◌, if◌then◌else◌, not, ◌&&◌,
  ◌||◌, Result, ok, err, ◌>>=◌, ◌>>◌, fail_if, list_eq, any, ok_or,
}
use Prim.Native.String.{String}
use zenbench.Prelude.Float.{Float}
use zenbench.Prelude.Text.{Text, codes, starts_with, has, strip_prefix, listed, parse_usize}
use zenbench.Plan.{BenchmarkMode, BenchmarkPlan, PlanError, nanos_per_second, is_iterate, validate}
use zenbench.Plan.Options.{formats}

-- `BenchmarkMode::from_str`
unfoldable pub parse_mode : Text → Result PlanError BenchmarkMode
parse_mode value =
    if list_eq value (codes "iterate")
    then ok BenchmarkMode.iterate
    else if list_eq value (codes "confirm")
    then ok BenchmarkMode.confirm
    else if list_eq value (codes "evidence")
    then ok BenchmarkMode.evidence
    else err (PlanError.unknown_mode value)

-- `BenchmarkMode`'s `Display`
abbrev pub mode_name : BenchmarkMode → Text
mode_name BenchmarkMode.iterate = codes "iterate"
mode_name BenchmarkMode.confirm = codes "confirm"
mode_name BenchmarkMode.evidence = codes "evidence"

abbrev pub Environment : Type 0
Environment = Text → Option Text

-- `args.iter().filter_map(|a| a.strip_prefix(&prefix))`
abbrev pub values_of : Text → List Text → List Text
values_of prefix [] = []
values_of prefix (arg ∷ args) = elim (strip_prefix arg prefix) [
  | none ↦ values_of prefix args
  | some value ↦ value ∷ values_of prefix args
]

-- the prefix `--flag=`
abbrev pub flag_prefix : String → Text
flag_prefix flag = codes "--" ++ (codes flag ++ codes "=")

-- the result of the closure `value` of `resolve`
abbrev pub single_value : String → List Text → Option Text → Result PlanError (Option Text)
single_value flag [] fallback = ok fallback
single_value flag (v ∷ []) fallback = ok (some v)
single_value flag (v ∷ w ∷ vs) fallback = err (PlanError.repeated_option (codes flag))

unfoldable pub value_of : List Text → Environment → String → String → Result PlanError (Option Text)
value_of args env flag var = single_value flag (values_of (flag_prefix flag) args) (env (codes var))

-- `v.parse().map_err(..)`
abbrev pub parsed {ℓ} : {A : Type ℓ} → String → (Text → Option A) → Text → Result PlanError A
parsed what parse text = ok_or (parse text) (PlanError.invalid_value (codes what))

-- the plan's field for a number of rounds, and `Duration::from_secs`
abbrev pub parse_rounds : Text → Option (Option ℕ)
parse_rounds text = elim (parse_usize text) [ none ↦ none | some n ↦ some (some n) ]

abbrev pub parse_seconds : Text → Option ℕ
parse_seconds text = elim (parse_usize text) [ none ↦ none | some n ↦ some (n * nanos_per_second) ]

abbrev pub as_text : Text → Result PlanError (Option Text)
as_text text = ok (some text)

module _ {ℓ κ} {A : Type ℓ} {P : Type κ} where
  -- one `if let Some(v) = value(..)? { self.field = v.parse()? }`
  unfoldable pub set_from :
      Result PlanError (Option Text)
      → (Text → Result PlanError A)
      → (A → P → P)
      → P
      → Result PlanError P
  set_from given parse put p =
      given >>= λ o. elim o [ none ↦ ok p | some text ↦ parse text >>= λ a. ok (put a p) ]

-- whether some argument repeats processes in the older way
abbrev pub has_legacy_processes : List Text → Bool
has_legacy_processes args = any (λ a. has a (codes "-of-processes=")) args

abbrev pub has_legacy_repetitions : List Text → Bool
has_legacy_repetitions args =
    any (λ a. has a (codes "-of-passes=") || has a (codes "-of-processes=")) args

abbrev pub is_some {ℓ} : {A : Type ℓ} → Option A → Bool
is_some none = false
is_some (some a) = true

-- `ZENBENCH_SUBPROCESS` is "1"
abbrev pub is_child : Environment → Bool
is_child env = elim (env (codes "ZENBENCH_SUBPROCESS")) [
  | none ↦ false
  | some v ↦ list_eq v (codes "1")
]

-- the test of `ZENBENCH_FORMAT`
abbrev pub is_bad_format : List Text → Option Text → Bool
is_bad_format args none = false
is_bad_format args (some format) =
    not (any (λ a. starts_with a (codes "--format=")) args) && not (listed formats format)

module _ (f : Float) (parse_float : Text → Option f.F) (args : List Text) (env : Environment) where
  -- the part of `resolve` that settles the number of processes of an iterating plan
  unfoldable pub settle_processes : BenchmarkPlan f → Result PlanError (BenchmarkPlan f)
  settle_processes p =
      if is_iterate p.mode
      then (do
        explicit ← value_of args env "processes" "ZENBENCH_PROCESSES"
        fail_if (is_some explicit && (not (is_child env) && not (has_legacy_processes args)))
            PlanError.processes_need_confirmation
        ok (record p { processes = 1 }))
      else ok p

  -- `resolve`, after the fields are set
  unfoldable pub finish_plan : BenchmarkPlan f → Result PlanError (BenchmarkPlan f)
  unfolding settle_processes validate
  finish_plan p = do
    settled ← settle_processes p
    fail_if (not (is_iterate settled.mode) && has_legacy_repetitions args)
        PlanError.legacy_repetitions
    fail_if (is_bad_format args (env (codes "ZENBENCH_FORMAT"))) PlanError.invalid_format
    validate settled
    ok settled

  -- `resolve` from the setting of each field on, the last field first
  unfoldable pub from_timeout : BenchmarkPlan f → Result PlanError (BenchmarkPlan f)
  unfolding set_from value_of finish_plan
  from_timeout p =
      set_from (value_of args env "timeout" "ZENBENCH_TIMEOUT")
        (parsed "timeout seconds" parse_seconds) (λ a q. record q { timeout = a }) p
      >>= finish_plan

  unfoldable pub from_scope : BenchmarkPlan f → Result PlanError (BenchmarkPlan f)
  unfolding set_from value_of from_timeout
  from_scope p =
      set_from (value_of args env "scope" "ZENBENCH_SCOPE") as_text (λ a q. record q { scope = a })
        p
      >>= from_timeout

  unfoldable pub from_workload : BenchmarkPlan f → Result PlanError (BenchmarkPlan f)
  unfolding set_from value_of from_scope
  from_workload p =
      set_from (value_of args env "workload-id" "ZENBENCH_WORKLOAD_ID") as_text
        (λ a q. record q { workload_id = a }) p
      >>= from_scope

  unfoldable pub from_confidence : BenchmarkPlan f → Result PlanError (BenchmarkPlan f)
  unfolding set_from value_of from_workload
  from_confidence p =
      set_from (value_of args env "confidence" "ZENBENCH_CONFIDENCE")
        (parsed "confidence" parse_float) (λ a q. record q { confidence = a }) p
      >>= from_workload

  unfoldable pub from_margin : BenchmarkPlan f → Result PlanError (BenchmarkPlan f)
  unfolding set_from value_of from_confidence
  from_margin p =
      set_from (value_of args env "margin" "ZENBENCH_MARGIN")
        (parsed "practical margin" parse_float) (λ a q. record q { margin_pct = a }) p
      >>= from_confidence

  unfoldable pub from_rounds : BenchmarkPlan f → Result PlanError (BenchmarkPlan f)
  unfolding set_from value_of from_margin
  from_rounds p =
      set_from (value_of args env "rounds" "ZENBENCH_ROUNDS") (parsed "round count" parse_rounds)
        (λ a q. record q { rounds = a }) p
      >>= from_margin

  unfoldable pub from_processes : BenchmarkPlan f → Result PlanError (BenchmarkPlan f)
  unfolding set_from value_of from_rounds
  from_processes p =
      set_from (value_of args env "processes" "ZENBENCH_PROCESSES")
        (parsed "process count" parse_usize) (λ a q. record q { processes = a }) p
      >>= from_rounds

  -- `BenchmarkPlan::resolve`
  unfoldable pub resolve : BenchmarkPlan f → Result PlanError (BenchmarkPlan f)
  unfolding set_from value_of from_processes parse_mode
  resolve p =
      set_from (value_of args env "mode" "ZENBENCH_MODE") parse_mode (λ a q. record q { mode = a })
        p
      >>= from_processes
