-- ===== src/Pair/Validate.antt =====
-- src/bin/support/pair/plan.rs: `validate_env` and `Plan::validate`. The compiled pattern of a
-- regular expression and the components of a path are the libraries': `captures_len` is the number
-- of groups of a pattern that compiles, `is_normal` tells whether every component of a path is a
-- plain name.
use zenbench.Prelude.{
  ℕ, ◌*◌, ◌-◌, Bool, true, false, Option, none, some, List, [], ◌∷◌, length, map, any,
  if◌then◌else◌, not, ◌&&◌, ◌||◌, ltb, leb, ◌==◌, Result, ok, ◌>>=◌, ◌>>◌, fail_if, ok_or, contains,
}
use zenbench.Prelude.Float.{Float}
use zenbench.Prelude.Word.{checked_mul}
use zenbench.Prelude.Text.{Text, codes, starts_with, is_empty, trim, listed}
use zenbench.Pair.{
  Arith, Arm, Case, Check, Confirmation, Env, Extract, PairError, PairPlan, arm_count, is_word,
}
use zenbench.Pair.Expand.{expand, lookup}
use zenbench.Pair.Intervals.{scale}

-- `c.to_ascii_uppercase()`
abbrev upper : ℕ → ℕ
upper c = if leb b'a' c && leb c b'z' then c - 32 else c

abbrev has_nul : Option Text → Bool
has_nul none = false
has_nul (some text) = contains text 0

-- the test of one entry in `validate_env`
unfoldable pub is_bad_entry : Text × Option Text → Bool
is_bad_entry (key, value) =
    is_empty key
    || contains key b'='
    || contains key 0
    || starts_with (map upper key) (codes "ZENBENCH_COORDINATION_")
    || has_nul value

-- `validate_env`, where the keys are case-sensitive
unfoldable pub validate_env : Env → Result PairError (Unit {0})
unfolding is_bad_entry
validate_env [] = ok tt
validate_env ((key, value) ∷ env) = do
  fail_if (is_bad_entry (key, value)) (PairError.bad_environment_key key)
  validate_env env

-- `Plan::arms`
abbrev pub arms_of : {f : Float} → PairPlan f → List Arm
arms_of plan = plan.baseline ∷ plan.candidates

-- the test of an arm, after the arms with the names that were seen
unfoldable pub is_bad_arm : List Text → Arm → Bool
is_bad_arm seen arm =
    is_empty arm.id
    || is_word arm.id "__aa"
    || listed seen arm.id
    || arm.timeout_seconds == 0
    || is_empty arm.revision

-- the loop over the arms
unfoldable pub validate_arms : List Text → List Arm → Result PairError (Unit {0})
unfolding is_bad_arm validate_env
validate_arms seen [] = ok tt
validate_arms seen (arm ∷ arms) = do
  fail_if (is_bad_arm seen arm) PairError.bad_arm
  validate_env arm.env
  validate_arms (arm.id ∷ seen) arms

abbrev is_known {ℓ} : {A : Type ℓ} → Option A → Bool
is_known none = false
is_known (some a) = true

abbrev contains_key : List (Text × Text) → Text → Bool
contains_key fields key = is_known (lookup fields key)

-- whether names of a case's fields collide
unfoldable pub is_colliding : Case → Bool
is_colliding c =
    any (λ e. is_word (e.0) "output" || contains_key c.inputs (e.0)) c.fields
    || contains_key c.inputs (codes "output")

-- the loop over the cases
unfoldable pub validate_cases : List Text → List Case → Result PairError (Unit {0})
unfolding is_colliding
validate_cases seen [] = ok tt
validate_cases seen (c ∷ cs) = do
  fail_if (is_empty c.id || listed seen c.id) PairError.bad_case
  fail_if (is_colliding c) PairError.colliding_fields
  validate_cases (c.id ∷ seen) cs

-- `is_none_or(|n| n > limit)`
abbrev is_above : Option ℕ → ℕ → Bool
is_above none limit = true
is_above (some n) limit = ltb limit n

abbrev then_mul : Option ℕ → ℕ → Option ℕ
then_mul none b = none
then_mul (some a) b = checked_mul a b

abbrev is_unchecked : Check → Bool
is_unchecked (Check.unchecked reason) = true
is_unchecked _ = false

abbrev is_wall : Extract → Bool
is_wall Extract.wall = true
is_wall _ = false

-- the placeholders of a checker's arguments
abbrev pub checker_fields : List (Text × Text)
checker_fields =
    (codes "baseline", codes "baseline-output") ∷ (codes "candidate", codes "candidate-output") ∷ []

unfoldable pub expand_all : List Text → Result PairError (Unit {0})
unfolding expand
expand_all [] = ok tt
expand_all (arg ∷ args) = do expanded ← expand checker_fields arg; expand_all args

abbrev pub is_bad_resolution : (f : Float) → Option f.F → Bool
is_bad_resolution f none = false
is_bad_resolution f (some r) = not (f.is_finite r) || f.fle r (f.hundredths 0)

-- `!x.is_finite() || !(low..high).contains(&x)`
abbrev pub is_outside : (f : Float) → f.F → ℕ → ℕ → Bool
is_outside f x low high =
    not (f.is_finite x) || not (f.fle (f.hundredths low) x && f.flt x (f.hundredths high))

-- `x == 0.0`
abbrev pub is_zero : (f : Float) → f.F → Bool
is_zero f x = f.fle x (f.hundredths 0) && f.fle (f.hundredths 0) x

module _ {f : Float} where
  -- the test of the parts that a plan needs
  abbrev pub lacks_parts : PairPlan f → Bool
  lacks_parts plan =
      plan.blocks == 0
      || length plan.cases == 0
      || length plan.candidates == 0
      || is_empty (trim plan.warmup)
      || plan.deadline_seconds == 0

  -- the sizes of an experiment
  unfoldable pub validate_size : PairPlan f → Result PairError (Unit {0})
  validate_size plan = do
    fail_if (not (plan.schema == 1)) PairError.unknown_plan_schema
    fail_if (lacks_parts plan) PairError.missing_parts
    fail_if
        (is_above (then_mul (checked_mul plan.blocks (length plan.cases)) (arm_count plan)) 100_000)
        PairError.too_many_invocations
    fail_if
        (ltb 10_000 ((plan.blocks * length plan.cases) * arm_count plan)
          || is_above
              (checked_mul ((plan.blocks * length plan.cases) * arm_count plan)
                plan.metric.expected)
              1_000_000)
        PairError.too_many_values

  -- the test of a confirmation
  unfoldable pub is_bad_confirmation : PairPlan f → Confirmation f → Bool
  is_bad_confirmation plan c =
      not (
        is_word c.accept "improvement"
        || is_word c.accept "non_inferiority"
        || is_word c.accept "equivalence")
      || ltb plan.blocks 5
      || not plan.aa
      || is_unchecked plan.check
      || not (is_known plan.metric.resolution)
      || is_empty (trim c.scope)
      || is_outside f c.margin_pct 0 10_000
      || is_outside f c.control_margin_pct 0 10_000
      || is_zero f c.control_margin_pct
      || is_outside f c.family_confidence 50 100

  unfoldable pub validate_confirmation : PairPlan f → Result PairError (Unit {0})
  unfolding is_bad_confirmation
  validate_confirmation plan = elim plan.confirmation [
    | none ↦ ok tt
    | some c ↦ fail_if (is_bad_confirmation plan c) PairError.bad_confirmation
  ]

module _ (captures_len : Text → Option ℕ) (is_normal : Text → Bool) where
  -- the pattern of a regular expression
  unfoldable pub validate_extract : Extract → Result PairError (Unit {0})
  validate_extract (Extract.regex pattern capture) = do
    groups ← ok_or (captures_len pattern) PairError.bad_pattern
    fail_if (leb groups capture) PairError.bad_capture
  validate_extract _ = ok tt

  -- the last `match` and the expansion of the checker's arguments
  unfoldable pub validate_check : Check → Result PairError (Unit {0})
  unfolding expand_all
  validate_check (Check.files paths) =
      fail_if (length paths == 0 || any (λ p. not (is_normal p)) paths) PairError.bad_check_files
  validate_check (Check.json start pointers stream) =
      fail_if (length pointers == 0) PairError.no_pointers
  validate_check (Check.unchecked reason) = fail_if (is_empty (trim reason)) PairError.no_reason
  validate_check (Check.command program args timeout_seconds) = do
    fail_if (timeout_seconds == 0) PairError.no_checker_timeout
    expand_all args

  module _ (f : Float) (m : Arith f) where
    -- `Plan::validate`
    unfoldable pub validate : PairPlan f → Result PairError (Unit {0})
    unfolding validate_size validate_arms validate_env validate_cases scale validate_confirmation
        validate_extract validate_check
    validate plan = do
      validate_size plan
      validate_arms [] (arms_of plan)
      validate_env plan.env
      validate_cases [] plan.cases
      factor ← scale f m plan.metric
      fail_if (is_bad_resolution f plan.metric.resolution) PairError.bad_resolution
      validate_confirmation plan
      fail_if (plan.metric.expected == 0 || ltb 1_000_000 plan.metric.expected)
          PairError.bad_cardinality
      fail_if
          (is_wall plan.metric.extract
            && (not (plan.metric.expected == 1) || not (is_word plan.metric.unit "ns")))
          PairError.bad_wall
      validate_extract plan.metric.extract
      validate_check plan.check
