-- ===== src/Pair/Sound.antt =====
-- src/bin/support/pair/plan.rs: what a validated plan has that a confirmation rests on.
use zenbench.Prelude.{
  ℕ, ◌≡◌, ◌≢◌, subst, Bool, true, false, Option, none, some, List, [], ◌∷◌, length, All, ◌||◌, ◌==◌,
  arith, ok, fail_if, guard-eq-ok, >>=-eq-ok, fail_if-eq-ok,
}
use zenbench.Prelude.Float.{Float}
use zenbench.Prelude.Text.{Text}
use zenbench.Pair.{Arith, Arm, Confirmation, PairError, PairPlan, is_word}
use zenbench.Pair.Validate.{
  validate, validate_size, validate_arms, validate_env, validate_cases, validate_confirmation,
  is_bad_arm, is_bad_confirmation, lacks_parts, arms_of,
}
use zenbench.Pair.Intervals.{scale}

-- The names of validated arms are not the control's.
validate_arms-named :
    (seen : List Text) (arms : List Arm) {u : Unit {0}}
    → validate_arms seen arms ≡ ok u
    → All (λ (a : Arm). is_word a.id "__aa" ≡ false) arms
unfolding validate_arms is_bad_arm
validate_arms-named seen [] h = tt
validate_arms-named seen (arm ∷ arms) h =
    let (good, e1) = guard-eq-ok (is_bad_arm seen arm) _ _ h in
    let (_, _, e2) = >>=-eq-ok (validate_env arm.env) _ e1 in
    (second _ _ _ _ _ good, validate_arms-named (arm.id ∷ seen) arms e2)
  where
    second : (a b c d e : Bool) → (a || b || c || d || e) ≡ false → b ≡ false
    second a b c d e g = ground arith

third : (a b c d e : Bool) → (a || b || c || d || e) ≡ false → c ≡ false
third a b c d e h = ground arith

not_zero : (n : ℕ) → (n == 0) ≡ false → n ≢ 0
not_zero n h e = ground arith

validate_size-sized :
    {f : Float} (plan : PairPlan f) {u : Unit {0}}
    → validate_size plan ≡ ok u
    → length plan.candidates ≢ 0
unfolding validate_size
validate_size-sized plan h =
    let (_, e1) = guard-eq-ok _ _ _ h in
    let (missing, _) = guard-eq-ok (lacks_parts plan) _ _ e1 in
    not_zero _ (third (plan.blocks == 0) (length plan.cases == 0) _ _ _ missing)

validate_confirmation-contracted :
    {f : Float} (plan : PairPlan f) (c : Confirmation f) {u : Unit {0}}
    → validate_confirmation plan ≡ ok u
    → plan.confirmation ≡ some c
    → is_bad_confirmation plan c ≡ false
unfolding validate_confirmation
validate_confirmation-contracted plan c {u} h contract =
    fail_if-eq-ok (is_bad_confirmation plan c) PairError.bad_confirmation (
      subst
        (λ o.
          (elim o [
            | none ↦ ok tt
            | some d ↦ fail_if (is_bad_confirmation plan d) PairError.bad_confirmation
          ])
          ≡ ok u)
        contract h)

pub contracted-aa :
    {f : Float} (plan : PairPlan f) (c : Confirmation f)
    → is_bad_confirmation plan c ≡ false
    → plan.aa ≡ true
unfolding is_bad_confirmation
contracted-aa plan c h = ground arith

-- The parts of a plan's validation that a confirmation rests on.
pub record IsSound {f : Float} (plan : PairPlan f) (c : Confirmation f) : Type 0 where
  pub named : All (λ (a : Arm). is_word a.id "__aa" ≡ false) (arms_of plan)
  pub sized : length plan.candidates ≢ 0
  pub contracted : is_bad_confirmation plan c ≡ false

module _ (captures_len : Text → Option ℕ) (is_normal : Text → Bool) (f : Float) (m : Arith f) where
  pub validate-IsSound :
      (plan : PairPlan f) (c : Confirmation f) {u : Unit {0}}
      → validate captures_len is_normal f m plan ≡ ok u
      → plan.confirmation ≡ some c
      → IsSound plan c
  unfolding validate validate_size validate_confirmation
  validate-IsSound plan c h contract =
      let (_, size, e1) = >>=-eq-ok (validate_size plan) _ h in
      let (_, arms, e2) = >>=-eq-ok (validate_arms [] (arms_of plan)) _ e1 in
      let (_, _, e3) = >>=-eq-ok (validate_env plan.env) _ e2 in
      let (_, _, e4) = >>=-eq-ok (validate_cases [] plan.cases) _ e3 in
      let (_, _, e5) = >>=-eq-ok (scale f m plan.metric) _ e4 in
      let (_, e6) = guard-eq-ok _ _ _ e5 in
      let (_, confirmation, _) = >>=-eq-ok (validate_confirmation plan) _ e6 in
      record {
        named = validate_arms-named [] (arms_of plan) arms;
        sized = validate_size-sized plan size;
        contracted = validate_confirmation-contracted plan c confirmation contract;
      }
