-- ===== src/Plan/Harness.antt =====
-- src/plan.rs: the benchmark's command line as a whole, `validate_harness_args`.
use zenbench.Prelude.{
  ◌≡◌, refl, Bool, true, false, Option, List, [], not, ◌&&◌, ok, arith, list_eq, All, any,
  >>=-eq-ok, guard-eq-ok, fail_if-eq-ok,
}
use zenbench.Prelude.Float.{Float}
use zenbench.Prelude.Text.{Text, codes, ends_with, listed}
use zenbench.Plan.Options.{normalize_harness_args, check_combinations, validate_harness_args}
use zenbench.Plan.Accepted.{
  option_names, IsDistinct, IsAccepted, IsLooped, check_arguments-IsLooped,
}

-- A guard on what was seen excludes the same of the names.
excluded : {a b : Bool} (c d : Bool) → a ≡ c → b ≡ d → (a && b) ≡ false → c ≡ true → d ≡ false
excluded c d p q h t = ground arith

implied_seen :
    {a b : Bool} (c d : Bool) → a ≡ c → b ≡ d → (a && not b) ≡ false → c ≡ true → d ≡ true
implied_seen c d p q h t = ground arith

module _ (f : Float) (parse_float : Text → Option f.F) where
  -- The options that a validated command line gives.
  pub record IsHarness (args : List Text) : Type 0 where
    pub accepted : All (IsAccepted f parse_float) args
    pub names : List Text
    pub named : option_names args ≡ names
    pub distinct : IsDistinct names
    pub not_replaced :
        listed names (codes "save-baseline") ≡ true → listed names (codes "baseline") ≡ false
    pub update :
        listed args (codes "--update-on-pass") ≡ true → listed names (codes "baseline") ≡ true
    pub regression :
        listed names (codes "max-regression") ≡ true → listed names (codes "baseline") ≡ true
    pub processes :
        listed names (codes "processes") ≡ true
        → any (λ n. ends_with n (codes "-of-processes")) names ≡ false

  looped-IsHarness :
      (args names seen : List Text)
      → IsLooped f parse_float [] args names seen
      → check_combinations args seen ≡ ok tt
      → IsHarness args
  unfolding check_combinations
  looped-IsHarness args names seen l e =
      let (replaced, e1) = guard-eq-ok _ _ _ e in
      let (update, e2) = guard-eq-ok _ _ _ e1 in
      let (regression, e3) = guard-eq-ok _ _ _ e2 in
      let processes = fail_if-eq-ok _ _ e3 in
      let same : (n : Text) → listed seen n ≡ listed names n =
        λ n. l.collected (λ t. list_eq t n) in
      record {
        accepted = l.accepted;
        names = names;
        named = l.named;
        distinct = l.distinct;
        not_replaced = excluded _ _ (same _) (same _) replaced;
        update = implied_seen _ _ refl (same _) update;
        regression = implied_seen _ _ (same _) (same _) regression;
        processes = excluded _ _ (same _) (l.collected _) processes;
      }

  -- A command line that validation accepts normalizes to arguments that are bare flags or
  -- `--name=value` with a known name and a fitting value; no option is given twice; a baseline is
  -- not saved and compared with at once, it is not updated, and no regression is bounded, without
  -- one; and a number of processes does not stand beside the older repetitions of processes.
  pub validate_harness_args_sound :
      (args : List Text)
      → validate_harness_args f parse_float args ≡ ok tt
      → (normalized : List Text) × (normalize_harness_args args ≡ ok normalized)
        × IsHarness normalized
  unfolding validate_harness_args
  validate_harness_args_sound args e =
      let (normalized, here, later) = >>=-eq-ok _ _ e in
      let (seen, looped, combined) = >>=-eq-ok _ _ later in
      let (names, l) = check_arguments-IsLooped f parse_float [] normalized seen looped in
      (normalized, here, looped-IsHarness normalized names seen l combined)
