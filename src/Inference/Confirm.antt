-- ===== src/Inference/Confirm.antt =====
-- src/inference.rs: `confirm`, `compare_benchmark` and `compatibility_issues`; src/results.rs:
-- `confirmation_issues`; src/baseline.rs: the part of `assess_baseline` that decides whether a run
-- may become the baseline.
use zenbench.Prelude.{
  ℕ, ◌+◌, Bool, true, false, Option, none, some, List, [], ◌∷◌, ◌++◌, length, any, all,
  if◌then◌else◌, not, ◌&&◌, ◌||◌, ◌==◌, list_eq, max, keep,
}
use zenbench.Prelude.Float.{Arith, Float}
use zenbench.Prelude.Text.{Text}
use zenbench.Inference.{
  ComparisonResult, ExecutionRecord, Issue, ProcessComparison, Replicate, SuiteResult, Verdict,
  cpu_compatible, option_eq, testbed_eq,
}
use zenbench.Inference.Issues.{Flag, benchmark_keys, issues, pair_eq, raised, same_workload}
use zenbench.Inference.Compare.{and_then, classify, independent, means, paired, resolution_floor}

abbrev pub is_nil {ℓ} : {A : Type ℓ} → List A → Bool
is_nil [] = true
is_nil (x ∷ xs) = false

-- `filter_map`
abbrev pub filter_map {ℓ κ} : {A : Type ℓ} {B : Type κ} → (A → Option B) → List A → List B
filter_map g [] = []
filter_map g (x ∷ xs) = elim (g x) [ none ↦ filter_map g xs | some y ↦ y ∷ filter_map g xs ]

-- the keys of the map of benchmarks: each name once
abbrev pub key_listed : List (Text × Text) → Text × Text → Bool
key_listed keys key = any (pair_eq key) keys

abbrev pub map_keys : List (Text × Text) → List (Text × Text)
map_keys [] = []
map_keys (k ∷ ks) = let rest = map_keys ks in if key_listed rest k then rest else k ∷ rest

-- the verdicts that let a run become the baseline
abbrev pub is_promoted : Verdict → Bool
is_promoted Verdict.improvement = true
is_promoted Verdict.equivalent = true
is_promoted Verdict.non_inferior = true
is_promoted _ = false

module _ (f : Float) (m : Arith f) where
  open f use {F, hundredths}
  open m use {add}

  -- a comparison with its interval and verdict
  abbrev compared :
      Text → Text → Text → F → F → ℕ → List F → List F → F × F × F → ProcessComparison f
  compared group baseline candidate margin confidence family b c (estimate, lower, upper) = record {
    group = group;
    baseline = baseline;
    candidate = candidate;
    estimate_pct = estimate;
    lower_pct = lower;
    upper_pct = upper;
    verdict = classify f m lower upper margin;
    baseline_processes = length b;
    candidate_processes = length c;
    family_confidence = confidence;
    margin_pct = margin;
    comparisons_in_family = family;
  }

  -- the body of the loops of `confirm`
  unfoldable pub confirm_pair :
      SuiteResult f → ExecutionRecord f → ℕ → Text → Text × Text → Option (ProcessComparison f)
  unfolding means resolution_floor paired classify
  confirm_pair result e family group (base, candidate) = and_then (means f m result group base) λ b.
      and_then (means f m result group candidate) λ c.
        and_then
          (paired f m b c e.plan.confidence family (
            add (resolution_floor f m result group base)
              (resolution_floor f m result group candidate)))
          λ i. some (compared group base candidate e.plan.margin_pct e.plan.confidence family b c i)

  abbrev confirm_groups :
      SuiteResult f → ExecutionRecord f → ℕ → List (ComparisonResult f) → List (ProcessComparison f)
  confirm_groups result e family [] = []
  confirm_groups result e family (g ∷ gs) =
      filter_map (confirm_pair result e family g.group_name) g.analyses
      ++ confirm_groups result e family gs

  -- `comparisons.iter().map(|g| g.analyses.len()).sum()`
  abbrev pub count_analyses : List (ComparisonResult f) → ℕ
  count_analyses [] = 0
  count_analyses (g ∷ gs) = length g.analyses + count_analyses gs

  -- the comparisons of the first replicate
  abbrev pub first_comparisons : List (Replicate f) → List (ComparisonResult f)
  first_comparisons [] = []
  first_comparisons (r ∷ rs) = r.run.comparisons

  -- `confirm`
  unfoldable pub confirm : SuiteResult f → List (ProcessComparison f)
  unfolding issues confirm_pair
  confirm result = if not (is_nil (issues result)) then [] else elim result.run.execution [
    | none ↦ []
    | some e ↦
        let groups = first_comparisons result.replicates in
        confirm_groups result e (max (count_analyses groups) 1) groups
  ]

  -- `SuiteResult::confirmation_issues`
  unfoldable pub confirmation_issues : SuiteResult f → List Issue
  unfolding issues confirm
  confirmation_issues result =
      if is_nil (issues result)
      then raised (
          (
            not (length (confirm result) == count_analyses (first_comparisons result.replicates)),
            Issue.unresolved_intervals,
          )
          ∷ [])
      else issues result

  abbrev pub same_contract : Option (ExecutionRecord f) → Option (ExecutionRecord f) → Bool
  same_contract (some b) (some c) =
      list_eq b.protocol c.protocol
      && option_eq list_eq b.plan.workload_id c.plan.workload_id
      && option_eq list_eq b.plan.scope c.plan.scope
      && list_eq b.timer_backend c.timer_backend
  same_contract _ _ = false

  abbrev pub shares_run : List (Replicate f) → Replicate f → Bool
  shares_run others r = any (λ (o : Replicate f). list_eq o.run.run_id r.run.run_id) others

  -- the tests of `compatibility_issues` on the two results together
  unfoldable pub pair_flags : SuiteResult f → SuiteResult f → List Flag
  unfolding cpu_compatible
  pair_flags base candidate =
      (any (shares_run base.replicates) candidate.replicates, Issue.reused_measurements)
      ∷ (
        not (option_eq testbed_eq base.run.testbed candidate.run.testbed)
            || not (cpu_compatible base.run candidate.run),
        Issue.machine_differs,
      )
      ∷ (not (same_workload base.run candidate.run), Issue.workload_differs)
      ∷ (not (same_contract base.run.execution candidate.run.execution), Issue.contract_differs)
      ∷ []

  -- `compatibility_issues`
  unfoldable pub compatibility_issues : SuiteResult f → SuiteResult f → List Issue
  unfolding confirmation_issues pair_flags
  compatibility_issues base candidate =
      confirmation_issues base
      ++ (confirmation_issues candidate ++ raised (pair_flags base candidate))

  -- `compare_benchmark`
  unfoldable pub compare_benchmark :
      SuiteResult f → SuiteResult f → F → ℕ → Text × Text → Option (ProcessComparison f)
  unfolding means resolution_floor independent classify
  compare_benchmark base candidate margin family (group, bench) =
      and_then (means f m base group bench) λ b. and_then (means f m candidate group bench) λ c.
        and_then candidate.run.execution λ e.
          and_then
            (independent f m b c e.plan.confidence family (
              add (resolution_floor f m base group bench)
                (resolution_floor f m candidate group bench)))
            λ i. some (compared group bench bench margin e.plan.confidence family b c i)

  -- the keys of `baseline_map` and `current_map`
  abbrev pub inventory : SuiteResult f → List (Text × Text)
  inventory result = map_keys (benchmark_keys result.run.comparisons)

  -- `struct BaselineAssessment`, less the descriptive comparison
  pub record Assessment : Type 0 where
    pub confirmed : List (ProcessComparison f)
    pub validity_issues : List Issue
    pub promotable : Bool

  -- The decision of `assess_baseline`, for results that its first checks let through. The order of
  -- the benchmarks, which is that of their changes in the code, does not matter to it.
  unfoldable pub assess_baseline : SuiteResult f → SuiteResult f → F → Assessment
  unfolding compatibility_issues compare_benchmark
  assess_baseline base current margin =
      let problems = compatibility_issues base current in
      let base_keys = inventory base in
      let current_keys = inventory current in
      let shared = keep (key_listed current_keys) base_keys in
      let missing = keep (λ k. not (key_listed current_keys k)) base_keys in
      let new = keep (λ k. not (key_listed base_keys k)) current_keys in
      let confirmed =
        if is_nil problems
        then filter_map (compare_benchmark base current margin (max (length base_keys) 1)) shared
        else [] in
      record {
        confirmed = confirmed;
        validity_issues = problems;
        promotable =
            is_nil problems
            && not (is_nil confirmed)
            && length confirmed == length base_keys
            && is_nil new
            && is_nil missing
            && all (λ (c : ProcessComparison f). is_promoted c.verdict) confirmed;
      }
