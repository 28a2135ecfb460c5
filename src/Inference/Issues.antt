-- ===== src/Inference/Issues.antt =====
-- src/inference.rs: `issues`. The code pushes a message where a test is true; here each test stands
-- beside its issue. The order of the messages and their repetitions, which the code removes at the
-- end, are left out.
use zenbench.Prelude.{
  ℕ, suc, ◌-◌, ◌*◌, ◌/◌, Bool, true, false, Option, none, some, List, [], ◌∷◌, ◌++◌, length, map,
  any, all, if◌then◌else◌, not, ◌&&◌, ◌||◌, ltb, leb, ◌==◌, list_eq, range_from, Result, ok, err,
}
use zenbench.Prelude.Float.{Float}
use zenbench.Prelude.Sort.{sort}
use zenbench.Prelude.Text.{Text, byte_length, codes, listed, text_lt}
use zenbench.Placement.{CpuPlacement, PlacementStatus}
use zenbench.Plan.{BenchmarkMode, BenchmarkPlan, is_iterate, validate}
use zenbench.Inference.{
  BenchmarkResult, ComparisonResult, ExecutionRecord, GroupConfig, Issue, Replicate, RoundSample,
  Run, SuiteResult, cpu_compatible, option_eq, status_eq, testbed_eq,
}

-- A test and the issue that it raises.
abbrev pub Flag : Type 0
Flag = Bool × Issue

abbrev pub raised : List Flag → List Issue
raised [] = []
raised ((test, issue) ∷ flags) = if test then issue ∷ raised flags else raised flags

abbrev pub mode_eq : BenchmarkMode → BenchmarkMode → Bool
mode_eq BenchmarkMode.iterate BenchmarkMode.iterate = true
mode_eq BenchmarkMode.confirm BenchmarkMode.confirm = true
mode_eq BenchmarkMode.evidence BenchmarkMode.evidence = true
mode_eq _ _ = false

abbrev pub num_eq : ℕ → ℕ → Bool
num_eq a b = a == b

abbrev pub is_none {ℓ} : {A : Type ℓ} → Option A → Bool
is_none none = true
is_none (some a) = false

abbrev pub is_empty_list {ℓ} : {A : Type ℓ} → List A → Bool
is_empty_list [] = true
is_empty_list (x ∷ xs) = false

abbrev pub is_err {ℓ κ} : {E : Type ℓ} {A : Type κ} → Result E A → Bool
is_err (err e) = true
is_err (ok a) = false

-- whether a text is followed by an equal one: `insert` returned false
abbrev pub has_repeated : List Text → Bool
has_repeated [] = false
has_repeated (t ∷ ts) = listed ts t || has_repeated ts

-- the length of a `HashSet` of pairs of names
abbrev pub pair_eq : Text × Text → Text × Text → Bool
pair_eq (a, b) (c, d) = list_eq a c && list_eq b d

abbrev pub distinct_pairs : List (Text × Text) → ℕ
distinct_pairs [] = 0
distinct_pairs (p ∷ ps) =
    let rest = distinct_pairs ps in if any (pair_eq p) ps then rest else suc rest

abbrev pub has_repeated_pairs : List (Text × Text) → Bool
has_repeated_pairs [] = false
has_repeated_pairs (p ∷ ps) = any (pair_eq p) ps || has_repeated_pairs ps

-- `if a < b { (a, b) } else { (b, a) }`
abbrev pub ordered : Text × Text → Text × Text
ordered (a, b) = if text_lt a b then (a, b) else (b, a)

-- `n.saturating_sub(1)` or `n * n.saturating_sub(1) / 2`
abbrev pub expected_analyses : Bool → ℕ → ℕ
expected_analyses true n = n - 1
expected_analyses false n = (n * (n - 1)) / 2

-- `status` is uniform, of a placement that is there
abbrev pub is_uniform : Option CpuPlacement → Bool
is_uniform none = false
is_uniform (some p) =
    status_eq p.status PlacementStatus.enforced_uniform
    || status_eq p.status PlacementStatus.uniform_hardware

-- `gate_clean != Some(true)` or no fresh observation
abbrev pub is_clean_round : RoundSample → Bool
is_clean_round s = observed s.gate_clean && fresh s.gate_observation_age_ns
  where
    observed : Option Bool → Bool
    observed none = false
    observed (some b) = b

    fresh : Option ℕ → Bool
    fresh none = false
    fresh (some age) = leb age 1_000_000_000

-- a round that has a positive number of iterations, every benchmark measured, and each once in
-- the order
unfoldable pub is_paired_round : ℕ → RoundSample → Bool
unfolding sort
is_paired_round benchmarks s =
    not (s.iterations == 0)
    && length s.elapsed_ns == benchmarks
    && length s.compensated_ns == benchmarks
    && list_eq (sort s.execution_order) (range_from 0 benchmarks)

-- `==` of floats
abbrev pub float_eq : (f : Float) → f.F → f.F → Bool
float_eq f a b = f.fle a b && f.fle b a

abbrev pub texts_eq : List Text → List Text → Bool
texts_eq [] [] = true
texts_eq [] (t ∷ ts) = false
texts_eq (t ∷ ts) [] = false
texts_eq (t ∷ ts) (u ∷ us) = list_eq t u && texts_eq ts us

module _ {f : Float} where
  open f use {flt, fle, is_finite, hundredths}

  -- `==` of plans, which is derived field by field
  unfoldable pub plan_eq : BenchmarkPlan f → BenchmarkPlan f → Bool
  plan_eq a b =
      mode_eq a.mode b.mode
      && a.processes == b.processes
      && option_eq num_eq a.rounds b.rounds
      && float_eq f a.margin_pct b.margin_pct
      && float_eq f a.confidence b.confidence
      && option_eq list_eq a.workload_id b.workload_id
      && option_eq list_eq a.scope b.scope
      && a.timeout == b.timeout

  abbrev pub names : ComparisonResult f → List Text
  names g = map (λ (b : BenchmarkResult f). b.name) g.benchmarks

  -- the names of the benchmarks, each with that of its group
  abbrev pub benchmark_keys : List (ComparisonResult f) → List (Text × Text)
  benchmark_keys [] = []
  benchmark_keys (g ∷ gs) = map (λ n. (g.group_name, n)) (names g) ++ benchmark_keys gs

  -- `workload_signature`: the groups' texts, by the names of the groups
  abbrev insert_group : ComparisonResult f → List (ComparisonResult f) → List (ComparisonResult f)
  insert_group g [] = g ∷ []
  insert_group g (h ∷ hs) =
      if text_lt h.group_name g.group_name then h ∷ insert_group g hs else g ∷ h ∷ hs

  abbrev sort_groups : List (ComparisonResult f) → List (ComparisonResult f)
  sort_groups [] = []
  sort_groups (g ∷ gs) = insert_group g (sort_groups gs)

  unfoldable pub workload_signature : Run f → List Text
  workload_signature run =
      map (λ (g : ComparisonResult f). g.workload) (sort_groups run.comparisons)

  -- `workload_signature(a) == workload_signature(b)`
  abbrev pub same_workload : Run f → Run f → Bool
  same_workload a b = texts_eq (workload_signature a) (workload_signature b)

  -- the match on a replicate's execution
  unfoldable pub same_execution : ExecutionRecord f → Option (ExecutionRecord f) → Bool
  unfolding plan_eq
  same_execution e none = false
  same_execution e (some r) =
      list_eq r.protocol e.protocol
      && plan_eq r.plan e.plan
      && list_eq r.binary_sha256 e.binary_sha256
      && byte_length r.binary_sha256 == 64
      && list_eq r.timer_backend e.timer_backend

  -- the inventory of a group's analyses
  unfoldable pub has_inventory : ComparisonResult f → Bool
  has_inventory g =
      let expected = expected_analyses g.baseline_only (length g.benchmarks) in
      distinct_pairs (map ordered g.analyses) == expected
      && length g.analyses == expected
      && all (λ (a, b). not (list_eq a b) && listed (names g) a && listed (names g) b) g.analyses

  -- the group has run all the rounds of a fixed number
  unfoldable pub has_fixed_rounds : GroupConfig → ComparisonResult f → Bool
  has_fixed_rounds config g =
      not config.auto_rounds
      && leb 2 config.max_rounds
      && g.completed_rounds == config.max_rounds
      && length g.samples == config.max_rounds

  -- the tests of a replicate's group that has a configuration
  abbrev pub configured_flags : GroupConfig → ComparisonResult f → List Flag
  configured_flags config g =
      (not (has_inventory g), Issue.malformed_inventory)
      ∷ (not (has_fixed_rounds config g), Issue.adaptive_plan)
      ∷ (
        any (λ (b : BenchmarkResult f). not (is_finite b.mean) || fle b.mean (hundredths 0))
            g.benchmarks,
        Issue.bad_measurements,
      )
      ∷ (any (λ s. not (is_paired_round (length g.benchmarks) s)) g.samples, Issue.malformed_rounds)
      ∷ (
        is_empty_list g.benchmarks || any (λ s. not (is_clean_round s)) g.samples,
        Issue.unclean_observations,
      )
      ∷ []

  -- the tests of a replicate's group
  unfoldable pub group_flags : ComparisonResult f → List Flag
  unfolding has_inventory has_fixed_rounds is_paired_round
  group_flags g = elim g.config [
    | none ↦ (true, Issue.no_sampling) ∷ []
    | some config ↦ configured_flags config g
  ]

  abbrev pub all_group_flags : List (ComparisonResult f) → List Flag
  all_group_flags [] = []
  all_group_flags (g ∷ gs) = group_flags g ++ all_group_flags gs

  -- the tests of a replicate, after the names that were seen
  unfoldable pub replicate_flags :
      SuiteResult f → ExecutionRecord f → List Text → Replicate f → List Flag
  unfolding same_execution workload_signature cpu_compatible group_flags
  replicate_flags result e seen r =
      (not (same_workload r.run result.run), Issue.different_workload)
      ∷ (listed seen r.run.run_id, Issue.duplicate_replicate)
      ∷ (r.run.incomplete || r.run.unreliable || r.is_nested, Issue.noisy_replicate)
      ∷ (not (same_execution e r.run.execution), Issue.different_execution)
      ∷ (
        not (option_eq testbed_eq r.run.testbed result.run.testbed)
            || not (cpu_compatible r.run result.run),
        Issue.different_machine,
      )
      ∷ (not (is_uniform r.run.cpu_placement), Issue.unverified_placement)
      ∷ all_group_flags r.run.comparisons

  -- the loop over the replicates
  unfoldable pub replicates_flags :
      SuiteResult f → ExecutionRecord f → List Text → List (Replicate f) → List Flag
  unfolding replicate_flags
  replicates_flags result e seen [] = []
  replicates_flags result e seen (r ∷ rs) =
      replicate_flags result e seen r ++ replicates_flags result e (r.run.run_id ∷ seen) rs

  -- the tests of the aggregate
  unfoldable pub aggregate_flags : SuiteResult f → ExecutionRecord f → List Flag
  unfolding validate
  aggregate_flags result e =
      (not (list_eq e.protocol (codes "zenbench-process-v1")), Issue.unknown_protocol)
      ∷ (is_iterate e.plan.mode, Issue.exploratory_mode)
      ∷ (is_err (validate e.plan), Issue.invalid_plan)
      ∷ (result.run.incomplete || result.run.unreliable, Issue.unreliable_aggregate)
      ∷ (
        not e.independent_processes
            || not (length result.replicates == e.plan.processes)
            || ltb (length result.replicates) 3,
        Issue.missing_repetitions,
      )
      ∷ (is_empty_list result.run.comparisons, Issue.empty_selection)
      ∷ (is_none result.run.testbed, Issue.no_testbed)
      ∷ (
        has_repeated (map (λ (g : ComparisonResult f). g.group_name) result.run.comparisons),
        Issue.duplicate_group,
      )
      ∷ (has_repeated_pairs (benchmark_keys result.run.comparisons), Issue.duplicate_benchmark)
      ∷ []

  -- `issues`
  unfoldable pub issues : SuiteResult f → List Issue
  unfolding aggregate_flags replicates_flags
  issues result = elim result.run.execution [
    | none ↦ Issue.no_contract ∷ []
    | some e ↦ raised (aggregate_flags result e ++ replicates_flags result e [] result.replicates)
  ]
