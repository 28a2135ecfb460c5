-- ===== src/Inference/Evidence.antt =====
-- src/inference.rs: the results in which `issues` finds nothing.
use zenbench.Prelude.{
  ℕ, ◌≤◌, ◌≡◌, ◌≢◌, refl, subst, true, false, Option, none, some, List, [], ◌∷◌, ◌++◌, length, map,
  All, not, ◌||◌, ltb, ◌==◌, ==_iff, list_eq→eq, arith, inl, inr, Option-cases, Result, ok, err,
}
use zenbench.Prelude.Float.{Float}
use zenbench.Prelude.Text.{Text, codes}
use zenbench.Plan.{BenchmarkMode, PlanError, validate, is_iterate}
use zenbench.Plan.Valid.{IsValid, validate_iff}
use zenbench.Inference.{
  ComparisonResult, ExecutionRecord, Issue, Replicate, SuiteResult, Testbed, option_eq, testbed_eq,
}
use zenbench.Inference.Issues.{
  Flag, aggregate_flags, benchmark_keys, is_empty_list, is_err, is_none, issues, raised,
  replicate_flags, replicates_flags, workload_signature,
}
use zenbench.Inference.Tested.{
  IsDistinct, has_repeated-IsDistinct, has_repeated_pairs-IsDistinct, listed-ne, neither, of_not,
}
use zenbench.Inference.Placed.{
  AreSameRuns, IsSameExecution, IsUniform, cpu_compatible-AreSameRuns, is_uniform-IsUniform,
  same_execution-IsSameExecution, same_testbed, same_workload-eq,
}
use zenbench.Inference.Sampled.{AllClear, AllClear-append, IsSampled, all_group_flags-IsSampled}

pub raised-nil : (flags : List Flag) → raised flags ≡ [] → AllClear flags
raised-nil [] h = tt
raised-nil ((true, issue) ∷ flags) h = cc
raised-nil ((false, issue) ∷ flags) h = (refl, raised-nil flags h)

-- What a test that is not an error says of a result.
is_err-ok : (r : Result PlanError (Unit {0})) → is_err r ≡ false → r ≡ ok tt
is_err-ok (ok tt) h = refl
is_err-ok (err e) h = cc

some_of {ℓ} : {A : Type ℓ} (xs : List A) → is_empty_list xs ≡ false → xs ≢ []
some_of [] h e = cc
some_of (x ∷ xs) h e = cc

some_value {ℓ} : {A : Type ℓ} (o : Option A) → is_none o ≡ false → (a : A) × (o ≡ some a)
some_value none h = cc
some_value (some a) h = (a, refl)

module _ {f : Float} where
  -- A replicate of a result: the same workload, execution, machine and placement, undisturbed, with
  -- no replicates of its own, and every group of it sampled completely.
  pub record IsReplicate (result : SuiteResult f) (e : ExecutionRecord f) (r : Replicate f)
      : Type 0 where
    pub workload : workload_signature r.run ≡ workload_signature result.run
    pub complete : r.run.incomplete ≡ false
    pub reliable : r.run.unreliable ≡ false
    pub flat : r.is_nested ≡ false
    pub execution : IsSameExecution e r.run.execution
    pub testbed : r.run.testbed ≡ result.run.testbed
    pub placement : AreSameRuns r.run result.run
    pub uniform : IsUniform r.run.cpu_placement
    pub sampled : All IsSampled r.run.comparisons

  -- The identity of each replicate is none of those before it.
  abbrev pub IsFreshRuns : List Text → List (Replicate f) → Type 0
  IsFreshRuns seen [] = Unit
  IsFreshRuns seen (r ∷ rs) =
      All (λ id. id ≢ r.run.run_id) seen × IsFreshRuns (r.run.run_id ∷ seen) rs

  -- What a confirmation rests on.
  pub record IsEvidence (result : SuiteResult f) : Type 0 where
    pub e : ExecutionRecord f
    pub executed : result.run.execution ≡ some e
    pub protocol : e.protocol ≡ codes "zenbench-process-v1"
    pub confirms : e.plan.mode ≢ BenchmarkMode.iterate
    pub valid : IsValid e.plan
    pub complete : result.run.incomplete ≡ false
    pub reliable : result.run.unreliable ≡ false
    pub independent : e.independent_processes ≡ true
    pub planned : length result.replicates ≡ e.plan.processes
    pub repeated : 3 ≤ length result.replicates
    pub selected : result.run.comparisons ≢ []
    pub testbed : (t : Testbed) × (result.run.testbed ≡ some t)
    pub groups : IsDistinct (map (λ (g : ComparisonResult f). g.group_name) result.run.comparisons)
    pub benchmarks : IsDistinct (benchmark_keys result.run.comparisons)
    pub fresh : IsFreshRuns [] result.replicates
    pub replicates : All (IsReplicate result e) result.replicates

  replicate_flags-IsReplicate :
      (result : SuiteResult f) (e : ExecutionRecord f) (seen : List Text) (r : Replicate f)
      → AllClear (replicate_flags result e seen r)
      → IsReplicate result e r × All (λ id. id ≢ r.run.run_id) seen
  unfolding replicate_flags
  replicate_flags-IsReplicate result e seen r (a, (b, (c, (d, (g, (h, rest)))))) =
      let (quiet, flat) = neither (r.run.incomplete || r.run.unreliable) _ c in
      let (machine, place) =
        neither (not (option_eq testbed_eq r.run.testbed result.run.testbed)) _ g in
      (
        record {
          workload = same_workload-eq r.run result.run (of_not _ a);
          complete = (neither r.run.incomplete _ quiet).0;
          reliable = (neither r.run.incomplete _ quiet).1;
          flat = flat;
          execution = same_execution-IsSameExecution e _ (of_not _ d);
          testbed = same_testbed _ _ (of_not _ machine);
          placement = cpu_compatible-AreSameRuns r.run result.run (of_not _ place);
          uniform = is_uniform-IsUniform _ (of_not _ h);
          sampled = all_group_flags-IsSampled r.run.comparisons rest;
        },
        listed-ne seen r.run.run_id b,
      )

  replicates_flags-IsReplicate :
      (result : SuiteResult f) (e : ExecutionRecord f) (seen : List Text) (rs : List (Replicate f))
      → AllClear (replicates_flags result e seen rs)
      → All (IsReplicate result e) rs × IsFreshRuns seen rs
  unfolding replicates_flags
  replicates_flags-IsReplicate result e seen [] h = (tt, tt)
  replicates_flags-IsReplicate result e seen (r ∷ rs) h =
      let (here, rest) = AllClear-append (replicate_flags result e seen r) _ h in
      let (replicate, fresh) = replicate_flags-IsReplicate result e seen r here in
      let (more, distinct) = replicates_flags-IsReplicate result e (r.run.run_id ∷ seen) rs rest in
      ((replicate, more), (fresh, distinct))

  -- A result without an issue was executed by the process protocol, under a valid plan that
  -- confirms. It is complete and reliable, of at least three independent processes, as many as
  -- planned, and has groups, a machine, and no group or benchmark twice. Each process is a run
  -- that is new, complete, reliable and not nested, with the same workload, plan, binary, timer,
  -- machine and placement, which is uniform. Every group of it has as many comparisons as its
  -- benchmarks less one, or as their pairs, each of two different benchmarks of it and no two of
  -- the same; it has all its rounds of a fixed number, finite and positive means, each benchmark
  -- once in a round, and a clean observation of every round that is at most a second old.
  pub issues-IsEvidence : (result : SuiteResult f) → issues result ≡ [] → IsEvidence result
  unfolding issues aggregate_flags
  issues-IsEvidence result h = elim (Option-cases result.run.execution) [
    | inl absent ↦ (let none_raised = subst (λ o. issues_of o ≡ []) absent h in cc)
    | inr (e, executed) ↦
        let clear =
          raised-nil (aggregate_flags result e ++ replicates_flags result e [] result.replicates)
            (subst (λ o. issues_of o ≡ []) executed h) in
        let (own, each) = AllClear-append (aggregate_flags result e) _ clear in
        let (protocol, (confirms, (valid, (quiet, (counted, rest))))) = own in
        let (selected, (machine, (groups, (benchmarks, _)))) = rest in
        let (complete, reliable) = neither result.run.incomplete _ quiet in
        let (processes, many) =
          neither
            (not e.independent_processes || not (length result.replicates == e.plan.processes)) _
            counted in
        let (independent, planned) = neither (not e.independent_processes) _ processes in
        let (members, fresh) = replicates_flags-IsReplicate result e [] result.replicates each in
        record {
          e = e;
          executed = executed;
          protocol = list_eq→eq _ _ (of_not _ protocol);
          confirms = λ i. not_iterate e.plan.mode confirms i;
          valid = (validate_iff e.plan).0 (is_err-ok (validate e.plan) valid);
          complete = complete;
          reliable = reliable;
          selected = some_of _ selected;
          testbed = some_value _ machine;
          groups = has_repeated-IsDistinct _ groups;
          benchmarks = has_repeated_pairs-IsDistinct _ benchmarks;
          independent = of_not _ independent;
          planned = (==_iff _ _).0 (of_not _ planned);
          repeated = at_least _ many;
          fresh = fresh;
          replicates = members;
        }
  ]
    where
      issues_of : Option (ExecutionRecord f) → List Issue
      issues_of o = elim o [
        | none ↦ Issue.no_contract ∷ []
        | some e ↦
            raised (aggregate_flags result e ++ replicates_flags result e [] result.replicates)
      ]

      not_iterate : (m : BenchmarkMode) → is_iterate m ≡ false → m ≢ BenchmarkMode.iterate
      not_iterate m g i = ground (arith, g, i)

      at_least : (n : ℕ) → ltb n 3 ≡ false → 3 ≤ n
      at_least n g = ground arith
