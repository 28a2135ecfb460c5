-- ===== src/Inference/Tests.antt =====
-- Tests of the inference's model, and the witnesses of its theorems. Floats are whole hundredths,
-- with a logarithm that is linear.
use zenbench.Prelude.{◌≡◌, refl, true, false, none, some, [], ◌∷◌}
use zenbench.Prelude.Float.{linear, whole}
use zenbench.Prelude.Text.{Text, codes}
use zenbench.Plan.{BenchmarkMode, BenchmarkPlan, default_plan}
use zenbench.Placement.{CpuPlacement, CpuPolicy, PlacementStatus, unknown_topology}
use zenbench.Inference.{
  ComparisonResult, ExecutionRecord, Issue, Replicate, RoundSample, Run, SuiteResult, Testbed,
}
use zenbench.Inference.Issues.{issues}
use zenbench.Inference.Evidence.{IsEvidence, issues-IsEvidence}
use zenbench.Inference.Confirm.{assess_baseline}
use zenbench.Inference.Promoted.{IsPromotable, assess_baseline-IsPromotable}

abbrev placement : CpuPlacement
placement = record {
  policy = CpuPolicy.auto;
  topology = unknown_topology "synthetic";
  status = PlacementStatus.uniform_hardware;
  core_class = some "synthetic";
  effective_cpus = 0 ∷ [];
  requested_cpus = none;
  thread_affinity_requested = none;
  thread_affinity_effective = some (0 ∷ []);
  enforcement = "none";
}

abbrev plan : BenchmarkPlan whole
plan = record (default_plan whole) {
  mode = BenchmarkMode.confirm;
  processes = 3;
  workload_id = some (codes "control");
}

abbrev sha : Text
sha = codes "0123456789abcdef0123456789abcdef0123456789abcdef0123456789abcdef"

abbrev execution : ExecutionRecord whole
execution = record {
  protocol = codes "zenbench-process-v1";
  plan = plan;
  binary_sha256 = sha;
  independent_processes = true;
  timer_backend = codes "instant";
}

abbrev testbed : Testbed
testbed = record {
  cpu_model = codes "synthetic";
  arch = codes "x86_64";
  os = codes "linux";
  logical_cores = 1;
  physical_cores = 1;
}

abbrev round : RoundSample
round = record {
  gate_clean = some true;
  gate_observation_age_ns = some 10;
  iterations = 1;
  execution_order = 0 ∷ [];
  elapsed_ns = 100_000 ∷ [];
  compensated_ns = 100_000 ∷ [];
}

abbrev group : ComparisonResult whole
group = record {
  group_name = codes "g";
  workload = codes "g: work";
  config = some (record { auto_rounds = false; max_rounds = 2 });
  cpu_placement = some placement;
  benchmarks = record { name = codes "work"; mean = 10_000_000 } ∷ [];
  analyses = [];
  completed_rounds = 2;
  samples = round ∷ round ∷ [];
  baseline_only = false;
}

abbrev run : Text → Run whole
run id = record {
  run_id = id;
  execution = some execution;
  cpu_placement = some placement;
  comparisons = group ∷ [];
  testbed = some testbed;
  unreliable = false;
  incomplete = false;
  timer_resolution_ns = 10;
}

abbrev replicate : Text → Replicate whole
replicate id = record { run = run id; is_nested = false }

abbrev base : SuiteResult whole
base = record {
  run = run (codes "base");
  replicates = replicate (codes "b1") ∷ replicate (codes "b2") ∷ replicate (codes "b3") ∷ [];
}

abbrev current : SuiteResult whole
current = record {
  run = run (codes "current");
  replicates = replicate (codes "c1") ∷ replicate (codes "c2") ∷ replicate (codes "c3") ∷ [];
}

no_issue : issues base ≡ []
unfolding issues
no_issue = refl

issues-IsEvidence_example : IsEvidence base
issues-IsEvidence_example = issues-IsEvidence base no_issue

promoted : (assess_baseline whole linear base current 100).promotable ≡ true
unfolding assess_baseline
promoted = refl

assess_baseline-IsPromotable_example : IsPromotable whole linear base current 100
assess_baseline-IsPromotable_example =
    assess_baseline-IsPromotable whole linear base current 100 promoted

-- A run that is compared with itself is not promoted.
reused : (assess_baseline whole linear base base 100).promotable ≡ false
unfolding assess_baseline
reused = refl

-- Two processes are too few.
too_few :
    issues (record base { replicates = replicate (codes "b1") ∷ replicate (codes "b2") ∷ [] })
    ≡ Issue.missing_repetitions ∷ []
unfolding issues
too_few = refl
