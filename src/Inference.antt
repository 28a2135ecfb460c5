-- ===== src/Inference.antt =====
-- src/inference.rs and src/results.rs: the results that an inference reads, and its verdicts. Of a
-- replicate's own replicates the code asks whether there are any.
pub mod Issues
pub mod Compare
pub mod Confirm
pub mod Tested
pub mod Sampled
pub mod Placed
pub mod Evidence
pub mod Comparable
pub mod Promoted
mod Tests
use zenbench.Prelude.{
  ℕ, Bool, true, false, Option, none, some, List, [], ◌∷◌, list_eq, ◌==◌, ◌&&◌, ◌||◌, not, all,
  find,
}
use text.Mathlib.Text.{◌==◌ as str_eq}
use zenbench.Prelude.Float.{Float}
use zenbench.Prelude.Text.{Text, codes}
use zenbench.Plan.{BenchmarkMode, BenchmarkPlan}
use zenbench.Placement.{CpuPlacement, PlacementStatus, TopologyKind}

-- `enum Verdict`
pub data Verdict : Type 0 where
  improvement regression equivalent non_inferior inconclusive exploratory invalid : Verdict

-- `struct ProcessComparison`, less the name of the method
pub record ProcessComparison (f : Float) : Type 0 where
  pub group : Text
  pub baseline : Text
  pub candidate : Text
  pub estimate_pct : f.F
  pub lower_pct : f.F
  pub upper_pct : f.F
  pub verdict : Verdict
  pub baseline_processes : ℕ
  pub candidate_processes : ℕ
  pub family_confidence : f.F
  pub margin_pct : f.F
  pub comparisons_in_family : ℕ

-- `struct RoundSample`
pub record RoundSample : Type 0 where
  pub gate_clean : Option Bool
  pub gate_observation_age_ns : Option ℕ
  pub iterations : ℕ
  pub execution_order : List ℕ
  pub elapsed_ns : List ℕ
  pub compensated_ns : List ℕ

-- `struct BenchmarkResult`: its name and the mean of its summary
pub record BenchmarkResult (f : Float) : Type 0 where
  pub name : Text
  pub mean : f.F

-- `struct GroupConfig`: the fields that the inference reads
pub record GroupConfig : Type 0 where
  pub auto_rounds : Bool
  pub max_rounds : ℕ

-- `struct ComparisonResult`; `workload` is the text that serde_json makes of the name, the
-- benchmarks' names and tags, the throughput and the configuration
pub record ComparisonResult (f : Float) : Type 0 where
  pub group_name : Text
  pub workload : Text
  pub config : Option GroupConfig
  pub cpu_placement : Option CpuPlacement
  pub benchmarks : List (BenchmarkResult f)
  pub analyses : List (Text × Text)
  pub completed_rounds : ℕ
  pub samples : List RoundSample
  pub baseline_only : Bool

-- `struct ExecutionRecord`
pub record ExecutionRecord (f : Float) : Type 0 where
  pub protocol : Text
  pub plan : BenchmarkPlan f
  pub binary_sha256 : Text
  pub independent_processes : Bool
  pub timer_backend : Text

-- `struct Testbed`
pub record Testbed : Type 0 where
  pub cpu_model : Text
  pub arch : Text
  pub os : Text
  pub logical_cores : ℕ
  pub physical_cores : ℕ

-- `struct SuiteResult`, less its replicates
pub record Run (f : Float) : Type 0 where
  pub run_id : Text
  pub execution : Option (ExecutionRecord f)
  pub cpu_placement : Option CpuPlacement
  pub comparisons : List (ComparisonResult f)
  pub testbed : Option Testbed
  pub unreliable : Bool
  pub incomplete : Bool
  pub timer_resolution_ns : ℕ

-- a replicate: its run, and whether it has replicates
pub record Replicate (f : Float) : Type 0 where
  pub run : Run f
  pub is_nested : Bool

-- `struct SuiteResult`
pub record SuiteResult (f : Float) : Type 0 where
  pub run : Run f
  pub replicates : List (Replicate f)

-- The issues, by their messages.
pub data Issue : Type 0 where
  no_contract unknown_protocol exploratory_mode invalid_plan unreliable_aggregate : Issue
  missing_repetitions empty_selection no_testbed duplicate_group duplicate_benchmark : Issue
  different_workload duplicate_replicate noisy_replicate different_execution : Issue
  different_machine unverified_placement no_sampling malformed_inventory adaptive_plan : Issue
  bad_measurements malformed_rounds unclean_observations unresolved_intervals : Issue
  reused_measurements machine_differs workload_differs contract_differs : Issue

-- Equality of options, by that of their values.
abbrev pub option_eq {ℓ} : {A : Type ℓ} → (A → A → Bool) → Option A → Option A → Bool
option_eq eq none none = true
option_eq eq (some a) (some b) = eq a b
option_eq eq none (some b) = false
option_eq eq (some a) none = false

abbrev pub testbed_eq : Testbed → Testbed → Bool
testbed_eq a b =
    list_eq a.cpu_model b.cpu_model
    && list_eq a.arch b.arch
    && list_eq a.os b.os
    && a.logical_cores == b.logical_cores
    && a.physical_cores == b.physical_cores

abbrev pub status_eq : PlacementStatus → PlacementStatus → Bool
status_eq PlacementStatus.uniform_hardware PlacementStatus.uniform_hardware = true
status_eq PlacementStatus.enforced_uniform PlacementStatus.enforced_uniform = true
status_eq PlacementStatus.unrestricted PlacementStatus.unrestricted = true
status_eq _ _ = false

abbrev pub kind_eq : TopologyKind → TopologyKind → Bool
kind_eq TopologyKind.unknown TopologyKind.unknown = true
kind_eq TopologyKind.homogeneous TopologyKind.homogeneous = true
kind_eq TopologyKind.asymmetric TopologyKind.asymmetric = true
kind_eq _ _ = false

-- `CpuPlacement::process_compatible` of src/platform/placement.rs
unfoldable pub process_compatible : CpuPlacement → CpuPlacement → Bool
process_compatible a b =
    status_eq a.status b.status
    && option_eq str_eq a.core_class b.core_class
    && list_eq a.effective_cpus b.effective_cpus
    && str_eq a.enforcement b.enforcement
    && kind_eq a.topology.kind b.topology.kind

-- `CpuPlacement::compatible`
unfoldable pub compatible : CpuPlacement → CpuPlacement → Bool
unfolding process_compatible
compatible a b =
    process_compatible a b
    && option_eq list_eq a.thread_affinity_requested b.thread_affinity_requested
    && option_eq list_eq a.thread_affinity_effective b.thread_affinity_effective

module _ {f : Float} where
  -- `comparisons.iter().find(|c| c.group_name == name)`
  abbrev pub group_named : List (ComparisonResult f) → Text → Option (ComparisonResult f)
  group_named groups name = find (λ g. list_eq g.group_name name) groups

  abbrev pub group_compatible : ComparisonResult f → Option (ComparisonResult f) → Bool
  group_compatible group none = true
  group_compatible group (some previous) =
      option_eq compatible group.cpu_placement previous.cpu_placement

  -- whether `SuiteResult::check_cpu_compatibility` of src/results.rs is `Ok`
  unfoldable pub cpu_compatible : Run f → Run f → Bool
  unfolding compatible
  cpu_compatible a b =
      option_eq compatible a.cpu_placement b.cpu_placement
      && all (λ g. group_compatible g (group_named b.comparisons g.group_name)) a.comparisons
