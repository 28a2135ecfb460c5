-- ===== src/Placement.antt =====
-- src/platform/placement.rs: the process-level CPU class policy. The kinds, the placement record
-- and the choice of a class are here; `Resolve` decides a placement, `Observer` picks the CPUs of
-- the resource sampler, `Classes` groups CPUs into classes, `Session` holds a decided placement.
-- Names and mechanisms are texts; an error carries what the program's messages tell apart.
pub mod Select
pub mod Resolve
pub mod Certified
pub mod Observer
pub mod Classes
pub mod Session
pub mod Fixed
pub mod Started
pub mod Windows
mod Enough
pub mod Readback
pub mod Inserted
pub mod Recorded
pub mod Cached
pub mod Picked
pub mod Decoded
mod Tests
use zenbench.Prelude.{
  ℕ, Bool, true, false, Option, none, some, List, [], ◌∷◌, if◌then◌else◌, ltb, ◌==◌, not, ◌&&◌,
  ◌||◌, contains, all, any, find, keep, length, Result, ok, err, ◌≡◌, refl, max, min, ◌>>=◌, ◌>>◌,
  fail_if,
}
use Prim.Native.String.{String}
use text.Mathlib.Text.{◌==◌ as str_eq, starts_with}

pub data CpuPolicy : Type 0 where
  auto performance efficiency unrestricted : CpuPolicy

-- `CpuPolicy::parse`; the error is the text that was refused.
unfoldable pub parse_policy : String → Result String CpuPolicy
parse_policy value =
    if str_eq value "auto"
    then ok CpuPolicy.auto
    else if str_eq value "performance"
    then ok CpuPolicy.performance
    else if str_eq value "efficiency"
    then ok CpuPolicy.efficiency
    else if str_eq value "unrestricted"
    then ok CpuPolicy.unrestricted
    else err value

-- `CpuPolicy::name`
unfoldable pub policy_name : CpuPolicy → String
policy_name CpuPolicy.auto = "auto"
policy_name CpuPolicy.performance = "performance"
policy_name CpuPolicy.efficiency = "efficiency"
policy_name CpuPolicy.unrestricted = "unrestricted"

pub data TopologyKind : Type 0 where
  homogeneous asymmetric unknown : TopologyKind

pub record CoreClass : Type 0 where
  pub name : String
  pub cpus : List ℕ
  pub logical_cpu_count : ℕ
  pub performance_rank : Option ℕ

pub record CpuTopology : Type 0 where
  pub kind : TopologyKind
  pub classes : List CoreClass
  pub source : String
  pub diagnostic : Option String

-- `CpuTopology::unknown`
abbrev pub unknown_topology : String → CpuTopology
unknown_topology message = record {
  kind = TopologyKind.unknown;
  classes = [];
  source = "unavailable";
  diagnostic = some message;
}

-- `iter().all(|cpu| set.contains(cpu))`
abbrev pub subset : List ℕ → List ℕ → Bool
subset xs set = all (contains set) xs

-- `CpuTopology::class_for`
unfoldable pub class_for : CpuTopology → List ℕ → Option CoreClass
class_for t [] = none
class_for t (cpu ∷ cpus) = find (λ c. subset (cpu ∷ cpus) c.cpus) t.classes

abbrev pub is_unknown : TopologyKind → Bool
is_unknown TopologyKind.unknown = true
is_unknown _ = false

abbrev pub is_asymmetric : TopologyKind → Bool
is_asymmetric TopologyKind.asymmetric = true
is_asymmetric _ = false

abbrev pub is_homogeneous : TopologyKind → Bool
is_homogeneous TopologyKind.homogeneous = true
is_homogeneous _ = false

-- `matches!(policy, CpuPolicy::Performance | CpuPolicy::Efficiency)`
abbrev pub is_ranked : CpuPolicy → Bool
is_ranked CpuPolicy.performance = true
is_ranked CpuPolicy.efficiency = true
is_ranked _ = false

pub data SelectError : Type 0 where
  needs_topology_and_policy : SelectError
  class_unavailable : SelectError
  no_complete_ranking : SelectError
  ambiguous_class : SelectError

-- The prefix that a class name has under the policy.
abbrev pub required_name : CpuPolicy → String
required_name CpuPolicy.performance = "performance"
required_name _ = "efficiency"

-- `classes.iter().filter_map(|c| c.performance_rank)`
abbrev pub ranks : List CoreClass → List ℕ
ranks [] = []
ranks (c ∷ cs) = elim c.performance_rank [ none ↦ ranks cs | some r ↦ r ∷ ranks cs ]

-- `ranks.iter().max()` and `min()`, of a first rank and the others
abbrev pub max_rank : ℕ → List ℕ → ℕ
max_rank r [] = r
max_rank r (s ∷ ss) = max_rank (max r s) ss

abbrev pub min_rank : ℕ → List ℕ → ℕ
min_rank r [] = r
min_rank r (s ∷ ss) = min_rank (min r s) ss

abbrev pub best_rank : CpuPolicy → ℕ → List ℕ → ℕ
best_rank CpuPolicy.performance r rs = max_rank r rs
best_rank _ r rs = min_rank r rs

abbrev pub has_rank : ℕ → CoreClass → Bool
has_rank r c = elim c.performance_rank [ none ↦ false | some s ↦ s == r ]

-- the one candidate that `select` takes
unfoldable pub only_class : List CoreClass → Result SelectError (List ℕ)
only_class (c ∷ []) = elim c.cpus [
  | [] ↦ err SelectError.ambiguous_class
  | cpu ∷ cpus ↦ ok (cpu ∷ cpus)
]
only_class _ = err SelectError.ambiguous_class

-- from the ranks on
unfoldable pub select_ranked : CpuPolicy → List CoreClass → List ℕ → Result SelectError (List ℕ)
unfolding only_class
select_ranked policy classes [] = err SelectError.no_complete_ranking
select_ranked policy classes (r ∷ rs) =
    if not (length (r ∷ rs) == length classes)
    then err SelectError.no_complete_ranking
    else only_class (keep (has_rank (best_rank policy r rs)) classes)

-- the guard for a process that sees only part of an asymmetric machine
abbrev pub missing_in_process : CpuPolicy → CpuTopology → Bool
missing_in_process policy t =
    str_eq t.source "windows_process_cpuid"
    && is_asymmetric t.kind
    && not (any (λ c. starts_with c.name (required_name policy)) t.classes)

-- `CpuTopology::select`
unfoldable pub select : CpuTopology → CpuPolicy → Result SelectError (List ℕ)
unfolding select_ranked
select t policy = do
  fail_if (is_unknown t.kind || not (is_ranked policy)) SelectError.needs_topology_and_policy
  fail_if (missing_in_process policy t) SelectError.class_unavailable
  select_ranked policy t.classes (ranks t.classes)

pub data PlacementStatus : Type 0 where
  uniform_hardware enforced_uniform unrestricted : PlacementStatus

pub record CpuPlacement : Type 0 where
  pub policy : CpuPolicy
  pub topology : CpuTopology
  pub status : PlacementStatus
  pub core_class : Option String
  pub effective_cpus : List ℕ
  pub requested_cpus : Option (List ℕ)
  pub thread_affinity_requested : Option (List ℕ)
  pub thread_affinity_effective : Option (List ℕ)
  pub enforcement : String
