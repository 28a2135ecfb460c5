-- ===== src/Placement/Resolve.antt =====
-- src/platform/placement.rs: `resolve`, which turns the topology, the policy, the requested set and
-- the boundary that the system enforces into a placement or a refusal.
use zenbench.Prelude.{
  ℕ, Bool, true, false, Option, none, some, List, [], ◌∷◌, if◌then◌else◌, not, ◌&&◌, Result, ok,
  err, list_eq,
}
use Prim.Native.String.{String}
use text.Mathlib.Text.{◌==◌ as str_eq}
use zenbench.Placement.{
  CpuPolicy, CoreClass, CpuTopology, class_for, is_ranked, is_homogeneous, SelectError, select,
  subset, PlacementStatus, CpuPlacement,
}

pub data PlacementError : Type 0 where
  set_under_unrestricted : PlacementError
  not_in_one_class : PlacementError
  set_not_enforced : PlacementError
  selection : SelectError → PlacementError
  wrong_class : PlacementError

-- What the system enforces: a process boundary with its mechanism, or why there is none.
abbrev pub Boundary : Type 0
Boundary = Result String (List ℕ × String)

abbrev pub effective_of : Boundary → List ℕ
effective_of (ok (cpus, mechanism)) = cpus
effective_of (err why) = []

abbrev pub enforcement_of : Boundary → String
enforcement_of (ok (cpus, mechanism)) = mechanism
enforcement_of (err why) = "none"

abbrev pub is_unrestricted : CpuPolicy → Bool
is_unrestricted CpuPolicy.unrestricted = true
is_unrestricted _ = false

abbrev pub is_auto : CpuPolicy → Bool
is_auto CpuPolicy.auto = true
is_auto _ = false

abbrev pub is_some {ℓ} : {A : Type ℓ} → Option A → Bool
is_some none = false
is_some (some a) = true

abbrev pub first_name : List CoreClass → Option String
first_name [] = none
first_name (c ∷ cs) = some c.name

-- A placement with no thread masks yet.
abbrev pub placed :
    CpuTopology
    → CpuPolicy
    → Option (List ℕ)
    → Boundary
    → PlacementStatus
    → Option String
    → CpuPlacement
placed topology policy requested enforced status core_class = record {
  policy = policy;
  topology = topology;
  status = status;
  core_class = core_class;
  effective_cpus = effective_of enforced;
  requested_cpus = requested;
  thread_affinity_requested = none;
  thread_affinity_effective = none;
  enforcement = enforcement_of enforced;
}

-- the check of a requested set: exactly the boundary
abbrev pub set_enforced : Option (List ℕ) → List ℕ → Bool
set_enforced none effective = true
set_enforced (some cpus) effective = list_eq effective cpus

-- the check of a ranked policy
abbrev pub policy_holds : CpuTopology → CpuPolicy → List ℕ → Result PlacementError Bool
policy_holds t policy effective =
    if is_ranked policy
    then elim (select t policy) [
      | err e ↦ err (PlacementError.selection e)
      | ok selected ↦ ok (subset effective selected)
    ]
    else ok true

-- `resolve`, from the search for the one class on
unfoldable pub resolve_class :
    CpuTopology
    → CpuPolicy
    → Option (List ℕ)
    → Boundary
    → CoreClass
    → Result PlacementError CpuPlacement
resolve_class t policy requested enforced c =
    if not (set_enforced requested (effective_of enforced))
    then err PlacementError.set_not_enforced
    else elim (policy_holds t policy (effective_of enforced)) [
      | err e ↦ err e
      | ok holds ↦
          if holds
          then ok
              (placed t policy requested enforced PlacementStatus.enforced_uniform (some c.name))
          else err PlacementError.wrong_class
    ]

-- the test for hardware that needs no boundary
abbrev pub is_uniform_machine : CpuTopology → CpuPolicy → Option (List ℕ) → Bool
is_uniform_machine t policy requested =
    is_homogeneous t.kind
    && (is_auto policy
        && (not (is_some requested) && not (str_eq t.source "windows_process_cpuid")))

-- `resolve`
unfoldable pub resolve :
    CpuTopology → CpuPolicy → Option (List ℕ) → Boundary → Result PlacementError CpuPlacement
unfolding resolve_class
resolve t policy requested enforced =
    if is_unrestricted policy
    then (if is_some requested
        then err PlacementError.set_under_unrestricted
        else ok (placed t policy requested enforced PlacementStatus.unrestricted none))
    else if is_uniform_machine t policy requested
    then ok
        (placed t policy requested enforced PlacementStatus.uniform_hardware (first_name t.classes))
    else elim (class_for t (effective_of enforced)) [
      | none ↦ err PlacementError.not_in_one_class
      | some c ↦ resolve_class t policy requested enforced c
    ]
