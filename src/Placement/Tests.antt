-- ===== src/Placement/Tests.antt =====
-- Tests of the placement model, and the witnesses of its theorems, on a machine with two
-- performance CPUs and two efficiency CPUs.
use zenbench.Prelude.{
  ℕ, zero, suc, ◌*◌, ◌<◌, Option, if◌then◌else◌, ltb, ◌++◌, length, ◌≡◌, ◌≢◌, refl, true, false,
  none, some, List, [], ◌∷◌, ok, err, ◌↔◌, contains, All, ◌⊎◌,
}
use zenbench.Prelude.Sort.{sort_dedup, IsRising}
use zenbench.Placement.{
  CpuPolicy, TopologyKind, CoreClass, CpuTopology, select, SelectError, PlacementStatus,
  CpuPlacement, is_unknown, is_ranked, parse_policy, policy_name, select_ranked, class_for,
  only_class,
}
use zenbench.Placement.Select.{parse_policy-policy_name, select_sound, IsSelected}
use zenbench.Placement.Observer.{ObserverSelection, select_observer, select_observer_sound}
use zenbench.Placement.Resolve.{Boundary, placed, resolve, resolve_class, PlacementError}
use zenbench.Placement.Certified.{IsGranted, resolve_sound}
use zenbench.Placement.Classes.{
  Entry, Key, group_classes, in_classes, in_entries, IsTidy, group_classes_exact, push_entries,
  push_entry,
}
use zenbench.Placement.Session.{Machine, Process, SessionError, Target, start, install}
use zenbench.Placement.Started.{IsStarted, start-IsStarted}
use zenbench.Placement.Windows
use zenbench.Placement.Windows.{decode}
use zenbench.Placement.Cached.{caches_in}
use zenbench.Placement.Recorded.{group_masks}
use zenbench.Placement.Readback.{
  Answer, Call, IsReadback, ReadError, Status, read_with, read_with-IsReadback,
}
use zenbench.Placement.Decoded.{IsInventory, decode-IsInventory}

abbrev big : CoreClass
big = record {
  name = "performance";
  cpus = 0 ∷ 1 ∷ [];
  logical_cpu_count = 2;
  performance_rank = some 2;
}

abbrev little : CoreClass
little = record {
  name = "efficiency";
  cpus = 2 ∷ 3 ∷ [];
  logical_cpu_count = 2;
  performance_rank = some 1;
}

abbrev machine : CpuTopology
machine = record {
  kind = TopologyKind.asymmetric;
  classes = big ∷ little ∷ [];
  source = "cpu_capacity";
  diagnostic = none;
}

abbrev boundary : Boundary
boundary = ok (2 ∷ 3 ∷ [], "cpuset")

abbrev placement : CpuPlacement
placement =
    placed machine CpuPolicy.efficiency none boundary PlacementStatus.enforced_uniform
      (some "efficiency")

selects_little : select machine CpuPolicy.efficiency ≡ ok (2 ∷ 3 ∷ [])
unfolding select select_ranked only_class
selects_little = refl

selects_big : select machine CpuPolicy.performance ≡ ok (0 ∷ 1 ∷ [])
unfolding select select_ranked only_class
selects_big = refl

refuses_auto : select machine CpuPolicy.auto ≡ err SelectError.needs_topology_and_policy
unfolding select
refuses_auto = refl

select_sound_example :
    (is_unknown machine.kind ≡ false)
    × (is_ranked CpuPolicy.efficiency ≡ true)
    × IsSelected CpuPolicy.efficiency machine.classes (2 ∷ 3 ∷ [])
select_sound_example = select_sound machine CpuPolicy.efficiency (2 ∷ 3 ∷ []) selects_little

parse_policy-policy_name_example :
    parse_policy (policy_name CpuPolicy.efficiency) ≡ ok CpuPolicy.efficiency
parse_policy-policy_name_example = parse_policy-policy_name CpuPolicy.efficiency

resolves : resolve machine CpuPolicy.efficiency none boundary ≡ ok placement
unfolding resolve resolve_class class_for select select_ranked only_class
resolves = refl

resolve_sound_example : IsGranted machine CpuPolicy.efficiency none boundary placement
resolve_sound_example = resolve_sound machine CpuPolicy.efficiency none boundary placement resolves

-- The performance policy is refused in a boundary of efficiency CPUs.
refuses_wrong_class :
    resolve machine CpuPolicy.performance none boundary ≡ err PlacementError.wrong_class
unfolding resolve resolve_class class_for select select_ranked only_class
refuses_wrong_class = refl

observes :
    select_observer placement (some (3 ∷ 2 ∷ [])) (some (2 ∷ []))
    ≡ ObserverSelection.outside_coordinator_mask (3 ∷ [])
unfolding select_observer sort_dedup
observes = refl

select_observer_sound_example :
    (placement.status ≢ PlacementStatus.unrestricted)
    × ((placement.enforcement ≡ "cpuset")
        ⊎ (placement.enforcement ≡ "job_affinity")
        ⊎ (placement.enforcement ≡ "process_mask"))
    × ((let cpus : List ℕ = 3 ∷ [] in cpus) ≢ [])
    × IsRising (3 ∷ [])
    × ((o : List ℕ) × (m : List ℕ) × (some (3 ∷ 2 ∷ []) ≡ some o)
        × (some (2 ∷ []) ≡ some m)
        × ((cpu : ℕ)
            → (contains (3 ∷ []) cpu ≡ true) ↔ (
                (contains o cpu ≡ true)
                × (contains m cpu ≡ false)
                × (contains placement.effective_cpus cpu ≡ true))))
select_observer_sound_example =
    select_observer_sound placement (some (3 ∷ 2 ∷ [])) (some (2 ∷ [])) (3 ∷ []) observes

abbrev entries : List Entry
entries =
    (3, "efficiency", some 1)
    ∷ (0, "performance", some 2)
    ∷ (2, "efficiency", some 1)
    ∷ (1, "performance", some 2)
    ∷ []

groups_two_classes : group_classes entries "cpu_capacity" false ≡ record {
  kind = TopologyKind.asymmetric;
  classes = little ∷ big ∷ [];
  source = "cpu_capacity";
  diagnostic = none;
}
unfolding group_classes push_entries push_entry sort_dedup
groups_two_classes = refl

group_classes_exact_example :
    let t = group_classes entries "cpu_capacity" false in
    ((k : Key) (cpu : ℕ) → in_classes k cpu t.classes ≡ in_entries k cpu entries)
    × All IsTidy t.classes
    × (false ≡ true → t.kind ≡ TopologyKind.unknown)
group_classes_exact_example = group_classes_exact entries "cpu_capacity" false

-- A system that gives what it is asked for: its state is the mask of the process.
abbrev obliging : Machine (List ℕ) ℕ
obliging = record {
  topology = λ w. machine;
  cpuset_boundary = λ w. ok w;
  get_process_affinity = λ w. ok w;
  set_process_affinity = λ cpus w. ok cpus;
  create_job = λ mask w. ok (mask, w);
  assign_current_process = λ job w. ok w;
}

abbrev fresh : List ℕ → Process (List ℕ)
fresh cpus = record { world = cpus; job_installed = false; process_cpus = none }

abbrev fixed : Process (List ℕ)
fixed = record { world = 2 ∷ 3 ∷ []; job_installed = true; process_cpus = some (2 ∷ 3 ∷ []) }

starts :
    start obliging Target.linux
      (ok (some CpuPolicy.efficiency, none))
      (some CpuPolicy.performance)
      none
      (fresh (2 ∷ 3 ∷ []))
    ≡ ok (placement, fresh (2 ∷ 3 ∷ []))
unfolding start resolve resolve_class class_for select select_ranked only_class
starts = refl

abbrev under_job : CpuPlacement
under_job = record placement { enforcement = "job_affinity" }

starts_on_windows :
    start obliging Target.windows
      (ok (some CpuPolicy.efficiency, none))
      (some CpuPolicy.performance)
      none
      (fresh (0 ∷ 1 ∷ 2 ∷ 3 ∷ []))
    ≡ ok (under_job, fixed)
unfolding start resolve resolve_class class_for select select_ranked only_class install
starts_on_windows = refl

-- A later start of another class is refused, and changes nothing.
fixed_for_lifetime :
    start obliging Target.windows (ok (some CpuPolicy.performance, none)) none none fixed
    ≡ err (SessionError.fixed_for_lifetime, fixed)
unfolding start resolve resolve_class class_for select select_ranked only_class install
fixed_for_lifetime = refl

start-IsStarted_example :
    IsStarted obliging Target.windows
      (some CpuPolicy.efficiency)
      (some CpuPolicy.performance)
      none
      none
      (fresh (0 ∷ 1 ∷ 2 ∷ 3 ∷ []))
      fixed
      under_job
start-IsStarted_example =
    start-IsStarted obliging Target.windows (some CpuPolicy.efficiency) (some CpuPolicy.performance)
      none none (fresh (0 ∷ 1 ∷ 2 ∷ 3 ∷ [])) fixed under_job starts_on_windows

abbrev zeros : ℕ → List ℕ
zeros zero = []
zeros (suc n) = 0 ∷ zeros n

-- the bytes of a word with one byte that is not zero, and of a mask of processors
abbrev dword : ℕ → List ℕ
dword b = b ∷ zeros 3

-- a core of two processors, their cache and their group
abbrev core_bytes : List ℕ
core_bytes = dword 0 ++ dword 48 ++ (0 ∷ 1 ∷ zeros 20) ++ (1 ∷ 0 ∷ []) ++ (3 ∷ zeros 15)

abbrev cache_bytes : List ℕ
cache_bytes =
    dword 2
    ++ dword 56
    ++ dword 2
    ++ (0 ∷ 16 ∷ zeros 2)
    ++ zeros 22
    ++ (1 ∷ 0 ∷ [])
    ++ (3 ∷ zeros 15)

abbrev group_bytes : List ℕ
group_bytes =
    dword 4
    ++ dword 80
    ++ (1 ∷ 0 ∷ 1 ∷ 0 ∷ [])
    ++ zeros 20
    ++ (2 ∷ 2 ∷ [])
    ++ zeros 38
    ++ (3 ∷ zeros 7)

abbrev machine_bytes : List ℕ
machine_bytes = core_bytes ++ cache_bytes ++ group_bytes

abbrev on_cpu : ℕ → Windows.Entry
on_cpu cpu = record { cpu = cpu; rank = 1; last_level = 2; sizes = 4096 ∷ [] }

decode_machine : decode machine_bytes ≡ ok (on_cpu 0 ∷ on_cpu 1 ∷ [])
unfolding decode
decode_machine = refl

decode-IsInventory_example :
    (active : ℕ) × ((group_masks (length machine_bytes) machine_bytes ≡ active ∷ []) × (0 < active))
    × IsInventory active (caches_in (length machine_bytes) machine_bytes) (on_cpu 0 ∷ on_cpu 1 ∷ [])
decode-IsInventory_example =
    decode-IsInventory machine_bytes (on_cpu 0 ∷ on_cpu 1 ∷ []) decode_machine

-- a system whose topology grows from 16 to 24 bytes before it is read
abbrev growing : List Call → Option ℕ → ℕ → Answer
growing calls none given = record { status = Status.insufficient; reported = 16; bytes = [] }
growing calls (some words) given =
    if ltb 1 (length calls)
    then record { status = Status.done; reported = 24; bytes = zeros (8 * words) }
    else record { status = Status.insufficient; reported = 24; bytes = [] }

reads_growing :
    read_with (λ words. true) growing
    ≡ ((some 3, 24) ∷ (some 2, 16) ∷ (none, 0) ∷ [], ok (zeros 24))
unfolding read_with
reads_growing = refl

reads_full : read_with (λ words. false) growing ≡ ((none, 0) ∷ [], err ReadError.no_memory)
unfolding read_with
reads_full = refl

read_with-IsReadback_example :
    IsReadback (λ words. true) growing (read_with (λ words. true) growing)
read_with-IsReadback_example = read_with-IsReadback (λ words. true) growing
