-- ===== src/Inference/Placed.antt =====
-- src/platform/placement.rs, src/results.rs and src/inference.rs: the placements, the executions and
-- the runs that the inference takes for the same.
use zenbench.Prelude.{
  ℕ, ◌≡◌, refl, subst, Bool, true, false, Option, none, some, List, [], ◌∷◌, all, All, ◌||◌, ==_iff,
  list_eq, list_eq→eq, arith, inl, inr, Bool-cases, ◌⊎◌, &&-eq-true,
}
use Prim.Native.String.{String}
use text.Mathlib.Text.{◌==◌ as str_eq}
use text.Mathlib.TextEquality.{eq_iff}
use zenbench.Prelude.Float.{Float}
use zenbench.Prelude.Text.{Text, byte_length}
use zenbench.Placement.{CpuPlacement, PlacementStatus, TopologyKind}
use zenbench.Plan.{BenchmarkMode, BenchmarkPlan}
use zenbench.Inference.{
  ComparisonResult, ExecutionRecord, Run, Testbed, compatible, cpu_compatible, group_compatible,
  group_named, kind_eq, option_eq, process_compatible, status_eq, testbed_eq,
}
use zenbench.Inference.Issues.{
  is_uniform, mode_eq, num_eq, plan_eq, same_execution, same_workload, workload_signature,
}
use zenbench.Inference.Tested.{option_eq-cases, option_eq→eq, texts_eq→eq}

-- Two placements of one process: the same status, class, CPUs, mechanism and kind of topology, and
-- the same affinity of the thread.
pub record IsSamePlacement (a b : CpuPlacement) : Type 0 where
  pub status : a.status ≡ b.status
  pub core_class : a.core_class ≡ b.core_class
  pub cpus : a.effective_cpus ≡ b.effective_cpus
  pub mechanism : a.enforcement ≡ b.enforcement
  pub kind : a.topology.kind ≡ b.topology.kind
  pub requested : a.thread_affinity_requested ≡ b.thread_affinity_requested
  pub effective : a.thread_affinity_effective ≡ b.thread_affinity_effective

-- Both have no placement, or both have the same.
abbrev pub AreSamePlaced : Option CpuPlacement → Option CpuPlacement → Type 0
AreSamePlaced o p =
    ((o ≡ none) × (p ≡ none))
    ⊎ ((a : CpuPlacement) × (b : CpuPlacement) × (o ≡ some a) × (p ≡ some b) × IsSamePlacement a b)

status_eq→eq : (a b : PlacementStatus) → status_eq a b ≡ true → a ≡ b
status_eq→eq PlacementStatus.uniform_hardware PlacementStatus.uniform_hardware h = refl
status_eq→eq PlacementStatus.enforced_uniform PlacementStatus.enforced_uniform h = refl
status_eq→eq PlacementStatus.unrestricted PlacementStatus.unrestricted h = refl
status_eq→eq a b h = ground (arith, h)

str_eq→eq : (a b : String) → str_eq a b ≡ true → a ≡ b
str_eq→eq a b h = (eq_iff a b).0 h

kind_eq→eq : (a b : TopologyKind) → kind_eq a b ≡ true → a ≡ b
kind_eq→eq TopologyKind.unknown TopologyKind.unknown h = refl
kind_eq→eq TopologyKind.homogeneous TopologyKind.homogeneous h = refl
kind_eq→eq TopologyKind.asymmetric TopologyKind.asymmetric h = refl
kind_eq→eq a b h = ground (arith, h)

compatible-IsSamePlacement : (a b : CpuPlacement) → compatible a b ≡ true → IsSamePlacement a b
unfolding compatible process_compatible
compatible-IsSamePlacement a b h =
    let (rest, eff) = &&-eq-true _ _ h in
    let (process, req) = &&-eq-true _ _ rest in
    let (four, kind) = &&-eq-true _ _ process in
    let (three, mechanism) = &&-eq-true _ _ four in
    let (two, cpus) = &&-eq-true _ _ three in
    let (status, class) = &&-eq-true _ _ two in
    record {
      status = status_eq→eq _ _ status;
      core_class = option_eq→eq str_eq str_eq→eq _ _ class;
      cpus = list_eq→eq _ _ cpus;
      mechanism = str_eq→eq _ _ mechanism;
      kind = kind_eq→eq _ _ kind;
      requested = option_eq→eq list_eq list_eq→eq _ _ req;
      effective = option_eq→eq list_eq list_eq→eq _ _ eff;
    }

testbed_eq→eq : (a b : Testbed) → testbed_eq a b ≡ true → a ≡ b
testbed_eq→eq a b h =
    let (four, physical) = &&-eq-true _ _ h in
    let (three, logical) = &&-eq-true _ _ four in
    let (two, os) = &&-eq-true _ _ three in
    let (cpu, arch) = &&-eq-true _ _ two in
    same _ _ _ _ _ _ _ _ _ _ (list_eq→eq _ _ cpu) (list_eq→eq _ _ arch) (list_eq→eq _ _ os)
      ((==_iff _ _).0 logical) ((==_iff _ _).0 physical)
  where
    same :
        (c d e g k l : Text) (m n o p : ℕ)
        → c ≡ d
        → e ≡ g
        → k ≡ l
        → m ≡ n
        → o ≡ p
        → Path Testbed
            (record { cpu_model = c; arch = e; os = k; logical_cores = m; physical_cores = o })
            (record { cpu_model = d; arch = g; os = l; logical_cores = n; physical_cores = p })
    same c d e g k l m n o p x y z u v = cc

pub same_testbed : (o p : Option Testbed) → option_eq testbed_eq o p ≡ true → o ≡ p
same_testbed o p h = option_eq→eq testbed_eq testbed_eq→eq o p h

mode_eq→eq : (a b : BenchmarkMode) → mode_eq a b ≡ true → a ≡ b
mode_eq→eq BenchmarkMode.iterate BenchmarkMode.iterate h = refl
mode_eq→eq BenchmarkMode.confirm BenchmarkMode.confirm h = refl
mode_eq→eq BenchmarkMode.evidence BenchmarkMode.evidence h = refl
mode_eq→eq a b h = ground (arith, h)

num_eq→eq : (a b : ℕ) → num_eq a b ≡ true → a ≡ b
num_eq→eq a b h = (==_iff a b).0 h

-- Floats that are equal: each at most the other.
abbrev pub AreEqual : (f : Float) → f.F → f.F → Type 0
AreEqual f x y = (f.fle x y ≡ true) × (f.fle y x ≡ true)

same_placed : (o p : Option CpuPlacement) → option_eq compatible o p ≡ true → AreSamePlaced o p
same_placed o p h = elim (option_eq-cases compatible o p h) [
  | inl none_placed ↦ inl none_placed
  | inr (a, b, g, k, e) ↦ inr (a, b, g, k, compatible-IsSamePlacement a b e)
]

module _ {f : Float} where
  -- The same plan, field by field.
  pub record IsSamePlan (a b : BenchmarkPlan f) : Type 0 where
    pub mode : a.mode ≡ b.mode
    pub processes : a.processes ≡ b.processes
    pub rounds : a.rounds ≡ b.rounds
    pub margin : AreEqual f a.margin_pct b.margin_pct
    pub confidence : AreEqual f a.confidence b.confidence
    pub workload : a.workload_id ≡ b.workload_id
    pub scope : a.scope ≡ b.scope
    pub timeout : a.timeout ≡ b.timeout

  plan_eq-IsSamePlan : (a b : BenchmarkPlan f) → plan_eq a b ≡ true → IsSamePlan a b
  unfolding plan_eq
  plan_eq-IsSamePlan a b h =
      let (seven, timeout) = &&-eq-true _ _ h in
      let (six, scope) = &&-eq-true _ _ seven in
      let (five, workload) = &&-eq-true _ _ six in
      let (four, confidence) = &&-eq-true _ _ five in
      let (three, margin) = &&-eq-true _ _ four in
      let (two, rounds) = &&-eq-true _ _ three in
      let (mode, processes) = &&-eq-true _ _ two in
      record {
        mode = mode_eq→eq _ _ mode;
        processes = (==_iff _ _).0 processes;
        rounds = option_eq→eq num_eq num_eq→eq _ _ rounds;
        margin = &&-eq-true _ _ margin;
        confidence = &&-eq-true _ _ confidence;
        workload = option_eq→eq list_eq list_eq→eq _ _ workload;
        scope = option_eq→eq list_eq list_eq→eq _ _ scope;
        timeout = (==_iff _ _).0 timeout;
      }

  -- An execution of the same protocol, plan, binary (a digest of 64 bytes) and timer.
  pub record IsSameExecution (e : ExecutionRecord f) (o : Option (ExecutionRecord f)) : Type 0 where
    pub x : ExecutionRecord f
    pub executed : o ≡ some x
    pub protocol : x.protocol ≡ e.protocol
    pub plan : IsSamePlan x.plan e.plan
    pub binary : x.binary_sha256 ≡ e.binary_sha256
    pub digest : byte_length x.binary_sha256 ≡ 64
    pub timer : x.timer_backend ≡ e.timer_backend

  pub same_execution-IsSameExecution :
      (e : ExecutionRecord f) (o : Option (ExecutionRecord f))
      → same_execution e o ≡ true
      → IsSameExecution e o
  unfolding same_execution
  same_execution-IsSameExecution e none h = absurd (ground (arith, h))
  same_execution-IsSameExecution e (some x) h =
      let (four, timer) = &&-eq-true _ _ h in
      let (three, digest) = &&-eq-true _ _ four in
      let (two, binary) = &&-eq-true _ _ three in
      let (protocol, plan) = &&-eq-true _ _ two in
      record {
        x = x;
        executed = refl;
        protocol = list_eq→eq _ _ protocol;
        plan = plan_eq-IsSamePlan _ _ plan;
        binary = list_eq→eq _ _ binary;
        digest = (==_iff _ _).0 digest;
        timer = list_eq→eq _ _ timer;
      }

  -- Runs in the same placement, and so each group and the first of its name in the other run.
  pub record AreSameRuns (a b : Run f) : Type 0 where
    pub process : AreSamePlaced a.cpu_placement b.cpu_placement
    pub groups :
        All
          (λ (g : ComparisonResult f).
            (previous : ComparisonResult f)
            → group_named b.comparisons g.group_name ≡ some previous
            → AreSamePlaced g.cpu_placement previous.cpu_placement)
          a.comparisons

  same_groups :
      (others gs : List (ComparisonResult f))
      → all (λ (g : ComparisonResult f). group_compatible g (group_named others g.group_name)) gs
        ≡ true
      → All
          (λ (g : ComparisonResult f).
            (previous : ComparisonResult f)
            → group_named others g.group_name ≡ some previous
            → AreSamePlaced g.cpu_placement previous.cpu_placement)
          gs
  same_groups others [] h = tt
  same_groups others (g ∷ gs) h =
      let (here, rest) = &&-eq-true (group_compatible g (group_named others g.group_name)) _ h in
      (
        λ previous e.
            same_placed g.cpu_placement previous.cpu_placement
              (subst (λ o. group_compatible g o ≡ true) e here),
        same_groups others gs rest,
      )

  pub cpu_compatible-AreSameRuns : (a b : Run f) → cpu_compatible a b ≡ true → AreSameRuns a b
  unfolding cpu_compatible
  cpu_compatible-AreSameRuns a b h =
      let (process, groups) =
        &&-eq-true (option_eq compatible a.cpu_placement b.cpu_placement) _ h in
      record {
        process = same_placed _ _ process;
        groups = same_groups b.comparisons a.comparisons groups;
      }

  -- The groups' texts, in the order of their names, are the same.
  pub same_workload-eq :
      (a b : Run f) → same_workload a b ≡ true → workload_signature a ≡ workload_signature b
  same_workload-eq a b h = texts_eq→eq _ _ h

-- The placement is uniform, by its hardware or by an enforced boundary.
abbrev pub IsUniform : Option CpuPlacement → Type 0
IsUniform o =
    (p : CpuPlacement) × (o ≡ some p)
    × ((p.status ≡ PlacementStatus.enforced_uniform)
        ⊎ (p.status ≡ PlacementStatus.uniform_hardware))

pub is_uniform-IsUniform : (o : Option CpuPlacement) → is_uniform o ≡ true → IsUniform o
is_uniform-IsUniform none h = cc
is_uniform-IsUniform (some p) h =
    elim (Bool-cases (status_eq p.status PlacementStatus.enforced_uniform)) [
      | inl e ↦ (p, refl, inl (status_eq→eq _ _ e))
      | inr n ↦ (p, refl, inr (status_eq→eq _ _ (other _ _ h n)))
    ]
  where
    other : (a b : Bool) → (a || b) ≡ true → a ≡ false → b ≡ true
    other a b g k = ground (arith, g, k)
