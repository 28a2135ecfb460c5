-- ===== src/Placement/Observer.antt =====
-- src/platform/placement.rs: the CPUs of the resource sampler, `CpuPlacement::select_observer`, on
-- the systems that have thread masks (Linux and Windows).
use zenbench.Prelude.{
  ℕ, ◌≡◌, ◌≢◌, Bool, true, false, Option, none, some, List, [], ◌∷◌, ◌==◌, not, ◌&&◌, ◌||◌,
  contains, keep, if◌then◌else◌, arith, Bool-cases, Option-cases, inl, inr, ◌∙◌, subst, sym, ap,
  ◌⊎◌, ◌↔◌,
}
use Prim.Native.String.{String}
use text.Mathlib.Text.{◌==◌ as str_eq}
use text.Mathlib.TextEquality.{eq_iff}
use zenbench.Prelude.Sort.{sort_dedup, contains-sort_dedup, sort_dedup-IsRising, IsRising}
use zenbench.Placement.{PlacementStatus, CpuPlacement}

pub data ObserverSelection : Type 0 where
  outside_coordinator_mask : List ℕ → ObserverSelection
  inherited : String → ObserverSelection

abbrev pub is_verified : PlacementStatus → Bool
is_verified PlacementStatus.uniform_hardware = true
is_verified PlacementStatus.enforced_uniform = true
is_verified PlacementStatus.unrestricted = false

-- `matches!(enforcement, "cpuset" | "job_affinity" | "process_mask")`
abbrev pub is_boundary : String → Bool
is_boundary e = str_eq e "cpuset" || (str_eq e "job_affinity" || str_eq e "process_mask")

abbrev pub is_empty : List ℕ → Bool
is_empty [] = true
is_empty (x ∷ xs) = false

-- the CPUs that `select_observer` filters
abbrev pub is_spare : List ℕ → List ℕ → ℕ → Bool
is_spare original measurement cpu = contains original cpu && not (contains measurement cpu)

-- the end of `select_observer`
abbrev spare_or_inherited : List ℕ → ObserverSelection
spare_or_inherited spare =
    if is_empty spare
    then ObserverSelection.inherited "no_spare"
    else ObserverSelection.outside_coordinator_mask spare

-- `CpuPlacement::select_observer`
unfoldable pub select_observer :
    CpuPlacement → Option (List ℕ) → Option (List ℕ) → ObserverSelection
unfolding sort_dedup
select_observer p original measurement =
    if not (is_verified p.status)
    then ObserverSelection.inherited "unrestricted"
    else if not (is_boundary p.enforcement) || is_empty p.effective_cpus
    then ObserverSelection.inherited "no_boundary"
    else elim original [
      | none ↦ ObserverSelection.inherited "unsupported_os"
      | some o ↦ elim measurement [
        | none ↦ ObserverSelection.inherited "no_pin"
        | some m ↦ spare_or_inherited (sort_dedup (keep (is_spare o m) p.effective_cpus))
      ]
    ]

contains-keep :
    (q : ℕ → Bool) (cpu : ℕ) (xs : List ℕ) → contains (keep q xs) cpu ≡ (q cpu && contains xs cpu)
contains-keep q cpu [] = ground arith
contains-keep q cpu (x ∷ xs) = elim (Bool-cases (x == cpu)) [
  | inl same ↦ let e : x ≡ cpu = ground arith in ground (arith, contains-keep q cpu xs, ap q e)
  | inr other ↦ ground (arith, contains-keep q cpu xs)
]

boundary_iff :
    (e : String)
    → is_boundary e ≡ true
    → (e ≡ "cpuset") ⊎ (e ≡ "job_affinity") ⊎ (e ≡ "process_mask")
boundary_iff e h =
    ground (arith, eq_iff e "cpuset", eq_iff e "job_affinity", eq_iff e "process_mask")

verified_iff : (s : PlacementStatus) → is_verified s ≡ true → s ≢ PlacementStatus.unrestricted
verified_iff PlacementStatus.uniform_hardware h e = cc
verified_iff PlacementStatus.enforced_uniform h e = cc
verified_iff PlacementStatus.unrestricted h e = cc

spare_iff : (a b c : Bool) → ((a && not b) && c ≡ true) ↔ ((a ≡ true) × (b ≡ false) × (c ≡ true))
spare_iff a b c = ground arith

-- Observer CPUs are selected only under a placement that is not unrestricted, with a boundary that
-- a cpuset, a job or a process mask enforces, a known original mask and a pin. They are then not
-- empty and in rising order, and a CPU is among them exactly if it is in the boundary and in the
-- original mask and not in the pin.
pub select_observer_sound :
    (p : CpuPlacement) (original measurement : Option (List ℕ)) (cpus : List ℕ)
    → select_observer p original measurement ≡ ObserverSelection.outside_coordinator_mask cpus
    → (p.status ≢ PlacementStatus.unrestricted)
      × ((p.enforcement ≡ "cpuset")
          ⊎ (p.enforcement ≡ "job_affinity")
          ⊎ (p.enforcement ≡ "process_mask"))
      × (cpus ≢ [])
      × IsRising cpus
      × ((o : List ℕ) × (m : List ℕ) × (original ≡ some o)
          × (measurement ≡ some m)
          × ((cpu : ℕ)
              → (contains cpus cpu ≡ true) ↔ (
                  (contains o cpu ≡ true)
                  × (contains m cpu ≡ false)
                  × (contains p.effective_cpus cpu ≡ true))))
unfolding select_observer
select_observer_sound p original measurement cpus e = elim (Option-cases original) [
  | inl unread ↦ absurd (ground arith)
  | inr (o, here) ↦ elim (Option-cases measurement) [
    | inl unpinned ↦ absurd (ground arith)
    | inr (m, pinned) ↦
        let spare = sort_dedup (keep (is_spare o m) p.effective_cpus) in
        let same : cpus ≡ spare = ground arith in
        (
          verified_iff p.status (ground arith),
          boundary_iff p.enforcement (ground arith),
          ground arith,
          subst IsRising (sym same) (sort_dedup-IsRising (keep (is_spare o m) p.effective_cpus)),
          (
            o,
            m,
            here,
            pinned,
            λ cpu.
                subst
                  (λ b. (b ≡ true) ↔ (
                    (contains o cpu ≡ true)
                    × (contains m cpu ≡ false)
                    × (contains p.effective_cpus cpu ≡ true)))
                  (sym (
                    ap (λ l. contains l cpu) same
                    ∙ contains-sort_dedup cpu (keep (is_spare o m) p.effective_cpus)
                    ∙ contains-keep (is_spare o m) cpu p.effective_cpus))
                  (spare_iff (contains o cpu) (contains m cpu) (contains p.effective_cpus cpu)),
          ),
        )
  ]
]
