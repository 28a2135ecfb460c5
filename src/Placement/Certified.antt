-- ===== src/Placement/Certified.antt =====
-- src/platform/placement.rs: what a placement that `resolve` grants stands for.
use zenbench.Prelude.{
  ℕ, ◌≡◌, ◌≢◌, refl, Bool, true, false, Option, none, some, List, [], ◌∷◌, Result, ok, err,
  get_elem?, list_eq→eq, find-eq-some, arith, Bool-cases, Option-cases, inl, inr, subst, sym,
}
use Prim.Native.String.{String}
use zenbench.Placement.{
  CpuPolicy, TopologyKind, CoreClass, CpuTopology, class_for, is_ranked, SelectError, select,
  subset, PlacementStatus, CpuPlacement,
}
use zenbench.Placement.Resolve.{
  PlacementError, Boundary, effective_of, enforcement_of, is_unrestricted, placed, set_enforced,
  policy_holds, resolve_class, is_uniform_machine, resolve, first_name,
}

class_for-eq-some :
    (t : CpuTopology) (cpus : List ℕ) (c : CoreClass)
    → class_for t cpus ≡ some c
    → (cpus ≢ []) × (subset cpus c.cpus ≡ true) × ((i : ℕ) × (get_elem? t.classes i ≡ some c))
unfolding class_for
class_for-eq-some t [] c e = cc
class_for-eq-some t (x ∷ xs) c e =
    let (i, there, holds) = find-eq-some (λ d. subset (x ∷ xs) d.cpus) t.classes c e in
    (λ q. cc, holds, (i, there))

-- The boundary of the process lies in one class, and is the requested set and in the class that
-- the policy selects, where these are asked for.
pub record IsEnforced (t : CpuTopology) (policy : CpuPolicy) (requested : Option (List ℕ))
    (cpus : List ℕ) (core_class : Option String) : Type 0 where
  pub restricted : is_unrestricted policy ≡ false
  pub some_cpu : cpus ≢ []
  pub its_class : CoreClass
  pub place : ℕ
  pub there : get_elem? t.classes place ≡ some its_class
  pub confined : subset cpus its_class.cpus ≡ true
  pub named : core_class ≡ some its_class.name
  pub exact : (set : List ℕ) → requested ≡ some set → cpus ≡ set
  pub selected :
      is_ranked policy ≡ true → (s : List ℕ) × (select t policy ≡ ok s) × (subset cpus s ≡ true)

-- What each status certifies.
abbrev pub Certifies :
    CpuTopology → CpuPolicy → Option (List ℕ) → CpuPlacement → PlacementStatus → Type 0
Certifies t policy requested p PlacementStatus.unrestricted =
    (policy ≡ CpuPolicy.unrestricted) × (requested ≡ none) × (p.core_class ≡ none)
Certifies t policy requested p PlacementStatus.uniform_hardware =
    (t.kind ≡ TopologyKind.homogeneous) × (policy ≡ CpuPolicy.auto) × (requested ≡ none)
Certifies t policy requested p PlacementStatus.enforced_uniform =
    IsEnforced t policy requested p.effective_cpus p.core_class

policy_holds-eq-ok :
    (t : CpuTopology) (policy : CpuPolicy) (cpus : List ℕ)
    → policy_holds t policy cpus ≡ ok true
    → is_ranked policy ≡ true
    → (s : List ℕ) × (select t policy ≡ ok s) × (subset cpus s ≡ true)
policy_holds-eq-ok t policy cpus e r = go (select t policy) refl
  where
    go :
        (s : Result SelectError (List ℕ))
        → select t policy ≡ s
        → (q : List ℕ) × (select t policy ≡ ok q) × (subset cpus q ≡ true)
    go (ok q) h = (q, h, ground arith)
    go (err x) h = absurd (ground arith)

exact_set :
    (requested : Option (List ℕ)) (cpus set : List ℕ)
    → set_enforced requested cpus ≡ true
    → requested ≡ some set
    → cpus ≡ set
exact_set requested cpus set h q = list_eq→eq cpus set (subst (λ r. set_enforced r cpus ≡ true) q h)

resolve_class-eq-ok :
    (t : CpuTopology) (policy : CpuPolicy) (requested : Option (List ℕ)) (enforced : Boundary)
    (c : CoreClass) (p : CpuPlacement)
    → resolve_class t policy requested enforced c ≡ ok p
    → (policy_holds t policy (effective_of enforced) ≡ ok true)
      × (p ≡ placed t policy requested enforced PlacementStatus.enforced_uniform (some c.name))
      × (set_enforced requested (effective_of enforced) ≡ true)
unfolding resolve_class
resolve_class-eq-ok t policy requested enforced c p e =
    go (policy_holds t policy (effective_of enforced)) refl
  where
    go :
        (h : Result PlacementError Bool)
        → policy_holds t policy (effective_of enforced) ≡ h
        → (policy_holds t policy (effective_of enforced) ≡ ok true)
          × (p ≡ placed t policy requested enforced PlacementStatus.enforced_uniform (some c.name))
          × (set_enforced requested (effective_of enforced) ≡ true)
    go (ok true) q = ground arith
    go (ok false) q = absurd (ground arith)
    go (err x) q = absurd (ground arith)

resolve_class-IsEnforced :
    (t : CpuTopology) (policy : CpuPolicy) (requested : Option (List ℕ)) (enforced : Boundary)
    (c : CoreClass) (p : CpuPlacement)
    → is_unrestricted policy ≡ false
    → class_for t (effective_of enforced) ≡ some c
    → resolve_class t policy requested enforced c ≡ ok p
    → (p ≡ placed t policy requested enforced PlacementStatus.enforced_uniform (some c.name))
      × IsEnforced t policy requested (effective_of enforced) (some c.name)
resolve_class-IsEnforced t policy requested enforced c p u f e =
    let (some_cpu, confined, found) = class_for-eq-some t (effective_of enforced) c f in
    let (held, same, checked) = resolve_class-eq-ok t policy requested enforced c p e in
    (
      same,
      record {
        restricted = u;
        some_cpu = some_cpu;
        its_class = c;
        place = found.0;
        there = found.1;
        confined = confined;
        named = refl;
        exact = λ set q. exact_set requested (effective_of enforced) set checked q;
        selected = policy_holds-eq-ok t policy (effective_of enforced) held;
      },
    )

-- What is recorded as given, and what the status certifies.
pub record IsGranted (t : CpuTopology) (policy : CpuPolicy) (requested : Option (List ℕ))
    (enforced : Boundary) (p : CpuPlacement) : Type 0 where
  pub its_policy : p.policy ≡ policy
  pub its_request : p.requested_cpus ≡ requested
  pub its_cpus : p.effective_cpus ≡ effective_of enforced
  pub its_mechanism : p.enforcement ≡ enforcement_of enforced
  pub certifies : Certifies t policy requested p p.status

placed-IsGranted :
    (t : CpuTopology) (policy : CpuPolicy) (requested : Option (List ℕ)) (enforced : Boundary)
    (status : PlacementStatus) (name : Option String)
    → Certifies t policy requested (placed t policy requested enforced status name) status
    → IsGranted t policy requested enforced (placed t policy requested enforced status name)
placed-IsGranted t policy requested enforced status name c = record {
  its_policy = refl;
  its_request = refl;
  its_cpus = refl;
  its_mechanism = refl;
  certifies = c;
}

is_uniform_machine-eq-true :
    (t : CpuTopology) (policy : CpuPolicy) (requested : Option (List ℕ))
    → is_uniform_machine t policy requested ≡ true
    → (t.kind ≡ TopologyKind.homogeneous) × (policy ≡ CpuPolicy.auto) × (requested ≡ none)
is_uniform_machine-eq-true t policy requested h = ground arith

-- `resolve` grants a placement only for what its status says. Unrestricted: only under the
-- unrestricted policy, with no set requested. Uniform hardware: only on a homogeneous machine,
-- under the automatic policy, with no set requested. Enforced: only if the process's boundary is
-- not empty, lies in one known class, equals a requested set, and lies in the class that a
-- performance or efficiency policy selects. The policy, the request, the boundary's CPUs and its
-- mechanism are recorded as given.
pub resolve_sound :
    (t : CpuTopology) (policy : CpuPolicy) (requested : Option (List ℕ)) (enforced : Boundary)
    (p : CpuPlacement)
    → resolve t policy requested enforced ≡ ok p
    → IsGranted t policy requested enforced p
unfolding resolve
resolve_sound t policy requested enforced p e = elim (Bool-cases (is_unrestricted policy)) [
  | inl free ↦
      let (a, b, same) = unchecked free in
      subst (IsGranted t policy requested enforced) same (
        placed-IsGranted t policy requested enforced PlacementStatus.unrestricted none (a, b, refl))
  | inr bound ↦ elim (Bool-cases (is_uniform_machine t policy requested)) [
    | inl uniform ↦ subst (IsGranted t policy requested enforced) (ground arith) (
        placed-IsGranted t policy requested enforced PlacementStatus.uniform_hardware
          (first_name t.classes) (is_uniform_machine-eq-true t policy requested uniform))
    | inr other ↦ elim (Option-cases (class_for t (effective_of enforced))) [
      | inl nowhere ↦ absurd (ground arith)
      | inr (c, f) ↦
          let (same, certified) =
            resolve_class-IsEnforced t policy requested enforced c p bound f (ground arith) in
          subst (IsGranted t policy requested enforced) (sym same) (
            placed-IsGranted t policy requested enforced PlacementStatus.enforced_uniform
              (some c.name) certified)
    ]
  ]
]
  where
    unchecked :
        is_unrestricted policy ≡ true
        → (policy ≡ CpuPolicy.unrestricted)
          × (requested ≡ none)
          × (placed t policy requested enforced PlacementStatus.unrestricted none ≡ p)
    unchecked free = ground arith
