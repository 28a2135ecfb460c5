-- ===== src/Placement/Session.antt =====
-- src/platform/placement.rs: `CpuSession` on Linux and on Windows, and src/platform/windows_job.rs,
-- the job that fixes the CPUs of a Windows process. The mutex and the job's cell are held by one
-- caller at a time, so that the job is set once; a poisoned mutex is left out.
use zenbench.Prelude.{
  ℕ, Bool, true, false, Option, none, some, List, [], ◌∷◌, if◌then◌else◌, not, ◌&&◌, ◌||◌, leb, any,
  Result, ok, err, ◌>>=◌, ◌>>◌, fail_if, list_eq,
}
use Prim.Native.String.{String}
use text.Mathlib.Text.{◌==◌ as str_eq}
use zenbench.Prelude.Bits.{one_bit, or_bits}
use zenbench.Placement.{
  CpuPolicy, CpuTopology, PlacementStatus, CpuPlacement, SelectError, class_for, is_ranked, select,
}
use zenbench.Placement.Resolve.{Boundary, PlacementError, is_unrestricted, resolve}

-- `configured.or(policy).unwrap_or_default()`
abbrev pub chosen_policy : Option CpuPolicy → Option CpuPolicy → CpuPolicy
chosen_policy (some configured) policy = configured
chosen_policy none (some policy) = policy
chosen_policy none none = CpuPolicy.auto

-- `configured_cpus.as_deref().or(cpus)`
abbrev pub chosen_cpus : Option (List ℕ) → Option (List ℕ) → Option (List ℕ)
chosen_cpus (some configured) cpus = some configured
chosen_cpus none cpus = cpus

-- `configuration()`: the policy and the set of the command line or the environment, or a refusal
abbrev pub Configuration : Type 0
Configuration = Result String (Option CpuPolicy × Option (List ℕ))

pub data Target : Type 0 where
  linux windows : Target

-- What the system gives in a state of its own: the topology and the cpuset that are read from it,
-- the process's mask (the crate affinity) and jobs (the crate win32job).
pub record Machine (W J : Type 0) : Type 0 where
  pub topology : W → CpuTopology
  pub cpuset_boundary : W → Result String (List ℕ)
  pub get_process_affinity : W → Result String (List ℕ)
  pub set_process_affinity : List ℕ → W → Result String W
  pub create_job : (mask : ℕ) → W → Result String (J × W)
  pub assign_current_process : J → W → Result String W

-- The system's state, whether `JOB` is set, and `PROCESS_CPUS`.
pub record Process (W : Type 0) : Type 0 where
  pub world : W
  pub job_installed : Bool
  pub process_cpus : Option (List ℕ)

pub data SessionError : Type 0 where
  configuration : String → SessionError
  refused : PlacementError → SessionError
  selection : SelectError → SessionError
  system : String → SessionError
  invalid_mask not_in_one_class fixed_for_lifetime boundary_changed not_preserved : SessionError

abbrev pub is_enforced : PlacementStatus → Bool
is_enforced PlacementStatus.enforced_uniform = true
is_enforced _ = false

-- `cpus.is_empty() || cpus.iter().any(|&c| c >= usize::BITS as usize)`
abbrev pub is_bad_mask : List ℕ → Bool
is_bad_mask [] = true
is_bad_mask (c ∷ cs) = any (λ cpu. leb 64 cpu) (c ∷ cs)

-- `process_cpus.as_ref().is_some_and(|previous| previous != &cpus)`
abbrev pub is_other : Option (List ℕ) → List ℕ → Bool
is_other none cpus = false
is_other (some previous) cpus = not (list_eq previous cpus)

abbrev pub is_none {ℓ} : {A : Type ℓ} → Option A → Bool
is_none none = true
is_none (some a) = false

-- `cpus.iter().fold(0usize, |mask, &cpu| mask | (1usize << cpu))`
abbrev pub mask_of : ℕ → List ℕ → ℕ
mask_of mask [] = mask
mask_of mask (cpu ∷ cpus) = mask_of (or_bits 64 mask (one_bit cpu)) cpus

pub data VerifyError : Type 0 where
  unreadable : String → VerifyError
  boundary_changed : VerifyError

-- `CpuSession::verify`, at the boundary that the system reports now
unfoldable pub verify : CpuPlacement → Boundary → Result VerifyError (Unit {0})
verify p (err why) = if is_enforced p.status then err (VerifyError.unreadable why) else ok tt
verify p (ok (cpus, mechanism)) =
    if is_enforced p.status
      && (not (list_eq cpus p.effective_cpus) || not (str_eq mechanism p.enforcement))
    then err VerifyError.boundary_changed
    else ok tt

module _ {W J : Type 0} (m : Machine W J) where
  -- A result, or an error with the state in which it leaves the process.
  abbrev pub Outcome : Type 0 → Type 0
  Outcome A = Result (SessionError × Process W) A

  -- The error of a call of the system, after which the process is as it was.
  abbrev pub attempt : {A : Type 0} → Process W → Result String A → Outcome A
  attempt p (ok a) = ok a
  attempt p (err why) = err (SessionError.system why, p)

  abbrev pub with_mechanism : String → Result String (List ℕ) → Boundary
  with_mechanism mechanism (ok cpus) = ok (cpus, mechanism)
  with_mechanism mechanism (err why) = err why

  -- `boundary`
  unfoldable pub boundary : Target → Process W → Boundary
  boundary Target.linux p = with_mechanism "cpuset" (m.cpuset_boundary p.world)
  boundary Target.windows p =
      with_mechanism (if p.job_installed then "job_affinity" else "process_mask")
        (m.get_process_affinity p.world)

  -- the job's part of `windows_job::install`
  unfoldable pub install_job : List ℕ → Process W → Outcome (Process W)
  install_job cpus p =
      if p.job_installed
      then ok p
      else attempt p (m.create_job (mask_of 0 cpus) p.world) >>= λ (job, w).
          attempt (record p { world = w }) (m.assign_current_process job w) >>= λ v.
          ok (record p { world = v; job_installed = true })

  -- `windows_job::install`
  unfoldable pub install : List ℕ → Process W → Outcome (Process W)
  unfolding install_job
  install cpus p = do
    fail_if (is_bad_mask cpus) (SessionError.invalid_mask, p)
    q ← install_job cpus p
    actual ← attempt q (m.get_process_affinity q.world)
    fail_if (not (list_eq actual cpus)) (SessionError.not_preserved, q)
    ok q

  -- the CPUs that `start` confines a Windows process to
  unfoldable pub selected_cpus :
      CpuTopology → CpuPolicy → Option (List ℕ) → Process W → Outcome (Option (List ℕ))
  selected_cpus t policy (some cpus) p = ok (some cpus)
  selected_cpus t policy none p =
      if is_ranked policy
      then elim (select t policy) [
        | err e ↦ err (SessionError.selection e, p)
        | ok selected ↦ ok (some selected)
      ]
      else ok none

  -- the body of `if let Some(selected) = selected`
  unfoldable pub confine_to : CpuTopology → Option (List ℕ) → Process W → Outcome (Process W)
  confine_to t none p = ok p
  confine_to t (some selected) p = do
    fail_if (is_bad_mask selected) (SessionError.invalid_mask, p)
    fail_if (is_none (class_for t selected)) (SessionError.not_in_one_class, p)
    fail_if (is_other p.process_cpus selected) (SessionError.fixed_for_lifetime, p)
    if p.job_installed
        then ok p
        else attempt p (m.set_process_affinity selected p.world) >>= λ w.
            ok (record p { world = w })

  -- the part of `start` before `resolve`
  unfoldable pub confine :
      Target → CpuTopology → CpuPolicy → Option (List ℕ) → Process W → Outcome (Process W)
  unfolding selected_cpus confine_to
  confine Target.linux t policy cpus p = ok p
  confine Target.windows t policy cpus p =
      if is_unrestricted policy
      then ok p
      else selected_cpus t policy cpus p >>= λ selected. confine_to t selected p

  -- `boundary()?`
  abbrev pub reported : Process W → Boundary → Outcome (List ℕ × String)
  reported p (ok enforced) = ok enforced
  reported p (err why) = err (SessionError.system why, p)

  -- the part of `start` after `resolve`, of an enforced placement on Windows
  unfoldable pub fix_boundary : CpuPlacement → Process W → Outcome (CpuPlacement × Process W)
  unfolding install boundary
  fix_boundary placement p = do
    fail_if (is_other p.process_cpus placement.effective_cpus) (SessionError.boundary_changed, p)
    q ← install placement.effective_cpus p
    (actual, enforcement) ← reported q (boundary Target.windows q)
    fail_if (not (list_eq actual placement.effective_cpus)) (SessionError.not_preserved, q)
    ok (
      record placement { enforcement = enforcement },
      record q { process_cpus = some placement.effective_cpus },
    )

  -- the part of `start` after `resolve`
  unfoldable pub finish_start :
      Target → CpuPlacement → Process W → Outcome (CpuPlacement × Process W)
  unfolding fix_boundary
  finish_start Target.linux placement p = ok (placement, p)
  finish_start Target.windows placement p =
      if is_enforced placement.status then fix_boundary placement p else ok (placement, p)

  abbrev pub resolved : Process W → Result PlacementError CpuPlacement → Outcome CpuPlacement
  resolved p (ok placement) = ok placement
  resolved p (err e) = err (SessionError.refused e, p)

  -- `CpuSession::start`, with the policy and the set that it chose
  unfoldable pub start_with :
      Target → CpuPolicy → Option (List ℕ) → Process W → Outcome (CpuPlacement × Process W)
  unfolding confine resolve boundary finish_start
  start_with target policy cpus p = do
    q ← confine target (m.topology p.world) policy cpus p
    placement ← resolved q (resolve (m.topology p.world) policy cpus (boundary target q))
    finish_start target placement q

  -- `CpuSession::start`
  unfoldable pub start :
      Target
      → Configuration
      → Option CpuPolicy
      → Option (List ℕ)
      → Process W
      → Outcome (CpuPlacement × Process W)
  unfolding start_with
  start target (err why) policy cpus p = err (SessionError.configuration why, p)
  start target (ok (configured, configured_cpus)) policy cpus p =
      start_with target (chosen_policy configured policy) (chosen_cpus configured_cpus cpus) p
