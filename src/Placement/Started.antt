-- ===== src/Placement/Started.antt =====
-- src/platform/placement.rs: what a session that `CpuSession::start` returns stands for.
use zenbench.Prelude.{
  ℕ, ◌≡◌, ◌≢◌, refl, true, Option, none, some, List, [], ok, err, list_eq→eq, list_eq_refl, arith,
  ◌↔◌, >>=-eq-ok, ◌∙◌, sym, subst, ap,
}
use Prim.Native.String.{String}
use text.Mathlib.TextEquality.{eq_iff}
use zenbench.Placement.{CpuPolicy, CpuTopology, PlacementStatus, CpuPlacement}
use zenbench.Placement.Resolve.{Boundary, resolve, effective_of, enforcement_of}
use zenbench.Placement.Certified.{Certifies, IsGranted, IsEnforced, resolve_sound}
use zenbench.Placement.Session.{
  Machine, Process, Target, boundary, chosen_cpus, chosen_policy, confine, resolved, start,
  start_with, verify,
}
use zenbench.Placement.Fixed.{IsFixed, confine-keeps, finish_start-IsFixed, resolved-eq-ok}

verify_iff :
    (q : CpuPlacement) (b : Boundary)
    → q.status ≡ PlacementStatus.enforced_uniform
    → (verify q b ≡ ok tt) ↔ (b ≡ ok (q.effective_cpus, q.enforcement))
unfolding verify
verify_iff q (err why) s = ground (arith, s)
verify_iff q (ok (bs, k)) s = ground (
  arith,
  s,
  list_eq→eq bs q.effective_cpus,
  list_eq_refl q.effective_cpus,
  eq_iff k q.enforcement,
)

-- A boundary with CPUs is one that the system reports.
some_boundary : (b : Boundary) → effective_of b ≢ [] → b ≡ ok (effective_of b, enforcement_of b)
some_boundary (ok (cpus, mechanism)) h = refl
some_boundary (err why) h = absurd (h refl)

module _ {W J : Type 0} (m : Machine W J) where
  -- What a session that started stands for.
  pub record IsStarted (target : Target) (configured policy : Option CpuPolicy)
      (configured_cpus cpus : Option (List ℕ)) (p q : Process W) (pl : CpuPlacement) : Type 0 where
    pub policy_configured : (c : CpuPolicy) → configured ≡ some c → pl.policy ≡ c
    pub policy_asked : (c : CpuPolicy) → configured ≡ none → policy ≡ some c → pl.policy ≡ c
    pub policy_default : configured ≡ none → policy ≡ none → pl.policy ≡ CpuPolicy.auto
    pub cpus_configured : (set : List ℕ) → configured_cpus ≡ some set → pl.requested_cpus ≡ some set
    pub cpus_asked : configured_cpus ≡ none → pl.requested_cpus ≡ cpus
    pub certifies : Certifies (m.topology p.world) pl.policy pl.requested_cpus pl pl.status
    pub in_force :
        pl.status ≡ PlacementStatus.enforced_uniform
        → boundary m target q ≡ ok (pl.effective_cpus, pl.enforcement)
    pub fixed :
        target ≡ Target.windows
        → pl.status ≡ PlacementStatus.enforced_uniform
        → (q.process_cpus ≡ some pl.effective_cpus)
          × (q.job_installed ≡ true)
          × ((set : List ℕ) → p.process_cpus ≡ some set → set ≡ pl.effective_cpus)
    pub verifies :
        pl.status ≡ PlacementStatus.enforced_uniform
        → (later : Process W)
        → (verify pl (boundary m target later) ≡ ok tt)
          ↔ (boundary m target later ≡ ok (pl.effective_cpus, pl.enforcement))

  -- What `start_with` grants, at the policy and the set that were chosen.
  record IsChosen (target : Target) (policy : CpuPolicy) (cpus : Option (List ℕ)) (p q : Process W)
      (pl : CpuPlacement) : Type 0 where
    its_policy : pl.policy ≡ policy
    its_request : pl.requested_cpus ≡ cpus
    certified : Certifies (m.topology p.world) policy cpus pl pl.status
    ending : IsFixed m target p q pl

  -- The certificate does not read the mechanism.
  IsGranted-with :
      (t : CpuTopology) (policy : CpuPolicy) (cpus : Option (List ℕ)) (granted : CpuPlacement)
      (enforcement : String)
      → Certifies t policy cpus granted granted.status
      → Certifies t policy cpus (record granted { enforcement = enforcement }) granted.status
  IsGranted-with t policy cpus granted enforcement h = same granted.status h
    where
      same :
          (s : PlacementStatus)
          → Certifies t policy cpus granted s
          → Certifies t policy cpus (record granted { enforcement = enforcement }) s
      same PlacementStatus.unrestricted c = c
      same PlacementStatus.uniform_hardware c = c
      same PlacementStatus.enforced_uniform c = c

  in_boundary :
      (t : CpuTopology) (policy : CpuPolicy) (cpus : Option (List ℕ)) (b : Boundary)
      (pl : CpuPlacement)
      → IsGranted t policy cpus b pl
      → pl.status ≡ PlacementStatus.enforced_uniform
      → b ≡ ok (pl.effective_cpus, pl.enforcement)
  in_boundary t policy cpus b pl g s =
      let held : IsEnforced t policy cpus pl.effective_cpus pl.core_class =
        subst (Certifies t policy cpus pl) s g.certifies in
      let some_cpu : effective_of b ≢ [] = λ empty. held.some_cpu (g.its_cpus ∙ empty) in
      some_boundary b some_cpu
      ∙ ap (λ c. ok (c, enforcement_of b)) (sym g.its_cpus)
      ∙ ap (λ k. ok (pl.effective_cpus, k)) (sym g.its_mechanism)

  start_with-IsChosen :
      (target : Target) (policy : CpuPolicy) (cpus : Option (List ℕ)) (p q : Process W)
      (pl : CpuPlacement)
      → start_with m target policy cpus p ≡ ok (pl, q)
      → IsChosen target policy cpus p q pl
  unfolding start_with
  start_with-IsChosen target policy cpus p q pl e =
      let t = m.topology p.world in
      let (r, e1, e2) = >>=-eq-ok (confine m target t policy cpus p) _ e in
      let (granted, e3, e4) =
        >>=-eq-ok (resolved m r (resolve t policy cpus (boundary m target r))) _ e2 in
      let g =
        resolve_sound t policy cpus (boundary m target r) granted
          (resolved-eq-ok m r _ granted e3) in
      let (same, ending) =
        finish_start-IsFixed m target granted pl r q e4 (in_boundary t policy cpus _ granted g) in
      let kept = confine-keeps m target t policy cpus p r e1 in
      record {
        its_policy = ap (λ (x : CpuPlacement). x.policy) (sym same) ∙ g.its_policy;
        its_request = ap (λ (x : CpuPlacement). x.requested_cpus) (sym same) ∙ g.its_request;
        certified =
            subst (λ (x : CpuPlacement). Certifies t policy cpus x x.status) same
              (IsGranted-with t policy cpus granted pl.enforcement g.certifies);
        ending = record {
          in_force = ending.in_force;
          fixed =
              λ w s. let (a, b, c) = ending.fixed w s in (a, b, λ set known. c set (kept ∙ known));
        };
      }

  -- A session that started, on Linux or Windows. The policy of the user comes before the caller's,
  -- and one that nobody names is the automatic one; so the set of CPUs. The placement holds what its
  -- status says. An enforced boundary is what the system reports when the start ends, and the
  -- session verifies later exactly while the system reports the same CPUs and the same mechanism.
  -- On Windows an enforced placement is also recorded for the life of the process, under a job, and
  -- is the one that an earlier start recorded.
  pub start-IsStarted :
      (target : Target) (configured policy : Option CpuPolicy)
      (configured_cpus cpus : Option (List ℕ)) (p q : Process W) (pl : CpuPlacement)
      → start m target (ok (configured, configured_cpus)) policy cpus p ≡ ok (pl, q)
      → IsStarted target configured policy configured_cpus cpus p q pl
  unfolding start
  start-IsStarted target configured policy configured_cpus cpus p q pl e =
      let c =
        start_with-IsChosen target (chosen_policy configured policy)
          (chosen_cpus configured_cpus cpus) p q pl e in
      record {
        policy_configured = λ k h. c.its_policy ∙ ap (λ o. chosen_policy o policy) h;
        policy_asked =
            λ k h g. c.its_policy ∙ ap (λ o. chosen_policy o policy) h ∙ ap (chosen_policy none) g;
        policy_default =
            λ h g. c.its_policy ∙ ap (λ o. chosen_policy o policy) h ∙ ap (chosen_policy none) g;
        cpus_configured = λ set h. c.its_request ∙ ap (λ o. chosen_cpus o cpus) h;
        cpus_asked = λ h. c.its_request ∙ ap (λ o. chosen_cpus o cpus) h;
        certifies =
            subst (λ k. Certifies (m.topology p.world) k pl.requested_cpus pl pl.status)
              (sym c.its_policy)
              (subst
                (λ r.
                  Certifies (m.topology p.world) (chosen_policy configured policy) r pl pl.status)
                (sym c.its_request) c.certified);
        in_force = c.ending.in_force;
        fixed = c.ending.fixed;
        verifies = λ s later. verify_iff pl (boundary m target later) s;
      }
