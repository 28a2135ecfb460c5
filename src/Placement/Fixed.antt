-- ===== src/Placement/Fixed.antt =====
-- src/platform/placement.rs and src/platform/windows_job.rs: what the Windows steps of
-- `CpuSession::start` leave alone, and the boundary that they fix.
use zenbench.Prelude.{
  ℕ, ◌≡◌, refl, Bool, true, false, Option, none, some, List, not, Result, ok, err, list_eq,
  list_eq→eq, arith, >>=-eq-ok, guard-eq-ok, ok-injective, Bool-cases, inl, inr, if-true, if-false,
  ◌∙◌, sym, subst, ap,
}
use Prim.Native.String.{String}
use zenbench.Placement.{CpuPolicy, CpuTopology, PlacementStatus, CpuPlacement, class_for}
use zenbench.Placement.Resolve.{Boundary, PlacementError, is_unrestricted}
use zenbench.Placement.Session.{
  Machine, Process, Target, boundary, confine, confine_to, finish_start, fix_boundary, install,
  install_job, is_enforced, is_other, reported, resolved, selected_cpus, is_bad_mask, mask_of,
  is_none, attempt,
}

of_not : (b : Bool) → not b ≡ false → b ≡ true
of_not b h = ground arith

not_other :
    (o : Option (List ℕ)) (cpus set : List ℕ) → is_other o cpus ≡ false → o ≡ some set → set ≡ cpus
not_other o cpus set h e = list_eq→eq set cpus (of_not _ (subst (λ x. is_other x cpus ≡ false) e h))

module _ {W J : Type 0} (m : Machine W J) where
  attempt-eq-ok :
      {A : Type 0} (p : Process W) (r : Result String A) (a : A) → attempt m p r ≡ ok a → r ≡ ok a
  attempt-eq-ok p (ok b) a e = ap ok (ok-injective e)
  attempt-eq-ok p (err why) a e = cc

  pub resolved-eq-ok :
      (p : Process W) (r : Result PlacementError CpuPlacement) (pl : CpuPlacement)
      → resolved m p r ≡ ok pl
      → r ≡ ok pl
  resolved-eq-ok p (ok b) pl e = ap ok (ok-injective e)
  resolved-eq-ok p (err why) pl e = cc

  reported-eq-ok :
      (p : Process W) (b : Boundary) (r : List ℕ × String) → reported m p b ≡ ok r → b ≡ ok r
  reported-eq-ok p (ok c) r e = ap ok (ok-injective e)
  reported-eq-ok p (err why) r e = cc

  -- What the steps before `resolve` leave alone.
  confine_to-keeps :
      (t : CpuTopology) (selected : Option (List ℕ)) (p q : Process W)
      → confine_to m t selected p ≡ ok q
      → q.process_cpus ≡ p.process_cpus
  unfolding confine_to
  confine_to-keeps t none p q e = ap (λ (r : Process W). r.process_cpus) (sym (ok-injective e))
  confine_to-keeps t (some cpus) p q e =
      let (_, e1) = guard-eq-ok (is_bad_mask cpus) _ _ e in
      let (_, e2) = guard-eq-ok (is_none (class_for t cpus)) _ _ e1 in
      let (_, e3) = guard-eq-ok (is_other p.process_cpus cpus) _ _ e2 in
      elim (Bool-cases p.job_installed) [
        | inl installed ↦
            ap (λ (r : Process W). r.process_cpus)
              (sym (ok-injective (sym (if-true _ _ installed) ∙ e3)))
        | inr fresh ↦
            let (w, _, e4) =
              >>=-eq-ok (attempt m p (m.set_process_affinity cpus p.world)) _
                (sym (if-false _ _ fresh) ∙ e3) in
            ap (λ (r : Process W). r.process_cpus) (sym (ok-injective e4))
      ]

  pub confine-keeps :
      (target : Target) (t : CpuTopology) (policy : CpuPolicy) (cpus : Option (List ℕ))
      (p q : Process W)
      → confine m target t policy cpus p ≡ ok q
      → q.process_cpus ≡ p.process_cpus
  unfolding confine
  confine-keeps Target.linux t policy cpus p q e =
      ap (λ (r : Process W). r.process_cpus) (sym (ok-injective e))
  confine-keeps Target.windows t policy cpus p q e = elim (Bool-cases (is_unrestricted policy)) [
    | inl free ↦
        ap (λ (r : Process W). r.process_cpus) (sym (ok-injective (sym (if-true _ _ free) ∙ e)))
    | inr bound ↦
        let (selected, _, e1) =
          >>=-eq-ok (selected_cpus m t policy cpus p) _ (sym (if-false _ _ bound) ∙ e) in
        confine_to-keeps t selected p q e1
  ]

  install_job-keeps :
      (cpus : List ℕ) (p q : Process W)
      → install_job m cpus p ≡ ok q
      → (q.job_installed ≡ true) × (q.process_cpus ≡ p.process_cpus)
  unfolding install_job
  install_job-keeps cpus p q e = elim (Bool-cases p.job_installed) [
    | inl installed ↦
        subst (λ (r : Process W). (r.job_installed ≡ true) × (r.process_cpus ≡ p.process_cpus))
          (ok-injective (sym (if-true _ _ installed) ∙ e)) (installed, refl)
    | inr fresh ↦
        let (made, _, e1) =
          >>=-eq-ok (attempt m p (m.create_job (mask_of 0 cpus) p.world)) _
            (sym (if-false _ _ fresh) ∙ e) in
        let (v, _, e2) =
          >>=-eq-ok
            (attempt m (record p { world = made.1 }) (m.assign_current_process made.0 made.1)) _
            e1 in
        subst (λ (r : Process W). (r.job_installed ≡ true) × (r.process_cpus ≡ p.process_cpus))
          (ok-injective e2) (refl, refl)
  ]

  install-keeps :
      (cpus : List ℕ) (p q : Process W)
      → install m cpus p ≡ ok q
      → (q.job_installed ≡ true) × (q.process_cpus ≡ p.process_cpus)
  unfolding install
  install-keeps cpus p q e =
      let (_, e1) = guard-eq-ok (is_bad_mask cpus) _ _ e in
      let (r, installed, e2) = >>=-eq-ok (install_job m cpus p) _ e1 in
      let (actual, _, e3) = >>=-eq-ok (attempt m r (m.get_process_affinity r.world)) _ e2 in
      let (_, e4) = guard-eq-ok (not (list_eq actual cpus)) _ _ e3 in
      subst (λ (x : Process W). (x.job_installed ≡ true) × (x.process_cpus ≡ p.process_cpus))
        (ok-injective e4) (install_job-keeps cpus p r installed)

  -- The end of a session's start: the boundary of an enforced placement is in force, and on Windows
  -- it is fixed.
  pub record IsFixed (target : Target) (p q : Process W) (pl : CpuPlacement) : Type 0 where
    pub in_force :
        pl.status ≡ PlacementStatus.enforced_uniform
        → boundary m target q ≡ ok (pl.effective_cpus, pl.enforcement)
    pub fixed :
        target ≡ Target.windows
        → pl.status ≡ PlacementStatus.enforced_uniform
        → (q.process_cpus ≡ some pl.effective_cpus)
          × (q.job_installed ≡ true)
          × ((set : List ℕ) → p.process_cpus ≡ some set → set ≡ pl.effective_cpus)

  fix_boundary-IsFixed :
      (granted pl : CpuPlacement) (p q : Process W)
      → fix_boundary m granted p ≡ ok (pl, q)
      → ((record granted { enforcement = pl.enforcement }) ≡ pl) × IsFixed Target.windows p q pl
  unfolding fix_boundary boundary
  fix_boundary-IsFixed granted pl p q e =
      let (same, e1) = guard-eq-ok (is_other p.process_cpus granted.effective_cpus) _ _ e in
      let (r, e2, e3) = >>=-eq-ok (install m granted.effective_cpus p) _ e1 in
      let (seen, e4, e5) = >>=-eq-ok (reported m r (boundary m Target.windows r)) _ e3 in
      let (agrees, e6) = guard-eq-ok (not (list_eq seen.0 granted.effective_cpus)) _ _ e5 in
      let (job, _) = install-keeps granted.effective_cpus p r e2 in
      let cpus = list_eq→eq seen.0 granted.effective_cpus (of_not _ agrees) in
      let now : boundary m Target.windows r ≡ ok (granted.effective_cpus, seen.1) =
        reported-eq-ok r _ seen e4 ∙ ap (λ c. ok (c, seen.1)) cpus in
      subst
        (λ (x : CpuPlacement × Process W).
          ((record granted { enforcement = x.0.enforcement }) ≡ x.0)
          × IsFixed Target.windows p x.1 x.0)
        (ok-injective e6)
        (
          refl,
          record {
            in_force = λ s. now;
            fixed = λ w s. (refl, job, λ set known. not_other _ _ set same known);
          },
        )

  linux_windows : Target.linux ≡ Target.windows → ⊥
  linux_windows h = ground arith

  pub finish_start-IsFixed :
      (target : Target) (granted pl : CpuPlacement) (p q : Process W)
      → finish_start m target granted p ≡ ok (pl, q)
      → (granted.status ≡ PlacementStatus.enforced_uniform
          → boundary m target p ≡ ok (granted.effective_cpus, granted.enforcement))
      → ((record granted { enforcement = pl.enforcement }) ≡ pl) × IsFixed target p q pl
  unfolding finish_start
  finish_start-IsFixed Target.linux granted pl p q e now =
      subst
        (λ (x : CpuPlacement × Process W).
          ((record granted { enforcement = x.0.enforcement }) ≡ x.0)
          × IsFixed Target.linux p x.1 x.0)
        (ok-injective e) (refl, record { in_force = now; fixed = λ w. absurd (linux_windows w) })
  finish_start-IsFixed Target.windows granted pl p q e now =
      elim (Bool-cases (is_enforced granted.status)) [
        | inl enforced ↦ fix_boundary-IsFixed granted pl p q (sym (if-true _ _ enforced) ∙ e)
        | inr free ↦
            let no : granted.status ≡ PlacementStatus.enforced_uniform → ⊥ =
              λ s. absurd (ground (arith, free, s)) in
            subst
              (λ (x : CpuPlacement × Process W).
                ((record granted { enforcement = x.0.enforcement }) ≡ x.0)
                × IsFixed Target.windows p x.1 x.0)
              (ok-injective (sym (if-false _ _ free) ∙ e))
              (refl, record { in_force = λ s. absurd (no s); fixed = λ w s. absurd (no s) })
      ]
