-- ===== src/Plan/Valid.antt =====
-- src/plan.rs: the plans that `BenchmarkPlan::validate` accepts.
use zenbench.Prelude.{
  ℕ, ◌%◌, ◌≤◌, ◌≡◌, ◌≢◌, refl, true, false, Option, none, some, ok, arith, Bool-cases, inl, inr,
  ◌↔◌,
}
use zenbench.Prelude.Float.{Float}
use zenbench.Plan.{
  BenchmarkMode, BenchmarkPlan, nanos_per_second, is_iterate, is_evidence, is_blank,
  validate_confirmation, validate, is_zero, is_below_two,
}

zero_iff : (o : Option ℕ) → (is_zero o ≡ false) ↔ ((n : ℕ) → o ≡ some n → 1 ≤ n)
zero_iff none = (λ h n e. cc, λ h. refl)
zero_iff (some n) = (λ h m e. ground arith, λ h. ground (arith, h n refl))

below_two_iff : (o : Option ℕ) → (is_below_two o ≡ false) ↔ ((n : ℕ) → o ≡ some n → 2 ≤ n)
below_two_iff none = (λ h n e. cc, λ h. refl)
below_two_iff (some n) = (λ h m e. ground arith, λ h. ground (arith, h n refl))

iterate_iff : (m : BenchmarkMode) → (is_iterate m ≡ true) ↔ (m ≡ BenchmarkMode.iterate)
iterate_iff BenchmarkMode.iterate = ground arith
iterate_iff BenchmarkMode.confirm = ground arith
iterate_iff BenchmarkMode.evidence = ground arith

evidence_iff : (m : BenchmarkMode) → (is_evidence m ≡ true) ↔ (m ≡ BenchmarkMode.evidence)
evidence_iff BenchmarkMode.iterate = ground arith
evidence_iff BenchmarkMode.confirm = ground arith
evidence_iff BenchmarkMode.evidence = ground arith

-- A finite number from `low` on and below `high`, both in hundredths.
abbrev pub IsWithin : (f : Float) → ℕ → ℕ → f.F → Type 0
IsWithin f low high x =
    (f.is_finite x ≡ true)
    × (f.fle (f.hundredths low) x ≡ true)
    × (f.flt x (f.hundredths high) ≡ true)

module _ {f : Float} where
  -- What a confirmation needs beyond a well-formed plan.
  pub record IsConfirmation (p : BenchmarkPlan f) : Type 0 where
    pub rounds : (n : ℕ) → p.rounds ≡ some n → 2 ≤ n
    pub processes : 3 ≤ p.processes
    pub workload : is_blank p.workload_id ≡ false
    pub scope : p.mode ≡ BenchmarkMode.evidence → is_blank p.scope ≡ false

  pub record IsValid (p : BenchmarkPlan f) : Type 0 where
    pub margin : IsWithin f 0 10_000 p.margin_pct
    pub confidence : IsWithin f 50 100 p.confidence
    pub rounds : (n : ℕ) → p.rounds ≡ some n → 1 ≤ n
    pub processes : 1 ≤ p.processes
    pub timeout : (p.timeout ≢ 0) × (p.timeout % nanos_per_second ≡ 0)
    pub confirmation : p.mode ≢ BenchmarkMode.iterate → IsConfirmation p

  validate_confirmation_iff :
      (p : BenchmarkPlan f) → (validate_confirmation p ≡ ok tt) ↔ IsConfirmation p
  unfolding validate_confirmation
  validate_confirmation_iff p = (
    λ e. record {
      rounds = (below_two_iff p.rounds).0 (ground arith);
      processes = ground arith;
      workload = ground arith;
      scope = λ s. ground (arith, evidence_iff p.mode);
    },
    λ v. ground (
      arith,
      (below_two_iff p.rounds).1 v.rounds,
      v.processes,
      v.workload,
      v.scope,
      evidence_iff p.mode,
    ),
  )

  -- `validate` accepts a plan exactly if its margin is finite, at least 0 and below 100 percent,
  -- its confidence at least 0.5 and below 1, its numbers of rounds and processes positive, its
  -- timeout a positive number of whole seconds, and, where it confirms, it has at least two
  -- rounds and three processes, a workload that is not blank and, in evidence mode, a scope that
  -- is not blank.
  pub validate_iff : (p : BenchmarkPlan f) → (validate p ≡ ok tt) ↔ IsValid p
  unfolding validate
  validate_iff p = (
    λ e. record {
      margin = ground arith;
      confidence = ground arith;
      rounds = (zero_iff p.rounds).0 (ground arith);
      processes = ground arith;
      timeout = (ground arith, ground arith);
      confirmation = λ q. (validate_confirmation_iff p).0 (ground (arith, iterate_iff p.mode));
    },
    λ v. elim (Bool-cases (is_iterate p.mode)) [
      | inl iterates ↦
          ground
            (arith, v.margin, v.confidence, (zero_iff p.rounds).1 v.rounds, v.processes, v.timeout)
      | inr confirms ↦
          let accepted : validate_confirmation p ≡ ok tt =
            (validate_confirmation_iff p).1 (v.confirmation (ground (arith, iterate_iff p.mode))) in
          ground
            (arith, v.margin, v.confidence, (zero_iff p.rounds).1 v.rounds, v.processes, v.timeout)
    ],
  )
