-- ===== src/Inference/Comparable.antt =====
-- src/results.rs and src/inference.rs: the results that confirm, and the pairs of results that may be
-- compared.
use zenbench.Prelude.{
  ◌≡◌, ◌≢◌, refl, sym, ◌∙◌, ap, Bool, true, false, Option, none, some, List, [], ◌∷◌, ◌++◌, length,
  any, All, not, ◌||◌, ◌==◌, ==_iff, list_eq, list_eq→eq, arith, inl, inr, Bool-cases, if-true,
  if-false, &&-eq-true,
}
use zenbench.Prelude.Float.{Arith, Float}
use zenbench.Inference.{
  ExecutionRecord, Issue, Replicate, SuiteResult, cpu_compatible, option_eq, testbed_eq,
}
use zenbench.Inference.Issues.{Flag, issues, raised, workload_signature}
use zenbench.Inference.Confirm.{
  compatibility_issues, confirm, confirmation_issues, count_analyses, first_comparisons, is_nil,
  pair_flags, same_contract, shares_run,
}
use zenbench.Inference.Tested.{list_eq-ne, option_eq→eq}
use zenbench.Inference.Placed.{
  AreSameRuns, cpu_compatible-AreSameRuns, same_testbed, same_workload-eq,
}
use zenbench.Inference.Evidence.{IsEvidence, issues-IsEvidence, raised-nil}

pub is_nil-eq {ℓ} : {A : Type ℓ} (xs : List A) → is_nil xs ≡ true → xs ≡ []
is_nil-eq [] h = refl
is_nil-eq (x ∷ xs) h = cc

append-nil_both {ℓ} : {A : Type ℓ} (xs ys : List A) → xs ++ ys ≡ [] → (xs ≡ []) × (ys ≡ [])
append-nil_both [] ys h = (refl, h)
append-nil_both (x ∷ xs) ys h = cc

either_false : (a b : Bool) → (a || b) ≡ false → (a ≡ false) × (b ≡ false)
either_false a b h = ground arith

module _ (f : Float) (m : Arith f) where
  -- A result that confirms: evidence, and an interval for each planned comparison.
  pub record IsConfirmation (result : SuiteResult f) : Type 0 where
    pub evidence : IsEvidence result
    pub resolved :
        length (confirm f m result) ≡ count_analyses f m (first_comparisons f m result.replicates)

  confirmation_issues-IsConfirmation :
      (result : SuiteResult f) → confirmation_issues f m result ≡ [] → IsConfirmation result
  unfolding confirmation_issues
  confirmation_issues-IsConfirmation result h = elim (Bool-cases (is_nil (issues result))) [
    | inl none_found ↦
        let (counted, _) = raised-nil (resolution ∷ []) (sym (if-true _ _ none_found) ∙ h) in
        record {
          evidence = issues-IsEvidence result (is_nil-eq _ none_found);
          resolved = (==_iff _ _).0 (of_not _ counted);
        }
    | inr found ↦
        let empty = sym (if-false (raised (resolution ∷ [])) _ found) ∙ h in
        let clash : is_nil (issues result) ≡ true = ap is_nil empty in
        absurd (true_false _ clash found)
  ]
    where
      resolution : Flag
      resolution = (
        not (
            length (confirm f m result)
            == count_analyses f m (first_comparisons f m result.replicates)),
        Issue.unresolved_intervals,
      )

      of_not : (b : Bool) → not b ≡ false → b ≡ true
      of_not b g = ground arith

      true_false : (b : Bool) → b ≡ true → b ≢ false
      true_false b g k = cc

  -- Executions of the same protocol, workload, scope and timer.
  pub record IsSameContract (o p : Option (ExecutionRecord f)) : Type 0 where
    pub b : ExecutionRecord f
    pub c : ExecutionRecord f
    pub first : o ≡ some b
    pub second : p ≡ some c
    pub protocol : b.protocol ≡ c.protocol
    pub workload : b.plan.workload_id ≡ c.plan.workload_id
    pub scope : b.plan.scope ≡ c.plan.scope
    pub timer : b.timer_backend ≡ c.timer_backend

  same_contract-IsSameContract :
      (o p : Option (ExecutionRecord f)) → same_contract f m o p ≡ true → IsSameContract o p
  same_contract-IsSameContract none none h = cc
  same_contract-IsSameContract none (some c) h = cc
  same_contract-IsSameContract (some b) none h = cc
  same_contract-IsSameContract (some b) (some c) h =
      let (three, timer) = &&-eq-true _ _ h in
      let (two, scope) = &&-eq-true _ _ three in
      let (protocol, workload) = &&-eq-true _ _ two in
      record {
        b = b;
        c = c;
        first = refl;
        second = refl;
        protocol = list_eq→eq _ _ protocol;
        workload = option_eq→eq list_eq list_eq→eq _ _ workload;
        scope = option_eq→eq list_eq list_eq→eq _ _ scope;
        timer = list_eq→eq _ _ timer;
      }

  not_shared :
      (others : List (Replicate f)) (r : Replicate f)
      → shares_run f m others r ≡ false
      → All (λ (o : Replicate f). o.run.run_id ≢ r.run.run_id) others
  not_shared [] r h = tt
  not_shared (o ∷ os) r h =
      let (a, b) = either_false (list_eq o.run.run_id r.run.run_id) _ h in
      (list_eq-ne _ _ a, not_shared os r b)

  none_shared :
      (others rs : List (Replicate f))
      → any (shares_run f m others) rs ≡ false
      → All (λ (r : Replicate f). All (λ (o : Replicate f). o.run.run_id ≢ r.run.run_id) others) rs
  none_shared others [] h = tt
  none_shared others (r ∷ rs) h =
      let (a, b) = either_false (shares_run f m others r) _ h in
      (not_shared others r a, none_shared others rs b)

  -- Two results that may be compared: both confirm, of different processes, on one machine and
  -- placement, with the same workload and contract.
  pub record IsComparable (base current : SuiteResult f) : Type 0 where
    pub baseline : IsConfirmation base
    pub candidate : IsConfirmation current
    pub separate :
        All
          (λ (r : Replicate f).
            All (λ (o : Replicate f). o.run.run_id ≢ r.run.run_id) base.replicates)
          current.replicates
    pub testbed : base.run.testbed ≡ current.run.testbed
    pub placement : AreSameRuns base.run current.run
    pub workload : workload_signature base.run ≡ workload_signature current.run
    pub contract : IsSameContract base.run.execution current.run.execution

  pub compatibility_issues-IsComparable :
      (base current : SuiteResult f)
      → compatibility_issues f m base current ≡ []
      → IsComparable base current
  unfolding compatibility_issues pair_flags
  compatibility_issues-IsComparable base current h =
      let (first, rest) = append-nil_both (confirmation_issues f m base) _ h in
      let (second, both) = append-nil_both (confirmation_issues f m current) _ rest in
      let (a, (b, (c, (d, _)))) = raised-nil (pair_flags f m base current) both in
      let (machine, place) =
        neither (option_eq testbed_eq base.run.testbed current.run.testbed)
          (cpu_compatible base.run current.run) b in
      record {
        baseline = confirmation_issues-IsConfirmation base first;
        candidate = confirmation_issues-IsConfirmation current second;
        separate = none_shared base.replicates current.replicates a;
        testbed = same_testbed _ _ machine;
        placement = cpu_compatible-AreSameRuns base.run current.run place;
        workload = same_workload-eq base.run current.run (of_not _ c);
        contract = same_contract-IsSameContract _ _ (of_not _ d);
      }
    where
      neither : (x y : Bool) → (not x || not y) ≡ false → (x ≡ true) × (y ≡ true)
      neither x y g = ground arith

      of_not : (x : Bool) → not x ≡ false → x ≡ true
      of_not x g = ground arith
