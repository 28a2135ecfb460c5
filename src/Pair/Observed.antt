-- ===== src/Pair/Observed.antt =====
-- src/bin/support/pair.rs, `finish_resource_observations`, with the test of the observations in
-- src/bin/support/pair/analysis.rs.
use zenbench.Prelude.{
  ℕ, ◌≡◌, refl, Bool, true, false, Option, List, [], ◌∷◌, ◌++◌, map, all, any, if◌then◌else◌, not,
  ◌&&◌, ◌||◌, arith, ◌∙◌, ap, sym, inl, inr, Bool-cases, if-true, if-false,
}
use zenbench.Pair.{Observation, field_false, field_is, field_true}
use zenbench.Pair.Complete.{is_rejected}
use zenbench.Pair.Observe.{
  Lifecycle, finish_resource_observations, finish_window, has_exited, is_observed, is_transition,
  no_windows, note_waiver, relabel, require_clean, stamped,
}

-- Whether a window may support a confirmation: what does not depend on the owner of the load is
-- clean, and either the whole window is clean and used for admission, or the window is a
-- transition that is not used for it, which a window during the run is where it ends at the
-- observed exit or later.
abbrev pub is_admissible : Lifecycle → ℕ × Observation → Bool
is_admissible lifecycle (sampled_at, o) =
    field_true o.ownership_independent_clean
    && ((field_is o.phase "during" && has_exited lifecycle.exit_observed sampled_at)
        || (is_transition o.phase && field_false o.used_for_admission)
        || (not (is_transition o.phase)
            && field_true o.clean
            && field_is o.policy "whole-host-strict-v1"
            && field_true o.used_for_admission))

is_rejected-note_waiver : (o : Observation) → is_rejected (note_waiver o) ≡ is_rejected o
unfolding note_waiver is_rejected
is_rejected-note_waiver o =
    elim (Bool-cases (is_transition o.phase && field_false o.used_for_admission)) [
      | inl h ↦ ap is_rejected (if-true _ _ h)
      | inr h ↦ ap is_rejected (if-false _ _ h)
    ]

-- The test of an observation whose independent part is required.
is_rejected-require_clean :
    (o : Observation)
    → is_rejected (require_clean o)
      ≡ (not (field_true o.ownership_independent_clean) || is_rejected o)
unfolding require_clean is_rejected
is_rejected-require_clean o = elim (Bool-cases (field_true o.ownership_independent_clean)) [
  | inl h ↦ ap is_rejected (if-false _ _ (ap not h)) ∙ ap (λ b. not b || is_rejected o) (sym h)
  | inr h ↦
      ap is_rejected (if-true _ _ (ap not h))
      ∙ either (is_transition o.phase)
      ∙ ap (λ b. not b || is_rejected o) (sym h)
]
  where
    either : (b : Bool) → (if b then true else true) ≡ true
    either b = ground arith

admissible_cases :
    (own transition unused clean policy used : Bool)
    → (not own || (if transition then not unused else not clean || not policy || not used))
      ≡ not
          (own && (false || (transition && unused) || (not transition && clean && policy && used)))
admissible_cases own transition unused clean policy used = ground arith

abbrev admits : Bool → Observation → Bool
admits ended o =
    field_true o.ownership_independent_clean
    && (ended
        || (is_transition o.phase && field_false o.used_for_admission)
        || (not (is_transition o.phase)
            && field_true o.clean
            && field_is o.policy "whole-host-strict-v1"
            && field_true o.used_for_admission))

relabel-admits :
    (exit_observed : Option ℕ) (sampled_at : ℕ) (o : Observation)
    → (not (field_true (relabel exit_observed sampled_at o).ownership_independent_clean)
        || is_rejected (relabel exit_observed sampled_at o))
      ≡ not (admits (field_is o.phase "during" && has_exited exit_observed sampled_at) o)
unfolding relabel is_rejected
relabel-admits exit_observed sampled_at o =
    elim (Bool-cases (field_is o.phase "during" && has_exited exit_observed sampled_at)) [
      | inl h ↦
          ap rejects (if-true _ _ h)
          ∙ waived (field_true o.ownership_independent_clean)
              (is_transition o.phase && field_false o.used_for_admission)
              (not (is_transition o.phase)
                && field_true o.clean
                && field_is o.policy "whole-host-strict-v1"
                && field_true o.used_for_admission)
          ∙ ap (λ b. not (admits b o)) (sym h)
      | inr h ↦
          ap rejects (if-false _ _ h)
          ∙ admissible_cases _ (is_transition o.phase) _ _ _ _
          ∙ ap (λ b. not (admits b o)) (sym h)
    ]
  where
    rejects : Observation → Bool
    rejects x = not (field_true x.ownership_independent_clean) || is_rejected x

    waived : (own a b : Bool) → (not own || false) ≡ not (own && (true || a || b))
    waived own a b = ground arith

-- The test of a finished window.
is_rejected-finish_window :
    (lifecycle : Lifecycle) (began : ℕ) (sample : ℕ × Observation)
    → is_rejected (finish_window lifecycle began sample) ≡ not (is_admissible lifecycle sample)
unfolding finish_window is_rejected
is_rejected-finish_window lifecycle began (sampled_at, o) =
    is_rejected-note_waiver (require_clean (relabel lifecycle.exit_observed sampled_at stamps))
    ∙ is_rejected-require_clean (relabel lifecycle.exit_observed sampled_at stamps)
    ∙ relabel-admits lifecycle.exit_observed sampled_at stamps
  where
    stamps : Observation
    stamps = stamped lifecycle began sampled_at o

not_and : (a b : Bool) → (not a || not b) ≡ not (a && b)
not_and a b = ground arith

any-finish_window :
    (lifecycle : Lifecycle) (began : ℕ) (samples : List (ℕ × Observation))
    → any is_rejected (map (finish_window lifecycle began) samples)
      ≡ not (all (is_admissible lifecycle) samples)
any-finish_window lifecycle began [] = refl
any-finish_window lifecycle began (s ∷ samples) =
    ap (λ b. b || any is_rejected (map (finish_window lifecycle began) samples))
      (is_rejected-finish_window lifecycle began s)
    ∙ ap (λ b. not (is_admissible lifecycle s) || b) (any-finish_window lifecycle began samples)
    ∙ not_and _ _

any-append {ℓ} :
    {A : Type ℓ} (p : A → Bool) (xs : List A) (x : A) → p x ≡ true → any p (xs ++ x ∷ []) ≡ true
any-append p [] x h = ap (λ b. b || false) h
any-append p (y ∷ ys) x h = ground (arith, any-append p ys x h)

no_windows-map {ℓ κ} :
    {A : Type ℓ} {B : Type κ} (g : A → B) (xs : List A) → no_windows (map g xs) ≡ no_windows xs
no_windows-map g [] = refl
no_windows-map g (x ∷ xs) = refl

-- The windows of an invocation are all accepted by the test of a confirmation exactly where each
-- of them is admissible and, if there is one, the leader was seen alive before its exit was
-- observed.
pub finish_resource_observations-admissible :
    (samples : List (ℕ × Observation)) (lifecycle : Lifecycle) (began : ℕ)
    → any is_rejected (finish_resource_observations samples lifecycle began)
      ≡ not (
          all (is_admissible lifecycle) samples
          && (no_windows samples || is_observed lifecycle.last_alive lifecycle.exit_observed))
unfolding finish_resource_observations is_rejected
finish_resource_observations-admissible samples lifecycle began =
    elim (Bool-cases (not (no_windows windows) && not seen)) [
      | inl h ↦
          ap (any is_rejected) (if-true _ _ h)
          ∙ any-append is_rejected windows _ refl
          ∙ unseen (all (is_admissible lifecycle) samples) (no_windows samples) seen
              (ap (λ b. not b && not seen) (sym (no_windows-map _ samples)) ∙ h)
      | inr h ↦
          ap (any is_rejected) (if-false _ _ h)
          ∙ any-finish_window lifecycle began samples
          ∙ ap not (
              covered (all (is_admissible lifecycle) samples) (no_windows samples) seen
                (ap (λ b. not b && not seen) (sym (no_windows-map _ samples)) ∙ h))
    ]
  where
    seen : Bool
    seen = is_observed lifecycle.last_alive lifecycle.exit_observed

    windows : List Observation
    windows = map (finish_window lifecycle began) samples

    unseen : (a n s : Bool) → (not n && not s) ≡ true → true ≡ not (a && (n || s))
    unseen a n s h = ground arith

    covered : (a n s : Bool) → (not n && not s) ≡ false → a ≡ (a && (n || s))
    covered a n s h = ground arith
