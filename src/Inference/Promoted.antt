-- ===== src/Inference/Promoted.antt =====
-- src/baseline.rs: the runs that `assess_baseline` lets become the baseline.
use zenbench.Prelude.{
  ℕ, suc, ◌≤◌, ◌≡◌, ◌≢◌, refl, sym, ◌∙◌, ap, subst, Bool, true, false, Option, none, some, List, [],
  ◌∷◌, length, all, All, get_elem?, not, ◌&&◌, ==_iff, list_eq, list_eq→eq, arith, max, keep, inl,
  inr, ◌⊎◌, Option-cases, Bool-cases, if-true, if-false, &&-eq-true,
}
use zenbench.Prelude.Float.{Arith, Float}
use zenbench.Prelude.Text.{Text}
use zenbench.Inference.{ProcessComparison, SuiteResult, Verdict}
use zenbench.Inference.Confirm.{
  assess_baseline, compare_benchmark, compatibility_issues, filter_map, inventory, is_nil,
  is_promoted, key_listed,
}
use zenbench.Inference.Tested.{All-map}
use zenbench.Inference.Comparable.{IsComparable, compatibility_issues-IsComparable, is_nil-eq}

-- What a filter keeps of a list when its opposite keeps nothing.
keep-none {ℓ} :
    {A : Type ℓ} (p : A → Bool) (xs : List A)
    → keep (λ x. not (p x)) xs ≡ []
    → (keep p xs ≡ xs) × All (λ x. p x ≡ true) xs
keep-none p [] h = (refl, tt)
keep-none p (x ∷ xs) h = elim (Bool-cases (p x)) [
  | inl kept ↦
      let (rest, all_kept) = keep-none p xs (sym (if-false _ _ (ap not kept)) ∙ h) in
      (if-true _ _ kept ∙ ap (λ l. x ∷ l) rest, (kept, all_kept))
  | inr lost ↦
      (let clash =
          sym (if-true (x ∷ keep (λ y. not (p y)) xs) (keep (λ y. not (p y)) xs) (ap not lost))
          ∙ h in
        cc)
]

module _ {ℓ κ} {A : Type ℓ} {B : Type κ} (g : A → Option B) (p : B → Bool) where
  filter_map-some :
      (x : A) (xs : List A) (y : B) → g x ≡ some y → filter_map g (x ∷ xs) ≡ y ∷ filter_map g xs
  filter_map-some x xs y e = rw (e, filter_map) refl

  filter_map-none : (x : A) (xs : List A) → g x ≡ none → filter_map g (x ∷ xs) ≡ filter_map g xs
  filter_map-none x xs e = rw (e, filter_map) refl

  length-filter_map : (xs : List A) → length (filter_map g xs) ≤ length xs
  length-filter_map [] = omega arith
  length-filter_map (x ∷ xs) = elim (Option-cases (g x)) [
    | inl e ↦ omega (arith, ap length (filter_map-none x xs e), length-filter_map xs)
    | inr (y, e) ↦ omega (arith, ap length (filter_map-some x xs y e), length-filter_map xs)
  ]

  -- Where as many come out as go in, and all pass a test, each has a result that passes.
  filter_map-total :
      (xs : List A)
      → length (filter_map g xs) ≡ length xs
      → all p (filter_map g xs) ≡ true
      → All (λ x. (y : B) × (g x ≡ some y) × (p y ≡ true)) xs
  filter_map-total [] n h = tt
  filter_map-total (x ∷ xs) n h = elim (Option-cases (g x)) [
    | inl e ↦ absurd (omega (arith, n, ap length (filter_map-none x xs e), length-filter_map xs))
    | inr (y, e) ↦
        let same = filter_map-some x xs y e in
        let (here, rest) = &&-eq-true (p y) _ (subst (λ l. all p l ≡ true) same h) in
        ((y, e, here), filter_map-total xs (omega (arith, n, ap length same)) rest)
  ]

-- The verdicts of a run that is as good as the baseline.
abbrev pub IsAccepted : Verdict → Type 0
IsAccepted v = (v ≡ Verdict.improvement) ⊎ (v ≡ Verdict.equivalent) ⊎ (v ≡ Verdict.non_inferior)

is_promoted-IsAccepted : (v : Verdict) → is_promoted v ≡ true → IsAccepted v
is_promoted-IsAccepted Verdict.improvement h = inl refl
is_promoted-IsAccepted Verdict.equivalent h = inr (inl refl)
is_promoted-IsAccepted Verdict.non_inferior h = inr (inr refl)
is_promoted-IsAccepted Verdict.regression h = cc
is_promoted-IsAccepted Verdict.inconclusive h = cc
is_promoted-IsAccepted Verdict.exploratory h = cc
is_promoted-IsAccepted Verdict.invalid h = cc

-- The benchmark, a group's name and its own, stands at some place of the inventory.
abbrev pub IsAmong : List (Text × Text) → Text × Text → Type 0
IsAmong keys key = (i : ℕ) × (get_elem? keys i ≡ some key)

key_listed-IsAmong :
    (keys : List (Text × Text)) (key : Text × Text) → key_listed keys key ≡ true → IsAmong keys key
key_listed-IsAmong [] key h = cc
key_listed-IsAmong ((a, b) ∷ keys) (c, d) h = elim (Bool-cases (list_eq c a && list_eq d b)) [
  | inl here ↦
      let (x, y) = &&-eq-true (list_eq c a) _ here in
      (0, pair _ _ _ _ (list_eq→eq c a x) (list_eq→eq d b y))
  | inr other ↦ let (i, e) = key_listed-IsAmong keys (c, d) (ground (arith, other, h)) in (suc i, e)
]
  where
    pair :
        (p q r s : Text) → r ≡ p → s ≡ q → Path (Option (Text × Text)) (some (p, q)) (some (r, s))
    pair p q r s x y = cc

module _ (f : Float) (m : Arith f) where
  -- What a promotion rests on.
  pub record IsPromotable (base current : SuiteResult f) (margin : f.F) : Type 0 where
    pub comparable : IsComparable f m base current
    pub measured : inventory f m base ≢ []
    pub none_missing : All (IsAmong (inventory f m current)) (inventory f m base)
    pub none_new : All (IsAmong (inventory f m base)) (inventory f m current)
    pub decided :
        All
          (λ k.
            (c : ProcessComparison f) × (compare_benchmark f m base current margin
                (max (length (inventory f m base)) 1)
                k
              ≡ some c)
            × IsAccepted c.verdict)
          (inventory f m base)

  six_true :
      (a b c d e g : Bool)
      → (a && b && c && d && e && g) ≡ true
      → (a ≡ true) × (b ≡ true) × (c ≡ true) × (d ≡ true) × (e ≡ true) × (g ≡ true)
  six_true a b c d e g h = ground arith

  -- A run may become the baseline only where both results are evidence in full, with an interval
  -- for each comparison; no process is in both; machine, placement, workload, protocol, scope and
  -- timer are the same; they have the same benchmarks, at least one; and each benchmark has an
  -- interval of independent processes whose verdict is an improvement, an equivalence or a
  -- non-inferiority.
  pub assess_baseline-IsPromotable :
      (base current : SuiteResult f) (margin : f.F)
      → (assess_baseline f m base current margin).promotable ≡ true
      → IsPromotable base current margin
  unfolding assess_baseline
  assess_baseline-IsPromotable base current margin h =
      let (valid, some_confirmed, count, no_new, no_missing, accepted) =
        six_true (is_nil (compatibility_issues f m base current)) _ _ _ _ _ h in
      let (kept, found) =
        keep-none (key_listed (inventory f m current)) (inventory f m base)
          (is_nil-eq _ no_missing) in
      let (_, known) =
        keep-none (key_listed (inventory f m base)) (inventory f m current) (is_nil-eq _ no_new) in
      let confirmed =
        if-true _ _ valid
        ∙ ap
            (filter_map
              (compare_benchmark f m base current margin (max (length (inventory f m base)) 1)))
            kept in
      record {
        comparable = compatibility_issues-IsComparable f m base current (is_nil-eq _ valid);
        measured = λ empty.
            (let wrong : false ≡ true =
                subst (λ l. not (is_nil l) ≡ true)
                  (confirmed
                    ∙ ap
                        (filter_map (
                          compare_benchmark f m base current margin
                            (max (length (inventory f m base)) 1)))
                        empty)
                  some_confirmed in
              cc);
        none_missing = All-map (key_listed-IsAmong (inventory f m current)) _ found;
        none_new = All-map (key_listed-IsAmong (inventory f m base)) _ known;
        decided =
            All-map (λ k (c, is_c, promoted). (c, is_c, is_promoted-IsAccepted c.verdict promoted))
              _
              (filter_map-total
                (compare_benchmark f m base current margin (max (length (inventory f m base)) 1))
                (λ (c : ProcessComparison f). is_promoted c.verdict) (inventory f m base)
                (sym (ap length confirmed) ∙ (==_iff _ _).0 count)
                (subst (λ l. all (λ (c : ProcessComparison f). is_promoted c.verdict) l ≡ true)
                  confirmed accepted));
      }
