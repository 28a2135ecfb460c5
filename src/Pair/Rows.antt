-- ===== src/Pair/Rows.antt =====
-- src/bin/support/pair/analysis.rs: what an accepted row of a case says of the case.
use zenbench.Prelude.{
  ℕ, zero, suc, ◌+◌, ◌<◌, ◌≡◌, refl, sym, ◌∙◌, ap, subst, Bool, true, false, Option, none, some,
  List, [], ◌∷◌, ◌++◌, map, any, All, if◌then◌else◌, not, ◌&&◌, range_from, arith, inl, inr,
  Bool-cases, if-true, if-false, list_eq→eq,
}
use zenbench.Prelude.Float.{Float}
use zenbench.Prelude.Text.{Text, codes}
use zenbench.Pair.{Arith, Confirmation, Interval, Issue, Packet, Summary, is_word}
use zenbench.Pair.Intervals.{classify}
use zenbench.Pair.Complete.{
  is_none, last, case_complete, case_issues, case_rows, is_placed, is_unclean, is_empty_issues,
  push_if,
}
use zenbench.Pair.Analysis.{arm_interval, is_within, mark_row}
use zenbench.Pair.Decide.{is_accepted}

module _ {ℓ κ} {A : Type ℓ} {B : Type κ} where
  pub All-map {μ} :
      (P : B → Type μ) (g : A → B) (xs : List A) → All P (map g xs) → All (λ a. P (g a)) xs
  All-map P g [] h = tt
  All-map P g (x ∷ xs) (p, h) = (p, All-map P g xs h)

pub All-range {μ} :
    (P : ℕ → Type μ) (start n k : ℕ) → All P (range_from start n) → k < n → P (start + k)
All-range P start zero k h less = absurd (omega (arith, less))
All-range P start (suc n) zero (p, h) less = subst P (omega arith) p
All-range P start (suc n) (suc k) (p, h) less =
    subst P (omega arith) (All-range P (suc start) n k h (omega (arith, less)))

pub last-map-range {ℓ} :
    {A : Type ℓ} (g : ℕ → A) (start n : ℕ)
    → last (map g (range_from start (suc n))) ≡ some (g (start + n))
last-map-range g start zero = ap (λ k. some (g k)) (omega arith)
last-map-range g start (suc n) = last-map-range g (suc start) n ∙ ap (λ k. some (g k)) (omega arith)

-- No family of verdicts accepts an invalid or an inconclusive one.
no_family :
    (a b c : Bool) → (if a then false else if b then false else if c then false else false) ≡ false
no_family a b c = ground arith

pub is_accepted-invalid : (accept : Text) → is_accepted accept (codes "invalid") ≡ false
unfolding is_accepted
is_accepted-invalid accept =
    no_family (is_word accept "improvement") (is_word accept "equivalence")
      (is_word accept "non_inferiority")

is_accepted-inconclusive : (accept : Text) → is_accepted accept (codes "inconclusive") ≡ false
unfolding is_accepted
is_accepted-inconclusive accept =
    no_family (is_word accept "improvement") (is_word accept "equivalence")
      (is_word accept "non_inferiority")

accepted-not_invalid :
    (accept verdict : Text) → is_accepted accept verdict ≡ true → is_word verdict "invalid" ≡ false
accepted-not_invalid accept verdict h = elim (Bool-cases (is_word verdict "invalid")) [
  | inr right ↦ right
  | inl wrong ↦
      let e = list_eq→eq verdict (codes "invalid") wrong in
      let f : is_accepted accept (codes "invalid") ≡ true =
        subst (λ v. is_accepted accept v ≡ true) e h in
      let g = is_accepted-invalid accept in cc
]

pub is_none-some {ℓ} : {A : Type ℓ} (o : Option A) → is_none o ≡ false → (a : A) × (o ≡ some a)
is_none-some none h = cc
is_none-some (some a) h = (a, refl)

pub append-empty :
    (b : Bool) (j : Issue) (is : List Issue)
    → is_empty_issues (is ++ push_if b j) ≡ true
    → (is_empty_issues is ≡ true) × (b ≡ false)
append-empty false j [] h = (refl, refl)
append-empty true j [] h = cc
append-empty b j (k ∷ is) h = cc

-- What the code accepts of a row that is not a control's.
abbrev pub RowAccepted : {f : Float} → Text → Summary f → Type 0
RowAccepted accept row = is_word row.arm_id "__aa" ≡ false → is_accepted accept row.verdict ≡ true

module _ (f : Float) (m : Arith f) (packet : Packet f) (k : ℕ) where
  -- A case that confirms: every planned invocation is complete, the placement is verified, and
  -- the observations of every invocation are admitted.
  pub record IsConfirmed : Type 0 where
    pub complete : case_complete packet k ≡ true
    pub placed : is_placed packet ≡ true
    pub observed : any (λ i. is_unclean i.observations) (case_rows packet k) ≡ false

  -- The interval of an arm is computed, and its class is one that the plan accepts.
  abbrev pub IsDecided : Confirmation f → ℕ → Type 0
  IsDecided c arm =
      (i : Interval f) × (arm_interval f m packet c k arm ≡ some i)
      × (is_accepted c.accept (classify f m (some i) c.margin_pct) ≡ true)

  -- The interval of the control is computed, and it is within the margin of the control.
  abbrev pub IsControlled : Confirmation f → ℕ → Type 0
  IsControlled c arm =
      (i : Interval f) × (arm_interval f m packet c k arm ≡ some i)
      × (is_within f m (some i) c.control_margin_pct ≡ true)

  not-false : (b : Bool) → not b ≡ false → b ≡ true
  not-false b h = ground arith

  three-empty :
      (a b c : Bool)
      → is_empty_issues (
          push_if a Issue.incomplete_blocks
          ++ (push_if b Issue.unverified_placement ++ push_if c Issue.unclean_observations))
        ≡ true
      → (a ≡ false) × (b ≡ false) × (c ≡ false)
  three-empty a b c h = ground arith

  pub case_issues-IsConfirmed : is_empty_issues (case_issues packet k) ≡ true → IsConfirmed
  unfolding case_issues
  case_issues-IsConfirmed h =
      let (a, b, c) = three-empty _ _ _ h in
      record { complete = not-false _ a; placed = not-false _ b; observed = c }

  module _ (accept : Text) where
    -- An accepted row is one whose control is equivalent.
    pub marked-accepted :
        (equivalent : Bool) (verdict : Text)
        → is_accepted accept (
            if not (is_word verdict "invalid") && not equivalent
            then codes "inconclusive"
            else verdict)
          ≡ true
        → (equivalent ≡ true) × (is_accepted accept verdict ≡ true)
    marked-accepted true verdict h =
        (refl, subst (λ v. is_accepted accept v ≡ true) (if-false _ _ (and_false _)) h)
      where
        and_false : (b : Bool) → (not b && false) ≡ false
        and_false b = ground arith
    marked-accepted false verdict h = elim (Bool-cases (is_word verdict "invalid")) [
      | inl wrong ↦
          let same =
            subst (λ v. is_accepted accept v ≡ true) (if-false _ _ (ap (λ b. not b && true) wrong))
              h in
          let right = accepted-not_invalid accept verdict same in cc
      | inr right ↦
          let same =
            subst (λ v. is_accepted accept v ≡ true) (if-true _ _ (ap (λ b. not b && true) right))
              h in
          let never = is_accepted-inconclusive accept in cc
    ]

    pub mark_row-verdict :
        (equivalent : Bool) (row : Summary f)
        → (mark_row f m equivalent row).verdict ≡ (
            if not (is_word row.verdict "invalid") && not equivalent
            then codes "inconclusive"
            else row.verdict)
    unfolding mark_row
    mark_row-verdict equivalent row =
        elim (Bool-cases (not (is_word row.verdict "invalid") && not equivalent)) [
          | inl h ↦ ap (λ (r : Summary f). r.verdict) (if-true _ _ h) ∙ sym (if-true _ _ h)
          | inr h ↦ ap (λ (r : Summary f). r.verdict) (if-false _ _ h) ∙ sym (if-false _ _ h)
        ]

    pub mark_row-arm_id :
        (equivalent : Bool) (row : Summary f) → (mark_row f m equivalent row).arm_id ≡ row.arm_id
    unfolding mark_row
    mark_row-arm_id equivalent row =
        elim (Bool-cases (not (is_word row.verdict "invalid") && not equivalent)) [
          | inl h ↦ ap (λ (r : Summary f). r.arm_id) (if-true _ _ h)
          | inr h ↦ ap (λ (r : Summary f). r.arm_id) (if-false _ _ h)
        ]
