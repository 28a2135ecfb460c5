-- ===== src/Plan/Known.antt =====
-- src/plan.rs: the tests of `BenchmarkPlan::resolve` on the older repetition flags and on the output
-- format, in words of the arguments themselves.
use zenbench.Prelude.{
  ◌≡◌, ◌≢◌, refl, Bool, true, false, Option, some, List, [], ◌∷◌, ◌++◌, any, ◌&&◌, ◌||◌, not, All,
  list_eq, list_eq→eq, arith, Bool-cases, inl, inr, ◌∙◌, subst, sym, ap, ◌⊎◌, ok, err, Result,
  ok-injective, if-true, if-false,
}
use zenbench.Prelude.Text.{Text, codes, has, starts_with, listed}
use zenbench.Plan.{BenchmarkMode, PlanError}
use zenbench.Plan.Options.{formats}
use zenbench.Plan.Resolve.{has_legacy_repetitions, is_bad_format, parse_mode}
use zenbench.Plan.Given.{IsOther}

-- The text does not hold the pattern.
abbrev pub IsWithout : Text → Text → Type 0
IsWithout pattern text = (before after : Text) → text ≢ before ++ (pattern ++ after)

starts_with-append : (pattern rest : Text) → starts_with (pattern ++ rest) pattern ≡ true
starts_with-append [] rest = refl
starts_with-append (p ∷ ps) rest = ground (arith, starts_with-append ps rest)

has-starts_with : (text pattern : Text) → starts_with text pattern ≡ true → has text pattern ≡ true
has-starts_with [] pattern h = h
has-starts_with (c ∷ cs) pattern h = ground (arith, h)

has-append : (before pattern after : Text) → has (before ++ (pattern ++ after)) pattern ≡ true
has-append [] pattern after =
    has-starts_with (pattern ++ after) pattern (starts_with-append pattern after)
has-append (c ∷ cs) pattern after = ground (arith, has-append cs pattern after)

has-IsWithout : (text pattern : Text) → has text pattern ≡ false → IsWithout pattern text
has-IsWithout text pattern h before after e =
    (let held = sym (ap (λ t. has t pattern) e) ∙ h in
      absurd (true_false _ (has-append before pattern after) held))
  where
    true_false : (b : Bool) → b ≡ true → b ≡ false → ⊥
    true_false b x y = ground (arith, x, y)

-- No argument repeats passes or processes in the older way.
pub legacy-IsWithout :
    (args : List Text)
    → has_legacy_repetitions args ≡ false
    → All (λ arg. IsWithout (codes "-of-passes=") arg × IsWithout (codes "-of-processes=") arg) args
legacy-IsWithout [] h = tt
legacy-IsWithout (arg ∷ args) h =
    let (here, rest) = neither _ _ h in
    let (passes, processes) = neither _ _ here in
    (
      (
        has-IsWithout arg (codes "-of-passes=") passes,
        has-IsWithout arg (codes "-of-processes=") processes,
      ),
      legacy-IsWithout args rest,
    )
  where
    neither : (a b : Bool) → (a || b) ≡ false → (a ≡ false) × (b ≡ false)
    neither a b g = ground (arith, g)

-- The formats that the program can write.
abbrev pub IsFormat : Text → Type 0
IsFormat text =
    (text ≡ codes "llm")
    ⊎ (text ≡ codes "csv")
    ⊎ (text ≡ codes "md")
    ⊎ (text ≡ codes "markdown")
    ⊎ (text ≡ codes "json")
    ⊎ (text ≡ codes "html")

starts_with-some :
    (text pattern : Text)
    → starts_with text pattern ≡ true
    → (rest : Text) × (text ≡ pattern ++ rest)
starts_with-some text [] h = (text, refl)
starts_with-some [] (p ∷ ps) h = cc
starts_with-some (c ∷ cs) (p ∷ ps) h =
    let (rest, e) = starts_with-some cs ps (ground (arith, h)) in (rest, ground (arith, h, e))

IsOther-any :
    (args : List Text)
    → All (IsOther "format") args
    → any (λ a. starts_with a (codes "--format=")) args ≡ false
IsOther-any [] h = refl
IsOther-any (arg ∷ args) (here, rest) = elim (Bool-cases (starts_with arg (codes "--format="))) [
  | inl found ↦
      let (value, e) = starts_with-some arg (codes "--format=") found in absurd (here value e)
  | inr other ↦ ground (arith, other, IsOther-any args rest)
]

listed-IsFormat : (text : Text) → listed formats text ≡ true → IsFormat text
listed-IsFormat text h = elim (Bool-cases (list_eq (codes "llm") text)) [
  | inl e ↦ inl (sym (list_eq→eq _ _ e))
  | inr a ↦ elim (Bool-cases (list_eq (codes "csv") text)) [
    | inl e ↦ inr (inl (sym (list_eq→eq _ _ e)))
    | inr b ↦ elim (Bool-cases (list_eq (codes "md") text)) [
      | inl e ↦ inr (inr (inl (sym (list_eq→eq _ _ e))))
      | inr c ↦ elim (Bool-cases (list_eq (codes "markdown") text)) [
        | inl e ↦ inr (inr (inr (inl (sym (list_eq→eq _ _ e)))))
        | inr d ↦ elim (Bool-cases (list_eq (codes "json") text)) [
          | inl e ↦ inr (inr (inr (inr (inl (sym (list_eq→eq _ _ e))))))
          | inr g ↦ inr (
              inr (
                inr (
                  inr (inr (sym (list_eq→eq (codes "html") text (last _ _ _ _ _ _ h a b c d g)))))))
        ]
      ]
    ]
  ]
]
  where
    last :
        (a b c d e k : Bool)
        → (a || (b || (c || (d || (e || (k || false)))))) ≡ true
        → a ≡ false
        → b ≡ false
        → c ≡ false
        → d ≡ false
        → e ≡ false
        → k ≡ true
    last a b c d e k t p q r s u = ground (arith, t, p, q, r, s, u)

-- A format of the environment that no argument replaces is a known one.
pub is_bad_format-IsFormat :
    (args : List Text) (o : Option Text) (text : Text)
    → is_bad_format args o ≡ false
    → o ≡ some text
    → All (IsOther "format") args
    → IsFormat text
is_bad_format-IsFormat args o text h e others =
    listed-IsFormat text
      (known _ _ (subst (λ x. is_bad_format args x ≡ false) e h) (IsOther-any args others))
  where
    known : (a b : Bool) → (not a && not b) ≡ false → a ≡ false → b ≡ true
    known a b g k = ground (arith, g, k)

-- The name of a mode.
abbrev pub IsModeName : Text → BenchmarkMode → Type 0
IsModeName text BenchmarkMode.iterate = text ≡ codes "iterate"
IsModeName text BenchmarkMode.confirm = text ≡ codes "confirm"
IsModeName text BenchmarkMode.evidence = text ≡ codes "evidence"

pub parse_mode-IsModeName :
    (text : Text) (m : BenchmarkMode) → parse_mode text ≡ ok m → IsModeName text m
unfolding parse_mode
parse_mode-IsModeName text m h = elim (Bool-cases (list_eq text (codes "iterate"))) [
  | inl a ↦ subst (IsModeName text) (ok-injective (sym (if-true _ _ a) ∙ h)) (list_eq→eq text _ a)
  | inr a ↦ elim (Bool-cases (list_eq text (codes "confirm"))) [
    | inl b ↦
        subst (IsModeName text) (ok-injective (sym (if-true _ _ b) ∙ sym (if-false _ _ a) ∙ h))
          (list_eq→eq text _ b)
    | inr b ↦ elim (Bool-cases (list_eq text (codes "evidence"))) [
      | inl c ↦
          subst (IsModeName text)
            (ok-injective (sym (if-true _ _ c) ∙ sym (if-false _ _ b) ∙ sym (if-false _ _ a) ∙ h))
            (list_eq→eq text _ c)
      | inr c ↦
          absurd (no_mode (sym (if-false _ _ c) ∙ sym (if-false _ _ b) ∙ sym (if-false _ _ a) ∙ h))
    ]
  ]
]
  where
    no_mode :
        {e : PlanError} {k : BenchmarkMode}
        → Path (Result PlanError BenchmarkMode) (err e) (ok k)
        → ⊥
    no_mode g = ground (arith, g)
