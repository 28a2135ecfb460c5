-- ===== src/Plan/Given.antt =====
-- src/plan.rs: where the value of an option comes from, in `BenchmarkPlan::resolve`.
use zenbench.Prelude.{
  ◌≡◌, ◌≢◌, refl, Option, none, some, List, [], ◌∷◌, ◌++◌, All, Result, ok, arith, Option-cases,
  inl, inr, ◌∙◌, subst, sym, ap, ◌⊎◌,
}
use Prim.Native.String.{String}
use zenbench.Prelude.Text.{Text, codes, strip_prefix, strip_prefix-append}
use zenbench.Plan.{PlanError}
use zenbench.Plan.Resolve.{Environment, flag_prefix, single_value, value_of, values_of}

-- The argument does not start with `--flag=`.
abbrev pub IsOther : String → Text → Type 0
IsOther flag arg = (value : Text) → arg ≢ flag_prefix flag ++ value

-- The value of an option: that of the one argument `--flag=value` among the arguments, or, where
-- there is no such argument, that of the variable in the environment, perhaps none.
pub data IsGiven (args : List Text) (env : Environment) (flag var : String)
    : Option Text → Type 0 where
  on_command_line :
      (value : Text) (before after : List Text)
      → args ≡ before ++ (flag_prefix flag ++ value) ∷ after
      → All (IsOther flag) before
      → All (IsOther flag) after
      → IsGiven args env flag var (some value)
  in_environment : All (IsOther flag) args → IsGiven args env flag var (env (codes var))

-- The field was given as a text that parses to the new value, or was not given and is the old one.
abbrev pub IsFrom {ℓ} :
    {A : Type ℓ} → (Option Text → Type 0) → (Text → Result PlanError A) → A → A → Type ℓ
IsFrom given parse old new =
    (given none × (new ≡ old)) ⊎ ((text : Text) × given (some text) × (parse text ≡ ok new))

strip_prefix-some :
    (text prefix rest : Text) → strip_prefix text prefix ≡ some rest → text ≡ prefix ++ rest
strip_prefix-some text [] rest h = ground (arith, h)
strip_prefix-some [] (p ∷ ps) rest h = cc
strip_prefix-some (c ∷ cs) (p ∷ ps) rest h = ground (arith, strip_prefix-some cs ps rest)

strip_prefix-none :
    (text prefix : Text) → strip_prefix text prefix ≡ none → (rest : Text) → text ≢ prefix ++ rest
strip_prefix-none text prefix h rest e =
    (let found =
        sym (strip_prefix-append prefix rest) ∙ sym (ap (λ t. strip_prefix t prefix) e) ∙ h in
      absurd (some_none found))
  where
    some_none : some rest ≡ none → ⊥
    some_none x = ground (arith, x)

values_of-none :
    (flag : String) (arg : Text) (args : List Text)
    → strip_prefix arg (flag_prefix flag) ≡ none
    → values_of (flag_prefix flag) (arg ∷ args) ≡ values_of (flag_prefix flag) args
values_of-none flag arg args e = rw (e, values_of) refl

values_of-some :
    (flag : String) (arg value : Text) (args : List Text)
    → strip_prefix arg (flag_prefix flag) ≡ some value
    → values_of (flag_prefix flag) (arg ∷ args) ≡ value ∷ values_of (flag_prefix flag) args
values_of-some flag arg value args e = rw (e, values_of) refl

values_of-nil :
    (flag : String) (args : List Text)
    → values_of (flag_prefix flag) args ≡ []
    → All (IsOther flag) args
values_of-nil flag [] h = tt
values_of-nil flag (arg ∷ args) h = elim (Option-cases (strip_prefix arg (flag_prefix flag))) [
  | inl e ↦ (
    strip_prefix-none arg (flag_prefix flag) e,
    values_of-nil flag args (sym (values_of-none flag arg args e) ∙ h),
  )
  | inr (value, e) ↦ (let wrong = sym (values_of-some flag arg value args e) ∙ h in cc)
]

-- One value among the arguments.
IsOnly : String → List Text → Text → Type 0
IsOnly flag args value =
    (before : List Text) × (after : List Text) × (args
      ≡ before ++ (flag_prefix flag ++ value) ∷ after)
    × All (IsOther flag) before
    × All (IsOther flag) after

values_of-one :
    (flag : String) (args : List Text) (value : Text)
    → values_of (flag_prefix flag) args ≡ value ∷ []
    → IsOnly flag args value
unfolding IsOnly
values_of-one flag [] value h = cc
values_of-one flag (arg ∷ args) value h =
    elim (Option-cases (strip_prefix arg (flag_prefix flag))) [
      | inl e ↦
          let (before, after, same, first, last) =
            values_of-one flag args value (sym (values_of-none flag arg args e) ∙ h) in
          (
            arg ∷ before,
            after,
            ap (λ l. arg ∷ l) same,
            (strip_prefix-none arg (flag_prefix flag) e, first),
            last,
          )
      | inr (v, e) ↦
          let both = sym (values_of-some flag arg v args e) ∙ h in
          let (here, rest) = heads v value _ _ both in
          (
            [],
            args,
            ap (λ a. a ∷ args)
                (strip_prefix-some arg (flag_prefix flag) v e
                  ∙ ap (λ x. flag_prefix flag ++ x) here),
            tt,
            values_of-nil flag args rest,
          )
    ]
  where
    heads : (x y : Text) (xs ys : List Text) → x ∷ xs ≡ y ∷ ys → (x ≡ y) × (xs ≡ ys)
    heads x y xs ys g = (cc, cc)

single_value-IsGiven :
    (args : List Text) (env : Environment) (flag var : String) (o : Option Text) (found : List Text)
    → values_of (flag_prefix flag) args ≡ found
    → single_value flag found (env (codes var)) ≡ ok o
    → IsGiven args env flag var o
unfolding IsOnly
single_value-IsGiven args env flag var o [] is_found h =
    subst (IsGiven args env flag var) (ok_both h)
      (IsGiven.in_environment (values_of-nil flag args is_found))
  where
    ok_both : {a b : Option Text} → Path (Result PlanError (Option Text)) (ok a) (ok b) → a ≡ b
    ok_both g = cc
single_value-IsGiven args env flag var o (v ∷ []) is_found h =
    let (before, after, same, first, last) = values_of-one flag args v is_found in
    subst (IsGiven args env flag var) (ok_both h)
      (IsGiven.on_command_line v before after same first last)
  where
    ok_both : {a b : Option Text} → Path (Result PlanError (Option Text)) (ok a) (ok b) → a ≡ b
    ok_both g = cc
single_value-IsGiven args env flag var o (v ∷ w ∷ vs) is_found h = cc

pub value_of-IsGiven :
    (args : List Text) (env : Environment) (flag var : String) (o : Option Text)
    → value_of args env flag var ≡ ok o
    → IsGiven args env flag var o
unfolding value_of
value_of-IsGiven args env flag var o h =
    single_value-IsGiven args env flag var o (values_of (flag_prefix flag) args) refl h

-- The code's field: set from a value that was given, or left.
abbrev pub IsApplied {ℓ} :
    {A : Type ℓ} → Result PlanError (Option Text) → (Text → Result PlanError A) → A → A → Type ℓ
IsApplied given parse old new =
    ((given ≡ ok none) × (new ≡ old))
    ⊎ ((text : Text) × (given ≡ ok (some text)) × (parse text ≡ ok new))

pub IsApplied-IsFrom {ℓ} :
    {A : Type ℓ} (args : List Text) (env : Environment) (flag var : String)
    (parse : Text → Result PlanError A) (old new : A)
    → IsApplied (value_of args env flag var) parse old new
    → IsFrom (IsGiven args env flag var) parse old new
IsApplied-IsFrom args env flag var parse old new (inl (h, e)) =
    inl (value_of-IsGiven args env flag var none h, e)
IsApplied-IsFrom args env flag var parse old new (inr (text, h, e)) =
    inr (text, value_of-IsGiven args env flag var (some text) h, e)
