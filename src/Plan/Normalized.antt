-- ===== src/Plan/Normalized.antt =====
-- src/plan.rs: `normalize_harness_args`, which joins an option and its value.
use zenbench.Prelude.{
  ok-injective, ℕ, ◌≡◌, refl, true, false, some, List, [], ◌∷◌, ◌++◌, not, Result, ok, err, arith,
  Bool-cases, Option-cases, inl, inr, list_eq, list_eq→eq, All, all, ap, subst, ◌>>=◌, contains,
  sym, ◌∙◌, if-false,
}
use zenbench.Prelude.Text.{Text, codes, strip_prefix, listed}
use zenbench.Plan.Options.{
  valued_options, HarnessError, is_valued, is_valued_name, joined, normalize_harness_args,
  is_no_value,
}

strip_prefix-extend :
    (text prefix rest more : Text)
    → strip_prefix text prefix ≡ some rest
    → strip_prefix (text ++ more) prefix ≡ some (rest ++ more)
strip_prefix-extend text [] rest more e = ground arith
strip_prefix-extend [] (p ∷ ps) rest more e = cc
strip_prefix-extend (c ∷ cs) (p ∷ ps) rest more e =
    ground (arith, strip_prefix-extend cs ps rest more)

contains-middle : (xs : Text) (c : ℕ) (ys : Text) → contains (xs ++ (c ∷ ys)) c ≡ true
contains-middle [] c ys = ground arith
contains-middle (x ∷ xs) c ys = ground (arith, contains-middle xs c ys)

-- A text with a character that no name of the list has is not in the list.
not-listed :
    (names : List Text) (c : ℕ) (text : Text)
    → all (λ n. not (contains n c)) names ≡ true
    → contains text c ≡ true
    → listed names text ≡ false
not-listed [] c text h k = refl
not-listed (n ∷ names) c text h k = elim (Bool-cases (list_eq n text)) [
  | inl same ↦
      let e : contains n c ≡ contains text c = ap (λ t. contains t c) (list_eq→eq n text same) in
      absurd (ground arith)
  | inr other ↦ ground (arith, not-listed names c text)
]

no_equals_sign : all (λ n. not (contains n b'=')) valued_options ≡ true
unfolding valued_options
no_equals_sign = refl

is_valued-joined : (arg value : Text) → is_valued arg ≡ true → is_valued (joined arg value) ≡ false
unfolding is_valued
is_valued-joined arg value h = elim (Option-cases (strip_prefix arg (codes "--"))) [
  | inl other ↦ absurd (ground arith)
  | inr (name, e) ↦
      ap is_valued_name (strip_prefix-extend arg (codes "--") name (b'=' ∷ value) e)
      ∙ not-listed valued_options b'=' (joined name value) no_equals_sign
          (contains-middle name b'=' value)
]

-- Only arguments that take no separate value.
abbrev pub IsPlain : List Text → Type 0
IsPlain args = All (λ arg. is_valued arg ≡ false) args

abbrev prepend : Text → List Text → Result HarnessError (List Text)
prepend arg normalized = ok (arg ∷ normalized)

normalize-plain :
    (arg : Text) (args : List Text)
    → is_valued arg ≡ false
    → normalize_harness_args (arg ∷ args) ≡ (normalize_harness_args args >>= prepend arg)
unfolding normalize_harness_args is_valued
normalize-plain arg [] h = if-false _ _ h
normalize-plain arg (value ∷ args) h = rw h

normalize-valued :
    (arg value : Text) (args : List Text)
    → is_valued arg ≡ true
    → is_no_value value ≡ false
    → normalize_harness_args (arg ∷ value ∷ args)
      ≡ (normalize_harness_args args >>= prepend (joined arg value))
unfolding normalize_harness_args is_valued
normalize-valued arg value args h v = rw (h, v)

no_value_lem :
    {value v : Text} {args more : List Text}
    → Path (List Text) (value ∷ args) (v ∷ more)
    → is_no_value value ≡ true
    → is_no_value v ≡ true
no_value_lem {value} {v} q h = let same : value ≡ v = cc in subst (λ t. is_no_value t ≡ true) same h

-- An option without a value is refused.
normalize-refused :
    (arg : Text) (args : List Text)
    → is_valued arg ≡ true
    → ((value : Text) (more : List Text) → args ≡ value ∷ more → is_no_value value ≡ true)
    → normalize_harness_args (arg ∷ args) ≡ err (HarnessError.needs_value arg)
unfolding normalize_harness_args is_valued
normalize-refused arg [] h v = rw h
normalize-refused arg (value ∷ args) h v = rw (h, v value args refl)

normalize-nil : normalize_harness_args [] ≡ ok []
unfolding normalize_harness_args
normalize-nil = refl

-- An option that takes a value, followed by one that is not empty and does not start with two
-- dashes, normalizes to what the option and the value joined in one argument normalize to.
pub normalize-joined :
    (arg value : Text) (args : List Text)
    → is_valued arg ≡ true
    → is_no_value value ≡ false
    → normalize_harness_args (arg ∷ value ∷ args) ≡ normalize_harness_args (joined arg value ∷ args)
normalize-joined arg value args h v =
    normalize-valued arg value args h v
    ∙ sym (normalize-plain (joined arg value) args (is_valued-joined arg value h))

-- What normalization returns: plain arguments, which it leaves alone.
pub record IsCanonical (out : List Text) : Type 0 where
  pub plain : IsPlain out
  pub fixed : normalize_harness_args out ≡ ok out

IsCanonical-cons :
    (arg : Text) (out : List Text)
    → is_valued arg ≡ false
    → IsCanonical out
    → IsCanonical (arg ∷ out)
IsCanonical-cons arg out h c = record {
  plain = (h, c.plain);
  fixed = normalize-plain arg out h ∙ ap (λ r. r >>= prepend arg) c.fixed;
}

IsCanonical-prepend :
    (arg : Text) (r : Result HarnessError (List Text)) (out : List Text)
    → is_valued arg ≡ false
    → ((rest : List Text) → r ≡ ok rest → IsCanonical rest)
    → (r >>= prepend arg) ≡ ok out
    → IsCanonical out
IsCanonical-prepend arg (err why) out h c e = cc
IsCanonical-prepend arg (ok rest) out h c e =
    subst IsCanonical (ok-injective e) (IsCanonical-cons arg rest h (c rest refl))

-- The arguments that normalization returns take no separate value, and normalizing them again
-- changes nothing.
pub normalize_harness_args-IsCanonical :
    (args out : List Text) → normalize_harness_args args ≡ ok out → IsCanonical out
normalize_harness_args-IsCanonical [] out e =
    subst IsCanonical (ok-injective (sym normalize-nil ∙ e))
      record { plain = tt; fixed = normalize-nil }
normalize_harness_args-IsCanonical (arg ∷ []) out e = elim (Bool-cases (is_valued arg)) [
  | inr plain ↦
      IsCanonical-prepend arg (normalize_harness_args []) out plain
        (normalize_harness_args-IsCanonical []) (sym (normalize-plain arg [] plain) ∙ e)
  | inl valued ↦
      let refused = normalize-refused arg [] valued (λ value more q. absurd cc) in absurd cc
]
normalize_harness_args-IsCanonical (arg ∷ value ∷ args) out e = elim (Bool-cases (is_valued arg)) [
  | inr plain ↦
      IsCanonical-prepend arg (normalize_harness_args (value ∷ args)) out plain
        (normalize_harness_args-IsCanonical (value ∷ args))
        (sym (normalize-plain arg (value ∷ args) plain) ∙ e)
  | inl valued ↦ elim (Bool-cases (is_no_value value)) [
    | inl missing ↦
        let refused =
          normalize-refused arg (value ∷ args) valued (λ v more q. no_value_lem q missing) in
        absurd cc
    | inr given ↦
        IsCanonical-prepend (joined arg value) (normalize_harness_args args) out
          (is_valued-joined arg value valued) (normalize_harness_args-IsCanonical args)
          (sym (normalize-valued arg value args valued given) ∙ e)
  ]
]
