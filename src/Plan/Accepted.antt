-- ===== src/Plan/Accepted.antt =====
-- src/plan.rs: the arguments that the validation of the benchmark's command line accepts.
use zenbench.Prelude.{
  sym, ok-injective, ℕ, ◌≡◌, ◌⊎◌, refl, Bool, true, false, Option, none, some, List, [], ◌∷◌,
  if◌then◌else◌, not, ◌||◌, ok, err, arith, inl, inr, list_eq, list_eq_refl, All, any, ◌∙◌, ap,
  subst, >>=-eq-ok, guard-eq-ok, implied, if-true, if-false,
}
use zenbench.Prelude.Float.{Float}
use zenbench.Prelude.Text.{Text, codes, has, is_empty, listed, parse_usize}
use zenbench.Plan.Options.{
  valued_options, HarnessError, bare_flags, formats, option_of, is_count, is_regression,
  check_option, check_argument, check_arguments,
}

-- The names of the options among the arguments, in their order.
abbrev pub option_names : List Text → List Text
option_names [] = []
option_names (arg ∷ args) =
    if listed bare_flags arg then option_names args else elim (option_of arg) [
      | none ↦ option_names args
      | some (name, value) ↦ name ∷ option_names args
    ]

abbrev pub IsDistinct : List Text → Type 0
IsDistinct [] = Unit
IsDistinct (name ∷ names) = (listed names name ≡ false) × IsDistinct names

list_eq-sym : (xs ys : List ℕ) → list_eq xs ys ≡ list_eq ys xs
list_eq-sym [] [] = refl
list_eq-sym [] (y ∷ ys) = refl
list_eq-sym (x ∷ xs) [] = refl
list_eq-sym (x ∷ xs) (y ∷ ys) = ground (arith, list_eq-sym xs ys)

known_option : (a b : Bool) → (not a || b) ≡ false → (a ≡ true) × (b ≡ false)
known_option a b h = ground arith

is_text : (xs ys : Text) → xs ≡ ys → list_eq xs ys ≡ true
is_text xs ys q = subst (λ t. list_eq xs t ≡ true) q (list_eq_refl xs)

-- Names that were not seen yet.
abbrev IsFresh : List Text → List Text → Type 0
IsFresh seen names = All (λ n. listed seen n ≡ false) names

-- A name that is fresh is not the one that was just seen.
IsFresh-not-listed :
    (name : Text) (seen names : List Text)
    → IsFresh (name ∷ seen) names
    → (listed names name ≡ false) × IsFresh seen names
IsFresh-not-listed name seen [] h = (refl, tt)
IsFresh-not-listed name seen (n ∷ names) (here, rest) =
    let (a, b) = IsFresh-not-listed name seen names rest in
    (ground (arith, list_eq-sym n name), (ground arith, b))

option_names-some :
    (arg : Text) {name value : Text} (args : List Text)
    → option_of arg ≡ some (name, value)
    → Path
        (List Text)
        (elim (option_of arg) [ none ↦ option_names args | some (n, v) ↦ n ∷ option_names args ])
        (name ∷ option_names args)
option_names-some arg args e = rw e

or-swap : (a b c : Bool) → ((a || b) || c) ≡ (b || (a || c))
or-swap a b c = ground arith

or-false : (a : Bool) → a ≡ (a || false)
or-false a = ground arith

module _ (f : Float) (parse_float : Text → Option f.F) where
  -- A known option with a value, which is a positive count, a known format or a percentage in
  -- range where the name asks for one.
  pub record IsOption (name value : Text) : Type 0 where
    pub known : listed valued_options name ≡ true
    pub not_empty : is_empty value ≡ false
    pub count : has name (codes "-of-") ≡ true → is_count (parse_usize value) ≡ true
    pub format : name ≡ codes "format" → listed formats value ≡ true
    pub regression : name ≡ codes "max-regression" → is_regression f (parse_float value) ≡ true

  abbrev pub IsAccepted : Text → Type 0
  IsAccepted arg =
      (listed bare_flags arg ≡ true)
      ⊎ ((name : Text) × (value : Text) × (option_of arg ≡ some (name, value))
          × IsOption name value)

  check_option-IsOption :
      (seen : List Text) (arg name value : Text) (out : List Text)
      → check_option f parse_float seen arg name value ≡ ok out
      → IsOption name value × (listed seen name ≡ false) × (out ≡ name ∷ seen)
  unfolding check_option
  check_option-IsOption seen arg name value out e =
      let (known, e1) = guard-eq-ok _ _ _ e in
      let (fresh, e2) = guard-eq-ok _ _ _ e1 in
      let (counted, e3) = guard-eq-ok _ _ _ e2 in
      let (formatted, e4) = guard-eq-ok _ _ _ e3 in
      let (ranged, e5) = guard-eq-ok _ _ _ e4 in
      (
        record {
          known = (known_option _ _ known).0;
          not_empty = (known_option _ _ known).1;
          count = implied _ _ counted;
          format = λ q. implied _ _ formatted (is_text name (codes "format") q);
          regression = λ q. implied _ _ ranged (is_text name (codes "max-regression") q);
        },
        fresh,
        sym (ok-injective e5),
      )

  -- What the loop's body does with an argument: a bare flag is passed over, the name of an option
  -- is new and becomes a seen one.
  abbrev IsChecked : List Text → Text → List Text → Type 0
  IsChecked seen arg out =
      ((listed bare_flags arg ≡ true) × (out ≡ seen))
      ⊎ ((listed bare_flags arg ≡ false)
          × (name : Text) × (value : Text) × (option_of arg ≡ some (name, value))
          × IsOption name value
          × (listed seen name ≡ false)
          × (out ≡ name ∷ seen))

  check_argument-IsChecked :
      (seen : List Text) (arg : Text) (out : List Text)
      → check_argument f parse_float seen arg ≡ ok out
      → IsChecked seen arg out
  unfolding check_argument
  check_argument-IsChecked seen arg out e = go (listed bare_flags arg) (option_of arg) refl refl (e)
    where
      go :
          (bare : Bool) (o : Option (Text × Text))
          → listed bare_flags arg ≡ bare
          → option_of arg ≡ o
          → (if bare then ok seen else elim o [
            | none ↦ err (HarnessError.unknown_argument arg)
            | some (name, value) ↦ check_option f parse_float seen arg name value
          ])
            ≡ ok out
          → IsChecked seen arg out
      go true o b q h = inl (b, sym (ok-injective h))
      go false none b q h = cc
      go false (some (name, value)) b q h =
          let (o, fresh, same) = check_option-IsOption seen arg name value out h in
          inr (b, name, value, q, o, fresh, same)

  -- After the loop: the arguments are accepted, the names are distinct and were not seen before,
  -- and the names that are seen are those and the ones seen before.
  pub record IsLooped (seen args names out : List Text) : Type 0 where
    pub accepted : All IsAccepted args
    pub named : option_names args ≡ names
    pub distinct : IsDistinct names
    pub fresh : IsFresh seen names
    pub collected : (p : Text → Bool) → any p out ≡ (any p seen || any p names)

  IsLooped-bare :
      (seen : List Text) (arg : Text) (args names out : List Text)
      → listed bare_flags arg ≡ true
      → IsLooped seen args names out
      → IsLooped seen (arg ∷ args) names out
  IsLooped-bare seen arg args names out bare l = record {
    accepted = (inl bare, l.accepted);
    named = if-true _ _ bare ∙ l.named;
    distinct = l.distinct;
    fresh = l.fresh;
    collected = l.collected;
  }

  IsLooped-option :
      (seen : List Text) (arg : Text) (args names out : List Text) (name value : Text)
      → listed bare_flags arg ≡ false
      → option_of arg ≡ some (name, value)
      → IsOption name value
      → listed seen name ≡ false
      → IsLooped (name ∷ seen) args names out
      → IsLooped seen (arg ∷ args) (name ∷ names) out
  IsLooped-option seen arg args names out name value bare option o unseen l =
      let (absent, fresh) = IsFresh-not-listed name seen names l.fresh in
      record {
        accepted = (inr (name, value, option, o), l.accepted);
        named =
            if-false _ _ bare ∙ option_names-some arg args option ∙ ap (λ ns. name ∷ ns) l.named;
        distinct = (absent, l.distinct);
        fresh = (unseen, fresh);
        collected = λ p. l.collected p ∙ or-swap (p name) (any p seen) (any p names);
      }

  pub check_arguments-IsLooped :
      (seen args out : List Text)
      → check_arguments f parse_float seen args ≡ ok out
      → (names : List Text) × IsLooped seen args names out
  unfolding check_arguments
  check_arguments-IsLooped seen [] out e = (
    [],
    record {
      accepted = tt;
      named = refl;
      distinct = tt;
      fresh = tt;
      collected = λ p. ap (any p) (sym (ok-injective e)) ∙ or-false (any p seen);
    },
  )
  check_arguments-IsLooped seen (arg ∷ args) out e =
      let (s, here, later) = >>=-eq-ok _ _ e in
      let (names, l) = check_arguments-IsLooped s args out later in
      elim (check_argument-IsChecked seen arg s here) [
        | inl (bare, same) ↦ (
          names,
          IsLooped-bare seen arg args names out bare
              (subst (λ x. IsLooped x args names out) same l),
        )
        | inr (bare, name, value, option, o, unseen, same) ↦ (
          name ∷ names,
          IsLooped-option seen arg args names out name value bare option o unseen
              (subst (λ x. IsLooped x args names out) same l),
        )
      ]
