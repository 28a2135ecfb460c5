-- ===== src/Pair/Expand.antt =====
-- src/bin/support/pair/plan.rs: `expand`, which replaces the placeholders `${key}` of a command's
-- argument.
use mathlib.Core.List.{append_assoc}
use mathlib.Core.Path.{Path}
use zenbench.Prelude.{
  ℕ, zero, suc, ◌<◌, ◌≡◌, refl, sym, ◌∙◌, ap, false, Option, none, some, List, [], ◌∷◌, ◌++◌,
  length, if◌then◌else◌, ◌&&◌, ◌==◌, arith, Result, ok, err, ◌>>=◌, ok_or, list_eq, contains,
  length-append, ◌⊎◌, inl, inr, Bool-cases, Option-cases, &&-eq-true,
}
use zenbench.Prelude.Text.{Text, split_once}
use zenbench.Pair.{PairError}

-- `rest.split_once("${")`
abbrev pub split_mark : Text → Option (Text × Text)
split_mark [] = none
split_mark (c ∷ []) = none
split_mark (c ∷ d ∷ cs) =
    if (c == b'$') && (d == b'{') then some ([], cs) else elim (split_mark (d ∷ cs)) [
      | none ↦ none
      | some (before, after) ↦ some (c ∷ before, after)
    ]

-- `fields.get(key)`
abbrev pub lookup : List (Text × Text) → Text → Option Text
lookup [] key = none
lookup ((k, v) ∷ fields) key = if list_eq k key then some v else lookup fields key

-- the test after the loop
abbrev pub without_nul : Text → Result PairError Text
without_nul out = if contains out 0 then err PairError.nul_in_command else ok out

module _ (fields : List (Text × Text)) where
  -- The loop. A turn takes a placeholder off the rest, which is shorter after it; a fuel that is
  -- above the length of the rest is never used up.
  unfoldable pub expand_loop : ℕ → Text → Text → Result PairError Text
  expand_loop zero out rest = err PairError.unterminated_placeholder
  expand_loop (suc fuel) out rest = elim (split_mark rest) [
    | none ↦ without_nul (out ++ rest)
    | some (before, tail) ↦ elim (split_once b'}' tail) [
      | none ↦ err PairError.unterminated_placeholder
      | some (key, after) ↦ elim (lookup fields key) [
        | none ↦ err (PairError.unknown_placeholder key)
        | some value ↦ expand_loop fuel ((out ++ before) ++ value) after
      ]
    ]
  ]

  -- `expand`
  unfoldable pub expand : Text → Result PairError Text
  unfolding expand_loop
  expand value = expand_loop (suc (length value)) [] value

-- A text as literals and placeholders.
pub data Template : Type 0 where
  done : (last : Text) → Template
  unclosed : (literal rest : Text) → Template
  hole : (literal key : Text) (next : Template) → Template

abbrev pub render : Template → Text
render (done last) = last
render (unclosed literal rest) = literal ++ b'$' ∷ b'{' ∷ rest
render (hole literal key next) = literal ++ b'$' ∷ b'{' ∷ (key ++ b'}' ∷ render next)

-- No literal has the start of a placeholder, no key and no unclosed rest the end of one.
abbrev pub IsTemplate : Template → Type 0
IsTemplate (done last) = split_mark last ≡ none
IsTemplate (unclosed literal rest) = (split_mark literal ≡ none) × (split_once b'}' rest ≡ none)
IsTemplate (hole literal key next) =
    (split_mark literal ≡ none) × (split_once b'}' key ≡ none) × IsTemplate next

-- The values in the place of the keys, taken literally; the first placeholder that is unknown or
-- unclosed is the error.
abbrev pub substitute : List (Text × Text) → Template → Result PairError Text
substitute fields (done last) = ok last
substitute fields (unclosed literal rest) = err PairError.unterminated_placeholder
substitute fields (hole literal key next) =
    ok_or (lookup fields key) (PairError.unknown_placeholder key) >>= λ value.
    substitute fields next >>= λ rest. ok (literal ++ (value ++ rest))

split_mark-none-tail :
    (c d : ℕ) (cs : Text) → split_mark (c ∷ d ∷ cs) ≡ none → split_mark (d ∷ cs) ≡ none
split_mark-none-tail c d cs h = ground arith

split_mark-append :
    (literal rest : Text)
    → split_mark literal ≡ none
    → split_mark (literal ++ b'$' ∷ b'{' ∷ rest) ≡ some (literal, rest)
split_mark-append [] rest h = refl
split_mark-append (c ∷ []) rest h = ground arith
split_mark-append (c ∷ d ∷ cs) rest h =
    let e = split_mark-append (d ∷ cs) rest (split_mark-none-tail c d cs h) in ground arith

split_once-append :
    (sep : ℕ) (key rest : Text)
    → split_once sep key ≡ none
    → split_once sep (key ++ sep ∷ rest) ≡ some (key, rest)
split_once-append sep [] rest h = ground arith
split_once-append sep (c ∷ cs) rest h = ground (arith, split_once-append sep cs rest)

split_mark-cons :
    (c d : ℕ) (cs literal rest : Text)
    → ((c == b'$') && (d == b'{')) ≡ false
    → Path Text (d ∷ cs) (literal ++ b'$' ∷ b'{' ∷ rest)
    → split_mark literal ≡ none
    → split_mark (c ∷ literal) ≡ none
split_mark-cons c d cs [] rest skip same free = refl
split_mark-cons c d cs (e ∷ es) rest skip same free =
    let head : d ≡ e = cc in ground (arith, skip, free, head)

-- What a split at the start of a placeholder says of the text.
split_mark-cases :
    (text : Text)
    → (split_mark text ≡ none)
      ⊎ ((literal : Text) × (rest : Text) × (text ≡ literal ++ b'$' ∷ b'{' ∷ rest)
          × (split_mark literal ≡ none))
split_mark-cases [] = inl refl
split_mark-cases (c ∷ []) = inl refl
split_mark-cases (c ∷ d ∷ cs) = elim (Bool-cases ((c == b'$') && (d == b'{'))) [
  | inl here ↦
      let (first, second) = &&-eq-true (c == b'$') (d == b'{') here in
      inr ([], cs, ground (arith, first, second), refl)
  | inr skip ↦ elim (split_mark-cases (d ∷ cs)) [
    | inl absent ↦ inl (ground (arith, skip, absent))
    | inr (literal, rest, same, free) ↦ inr (
      c ∷ literal,
      rest,
      ap (λ t. c ∷ t) same,
      split_mark-cons c d cs literal rest skip same free,
    )
  ]
]

split_once-cases :
    (sep : ℕ) (text : Text)
    → (split_once sep text ≡ none)
      ⊎ ((key : Text) × (rest : Text) × (text ≡ key ++ sep ∷ rest) × (split_once sep key ≡ none))
split_once-cases sep [] = inl refl
split_once-cases sep (c ∷ cs) = elim (Bool-cases (c == sep)) [
  | inl here ↦ inr ([], cs, ground (arith, here), refl)
  | inr skip ↦ elim (split_once-cases sep cs) [
    | inl absent ↦ inl (ground (arith, skip, absent))
    | inr (key, rest, same, free) ↦
        inr (c ∷ key, rest, ap (λ t. c ∷ t) same, ground (arith, skip, free))
  ]
]

-- Every text is one of a template.
template_of :
    (fuel : ℕ) (text : Text)
    → length text < fuel
    → (t : Template) × IsTemplate t × (render t ≡ text)
template_of zero text h = absurd (omega (arith, h))
template_of (suc fuel) text h = elim (split_mark-cases text) [
  | inl free ↦ (Template.done text, free, refl)
  | inr (literal, rest, same, free) ↦ elim (split_once-cases b'}' rest) [
    | inl open_ ↦ (Template.unclosed literal rest, (free, open_), sym same)
    | inr (key, after, closed, plain) ↦
        let (t, valid, rendered) = template_of fuel after (
          omega (
            arith,
            h,
            ap length same,
            ap length closed,
            length-append literal (b'$' ∷ b'{' ∷ rest),
            length-append key (b'}' ∷ after),
          )) in
        (
          Template.hole literal key t,
          (free, plain, valid),
          sym (
              same
              ∙ ap (λ r. literal ++ b'$' ∷ b'{' ∷ r)
                  (closed ∙ ap (λ a. key ++ b'}' ∷ a) (sym rendered))),
        )
  ]
]

after_hole :
    (r : Result PairError Text) (out literal value : Text)
    → (r >>= λ rest. without_nul (((out ++ literal) ++ value) ++ rest))
      ≡ ((r >>= λ rest. ok (literal ++ (value ++ rest))) >>= λ rest. without_nul (out ++ rest))
after_hole (err e) out literal value = refl
after_hole (ok rest) out literal value =
    ap without_nul
      (append_assoc (out ++ literal) value rest ∙ append_assoc out literal (value ++ rest))

module _ (fields : List (Text × Text)) where
  expand_loop-hole :
      (fuel : ℕ) (out literal key after : Text)
      → split_mark literal ≡ none
      → split_once b'}' key ≡ none
      → expand_loop fields (suc fuel) out (literal ++ b'$' ∷ b'{' ∷ (key ++ b'}' ∷ after)) ≡ (
          ok_or (lookup fields key) (PairError.unknown_placeholder key) >>= λ value.
          expand_loop fields fuel ((out ++ literal) ++ value) after)
  unfolding expand_loop
  expand_loop-hole fuel out literal key after free plain = elim (Option-cases (lookup fields key)) [
    | inl absent ↦ rw (
      split_mark-append literal _ free,
      split_once-append b'}' key after plain,
      absent,
      expand_loop,
    )
    | inr (value, found) ↦ rw (
      split_mark-append literal _ free,
      split_once-append b'}' key after plain,
      found,
      expand_loop,
    )
  ]

  expand_loop-render :
      (fuel : ℕ) (out : Text) (t : Template)
      → IsTemplate t
      → length (render t) < fuel
      → expand_loop fields fuel out (render t)
        ≡ (substitute fields t >>= λ rest. without_nul (out ++ rest))
  unfolding expand_loop
  expand_loop-render zero out t valid h = absurd (omega (arith, h))
  expand_loop-render (suc fuel) out (done last) valid h = rw (valid, expand_loop)
  expand_loop-render (suc fuel) out (unclosed literal rest) (free, open_) h =
      rw (split_mark-append literal rest free, open_, expand_loop)
  expand_loop-render (suc fuel) out (hole literal key next) (free, plain, valid) h =
      expand_loop-hole fuel out literal key (render next) free plain
      ∙ found (lookup fields key) (λ o. expand_loop-render fuel o next valid (
          omega (
            arith,
            h,
            length-append literal (b'$' ∷ b'{' ∷ (key ++ b'}' ∷ render next)),
            length-append key (b'}' ∷ render next),
          )))
    where
      found :
          (o : Option Text)
          → ((o' : Text)
              → expand_loop fields fuel o' (render next)
                ≡ (substitute fields next >>= λ rest. without_nul (o' ++ rest)))
          → (ok_or o (PairError.unknown_placeholder key) >>= λ value.
              expand_loop fields fuel ((out ++ literal) ++ value) (render next))
            ≡ ((ok_or o (PairError.unknown_placeholder key) >>= λ value.
                  substitute fields next >>= λ rest. ok (literal ++ (value ++ rest)))
                >>= λ rest. without_nul (out ++ rest))
      found none ih = refl
      found (some value) ih = ih _ ∙ after_hole (substitute fields next) out literal value

  -- The expansion of a text. Every text is made of literals and placeholders, the
  -- last perhaps unclosed; its expansion is the literals with the fields' values in the place of
  -- the placeholders, which are not expanded again, and an error exactly where a placeholder is
  -- unknown or unclosed, the first one, or the result has a NUL.
  pub expand_exact :
      ((t : Template)
        → IsTemplate t
        → expand fields (render t) ≡ (substitute fields t >>= without_nul))
      × ((text : Text) → (t : Template) × IsTemplate t × (render t ≡ text))
  unfolding expand
  expand_exact = (
    λ t valid. expand_loop-render (suc (length (render t))) [] t valid (omega arith),
    λ text. template_of (suc (length text)) text (omega arith),
  )
