-- ===== src/Gate/Ancestors.antt =====
-- src/gate.rs: the walk up the parents of a process, `collect_ancestors_with`. `parent_of` is the
-- process table's answer; a process id is a number. `out` grows at its end.
use zenbench.Prelude.{
  ℕ, zero, suc, ◌≤◌, ◌≡◌, refl, Bool, true, false, Option, none, some, List, [], ◌∷◌, ◌++◌, ◌==◌,
  contains, ◌||◌, arith, length, Option-cases, inl, inr, Bool-cases, ◌⊎◌, ◌∙◌, sym, subst, ap,
}
use mathlib.Core.List.{append-nil, append_assoc}

-- `Some(parent) == start`
abbrev is_start : Option ℕ → ℕ → Bool
is_start none parent = false
is_start (some s) parent = parent == s

-- the `for` loop of `collect_ancestors_with`, with the turns that are left
unfoldable pub walk : (ℕ → Option ℕ) → Option ℕ → (turns : ℕ) → Option ℕ → List ℕ → List ℕ
walk parent_of start zero cur out = out
walk parent_of start (suc turns) none out = out
walk parent_of start (suc turns) (some pid) out = elim (parent_of pid) [
  | none ↦ out
  | some parent ↦ elim (is_start start parent || contains out parent) [
    | true ↦ out
    | false ↦ walk parent_of start turns (some parent) (out ++ (parent ∷ []))
  ]
]

-- `collect_ancestors_with`
unfoldable pub collect_ancestors_with : Option ℕ → List ℕ → (ℕ → Option ℕ) → List ℕ
unfolding walk
collect_ancestors_with start out parent_of = walk parent_of start 1024 start out

-- The list holds the parents of `pid`, in order, without a gap.
abbrev pub IsChain : (ℕ → Option ℕ) → ℕ → List ℕ → Type 0
IsChain parent_of pid [] = Unit
IsChain parent_of pid (q ∷ qs) = (parent_of pid ≡ some q) × IsChain parent_of q qs

-- No element of the second list is in the first, is the start, or comes twice.
abbrev pub AreNew : Option ℕ → List ℕ → List ℕ → Type 0
AreNew start out [] = Unit
AreNew start out (q ∷ qs) =
    (is_start start q ≡ false) × (contains out q ≡ false) × AreNew start (out ++ (q ∷ [])) qs

abbrev last_or : ℕ → List ℕ → ℕ
last_or p [] = p
last_or p (q ∷ qs) = last_or q qs

-- The walk has stopped at a process that has no parent, or whose parent is known.
abbrev pub IsComplete : (ℕ → Option ℕ) → Option ℕ → ℕ → List ℕ → List ℕ → Type 0
IsComplete parent_of start pid out qs =
    (parent_of (last_or pid qs) ≡ none)
    ⊎ ((q : ℕ) × (parent_of (last_or pid qs) ≡ some q)
        × (is_start start q || contains (out ++ qs) q ≡ true))

module _ (parent_of : ℕ → Option ℕ) (start : Option ℕ) where
  -- What the walk adds: a chain of new processes, which ends by itself or fills all its turns.
  pub record Walked (turns pid : ℕ) (out r : List ℕ) : Type 0 where
    pub added : List ℕ
    pub appended : r ≡ out ++ added
    pub chain : IsChain parent_of pid added
    pub fresh : AreNew start out added
    pub few : length added ≤ turns
    pub ended : IsComplete parent_of start pid out added ⊎ (length added ≡ turns)

  Walked-stop :
      (turns pid : ℕ) (out : List ℕ)
      → IsComplete parent_of start pid out []
      → Walked turns pid out out
  Walked-stop turns pid out c = record {
    added = [];
    appended = sym (append-nil out);
    chain = tt;
    fresh = tt;
    few = omega arith;
    ended = inl c;
  }

  Walked-cons :
      (turns pid parent : ℕ) (out r : List ℕ)
      → parent_of pid ≡ some parent
      → is_start start parent || contains out parent ≡ false
      → Walked turns parent (out ++ (parent ∷ [])) r
      → Walked (suc turns) pid out r
  Walked-cons turns pid parent out r e new w = record {
    added = parent ∷ w.added;
    appended = w.appended ∙ append_assoc out (parent ∷ []) w.added;
    chain = (e, w.chain);
    fresh = (ground arith, ground arith, w.fresh);
    few = omega (arith, w.few);
    ended = elim w.ended [
      | inl c ↦ inl (
          subst
            (λ l.
              (parent_of (last_or parent w.added) ≡ none)
              ⊎ ((q : ℕ) × (parent_of (last_or parent w.added) ≡ some q)
                  × (is_start start q || contains l q ≡ true)))
            (append_assoc out (parent ∷ []) w.added) c)
      | inr full ↦ inr (ap suc full)
    ];
  }

  pub walk-Walked :
      (turns pid : ℕ) (out : List ℕ)
      → Walked turns pid out (walk parent_of start turns (some pid) out)
  unfolding walk
  walk-Walked zero pid out = record {
    added = [];
    appended = sym (append-nil out);
    chain = tt;
    fresh = tt;
    few = omega arith;
    ended = inr refl;
  }
  walk-Walked (suc turns) pid out = elim (Option-cases (parent_of pid)) [
    | inl e ↦ rw (e, walk) (Walked-stop (suc turns) pid out (inl e))
    | inr (parent, e) ↦ elim (Bool-cases (is_start start parent || contains out parent)) [
      | inl known ↦
          rw (e, known, walk)
            (Walked-stop (suc turns) pid out (inr (parent, e, rw (append-nil out) known)))
      | inr new ↦
          rw (e, new, walk)
            (Walked-cons turns pid parent out
              (walk parent_of start turns (some parent) (out ++ (parent ∷ []))) e new
              (walk-Walked turns parent (out ++ (parent ∷ []))))
    ]
  ]

-- `collect_ancestors_with` only appends to its list, whatever parents the system reports, also
-- cyclic ones: what it adds is the chain of parents of the starting process without a gap, no
-- process twice, none that was in the list, never the start itself, at most 1024; and the chain
-- ends only at a process without a parent, at one whose parent is known, or after 1024 of them.
pub collect_ancestors_chain :
    (parent_of : ℕ → Option ℕ) (pid : ℕ) (out : List ℕ)
    → Walked parent_of (some pid) 1024 pid out (collect_ancestors_with (some pid) out parent_of)
unfolding collect_ancestors_with
collect_ancestors_chain parent_of pid out = walk-Walked parent_of (some pid) 1024 pid out
