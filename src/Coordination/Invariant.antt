-- ===== src/Coordination/Invariant.antt =====
-- src/coordination.rs: the invariant of the admission directory, and what a scan leaves.
use zenbench.Prelude.{
  ℕ, ◌≤◌, ◌≡◌, Bool, true, Option, none, some, List, [], ◌∷◌, leb, contains, keep, All, ok, err,
  arith, Bool-cases, inl, inr, subst, sym, ap, ◌∙◌, if-true, if-false, ◌⊎◌,
}
use zenbench.Coordination.{
  Ticket, Directory, AdmissionError, count, scan, prepend, has_ticket, has_running,
}

-- Every ticket is at `n` or after it.
abbrev pub IsFrom : ℕ → List Ticket → Type 0
IsFrom n ts = All (λ u. n ≤ u.sequence) ts

-- No ticket is before one that runs.
abbrev pub IsFirst : List Ticket → Ticket → Type 0
IsFirst ts t = t.running ≡ true → IsFrom t.sequence ts

pub record IsValid (d : Directory) : Type 0 where
  pub numbered : All (λ t. t.sequence ≤ count d.counter) d.tickets
  pub first : All (IsFirst d.tickets) d.tickets
  pub present : (n : ℕ) → contains d.held n ≡ true → has_ticket n d.tickets ≡ true
  pub guarded : (n : ℕ) → contains d.held n ≡ true → n ≤ count d.counter

pub All-map {ℓ κ μ} :
    {A : Type ℓ} (P : A → Type κ) (Q : A → Type μ) (xs : List A)
    → ((a : A) → P a → Q a)
    → All P xs
    → All Q xs
All-map P Q [] f h = tt
All-map P Q (x ∷ xs) f (here, rest) = (f x here, All-map P Q xs f rest)

pub All-keep {ℓ κ} :
    {A : Type ℓ} (P : A → Type κ) (p : A → Bool) (xs : List A) → All P xs → All P (keep p xs)
All-keep P p [] h = tt
All-keep P p (x ∷ xs) (here, rest) = elim (Bool-cases (p x)) [
  | inl kept ↦
      subst (All P) (sym (if-true (x ∷ keep p xs) (keep p xs) kept)) (here, All-keep P p xs rest)
  | inr out ↦ subst (All P) (sym (if-false (x ∷ keep p xs) (keep p xs) out)) (All-keep P p xs rest)
]

-- What a scan does with a ticket: it passes over a later one, is blocked by a live owner's, stops
-- at an orphan, or removes a dead owner's.
scan-cases :
    (n : ℕ) (held : List ℕ) (blocked : Option Ticket) (t : Ticket) (ts : List Ticket)
    → ((n ≤ t.sequence) × (scan n held blocked (t ∷ ts) ≡ prepend t (scan n held blocked ts)))
      ⊎ (scan n held blocked (t ∷ ts) ≡ prepend t (scan n held (some t) ts))
      ⊎ (scan n held blocked (t ∷ ts) ≡ (t ∷ ts, err (AdmissionError.orphaned t)))
      ⊎ (scan n held blocked (t ∷ ts) ≡ scan n held blocked ts)
unfolding scan
scan-cases n held blocked t ts = elim (Bool-cases (leb n t.sequence)) [
  | inl later ↦ inl (ground arith, ground arith)
  | inr before ↦ elim (Bool-cases (contains held t.sequence)) [
    | inl live ↦ inr (inl (ground arith))
    | inr dead ↦ elim (Bool-cases t.running) [
      | inl running ↦ inr (inr (inl (ground arith)))
      | inr waiting ↦ inr (inr (inr (ground arith)))
    ]
  ]
]

-- What holds of all tickets holds of those that a scan leaves.
pub scan-All {κ} :
    (P : Ticket → Type κ) (n : ℕ) (held : List ℕ) (blocked : Option Ticket) (ts : List Ticket)
    → All P ts
    → All P ((scan n held blocked ts).0)
unfolding scan
scan-All P n held blocked [] h = tt
scan-All P n held blocked (t ∷ ts) h = elim (scan-cases n held blocked t ts) [
  | inl (later, e) ↦ subst (λ r. All P r.0) (sym e) (h.0, scan-All P n held blocked ts h.1)
  | inr (inl e) ↦ subst (λ r. All P r.0) (sym e) (h.0, scan-All P n held (some t) ts h.1)
  | inr (inr (inl e)) ↦ subst (λ r. All P r.0) (sym e) h
  | inr (inr (inr e)) ↦ subst (λ r. All P r.0) (sym e) (scan-All P n held blocked ts h.1)
]

-- A scan keeps the tickets of live owners.
pub scan-keeps-live :
    (n m : ℕ) (held : List ℕ) (blocked : Option Ticket) (ts : List Ticket)
    → contains held m ≡ true
    → has_ticket m ts ≡ true
    → has_ticket m ((scan n held blocked ts).0) ≡ true
unfolding scan
scan-keeps-live n m held blocked [] h k = k
scan-keeps-live n m held blocked (t ∷ ts) h k =
    ground (arith, scan-keeps-live n m held blocked ts, scan-keeps-live n m held (some t) ts)

-- A scan keeps the tickets that run.
pub scan-keeps-running :
    (n m : ℕ) (held : List ℕ) (blocked : Option Ticket) (ts : List Ticket)
    → has_running m ts ≡ true
    → has_running m ((scan n held blocked ts).0) ≡ true
unfolding scan
scan-keeps-running n m held blocked [] k = k
scan-keeps-running n m held blocked (t ∷ ts) k =
    ground (arith, scan-keeps-running n m held blocked ts, scan-keeps-running n m held (some t) ts)

-- A scan that finds nothing leaves no ticket before `n`.
pub scan-clear :
    (n : ℕ) (held : List ℕ) (blocked : Option Ticket) (ts : List Ticket)
    → (scan n held blocked ts).1 ≡ ok none
    → (blocked ≡ none) × IsFrom n ((scan n held blocked ts).0)
unfolding scan
scan-clear n held blocked [] e = (ground arith, tt)
scan-clear n held blocked (t ∷ ts) e = elim (scan-cases n held blocked t ts) [
  | inl (later, q) ↦
      let (none_yet, rest) = scan-clear n held blocked ts (ap (λ r. r.1) (sym q) ∙ e) in
      (none_yet, subst (λ r. IsFrom n r.0) (sym q) (later, rest))
  | inr (inl q) ↦
      let (found, rest) = scan-clear n held (some t) ts (ap (λ r. r.1) (sym q) ∙ e) in absurd cc
  | inr (inr (inl q)) ↦ let refused = ap (λ r. r.1) (sym q) ∙ e in absurd cc
  | inr (inr (inr q)) ↦
      let (none_yet, rest) = scan-clear n held blocked ts (ap (λ r. r.1) (sym q) ∙ e) in
      (none_yet, subst (λ r. IsFrom n r.0) (sym q) rest)
]
