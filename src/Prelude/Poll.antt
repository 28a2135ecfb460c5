-- ===== src/Prelude/Poll.antt =====
-- A polling loop: `loop { ... sleep }` whose turn number `k` reads the machine, and either leaves
-- the loop or goes on. `none` is the end of the fuel.
use zenbench.Prelude.{
  ℕ, zero, suc, ◌+◌, ◌≤◌, ◌<◌, ◌≡◌, refl, ◌∙◌, ◌≢◌, Option, none, some, arith, ◌⊎◌, inl, inr, subst,
  sym,
}
use mathlib.Core.Option.{some-injective}

pub data Turn {ℓ κ} (R : Type ℓ) (S : Type κ) : Type (ℓ ⊔ κ) where
  stop : R → Turn R S
  again : S → Turn R S

module _ {ℓ κ} {R : Type ℓ} {S : Type κ} (turn : ℕ → S → Turn R S) where
  unfoldable pub poll : ℕ → ℕ → S → Option R
  poll zero k s = none
  poll (suc fuel) k s = elim (turn k s) [ stop r ↦ some r | again s' ↦ poll fuel (k + 1) s' ]

  Turn-cases : (t : Turn R S) → ((r : R) × (t ≡ Turn.stop r)) ⊎ ((s : S) × (t ≡ Turn.again s))
  Turn-cases (stop r) = inl (r, refl)
  Turn-cases (again s) = inr (s, refl)

  -- The rule of the loop: an invariant, a last turn that cannot go on, and enough fuel give a
  -- result, of which the postcondition holds.
  pub poll_rule {μ ν} :
      (P : ℕ → S → Type μ) (Q : R → Type ν) (last : ℕ)
      → ((k : ℕ) (s s' : S) → P k s → turn k s ≡ Turn.again s' → P (k + 1) s' × (k < last))
      → ((k : ℕ) (s : S) (r : R) → P k s → turn k s ≡ Turn.stop r → Q r)
      → (fuel k : ℕ) (s : S) → last < k + fuel
      → k ≤ last
      → P k s
      → (r : R) × (poll fuel k s ≡ some r) × Q r
  unfolding poll
  poll_rule P Q last on off zero k s m n p = absurd (omega arith)
  poll_rule P Q last on off (suc fuel) k s m n p = elim (Turn-cases (turn k s)) [
    | inl (r, e) ↦ (r, rw (e, poll), off k s r p e)
    | inr (s', e) ↦
        let (p', lt) = on k s s' p e in
        let (r, q, holds) =
          poll_rule P Q last on off fuel (k + 1) s' (omega arith) (omega arith) p' in
        (r, rw (e, poll) q, holds)
  ]

  poll-stop : (fuel k : ℕ) (s : S) (r : R) → turn k s ≡ Turn.stop r → poll (suc fuel) k s ≡ some r
  unfolding poll
  poll-stop fuel k s r t = rw (t, poll)

  poll-again :
      (fuel k : ℕ) (s s' : S)
      → turn k s ≡ Turn.again s'
      → poll (suc fuel) k s ≡ poll fuel (k + 1) s'
  unfolding poll
  poll-again fuel k s s' t = rw (t, poll)

  poll-zero : (k : ℕ) (s : S) (r : R) → poll zero k s ≢ some r
  unfolding poll
  poll-zero k s r e = cc

  -- What every turn keeps holds of a result, whatever the fuel.
  pub poll_keeps {μ ν} :
      (P : S → Type μ) (Q : R → Type ν)
      → ((k : ℕ) (s s' : S) → P s → turn k s ≡ Turn.again s' → P s')
      → ((k : ℕ) (s : S) (r : R) → P s → turn k s ≡ Turn.stop r → Q r)
      → (fuel k : ℕ) (s : S) (r : R) → P s
      → poll fuel k s ≡ some r
      → Q r
  poll_keeps P Q on off zero k s r p e = absurd (poll-zero k s r e)
  poll_keeps P Q on off (suc fuel) k s r p e = elim (Turn-cases (turn k s)) [
    | inl (r', t) ↦
        subst Q (some-injective r' r (sym (poll-stop fuel k s r' t) ∙ e)) (off k s r' p t)
    | inr (s', t) ↦
        poll_keeps P Q on off fuel (k + 1) s' r (on k s s' p t) (sym (poll-again fuel k s s' t) ∙ e)
  ]
