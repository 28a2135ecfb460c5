-- ===== src/Pair/Drawn.antt =====
-- src/bin/support/pair.rs: the rejection loop of `schedule`.
use native.Mathlib.Nat.{mod-lt}
use zenbench.Prelude.{
  ℕ, zero, suc, ◌+◌, ◌-◌, ◌*◌, ◌%◌, ◌^◌, ◌<◌, ◌≤◌, ◌≡◌, ◌≢◌, ◌∙◌, ap, subst, Bool, true, false,
  some, leb, arith, ◌⊎◌, inl, inr, Bool-cases, if-true, if-false,
}
use zenbench.Prelude.Word.{u64_mod, wrapping_add}
use zenbench.Pair.Schedule.{draw, increment, mix}

-- The state after a number of steps.
abbrev state_at : ℕ → ℕ → ℕ
state_at state k = (state + k * increment) % u64_mod

state_at-suc : (state k : ℕ) → state_at (wrapping_add state increment) k ≡ state_at state (k + 1)
state_at-suc state k = omega arith

-- The loop takes a number, or rejects as many as it has fuel for.
draw-cases :
    (fuel least state : ℕ)
    → ((n : ℕ) × (after : ℕ) × (draw fuel least state ≡ some (n, after)) × (after < u64_mod))
      ⊎ ((k : ℕ) → k < fuel → leb least (mix (state_at state (k + 1))) ≡ false)
unfolding draw
draw-cases zero least state = inr λ k less. absurd (omega (arith, less))
draw-cases (suc fuel) least state =
    elim (Bool-cases (leb least (mix (wrapping_add state increment)))) [
      | inl taken ↦ inl (_, _, if-true _ _ taken, mod-lt (state + increment) (omega arith))
      | inr rejected ↦ elim (draw-cases fuel least (wrapping_add state increment)) [
        | inl (n, after, e, bounded) ↦ inl (n, after, if-false _ _ rejected ∙ e, bounded)
        | inr all_rejected ↦ inr (later all_rejected rejected)
      ]
    ]
  where
    later :
        ((k : ℕ)
          → k < fuel
          → leb least (mix (state_at (wrapping_add state increment) (k + 1))) ≡ false)
        → leb least (mix (wrapping_add state increment)) ≡ false
        → (k : ℕ) → k < suc fuel
        → leb least (mix (state_at state (k + 1))) ≡ false
    later h first zero less = subst (λ s. leb least (mix s) ≡ false) (omega arith) first
    later h first (suc k) less =
        subst (λ s. leb least (mix s) ≡ false)
          (state_at-suc state (k + 1) ∙ ap (state_at state) (omega arith))
          (h k (omega (arith, less)))

-- The number of steps to the state 2, which makes a number above `2 ^ 63`.
abbrev steps_to_two : ℕ → ℕ
steps_to_two state = ((2 + (u64_mod - state)) * 0xf1de83e19937733d) % u64_mod

two_reached : (state : ℕ) → state < u64_mod → state_at state (steps_to_two state) ≡ 2
two_reached state h = omega (arith, h)

two_reached_late : (state : ℕ) → state_at state u64_mod ≡ state_at state 0
two_reached_late state = omega arith

two_is_taken : (least : ℕ) → least ≤ 2 ^ 63 → leb least (mix 2) ≡ true
unfolding mix
two_is_taken least h = ground (arith, h)

-- A number above the bound is not rejected on the way to the state 2.
not_rejected :
    (least state steps : ℕ)
    → steps < u64_mod
    → state_at state steps ≡ 2
    → ((k : ℕ) → k < u64_mod → leb least (mix (state_at state (k + 1))) ≡ false)
    → leb least (mix 2) ≡ false
not_rejected least state zero less two rejected =
    subst (λ s. leb least (mix s) ≡ false) (ap (state_at state) last ∙ two_reached_late state ∙ two)
      (rejected (u64_mod - 1) (omega arith))
  where
    last : (u64_mod - 1) + 1 ≡ u64_mod
    last = omega arith
not_rejected least state (suc k) less two rejected =
    subst (λ s. leb least (mix s) ≡ false) (ap (state_at state) step ∙ two)
      (rejected k (omega (arith, less)))
  where
    step : k + 1 ≡ suc k
    step = omega arith

-- A full period of the generator has a number that is not rejected.
pub draw-some :
    (least state : ℕ)
    → least ≤ 2 ^ 63
    → state < u64_mod
    → (n : ℕ) × (after : ℕ) × (draw u64_mod least state ≡ some (n, after)) × (after < u64_mod)
draw-some least state h bounded = elim (draw-cases u64_mod least state) [
  | inl found ↦ found
  | inr rejected ↦ absurd (
      clash _ (two_is_taken least h) (
        not_rejected least state (steps_to_two state)
          (mod-lt ((2 + (u64_mod - state)) * 0xf1de83e19937733d) (omega arith))
          (two_reached state bounded) rejected))
]
  where
    clash : (b : Bool) → b ≡ true → b ≢ false
    clash b e g = cc
