-- ===== src/Pair/Permuted.antt =====
-- src/bin/support/pair.rs: `schedule`, and the schedule that `validate_packet` accepts.
use native.Mathlib.Nat.{mod-lt}
use zenbench.Prelude.{
  ℕ, zero, suc, ◌+◌, ◌-◌, ◌%◌, ◌^◌, ◌<◌, ◌≤◌, ◌≡◌, refl, sym, ◌∙◌, ap, subst, Option, some, List,
  [], ◌∷◌, not, arith, ◌⊎◌, inl, inr, length, range_from, list_eq, list_eq_refl, ==_iff, ok,
  fail_if, ◌>>◌,
}
use zenbench.Prelude.Word.{u64_mod}
use zenbench.Prelude.Sort.{sort, IsSortedFrom, IsSortedFrom-sort}
use zenbench.Prelude.Counts.{occurrences, occurrences-sort, IsSortedFrom-unique}
use zenbench.Engine.Shuffle.{swap, occurrences-swap, length-swap, length-range_from}
use zenbench.Pair.{PairError}
use zenbench.Pair.Schedule.{draw, schedule, schedule_case, schedule_cases, shuffle_arms, threshold}
use zenbench.Pair.Drawn.{draw-some}
use zenbench.Pair.Retained.{validate_orders, validate_schedule}

-- The range of the arms is sorted.
IsSortedFrom-range : (a start n : ℕ) → a ≤ start → IsSortedFrom a (range_from start n)
IsSortedFrom-range a start zero h = tt
IsSortedFrom-range a start (suc n) h = (h, IsSortedFrom-range start (suc start) n (omega arith))

threshold-small : (bound : ℕ) → 0 < bound → bound ≤ 2 ^ 63 → threshold bound ≤ 2 ^ 63
threshold-small bound pos small =
    let less : threshold bound < bound = mod-lt _ pos in omega (arith, less, small)

-- What a computation that has enough fuel gives: a value with a property, and a state of 64 bits.
abbrev Gives {ℓ} : {A : Type 0} → Option (A × ℕ) → (A → Type ℓ) → Type ℓ
Gives {A = A} result P =
    (a : A) × (after : ℕ) × (result ≡ some (a, after)) × (after < u64_mod) × P a

module _ (fuel : ℕ) where
  shuffle_arms-zero :
      (order : List ℕ) (state : ℕ) → shuffle_arms fuel zero order state ≡ some (order, state)
  unfolding shuffle_arms
  shuffle_arms-zero order state = refl

  shuffle_arms-suc :
      (i : ℕ) (order : List ℕ) (state n after : ℕ)
      → draw fuel (threshold (suc i + 1)) state ≡ some (n, after)
      → shuffle_arms fuel (suc i) order state
        ≡ shuffle_arms fuel i (swap order (suc i) (n % (suc i + 1))) after
  unfolding shuffle_arms
  shuffle_arms-suc i order state n after e = rw (e) refl

  schedule_case-zero : (arms state : ℕ) → schedule_case fuel zero arms state ≡ some ([], state)
  unfolding schedule_case
  schedule_case-zero arms state = refl

  schedule_case-suc :
      (blocks arms state after last : ℕ) (order : List ℕ) (orders : List (List ℕ))
      → shuffle_arms fuel (arms - 1) (range_from 0 arms) state ≡ some (order, after)
      → schedule_case fuel blocks arms after ≡ some (orders, last)
      → schedule_case fuel (suc blocks) arms state ≡ some (order ∷ orders, last)
  unfolding schedule_case
  schedule_case-suc blocks arms state after last order orders e e' = rw (e, e') refl

  schedule_cases-zero :
      (blocks arms state : ℕ) → schedule_cases fuel zero blocks arms state ≡ some []
  unfolding schedule_cases
  schedule_cases-zero blocks arms state = refl

  schedule_cases-suc :
      (cases blocks arms state after : ℕ) (orders : List (List ℕ)) (rest : List (List (List ℕ)))
      → schedule_case fuel blocks arms state ≡ some (orders, after)
      → schedule_cases fuel cases blocks arms after ≡ some rest
      → schedule_cases fuel (suc cases) blocks arms state ≡ some (orders ∷ rest)
  unfolding schedule_cases
  schedule_cases-suc cases blocks arms state after orders rest e e' = rw (e, e') refl

drawn_below :
    (i state : ℕ) (order : List ℕ)
    → suc i < length order
    → length order ≤ 2 ^ 63
    → state < u64_mod
    → (n : ℕ) × (after : ℕ) × (draw u64_mod (threshold (suc i + 1)) state ≡ some (n, after))
      × (after < u64_mod)
drawn_below i state order k small bounded =
    draw-some (threshold (suc i + 1)) state
      (threshold-small (suc i + 1) (omega arith) (omega (arith, k, small))) bounded

-- The shuffle ends, and keeps the occurrences of every number.
shuffle_arms-keeps :
    (i : ℕ) (order : List ℕ) (state : ℕ)
    → (i ≡ 0) ⊎ (i < length order)
    → length order ≤ 2 ^ 63
    → state < u64_mod
    → Gives
        (shuffle_arms u64_mod i order state)
        λ out. ((x : ℕ) → occurrences x out ≡ occurrences x order)
shuffle_arms-keeps zero order state k small bounded =
    (order, state, shuffle_arms-zero u64_mod order state, bounded, λ x. refl)
shuffle_arms-keeps (suc i) order state (inl z) small bounded = absurd (omega (arith, z))
shuffle_arms-keeps (suc i) order state (inr k) small bounded =
    let (n, after, drawn, inside) = drawn_below i state order k small bounded in
    let below : n % (suc i + 1) < suc i + 1 = mod-lt n (omega arith) in
    let same = length-swap order (suc i) (n % (suc i + 1)) in
    let (out, last, e, good, kept) =
      shuffle_arms-keeps i (swap order (suc i) (n % (suc i + 1))) after
        (inr (omega (arith, same, k))) (omega (arith, same, small)) inside in
    (
      out,
      last,
      shuffle_arms-suc u64_mod i order state n after drawn ∙ e,
      good,
      λ x. kept x ∙ occurrences-swap order (suc i) (n % (suc i + 1)) x k (omega (arith, below, k)),
    )

validate_orders-suc :
    (arms : ℕ) (order : List ℕ) (orders : List (List ℕ))
    → sort order ≡ range_from 0 arms
    → validate_orders arms orders ≡ ok tt
    → validate_orders arms (order ∷ orders) ≡ ok tt
unfolding validate_orders
validate_orders-suc arms order orders e h =
    subst
      (λ s.
        (fail_if (not (list_eq s (range_from 0 arms))) PairError.bad_arm_schedule
          >> validate_orders arms orders)
        ≡ ok tt)
      (sym e)
      (subst
        (λ b. (fail_if (not b) PairError.bad_arm_schedule >> validate_orders arms orders) ≡ ok tt)
        (sym (list_eq_refl (range_from 0 arms))) h)

-- The orders of a case: as many as there are blocks, and each of every arm once.
abbrev IsOrders : ℕ → ℕ → List (List ℕ) → Type 0
IsOrders blocks arms orders = (length orders ≡ blocks) × (validate_orders arms orders ≡ ok tt)

order_start : (arms : ℕ) → (arms - 1 ≡ 0) ⊎ (arms - 1 < length (range_from 0 arms))
order_start zero = inl refl
order_start (suc m) = inr (omega (arith, length-range_from 1 m))

schedule_case-IsOrders :
    (blocks arms state : ℕ)
    → arms ≤ 2 ^ 63
    → state < u64_mod
    → Gives (schedule_case u64_mod blocks arms state) (IsOrders blocks arms)
unfolding validate_orders
schedule_case-IsOrders zero arms state small bounded =
    ([], state, schedule_case-zero u64_mod arms state, bounded, (refl, refl))
schedule_case-IsOrders (suc blocks) arms state small bounded =
    let (order, after, e, inside, kept) =
      shuffle_arms-keeps (arms - 1) (range_from 0 arms) state (order_start arms)
        (omega (arith, small, length-range_from 0 arms)) bounded in
    let (orders, last, e', good, (count, valid)) =
      schedule_case-IsOrders blocks arms after small inside in
    let sorted =
      IsSortedFrom-unique 0 (sort order) (range_from 0 arms) (IsSortedFrom-sort order)
        (IsSortedFrom-range 0 0 arms (omega arith)) (λ x. occurrences-sort x order ∙ kept x) in
    (
      order ∷ orders,
      last,
      schedule_case-suc u64_mod blocks arms state after last order orders e e',
      good,
      (ap suc count, validate_orders-suc arms order orders sorted valid),
    )

validate_schedule-suc :
    (blocks arms : ℕ) (orders : List (List ℕ)) (rest : List (List (List ℕ)))
    → IsOrders blocks arms orders
    → validate_schedule blocks arms rest ≡ ok tt
    → validate_schedule blocks arms (orders ∷ rest) ≡ ok tt
unfolding validate_schedule
validate_schedule-suc blocks arms orders rest (count, valid) h =
    rw ((==_iff (length orders) blocks).1 count, valid, h) refl

schedule_cases-valid :
    (cases blocks arms state : ℕ)
    → arms ≤ 2 ^ 63
    → state < u64_mod
    → (s : List (List (List ℕ))) × (schedule_cases u64_mod cases blocks arms state ≡ some s)
      × (length s ≡ cases)
      × (validate_schedule blocks arms s ≡ ok tt)
unfolding validate_schedule
schedule_cases-valid zero blocks arms state small bounded =
    ([], schedule_cases-zero u64_mod blocks arms state, refl, refl)
schedule_cases-valid (suc cases) blocks arms state small bounded =
    let (orders, after, e, inside, valid) =
      schedule_case-IsOrders blocks arms state small bounded in
    let (rest, e', count, rest_valid) = schedule_cases-valid cases blocks arms after small inside in
    (
      orders ∷ rest,
      schedule_cases-suc u64_mod cases blocks arms state after orders rest e e',
      ap suc count,
      validate_schedule-suc blocks arms orders rest valid rest_valid,
    )

-- From a seed of 64 bits and at most `2 ^ 63` arms, the rejection loops all end within one period
-- of the generator, and the schedule has the planned cases and is one that the validation of a
-- retained packet accepts: each case has the planned blocks, each block every arm exactly once.
pub schedule-valid :
    (cases blocks arms seed : ℕ)
    → arms ≤ 2 ^ 63
    → seed < u64_mod
    → (s : List (List (List ℕ))) × (schedule cases blocks arms seed ≡ some s)
      × (length s ≡ cases)
      × (validate_schedule blocks arms s ≡ ok tt)
unfolding schedule
schedule-valid cases blocks arms seed small bounded =
    schedule_cases-valid cases blocks arms seed small bounded
