-- ===== src/Pair/Schedule.antt =====
-- src/bin/support/pair.rs: `schedule`, the random order of the arms in each block of each case.
-- The rejection loop runs on fuel; `none` is the end of it.
use zenbench.Prelude.{
  ℕ, zero, suc, ◌+◌, ◌-◌, ◌/◌, ◌%◌, ◌^◌, Option, none, some, List, [], ◌∷◌, if◌then◌else◌, leb,
  range_from,
}
use zenbench.Prelude.Word.{u64_mod, wrapping_add, wrapping_mul, wrapping_neg, xor}
use zenbench.Engine.Shuffle.{swap}

-- A computation that may run out of fuel, and what follows it.
abbrev pub and_then {ℓ κ} : {A : Type ℓ} {B : Type κ} → Option A → (A → Option B) → Option B
and_then none next = none
and_then (some a) next = next a

abbrev pub increment : ℕ
increment = 0x9e3779b97f4a7c15

-- the bits that `next` makes of a state
unfoldable pub mix : ℕ → ℕ
mix state =
    let y = wrapping_mul (xor state (state / 2 ^ 30)) 0xbf58476d1ce4e5b9 in
    let z = wrapping_mul (xor y (y / 2 ^ 27)) 0x94d049bb133111eb in xor z (z / 2 ^ 31)

-- the closure `next`: a number and the state after it
abbrev pub next : ℕ → ℕ × ℕ
next state = (mix (wrapping_add state increment), wrapping_add state increment)

-- `bound.wrapping_neg() % bound`
abbrev pub threshold : ℕ → ℕ
threshold bound = wrapping_neg bound % bound

-- `loop { let n = next(); if n >= threshold { break n; } }`
unfoldable pub draw : ℕ → ℕ → ℕ → Option (ℕ × ℕ)
unfolding mix
draw zero least state = none
draw (suc fuel) least state =
    let (n, after) = next state in
    let rest = draw fuel least after in if leb least n then some (n, after) else rest

-- the loop over `(1..arms).rev()`, from the index `i` down
unfoldable pub shuffle_arms : ℕ → ℕ → List ℕ → ℕ → Option (List ℕ × ℕ)
unfolding draw
shuffle_arms fuel zero order state = some (order, state)
shuffle_arms fuel (suc i) order state =
    and_then (draw fuel (threshold (suc i + 1)) state)
      λ (n, after). shuffle_arms fuel i (swap order (suc i) (n % (suc i + 1))) after

-- the closure over `0..blocks`
unfoldable pub schedule_case : ℕ → ℕ → ℕ → ℕ → Option (List (List ℕ) × ℕ)
unfolding shuffle_arms
schedule_case fuel zero arms state = some ([], state)
schedule_case fuel (suc blocks) arms state =
    and_then (shuffle_arms fuel (arms - 1) (range_from 0 arms) state) λ (order, after).
      and_then (schedule_case fuel blocks arms after) λ (orders, last). some (order ∷ orders, last)

-- the closure over `0..cases`
unfoldable pub schedule_cases : ℕ → ℕ → ℕ → ℕ → ℕ → Option (List (List (List ℕ)))
unfolding schedule_case
schedule_cases fuel zero blocks arms state = some []
schedule_cases fuel (suc cases) blocks arms state =
    and_then (schedule_case fuel blocks arms state) λ (orders, after).
      and_then (schedule_cases fuel cases blocks arms after) λ rest. some (orders ∷ rest)

-- `schedule`; a generator of 64 bits comes back to every state after `2 ^ 64` numbers
unfoldable pub schedule : ℕ → ℕ → ℕ → ℕ → Option (List (List (List ℕ)))
unfolding schedule_cases
schedule cases blocks arms seed = schedule_cases u64_mod cases blocks arms seed
