-- ===== src/Engine/Estimate.antt =====
-- src/engine.rs: `estimate_iterations`. The benchmark is a function from the round and the number
-- of iterations to the nanoseconds that the call took; numbers are `u64` and 64-bit `usize`.
use zenbench.Prelude.{
  ℕ, zero, suc, ◌+◌, ◌*◌, ◌/◌, ◌≤◌, ◌<◌, ◌≡◌, refl, max, min, true, false, if◌then◌else◌, leb, ltb,
  arith, sym, subst, ap, ◌⊎◌, inl, inr, Bool-cases, leb→le,
}
use native.Mathlib.Nat.{div-le_self}
use zenbench.Prelude.Word.{saturating_mul, wrapping_mul, u64_mod}

-- The fields of `GroupConfig` that the estimate reads.
pub record EstimateConfig : Type 0 where
  pub sample_target_ns : ℕ
  pub min_sample_ns : ℕ
  pub min_iterations : ℕ
  pub max_iterations : ℕ

-- `n.clamp(low, high)`, which panics where `low > high`
abbrev pub clamp : ℕ → ℕ → ℕ → ℕ
clamp n low high = if ltb n low then low else if ltb high n then high else n

-- `u64` division, of a divisor that is not 0
abbrev pub per_iteration : (elapsed iters : ℕ) → ℕ
per_iteration elapsed iters = max (max elapsed 1_000 / iters) 1

abbrev pub precision_target : ℕ → ℕ
precision_target timer_resolution_ns = max (saturating_mul timer_resolution_ns 1_000) 10_000

-- the three targets of one round, put together
unfoldable pub new_iterations : EstimateConfig → (timer_resolution_ns per_iter_ns : ℕ) → ℕ
new_iterations c timer_resolution_ns per_iter_ns =
    let for_precision = precision_target timer_resolution_ns / per_iter_ns in
    let for_target = c.sample_target_ns / per_iter_ns in
    let for_min_sample = if leb 20 for_target then 0 else c.min_sample_ns / per_iter_ns in
    max (min (max for_precision for_target) (max (saturating_mul for_target 2) for_precision))
      for_min_sample

-- the rounds of `estimate_iterations` that are left
unfoldable pub estimate_rounds :
    EstimateConfig → ℕ → (ℕ → ℕ → ℕ) → (rounds_left round iters : ℕ) → ℕ
unfolding new_iterations
estimate_rounds c resolution bench zero round iters =
    clamp (max iters 1) c.min_iterations c.max_iterations
estimate_rounds c resolution bench (suc left) round iters =
    let new_iters = new_iterations c resolution (per_iteration (bench round iters) iters) in
    elim (leb new_iters (wrapping_mul 2 iters)) [
      | true ↦ clamp (max new_iters 1) c.min_iterations c.max_iterations
      | false ↦ estimate_rounds c resolution bench left (suc round) new_iters
    ]

-- `estimate_iterations`: the iterations, and the time of the first call
unfoldable pub estimate_iterations : EstimateConfig → ℕ → (ℕ → ℕ → ℕ) → ℕ × ℕ
unfolding estimate_rounds
estimate_iterations c resolution bench = (estimate_rounds c resolution bench 5 0 1, bench 0 1)

-- The iterations that the precision of the timer, the sample's target and, for a slow benchmark,
-- the sample's minimum ask for.
abbrev pub wanted_iterations : EstimateConfig → (resolution per_iter : ℕ) → ℕ
wanted_iterations c resolution per_iter =
    max (max (precision_target resolution / per_iter) (c.sample_target_ns / per_iter))
      (if leb 20 (c.sample_target_ns / per_iter) then 0 else c.min_sample_ns / per_iter)

idle_cap :
    (p t m : ℕ)
    → t < 18_446_744_073_709_551_616
    → max (min (max p t) (max (min (t * 2) 18_446_744_073_709_551_615) p)) m ≡ max (max p t) m
idle_cap p t m b = omega arith

-- With a sample target of 64 bits the cap at twice the target never takes effect: what a round asks for is the largest
-- of the precision floor, the target and the minimum of a slow benchmark.
pub new_iterations-wanted :
    (c : EstimateConfig) (resolution per_iter : ℕ)
    → c.sample_target_ns < u64_mod
    → new_iterations c resolution per_iter ≡ wanted_iterations c resolution per_iter
unfolding new_iterations
new_iterations-wanted c resolution per_iter b =
    idle_cap (precision_target resolution / per_iter) (c.sample_target_ns / per_iter)
      (if leb 20 (c.sample_target_ns / per_iter) then 0 else c.min_sample_ns / per_iter)
      (small (c.sample_target_ns) (c.sample_target_ns / per_iter)
        (div-le_self c.sample_target_ns per_iter) b)
  where
    small : (a q : ℕ) → q ≤ a → a < u64_mod → q < 18_446_744_073_709_551_616
    small a q h k = omega arith

module _ (c : EstimateConfig) (resolution : ℕ) (bench : ℕ → ℕ → ℕ) where
  -- What a call of the benchmark asks for, by the time that it took.
  abbrev pub asked : (round iters : ℕ) → ℕ
  asked round iters = wanted_iterations c resolution (per_iteration (bench round iters) iters)

  -- The calls of the benchmark: the first with one iteration, and each further one with what the
  -- call before it asked for, where that is more than twice its own iterations.
  pub data IsCall : (round iters : ℕ) → Type 0 where
    first : IsCall 0 1
    grown :
        {round iters more : ℕ}
        → IsCall round iters
        → more ≡ asked round iters
        → wrapping_mul 2 iters < more
        → IsCall (suc round) more

  -- The result of the estimate: what a call asks for, at least one and in the range. It is the
  -- last call: it asks for no more than twice its iterations, or the rounds are used up.
  pub record IsEstimate (rounds result : ℕ) : Type 0 where
    pub round : ℕ
    pub iters : ℕ
    pub is_call : IsCall round iters
    pub is_last : (asked round iters ≤ wrapping_mul 2 iters) ⊎ (suc round ≡ rounds)
    pub in_time : round < rounds
    pub result_is : result ≡ clamp (max (asked round iters) 1) c.min_iterations c.max_iterations

  -- The number of iterations was asked for by the call before.
  abbrev IsAsked : ℕ → ℕ → Type 0
  IsAsked round iters = (r : ℕ) × (i : ℕ) × IsCall r i × (suc r ≡ round) × (iters ≡ asked r i)

  estimated :
      (last r i n : ℕ)
      → IsCall r i
      → ((asked r i ≤ wrapping_mul 2 i) ⊎ (suc r ≡ last))
      → r < last
      → n ≡ asked r i
      → IsEstimate last (clamp (max n 1) c.min_iterations c.max_iterations)
  estimated last r i n call stop h e = record {
    round = r;
    iters = i;
    is_call = call;
    is_last = stop;
    in_time = h;
    result_is = ap (λ k. clamp (max k 1) c.min_iterations c.max_iterations) e;
  }

  stopped :
      (left round iters : ℕ)
      → leb
          (new_iterations c resolution (per_iteration (bench round iters) iters))
          (wrapping_mul 2 iters)
        ≡ true
      → estimate_rounds c resolution bench (suc left) round iters
        ≡ clamp
            (max (new_iterations c resolution (per_iteration (bench round iters) iters)) 1)
            c.min_iterations
            c.max_iterations
  unfolding estimate_rounds
  stopped left round iters h = rw (h, estimate_rounds) refl

  went_on :
      (left round iters : ℕ)
      → leb
          (new_iterations c resolution (per_iteration (bench round iters) iters))
          (wrapping_mul 2 iters)
        ≡ false
      → estimate_rounds c resolution bench (suc left) round iters
        ≡ estimate_rounds c resolution bench left
            (suc round)
            (new_iterations c resolution (per_iteration (bench round iters) iters))
  unfolding estimate_rounds
  went_on left round iters h = rw (h, estimate_rounds) refl

  above : (a b : ℕ) → leb a b ≡ false → b < a
  above a b h = ground arith

  estimate_rounds-IsEstimate :
      (left round iters last : ℕ)
      → c.sample_target_ns < u64_mod
      → round + left ≡ last
      → (left ≡ 0 → IsAsked round iters)
      → (1 ≤ left → IsCall round iters)
      → IsEstimate last (estimate_rounds c resolution bench left round iters)
  unfolding estimate_rounds
  estimate_rounds-IsEstimate zero round iters last b e before now =
      let (r, i, call, place, n) = before refl in
      estimated last r i iters call (inr (omega (arith, place, e))) (omega (arith, place, e)) n
  estimate_rounds-IsEstimate (suc left) round iters last b e before now =
      let per = per_iteration (bench round iters) iters in
      let same = new_iterations-wanted c resolution per b in
      let call = now (omega arith) in
      elim (Bool-cases (leb (new_iterations c resolution per) (wrapping_mul 2 iters))) [
        | inl stop ↦ subst (IsEstimate last) (sym (stopped left round iters stop)) (
            estimated last round iters (new_iterations c resolution per) call
              (inl (subst (λ n. n ≤ wrapping_mul 2 iters) same (leb→le _ _ stop)))
              (omega (arith, e)) same)
        | inr more ↦ subst (IsEstimate last) (sym (went_on left round iters more)) (
            estimate_rounds-IsEstimate left (suc round) (new_iterations c resolution per) last b
              (omega (arith, e)) (λ z. (round, iters, call, refl, same))
              (λ z. IsCall.grown call same (above _ _ more)))
      ]

  clamp-within :
      (n low high : ℕ) → low ≤ high → (low ≤ clamp n low high) × (clamp n low high ≤ high)
  clamp-within n low high h = ground arith

  -- With a sample target of 64 bits and a range of iterations that is not empty, the estimate ends
  -- after at most five calls, the first of one iteration and each further one of what the call
  -- before asked for, more than twice its iterations. The result is what the last call asks for by
  -- the time that it took (the largest of what the timer's precision, the sample's target and, for
  -- a slow benchmark, the sample's minimum need), at least one and clamped to the range; the last
  -- call is the fifth or asks for at most twice its iterations. The cold start is the time of the
  -- first call.
  pub estimate_iterations-IsEstimate :
      c.sample_target_ns < u64_mod
      → c.min_iterations ≤ c.max_iterations
      → let (iterations, cold_start_ns) = estimate_iterations c resolution bench in
        IsEstimate 5 iterations
        × (c.min_iterations ≤ iterations)
        × (iterations ≤ c.max_iterations)
        × (cold_start_ns ≡ bench 0 1)
  unfolding estimate_iterations
  estimate_iterations-IsEstimate b range =
      let e =
        estimate_rounds-IsEstimate 5 0 1 5 b refl (λ z. absurd (omega arith)) (λ z. IsCall.first) in
      let w =
        clamp-within (max (asked e.round e.iters) 1) c.min_iterations c.max_iterations range in
      (
        e,
        subst (λ k. c.min_iterations ≤ k) (sym e.result_is) w.0,
        subst (λ k. k ≤ c.max_iterations) (sym e.result_is) w.1,
        refl,
      )
