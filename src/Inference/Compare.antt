-- ===== src/Inference/Compare.antt =====
-- src/inference.rs: the intervals and the means of the processes; src/stats.rs: the mean and the
-- variance of `Summary`.
use zenbench.Prelude.{
  ℕ, suc, ◌+◌, ◌-◌, Bool, true, false, Option, none, some, List, [], ◌∷◌, ◌++◌, length, map, any,
  find, get_elem?, if◌then◌else◌, not, ◌&&◌, ◌||◌, ltb, ◌==◌, list_eq, max, min,
}
use zenbench.Prelude.Float.{Arith, Float}
use zenbench.Prelude.Text.{Text}
use zenbench.Inference.{
  BenchmarkResult, Replicate, RoundSample, Run, SuiteResult, Verdict, group_named,
}

abbrev pub and_then {ℓ κ} : {A : Type ℓ} {B : Type κ} → Option A → (A → Option B) → Option B
and_then none next = none
and_then (some a) next = next a

-- `collect::<Option<Vec<_>>>()` of a mapped list
abbrev pub collect_options {ℓ κ} :
    {A : Type ℓ} {B : Type κ} → (A → Option B) → List A → Option (List B)
collect_options g [] = some []
collect_options g (x ∷ xs) = and_then (g x) λ y. and_then (collect_options g xs) λ ys. some (y ∷ ys)

-- `iter().position(|b| b.name == name)`
abbrev pub position : {f : Float} → List (BenchmarkResult f) → Text → Option ℕ
position [] name = none
position (b ∷ bs) name =
    if list_eq b.name name
    then some 0
    else elim (position bs name) [ none ↦ none | some i ↦ some (suc i) ]

-- `iter().map(|s| s.iterations).min()`
abbrev least_iterations : List RoundSample → Option ℕ
least_iterations [] = none
least_iterations (s ∷ ss) = elim (least_iterations ss) [
  | none ↦ some s.iterations
  | some n ↦ some (min s.iterations n)
]

abbrev is_empty_list {ℓ} : {A : Type ℓ} → List A → Bool
is_empty_list [] = true
is_empty_list (x ∷ xs) = false

module _ (f : Float) (m : Arith f) where
  open f use {F, flt, fle, is_finite, hundredths}
  open m use {add, sub, mul, div, neg, fmax, of_usize, ln, exp_m1, sqrt, students_inverse_cdf}

  -- `classify`
  unfoldable pub classify : F → F → F → Verdict
  classify lo hi margin =
      if flt margin lo
      then Verdict.regression
      else if flt hi (neg margin)
      then Verdict.improvement
      else if fle (neg margin) lo && fle hi margin
      then Verdict.equivalent
      else if fle hi margin
      then Verdict.non_inferior
      else Verdict.inconclusive

  -- `struct Summary`: the running mean and the sums of it
  pub record Summary : Type 0 where
    pub n : ℕ
    pub mean : F
    pub variance : F
    pub m2 : F

  -- `Summary::push`
  abbrev pub push : Summary → F → Summary
  push s value =
      let n = s.n + 1 in
      let delta = sub value s.mean in
      let mean = add s.mean (div delta (of_usize n)) in
      let m2 = add s.m2 (mul delta (sub value mean)) in
      record {
        n = n;
        mean = mean;
        variance = if ltb 1 n then div m2 (of_usize (n - 1)) else hundredths 0;
        m2 = m2;
      }

  abbrev push_all : Summary → List F → Summary
  push_all s [] = s
  push_all s (v ∷ vs) = push_all (push s v) vs

  -- `Summary::from_slice`
  unfoldable pub from_slice : List F → Summary
  from_slice values =
      push_all (record { n = 0; mean = hundredths 0; variance = hundredths 0; m2 = hundredths 0 })
        values

  -- `interval`: the estimate and the ends, in percent
  unfoldable pub interval : F → F → F → F → ℕ → F → Option (F × F × F)
  interval mean se df confidence family floor =
      let alpha = div (sub (hundredths 100) confidence) (of_usize (max family 1)) in
      and_then (students_inverse_cdf df) λ inverse_cdf.
        let critical = inverse_cdf (sub (hundredths 100) (div alpha (hundredths 200))) in
        if not (is_finite critical)
          || not (is_finite mean)
          || not (is_finite se)
          || flt se (hundredths 0)
          || not (is_finite floor)
          || flt floor (hundredths 0)
        then none
        else let width = fmax (mul critical se) floor in
          let estimate = mul (hundredths 10_000) (exp_m1 mean) in
          let lower = mul (hundredths 10_000) (exp_m1 (sub mean width)) in
          let upper = mul (hundredths 10_000) (exp_m1 (add mean width)) in
          if is_finite estimate && is_finite lower && is_finite upper
          then some (estimate, lower, upper)
          else none

  -- a positive latency
  abbrev pub is_latency : F → Bool
  is_latency v = is_finite v && flt (hundredths 0) v

  abbrev log_ratios : List F → List F → Option (List F)
  log_ratios [] cs = some []
  log_ratios (b ∷ bs) [] = some []
  log_ratios (b ∷ bs) (c ∷ cs) =
      and_then (log_ratios bs cs)
        λ rest. if is_latency b && is_latency c then some (sub (ln c) (ln b) ∷ rest) else none

  -- `paired`
  unfoldable pub paired : List F → List F → F → ℕ → F → Option (F × F × F)
  unfolding from_slice interval
  paired base candidate confidence family floor =
      if ltb (length base) 3 || not (length base == length candidate)
      then none
      else and_then (log_ratios base candidate) λ values.
        let s = from_slice values in
        interval s.mean (sqrt (div s.variance (of_usize s.n))) (of_usize (s.n - 1)) confidence
          family floor

  -- `independent`
  unfoldable pub independent : List F → List F → F → ℕ → F → Option (F × F × F)
  unfolding from_slice interval
  independent base candidate confidence family floor =
      if ltb (length base) 3
        || ltb (length candidate) 3
        || any (λ v. not (is_finite v) || fle v (hundredths 0)) (base ++ candidate)
      then none
      else let b = from_slice (map ln base) in
        let c = from_slice (map ln candidate) in
        let bv = div b.variance (of_usize b.n) in
        let cv = div c.variance (of_usize c.n) in
        let denominator =
          add (div (mul bv bv) (of_usize (b.n - 1))) (div (mul cv cv) (of_usize (c.n - 1))) in
        let df =
          if flt (hundredths 0) denominator
          then div (mul (add bv cv) (add bv cv)) denominator
          else of_usize ((b.n + c.n) - 2) in
        interval (sub c.mean b.mean) (sqrt (add bv cv)) df confidence family floor

  -- the time of an iteration in a round
  abbrev round_time : ℕ → RoundSample → Option F
  round_time index s =
      if s.iterations == 0
      then none
      else and_then (get_elem? s.compensated_ns index)
          λ ns. some (div (of_usize ns) (of_usize s.iterations))

  -- the mean of a process
  unfoldable pub process_mean : Text → Text → Run f → Option F
  unfolding from_slice
  process_mean group bench run = and_then (group_named run.comparisons group) λ g.
      and_then (position g.benchmarks bench) λ index.
        and_then (collect_options (round_time index) g.samples)
          λ values. if is_empty_list values then none else some (from_slice values).mean

  -- `means`
  unfoldable pub means : SuiteResult f → Text → Text → Option (List F)
  unfolding process_mean
  means result group bench =
      collect_options (λ (r : Replicate f). process_mean group bench r.run) result.replicates

  -- what one replicate adds to the floor
  abbrev run_floor : Text → Text → Run f → Option F
  run_floor group bench run = and_then (group_named run.comparisons group) λ g.
      and_then (find (λ (b : BenchmarkResult f). list_eq b.name bench) g.benchmarks) λ b.
        and_then (least_iterations g.samples) λ iterations. some (
          div
            (div (mul (hundredths 200) (of_usize run.timer_resolution_ns))
              (of_usize (max iterations 1)))
            b.mean)

  abbrev floors : Text → Text → F → List (Replicate f) → F
  floors group bench floor [] = floor
  floors group bench floor (r ∷ rs) = elim (run_floor group bench r.run) [
    | none ↦ floors group bench floor rs
    | some a ↦ floors group bench (fmax floor a) rs
  ]

  -- `resolution_floor`
  unfoldable pub resolution_floor : SuiteResult f → Text → Text → F
  resolution_floor result group bench = floors group bench (hundredths 0) result.replicates
