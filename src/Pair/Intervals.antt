-- ===== src/Pair/Intervals.antt =====
-- src/bin/support/pair/interval.rs: the interval of a comparison and its classification, and
-- `Metric::scale` of src/bin/support/pair/plan.rs.
use zenbench.Prelude.{
  ℕ, ◌-◌, Bool, Option, none, some, List, [], ◌∷◌, ◌++◌, length, map, any, if◌then◌else◌, not, ◌&&◌,
  ◌||◌, ltb, ◌==◌, Result, ok, ◌>>=◌, ◌>>◌, fail_if, ok_or,
}
use zenbench.Prelude.Float.{Float}
use zenbench.Prelude.Text.{Text, codes}
use zenbench.Pair.{Arith, Interval, Metric, PairError, is_word}

-- `a.iter().zip(b).map(|(a, b)| ..).collect()`
abbrev pub zip_with {ℓ κ} : {A : Type ℓ} {B : Type κ} → (A → A → B) → List A → List A → List B
zip_with g [] ys = []
zip_with g (x ∷ xs) [] = []
zip_with g (x ∷ xs) (y ∷ ys) = g x y ∷ zip_with g xs ys

-- `values.first().copied().unwrap_or(fallback)`
abbrev pub first_or {ℓ} : {A : Type ℓ} → A → List A → A
first_or fallback [] = fallback
first_or fallback (x ∷ xs) = x

-- the nanoseconds of a unit, in hundredths
abbrev unit_hundredths : Text → Option ℕ
unit_hundredths unit =
    if is_word unit "ns"
    then some 100
    else if is_word unit "us"
    then some 100_000
    else if is_word unit "ms"
    then some 100_000_000
    else if is_word unit "s"
    then some 100_000_000_000
    else none

module _ (f : Float) (m : Arith f) where
  open f use {F, flt, fle, is_finite, hundredths}
  open m use {add, sub, mul, div, neg, of_usize, ln, ln_1p, exp_m1, sqrt, students_inverse_cdf}

  -- `sum::<f64>()`, after the sum so far
  abbrev pub sum_from : F → List F → F
  sum_from total [] = total
  sum_from total (x ∷ xs) = sum_from (add total x) xs

  -- `mean`; a sum of floats starts at the negative zero
  unfoldable pub mean : List F → F
  mean values =
      let origin = first_or (hundredths 0) values in
      add origin (
        sum_from (neg (hundredths 0))
          (map (λ x. div (sub x origin) (of_usize (length values))) values))

  -- `Metric::scale`
  unfoldable pub scale : Metric f → Result PairError F
  scale metric = do
    units ← ok_or (unit_hundredths metric.unit) PairError.unknown_unit
    fail_if (not (is_finite metric.divide_by) || fle metric.divide_by (hundredths 0))
        PairError.bad_divisor
    ok (div (hundredths units) metric.divide_by)

  -- the early return of `interval`
  abbrev pub is_refused : List F → List F → F → F → ℕ → Bool
  is_refused base arm resolution confidence family =
      ltb (length base) 2
      || not (length base == length arm)
      || family == 0
      || not (is_finite resolution)
      || fle resolution (hundredths 0)
      || not (is_finite confidence)
      || not (fle (hundredths 50) confidence && flt confidence (hundredths 100))
      || any (λ v. not (is_finite v) || fle v resolution) (base ++ arm)

  -- `(sum of (x - avg)^2 / (n - 1)).sqrt()`
  abbrev pub deviation : List F → F → F
  deviation logs avg = sqrt (
      div (sum_from (neg (hundredths 0)) (map (λ x. mul (sub x avg) (sub x avg)) logs))
        (sub (of_usize (length logs)) (hundredths 100)))

  -- `interval`, after the early return and with the critical value
  unfoldable pub interval_at : List F → List F → F → F → ℕ → F → Option (Interval f)
  unfolding mean
  interval_at base arm resolution confidence family critical =
      let logs = zip_with (λ b a. sub (ln a) (ln b)) base arm in
      let avg = mean logs in
      let sd = deviation logs avg in
      let lower_error = mean (
        zip_with (λ b a. add (neg (ln_1p (div (neg resolution) a))) (ln_1p (div resolution b))) base
          arm) in
      let upper_error = mean (
        zip_with (λ b a. sub (ln_1p (div resolution a)) (ln_1p (div (neg resolution) b))) base
          arm) in
      let width = div (mul critical sd) (sqrt (of_usize (length logs))) in
      let lower = mul (exp_m1 (sub (sub avg width) lower_error)) (hundredths 10_000) in
      let upper = mul (exp_m1 (add (add avg width) upper_error)) (hundredths 10_000) in
      let estimate = mul (exp_m1 avg) (hundredths 10_000) in
      if any (λ v. not (is_finite v)) (lower ∷ upper ∷ estimate ∷ width ∷ [])
      then none
      else some (record {
        estimate_pct = estimate;
        lower_pct = lower;
        upper_pct = upper;
        family_confidence = confidence;
        comparisons_in_family = family;
        blocks = length base;
        df = length base - 1;
        log_ratio_sd = sd;
        resolution_lower_log = lower_error;
        resolution_upper_log = upper_error;
      })

  -- `interval`
  unfoldable pub interval : List F → List F → F → F → ℕ → Option (Interval f)
  unfolding interval_at
  interval base arm resolution confidence family =
      if is_refused base arm resolution confidence family
      then none
      else elim (students_inverse_cdf (sub (of_usize (length base)) (hundredths 100))) [
        | none ↦ none
        | some inverse_cdf ↦ interval_at base arm resolution confidence family (
            inverse_cdf (
              sub (hundredths 100)
                (div (sub (hundredths 100) confidence) (mul (hundredths 200) (of_usize family)))))
      ]

  -- `classify` of an interval's ends; those of an interval are numbers
  unfoldable pub classify : Option (Interval f) → F → Text
  classify none margin = codes "invalid"
  classify (some i) margin =
      if flt margin i.lower_pct
      then codes "regression"
      else if flt i.upper_pct (neg margin)
      then codes "improvement"
      else if fle (neg margin) i.lower_pct && fle i.upper_pct margin
      then codes "equivalent"
      else if fle i.upper_pct margin
      then codes "non_inferior"
      else codes "inconclusive"
