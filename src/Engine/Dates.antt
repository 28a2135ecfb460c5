-- ===== src/Engine/Dates.antt =====
-- src/engine.rs: `chrono_now` from the seconds since 1970 on, and `is_leap`. The years are counted
-- on fuel, one more than the number of days.
use zenbench.Prelude.{
  ℕ, zero, suc, ◌+◌, ◌-◌, ◌*◌, ◌/◌, ◌%◌, ◌≤◌, ◌<◌, ◌≡◌, refl, Bool, true, false, List, [], ◌∷◌,
  length, get_or, if◌then◌else◌, ltb, ◌==◌, not, ◌&&◌, ◌||◌, arith, Bool-cases, inl, inr, subst,
  sym,
}

-- `is_leap`
unfoldable pub is_leap : ℕ → Bool
is_leap year = (year % 4 == 0 && not (year % 100 == 0)) || year % 400 == 0

abbrev pub year_days : ℕ → ℕ
year_days y = if is_leap y then 366 else 365

-- the loop over the years
unfoldable pub count_years : ℕ → ℕ → ℕ → ℕ × ℕ
unfolding is_leap
count_years zero y d = (y, d)
count_years (suc fuel) y d = elim (ltb d (year_days y)) [
  | true ↦ (y, d)
  | false ↦ count_years fuel (suc y) (d - year_days y)
]

unfoldable pub month_days : ℕ → List ℕ
unfolding is_leap
month_days y =
    31 ∷ (if is_leap y then 29 else 28) ∷ 31 ∷ 30 ∷ 31 ∷ 30 ∷ 31 ∷ 31 ∷ 30 ∷ 31 ∷ 30 ∷ 31 ∷ []

-- the loop over the months
unfoldable pub count_months : List ℕ → ℕ → ℕ → ℕ × ℕ
count_months [] m d = (m, d)
count_months (md ∷ mds) m d = elim (ltb d md) [
  | true ↦ (m, d)
  | false ↦ count_months mds (suc m) (d - md)
]

pub record Timestamp : Type 0 where
  pub year : ℕ
  pub month : ℕ
  pub day : ℕ
  pub hours : ℕ
  pub minutes : ℕ
  pub seconds : ℕ

-- `chrono_now`, up to the format of the six numbers
unfoldable pub timestamp : ℕ → Timestamp
unfolding count_years month_days count_months
timestamp secs =
    let days = secs / 86_400 in
    let remaining = secs % 86_400 in
    let (y, d) = count_years (suc days) 1970 days in
    let (m, dm) = count_months (month_days y) 1 d in
    record {
      year = y;
      month = m;
      day = dm + 1;
      hours = remaining / 3_600;
      minutes = remaining % 3_600 / 60;
      seconds = remaining % 60;
    }

-- The days of `k` years from the year `y` on, and of the first `k` months.
abbrev pub days_of_years : ℕ → ℕ → ℕ
days_of_years y zero = 0
days_of_years y (suc k) = year_days y + days_of_years (suc y) k

abbrev pub days_of_months : List ℕ → ℕ → ℕ
days_of_months mds zero = 0
days_of_months [] (suc k) = 0
days_of_months (md ∷ mds) (suc k) = md + days_of_months mds k

-- The year that is `k` years after `y` holds the day.
pub record IsYear (y d : ℕ) (r : ℕ × ℕ) : Type 0 where
  pub years : ℕ
  pub its_year : r.0 ≡ y + years
  pub all_days : days_of_years y years + r.1 ≡ d
  pub in_year : r.1 < year_days r.0

year_days-pos : (y : ℕ) → 365 ≤ year_days y
year_days-pos y = elim (Bool-cases (is_leap y)) [
  | inl leap ↦ ground arith
  | inr common ↦ ground arith
]

last_year : (fuel y d : ℕ) → ltb d (year_days y) ≡ true → count_years (suc fuel) y d ≡ (y, d)
unfolding count_years
last_year fuel y d h = ground arith

next_year :
    (fuel y d : ℕ)
    → ltb d (year_days y) ≡ false
    → count_years (suc fuel) y d ≡ count_years fuel (suc y) (d - year_days y)
unfolding count_years
next_year fuel y d h = ground arith

pub count_years-IsYear : (fuel y d : ℕ) → d < fuel * 365 → IsYear y d (count_years fuel y d)
unfolding count_years
count_years-IsYear zero y d h = absurd (omega (arith, h))
count_years-IsYear (suc fuel) y d h = elim (Bool-cases (ltb d (year_days y))) [
  | inl inside ↦
      subst (IsYear y d) (sym (last_year fuel y d inside))
        record { years = 0; its_year = omega arith; all_days = omega arith; in_year = ground arith }
  | inr after ↦
      let long = year_days-pos y in
      let later : year_days y ≤ d = ground arith in
      let r = count_years-IsYear fuel (suc y) (d - year_days y) (omega (arith, h, long, later)) in
      subst (IsYear y d) (sym (next_year fuel y d after)) record {
        years = suc r.years;
        its_year = omega (arith, r.its_year);
        all_days = omega (arith, r.all_days, later);
        in_year = r.in_year;
      }
]

-- The month is the `k`-th of the list, counted from 0, and holds the day.
pub record IsMonth (mds : List ℕ) (m d : ℕ) (r : ℕ × ℕ) : Type 0 where
  pub months : ℕ
  pub its_month : r.0 ≡ m + months
  pub in_list : months < length mds
  pub all_days : days_of_months mds months + r.1 ≡ d
  pub in_month : r.1 < get_or mds months 0

last_month :
    (md : ℕ) (mds : List ℕ) (m d : ℕ) → ltb d md ≡ true → count_months (md ∷ mds) m d ≡ (m, d)
unfolding count_months
last_month md mds m d h = ground arith

next_month :
    (md : ℕ) (mds : List ℕ) (m d : ℕ)
    → ltb d md ≡ false
    → count_months (md ∷ mds) m d ≡ count_months mds (suc m) (d - md)
unfolding count_months
next_month md mds m d h = ground arith

pub count_months-IsMonth :
    (mds : List ℕ) (m d : ℕ)
    → d < days_of_months mds (length mds)
    → IsMonth mds m d (count_months mds m d)
count_months-IsMonth [] m d h = absurd (omega (arith, h))
count_months-IsMonth (md ∷ mds) m d h = elim (Bool-cases (ltb d md)) [
  | inl inside ↦ subst (IsMonth (md ∷ mds) m d) (sym (last_month md mds m d inside)) record {
    months = 0;
    its_month = omega arith;
    in_list = omega arith;
    all_days = omega arith;
    in_month = ground arith;
  }
  | inr after ↦
      let later : md ≤ d = ground arith in
      let r = count_months-IsMonth mds (suc m) (d - md) (omega (arith, h, later)) in
      subst (IsMonth (md ∷ mds) m d) (sym (next_month md mds m d after)) record {
        months = suc r.months;
        its_month = omega (arith, r.its_month);
        in_list = omega (arith, r.in_list);
        all_days = omega (arith, r.all_days, later);
        in_month = r.in_month;
      }
]

pub months-of-year : (y : ℕ) → days_of_months (month_days y) 12 ≡ year_days y
unfolding month_days
months-of-year y = elim (Bool-cases (is_leap y)) [
  | inl leap ↦ ground arith
  | inr common ↦ ground arith
]

pub length-month_days : (y : ℕ) → length (month_days y) ≡ 12
unfolding month_days
length-month_days y = refl
