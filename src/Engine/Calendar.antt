-- ===== src/Engine/Calendar.antt =====
-- The Gregorian calendar by closed formulas, and the years and months of src/engine.rs against it.
use zenbench.Prelude.{
  ℕ, zero, suc, ◌+◌, ◌-◌, ◌*◌, ◌/◌, ◌%◌, ◌≤◌, ◌<◌, ◌≡◌, refl, Bool, true, false, List, [], ◌∷◌,
  length, get_or, if◌then◌else◌, ltb, ◌==◌, arith, Bool-cases, inl, inr, ◌∙◌, ap, subst, ==_iff,
  all, range_from, &&-eq-true,
}
use zenbench.Engine.Dates.{is_leap, year_days, month_days, days_of_years, days_of_months}

-- The calendar on its own: the multiples of 4 up to a year, less those of 100, with those of 400.
abbrev pub leap_years_to : ℕ → ℕ
leap_years_to y = y / 4 + y / 400 - y / 100

-- The days of the years 1 to `y`.
abbrev pub days_to : ℕ → ℕ
days_to y = y * 365 + leap_years_to y

-- The days of a year before its `month`-th month, by the rule that months of 31 and 30 days
-- alternate up to July and again from August on, and February has what is left.
abbrev pub days_before : (year month : ℕ) → ℕ
days_before year month =
    (367 * month - 362) / 12
    + (if ltb month 3 then 0 else leap_years_to year - leap_years_to (year - 1))
    - (if ltb month 3 then 0 else 2)

-- The days from the first of January of the year 1 up to the given date, this one included.
abbrev pub day_number : (year month day : ℕ) → ℕ
day_number year month day = days_to (year - 1) + days_before year month + day

not_zero : (n : ℕ) → (n == 0) ≡ false → 0 < n
not_zero n h = ground arith

multiples_of_4 : (z : ℕ) → suc z / 4 ≡ z / 4 + (if suc z % 4 == 0 then 1 else 0)
multiples_of_4 z = elim (Bool-cases (suc z % 4 == 0)) [
  | inl at ↦ rw at (omega (arith, (==_iff _ _).0 at))
  | inr off ↦ rw off (omega (arith, not_zero _ off))
]

multiples_of_100 : (z : ℕ) → suc z / 100 ≡ z / 100 + (if suc z % 100 == 0 then 1 else 0)
multiples_of_100 z = elim (Bool-cases (suc z % 100 == 0)) [
  | inl at ↦ rw at (omega (arith, (==_iff _ _).0 at))
  | inr off ↦ rw off (omega (arith, not_zero _ off))
]

multiples_of_400 : (z : ℕ) → suc z / 400 ≡ z / 400 + (if suc z % 400 == 0 then 1 else 0)
multiples_of_400 z = elim (Bool-cases (suc z % 400 == 0)) [
  | inl at ↦ rw at (omega (arith, (==_iff _ _).0 at))
  | inr off ↦ rw off (omega (arith, not_zero _ off))
]

hundreds : (y : ℕ) → y % 400 ≡ 0 → y % 100 ≡ 0
hundreds y h = omega arith

fours : (y : ℕ) → y % 100 ≡ 0 → y % 4 ≡ 0
fours y h = omega arith

fewer_hundreds : (z : ℕ) → z / 100 ≤ z / 4
fewer_hundreds z = omega arith

leap_day :
    (y : ℕ)
    → (if is_leap y then 1 else 0) + (if y % 100 == 0 then 1 else 0)
      ≡ (if y % 4 == 0 then 1 else 0) + (if y % 400 == 0 then 1 else 0)
unfolding is_leap
leap_day y = ground (arith, hundreds y, fours y)

-- A year is a leap year exactly where the count goes up.
leap_years_to-suc :
    (z : ℕ) → leap_years_to (suc z) ≡ leap_years_to z + (if is_leap (suc z) then 1 else 0)
leap_years_to-suc z = omega (
  arith,
  multiples_of_4 z,
  multiples_of_100 z,
  multiples_of_400 z,
  leap_day (suc z),
  fewer_hundreds z,
  fewer_hundreds (suc z),
)

pub days_of_years-days_to : (y k : ℕ) → days_of_years (suc y) k + days_to y ≡ days_to (y + k)
days_of_years-days_to y zero = omega arith
days_of_years-days_to y (suc k) =
    step _ _ _ _ _ (days_of_years-days_to (suc y) k) (next y) (year_days-leap (suc y))
    ∙ ap days_to (shift y k)
  where
    shift : (a b : ℕ) → suc a + b ≡ a + suc b
    shift a b = omega arith

    step :
        (year rest leap to last : ℕ)
        → rest + to ≡ last
        → to ≡ days_to y + 365 + leap
        → year ≡ 365 + leap
        → year + rest + days_to y ≡ last
    step year rest leap to last e f g = omega (arith, e, f, g)

    next : (z : ℕ) → days_to (suc z) ≡ days_to z + 365 + (if is_leap (suc z) then 1 else 0)
    next z = omega (arith, leap_years_to-suc z)

    year_days-leap : (z : ℕ) → year_days z ≡ 365 + (if is_leap z then 1 else 0)
    year_days-leap z = ground arith

-- The months of a common and of a leap year.
month_list : Bool → List ℕ
month_list leap =
    31 ∷ (if leap then 29 else 28) ∷ 31 ∷ 30 ∷ 31 ∷ 30 ∷ 31 ∷ 31 ∷ 30 ∷ 31 ∷ 30 ∷ 31 ∷ []

before : Bool → ℕ → ℕ
before leap month =
    (367 * month - 362) / 12
    + (if ltb month 3 then 0 else if leap then 1 else 0)
    - (if ltb month 3 then 0 else 2)

agrees : Bool → ℕ → Bool
unfolding month_list before
agrees leap m = days_of_months (month_list leap) m == before leap (suc m)

agrees_table : (leap : Bool) → all (agrees leap) (range_from 0 13) ≡ true
unfolding agrees
agrees_table true = refl
agrees_table false = refl

all-range_from :
    (p : ℕ → Bool) (start n m : ℕ)
    → all p (range_from start n) ≡ true
    → start ≤ m
    → m < start + n
    → p m ≡ true
all-range_from p start zero m h low high = absurd (omega (arith, low, high))
all-range_from p start (suc n) m h low high =
    let (here, rest) = &&-eq-true (p start) _ h in
    elim (Bool-cases (start == m)) [
      | inl same ↦ subst (λ k. p k ≡ true) ((==_iff start m).0 same) here
      | inr other ↦ all-range_from p (suc start) n m rest (ground arith) (omega (arith, high))
    ]

pub days_of_months-days_before :
    (z m : ℕ) → m < 13 → days_of_months (month_days (suc z)) m ≡ days_before (suc z) (suc m)
unfolding month_days before month_list agrees
days_of_months-days_before z m h =
    (==_iff _ _).0 (
      all-range_from (agrees (is_leap (suc z))) 0 13 m (agrees_table (is_leap (suc z)))
        (omega arith) (omega (arith, h)))
    ∙ ap
        (λ n.
          (367 * suc m - 362) / 12
          + (if ltb (suc m) 3 then 0 else n)
          - (if ltb (suc m) 3 then 0 else 2))
        leap
  where
    leap_of : (a b c : ℕ) → a ≡ b + c → c ≡ a - b
    leap_of a b c e = omega (arith, e)

    less : (n : ℕ) → n ≡ suc n - 1
    less n = omega arith

    leap : (if is_leap (suc z) then 1 else 0) ≡ leap_years_to (suc z) - leap_years_to (suc z - 1)
    leap =
        leap_of _ _ _ (leap_years_to-suc z)
        ∙ ap (λ n. leap_years_to (suc z) - leap_years_to n) (less z)

pub days_of_months-suc :
    (mds : List ℕ) (m : ℕ)
    → m < length mds
    → days_of_months mds (suc m) ≡ days_of_months mds m + get_or mds m 0
days_of_months-suc [] m h = absurd (omega (arith, h))
days_of_months-suc (md ∷ mds) zero h = omega arith
days_of_months-suc (md ∷ mds) (suc m) h = omega (arith, days_of_months-suc mds m (omega (arith, h)))
