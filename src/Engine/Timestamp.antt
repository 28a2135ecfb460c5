-- ===== src/Engine/Timestamp.antt =====
-- src/engine.rs: the date and the time of day that `chrono_now` makes, against the calendar.
use zenbench.Prelude.{
  ℕ, suc, ◌+◌, ◌-◌, ◌*◌, ◌/◌, ◌%◌, ◌≤◌, ◌<◌, ◌≡◌, length, get_or, arith, ◌∙◌, ap, subst, sym,
}
use zenbench.Engine.Dates.{
  Timestamp, timestamp, count_years, count_months, month_days, days_of_years, days_of_months,
  count_years-IsYear, count_months-IsMonth, months-of-year, length-month_days,
}
use zenbench.Engine.Calendar.{
  days_to, days_before, day_number, days_of_years-days_to, days_of_months-days_before,
  days_of_months-suc,
}

-- A date of the Gregorian calendar and a time of day that are the given number of seconds after
-- the first of January 1970, which is day 719163.
pub record IsTimestamp (secs : ℕ) (t : Timestamp) : Type 0 where
  pub from_1970 : 1_970 ≤ t.year
  pub month_from_one : 1 ≤ t.month
  pub in_year : t.month ≤ 12
  pub day_from_one : 1 ≤ t.day
  pub in_month : days_before t.year t.month + t.day ≤ days_before t.year (suc t.month)
  pub in_hours : t.hours < 24
  pub in_minutes : t.minutes < 60
  pub in_seconds : t.seconds < 60
  pub same_time :
      day_number t.year t.month t.day * 86_400 + t.hours * 3_600 + t.minutes * 60 + t.seconds
      ≡ 719_163 * 86_400 + secs

clock :
    (secs : ℕ)
    → (secs / 86_400 * 86_400
          + secs % 86_400 / 3_600 * 3_600
          + secs % 86_400 % 3_600 / 60 * 60
          + secs % 86_400 % 60
        ≡ secs)
      × (secs % 86_400 / 3_600 < 24)
      × (secs % 86_400 % 3_600 / 60 < 60)
      × (secs % 86_400 % 60 < 60)
clock secs = (omega arith, omega arith, omega arith, omega arith)

-- The timestamp is a date of the Gregorian calendar and a time of day, in their ranges, and is the
-- given number of seconds after 1970 began. The calendar is the one of the closed formulas: a year
-- has a day more exactly where the count of the multiples of 4, less those of 100, with those of
-- 400, goes up, and its months are 31 and 30 days long in turn up to July and again from August
-- on, but for February.
pub timestamp-IsTimestamp : (secs : ℕ) → IsTimestamp secs (timestamp secs)
unfolding timestamp
timestamp-IsTimestamp secs =
    let days = secs / 86_400 in
    let y = count_years-IsYear (suc days) 1970 days (omega arith) in
    let (year, d) = count_years (suc days) 1970 days in
    let inside : d < days_of_months (month_days year) (length (month_days year)) =
      subst (λ n. d < n)
        (sym (ap (days_of_months (month_days year)) (length-month_days year) ∙ months-of-year year))
        y.in_year in
    let m = count_months-IsMonth (month_days year) 1 d inside in
    let few : m.months < 12 = subst (λ n. m.months < n) (length-month_days year) m.in_list in
    let (whole, h, mi, se) = clock secs in
    let (start, next) = month_starts year y.years m.months y.its_year m.in_list in
    let its_month : (count_months (month_days year) 1 d).0 ≡ suc m.months =
      omega (arith, m.its_month) in
    record {
      from_1970 = omega (arith, y.its_year);
      month_from_one = omega (arith, its_month);
      in_year = omega (arith, its_month, few);
      day_from_one = omega arith;
      in_month =
          subst
            (λ n.
              days_before year n + ((count_months (month_days year) 1 d).1 + 1)
              ≤ days_before year (suc n))
            (sym its_month) (omega (arith, start, next, m.in_month));
      in_hours = h;
      in_minutes = mi;
      in_seconds = se;
      same_time =
          total _ _ _ _ _ _ _ _ _ _ (years_before year y.years y.its_year)
            (ap (days_before year) its_month ∙ start) y.all_days m.all_days whole;
    }
  where
    month_starts :
        (year years months : ℕ)
        → year ≡ 1970 + years
        → months < length (month_days year)
        → (days_before year (suc months) ≡ days_of_months (month_days year) months)
          × (days_before year (suc (suc months))
              ≡ days_of_months (month_days year) months + get_or (month_days year) months 0)
    month_starts year years months e h =
        let shape : suc (1969 + years) ≡ year = omega (arith, e) in
        let few : months < 12 = subst (λ n. months < n) (length-month_days year) h in
        (
          subst (λ n. days_before n (suc months) ≡ days_of_months (month_days n) months) shape
              (sym (days_of_months-days_before (1969 + years) months (omega (arith, few)))),
          subst (λ n. days_before n (suc (suc months)) ≡ days_of_months (month_days n) (suc months))
                shape
                (sym (days_of_months-days_before (1969 + years) (suc months) (omega (arith, few))))
              ∙ days_of_months-suc (month_days year) months h,
        )

    one_less : (year years : ℕ) → year ≡ 1970 + years → year - 1 ≡ 1969 + years
    one_less year years e = omega (arith, e)

    years_before :
        (year years : ℕ)
        → year ≡ 1970 + years
        → days_to (year - 1) ≡ days_of_years 1970 years + 719_162
    years_before year years e =
        ap days_to (one_less year years e) ∙ sym (days_of_years-days_to 1969 years)

    total :
        (to before a b c d days p q r : ℕ)
        → to ≡ a + 719_162
        → before ≡ b
        → a + d ≡ days
        → b + c ≡ d
        → days * 86_400 + p + q + r ≡ secs
        → (to + before + (c + 1)) * 86_400 + p + q + r ≡ 719_163 * 86_400 + secs
    total to before a b c d days p q r s t e f g = omega (arith, s, t, e, f, g)
