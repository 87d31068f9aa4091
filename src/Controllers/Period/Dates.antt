-- ===== src/Controllers/Period/Dates.antt =====
-- The dates of the calendar: what `Year()`, `Month()` and `Day()` can be, and `time.Date` of them.
use gpu_budget_operator.Base.{
  ℕ, zero, suc, ◌+◌, ◌-◌, ◌≤◌, ◌<◌, true, false, List, [], ◌∷◌, ◌≡◌, refl, sym, ◌∙◌, subst, inl,
  inr, arith, ltb, Bool-cases,
}
use gpu_budget_operator.Controllers.Period.{
  is_leap, year_length, month_lengths, Date, find_year, find_month, date_of, days_of_years,
  days_of_months, day_of,
}

-- The length of the month that `n` months precede.
abbrev pub length_at : ℕ → List ℕ → ℕ
length_at n [] = 0
length_at zero (l ∷ ls) = l
length_at (suc n) (l ∷ ls) = length_at n ls

-- A date of the calendar from 1970 on.
pub record IsDate (t : Date) : Type 0 where
  pub year : 1970 ≤ t.year
  pub first : 1 ≤ t.month
  pub last : t.month ≤ 12
  pub day : 1 ≤ t.day
  pub within : t.day ≤ length_at (t.month - 1) (month_lengths t.year)

year_length_pos : (y : ℕ) → 1 ≤ year_length y
unfolding year_length
year_length_pos y = ground arith

months_of_year : (y : ℕ) → days_of_months 12 (month_lengths y) ≡ year_length y
unfolding days_of_months month_lengths year_length
months_of_year y = elim (Bool-cases (is_leap y)) [ inl e ↦ rw e refl | inr e ↦ rw e refl ]

below : (d l : ℕ) → ltb d l ≡ true → d < l
below d l e = ground arith

above : (d l : ℕ) → ltb d l ≡ false → l ≤ d
above d l e = ground arith

-- With fuel above the days, the year is found.
find_year_fuel :
    (fuel y d : ℕ)
    → d < fuel
    → (y ≤ (find_year fuel y d).0) × ((find_year fuel y d).1 < year_length (find_year fuel y d).0)
unfolding find_year
find_year_fuel zero y d h = absurd (omega arith)
find_year_fuel (suc fuel) y d h = elim (Bool-cases (ltb d (year_length y))) [
  | inl e ↦ rw e (omega arith, below d (year_length y) e)
  | inr e ↦
      let pos = year_length_pos y in
      let over = above d (year_length y) e in
      let (later, within) = find_year_fuel fuel (suc y) (d - year_length y) (omega arith) in
      rw e (omega arith, within)
]

-- In a list of months with more days, the month is found.
find_month_found :
    (n : ℕ) (ls : List ℕ) (m d : ℕ)
    → d < days_of_months n ls
    → (k : ℕ) × ((find_month ls m d).0 ≡ m + k) × (k < n) × ((find_month ls m d).1 < length_at k ls)
unfolding find_month days_of_months
find_month_found zero ls m d h = absurd (omega arith)
find_month_found (suc n) [] m d h = absurd (omega arith)
find_month_found (suc n) (l ∷ ls) m d h = elim (Bool-cases (ltb d l)) [
  | inl e ↦ rw e (0, omega arith, omega arith, below d l e)
  | inr e ↦
      let over = above d l e in
      let (k, p, q, r) = find_month_found n ls (suc m) (d - l) (omega arith) in
      rw e (suc k, omega arith, omega arith, r)
]

-- Every day has a date of the calendar, with a month of the year and a day of that month: the fuel
-- that is spent on its year is enough.
pub date_of-IsDate : (d : ℕ) → IsDate (date_of d)
unfolding date_of
date_of-IsDate d =
    let (later, within) = find_year_fuel (suc d) 1970 d (omega arith) in
    let y = (find_year (suc d) 1970 d).0 in
    let whole = months_of_year y in
    let (k, p, q, r) =
      find_month_found 12 (month_lengths y) 1 (find_year (suc d) 1970 d).1 (omega arith) in
    let month : (find_month (month_lengths y) 1 (find_year (suc d) 1970 d).1).0 - 1 ≡ k =
      omega arith in
    record {
      year = later;
      first = omega arith;
      last = omega arith;
      day = omega arith;
      within =
          subst
            (λ x.
              suc (find_month (month_lengths y) 1 (find_year (suc d) 1970 d).1).1
              ≤ length_at x (month_lengths y))
            (sym month) r;
    }

days_of_years_long : (n y : ℕ) → n ≤ days_of_years n y
unfolding days_of_years
days_of_years_long zero y = omega arith
days_of_years_long (suc n) y =
    let pos = year_length_pos y in let rest = days_of_years_long n (suc y) in omega arith

this_year : (fuel y d : ℕ) → d < year_length y → find_year (suc fuel) y d ≡ (y, d)
unfolding find_year
this_year fuel y d h = ground (arith, h)

later_year :
    (fuel y d : ℕ)
    → year_length y ≤ d
    → find_year (suc fuel) y d ≡ find_year fuel (suc y) (d - year_length y)
unfolding find_year
later_year fuel y d h = ground (arith, h)

this_month : (l : ℕ) (ls : List ℕ) (m d : ℕ) → d < l → find_month (l ∷ ls) m d ≡ (m, d)
unfolding find_month
this_month l ls m d h = ground (arith, h)

later_month :
    (l : ℕ) (ls : List ℕ) (m d : ℕ)
    → l ≤ d
    → find_month (l ∷ ls) m d ≡ find_month ls (suc m) (d - l)
unfolding find_month
later_month l ls m d h = ground (arith, h)

both : {a b c d : ℕ} → a ≡ b → c ≡ d → ◌≡◌ {A = ℕ × ℕ} (a, c) (b, d)
both p q = ground (arith, p, q)

find_year_of :
    (n fuel y r d : ℕ)
    → d ≡ days_of_years n y + r
    → r < year_length (y + n)
    → n < fuel
    → find_year fuel y d ≡ (y + n, r)
unfolding days_of_years
find_year_of n zero y r d e h l = absurd (omega arith)
find_year_of zero (suc fuel) y r d e h l =
    let same : y + 0 ≡ y = omega arith in
    let within = subst (λ x. r < year_length x) same h in
    this_year fuel y d (omega arith) ∙ both (omega arith) (omega arith)
find_year_of (suc n) (suc fuel) y r d e h l =
    let same : y + suc n ≡ suc y + n = omega arith in
    let within = subst (λ x. r < year_length x) same h in
    later_year fuel y d (omega arith)
    ∙ find_year_of n fuel (suc y) r (d - year_length y) (omega arith) within (omega arith)
    ∙ both (omega arith) refl

find_month_of :
    (k : ℕ) (ls : List ℕ) (m q d : ℕ)
    → d ≡ days_of_months k ls + q
    → q < length_at k ls
    → find_month ls m d ≡ (m + k, q)
unfolding days_of_months
find_month_of k [] m q d e h = absurd (omega arith)
find_month_of zero (l ∷ ls) m q d e h =
    this_month l ls m d (omega arith) ∙ both (omega arith) (omega arith)
find_month_of (suc k) (l ∷ ls) m q d e h =
    later_month l ls m d (omega arith)
    ∙ find_month_of k ls (suc m) q (d - l) (omega arith) h
    ∙ both (omega arith) refl

-- The days before the end of a month are fewer than those of the months up to a later one.
within_months :
    (n k : ℕ) (ls : List ℕ) (q : ℕ)
    → k < n
    → q < length_at k ls
    → days_of_months k ls + q < days_of_months n ls
unfolding days_of_months
within_months zero k ls q l h = absurd (omega arith)
within_months (suc n) k [] q l h = absurd (omega arith)
within_months (suc n) zero (x ∷ ls) q l h = omega arith
within_months (suc n) (suc k) (x ∷ ls) q l h =
    let rest = within_months n k ls q (omega arith) h in omega arith

date_found :
    (d y r m q : ℕ)
    → find_year (suc d) 1970 d ≡ (y, r)
    → find_month (month_lengths y) 1 r ≡ (m, q)
    → date_of d ≡ record { year = y; month = m; day = suc q }
unfolding date_of
date_found d y r m q e f = rw (e, f) refl

date_with :
    (t : Date) (m d : ℕ)
    → m ≡ t.month
    → d ≡ t.day
    → record { year = t.year; month = m; day = d } ≡ t
date_with t m d e f = rw (e, f) refl

-- The day of a date of the calendar has that date.
pub date_of-day_of : (t : Date) → IsDate t → date_of (day_of t) ≡ t
unfolding day_of
date_of-day_of t is =
    let q = t.day - 1 in
    let k = t.month - 1 in
    let n = t.year - 1970 in
    let month = month_lengths t.year in
    let r = days_of_months k month + q in
    let first = is.first in
    let last = is.last in
    let since = is.year in
    let day = is.day in
    let within = is.within in
    let long = days_of_years_long n 1970 in
    let in_year = within_months 12 k month q (omega arith) (omega arith) in
    let whole = months_of_year t.year in
    let year : 1970 + n ≡ t.year = omega arith in
    let found : find_year (suc (days_of_years n 1970 + r)) 1970 (days_of_years n 1970 + r)
        ≡ (t.year, r) =
      find_year_of n (suc (days_of_years n 1970 + r)) 1970 r (days_of_years n 1970 + r) refl
        (subst (λ x. r < year_length x) (sym year) (omega arith)) (omega arith)
      ∙ both year refl in
    let months : find_month month 1 r ≡ (1 + k, q) =
      find_month_of k month 1 q r refl (omega arith) in
    date_found (days_of_years n 1970 + r) t.year r (1 + k) q found months
    ∙ date_with t (1 + k) (suc q) (omega arith) (omega arith)
