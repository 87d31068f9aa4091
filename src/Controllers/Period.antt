-- ===== src/Controllers/Period.antt =====
-- `periodStart`, with what it uses of Go's time package: the proleptic Gregorian calendar in UTC, from
-- 1970 on. A time is in nanoseconds since the start of 1970; what would lie before is cut to 0.
pub mod Start
pub mod Dates
pub mod Months
pub mod Elapsed
use gpu_budget_operator.Base.{
  ℕ, zero, suc, ◌+◌, ◌-◌, ◌*◌, ◌/◌, ◌%◌, String, Bool, not, ◌&&◌, ◌||◌, List, [], ◌∷◌, ltb, eqb,
  ◌==◌, if◌then◌else◌,
}
use gpu_budget_operator.Budget.{period_daily, period_weekly}

abbrev pub nanoseconds_per_day : ℕ
nanoseconds_per_day = 86400000000000

unfoldable pub is_leap : ℕ → Bool
is_leap y = (eqb (y % 4) 0 && not (eqb (y % 100) 0)) || eqb (y % 400) 0

unfoldable pub year_length : ℕ → ℕ
unfolding is_leap
year_length y = if is_leap y then 366 else 365

unfoldable pub month_lengths : ℕ → List ℕ
unfolding is_leap
month_lengths y =
    31 ∷ (if is_leap y then 29 else 28) ∷ 31 ∷ 30 ∷ 31 ∷ 30 ∷ 31 ∷ 31 ∷ 30 ∷ 31 ∷ 30 ∷ 31 ∷ []

-- `Year()`, `Month()` and `Day()`.
pub record Date : Type 0 where
  pub year : ℕ
  pub month : ℕ
  pub day : ℕ

-- The year of the day `d` after the start of year `y`, and the day in it. A year has more than one
-- day, so fuel above `d` is enough.
unfoldable pub find_year : ℕ → ℕ → ℕ → ℕ × ℕ
unfolding year_length
find_year zero y d = (y, d)
find_year (suc fuel) y d =
    let next = find_year fuel (suc y) (d - year_length y) in
    if ltb d (year_length y) then (y, d) else next

-- The month of the day `d` after the start of month `m`, and the day in it.
unfoldable pub find_month : List ℕ → ℕ → ℕ → ℕ × ℕ
find_month [] m d = (m, d)
find_month (l ∷ ls) m d =
    let next = find_month ls (suc m) (d - l) in if ltb d l then (m, d) else next

unfoldable pub date_of : ℕ → Date
date_of d =
    let (y, r) = find_year (suc d) 1970 d in
    let (m, q) = find_month (month_lengths y) 1 r in record { year = y; month = m; day = suc q }

-- The days of `n` years from year `y` on.
unfoldable pub days_of_years : ℕ → ℕ → ℕ
unfolding year_length
days_of_years zero y = 0
days_of_years (suc n) y = year_length y + days_of_years n (suc y)

-- The days of the first `n` months.
unfoldable pub days_of_months : ℕ → List ℕ → ℕ
days_of_months zero ls = 0
days_of_months (suc n) [] = 0
days_of_months (suc n) (l ∷ ls) = l + days_of_months n ls

-- The day of `time.Date(year, month, day, 0, 0, 0, 0, time.UTC)`.
unfoldable pub day_of : Date → ℕ
day_of t =
    days_of_years (t.year - 1970) 1970
    + (days_of_months (t.month - 1) (month_lengths t.year) + (t.day - 1))

-- `Weekday()`, Sunday being 0; the first of January 1970 was a Thursday.
unfoldable pub weekday : ℕ → ℕ
weekday d = (d + 4) % 7

unfoldable pub start_day : String → ℕ → ℕ
start_day period d =
    let today = date_of d in
    let day = day_of today in
    if period == period_daily
    then day
    else if period == period_weekly
    then day - ((weekday day + 6) % 7)
    else day_of (record today { day = 1 })

unfoldable pub period_start : String → ℕ → ℕ
period_start period now = start_day period (now / nanoseconds_per_day) * nanoseconds_per_day
