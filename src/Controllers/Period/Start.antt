-- ===== src/Controllers/Period/Start.antt =====
-- Where a period starts.
use gpu_budget_operator.Base.{
  ℕ, zero, suc, ◌+◌, ◌-◌, ◌*◌, ◌/◌, ◌%◌, ◌≤◌, ◌<◌, String, true, false, List, [], ◌∷◌, ◌≡◌, ◌≢◌,
  refl, sym, ap, ◌∙◌, inl, inr, arith, ltb, Bool-cases, ◌==◌, ==_apart, ==_sound, string_dec,
}
use gpu_budget_operator.Budget.{period_daily, period_weekly}
use gpu_budget_operator.Controllers.Period.{
  nanoseconds_per_day, year_length, month_lengths, find_year, find_month, date_of, days_of_years,
  days_of_months, day_of, weekday, start_day, period_start,
}

fits : (d l : ℕ) → ltb d l ≡ false → d ≡ l + (d - l)
fits d l e = ground arith

find_year_lem :
    (fuel y d : ℕ)
    → (n : ℕ) × ((find_year fuel y d).0 ≡ y + n) × (d ≡ days_of_years n y + (find_year fuel y d).1)
unfolding find_year days_of_years
find_year_lem zero y d = (0, omega arith, omega arith)
find_year_lem (suc fuel) y d = elim (Bool-cases (ltb d (year_length y))) [
  | inl e ↦ rw e (0, omega arith, omega arith)
  | inr e ↦
      let (n, p, q) = find_year_lem fuel (suc y) (d - year_length y) in
      let split = fits d (year_length y) e in rw e (suc n, omega arith, omega arith)
]

find_month_lem :
    (ls : List ℕ) (m d : ℕ)
    → (n : ℕ) × ((find_month ls m d).0 ≡ m + n) × (d ≡ days_of_months n ls + (find_month ls m d).1)
unfolding find_month days_of_months
find_month_lem [] m d = (0, omega arith, omega arith)
find_month_lem (l ∷ ls) m d = elim (Bool-cases (ltb d l)) [
  | inl e ↦ rw e (0, omega arith, omega arith)
  | inr e ↦
      let (n, p, q) = find_month_lem ls (suc m) (d - l) in
      let split = fits d l e in rw e (suc n, omega arith, omega arith)
]

day_of_lem :
    (y m q n k : ℕ)
    → y ≡ 1970 + n
    → m ≡ 1 + k
    → day_of (record { year = y; month = m; day = suc q })
      ≡ days_of_years n 1970 + (days_of_months k (month_lengths y) + q)
unfolding day_of
day_of_lem y m q n k p s =
    let years : y - 1970 ≡ n = omega arith in
    let months : m - 1 ≡ k = omega arith in
    let days : suc q - 1 ≡ q = omega arith in rw (years, months, days) refl

date_parts :
    (d : ℕ)
    → (y m q : ℕ) × (date_of d ≡ record { year = y; month = m; day = suc q })
      × ((n k : ℕ) × (y ≡ 1970 + n)
          × (m ≡ 1 + k)
          × (d ≡ days_of_years n 1970 + (days_of_months k (month_lengths y) + q)))
unfolding date_of
date_parts d =
    let (n, p, e) = find_year_lem (suc d) 1970 d in
    let (k, s, t) =
      find_month_lem (month_lengths (find_year (suc d) 1970 d).0) 1 (find_year (suc d) 1970 d).1 in
    (
      (find_year (suc d) 1970 d).0,
      (find_month (month_lengths (find_year (suc d) 1970 d).0) 1 (find_year (suc d) 1970 d).1).0,
      (find_month (month_lengths (find_year (suc d) 1970 d).0) 1 (find_year (suc d) 1970 d).1).1,
      refl,
      (n, k, p, s, omega arith),
    )

-- A day's date is the date of that day.
day_of-date_of : (d : ℕ) → day_of (date_of d) ≡ d
day_of-date_of d =
    let (y, m, q, e, (n, k, p, s, t)) = date_parts d in
    ap day_of e ∙ day_of_lem y m q n k p s ∙ sym t

-- The first of a day's month lies the day of the month, less one, before it.
first_of_month : (d : ℕ) → day_of (record (date_of d) { day = 1 }) + ((date_of d).day - 1) ≡ d
first_of_month d =
    let (y, m, q, e, (n, k, p, s, t)) = date_parts d in
    let first : day_of (record (date_of d) { day = 1 })
        ≡ days_of_years n 1970 + (days_of_months k (month_lengths y) + 0) =
      ap (λ x. day_of (record x { day = 1 })) e ∙ day_of_lem y m 0 n k p s in
    let day : (date_of d).day ≡ suc q = ap (λ x. x.day) e in omega arith

monday : ℕ → ℕ
unfolding weekday
monday d = d - ((weekday d + 6) % 7)

monday_lem : (d : ℕ) → (monday d ≤ d) × (d < monday d + 7)
unfolding monday weekday
monday_lem d = (omega arith, omega arith)

weekday-monday : (d : ℕ) → 4 ≤ d → weekday (monday d) ≡ 1
unfolding monday weekday
weekday-monday d h = omega arith

start_day-daily :
    (period : String) (d : ℕ) → (period == period_daily) ≡ true → start_day period d ≡ d
unfolding start_day
start_day-daily period d e = rw (e, start_day) (day_of-date_of d)

start_day-weekly :
    (period : String) (d : ℕ)
    → (period == period_daily) ≡ false
    → (period == period_weekly) ≡ true
    → start_day period d ≡ monday d
unfolding start_day monday
start_day-weekly period d e f = rw (e, f, start_day) (ap monday (day_of-date_of d))

pub start_day-monthly :
    (period : String) (d : ℕ)
    → (period == period_daily) ≡ false
    → (period == period_weekly) ≡ false
    → start_day period d ≡ day_of (record (date_of d) { day = 1 })
unfolding start_day
start_day-monthly period d e f = rw (e, f, start_day) refl

-- What the start of a day's period is, in days.
pub record IsStart (period : String) (d start : ℕ) : Type 0 where
  pub past : start ≤ d
  pub daily : period ≡ period_daily → start ≡ d
  pub weekly : period ≡ period_weekly → (d < start + 7) × (4 ≤ d → weekday start ≡ 1)
  pub monthly : period ≢ period_daily → period ≢ period_weekly → start + ((date_of d).day - 1) ≡ d

daily_weekly : period_daily ≢ period_weekly
unfolding string_dec
daily_weekly p = ==_apart period_daily period_weekly refl p

not_later : (now start : ℕ) → start ≤ now / nanoseconds_per_day → start * nanoseconds_per_day ≤ now
not_later now start h = omega arith

start_day-IsStart : (period : String) (d : ℕ) → IsStart period d (start_day period d)
start_day-IsStart period d = elim (Bool-cases (period == period_daily)) [
  | inl e ↦
      let same = start_day-daily period d e in
      let named = ==_sound period period_daily e in
      record {
        past = omega arith;
        daily = λ p. same;
        weekly = λ p. absurd (daily_weekly (sym named ∙ p));
        monthly = λ p q. absurd (p named);
      }
  | inr e ↦ elim (Bool-cases (period == period_weekly)) [
    | inl f ↦
        let same = start_day-weekly period d e f in
        let named = ==_sound period period_weekly f in
        let (before, within) = monday_lem d in
        record {
          past = omega arith;
          daily = λ p. absurd (daily_weekly (sym p ∙ named));
          weekly = λ p. (omega arith, λ late. ap weekday same ∙ weekday-monday d late);
          monthly = λ p q. absurd (q named);
        }
    | inr f ↦
        let same = start_day-monthly period d e f in
        let first = first_of_month d in
        record {
          past = omega arith;
          daily = λ p. absurd (==_apart period period_daily e p);
          weekly = λ p. absurd (==_apart period period_weekly f p);
          monthly = λ p q. omega arith;
        }
  ]
]

-- A period starts at midnight, not after the time that it is asked for. A daily period starts on that
-- day; a weekly one less than seven days before it, on a Monday from the fifth of January 1970 on;
-- and any other as many days before it as its day of the month counts beyond the first.
pub period_start-IsStart :
    (period : String) (now : ℕ)
    → (period_start period now ≤ now)
      × ((start : ℕ) × (period_start period now ≡ start * nanoseconds_per_day)
          × IsStart period (now / nanoseconds_per_day) start)
unfolding period_start
period_start-IsStart period now =
    let is = start_day-IsStart period (now / nanoseconds_per_day) in
    let past = is.past in (not_later now _ past, (_, refl, is))
