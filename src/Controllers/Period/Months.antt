-- ===== src/Controllers/Period/Months.antt =====
-- Months as billing periods.
use gpu_budget_operator.Base.{ℕ, ◌*◌, ◌/◌, String, ◌≡◌, ◌≢◌, ap, ◌∙◌, arith, ==_other}
use gpu_budget_operator.Budget.{period_daily, period_weekly}
use gpu_budget_operator.Controllers.Period.{
  nanoseconds_per_day, Date, date_of, day_of, period_start,
}
use gpu_budget_operator.Controllers.Period.Start.{start_day-monthly}
use gpu_budget_operator.Controllers.Period.Dates.{IsDate, date_of-IsDate, date_of-day_of}

abbrev first_day : Date → Date
first_day t = record t { day = 1 }

first_day-IsDate : (t : Date) → IsDate t → IsDate (first_day t)
first_day-IsDate t is =
    let least = is.day in
    let most = is.within in
    record {
      year = is.year;
      first = is.first;
      last = is.last;
      day = omega arith;
      within = omega arith;
    }

whole_days : (d : ℕ) → (d * nanoseconds_per_day) / nanoseconds_per_day ≡ d
whole_days d = omega arith

month_start :
    (period : String) (now : ℕ)
    → period ≢ period_daily
    → period ≢ period_weekly
    → period_start period now
      ≡ day_of (first_day (date_of (now / nanoseconds_per_day))) * nanoseconds_per_day
unfolding period_start
month_start period now h k =
    ap (λ d. d * nanoseconds_per_day)
      (start_day-monthly period (now / nanoseconds_per_day) (==_other _ _ h) (==_other _ _ k))

-- A period that is neither daily nor weekly starts, by the calendar, on the first day of the month
-- that it is asked for, and of the same year.
pub period_start-date_of :
    (period : String) (now : ℕ)
    → period ≢ period_daily
    → period ≢ period_weekly
    → date_of (period_start period now / nanoseconds_per_day)
      ≡ record (date_of (now / nanoseconds_per_day)) { day = 1 }
period_start-date_of period now h k =
    let today = date_of (now / nanoseconds_per_day) in
    ap (λ x. date_of (x / nanoseconds_per_day)) (month_start period now h k)
    ∙ ap date_of (whole_days (day_of (first_day today)))
    ∙ date_of-day_of (first_day today) (first_day-IsDate today (date_of-IsDate _))
