-- ===== src/Controllers/Period/Elapsed.antt =====
-- The time that has passed of a period, which is the range of the usage query.
use gpu_budget_operator.Base.{
  ℕ, zero, suc, ◌+◌, ◌-◌, ◌*◌, ◌/◌, ◌^◌, ◌≤◌, ◌<◌, String, List, [], ◌∷◌, ◌≡◌, inl, inr, arith, All,
  Bool-cases, ◌==◌, ==_apart, ==_sound, if◌then◌else◌,
}
use gpu_budget_operator.Budget.{period_daily, period_weekly}
use gpu_budget_operator.Metrics.{nanoseconds_per_minute, clamped}
use gpu_budget_operator.Controllers.Period.{
  nanoseconds_per_day, is_leap, month_lengths, date_of, period_start,
}
use gpu_budget_operator.Controllers.Period.Start.{IsStart, period_start-IsStart}
use gpu_budget_operator.Controllers.Period.Dates.{length_at, date_of-IsDate}

-- The days of the period that the day `d` lies in.
abbrev pub period_days : String → ℕ → ℕ
period_days period d =
    let today = date_of d in
    if period == period_daily
    then 1
    else if period == period_weekly
    then 7
    else length_at (today.month - 1) (month_lengths today.year)

length_at-le : (n : ℕ) (ls : List ℕ) → All (λ l. l ≤ 31) ls → length_at n ls ≤ 31
length_at-le n [] h = omega arith
length_at-le zero (l ∷ ls) h = h.0
length_at-le (suc n) (l ∷ ls) h = length_at-le n ls h.1

month_lengths-le : (y : ℕ) → All (λ l. l ≤ 31) (month_lengths y)
unfolding month_lengths
month_lengths-le y = elim (Bool-cases (is_leap y)) [
  | inl e ↦ rw e (omega arith)
  | inr e ↦ rw e (omega arith)
]

period_days-le : (period : String) (d : ℕ) → period_days period d ≤ 31
period_days-le period d =
    let month =
      length_at-le ((date_of d).month - 1) (month_lengths (date_of d).year)
        (month_lengths-le (date_of d).year) in
    ground arith

-- A day lies less than the days of its period after the period's start.
within : (period : String) (d start : ℕ) → IsStart period d start → d < start + period_days period d
within period d start is = elim (Bool-cases (period == period_daily)) [
  | inl e ↦ let same = is.daily (==_sound period period_daily e) in rw e (omega arith)
  | inr e ↦ elim (Bool-cases (period == period_weekly)) [
    | inl f ↦ let (week, _) = is.weekly (==_sound period period_weekly f) in rw (e, f) week
    | inr f ↦
        let first = is.monthly (==_apart period period_daily e) (==_apart period period_weekly f) in
        let today = date_of-IsDate d in
        let most = today.within in let least = today.day in rw (e, f) (omega arith)
  ]
]

-- The range of the usage query is at least a minute, less than the period's days, and at most 31
-- days, so that it fits the int64 of a duration; and from a minute into the period on it is just the
-- time since the period's start.
pub clamped_bounds :
    (print_duration print_hours : ℕ → String) (period : String) (now : ℕ)
    → let elapsed = now - period_start period now in
      let range = clamped print_duration print_hours elapsed in
      (nanoseconds_per_minute ≤ range)
      × (range < period_days period (now / nanoseconds_per_day) * nanoseconds_per_day)
      × (range < 2 ^ 63)
      × (nanoseconds_per_minute ≤ elapsed → period_start period now + range ≡ now)
clamped_bounds print_duration print_hours period now =
    let (past, (start, e, is)) = period_start-IsStart period now in
    let days = period_days period (now / nanoseconds_per_day) in
    let less = within period (now / nanoseconds_per_day) start is in
    let few = period_days-le period (now / nanoseconds_per_day) in
    let least = is.past in (ground arith, ground arith, ground arith, λ late. ground arith)
