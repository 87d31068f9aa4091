-- ===== src/Tests/Calendar.antt =====
-- The theorems on dates at a day of December 2025.
use gpu_budget_operator.Base.{◌≡◌, refl}
use gpu_budget_operator.Controllers.Period.{month_lengths, find_month, find_year, date_of}

leap_test : date_of 19782 ≡ record { year = 2024; month = 2; day = 29 }
unfolding date_of find_year find_month month_lengths
leap_test = refl
