-- ===== src/Calendar.antt =====
-- The civil calendar of Go's package time in UTC, from the epoch on: what DayKey, startOfMonth and
-- nextMonth of relay/internal use of it. A date is a year counted from 1970, a month counted from 0
-- and a day of the month counted from 0.
pub mod Laws
pub mod Months
pub mod Order
use appunvs.Prelude.{
  ℕ, zero, suc, ◌+◌, ◌-◌, ◌*◌, ◌/◌, ◌%◌, Bool, not, ◌&&◌, ◌||◌, List, [], ◌∷◌, ltb, ◌==◌, nat_eq,
  if◌then◌else◌,
}

unfoldable pub is_leap : ℕ → Bool
is_leap y = y % 4 == 0 && (not (y % 100 == 0) || y % 400 == 0)

unfoldable pub month_lengths : ℕ → List ℕ
unfolding is_leap
month_lengths k =
    31
    ∷ (if is_leap (1970 + k) then 29 else 28)
    ∷ 31
    ∷ 30
    ∷ 31
    ∷ 30
    ∷ 31
    ∷ 31
    ∷ 30
    ∷ 31
    ∷ 30
    ∷ 31
    ∷ []

abbrev pub total : List ℕ → ℕ
total [] = 0
total (x ∷ xs) = x + total xs

-- The days of the first n months.
abbrev pub before : ℕ → List ℕ → ℕ
before zero ls = 0
before (suc n) [] = 0
before (suc n) (l ∷ ls) = l + before n ls

-- The days from the epoch to the first of January of year k.
unfoldable pub days_before : ℕ → ℕ
days_before zero = 0
days_before (suc k) = days_before k + total (month_lengths k)

-- The year of a day, with fuel; each round takes a year off.
unfoldable pub split_year : ℕ → ℕ → ℕ → ℕ × ℕ
split_year zero k d = (k, d)
split_year (suc fuel) k d =
    let rest = split_year fuel (suc k) (d - total (month_lengths k)) in
    if ltb d (total (month_lengths k)) then (k, d) else rest

unfoldable pub split_month : List ℕ → ℕ → ℕ → ℕ × ℕ
split_month [] m d = (m, d)
split_month (l ∷ ls) m d =
    let rest = split_month ls (m + 1) (d - l) in if ltb d l then (m, d) else rest

pub record Date : Type 0 where
  pub year : ℕ
  pub month : ℕ
  pub day : ℕ

-- The date of a day counted from the epoch.
unfoldable pub date_of : ℕ → Date
unfolding split_year split_month month_lengths
date_of d =
    let (k, rest) = split_year (suc d) 0 d in
    let (m, day) = split_month (month_lengths k) 0 rest in record { year = k; month = m; day = day }

abbrev pub day_millis : ℕ
day_millis = 86_400_000

-- time.Time.Date, of a time in unix milliseconds.
unfoldable pub date : ℕ → Date
unfolding date_of
date t = date_of (t / day_millis)

-- time.Date(y, m, 1, 0, 0, 0, 0, time.UTC).UnixMilli(), which carries month 12 over into the year.
unfoldable pub first_of_month : ℕ → ℕ → ℕ
unfolding days_before month_lengths
first_of_month k m =
    (if m == 12 then days_before (suc k) else days_before k + before m (month_lengths k))
    * day_millis

-- time.Time.AddDate(0, 1, 0): the same day of the next month, where a day that the month does not
-- have runs over into the one after it.
unfoldable pub add_month : ℕ → ℕ
unfolding first_of_month date
add_month t =
    let d = date t in first_of_month d.year (suc d.month) + d.day * day_millis + t % day_millis
