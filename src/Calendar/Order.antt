-- ===== src/Calendar/Order.antt =====
-- The order of dates, which DayKey of relay/internal/store/billing.go rests on.
use appunvs.Prelude.{ℕ, suc, ◌+◌, ◌≤◌, ◌<◌, ◌≡◌, refl, arith, inl, inr, ◌∙◌, dec_lt, ◌⊎◌}
use appunvs.Calendar.{month_lengths, before, days_before, split_year, split_month, date_of}
use appunvs.Calendar.Laws.{
  days_before-lt, split_year_lem, before_mono, split_month_lem, before-total, date_of-Holds, Holds,
}
use appunvs.Calendar.Months.{before-suc, month_lengths-All}

-- A date with its day: it adds up to the day, and no month has more than 31 days.
pub date_of_day :
    (d : ℕ)
    → let c = date_of d in
      (days_before c.year + before c.month (month_lengths c.year) + c.day ≡ d) × (c.day < 31)
unfolding date_of
date_of_day d =
    let (e, l) = split_year_lem (suc d) 0 d (omega arith) in
    let k : ℕ = (split_year (suc d) 0 d).0 in
    let (n, a, b, c, f) = split_month_lem (month_lengths k) 0 (split_year (suc d) 0 d).1 l in
    let z : days_before 0 ≡ 0 = unfold days_before in refl in
    let a' : (split_month (month_lengths k) 0 (split_year (suc d) 0 d).1).0 ≡ n = a ∙ omega arith in
    let (_, g) = before-suc (month_lengths k) n (month_lengths-All k) b in
    rw a' (omega arith, omega arith)

-- Later days have later dates.
pub date_of_mono :
    (d e : ℕ)
    → d ≤ e
    → let a = date_of d in
      let b = date_of e in
      (a.year < b.year)
      ⊎ ((a.year ≡ b.year) × (a.month < b.month))
      ⊎ ((a.year ≡ b.year) × (a.month ≡ b.month) × (a.day ≤ b.day))
date_of_mono d e h = elim (dec_lt (date_of d).year (date_of e).year) [
  | yes l ↦ inl l
  | no n ↦ elim (dec_lt (date_of e).year (date_of d).year) [
    | yes l ↦ absurd (
        omega (
          arith,
          days_before-lt _ _ l,
          hd.from,
          he.until,
          before_mono _ 12 (month_lengths (date_of e).year) he.in_year,
          before-total (date_of e).year,
        ))
    | no m ↦ inr (same_year (omega arith))
  ]
]
  where
    hd : Holds d (date_of d).year (date_of d).month
    hd = date_of-Holds d

    he : Holds e (date_of e).year (date_of e).month
    he = date_of-Holds e

    same_year :
        (date_of d).year ≡ (date_of e).year
        → ((date_of d).year ≡ (date_of e).year) × ((date_of d).month < (date_of e).month)
          ⊎ ((date_of d).year ≡ (date_of e).year)
            × ((date_of d).month ≡ (date_of e).month)
            × ((date_of d).day ≤ (date_of e).day)
    same_year y = elim (dec_lt (date_of d).month (date_of e).month) [
      | yes l ↦ inl (y, l)
      | no n ↦ elim (dec_lt (date_of e).month (date_of d).month) [
        | yes l ↦
            let up = before_mono _ _ (month_lengths (date_of e).year) l in
            let from : days_before (date_of e).year
                  + before (date_of d).month (month_lengths (date_of e).year)
                ≤ d =
              rw y at hd.from in
            absurd (omega (arith, he.until))
        | no m ↦
            let z : (date_of d).month ≡ (date_of e).month = omega arith in
            let (x, _) = date_of_day d in
            let x' : days_before (date_of e).year
                  + before (date_of e).month (month_lengths (date_of e).year)
                  + (date_of d).day
                ≡ d =
              rw (y, z) at x in
            inr (y, z, omega (arith, (date_of_day e).0))
      ]
    ]
