-- ===== src/Store/Billing/Days.antt =====
-- DayKey of relay/internal/store/billing.go: the key under which a day's messages are counted.
use appunvs.Prelude.{ℕ, suc, ◌+◌, ◌*◌, ◌/◌, ◌≤◌, ◌≡◌, ◌↔◌, sym, ap, inl, inr, arith, ◌∙◌}
use appunvs.Calendar.{date, date_of, day_millis, days_before, before, month_lengths}
use appunvs.Calendar.Laws.{date_of-Holds}
use appunvs.Calendar.Order.{date_of_mono, date_of_day}
use appunvs.Store.Billing.{day_key}

abbrev key : ℕ → ℕ
key d = (1970 + (date_of d).year) * 10_000 + suc (date_of d).month * 100 + suc (date_of d).day

key_mono : (d e : ℕ) → d ≤ e → key d ≤ key e
key_mono d e h =
    let hd = date_of-Holds d in
    let he = date_of-Holds e in
    let (_, a) = date_of_day d in
    let (_, b) = date_of_day e in
    elim (date_of_mono d e h) [
      | inl l ↦ omega (arith, hd.in_year, he.in_year)
      | inr (inl (y, l)) ↦ omega (arith, hd.in_year, he.in_year)
      | inr (inr (y, m, l)) ↦ omega (arith, hd.in_year, he.in_year)
    ]

key-injective : (d e : ℕ) → key d ≡ key e → d ≡ e
key-injective d e h =
    let hd = date_of-Holds d in
    let he = date_of-Holds e in
    let (x, a) = date_of_day d in
    let (z, b) = date_of_day e in
    let y : (date_of d).year ≡ (date_of e).year = omega (arith, hd.in_year, he.in_year) in
    let m : (date_of d).month ≡ (date_of e).month = omega (arith, hd.in_year, he.in_year) in
    let n : (date_of d).day ≡ (date_of e).day = omega (arith, hd.in_year, he.in_year) in
    let x' : days_before (date_of e).year
          + before (date_of e).month (month_lengths (date_of e).year)
          + (date_of e).day
        ≡ d =
      rw (y, m, n) at x in
    sym x' ∙ z

-- The key of a later time is not smaller, and two times have the same key exactly when they fall on
-- the same day in UTC.
pub day_key_lem :
    (t u : ℕ)
    → t ≤ u
    → (day_key t ≤ day_key u) × ((day_key t ≡ day_key u) ↔ (t / day_millis ≡ u / day_millis))
unfolding day_key date
day_key_lem t u h = (
  key_mono (t / day_millis) (u / day_millis) (omega arith),
  (key-injective (t / day_millis) (u / day_millis), λ e. ap key e),
)
