-- ===== src/Calendar/Months.antt =====
-- The firsts of months, as startOfMonth and nextMonth of relay/internal/usage/quota.go use them.
use appunvs.Prelude.{
  ℕ, zero, suc, ◌+◌, ◌*◌, ◌/◌, ◌≤◌, ◌<◌, ◌≡◌, refl, List, [], ◌∷◌, arith, length, sym, All, ap, ◌∙◌,
  dec_lt,
}
use appunvs.Calendar.{
  month_lengths, total, before, days_before, date_of, date, day_millis, first_of_month,
}
use appunvs.Calendar.Laws.{length-month_lengths, before-total, date_of-Holds, Holds-unique, Holds}

-- The months of a list of plausible lengths grow by 1 to 31 days.
pub before-suc :
    (ls : List ℕ) (n : ℕ)
    → All (λ l. (0 < l) × (l ≤ 31)) ls
    → n < length ls
    → (before n ls < before (suc n) ls) × (before (suc n) ls ≤ before n ls + 31)
before-suc [] n a h = absurd (omega arith)
before-suc (l ∷ ls) zero a h = omega arith
before-suc (l ∷ ls) (suc n) a h =
    let ih = before-suc ls n a.1 (omega arith) in (omega (arith, ih.0), omega (arith, ih.1))

pub month_lengths-All : (k : ℕ) → All (λ l. (0 < l) × (l ≤ 31)) (month_lengths k)
unfolding month_lengths
month_lengths-All k = ground arith

pub first_of_month_lem :
    (k m : ℕ)
    → m ≤ 12
    → first_of_month k m ≡ (days_before k + before m (month_lengths k)) * day_millis
unfolding first_of_month
first_of_month_lem k m h = elim (dec_lt m 12) [
  | yes l ↦ ground arith
  | no n ↦
      let e : m ≡ 12 = omega arith in
      let s : days_before (suc k) ≡ days_before k + total (month_lengths k) =
        unfold days_before in refl in
      rw (e, s, before-total k)
]

pub date_of_unique : (d k m : ℕ) → Holds d k m → ((date_of d).year ≡ k) × ((date_of d).month ≡ m)
date_of_unique d k m h = Holds-unique d (date_of d).year (date_of d).month k m (date_of-Holds d) h

pub date-first_of_month :
    (k m : ℕ)
    → m ≤ 12
    → date (first_of_month k m) ≡ date_of (days_before k + before m (month_lengths k))
unfolding date
date-first_of_month k m h =
    let q : day * day_millis / day_millis ≡ day = omega arith in
    ap (λ (x : ℕ). date_of (x / day_millis)) (first_of_month_lem k m h) ∙ ap date_of q
  where
    day : ℕ
    day = days_before k + before m (month_lengths k)

pub first-Holds : (k m : ℕ) → m < 12 → Holds (days_before k + before m (month_lengths k)) k m
first-Holds k m h =
    let (low, _) =
      before-suc (month_lengths k) m (month_lengths-All k)
        (omega (arith, length-month_lengths k)) in
    record { in_year = h; from = omega arith; until = omega arith }

pub december :
    (k : ℕ)
    → days_before k + before 12 (month_lengths k)
      ≡ days_before (suc k) + before 0 (month_lengths (suc k))
unfolding days_before
december k = omega (arith, before-total k)

-- The first of month m of year k is the first of the month in which it lies: of that month, or of
-- the next January for month 12.
pub first_of_month-date :
    (k m : ℕ)
    → m ≤ 12
    → let d = date (first_of_month k m) in first_of_month d.year d.month ≡ first_of_month k m
first_of_month-date k m h = elim (dec_lt m 12) [
  | yes l ↦
      let (a, b) = date_of_unique _ k m (first-Holds k m l) in rw (date-first_of_month k m h, a, b)
  | no n ↦
      let e : m ≡ 12 = omega arith in
      let (a, b) = date_of_unique _ (suc k) 0 (first-Holds (suc k) 0 (omega arith)) in
      rw (e, date-first_of_month k 12 (omega arith), december k, a, b)
        (first_of_month_lem (suc k) 0 (omega arith)
          ∙ sym (ap (λ (x : ℕ). x * day_millis) (december k))
          ∙ sym (first_of_month_lem k 12 (omega arith)))
]

pub date-month : (t : ℕ) → (date t).month < 12
unfolding date
date-month t = (date_of-Holds (t / day_millis)).in_year

-- A time lies at or after the first of its month and before the first of the next.
pub month_bounds :
    (t : ℕ)
    → let d = date t in
      (first_of_month d.year d.month ≤ t) × (t < first_of_month d.year (suc d.month))
unfolding date
month_bounds t =
    let h = date_of-Holds (t / day_millis) in
    (
      omega (arith, first_of_month_lem _ (date_of (t / day_millis)).month (omega arith), h.from),
      omega (
        arith,
        first_of_month_lem _ (suc (date_of (t / day_millis)).month) (omega arith),
        h.until,
      ),
    )
