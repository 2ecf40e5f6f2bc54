-- ===== src/Calendar/Laws.antt =====
-- A day lies in the month that the calendar finds for it.
use appunvs.Prelude.{
  ℕ, zero, suc, ◌+◌, ◌-◌, ◌≤◌, ◌<◌, ◌≡◌, refl, List, [], ◌∷◌, arith, ltb, inl, inr, Bool-cases,
  length, ap, ◌∙◌, dec_lt,
}
use appunvs.Calendar.{month_lengths, total, before, days_before, split_year, split_month, date_of}

pub total-month_lengths : (k : ℕ) → 0 < total (month_lengths k)
unfolding month_lengths
total-month_lengths k = ground arith

pub days_before-lt : (j k : ℕ) → j < k → days_before j + total (month_lengths j) ≤ days_before k
unfolding days_before
days_before-lt j zero h = elim h [ ]
days_before-lt j (suc k) h = elim (dec_lt j k) [
  | yes p ↦ omega (arith, days_before-lt j k p)
  | no n ↦ let e : j ≡ k = omega arith in rw e (omega arith)
]

-- Enough fuel: the year found holds the day.
pub split_year_lem :
    (fuel k d : ℕ)
    → d < fuel
    → let (k', d') = split_year fuel k d in
      (days_before k' + d' ≡ days_before k + d) × (d' < total (month_lengths k'))
unfolding split_year
split_year_lem zero k d h = elim h [ ]
split_year_lem (suc fuel) k d h = ground (
  arith,
  total-month_lengths k,
  step k,
  split_year_lem fuel (suc k) (d - total (month_lengths k)),
)
  where
    step : (k : ℕ) → days_before (suc k) ≡ days_before k + total (month_lengths k)
    step k = unfold days_before in refl

-- A day determines its year.
pub year_unique :
    (j k a b : ℕ)
    → days_before j + a ≡ days_before k + b
    → a < total (month_lengths j)
    → b < total (month_lengths k)
    → (j ≡ k) × (a ≡ b)
year_unique j k a b e p q = elim (dec_lt j k) [
  | yes l ↦ absurd (omega (arith, days_before-lt j k l))
  | no n ↦ elim (dec_lt k j) [
    | yes l ↦ absurd (omega (arith, days_before-lt k j l))
    | no m ↦ let same : j ≡ k = omega arith in (same, omega (arith, ap days_before same))
  ]
]

pub before_mono : (a b : ℕ) (ls : List ℕ) → a ≤ b → before a ls ≤ before b ls
before_mono zero b ls h = omega arith
before_mono (suc a) zero ls h = absurd (omega arith)
before_mono (suc a) (suc b) [] h = omega arith
before_mono (suc a) (suc b) (l ∷ ls) h = omega (arith, before_mono a b ls (omega arith))

pub split_month_lem :
    (ls : List ℕ) (m d : ℕ)
    → d < total ls
    → (n : ℕ) × ((split_month ls m d).0 ≡ m + n)
      × (n < length ls)
      × (before n ls + (split_month ls m d).1 ≡ d)
      × (d < before (suc n) ls)
unfolding split_month
split_month_lem [] m d h = absurd (omega arith)
split_month_lem (l ∷ ls) m d h = elim (Bool-cases (ltb d l)) [
  | inl e ↦ (0, rw e (omega arith), omega arith, rw e (omega arith), ground arith)
  | inr e ↦
      let (n, a, b, c, f) = split_month_lem ls (m + 1) (d - l) (ground arith) in
      (suc n, rw e (omega arith), omega arith, rw e (ground arith), ground arith)
]

-- A day of the year determines its month.
pub month_unique :
    (ls : List ℕ) (i j d : ℕ)
    → before i ls ≤ d
    → d < before (suc i) ls
    → before j ls ≤ d
    → d < before (suc j) ls
    → i ≡ j
month_unique ls i j d a b c e = elim (dec_lt i j) [
  | yes l ↦ absurd (omega (arith, before_mono (suc i) j ls l))
  | no n ↦ elim (dec_lt j i) [
    | yes l ↦ absurd (omega (arith, before_mono (suc j) i ls l))
    | no m ↦ omega arith
  ]
]

-- What the date of a day says: the year and the month begin at or before it, and the next month
-- after it.
pub record Holds (d : ℕ) (k m : ℕ) : Type 0 where
  pub in_year : m < 12
  pub from : days_before k + before m (month_lengths k) ≤ d
  pub until : d < days_before k + before (suc m) (month_lengths k)

pub length-month_lengths : (k : ℕ) → length (month_lengths k) ≡ 12
unfolding month_lengths
length-month_lengths k = refl

pub before-total : (k : ℕ) → before 12 (month_lengths k) ≡ total (month_lengths k)
unfolding month_lengths
before-total k = refl

pub date_of-Holds : (d : ℕ) → Holds d (date_of d).year (date_of d).month
unfolding date_of
date_of-Holds d =
    let (e, l) = split_year_lem (suc d) 0 d (omega arith) in
    let k : ℕ = (split_year (suc d) 0 d).0 in
    let (n, a, b, c, f) = split_month_lem (month_lengths k) 0 (split_year (suc d) 0 d).1 l in
    let z : days_before 0 ≡ 0 = unfold days_before in refl in
    let a' : (split_month (month_lengths k) 0 (split_year (suc d) 0 d).1).0 ≡ n = a ∙ omega arith in
    rw a' (record {
      in_year = omega (arith, length-month_lengths k);
      from = omega arith;
      until = omega arith;
    })

-- And it is the only such year and month.
pub Holds-unique : (d j i k m : ℕ) → Holds d j i → Holds d k m → (j ≡ k) × (i ≡ m)
Holds-unique d j i k m h g =
    let hj = before_mono (suc i) 12 (month_lengths j) h.in_year in
    let hk = before_mono (suc m) 12 (month_lengths k) g.in_year in
    let (e, _) =
      year_unique j k (d - days_before j) (d - days_before k) (omega (arith, h.from, g.from))
        (omega (arith, hj, before-total j, h.until, h.from))
        (omega (arith, hk, before-total k, g.until, g.from)) in
    let g' : Holds d j m = rw e g in
    (
      e,
      month_unique (month_lengths j) i m (d - days_before j) (omega (arith, h.from))
          (omega (arith, h.until, h.from)) (omega (arith, g'.from))
          (omega (arith, g'.until, g'.from)),
    )
