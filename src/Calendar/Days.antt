-- ===== src/Calendar/Days.antt =====
-- The succession of days behind web/src/components/views/CalendarView.tsx.
use ku_crud.Base.{
  ℕ, zero, suc, ◌+◌, ◌≤◌, ◌<◌, ◌≡◌, refl, sym, ap, inl, inr, arith, ltb, leb, if◌then◌else◌,
  Bool-cases,
}
use native.Mathlib.Numerals.{add-one}
use ku_crud.Calendar.Dates.{
  Day, IsDay, is_leap, month_length, month_start, year_start, number, next_day,
}

pub month_length_bounds : (y m : ℕ) → (28 ≤ month_length y m) × (month_length y m ≤ 31)
unfolding month_length
month_length_bounds y m = ground arith

month_start-suc : (y m : ℕ) → month_start y (suc m) ≡ month_start y m + month_length y m
unfolding month_start
month_start-suc y m = refl

month_start_zero : (y : ℕ) → month_start y 0 ≡ 0
unfolding month_start
month_start_zero y = refl

abbrev year_length : ℕ → ℕ
year_length y = if is_leap y then 366 else 365

month_start_year : (y : ℕ) → month_start y 12 ≡ year_length y
unfolding month_start month_length
month_start_year y = elim (Bool-cases (is_leap y)) [ inl e ↦ rw e refl | inr e ↦ rw e refl ]

month_start_mono : (y m n : ℕ) → m ≤ n → month_start y m ≤ month_start y n
month_start_mono y m zero h =
    let e : month_start y m ≡ month_start y 0 = ap (month_start y) (omega arith) in omega arith
month_start_mono y m (suc n) h = elim (Bool-cases (leb m n)) [
  | inl before ↦ omega (arith, month_start_mono y m n (ground arith), month_start-suc y n)
  | inr last ↦
      let e : month_start y m ≡ month_start y (suc n) = ap (month_start y) (ground arith) in
      omega arith
]

year_start-suc : (y : ℕ) → year_start (suc y) ≡ year_start y + year_length y
unfolding year_start
year_start-suc y = refl

year_start_mono : (y z : ℕ) → y ≤ z → year_start y ≤ year_start z
year_start_mono y zero h =
    let e : year_start y ≡ year_start 0 = ap year_start (omega arith) in omega arith
year_start_mono y (suc z) h = elim (Bool-cases (leb y z)) [
  | inl before ↦ omega (arith, year_start_mono y z (ground arith), year_start-suc z)
  | inr last ↦
      let e : year_start y ≡ year_start (suc z) = ap year_start (ground arith) in omega arith
]

-- A date lies in its month, and a month in its year.
in_year :
    (d : Day) → IsDay d → month_start d.year d.month + d.date ≤ month_start d.year (d.month + 1)
in_year d h = rw (add-one d.month) (omega (arith, h.in_month, month_start-suc d.year d.month))

in_years : (d : Day) → IsDay d → month_start d.year d.month + d.date ≤ year_length d.year
in_years d h = omega (
  arith,
  in_year d h,
  month_start_mono d.year (d.month + 1) 12 (omega (arith, h.in_year)),
  month_start_year d.year,
)

-- The next day is the next number.
pub number-next_day : (d : Day) → IsDay d → number (next_day d) ≡ number d + 1
unfolding number next_day
number-next_day d h = elim (Bool-cases (ltb d.date (month_length d.year d.month))) [
  | inl in_month ↦ rw in_month (omega arith)
  | inr month_end ↦
      let full : d.date ≡ month_length d.year d.month = let b = h.in_month in ground arith in
      rw month_end (elim (Bool-cases (ltb d.month 11)) [
        | inl same_year ↦
            rw (same_year, add-one d.month) (omega (arith, full, month_start-suc d.year d.month))
        | inr year_end ↦
            let last : d.month ≡ 11 = let b = h.in_year in ground arith in
            let there : month_start d.year d.month ≡ month_start d.year 11 =
              ap (month_start d.year) last in
            let here : month_length d.year d.month ≡ month_length d.year 11 =
              ap (month_length d.year) last in
            rw (year_end, add-one d.year)
              (omega (
                arith,
                full,
                year_start-suc d.year,
                month_start_year d.year,
                month_start-suc d.year 11,
                month_start_zero (suc d.year),
              ))
      ])
]

pub IsDay-next_day : (d : Day) → IsDay d → IsDay (next_day d)
unfolding next_day
IsDay-next_day d h = elim (Bool-cases (ltb d.date (month_length d.year d.month))) [
  | inl in_month ↦
      rw in_month (record { in_year = h.in_year; from_one = omega arith; in_month = ground arith })
  | inr month_end ↦ rw month_end (elim (Bool-cases (ltb d.month 11)) [
    | inl same_year ↦ rw same_year (record {
      in_year = ground arith;
      from_one = omega arith;
      in_month = omega (arith, (month_length_bounds d.year (d.month + 1)).0);
    })
    | inr year_end ↦ rw year_end (record {
      in_year = omega arith;
      from_one = omega arith;
      in_month = omega (arith, (month_length_bounds (d.year + 1) 0).0);
    })
  ])
]

-- A later year has the larger numbers, and so has a later month of one year.
year_lt : (d e : Day) → IsDay d → IsDay e → d.year < e.year → number d < number e
unfolding number
year_lt d e h k before = omega (
  arith,
  in_years d h,
  k.from_one,
  year_start-suc d.year,
  year_start_mono (suc d.year) e.year (omega arith),
)

month_lt :
    (d e : Day) → IsDay d → IsDay e → d.year ≡ e.year → d.month < e.month → number d < number e
unfolding number
month_lt d e h k same before =
    let there : year_start d.year ≡ year_start e.year = ap year_start same in
    let here : month_start d.year e.month ≡ month_start e.year e.month =
      ap (λ y. month_start y e.month) same in
    omega
      (arith, in_year d h, k.from_one, month_start_mono d.year (d.month + 1) e.month (omega arith))

-- Two dates with one number are one date.
pub number-injective : (d e : Day) → IsDay d → IsDay e → number d ≡ number e → d ≡ e
number-injective d e h k same =
    let y : d.year ≡ e.year = ground (arith, year_lt d e h k, year_lt e d k h) in
    let m : d.month ≡ e.month = ground (arith, month_lt d e h k y, month_lt e d k h (sym y)) in
    let there : year_start d.year ≡ year_start e.year = ap year_start y in
    let here : month_start d.year d.month ≡ month_start e.year e.month =
      λ i. month_start (y i) (m i) in
    let n : d.date ≡ e.date = unfold number in omega (arith, same) in
    λ i. record { year = y i; month = m i; date = n i }
