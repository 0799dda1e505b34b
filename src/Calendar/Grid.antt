-- ===== src/Calendar/Grid.antt =====
-- The grid of a month in web/src/components/views/CalendarView.tsx, and the moves between months.
use ku_crud.Base.{
  ℕ, zero, suc, ◌+◌, ◌-◌, ◌%◌, ◌<◌, ◌≡◌, refl, ap, ◌∙◌, inl, inr, false, Option, none, some, List,
  ◌∷◌, arith, ltb, eqb, Bool-cases, get_elem?,
}
use ku_crud.Calendar.Dates.{Day, number, week_day, month_length, next_day}
use ku_crud.Calendar.{
  Cursor, next_month, previous_month, first_day, last_day, start_offset, blanks, dates_from, cells,
}

abbrev day_of : Cursor → ℕ → Day
day_of c d = record { year = c.y; month = c.m; date = d }

get_elem?-blanks :
    (n i : ℕ) (rest : List (Option Day)) → get_elem? (blanks n rest) (n + i) ≡ get_elem? rest i
get_elem?-blanks zero i rest = ap (get_elem? rest) (omega arith)
get_elem?-blanks (suc n) i rest =
    let next : suc n + i ≡ suc (n + i) = omega arith in
    ap (get_elem? (none ∷ blanks n rest)) next ∙ get_elem?-blanks n i rest

get_elem?-dates_from :
    (c : Cursor) (n d i : ℕ)
    → i < n
    → get_elem? (dates_from c n d) i
      ≡ some (some (record { year = c.y; month = c.m; date = d + i }))
get_elem?-dates_from c zero d i h = elim h [ ]
get_elem?-dates_from c (suc n) d zero h = ap (λ k. some (some (day_of c k))) (omega arith)
get_elem?-dates_from c (suc n) d (suc i) h =
    get_elem?-dates_from c n (d + 1) i (omega arith)
    ∙ ap (λ k. some (some (day_of c k))) (omega arith)

cells-eq : (c : Cursor) → cells c ≡ blanks (start_offset c) (dates_from c (month_length c.y c.m) 1)
unfolding cells
cells-eq c = refl

start_offset-eq : (c : Cursor) → start_offset c ≡ (week_day (day_of c 1) + 6) % 7
unfolding start_offset
start_offset-eq c = refl

week_day-eq : (d : Day) → week_day d ≡ (number d + 5) % 7
unfolding week_day
week_day-eq d = refl

number-later : (c : Cursor) (n : ℕ) → number (day_of c (n + 1)) ≡ number (day_of c 1) + n
unfolding number
number-later c n = omega arith

-- The n-th date of a month, counted from 0, is the n-th cell after the blank ones, and it stands in
-- the column of its weekday, Monday's being the first of seven.
pub cells-place :
    (c : Cursor) (n : ℕ)
    → n < month_length c.y c.m
    → (get_elem? (cells c) (start_offset c + n)
        ≡ some (some (record { year = c.y; month = c.m; date = n + 1 })))
      × ((start_offset c + n) % 7
          ≡ (week_day (record { year = c.y; month = c.m; date = n + 1 }) + 6) % 7)
cells-place c n h = (
  rw cells-eq (
      get_elem?-blanks (start_offset c) n _
      ∙ get_elem?-dates_from c (month_length c.y c.m) 1 n h
      ∙ ap (λ k. some (some (day_of c k))) (omega arith)),
  omega (
    arith,
    start_offset-eq c,
    week_day-eq (day_of c (n + 1)),
    week_day-eq (day_of c 1),
    number-later c n,
  ),
)

same_year : (y : ℕ) → y + 1 - 1 ≡ y
same_year y = omega arith

-- From a month from 0 to 11, the next month is again one, it begins with the day after the last day of
-- this one, and the month before it is this one.
next_month-previous_month :
    (c : Cursor)
    → c.m < 12
    → ((next_month c).m < 12)
      × ((first_day (next_month c) ≡ next_day (last_day c)) × (previous_month (next_month c) ≡ c))
unfolding next_month previous_month next_day last_day
next_month-previous_month c h = elim (Bool-cases (ltb c.m 11)) [
  | inl inside ↦
      let other : eqb (c.m + 1) 0 ≡ false = ground arith in
      let full : ltb (month_length c.y c.m) (month_length c.y c.m) ≡ false = ground arith in
      rw (inside, full)
        (ground arith, (refl, rw other (ap (λ m. record { y = c.y; m = m }) (omega arith))))
  | inr end ↦
      let zero_month : c.m - 11 ≡ 0 = ground arith in
      let last : 11 ≡ c.m = ground arith in
      let full : ltb (month_length c.y c.m) (month_length c.y c.m) ≡ false = ground arith in
      rw (end, full, zero_month)
        (omega arith, (refl, λ i. record { y = same_year c.y i; m = last i }))
]
