-- ===== src/Tests/Calendar.antt =====
-- The calendar, with the books that are due in February 2024.
use mathlib.Core.Option.{some-injective}
use mathlib.Core.Path.{subst}
use ku_crud.Base.{
  ℕ, zero, suc, ◌+◌, ◌%◌, ◌≤◌, ◌<◌, String, ◌≡◌, refl, sym, ap, ◌∙◌, inl, inr, Option, none, some,
  List, [], ◌∷◌, arith, ◌==◌, if◌then◌else◌, Bool-cases, get_elem?, take, drop, filter,
}
use ku_crud.Base.Assoc.{lookup}
use ku_crud.Base.Text.{show}
use ku_crud.Value.{Row, str}
use ku_crud.Types.{RowsRes, datetime}
use ku_crud.Api.{Request, Result, ok}
use ku_crud.Calendar.Dates.{Day, Moment, IsDay, IsMoment, month_length, key_of, week_day}
use ku_crud.Calendar.{
  Props, Cursor, month_request, load_month, start_offset, cells, events_on, events_by_date,
  day_create, shown_events,
}
use ku_crud.Calendar.Places.{is_on, events_on-events_by_date}
use ku_crud.Server.{IsPage}
use ku_crud.Calendar.Pages.{load_month-all}
use ku_crud.Calendar.Grid.{cells-place}
use ku_crud.Tests.Samples.{stub, books, column}
use ku_crud.Tests.Numbered.{numbered, page_of, shown, other_number}

abbrev february : Cursor
february = record { y = 2024; m = 1 }

abbrev props : Props
props = record {
  table = books;
  start_col = column datetime "due";
  end_col = none;
  filters = [];
  search = "";
  page_size = 1;
}

abbrev day : ℕ → Day
day d = record { year = 2024; month = 1; date = d }

abbrev read_date : String → Option Moment
read_date s =
    if s == "2024-02-12 10:00"
    then some (record { day = day 12; time = 36000000 })
    else if s == "2024-02-29 10:00"
    then some (record { day = day 29; time = 36000000 })
    else none

abbrev due : String → Row
due s = ("due", str s) ∷ []

february-IsDay : (d : ℕ) → 1 ≤ d → d ≤ 29 → IsDay (day d)
unfolding month_length
february-IsDay d low high = record { in_year = omega arith; from_one = low; in_month = high }

some-IsMoment : (m d : Moment) → IsMoment m → some m ≡ some d → IsMoment d
some-IsMoment m d h e = subst IsMoment (some-injective _ _ e) h

read_date-IsMoment : (s : String) (d : Moment) → read_date s ≡ some d → IsMoment d
read_date-IsMoment s d e = elim (Bool-cases (s == "2024-02-12 10:00")) [
  | inl first ↦
      some-IsMoment _ d
        (record { on_day = february-IsDay 12 (omega arith) (omega arith); in_day = omega arith })
        (rw first at e)
  | inr other ↦ elim (Bool-cases (s == "2024-02-29 10:00")) [
    | inl last ↦
        some-IsMoment _ d
          (record { on_day = february-IsDay 29 (omega arith) (omega arith); in_day = omega arith })
          (rw (other, last) at e)
    | inr none_of_them ↦ let no_date = rw (other, none_of_them) at e in cc
  ]
]

events_on-events_by_date_example :
    events_on (key_of (day 12)) (
      events_by_date read_date props february
        (due "2024-02-12 10:00" ∷ due "soon" ∷ due "2024-02-29 10:00" ∷ []))
    ≡ filter
        (is_on read_date props february (day 12))
        (due "2024-02-12 10:00" ∷ due "soon" ∷ due "2024-02-29 10:00" ∷ [])
events_on-events_by_date_example =
    events_on-events_by_date read_date props february (day 12)
      (due "2024-02-12 10:00" ∷ due "soon" ∷ due "2024-02-29 10:00" ∷ [])
      (february-IsDay 12 (omega arith) (omega arith)) read_date-IsMoment

-- A row in the morning of the last day of the month has no place.
last_day_test :
    events_by_date read_date props february (due "2024-02-12 10:00" ∷ due "2024-02-29 10:00" ∷ [])
    ≡ ("2024-02-12", due "2024-02-12 10:00" ∷ []) ∷ []
unfolding events_by_date
last_day_test = refl

day_tests :
    (day_create (day 9) ≡ "2024-02-09T00:00")
    × (shown_events (due "1" ∷ due "2" ∷ due "3" ∷ due "4" ∷ [])
        ≡ (due "1" ∷ due "2" ∷ due "3" ∷ [], some 1))
unfolding day_create shown_events
day_tests = (refl, refl)

cells-place_example :
    (get_elem? (cells february) (start_offset february + 28) ≡ some (some (day 29)))
    × ((start_offset february + 28) % 7 ≡ (week_day (day 29) + 6) % 7)
cells-place_example = cells-place february 28 (unfold month_length in omega arith)

abbrev one_row_each : Request → Result RowsRes
one_row_each r =
    if numbered "1" r
    then ok (page_of (due "a" ∷ []))
    else if numbered "2" r
    then ok (page_of (due "b" ∷ []))
    else ok (page_of [])

drop_past : (n : ℕ) (a b : Row) → take 1 (drop (suc (suc n)) (a ∷ b ∷ [])) ≡ []
drop_past zero a b = refl
drop_past (suc n) a b = refl

numbered-show :
    (n : ℕ) (k : String) → numbered k (month_request stub props february n) ≡ (show n == k)
unfolding month_request lookup
numbered-show n k = refl

first_answer : one_row_each (month_request stub props february 1) ≡ ok (page_of (due "a" ∷ []))
first_answer = rw (numbered-show 1 "1", shown.0) refl

second_answer : one_row_each (month_request stub props february 2) ≡ ok (page_of (due "b" ∷ []))
second_answer =
    rw
      (
        numbered-show 2 "1",
        other_number 1 2 "1" shown.0 (omega arith),
        numbered-show 2 "2",
        shown.1,
      )
      refl

later_answer :
    (n : ℕ) → 2 < n → one_row_each (month_request stub props february n) ≡ ok (page_of [])
later_answer n h =
    rw
      (
        numbered-show n "1",
        other_number 1 n "1" shown.0 (omega arith),
        numbered-show n "2",
        other_number 2 n "2" shown.1 h,
      )
      refl

serves :
    (page : ℕ)
    → (res : RowsRes) × (one_row_each (month_request stub props february (page + 1)) ≡ ok res)
      × IsPage (due "a" ∷ due "b" ∷ []) 1 page res
serves zero = (page_of (due "a" ∷ []), first_answer, record { rows = refl; total = refl })
serves (suc zero) = (page_of (due "b" ∷ []), second_answer, record { rows = refl; total = refl })
serves (suc (suc n)) =
    let all : List Row = due "a" ∷ due "b" ∷ [] in
    (
      page_of [],
      later_answer (suc (suc n) + 1) (omega arith),
      record {
        rows =
            sym (drop_past n (due "a") (due "b"))
            ∙ ap (λ k. take 1 (drop k all)) {x = suc (suc n)} (omega arith);
        total = refl;
      },
    )

load_month-all_example :
    load_month stub props february one_row_each ≡ some (ok (due "a" ∷ due "b" ∷ []))
load_month-all_example =
    load_month-all stub props february one_row_each (due "a" ∷ due "b" ∷ []) 1 (omega arith) serves
