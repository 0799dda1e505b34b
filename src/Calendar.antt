-- ===== src/Calendar.antt =====
-- web/src/components/views/CalendarView.tsx: the month that is shown, the request for its rows and
-- the loop that fetches them, the cells of the grid, and the placing of rows on days. How a text is
-- read as a date depends on the engine and its time zone, and is the parameter `parse`; none stands
-- for an invalid date, which no comparison holds of.
pub mod Dates
pub mod Days
pub mod Keys
pub mod Places
pub mod Pages
pub mod Grid
use ku_crud.Base.{
  ℕ, zero, suc, ◌+◌, ◌-◌, ◌%◌, String, not, ◌&&◌, Option, none, some, List, [], ◌∷◌, ◌++◌, ◌==◌,
  ltb, leb, eqb, if◌then◌else◌, or_else, length, take, find,
}
use ku_crud.Base.Assoc.{Assoc, lookup, insert}
use ku_crud.Base.Text.{show, template}
use ku_crud.Types.{ColumnDef, TableDefPayload, RowsRes}
use ku_crud.Api.{Json, Request, get, no_body, Result, ok, err}
use ku_crud.FilterBar.{ActiveFilter, between, serialize_filters}
use ku_crud.I18n.{Lang}
use ku_crud.Value.{Row, cell, is_nullish, to_text}
use ku_crud.Data.Display.{Intl, format_cell}
use ku_crud.Calendar.Dates.{
  Day, Moment, midnight, month_length, week_day, stamp, number, next_day, key_of,
}

-- the month that is shown, and `moveMonth(-1)` and `moveMonth(1)`
pub record Cursor : Type 0 where
  pub y : ℕ
  pub m : ℕ

unfoldable pub next_month : Cursor → Cursor
next_month c = if ltb c.m 11 then record c { m = c.m + 1 } else record { y = c.y + 1; m = c.m - 11 }

unfoldable pub previous_month : Cursor → Cursor
previous_month c = if eqb c.m 0 then record { y = c.y - 1; m = 11 } else record c { m = c.m - 1 }

-- `first`, `last`, which is also `monthEnd`
abbrev pub first_day : Cursor → Day
first_day c = record { year = c.y; month = c.m; date = 1 }

unfoldable pub last_day : Cursor → Day
unfolding month_length
last_day c = record { year = c.y; month = c.m; date = month_length c.y c.m }

-- the filters that are sent: those of the page, and the month on the start column
unfoldable pub month_filters : Cursor → ColumnDef → List ActiveFilter → List ActiveFilter
unfolding last_day key_of
month_filters c start_col filters =
    filters
    ++ record {
      column = start_col.name;
      op = between;
      values = key_of (first_day c) ∷ key_of (last_day c) ∷ [];
    }
      ∷ []

pub record Props : Type 0 where
  pub table : TableDefPayload
  pub start_col : ColumnDef
  pub end_col : Option ColumnDef
  pub filters : List ActiveFilter
  pub search : String
  pub page_size : ℕ

-- `if (text) q.set(name, text)`
abbrev optional : String → String → Assoc String
optional name text = if text == "" then [] else (name, text) ∷ []

-- `set` of a parameter that is there replaces it where it stands, so `q2` keeps the order.
unfoldable pub month_request : Json → Props → Cursor → ℕ → Request
unfolding month_filters serialize_filters show
month_request js p c page = record {
  method = get;
  path = template (
      "/data/"
      ∷ (if p.table.table_name == "" then p.table.id else p.table.table_name)
      ∷ "/rows"
      ∷ []);
  query =
      optional "filters" (serialize_filters js (month_filters c p.start_col p.filters))
      ++ optional "search" p.search
      ++ ("page", show page) ∷ ("limit", show p.page_size) ∷ [];
  body = no_body;
}

-- one answer of the loop: an answer without rows ends it
unfoldable pub after_rows :
    List Row → (List Row → Option (Result (List Row))) → Result RowsRes → Option (Result (List Row))
after_rows out go_on (err e) = some (err e)
after_rows out go_on (ok cur) =
    let rest = go_on (out ++ cur.rows) in
    if eqb (length cur.rows) 0 then some (ok (out ++ cur.rows)) else rest

module _ (js : Json) (p : Props) (c : Cursor) (server : Request → Result RowsRes) where
  -- the loop from a page on; none where the rounds do not suffice
  unfoldable pub load_from : (rounds page total : ℕ) → List Row → Option (Result (List Row))
  unfolding after_rows
  load_from zero page total out = none
  load_from (suc rounds) page total out =
      let rest =
        after_rows out (load_from rounds (page + 1) total) (server (month_request js p c page)) in
      if ltb (length out) total then rest else some (ok out)

  -- `queryFn`. Each round but the last adds a row, and only the total of the first answer counts.
  abbrev load_first : Result RowsRes → Option (Result (List Row))
  load_first (err e) = some (err e)
  load_first (ok res) = load_from (res.total + 1) 2 res.total res.rows

  unfoldable pub load_month : Option (Result (List Row))
  unfolding load_from
  load_month = load_first (server (month_request js p c 1))

-- `startOffset`, and `cells`; none is a cell before the first day
unfoldable pub start_offset : Cursor → ℕ
unfolding week_day
start_offset c = (week_day (first_day c) + 6) % 7

abbrev blanks : ℕ → List (Option Day) → List (Option Day)
blanks zero rest = rest
blanks (suc n) rest = none ∷ blanks n rest

-- the days of a month from a date on, as many as are said
abbrev dates_from : Cursor → ℕ → ℕ → List (Option Day)
dates_from c zero d = []
dates_from c (suc n) d =
    some (record { year = c.y; month = c.m; date = d }) ∷ dates_from c n (d + 1)

unfoldable pub cells : Cursor → List (Option Day)
unfolding start_offset month_length
cells c = blanks (start_offset c) (dates_from c (month_length c.y c.m) 1)

-- the days of the inner loop of `eventsByDate`
unfoldable pub days_from : ℕ → Moment → Day → Moment → List Day
unfolding stamp next_day
days_from zero end last d = []
days_from (suc rounds) end last d =
    let rest = days_from rounds end last (midnight (next_day d.day)) in
    if leb (stamp d) (stamp end) && leb (stamp d) (stamp (midnight last)) then d.day ∷ rest else []

-- There are as many rounds as days from the start to the end of the month.
unfoldable pub days_shown : Cursor → Moment → Moment → List Day
unfolding days_from last_day number
days_shown c start end =
    days_from (number (last_day c) + 1 - number start.day) end (last_day c) start

abbrev pub Events : Type 0
Events = Assoc (List Row)

-- `eventsByDate[k] ?? []`
abbrev pub events_on : String → Events → List Row
events_on k m = or_else (lookup k m) []

-- `(map[k] = map[k] ?? []).push(row)`
unfoldable pub push : String → Row → Events → Events
unfolding lookup insert
push k row m = insert k (events_on k m ++ row ∷ []) m

unfoldable pub place : Row → List Day → Events → Events
unfolding push key_of
place row [] m = m
place row (d ∷ ds) m = place row ds (push (key_of d) row m)

module _ (parse : String → Option Moment) where
  abbrev pub start_of : Props → Row → Option Moment
  start_of p row = parse (to_text (cell row p.start_col.name))

  -- the end of a row: its own, and its start where it has none
  abbrev end_in : Option ColumnDef → Row → Moment → Option Moment
  end_in none row start = some start
  end_in (some c) row start =
      if is_nullish (cell row c.name) then some start else parse (to_text (cell row c.name))

  abbrev pub end_of : Props → Row → Moment → Option Moment
  end_of p row start = end_in p.end_col row start

  abbrev pub spanned : Cursor → Moment → Option Moment → List Day
  spanned c start none = []
  spanned c start (some end) = days_shown c start end

  -- an invalid start is skipped
  abbrev pub days_between : Props → Cursor → Row → Option Moment → List Day
  days_between p c row none = []
  days_between p c row (some start) = spanned c start (end_of p row start)

  unfoldable pub row_days : Props → Cursor → Row → List Day
  unfolding cell to_text days_shown
  row_days p c row = days_between p c row (start_of p row)

  unfoldable pub place_rows : Props → Cursor → List Row → Events → Events
  unfolding place row_days
  place_rows p c [] m = m
  place_rows p c (row ∷ rows) m = place_rows p c rows (place row (row_days p c row) m)

  unfoldable pub events_by_date : Props → Cursor → List Row → Events
  unfolding place_rows
  events_by_date p c rows = place_rows p c rows []

-- the rows that a day shows, and how many more it says there are
unfoldable pub shown_events : List Row → List Row × Option ℕ
shown_events rows = (take 3 rows, if ltb 3 (length rows) then some (length rows - 3) else none)

-- the title of a row
unfoldable pub title : Intl → Lang → Props → Row → String
unfolding cell to_text format_cell
title intl lang p row =
    elim (find (λ x. x.visible && not (x.name == p.start_col.name) && not x.is_computed)
      p.table.columns) [
        | some c ↦ format_cell intl lang c (cell row c.name)
        | none ↦ to_text (cell row p.start_col.name)
      ]

-- what a click on a day hands to `onDayCreate`
unfoldable pub day_create : Day → String
unfolding key_of
day_create d = template (key_of d ∷ "T00:00" ∷ [])
