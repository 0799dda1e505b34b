-- ===== src/Calendar/Places.antt =====
-- The placing of rows on days in web/src/components/views/CalendarView.tsx.
use ku_crud.Base.{
  ℕ, zero, suc, ◌+◌, ◌-◌, ◌*◌, ◌≤◌, ◌<◌, String, ◌≡◌, refl, sym, ap, ◌∙◌, inl, inr, Bool, true,
  false, ◌&&◌, Option, none, some, List, [], ◌∷◌, ◌++◌, map, arith, ◌==◌, eq_iff, eq_refl, leb, eqb,
  if◌then◌else◌, Bool-cases, filter,
}
use ku_crud.Base.Assoc.{lookup-insert}
use mathlib.Core.List.{append_assoc, append-nil}
use ku_crud.Value.{Row}
use ku_crud.Calendar.Dates.{
  Day, Moment, IsDay, IsMoment, midnight, day_ms, stamp, number, next_day, key_of,
}
use ku_crud.Calendar.Days.{number-next_day, IsDay-next_day, number-injective}
use ku_crud.Calendar.Keys.{key_of-injective}
use ku_crud.Calendar.{
  Props, Cursor, last_day, days_from, days_shown, Events, events_on, push, place, start_of, end_of,
  spanned, days_between, row_days, place_rows, events_by_date,
}

-- whether a span from the moment t of the day a to the moment e has a moment on the day k that is
-- not after the moment l
unfoldable pub reaches : (a t e l k : ℕ) → Bool
reaches a t e l k =
    let from = if eqb a k then t else k * day_ms in leb a k && leb from e && leb from l

abbrev pub covers : Moment → Moment → Day → Day → Bool
covers start end last k =
    reaches (number start.day) (stamp start) (stamp end) (stamp (midnight last)) (number k)

reaches_not_after : (a t e l k : ℕ) → a * day_ms ≤ t → l < a * day_ms → reaches a t e l k ≡ false
unfolding reaches
reaches_not_after a t e l k low after = ground arith

reaches_here :
    (a t e l k : ℕ) → eqb a k ≡ true → (leb t e && leb t l) ≡ true → reaches a t e l k ≡ true
unfolding reaches
reaches_here a t e l k here there = ground arith

reaches_next_here :
    (a e l k : ℕ) → eqb a k ≡ true → reaches (a + 1) ((a + 1) * day_ms) e l k ≡ false
unfolding reaches
reaches_next_here a e l k here = ground arith

reaches_next :
    (a t e l k : ℕ) → eqb a k ≡ false → reaches (a + 1) ((a + 1) * day_ms) e l k ≡ reaches a t e l k
unfolding reaches
reaches_next a t e l k other = ground arith

reaches_stop :
    (a t e l k : ℕ)
    → t < (a + 1) * day_ms
    → (leb t e && leb t l) ≡ false
    → reaches a t e l k ≡ false
unfolding reaches
reaches_stop a t e l k in_day stop = ground arith

stamp-eq : (m : Moment) → stamp m ≡ number m.day * day_ms + m.time
unfolding stamp
stamp-eq m = refl

abbrev one_if : Bool → Day → List Day
one_if b k = if b then k ∷ [] else []

-- one step of the filter: the day itself, and those after it
joined :
    (a b here : Bool) (d k : Day)
    → (here ≡ true → (d ≡ k) × ((a ≡ true) × (b ≡ false)))
    → (here ≡ false → b ≡ a)
    → (if here then d ∷ one_if b k else one_if b k) ≡ one_if a k
joined a b true d k h g = let (same, (is, none_after)) = h refl in rw (is, none_after, same) refl
joined a b false d k h g = rw (g refl) refl

abbrev kept : Moment → Moment → Day → Bool
kept d end last = leb (stamp d) (stamp end) && leb (stamp d) (stamp (midnight last))

module _ (end : Moment) (last k : Day) (day : IsDay k) where
  abbrev on_key : List Day → List Day
  on_key ds = filter (λ d. key_of d == key_of k) ds

  same_day : (d : Day) → IsDay d → (key_of d == key_of k) ≡ eqb (number d) (number k)
  same_day d h = elim (Bool-cases (eqb (number d) (number k))) [
    | inl same ↦ rw (same, number-injective d k h day (ground arith)) (eq_refl _)
    | inr other ↦ rw other (elim (Bool-cases (key_of d == key_of k)) [
      | inr differ ↦ differ
      | inl e ↦
          let one : number d ≡ number k =
            ap number (key_of-injective d k h day ((eq_iff (key_of d) (key_of k)).0 e)) in
          ground arith
    ])
  ]

  days_from-step :
      (rounds : ℕ) (d : Moment)
      → days_from (suc rounds) end last d ≡ (
          if kept d end last
          then d.day ∷ days_from rounds end last (midnight (next_day d.day))
          else [])
  unfolding days_from
  days_from-step rounds d = refl

  days_from-zero : (d : Moment) → days_from 0 end last d ≡ []
  unfolding days_from
  days_from-zero d = refl

  midnight-IsMoment : (d : Day) → IsDay d → IsMoment (midnight d)
  midnight-IsMoment d h = record { on_day = h; in_day = omega arith }

  -- the days after the first, where the first is kept
  covers_next :
      (d : Moment)
      → IsMoment d
      → covers (midnight (next_day d.day)) end last k
        ≡ reaches
            (number d.day + 1)
            ((number d.day + 1) * day_ms)
            (stamp end)
            (stamp (midnight last))
            (number k)
  covers_next d h =
      rw (stamp-eq (midnight (next_day d.day)), number-next_day d.day h.on_day)
        (ap (λ n. reaches (number d.day + 1) n (stamp end) (stamp (midnight last)) (number k))
          (omega arith))

  days_from-covers :
      (rounds : ℕ) (d : Moment)
      → IsMoment d
      → number last + 1 ≤ rounds + number d.day
      → on_key (days_from rounds end last d) ≡ one_if (covers d end last k) k
  days_from-covers zero d h enough =
      rw
        (
          days_from-zero d,
          reaches_not_after (number d.day) (stamp d) (stamp end) (stamp (midnight last)) (number k)
              (omega (arith, stamp-eq d)) (omega (arith, stamp-eq (midnight last))),
        )
        refl
  days_from-covers (suc rounds) d h enough =
      rw (days_from-step rounds d) (elim (Bool-cases (kept d end last)) [
        | inl stays ↦
            let ih =
              days_from-covers rounds (midnight (next_day d.day))
                (midnight-IsMoment (next_day d.day) (IsDay-next_day d.day h.on_day))
                (omega (arith, number-next_day d.day h.on_day)) in
            rw (stays, same_day d.day h.on_day, ih, covers_next d h)
              (joined _ _ _ d.day k
                (λ here. (
                  number-injective d.day k h.on_day day (ground arith),
                  (
                    reaches_here (number d.day) (stamp d) (stamp end) (stamp (midnight last))
                        (number k) here stays,
                    reaches_next_here (number d.day) (stamp end) (stamp (midnight last)) (number k)
                        here,
                  ),
                ))
                (reaches_next (number d.day) (stamp d) (stamp end) (stamp (midnight last))
                  (number k)))
        | inr stop ↦
            rw
              (
                stop,
                reaches_stop (number d.day) (stamp d) (stamp end) (stamp (midnight last)) (number k)
                    (omega (arith, stamp-eq d, h.in_day)) stop,
              )
              refl
      ])

days_shown-eq :
    (c : Cursor) (start end : Moment)
    → days_shown c start end
      ≡ days_from (number (last_day c) + 1 - number start.day) end (last_day c) start
unfolding days_shown
days_shown-eq c start end = refl

events_on-push :
    (asked k : String) (row : Row) (m : Events)
    → events_on asked (push k row m) ≡ events_on asked m ++ (if k == asked then row ∷ [] else [])
unfolding push
events_on-push asked k row m = elim (Bool-cases (k == asked)) [
  | inl same ↦ simp (lookup-insert, (eq_iff k asked).0 same, eq_refl) refl
  | inr other ↦ simp (lookup-insert, other) (sym (append-nil _))
]

events_on-place :
    (k : Day) (row : Row) (ds : List Day) (m : Events)
    → events_on (key_of k) (place row ds m)
      ≡ events_on (key_of k) m ++ map (λ d. row) (filter (λ d. key_of d == key_of k) ds)
unfolding place
events_on-place k row [] m = sym (append-nil _)
events_on-place k row (d ∷ ds) m =
    events_on-place k row ds (push (key_of d) row m)
    ∙ ap (λ rs. rs ++ map (λ d. row) (filter (λ d. key_of d == key_of k) ds))
        (events_on-push (key_of k) (key_of d) row m)
    ∙ append_assoc (events_on (key_of k) m) _ _
    ∙ ap (λ rs. events_on (key_of k) m ++ rs)
        (elim (Bool-cases (key_of d == key_of k)) [ inl e ↦ rw e refl | inr e ↦ rw e refl ])

module _ (parse : String → Option Moment) (p : Props) (c : Cursor) where
  abbrev covers_in : Day → Moment → Option Moment → Bool
  covers_in k start none = false
  covers_in k start (some end) = covers start end (last_day c) k

  abbrev is_from : Day → Row → Option Moment → Bool
  is_from k row none = false
  is_from k row (some start) = covers_in k start (end_of parse p row start)

  -- Whether a row is an event of a day: it has a start, its end (its own, or else the start) is a date,
  -- and from its start to its end it has a moment on that day, not after the midnight that the last
  -- day of the month begins with.
  abbrev pub is_on : Day → Row → Bool
  is_on k row = is_from k row (start_of parse p row)

  row_days-eq :
      (row : Row) → row_days parse p c row ≡ days_between parse p c row (start_of parse p row)
  unfolding row_days
  row_days-eq row = refl

  abbrev none_or : Bool → Row → List Row
  none_or b row = if b then row ∷ [] else []

  shown_rows :
      (k : Day) (row : Row) (start end : Moment)
      → IsDay k
      → IsMoment start
      → map (λ d. row) (filter (λ d. key_of d == key_of k) (days_shown c start end))
        ≡ none_or (covers start end (last_day c) k) row
  shown_rows k row start end day h =
      rw
        (
          days_shown-eq c start end,
          days_from-covers end (last_day c) k day (number (last_day c) + 1 - number start.day) start
              h (omega arith),
        )
        (elim (Bool-cases (covers start end (last_day c) k)) [
          | inl e ↦ rw e refl
          | inr e ↦ rw e refl
        ])

  spanned-covers_in :
      (k : Day) (row : Row) (start : Moment) (end : Option Moment)
      → IsDay k
      → IsMoment start
      → map (λ d. row) (filter (λ d. key_of d == key_of k) (spanned parse c start end))
        ≡ none_or (covers_in k start end) row
  spanned-covers_in k row start none day h = refl
  spanned-covers_in k row start (some end) day h = shown_rows k row start end day h

  days_between-is_from :
      (k : Day) (row : Row) (start : Option Moment)
      → IsDay k
      → ((d : Moment) → start ≡ some d → IsMoment d)
      → map (λ d. row) (filter (λ d. key_of d == key_of k) (days_between parse p c row start))
        ≡ none_or (is_from k row start) row
  days_between-is_from k row none day valid = refl
  days_between-is_from k row (some start) day valid =
      spanned-covers_in k row start (end_of parse p row start) day (valid start refl)

  row_days-is_on :
      (k : Day) (row : Row)
      → IsDay k
      → ((s : String) (d : Moment) → parse s ≡ some d → IsMoment d)
      → map (λ d. row) (filter (λ d. key_of d == key_of k) (row_days parse p c row))
        ≡ none_or (is_on k row) row
  row_days-is_on k row day valid =
      rw (row_days-eq row)
        (days_between-is_from k row (start_of parse p row) day (λ d e. valid _ d e))

  events_on-place_rows :
      (k : Day) (rows : List Row) (m : Events)
      → IsDay k
      → ((s : String) (d : Moment) → parse s ≡ some d → IsMoment d)
      → events_on (key_of k) (place_rows parse p c rows m)
        ≡ events_on (key_of k) m ++ filter (is_on k) rows
  unfolding place_rows
  events_on-place_rows k [] m day valid = sym (append-nil _)
  events_on-place_rows k (row ∷ rows) m day valid =
      events_on-place_rows k rows _ day valid
      ∙ ap (λ rs. rs ++ filter (is_on k) rows)
          (events_on-place k row (row_days parse p c row) m
            ∙ ap (λ rs. events_on (key_of k) m ++ rs) (row_days-is_on k row day valid))
      ∙ append_assoc (events_on (key_of k) m) _ _
      ∙ ap (λ rs. events_on (key_of k) m ++ rs)
          (elim (Bool-cases (is_on k row)) [ inl e ↦ rw e refl | inr e ↦ rw e refl ])

  -- Where only dates are parsed, a day of the calendar has exactly the rows that are events of the
  -- day, in the order in which they are fetched and each once: those whose start is a date and whose
  -- end (their own, or else the start) is one, and which between the two have a moment on that day
  -- that is not after the midnight with which the last day of the month begins.
  pub events_on-events_by_date :
      (k : Day) (rows : List Row)
      → IsDay k
      → ((s : String) (d : Moment) → parse s ≡ some d → IsMoment d)
      → events_on (key_of k) (events_by_date parse p c rows) ≡ filter (is_on k) rows
  unfolding events_by_date
  events_on-events_by_date k rows day valid = events_on-place_rows k rows [] day valid
