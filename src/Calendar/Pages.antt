-- ===== src/Calendar/Pages.antt =====
-- The loop of web/src/components/views/CalendarView.tsx that fetches the rows of a month.
use ku_crud.Base.{
  ℕ, zero, suc, ◌+◌, ◌*◌, ◌≤◌, ◌<◌, ◌≡◌, refl, ap, ◌∙◌, inl, inr, true, false, Option, some, List,
  ◌++◌, arith, ltb, eqb, if◌then◌else◌, Bool-cases, length, take, drop, length-append,
  length-take-le, take-append-drop, take_all, some_left,
}
use mathlib.Core.Path.{subst}
use ku_crud.Value.{Row}
use ku_crud.Types.{RowsRes}
use ku_crud.Server.{IsPage}
use ku_crud.Api.{Json, Request, Result, ok}
use ku_crud.Calendar.{Props, Cursor, month_request, after_rows, load_from, load_month}

module _ (js : Json) (p : Props) (c : Cursor) (server : Request → Result RowsRes) (all : List Row)
    (size : ℕ) (some_size : 0 < size)
    (serves : (page : ℕ)
      → (res : RowsRes) × (server (month_request js p c (page + 1)) ≡ ok res)
        × IsPage all size page res) where
  load_from-step :
      (rounds page total : ℕ) (out : List Row)
      → load_from js p c server (suc rounds) page total out ≡ (
          if ltb (length out) total
          then after_rows out
              (load_from js p c server rounds (page + 1) total)
              (server (month_request js p c page))
          else some (ok out))
  unfolding load_from
  load_from-step rounds page total out = refl

  after_rows-some :
      (out : List Row) (go_on : List Row → Option (Result (List Row))) (res : RowsRes)
      → 0 < length res.rows
      → after_rows out go_on (ok res) ≡ go_on (out ++ res.rows)
  unfolding after_rows
  after_rows-some out go_on res h =
      let more : eqb (length res.rows) 0 ≡ false = ground arith in rw more refl

  length_le : (page : ℕ) (out : List Row) → out ≡ take (page * size) all → length out ≤ length all
  length_le page out pages = rw pages (length-take-le (page * size) all)

  some_rows :
      (page : ℕ) (out : List Row) (res : RowsRes)
      → out ≡ take (page * size) all
      → res.rows ≡ take size (drop (page * size) all)
      → ltb (length out) (length all) ≡ true
      → 0 < length res.rows
  some_rows page out res pages rows more =
      let fewer : length (take (page * size) all) < length all =
        subst (λ o. length o < length all) pages (ground arith) in
      rw rows (some_left (page * size) size all some_size fewer)

  next_pages :
      (page : ℕ) (out : List Row) (res : RowsRes)
      → out ≡ take (page * size) all
      → res.rows ≡ take size (drop (page * size) all)
      → out ++ res.rows ≡ take ((page + 1) * size) all
  next_pages page out res pages rows =
      rw (pages, rows)
        (take-append-drop (page * size) size all ∙ ap (λ n. take n all) (grind arith))

  all_pages :
      (page : ℕ) (out : List Row)
      → out ≡ take (page * size) all
      → ltb (length out) (length all) ≡ false
      → out ≡ all
  all_pages page out pages done =
      pages ∙ take_all (page * size) all (subst (λ o. length all ≤ length o) pages (ground arith))

  load_from-all :
      (rounds page : ℕ) (out : List Row)
      → out ≡ take (page * size) all
      → length all < rounds + length out
      → load_from js p c server rounds (page + 1) (length all) out ≡ some (ok all)
  load_from-all zero page out pages enough = absurd (omega (arith, length_le page out pages))
  load_from-all (suc rounds) page out pages enough =
      rw load_from-step (elim (Bool-cases (ltb (length out) (length all))) [
        | inl more ↦
            let (res, answered, is_page) = serves page in
            let left : 0 < length res.rows = some_rows page out res pages is_page.rows more in
            rw (more, answered, after_rows-some out _ res left)
              (load_from-all rounds (page + 1) (out ++ res.rows)
                (next_pages page out res pages is_page.rows)
                (omega (arith, length-append out res.rows)))
        | inr done ↦ rw done (ap (λ rows. some (ok rows)) (all_pages page out pages done))
      ])

  first_page :
      (res : RowsRes) → res.rows ≡ take size (drop (0 * size) all) → res.rows ≡ take (1 * size) all
  first_page res rows =
      let none_before : 0 * size ≡ 0 = omega arith in
      rows ∙ ap (λ n. take size (drop n all)) none_before ∙ ap (λ n. take n all) (omega arith)

  -- Against a server that answers with the pages of one list, each of `size` rows and with the length
  -- of the list as its total, the loop that fetches the month returns exactly that list: no row is
  -- missing, repeated or out of order, and the rounds suffice.
  pub load_month-all : load_month js p c server ≡ some (ok all)
  unfolding load_month
  load_month-all =
      let (res, answered, is_page) = serves 0 in
      rw (answered, is_page.total)
        (load_from-all (length all + 1) 1 res.rows (first_page res is_page.rows) (omega arith))
