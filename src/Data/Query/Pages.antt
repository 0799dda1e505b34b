-- ===== src/Data/Query/Pages.antt =====
-- The loop of web/src/pages/Data.tsx that fetches all rows for a grouped grid, where the server's
-- answers are the pages of one list.
use ku_crud.Base.{
  ℕ, zero, suc, ◌+◌, ◌*◌, ◌≤◌, ◌<◌, String, ◌≡◌, refl, ap, ◌∙◌, ◌⊎◌, inl, inr, true, false, some,
  List, [], arith, leb, Bool-cases, length, take, length-append, take-append-drop, some_left,
  length-take-count, length-take, take_more, leb-take,
}
use mathlib.Core.Path.{subst}
use ku_crud.Value.{Row}
use ku_crud.Types.{RowsRes}
use ku_crud.Api.{Json, Request, Result, ok}
use ku_crud.Server.{IsPage}
use ku_crud.Data.Session.{Session}
use ku_crud.Data.Query.{
  Grouped, cap, collect, is_last, after_page, grouped_request, fetch_from, fetch_grouped,
}

-- The rows that a grouped grid is meant to have: all of them, up to the cap, and the mark that there
-- may be more.
pub record IsCapped (all : List Row) (g : Grouped) : Type 0 where
  pub rows : g.rows ≡ take cap all
  pub truncated : g.truncated ≡ leb cap (length all)

module _ (all : List Row) where
  -- the rows after k pages, where the loop has ended
  capped :
      (n : ℕ) (g : Grouped)
      → g.rows ≡ take n all
      → g.truncated ≡ leb cap (length g.rows)
      → n ≤ cap
      → (n ≡ cap) ⊎ (length all ≤ length (take n all))
      → IsCapped all g
  capped n g rows marked within ends =
      let same : take n all ≡ take cap all = elim ends [
        | inl e ↦ ap (λ m. take m all) e
        | inr le ↦ take_more n cap all within le
      ] in
      record { rows = rows ∙ same; truncated = marked ∙ rw (rows, same) (leb-take cap all) }

  collected :
      (k : ℕ) (acc : Grouped) (res : RowsRes)
      → acc.rows ≡ take (k * 200) all
      → IsPage all 200 k res
      → (collect acc res).rows ≡ take ((k + 1) * 200) all
  unfolding collect
  collected k acc res rows is_page =
      rw (rows, is_page.rows)
        (take-append-drop (k * 200) 200 all ∙ ap (λ n. take n all) (grind arith))

  -- While rows are missing, the answer has some.
  some_rows :
      (k : ℕ) (acc : Grouped) (res : RowsRes)
      → acc.rows ≡ take (k * 200) all
      → IsPage all 200 k res
      → length (collect acc res).rows < length all
      → 0 < length res.rows
  unfolding collect
  some_rows k acc res rows is_page goes_on =
      let fewer : length acc.rows < length all = omega (arith, length-append acc.rows res.rows) in
      rw is_page.rows
        (some_left (k * 200) 200 all (omega arith) (subst (λ o. length o < length all) rows fewer))

  full_page :
      (acc : Grouped) (res : RowsRes)
      → is_last (collect acc res) res ≡ true
      → 0 < length res.rows
      → length (collect acc res).rows < res.total
      → cap ≤ length (collect acc res).rows
  unfolding is_last
  full_page acc res last some_left goes_on = ground arith

  part_page :
      (acc : Grouped) (res : RowsRes)
      → is_last (collect acc res) res ≡ false
      → (length (collect acc res).rows < cap) × (length (collect acc res).rows < res.total)
  unfolding is_last
  part_page acc res more = ground arith

  collected_last :
      (k : ℕ) (acc : Grouped) (res : RowsRes)
      → k < 10
      → acc.rows ≡ take (k * 200) all
      → IsPage all 200 k res
      → is_last (collect acc res) res ≡ true
      → IsCapped all (collect acc res)
  collected_last k acc res early rows is_page last =
      let there = collected k acc res rows is_page in
      capped ((k + 1) * 200) (collect acc res) there (unfold collect in refl) (omega arith)
        (elim (Bool-cases (leb (length all) (length (take ((k + 1) * 200) all)))) [
          | inl ends ↦ inr (ground arith)
          | inr more ↦
              let goes_on : length (collect acc res).rows < length all = rw there (ground arith) in
              let full : cap ≤ length (collect acc res).rows =
                full_page acc res last (some_rows k acc res rows is_page goes_on)
                  (omega (arith, is_page.total)) in
              let taken : cap ≤ length (take ((k + 1) * 200) all) =
                subst (λ o. cap ≤ length o) there full in
              inl (omega (arith, length-take-count ((k + 1) * 200) all))
        ])

  collected_more :
      (k : ℕ) (acc : Grouped) (res : RowsRes)
      → k < 10
      → acc.rows ≡ take (k * 200) all
      → IsPage all 200 k res
      → is_last (collect acc res) res ≡ false
      → k + 1 < 10
  collected_more k acc res early rows is_page more =
      let (below, goes_on) = part_page acc res more in
      let there = collected k acc res rows is_page in
      let taken : length (take ((k + 1) * 200) all) < cap =
        subst (λ o. length o < cap) there below in
      let left : length (take ((k + 1) * 200) all) < length all =
        subst (λ o. length o < length all) there (omega (arith, is_page.total)) in
      omega (arith, length-take ((k + 1) * 200) all left)

module _ (js : Json) (name : String) (s : Session) (server : Request → Result RowsRes)
    (all : List Row)
    (serves : (page : ℕ)
      → (res : RowsRes) × (server (grouped_request js name s (page + 1)) ≡ ok res)
        × IsPage all 200 page res) where
  fetch_from-IsCapped :
      (rounds k : ℕ) (acc : Grouped)
      → k < 10
      → 10 ≤ rounds + k
      → acc.rows ≡ take (k * 200) all
      → (g : Grouped) × (fetch_from js name s server rounds (k + 1) acc ≡ some (ok g))
        × IsCapped all g
  unfolding fetch_from after_page
  fetch_from-IsCapped zero k acc early enough rows = absurd (omega arith)
  fetch_from-IsCapped (suc rounds) k acc early enough rows =
      let (res, answered, is_page) = serves k in
      elim (Bool-cases (is_last (collect acc res) res)) [
        | inl last ↦ (
          collect acc res,
          rw (answered, last) refl,
          collected_last all k acc res early rows is_page last,
        )
        | inr more ↦
            rw (answered, more)
              (fetch_from-IsCapped rounds (k + 1) (collect acc res)
                (collected_more all k acc res early rows is_page more) (omega arith)
                (collected all k acc res rows is_page))
      ]

  -- Against a server that answers with the pages of one list, each of 200 rows and with the length of
  -- the list as its total, the fetch for a grouped grid succeeds with exactly the first 2000 rows of
  -- that list, or all where there are fewer, in their order, and marks them as truncated exactly where
  -- the list has 2000 rows or more.
  pub fetch_grouped-IsCapped :
      (g : Grouped) × (fetch_grouped js name s server ≡ some (ok g)) × IsCapped all g
  unfolding fetch_grouped
  fetch_grouped-IsCapped =
      fetch_from-IsCapped (cap + 1) 0
        (record { rows = []; truncated = false; rels = []; m2m_rels = [] }) (omega arith)
        (omega arith) refl
