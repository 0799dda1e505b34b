-- ===== src/Data/Query/Laws.antt =====
-- The loop of web/src/pages/Data.tsx that fetches all rows for a grouped grid.
use ku_crud.Base.{
  ℕ, zero, suc, ◌+◌, ◌≤◌, ◌<◌, String, ◌≡◌, refl, ◌⊎◌, inl, inr, true, false, some, [], ◌++◌, arith,
  leb, Bool-cases, length, length-append,
}
use mathlib.Core.Option.{some-injective}
use mathlib.Core.Path.{subst}
use ku_crud.Types.{RowsRes}
use ku_crud.Api.{Json, Request, Result, ok, err}
use ku_crud.Data.Session.{Session}
use ku_crud.Data.Query.{
  Grouped, cap, collect, is_last, after_page, grouped_request, fetch_from, fetch_grouped,
}
use ku_crud.Data.Query.Loop.{answer, first_pages, collected_pages}
use ku_crud.Data.Query.Failed.{IsFailed, fetch_from-IsFailed}

ok_inj : {g h : Grouped} → ok g ≡ ok h → g ≡ h
ok_inj e = cc

module _ (js : Json) (name : String) (s : Session) (server : Request → Result RowsRes) where
  length-collect :
      (acc : Grouped) (res : RowsRes)
      → length (collect acc res).rows ≡ length acc.rows + length res.rows
  unfolding collect
  length-collect acc res = length-append acc.rows res.rows

  -- An answer that is not the last adds a row, and leaves fewer than the cap.
  grows :
      (acc : Grouped) (res : RowsRes)
      → is_last (collect acc res) res ≡ false
      → (length acc.rows < length (collect acc res).rows) × (length (collect acc res).rows < cap)
  unfolding is_last
  grows acc res more = ground (arith, length-collect acc res)

  fetch_from_total :
      (rounds page : ℕ) (acc : Grouped)
      → length acc.rows < cap
      → cap < rounds + length acc.rows
      → (r : Result Grouped) × (fetch_from js name s server rounds page acc ≡ some r)
  unfolding fetch_from after_page
  fetch_from_total zero page acc few enough = absurd (omega arith)
  fetch_from_total (suc rounds) page acc few enough =
      by_answer (server (grouped_request js name s page)) (fetch_from_total rounds (page + 1))
    where
      by_answer :
          (a : Result RowsRes)
          → ((next : Grouped)
              → length next.rows < cap
              → cap < rounds + length next.rows
              → (r : Result Grouped) × (fetch_from js name s server rounds (page + 1) next
                  ≡ some r))
          → (r : Result Grouped) × (after_page acc (fetch_from js name s server rounds (page + 1)) a
              ≡ some r)
      by_answer (err e) ih = (err e, refl)
      by_answer (ok res) ih = elim (Bool-cases (is_last (collect acc res) res)) [
        | inl last ↦ (ok (collect acc res), rw last)
        | inr more ↦
            let (added, below) = grows acc res more in
            rw more (ih (collect acc res) below (omega arith))
      ]

  -- What a finished loop has fetched: the first pages of the server, the last of them `last`; it is
  -- marked as truncated exactly when it has reached the cap, it passes the cap by less than one page,
  -- and where it is not marked the last answer had no rows or its total is reached.
  pub record IsComplete (size : ℕ) (g : Grouped) : Type 0 where
    pub before : ℕ
    pub last : RowsRes
    pub answered : server (grouped_request js name s (before + 1)) ≡ ok last
    pub pages : g.rows ≡ first_pages js name s server (suc before)
    pub marked : g.truncated ≡ leb cap (length g.rows)
    pub bounded : length g.rows < cap + size
    pub complete : (g.truncated ≡ true) ⊎ ((last.total ≤ length g.rows) ⊎ (length last.rows ≡ 0))

  collected :
      (size before : ℕ) (acc : Grouped) (res : RowsRes)
      → acc.rows ≡ first_pages js name s server before
      → answer js name s server (before + 1) ≡ ok res
      → length acc.rows < cap
      → length res.rows ≤ size
      → is_last (collect acc res) res ≡ true
      → IsComplete size (collect acc res)
  unfolding collect is_last
  collected size before acc res rows same few small last = record {
    before = before;
    last = res;
    answered = same;
    pages = collected_pages js name s server before acc res rows same;
    marked = refl;
    bounded = omega (arith, length-append acc.rows res.rows);
    complete = elim (Bool-cases (leb cap (length (acc.rows ++ res.rows)))) [
      | inl full ↦ inl full
      | inr part ↦ inr (ground arith)
    ];
  }

  fetch_from-IsComplete :
      (size rounds before page : ℕ) (acc : Grouped) {g : Grouped}
      → ((r : Request) (res : RowsRes) → server r ≡ ok res → length res.rows ≤ size)
      → page ≡ before + 1
      → acc.rows ≡ first_pages js name s server before
      → length acc.rows < cap
      → fetch_from js name s server rounds page acc ≡ some (ok g)
      → IsComplete size g
  unfolding fetch_from after_page
  fetch_from-IsComplete size zero before page acc small here rows few e = cc
  fetch_from-IsComplete size (suc rounds) before page acc {g} small here rows few e =
      by_answer (answer js name s server page) refl
        (λ next pages below.
          fetch_from-IsComplete size rounds (suc before) (page + 1) next small (omega arith) pages
            below)
        e
    where
      by_answer :
          (a : Result RowsRes)
          → answer js name s server page ≡ a
          → ((next : Grouped)
              → next.rows ≡ first_pages js name s server (suc before)
              → length next.rows < cap
              → fetch_from js name s server rounds (page + 1) next ≡ some (ok g)
              → IsComplete size g)
          → after_page acc (fetch_from js name s server rounds (page + 1)) a ≡ some (ok g)
          → IsComplete size g
      by_answer (err x) same ih h = cc
      by_answer (ok res) same ih h =
          let there : answer js name s server (before + 1) ≡ ok res =
            subst (λ k. answer js name s server k ≡ ok res) here same in
          elim (Bool-cases (is_last (collect acc res) res)) [
            | inl last ↦
                subst (IsComplete size) (ok_inj (some-injective _ _ (rw last at h)))
                  (collected size before acc res rows there few (small _ res same) last)
            | inr more ↦
                ih (collect acc res) (collected_pages js name s server before acc res rows there)
                  (grows acc res more).1 (rw more at h)
          ]

  start : Grouped
  start = record { rows = []; truncated = false; rels = []; m2m_rels = [] }

  -- what the fetch may end with: the error that the server answered a page with, or complete rows
  abbrev pub IsFinished : ℕ → Result Grouped → Type 0
  IsFinished size (err e) = IsFailed js name s server e
  IsFinished size (ok g) = IsComplete size g

  IsFinished-fetch_grouped :
      (size : ℕ) (a : Result Grouped)
      → ((r : Request) (res : RowsRes) → server r ≡ ok res → length res.rows ≤ size)
      → fetch_from js name s server (cap + 1) 1 start ≡ some a
      → IsFinished size a
  IsFinished-fetch_grouped size (err e) small found =
      fetch_from-IsFailed js name s server (cap + 1) 0 1 start (omega arith) (unfold start in refl)
        (λ k h. absurd (omega arith)) found
  IsFinished-fetch_grouped size (ok g) small found =
      fetch_from-IsComplete size (cap + 1) 0 1 start small (omega arith) (unfold start in refl)
        (unfold start in omega arith) found

  -- Where no answer has more than `size` rows, the fetch for a grouped grid ends in one of two ways. It
  -- may end with the error that the server answered the next page with, after pages that it answered,
  -- none of which ended the fetch. Or it ends with the rows of the server's first pages, one after
  -- the other, which are fewer than the cap of 2000 plus one page; they are marked as truncated
  -- exactly when they reach the cap, and otherwise the last of these answers had no rows or a total
  -- that they reach.
  pub fetch_grouped_total :
      (size : ℕ)
      → ((r : Request) (res : RowsRes) → server r ≡ ok res → length res.rows ≤ size)
      → (a : Result Grouped) × (fetch_grouped js name s server ≡ some a) × IsFinished size a
  unfolding fetch_grouped
  fetch_grouped_total size small =
      let (a, found) =
        fetch_from_total (cap + 1) 1 start (unfold start in omega arith)
          (unfold start in omega arith) in
      (a, unfold start in found, IsFinished-fetch_grouped size a small found)
