-- ===== src/Kanban/Pages.antt =====
-- The loading of a column of web/src/components/views/KanbanView.tsx. The server answers a request
-- with rows and a total.
use ku_crud.Base.{
  ℕ, zero, suc, ◌+◌, ◌≤◌, ◌<◌, String, ◌≡◌, refl, inl, inr, true, false, Option, none, some, List,
  [], ◌++◌, arith, eq_refl, Bool-cases, length, length-append,
}
use ku_crud.Base.Assoc.{lookup, lookup-insert}
use native.Mathlib.Numerals.{add-one}
use ku_crud.Value.{Row}
use ku_crud.Api.{Json, Request}
use ku_crud.Kanban.{
  Props, PerCol, ColState, col_cap, may_load, page_request, page_rows, load_more, loaded_more,
  refresh_col, refreshed,
}

module _ (js : Json) (p : Props) (v : String) (server : Request → List Row × ℕ) where
  -- `loadMore` with the server's answer
  abbrev after_answer : PerCol → Option (PerCol × Request) → PerCol
  after_answer per_col none = per_col
  after_answer per_col (some (waiting, r)) =
      loaded_more v (page_rows p v (server r).0) (server r).1 waiting

  unfoldable pub load_once : PerCol → PerCol
  load_once per_col = after_answer per_col (load_more js p v per_col)

  -- `refreshCol` with the server's answer, and then so many times `loadMore`
  unfoldable pub loads : ℕ → PerCol → PerCol
  loads zero per_col =
      let (waiting, r) = refresh_col js p v per_col in
      refreshed v (page_rows p v (server r).0) (server r).1 waiting
  loads (suc n) per_col = load_once (loads n per_col)

  abbrev page : ℕ → List Row
  page k = page_rows p v (server (page_request js p v k)).0

  -- the first k pages
  abbrev pub first_pages : ℕ → List Row
  first_pages zero = []
  first_pages (suc k) = first_pages k ++ page (suc k)

  pub record IsLoaded (size : ℕ) (o : Option ColState) : Type 0 where
    pub st : ColState
    pub there : o ≡ some st
    pub idle : st.loading ≡ false
    pub pages : st.rows ≡ first_pages st.page
    pub capped : length st.rows < col_cap + size

  module _ (size : ℕ) (some_size : 0 < size) (small : (k : ℕ) → length (page k) ≤ size) where
    abbrev grown : ColState → ColState
    grown st = record {
      rows = st.rows ++ page (st.page + 1);
      page = st.page + 1;
      total = (server (page_request js p v (st.page + 1))).1;
      loading = false;
    }

    grown-IsLoaded :
        (st : ColState)
        → may_load (some st) ≡ true
        → st.rows ≡ first_pages st.page
        → IsLoaded size (some (grown st))
    grown-IsLoaded st go pages = record {
      st = grown st;
      there = refl;
      idle = refl;
      pages = rw (add-one, pages);
      capped = rw length-append (let full = small (st.page + 1) in ground arith);
    }

    load_once-IsLoaded :
        (per_col : PerCol)
        → IsLoaded size (lookup v per_col)
        → IsLoaded size (lookup v (load_once per_col))
    unfolding load_once load_more loaded_more
    load_once-IsLoaded per_col h = elim (Bool-cases (may_load (lookup v per_col))) [
      | inr stop ↦ rw stop h
      | inl go ↦
          rw go (
            simp (lookup-insert, eq_refl, h.there) (grown-IsLoaded h.st (rw h.there at go) h.pages))
    ]

    -- Where no page has more than `size` rows, a column that is refreshed and then asked any number of
    -- times for more holds exactly the first pages of its query, in order, as many as it counts, it is
    -- not left loading, and it stays below the cap of 2000 rows but for the last page.
    pub loads-IsLoaded : (n : ℕ) (per_col : PerCol) → IsLoaded size (lookup v (loads n per_col))
    unfolding loads refresh_col refreshed
    loads-IsLoaded zero per_col =
        simp (lookup-insert, eq_refl)
          (record {
            st = _;
            there = refl;
            idle = refl;
            pages = refl;
            capped = let full = small 1 in omega arith;
          })
    loads-IsLoaded (suc n) per_col = load_once-IsLoaded (loads n per_col) (loads-IsLoaded n per_col)
