-- ===== src/Kanban/Races.antt =====
-- Requests and late answers in web/src/components/views/KanbanView.tsx.
use ku_crud.Base.{ℕ, String, ◌≡◌, ◌≢◌, false, some, List, ◌++◌, arith, eq_iff, eq_refl}
use ku_crud.Base.Assoc.{lookup, lookup-insert}
use ku_crud.Value.{Row}
use ku_crud.Api.{Json, Request}
use ku_crud.Kanban.{Props, PerCol, page_request, load_more, loaded_more, refresh_col, refreshed}

-- The requests of a column with a value do not depend on the filters that are active on the page:
-- only the column without a value sends them.
page_request-filters :
    (js : Json) (p : Props) (filters value : String) (page : ℕ)
    → value ≢ ""
    → page_request js (record p { filters = filters }) value page ≡ page_request js p value page
unfolding page_request
page_request-filters js p filters value page named = ground (arith, eq_iff value "")

-- The answer to a load that began before the column was refreshed is appended when it comes, whatever
-- it was asked with: the column then holds the refreshed rows followed by the stale ones, and counts
-- two pages.
loaded_more-refreshed :
    (js : Json) (p : Props) (v : String) (per_col waiting : PerCol) (r : Request)
    (fresh stale : List Row) (total stale_total : ℕ)
    → load_more js p v per_col ≡ some (waiting, r)
    → lookup v
        (loaded_more v stale stale_total (refreshed v fresh total (refresh_col js p v waiting).0))
      ≡ some (record { rows = fresh ++ stale; page = 2; total = stale_total; loading = false })
unfolding refreshed loaded_more
loaded_more-refreshed js p v per_col waiting r fresh stale total stale_total started =
    simp (lookup-insert, eq_refl)
