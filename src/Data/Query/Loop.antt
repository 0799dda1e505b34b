-- ===== src/Data/Query/Loop.antt =====
-- The pages that the loop of web/src/pages/Data.tsx for a grouped grid has fetched.
use ku_crud.Base.{List, ℕ, zero, suc, ◌+◌, String, ◌≡◌, refl, [], ◌++◌}
use ku_crud.Value.{Row}
use ku_crud.Types.{RowsRes}
use ku_crud.Api.{Json, Request, Result, ok, err}
use ku_crud.Data.Session.{Session}
use ku_crud.Data.Query.{Grouped, collect, grouped_request}

module _ (js : Json) (name : String) (s : Session) (server : Request → Result RowsRes) where
  abbrev rows_of : Result RowsRes → List Row
  rows_of (err e) = []
  rows_of (ok res) = res.rows

  abbrev pub answer : ℕ → Result RowsRes
  answer page = server (grouped_request js name s page)

  -- the rows of the first n pages, as the server answers them
  abbrev pub first_pages : ℕ → List Row
  first_pages zero = []
  first_pages (suc n) = first_pages n ++ rows_of (server (grouped_request js name s (n + 1)))

  pub collected_pages :
      (before : ℕ) (acc : Grouped) (res : RowsRes)
      → acc.rows ≡ first_pages before
      → answer (before + 1) ≡ ok res
      → (collect acc res).rows ≡ first_pages (suc before)
  unfolding collect
  collected_pages before acc res rows same = rw (rows, same) refl
