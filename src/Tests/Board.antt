-- ===== src/Tests/Board.antt =====
-- The board.
use ku_crud.Base.{ℕ, ◌≤◌, ◌≡◌, refl, false, some, List, [], ◌∷◌, arith, length}
use ku_crud.Base.Assoc.{lookup, insert}
use ku_crud.Base.Text.{join}
use ku_crud.Value.{Row, cell, to_text}
use ku_crud.Types.{enum}
use ku_crud.Api.{Request}
use ku_crud.Kanban.{Props, PerCol, init, page_request, page_rows, dropped}
use ku_crud.Kanban.Board.{lookup-dropped}
use ku_crud.Kanban.Pages.{IsLoaded, loads, loads-IsLoaded}
use ku_crud.Tests.Samples.{stub, books, column, book, different}

abbrev board : Props
board = record {
  table = books;
  board_col = column enum "state";
  search = "";
  filters = "";
  page_size = 2;
}

abbrev loaded : PerCol
loaded =
    (
      "new",
      record { rows = book "1" "new" ∷ book "2" "new" ∷ []; page = 1; total = 2; loading = false },
    )
    ∷ ("old", record { rows = []; page = 1; total = 0; loading = false })
    ∷ []

lookup-dropped_example :
    lookup "old" (dropped board (book "1" "new") "old" loaded)
    ≡ some (record { rows = book "1" "old" ∷ []; page = 1; total = 1; loading = false })
unfolding cell lookup to_text insert join
lookup-dropped_example =
    lookup-dropped board (book "1" "new") "old" "old" loaded (different "new" "old" refl)

-- The card has gone from the first column, and stands in the second.
dropped_test :
    dropped board (book "1" "new") "old" loaded
    ≡ ("new", record { rows = book "2" "new" ∷ []; page = 1; total = 1; loading = false })
      ∷ ("old", record { rows = book "1" "old" ∷ []; page = 1; total = 1; loading = false })
      ∷ []
unfolding dropped
dropped_test = refl

abbrev server : Request → List Row × ℕ
server r = (book "1" "new" ∷ book "2" "new" ∷ [], 4)

few : (k : ℕ) → length (page_rows board "new" (server (page_request stub board "new" k)).0) ≤ 2
unfolding page_rows
few k = omega arith

loads-IsLoaded_example :
    IsLoaded stub board "new" server 2 (lookup "new" (loads stub board "new" server 1 (init board)))
loads-IsLoaded_example = loads-IsLoaded stub board "new" server 2 (omega arith) few 1 (init board)
