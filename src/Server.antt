-- ===== src/Server.antt =====
-- What the client relies on of the server that answers it, core/httpapi.
use ku_crud.Base.{ℕ, ◌*◌, ◌≡◌, List, length, take, drop}
use ku_crud.Value.{Row}
use ku_crud.Types.{RowsRes}

-- An answer that is one page of a list of rows: the pages of `size` rows are counted from 0.
pub record IsPage (all : List Row) (size page : ℕ) (res : RowsRes) : Type 0 where
  pub rows : res.rows ≡ take size (drop (page * size) all)
  pub total : res.total ≡ length all
