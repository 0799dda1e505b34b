-- ===== src/Kanban.antt =====
-- web/src/components/views/KanbanView.tsx: the columns of the board, their pages, and the drop of a
-- card. An asynchronous call is cut where it waits: a function up to its request, and one for what
-- each answer does to the state that is there then.
pub mod Board
pub mod Pages
pub mod Races
use ku_crud.Base.{
  ℕ, ◌+◌, ◌-◌, String, Bool, true, false, not, ◌&&◌, ◌||◌, Option, none, some, List, [], ◌∷◌, ◌++◌,
  map, ◌==◌, ltb, leb, if◌then◌else◌, or_else, length, any, filter,
}
use ku_crud.Base.Assoc.{Assoc, lookup, insert}
use ku_crud.Base.Text.{show, join, template}
use ku_crud.Value.{Value, null, str, arr, obj, values, fields, Row, cell, is_nullish, to_text}
use ku_crud.Types.{ColumnDef, TableDefPayload}
use ku_crud.Api.{Json, Request, get, put, json, no_body}
use ku_crud.RowKey.{encode_row_key}

abbrev pub col_cap : ℕ
col_cap = 2000

pub record ColState : Type 0 where
  pub rows : List Row
  pub page : ℕ
  pub total : ℕ
  pub loading : Bool

abbrev pub empty_col : ColState
empty_col = record { rows = []; page = 0; total = 0; loading = false }

-- The props of the view, and the state `perCol`.
pub record Props : Type 0 where
  pub table : TableDefPayload
  pub board_col : ColumnDef
  pub search : String
  pub filters : String
  pub page_size : ℕ

abbrev pub PerCol : Type 0
PerCol = Assoc ColState

abbrev pub board_values : Props → List String
board_values p = or_else p.board_col.enum_options [] ++ "" ∷ []

abbrev initial : List String → PerCol
initial [] = []
initial (v ∷ vs) = insert v empty_col (initial vs)

unfoldable pub init : Props → PerCol
unfolding insert
init p = initial (board_values p)

unfoldable pub key_of : Props → Row → List Value
unfolding cell
key_of p row = map (λ k. cell row k) p.table.key_columns

-- `/data/${def.tableName || def.id}/rows`
abbrev rows_path : TableDefPayload → String
rows_path d =
    template ("/data/" ∷ (if d.table_name == "" then d.id else d.table_name) ∷ "/rows" ∷ [])

-- `if (text) q.set(name, text)`
abbrev optional : String → String → Assoc String
optional name text = if text == "" then [] else (name, text) ∷ []

abbrev eq_filter : Props → String → Value
eq_filter p value = arr (
    values (
      obj (
        fields (
          ("column", str p.board_col.name)
          ∷ ("op", str "eq")
          ∷ ("values", arr (values (str value ∷ [])))
          ∷ []))
      ∷ []))

-- the request of `fetchPage`
unfoldable pub page_request : Json → Props → String → ℕ → Request
unfolding show
page_request js p value page = record {
  method = get;
  path = rows_path p.table;
  query =
      optional "filters" (if value == "" then p.filters else js.stringify (eq_filter p value))
      ++ optional "search" p.search
      ++ ("page", show page) ∷ ("limit", show p.page_size) ∷ [];
  body = no_body;
}

-- and what it keeps of the rows: the column without a value takes those that have none
unfoldable pub page_rows : Props → String → List Row → List Row
unfolding cell
page_rows p value rows =
    if value == "" then filter (λ r. is_nullish (cell r p.board_col.name)) rows else rows

abbrev col : String → PerCol → ColState
col value per_col = or_else (lookup value per_col) empty_col

-- the two early returns of `loadMore`
abbrev pub may_load : Option ColState → Bool
may_load none = false
may_load (some st) =
    not st.loading
    && not (leb col_cap (length st.rows) || (ltb 0 st.total && leb st.total (length st.rows)))

-- `loadMore` up to its request; none is an early return
unfoldable pub load_more : Json → Props → String → PerCol → Option (PerCol × Request)
unfolding page_request lookup insert
load_more js p value per_col =
    if may_load (lookup value per_col)
    then some (
      insert value (record (col value per_col) { loading = true }) per_col,
      page_request js p value ((col value per_col).page + 1),
    )
    else none

-- after its answer, which `page_rows` has gone through
unfoldable pub loaded_more : String → List Row → ℕ → PerCol → PerCol
unfolding lookup insert
loaded_more value rows total per_col =
    let st = col value per_col in
    insert value
      (record { rows = st.rows ++ rows; page = st.page + 1; total = total; loading = false })
      per_col

unfoldable pub load_failed : String → PerCol → PerCol
unfolding lookup insert
load_failed value per_col = insert value (record (col value per_col) { loading = false }) per_col

unfoldable pub refresh_col : Json → Props → String → PerCol → PerCol × Request
unfolding page_request insert
refresh_col js p value per_col = (
  insert value (record { rows = []; page = 0; total = 0; loading = true }) per_col,
  page_request js p value 1,
)

unfoldable pub refreshed : String → List Row → ℕ → PerCol → PerCol
unfolding insert
refreshed value rows total per_col =
    insert value (record { rows = rows; page = 1; total = total; loading = false }) per_col

-- `String(row[boardCol.name] ?? "")`
abbrev pub board_text : Value → String
board_text v = if is_nullish v then "" else to_text v

abbrev new_value : String → Value
new_value target = if target == "" then null else str target

-- `drop` up to its request; none is an early return: a key with a null in it, or the same column
unfoldable pub drop : Json → Props → Row → String → Option Request
unfolding key_of encode_row_key cell to_text
drop js p row target =
    if any is_nullish (key_of p row)
    then none
    else if board_text (cell row p.board_col.name) == target
    then none
    else some (record {
      method = put;
      path = template (rows_path p.table ∷ "/" ∷ encode_row_key js (key_of p row) ∷ []);
      query = [];
      body = json (obj (fields ((p.board_col.name, new_value target) ∷ [])));
    })

-- `keyOf(r).join("|")`; null and undefined join as nothing
abbrev pub joined : List Value → String
joined vs = join "|" (map (λ v. if is_nullish v then "" else to_text v) vs)

abbrev without_card : Props → Row → PerCol → PerCol
without_card p row [] = []
without_card p row ((v, st) ∷ rest) =
    (
      v,
      record st { rows = filter (λ r. not (joined (key_of p r) == joined (key_of p row))) st.rows },
    )
    ∷ without_card p row rest

-- `if (next[v]) next[v] = f(next[v])`
abbrev adjust : String → (ColState → ColState) → PerCol → PerCol
adjust v f per_col = elim (lookup v per_col) [ none ↦ per_col | some st ↦ insert v (f st) per_col ]

abbrev moved : Props → Row → String → Row
moved p row target = insert p.board_col.name (new_value target) row

abbrev taken_from : ColState → ColState
taken_from st = record st { total = st.total - 1 }

abbrev put_into : Row → ColState → ColState
put_into card st = record st { rows = card ∷ st.rows; total = st.total + 1 }

-- the board after the server has accepted the drop
unfoldable pub dropped : Props → Row → String → PerCol → PerCol
unfolding key_of lookup insert join to_text cell
dropped p row target per_col =
    adjust target (put_into (moved p row target))
      (adjust (board_text (cell row p.board_col.name)) taken_from (without_card p row per_col))
