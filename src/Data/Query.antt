-- ===== src/Data/Query.antt =====
-- What web/src/pages/Data.tsx asks the server for: a page of rows, all rows for a grouped grid, and
-- the export.
pub mod Loop
pub mod Failed
pub mod Laws
pub mod Pages
use ku_crud.Base.{
  ℕ, zero, suc, ◌+◌, String, Bool, false, ◌||◌, Option, none, some, List, [], ◌∷◌, ◌++◌, ◌==◌, ltb,
  leb, eqb, if◌then◌else◌, or_else, length,
}
use ku_crud.Base.Assoc.{Assoc, lookup, insert}
use ku_crud.Base.Text.{show, template}
use ku_crud.Value.{Row}
use ku_crud.Types.{TableDefPayload, SortDir, asc, desc, RowsRes}
use ku_crud.Api.{Json, Request, get, no_body, Result, ok, err}
use ku_crud.FilterBar.{serialize_filters}
use ku_crud.Data.Session.{Session}

-- `def.data?.tableName || id || ""`
unfoldable pub data_name : Option TableDefPayload → String → String
data_name none id = id
data_name (some d) id = if d.table_name == "" then id else d.table_name

abbrev optional : String → String → Assoc String
optional name text = if text == "" then [] else (name, text) ∷ []

abbrev dir_text : SortDir → String
dir_text asc = "ASC"
dir_text desc = "DESC"

abbrev sort_params : Session → Assoc String
sort_params s = if s.sort == "" then [] else ("sort", s.sort) ∷ ("dir", dir_text s.dir) ∷ []

abbrev get_rows : String → String → Assoc String → Request
get_rows name rest query = record {
  method = get;
  path = template ("/data/" ∷ name ∷ "/rows" ∷ rest ∷ []);
  query = query;
  body = no_body;
}

-- the parameters that all three share, and their order in the first two
unfoldable pub query_params : Json → Session → Assoc String
unfolding serialize_filters
query_params js s =
    optional "search" s.debounced
    ++ optional "filters" (serialize_filters js s.filters)
    ++ sort_params s

unfoldable pub rows_request : Json → String → Session → Request
unfolding query_params show
rows_request js name s = get_rows name "" (query_params js s ++ ("page", show s.page) ∷ [])

unfoldable pub export_request : Json → String → Session → Request
unfolding serialize_filters
export_request js name s = get_rows name "/export" (
    optional "search" s.debounced
    ++ sort_params s
    ++ optional "filters" (serialize_filters js s.filters))

abbrev pub cap : ℕ
cap = 2000

unfoldable pub grouped_request : Json → String → Session → ℕ → Request
unfolding query_params show
grouped_request js name s page = get_rows name "" (
    query_params js s
    ++ ("page", show page) ∷ ("limit", show (if ltb 200 cap then 200 else cap)) ∷ [])

pub record Grouped : Type 0 where
  pub rows : List Row
  pub truncated : Bool
  pub rels : Assoc (Assoc Row)
  pub m2m_rels : Assoc (Assoc (List Row))

-- `{ ...a, ...b }`
spread {ℓ} : {V : Type ℓ} → Assoc V → Assoc V → Assoc V
unfolding insert
spread a [] = a
spread a ((k, v) ∷ b) = spread (insert k v a) b

-- `for (const [col, m] of Object.entries(from)) into[col] = { ...(into[col] ?? {}), ...m }`
merge {ℓ} : {V : Type ℓ} → Assoc (Assoc V) → Assoc (Assoc V) → Assoc (Assoc V)
unfolding spread lookup insert
merge into [] = into
merge into ((c, m) ∷ from) = merge (insert c (spread (or_else (lookup c into) []) m) into) from

-- one answer of the loop
unfoldable pub collect : Grouped → RowsRes → Grouped
unfolding merge
collect acc res = record {
  rows = acc.rows ++ res.rows;
  truncated = leb cap (length (acc.rows ++ res.rows));
  rels = merge acc.rels (or_else res.rels []);
  m2m_rels = merge acc.m2m_rels (or_else res.m2m_rels []);
}

-- the test that ends the loop, after the answer has been collected
unfoldable pub is_last : Grouped → RowsRes → Bool
is_last acc res =
    leb res.total (length acc.rows) || eqb (length res.rows) 0 || leb cap (length acc.rows)

abbrev pub Fetched : Type 0
Fetched = Option (Result Grouped)

unfoldable pub after_page : Grouped → (Grouped → Fetched) → Result RowsRes → Fetched
unfolding collect is_last
after_page acc go_on (err e) = some (err e)
after_page acc go_on (ok res) =
    let acc' = collect acc res in
    let rest = go_on acc' in if is_last acc' res then some (ok acc') else rest

module _ (js : Json) (name : String) (s : Session) (server : Request → Result RowsRes) where
  -- the loop from a page on; none where the rounds do not suffice
  unfoldable pub fetch_from : (rounds page : ℕ) → Grouped → Fetched
  unfolding after_page
  fetch_from zero page acc = none
  fetch_from (suc rounds) page acc =
      after_page acc (fetch_from rounds (page + 1)) (server (grouped_request js name s page))

  -- The rounds are one more than the cap, since each round but the last adds a row.
  unfoldable pub fetch_grouped : Fetched
  unfolding fetch_from
  fetch_grouped =
      fetch_from (cap + 1) 1 (record { rows = []; truncated = false; rels = []; m2m_rels = [] })
