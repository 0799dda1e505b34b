-- ===== src/Data/Session.antt =====
-- The state of web/src/pages/Data.tsx that the user changes, and each change of it. One state is
-- used for every table: the page stays mounted when its route leads to another one.
pub mod Laws
use ku_crud.Base.{
  ℕ, ◌+◌, ◌-◌, ◌/◌, String, Bool, true, false, not, ◌&&◌, Option, none, some, List, [], ◌==◌, leb,
  if◌then◌else◌, or_else,
}
use ku_crud.Value.{Value, Row}
use ku_crud.Types.{
  ColumnDef, TableDefPayload, ViewConfig, ViewMode, grid, kanban, calendar, SortDir, asc, desc,
}
use ku_crud.FilterBar.{ActiveFilter}

pub data Mode : Type 0 where
  create edit : Mode

-- `form`: `initial_key` and `json_modes` are none where they are null or left out.
pub record Form : Type 0 where
  pub mode : Mode
  pub row : Row
  pub initial_key : Option (List Value)
  pub json_modes : Option (List String)

pub record Session : Type 0 where
  pub search : String
  pub debounced : String
  pub sort : String
  pub dir : SortDir
  pub page : ℕ
  pub filters : List ActiveFilter
  pub group_by : String
  pub filter_menu : Bool
  pub form : Option Form
  pub data_version : ℕ
  pub view : Option ViewMode
  -- the keys of the selected rows, as a Set
  pub sel : List String
  pub bulk_msg : String

-- the effect on `[id, searchParam]`: another table, or another search in the address
unfoldable pub reset : (search_param : String) → Session → Session
reset search_param s = record s {
  search = search_param;
  debounced = search_param;
  page = 1;
  sort = "";
  dir = asc;
  filters = [];
  group_by = "";
  form = none;
  view = none;
  filter_menu = false;
}

abbrev is_asc : SortDir → Bool
is_asc asc = true
is_asc desc = false

-- the effect on the definition's id: its default sort, where none has been chosen
unfoldable pub apply_default_sort : TableDefPayload → Session → Session
apply_default_sort def s = record s {
  sort = if s.sort == "" && not (def.default_sort_col == "") then def.default_sort_col else s.sort;
  dir = if is_asc s.dir && not (def.default_sort_col == "") then def.default_sort_dir else s.dir;
}

-- what the user does, and the timer of the search box
pub data Event : Type 0 where
  type_search : String → Event
  debounce_elapsed : Event
  click_header : ColumnDef → Event
  group : String → Event
  change_filters : List ActiveFilter → Event
  load_saved : List ActiveFilter → Event
  toggle_menu : Event
  pick_view : ViewMode → Event
  previous_page : Event
  next_page : (pages : ℕ) → Event
  clear_grouping : Event

abbrev flip : SortDir → SortDir
flip asc = desc
flip desc = asc

unfoldable pub sort_by : ColumnDef → Session → Session
sort_by c s =
    if not c.sortable
    then s
    else if s.sort == c.name
    then record s { dir = flip s.dir; page = 1 }
    else record s { sort = c.name; dir = asc; page = 1 }

-- The buttons of the pages are disabled at the first and the last.
unfoldable pub handle : Event → Session → Session
unfolding sort_by
handle (type_search text) s = record s { search = text }
handle debounce_elapsed s = record s { debounced = s.search; page = 1 }
handle (click_header c) s = sort_by c s
handle (group v) s = record s { group_by = if v == "none" then "" else v; page = 1 }
handle (change_filters fs) s = record s { filters = fs; page = 1 }
handle (load_saved fs) s = record s { filters = fs; page = 1; filter_menu = false }
handle toggle_menu s = record s { filter_menu = not s.filter_menu }
handle (pick_view v) s = record s { view = some v }
handle previous_page s = if leb s.page 1 then s else record s { page = s.page - 1 }
handle (next_page pages) s = if leb pages s.page then s else record s { page = s.page + 1 }
handle clear_grouping s = record s { group_by = "" }

-- `Math.max(1, Math.ceil(total / pageSize))`, for a page size that is not 0; one page before the rows
-- are there
unfoldable pub page_count : Option (ℕ × ℕ) → ℕ
page_count none = 1
page_count (some (total, page_size)) =
    let pages = (total + page_size - 1) / page_size in if leb pages 1 then 1 else pages

abbrev filled : Option String → Bool
filled none = false
filled (some s) = not (s == "")

-- which views the definition has the columns for
unfoldable pub view_ok : Option ViewConfig → ViewMode → Bool
view_ok vc grid = true
view_ok none kanban = false
view_ok none calendar = false
view_ok (some c) kanban = filled c.kanban_board_column
view_ok (some c) calendar = filled c.calendar_start_column

abbrev def_view : Option TableDefPayload → ViewMode
def_view none = grid
def_view (some d) = or_else d.default_view grid

abbrev config_of : Option TableDefPayload → Option ViewConfig
config_of none = none
config_of (some d) = d.view_config

unfoldable pub fallback_view : Option TableDefPayload → ViewMode
unfolding view_ok
fallback_view def = if view_ok (config_of def) (def_view def) then def_view def else grid

unfoldable pub effective_view : Option TableDefPayload → Session → ViewMode
unfolding fallback_view
effective_view def s = elim s.view [
  | none ↦ fallback_view def
  | some v ↦ if view_ok (config_of def) v then v else fallback_view def
]
