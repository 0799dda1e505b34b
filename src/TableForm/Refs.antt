-- ===== src/TableForm/Refs.antt =====
-- The panel of a reference in web/src/components/ColumnListEditor.tsx. `fetched` are the columns of
-- the definitions that the server has answered with, none of them before.
pub mod Panels
pub mod Card
pub mod Relates
use ku_crud.Base.{
  String, Bool, true, false, not, ◌&&◌, ◌||◌, Option, none, some, List, [], ◌∷◌, ◌++◌, map, ◌==◌,
  ltb, if◌then◌else◌, or_else, length, any, filter,
}
use ku_crud.Types.{ColumnDef, TableDefPayload}
use ku_crud.TableForm.{FormCol}

-- an id that is not the empty text
abbrev pub filled : Option String → Bool
filled none = false
filled (some s) = not (s == "")

abbrev pub has_name : List ColumnDef → String → Bool
has_name cols name = any (λ c. c.name == name) cols

-- the props of the panel of a reference
pub record Panel : Type 0 where
  pub ds_id : String
  pub current_id : Option String
  pub defs : List TableDefPayload
  pub cols : List FormCol
  pub fetched : String → List ColumnDef

unfoldable pub fk_ds_of : Panel → FormCol → String
fk_ds_of p c = or_else c.fk_ds p.ds_id

-- the definitions to choose from, and whether the table itself stands among them
unfoldable pub target_defs : Panel → FormCol → List TableDefPayload
unfolding fk_ds_of
target_defs p c =
    filter (λ d. not (some_is d.id p.current_id))
      (filter (λ d. d.datasource_id == fk_ds_of p c) p.defs)
  where
    some_is : String → Option String → Bool
    some_is id none = false
    some_is id (some current) = id == current

unfoldable pub offers_self : Panel → FormCol → Bool
unfolding fk_ds_of
offers_self p c = fk_ds_of p c == p.ds_id

abbrev pub is_current : Option String → String → Bool
is_current none id = false
is_current (some current) id = not (current == "") && id == current

abbrev pub cols_of_table : Panel → Option String → List ColumnDef
cols_of_table p none = []
cols_of_table p (some id) =
    if id == "self" || is_current p.current_id id
    then map (λ c. c.column) p.cols
    else if id == ""
    then []
    else p.fetched id

-- `targetCols`
unfoldable pub target_cols : Panel → FormCol → List ColumnDef
target_cols p c = cols_of_table p c.fk_table_def_id

abbrev pub is_ref : Option String → String → Bool
is_ref none name = false
is_ref (some ref) name = name == ref

-- `availableDisplayCols`
unfoldable pub available : Panel → FormCol → List ColumnDef
unfolding target_cols
available p c = filter (λ d. not (is_ref c.fk_ref_column d.name)) (target_cols p c)

abbrev pub shown_of : FormCol → List String
shown_of c = or_else c.fk_display_columns []

abbrev with_fk : FormCol → ColumnDef → FormCol
with_fk c d = record c { column = d }

unfoldable pub pick_ds : String → FormCol → FormCol
pick_ds v c = record c {
  fk_ds = some v;
  column = record c.column {
    fk_table_def_id = none;
    fk_ref_column = none;
    fk_display_columns = none;
  };
}

unfoldable pub pick_table : String → FormCol → FormCol
pick_table v c = record c {
  column = record c.column {
    fk_table_def_id = some v;
    fk_ref_column = none;
    fk_display_columns = none;
  };
}

unfoldable pub pick_ref : String → FormCol → FormCol
pick_ref v c = record c {
  column = record c.column { fk_ref_column = some v; fk_display_columns = none };
}

-- `sel ? selected.filter((n) => n !== name) : [...selected, name]`
unfoldable pub toggle : String → List String → List String
toggle name names =
    if any (λ n. n == name) names then filter (λ n. not (n == name)) names else names ++ name ∷ []

abbrev show_columns : List String → FormCol → FormCol
show_columns names c = record c { column = record c.column { fk_display_columns = some names } }

unfoldable pub toggle_display : String → FormCol → FormCol
unfolding toggle
toggle_display name c = show_columns (toggle name (shown_of c)) c

unfoldable pub select_all : Panel → FormCol → FormCol
unfolding available
select_all p c = show_columns (map (λ d. d.name) (available p c)) c

unfoldable pub clear_all : FormCol → FormCol
clear_all c = show_columns [] c

-- What can be clicked in the panel: a column to refer to once there is a table, and columns to show
-- out of the available ones.
pub data FkEdit : Type 0 where
  ds_picked : String → FkEdit
  table_picked : String → FkEdit
  ref_picked : String → FkEdit
  display_toggled : String → FkEdit
  all_selected : FkEdit
  all_cleared : FkEdit

unfoldable pub fk_offered : Panel → FormCol → FkEdit → Bool
unfolding target_cols available
fk_offered p c (ds_picked v) = true
fk_offered p c (table_picked v) = true
fk_offered p c (ref_picked v) = filled c.fk_table_def_id && has_name (target_cols p c) v
fk_offered p c (display_toggled v) = filled c.fk_table_def_id && has_name (available p c) v
fk_offered p c all_selected = filled c.fk_table_def_id && ltb 0 (length (available p c))
fk_offered p c all_cleared = filled c.fk_table_def_id && ltb 0 (length (available p c))

abbrev fk_effect : Panel → FkEdit → FormCol → FormCol
fk_effect p (ds_picked v) c = pick_ds v c
fk_effect p (table_picked v) c = pick_table v c
fk_effect p (ref_picked v) c = pick_ref v c
fk_effect p (display_toggled v) c = toggle_display v c
fk_effect p all_selected c = select_all p c
fk_effect p all_cleared c = clear_all c

unfoldable pub fk_edits : Panel → List FkEdit → FormCol → FormCol
unfolding fk_offered pick_ds pick_table pick_ref toggle_display select_all clear_all
fk_edits p [] c = c
fk_edits p (e ∷ es) c = fk_edits p es (if fk_offered p c e then fk_effect p e c else c)
