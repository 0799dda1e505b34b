-- ===== src/TableForm.antt =====
-- web/src/pages/TableForm.tsx: the state of the form of a table definition, and its changes.
pub mod Columns
pub mod Laws
pub mod Saved
pub mod Relations
pub mod Refs
pub mod Formatting
pub mod Views
pub mod Rows
use ku_crud.Base.{
  ℕ, ◌*◌, String, Bool, true, false, not, ◌&&◌, ◌||◌, Option, none, some, List, [], ◌∷◌, ◌++◌, map,
  ◌==◌, ltb, if◌then◌else◌, or_else, length, get_elem?, any, all, filter, map_from, modify,
}
use ku_crud.Base.Text.{trim, split}
use ku_crud.Labels.{Casing, normalize_label}
use ku_crud.Types.{
  FieldType, ColumnDef, SourceType, table, query, SortDir, ViewMode, grid, ViewConfig, HooksConfig,
  ActionsConfig, TableDefPayload, LiveColumn, QueryColumn, QueryIntrospectResult,
}

-- `FormCol` of web/src/components/ColumnListEditor.tsx
pub record FormCol : Type 0 where
  pub column : ColumnDef
  pub open column use *
  pub live_pk : Option Bool
  pub orig_type : Option FieldType
  pub fk_ds : Option String

pub record FormState : Type 0 where
  pub ds_id : String
  pub schema : String
  pub table_name : String
  pub source_type : SourceType
  pub query_sql : String
  pub dropped : List String
  pub label : String
  pub description : String
  pub page_size : ℕ
  pub default_sort_col : String
  pub default_sort_dir : SortDir
  pub keys : List String
  pub cols : List FormCol
  pub default_view : ViewMode
  pub view_config : ViewConfig
  pub hooks : HooksConfig
  pub actions : ActionsConfig

abbrev pub is_query : SourceType → Bool
is_query query = true
is_query table = false

-- a column as it comes from the database: visible, with no settings
abbrev pub plain_column : FieldType → String → String → ℕ → ColumnDef
plain_column type name label i = record {
  name = name;
  label = label;
  field_type = type;
  enum_options = none;
  editable = false;
  required = false;
  visible = true;
  searchable = true;
  sortable = true;
  position = i;
  validations = none;
  is_computed = false;
  computed_formula = none;
  formatting = none;
  base_type = none;
  fk_table_def_id = none;
  fk_ref_column = none;
  fk_display_columns = none;
  m2m_junction_def_id = none;
  m2m_junction_src_col = none;
  m2m_junction_tgt_col = none;
  m2m_display_columns = none;
  m2m_ref_column = none;
  m2m_target_ref = none;
}

unfoldable pub query_col : Casing → ℕ → QueryColumn → FormCol
unfolding normalize_label
query_col casing i c = record {
  column = record (plain_column c.field_type c.name (normalize_label casing c.name) i) {
    enum_options = c.enum_options;
  };
  live_pk = c.is_pk;
  orig_type = none;
  fk_ds = none;
}

unfoldable pub live_col : Casing → String → ℕ → LiveColumn → FormCol
unfolding normalize_label
live_col casing ds i c = record {
  column = record (plain_column c.field_type c.name (normalize_label casing c.name) i) {
    enum_options = c.enum_options;
    editable = if not c.nullable then true else not c.is_pk;
    required = not c.nullable;
  };
  live_pk = some c.is_pk;
  orig_type = some c.field_type;
  fk_ds = some ds;
}

abbrev keys_or : List String → List String → List String
keys_or [] found = found
keys_or (k ∷ keys) found = k ∷ keys

abbrev query_pks : List QueryColumn → List String
query_pks cols = map (λ c. c.name) (filter (λ c. or_else c.is_pk false) cols)

abbrev pub live_pks : List LiveColumn → List String
live_pks cols = map (λ c. c.name) (filter (λ c. c.is_pk) cols)

-- the answer of the query's introspection; `default_label` is the translated default
unfoldable pub introspected :
    Casing → (default_label : String) → QueryIntrospectResult → FormState → FormState
unfolding query_col
introspected casing default_label res s = record s {
  dropped = res.dropped;
  label = if s.label == "" then default_label else s.label;
  keys = keys_or s.keys (query_pks res.columns);
  cols = map_from (query_col casing) 0 res.columns;
}

-- the effect on the columns of the physical table, when there are some
unfoldable pub inspected : Casing → List LiveColumn → FormState → FormState
unfolding live_col normalize_label
inspected casing [] s = s
inspected casing (c ∷ live) s = record s {
  label = normalize_label casing s.table_name;
  keys = keys_or s.keys (live_pks (c ∷ live));
  cols = map_from (live_col casing s.ds_id) 0 (c ∷ live);
}

abbrev pub stored : ColumnDef → FormCol
stored c = record { column = c; live_pk = none; orig_type = none; fk_ds = none }

abbrev pub no_view_config : ViewConfig
no_view_config = record {
  kanban_board_column = none;
  kanban_display_column = none;
  calendar_start_column = none;
  calendar_end_column = none;
}

abbrev pub no_actions : ActionsConfig
no_actions = record { hidden = none; custom = none }

-- the effect that fills the form from an existing definition
unfoldable pub populate : TableDefPayload → FormState → FormState
populate d s = record s {
  ds_id = d.datasource_id;
  schema = d.schema_name;
  table_name = d.table_name;
  source_type = or_else d.source_type table;
  query_sql = or_else d.query_sql "";
  label = d.label;
  description = or_else d.description "";
  page_size = d.page_size;
  default_sort_col = d.default_sort_col;
  default_sort_dir = d.default_sort_dir;
  default_view = or_else d.default_view grid;
  view_config = or_else d.view_config no_view_config;
  hooks = or_else d.hooks [];
  actions = or_else d.actions no_actions;
  keys = d.key_columns;
  cols = map stored d.columns;
}

unfoldable pub pick_datasource : String → FormState → FormState
pick_datasource ds s = record s { ds_id = ds; schema = ""; table_name = ""; cols = [] }

abbrev same_source : SourceType → SourceType → Bool
same_source a b = if is_query a then is_query b else not (is_query b)

unfoldable pub switch_source : SourceType → FormState → FormState
switch_source st s =
    if same_source st s.source_type
    then s
    else record s { source_type = st; cols = []; keys = []; dropped = [] }

abbrev has_name : String → List String → Bool
has_name k keys = any (λ x. x == k) keys

unfoldable pub toggle_key : String → List String → List String
toggle_key name keys =
    if has_name name keys then filter (λ k. not (k == name)) keys else keys ++ name ∷ []

-- `setCol`
unfoldable pub set_col : ℕ → (FormCol → FormCol) → FormState → FormState
set_col i patch s = record s { cols = modify i patch s.cols }

unfoldable pub step2_complete : (is_editing : Bool) → FormState → Bool
unfolding trim
step2_complete is_editing s =
    not (s.ds_id == "")
    && (if is_query s.source_type
        then not (trim s.query_sql == "") && (is_editing || ltb 0 (length s.cols))
        else not (s.schema == "") && not (s.table_name == ""))

unfoldable pub keys_valid : FormState → Bool
keys_valid s =
    let known = all (λ k. any (λ c. c.name == k) s.cols) s.keys in
    if is_query s.source_type then known else ltb 0 (length s.keys) && known

abbrev pub part : ℕ → String → String
unfolding split
part i v = or_else (get_elem? (split b'.' v) i) ""

-- the picker of the physical table, whose value is the schema and the name with a dot between
unfoldable pub pick_table : Casing → String → FormState → FormState
unfolding normalize_label
pick_table casing v s = record s {
  schema = part 0 v;
  table_name = part 1 v;
  label = normalize_label casing (part 1 v);
  cols = [];
  keys = [];
}
