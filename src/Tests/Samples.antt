-- ===== src/Tests/Samples.antt =====
-- The table that the tests are about: books with a title, a state and tags.
use ku_crud.Base.{
  ℕ, String, ◌≡◌, ◌≢◌, true, false, none, some, [], ◌∷◌, ◌==◌, eq_iff, if◌then◌else◌,
}
use ku_crud.Value.{Values, Row, str, num, arr}
use ku_crud.Types.{
  FieldType, text, number, enum, json, ColumnDef, asc, TableDefPayload, CustomAction, ActionsConfig,
  ActionGrant, neutral, kanban, delete, update,
}
use ku_crud.Api.{Json}
use ku_crud.Data.Session.{Session}

abbrev pub column : FieldType → String → ColumnDef
column type name = record {
  name = name;
  label = name;
  field_type = type;
  enum_options = some ("new" ∷ "old" ∷ []);
  editable = true;
  required = false;
  visible = true;
  searchable = true;
  sortable = true;
  position = 0;
  validations = none;
  is_computed = false;
  computed_formula = none;
  formatting = none;
  base_type = none;
  fk_table_def_id = none;
  fk_ref_column = none;
  fk_display_columns = none;
  m2m_junction_def_id = none;
  m2m_junction_src_col = none;
  m2m_junction_tgt_col = none;
  m2m_display_columns = none;
  m2m_ref_column = none;
  m2m_target_ref = none;
}

abbrev pub action : String → ℕ → ActionGrant → CustomAction
action id order grant = record {
  id = id;
  label = "Do";
  confirm = none;
  grant = grant;
  hook = "h";
  config = none;
  order = order;
  style = neutral;
}

abbrev pub two_actions : ActionsConfig
two_actions = record {
  hidden = none;
  custom = some (action "act_1" 1 delete ∷ action "act_2" 2 update ∷ []);
}

abbrev pub books : TableDefPayload
books = record {
  table_def = record {
    id = "7";
    datasource_id = "1";
    schema_name = "public";
    table_name = "books";
    label = "Books";
    description = none;
    source_type = none;
    query_sql = none;
    key_columns = "id" ∷ [];
    page_size = 20;
    default_sort_col = "";
    default_sort_dir = asc;
    default_view = some kanban;
    view_config = none;
    hooks = none;
    actions = some two_actions;
    group_id = none;
    group_name = none;
    permissions = record { read = true; create = true; update = true; delete = false };
  };
  columns =
      column number "id"
      ∷ record (column text "title") { required = true }
      ∷ column enum "state"
      ∷ column json "meta"
      ∷ [];
}

abbrev pub book : String → String → Row
book id state = ("id", num id) ∷ ("title", str "Emma") ∷ ("state", str state) ∷ []

abbrev pub stub : Json
stub = record {
  stringify = λ v. "[]";
  pretty = λ v. "{}";
  parse = λ s. if s == "[]" then some (arr Values.nil) else none;
}

abbrev pub fresh : Session
fresh = record {
  search = "";
  debounced = "";
  sort = "";
  dir = asc;
  page = 1;
  filters = [];
  group_by = "";
  filter_menu = false;
  form = none;
  data_version = 0;
  view = none;
  sel = [];
  bulk_msg = "";
}

pub different : (a b : String) → (a == b) ≡ false → a ≢ b
different a b h e = let t = (eq_iff a b).1 e in cc
