-- ===== src/TableForm/Columns.antt =====
-- The columns of the form of web/src/pages/TableForm.tsx: what is sent of them, and their editors in
-- web/src/components/ColumnListEditor.tsx.
use ku_crud.Base.{
  ℕ, ◌+◌, String, Bool, true, false, not, ◌&&◌, ◌||◌, Option, none, some, List, [], ◌∷◌, ◌++◌, map,
  ◌==◌, if◌then◌else◌, or_else, length, any, filter,
}
use ku_crud.Base.Text.{show, trim, split}
use Prim.Native.String.{◌++◌ as ◌⧺◌}
use ku_crud.Types.{
  FieldType, is_fk, is_m2m, is_enum, m2m, text, ColumnDef, RuleType, same_rule, ValidationRule,
  SourceType, SortDir, ViewMode, ViewConfig, HooksConfig, ActionsConfig,
}
use ku_crud.TableForm.{plain_column, FormCol, FormState, is_query}

abbrev pub without_m2m : ColumnDef → ColumnDef
without_m2m c = record c {
  m2m_junction_def_id = none;
  m2m_junction_src_col = none;
  m2m_junction_tgt_col = none;
  m2m_display_columns = none;
  m2m_ref_column = none;
}

abbrev pub without_fk : ColumnDef → ColumnDef
without_fk c = record c {
  base_type = none;
  fk_table_def_id = none;
  fk_ref_column = none;
  fk_display_columns = none;
}

-- A column as it is sent: without the settings that its type does not have.
unfoldable pub saved_column : ColumnDef → ColumnDef
saved_column c =
    if is_fk c.field_type
    then without_m2m c
    else if is_m2m c.field_type
    then record (without_fk c) { m2m_ref_column = none }
    else without_m2m (without_fk c)

-- the body of the request that saves a definition; a field that is none is left out
pub record SaveBody : Type 0 where
  pub datasource_id : String
  pub schema_name : String
  pub table_name : String
  pub source_type : SourceType
  pub query_sql : String
  pub label : String
  pub description : String
  pub key_columns : List String
  pub page_size : ℕ
  pub default_sort_col : String
  pub default_sort_dir : SortDir
  pub default_view : ViewMode
  pub view_config : ViewConfig
  pub hooks : Option HooksConfig
  pub actions : Option ActionsConfig
  pub columns : List ColumnDef

abbrev pub nonempty {ℓ} : {A : Type ℓ} → Option (List A) → Bool
nonempty none = false
nonempty (some []) = false
nonempty (some (x ∷ xs)) = true

abbrev pub sent_hooks : HooksConfig → Option HooksConfig
sent_hooks [] = none
sent_hooks (h ∷ hs) = some (h ∷ hs)

unfoldable pub save_body : FormState → SaveBody
unfolding saved_column
save_body s = record {
  datasource_id = s.ds_id;
  schema_name = if is_query s.source_type then "" else s.schema;
  table_name = if is_query s.source_type then "" else s.table_name;
  source_type = s.source_type;
  query_sql = if is_query s.source_type then s.query_sql else "";
  label = s.label;
  description = s.description;
  key_columns = s.keys;
  page_size = s.page_size;
  default_sort_col = s.default_sort_col;
  default_sort_dir = s.default_sort_dir;
  default_view = s.default_view;
  view_config = s.view_config;
  hooks = sent_hooks s.hooks;
  actions = if nonempty s.actions.hidden || nonempty s.actions.custom then some s.actions else none;
  columns = map (λ c. saved_column c.column) s.cols;
}

abbrev base_of : FormCol → Option FieldType → Option FieldType
base_of c (some orig) = some orig
base_of c none = if is_fk c.field_type then c.base_type else some text

-- `setTypeAndExpand` of web/src/components/ColumnListEditor.tsx, as a change of the column
unfoldable pub set_type : FieldType → FormCol → FormCol
set_type type c = record c {
  column =
      record (if is_fk type
        then record c.column { base_type = base_of c c.orig_type }
        else without_fk c.column) {
          field_type = type;
          enum_options = if is_enum type then some (or_else c.enum_options []) else none;
        };
}

-- the rules of a column in its validations editor
abbrev pub rules_of : Option (List ValidationRule) → List ValidationRule
rules_of rules = or_else rules []

abbrev pub has_rule : RuleType → Option (List ValidationRule) → Bool
has_rule t rules = any (λ r. same_rule r.type t) (rules_of rules)

abbrev pub or_none : List ValidationRule → Option (List ValidationRule)
or_none [] = none
or_none (r ∷ rules) = some (r ∷ rules)

unfoldable pub set_rule :
    RuleType → Bool → Option ℕ → Option (List ValidationRule) → Option (List ValidationRule)
set_rule t on p rules =
    let others = filter (λ r. not (same_rule r.type t)) (rules_of rules) in
    or_none (if on then others ++ record { type = t; param = p } ∷ [] else others)

-- the options typed into the field of an enum column
unfoldable pub parse_options : String → List String
unfolding trim split
parse_options input = filter (λ s. not (s == "")) (map trim (split b',' input))

unfoldable pub rel_name : ℕ → String
unfolding show
rel_name n = "m2m_" ⧺ show n

-- the column that `addRel` of `M2MRelationsEditor` appends to n others
unfoldable pub new_rel : (label : String) → ℕ → FormCol
unfolding rel_name
new_rel label n = record {
  column = record (plain_column m2m (rel_name n) label (1000 + n)) {
    editable = true;
    searchable = false;
    sortable = false;
    m2m_display_columns = some [];
  };
  live_pk = none;
  orig_type = none;
  fk_ds = none;
}

unfoldable pub add_rel : (label : String) → List FormCol → List FormCol
unfolding new_rel
add_rel label cols = cols ++ new_rel label (length cols) ∷ []

abbrev pub is_rel : String → FormCol → Bool
is_rel name c = is_m2m c.field_type && c.name == name

-- `removeRel`, of the relation with this name
unfoldable pub remove_rel : String → List FormCol → List FormCol
remove_rel name cols = filter (λ c. not (is_rel name c)) cols
