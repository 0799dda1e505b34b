-- ===== src/TableForm/Saved.antt =====
-- A definition that is opened in web/src/pages/TableForm.tsx and saved again.
use ku_crud.Base.{
  String, ◌≡◌, refl, sym, ap, ◌∙◌, Bool, true, false, ◌&&◌, ◌||◌, Option, none, some, List, [], ◌∷◌,
  map, if◌then◌else◌, or_else, All,
}
use ku_crud.Types.{
  FieldType, boolean, text, number, datetime, enum, uuid, json, fk, m2m, is_fk, is_m2m, ColumnDef,
  TableDefPayload, ActionsConfig, HooksConfig, SourceType, query, table, grid,
}
use ku_crud.TableForm.{FormState, is_query, populate, no_actions, stored}
use ku_crud.TableForm.Columns.{
  without_fk, without_m2m, saved_column, SaveBody, save_body, sent_hooks, nonempty,
}

abbrev has_some {ℓ} : {A : Type ℓ} → Option (List A) → Bool
has_some none = false
has_some (some []) = false
has_some (some (x ∷ xs)) = true

-- the hooks and the actions of a definition as the form sends them, left out where there are none
abbrev pub sent_hooks_of : Option HooksConfig → Option HooksConfig
sent_hooks_of none = none
sent_hooks_of (some []) = none
sent_hooks_of (some (h ∷ hs)) = some (h ∷ hs)

abbrev pub sent_actions : Option ActionsConfig → Option ActionsConfig
sent_actions none = none
sent_actions (some a) = if has_some a.hidden || has_some a.custom then some a else none

-- a column as the form sends it: a relation without the column that the server refers to by itself
abbrev pub sent_column : ColumnDef → ColumnDef
sent_column c = if is_m2m c.field_type then record c { m2m_ref_column = none } else c

-- what a definition amounts to when it is sent back
abbrev pub body_of : TableDefPayload → SaveBody
body_of d = record {
  datasource_id = d.datasource_id;
  schema_name = d.schema_name;
  table_name = d.table_name;
  source_type = or_else d.source_type table;
  query_sql = or_else d.query_sql "";
  label = d.label;
  description = or_else d.description "";
  key_columns = d.key_columns;
  page_size = d.page_size;
  default_sort_col = d.default_sort_col;
  default_sort_dir = d.default_sort_dir;
  default_view = or_else d.default_view grid;
  view_config = or_else d.view_config (record {
    kanban_board_column = none;
    kanban_display_column = none;
    calendar_start_column = none;
    calendar_end_column = none;
  });
  hooks = sent_hooks_of d.hooks;
  actions = sent_actions d.actions;
  columns = map sent_column d.columns;
}

abbrev pub HasNoFk : ColumnDef → Type 0
HasNoFk c =
    (c.base_type ≡ none)
    × (c.fk_table_def_id ≡ none)
    × (c.fk_ref_column ≡ none)
    × (c.fk_display_columns ≡ none)

abbrev pub HasNoM2m : ColumnDef → Type 0
HasNoM2m c =
    (c.m2m_junction_def_id ≡ none)
    × (c.m2m_junction_src_col ≡ none)
    × (c.m2m_junction_tgt_col ≡ none)
    × (c.m2m_display_columns ≡ none)
    × (c.m2m_ref_column ≡ none)

-- Whether a column has no settings of a reference, or of a relation, unless it is one.
abbrev pub IsOwn : ColumnDef → Type 0
IsOwn c =
    if is_fk c.field_type
    then HasNoM2m c
    else if is_m2m c.field_type
    then HasNoFk c
    else HasNoFk c × HasNoM2m c

abbrev pub HasSource : SourceType → (schema table_name sql : String) → Type 0
HasSource query schema table_name sql = (schema ≡ "") × (table_name ≡ "")
HasSource table schema table_name sql = sql ≡ ""

-- A definition as the server keeps it: a table has no query text, a query names no table, and no
-- column has settings of a reference or a relation that it is not.
abbrev pub IsStored : TableDefPayload → Type 0
IsStored d =
    HasSource (or_else d.source_type table) d.schema_name d.table_name (or_else d.query_sql "")
    × All IsOwn d.columns

kept :
    (q : SourceType) (a b c : String)
    → HasSource q a b c
    → ((if is_query q then "" else a) ≡ a)
      × ((if is_query q then "" else b) ≡ b)
      × ((if is_query q then c else "") ≡ c)
kept query a b c (h, k) = (sym h, sym k, refl)
kept table a b c h = (refl, refl, sym h)

hooks_kept : (o : Option HooksConfig) → sent_hooks (or_else o []) ≡ sent_hooks_of o
hooks_kept none = refl
hooks_kept (some []) = refl
hooks_kept (some (h ∷ hs)) = refl

some_kept {ℓ} : {A : Type ℓ} (o : Option (List A)) → nonempty o ≡ has_some o
some_kept none = refl
some_kept (some []) = refl
some_kept (some (x ∷ xs)) = refl

actions_kept :
    (a : Option ActionsConfig)
    → (let x = or_else a no_actions in
        if nonempty x.hidden || nonempty x.custom then some x else none)
      ≡ sent_actions a
actions_kept none = refl
actions_kept (some a) = rw (some_kept a.hidden, some_kept a.custom) refl

fk_apart : (t : FieldType) → (is_fk t && is_m2m t) ≡ false
fk_apart boolean = refl
fk_apart text = refl
fk_apart number = refl
fk_apart datetime = refl
fk_apart enum = refl
fk_apart uuid = refl
fk_apart json = refl
fk_apart fk = refl
fk_apart m2m = refl

without_fk-same : (c : ColumnDef) → HasNoFk c → without_fk c ≡ c
without_fk-same c (a, b, d, e) i = record c {
  base_type = sym a i;
  fk_table_def_id = sym b i;
  fk_ref_column = sym d i;
  fk_display_columns = sym e i;
}

without_m2m-same : (c : ColumnDef) → HasNoM2m c → without_m2m c ≡ c
without_m2m-same c (a, b, d, e, f) i = record c {
  m2m_junction_def_id = sym a i;
  m2m_junction_src_col = sym b i;
  m2m_junction_tgt_col = sym d i;
  m2m_display_columns = sym e i;
  m2m_ref_column = sym f i;
}

saved_of :
    (c : ColumnDef) (is_ref is_rel : Bool)
    → (is_ref && is_rel) ≡ false
    → (if is_ref then HasNoM2m c else if is_rel then HasNoFk c else HasNoFk c × HasNoM2m c)
    → (if is_ref
        then without_m2m c
        else if is_rel
        then record (without_fk c) { m2m_ref_column = none }
        else without_m2m (without_fk c))
      ≡ (if is_rel then record c { m2m_ref_column = none } else c)
saved_of c true true apart own = cc
saved_of c true false apart own = without_m2m-same c own
saved_of c false true apart own =
    ap {A = ColumnDef} {B = ColumnDef} (λ d. record d { m2m_ref_column = none })
      (without_fk-same c own)
saved_of c false false apart (no_fk, no_m2m) =
    ap without_m2m (without_fk-same c no_fk) ∙ without_m2m-same c no_m2m

columns_kept :
    (cols : List ColumnDef)
    → All IsOwn cols
    → map (λ c. saved_column c.column) (map stored cols) ≡ map sent_column cols
unfolding saved_column
columns_kept [] h = refl
columns_kept (c ∷ cols) (h, hs) =
    let first = saved_of c (is_fk c.field_type) (is_m2m c.field_type) (fk_apart c.field_type) h in
    let others = columns_kept cols hs in λ i. first i ∷ others i

-- Opening a stored definition and saving it unchanged sends it as it was, with all settings of its
-- columns, but for the referred column of a relation, which the server finds out by itself; what the
-- definition leaves open is sent as its default, and hooks and actions only where there are some.
pub save_body-populate :
    (d : TableDefPayload) (s : FormState) → IsStored d → save_body (populate d s) ≡ body_of d
unfolding save_body populate
save_body-populate d s (h, hs) =
    let e =
      kept (or_else d.source_type table) d.schema_name d.table_name (or_else d.query_sql "") h in
    rw (e.0, e.1, e.2, hooks_kept d.hooks, actions_kept d.actions, columns_kept d.columns hs) refl
