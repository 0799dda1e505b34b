-- ===== src/Tests/Forms.antt =====
-- The forms of roles and of table definitions, and the sidebar.
use ku_crud.Base.{map, ◌+◌, length, ◌≡◌, refl, true, false, Option, none, some, List, [], ◌∷◌}
use ku_crud.Types.{
  TableDefPayload, m2m, Role, TableGrant, LiveColumn, number, text, table, email, ValidationRule,
  asc, grid, kanban, calendar, enum, datetime, TableGroup, TableDef,
}
use ku_crud.Roles.{no_grant, open_edit, saved_grants}
use ku_crud.Roles.Laws.{saved_grants-open_edit}
use ku_crud.Sidebar.{by_group}
use ku_crud.Sidebar.Counts.{listed}
use ku_crud.Sidebar.Laws.{by_group-readable}
use ku_crud.Labels.{Casing}
use ku_crud.TableForm.{FormState, populate, no_view_config, no_actions}
use ku_crud.TableForm.Columns.{save_body, rel_name, new_rel, add_rel, remove_rel, parse_options}
use ku_crud.TableForm.Saved.{body_of, save_body-populate}
use ku_crud.TableForm.Views.{
  ViewEdit, view_picked, board_picked, start_picked, view_edits, view_offered, view_effect,
  end_options, pick_result, type_formula, new_computed, add_computed,
}
use ku_crud.TableForm.Views.Sound.{names_columns, view_edits-names_columns}
use ku_crud.Tests.Samples.{books, column}

abbrev grant : TableGrant
grant = record (no_grant "7") { can_read = true }

abbrev editor : Role
editor = record {
  id = "2";
  name = "Editor";
  is_admin = false;
  manage_datasources = false;
  manage_tables = false;
  view_audit = false;
  view_outbox = false;
  tables = grant ∷ no_grant "8" ∷ [];
  user_count = 1;
}

saved_grants-open_edit_example : saved_grants (books.table_def ∷ []) (open_edit editor) ≡ grant ∷ []
saved_grants-open_edit_example =
    saved_grants-open_edit editor (books.table_def ∷ []) (refl, (refl, tt))

abbrev blank : FormState
blank = record {
  ds_id = "";
  schema = "";
  table_name = "";
  source_type = table;
  query_sql = "";
  dropped = [];
  label = "";
  description = "";
  page_size = 20;
  default_sort_col = "";
  default_sort_dir = asc;
  keys = [];
  cols = [];
  default_view = grid;
  view_config = no_view_config;
  hooks = [];
  actions = no_actions;
}

-- with a number that is formatted, and a relation whose referred column the server has found out
abbrev stored_books : TableDefPayload
stored_books = record books {
  columns =
      record (column number "id") {
        formatting = some (record {
          enum_colors = none;
          number_format = some (record { thousands = some true; decimals = some 2; prefix = none });
        });
        validations = some (record { type = email; param = none } ∷ []);
      }
      ∷ record (column m2m "tags") {
        m2m_junction_def_id = some "9";
        m2m_junction_src_col = some "book";
        m2m_junction_tgt_col = some "tag";
        m2m_ref_column = some "id";
      }
      ∷ [];
}

save_body-populate_example : save_body (populate stored_books blank) ≡ body_of stored_books
save_body-populate_example = save_body-populate stored_books blank (
  refl,
  (((refl, refl, refl, refl), (refl, refl, refl, refl, refl)), ((refl, refl, refl, refl), tt)),
)

abbrev same_case : Casing
same_case = record { upper = λ s. s; lower = λ s. s }

abbrev live : List LiveColumn
live =
    record { name = "id"; field_type = number; nullable = false; is_pk = true; enum_options = none }
    ∷ record {
      name = "title";
      field_type = text;
      nullable = true;
      is_pk = false;
      enum_options = none;
    }
    ∷ []

abbrev email_only : Option (List ValidationRule)
email_only = some (record { type = email; param = none } ∷ [])

-- A comma typed after an option is gone at once.
parse_options_test : parse_options "new," ≡ "new" ∷ []
unfolding parse_options
parse_options_test = refl

abbrev shelf : TableGroup
shelf = record { id = "g1"; name = "Shelf"; position = 0 }

abbrev shelved : TableDef
shelved = record (books.table_def) { group_id = some "g1" }

-- a table of a group that is not there, and one that may not be read
abbrev lost : TableDef
lost = record (books.table_def) { group_id = some "g9" }

abbrev secret : TableDef
secret = record (books.table_def) {
  permissions = record { read = false; create = true; update = true; delete = true };
}

by_group-readable_example :
    ((by_group (shelf ∷ []) (shelved ∷ secret ∷ lost ∷ []) "g1" ≡ shelved ∷ []) × Unit {0})
    × (by_group (shelf ∷ []) (shelved ∷ secret ∷ lost ∷ []) "" ≡ lost ∷ [])
    × (length (by_group (shelf ∷ []) (shelved ∷ secret ∷ lost ∷ []) "")
          + listed (shelf ∷ []) (shelved ∷ secret ∷ lost ∷ []) (shelf ∷ [])
        ≡ 2)
by_group-readable_example =
    by_group-readable (shelf ∷ []) (shelved ∷ secret ∷ lost ∷ []) (refl, refl, tt)

abbrev views_form : FormState
views_form = record blank {
  cols =
      record { column = column enum "state"; live_pk = none; orig_type = none; fk_ds = none }
      ∷ record { column = column datetime "due"; live_pk = none; orig_type = none; fk_ds = none }
      ∷ [];
}

-- the column due is no enum, so it is not offered for the board
abbrev view_clicks : List ViewEdit
view_clicks =
    start_picked "due"
    ∷ view_picked kanban
    ∷ board_picked "state"
    ∷ board_picked "due"
    ∷ view_picked calendar
    ∷ start_picked "due"
    ∷ []

view_clicks_test : (view_edits view_clicks views_form).view_config ≡ record no_view_config {
  kanban_board_column = some "state";
  calendar_start_column = some "due";
}
unfolding view_edits view_offered view_effect end_options
view_clicks_test = refl

view_edits-names_columns_example :
    names_columns (view_edits view_clicks views_form).view_config views_form.cols ≡ true
view_edits-names_columns_example = view_edits-names_columns view_clicks views_form refl

computed_test :
    (pick_result text (type_formula "a + b" (new_computed "Sum" 2))).column
    ≡ record (new_computed "Sum" 2).column { field_type = text; computed_formula = some "a + b" }
unfolding pick_result type_formula
computed_test = refl

-- A relation is added and a computed column, the relation is removed, and another computed column is
-- added: it has the name of the first.
computed_names_test :
    map
      (λ c. c.name)
      (add_computed "Sum" (remove_rel "m2m_0" (add_computed "Sum" (add_rel "Tags" []))))
    ≡ "computed_2" ∷ "computed_2" ∷ []
unfolding add_computed new_computed add_rel new_rel rel_name remove_rel
computed_names_test = refl
