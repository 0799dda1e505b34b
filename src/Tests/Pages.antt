-- ===== src/Tests/Pages.antt =====
-- The panels of columns, and the pages of users, data sources and the audit trail.
use ku_crud.Base.{
  ◌++◌, length, Bool, ◌⊎◌, inl, inr, ◌≡◌, refl, true, false, none, some, List, [], ◌∷◌, ◌==◌,
  if◌then◌else◌,
}
use ku_crud.Types.{enum, fk, number, text, ColumnDef, Role}
use ku_crud.TableForm.{FormCol}
use ku_crud.TableForm.Refs.{
  Panel, FkEdit, table_picked, ref_picked, display_toggled, all_selected, fk_edits,
}
use ku_crud.TableForm.Refs.Card.{Card, RelEdit, junction_picked, src_picked, tgt_picked, rel_edits}
use ku_crud.TableForm.Refs.Panels.{refers_well, fk_edits-refers_well}
use ku_crud.TableForm.Refs.Relates.{relates_well, rel_edits-relates_well}
use ku_crud.TableForm.Columns.{new_rel}
use ku_crud.Users.{UserForm, empty_form, fill_role, can_save}
use ku_crud.Datasources.{empty, pick_driver}
use ku_crud.Audit.{pages}
use ku_crud.Sidebar.Groups.{nav_items, rename_request}
use ku_crud.Tables.{filtered_defs, includes_text, delete_table, can_platform}
use ku_crud.Tables.Search.{IsFound, filtered_defs-IsFound}
use ku_crud.Access.{login_redirect, setup_redirect}
use ku_crud.TableForm.Rows.{is_expanded, toggle_expand, expand_for}
use ku_crud.Labels.{Casing}
use ku_crud.Base.Assoc.{lookup, insert}
use ku_crud.Api.{Result, ok, err}
use ku_crud.Tests.Samples.{books, column}

abbrev author : FormCol
author = record { column = column fk "author"; live_pk = none; orig_type = none; fk_ds = none }

abbrev authors : List ColumnDef
authors = column number "id" ∷ column text "name" ∷ column text "country" ∷ []

abbrev panel : Panel
panel = record {
  ds_id = "1";
  current_id = some "7";
  defs = books ∷ [];
  cols = author ∷ [];
  fetched = λ id. if id == "8" then authors else [];
}

abbrev picked : List FkEdit
picked =
    display_toggled "name"
    ∷ table_picked "8"
    ∷ ref_picked "id"
    ∷ all_selected
    ∷ display_toggled "id"
    ∷ display_toggled "name"
    ∷ []

fk_edits-refers_well_example : refers_well panel (fk_edits panel picked author) ≡ true
fk_edits-refers_well_example = fk_edits-refers_well panel picked author refl

-- What is shown in the end: the column that is referred to cannot be shown.
picked_test : (fk_edits panel picked author).fk_display_columns ≡ some ("country" ∷ [])
unfolding fk_edits
picked_test = refl

abbrev card : Card
card = record {
  current_id = some "7";
  candidates = record books { table_def = record books.table_def { id = "9" } } ∷ [];
  fetched = λ id.
      record (column fk "book") { fk_table_def_id = some "7" }
      ∷ record (column fk "tag") { fk_table_def_id = some "10" }
      ∷ [];
}

abbrev related : List RelEdit
related =
    junction_picked "9"
    ∷ src_picked "tag"
    ∷ src_picked "book"
    ∷ tgt_picked "book"
    ∷ tgt_picked "tag"
    ∷ []

rel_edits-relates_well_example :
    relates_well card (rel_edits card related (new_rel "Tags" 0)) ≡ true
rel_edits-relates_well_example =
    rel_edits-relates_well card related (new_rel "Tags" 0) (unfold new_rel in refl)

related_test :
    let rel = rel_edits card related (new_rel "Tags" 0) in
    (rel.m2m_junction_src_col ≡ some "book")
    × ((rel.m2m_junction_tgt_col ≡ some "tag") × (rel.name ≡ "m2m_books_tag"))
unfolding rel_edits new_rel
related_test = (refl, (refl, refl))

abbrev editor : Role
editor = record {
  id = "2";
  name = "Editor";
  is_admin = false;
  manage_datasources = false;
  manage_tables = false;
  view_audit = false;
  view_outbox = false;
  tables = [];
  user_count = 0;
}

abbrev typed : UserForm
typed = fill_role (record editor { id = "1"; is_admin = true } ∷ editor ∷ []) empty_form

user_tests :
    (typed.role_id ≡ "2")
    × ((can_save (record typed { username = "ann"; password = "abc" }) ≡ false)
        × (can_save (record typed { username = "ann"; password = "abcd" }) ≡ true))
unfolding can_save fill_role
user_tests = (refl, (refl, refl))

page_tests :
    ((pick_driver "mysql" empty).port ≡ 3306)
    × ((pages (some (101, 50)) ≡ 3) × ((pages (some (0, 50)) ≡ 1) × (pages none ≡ 1)))
unfolding pick_driver pages
page_tests = (refl, (refl, (refl, refl)))

nav_tests :
    (nav_items none
      ≡ ("nav.dashboard", "/dashboard") ∷ ("nav.tables", "/") ∷ ("nav.docs", "/docs") ∷ [])
    × (rename_request (record { id = "4"; name = "Shop"; position = 0 }) (some "") ≡ none)
unfolding nav_items rename_request
nav_tests = (refl, refl)

abbrev same_case : Casing
same_case = record { upper = λ s. s; lower = λ s. s }

search_tests :
    (length (filtered_defs same_case "ook" (some (books.table_def ∷ []))) ≡ 1)
    × ((length (filtered_defs same_case "oak" (some (books.table_def ∷ []))) ≡ 0)
        × (delete_table none true books.table_def ≡ none))
unfolding filtered_defs includes_text delete_table can_platform
search_tests = (refl, (refl, refl))

-- The two pages never lead to each other by the same answer.
redirect_test : (r : Result Bool) → (login_redirect r ≡ none) ⊎ (setup_redirect r ≡ none)
unfolding login_redirect setup_redirect
redirect_test (ok true) = inr refl
redirect_test (ok false) = inl refl
redirect_test (err e) = inl refl

expand_tests :
    (is_expanded
        (toggle_expand "title" (toggle_expand "title" []))
        (record { column = column text "title"; live_pk = none; orig_type = none; fk_ds = none })
      ≡ false)
    × (is_expanded
          (expand_for enum "title" [])
          (record { column = column text "title"; live_pk = none; orig_type = none; fk_ds = none })
        ≡ true)
unfolding is_expanded toggle_expand expand_for lookup insert
expand_tests = (refl, refl)

filtered_defs-IsFound_example :
    (IsFound same_case "ook" books.table_def
      × (filtered_defs same_case "ook" (some ([] ++ books.table_def ∷ []))
          ≡ filtered_defs same_case "ook" (some [])
            ++ books.table_def ∷ filtered_defs same_case "ook" (some [])))
    ⊎ ((¬ IsFound same_case "ook" books.table_def)
        × (filtered_defs same_case "ook" (some ([] ++ books.table_def ∷ []))
            ≡ filtered_defs same_case "ook" (some []) ++ filtered_defs same_case "ook" (some [])))
filtered_defs-IsFound_example = filtered_defs-IsFound same_case "ook" [] [] books.table_def
