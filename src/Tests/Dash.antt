-- ===== src/Tests/Dash.antt =====
-- The cards of the dashboard.
use ku_crud.Base.{String, ◌≡◌, refl, true, some, List, [], ◌∷◌, ◌==◌, if◌then◌else◌}
use ku_crud.Types.{StatCard, sum, number, ColumnDef}
use ku_crud.Api.{get, no_body}
use ku_crud.Cards.{
  Edit, table_picked, label_typed, func_picked, column_picked, empty_form, opened, edits, can_save,
  save_body, stats_request,
}
use ku_crud.Cards.Laws.{is_sound, can_save-is_sound, opened-unloaded}
use ku_crud.Tests.Samples.{stub, books, column}

abbrev card : StatCard
card = record {
  id = "3";
  table_def_id = "7";
  table_name = "books";
  table_label = "Books";
  label = "Pages";
  func = sum;
  column = "id";
  filters = "[]";
  position = 0;
}

abbrev cols_of : String → List ColumnDef
cols_of id = if id == "7" then books.columns else []

abbrev made : List Edit
made =
    table_picked "7"
    ∷ label_typed " Pages "
    ∷ func_picked sum
    ∷ column_picked (column number "id")
    ∷ []

saves : can_save (edits cols_of made empty_form) ≡ true
unfolding can_save edits
saves = refl

can_save-is_sound_example : is_sound cols_of (save_body stub (edits cols_of made empty_form)) ≡ true
can_save-is_sound_example = can_save-is_sound stub cols_of made empty_form refl saves

opened-unloaded_example :
    ((opened stub [] (some card) empty_form).column ≡ "")
    × ((save_body stub (opened stub [] (some card) empty_form)).filters ≡ "[]")
opened-unloaded_example = opened-unloaded stub card empty_form refl

stats_test : stats_request card ≡ record {
  method = get;
  path = "/data/books/stats";
  query = ("func", "sum") ∷ ("column", "id") ∷ [];
  body = no_body;
}
unfolding stats_request
stats_test = refl
