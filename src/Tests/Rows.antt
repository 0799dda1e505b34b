-- ===== src/Tests/Rows.antt =====
-- The form of a row, its buttons, and how rows are shown.
use ku_crud.Base.{◌≡◌, refl, false, none, some, [], ◌∷◌, ◌==◌, any, is_some, true}
use ku_crud.Base.Assoc.{lookup}
use ku_crud.Value.{str, cell}
use ku_crud.Data.Session.{Form}
use ku_crud.Data.Form.{
  modal_fields, create_payload, edit_payload, handle_copy, submit, open_edit, press_save, prettify,
  missing, bad_json, save_request, send_cols,
}
use ku_crud.Data.Form.Laws.{lookup-edit_payload, create_payload-handle_copy}
use ku_crud.Data.Form.Save.{is_some-press_save}
use ku_crud.Data.Bulk.{row_key, custom_actions, permits}
use ku_crud.Data.Bulk.Buttons.{IsSorted, custom_actions_lem}
use ku_crud.Data.Display.{group_value, group_rows}
use ku_crud.Data.Display.Laws.{lookup-group_rows}
use ku_crud.Tests.Samples.{stub, books, book}

lookup-edit_payload_example :
    lookup "title" (edit_payload books (book "1" "new")) ≡ some (str "Emma")
unfolding cell lookup
lookup-edit_payload_example = lookup-edit_payload books (book "1" "new") "title"

create_payload-handle_copy_example :
    lookup "id" (create_payload books (handle_copy stub books (book "1" "new")).row) ≡ none
create_payload-handle_copy_example =
    create_payload-handle_copy stub books (book "1" "new") "id" refl

abbrev opened : Form
opened = open_edit stub books (book "1" "new")

is_some-press_save_example : is_some (press_save stub "books" books opened) ≡ true
unfolding cell open_edit prettify
is_some-press_save_example = is_some-press_save stub "books" books opened

-- An edited row whose key is not known is not sent, though its columns are acceptable.
unaddressed_test :
    press_save stub "books" books
      (record opened { row = ("title", str "Emma") ∷ []; initial_key = none })
    ≡ none
unfolding press_save submit missing bad_json modal_fields save_request edit_payload send_cols
    row_key cell open_edit
unaddressed_test = refl

custom_actions_lem_example :
    IsSorted (custom_actions books) × (any (λ a. a.id == "act_1") (custom_actions books) ≡ false)
unfolding permits
custom_actions_lem_example = custom_actions_lem books (λ a. a.id == "act_1")

lookup-group_rows_example :
    lookup "new" (group_rows "state" (book "1" "new" ∷ book "2" "old" ∷ book "3" "new" ∷ []) [])
    ≡ some (book "1" "new" ∷ book "3" "new" ∷ [])
unfolding group_value lookup
lookup-group_rows_example =
    lookup-group_rows "state" "new" (book "1" "new" ∷ book "2" "old" ∷ book "3" "new" ∷ []) []
