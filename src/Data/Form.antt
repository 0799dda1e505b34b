-- ===== src/Data/Form.antt =====
-- The form of one row in web/src/pages/Data.tsx, and web/src/lib/jsondetect.ts: what it is opened
-- with, what the save button checks, and what is sent.
pub mod Laws
pub mod Save
use ku_crud.Base.{
  String, Bool, true, false, not, ◌&&◌, ◌||◌, Option, none, some, List, [], ◌∷◌, ◌++◌, map, ◌==◌,
  if◌then◌else◌, or_else, is_some, any, filter,
}
use ku_crud.Base.Assoc.{Assoc, insert, erase}
use ku_crud.Base.Text.{template, trim_start}
use text.Mathlib.Text.{starts_with}
use ku_crud.Value.{Value, Row, undef, null, str, obj, fields, cell}
use ku_crud.Types.{ColumnDef, TableDefPayload, is_json, is_text, is_m2m}
use ku_crud.Api.{Json, Request, post, put, request, json, Result, ok, err, thrown}
use ku_crud.RowKey.{encode_row_key}
use ku_crud.Data.Session.{Form, Mode, create, edit}
use ku_crud.Data.Bulk.{row_key}

abbrev pub includes : String → List String → Bool
includes k ks = any (λ x. x == k) ks

-- web/src/lib/jsondetect.ts
unfoldable pub looks_like_json : Json → String → Bool
unfolding trim_start
looks_like_json js s =
    let t = trim_start s in (starts_with "{" t || starts_with "[" t) && is_some (js.parse t)

abbrev pretty_or : Json → String → Option Value → String
pretty_or js s none = s
pretty_or js s (some v) = js.pretty v

unfoldable pub pretty_json : Json → String → String
pretty_json js s = pretty_or js s (js.parse s)

-- one round of the loop in `prettifyFormRow`: the column, its value, the row and the modes so far
unfoldable pub prettify_cell : Json → ColumnDef → Value → Row × List String → Row × List String
unfolding looks_like_json pretty_json insert
prettify_cell js c (str s) (row, modes) =
    if is_json c.field_type
    then (insert c.name (str (pretty_json js s)) row, modes)
    else if is_text c.field_type && looks_like_json js s
    then (insert c.name (str (pretty_json js s)) row, modes ++ c.name ∷ [])
    else (row, modes)
prettify_cell js c _ acc = acc

unfoldable pub prettify : Json → List ColumnDef → Row × List String → Row × List String
unfolding prettify_cell cell
prettify js [] acc = acc
prettify js (c ∷ cols) (row, modes) =
    prettify js cols (prettify_cell js c (cell row c.name) (row, modes))

-- `for (const k of keyCols) delete copiedRow[k]`
unfoldable pub erase_all : List String → Row → Row
unfolding erase
erase_all [] row = row
erase_all (k ∷ ks) row = erase_all ks (erase k row)

unfoldable pub handle_copy : Json → TableDefPayload → Row → Form
unfolding prettify erase_all
handle_copy js def row =
    let p = prettify js def.columns (row, []) in
    record {
      mode = create;
      row = erase_all def.key_columns (p.0);
      initial_key = none;
      json_modes = some (p.1);
    }

-- the edit button of a row
unfoldable pub open_edit : Json → TableDefPayload → Row → Form
unfolding prettify row_key
open_edit js def row =
    let p = prettify js def.columns (row, []) in
    record {
      mode = edit;
      row = p.0;
      initial_key = row_key def.key_columns row;
      json_modes = some (p.1);
    }

unfoldable pub modal_fields : TableDefPayload → List ColumnDef
modal_fields def =
    filter
      (λ c. c.editable || includes c.name def.key_columns || is_m2m c.field_type || c.is_computed)
      def.columns

-- `undefined`, null and the empty text
abbrev pub is_blank : Value → Bool
is_blank undef = true
is_blank null = true
is_blank (str s) = s == ""
is_blank _ = false

abbrev pub is_undef : Value → Bool
is_undef undef = true
is_undef _ = false

-- the loop that fills `payload`, which leaves out the values that are to be skipped
unfoldable pub payload : (Value → Bool) → List ColumnDef → Row → Assoc Value → Assoc Value
unfolding cell insert
payload skip [] row acc = acc
payload skip (c ∷ cols) row acc =
    payload skip cols row
      (if skip (cell row c.name) then acc else insert c.name (cell row c.name) acc)

unfoldable pub create_payload : TableDefPayload → Row → Assoc Value
unfolding payload modal_fields
create_payload def row = payload is_blank (modal_fields def) row []

-- `sendCols`, from the visible columns that are editable
unfoldable pub send_cols : TableDefPayload → List ColumnDef
send_cols def =
    filter (λ c. not (includes c.name def.key_columns))
      (filter (λ c. c.editable) (filter (λ c. c.visible) def.columns))
    ++ filter (λ c. is_m2m c.field_type) def.columns

unfoldable pub edit_payload : TableDefPayload → Row → Assoc Value
unfolding payload send_cols
edit_payload def row = payload is_undef (send_cols def) row []

abbrev pub or_key : Option (List Value) → Option (List Value) → Option (List Value)
or_key (some k) other = some k
or_key none other = other

abbrev pub put_row : Json → String → Assoc Value → Option (List Value) → Result Request
put_row js name body none = err (thrown "row has a null key value")
put_row js name body (some key) = ok (
    request put (template ("/data/" ∷ name ∷ "/rows/" ∷ encode_row_key js key ∷ []))
      (json (obj (fields body))))

-- what `save` asks of the server, or the exception it ends with
unfoldable pub save_request : Json → String → TableDefPayload → Mode → Form → Result Request
unfolding create_payload edit_payload row_key
save_request js name def create form = ok (
    request post (template ("/data/" ∷ name ∷ "/rows" ∷ []))
      (json (obj (fields (create_payload def form.row)))))
save_request js name def edit form =
    put_row js name (edit_payload def form.row)
      (or_key form.initial_key (row_key def.key_columns form.row))

abbrev pub bad_text : Json → Value → Bool
bad_text js (str s) = not (is_some (js.parse s))
bad_text js _ = false

unfoldable pub missing : TableDefPayload → Row → List ColumnDef
unfolding modal_fields cell
missing def row =
    filter
      (λ c. c.required && (not (includes c.name def.key_columns) && is_blank (cell row c.name)))
      (modal_fields def)

unfoldable pub bad_json : Json → TableDefPayload → Form → List ColumnDef
unfolding modal_fields cell
bad_json js def form =
    filter
      (λ c.
        (is_json c.field_type
          || (is_text c.field_type && includes c.name (or_else form.json_modes [])))
        && bad_text js (cell form.row c.name))
      (modal_fields def)

-- A message shown instead of saving, with the labels it names; or the save.
pub data Submit : Type 0 where
  required_missing : List String → Submit
  invalid_json : List String → Submit
  save : Submit

abbrev labels : List ColumnDef → List String
labels cols = map (λ c. c.label) cols

abbrev pub decide : List ColumnDef → List ColumnDef → Submit
decide [] [] = save
decide [] (c ∷ bad) = invalid_json (labels (c ∷ bad))
decide (c ∷ gone) bad = required_missing (labels (c ∷ gone))

-- the save button
unfoldable pub submit : Json → TableDefPayload → Form → Submit
unfolding missing bad_json
submit js def form = decide (missing def form.row) (bad_json js def form)

abbrev pub saved_by : Submit → Result Request → Option Request
saved_by save (ok r) = some r
saved_by save (err e) = none
saved_by (required_missing l) a = none
saved_by (invalid_json l) a = none

-- the request that a press of the button makes, none where a message or an exception comes instead
unfoldable pub press_save : Json → String → TableDefPayload → Form → Option Request
unfolding submit save_request
press_save js name def form =
    saved_by (submit js def form) (save_request js name def form.mode form)
