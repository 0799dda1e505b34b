-- ===== src/Data/Fields.antt =====
-- The inputs of the row form in web/src/pages/Data.tsx: a field of its own type, a reference, and
-- the selection of related rows.
pub mod Laws
use ku_crud.Base.{
  ℕ, zero, suc, String, Bool, true, false, not, ◌&&◌, ◌||◌, Option, none, some, List, [], ◌∷◌, ◌++◌,
  ◌==◌, if◌then◌else◌, or_else, any, filter,
}
use ku_crud.Base.Assoc.{Assoc}
use ku_crud.Base.Text.{show, template}
use ku_crud.Value.{Value, Row, null, bool, num, str, arr, values, cell, is_nullish, to_text}
use ku_crud.Types.{
  ColumnDef, FieldType, is_boolean, is_enum, is_datetime, is_number, is_json, is_text,
}
use ku_crud.Api.{Json, Request, get, no_body}
use ku_crud.RowKey.{encode_row_key}
use ku_crud.Data.Session.{Mode, create, edit}
use ku_crud.Data.Form.{looks_like_json}

-- The input that a field has, with what it shows.
pub data Widget : Type 0 where
  switch : Bool → Widget
  select : Option String → List String → Widget
  moment number area uuid line : String → Widget

unfoldable pub field_text : Value → String
unfolding to_text
field_text v = if is_nullish v then "" else to_text v

abbrev pub is_true : Value → Bool
is_true (bool b) = b
is_true _ = false

-- `s.slice(0, n)`, for characters of one unit
abbrev pub first_chars : ℕ → String → String
first_chars zero s = ""
first_chars (suc n) String.[] = ""
first_chars (suc n) (String.◌∷◌ c s) = String.◌∷◌ c (first_chars n s)

abbrev pub is_uuid : FieldType → Bool
is_uuid FieldType.uuid = true
is_uuid _ = false

-- `FieldInput`
unfoldable pub field_widget : Json → ColumnDef → Value → Widget
unfolding field_text looks_like_json
field_widget js col raw =
    let val = field_text raw in
    if is_boolean col.field_type
    then switch (is_true raw)
    else if is_enum col.field_type
    then select (if val == "" then none else some val) (or_else col.enum_options [])
    else if is_datetime col.field_type
    then moment (first_chars 16 val)
    else if is_number col.field_type
    then Widget.number val
    else if is_json col.field_type || (is_text col.field_type && looks_like_json js val)
    then area val
    else if is_uuid col.field_type
    then Widget.uuid val
    else line val

abbrev pub or_null : String → (String → Value) → Value
or_null s f = if s == "" then null else f s

-- what a text typed or picked in an input becomes; `to_number` is `String(Number(s))`
unfoldable pub typed_value : (to_number : String → String) → Widget → String → Value
typed_value to_number (switch b) s = bool (s == "true")
typed_value to_number (select o options) s = str s
typed_value to_number (moment v) s = or_null s str
typed_value to_number (Widget.number v) s = or_null s (λ x. num (to_number x))
typed_value to_number (area v) s = or_null s str
typed_value to_number (Widget.uuid v) s = or_null s str
typed_value to_number (line v) s = str s

abbrev pub search_part : String → Assoc String
search_part search = if search == "" then [] else ("search", search) ∷ []

-- the options of a reference, and of related rows
unfoldable pub options_request : (kind table_id column search : String) → ℕ → Request
unfolding show
options_request kind table_id column search page = record {
  method = get;
  path = template ("/data/" ∷ table_id ∷ "/" ∷ kind ∷ "/" ∷ column ∷ []);
  query = search_part search ++ ("page", show page) ∷ [];
  body = no_body;
}

-- `handleEditRelated`: where it leads, none for nowhere; `uri` is `encodeURIComponent`
unfoldable pub edit_related : (uri : String → String) → ColumnDef → Row → Option String
unfolding field_text cell
edit_related uri col row =
    let target = or_else col.fk_table_def_id "" in
    let ref = field_text (cell row col.name) in
    if target == "" || target == "self"
    then none
    else some (
        if ref == ""
        then template ("/data/" ∷ target ∷ [])
        else template ("/data/" ∷ target ∷ "?search=" ∷ uri ref ∷ "&autoEdit=" ∷ uri ref ∷ []))

-- the value that a click on an option of a reference stores
unfoldable pub option_value : ColumnDef → Row → Value
unfolding cell
option_value col row = cell row (or_else col.fk_ref_column "")

-- the request for the links of a row, where it is edited and has a key
unfoldable pub links_request :
    Json → (table_id : String) → ColumnDef → Mode → Option (List Value) → Option Request
unfolding encode_row_key
links_request js table_id col edit (some key) =
    let encoded = encode_row_key js key in
    if encoded == ""
    then none
    else some (record {
      method = get;
      path = template ("/data/" ∷ table_id ∷ "/rows/" ∷ encoded ∷ "/m2m/" ∷ col.name ∷ []);
      query = [];
      body = no_body;
    })
links_request js table_id col _ _ = none

-- the effect when the links have come
unfoldable pub links_loaded : Json → Mode → List Value → List Value → List Value
links_loaded js create loaded value = value
links_loaded js edit loaded value =
    if js.stringify (arr (values value)) == js.stringify (arr (values loaded))
    then value
    else loaded

unfoldable pub has_link : String → List Value → Bool
unfolding to_text
has_link k links = any (λ x. to_text x == k) links

-- `toggle`
unfoldable pub toggle_link : Value → List Value → List Value
unfolding has_link to_text
toggle_link v links =
    let others = filter (λ x. not (to_text x == to_text v)) links in
    if has_link (to_text v) links then others else others ++ v ∷ []
