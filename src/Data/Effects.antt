-- ===== src/Data/Effects.antt =====
-- What web/src/pages/Data.tsx does beside the grid: the check of the definition against the
-- database, the form that a link opens, the answers to an action, a deletion and an export (with that
-- of web/src/pages/MetaTransfer.tsx), and the saved filters.
use Prim.Native.Char.{code}
use ku_crud.Base.{
  ℕ, String, ◌≡◌, refl, Bool, true, false, not, ◌&&◌, ◌||◌, Option, none, some, List, [], ◌∷◌, map,
  ◌==◌, eqb, if◌then◌else◌, or_else, any, find,
}
use ku_crud.Base.Assoc.{Assoc}
use ku_crud.Base.Text.{show, join, template}
use ku_crud.Value.{Value, Row, undef, str, arr, obj, items, fields, is_nullish, to_text}
use ku_crud.Types.{TableDefPayload, CustomAction}
use ku_crud.Api.{
  Json, Request, get, post, delete, json, no_body, request, prop, Result, ok, err, Failure,
  api_error, thrown,
}
use ku_crud.FilterBar.{ActiveFilter, serialize_filters, truthy}
use ku_crud.Data.Session.{Form}
use ku_crud.Data.Form.{open_edit}

-- The state of the check: the drift that the server has found, and a failed connection as a text.
pub record Checked : Type 0 where
  pub drift : Option Value
  pub conn_err : String

abbrev pub has_code : String → Failure → Bool
has_code name (api_error e) = elim e.code [ str s ↦ s == name | _ ↦ false ]
has_code name (thrown m) = false

abbrev detail_of : Failure → Value
detail_of (api_error e) = e.detail
detail_of (thrown m) = undef

unfoldable pub verify_request : String → Request
verify_request id = request get (template ("/tables/" ∷ id ∷ "/verify" ∷ [])) no_body

-- `title` is `humanError`; any other failure is thrown on, and leaves the state as it is.
unfoldable pub verified {ℓ} :
    {A : Type ℓ} → (title : Failure → String) → Result A → Checked → Checked
verified title (ok a) s = record { drift = none; conn_err = "" }
verified title (err e) s =
    if has_code "DRIFT" e
    then record s { drift = some (detail_of e) }
    else if has_code "CONN" e
    then record s { conn_err = title e }
    else s

unfoldable pub resync_request : String → Request
resync_request id = request post (template ("/tables/" ∷ id ∷ "/resync" ∷ [])) no_body

unfoldable pub resynced : Checked → Checked
resynced s = record s { drift = none }

-- the row that a link with `autoEdit` means: the first that has the text in any of its cells
abbrev has_text : String → String × Value → Bool
has_text text (k, v) = not (is_nullish v) && to_text v == text

unfoldable pub auto_row : String → List Row → Option Row
unfolding to_text
auto_row text rows = find (λ r. any (has_text text) r) rows

-- What the effect opens. `rows` are none while there are none or they are being fetched again, `def`
-- is none while there is no definition.
unfoldable pub auto_edit :
    Json
    → (id text : String) → Option (List Row)
    → Option TableDefPayload
    → Option Form
    → Option Form
unfolding auto_row open_edit
auto_edit js id text (some rows) (some def) none =
    if text == "" || not (def.id == id)
    then none
    else elim (auto_row text rows) [ none ↦ none | some row ↦ some (open_edit js def row) ]
auto_edit js id text _ _ _ = none

-- the notice after an action, and whether it is one of success; `act.confirm` has been agreed to
unfoldable pub action_notice :
    (t : String → String)
    → (title : Failure → String) → CustomAction
    → Result String
    → Bool × String
action_notice t title act (ok message) = (
  true,
  template (act.label ∷ ": " ∷ (if message == "" then t "data.actionDone" else message) ∷ []),
)
action_notice t title act (err e) = (false, template (act.label ∷ ": " ∷ title e ∷ []))

-- `/filename="?([^";]+)"?/`: the characters up to a quote or a semicolon, which must be some, after
-- a quote that may be there; the leftmost place where this is possible counts.
unfoldable pub name_chars : String → String
name_chars String.[] = ""
name_chars (String.◌∷◌ c s) =
    let rest = name_chars s in
    if eqb (code c) b'"' || eqb (code c) b';' then "" else String.◌∷◌ c rest

abbrev some_name : String → Option String
some_name String.[] = none
some_name (String.◌∷◌ c s) = some (String.◌∷◌ c s)

abbrev after_quote : String → String
after_quote String.[] = ""
after_quote (String.◌∷◌ c s) = if eqb (code c) b'"' then s else String.◌∷◌ c s

unfoldable pub strip_prefix : (prefix s : String) → Option String
strip_prefix String.[] s = some s
strip_prefix (String.◌∷◌ p ps) String.[] = none
strip_prefix (String.◌∷◌ p ps) (String.◌∷◌ c s) =
    let rest = strip_prefix ps s in if eqb (code p) (code c) then rest else none

unfoldable pub name_here : String → Option String
unfolding strip_prefix name_chars
name_here s = elim (strip_prefix "filename=" s) [
  | none ↦ none
  | some rest ↦ some_name (name_chars (after_quote rest))
]

unfoldable pub file_name : String → Option String
unfolding name_here
file_name String.[] = none
file_name (String.◌∷◌ c s) =
    let rest = file_name s in elim (name_here (String.◌∷◌ c s)) [ some n ↦ some n | none ↦ rest ]

-- An export ends with a message to the user, or with a file of a name. `error_body` is the body of
-- an answer that is no success, none where it is not JSON.
pub data Exported : Type 0 where
  alerted : String → Exported
  downloaded : String → Exported

abbrev failed_message : ℕ → Option Value → String
failed_message status none = template ("HTTP " ∷ show status ∷ [])
failed_message status (some e) =
    if truthy (prop e "message")
    then to_text (prop e "message")
    else template ("HTTP " ∷ show status ∷ [])

unfoldable pub exported :
    (t : String → Assoc String → String)
    → (fallback : String) → (is_ok : Bool) → (status : ℕ) → (error_body : Option Value)
    → (disposition : String) → Exported
unfolding file_name show to_text
exported t fallback true status error_body disposition =
    downloaded (or_else (file_name disposition) fallback)
exported t fallback false status error_body disposition =
    alerted (t "data.exportFailed" (("msg", failed_message status error_body) ∷ []))

-- `${def.data?.tableName ?? "table"}.csv`
unfoldable pub csv_name : Option TableDefPayload → String
csv_name def = template ((elim def [ none ↦ "table" | some d ↦ d.table_name ]) ∷ ".csv" ∷ [])

-- the text of a deletion that has failed
abbrev reference_text : Value → String
reference_text x = template (
    to_text (prop x "table")
    ∷ "."
    ∷ to_text (prop x "column")
    ∷ " ("
    ∷ to_text (prop x "count")
    ∷ " rows)"
    ∷ [])

abbrev references : Value → String
references (arr vs) = join ", " (map reference_text (items vs))
references v = if is_nullish v then "" else to_text v

unfoldable pub delete_failed :
    (t : String → Assoc String → String) → (title : Failure → String) → Failure → String
unfolding to_text join
delete_failed t title e =
    let d = references (detail_of e) in
    if has_code "CONFLICT" e
    then t "data.rowReferenced" (("refs", if d == "" then t "data.otherTables" [] else d) ∷ [])
    else title e

-- the requests for saved filters
unfoldable pub saved_filters_request : String → Request
saved_filters_request id = request get (template ("/tables/" ∷ id ∷ "/saved-filters" ∷ [])) no_body

unfoldable pub save_filter_request : Json → String → String → List ActiveFilter → Request
unfolding serialize_filters
save_filter_request js id name filters =
    request post (template ("/tables/" ∷ id ∷ "/saved-filters" ∷ [])) (
      json
        (obj (fields (("name", str name) ∷ ("filters", str (serialize_filters js filters)) ∷ []))))

unfoldable pub del_filter_request : String → String → Request
del_filter_request id fid =
    request delete (template ("/tables/" ∷ id ∷ "/saved-filters/" ∷ fid ∷ [])) no_body

file_name_tests :
    (file_name "attachment; filename=\"books.csv\"" ≡ some "books.csv")
    × (file_name "attachment; filename=books.csv; size=3" ≡ some "books.csv")
    × (file_name "attachment; filename=\"\"" ≡ none)
    × (file_name "inline" ≡ none)
unfolding file_name
file_name_tests = (refl, refl, refl, refl)
