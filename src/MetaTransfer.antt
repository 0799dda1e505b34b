-- ===== src/MetaTransfer.antt =====
-- web/src/pages/MetaTransfer.tsx: the import of metadata, from the file that is chosen over what is
-- selected to what is sent, and the export. A file is its name.
pub mod Laws
use ku_crud.Base.{
  ℕ, String, Bool, true, not, ◌&&◌, ◌||◌, Option, none, some, List, [], ◌∷◌, map, ◌==◌,
  if◌then◌else◌, or_else, is_some, any, filter,
}
use ku_crud.Base.Assoc.{Assoc, lookup, insert}
use ku_crud.Value.{Value, bool, str, arr, obj, values, fields}
use ku_crud.Api.{Json, Request, Body, post, request, Result, ok, err, Failure, api_error, thrown}

pub record DsItem : Type 0 where
  pub ref : String
  pub status : String
  pub conflicts : Option (List String)

pub record Dependency : Type 0 where
  pub ref : String
  pub resolved : Bool

-- `invalid` left out counts as false.
pub record TblItem : Type 0 where
  pub ref : String
  pub status : String
  pub invalid : Bool
  pub reason : Option String
  pub dependencies : List Dependency

pub record PreviewRes : Type 0 where
  pub datasources : List DsItem
  pub tables : List TblItem

pub record ApplyRes : Type 0 where
  pub created_defs : ℕ
  pub updated_defs : ℕ
  pub groups_created : ℕ

pub record Transfer : Type 0 where
  pub file : Option String
  pub preview : Option PreviewRes
  pub ds_mode : Assoc String
  pub ds_password : Assoc String
  pub tbl_mode : Assoc String
  pub groups_sel : Bool
  pub result : Option ApplyRes
  pub error : String

abbrev pub start : Transfer
start = record {
  file = none;
  preview = none;
  ds_mode = [];
  ds_password = [];
  tbl_mode = [];
  groups_sel = true;
  result = none;
  error = "";
}

abbrev identical : String → Bool
identical status = status == "duplicate-identical"

-- the modes that an answer starts with
unfoldable pub initial_ds : List DsItem → Assoc String → Assoc String
unfolding insert
initial_ds [] m = m
initial_ds (d ∷ ds) m =
    initial_ds ds (insert d.ref (if identical d.status then "skip" else "overwrite") m)

unfoldable pub initial_tbl : List TblItem → Assoc String → Assoc String
unfolding insert
initial_tbl [] m = m
initial_tbl (t ∷ ts) m =
    initial_tbl ts
      (insert t.ref (if t.invalid || identical t.status then "skip" else "overwrite") m)

-- `e instanceof ApiError ? e.message : String(e)`
abbrev error_text : (String → String) → Failure → String
error_text to_string (api_error e) = e.message
error_text to_string (thrown message) = to_string message

-- a file is chosen, or the choice is cancelled; a file that is chosen is uploaded
unfoldable pub pick_file : Option String → Transfer → Transfer
pick_file f s = record s { file = f; preview = none; result = none }

unfoldable pub upload_request : String → Request
upload_request file = request post "/meta/import/preview" (Body.form file [])

unfoldable pub uploaded : (String → String) → Result PreviewRes → Transfer → Transfer
unfolding initial_ds initial_tbl
uploaded to_string (ok res) s = record s {
  preview = some res;
  result = none;
  error = "";
  ds_mode = initial_ds res.datasources [];
  ds_password = [];
  tbl_mode = initial_tbl res.tables [];
}
uploaded to_string (err e) s = record s { error = error_text to_string e }

-- the selects, the password, and the box for the groups
unfoldable pub set_ds_mode : String → String → Transfer → Transfer
unfolding insert
set_ds_mode ref v s = record s { ds_mode = insert ref v s.ds_mode }

unfoldable pub set_password : String → String → Transfer → Transfer
unfolding insert
set_password ref v s = record s { ds_password = insert ref v s.ds_password }

unfoldable pub set_tbl_mode : String → String → Transfer → Transfer
unfolding insert
set_tbl_mode ref v s = record s { tbl_mode = insert ref v s.tbl_mode }

unfoldable pub set_groups : Bool → Transfer → Transfer
set_groups b s = record s { groups_sel = b }

abbrev pub mode_of : String → Assoc String → String
mode_of ref m = or_else (lookup ref m) "overwrite"

abbrev pub selected : String → Assoc String → Bool
selected ref m = not (mode_of ref m == "skip")

abbrev pub datasources_of : Option PreviewRes → List DsItem
datasources_of none = []
datasources_of (some p) = p.datasources

abbrev pub tables_of : Option PreviewRes → List TblItem
tables_of none = []
tables_of (some p) = p.tables

-- a data source and a table as they are sent
pub record SentDs : Type 0 where
  pub ref : String
  pub mode : String
  pub password : String

pub record SentTbl : Type 0 where
  pub ref : String
  pub mode : String

unfoldable pub sent_datasources : Transfer → List SentDs
unfolding lookup
sent_datasources s =
    map
      (λ d. record {
        ref = d.ref;
        mode = mode_of d.ref s.ds_mode;
        password = or_else (lookup d.ref s.ds_password) "";
      })
      (filter (λ d. selected d.ref s.ds_mode) (datasources_of s.preview))

unfoldable pub sent_tables : Transfer → List SentTbl
unfolding lookup
sent_tables s =
    map (λ t. record { ref = t.ref; mode = mode_of t.ref s.tbl_mode })
      (filter (λ t. selected t.ref s.tbl_mode) (tables_of s.preview))

unfoldable pub selections : Transfer → Value
unfolding sent_datasources sent_tables
selections s = obj (
    fields (
      (
        "datasources",
        arr (
            values (
              map
                (λ d. obj (
                  fields (
                    ("ref", str d.ref) ∷ ("mode", str d.mode) ∷ ("password", str d.password) ∷ [])))
                (sent_datasources s))),
      )
      ∷ (
        "tables",
        arr (
            values (
              map (λ t. obj (fields (("ref", str t.ref) ∷ ("mode", str t.mode) ∷ [])))
                (sent_tables s))),
      )
      ∷ ("groups", bool s.groups_sel)
      ∷ []))

abbrev apply_to : Json → Transfer → Option String → Option PreviewRes → Result Request
apply_to js s (some f) (some p) = ok (
    request post "/meta/import/apply"
      (Body.form f (("selections", js.stringify (selections s)) ∷ [])))
apply_to js s _ _ = err (thrown "no file")

unfoldable pub apply_request : Json → Transfer → Result Request
unfolding selections
apply_request js s = apply_to js s s.file s.preview

unfoldable pub applied : (String → String) → Result ApplyRes → Transfer → Transfer
applied to_string (ok res) s = record s { result = some res; error = "" }
applied to_string (err e) s = record s { error = error_text to_string e }

-- whether the button that imports can be pressed, and when it is there at all
unfoldable pub any_selected : Transfer → Bool
unfolding lookup
any_selected s =
    any (λ d. selected d.ref s.ds_mode) (datasources_of s.preview)
    || any (λ t. selected t.ref s.tbl_mode) (tables_of s.preview)

abbrev pub apply_shown : Transfer → Bool
apply_shown s = is_some s.preview && not (is_some s.result)

-- What the page offers for a file that has been looked at: a mode for each data source and for each
-- table that is not invalid, and a password for each new data source.
pub data Click : Type 0 where
  ds_mode tbl_mode password : (ref v : String) → Click
  groups : Bool → Click
  answer : Result ApplyRes → Click

abbrev pub is_new : DsItem → Bool
is_new d = d.status == "new"

unfoldable pub offered : Transfer → Click → Bool
offered s (ds_mode ref v) = any (λ d. d.ref == ref) (datasources_of s.preview)
offered s (tbl_mode ref v) = any (λ t. t.ref == ref && not t.invalid) (tables_of s.preview)
offered s (password ref v) = any (λ d. d.ref == ref && is_new d) (datasources_of s.preview)
offered s (groups b) = apply_shown s
offered s (answer res) = apply_shown s

abbrev effect : (String → String) → Click → Transfer → Transfer
effect to_string (ds_mode ref v) s = set_ds_mode ref v s
effect to_string (tbl_mode ref v) s = set_tbl_mode ref v s
effect to_string (password ref v) s = set_password ref v s
effect to_string (groups b) s = set_groups b s
effect to_string (answer res) s = applied to_string res s

-- a click on what is not offered does nothing
unfoldable pub click : (String → String) → Click → Transfer → Transfer
unfolding offered set_ds_mode set_tbl_mode set_password set_groups applied
click to_string k s = if offered s k then effect to_string k s else s

unfoldable pub clicks : (String → String) → List Click → Transfer → Transfer
unfolding click
clicks to_string [] s = s
clicks to_string (k ∷ ks) s = clicks to_string ks (click to_string k s)
