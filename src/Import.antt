-- ===== src/Import.antt =====
-- web/src/pages/Import.tsx: the steps of an import of rows from a file. A file is its name.
pub mod Run
pub mod Current
pub mod Laws
use ku_crud.Base.{
  ℕ, String, Bool, ◌||◌, Option, none, some, List, [], ◌∷◌, ◌==◌, ltb, if◌then◌else◌, any, filter,
}
use ku_crud.Base.Assoc.{Assoc, insert}
use ku_crud.Base.Text.{template}
use ku_crud.Types.{ColumnDef, TableDefPayload}
use ku_crud.Api.{Json, Request, Body, post, request, Result, ok, err, Failure, thrown}
use ku_crud.Value.{Value, str, obj, fields}

pub record ImportRowError : Type 0 where
  pub column : String
  pub message : String

pub record ImportRow : Type 0 where
  pub values : Assoc String
  pub valid : Bool
  pub errors : Option (List ImportRowError)

pub record Counts : Type 0 where
  pub total : ℕ
  pub valid : ℕ
  pub invalid : ℕ

pub record PreviewRes : Type 0 where
  pub delimiter : String
  pub headers : List String
  pub mapping : Assoc String
  pub counts : Counts
  pub rows : List ImportRow

pub record ApplyRes : Type 0 where
  pub inserted : ℕ
  pub failed : ℕ
  pub failures : List (ℕ × List ImportRowError)

pub record ImportState : Type 0 where
  pub file : Option String
  pub mapping : Assoc String
  pub preview : Option PreviewRes
  pub result : Option ApplyRes
  pub error : String

pub data ApplyMode : Type 0 where
  valid_rows all_rows : ApplyMode

abbrev mode_text : ApplyMode → String
mode_text valid_rows = "valid"
mode_text all_rows = "all"

abbrev str_entries : Assoc String → Assoc Value
str_entries [] = []
str_entries ((k, v) ∷ m) = (k, str v) ∷ str_entries m

abbrev mapping_text : Json → Assoc String → String
mapping_text js m = js.stringify (obj (fields (str_entries m)))

-- a file is chosen, or the choice is cancelled; a file that is chosen is uploaded at once
unfoldable pub pick_file : Option String → ImportState → ImportState
pick_file f s = record s { file = f; preview = none; result = none }

-- the requests: the first look at a file, one with the mapping as it is now, and the import
unfoldable pub upload_request : String → String → Request
upload_request name file =
    request post (template ("/data/" ∷ name ∷ "/import/preview" ∷ [])) (Body.form file [])

unfoldable pub repreview_request : Json → String → ImportState → Result Request
repreview_request js name s = elim s.file [
  | none ↦ err (thrown "no file")
  | some f ↦ ok (
      request post (template ("/data/" ∷ name ∷ "/import/preview" ∷ []))
        (Body.form f (("mapping", mapping_text js s.mapping) ∷ [])))
]

unfoldable pub apply_request : Json → String → ApplyMode → ImportState → Result Request
apply_request js name mode s = elim s.file [
  | none ↦ err (thrown "no file")
  | some f ↦ ok (
      request post (template ("/data/" ∷ name ∷ "/import/apply" ∷ []))
        (Body.form f (("mapping", mapping_text js s.mapping) ∷ ("mode", mode_text mode) ∷ [])))
]

-- the answers; `title` is `humanError`
unfoldable pub uploaded : (title : Failure → String) → Result PreviewRes → ImportState → ImportState
uploaded title (ok res) s = record s {
  preview = some res;
  mapping = res.mapping;
  result = none;
  error = "";
}
uploaded title (err e) s = record s { error = title e }

unfoldable pub repreviewed :
    (title : Failure → String) → Result PreviewRes → ImportState → ImportState
repreviewed title (ok res) s = record s { preview = some res; error = "" }
repreviewed title (err e) s = record s { error = title e }

unfoldable pub applied : (title : Failure → String) → Result ApplyRes → ImportState → ImportState
applied title (ok res) s = record s { result = some res }
applied title (err e) s = record s { error = title e }

-- the column picked for a header of the file
unfoldable pub map_header : String → String → ImportState → ImportState
unfolding insert
map_header h v s = record s { mapping = insert h (if v == "ignore" then "" else v) s.mapping }

unfoldable pub mappable_cols : TableDefPayload → List ColumnDef
mappable_cols def = filter (λ c. c.editable || any (λ k. k == c.name) def.key_columns) def.columns

abbrev counted : (Counts → ℕ) → Option PreviewRes → ℕ
counted f none = 0
counted f (some p) = f p.counts

-- whether the button of a mode can be pressed
unfoldable pub may_apply : ApplyMode → ImportState → Bool
may_apply valid_rows s = ltb 0 (counted (λ c. c.valid) s.preview)
may_apply all_rows s = ltb 0 (counted (λ c. c.total) s.preview)
