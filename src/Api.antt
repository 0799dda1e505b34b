-- ===== src/Api.antt =====
-- web/src/lib/api.ts. A request is its method, path, query and body; a body that the source builds
-- by `JSON.stringify` is kept as the value. `fetch` is not modelled: its answer is an argument,
-- `none` when it rejects. `JSON.stringify` and `JSON.parse` are the interface `Json`.
pub mod Laws
use text.Mathlib.Text.{starts_with}
use Prim.Native.String.{◌++◌}
use ku_crud.Base.{ℕ, String, Bool, not, ◌&&◌, Option, none, some, [], ◌∷◌, leb, eqb, if◌then◌else◌}
use ku_crud.Base.Assoc.{Assoc, insert, erase}
use ku_crud.Value.{Value, undef, null, obj, fields, entries, cell, is_nullish, to_text}

pub record Json : Type 0 where
  pub stringify : Value → String
  -- `JSON.stringify(v, null, 2)`
  pub pretty : Value → String
  pub parse : String → Option Value

pub data Method : Type 0 where
  get post put patch delete : Method

-- A file is named, its bytes are not looked at.
pub data Body : Type 0 where
  no_body : Body
  json : Value → Body
  form : (file : String) → Assoc String → Body

pub record Request : Type 0 where
  pub method : Method
  pub path : String
  pub query : Assoc String
  pub body : Body

abbrev pub request : Method → String → Body → Request
request m p b = record { method = m; path = p; query = []; body = b }

-- `json` is none where the body is not JSON.
pub record Response : Type 0 where
  pub status : ℕ
  pub status_text : String
  pub json : Option Value

pub record ApiError : Type 0 where
  pub code : Value
  pub message : String
  pub detail : Value

-- What a promise rejects with: an ApiError, or another exception with its message.
pub data Failure : Type 0 where
  api_error : ApiError → Failure
  thrown : String → Failure

pub data Result {ℓ} (A : Type ℓ) : Type ℓ where
  ok : A → Result A
  err : Failure → Result A

-- `e.key` where `e` is not null or undefined
abbrev pub prop : Value → String → Value
prop (obj m) k = cell (entries m) k
prop _ k = undef

-- `super(message)`: the message of an Error is a text
abbrev message_text : Value → String
message_text undef = ""
message_text v = to_text v

-- `throw new ApiError(e.code, e.message, e.detail)`; reading a field of null is a TypeError
pub reject : Value → Failure
unfolding cell to_text
reject e =
    if is_nullish e
    then thrown "Cannot read properties of null"
    else api_error (record {
      code = prop e "code";
      message = message_text (prop e "message");
      detail = prop e "detail";
    })

-- The headers of a request: JSON by default, none for a form so that the browser sets the boundary.
abbrev base_headers : Body → Assoc String
base_headers (form f m) = erase "Content-Type" (("Content-Type", "application/json") ∷ [])
base_headers _ = ("Content-Type", "application/json") ∷ []

abbrev spread : Assoc String → Assoc String → Assoc String
spread m [] = m
spread m ((k, v) ∷ more) = spread (insert k v m) more

unfoldable pub headers : Body → Assoc String → Assoc String
headers body extra = spread (base_headers body) extra

-- `r.ok`
abbrev pub is_ok : ℕ → Bool
is_ok status = leb 200 status && leb status 299

abbrev pub is_expired : String → ℕ → Bool
is_expired path status = eqb status 401 && not (starts_with path "/auth/")

-- the `catch` of a body that is not JSON
abbrev error_body : Response → Value
error_body r = elim r.json [
  | some v ↦ v
  | none ↦ obj (
      fields (
        ("code", Value.str "INTERNAL")
        ∷ ("message", Value.str r.status_text)
        ∷ ("detail", null)
        ∷ []))
]

abbrev success : Response → Result Value
success r =
    if eqb r.status 204
    then ok null
    else elim r.json [ some v ↦ ok v | none ↦ err (thrown "SyntaxError") ]

abbrev session_expired : Failure
session_expired =
    api_error (record { code = Value.str "AUTH"; message = "session expired"; detail = null })

pub record Outcome : Type 0 where
  pub result : Result Value
  -- the page that `window.location.href` is set to
  pub redirect : Option String

-- The body of `api`, from the answer of `fetch` on.
unfoldable pub api : String → Option Response → Outcome
unfolding reject
api path none = record { result = err (thrown "Failed to fetch"); redirect = none }
api path (some r) =
    if is_expired path r.status
    then record { result = err session_expired; redirect = some "/login" }
    else if not (is_ok r.status)
    then record { result = err (reject (error_body r)); redirect = none }
    else record { result = success r; redirect = none }

unfoldable pub introspect_query : String → String → Request
introspect_query ds_id query =
    request post ("/datasources/" ++ ds_id ++ "/query-introspect")
      (json (obj (fields (("query", Value.str query) ∷ []))))
