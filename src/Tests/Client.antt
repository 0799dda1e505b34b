-- ===== src/Tests/Client.antt =====
-- The calls of the server, and the language.
use ku_crud.Base.{ℕ, String, ◌≡◌, ◌≢◌, ◌↔◌, ◌⊎◌, true, false, Option, some, [], ◌∷◌, map}
use ku_crud.Base.Assoc.{Assoc}
use ku_crud.Value.{num, null, arr, values}
use text.Mathlib.Text.{starts_with}
use ku_crud.Types.{Me}
use ku_crud.RowKey.{encode_row_key, code_points, key_part}
use ku_crud.RowKey.Symbols.{decode, decode-encode_row_key}
use ku_crud.Tests.Samples.{stub}
use ku_crud.Api.{Json, Response, api, ok, is_ok}
use ku_crud.Api.Laws.{api-redirect_iff, api-ok_iff}

abbrev answer : ℕ → Response
answer status = record { status = status; status_text = "text"; json = some (num "1") }

api-redirect_iff_example : ((api "/tables" (some (answer 401))).redirect ≡ some "/login") ↔ (
    (r : Response) × (some (answer 401) ≡ some r)
    × (r.status ≡ 401)
    × (starts_with "/tables" "/auth/" ≡ false))
api-redirect_iff_example = api-redirect_iff "/tables" (some (answer 401))

api-ok_iff_example : ((api "/tables" (some (answer 200))).result ≡ ok (num "1")) ↔ (
    (r : Response) × (some (answer 200) ≡ some r)
    × (is_ok r.status ≡ true)
    × (((r.status ≡ 204) × (num "1" ≡ null)) ⊎ ((r.status ≢ 204) × (r.json ≡ some (num "1")))))
api-ok_iff_example = api-ok_iff "/tables" (some (answer 200)) (num "1")

abbrev person : String → Option String → Me
person name language = record {
  username = name;
  is_admin = false;
  manage_datasources = false;
  manage_tables = false;
  view_audit = false;
  view_outbox = false;
  language = language;
}

abbrev english : Assoc String
english = ("form.save", "Save") ∷ []

abbrev one_text : Json
one_text = record stub { stringify = λ v. "[\"3\"]" }

decode-encode_row_key_example :
    decode (encode_row_key one_text (num "3" ∷ []))
    ≡ code_points (one_text.stringify (arr (values (map key_part (num "3" ∷ [])))))
decode-encode_row_key_example = decode-encode_row_key one_text (num "3" ∷ [])
