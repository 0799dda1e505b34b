-- ===== src/Api/Laws.antt =====
-- The answers and the headers of web/src/lib/api.ts.
use text.Mathlib.Text.{starts_with}
use ku_crud.Base.{
  String, ◌≡◌, refl, ◌∙◌, ◌≢◌, ◌↔◌, ◌⊎◌, true, false, Option, none, some, [], ◌∷◌, arith, eq_iff,
}
use ku_crud.Base.Assoc.{Assoc, lookup, insert, erase, lookup-insert}
use ku_crud.Value.{Value, null}
use ku_crud.Api.{Response, ok, api, is_ok, Body, no_body, json, form, headers, spread}

-- Whatever the answer, the user is sent to the login page exactly when the answer has the status
-- 401 and the path does not begin with /auth/.
pub api-redirect_iff :
    (path : String) (answer : Option Response)
    → ((api path answer).redirect ≡ some "/login") ↔ (
        (r : Response) × (answer ≡ some r) × (r.status ≡ 401) × (starts_with path "/auth/" ≡ false))
unfolding api
api-redirect_iff path none = ((λ e. cc), (λ h. cc (h.1)))
api-redirect_iff path (some r) =
    ((λ e. (r, refl, ground arith, ground arith)), (λ h. ground (arith, h.1)))

-- A call returns a value exactly when an answer came whose status is 2xx and whose body is JSON or
-- the status is 204; the value is then null for 204 and the body otherwise.
pub api-ok_iff :
    (path : String) (answer : Option Response) (v : Value)
    → ((api path answer).result ≡ ok v) ↔ (
        (r : Response) × (answer ≡ some r)
        × (is_ok r.status ≡ true)
        × (((r.status ≡ 204) × (v ≡ null)) ⊎ ((r.status ≢ 204) × (r.json ≡ some v))))
unfolding api
api-ok_iff path none v = ((λ e. cc), (λ h. cc (h.1)))
api-ok_iff path (some r) v =
    ((λ e. (r, refl, ground arith, ground arith)), (λ h. ground (arith, h.1)))

lookup-spread :
    (m extra : Assoc String)
    → lookup "Content-Type" extra ≡ none
    → lookup "Content-Type" (spread m extra) ≡ lookup "Content-Type" m
unfolding lookup
lookup-spread m [] h = refl
lookup-spread m ((k, v) ∷ more) h =
    lookup-spread (insert k v m) more (ground (arith, eq_iff k "Content-Type"))
    ∙ lookup-insert k "Content-Type" v m
    ∙ ground (arith, eq_iff k "Content-Type")

-- A form is sent with no content type, everything else as JSON, unless the caller sets one.
content_type-headers :
    (body : Body) (extra : Assoc String)
    → lookup "Content-Type" extra ≡ none
    → lookup "Content-Type" (headers body extra)
      ≡ elim body [ form f m ↦ none | _ ↦ some "application/json" ]
unfolding headers lookup erase
content_type-headers no_body extra h = lookup-spread _ extra h
content_type-headers (json v) extra h = lookup-spread _ extra h
content_type-headers (form f m) extra h = lookup-spread _ extra h
