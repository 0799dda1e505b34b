-- ===== src/Access.antt =====
-- web/src/pages/Login.tsx and web/src/pages/Setup.tsx: signing in, and the first user.
use ku_crud.Base.{String, Bool, true, false, Option, none, some, ◌∷◌, [], ◌==◌, if◌then◌else◌}
use ku_crud.Value.{Value, str, obj, fields}
use ku_crud.Api.{Request, post, json, request, Result, ok, err, Failure, api_error, thrown}

pub record SignIn : Type 0 where
  pub username : String
  pub password : String
  pub show_password : Bool
  pub loading : Bool
  pub error : String

abbrev credentials : SignIn → Value
credentials s = obj (fields (("username", str s.username) ∷ ("password", str s.password) ∷ []))

-- the submission of a form: what the page shows while it waits, and the request
unfoldable pub submit_login : SignIn → SignIn × Request
submit_login s =
    (record s { error = ""; loading = true }, request post "/auth/login" (json (credentials s)))

unfoldable pub submit_setup : SignIn → SignIn × Request
submit_setup s =
    (record s { error = ""; loading = true }, request post "/setup" (json (credentials s)))

abbrev is_auth : Value → Bool
is_auth (Value.str c) = c == "AUTH"
is_auth _ = false

-- `title` is that of `humanError`
abbrev login_error : (title : Failure → String) → Failure → String
login_error title (api_error e) = if is_auth e.code then e.message else title (api_error e)
login_error title (thrown m) = title (thrown m)

abbrev setup_error : (failed : String) → Failure → String
setup_error failed (api_error e) = e.message
setup_error failed (thrown m) = failed

-- the answers, with the page that is gone to
unfoldable pub logged_in {ℓ} :
    {A : Type ℓ} → (title : Failure → String) → Result A → SignIn → SignIn × Option String
logged_in title (ok r) s = (record s { loading = false }, some "/")
logged_in title (err e) s = (record s { error = login_error title e; loading = false }, none)

unfoldable pub set_up {ℓ} :
    {A : Type ℓ} → (failed : String) → Result A → SignIn → SignIn × Option String
set_up failed (ok r) s = (record s { loading = false }, some "/login")
set_up failed (err e) s = (record s { error = setup_error failed e; loading = false }, none)

-- where each page leads, by whether the first user is still needed; an error leads nowhere
unfoldable pub login_redirect : Result Bool → Option String
login_redirect (ok needed) = if needed then some "/setup" else none
login_redirect (err e) = none

unfoldable pub setup_redirect : Result Bool → Option String
setup_redirect (ok needed) = if needed then none else some "/login"
setup_redirect (err e) = none
