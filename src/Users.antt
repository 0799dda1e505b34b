-- ===== src/Users.antt =====
-- web/src/pages/Users.tsx: the form of a user, and what is sent.
use ku_crud.Base.{
  ℕ, ◌+◌, String, Bool, true, false, not, ◌&&◌, ◌||◌, Option, none, some, List, [], ◌∷◌, ◌==◌, ltb,
  if◌then◌else◌, or_else, get_elem?, find,
}
use ku_crud.Base.Assoc.{Assoc}
use ku_crud.Base.Text.{template}
use ku_crud.Types.{User, Role}
use Prim.Native.Char.{code}
use ku_crud.Value.{Value, bool, str, obj, fields}
use ku_crud.Api.{Request, post, put, delete, json, no_body, request}

pub data Mode : Type 0 where
  new edit : Mode

pub record UserForm : Type 0 where
  pub mode : Mode
  pub user : Option User
  pub username : String
  pub password : String
  pub role_id : String
  pub disabled : Bool

abbrev pub empty_form : UserForm
empty_form = record {
  mode = new;
  user = none;
  username = "";
  password = "";
  role_id = "";
  disabled = false;
}

-- the edit button, which the first user does not have
unfoldable pub open_edit : User → Option UserForm
open_edit u =
    if u.is_first
    then none
    else some (record {
      mode = edit;
      user = some u;
      username = u.username;
      password = "";
      role_id = u.role_id;
      disabled = u.disabled;
    })

-- The effect on the form and the roles: a form without a role gets its user's, or the first role that
-- is not the administrators', or the first of all.
abbrev role_of : Option Role → Option String
role_of none = none
role_of (some r) = some r.id

abbrev first_choice : UserForm → List Role → String
first_choice f roles = elim f.user [
  | some u ↦ u.role_id
  | none ↦
      or_else (role_of (find (λ r. not r.is_admin) roles))
        (or_else (role_of (get_elem? roles 0)) "")
]

unfoldable pub fill_role : List Role → UserForm → UserForm
fill_role roles f = if f.role_id == "" then record f { role_id = first_choice f roles } else f

-- `s.length`, in units of UTF-16
unfoldable pub utf16_length : String → ℕ
utf16_length String.[] = 0
utf16_length (String.◌∷◌ c s) = utf16_length s + (if ltb (code c) 65536 then 1 else 2)

-- whether the button saves
unfoldable pub can_save : UserForm → Bool
unfolding utf16_length
can_save f =
    not (f.role_id == "")
    && elim f.mode [ new ↦ not (f.username == "" || ltb (utf16_length f.password) 4) | edit ↦ true ]

abbrev optional_password : String → Assoc Value
optional_password p = if p == "" then [] else ("password", str p) ∷ []

-- `form!.user!` of a form without a user is none
unfoldable pub save_request : UserForm → Option Request
save_request f = elim f.mode [
  | new ↦ some (
      request post "/users" (
        json (
          obj (
            fields (
              ("username", str f.username)
              ∷ ("password", str f.password)
              ∷ ("roleId", str f.role_id)
              ∷ [])))))
  | edit ↦ elim f.user [
    | none ↦ none
    | some u ↦ some (
        request put (template ("/users/" ∷ u.id ∷ [])) (
          json (
            obj (
              fields (
                ("roleId", str f.role_id)
                ∷ ("disabled", bool f.disabled)
                ∷ optional_password f.password)))))
  ]
]

-- after the user has agreed
unfoldable pub delete_request : User → Option Request
delete_request u =
    if u.is_first then none else some (request delete (template ("/users/" ∷ u.id ∷ [])) no_body)
