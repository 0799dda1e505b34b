-- ===== src/Sidebar/Groups.antt =====
-- The navigation of web/src/components/Sidebar.tsx: the pages that a user is offered, and the
-- requests by which groups are made, named, moved and filled.
use ku_crud.Base.{
  String, Bool, false, ◌&&◌, Option, none, some, List, [], ◌∷◌, ◌++◌, ◌==◌, if◌then◌else◌,
}
use ku_crud.Base.Text.{template}
use ku_crud.Types.{Me, TableDef, TableGroup}
use ku_crud.Value.{Value, null, str, obj, fields, is_nullish, to_text}
use ku_crud.Api.{Request, post, patch, delete, json, no_body, request, Failure, api_error, thrown}

abbrev may : (Me → Bool) → Option Me → Bool
may f none = false
may f (some me) = f me

abbrev shown_if : Bool → List (String × String) → List (String × String)
shown_if b pages = if b then pages else []

-- `navItems`, each with the key of its label and its path
unfoldable pub nav_items : Option Me → List (String × String)
nav_items me =
    let can_ds = may (λ m. m.manage_datasources) me in
    let can_tables = may (λ m. m.manage_tables) me in
    shown_if can_ds (("nav.datasources", "/datasources") ∷ [])
    ++ shown_if (can_ds && can_tables) (("nav.transfer", "/meta") ∷ [])
    ++ (("nav.dashboard", "/dashboard") ∷ ("nav.tables", "/") ∷ ("nav.docs", "/docs") ∷ [])
    ++ shown_if (may (λ m. m.is_admin) me) (("nav.users", "/users") ∷ ("nav.roles", "/roles") ∷ [])
    ++ shown_if (may (λ m. m.view_audit) me) (("nav.audit", "/audit") ∷ [])
    ++ shown_if (may (λ m. m.view_outbox) me) (("nav.hooksOutbox", "/hooks-outbox") ∷ [])

-- `canPlatform`: whether the buttons for groups are there
abbrev pub can_platform : Option Me → Bool
can_platform me = may (λ m. m.manage_tables) me

-- the menu of a table, and the choice of a group in it; none is the choice of no group
unfoldable pub toggle_menu : String → Option String → Option String
toggle_menu id none = some id
toggle_menu id (some opened) = if opened == id then none else some id

abbrev group_value : Option String → Value
group_value none = null
group_value (some id) = str id

unfoldable pub assign_request : TableDef → Option String → Request
assign_request d group =
    request patch (template ("/tables/" ∷ d.id ∷ []))
      (json (obj (fields (("groupId", group_value group) ∷ []))))

abbrev group_path : TableGroup → String
group_path g = template ("/groups/" ∷ g.id ∷ [])

unfoldable pub move_request : TableGroup → (up : Bool) → Request
move_request g up =
    request patch (group_path g)
      (json (obj (fields (("move", str (if up then "up" else "down")) ∷ []))))

-- A prompt gives none where it is cancelled; an empty name is not sent.
abbrev named : Option String → (String → Request) → Option Request
named none send = none
named (some name) send = if name == "" then none else some (send name)

abbrev name_body : String → Value
name_body name = obj (fields (("name", str name) ∷ []))

unfoldable pub rename_request : TableGroup → Option String → Option Request
rename_request g answer =
    named answer (λ name. request patch (group_path g) (json (name_body name)))

unfoldable pub create_request : Option String → Option Request
create_request answer = named answer (λ name. request post "/groups" (json (name_body name)))

unfoldable pub delete_request : TableGroup → (confirmed : Bool) → Option Request
delete_request g confirmed =
    if confirmed then some (request delete (group_path g) no_body) else none

-- the message where a request for a group has failed
unfoldable pub group_failed : (t : String → String) → Failure → String
unfolding to_text
group_failed t (api_error e) =
    template (e.message ∷ ": " ∷ (if is_nullish e.detail then "" else to_text e.detail) ∷ [])
group_failed t (thrown m) = t "nav.groupActionFailed"
