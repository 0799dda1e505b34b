-- ===== src/Roles.antt =====
-- The form of a role in web/src/pages/Roles.tsx.
pub mod Laws
use ku_crud.Base.{String, Bool, false, ◌||◌, List, [], ◌∷◌, map, or_else, filter}
use ku_crud.Base.Assoc.{Assoc, lookup, insert}
use ku_crud.Base.Text.{template}
use ku_crud.Types.{Role, TableGrant, TableDef}
use ku_crud.Value.{Value, str, bool, obj, arr, values, fields}
use ku_crud.Api.{Request, post, put, request, json}

pub data Mode : Type 0 where
  create edit : Mode

-- `RoleForm`
pub record RoleForm : Type 0 where
  pub mode : Mode
  pub id : String
  pub name : String
  pub manage_datasources : Bool
  pub manage_tables : Bool
  pub view_audit : Bool
  pub view_outbox : Bool
  pub grants : Assoc TableGrant

abbrev pub empty_form : RoleForm
empty_form = record {
  mode = create;
  id = "";
  name = "";
  manage_datasources = false;
  manage_tables = false;
  view_audit = false;
  view_outbox = false;
  grants = [];
}

abbrev pub no_grant : String → TableGrant
no_grant def_id = record {
  table_def_id = def_id;
  can_read = false;
  can_create = false;
  can_update = false;
  can_delete = false;
}

unfoldable pub grant_for : RoleForm → String → TableGrant
unfolding lookup
grant_for f def_id = or_else (lookup def_id f.grants) (no_grant def_id)

-- `patch` is what the assignment changes of the grant.
unfoldable pub set_grant : RoleForm → String → (TableGrant → TableGrant) → RoleForm
unfolding grant_for insert
set_grant f def_id patch = record f { grants = insert def_id (patch (grant_for f def_id)) f.grants }

-- `r.tables.forEach((g) => (grants[g.tableDefId] = g))`
unfoldable pub index_grants : List TableGrant → Assoc TableGrant → Assoc TableGrant
unfolding insert
index_grants [] grants = grants
index_grants (g ∷ gs) grants = index_grants gs (insert g.table_def_id g grants)

unfoldable pub open_edit : Role → RoleForm
unfolding index_grants
open_edit r = record {
  mode = edit;
  id = r.id;
  name = r.name;
  manage_datasources = r.manage_datasources;
  manage_tables = r.manage_tables;
  view_audit = r.view_audit;
  view_outbox = r.view_outbox;
  grants = index_grants r.tables [];
}

abbrev pub grants_any : TableGrant → Bool
grants_any g = g.can_read || g.can_create || g.can_update || g.can_delete

-- the grants that are sent, for the tables that there are
unfoldable pub saved_grants : List TableDef → RoleForm → List TableGrant
unfolding grant_for
saved_grants defs f = filter grants_any (map (λ d. grant_for f d.id) defs)

abbrev pub grant_value : TableGrant → Value
grant_value g = obj (
    fields (
      ("tableDefId", str g.table_def_id)
      ∷ ("canRead", bool g.can_read)
      ∷ ("canCreate", bool g.can_create)
      ∷ ("canUpdate", bool g.can_update)
      ∷ ("canDelete", bool g.can_delete)
      ∷ []))

abbrev pub role_body : List TableDef → RoleForm → Value
unfolding saved_grants
role_body defs f = obj (
    fields (
      ("name", str f.name)
      ∷ ("manageDatasources", bool f.manage_datasources)
      ∷ ("manageTables", bool f.manage_tables)
      ∷ ("viewAudit", bool f.view_audit)
      ∷ ("viewOutbox", bool f.view_outbox)
      ∷ ("tables", arr (values (map grant_value (saved_grants defs f))))
      ∷ []))

abbrev pub role_request : Mode → RoleForm → Value → Request
role_request create f body = request post "/roles" (json body)
role_request edit f body = request put (template ("/roles/" ∷ f.id ∷ [])) (json body)

unfoldable pub save_role : List TableDef → RoleForm → Request
save_role defs f = role_request f.mode f (role_body defs f)
