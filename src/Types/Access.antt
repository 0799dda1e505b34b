-- ===== src/Types/Access.antt =====
-- Datasources, the signed-in user, users, roles and the audit trail of web/src/lib/types.ts.
use ku_crud.Base.{ℕ, String, Bool, Option, List}
use ku_crud.Base.Assoc.{Assoc}
use ku_crud.Value.{Value}

pub record Datasource : Type 0 where
  pub id : String
  pub name : String
  pub driver : String
  pub host : String
  pub port : ℕ
  pub dbname : String
  pub username : String
  pub sslmode : String

pub record AuditEntry : Type 0 where
  pub id : String
  pub user_id : String
  pub username : String
  pub table_def_id : String
  pub action : String
  pub row_pk : String
  pub old_values : Option (Assoc Value)
  pub new_values : Option (Assoc Value)
  pub created_at : String

pub record Me : Type 0 where
  pub username : String
  pub is_admin : Bool
  pub manage_datasources : Bool
  pub manage_tables : Bool
  pub view_audit : Bool
  pub view_outbox : Bool
  pub language : Option String

pub record User : Type 0 where
  pub id : String
  pub username : String
  pub role_id : String
  pub role_name : String
  pub disabled : Bool
  pub is_first : Bool

pub record TableGrant : Type 0 where
  pub table_def_id : String
  pub can_read : Bool
  pub can_create : Bool
  pub can_update : Bool
  pub can_delete : Bool

pub record Role : Type 0 where
  pub id : String
  pub name : String
  pub is_admin : Bool
  pub manage_datasources : Bool
  pub manage_tables : Bool
  pub view_audit : Bool
  pub view_outbox : Bool
  pub tables : List TableGrant
  pub user_count : ℕ
