-- ===== src/Types/Hook.antt =====
-- Hooks, custom actions and the outbox of web/src/lib/types.ts.
use ku_crud.Base.{ℕ, String, Bool, true, false, Option, List}
use ku_crud.Value.{Value}

pub data HookEvent : Type 0 where
  before_create after_create before_update after_update before_delete after_delete : HookEvent

abbrev pub same_event : HookEvent → HookEvent → Bool
same_event before_create before_create = true
same_event after_create after_create = true
same_event before_update before_update = true
same_event after_update after_update = true
same_event before_delete before_delete = true
same_event after_delete after_delete = true
same_event _ _ = false

-- `config` is whatever JSON was typed, none for null and undefined.
pub record HookAssignment : Type 0 where
  pub hook : String
  pub config : Option Value
  pub order : ℕ

-- `Partial<Record<HookEvent, HookAssignment[]>>`, in insertion order
abbrev pub HooksConfig : Type 0
HooksConfig = List (HookEvent × List HookAssignment)

pub data HiddenActionKey : Type 0 where
  new_row edit delete copy import_csv export_csv refresh : HiddenActionKey

abbrev pub same_key : HiddenActionKey → HiddenActionKey → Bool
same_key new_row new_row = true
same_key edit edit = true
same_key delete delete = true
same_key copy copy = true
same_key import_csv import_csv = true
same_key export_csv export_csv = true
same_key refresh refresh = true
same_key _ _ = false

pub data ActionGrant : Type 0 where
  read create update delete : ActionGrant

pub data ActionStyle : Type 0 where
  neutral primary danger : ActionStyle

pub record CustomAction : Type 0 where
  pub id : String
  pub label : String
  pub confirm : Option String
  pub grant : ActionGrant
  pub hook : String
  pub config : Option Value
  pub order : ℕ
  pub style : ActionStyle

pub record ActionsConfig : Type 0 where
  pub hidden : Option (List HiddenActionKey)
  pub custom : Option (List CustomAction)

pub data OutboxStatus : Type 0 where
  pending done dead : OutboxStatus

pub record OutboxEntry : Type 0 where
  pub id : String
  pub table_def_id : String
  pub event : String
  pub hook_name : String
  pub status : OutboxStatus
  pub attempts : ℕ
  pub next_retry_at : Option String
  pub last_error : Option String
  pub created_at : String
  pub updated_at : String

pub record OutboxListRes : Type 0 where
  pub entries : List OutboxEntry
  pub total : ℕ
  pub page : ℕ
