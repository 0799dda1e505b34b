-- ===== src/Types/Table.antt =====
-- Table definitions, groups, saved filters, row pages and cards of web/src/lib/types.ts.
use ku_crud.Base.{ℕ, String, Bool, Option, List}
use ku_crud.Base.Assoc.{Assoc}
use ku_crud.Value.{Value, Row}
use ku_crud.Types.Column.{FieldType, ColumnDef}
use ku_crud.Types.Hook.{HooksConfig, ActionsConfig}

pub record Permissions : Type 0 where
  pub read : Bool
  pub create : Bool
  pub update : Bool
  pub delete : Bool

pub data ViewMode : Type 0 where
  grid kanban calendar : ViewMode

pub record ViewConfig : Type 0 where
  pub kanban_board_column : Option String
  pub kanban_display_column : Option String
  pub calendar_start_column : Option String
  pub calendar_end_column : Option String

pub data SortDir : Type 0 where
  asc desc : SortDir

pub data SourceType : Type 0 where
  table query : SourceType

pub record TableDef : Type 0 where
  pub id : String
  pub datasource_id : String
  pub schema_name : String
  pub table_name : String
  pub label : String
  pub description : Option String
  pub source_type : Option SourceType
  pub query_sql : Option String
  pub key_columns : List String
  pub page_size : ℕ
  pub default_sort_col : String
  pub default_sort_dir : SortDir
  pub default_view : Option ViewMode
  pub view_config : Option ViewConfig
  pub hooks : Option HooksConfig
  pub actions : Option ActionsConfig
  pub group_id : Option String
  pub group_name : Option String
  pub permissions : Permissions

pub record TableDefPayload : Type 0 where
  pub table_def : TableDef
  pub open table_def use *
  pub columns : List ColumnDef

pub record TableGroup : Type 0 where
  pub id : String
  pub name : String
  pub position : ℕ

pub record SavedFilter : Type 0 where
  pub id : String
  pub name : String
  pub filters : String
  pub created_at : String

pub record LiveColumn : Type 0 where
  pub name : String
  pub field_type : FieldType
  pub nullable : Bool
  pub is_pk : Bool
  pub enum_options : Option (List String)

pub record QueryColumn : Type 0 where
  pub name : String
  pub field_type : FieldType
  pub nullable : Bool
  pub is_pk : Option Bool
  pub enum_options : Option (List String)

pub record QueryIntrospectResult : Type 0 where
  pub columns : List QueryColumn
  pub dropped : List String

pub record RowsRes : Type 0 where
  pub rows : List Row
  pub total : ℕ
  pub page : ℕ
  pub page_size : ℕ
  pub rels : Option (Assoc (Assoc Row))
  pub m2m_rels : Option (Assoc (Assoc (List Row)))

pub record FkOptionsRes : Type 0 where
  pub rows : List Row
  pub total : ℕ
  pub page : ℕ
  pub page_size : ℕ

pub data AggFunc : Type 0 where
  count sum avg min max : AggFunc

pub record StatCard : Type 0 where
  pub id : String
  pub table_def_id : String
  pub table_name : String
  pub table_label : String
  pub label : String
  pub func : AggFunc
  pub column : String
  pub filters : String
  pub position : ℕ

pub record StatsResult : Type 0 where
  pub func : AggFunc
  pub column : String
  pub value : Value
  pub has_rows : Bool
