-- ===== src/Types/Column.antt =====
-- Column definitions of web/src/lib/types.ts.
use ku_crud.Base.{ℕ, String, Bool, true, false, Option, List}
use ku_crud.Base.Assoc.{Assoc}

pub data FieldType : Type 0 where
  boolean text number datetime enum uuid json fk m2m : FieldType

-- `c.fieldType === "…"`
abbrev pub is_number : FieldType → Bool
is_number number = true
is_number _ = false

abbrev pub is_text : FieldType → Bool
is_text text = true
is_text _ = false

abbrev pub is_datetime : FieldType → Bool
is_datetime datetime = true
is_datetime _ = false

abbrev pub is_boolean : FieldType → Bool
is_boolean boolean = true
is_boolean _ = false

abbrev pub is_enum : FieldType → Bool
is_enum enum = true
is_enum _ = false

abbrev pub is_json : FieldType → Bool
is_json json = true
is_json _ = false

abbrev pub is_fk : FieldType → Bool
is_fk fk = true
is_fk _ = false

abbrev pub is_m2m : FieldType → Bool
is_m2m m2m = true
is_m2m _ = false

pub data RuleType : Type 0 where
  email min_len max_len number text : RuleType

abbrev pub same_rule : RuleType → RuleType → Bool
same_rule email email = true
same_rule min_len min_len = true
same_rule max_len max_len = true
same_rule RuleType.number RuleType.number = true
same_rule RuleType.text RuleType.text = true
same_rule _ _ = false

pub record ValidationRule : Type 0 where
  pub type : RuleType
  pub param : Option ℕ

pub record NumberFormat : Type 0 where
  pub thousands : Option Bool
  pub decimals : Option ℕ
  pub prefix : Option String

pub record ColumnFormatting : Type 0 where
  pub enum_colors : Option (Assoc String)
  pub number_format : Option NumberFormat

pub record ColumnDef : Type 0 where
  pub name : String
  pub label : String
  pub field_type : FieldType
  pub enum_options : Option (List String)
  pub editable : Bool
  pub required : Bool
  pub visible : Bool
  pub searchable : Bool
  pub sortable : Bool
  pub position : ℕ
  pub validations : Option (List ValidationRule)
  pub is_computed : Bool
  pub computed_formula : Option String
  pub formatting : Option ColumnFormatting
  pub base_type : Option FieldType
  pub fk_table_def_id : Option String
  pub fk_ref_column : Option String
  pub fk_display_columns : Option (List String)
  pub m2m_junction_def_id : Option String
  pub m2m_junction_src_col : Option String
  pub m2m_junction_tgt_col : Option String
  pub m2m_display_columns : Option (List String)
  pub m2m_ref_column : Option String
  pub m2m_target_ref : Option String
