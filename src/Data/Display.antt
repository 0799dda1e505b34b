-- ===== src/Data/Display.antt =====
-- How web/src/pages/Data.tsx shows rows, with web/src/lib/format.ts: the cells, the groups of a
-- grouped grid, and the controls of a row.
pub mod Laws
use ku_crud.Base.{
  ℕ, String, Bool, true, false, not, ◌&&◌, ◌||◌, Option, none, some, List, [], ◌∷◌, ◌++◌, ◌==◌,
  if◌then◌else◌, or_else, is_some, any,
}
use ku_crud.Base.Assoc.{Assoc, lookup, insert}
use ku_crud.Base.Text.{join}
use Prim.Native.String.{◌++◌ as ◌⧺◌}
use ku_crud.Value.{Value, Row, undef, null, bool, num, str, cell, is_nullish, to_text}
use ku_crud.Types.{
  ColumnDef, FieldType, ColumnFormatting, NumberFormat, HiddenActionKey, same_key, TableDefPayload,
  ActionsConfig, CustomAction, is_number, is_enum, is_datetime, is_boolean, is_json, is_text, is_fk,
  is_m2m, copy,
}
use ku_crud.I18n.{Lang}
use ku_crud.Api.{Json}
use ku_crud.RowKey.{encode_row_key}
use ku_crud.Data.Form.{looks_like_json, pretty_json}
use ku_crud.Data.Bulk.{row_key, custom_actions, has}

-- `row[f] === null || row[f] === undefined ? null : String(row[f])`, the nulls left out
abbrev pub text_parts : Value → List String
text_parts v = if is_nullish v then [] else to_text v ∷ []

unfoldable pub display_parts : List String → Row → List String
unfolding cell to_text
display_parts [] row = []
display_parts (f ∷ fs) row = text_parts (cell row f) ++ display_parts fs row

-- `maps?.[column]?.[key]`
abbrev pub related {ℓ} : {A : Type ℓ} → Option (Assoc (Assoc A)) → String → String → Option A
unfolding lookup
related maps column key = lookup key (or_else (lookup column (or_else maps [])) [])

abbrev pub joined_rows : List String → List Row → List String
unfolding display_parts join
joined_rows cols [] = []
joined_rows cols (row ∷ rows) = join " — " (display_parts cols row) ∷ joined_rows cols rows

abbrev pub m2m_text : ColumnDef → Option (List Row) → String
unfolding join
m2m_text c none = ""
m2m_text c (some list) = join ", " (joined_rows (or_else c.m2m_display_columns []) list)

abbrev pub m2m_display :
    Option (Assoc (Assoc (List Row))) → ColumnDef → Row → Option String → String
unfolding cell to_text
m2m_display maps c row none = ""
m2m_display maps c row (some ref) =
    if ref == "" then "" else m2m_text c (related maps c.name (to_text (cell row ref)))

abbrev pub parts_text : List String → Option String
unfolding join
parts_text [] = none
parts_text (p ∷ ps) = some (join " — " (p ∷ ps))

abbrev pub fk_text : List String → Option Row → Option String
unfolding display_parts
fk_text cols none = none
fk_text cols (some rel) = parts_text (display_parts cols rel)

abbrev pub fk_label :
    Option (Assoc (Assoc Row)) → ColumnDef → Row → Option (List String) → Option String
unfolding cell to_text
fk_label maps c row none = none
fk_label maps c row (some cols) = fk_text cols (related maps c.name (to_text (cell row c.name)))

-- `fkDisplay`: the text in place of a reference, none where the raw value is shown
unfoldable pub fk_display :
    Option (Assoc (Assoc Row)) → Option (Assoc (Assoc (List Row))) → ColumnDef → Row → Option String
fk_display rels m2m_rels c row =
    if is_m2m c.field_type
    then some (m2m_display m2m_rels c row c.m2m_ref_column)
    else if is_fk c.field_type
    then fk_label rels c row c.fk_display_columns
    else none

-- `Intl.NumberFormat(...)` and `Intl.DateTimeFormat(...)`, none for a text that is no date
pub record Intl : Type 0 where
  pub number : Lang → (decimals : Option ℕ) → (grouping : Bool) → String → String
  pub date : Lang → String → Option String

abbrev pub prefixed : Option String → String → String
prefixed none s = s
prefixed (some p) s = p ⧺ s

abbrev pub number_text : Intl → Lang → Option NumberFormat → String → String
number_text intl lang none n = n
number_text intl lang (some nf) n =
    prefixed nf.prefix (intl.number lang nf.decimals (or_else nf.thousands false) n)

abbrev pub format_of : Option ColumnFormatting → Option NumberFormat
format_of none = none
format_of (some f) = f.number_format

-- `formatCell` of web/src/lib/format.ts. The branch for enum colours returns `String(raw)`, as the
-- last line does.
unfoldable pub format_cell : Intl → Lang → ColumnDef → Value → String
unfolding to_text
format_cell intl lang c undef = ""
format_cell intl lang c null = ""
format_cell intl lang c (num n) =
    if is_number c.field_type then number_text intl lang (format_of c.formatting) n else n
format_cell intl lang c (str s) =
    if s == "" then "" else if is_datetime c.field_type then or_else (intl.date lang s) s else s
format_cell intl lang c v = to_text v

abbrev pub colors_of : Option ColumnFormatting → Assoc String
colors_of none = []
colors_of (some f) = or_else f.enum_colors []

-- `ENUM_COLOR_CLASSES`
abbrev pub enum_color_classes : Assoc String
enum_color_classes =
    ("gray", "bg-slate-500/10 text-slate-600 dark:text-slate-300 border-slate-500/30")
    ∷ ("blue", "bg-blue-500/10 text-blue-600 dark:text-blue-400 border-blue-500/30")
    ∷ ("green", "bg-emerald-500/10 text-emerald-600 dark:text-emerald-400 border-emerald-500/30")
    ∷ ("amber", "bg-amber-500/10 text-amber-600 dark:text-amber-400 border-amber-500/30")
    ∷ ("red", "bg-red-500/10 text-red-600 dark:text-red-400 border-red-500/30")
    ∷ ("purple", "bg-purple-500/10 text-purple-600 dark:text-purple-400 border-purple-500/30")
    ∷ ("cyan", "bg-cyan-500/10 text-cyan-600 dark:text-cyan-400 border-cyan-500/30")
    ∷ ("orange", "bg-orange-500/10 text-orange-600 dark:text-orange-400 border-orange-500/30")
    ∷ []

unfoldable pub enum_color_class : ColumnDef → String → String
unfolding lookup
enum_color_class c v =
    or_else (lookup (or_else (lookup v (colors_of c.formatting)) "gray") enum_color_classes)
      (or_else (lookup "gray" enum_color_classes) "")

-- what `renderValue` shows
pub data Shown : Type 0 where
  dash : Shown
  flag : Bool → Shown
  badge : String → Shown
  mono : String → Shown
  block : String → Shown
  plain : String → Shown

abbrev pub truthy : Value → Bool
truthy undef = false
truthy null = false
truthy (bool b) = b
truthy (num n) = not (n == "0" || n == "NaN")
truthy (str s) = not (s == "")
truthy _ = true

abbrev pub is_bool : Value → Bool
is_bool (bool b) = true
is_bool _ = false

abbrev pub json_text : Json → Value → Bool
unfolding looks_like_json
json_text js (str s) = looks_like_json js s
json_text js _ = false

abbrev pub is_uuid : FieldType → Bool
is_uuid FieldType.uuid = true
is_uuid _ = false

unfoldable pub render_value : Json → Value → FieldType → Shown
unfolding to_text pretty_json
render_value js v type =
    if is_nullish v
    then dash
    else if is_boolean type || is_bool v
    then flag (truthy v)
    else if is_enum type
    then badge (to_text v)
    else if is_uuid type
    then mono (to_text v)
    else if is_json type || (is_text type && json_text js v)
    then block (pretty_json js (to_text v))
    else plain (to_text v)

-- the groups of a grouped grid: `Map<string, Row[]>`, filled row by row
unfoldable pub group_value : String → Row → String
unfolding cell to_text
group_value col row = if is_nullish (cell row col) then "" else to_text (cell row col)

unfoldable pub group_rows : String → List Row → Assoc (List Row) → Assoc (List Row)
unfolding group_value lookup insert
group_rows col [] groups = groups
group_rows col (row ∷ rows) groups =
    let v = group_value col row in
    group_rows col rows (insert v (or_else (lookup v groups) [] ++ row ∷ []) groups)

-- The controls that a row has.
pub record RowControls : Type 0 where
  pub checkbox : Option Bool
  pub actions : List CustomAction
  pub copies : Bool
  pub edits : Bool
  pub deletes : Bool

abbrev pub hidden_of : Option ActionsConfig → List HiddenActionKey
hidden_of none = []
hidden_of (some a) = or_else a.hidden []

abbrev pub shows : TableDefPayload → HiddenActionKey → Bool
shows def k = not (any (λ h. same_key h k) (hidden_of def.actions))

abbrev pub key_text : Json → Option (List Value) → String
unfolding encode_row_key
key_text js none = ""
key_text js (some key) = encode_row_key js key

unfoldable pub row_controls : Json → TableDefPayload → List String → Row → RowControls
unfolding row_key custom_actions has
row_controls js def sel row =
    let key = row_key def.key_columns row in
    let text = key_text js key in
    let may_delete = def.permissions.delete && shows def HiddenActionKey.delete in
    record {
      checkbox = if may_delete && not (text == "") then some (has text sel) else none;
      actions = custom_actions def;
      copies = def.permissions.create && shows def copy;
      edits = is_some key && (def.permissions.update && shows def HiddenActionKey.edit);
      deletes = is_some key && may_delete;
    }
