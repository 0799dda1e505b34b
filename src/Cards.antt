-- ===== src/Cards.antt =====
-- The statistics of the dashboard: web/src/components/CardFormDialog.tsx, the form of a card with
-- the effects that React runs after a change, and web/src/components/StatCardView.tsx with
-- web/src/pages/Dashboard.tsx, how a card is shown and which requests its buttons make.
pub mod Suits
pub mod Laws
use ku_crud.Base.{
  ℕ, ◌/◌, ◌%◌, String, ◌≡◌, refl, Bool, true, false, not, ◌&&◌, ◌||◌, Option, none, some, List, [],
  ◌∷◌, ◌++◌, ◌==◌, leb, eqb, if◌then◌else◌, or_else, get_elem?, any, filter, find,
}
use ku_crud.Base.Assoc.{Assoc}
use ku_crud.Base.Text.{trim, template}
use ku_crud.Types.{
  FieldType, is_number, is_datetime, is_m2m, is_fk, ColumnDef, TableDefPayload, AggFunc, count, sum,
  avg, min, max, StatCard, StatsResult,
}
use Prim.Native.Char.{code}
use ku_crud.Value.{Value, num, str, arr, obj, values, fields, to_text, is_nullish}
use ku_crud.Api.{Json, Request, get, post, put, delete, json, no_body, request, prop}
use ku_crud.FilterBar.{deserialize_filters}
use ku_crud.I18n.{Lang}
use ku_crud.RowKey.{utf8_char}
use ku_crud.Data.Display.{Intl, format_cell}

abbrev pub func_name : AggFunc → String
func_name count = "count"
func_name sum = "sum"
func_name avg = "avg"
func_name min = "min"
func_name max = "max"

abbrev pub is_count : AggFunc → Bool
is_count count = true
is_count _ = false

abbrev is_real : ColumnDef → Bool
is_real c = not c.is_computed && not (is_m2m c.field_type) && not (is_fk c.field_type)

abbrev fits : AggFunc → FieldType → Bool
fits count t = false
fits sum t = is_number t
fits avg t = is_number t
fits min t = is_number t || is_datetime t
fits max t = is_number t || is_datetime t

unfoldable pub cols_for_func : List ColumnDef → AggFunc → List ColumnDef
cols_for_func cols count = []
cols_for_func cols fn = filter (λ c. fits fn c.field_type) (filter is_real cols)

-- Filters are kept as they are parsed.
pub record CardForm : Type 0 where
  pub table_id : String
  pub label : String
  pub func : AggFunc
  pub column : String
  pub filters : List Value

abbrev pub empty_form : CardForm
empty_form = record { table_id = ""; label = ""; func = count; column = ""; filters = [] }

-- what the form is filled with when it opens
unfoldable pub fill : Json → Option StatCard → CardForm
unfolding deserialize_filters
fill js none = empty_form
fill js (some card) = record {
  table_id = card.table_def_id;
  label = card.label;
  func = card.func;
  column = card.column;
  filters = deserialize_filters js card.filters;
}

abbrev pub has_column : List ColumnDef → String → Bool
has_column cols name = any (λ c. c.name == name) cols

-- The effect on the table, the function and its columns, and the one on the table alone. `cols` are
-- the columns of the form's table, none of them while they are not there.
unfoldable pub drop_column : List ColumnDef → CardForm → CardForm
unfolding cols_for_func
drop_column cols s =
    if not (s.column == "") && not (has_column (cols_for_func cols s.func) s.column)
    then record s { column = "" }
    else s

abbrev column_of : Value → String
column_of f = elim (prop f "column") [ str s ↦ s | _ ↦ "" ]

unfoldable pub drop_filters : List ColumnDef → CardForm → CardForm
drop_filters cols s = record s { filters = filter (λ f. has_column cols (column_of f)) s.filters }

-- the render after a change from `before` to `s`
unfoldable pub settle : List ColumnDef → (before s : CardForm) → CardForm
unfolding drop_column drop_filters
settle cols before s =
    let same_table = before.table_id == s.table_id in
    let same_func = func_name before.func == func_name s.func in
    let kept = if same_table && same_func then s else drop_column cols s in
    if same_table then kept else drop_filters cols kept

-- the dialog opens, with the columns that are cached of the card's table
unfoldable pub opened : Json → List ColumnDef → Option StatCard → CardForm → CardForm
unfolding fill settle
opened js cols card before = settle cols before (fill js card)

-- the columns of the table arrive
unfoldable pub loaded : List ColumnDef → CardForm → CardForm
unfolding drop_column
loaded cols s = drop_column cols s

unfoldable pub choose_table : String → CardForm → CardForm
choose_table v s = record s { table_id = v; column = ""; filters = [] }

-- What is typed and chosen in the form; a function is chosen from `FUNCS`, a column from those that
-- fit, and filters by the filter bar.
pub data Edit : Type 0 where
  table_picked : String → Edit
  label_typed : String → Edit
  func_picked : AggFunc → Edit
  column_picked : ColumnDef → Edit
  filters_set : List Value → Edit

abbrev edited : Edit → CardForm → CardForm
edited (table_picked v) s = choose_table v s
edited (label_typed v) s = record s { label = v }
edited (func_picked f) s = record s { func = f }
edited (column_picked c) s = record s { column = c.name }
edited (filters_set fs) s = record s { filters = fs }

abbrev offered : List ColumnDef → CardForm → Edit → Bool
offered cols s (column_picked c) = has_column (cols_for_func cols s.func) c.name
offered cols s _ = true

-- an edit, where the columns of every table are there
unfoldable pub edit : (String → List ColumnDef) → Edit → CardForm → CardForm
unfolding choose_table settle cols_for_func
edit cols_of e s =
    let next = edited e s in
    if offered (cols_of s.table_id) s e then settle (cols_of next.table_id) s next else s

unfoldable pub edits : (String → List ColumnDef) → List Edit → CardForm → CardForm
unfolding edit
edits cols_of [] s = s
edits cols_of (e ∷ es) s = edits cols_of es (edit cols_of e s)

unfoldable pub can_save : CardForm → Bool
unfolding trim
can_save s =
    not (s.table_id == "") && not (trim s.label == "") && (is_count s.func || not (s.column == ""))

-- `serializeFilters(filters) || "[]"`
abbrev filters_text : Json → List Value → String
filters_text js [] = "[]"
filters_text js (f ∷ fs) =
    let text = js.stringify (arr (values (f ∷ fs))) in if text == "" then "[]" else text

pub record SavedCard : Type 0 where
  pub table_def_id : String
  pub label : String
  pub func : AggFunc
  pub column : String
  pub filters : String

unfoldable pub save_body : Json → CardForm → SavedCard
unfolding trim
save_body js s = record {
  table_def_id = s.table_id;
  label = trim s.label;
  func = s.func;
  column = if is_count s.func then "" else s.column;
  filters = filters_text js s.filters;
}

abbrev body_value : SavedCard → Value
body_value b = obj (
    fields (
      ("tableDefId", str b.table_def_id)
      ∷ ("label", str b.label)
      ∷ ("func", str (func_name b.func))
      ∷ ("column", str b.column)
      ∷ ("filters", str b.filters)
      ∷ []))

unfoldable pub save_request : Json → Option StatCard → CardForm → Request
unfolding save_body
save_request js none s = request post "/cards" (json (body_value (save_body js s)))
save_request js (some card) s =
    request put (template ("/cards/" ∷ card.id ∷ [])) (json (body_value (save_body js s)))

-- `encodeURIComponent(s)`
abbrev is_unreserved : ℕ → Bool
is_unreserved k =
    (leb 48 k && leb k 57)
    || (leb 65 k && leb k 90)
    || (leb 97 k && leb k 122)
    || any (λ c. eqb c k) (b'-' ∷ b'_' ∷ b'.' ∷ b'!' ∷ b'~' ∷ b'*' ∷ b'\'' ∷ b'(' ∷ b')' ∷ [])

abbrev hex_digits : List String
hex_digits =
    "0" ∷ "1" ∷ "2" ∷ "3" ∷ "4" ∷ "5" ∷ "6" ∷ "7" ∷ "8" ∷ "9" ∷ "A" ∷ "B" ∷ "C" ∷ "D" ∷ "E" ∷ "F"
    ∷ []

abbrev hex : ℕ → String
hex n = or_else (get_elem? hex_digits n) ""

abbrev percent : List ℕ → String
percent [] = ""
percent (b ∷ bs) = template ("%" ∷ hex (b / 16) ∷ hex (b % 16) ∷ percent bs ∷ [])

unfoldable pub encode_component : String → String
encode_component String.[] = ""
encode_component (String.◌∷◌ c s) =
    let shown = if is_unreserved (code c) then String.◌∷◌ c "" else percent (utf8_char (code c)) in
    template (shown ∷ encode_component s ∷ [])

abbrev pub data_name : StatCard → String
data_name card = if card.table_name == "" then card.table_def_id else card.table_name

unfoldable pub stats_request : StatCard → Request
unfolding encode_component
stats_request c = record {
  method = get;
  path = template ("/data/" ∷ encode_component (data_name c) ∷ "/stats" ∷ []);
  query =
      ("func", func_name c.func) ∷ (if c.column == "" then [] else ("column", c.column) ∷ [])
      ++ (if c.filters == "" || c.filters == "[]" then [] else ("filters", c.filters) ∷ []);
  body = no_body;
}

-- The column of a card, and the text of its value. `medium` is the format of a date with the date
-- style medium and the time style short, none for a text that is no date.
unfoldable pub card_column : TableDefPayload → StatCard → Option ColumnDef
card_column def card = find (λ c. c.name == card.column) def.columns

abbrev value_of : Intl → (Lang → String → Option String) → Lang → ColumnDef → Value → String
value_of intl medium lang c (num n) =
    if is_number c.field_type then format_cell intl lang c (num n) else n
value_of intl medium lang c (str s) =
    if is_datetime c.field_type then or_else (medium lang s) s else s
value_of intl medium lang c v = to_text v

unfoldable pub card_value :
    Intl → (Lang → String → Option String) → Lang → Option StatsResult → Option ColumnDef → String
unfolding format_cell to_text
card_value intl medium lang none col = "…"
card_value intl medium lang (some res) col =
    if is_nullish res.value
    then "—"
    else elim col [ none ↦ to_text res.value | some c ↦ value_of intl medium lang c res.value ]

-- the line below the value; `t` is the translator
unfoldable pub card_label : (String → Assoc String → String) → StatCard → Option ColumnDef → String
card_label t card col = template (
    t (template ("card.func." ∷ func_name card.func ∷ [])) []
    ∷ (if card.column == ""
        then ""
        else template (" · " ∷ elim col [ none ↦ card.column | some c ↦ c.label ] ∷ []))
    ∷ " · "
    ∷ t "card.of" (("table", card.table_label) ∷ [])
    ∷ [])

-- the buttons of a card on the dashboard
unfoldable pub delete_request : String → Request
delete_request card_id = request delete (template ("/cards/" ∷ card_id ∷ [])) no_body

unfoldable pub move_request : String → Bool → Request
move_request card_id up =
    request post (template ("/cards/" ∷ card_id ∷ "/move" ∷ []))
      (json (obj (fields (("dir", str (if up then "up" else "down")) ∷ []))))

component_tests : encode_component "a b/ü'" ≡ "a%20b%2F%C3%BC'"
unfolding encode_component
component_tests = refl
