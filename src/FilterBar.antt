-- ===== src/FilterBar.antt =====
-- web/src/components/FilterBar.tsx: the operators of each column type, the serialised form of the
-- filters, and the draft that becomes a filter. The bar and the filters of its parent are one state.
pub mod Sound
pub mod Steps
pub mod RoundTrip
use ku_crud.Base.{
  ℕ, zero, suc, String, Bool, true, false, not, ◌&&◌, ◌||◌, Option, none, some, List, [], ◌∷◌, map,
  ◌==◌, ltb, eqb, if◌then◌else◌, or_else, is_some, length, get_elem?, any, filter, find,
}
use ku_crud.Base.Text.{trim, join, split}
use mathlib.Core.List.{◌++◌}
use ku_crud.Value.{Value, undef, null, bool, num, str, arr, obj, values, items, fields}
use ku_crud.Types.{
  FieldType, boolean, text, number, datetime, enum, uuid, fk, json, m2m, ColumnDef, is_m2m, is_enum,
  is_boolean,
}
use ku_crud.Api.{Json, prop}

pub data FilterOp : Type 0 where
  eq neq gt gte lt lte between in_list contains : FilterOp

pub record ActiveFilter : Type 0 where
  pub column : String
  pub op : FilterOp
  pub values : List String

-- `OPS_BY_TYPE`, and `opsFor`
abbrev pub ops_of : FieldType → List FilterOp
ops_of text = eq ∷ neq ∷ contains ∷ in_list ∷ []
ops_of uuid = eq ∷ neq ∷ contains ∷ in_list ∷ []
ops_of number = eq ∷ neq ∷ gt ∷ gte ∷ lt ∷ lte ∷ between ∷ in_list ∷ []
ops_of datetime = eq ∷ gt ∷ lt ∷ between ∷ []
ops_of boolean = eq ∷ []
ops_of enum = eq ∷ neq ∷ in_list ∷ []
ops_of fk = contains ∷ eq ∷ []
ops_of json = []
ops_of m2m = []

unfoldable pub ops_for : ColumnDef → List FilterOp
ops_for c = ops_of c.field_type

abbrev pub op_name : FilterOp → String
op_name eq = "eq"
op_name neq = "neq"
op_name gt = "gt"
op_name gte = "gte"
op_name lt = "lt"
op_name lte = "lte"
op_name between = "between"
op_name in_list = "in"
op_name contains = "contains"

-- the label of an operator: a word from the dictionary, or a symbol
unfoldable pub op_label : (String → String) → FilterOp → String
op_label t between = t "filter.between"
op_label t in_list = t "filter.inList"
op_label t contains = t "filter.contains"
op_label t eq = "="
op_label t neq = "≠"
op_label t gt = ">"
op_label t gte = "≥"
op_label t lt = "<"
op_label t lte = "≤"

-- `needCount`: none stands for -1, any number of values
abbrev pub need_count : FilterOp → Option ℕ
need_count between = some 2
need_count in_list = none
need_count _ = some 1

-- the object `{ column, op, values }`
abbrev pub filter_value : ActiveFilter → Value
filter_value f = obj (
    fields (
      ("column", str f.column)
      ∷ ("op", str (op_name f.op))
      ∷ ("values", arr (values (map str f.values)))
      ∷ []))

abbrev pub filters_value : List ActiveFilter → Value
filters_value fs = arr (values (map filter_value fs))

unfoldable pub serialize_filters : Json → List ActiveFilter → String
serialize_filters js [] = ""
serialize_filters js (f ∷ fs) = js.stringify (filters_value (f ∷ fs))

-- whether a value counts as true
abbrev pub truthy : Value → Bool
truthy undef = false
truthy null = false
truthy (bool b) = b
truthy (num n) = not (n == "0" || n == "NaN")
truthy (str s) = not (s == "")
truthy _ = true

abbrev is_string : Value → Bool
is_string (str s) = true
is_string _ = false

abbrev is_array : Value → Bool
is_array (arr vs) = true
is_array _ = false

-- The elements are kept as they are: neither the operator nor the values are looked into.
abbrev is_filter : Value → Bool
is_filter f =
    truthy f && is_string (prop f "column") && truthy (prop f "op") && is_array (prop f "values")

abbrev parsed_filters : Option Value → List Value
parsed_filters (some (arr vs)) = filter is_filter (items vs)
parsed_filters _ = []

unfoldable pub deserialize_filters : Json → String → List Value
deserialize_filters js s = parsed_filters (js.parse s)

pub record Draft : Type 0 where
  pub column : String
  pub op : FilterOp

pub record Bar : Type 0 where
  pub filters : List ActiveFilter
  pub draft : Option Draft
  pub draft_vals : List String

unfoldable pub filterable : List ColumnDef → List ColumnDef
unfolding ops_for
filterable cols =
    filter
      (λ c.
        c.visible && not (is_m2m c.field_type) && not c.is_computed && ltb 0 (length (ops_for c)))
      cols

unfoldable pub col_by_name : List ColumnDef → String → Option ColumnDef
col_by_name cols n = find (λ c. c.name == n) cols

abbrev first_op : ColumnDef → Option FilterOp
first_op c = get_elem? (ops_for c) 0

-- The exception of reading a property of undefined is none.
start : String → Option FilterOp → Bar → Option Bar
start v none b = none
start v (some op) b =
    some (record b { draft = some (record { column = v; op = op }); draft_vals = "" ∷ [] })

add_first : List ColumnDef → Bar → Option Bar
unfolding start ops_for
add_first [] b = none
add_first (c ∷ rest) b = start c.name (first_op c) b

-- The button is disabled where no column can be filtered.
unfoldable pub add : List ColumnDef → Bar → Option Bar
unfolding add_first filterable
add cols b = add_first (filterable cols) b

-- the values that `commit` sends: those of a list are split at the commas again
unfoldable pub commit_values : FilterOp → List String → List String
unfolding join split trim
commit_values in_list vals = filter (λ v. not (v == "")) (map trim (split b',' (join "," vals)))
commit_values _ vals = vals

abbrev close : Bar → Draft → List String → Bar
close b d vals = record {
  filters =
      filter (λ f. not (f.column == d.column)) b.filters
      ++ record { column = d.column; op = d.op; values = vals } ∷ [];
  draft = none;
  draft_vals = "" ∷ [];
}

commit_draft : Bar → Option Draft → Bar
commit_draft b none = b
commit_draft b (some d) =
    let vals = commit_values d.op b.draft_vals in
    if eqb (length vals) 0 || any (λ v. v == "") vals then b else close b d vals

unfoldable pub commit : Bar → Bar
unfolding commit_draft commit_values
commit b = commit_draft b b.draft

-- the button of a chip
unfoldable pub remove : String → Bar → Bar
remove column b = record b { filters = filter (λ f. not (f.column == column)) b.filters }

pick_found : String → Option ColumnDef → Bar → Option Bar
unfolding start ops_for
pick_found v none b = none
pick_found v (some c) b = start v (first_op c) b

unfoldable pub pick_column : List ColumnDef → String → Bar → Option Bar
unfolding pick_found col_by_name
pick_column cols v b = pick_found v (col_by_name cols v) b

abbrev blank_values : FilterOp → List String
blank_values between = "" ∷ "" ∷ []
blank_values _ = "" ∷ []

pick_draft_op : FilterOp → Bar → Option Draft → Bar
pick_draft_op op b none = b
pick_draft_op op b (some d) = record b {
  draft = some (record d { op = op });
  draft_vals = blank_values op;
}

unfoldable pub pick_op : FilterOp → Bar → Bar
unfolding pick_draft_op
pick_op op b = pick_draft_op op b b.draft

abbrev pub cancel : Bar → Bar
cancel b = record b { draft = none }

-- `renderValueInput`: what an input does with the text typed into it. A boolean, an enum with its
-- options, a list and a single value have one input; a range has two, and `second` says which.
unfoldable pub type_value :
    ColumnDef → FilterOp → (second : Bool) → String → List String → List String
type_value c op second s vals =
    if is_boolean c.field_type || (is_enum c.field_type && is_some c.enum_options)
    then s ∷ []
    else elim (need_count op) [
      | some (suc (suc zero)) ↦
          if second
          then or_else (get_elem? vals 0) "" ∷ s ∷ []
          else s ∷ or_else (get_elem? vals 1) "" ∷ []
      | _ ↦ s ∷ []
    ]
