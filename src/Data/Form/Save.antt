-- ===== src/Data/Form/Save.antt =====
-- The save button of the row form of web/src/pages/Data.tsx.
use ku_crud.Base.{
  ◌==◌, all_cong, String, ◌≡◌, refl, sym, ap, ◌∙◌, Bool, true, false, not, ◌&&◌, ◌||◌, Option, none,
  some, List, [], ◌∷◌, arith, if◌then◌else◌, map, or_else, is_some, any, all, filter,
}
use ku_crud.Base.Assoc.{Assoc}
use ku_crud.Value.{undef, null, bool, num, str, arr, obj, Value, Row, cell, is_nullish}
use ku_crud.Types.{ColumnDef, TableDefPayload, is_json, is_text, is_m2m}
use ku_crud.Api.{Json, Request, ok}
use ku_crud.Data.Session.{Form, Mode, create, edit}
use ku_crud.Data.Bulk.{row_key}
use ku_crud.Data.Form.{
  includes, is_blank, edit_payload, modal_fields, missing, bad_json, bad_text, decide, Submit, save,
  required_missing, invalid_json, submit, or_key, put_row, saved_by, save_request, press_save,
}

abbrev is_nil : List ColumnDef → Bool
is_nil [] = true
is_nil (c ∷ cols) = false

abbrev pub is_save : Submit → Bool
is_save save = true
is_save _ = false

abbrev listed : String → List String → Bool
listed name names = any (λ x. x == name) names

-- a value that is there, and no empty text
abbrev is_filled : Value → Bool
is_filled undef = false
is_filled null = false
is_filled (str s) = not (s == "")
is_filled _ = true

-- a text that parses as JSON, or another value
abbrev is_readable : Json → Value → Bool
is_readable js (str s) = is_some (js.parse s)
is_readable js _ = true

-- the columns of the form
abbrev pub form_columns : TableDefPayload → List ColumnDef
form_columns def =
    filter
      (λ c. c.editable || listed c.name def.key_columns || is_m2m c.field_type || c.is_computed)
      def.columns

-- whether the form may be sent as far as one column is concerned
abbrev pub is_acceptable : Json → TableDefPayload → Form → ColumnDef → Bool
is_acceptable js def form c =
    (not c.required || listed c.name def.key_columns || is_filled (cell form.row c.name))
    && (not (
          is_json c.field_type
          || (is_text c.field_type && listed c.name (or_else form.json_modes [])))
        || is_readable js (cell form.row c.name))

not-is_blank : (v : Value) → not (is_blank v) ≡ is_filled v
not-is_blank undef = refl
not-is_blank null = refl
not-is_blank (bool b) = refl
not-is_blank (num n) = refl
not-is_blank (str s) = refl
not-is_blank (arr vs) = refl
not-is_blank (obj fs) = refl

not-is_readable : (js : Json) (v : Value) → not (bad_text js v) ≡ is_readable js v
not-is_readable js undef = refl
not-is_readable js null = refl
not-is_readable js (bool b) = refl
not-is_readable js (num n) = refl
not-is_readable js (str s) = ground arith
not-is_readable js (arr vs) = refl
not-is_readable js (obj fs) = refl

abbrev passes : Json → TableDefPayload → Form → ColumnDef → Bool
passes js def form c =
    let given = not (is_blank (cell form.row c.name)) in
    let text_of_json =
      is_json c.field_type
      || (is_text c.field_type && includes c.name (or_else form.json_modes [])) in
    (not c.required || includes c.name def.key_columns || given)
    && (not text_of_json || not (bad_text js (cell form.row c.name)))

is_save-filter :
    (p q r : ColumnDef → Bool) (cols : List ColumnDef)
    → ((c : ColumnDef) → (not (p c) && not (q c)) ≡ r c)
    → (is_nil (filter p cols) && is_nil (filter q cols)) ≡ all r cols
is_save-filter p q r [] h = refl
is_save-filter p q r (c ∷ cols) h = rw (sym (h c)) (ground (arith, is_save-filter p q r cols h))

is_save-decide :
    (gone bad : List ColumnDef) → is_save (decide gone bad) ≡ (is_nil gone && is_nil bad)
is_save-decide [] [] = refl
is_save-decide [] (c ∷ bad) = refl
is_save-decide (c ∷ gone) bad = refl

apart :
    (r k b j m : Bool)
    → (not (r && (not k && b)) && not (j && m)) ≡ ((not r || k || not b) && (not j || not m))
apart r k b j m = ground arith

is_save-submit :
    (js : Json) (def : TableDefPayload) (form : Form)
    → is_save (submit js def form) ≡ all (passes js def form) (modal_fields def)
unfolding submit missing bad_json cell
is_save-submit js def form =
    is_save-decide (missing def form.row) (bad_json js def form)
    ∙ is_save-filter
        (λ c.
          c.required && (not (includes c.name def.key_columns) && is_blank (cell form.row c.name)))
        (λ c.
          (is_json c.field_type
            || (is_text c.field_type && includes c.name (or_else form.json_modes [])))
          && bad_text js (cell form.row c.name))
        (passes js def form) (modal_fields def)
        (λ c.
          apart c.required (includes c.name def.key_columns) (is_blank (cell form.row c.name))
            (is_json c.field_type
              || (is_text c.field_type && includes c.name (or_else form.json_modes [])))
            (bad_text js (cell form.row c.name)))

passes-eq :
    (js : Json) (def : TableDefPayload) (form : Form) (c : ColumnDef)
    → passes js def form c ≡ is_acceptable js def form c
passes-eq js def form c =
    let filled = not-is_blank (cell form.row c.name) in
    let readable = not-is_readable js (cell form.row c.name) in
    λ i.
      (not c.required || listed c.name def.key_columns || filled i)
      && (not (
            is_json c.field_type
            || (is_text c.field_type && listed c.name (or_else form.json_modes [])))
          || readable i)

is_save-acceptable :
    (js : Json) (def : TableDefPayload) (form : Form)
    → is_save (submit js def form) ≡ all (is_acceptable js def form) (form_columns def)
unfolding modal_fields
is_save-acceptable js def form =
    is_save-submit js def form ∙ all_cong _ _ (form_columns def) (passes-eq js def form)

-- whether it is known which row is edited: by its key when the form was opened, or by the key values
-- that stand in the form
abbrev pub is_addressed : TableDefPayload → Form → Mode → Bool
is_addressed def form create = true
is_addressed def form edit =
    is_some form.initial_key || all (λ k. not (is_nullish (cell form.row k))) def.key_columns

any-nullish :
    (row : Row) (ks : List String)
    → not (any is_nullish (map (λ k. cell row k) ks)) ≡ all (λ k. not (is_nullish (cell row k))) ks
any-nullish row [] = refl
any-nullish row (k ∷ ks) = ground (arith, any-nullish row ks)

is_some-or_key :
    (o : Option (List Value)) (none_left : Bool) (vals : List Value)
    → is_some (or_key o (if none_left then none else some vals)) ≡ (is_some o || not none_left)
is_some-or_key (some k) b vals = refl
is_some-or_key none true vals = refl
is_some-or_key none false vals = refl

is_some-saved_by :
    (d : Submit) (js : Json) (name : String) (body : Assoc Value) (key : Option (List Value))
    → is_some (saved_by d (put_row js name body key)) ≡ (is_save d && is_some key)
is_some-saved_by save js name body none = refl
is_some-saved_by save js name body (some k) = refl
is_some-saved_by (required_missing l) js name body key = refl
is_some-saved_by (invalid_json l) js name body key = refl

is_some-create : (d : Submit) (r : Request) → is_some (saved_by d (ok r)) ≡ (is_save d && true)
is_some-create save r = refl
is_some-create (required_missing l) r = refl
is_some-create (invalid_json l) r = refl

is_some-save_request :
    (d : Submit) (js : Json) (name : String) (def : TableDefPayload) (form : Form) (mode : Mode)
    → is_some (saved_by d (save_request js name def mode form))
      ≡ (is_save d && is_addressed def form mode)
unfolding save_request row_key cell
is_some-save_request d js name def form create = is_some-create d _
is_some-save_request d js name def form edit =
    is_some-saved_by d js name (edit_payload def form.row) _
    ∙ ap (λ b. is_save d && b)
        (is_some-or_key form.initial_key _ _
          ∙ ap (λ b. is_some form.initial_key || b) (any-nullish form.row def.key_columns))

-- Where no save is under way, the save button makes a request exactly when each column of the form is acceptable (filled where it
-- is required and no key column, and JSON where it is a column of JSON or was opened as one), and,
-- where a row is edited, its key was known when the form was opened or no key value of the form is
-- missing.
pub is_some-press_save :
    (js : Json) (name : String) (def : TableDefPayload) (form : Form)
    → is_some (press_save js name def form)
      ≡ (all (is_acceptable js def form) (form_columns def) && is_addressed def form form.mode)
unfolding press_save
is_some-press_save js name def form =
    is_some-save_request (submit js def form) js name def form form.mode
    ∙ ap (λ b. b && is_addressed def form form.mode) (is_save-acceptable js def form)
