-- ===== src/Data/Form/Laws.antt =====
-- What the row form of web/src/pages/Data.tsx checks and sends.
use ku_crud.Base.{
  String, ◌≡◌, refl, ap, ◌∙◌, inl, inr, Bool, true, false, not, ◌&&◌, ◌||◌, Option, none, some,
  List, [], ◌∷◌, arith, ◌==◌, eq_iff, if◌then◌else◌, Bool-cases, any, filter, any-append,
}
use ku_crud.Base.Assoc.{Assoc, lookup, insert, erase, lookup-insert, lookup-erase}
use ku_crud.Value.{Value, Row, cell, undef}
use ku_crud.Types.{ColumnDef, TableDefPayload, is_m2m}
use ku_crud.Api.{Json}
use ku_crud.Data.Form.{
  includes, is_blank, is_undef, payload, create_payload, send_cols, edit_payload, modal_fields,
  erase_all, handle_copy, prettify,
}

lookup-skip :
    (skip : Bool) (n k : String) (v : Value) (acc : Assoc Value)
    → lookup k (if skip then acc else insert n v acc)
      ≡ (if n == k && not skip then some v else lookup k acc)
lookup-skip true n k v acc = ground arith
lookup-skip false n k v acc = simp (lookup-insert) (ground arith)

if_same :
    (a skip : Bool) (x y : Option Value)
    → (if a && not skip then x else if not skip then x else y) ≡ (if not skip then x else y)
if_same a skip x y = ground arith

-- Sending the values of a column list leaves out those to be skipped, and has all others.
lookup-payload :
    (skip : Value → Bool) (k : String) (cols : List ColumnDef) (row : Row) (acc : Assoc Value)
    → lookup k (payload skip cols row acc) ≡ (
        if any (λ c. c.name == k) cols && not (skip (cell row k))
        then some (cell row k)
        else lookup k acc)
unfolding payload
lookup-payload skip k [] row acc = refl
lookup-payload skip k (c ∷ cols) row acc =
    lookup-payload skip k cols row
      (if skip (cell row c.name) then acc else insert c.name (cell row c.name) acc)
    ∙ rw (lookup-skip (skip (cell row c.name)) c.name k (cell row c.name) acc)
        (elim (Bool-cases (c.name == k)) [
          | inl same ↦ rw same (
              rw ((eq_iff c.name k).0 same) (
                if_same (any (λ x. x.name == k) cols) (skip (cell row k)) (some (cell row k))
                  (lookup k acc)))
          | inr other ↦ rw other refl
        ])

any-filter_column :
    (q p : ColumnDef → Bool) (cols : List ColumnDef)
    → any q (filter p cols) ≡ any (λ c. p c && q c) cols
any-filter_column q p [] = refl
any-filter_column q p (c ∷ cols) = ground (arith, any-filter_column q p cols)

any_ext :
    (p q : ColumnDef → Bool) (cols : List ColumnDef)
    → ((c : ColumnDef) → p c ≡ q c)
    → any p cols ≡ any q cols
any_ext p q [] h = refl
any_ext p q (c ∷ cols) h = rw (h c) (ap (λ b. q c || b) (any_ext p q cols h))

any_or :
    (p q : ColumnDef → Bool) (cols : List ColumnDef)
    → (any p cols || any q cols) ≡ any (λ c. p c || q c) cols
any_or p q [] = refl
any_or p q (c ∷ cols) = ground (arith, any_or p q cols)

-- the columns whose value an edit may change
abbrev pub is_sent : TableDefPayload → ColumnDef → Bool
is_sent def c =
    (c.visible && c.editable && not (includes c.name def.key_columns)) || is_m2m c.field_type

regroup : (v e k m n : Bool) → ((v && (e && (k && n))) || (m && n)) ≡ (((v && e && k) || m) && n)
regroup v e k m n = ground arith

any-send_cols :
    (k : String) (def : TableDefPayload)
    → any (λ c. c.name == k) (send_cols def) ≡ any (λ c. is_sent def c && c.name == k) def.columns
unfolding send_cols
any-send_cols k def =
    let key : ColumnDef → Bool = λ c. not (includes c.name def.key_columns) in
    let shown : List ColumnDef = filter (λ c. c.visible) def.columns in
    let names : ColumnDef → Bool = λ c. c.name == k in
    any-append names (filter key (filter (λ c. c.editable) shown))
      (filter (λ c. is_m2m c.field_type) def.columns)
    ∙ rw
        (
          any-filter_column names key (filter (λ c. c.editable) shown)
              ∙ any-filter_column (λ c. key c && names c) (λ c. c.editable) shown
              ∙ any-filter_column (λ c. c.editable && (key c && names c)) (λ c. c.visible)
                  def.columns,
          any-filter_column names (λ c. is_m2m c.field_type) def.columns,
        )
        (any_or (λ c. c.visible && (c.editable && (key c && names c)))
            (λ c. is_m2m c.field_type && names c) def.columns
          ∙ any_ext
              (λ c.
                (c.visible && (c.editable && (key c && names c)))
                || (is_m2m c.field_type && names c))
              (λ c. is_sent def c && c.name == k) def.columns
              (λ c. regroup c.visible c.editable (key c) (is_m2m c.field_type) (names c)))

-- What an edit sends: the values that are defined of exactly the visible and editable columns that
-- are no key columns, and of the columns of related rows.
pub lookup-edit_payload :
    (def : TableDefPayload) (row : Row) (k : String)
    → lookup k (edit_payload def row) ≡ (
        if any (λ c. is_sent def c && c.name == k) def.columns && not (is_undef (cell row k))
        then some (cell row k)
        else none)
unfolding edit_payload
lookup-edit_payload def row k =
    lookup-payload is_undef k (send_cols def) row [] ∙ rw (any-send_cols k def) refl

lookup-erase_all :
    (k : String) (ks : List String) (row : Row)
    → lookup k (erase_all ks row) ≡ (if includes k ks then none else lookup k row)
unfolding erase_all
lookup-erase_all k [] row = refl
lookup-erase_all k (j ∷ ks) row =
    lookup-erase_all k ks (erase j row) ∙ simp (lookup-erase) (ground arith)

cell-erase_all :
    (k : String) (ks : List String) (row : Row)
    → includes k ks ≡ true
    → cell (erase_all ks row) k ≡ undef
unfolding cell
cell-erase_all k ks row h = rw (lookup-erase_all k ks row) (rw h refl)

and_false : (a : Bool) (x : Option Value) → (if a && false then x else none) ≡ none
and_false a x = ground arith

-- A copied row, saved as it is, submits no value for a key column.
pub create_payload-handle_copy :
    (js : Json) (def : TableDefPayload) (row : Row) (k : String)
    → includes k def.key_columns ≡ true
    → lookup k (create_payload def (handle_copy js def row).row) ≡ none
unfolding create_payload handle_copy
create_payload-handle_copy js def row k h =
    let shown : Row = (prettify js def.columns (row, [])).0 in
    lookup-payload is_blank k (modal_fields def) (erase_all def.key_columns shown) []
    ∙ rw (cell-erase_all k def.key_columns shown h)
        (and_false (any (λ c. c.name == k) (modal_fields def)) (some undef))
