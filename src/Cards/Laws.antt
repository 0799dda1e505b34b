-- ===== src/Cards/Laws.antt =====
-- The form of a card, web/src/components/CardFormDialog.tsx: what can be saved, and what opening a
-- card for editing keeps of it.
use ku_crud.Base.{
  String, ◌≡◌, refl, sym, ap, ◌∙◌, inl, inr, Bool, true, false, not, ◌&&◌, ◌||◌, some, List, [],
  ◌∷◌, arith, ◌==◌, eq_iff, if◌then◌else◌, Bool-cases, filter,
}
use ku_crud.Base.Text.{trim}
use mathlib.Core.Path.{subst}
use ku_crud.Value.{Value}
use ku_crud.Types.{ColumnDef, AggFunc, count, sum, avg, min, max, StatCard}
use ku_crud.Api.{Json}
use ku_crud.Cards.Suits.{suitable, has_column-suitable}
use ku_crud.Cards.{
  CardForm, SavedCard, Edit, table_picked, label_typed, func_picked, column_picked, filters_set,
  is_count, cols_for_func, has_column, column_of, drop_column, drop_filters, settle, opened, fill,
  choose_table, edited, offered, edit, edits, can_save, save_body, func_name,
}

-- whether the column of a form is empty or one that is offered
abbrev fit : List ColumnDef → CardForm → Bool
fit cols s = s.column == "" || has_column (cols_for_func cols s.func) s.column

func_of : String → AggFunc
func_of s =
    if s == "count"
    then count
    else if s == "sum"
    then sum
    else if s == "avg"
    then avg
    else if s == "min"
    then min
    else max

func_of-func_name : (f : AggFunc) → func_of (func_name f) ≡ f
unfolding func_of
func_of-func_name count = refl
func_of-func_name sum = refl
func_of-func_name avg = refl
func_of-func_name min = refl
func_of-func_name max = refl

func_name-injective : (f g : AggFunc) → (func_name f == func_name g) ≡ true → f ≡ g
func_name-injective f g e =
    sym (func_of-func_name f)
    ∙ ap func_of ((eq_iff (func_name f) (func_name g)).0 e)
    ∙ func_of-func_name g

abbrev stale : List ColumnDef → CardForm → Bool
stale cols s = not (s.column == "") && not (has_column (cols_for_func cols s.func) s.column)

fit-stale : (cols : List ColumnDef) (s : CardForm) → fit cols s ≡ not (stale cols s)
fit-stale cols s = elim (Bool-cases (s.column == "")) [
  | inl e ↦ rw e refl
  | inr e ↦ rw e (elim (Bool-cases (has_column (cols_for_func cols s.func) s.column)) [
    | inl h ↦ rw h refl
    | inr h ↦ rw h refl
  ])
]

drop_column-eq :
    (cols : List ColumnDef) (s : CardForm)
    → drop_column cols s ≡ (if stale cols s then record s { column = "" } else s)
unfolding drop_column
drop_column-eq cols s = refl

fit-drop_column : (cols : List ColumnDef) (s : CardForm) → fit cols (drop_column cols s) ≡ true
fit-drop_column cols s = elim (Bool-cases (stale cols s)) [
  | inl e ↦ rw (drop_column-eq cols s, e) refl
  | inr e ↦ rw (drop_column-eq cols s, e, fit-stale cols s, e) refl
]

fit-drop_filters :
    (cols : List ColumnDef) (s : CardForm) → fit cols (drop_filters cols s) ≡ fit cols s
unfolding drop_filters
fit-drop_filters cols s = refl

abbrev same_table : CardForm → CardForm → Bool
same_table before s = before.table_id == s.table_id

abbrev same_func : CardForm → CardForm → Bool
same_func before s = func_name before.func == func_name s.func

settle-eq :
    (cols : List ColumnDef) (before s : CardForm)
    → settle cols before s ≡ (
        if same_table before s
        then (if same_table before s && same_func before s then s else drop_column cols s)
        else drop_filters cols
            (if same_table before s && same_func before s then s else drop_column cols s))
unfolding settle
settle-eq cols before s = refl

fit-settle :
    (cols : List ColumnDef) (before s : CardForm)
    → (same_table before s ≡ true → same_func before s ≡ true → fit cols s ≡ true)
    → fit cols (settle cols before s) ≡ true
fit-settle cols before s h = elim (Bool-cases (same_table before s)) [
  | inr other ↦
      rw (settle-eq cols before s, other)
        (fit-drop_filters cols (drop_column cols s) ∙ fit-drop_column cols s)
  | inl same ↦ elim (Bool-cases (same_func before s)) [
    | inl func ↦ rw (settle-eq cols before s, same, func) (h same func)
    | inr func ↦ rw (settle-eq cols before s, same, func) (fit-drop_column cols s)
  ]
]

table_id-settle :
    (cols : List ColumnDef) (before s : CardForm) → (settle cols before s).table_id ≡ s.table_id
unfolding settle drop_column drop_filters
table_id-settle cols before s = elim (Bool-cases (same_table before s)) [
  | inr other ↦
      rw other (elim (Bool-cases (stale cols s)) [ inl e ↦ rw e refl | inr e ↦ rw e refl ])
  | inl same ↦ elim (Bool-cases (same_func before s)) [
    | inl func ↦ rw (same, func) refl
    | inr func ↦
        rw (same, func) (elim (Bool-cases (stale cols s)) [ inl e ↦ rw e refl | inr e ↦ rw e refl ])
  ]
]

fit-edited :
    (cols_of : String → List ColumnDef) (e : Edit) (s : CardForm)
    → fit (cols_of s.table_id) s ≡ true
    → offered (cols_of s.table_id) s e ≡ true
    → same_func s (edited e s) ≡ true
    → fit (cols_of (edited e s).table_id) (edited e s) ≡ true
unfolding choose_table
fit-edited cols_of (table_picked v) s h o func = refl
fit-edited cols_of (label_typed v) s h o func = h
fit-edited cols_of (filters_set fs) s h o func = h
fit-edited cols_of (func_picked f) s h o func =
    subst (λ g. fit (cols_of s.table_id) (record s { func = g }) ≡ true)
      (func_name-injective s.func f func) h
fit-edited cols_of (column_picked c) s h o func = rw o (ground arith)

fit-edit :
    (cols_of : String → List ColumnDef) (e : Edit) (s : CardForm)
    → fit (cols_of s.table_id) s ≡ true
    → fit (cols_of (edit cols_of e s).table_id) (edit cols_of e s) ≡ true
unfolding edit
fit-edit cols_of e s h = elim (Bool-cases (offered (cols_of s.table_id) s e)) [
  | inr nothing ↦ rw nothing h
  | inl o ↦
      rw (o, table_id-settle (cols_of (edited e s).table_id) s (edited e s))
        (fit-settle (cols_of (edited e s).table_id) s (edited e s)
          (λ same func. fit-edited cols_of e s h o func))
]

fit-edits :
    (cols_of : String → List ColumnDef) (es : List Edit) (s : CardForm)
    → fit (cols_of s.table_id) s ≡ true
    → fit (cols_of (edits cols_of es s).table_id) (edits cols_of es s) ≡ true
unfolding edits
fit-edits cols_of [] s h = h
fit-edits cols_of (e ∷ es) s h = fit-edits cols_of es (edit cols_of e s) (fit-edit cols_of e s h)

-- A card as it should be saved: it has a table and a label, it counts rows and has no column, or its
-- column is one of its table's that suit its function.
abbrev pub is_sound : (String → List ColumnDef) → SavedCard → Bool
is_sound cols_of b =
    not (b.table_def_id == "")
    && not (b.label == "")
    && (if is_count b.func
        then b.column == ""
        else suitable (cols_of b.table_def_id) b.func b.column)

saved-is_sound :
    (js : Json) (cols_of : String → List ColumnDef) (s : CardForm)
    → fit (cols_of s.table_id) s ≡ true
    → can_save s ≡ true
    → is_sound cols_of (save_body js s) ≡ true
unfolding can_save save_body
saved-is_sound js cols_of s h can =
    let tabled : not (s.table_id == "") ≡ true = ground arith in
    let labelled : not (trim s.label == "") ≡ true = ground arith in
    elim (Bool-cases (is_count s.func)) [
      | inl e ↦ rw (e, tabled, labelled) refl
      | inr e ↦
          let some_column : not (s.column == "") ≡ true = ground arith in
          let fits : has_column (cols_for_func (cols_of s.table_id) s.func) s.column ≡ true =
            ground arith in
          let well = sym (has_column-suitable (cols_of s.table_id) s.func s.column) ∙ fits in
          rw (e, tabled, labelled, well) refl
    ]

-- Where the columns of the tables are there, whatever is typed and chosen from a form whose column is
-- empty or suits, what the button can then save has a table and a label, and it counts rows and has
-- no column, or it has one of its table's columns that are not computed and are numbers, for the
-- least and the greatest numbers or dates.
pub can_save-is_sound :
    (js : Json) (cols_of : String → List ColumnDef) (es : List Edit) (s : CardForm)
    → (s.column == "" || suitable (cols_of s.table_id) s.func s.column) ≡ true
    → can_save (edits cols_of es s) ≡ true
    → is_sound cols_of (save_body js (edits cols_of es s)) ≡ true
can_save-is_sound js cols_of es s h can =
    let fits : fit (cols_of s.table_id) s ≡ true =
      rw (has_column-suitable (cols_of s.table_id) s.func s.column) h in
    saved-is_sound js cols_of (edits cols_of es s) (fit-edits cols_of es s fits) can

no_cols : (f : AggFunc) → cols_for_func [] f ≡ []
unfolding cols_for_func
no_cols count = refl
no_cols sum = refl
no_cols avg = refl
no_cols min = refl
no_cols max = refl

column-drop_column : (s : CardForm) → (drop_column [] s).column ≡ ""
column-drop_column s = elim (Bool-cases (s.column == "")) [
  | inl e ↦ rw (drop_column-eq [] s, e) ((eq_iff s.column "").0 e)
  | inr e ↦ rw (drop_column-eq [] s, no_cols s.func, e) refl
]

no_filters : (s : CardForm) → (drop_filters [] s).filters ≡ []
unfolding drop_filters
no_filters s = filter_false s.filters
  where
    filter_false : (fs : List Value) → filter (λ f. has_column [] (column_of f)) fs ≡ []
    filter_false [] = refl
    filter_false (f ∷ fs) = filter_false fs

column-drop_filters :
    (cols : List ColumnDef) (s : CardForm) → (drop_filters cols s).column ≡ s.column
unfolding drop_filters
column-drop_filters cols s = refl

filters-save_body : (js : Json) (s : CardForm) → s.filters ≡ [] → (save_body js s).filters ≡ "[]"
unfolding save_body
filters-save_body js s h = rw h refl

opened-eq :
    (js : Json) (card : StatCard) (before : CardForm)
    → (before.table_id == card.table_def_id) ≡ false
    → opened js [] (some card) before ≡ drop_filters [] (drop_column [] (fill js (some card)))
unfolding opened fill
opened-eq js card before other = settle-eq [] before (fill js (some card)) ∙ rw other refl

-- When a card is opened for editing after a form of another table, and the columns of its table are
-- not there yet, the form loses the column and all the filters of the card.
pub opened-unloaded :
    (js : Json) (card : StatCard) (before : CardForm)
    → (before.table_id == card.table_def_id) ≡ false
    → ((opened js [] (some card) before).column ≡ "")
      × ((save_body js (opened js [] (some card) before)).filters ≡ "[]")
opened-unloaded js card before other =
    let start = fill js (some card) in
    rw (opened-eq js card before other) (
      column-drop_filters [] (drop_column [] start) ∙ column-drop_column start,
      filters-save_body js _ (no_filters (drop_column [] start)),
    )
