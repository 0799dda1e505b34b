-- ===== src/TableForm/Refs/Panels.antt =====
-- What the panel of a reference of web/src/components/ColumnListEditor.tsx can make of a column.
use mathlib.Core.Path.{subst}
use ku_crud.Base.{
  all_cong, any-filter, String, ◌≡◌, refl, sym, ap, false, if◌then◌else◌, eq_iff, ◌∙◌, inl, inr,
  Bool, true, not, ◌&&◌, ◌||◌, Option, none, some, List, [], ◌∷◌, ◌++◌, map, arith, ◌==◌, eq_refl,
  Bool-cases, any, all, filter, any-append,
}
use ku_crud.Types.{ColumnDef}
use mathlib.Core.List.{append_assoc}
use ku_crud.TableForm.{FormCol}
use ku_crud.TableForm.Refs.{
  Panel, FkEdit, ds_picked, table_picked, ref_picked, display_toggled, all_selected, all_cleared,
  has_name, is_ref, is_current, cols_of_table, target_cols, available, shown_of, toggle, fk_offered,
  fk_effect, fk_edits, pick_ds, pick_table, pick_ref, toggle_display, select_all, clear_all,
}

-- a column of this name, if there is a name
abbrev pub is_column : List ColumnDef → Option String → Bool
is_column cols none = true
is_column cols (some name) = any (λ d. d.name == name) cols

abbrev pub is_other : Option String → String → Bool
is_other none name = true
is_other (some chosen) name = not (name == chosen)

abbrev pub is_self : Option String → Option String → Bool
is_self none none = true
is_self (some a) (some b) = a == b
is_self _ _ = false

-- the columns of the table with an id, of which the table itself has its own
abbrev pub table_cols : Panel → Option String → List ColumnDef
table_cols p none = []
table_cols p (some id) =
    if id == "self" || (not (id == "") && is_self (some id) p.current_id)
    then map (λ c. c.column) p.cols
    else if id == ""
    then []
    else p.fetched id

-- Whether a column refers to a column of its target table, if to any, and shows only columns of that
-- table other than the one that it refers to.
abbrev pub refers_well : Panel → FormCol → Bool
refers_well p c =
    is_column (table_cols p c.fk_table_def_id) c.fk_ref_column
    && all
        (λ n. any (λ d. d.name == n) (table_cols p c.fk_table_def_id) && is_other c.fk_ref_column n)
        (shown_of c)

abbrev pub is_target : List ColumnDef → Option String → Bool
is_target cols none = true
is_target cols (some name) = has_name cols name

-- Whether what is referred to and shown is offered.
abbrev refers_offered : Panel → FormCol → Bool
refers_offered p c =
    is_target (target_cols p c) c.fk_ref_column
    && all (λ n. has_name (available p c) n) (shown_of c)

all-filter-sub :
    (p q : String → Bool) (names : List String) → all p names ≡ true → all p (filter q names) ≡ true
all-filter-sub p q [] h = refl
all-filter-sub p q (n ∷ names) h = ground (arith, all-filter-sub p q names)

all-append : (p : String → Bool) (xs ys : List String) → all p (xs ++ ys) ≡ (all p xs && all p ys)
all-append p [] ys = refl
all-append p (x ∷ xs) ys = ground (arith, all-append p xs ys)

all-toggle :
    (p : String → Bool) (name : String) (names : List String)
    → p name ≡ true
    → all p names ≡ true
    → all p (toggle name names) ≡ true
unfolding toggle
all-toggle p name names here rest = elim (Bool-cases (any (λ n. n == name) names)) [
  | inl e ↦ rw e (all-filter-sub p (λ n. not (n == name)) names rest)
  | inr e ↦ rw (e, all-append p names (name ∷ []), rest, here) refl
]

has_name-names :
    (cols before : List ColumnDef)
    → all (λ n. has_name (before ++ cols) n) (map (λ d. d.name) cols) ≡ true
has_name-names [] before = refl
has_name-names (d ∷ cols) before =
    let here : has_name (before ++ d ∷ cols) d.name ≡ true =
      any-append (λ c. c.name == d.name) before (d ∷ cols) ∙ rw (eq_refl d.name) (ground arith) in
    rw here (
      subst (λ all_cols. all (λ n. has_name all_cols n) (map (λ d. d.name) cols) ≡ true)
        (append_assoc before (d ∷ []) cols) (has_name-names cols (before ++ d ∷ [])))

refers_offered-effect :
    (p : Panel) (e : FkEdit) (c : FormCol)
    → fk_offered p c e ≡ true
    → refers_offered p c ≡ true
    → refers_offered p (fk_effect p e c) ≡ true
unfolding fk_offered pick_ds pick_table pick_ref toggle_display select_all clear_all target_cols
    available
refers_offered-effect p (ds_picked v) c o h = refl
refers_offered-effect p (table_picked v) c o h = refl
refers_offered-effect p (ref_picked v) c o h = ground arith
refers_offered-effect p (display_toggled v) c o h =
    let offered_name : has_name (available p c) v ≡ true = ground arith in
    let ref : is_target (target_cols p c) c.fk_ref_column ≡ true = ground arith in
    let shown : all (λ n. has_name (available p c) n) (shown_of c) ≡ true = ground arith in
    rw ref (all-toggle (λ n. has_name (available p c) n) v (shown_of c) offered_name shown)
refers_offered-effect p all_selected c o h =
    let ref : is_target (target_cols p c) c.fk_ref_column ≡ true = ground arith in
    rw ref (has_name-names (available p c) [])
refers_offered-effect p all_cleared c o h = ground arith

fk_edits-refers_offered :
    (p : Panel) (es : List FkEdit) (c : FormCol)
    → refers_offered p c ≡ true
    → refers_offered p (fk_edits p es c) ≡ true
unfolding fk_edits
fk_edits-refers_offered p [] c h = h
fk_edits-refers_offered p (e ∷ es) c h =
    fk_edits-refers_offered p es _ (elim (Bool-cases (fk_offered p c e)) [
      | inl o ↦ rw o (refers_offered-effect p e c o h)
      | inr nothing ↦ rw nothing h
    ])

any-named :
    (p : String → Bool) (name : String) (cols : List ColumnDef)
    → any (λ d. p d.name && d.name == name) cols ≡ (any (λ d. d.name == name) cols && p name)
any-named p name [] = refl
any-named p name (d ∷ cols) = elim (Bool-cases (d.name == name)) [
  | inl same ↦
      let e : p d.name ≡ p name = ap p ((eq_iff d.name name).0 same) in
      ground (arith, any-named p name cols)
  | inr other ↦ ground (arith, any-named p name cols)
]

current_same :
    (current : Option String) (id : String)
    → is_current current id ≡ (not (id == "") && is_self (some id) current)
current_same none id = ground arith
current_same (some current) id = elim (Bool-cases (id == current)) [
  | inl same ↦
      let e : (id == "") ≡ (current == "") = ap (λ s. s == "") ((eq_iff id current).0 same) in
      ground arith
  | inr other ↦ rw other (ground arith)
]

cols_of_table-eq : (p : Panel) (o : Option String) → cols_of_table p o ≡ table_cols p o
cols_of_table-eq p none = refl
cols_of_table-eq p (some id) = rw (current_same p.current_id id) refl

target_cols-eq : (p : Panel) (c : FormCol) → target_cols p c ≡ table_cols p c.fk_table_def_id
unfolding target_cols
target_cols-eq p c = cols_of_table-eq p c.fk_table_def_id

pub is_other-eq : (o : Option String) (name : String) → is_other o name ≡ not (is_ref o name)
is_other-eq none name = refl
is_other-eq (some chosen) name = refl

is_column-eq : (cols : List ColumnDef) (o : Option String) → is_column cols o ≡ is_target cols o
is_column-eq cols none = refl
is_column-eq cols (some name) = refl

available-eq :
    (p : Panel) (c : FormCol) (name : String)
    → (any (λ d. d.name == name) (table_cols p c.fk_table_def_id) && is_other c.fk_ref_column name)
      ≡ has_name (available p c) name
unfolding available
available-eq p c name =
    rw (is_other-eq c.fk_ref_column name, ← target_cols-eq p c)
      (sym (
        any-filter (λ d. not (is_ref c.fk_ref_column d.name)) (λ d. d.name == name)
          (target_cols p c)
        ∙ any-named (λ m. not (is_ref c.fk_ref_column m)) name (target_cols p c)))

refers_well-eq : (p : Panel) (c : FormCol) → refers_well p c ≡ refers_offered p c
refers_well-eq p c =
    let ref =
      is_column-eq (table_cols p c.fk_table_def_id) c.fk_ref_column
      ∙ ap (λ cols. is_target cols c.fk_ref_column) (sym (target_cols-eq p c)) in
    let shown = all_cong _ (λ n. has_name (available p c) n) (shown_of c) (available-eq p c) in
    λ i. ref i && shown i

-- Whatever is clicked in the panel of a column that is not a reference yet, or that refers well, the
-- column refers to a column of its target table, if to any, and shows only columns of that table
-- other than the one that it refers to, where the columns of the tables are there throughout.
pub fk_edits-refers_well :
    (p : Panel) (es : List FkEdit) (c : FormCol)
    → refers_well p c ≡ true
    → refers_well p (fk_edits p es c) ≡ true
fk_edits-refers_well p es c h =
    refers_well-eq p (fk_edits p es c)
    ∙ fk_edits-refers_offered p es c (sym (refers_well-eq p c) ∙ h)
