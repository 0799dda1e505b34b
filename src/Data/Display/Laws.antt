-- ===== src/Data/Display/Laws.antt =====
-- The groups of a grouped grid in web/src/pages/Data.tsx, and the colours of web/src/lib/format.ts.
use ku_crud.Base.{
  String, ◌≡◌, refl, sym, ap, ◌∙◌, inl, inr, Bool, true, some, List, [], ◌∷◌, ◌++◌, arith, ◌==◌,
  eq_iff, eq_refl, if◌then◌else◌, Bool-cases, Option-cases, or_else, any, filter, filter_none,
}
use ku_crud.Base.Assoc.{Assoc, lookup, insert, lookup-insert}
use ku_crud.Value.{Row}
use ku_crud.Types.{ColumnDef}
use ku_crud.Data.Display.{group_value, group_rows, enum_color_class, enum_color_classes, colors_of}

append_assoc : (xs : List Row) (r : Row) (ys : List Row) → (xs ++ r ∷ []) ++ ys ≡ xs ++ r ∷ ys
append_assoc [] r ys = refl
append_assoc (x ∷ xs) r ys = ap (λ l. x ∷ l) (append_assoc xs r ys)

append_nil : (xs : List Row) → xs ++ [] ≡ xs
append_nil [] = refl
append_nil (x ∷ xs) = ap (λ l. x ∷ l) (append_nil xs)

filter_found :
    (p : Row → Bool) (xs : List Row) (start : List Row)
    → (if any p xs then some (start ++ filter p xs) else some start) ≡ some (start ++ filter p xs)
filter_found p xs start = elim (Bool-cases (any p xs)) [
  | inl found ↦ rw found refl
  | inr absent ↦ rw (absent, filter_none p xs absent) (ap some (sym (append_nil start)))
]

-- Grouping puts each row into the group of its value, in the order of the rows: a group that was
-- there goes on, and there is no group without a row.
pub lookup-group_rows :
    (col v : String) (rows : List Row) (groups : Assoc (List Row))
    → lookup v (group_rows col rows groups) ≡ (
        if any (λ r. group_value col r == v) rows
        then some (or_else (lookup v groups) [] ++ filter (λ r. group_value col r == v) rows)
        else lookup v groups)
unfolding group_rows
lookup-group_rows col v [] groups = refl
lookup-group_rows col v (row ∷ rows) groups =
    let here = group_value col row in
    let found = or_else (lookup here groups) [] ++ row ∷ [] in
    lookup-group_rows col v rows (insert here found groups)
    ∙ rw (lookup-insert here v found groups) (elim (Bool-cases (here == v)) [
      | inl same ↦ rw same (
          filter_found (λ r. group_value col r == v) rows found
          ∙ ap some (
              append_assoc (or_else (lookup here groups) []) row
                (filter (λ r. group_value col r == v) rows))
          ∙ ap
              (λ w.
                some
                  (or_else (lookup w groups) [] ++ row ∷ filter (λ r. group_value col r == v) rows))
              ((eq_iff here v).0 same))
      | inr other ↦ rw other refl
    ])

any-lookup : (n s : String) (m : Assoc String) → lookup n m ≡ some s → any (λ e. e.1 == s) m ≡ true
unfolding lookup
any-lookup n s [] h = absurd (ground arith)
any-lookup n s ((k, t) ∷ m) h = ground (arith, any-lookup n s m, eq_iff t s, eq_refl s)

-- Whatever is configured, an option is shown in a colour of the palette.
any-enum_color_class :
    (c : ColumnDef) (v : String) → any (λ e. e.1 == enum_color_class c v) enum_color_classes ≡ true
unfolding enum_color_class
any-enum_color_class c v =
    let name = or_else (lookup v (colors_of c.formatting)) "gray" in
    elim (Option-cases (lookup name enum_color_classes)) [
      | inl none_there ↦ rw none_there refl
      | inr (s, there) ↦ rw there (any-lookup name s enum_color_classes there)
    ]
