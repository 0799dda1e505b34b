-- ===== src/TableForm/Views/Sound.antt =====
-- What the card of the view settings of web/src/pages/TableForm.tsx can make of a form.
use ku_crud.Base.{
  any-filter, sym, ◌∙◌, and-right, String, ◌≡◌, refl, inl, inr, Bool, true, not, ◌&&◌, Option, none,
  some, List, [], ◌∷◌, ◌==◌, arith, Bool-cases, any, filter, if◌then◌else◌,
}
use mathlib.Core.Path.{subst}
use ku_crud.Types.{is_enum, is_datetime, ViewConfig}
use ku_crud.TableForm.{FormCol, FormState}
use ku_crud.TableForm.Views.{
  ViewEdit, view_picked, board_picked, title_picked, start_picked, end_picked, or_none, is_option,
  end_options, view_offered, view_effect, view_edits, is_kanban, is_calendar,
}

-- whether a setting, if there is one, names a column of its kind
abbrev pub names_one : (FormCol → Bool) → Option String → List FormCol → Bool
names_one p none cols = true
names_one p (some name) cols = any (λ c. p c && c.name == name) cols

-- Whether the settings of the views name columns that are in the table: the board an enum, the title of
-- a card a visible column, the start and the end of the calendar a datetime, none of them computed.
abbrev pub names_columns : ViewConfig → List FormCol → Bool
names_columns vc cols =
    names_one (λ c. is_enum c.field_type && not c.is_computed) vc.kanban_board_column cols
    && names_one (λ c. c.visible && not c.is_computed) vc.kanban_display_column cols
    && names_one (λ c. is_datetime c.field_type && not c.is_computed) vc.calendar_start_column cols
    && names_one (λ c. is_datetime c.field_type && not c.is_computed) vc.calendar_end_column cols

any-filter-true {ℓ} :
    {A : Type ℓ} (p q : A → Bool) (xs : List A) → any q (filter p xs) ≡ true → any q xs ≡ true
any-filter-true p q [] h = h
any-filter-true p q (x ∷ xs) h = ground (arith, any-filter-true p q xs)

is_option-filter :
    (p : FormCol → Bool) (cols : List FormCol) (v : String)
    → is_option (filter p cols) v ≡ true
    → is_option cols v ≡ true
is_option-filter p cols v h = elim (Bool-cases (v == "none")) [
  | inl nothing ↦ rw nothing refl
  | inr named ↦ rw named (any-filter-true p (λ c. c.name == v) cols (rw named at h))
]

names_one-or_none :
    (p : FormCol → Bool) (v : String) (cols : List FormCol)
    → is_option (filter p cols) v ≡ true
    → names_one p (or_none v) cols ≡ true
names_one-or_none p v cols h = elim (Bool-cases (v == "none")) [
  | inl nothing ↦ rw nothing refl
  | inr named ↦ rw named (sym (any-filter p (λ c. c.name == v) cols) ∙ (rw named at h))
]

view_effect-cols : (e : ViewEdit) (s : FormState) → (view_effect e s).cols ≡ s.cols
unfolding view_effect
view_effect-cols (view_picked v) s = refl
view_effect-cols (board_picked v) s = refl
view_effect-cols (title_picked v) s = refl
view_effect-cols (start_picked v) s = refl
view_effect-cols (end_picked v) s = refl

names_columns-effect :
    (e : ViewEdit) (s : FormState)
    → view_offered s e ≡ true
    → names_columns s.view_config s.cols ≡ true
    → names_columns (view_effect e s).view_config s.cols ≡ true
unfolding view_effect view_offered end_options
names_columns-effect (view_picked v) s o h = h
names_columns-effect (board_picked v) s o h =
    let named =
      names_one-or_none (λ c. is_enum c.field_type && not c.is_computed) v s.cols
        (and-right (is_kanban s.default_view) _ o) in
    ground arith
names_columns-effect (title_picked v) s o h =
    let named =
      names_one-or_none (λ c. c.visible && not c.is_computed) v s.cols
        (and-right (is_kanban s.default_view) _ o) in
    ground arith
names_columns-effect (start_picked v) s o h =
    let named =
      names_one-or_none (λ c. is_datetime c.field_type && not c.is_computed) v s.cols
        (and-right (is_calendar s.default_view) _ o) in
    ground arith
names_columns-effect (end_picked v) s o h =
    let named =
      names_one-or_none (λ c. is_datetime c.field_type && not c.is_computed) v s.cols
        (is_option-filter _ _ v (and-right (is_calendar s.default_view) _ o)) in
    ground arith

abbrev next : ViewEdit → FormState → FormState
next e s = if view_offered s e then view_effect e s else s

next-cols : (e : ViewEdit) (s : FormState) → (next e s).cols ≡ s.cols
next-cols e s = elim (Bool-cases (view_offered s e)) [
  | inl offered ↦ rw offered (view_effect-cols e s)
  | inr nothing ↦ rw nothing refl
]

names_columns-next :
    (e : ViewEdit) (s : FormState)
    → names_columns s.view_config s.cols ≡ true
    → names_columns (next e s).view_config (next e s).cols ≡ true
names_columns-next e s h = elim (Bool-cases (view_offered s e)) [
  | inl offered ↦ rw (offered, view_effect-cols e s) (names_columns-effect e s offered h)
  | inr nothing ↦ rw nothing h
]

view_edits-step :
    (es : List ViewEdit) (s : FormState)
    → names_columns s.view_config s.cols ≡ true
    → (names_columns (view_edits es s).view_config (view_edits es s).cols ≡ true)
      × ((view_edits es s).cols ≡ s.cols)
unfolding view_edits
view_edits-step [] s h = (h, refl)
view_edits-step (e ∷ es) s h =
    let (named, kept) = view_edits-step es (next e s) (names_columns-next e s h) in
    (named, kept ∙ next-cols e s)

-- Whatever is clicked in the card of the view settings, the settings name columns of the form and of
-- their kind, if they did before: the board an enum, the title of a card a visible column, the start
-- and the end of the calendar a datetime, and no computed column.
pub view_edits-names_columns :
    (es : List ViewEdit) (s : FormState)
    → names_columns s.view_config s.cols ≡ true
    → names_columns (view_edits es s).view_config s.cols ≡ true
view_edits-names_columns es s h =
    let (named, kept) = view_edits-step es s h in
    subst (λ cols. names_columns (view_edits es s).view_config cols ≡ true) kept named
