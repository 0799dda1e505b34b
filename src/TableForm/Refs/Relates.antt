-- ===== src/TableForm/Refs/Relates.antt =====
-- What the card of a relation of web/src/components/ColumnListEditor.tsx can make of a column.
use ku_crud.Base.{
  any-filter, Option-cases, sym, ap, if◌then◌else◌, String, ◌≡◌, refl, ◌∙◌, inl, inr, Bool, true,
  not, ◌&&◌, ◌||◌, Option, none, some, List, [], ◌∷◌, arith, ◌==◌, Bool-cases, is_some, any, filter,
}
use ku_crud.Types.{ColumnDef, is_fk}
use ku_crud.TableForm.Refs.Panels.{is_target, is_other, is_self, is_other-eq}
use ku_crud.TableForm.{FormCol}
use ku_crud.TableForm.Refs.{filled}
use ku_crud.TableForm.Refs.Card.{
  Card, RelEdit, junction_picked, src_picked, tgt_picked, shown_toggled, all_shown, none_shown,
  label_typed, same_id, show_all, show_none, relabel, src_options, tgt_options, junction_fks,
  rel_offered, rel_effect, rel_edits, pick_junction, pick_src, pick_tgt, toggle_shown,
}

-- the columns of the junction table that is chosen
abbrev pub junction_cols : Card → Option String → List ColumnDef
junction_cols k none = []
junction_cols k (some id) = if id == "" then [] else k.fetched id

abbrev some_column : (ColumnDef → Bool) → List ColumnDef → Option String → Bool
some_column p cols none = true
some_column p cols (some name) = any (λ c. p c && c.name == name) cols

-- Whether a relation goes from a reference column of its junction table that refers to the table itself
-- to another reference column of that table, as far as the two are chosen, the first before the
-- second. A new table has no id yet: then the column refers to none.
abbrev pub relates_well : Card → FormCol → Bool
relates_well k rel =
    some_column (λ c. is_fk c.field_type && is_self c.fk_table_def_id k.current_id)
      (junction_cols k rel.m2m_junction_def_id) rel.m2m_junction_src_col
    && some_column (λ c. is_fk c.field_type && is_other rel.m2m_junction_src_col c.name)
        (junction_cols k rel.m2m_junction_def_id) rel.m2m_junction_tgt_col
    && (is_some rel.m2m_junction_src_col || not (is_some rel.m2m_junction_tgt_col))

-- Whether what a relation goes from and to is offered.
abbrev relates_offered : Card → FormCol → Bool
relates_offered k rel =
    is_target (src_options k rel) rel.m2m_junction_src_col
    && is_target (tgt_options k rel) rel.m2m_junction_tgt_col
    && (is_some rel.m2m_junction_src_col || not (is_some rel.m2m_junction_tgt_col))

filled-is_some : (o : Option String) → filled o ≡ true → is_some o ≡ true
filled-is_some none h = h
filled-is_some (some s) h = refl

relates_offered-effect :
    (k : Card) (e : RelEdit) (rel : FormCol)
    → rel_offered k rel e ≡ true
    → relates_offered k rel ≡ true
    → relates_offered k (rel_effect k e rel) ≡ true
unfolding rel_offered pick_junction pick_src pick_tgt toggle_shown show_all show_none relabel
    src_options tgt_options junction_fks
relates_offered-effect k (junction_picked v) rel o h = refl
relates_offered-effect k (src_picked v) rel o h = ground arith
relates_offered-effect k (tgt_picked v) rel o h =
    let there = filled-is_some rel.m2m_junction_src_col (ground arith) in ground arith
relates_offered-effect k (shown_toggled v) rel o h = h
relates_offered-effect k all_shown rel o h = h
relates_offered-effect k none_shown rel o h = h
relates_offered-effect k (label_typed text) rel o h = h

rel_edits-relates_offered :
    (k : Card) (es : List RelEdit) (rel : FormCol)
    → relates_offered k rel ≡ true
    → relates_offered k (rel_edits k es rel) ≡ true
unfolding rel_edits
rel_edits-relates_offered k [] rel h = h
rel_edits-relates_offered k (e ∷ es) rel h =
    rel_edits-relates_offered k es _ (elim (Bool-cases (rel_offered k rel e)) [
      | inl o ↦ rw o (relates_offered-effect k e rel o h)
      | inr nothing ↦ rw nothing h
    ])

is_self-eq : (a b : Option String) → same_id a b ≡ is_self a b
is_self-eq none none = refl
is_self-eq none (some b) = refl
is_self-eq (some a) none = refl
is_self-eq (some a) (some b) = refl

junction_fks-eq :
    (k : Card) (rel : FormCol)
    → junction_fks k rel
      ≡ filter (λ c. is_fk c.field_type) (junction_cols k rel.m2m_junction_def_id)
unfolding junction_fks
junction_fks-eq k rel = elim (Option-cases rel.m2m_junction_def_id) [
  | inl nothing ↦ rw nothing refl
  | inr (id, chosen) ↦
      rw chosen
        (elim (Bool-cases (id == "")) [ inl blank ↦ rw blank refl | inr named ↦ rw named refl ])
]

-- An option that is kept by two filters is a column with both marks.
is_target-filters :
    (p q : ColumnDef → Bool) (cols : List ColumnDef) (o : Option String)
    → is_target (filter q (filter p cols)) o ≡ some_column (λ c. p c && q c) cols o
is_target-filters p q cols none = refl
is_target-filters p q cols (some name) =
    any-filter q (λ c. c.name == name) (filter p cols)
    ∙ any-filter p (λ c. q c && c.name == name) cols
    ∙ any_assoc cols
  where
    any_assoc :
        (cs : List ColumnDef)
        → any (λ c. p c && (q c && c.name == name)) cs
          ≡ any (λ c. (p c && q c) && c.name == name) cs
    any_assoc [] = refl
    any_assoc (c ∷ cs) = ground (arith, any_assoc cs)

some_column_cong :
    (p q : ColumnDef → Bool) (cols : List ColumnDef) (o : Option String)
    → ((c : ColumnDef) → p c ≡ q c)
    → some_column p cols o ≡ some_column q cols o
some_column_cong p q cols none h = refl
some_column_cong p q [] (some name) h = refl
some_column_cong p q (c ∷ cols) (some name) h =
    rw (h c, some_column_cong p q cols (some name) h) refl

src-eq :
    (k : Card) (rel : FormCol) (o : Option String)
    → is_target (src_options k rel) o
      ≡ some_column
          (λ c. is_fk c.field_type && is_self c.fk_table_def_id k.current_id)
          (junction_cols k rel.m2m_junction_def_id)
          o
unfolding src_options
src-eq k rel o = rw (junction_fks-eq k rel) (
    is_target-filters _ _ (junction_cols k rel.m2m_junction_def_id) o
    ∙ some_column_cong _ _ (junction_cols k rel.m2m_junction_def_id) o
        (λ c. ap (λ b. is_fk c.field_type && b) (is_self-eq c.fk_table_def_id k.current_id)))

tgt-eq :
    (k : Card) (rel : FormCol) (o : Option String)
    → is_target (tgt_options k rel) o
      ≡ some_column
          (λ c. is_fk c.field_type && is_other rel.m2m_junction_src_col c.name)
          (junction_cols k rel.m2m_junction_def_id)
          o
unfolding tgt_options
tgt-eq k rel o = rw (junction_fks-eq k rel) (
    is_target-filters _ _ (junction_cols k rel.m2m_junction_def_id) o
    ∙ some_column_cong _ _ (junction_cols k rel.m2m_junction_def_id) o (λ c.
      ap (λ b. is_fk c.field_type && b) (sym (is_other-eq rel.m2m_junction_src_col c.name))))

relates_well-eq : (k : Card) (rel : FormCol) → relates_offered k rel ≡ relates_well k rel
relates_well-eq k rel =
    let src = src-eq k rel rel.m2m_junction_src_col in
    let tgt = tgt-eq k rel rel.m2m_junction_tgt_col in
    λ i.
      src i && tgt i && (is_some rel.m2m_junction_src_col || not (is_some rel.m2m_junction_tgt_col))

-- Whatever is clicked in the card of a new relation, or of one that relates well, the relation goes
-- from a reference column of its junction table that refers to the table itself to another reference
-- column of the junction table, as far as the two are chosen, and the first before the second.
pub rel_edits-relates_well :
    (k : Card) (es : List RelEdit) (rel : FormCol)
    → relates_well k rel ≡ true
    → relates_well k (rel_edits k es rel) ≡ true
rel_edits-relates_well k es rel h =
    sym (relates_well-eq k (rel_edits k es rel))
    ∙ rel_edits-relates_offered k es rel (relates_well-eq k rel ∙ h)
