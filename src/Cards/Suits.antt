-- ===== src/Cards/Suits.antt =====
-- Which columns web/src/components/CardFormDialog.tsx offers for a function.
use ku_crud.Base.{
  any-filter, filter-filter, any_cong, String, ◌≡◌, refl, sym, ap, ◌∙◌, Bool, true, false, not,
  ◌&&◌, ◌||◌, List, [], ◌∷◌, arith, ◌==◌, any, filter,
}
use ku_crud.Types.{
  FieldType, boolean, text, number, datetime, enum, uuid, json, fk, m2m, is_number, is_datetime,
  is_m2m, is_fk, ColumnDef, AggFunc, count, sum, avg, min, max,
}
use ku_crud.Cards.{cols_for_func, has_column}

-- Whether a column can be summed, averaged, or compared: it is kept in the table and a number, or for
-- the least and the greatest a number or a date. There is none to count.
abbrev pub suits : AggFunc → ColumnDef → Bool
suits count c = false
suits sum c = not c.is_computed && is_number c.field_type
suits avg c = not c.is_computed && is_number c.field_type
suits min c = not c.is_computed && (is_number c.field_type || is_datetime c.field_type)
suits max c = not c.is_computed && (is_number c.field_type || is_datetime c.field_type)

-- whether there is such a column of this name
abbrev pub suitable : List ColumnDef → AggFunc → String → Bool
suitable cols f name = any (λ c. suits f c && c.name == name) cols

any-filter2 :
    (p q r : ColumnDef → Bool) (cols : List ColumnDef)
    → any r (filter p (filter q cols)) ≡ any (λ c. (q c && p c) && r c) cols
any-filter2 p q r cols = ap (any r) (filter-filter p q cols) ∙ any-filter (λ c. q c && p c) r cols

any_none : (p : ColumnDef → Bool) (cols : List ColumnDef) → any (λ c. false && p c) cols ≡ false
any_none p [] = refl
any_none p (c ∷ cols) = any_none p cols

plain :
    (t : FieldType)
    → ((not (is_m2m t) && not (is_fk t)) || not (is_number t || is_datetime t)) ≡ true
plain boolean = refl
plain text = refl
plain number = refl
plain datetime = refl
plain enum = refl
plain uuid = refl
plain json = refl
plain fk = refl
plain m2m = refl

real_number :
    (computed : Bool) (t : FieldType)
    → ((not computed && not (is_m2m t) && not (is_fk t)) && is_number t)
      ≡ (not computed && is_number t)
real_number computed t = ground (arith, plain t)

real_value :
    (computed : Bool) (t : FieldType)
    → ((not computed && not (is_m2m t) && not (is_fk t)) && (is_number t || is_datetime t))
      ≡ (not computed && (is_number t || is_datetime t))
real_value computed t = ground (arith, plain t)

-- The code offers exactly the columns that suit.
pub has_column-suitable :
    (cols : List ColumnDef) (f : AggFunc) (name : String)
    → has_column (cols_for_func cols f) name ≡ suitable cols f name
unfolding cols_for_func
has_column-suitable cols count name = sym (any_none (λ c. c.name == name) cols)
has_column-suitable cols sum name =
    any-filter2 _ _ _ cols
    ∙ any_cong _ _ cols
        (λ c. ap (λ b. b && c.name == name) (real_number c.is_computed c.field_type))
has_column-suitable cols avg name =
    any-filter2 _ _ _ cols
    ∙ any_cong _ _ cols
        (λ c. ap (λ b. b && c.name == name) (real_number c.is_computed c.field_type))
has_column-suitable cols min name =
    any-filter2 _ _ _ cols
    ∙ any_cong _ _ cols (λ c. ap (λ b. b && c.name == name) (real_value c.is_computed c.field_type))
has_column-suitable cols max name =
    any-filter2 _ _ _ cols
    ∙ any_cong _ _ cols (λ c. ap (λ b. b && c.name == name) (real_value c.is_computed c.field_type))
