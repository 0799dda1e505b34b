-- ===== src/TableForm/Rows.antt =====
-- Which columns are unfolded in web/src/components/ColumnListEditor.tsx.
use ku_crud.Base.{
  String, Bool, true, false, not, ◌||◌, List, [], ◌∷◌, filter, or_else, if◌then◌else◌,
}
use ku_crud.Base.Assoc.{Assoc, lookup, insert}
use ku_crud.Types.{FieldType, boolean, text, number, datetime, enum, uuid, json, fk, is_enum, is_fk}
use ku_crud.TableForm.{FormCol}

abbrev pub field_types : List FieldType
field_types = boolean ∷ text ∷ number ∷ datetime ∷ enum ∷ uuid ∷ json ∷ fk ∷ []

unfoldable pub type_options : (query_mode : Bool) → List FieldType
type_options query_mode =
    if query_mode then filter (λ t. not (is_fk t)) field_types else field_types

unfoldable pub toggle_expand : String → Assoc Bool → Assoc Bool
unfolding lookup insert
toggle_expand name expanded = insert name (not (or_else (lookup name expanded) false)) expanded

-- what `setTypeAndExpand` does to them
unfoldable pub expand_for : FieldType → String → Assoc Bool → Assoc Bool
unfolding insert
expand_for type name expanded =
    if is_enum type || is_fk type then insert name true expanded else expanded

unfoldable pub is_expanded : Assoc Bool → FormCol → Bool
unfolding lookup
is_expanded expanded c =
    or_else (lookup c.name expanded) false || is_enum c.field_type || is_fk c.field_type
