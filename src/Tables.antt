-- ===== src/Tables.antt =====
-- web/src/pages/Tables.tsx: the list of tables, its search, and the deletion of one.
pub mod Search
use ku_crud.Base.{
  String, Bool, false, ◌&&◌, ◌||◌, Option, none, some, List, filter, ◌∷◌, [], or_else,
  if◌then◌else◌,
}
use ku_crud.Base.Text.{template}
use text.Mathlib.Text.{starts_with}
use ku_crud.Labels.{Casing}
use ku_crud.Types.{TableDef, Me}
use ku_crud.Api.{Request, delete, no_body, request}

unfoldable pub can_platform : Option Me → Bool
can_platform none = false
can_platform (some me) = me.manage_tables && me.manage_datasources

-- `s.includes(p)`
unfoldable pub includes_text : (p s : String) → Bool
includes_text p String.[] = starts_with "" p
includes_text p (String.◌∷◌ c s) = starts_with (String.◌∷◌ c s) p || includes_text p s

unfoldable pub filtered_defs : Casing → String → Option (List TableDef) → List TableDef
unfolding includes_text
filtered_defs casing search defs =
    filter
      (λ d.
        includes_text (casing.lower search) (casing.lower d.label)
        || includes_text (casing.lower search) (casing.lower d.table_name)
        || includes_text (casing.lower search) (casing.lower d.schema_name))
      (or_else defs [])

-- the button that deletes a table, with the answer to the question that it asks
unfoldable pub delete_table : Option Me → (agreed : Bool) → TableDef → Option Request
unfolding can_platform
delete_table me agreed d =
    if can_platform me && agreed
    then some (request delete (template ("/tables/" ∷ d.id ∷ [])) no_body)
    else none
