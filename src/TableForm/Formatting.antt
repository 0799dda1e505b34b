-- ===== src/TableForm/Formatting.antt =====
-- The editor of a column's formatting in web/src/components/ColumnListEditor.tsx.
use ku_crud.Base.{ℕ, String, Bool, none, some, [], or_else}
use ku_crud.Base.Assoc.{insert}
use ku_crud.Types.{ColumnFormatting, NumberFormat}
use ku_crud.TableForm.{FormCol}

-- the editor of the formatting: the colour of an option, and the format of numbers
abbrev formatting_of : FormCol → ColumnFormatting
formatting_of c = or_else c.formatting (record { enum_colors = none; number_format = none })

abbrev set_formatting : ColumnFormatting → FormCol → FormCol
set_formatting f c = record c { column = record c.column { formatting = some f } }

unfoldable pub set_color : String → String → FormCol → FormCol
unfolding insert
set_color option color c =
    let f = formatting_of c in
    set_formatting
      (record f { enum_colors = some (insert option color (or_else f.enum_colors [])) }) c

abbrev number_of : ColumnFormatting → NumberFormat
number_of f = or_else f.number_format (record { thousands = none; decimals = none; prefix = none })

abbrev set_number : (NumberFormat → NumberFormat) → FormCol → FormCol
set_number g c =
    let f = formatting_of c in
    set_formatting (record f { number_format = some (g (number_of f)) }) c

unfoldable pub set_thousands : Bool → FormCol → FormCol
set_thousands on c = set_number (λ n. record n { thousands = some on }) c

unfoldable pub set_decimals : ℕ → FormCol → FormCol
set_decimals d c = set_number (λ n. record n { decimals = some d }) c

unfoldable pub set_prefix : String → FormCol → FormCol
set_prefix s c = set_number (λ n. record n { prefix = some s }) c
