-- ===== src/Labels.antt =====
-- `normalizeLabel` of web/src/pages/TableForm.tsx: the label that a column's name suggests.
use ku_crud.Base.{String, Bool, false, ◌||◌, List, [], ◌∷◌, map, ◌==◌, eqb, if◌then◌else◌}
use ku_crud.Base.Text.{trim, join, is_space, head_char}
use Prim.Native.Char.{Char, code}
use Prim.Native.String.{◌++◌ as ◌⧺◌}

-- `toUpperCase` and `toLowerCase`
pub record Casing : Type 0 where
  pub upper : String → String
  pub lower : String → String

abbrev pub is_sep : Char → Bool
is_sep c = eqb (code c) b'-' || eqb (code c) b'_'

abbrev starts_sep : String → Bool
starts_sep String.[] = false
starts_sep (String.◌∷◌ c s) = is_sep c

abbrev starts_space : String → Bool
unfolding is_space
starts_space String.[] = false
starts_space (String.◌∷◌ c s) = is_space c

-- `.replace(/[-_]+/g, " ")`
unfoldable pub unseparate : String → String
unseparate String.[] = ""
unseparate (String.◌∷◌ c s) =
    let rest = unseparate s in
    if is_sep c then (if starts_sep s then rest else String.◌∷◌ " " rest) else String.◌∷◌ c rest

-- `.split(/\s+/)`
unfoldable pub split_spaces : String → List String
unfolding is_space
split_spaces String.[] = "" ∷ []
split_spaces (String.◌∷◌ c s) =
    let rest = split_spaces s in
    if is_space c then (if starts_space s then rest else "" ∷ rest) else head_char c rest

-- `word.charAt(0).toUpperCase() + word.slice(1).toLowerCase()`, for a first character of one unit
abbrev capitalize : Casing → String → String
capitalize casing String.[] = casing.upper "" ⧺ casing.lower ""
capitalize casing (String.◌∷◌ c s) = casing.upper (String.◌∷◌ c "") ⧺ casing.lower s

unfoldable pub normalize_label : Casing → String → String
unfolding unseparate trim split_spaces join
normalize_label casing name =
    if name == ""
    then ""
    else join " " (map (capitalize casing) (split_spaces (trim (unseparate name))))
