-- ===== src/Sidebar.antt =====
-- web/src/components/Sidebar.tsx: which tables stand under which group.
pub mod Counts
pub mod Laws
pub mod Groups
use ku_crud.Base.{
  String, Bool, not, ◌&&◌, Option, none, some, List, [], ◌∷◌, ◌++◌, ◌==◌, if◌then◌else◌, any,
  filter,
}
use ku_crud.Types.{TableDef, TableGroup}

unfoldable pub readable : List TableDef → List TableDef
readable defs = filter (λ d. d.permissions.read) defs

abbrev pub is_known : List TableGroup → String → Bool
is_known groups id = any (λ g. g.id == id) groups

-- `(eff ?? "")`: the id of the group under which a table stands, empty for none
abbrev pub known_or_none : List TableGroup → Option String → String
known_or_none groups none = ""
known_or_none groups (some id) = if not (id == "") && is_known groups id then id else ""

unfoldable pub effective_group : List TableGroup → TableDef → String
effective_group groups d = known_or_none groups d.group_id

-- `byGroup`, with the empty text for a call without a group
unfoldable pub by_group : List TableGroup → List TableDef → String → List TableDef
unfolding effective_group readable
by_group groups defs id = filter (λ d. effective_group groups d == id) (readable defs)

-- the groups that are folded, as a Set
unfoldable pub toggle_group : String → List String → List String
toggle_group id folded =
    if any (λ x. x == id) folded then filter (λ x. not (x == id)) folded else folded ++ id ∷ []
