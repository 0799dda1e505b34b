-- ===== src/Sidebar/Laws.antt =====
-- The tables of web/src/components/Sidebar.tsx under their groups.
use ku_crud.Base.{
  filter-filter, filter_cong, ◌+◌, String, ◌≡◌, refl, ap, ◌∙◌, inl, inr, true, false, not, ◌&&◌,
  Option, none, some, List, [], ◌∷◌, arith, ◌==◌, eq_iff, eq_refl, Bool, any, All, Bool-cases,
  length, filter,
}
use mathlib.Core.Path.{subst}
use ku_crud.Types.{TableDef, TableGroup}
use ku_crud.Sidebar.{readable, is_known, known_or_none, effective_group, by_group}
use ku_crud.Sidebar.Counts.{IsNamed, listed, no_blank, length-by_group}

-- whether a table has this group
abbrev pub has_id : Option String → String → Bool
has_id none id = false
has_id (some own) id = id == own

no_hit : (gs : List TableGroup) → any (λ g. false) gs ≡ false
no_hit [] = refl
no_hit (g ∷ gs) = no_hit gs

module _ (groups : List TableGroup) where
  under_none :
      (o : Option String)
      → IsNamed groups
      → (known_or_none groups o == "") ≡ not (any (λ g. has_id o g.id) groups)
  under_none none h = rw (no_hit groups) refl
  under_none (some own) h = elim (Bool-cases (own == "")) [
    | inl blank ↦ rw ((eq_iff own "").0 blank, no_blank groups groups h) refl
    | inr named ↦ elim (Bool-cases (is_known groups own)) [
      | inl there ↦ rw (named, there) named
      | inr gone ↦ rw (named, gone) refl
    ]
  ]

  under_one :
      (o : Option String) (id : String)
      → is_known groups id ≡ true
      → (id == "") ≡ false
      → (known_or_none groups o == id) ≡ has_id o id
  under_one none id there named = ground (arith, eq_iff "" id, eq_iff id "")
  under_one (some own) id there named = elim (Bool-cases (id == own)) [
    | inl same ↦
        subst (λ w. (known_or_none groups (some w) == id) ≡ (id == w)) ((eq_iff id own).0 same)
          (rw (named, there) refl)
    | inr other ↦ elim (Bool-cases (not (own == "") && is_known groups own)) [
      | inl kept ↦ rw (kept, other) (ground (arith, eq_iff own id, eq_iff id own))
      | inr gone ↦ rw (gone, other) (ground (arith, eq_iff "" id, eq_iff id ""))
    ]
  ]

  -- The tables under each of some groups that are all there.
  under_each :
      (defs : List TableDef) (gs : List TableGroup)
      → IsNamed gs
      → ((id : String) → is_known gs id ≡ true → is_known groups id ≡ true)
      → All
          (λ g.
            by_group groups defs g.id
            ≡ filter (λ d. d.permissions.read && has_id d.group_id g.id) defs)
          gs
  unfolding by_group readable effective_group
  under_each defs [] h sub = tt
  under_each defs (g ∷ gs) (named, fresh, rest) sub = (
    filter-filter (λ d. effective_group groups d == g.id) (λ d. d.permissions.read) defs
        ∙ filter_cong _ _ defs (λ d.
          ap (λ b. d.permissions.read && b)
            (under_one d.group_id g.id (sub g.id (rw (eq_refl g.id) refl)) named)),
    under_each defs gs rest (λ id there. sub id (ground arith)),
  )

  ungrouped :
      (defs : List TableDef)
      → IsNamed groups
      → by_group groups defs ""
        ≡ filter (λ d. d.permissions.read && not (any (λ g. has_id d.group_id g.id) groups)) defs
  unfolding by_group readable effective_group
  ungrouped defs h =
      filter-filter (λ d. effective_group groups d == "") (λ d. d.permissions.read) defs
      ∙ filter_cong _ _ defs (λ d. ap (λ b. d.permissions.read && b) (under_none d.group_id h))

-- Where the ids of the groups differ and none is empty: under each group stand the tables with its id
-- that may be read, and without a group those that may be read and have the id of no group, be it
-- none or the id of a group that is not there, each in the order of the tables; and together they are
-- as many as the tables that may be read.
pub by_group-readable :
    (groups : List TableGroup) (defs : List TableDef)
    → IsNamed groups
    → All
        (λ g.
          by_group groups defs g.id
          ≡ filter (λ d. d.permissions.read && has_id d.group_id g.id) defs)
        groups
      × (by_group groups defs ""
          ≡ filter (λ d. d.permissions.read && not (any (λ g. has_id d.group_id g.id) groups)) defs)
      × (length (by_group groups defs "") + listed groups defs groups
          ≡ length (filter (λ d. d.permissions.read) defs))
by_group-readable groups defs h = (
  under_each groups defs groups h (λ id there. there),
  ungrouped groups defs h,
  length-by_group groups defs h,
)
