-- ===== src/Sidebar/Counts.antt =====
-- How many tables of web/src/components/Sidebar.tsx stand under their groups.
use ku_crud.Base.{
  ℕ, ◌+◌, String, ◌≡◌, refl, ap, inl, inr, false, not, ◌&&◌, Option, none, some, List, [], ◌∷◌,
  arith, ◌==◌, eq_iff, eq_refl, if◌then◌else◌, Bool-cases, length, filter,
}
use mathlib.Core.Path.{subst}
use ku_crud.Types.{TableDef, TableGroup}
use ku_crud.Sidebar.{readable, is_known, known_or_none, effective_group, by_group}

-- the ids of the groups differ, and none is empty
abbrev pub IsNamed : List TableGroup → Type 0
IsNamed [] = Unit
IsNamed (g ∷ gs) = ((g.id == "") ≡ false) × (is_known gs g.id ≡ false) × IsNamed gs

-- how many tables stand under the groups of a list
abbrev pub listed : List TableGroup → List TableDef → List TableGroup → ℕ
listed groups defs [] = 0
listed groups defs (g ∷ gs) = length (by_group groups defs g.id) + listed groups defs gs

module _ (groups : List TableGroup) where
  under : List TableDef → String → List TableDef
  under defs id = filter (λ d. effective_group groups d == id) defs

  total : List TableDef → List TableGroup → ℕ
  total defs [] = 0
  total defs (g ∷ gs) = length (under defs g.id) + total defs gs

  hits : String → List TableGroup → ℕ
  hits e [] = 0
  hits e (g ∷ gs) = (if e == g.id then 1 else 0) + hits e gs

  length-under :
      (d : TableDef) (defs : List TableDef) (id : String)
      → length (under (d ∷ defs) id)
        ≡ (if effective_group groups d == id then 1 else 0) + length (under defs id)
  unfolding under
  length-under d defs id = ground arith

  total-hits :
      (d : TableDef) (defs : List TableDef) (gs : List TableGroup)
      → total (d ∷ defs) gs ≡ hits (effective_group groups d) gs + total defs gs
  unfolding total hits
  total-hits d defs [] = omega arith
  total-hits d defs (g ∷ gs) = omega (arith, length-under d defs g.id, total-hits d defs gs)

  total_none : (gs : List TableGroup) → total [] gs ≡ 0
  unfolding total under
  total_none [] = refl
  total_none (g ∷ gs) = omega (arith, total_none gs)

  hits_absent : (e : String) (gs : List TableGroup) → is_known gs e ≡ false → hits e gs ≡ 0
  unfolding hits
  hits_absent e [] h = refl
  hits_absent e (g ∷ gs) h =
      ground (arith, hits_absent e gs, eq_iff g.id e, eq_iff e g.id, eq_refl e)

  hits_known :
      (e : String) (gs : List TableGroup)
      → IsNamed gs
      → hits e gs ≡ (if is_known gs e then 1 else 0)
  unfolding hits
  hits_known e [] h = refl
  hits_known e (g ∷ gs) h = elim (Bool-cases (g.id == e)) [
    | inl same ↦
        subst (λ w. hits w (g ∷ gs) ≡ (if is_known (g ∷ gs) w then 1 else 0))
          ((eq_iff g.id e).0 same) (rw (eq_refl g.id, hits_absent g.id gs h.1) (omega arith))
    | inr other ↦ ground (arith, hits_known e gs h.2, eq_iff g.id e, eq_iff e g.id)
  ]

  pub no_blank : (gs : List TableGroup) → IsNamed gs → is_known gs "" ≡ false
  no_blank [] h = refl
  no_blank (g ∷ gs) h = rw h.0 (no_blank gs h.2)

  once_of :
      (o : Option String)
      → IsNamed groups
      → (let e = known_or_none groups o in (if e == "" then 1 else 0) + hits e groups) ≡ 1
  once_of none h = rw (hits_absent "" groups (no_blank groups h)) (omega arith)
  once_of (some id) h = elim (Bool-cases (not (id == "") && is_known groups id)) [
    | inl there ↦ rw there (ground (arith, hits_known id groups h))
    | inr gone ↦ rw (gone, hits_absent "" groups (no_blank groups h)) (omega arith)
  ]

  once :
      (d : TableDef)
      → IsNamed groups
      → (if effective_group groups d == "" then 1 else 0) + hits (effective_group groups d) groups
        ≡ 1
  unfolding effective_group
  once d h = once_of d.group_id h

  total_once :
      (defs : List TableDef)
      → IsNamed groups
      → length (under defs "") + total defs groups ≡ length defs
  unfolding under
  total_once [] h = omega (arith, total_none groups)
  total_once (d ∷ defs) h =
      omega (arith, length-under d defs "", total-hits d defs groups, once d h, total_once defs h)

  listed-total :
      (defs : List TableDef) (gs : List TableGroup)
      → listed groups defs gs ≡ total (readable defs) gs
  unfolding total under by_group
  listed-total defs [] = refl
  listed-total defs (g ∷ gs) =
      ap (λ n. length (by_group groups defs g.id) + n) (listed-total defs gs)

-- Each table that may be read stands under one group, or without one.
pub length-by_group :
    (groups : List TableGroup) (defs : List TableDef)
    → IsNamed groups
    → length (by_group groups defs "") + listed groups defs groups
      ≡ length (filter (λ d. d.permissions.read) defs)
unfolding by_group under readable
length-by_group groups defs h =
    rw (listed-total groups defs groups) (total_once groups (readable defs) h)
