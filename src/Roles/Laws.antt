-- ===== src/Roles/Laws.antt =====
-- The grants of a role in web/src/pages/Roles.tsx.
use ku_crud.Base.{
  String, ◌≡◌, refl, ap, ◌∙◌, inl, inr, Bool, true, false, Option, none, some, List, [], ◌∷◌, map,
  arith, ◌==◌, eq_iff, if◌then◌else◌, Bool-cases, or_else, any, filter, find,
}
use ku_crud.Base.Assoc.{Assoc, lookup, insert, lookup-insert}
use mathlib.Core.Path.{subst}
use ku_crud.Types.{Role, TableGrant, TableDef}
use ku_crud.Roles.{
  RoleForm, no_grant, grants_any, grant_for, set_grant, index_grants, open_edit, saved_grants,
}

or_else_if :
    (b : Bool) (g d : TableGrant) (o : Option TableGrant)
    → or_else (if b then some g else o) d ≡ (if b then g else or_else o d)
or_else_if true g d o = refl
or_else_if false g d o = refl

-- Changing the grant of one table changes that grant by the patch, and no other.
grant_for-set_grant :
    (f : RoleForm) (def_id other : String) (patch : TableGrant → TableGrant)
    → grant_for (set_grant f def_id patch) other
      ≡ (if def_id == other then patch (grant_for f def_id) else grant_for f other)
unfolding grant_for set_grant
grant_for-set_grant f def_id other patch =
    rw (lookup-insert def_id other (patch (grant_for f def_id)) f.grants) (
      or_else_if (def_id == other) (patch (grant_for f def_id)) (no_grant other)
        (lookup other f.grants))

-- one grant for a table
abbrev pub IsUnique : List TableGrant → Type 0
IsUnique [] = Unit
IsUnique (g ∷ gs) = (any (λ h. h.table_def_id == g.table_def_id) gs ≡ false) × IsUnique gs

abbrev first_of : Option TableGrant → Option TableGrant → Option TableGrant
first_of none other = other
first_of (some g) other = some g

find-any :
    (k : String) (gs : List TableGrant)
    → any (λ g. g.table_def_id == k) gs ≡ false
    → find (λ g. g.table_def_id == k) gs ≡ none
find-any k [] h = refl
find-any k (g ∷ gs) h = ground (arith, find-any k gs)

lookup-index_grants :
    (k : String) (gs : List TableGrant) (grants : Assoc TableGrant)
    → IsUnique gs
    → lookup k (index_grants gs grants)
      ≡ first_of (find (λ g. g.table_def_id == k) gs) (lookup k grants)
unfolding index_grants
lookup-index_grants k [] grants h = refl
lookup-index_grants k (g ∷ gs) grants (h, hs) =
    lookup-index_grants k gs (insert g.table_def_id g grants) hs
    ∙ rw (lookup-insert g.table_def_id k g grants) (elim (Bool-cases (g.table_def_id == k)) [
      | inl same ↦
          rw
            (
              same,
              find-any k gs (
                  subst (λ w. any (λ x. x.table_def_id == w) gs ≡ false)
                    ((eq_iff g.table_def_id k).0 same) h),
            )
            refl
      | inr other ↦ rw other refl
    ])

or_none : (o : Option TableGrant) → first_of o none ≡ o
or_none none = refl
or_none (some g) = refl

grant_for-open_edit :
    (r : Role) (k : String)
    → IsUnique r.tables
    → grant_for (open_edit r) k ≡ or_else (find (λ g. g.table_def_id == k) r.tables) (no_grant k)
unfolding grant_for open_edit
grant_for-open_edit r k h =
    ap (λ o. or_else o (no_grant k))
      (lookup-index_grants k r.tables [] h ∙ or_none (find (λ g. g.table_def_id == k) r.tables))

map_ext :
    (f g : TableDef → TableGrant) (defs : List TableDef)
    → ((d : TableDef) → f d ≡ g d)
    → map f defs ≡ map g defs
map_ext f g [] h = refl
map_ext f g (d ∷ defs) h = rw (h d) (ap (λ l. g d ∷ l) (map_ext f g defs h))

-- Opening a role that has one grant for a table and saving it unchanged sends, table by table, the
-- grants of the role that give some right.
pub saved_grants-open_edit :
    (r : Role) (defs : List TableDef)
    → IsUnique r.tables
    → saved_grants defs (open_edit r)
      ≡ filter grants_any
          (map (λ d. or_else (find (λ g. g.table_def_id == d.id) r.tables) (no_grant d.id)) defs)
unfolding saved_grants
saved_grants-open_edit r defs h = ap (filter grants_any) (
    map_ext (λ d. grant_for (open_edit r) d.id)
      (λ d. or_else (find (λ g. g.table_def_id == d.id) r.tables) (no_grant d.id)) defs
      (λ d. grant_for-open_edit r d.id h))
