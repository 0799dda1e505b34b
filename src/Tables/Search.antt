-- ===== src/Tables/Search.antt =====
-- What the search of web/src/pages/Tables.tsx finds.
use ku_crud.Base.{
  String, ◌≡◌, refl, sym, ap, ◌∙◌, ◌⊎◌, inl, inr, Bool, true, ◌||◌, some, List, ◌∷◌, ◌++◌, arith,
  Bool-cases, filter-append,
}
use mathlib.Core.Path.{subst}
use Prim.Native.String.{◌++◌ as ◌⧺◌}
use Prim.Native.String.append
use text.Mathlib.Text.{starts_with}
use text.Mathlib.TextPositions.{starts_with-append}
use text.Mathlib.TextEquality.{starts_with_iff}
use ku_crud.Labels.{Casing}
use ku_crud.Types.{TableDef}
use ku_crud.Tables.{includes_text, filtered_defs}

-- Whether a text stands somewhere in another.
abbrev pub IsInside : (p s : String) → Type 0
IsInside p s = (u : String) × (v : String) × (u ⧺ (p ⧺ v) ≡ s)

includes_text-IsInside : (p s : String) → includes_text p s ≡ true → IsInside p s
unfolding includes_text
includes_text-IsInside p String.[] h =
    let (v, e) = (starts_with_iff "" p).0 h in ("", v, append.nil (p ⧺ v) ∙ e)
includes_text-IsInside p (String.◌∷◌ c s) h = elim (Bool-cases (starts_with (String.◌∷◌ c s) p)) [
  | inl here ↦
      let (v, e) = (starts_with_iff (String.◌∷◌ c s) p).0 here in ("", v, append.nil (p ⧺ v) ∙ e)
  | inr later ↦
      let (u, v, e) = includes_text-IsInside p s (rw later at h) in
      (String.◌∷◌ c u, v, append.cons c u (p ⧺ v) ∙ ap (λ r. String.◌∷◌ c r) e)
]

starts_with-includes_text : (p s : String) → starts_with s p ≡ true → includes_text p s ≡ true
unfolding includes_text
starts_with-includes_text p String.[] h = h
starts_with-includes_text p (String.◌∷◌ c s) h = rw h refl

includes_text-after : (p u v : String) → includes_text p (u ⧺ (p ⧺ v)) ≡ true
unfolding includes_text
includes_text-after p String.[] v =
    starts_with-includes_text p _
      (subst (λ s. starts_with s p ≡ true) (sym (append.nil (p ⧺ v))) (starts_with-append p v))
includes_text-after p (String.◌∷◌ c u) v =
    subst (λ s. includes_text p s ≡ true) (sym (append.cons c u (p ⧺ v)))
      (ground (arith, includes_text-after p u v))

IsInside-includes_text : (p s : String) → IsInside p s → includes_text p s ≡ true
IsInside-includes_text p s (u, v, e) =
    subst (λ r. includes_text p r ≡ true) e (includes_text-after p u v)

-- Whether the search text stands in the label, the name or the schema of a table, in lower case.
abbrev pub IsFound : Casing → String → TableDef → Type 0
IsFound casing search d =
    IsInside (casing.lower search) (casing.lower d.label)
    ⊎ (IsInside (casing.lower search) (casing.lower d.table_name)
        ⊎ IsInside (casing.lower search) (casing.lower d.schema_name))

module _ (casing : Casing) (search : String) where
  abbrev test : TableDef → Bool
  test d =
      includes_text (casing.lower search) (casing.lower d.label)
      || includes_text (casing.lower search) (casing.lower d.table_name)
      || includes_text (casing.lower search) (casing.lower d.schema_name)

  abbrev shown : List TableDef → List TableDef
  shown defs = filtered_defs casing search (some defs)

  found : (d : TableDef) → test d ≡ true → IsFound casing search d
  found d h = elim (Bool-cases (includes_text (casing.lower search) (casing.lower d.label))) [
    | inl here ↦ inl (includes_text-IsInside _ _ here)
    | inr no_label ↦
        elim (Bool-cases (includes_text (casing.lower search) (casing.lower d.table_name))) [
          | inl here ↦ inr (inl (includes_text-IsInside _ _ here))
          | inr no_name ↦ inr (inr (includes_text-IsInside _ _ (ground arith)))
        ]
  ]

  found-test : (d : TableDef) → IsFound casing search d → test d ≡ true
  found-test d (inl i) = let h = IsInside-includes_text _ _ i in ground arith
  found-test d (inr (inl i)) = let h = IsInside-includes_text _ _ i in ground arith
  found-test d (inr (inr i)) = let h = IsInside-includes_text _ _ i in ground arith

  -- A table of the list, wherever it stands, is shown there exactly where the search text is found in
  -- its label, its name or its schema, all in lower case; the others stay as they are.
  pub filtered_defs-IsFound :
      (before after : List TableDef) (d : TableDef)
      → (IsFound casing search d
          × (filtered_defs casing search (some (before ++ d ∷ after))
              ≡ filtered_defs casing search (some before)
                ++ d ∷ filtered_defs casing search (some after)))
        ⊎ ((¬ IsFound casing search d)
            × (filtered_defs casing search (some (before ++ d ∷ after))
                ≡ filtered_defs casing search (some before)
                  ++ filtered_defs casing search (some after)))
  unfolding filtered_defs
  filtered_defs-IsFound before after d = elim (Bool-cases (test d)) [
    | inl shows ↦ inl (found d shows, filter-append test before (d ∷ after) ∙ rw shows refl)
    | inr hides ↦ inr (
      λ f. let shows = found-test d f in cc,
      filter-append test before (d ∷ after) ∙ rw hides refl,
    )
  ]
