-- ===== src/Tests/Filters.antt =====
-- The filter bar.
use ku_crud.Base.{
  zero, suc, String, ◌≡◌, refl, false, none, some, List, [], ◌∷◌, map, ◌==◌, if◌then◌else◌,
}
use ku_crud.Types.{ColumnDef, text}
use ku_crud.Api.{Json}
use mathlib.Core.Path.{subst}
use mathlib.Core.Option.{some-injective}
use ku_crud.FilterBar.{
  col_by_name, eq, in_list, ActiveFilter, Bar, add, commit, type_value, filter_value, filters_value,
  serialize_filters, deserialize_filters,
}
use ku_crud.FilterBar.Sound.{IsSound}
use ku_crud.FilterBar.Steps.{Step, Reach, IsFoundByName, Reach-IsSound}
use ku_crud.FilterBar.RoundTrip.{deserialize-serialize}
use ku_crud.Tests.Samples.{column}

abbrev title : ColumnDef
title = column text "title"

abbrev cols : List ColumnDef
cols = title ∷ []

abbrev empty : Bar
empty = record { filters = []; draft = none; draft_vals = "" ∷ [] }

abbrev drafted : List String → Bar
drafted vals = record {
  filters = [];
  draft = some (record { column = "title"; op = eq });
  draft_vals = vals;
}

abbrev typed_bar : Bar
unfolding type_value
typed_bar = record (drafted ("" ∷ [])) { draft_vals = type_value title eq false "Emma" ("" ∷ []) }

emma : ActiveFilter
emma = record { column = "title"; op = eq; values = "Emma" ∷ [] }

-- A filter is added, and typed, and taken over.
committed : (commit typed_bar).filters ≡ emma ∷ []
unfolding commit emma type_value
committed = refl

found : IsFoundByName cols
unfolding col_by_name
found zero c h = subst (λ x. col_by_name cols x.name ≡ some x) (some-injective _ _ h) refl
found (suc i) c h = cc

reached : Reach cols empty (commit typed_bar)
unfolding add type_value col_by_name
reached =
    Reach.next
      (Reach.next (Reach.next Reach.here (Step.added empty (drafted ("" ∷ [])) refl)) (
        Step.typed title (record { column = "title"; op = eq }) false "Emma" (drafted ("" ∷ []))
          refl refl))
      (Step.committed typed_bar)

Reach-IsSound_example : IsSound cols (commit typed_bar)
Reach-IsSound_example =
    Reach-IsSound cols found (record { good = tt; one_each = tt; draft = tt }) reached

abbrev sample : List ActiveFilter
sample = record { column = "title"; op = in_list; values = "a" ∷ "b" ∷ [] } ∷ []

-- the one text it knows, and its value
abbrev known : Json
known = record {
  stringify = λ v. "T";
  pretty = λ v. "T";
  parse = λ s. if s == "T" then some (filters_value sample) else none;
}

deserialize-serialize_example :
    deserialize_filters known (serialize_filters known sample) ≡ map filter_value sample
deserialize-serialize_example = deserialize-serialize known sample refl refl
