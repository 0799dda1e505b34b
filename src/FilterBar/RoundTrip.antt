-- ===== src/FilterBar/RoundTrip.antt =====
-- Writing and reading the filters of web/src/components/FilterBar.tsx.
use ku_crud.Base.{◌≡◌, refl, true, not, ◌&&◌, none, some, List, [], ◌∷◌, map, ◌==◌, filter}
use ku_crud.Base.Assoc.{lookup}
use ku_crud.Value.{items-values, cell}
use ku_crud.Api.{Json}
use ku_crud.FilterBar.{
  FilterOp, eq, op_name, ActiveFilter, filter_value, filters_value, is_filter, serialize_filters,
  deserialize_filters,
}

named-op_name : (op : FilterOp) → (not (op_name op == "") && true) ≡ true
named-op_name eq = refl
named-op_name _ = refl

is_filter-filter_value : (f : ActiveFilter) → is_filter (filter_value f) ≡ true
unfolding cell lookup
is_filter-filter_value f = named-op_name f.op

all-is_filter :
    (fs : List ActiveFilter) → filter is_filter (map filter_value fs) ≡ map filter_value fs
all-is_filter [] = refl
all-is_filter (f ∷ fs) = rw (is_filter-filter_value f, all-is_filter fs)

-- Where the text of a list of filters parses to the list that was written, and the empty text does
-- not parse, reading serialised filters gives back every filter, in order, with its operator and
-- its values; no filters are written as the empty text, and read as none.
pub deserialize-serialize :
    (js : Json) (fs : List ActiveFilter)
    → js.parse "" ≡ none
    → js.parse (js.stringify (filters_value fs)) ≡ some (filters_value fs)
    → deserialize_filters js (serialize_filters js fs) ≡ map filter_value fs
unfolding deserialize_filters serialize_filters
deserialize-serialize js [] blank round = rw blank
deserialize-serialize js (f ∷ fs) blank round =
    rw (round, items-values (map filter_value fs)) (all-is_filter (f ∷ fs))
