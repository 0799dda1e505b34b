-- ===== src/Data/Session/Laws.antt =====
-- The page number, the view and the number of pages in web/src/pages/Data.tsx.
use ku_crud.Base.{
  ℕ, zero, suc, ◌+◌, ◌-◌, ◌*◌, ◌/◌, ◌%◌, ◌≤◌, ◌<◌, ◌≡◌, refl, ◌⊎◌, inl, inr, true, false, not,
  Option, none, some, List, [], ◌∷◌, arith, leb, if◌then◌else◌, Bool-cases, All,
}
use native.Mathlib.Nat.{mod-lt, div-add-mod'}
use ku_crud.Types.{TableDefPayload, ViewMode}
use ku_crud.Data.Session.{
  Session, Event, type_search, next_page, handle, page_count, view_ok, config_of, def_view,
  fallback_view, effective_view,
}

-- Whatever the definition and the view that was chosen, the view shown is one whose column is there.
view_ok-effective_view :
    (def : Option TableDefPayload) (s : Session)
    → view_ok (config_of def) (effective_view def s) ≡ true
unfolding effective_view
view_ok-effective_view def s = by_view s.view
  where
    fallback : view_ok (config_of def) (fallback_view def) ≡ true
    fallback = elim (Bool-cases (view_ok (config_of def) (def_view def))) [
      | inl fits ↦ rw fits fits
      | inr not ↦ rw not refl
    ]

    by_view :
        (o : Option ViewMode)
        → view_ok (config_of def) (elim o [
          | none ↦ fallback_view def
          | some v ↦ if view_ok (config_of def) v then v else fallback_view def
        ])
          ≡ true
    by_view none = fallback
    by_view (some v) = elim (Bool-cases (view_ok (config_of def) v)) [
      | inl fits ↦ rw fits fits
      | inr not ↦ rw not fallback
    ]

-- The part of the state that says which rows there are, and in which order.
abbrev pub IsSameQuery : Session → Session → Type 0
IsSameQuery s t =
    (s.debounced ≡ t.debounced) × (s.sort ≡ t.sort) × (s.dir ≡ t.dir) × (s.filters ≡ t.filters)

-- An event either leaves the query as it is, or it leads back to the first page.
handle_query : (e : Event) (s : Session) → IsSameQuery (handle e s) s ⊎ ((handle e s).page ≡ 1)
unfolding handle
handle_query (type_search text) s = ground arith
handle_query _ s = ground arith

-- The pages that the `next` button has been told of.
abbrev pub AtMost : ℕ → Event → Type 0
AtMost n (next_page pages) = pages ≤ n
AtMost n _ = Unit

handle-page :
    (e : Event) (s : Session) (n : ℕ)
    → AtMost n e
    → 1 ≤ s.page
    → s.page ≤ n
    → (1 ≤ (handle e s).page) × ((handle e s).page ≤ n)
unfolding handle
handle-page (type_search text) s n h low high = ground arith
handle-page _ s n h low high = ground arith

unfoldable pub run : List Event → Session → Session
run [] s = s
run (e ∷ es) s = run es (handle e s)

-- Through any events, in any order, the page number stays between 1 and the largest number of pages
-- that the page has been told of; and an event that changes which rows are asked for, or their order,
-- leads back to page 1.
pub run-page :
    (es : List Event) (s : Session) (n : ℕ)
    → All (AtMost n) es
    → 1 ≤ s.page
    → s.page ≤ n
    → ((1 ≤ (run es s).page) × ((run es s).page ≤ n))
      × ((e : Event)
          → IsSameQuery (handle e (run es s)) (run es s) ⊎ ((handle e (run es s)).page ≡ 1))
unfolding run
run-page [] s n h low high = ((low, high), λ e. handle_query e s)
run-page (e ∷ es) s n (h, hs) low high =
    let (low', high') = handle-page e s n h low high in run-page es (handle e s) n hs low' high'

-- a quotient rounded up, from the equation of the division
rounded_up :
    (q r total size : ℕ)
    → 0 < size
    → r < size
    → q * size + r ≡ total + size - 1
    → (total ≤ (if leb q 1 then 1 else q) * size)
      × (((if leb q 1 then 1 else q) ≡ 1) ⊎ (((if leb q 1 then 1 else q) - 1) * size < total))
rounded_up zero r total size h k e = (omega arith, inl refl)
rounded_up (suc zero) r total size h k e = (omega arith, inl refl)
rounded_up (suc (suc q)) r total size h k e =
    let many : leb (suc (suc q)) 1 ≡ false = ground arith in
    let one_less : suc (suc q) - 1 ≡ suc q = omega arith in
    rw many (omega arith, inr (rw one_less (omega arith)))

-- The number of pages is the least number, from 1 on, of pages of that size that hold all rows.
pub page_count_bounds :
    (total size : ℕ)
    → 0 < size
    → (total ≤ page_count (some (total, size)) * size)
      × ((page_count (some (total, size)) ≡ 1)
          ⊎ ((page_count (some (total, size)) - 1) * size < total))
unfolding page_count
page_count_bounds total size h =
    rounded_up ((total + size - 1) / size) ((total + size - 1) % size) total size h (mod-lt _ h)
      (div-add-mod' (total + size - 1) size)
