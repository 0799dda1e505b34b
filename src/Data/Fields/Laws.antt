-- ===== src/Data/Fields/Laws.antt =====
-- The links of a row in web/src/pages/Data.tsx.
use ku_crud.Base.{
  String, ◌≡◌, refl, ◌∙◌, inl, inr, Bool, true, false, not, ◌&&◌, ◌||◌, List, [], ◌∷◌, arith, ◌==◌,
  eq_iff, if◌then◌else◌, Bool-cases, filter, any-append,
}
use mathlib.Core.Path.{subst}
use ku_crud.Value.{Value, to_text}
use ku_crud.Data.Fields.{has_link, toggle_link}

has_link-filter :
    (k t : String) (links : List Value)
    → has_link k (filter (λ x. not (to_text x == t)) links) ≡ (not (t == k) && has_link k links)
unfolding has_link
has_link-filter k t [] = ground arith
has_link-filter k t (x ∷ links) =
    ground
      (arith, has_link-filter k t links, eq_iff (to_text x) t, eq_iff (to_text x) k, eq_iff t k)

off : (a b : Bool) → ((a ≡ true) → b ≡ true) → (not a && b) ≡ (if a then not b else b)
off true b h = rw (h refl) refl
off false b h = refl

on :
    (a b : Bool)
    → ((a ≡ true) → b ≡ false)
    → ((not a && b) || (a || false)) ≡ (if a then not b else b)
on true b h = rw (h refl) refl
on false b h = ground arith

-- A click on a related row links it or takes its link away, and leaves every other link.
has_link-toggle_link :
    (v : Value) (k : String) (links : List Value)
    → has_link k (toggle_link v links)
      ≡ (if to_text v == k then not (has_link k links) else has_link k links)
unfolding toggle_link
has_link-toggle_link v k links = elim (Bool-cases (has_link (to_text v) links)) [
  | inl there ↦ rw there (
      has_link-filter k (to_text v) links
      ∙ off (to_text v == k) (has_link k links)
          (λ same. subst (λ w. has_link w links ≡ true) ((eq_iff (to_text v) k).0 same) there))
  | inr absent ↦ rw absent (
      (unfold has_link in
        any-append (λ x. to_text x == k) (filter (λ x. not (to_text x == to_text v)) links)
          (v ∷ []))
      ∙ rw (has_link-filter k (to_text v) links) (
          on (to_text v == k) (has_link k links)
            (λ same. subst (λ w. has_link w links ≡ false) ((eq_iff (to_text v) k).0 same) absent)))
]
