-- ===== src/TableForm/Laws.antt =====
-- The keys and the saved body of web/src/pages/TableForm.tsx.
use ku_crud.Base.{
  ℕ, suc, String, ◌≡◌, refl, ap, ◌∙◌, inl, inr, Bool, true, false, not, ◌&&◌, ◌||◌, List, [], ◌∷◌,
  arith, ◌==◌, eq_iff, eq_refl, ltb, if◌then◌else◌, Bool-cases, length, any, all, filter, map_from,
  any-append,
}
use mathlib.Core.Path.{subst}
use ku_crud.Types.{LiveColumn}
use ku_crud.Labels.{Casing}
use ku_crud.TableForm.{FormState, is_query, inspected, live_col, live_pks, toggle_key, keys_valid}

has-filter :
    (j k : String) (keys : List String)
    → any (λ x. x == j) (filter (λ x. not (x == k)) keys) ≡ (not (k == j) && any (λ x. x == j) keys)
has-filter j k [] = ground arith
has-filter j k (x ∷ keys) = ground (arith, has-filter j k keys, eq_iff x k, eq_iff x j, eq_iff k j)

toggle_on : (a b : Bool) → ((a ≡ true) → b ≡ false) → (b || (a || false)) ≡ (if a then not b else b)
toggle_on true b h = rw (h refl) refl
toggle_on false b h = ground arith

toggle_off : (a b : Bool) → ((a ≡ true) → b ≡ true) → (not a && b) ≡ (if a then not b else b)
toggle_off true b h = rw (h refl) refl
toggle_off false b h = refl

-- A click on a column makes it a key column or no longer one, and changes no other.
has-toggle_key :
    (name k : String) (keys : List String)
    → any (λ x. x == k) (toggle_key name keys)
      ≡ (if name == k then not (any (λ x. x == k) keys) else any (λ x. x == k) keys)
unfolding toggle_key
has-toggle_key name k keys = elim (Bool-cases (any (λ x. x == name) keys)) [
  | inl there ↦ rw there (
      has-filter k name keys
      ∙ toggle_off (name == k) (any (λ x. x == k) keys)
          (λ same. subst (λ w. any (λ x. x == w) keys ≡ true) ((eq_iff name k).0 same) there))
  | inr absent ↦ rw absent (
      any-append (λ x. x == k) keys (name ∷ [])
      ∙ toggle_on (name == k) (any (λ x. x == k) keys)
          (λ same. subst (λ w. any (λ x. x == w) keys ≡ false) ((eq_iff name k).0 same) absent))
]

any-map_from :
    (casing : Casing) (ds : String) (k : String) (i : ℕ) (live : List LiveColumn)
    → any (λ c. c.name == k) (map_from (live_col casing ds) i live) ≡ any (λ c. c.name == k) live
unfolding live_col
any-map_from casing ds k i [] = refl
any-map_from casing ds k i (c ∷ live) =
    ap (λ b. c.name == k || b) (any-map_from casing ds k (suc i) live)

all-live_pks :
    (p : String → Bool) (live : List LiveColumn)
    → ((k : String) → any (λ c. c.name == k) live ≡ true → p k ≡ true)
    → all p (live_pks live) ≡ true
all-live_pks p [] h = refl
all-live_pks p (c ∷ live) h =
    let rest = all-live_pks p live (λ k there. h k (ground arith)) in
    elim (Bool-cases c.is_pk) [
      | inl key ↦ rw (key, h c.name (rw (eq_refl c.name) refl)) rest
      | inr other ↦ rw other rest
    ]

length-live_pks :
    (live : List LiveColumn)
    → any (λ c. c.is_pk) live ≡ true
    → ltb 0 (length (live_pks live)) ≡ true
length-live_pks [] h = absurd (ground arith)
length-live_pks (c ∷ live) h = elim (Bool-cases c.is_pk) [
  | inl key ↦ rw key (ground arith)
  | inr other ↦ rw other (length-live_pks live (rw other at h))
]

if_true : (b : Bool) → (if b then true else true && true) ≡ true
if_true b = ground arith

-- Where no keys have been picked, and the table has a primary key, the keys of a new definition are
-- valid once its columns are there.
keys_valid-inspected :
    (casing : Casing) (live : List LiveColumn) (s : FormState)
    → s.keys ≡ []
    → any (λ c. c.is_pk) live ≡ true
    → keys_valid (inspected casing live s) ≡ true
unfolding keys_valid inspected
keys_valid-inspected casing [] s empty pk = absurd (ground arith)
keys_valid-inspected casing (c ∷ live) s empty pk =
    rw
      (
        empty,
        length-live_pks (c ∷ live) pk,
        all-live_pks (λ k. any (λ x. x.name == k) (map_from (live_col casing s.ds_id) 0 (c ∷ live)))
            (c ∷ live) (λ k there. any-map_from casing s.ds_id k 0 (c ∷ live) ∙ there),
      )
      (if_true (is_query s.source_type))
