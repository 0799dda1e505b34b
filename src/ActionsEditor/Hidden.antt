-- ===== src/ActionsEditor/Hidden.antt =====
-- The toggle of a built-in action in web/src/components/ActionsEditor.tsx.
use ku_crud.Base.{
  ◌≡◌, refl, ap, ◌∙◌, inl, inr, Bool, true, false, not, ◌&&◌, ◌||◌, List, [], ◌∷◌, arith,
  if◌then◌else◌, Bool-cases, or_else, any, any-append,
}
use mathlib.Core.Path.{subst}
use ku_crud.Types.{HiddenActionKey, new_row, same_key, ActionsConfig}
use ku_crud.ActionsEditor.{
  has_key, add_key, delete_key, to_set, hidden_set, toggled_set, toggle_hidden,
}

same_key-eq : (j k : HiddenActionKey) → same_key j k ≡ true → j ≡ k
same_key-eq new_row k h = ground arith
same_key-eq _ k h = ground arith

or_swap : (a b : Bool) → (a || (b || false)) ≡ (b || a)
or_swap a b = ground arith

or_regroup : (a b c : Bool) → ((a || b) || c) ≡ (b || (a || c))
or_regroup a b c = ground arith

not_and_or : (a b : Bool) → (not a && b) ≡ (not a && (a || b))
not_and_or a b = ground arith

keep_or : (a b c : Bool) → (a && b) ≡ false → (b || (not a && c)) ≡ (not a && (b || c))
keep_or a b c h = ground arith

and_both : (a b : Bool) → ((a ≡ true) → (b ≡ true) → ⊥) → (a && b) ≡ false
and_both true true h = absurd (h refl refl)
and_both true false h = refl
and_both false b h = refl

has_key-add_key :
    (j k : HiddenActionKey) (ks : List HiddenActionKey)
    → has_key j (add_key k ks) ≡ (same_key k j || has_key j ks)
unfolding has_key
has_key-add_key j k ks = elim (Bool-cases (any (λ x. same_key x k) ks)) [
  | inr absent ↦ rw absent (
      any-append (λ x. same_key x j) ks (k ∷ [])
      ∙ or_swap (any (λ x. same_key x j) ks) (same_key k j))
  | inl present ↦ rw present (elim (Bool-cases (same_key k j)) [
    | inr other ↦ rw other
    | inl same ↦
        rw same (subst (λ x. any (λ y. same_key y x) ks ≡ true) (same_key-eq k j same) present)
  ])
]

has_key-delete_key :
    (j k : HiddenActionKey) (ks : List HiddenActionKey)
    → has_key j (delete_key k ks) ≡ (not (same_key k j) && has_key j ks)
unfolding has_key
has_key-delete_key j k [] = ground arith
has_key-delete_key j k (x ∷ ks) = elim (Bool-cases (same_key x k)) [
  | inl gone ↦ rw gone (
      has_key-delete_key j k ks
      ∙ rw (same_key-eq x k gone) (not_and_or (same_key k j) (any (λ y. same_key y j) ks)))
  | inr kept ↦
      rw (kept, has_key-delete_key j k ks)
        (keep_or (same_key k j) (same_key x j) (any (λ y. same_key y j) ks) (
          and_both (same_key k j) (same_key x j)
            (λ here there. cc (kept, here, there, same_key-eq k j here, same_key-eq x j there))))
]

has_key-to_set :
    (j : HiddenActionKey) (seen ks : List HiddenActionKey)
    → has_key j (to_set seen ks) ≡ (has_key j seen || has_key j ks)
unfolding to_set has_key
has_key-to_set j seen [] = ground arith
has_key-to_set j seen (k ∷ ks) =
    has_key-to_set j (add_key k seen) ks
    ∙ ap (λ b. b || has_key j ks) (has_key-add_key j k seen)
    ∙ or_regroup (same_key k j) (has_key j seen) (has_key j ks)

if_hide : (a b : Bool) → (not a && b) ≡ (if a then false else b)
if_hide a b = ground arith

if_show : (a b : Bool) → (a || b) ≡ (if a then true else b)
if_show a b = ground arith

has_key-toggled_set :
    (j k : HiddenActionKey) (on : Bool) (set : List HiddenActionKey)
    → has_key j (toggled_set k on set) ≡ (if same_key k j then not on else has_key j set)
has_key-toggled_set j k true set =
    has_key-delete_key j k set ∙ if_hide (same_key k j) (has_key j set)
has_key-toggled_set j k false set = has_key-add_key j k set ∙ if_show (same_key k j) (has_key j set)

-- A toggle of a built-in action shows or hides that action and no other, also where the stored list
-- repeats a key.
has_key-toggle_hidden :
    (j k : HiddenActionKey) (on : Bool) (value : ActionsConfig)
    → has_key j (hidden_set (toggle_hidden k on value))
      ≡ (if same_key k j then not on else has_key j (or_else value.hidden []))
has_key-toggle_hidden j k on value =
    unfold hidden_set toggle_hidden has_key in
    (has_key-to_set j [] _
      ∙ has_key-toggled_set j k on (hidden_set value)
      ∙ ap (λ b. if same_key k j then not on else b) (has_key-to_set j [] _))
