-- ===== src/Data/Bulk/Buttons.antt =====
-- The selection of a page and the buttons of a row in web/src/pages/Data.tsx.
use ku_crud.Base.{
  any-filter, ℕ, ◌≤◌, String, ◌≡◌, refl, ap, ◌∙◌, inl, inr, Bool, true, false, not, ◌&&◌, ◌||◌,
  List, [], ◌∷◌, arith, ◌==◌, eq_iff, leb, if◌then◌else◌, Bool-cases, leb→le, any, filter, All,
  any-append,
}
use ku_crud.Types.{TableDefPayload, CustomAction}
use ku_crud.Data.Bulk.{
  permits, insert_action, sort_actions, custom_actions, custom_of, is_table, has, select_page,
  insert_key, erase_key,
}

or_swap : (a b : Bool) → (a || (b || false)) ≡ (b || a)
or_swap a b = ground arith

if_or : (a b c : Bool) → (if a then true else (b || c)) ≡ (if b || a then true else c)
if_or a b c = ground arith

if_and : (a b c : Bool) → (if a then false else (not b && c)) ≡ (if b || a then false else c)
if_and a b c = ground arith

and_swap : (a b c : Bool) → (a && (b && c)) ≡ (a && b && c)
and_swap a b c = ground arith

has-insert_key :
    (j k : String) (sel : List String) → has j (insert_key k sel) ≡ (k == j || has j sel)
unfolding has
has-insert_key j k sel = elim (Bool-cases (any (λ x. x == k) sel)) [
  | inl there ↦ rw there (elim (Bool-cases (k == j)) [
    | inl same ↦ rw same (rw ((eq_iff k j).0 same) at there)
    | inr other ↦ rw other
  ])
  | inr absent ↦ rw absent (any-append _ sel (k ∷ []) ∙ or_swap (any (λ x. x == j) sel) (k == j))
]

has-erase_key :
    (j k : String) (sel : List String) → has j (erase_key k sel) ≡ (not (k == j) && has j sel)
unfolding has
has-erase_key j k [] = ground arith
has-erase_key j k (x ∷ sel) =
    ground (arith, has-erase_key j k sel, eq_iff x k, eq_iff x j, eq_iff k j)

-- The checkbox of the header selects or deselects the rows of the page, and no others.
has-select_page :
    (j : String) (on : Bool) (keys sel : List String)
    → has j (select_page on keys sel) ≡ (if any (λ k. k == j) keys then on else has j sel)
unfolding select_page
has-select_page j on [] sel = refl
has-select_page j true (k ∷ keys) sel =
    has-select_page j true keys (insert_key k sel)
    ∙ rw has-insert_key (if_or (any (λ x. x == j) keys) (k == j) (has j sel))
has-select_page j false (k ∷ keys) sel =
    has-select_page j false keys (erase_key k sel)
    ∙ rw has-erase_key (if_and (any (λ x. x == j) keys) (k == j) (has j sel))

abbrev pub IsSorted : List CustomAction → Type 0
IsSorted [] = Unit
IsSorted (a ∷ l) = All (λ b. a.order ≤ b.order) l × IsSorted l

insert_action-All :
    (n : ℕ) (a : CustomAction) (l : List CustomAction)
    → n ≤ a.order
    → All (λ b. n ≤ b.order) l
    → All (λ b. n ≤ b.order) (insert_action a l)
unfolding insert_action
insert_action-All n a [] h k = (h, tt)
insert_action-All n a (b ∷ l) h (k, ks) = elim (Bool-cases (leb a.order b.order)) [
  | inl first ↦ rw first (h, (k, ks))
  | inr later ↦ rw later (k, insert_action-All n a l h ks)
]

All-le :
    (m n : ℕ) (l : List CustomAction) → m ≤ n → All (λ b. n ≤ b.order) l → All (λ b. m ≤ b.order) l
All-le m n [] h k = tt
All-le m n (b ∷ l) h (k, ks) = (omega arith, All-le m n l h ks)

insert_action-IsSorted :
    (a : CustomAction) (l : List CustomAction) → IsSorted l → IsSorted (insert_action a l)
unfolding insert_action
insert_action-IsSorted a [] h = (tt, tt)
insert_action-IsSorted a (b ∷ l) (k, h) = elim (Bool-cases (leb a.order b.order)) [
  | inl first ↦ rw first ((leb→le _ _ first, All-le _ _ l (leb→le _ _ first) k), (k, h))
  | inr later ↦
      rw later (insert_action-All b.order a l (ground arith) k, insert_action-IsSorted a l h)
]

sort_actions-IsSorted : (l : List CustomAction) → IsSorted (sort_actions l)
unfolding sort_actions
sort_actions-IsSorted [] = tt
sort_actions-IsSorted (a ∷ l) = insert_action-IsSorted a (sort_actions l) (sort_actions-IsSorted l)

All-filter :
    (n : ℕ) (p : CustomAction → Bool) (l : List CustomAction)
    → All (λ b. n ≤ b.order) l
    → All (λ b. n ≤ b.order) (filter p l)
All-filter n p [] h = tt
All-filter n p (b ∷ l) (h, hs) = elim (Bool-cases (p b)) [
  | inl kept ↦ rw kept (h, All-filter n p l hs)
  | inr gone ↦ rw gone (All-filter n p l hs)
]

filter-IsSorted :
    (p : CustomAction → Bool) (l : List CustomAction) → IsSorted l → IsSorted (filter p l)
filter-IsSorted p [] h = tt
filter-IsSorted p (b ∷ l) (h, hs) = elim (Bool-cases (p b)) [
  | inl kept ↦ rw kept (All-filter b.order p l h, filter-IsSorted p l hs)
  | inr gone ↦ rw gone (filter-IsSorted p l hs)
]

any-insert_action :
    (p : CustomAction → Bool) (a : CustomAction) (l : List CustomAction)
    → any p (insert_action a l) ≡ (p a || any p l)
unfolding insert_action
any-insert_action p a [] = refl
any-insert_action p a (b ∷ l) = ground (arith, any-insert_action p a l)

any-sort_actions :
    (p : CustomAction → Bool) (l : List CustomAction) → any p (sort_actions l) ≡ any p l
unfolding sort_actions
any-sort_actions p [] = refl
any-sort_actions p (a ∷ l) =
    any-insert_action p a (sort_actions l) ∙ ap (λ b. p a || b) (any-sort_actions p l)

-- The custom buttons of a row stand in the order of their numbers; and whatever is asked of an
-- action, a button has it exactly when an action of the definition has it for which the user has the
-- grant and the definition is one of a physical table.
pub custom_actions_lem :
    (def : TableDefPayload) (p : CustomAction → Bool)
    → IsSorted (custom_actions def)
      × (any p (custom_actions def)
          ≡ any
              (λ a. is_table def.source_type && (permits def.permissions a.grant && p a))
              (custom_of def.actions))
unfolding custom_actions
custom_actions_lem def p =
    let physical : List CustomAction =
      filter (λ a. is_table def.source_type) (custom_of def.actions) in
    (
      filter-IsSorted (λ a. permits def.permissions a.grant) (sort_actions physical)
          (sort_actions-IsSorted physical),
      any-filter (λ a. permits def.permissions a.grant) p (sort_actions physical)
          ∙ any-sort_actions (λ a. permits def.permissions a.grant && p a) physical
          ∙ any-filter (λ a. is_table def.source_type) (λ a. permits def.permissions a.grant && p a)
              (custom_of def.actions),
    )
