-- ===== src/HooksEditor/Laws.antt =====
-- The configuration that web/src/components/HooksEditor.tsx produces.
use ku_crud.Base.{
  ℕ, suc, ◌+◌, ◌<◌, ◌≡◌, refl, ◌∙◌, inl, inr, true, Option, none, some, List, [], ◌∷◌, arith, eqb,
  if◌then◌else◌, Bool-cases, or_else, length, map_from,
}
use ku_crud.Types.{HookEvent, before_create, same_event, HookAssignment, HooksConfig}
use ku_crud.Api.{Json}
use ku_crud.HooksEditor.{
  event_list, put_event, delete_event, with_order, numbered, set_event, Edit, edit_list, store,
  edit, edits,
}

-- The orders are n + 1, n + 2, and so on.
abbrev pub IsNumbered : ℕ → List HookAssignment → Type 0
IsNumbered n [] = Unit
IsNumbered n (a ∷ list) = (a.order ≡ n + 1) × IsNumbered (suc n) list

-- No event is there twice.
abbrev pub IsNormal : HooksConfig → Type 0
IsNormal [] = Unit
IsNormal ((ev, list) ∷ m) =
    (0 < length list) × IsNumbered 0 list × (event_list ev m ≡ none) × IsNormal m

IsNumbered-map_from :
    (n : ℕ) (list : List HookAssignment) → IsNumbered n (map_from with_order n list)
IsNumbered-map_from n [] = tt
IsNumbered-map_from n (a ∷ list) = (refl, IsNumbered-map_from (suc n) list)

same_event-eq : (e d : HookEvent) → same_event e d ≡ true → e ≡ d
same_event-eq before_create d h = ground arith
same_event-eq _ d h = ground arith

same_event_refl : (e : HookEvent) → same_event e e ≡ true
same_event_refl before_create = refl
same_event_refl _ = refl

same_event_sym : (e d : HookEvent) → same_event e d ≡ same_event d e
same_event_sym before_create d = ground arith
same_event_sym _ d = ground arith

event_list-put_event :
    (ev other : HookEvent) (list : List HookAssignment) (m : HooksConfig)
    → event_list other (put_event ev list m)
      ≡ (if same_event ev other then some list else event_list other m)
unfolding event_list put_event
event_list-put_event ev other list [] = refl
event_list-put_event ev other list ((e, l) ∷ m) = elim (Bool-cases (same_event e ev)) [
  | inl hit ↦ rw (same_event-eq e ev hit, same_event_refl ev) (ground arith)
  | inr miss ↦
      rw (miss, event_list-put_event ev other list m)
        (ground (arith, same_event-eq e other, same_event-eq ev other, same_event_refl ev, miss))
]

event_list-delete_event :
    (ev other : HookEvent) (m : HooksConfig)
    → event_list other (delete_event ev m)
      ≡ (if same_event ev other then none else event_list other m)
unfolding event_list delete_event
event_list-delete_event ev other [] = ground arith
event_list-delete_event ev other ((e, l) ∷ m) = elim (Bool-cases (same_event e ev)) [
  | inl hit ↦
      rw (same_event-eq e ev hit, same_event_refl ev, event_list-delete_event ev other m)
        (ground arith)
  | inr miss ↦
      rw (miss, event_list-delete_event ev other m)
        (ground (arith, same_event-eq e other, same_event-eq ev other, same_event_refl ev, miss))
]

IsNormal-put_event :
    (ev : HookEvent) (list : List HookAssignment) (m : HooksConfig)
    → 0 < length list
    → IsNumbered 0 list
    → IsNormal m
    → IsNormal (put_event ev list m)
unfolding put_event event_list
IsNormal-put_event ev list [] some_hook orders h = (some_hook, orders, refl, tt)
IsNormal-put_event ev list ((e, l) ∷ m) some_hook orders (s, o, alone, h) =
    elim (Bool-cases (same_event e ev)) [
      | inl hit ↦ rw hit (some_hook, orders, alone, h)
      | inr miss ↦ rw miss (
        s,
        o,
        event_list-put_event ev e list m ∙ rw (same_event_sym ev e, miss) alone,
        IsNormal-put_event ev list m some_hook orders h,
      )
    ]

IsNormal-delete_event :
    (ev : HookEvent) (m : HooksConfig) → IsNormal m → IsNormal (delete_event ev m)
unfolding delete_event event_list
IsNormal-delete_event ev [] h = tt
IsNormal-delete_event ev ((e, l) ∷ m) (s, o, alone, h) = elim (Bool-cases (same_event e ev)) [
  | inl hit ↦ rw hit (IsNormal-delete_event ev m h)
  | inr miss ↦ rw miss (
    s,
    o,
    event_list-delete_event ev e m ∙ rw (same_event_sym ev e, miss) alone,
    IsNormal-delete_event ev m h,
  )
]

IsNormal-set_event :
    (value : HooksConfig) (ev : HookEvent) (list : List HookAssignment)
    → IsNormal value
    → IsNormal (set_event value ev list)
unfolding set_event
IsNormal-set_event value ev [] h = IsNormal-delete_event ev value h
IsNormal-set_event value ev (a ∷ list) h =
    IsNormal-put_event ev _ value (omega arith) (IsNumbered-map_from 0 (a ∷ list)) h

-- Whatever is edited, in whatever order of events, the configuration stays normal: no event has an
-- empty list or stands twice, and the assignments of an event are numbered 1, 2, 3 and so on.
pub edits-IsNormal :
    (js : Json) (value : HooksConfig) (all_edits : List (HookEvent × Edit))
    → IsNormal value
    → IsNormal (edits js value all_edits)
unfolding edits edit
edits-IsNormal js value [] h = h
edits-IsNormal js value ((ev, e) ∷ more) h =
    edits-IsNormal js (edit js value ev e) more
      (by_list (edit_list js (or_else (event_list ev value) []) e))
  where
    by_list : (o : Option (List HookAssignment)) → IsNormal (store value ev o)
    by_list none = h
    by_list (some list) = IsNormal-set_event value ev list h

-- Setting the list of one event leaves the others as they were; the event itself gets the list,
-- numbered, or none where the list is empty.
event_list-set_event :
    (value : HooksConfig) (ev other : HookEvent) (list : List HookAssignment)
    → event_list other (set_event value ev list) ≡ (
        if same_event ev other
        then (if eqb (length list) 0 then none else some (numbered list))
        else event_list other value)
unfolding set_event
event_list-set_event value ev other [] = event_list-delete_event ev other value
event_list-set_event value ev other (a ∷ list) =
    event_list-put_event ev other (numbered (a ∷ list)) value ∙ ground arith
