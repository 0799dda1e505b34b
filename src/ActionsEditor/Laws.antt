-- ===== src/ActionsEditor/Laws.antt =====
-- The edits of the custom actions in web/src/components/ActionsEditor.tsx.
use ku_crud.Base.{
  ℕ, zero, suc, ◌+◌, ◌-◌, String, ◌≡◌, refl, ap, ◌∙◌, inl, inr, Bool, false, some, List, [], ◌∷◌,
  ◌++◌, arith, ◌==◌, eq_iff, leb, eqb, Bool-cases, or_else, length, any, map_from, modify,
  remove_at, any-append, length-map,
}
use ku_crud.Types.{HiddenActionKey, CustomAction, ActionsConfig}
use ku_crud.ActionsEditor.{
  toggle_hidden, with_order, set_custom, act_id, ids, new_action, added, add_action, Patch, label,
  apply_patch, patch, Direction, up, down, swap_next, move, remove_action,
}
use ku_crud.ActionsEditor.Fresh.{free_number-enough}

abbrev pub IsAbsent : String → List String → Type 0
IsAbsent x l = any (λ y. y == x) l ≡ false

abbrev pub IsDistinct : List String → Type 0
IsDistinct [] = Unit
IsDistinct (x ∷ l) = IsAbsent x l × IsDistinct l

abbrev pub IsNumbered : ℕ → List CustomAction → Type 0
IsNumbered n [] = Unit
IsNumbered n (a ∷ list) = (a.order ≡ n + 1) × IsNumbered (suc n) list

-- The ids of the custom actions are distinct, and their orders are 1, 2, 3 and so on.
pub record IsValid (value : ActionsConfig) : Type 0 where
  pub distinct : IsDistinct (ids (or_else value.custom []))
  pub numbered : IsNumbered 0 (or_else value.custom [])

IsNumbered-map_from : (n : ℕ) (l : List CustomAction) → IsNumbered n (map_from with_order n l)
IsNumbered-map_from n [] = tt
IsNumbered-map_from n (a ∷ l) = (refl, IsNumbered-map_from (suc n) l)

ids-map_from : (n : ℕ) (l : List CustomAction) → ids (map_from with_order n l) ≡ ids l
ids-map_from n [] = refl
ids-map_from n (a ∷ l) = rw (ids-map_from (suc n) l)

set_custom-IsValid :
    (l : List CustomAction) (value : ActionsConfig)
    → IsDistinct (ids l)
    → IsValid (set_custom l value)
unfolding set_custom
set_custom-IsValid l value h = record {
  distinct = rw (ids-map_from 0 l) h;
  numbered = IsNumbered-map_from 0 l;
}

id-apply_patch : (p : Patch) (a : CustomAction) → (apply_patch p a).id ≡ a.id
unfolding apply_patch
id-apply_patch (label s) a = refl
id-apply_patch _ a = refl

ids-modify : (i : ℕ) (p : Patch) (l : List CustomAction) → ids (modify i (apply_patch p) l) ≡ ids l
ids-modify i p [] = refl
ids-modify zero p (a ∷ l) = rw (id-apply_patch p a)
ids-modify (suc i) p (a ∷ l) = rw (ids-modify i p l)

ids-swap_next : (i : ℕ) (l : List CustomAction) → ids (swap_next i l) ≡ swap_next i (ids l)
unfolding swap_next
ids-swap_next i [] = refl
ids-swap_next i (a ∷ []) = refl
ids-swap_next zero (a ∷ b ∷ l) = refl
ids-swap_next (suc i) (a ∷ b ∷ l) = rw (ids-swap_next i (b ∷ l))

ids-remove_at : (i : ℕ) (l : List CustomAction) → ids (remove_at i l) ≡ remove_at i (ids l)
ids-remove_at i [] = refl
ids-remove_at zero (a ∷ l) = refl
ids-remove_at (suc i) (a ∷ l) = rw (ids-remove_at i l)

ids-append : (l : List CustomAction) (a : CustomAction) → ids (l ++ a ∷ []) ≡ ids l ++ a.id ∷ []
ids-append [] a = refl
ids-append (b ∷ l) a = rw (ids-append l a)

any-swap_next : (p : String → Bool) (i : ℕ) (l : List String) → any p (swap_next i l) ≡ any p l
unfolding swap_next
any-swap_next p i [] = refl
any-swap_next p i (x ∷ []) = refl
any-swap_next p zero (x ∷ y ∷ l) = ground arith
any-swap_next p (suc i) (x ∷ y ∷ l) = rw (any-swap_next p i (y ∷ l))

IsDistinct-swap_next : (i : ℕ) (l : List String) → IsDistinct l → IsDistinct (swap_next i l)
unfolding swap_next
IsDistinct-swap_next i [] h = h
IsDistinct-swap_next i (x ∷ []) h = h
IsDistinct-swap_next zero (x ∷ y ∷ l) h = ground (arith, eq_iff x y, eq_iff y x)
IsDistinct-swap_next (suc i) (x ∷ y ∷ l) h =
    (any-swap_next _ i (y ∷ l) ∙ h.0, IsDistinct-swap_next i (y ∷ l) h.1)

IsAbsent-remove_at :
    (x : String) (i : ℕ) (l : List String) → IsAbsent x l → IsAbsent x (remove_at i l)
IsAbsent-remove_at x i [] h = h
IsAbsent-remove_at x zero (y ∷ l) h = ground arith
IsAbsent-remove_at x (suc i) (y ∷ l) h = ground (arith, IsAbsent-remove_at x i l)

IsDistinct-remove_at : (i : ℕ) (l : List String) → IsDistinct l → IsDistinct (remove_at i l)
IsDistinct-remove_at i [] h = h
IsDistinct-remove_at zero (x ∷ l) h = h.1
IsDistinct-remove_at (suc i) (x ∷ l) h =
    (IsAbsent-remove_at x i l h.0, IsDistinct-remove_at i l h.1)

IsDistinct-append :
    (l : List String) (x : String) → IsDistinct l → IsAbsent x l → IsDistinct (l ++ x ∷ [])
IsDistinct-append [] x h k = (refl, tt)
IsDistinct-append (y ∷ l) x h k = (
  rw any-append (ground (arith, eq_iff x y, eq_iff y x)),
  IsDistinct-append l x h.1 (ground arith),
)

-- Adding an action always succeeds.
add_action-IsValid :
    (names : List String) (value : ActionsConfig)
    → IsValid value
    → (value' : ActionsConfig) × (add_action names value ≡ some value') × IsValid value'
unfolding add_action
add_action-IsValid names value h =
    let custom : List CustomAction = or_else value.custom [] in
    let (k, found, free) = free_number-enough (length custom + 1) (ids custom) in
    (
      set_custom (custom ++ new_action names custom k ∷ []) value,
      ap (added names value) (rw (length-map (λ (a : CustomAction). a.id) custom) at found),
      set_custom-IsValid _ value
          (rw ids-append (IsDistinct-append (ids custom) (act_id k) h.distinct free)),
    )

-- The edits of the custom actions. An action that is moved is there.
pub data Edit : Type 0 where
  added_one : List String → Edit
  patched : ℕ → Patch → Edit
  moved : ℕ → Direction → Edit
  removed : ℕ → Edit
  toggled : HiddenActionKey → Bool → Edit

unfoldable pub edit : ActionsConfig → Edit → ActionsConfig
edit value (added_one names) = or_else (add_action names value) value
edit value (patched i p) = patch i p value
edit value (moved i d) = move i d value
edit value (removed i) = remove_action i value
edit value (toggled k on) = toggle_hidden k on value

move-IsValid :
    (i : ℕ) (d : Direction) (value : ActionsConfig) → IsValid value → IsValid (move i d value)
unfolding move
move-IsValid i up value h = elim (Bool-cases (eqb i 0)) [
  | inl first ↦ rw first h
  | inr later ↦
      rw later
        (set_custom-IsValid _ value (rw ids-swap_next (IsDistinct-swap_next (i - 1) _ h.distinct)))
]
move-IsValid i down value h = elim (Bool-cases (leb (length (or_else value.custom [])) (i + 1))) [
  | inl last ↦ rw last h
  | inr before ↦
      rw before
        (set_custom-IsValid _ value (rw ids-swap_next (IsDistinct-swap_next i _ h.distinct)))
]

edit-IsValid : (value : ActionsConfig) (e : Edit) → IsValid value → IsValid (edit value e)
unfolding edit
edit-IsValid value (added_one names) h =
    let (value', found, valid) = add_action-IsValid names value h in rw found valid
edit-IsValid value (patched i p) h =
    unfold patch in set_custom-IsValid _ value (rw ids-modify h.distinct)
edit-IsValid value (moved i d) h = move-IsValid i d value h
edit-IsValid value (removed i) h =
    unfold remove_action in
    set_custom-IsValid _ value (rw ids-remove_at (IsDistinct-remove_at i _ h.distinct))
edit-IsValid value (toggled k on) h =
    unfold toggle_hidden in record { distinct = h.distinct; numbered = h.numbered }

unfoldable pub edits : ActionsConfig → List Edit → ActionsConfig
edits value [] = value
edits value (e ∷ more) = edits (edit value e) more

-- Whatever is edited, the ids of the custom actions stay distinct and their orders 1, 2, 3 and so
-- on; and at any point an action can be added: the search for a free id ends.
pub edits-IsValid :
    (value : ActionsConfig) (all_edits : List Edit) (names : List String)
    → IsValid value
    → IsValid (edits value all_edits)
      × ((value' : ActionsConfig) × (add_action names (edits value all_edits) ≡ some value'))
unfolding edits
edits-IsValid value [] names h =
    let (value', found, valid) = add_action-IsValid names value h in (h, (value', found))
edits-IsValid value (e ∷ more) names h =
    edits-IsValid (edit value e) more names (edit-IsValid value e h)
