-- ===== src/ActionsEditor.antt =====
-- web/src/components/ActionsEditor.tsx: the hidden built-in actions and the custom actions of a
-- table. A Set of keys is a list without repetitions.
pub mod Fresh
pub mod Hidden
pub mod Laws
use ku_crud.Base.{
  ℕ, zero, suc, ◌+◌, ◌-◌, String, Bool, true, false, not, Option, none, some, List, [], ◌∷◌, ◌++◌,
  map, ◌==◌, leb, eqb, if◌then◌else◌, or_else, length, get_elem?, any, filter, map_from, modify,
  remove_at,
}
use ku_crud.Base.Text.{show}
use Prim.Native.String.{◌++◌ as ◌⧺◌}
use mathlib.Core.Option
use ku_crud.Value.{Value}
use ku_crud.Types.{
  HiddenActionKey, new_row, edit, delete, copy, import_csv, export_csv, refresh, same_key,
  ActionGrant, update, ActionStyle, neutral, CustomAction, ActionsConfig,
}

abbrev pub builtins : List HiddenActionKey
builtins = new_row ∷ edit ∷ delete ∷ copy ∷ import_csv ∷ export_csv ∷ refresh ∷ []

unfoldable pub has_key : HiddenActionKey → List HiddenActionKey → Bool
has_key k ks = any (λ x. same_key x k) ks

-- `next.add(key)`, `next.delete(key)`, `new Set(list)`
abbrev add_key : HiddenActionKey → List HiddenActionKey → List HiddenActionKey
add_key k ks = if any (λ x. same_key x k) ks then ks else ks ++ k ∷ []

abbrev delete_key : HiddenActionKey → List HiddenActionKey → List HiddenActionKey
delete_key k ks = filter (λ x. not (same_key x k)) ks

to_set : List HiddenActionKey → List HiddenActionKey → List HiddenActionKey
to_set seen [] = seen
to_set seen (k ∷ ks) = to_set (add_key k seen) ks

unfoldable pub hidden_set : ActionsConfig → List HiddenActionKey
unfolding to_set
hidden_set value = to_set [] (or_else value.hidden [])

abbrev toggled_set : HiddenActionKey → Bool → List HiddenActionKey → List HiddenActionKey
toggled_set key true set = delete_key key set
toggled_set key false set = add_key key set

unfoldable pub toggle_hidden : HiddenActionKey → Bool → ActionsConfig → ActionsConfig
unfolding hidden_set has_key
toggle_hidden key on value = record value { hidden = some (toggled_set key on (hidden_set value)) }

abbrev pub with_order : ℕ → CustomAction → CustomAction
with_order i a = record a { order = i + 1 }

unfoldable pub set_custom : List CustomAction → ActionsConfig → ActionsConfig
set_custom list value = record value { custom = some (map_from with_order 0 list) }

-- `act_${n}`
unfoldable pub act_id : ℕ → String
act_id n = "act_" ⧺ show n

abbrev pub ids : List CustomAction → List String
ids = map (λ a. a.id)

abbrev pub is_taken : ℕ → List String → Bool
is_taken n taken = any (λ x. x == act_id n) taken

-- `while (custom.some((a) => a.id === `act_${n}`)) n++`, for at most that many rounds; none where
-- they do not suffice
unfoldable pub free_number : (rounds : ℕ) → ℕ → List String → Option ℕ
free_number zero n taken = none
free_number (suc rounds) n taken =
    let next = free_number rounds (n + 1) taken in if is_taken n taken then next else some n

abbrev new_action : List String → List CustomAction → ℕ → CustomAction
new_action names custom n = record {
  id = act_id n;
  label = "";
  confirm = none;
  grant = update;
  hook = or_else (get_elem? names 0) "";
  config = none;
  order = length custom + 1;
  style = neutral;
}

abbrev added : List String → ActionsConfig → Option ℕ → Option ActionsConfig
added names value none = none
added names value (some n) =
    let custom = or_else value.custom [] in
    some (set_custom (custom ++ new_action names custom n ∷ []) value)

-- The rounds are one more than there are actions.
unfoldable pub add_action : List String → ActionsConfig → Option ActionsConfig
unfolding free_number act_id set_custom
add_action names value =
    let custom = or_else value.custom [] in
    added names value (free_number (length custom + 1) (length custom + 1) (ids custom))

-- `Partial<CustomAction>` as the inputs fill it: one field each
pub data Patch : Type 0 where
  label confirm hook : String → Patch
  grant : ActionGrant → Patch
  style : ActionStyle → Patch
  config : Option Value → Patch

unfoldable pub apply_patch : Patch → CustomAction → CustomAction
apply_patch (label s) a = record a { label = s }
apply_patch (confirm s) a = record a { confirm = some s }
apply_patch (hook s) a = record a { hook = s }
apply_patch (grant g) a = record a { grant = g }
apply_patch (style st) a = record a { style = st }
apply_patch (config c) a = record a { config = c }

unfoldable pub patch : ℕ → Patch → ActionsConfig → ActionsConfig
unfolding apply_patch set_custom
patch i p value = set_custom (modify i (apply_patch p) (or_else value.custom [])) value

pub data Direction : Type 0 where
  up down : Direction

-- `[list[i], list[i + 1]] = [list[i + 1], list[i]]`
unfoldable pub swap_next {ℓ} : {A : Type ℓ} → ℕ → List A → List A
swap_next i [] = []
swap_next i (x ∷ []) = x ∷ []
swap_next zero (x ∷ y ∷ l) = y ∷ x ∷ l
swap_next (suc i) (x ∷ y ∷ l) = x ∷ swap_next i (y ∷ l)

-- `move(i, d)` of an action that is there, so i is below the length
unfoldable pub move : ℕ → Direction → ActionsConfig → ActionsConfig
unfolding swap_next set_custom
move i up value =
    if eqb i 0 then value else set_custom (swap_next (i - 1) (or_else value.custom [])) value
move i down value =
    if leb (length (or_else value.custom [])) (i + 1)
    then value
    else set_custom (swap_next i (or_else value.custom [])) value

unfoldable pub remove_action : ℕ → ActionsConfig → ActionsConfig
unfolding set_custom
remove_action i value = set_custom (remove_at i (or_else value.custom [])) value
