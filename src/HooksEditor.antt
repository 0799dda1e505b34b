-- ===== src/HooksEditor.antt =====
-- web/src/components/HooksEditor.tsx: the assignments of hooks to events, and each edit of them. A
-- render with no hook names shows nothing, so the first name of `add` exists.
pub mod Laws
use ku_crud.Base.{
  ℕ, ◌+◌, String, Option, none, some, List, [], ◌∷◌, ◌++◌, map, ◌==◌, if◌then◌else◌, or_else,
  length, map_from, modify, remove_at,
}
use ku_crud.Base.Text.{trim}
use ku_crud.Value.{Value, null}
use ku_crud.Types.{
  HookEvent, before_create, after_create, before_update, after_update, before_delete, after_delete,
  same_event, HookAssignment, HooksConfig,
}
use ku_crud.Api.{Json}
use mathlib.Core.Option

abbrev pub events : List HookEvent
events =
    before_create ∷ after_create ∷ before_update ∷ after_update ∷ before_delete ∷ after_delete ∷ []

-- `value[ev]`, `next[ev] = list` and `delete next[ev]`
unfoldable pub event_list : HookEvent → HooksConfig → Option (List HookAssignment)
event_list ev [] = none
event_list ev ((e, l) ∷ m) = if same_event e ev then some l else event_list ev m

put_event : HookEvent → List HookAssignment → HooksConfig → HooksConfig
put_event ev list [] = (ev, list) ∷ []
put_event ev list ((e, l) ∷ m) =
    if same_event e ev then (e, list) ∷ m else (e, l) ∷ put_event ev list m

delete_event : HookEvent → HooksConfig → HooksConfig
delete_event ev [] = []
delete_event ev ((e, l) ∷ m) =
    if same_event e ev then delete_event ev m else (e, l) ∷ delete_event ev m

abbrev pub with_order : ℕ → HookAssignment → HookAssignment
with_order i a = record a { order = i + 1 }

-- `list.map((a, i) => ({ ...a, order: i + 1 }))`
abbrev pub numbered : List HookAssignment → List HookAssignment
numbered list = map_from with_order 0 list

unfoldable pub set_event : HooksConfig → HookEvent → List HookAssignment → HooksConfig
unfolding put_event delete_event
set_event value ev [] = delete_event ev value
set_event value ev (a ∷ list) = put_event ev (numbered (a ∷ list)) value

-- What the text of a configuration becomes: none is a text that is not JSON, which the input reports
-- and does not store. A blank text and `null` clear the configuration.
abbrev config_value : Value → Option Value
config_value null = none
config_value v = some v

unfoldable pub read_config : Json → String → Option (Option Value)
unfolding trim
read_config js text =
    let raw = trim text in if raw == "" then some none else Option.map config_value (js.parse raw)

-- The edits of one event's list.
pub data Edit : Type 0 where
  add : (first_name : String) → Edit
  pick_hook : ℕ → String → Edit
  blur_config : ℕ → String → Edit
  remove : ℕ → Edit

abbrev with_config : ℕ → List HookAssignment → Option (Option Value) → Option (List HookAssignment)
with_config i list none = none
with_config i list (some c) = some (modify i (λ a. record a { config = c }) list)

-- the list that `setEvent` is called with; none where it is not called
unfoldable pub edit_list : Json → List HookAssignment → Edit → Option (List HookAssignment)
unfolding read_config
edit_list js list (add name) =
    some (list ++ record { hook = name; config = none; order = length list + 1 } ∷ [])
edit_list js list (pick_hook i v) = some (modify i (λ a. record a { hook = v }) list)
edit_list js list (blur_config i text) = with_config i list (read_config js text)
edit_list js list (remove i) = some (remove_at i list)

abbrev store : HooksConfig → HookEvent → Option (List HookAssignment) → HooksConfig
store value ev none = value
store value ev (some list) = set_event value ev list

unfoldable pub edit : Json → HooksConfig → HookEvent → Edit → HooksConfig
unfolding edit_list set_event
edit js value ev e = store value ev (edit_list js (or_else (event_list ev value) []) e)

unfoldable pub edits : Json → HooksConfig → List (HookEvent × Edit) → HooksConfig
unfolding edit
edits js value [] = value
edits js value ((ev, e) ∷ more) = edits js (edit js value ev e) more
