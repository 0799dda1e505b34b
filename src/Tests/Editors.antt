-- ===== src/Tests/Editors.antt =====
-- The editors of hooks and actions.
use ku_crud.Base.{ℕ, ◌≡◌, refl, false, none, some, List, [], ◌∷◌}
use ku_crud.Types.{HookEvent, before_create, after_update, HookAssignment, ActionsConfig}
use ku_crud.HooksEditor.{Edit, edits}
use ku_crud.HooksEditor.Laws.{IsNormal, edits-IsNormal}
use ku_crud.ActionsEditor.{
  up, has_key, hidden_set, toggle_hidden, add_action, free_number, is_taken,
}
use ku_crud.ActionsEditor.Laws
use ku_crud.ActionsEditor.Laws.{IsValid, edits-IsValid}
use ku_crud.ActionsEditor.Fresh.{free_number-enough}
use ku_crud.Tests.Samples.{stub, two_actions}

abbrev typed : List (HookEvent × Edit)
typed =
    (before_create, Edit.add "notify")
    ∷ (before_create, Edit.add "log")
    ∷ (after_update, Edit.add "log")
    ∷ (before_create, Edit.remove 0)
    ∷ []

edits-IsNormal_example : IsNormal (edits stub [] typed)
edits-IsNormal_example = edits-IsNormal stub [] typed tt

abbrev log : HookAssignment
log = record { hook = "log"; config = none; order = 9 }

abbrev rearranged : List ku_crud.ActionsEditor.Laws.Edit
rearranged =
    ku_crud.ActionsEditor.Laws.Edit.moved 1 up
    ∷ ku_crud.ActionsEditor.Laws.Edit.removed 0
    ∷ ku_crud.ActionsEditor.Laws.Edit.added_one ("h" ∷ [])
    ∷ []

edits-IsValid_example :
    IsValid (ku_crud.ActionsEditor.Laws.edits two_actions rearranged)
    × ((value' : ActionsConfig) × (add_action
            ("h" ∷ [])
            (ku_crud.ActionsEditor.Laws.edits two_actions rearranged)
          ≡ some value'))
edits-IsValid_example =
    edits-IsValid two_actions rearranged ("h" ∷ [])
      (record { distinct = (refl, (refl, tt)); numbered = (refl, (refl, tt)) })

free_number-enough_example :
    (k : ℕ) × (free_number 3 3 ("act_3" ∷ "act_4" ∷ []) ≡ some k)
    × (is_taken k ("act_3" ∷ "act_4" ∷ []) ≡ false)
free_number-enough_example = free_number-enough 3 ("act_3" ∷ "act_4" ∷ [])
