-- ===== src/TableForm/Views.antt =====
-- The card of the view settings of web/src/pages/TableForm.tsx, its computed columns, and the editor of
-- one in web/src/components/ColumnListEditor.tsx.
pub mod Sound
use ku_crud.Base.{
  ℕ, ◌+◌, String, Bool, true, false, not, ◌&&◌, ◌||◌, none, some, List, [], ◌∷◌, ◌++◌, ◌==◌,
  if◌then◌else◌, Option, any, filter, length,
}
use ku_crud.Base.Text.{show}
use Prim.Native.String.{◌++◌ as ◌⧺◌}
use ku_crud.Types.{
  FieldType, number, text, is_enum, is_datetime, ViewMode, kanban, calendar, ViewConfig,
}
use ku_crud.TableForm.{plain_column, FormCol, FormState}
use ku_crud.TableForm.Refs.{is_ref}

-- the column that `onAddComputed` appends to n others
unfoldable pub new_computed : (label : String) → ℕ → FormCol
unfolding show
new_computed label n = record {
  column = record (plain_column number ("computed_" ⧺ show (n + 1)) label (1000 + n)) {
    searchable = false;
    sortable = false;
    is_computed = true;
    computed_formula = some "";
  };
  live_pk = none;
  orig_type = none;
  fk_ds = none;
}

unfoldable pub add_computed : (label : String) → List FormCol → List FormCol
unfolding new_computed
add_computed label cols = cols ++ new_computed label (length cols) ∷ []

abbrev pub computed_types : List FieldType
computed_types = number ∷ text ∷ []

unfoldable pub pick_result : FieldType → FormCol → FormCol
pick_result type c = record c { column = record c.column { field_type = type } }

unfoldable pub type_formula : String → FormCol → FormCol
type_formula formula c = record c { column = record c.column { computed_formula = some formula } }

-- the columns that each select offers
abbrev pub enums : List FormCol → List FormCol
enums cols = filter (λ c. is_enum c.field_type && not c.is_computed) cols

abbrev pub datetimes : List FormCol → List FormCol
datetimes cols = filter (λ c. is_datetime c.field_type && not c.is_computed) cols

abbrev pub visible_cols : List FormCol → List FormCol
visible_cols cols = filter (λ c. c.visible && not c.is_computed) cols

unfoldable pub end_options : List FormCol → ViewConfig → List FormCol
end_options cols vc = filter (λ c. not (is_ref vc.calendar_start_column c.name)) (datetimes cols)

pub data ViewEdit : Type 0 where
  view_picked : ViewMode → ViewEdit
  board_picked title_picked start_picked end_picked : String → ViewEdit

abbrev pub or_none : String → Option String
or_none v = if v == "none" then none else some v

abbrev pub is_option : List FormCol → String → Bool
is_option cols v = v == "none" || any (λ c. c.name == v) cols

abbrev pub is_kanban : ViewMode → Bool
is_kanban kanban = true
is_kanban _ = false

abbrev pub is_calendar : ViewMode → Bool
is_calendar calendar = true
is_calendar _ = false

-- The selects of a view are there while it is the default one.
unfoldable pub view_offered : FormState → ViewEdit → Bool
unfolding end_options
view_offered s (view_picked v) = true
view_offered s (board_picked v) = is_kanban s.default_view && is_option (enums s.cols) v
view_offered s (title_picked v) = is_kanban s.default_view && is_option (visible_cols s.cols) v
view_offered s (start_picked v) = is_calendar s.default_view && is_option (datetimes s.cols) v
view_offered s (end_picked v) =
    is_calendar s.default_view && is_option (end_options s.cols s.view_config) v

unfoldable pub view_effect : ViewEdit → FormState → FormState
view_effect (view_picked v) s = record s { default_view = v }
view_effect (board_picked v) s = record s {
  view_config = record s.view_config { kanban_board_column = or_none v };
}
view_effect (title_picked v) s = record s {
  view_config = record s.view_config { kanban_display_column = or_none v };
}
view_effect (start_picked v) s = record s {
  view_config = record s.view_config { calendar_start_column = or_none v };
}
view_effect (end_picked v) s = record s {
  view_config = record s.view_config { calendar_end_column = or_none v };
}

-- what is clicked in the card, where a choice that is not offered is nothing
unfoldable pub view_edits : List ViewEdit → FormState → FormState
unfolding view_offered view_effect
view_edits [] s = s
view_edits (e ∷ es) s = view_edits es (if view_offered s e then view_effect e s else s)
