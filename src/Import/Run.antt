-- ===== src/Import/Run.antt =====
-- The page of web/src/pages/Import.tsx as the user meets it: each button with what disables it, and the
-- requests of its three mutations that are under way.
use ku_crud.Base.{String, Option, none, some, List, [], ◌∷◌, ◌&&◌, not, is_some, if◌then◌else◌}
use ku_crud.Api.{Json, Request, Result, ok, err, Failure}
use ku_crud.Import.{
  ImportState, PreviewRes, ApplyRes, ApplyMode, pick_file, upload_request, repreview_request,
  apply_request, uploaded, repreviewed, applied, map_header, may_apply,
}

pub record Screen : Type 0 where
  pub state : ImportState
  pub uploading : Option Request
  pub previewing : Option Request
  pub applying : Option Request

-- What the user does, and the three answers; a press while its button is disabled is nothing.
pub data Event : Type 0 where
  pick : Option String → Event
  revalidate : Event
  insert_rows : ApplyMode → Event
  assign : (header column : String) → Event
  upload_answer preview_answer apply_answer : Event

abbrev pub empty : ImportState
empty = record { file = none; mapping = []; preview = none; result = none; error = "" }

abbrev pub untouched : Screen
untouched = record { state = empty; uploading = none; previewing = none; applying = none }

module _ (js : Json) (name : String) (title : Failure → String) where
  abbrev pub upload_of : Option String → Option Request
  upload_of none = none
  upload_of (some f) = some (upload_request name f)

  -- the file input, whose button is disabled while a file is read
  unfoldable pub choose : Option String → Screen → Screen
  choose f p =
      if is_some p.uploading
      then p
      else record p { state = pick_file f p.state; uploading = upload_of f }

  -- A mutation that throws before its request has failed.
  abbrev pub start_preview : Result Request → Screen → Screen
  start_preview (err e) p = record p { state = record p.state { error = title e } }
  start_preview (ok r) p = record p { previewing = some r }

  unfoldable pub press_revalidate : Screen → Screen
  press_revalidate p =
      if is_some p.state.preview && not (is_some p.previewing)
      then start_preview (repreview_request js name p.state) p
      else p

  abbrev pub start_apply : Result Request → Screen → Screen
  start_apply (err e) p = record p { state = record p.state { error = title e } }
  start_apply (ok r) p = record p { applying = some r }

  unfoldable pub press_insert : ApplyMode → Screen → Screen
  press_insert mode p =
      if is_some p.state.preview
        && (not (is_some p.state.result) && (may_apply mode p.state && not (is_some p.applying)))
      then start_apply (apply_request js name mode p.state) p
      else p

  abbrev pub answer_upload : (Request → Result PreviewRes) → Option Request → Screen → Screen
  answer_upload server none p = p
  answer_upload server (some r) p = record p {
    state = uploaded title (server r) p.state;
    uploading = none;
  }

  abbrev pub answer_preview : (Request → Result PreviewRes) → Option Request → Screen → Screen
  answer_preview server none p = p
  answer_preview server (some r) p = record p {
    state = repreviewed title (server r) p.state;
    previewing = none;
  }

  abbrev pub answer_apply : (Request → Result ApplyRes) → Option Request → Screen → Screen
  answer_apply server none p = p
  answer_apply server (some r) p = record p {
    state = applied title (server r) p.state;
    applying = none;
  }

  module _ (look : Request → Result PreviewRes) (import : Request → Result ApplyRes) where
    unfoldable pub step : Event → Screen → Screen
    step (pick f) p = choose f p
    step revalidate p = press_revalidate p
    step (insert_rows mode) p = press_insert mode p
    step (assign h v) p = record p { state = map_header h v p.state }
    step upload_answer p = answer_upload look p.uploading p
    step preview_answer p = answer_preview look p.previewing p
    step apply_answer p = answer_apply import p.applying p

    unfoldable pub steps : List Event → Screen → Screen
    steps [] p = p
    steps (e ∷ es) p = steps es (step e p)
