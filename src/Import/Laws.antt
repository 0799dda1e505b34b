-- ===== src/Import/Laws.antt =====
-- The page of web/src/pages/Import.tsx, event by event.
use ku_crud.Base.{
  String, ◌≡◌, refl, inl, inr, Option, none, some, List, [], ◌∷◌, Bool-cases, is_some, ◌&&◌, not,
}
use ku_crud.Api.{Json, Request, Result, Failure}
use ku_crud.Import.{PreviewRes, ApplyRes, ApplyMode, map_header, may_apply}
use ku_crud.Import.Run.{
  Screen, Event, pick, revalidate, insert_rows, assign, upload_answer, preview_answer, apply_answer,
  untouched, answer_upload, answer_preview, answer_apply, choose, press_revalidate, press_insert,
  step, steps,
}
use ku_crud.Import.Current.{
  IsCurrent, untouched-IsCurrent, fresh-IsCurrent, IsCurrent-state, started-preview, started-apply,
  uploaded-IsCurrent, previewed-IsCurrent, applied-IsCurrent,
}

-- No answer but that of an upload, whose button is disabled, is awaited when a file is chosen.
abbrev pub Waits : Event → Screen → Type 0
Waits (pick f) p = (p.previewing ≡ none) × (p.applying ≡ none)
Waits _ p = Unit

module _ (js : Json) (name : String) (title : Failure → String) (look : Request → Result PreviewRes)
    (import : Request → Result ApplyRes) where
  chosen-IsCurrent :
      (f : Option String) (p : Screen)
      → (p.previewing ≡ none) × (p.applying ≡ none)
      → IsCurrent js name title look import p
      → IsCurrent js name title look import (choose js name title f p)
  unfolding choose
  chosen-IsCurrent f p (no_preview, no_apply) h = elim (Bool-cases (is_some p.uploading)) [
    | inl busy ↦ rw busy h
    | inr idle ↦ rw idle (fresh-IsCurrent js name title look import f p no_preview no_apply)
  ]

  revalidated-IsCurrent :
      (p : Screen)
      → IsCurrent js name title look import p
      → IsCurrent js name title look import (press_revalidate js name title p)
  unfolding press_revalidate
  revalidated-IsCurrent p h =
      elim (Bool-cases (is_some p.state.preview && not (is_some p.previewing))) [
        | inl enabled ↦ rw enabled (started-preview js name title look import _ p refl h)
        | inr disabled ↦ rw disabled h
      ]

  inserted-IsCurrent :
      (mode : ApplyMode) (p : Screen)
      → IsCurrent js name title look import p
      → IsCurrent js name title look import (press_insert js name title mode p)
  unfolding press_insert
  inserted-IsCurrent mode p h =
      elim (Bool-cases (
        is_some p.state.preview
        && (not (is_some p.state.result)
            && (may_apply mode p.state && not (is_some p.applying))))) [
              | inl enabled ↦ rw enabled (started-apply js name title look import mode _ p refl h)
              | inr disabled ↦ rw disabled h
            ]

  answered_upload :
      (o : Option Request) (p : Screen)
      → p.uploading ≡ o
      → IsCurrent js name title look import p
      → IsCurrent js name title look import (answer_upload js name title look o p)
  answered_upload none p same h = h
  answered_upload (some r) p same h =
      uploaded-IsCurrent js name title look import r (look r) p same refl h

  answered_preview :
      (o : Option Request) (p : Screen)
      → p.previewing ≡ o
      → IsCurrent js name title look import p
      → IsCurrent js name title look import (answer_preview js name title look o p)
  answered_preview none p same h = h
  answered_preview (some r) p same h =
      previewed-IsCurrent js name title look import r (look r) p same refl h

  answered_apply :
      (o : Option Request) (p : Screen)
      → p.applying ≡ o
      → IsCurrent js name title look import p
      → IsCurrent js name title look import (answer_apply js name title import o p)
  answered_apply none p same h = h
  answered_apply (some r) p same h =
      applied-IsCurrent js name title look import r (import r) p same refl h

  step-IsCurrent :
      (e : Event) (p : Screen)
      → Waits e p
      → IsCurrent js name title look import p
      → IsCurrent js name title look import (step js name title look import e p)
  unfolding step map_header
  step-IsCurrent (pick f) p waits h = chosen-IsCurrent f p waits h
  step-IsCurrent revalidate p waits h = revalidated-IsCurrent p h
  step-IsCurrent (insert_rows mode) p waits h = inserted-IsCurrent mode p h
  step-IsCurrent (assign header column) p waits h =
      IsCurrent-state js name title look import p _ refl refl refl h
  step-IsCurrent upload_answer p waits h = answered_upload p.uploading p refl h
  step-IsCurrent preview_answer p waits h = answered_preview p.previewing p refl h
  step-IsCurrent apply_answer p waits h = answered_apply p.applying p refl h

  -- a run in which every event waits
  abbrev pub IsCalm : List Event → Screen → Type 0
  IsCalm [] p = Unit
  IsCalm (e ∷ es) p = Waits e p × IsCalm es (step js name title look import e p)

  steps_from-IsCurrent :
      (es : List Event) (p : Screen)
      → IsCalm es p
      → IsCurrent js name title look import p
      → IsCurrent js name title look import (steps js name title look import es p)
  unfolding steps
  steps_from-IsCurrent [] p calm h = h
  steps_from-IsCurrent (e ∷ es) p (waits, calm) h =
      steps_from-IsCurrent es (step js name title look import e p) calm (step-IsCurrent e p waits h)

  -- Whatever is clicked, chosen and answered, in any order, where no file is chosen while a check of the
  -- mapping or an import is awaited: what is shown belongs to the file that is chosen. A preview is
  -- the server's answer to a look at this file, a result its answer to an import of this file, and
  -- each request that is awaited is for this file.
  pub steps-IsCurrent :
      (es : List Event)
      → IsCalm es untouched
      → IsCurrent js name title look import (steps js name title look import es untouched)
  steps-IsCurrent es calm =
      steps_from-IsCurrent es untouched calm (untouched-IsCurrent js name title look import)
