-- ===== src/Import/Current.antt =====
-- What the page of web/src/pages/Import.tsx shows belongs to the file that is chosen.
use ku_crud.Base.{String, ◌≡◌, refl, sym, ap, ◌∙◌, ◌⊎◌, inl, inr, Option, none, some}
use mathlib.Core.Option.{some-injective}
use ku_crud.Api.{Json, Request, Result, ok, err, Failure}
use ku_crud.Import.{
  ImportState, PreviewRes, ApplyRes, ApplyMode, pick_file, upload_request, repreview_request,
  apply_request, uploaded, repreviewed, applied,
}
use ku_crud.Import.Run.{Screen, untouched, upload_of, start_preview, start_apply}

module _ (js : Json) (name : String) where
  -- a request that looks at a file: the upload, or the check of some mapping
  abbrev pub IsLook : Option String → Request → Type 0
  IsLook file r =
      ((f : String) × (file ≡ some f) × (r ≡ upload_request name f))
      ⊎ ((s : ImportState) × (s.file ≡ file) × (repreview_request js name s ≡ ok r))

  -- a request that imports a file, with some mapping
  abbrev pub IsImport : Option String → Request → Type 0
  IsImport file r =
      (mode : ApplyMode) × (s : ImportState) × (s.file ≡ file)
      × (apply_request js name mode s ≡ ok r)

module _ (js : Json) (name : String) (title : Failure → String) (look : Request → Result PreviewRes)
    (import : Request → Result ApplyRes) where
  -- Everything that is shown or awaited is about the file that is chosen.
  pub record IsCurrent (p : Screen) : Type 0 where
    pub uploading : (r : Request) → p.uploading ≡ some r → IsLook js name p.state.file r
    pub previewing : (r : Request) → p.previewing ≡ some r → IsLook js name p.state.file r
    pub applying : (r : Request) → p.applying ≡ some r → IsImport js name p.state.file r
    pub shown :
        (res : PreviewRes)
        → p.state.preview ≡ some res
        → (r : Request) × IsLook js name p.state.file r × (look r ≡ ok res)
    pub imported :
        (res : ApplyRes)
        → p.state.result ≡ some res
        → (r : Request) × IsImport js name p.state.file r × (import r ≡ ok res)

  pub untouched-IsCurrent : IsCurrent untouched
  untouched-IsCurrent = record {
    uploading = λ r e. cc;
    previewing = λ r e. cc;
    applying = λ r e. cc;
    shown = λ r e. cc;
    imported = λ r e. cc;
  }

  pub fresh-IsCurrent :
      (f : Option String) (p : Screen)
      → p.previewing ≡ none
      → p.applying ≡ none
      → IsCurrent (record p { state = pick_file f p.state; uploading = upload_of js name title f })
  unfolding pick_file
  fresh-IsCurrent none p no_preview no_apply = record {
    uploading = λ r e. cc;
    previewing = λ r e. cc;
    applying = λ r e. cc;
    shown = λ r e. cc;
    imported = λ r e. cc;
  }
  fresh-IsCurrent (some f) p no_preview no_apply = record {
    uploading = λ r e. inl (f, refl, sym (some-injective _ _ e));
    previewing = λ r e. cc;
    applying = λ r e. cc;
    shown = λ r e. cc;
    imported = λ r e. cc;
  }

  -- A change of the error, of the mapping, or of nothing that the invariant is about.
  pub IsCurrent-state :
      (p : Screen) (s : ImportState)
      → s.file ≡ p.state.file
      → s.preview ≡ p.state.preview
      → s.result ≡ p.state.result
      → IsCurrent p
      → IsCurrent (record p { state = s })
  IsCurrent-state p s files previews results h = record {
    uploading = λ r e. rw files (h.uploading r e);
    previewing = λ r e. rw files (h.previewing r e);
    applying = λ r e. rw files (h.applying r e);
    shown = λ res e. rw files (h.shown res (sym previews ∙ e));
    imported = λ res e. rw files (h.imported res (sym results ∙ e));
  }

  pub started-preview :
      (a : Result Request) (p : Screen)
      → repreview_request js name p.state ≡ a
      → IsCurrent p
      → IsCurrent (start_preview js name title a p)
  started-preview (err e) p same h = IsCurrent-state p _ refl refl refl h
  started-preview (ok asked) p same h = record {
    uploading = h.uploading;
    previewing = λ r e. inr (p.state, refl, same ∙ ap ok (some-injective _ _ e));
    applying = h.applying;
    shown = h.shown;
    imported = h.imported;
  }

  pub started-apply :
      (mode : ApplyMode) (a : Result Request) (p : Screen)
      → apply_request js name mode p.state ≡ a
      → IsCurrent p
      → IsCurrent (start_apply js name title a p)
  started-apply mode (err e) p same h = IsCurrent-state p _ refl refl refl h
  started-apply mode (ok asked) p same h = record {
    uploading = h.uploading;
    previewing = h.previewing;
    applying = λ r e. (mode, p.state, refl, same ∙ ap ok (some-injective _ _ e));
    shown = h.shown;
    imported = h.imported;
  }

  pub uploaded-IsCurrent :
      (r : Request) (a : Result PreviewRes) (p : Screen)
      → p.uploading ≡ some r
      → look r ≡ a
      → IsCurrent p
      → IsCurrent (record p { state = uploaded title a p.state; uploading = none })
  unfolding uploaded
  uploaded-IsCurrent r (err e) p asked same h = record {
    uploading = λ q e. cc;
    previewing = h.previewing;
    applying = h.applying;
    shown = h.shown;
    imported = h.imported;
  }
  uploaded-IsCurrent r (ok res) p asked same h = record {
    uploading = λ q e. cc;
    previewing = h.previewing;
    applying = h.applying;
    shown = λ res' e. (r, h.uploading r asked, same ∙ ap ok (some-injective _ _ e));
    imported = λ q e. cc;
  }

  pub previewed-IsCurrent :
      (r : Request) (a : Result PreviewRes) (p : Screen)
      → p.previewing ≡ some r
      → look r ≡ a
      → IsCurrent p
      → IsCurrent (record p { state = repreviewed title a p.state; previewing = none })
  unfolding repreviewed
  previewed-IsCurrent r (err e) p asked same h = record {
    uploading = h.uploading;
    previewing = λ q e. cc;
    applying = h.applying;
    shown = h.shown;
    imported = h.imported;
  }
  previewed-IsCurrent r (ok res) p asked same h = record {
    uploading = h.uploading;
    previewing = λ q e. cc;
    applying = h.applying;
    shown = λ res' e. (r, h.previewing r asked, same ∙ ap ok (some-injective _ _ e));
    imported = h.imported;
  }

  pub applied-IsCurrent :
      (r : Request) (a : Result ApplyRes) (p : Screen)
      → p.applying ≡ some r
      → import r ≡ a
      → IsCurrent p
      → IsCurrent (record p { state = applied title a p.state; applying = none })
  unfolding applied
  applied-IsCurrent r (err e) p asked same h = record {
    uploading = h.uploading;
    previewing = h.previewing;
    applying = λ q e. cc;
    shown = h.shown;
    imported = h.imported;
  }
  applied-IsCurrent r (ok res) p asked same h = record {
    uploading = h.uploading;
    previewing = h.previewing;
    applying = λ q e. cc;
    shown = h.shown;
    imported = λ res' e. (r, h.applying r asked, same ∙ ap ok (some-injective _ _ e));
  }
