-- ===== src/Tests/Uploads.antt =====
-- The import page, where a second file is chosen after the first.
use ku_crud.Base.{String, ◌≡◌, refl, Option, none, some, List, [], ◌∷◌, ◌==◌, if◌then◌else◌}
use ku_crud.Api.{Request, Result, ok, err, Failure, thrown, Body}
use ku_crud.Import.{
  PreviewRes, ApplyRes, valid_rows, pick_file, upload_request, repreview_request, apply_request,
  uploaded, repreviewed, applied, may_apply, map_header,
}
use ku_crud.Import.Run.{
  Screen, Event, pick, revalidate, insert_rows, assign, upload_answer, preview_answer, apply_answer,
  untouched, choose, press_revalidate, press_insert, step, steps,
}
use ku_crud.Import.Current.{IsCurrent}
use ku_crud.Import.Laws.{IsCalm, steps-IsCurrent}
use ku_crud.Tests.Samples.{stub}

abbrev title : Failure → String
title e = "failed"

abbrev preview_of : String → PreviewRes
preview_of delimiter = record {
  delimiter = delimiter;
  headers = "Title" ∷ [];
  mapping = ("Title", "title") ∷ [];
  counts = record { total = 1; valid = 1; invalid = 0 };
  rows = [];
}

-- The two files differ in their delimiter.
abbrev look_at : Body → Result PreviewRes
look_at (Body.form f m) = ok (preview_of (if f == "a.csv" then "," else ";"))
look_at _ = err (thrown "no form")

abbrev look : Request → Result PreviewRes
look r = look_at r.body

abbrev insert_all : Request → Result ApplyRes
insert_all r = ok (record { inserted = 1; failed = 0; failures = [] })

abbrev run : List Event → Screen
run es = steps stub "books" title look insert_all es untouched

abbrev calm : List Event
calm =
    pick (some "a.csv")
    ∷ upload_answer
    ∷ assign "Title" "ignore"
    ∷ revalidate
    ∷ preview_answer
    ∷ insert_rows valid_rows
    ∷ apply_answer
    ∷ pick (some "b.csv")
    ∷ upload_answer
    ∷ []

-- the check of a mapping is awaited when another file is chosen
abbrev hasty : List Event
hasty =
    pick (some "a.csv")
    ∷ upload_answer
    ∷ revalidate
    ∷ pick (some "b.csv")
    ∷ upload_answer
    ∷ preview_answer
    ∷ []

delimiter_of : Option PreviewRes → String
delimiter_of none = ""
delimiter_of (some p) = p.delimiter

run_tests :
    ((run calm).state.file ≡ some "b.csv")
    × ((run calm).state.preview ≡ some (preview_of ";"))
    × ((run hasty).state.file ≡ some "b.csv")
    × ((run hasty).state.preview ≡ some (preview_of ","))
unfolding steps step choose press_revalidate press_insert pick_file upload_request repreview_request
    apply_request uploaded repreviewed applied may_apply map_header
run_tests = (refl, refl, refl, refl)

calm-IsCalm : IsCalm stub "books" title look insert_all calm untouched
unfolding steps step choose press_revalidate press_insert pick_file upload_request repreview_request
    apply_request uploaded repreviewed applied may_apply map_header
calm-IsCalm = ((refl, refl), (tt, (tt, (tt, (tt, (tt, (tt, ((refl, refl), (tt, tt)))))))))

steps-IsCurrent_example : IsCurrent stub "books" title look insert_all (run calm)
steps-IsCurrent_example = steps-IsCurrent stub "books" title look insert_all calm calm-IsCalm
