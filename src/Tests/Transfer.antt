-- ===== src/Tests/Transfer.antt =====
-- The import of metadata, the outbox, and the dictionaries.
use ku_crud.Base.{
  ◌≡◌, refl, true, false, not, ◌||◌, none, some, List, [], ◌∷◌, arith, ◌==◌, any, all,
}
use ku_crud.Base.Assoc.{lookup}
use ku_crud.Api.{ok}
use ku_crud.MetaTransfer.{
  PreviewRes, Transfer, Click, tbl_mode, ds_mode, password, start, uploaded, sent_datasources,
  sent_tables, clicks,
}
use ku_crud.MetaTransfer.Laws.{sent_tables-invalid, sent_datasources-password}
use ku_crud.Outbox.{select_status, next}
use ku_crud.Outbox.Paging.{clicks as page_clicks, clicks-reach}
use ku_crud.I18n.English.{english}
use ku_crud.I18n.Indonesian.{indonesian}
use ku_crud.I18n.Agree.{agree, agree-dictionaries}

abbrev preview : PreviewRes
preview = record {
  datasources =
      record { ref = "main"; status = "duplicate-identical"; conflicts = none }
      ∷ record { ref = "other"; status = "new"; conflicts = none }
      ∷ [];
  tables =
      record { ref = "books"; status = "new"; invalid = false; reason = none; dependencies = [] }
      ∷ record {
        ref = "loans";
        status = "invalid";
        invalid = true;
        reason = some "no columns";
        dependencies = [];
      }
      ∷ [];
}

abbrev clicked : List Click
clicked =
    tbl_mode "loans" "overwrite"
    ∷ ds_mode "main" "overwrite"
    ∷ password "main" "secret"
    ∷ password "other" "secret"
    ∷ []

abbrev looked_at : Transfer
looked_at = uploaded (λ s. s) (ok preview) start

sent_tables-invalid_example :
    any (λ x. x.ref == "loans") (sent_tables (clicks (λ s. s) clicked looked_at)) ≡ false
sent_tables-invalid_example = sent_tables-invalid (λ s. s) "loans" preview clicked start refl

sent_datasources-password_example :
    all
      (λ x. not (x.ref == "main") || x.password == "")
      (sent_datasources (clicks (λ s. s) clicked looked_at))
    ≡ true
sent_datasources-password_example =
    sent_datasources-password (λ s. s) "main" preview clicked start refl

-- What is sent after the clicks: both data sources, one with a password, and the valid table.
sent_test :
    (sent_datasources (clicks (λ s. s) clicked looked_at)
      ≡ record { ref = "main"; mode = "overwrite"; password = "" }
        ∷ record { ref = "other"; mode = "overwrite"; password = "secret" }
        ∷ [])
    × (sent_tables (clicks (λ s. s) clicked looked_at)
        ≡ record { ref = "books"; mode = "overwrite" } ∷ [])
unfolding sent_datasources sent_tables clicks uploaded
sent_test = (refl, refl)

clicks-reach_example :
    page_clicks
      (λ s. 120)
      (select_status "dead" ∷ next ∷ next ∷ [])
      (record { status = ""; page = 2 })
    ≡ record { status = "dead"; page = 3 }
clicks-reach_example =
    clicks-reach (λ s. 120) "dead" 110 (record { status = ""; page = 2 }) (omega arith)

agree-dictionaries_example :
    agree (lookup "nav.activeTables" english) (lookup "nav.activeTables" indonesian) ≡ true
agree-dictionaries_example = agree-dictionaries "nav.activeTables"
