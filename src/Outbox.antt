-- ===== src/Outbox.antt =====
-- web/src/pages/HooksOutbox.tsx: the filter and the pages of the outbox, and the retry of an entry.
pub mod Paging
use ku_crud.Base.{
  ℕ, ◌+◌, ◌-◌, ◌/◌, String, Bool, true, false, Option, none, some, [], ◌∷◌, ◌++◌, ◌==◌, ltb, leb,
  if◌then◌else◌,
}
use ku_crud.Base.Text.{show, template}
use ku_crud.Types.{done, OutboxEntry}
use ku_crud.Api.{Request, get, post, no_body, request, Result, ok, err}

abbrev pub page_size : ℕ
page_size = 50

pub record Outbox : Type 0 where
  pub status : String
  pub page : ℕ

abbrev pub start : Outbox
start = record { status = ""; page = 1 }

unfoldable pub list_request : Outbox → Request
unfolding show
list_request s = record {
  method = get;
  path = "/hooks/outbox";
  query = (if s.status == "" then [] else ("status", s.status) ∷ []) ++ ("page", show s.page) ∷ [];
  body = no_body;
}

-- `pages`, from the total of the answer, none while there is none
unfoldable pub pages : Option ℕ → ℕ
pages none = 1
pages (some total) =
    let rounded = (total + (page_size - 1)) / page_size in if ltb rounded 1 then 1 else rounded

pub data Click : Type 0 where
  select_status : String → Click
  previous next : Click

-- A button that is disabled does nothing.
unfoldable pub click : Option ℕ → Click → Outbox → Outbox
unfolding pages
click total (select_status v) s = record { status = if v == "all" then "" else v; page = 1 }
click total previous s = if leb s.page 1 then s else record s { page = s.page - 1 }
click total next s = if leb (pages total) s.page then s else record s { page = s.page + 1 }

-- whether an entry has the button that retries it, and what it asks for
unfoldable pub may_retry : OutboxEntry → Bool
may_retry e = elim e.status [ done ↦ false | _ ↦ true ]

unfoldable pub retry_request : OutboxEntry → Request
retry_request e = request post (template ("/hooks/outbox/" ∷ e.id ∷ "/retry" ∷ [])) no_body

-- whether the retry is announced and the list fetched again; a failure is ignored
unfoldable pub retried {ℓ} : {A : Type ℓ} → Result A → Bool
retried (ok a) = true
retried (err e) = false
