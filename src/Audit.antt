-- ===== src/Audit.antt =====
-- web/src/pages/Audit.tsx: the filters and the pages of the audit trail, and the values of an entry.
use ku_crud.Base.{
  ℕ, ◌+◌, ◌-◌, ◌/◌, String, Option, none, some, List, [], ◌∷◌, ◌++◌, ◌==◌, ltb, leb, if◌then◌else◌,
  find,
}
use ku_crud.Base.Assoc.{Assoc}
use ku_crud.Base.Text.{show}
use ku_crud.Types.{TableDef, AuditEntry}
use ku_crud.Value.{Value, obj, fields}
use ku_crud.Api.{Json, Request, get, no_body}

pub record Audit : Type 0 where
  pub table_def_id : String
  pub action : String
  pub page : ℕ
  pub selected_entry : Option AuditEntry

abbrev pub start : Audit
start = record { table_def_id = ""; action = ""; page = 1; selected_entry = none }

abbrev optional : String → String → Assoc String
optional name text = if text == "" then [] else (name, text) ∷ []

unfoldable pub list_request : Audit → Request
unfolding show
list_request s = record {
  method = get;
  path = "/audit";
  query =
      optional "tableDefId" s.table_def_id
      ++ optional "action" s.action
      ++ ("page", show s.page) ∷ [];
  body = no_body;
}

-- `pages`, from the total and the page size of the answer, which the server does not send as 0
unfoldable pub pages : Option (ℕ × ℕ) → ℕ
pages none = 1
pages (some (total, page_size)) =
    let rounded = (total + (page_size - 1)) / page_size in if ltb rounded 1 then 1 else rounded

abbrev all_as_none : String → String
all_as_none v = if v == "all" then "" else v

unfoldable pub pick_table : String → Audit → Audit
pick_table v s = record s { table_def_id = all_as_none v; page = 1 }

unfoldable pub pick_action : String → Audit → Audit
pick_action v s = record s { action = all_as_none v; page = 1 }

-- a button that is disabled does nothing
unfoldable pub previous : Audit → Audit
previous s = if leb s.page 1 then s else record s { page = s.page - 1 }

unfoldable pub next : Option (ℕ × ℕ) → Audit → Audit
unfolding pages
next answer s = if leb (pages answer) s.page then s else record s { page = s.page + 1 }

-- the label of a table; `unknown` is the text for one that is not there
unfoldable pub def_name : (unknown : String) → List TableDef → String → String
def_name unknown defs id = elim (find (λ d. d.id == id) defs) [ none ↦ unknown | some d ↦ d.label ]

-- the values before and after, in the window of an entry
unfoldable pub shown_values : Json → Option (Assoc Value) → String
shown_values js none = "null"
shown_values js (some m) = js.pretty (obj (fields m))
