-- ===== src/Datasources.antt =====
-- web/src/pages/Datasources.tsx: the form of a data source, and what is sent and shown.
use ku_crud.Base.{
  ℕ, String, Bool, true, false, Option, none, some, [], ◌∷◌, if◌then◌else◌, or_else, is_some,
}
use ku_crud.Base.Assoc.{Assoc, lookup}
use ku_crud.Base.Text.{show, template}
use ku_crud.Types.{Datasource}
use ku_crud.Value.{Value, str, num, obj, fields, is_nullish, to_text}
use ku_crud.Api.{
  Request, post, put, delete, json, no_body, request, Result, ok, err, Failure, api_error, thrown,
}

pub record DsForm : Type 0 where
  pub name : String
  pub driver : String
  pub host : String
  pub port : ℕ
  pub dbname : String
  pub username : String
  pub password : String
  pub sslmode : String

abbrev pub empty : DsForm
empty = record {
  name = "";
  driver = "postgres";
  host = "localhost";
  port = 5432;
  dbname = "";
  username = "postgres";
  password = "";
  sslmode = "disable";
}

abbrev pub default_ports : Assoc ℕ
default_ports = ("postgres", 5432) ∷ ("mysql", 3306) ∷ []

abbrev pub driver_labels : Assoc String
driver_labels = ("postgres", "PostgreSQL") ∷ ("mysql", "MySQL") ∷ []

-- `is_open` is the page's `open`; a message is one of success or not, with its text.
pub record Page : Type 0 where
  pub is_open : Bool
  pub editing : Option Datasource
  pub form : DsForm
  pub msg : Option (Bool × String)
  pub testing_id : Option String

unfoldable pub open_new : Page → Page
open_new s = record s { editing = none; form = empty; msg = none; is_open = true }

unfoldable pub open_edit : Datasource → Page → Page
open_edit d s = record s {
  editing = some d;
  form = record {
    name = d.name;
    driver = d.driver;
    host = d.host;
    port = d.port;
    dbname = d.dbname;
    username = d.username;
    password = "";
    sslmode = d.sslmode;
  };
  msg = none;
  is_open = true;
}

-- a driver is chosen: the port becomes its own, whatever was typed
unfoldable pub pick_driver : String → DsForm → DsForm
unfolding lookup
pick_driver v f = record f { driver = v; port = or_else (lookup v default_ports) f.port }

abbrev form_value : DsForm → Value
form_value f = obj (
    fields (
      ("name", str f.name)
      ∷ ("driver", str f.driver)
      ∷ ("host", str f.host)
      ∷ ("port", num (show f.port))
      ∷ ("dbname", str f.dbname)
      ∷ ("username", str f.username)
      ∷ ("password", str f.password)
      ∷ ("sslmode", str f.sslmode)
      ∷ []))

unfoldable pub save_request : Page → Request
unfolding show
save_request s = elim s.editing [
  | some d ↦ request put (template ("/datasources/" ∷ d.id ∷ [])) (json (form_value s.form))
  | none ↦ request post "/datasources" (json (form_value s.form))
]

-- `${e.message}: ${String(e.detail ?? "")}` of an error of the server, and else a text of the page
abbrev failed : String → Failure → String
failed other (api_error e) =
    template (e.message ∷ ": " ∷ (if is_nullish e.detail then "" else to_text e.detail) ∷ [])
failed other (thrown m) = other

unfoldable pub saved {ℓ} : {A : Type ℓ} → (t : String → String) → Result A → Page → Page
unfolding to_text
saved t (ok a) s = record s {
  is_open = false;
  msg = some (true, if is_some s.editing then t "ds.updated" else t "ds.created");
}
saved t (err e) s = record s { msg = some (false, failed (t "ds.saveFailed") e) }

unfoldable pub test_request : String → Page → Page × Request
test_request id s = (
  record s { testing_id = some id },
  request post (template ("/datasources/" ∷ id ∷ "/test" ∷ [])) no_body,
)

unfoldable pub tested {ℓ} : {A : Type ℓ} → (t : String → String) → Result A → Page → Page
unfolding to_text
tested t (ok a) s = record s { testing_id = none; msg = some (true, t "ds.testOk") }
tested t (err e) s = record s {
  testing_id = none;
  msg = some (false, failed (t "ds.testFailed") e);
}

unfoldable pub delete_request : Datasource → Request
delete_request d = request delete (template ("/datasources/" ∷ d.id ∷ [])) no_body
