-- ===== src/Errors.antt =====
-- web/src/lib/errors.ts: a failure as a sentence for the user.
use ku_crud.Base.{String, ◌≡◌, refl, none, [], ◌∷◌, ◌==◌, if◌then◌else◌}
use ku_crud.Base.Assoc.{Assoc}
use ku_crud.Base.Text.{template}
use ku_crud.Value.{Value, str, obj, fields, to_text}
use ku_crud.Api.{Json, Failure, api_error, thrown}
use ku_crud.I18n.{translate}

pub record HumanError : Type 0 where
  pub title : String
  pub detail : String

abbrev pub error_key : Value → String
unfolding to_text
error_key code = template ("errors." ∷ to_text code ∷ [])

-- `humanError`; `t` is the translator
unfoldable pub human_error : Json → (t : String → Assoc String → String) → Failure → HumanError
human_error js t (api_error e) =
    let title = t (error_key e.code) (("msg", e.message) ∷ []) in
    record {
      title = if title == error_key e.code then e.message else title;
      detail = js.stringify (
          obj (fields (("code", e.code) ∷ ("message", str e.message) ∷ ("detail", e.detail) ∷ [])));
    }
human_error js t (thrown message) = record { title = message; detail = "" }

abbrev plain : Json
plain = record { stringify = λ v. "{}"; pretty = λ v. ""; parse = λ s. none }

abbrev failure : String → Failure
failure code = api_error (record { code = str code; message = "boom"; detail = Value.null })

-- A known code is shown in the language, an unknown one as the server's message.
human_error_tests :
    (let t = translate [] (("errors.AUTH", "Signed out: {msg}") ∷ []) in
      ((human_error plain t (failure "AUTH")).title ≡ "Signed out: boom")
      × ((human_error plain t (failure "E42")).title ≡ "boom"))
unfolding human_error translate error_key
human_error_tests = (refl, refl)
