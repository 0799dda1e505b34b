-- ===== src/I18n.antt =====
-- web/src/lib/i18n/index.tsx: the language in force, and the translator. A dictionary is an argument.
pub mod Laws
pub mod English
pub mod Indonesian
pub mod Agree
use Prim.Native.Char.{code}
use text.Mathlib.Text.{starts_with}
use Prim.Native.String.{count, ◌++◌}
use ku_crud.Base.{
  ℕ, zero, suc, ◌-◌, String, Bool, true, false, Option, none, some, [], ◌∷◌, ◌==◌, eqb,
  if◌then◌else◌, or_else,
}
use ku_crud.Base.Assoc.{Assoc, lookup}
use ku_crud.Types.{Me}
use ku_crud.Value.{str, obj, fields}
use ku_crud.Api.{Request, request, patch, json}

pub data Lang : Type 0 where
  en id : Lang

abbrev pub lang_code : Lang → String
lang_code en = "en"
lang_code id = "id"

-- a language chosen in this session, and by whom
pub record SessionOverride : Type 0 where
  pub user : String
  pub lang : Lang

-- `me.data?.language` as a language that the client knows
abbrev server_lang : Option Me → Option Lang
server_lang none = none
server_lang (some me) = elim me.language [
  | none ↦ none
  | some l ↦ if l == "id" then some id else if l == "en" then some en else none
]

abbrev chosen : Option SessionOverride → Option Me → Option Lang
chosen (some o) (some me) = if o.user == me.username then some o.lang else none
chosen _ _ = none

unfoldable pub effective : Option SessionOverride → Option Me → Lang
effective override me = or_else (chosen override me) (or_else (server_lang me) en)

-- `setLang`: the session's override, and the request that stores the preference
unfoldable pub set_lang :
    Lang → Option Me → Option SessionOverride → Option SessionOverride × Request
set_lang l me override = (
  elim me [
    | none ↦ override
    | some m ↦ if m.username == "" then override else some (record { user = m.username; lang = l })
  ],
  request patch "/auth/me" (json (obj (fields (("language", str (lang_code l)) ∷ [])))),
)

-- `GetSubstitution` of `replaceAll` with a text as the replacement, where no groups are captured:
-- `$$` is a dollar, `$&` the match, and the two quotes are what stands before and after it.
-- `pending` says that a dollar has been read.
expand : (matched before after : String) → (pending : Bool) → String → String
expand matched before after false String.[] = ""
expand matched before after true String.[] = "$"
expand matched before after false (String.◌∷◌ c s) =
    let plain = expand matched before after false s in
    let dollar = expand matched before after true s in
    if eqb (code c) b'$' then dollar else String.◌∷◌ c plain
expand matched before after true (String.◌∷◌ c s) =
    let rest = expand matched before after false s in
    if eqb (code c) b'$'
    then "$" ++ rest
    else if eqb (code c) b'&'
    then matched ++ rest
    else if eqb (code c) b'`'
    then before ++ rest
    else if eqb (code c) 39
    then after ++ rest
    else "$" ++ String.◌∷◌ c rest

abbrev drop_chars : ℕ → String → String
drop_chars zero s = s
drop_chars (suc n) String.[] = ""
drop_chars (suc n) (String.◌∷◌ c s) = drop_chars n s

-- `skip` characters of a match are still to be passed over; `before` is what has been read.
replace_from : (pattern value before : String) → (skip : ℕ) → String → String
unfolding expand
replace_from pattern value before skip String.[] = ""
replace_from pattern value before (suc skip) (String.◌∷◌ c s) =
    replace_from pattern value (before ++ String.◌∷◌ c "") skip s
replace_from pattern value before zero (String.◌∷◌ c s) =
    let read = before ++ String.◌∷◌ c "" in
    let after_match = replace_from pattern value read (count pattern - 1) s in
    let next = replace_from pattern value read 0 s in
    if starts_with (String.◌∷◌ c s) pattern
    then expand pattern before (drop_chars (count pattern) (String.◌∷◌ c s)) false value
      ++ after_match
    else String.◌∷◌ c next

-- `s.replaceAll(pattern, value)`, for a pattern that is not empty
unfoldable pub replace_all : (pattern value s : String) → String
unfolding replace_from
replace_all pattern value s = replace_from pattern value "" 0 s

-- `for (const [k, v] of Object.entries(vars)) s = s.replaceAll(`{${k}}`, v)`
unfoldable pub substitute : Assoc String → String → String
unfolding replace_all
substitute [] s = s
substitute ((k, v) ∷ vars) s = substitute vars (replace_all ("{" ++ k ++ "}") v s)

-- `useT`: the dictionary of the language, then the English one, then the key itself
unfoldable pub translate : (dict english : Assoc String) → String → Assoc String → String
unfolding lookup substitute
translate dict english key vars =
    substitute vars (or_else (lookup key dict) (or_else (lookup key english) key))
