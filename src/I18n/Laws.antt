-- ===== src/I18n/Laws.antt =====
-- The language and the translator of web/src/lib/i18n/index.tsx.
use ku_crud.Base.{String, ◌≡◌, refl, ◌≢◌, ◌⊎◌, Option, none, some, [], arith, eq_iff, eq_refl}
use ku_crud.Base.Assoc.{Assoc, lookup}
use ku_crud.Types.{Me}
use ku_crud.I18n.{Lang, SessionOverride, effective, set_lang, replace_all, translate}

-- Right after a signed-in user chooses a language it is in force for that user, and for any other
-- user (whatever was chosen before) the language follows that user's own preference on the server:
-- the choice does not leak to the next account.
effective-set_lang :
    (l : Lang) (me other : Me) (override : Option SessionOverride)
    → me.username ≢ ""
    → other.username ≢ me.username
    → (effective (set_lang l (some me) override).0 (some me) ≡ l)
      × (effective (set_lang l (some me) override).0 (some other) ≡ effective none (some other))
unfolding effective set_lang
effective-set_lang l me other override named apart = (
  ground (arith, eq_iff me.username "", eq_refl me.username),
  ground (arith, eq_iff me.username "", eq_iff me.username other.username),
)

-- Where English has a text for a key, the key without variables is translated to what the language's
-- dictionary has for it, or else to the English text.
translate-found :
    (dict english : Assoc String) (key s : String)
    → lookup key english ≡ some s
    → (translate dict english key [] ≡ s) ⊎ (lookup key dict ≡ some (translate dict english key []))
unfolding translate
translate-found dict english key s h = ground arith

tests :
    (replace_all "{n}" "7" "a {n} b {n}" ≡ "a 7 b 7")
    × (replace_all "{n}" "$&!" "a {n}." ≡ "a {n}!.")
    × (replace_all "{n}" "x$$y" "{n}" ≡ "x$y")
unfolding replace_all
tests = (refl, refl, refl)
