-- ===== src/Base/Assoc.antt =====
-- A plain JavaScript object used as a dictionary: an association list in insertion order.
use Prim.Native.String.{String}
use mathlib.Core.Path.{◌≡◌, refl}
use mathlib.Core.Option.{Option, none, some}
use mathlib.Core.List.{List, [], ◌∷◌}
use native.Mathlib.Omega.{arith}
use text.Mathlib.Text.{◌==◌}
use text.Mathlib.TextEquality.{eq_iff}
use ku_crud.Base.Tests.{if◌then◌else◌}

abbrev pub Assoc {ℓ} : Type ℓ → Type ℓ
Assoc A = List (String × A)

-- `m[name]`; `none` is undefined
unfoldable pub lookup {ℓ} : {A : Type ℓ} → String → Assoc A → Option A
lookup name [] = none
lookup name ((key, value) ∷ others) = if key == name then some value else lookup name others

-- `{ ...m, [name]: value }`
unfoldable pub insert {ℓ} : {A : Type ℓ} → String → A → Assoc A → Assoc A
insert name value [] = (name, value) ∷ []
insert name value ((key, old) ∷ others) =
    if key == name then (name, value) ∷ others else (key, old) ∷ insert name value others

-- `delete m[name]`
unfoldable pub erase {ℓ} : {A : Type ℓ} → String → Assoc A → Assoc A
erase name [] = []
erase name ((key, value) ∷ others) =
    if key == name then erase name others else (key, value) ∷ erase name others

module _ {ℓ} {A : Type ℓ} where
  pub lookup-erase :
      (name asked : String) (m : Assoc A)
      → lookup asked (erase name m) ≡ (if name == asked then none else lookup asked m)
  unfolding erase lookup
  lookup-erase name asked [] = ground arith
  lookup-erase name asked ((key, value) ∷ others) =
      ground (
        arith,
        lookup-erase name asked others,
        eq_iff key asked,
        eq_iff name asked,
        eq_iff key name,
      )

  pub lookup-insert :
      (name asked : String) (value : A) (m : Assoc A)
      → lookup asked (insert name value m) ≡ (if name == asked then some value else lookup asked m)
  unfolding insert lookup
  lookup-insert name asked value [] = refl
  lookup-insert name asked value ((key, old) ∷ others) = ground (
    arith,
    lookup-insert name asked value others,
    eq_iff key asked,
    eq_iff name asked,
    eq_iff key name,
  )

pub ruleset assoc_laws = (lookup-insert, lookup-erase)
