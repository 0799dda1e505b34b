-- ===== src/I18n/Agree.antt =====
-- The two dictionaries web/src/lib/i18n/en.ts and web/src/lib/i18n/id.ts, side by side.
use Prim.Native.Char.{code}
use Prim.Native.String.{◌++◌ as ◌⧺◌}
use mathlib.Core.Path.{subst}
use ku_crud.Base.{
  String, ◌≡◌, refl, inl, inr, Bool, true, false, not, ◌&&◌, ◌||◌, Option, none, some, List, [],
  ◌∷◌, ◌++◌, arith, ◌==◌, eq_iff, eqb, if◌then◌else◌, Bool-cases, any, all,
}
use ku_crud.Base.Assoc.{Assoc, lookup}
use ku_crud.I18n.English.{english, english_1, english_2, english_3, english_4, english_5, english_6}
use ku_crud.I18n.Indonesian.{
  indonesian, indonesian_1, indonesian_2, indonesian_3, indonesian_4, indonesian_5, indonesian_6,
}

-- the names that stand in braces in a text
placeholders_from : (inside : Bool) (read : String) → String → List String
placeholders_from inside read String.[] = []
placeholders_from inside read (String.◌∷◌ c s) =
    let opens = eqb (code c) b'{' in
    let closes = inside && eqb (code c) b'}' in
    let rest =
      placeholders_from (opens || (inside && not closes))
        (if opens then "" else read ⧺ String.◌∷◌ c "") s in
    if closes then read ∷ rest else rest

unfoldable pub placeholders : String → List String
unfolding placeholders_from
placeholders s = placeholders_from false "" s

abbrev among : List String → String → Bool
among names n = any (λ m. m == n) names

-- Whether two entries are both missing, or both there with the same placeholders.
unfoldable pub agree : Option String → Option String → Bool
unfolding placeholders
agree none none = true
agree (some a) (some b) =
    all (among (placeholders b)) (placeholders a) && all (among (placeholders a)) (placeholders b)
agree _ _ = false

-- two dictionaries entry by entry
agree_all : Assoc String → Assoc String → Bool
agree_all [] [] = true
agree_all ((k, a) ∷ m) ((l, b) ∷ n) = k == l && agree (some a) (some b) && agree_all m n
agree_all _ _ = false

agree_all-append :
    (a b c d : Assoc String)
    → agree_all a b ≡ true
    → agree_all c d ≡ true
    → agree_all (a ++ c) (b ++ d) ≡ true
unfolding agree_all
agree_all-append [] [] c d h k = k
agree_all-append [] (y ∷ b) c d h k = cc
agree_all-append ((x, v) ∷ a) [] c d h k = cc
agree_all-append ((x, v) ∷ a) ((y, w) ∷ b) c d h k =
    let rest = agree_all-append a b c d (ground arith) k in rw rest (ground arith)

agree-none : agree none none ≡ true
unfolding agree
agree-none = refl

agree-lookup :
    (key : String) (m n : Assoc String)
    → agree_all m n ≡ true
    → agree (lookup key m) (lookup key n) ≡ true
unfolding agree_all lookup
agree-lookup key [] [] h = agree-none
agree-lookup key [] (y ∷ n) h = cc
agree-lookup key ((x, v) ∷ m) [] h = cc
agree-lookup key ((x, v) ∷ m) ((y, w) ∷ n) h =
    let same : x ≡ y = (eq_iff x y).0 (ground arith) in
    let first : agree (some v) (some w) ≡ true = ground arith in
    let rest = agree-lookup key m n (ground arith) in
    subst
      (λ z.
        agree (if x == key then some v else lookup key m)
          (if z == key then some w else lookup key n)
        ≡ true)
      same (elim (Bool-cases (x == key)) [ inl e ↦ rw e first | inr e ↦ rw e rest ])

part_1 : agree_all english_1 indonesian_1 ≡ true
unfolding agree_all agree
part_1 = refl

part_2 : agree_all english_2 indonesian_2 ≡ true
unfolding agree_all agree
part_2 = refl

part_3 : agree_all english_3 indonesian_3 ≡ true
unfolding agree_all agree
part_3 = refl

part_4 : agree_all english_4 indonesian_4 ≡ true
unfolding agree_all agree
part_4 = refl

part_5 : agree_all english_5 indonesian_5 ≡ true
unfolding agree_all agree
part_5 = refl

part_6 : agree_all english_6 indonesian_6 ≡ true
unfolding agree_all agree
part_6 = refl

whole : agree_all english indonesian ≡ true
whole = agree_all-append english_1 indonesian_1 _ _ part_1 (
    agree_all-append english_2 indonesian_2 _ _ part_2 (
      agree_all-append english_3 indonesian_3 _ _ part_3 (
        agree_all-append english_4 indonesian_4 _ _ part_4
          (agree_all-append english_5 indonesian_5 english_6 indonesian_6 part_5 part_6))))

-- A key is in both dictionaries or in neither, and where it is in both, its two texts have the same
-- placeholders.
pub agree-dictionaries : (key : String) → agree (lookup key english) (lookup key indonesian) ≡ true
agree-dictionaries key = agree-lookup key english indonesian whole
