-- ===== src/Base/Text.antt =====
-- The text operations of JavaScript that the client calls: `String(n)` of a number, `trim`,
-- `split`, `join`.
use Prim.Native.Char.{Char, code}
use Prim.Native.String.{String, [], ◌∷◌, ◌++◌}
use Prim.Native.Nat.{ℕ, zero, suc, ◌+◌, ◌*◌, ◌-◌, ◌/◌, ◌%◌, ◌≤◌, ◌<◌}
use mathlib.Core.Path.{◌≡◌, refl, ◌∙◌, ap, sym}
use mathlib.Core.Logic.{inl, inr}
use mathlib.Core.Bool.{Bool, true, false, ◌&&◌, ◌||◌}
use mathlib.Core.List.{List}
use native.Mathlib.Omega.{arith}
use text.Mathlib.Text.{◌==◌}
use text.Mathlib.TextLemmas.{cons-append, nil-append, append_assoc}
use ku_crud.Base.Tests.{ltb, leb, eqb, if◌then◌else◌, Bool-cases}

abbrev digit : ℕ → Char
digit zero = "0"
digit (suc zero) = "1"
digit (suc (suc zero)) = "2"
digit (suc (suc (suc zero))) = "3"
digit (suc (suc (suc (suc zero)))) = "4"
digit (suc (suc (suc (suc (suc zero))))) = "5"
digit (suc (suc (suc (suc (suc (suc zero)))))) = "6"
digit (suc (suc (suc (suc (suc (suc (suc zero))))))) = "7"
digit (suc (suc (suc (suc (suc (suc (suc (suc zero)))))))) = "8"
digit _ = "9"

show_from : ℕ → ℕ → String → String
show_from zero n tail = tail
show_from (suc f) n tail =
    let shown = digit (n % 10) ∷ tail in
    let more = show_from f (n / 10) shown in if ltb n 10 then shown else more

-- `String(n)`
unfoldable pub show : ℕ → String
unfolding show_from
show n = show_from (suc n) n ""

unfoldable pub read_from : ℕ → String → ℕ
read_from n [] = n
read_from n (c ∷ s) = read_from (n * 10 + (code c - 48)) s

code-digit : (d : ℕ) → d < 10 → code (digit d) - 48 ≡ d
code-digit zero h = refl
code-digit (suc zero) h = refl
code-digit (suc (suc zero)) h = refl
code-digit (suc (suc (suc zero))) h = refl
code-digit (suc (suc (suc (suc zero)))) h = refl
code-digit (suc (suc (suc (suc (suc zero))))) h = refl
code-digit (suc (suc (suc (suc (suc (suc zero)))))) h = refl
code-digit (suc (suc (suc (suc (suc (suc (suc zero))))))) h = refl
code-digit (suc (suc (suc (suc (suc (suc (suc (suc zero)))))))) h = refl
code-digit (suc (suc (suc (suc (suc (suc (suc (suc (suc zero))))))))) h = refl
code-digit (suc (suc (suc (suc (suc (suc (suc (suc (suc (suc n)))))))))) h = absurd (omega arith)

read_from-show_from :
    (f n : ℕ) (tail : String) → n < f → read_from 0 (show_from f n tail) ≡ read_from n tail
unfolding show_from read_from
read_from-show_from zero n tail h = elim h [ ]
read_from-show_from (suc f) n tail h =
    let step : n / 10 * 10 + (code (digit (n % 10)) - 48) ≡ n =
      omega (arith, code-digit (n % 10) (omega arith)) in
    elim (Bool-cases (ltb n 10)) [
      | inl few ↦ rw few (ap (λ k. read_from k tail) (ground (arith, code-digit (n % 10))))
      | inr many ↦ rw many (
          read_from-show_from f (n / 10) (digit (n % 10) ∷ tail) (ground arith)
          ∙ ap (λ k. read_from k tail) step)
    ]

show_from-append :
    (f n : ℕ) (tail rest : String) → show_from f n tail ++ rest ≡ show_from f n (tail ++ rest)
unfolding show_from
show_from-append zero n tail rest = refl
show_from-append (suc f) n tail rest = elim (Bool-cases (ltb n 10)) [
  | inl few ↦ rw few (cons-append _ tail rest)
  | inr many ↦ rw many (
      show_from-append f (n / 10) (digit (n % 10) ∷ tail) rest
      ∙ ap (show_from f (n / 10)) (cons-append _ tail rest))
]

show-append : (n : ℕ) (rest : String) → show n ++ rest ≡ show_from (suc n) n rest
unfolding show
show-append n rest = show_from-append (suc n) n "" rest ∙ ap (show_from (suc n) n) (nil-append rest)

-- A number that is written before a text is read before it.
pub read_from-show : (n : ℕ) (rest : String) → read_from 0 (show n ++ rest) ≡ read_from n rest
read_from-show n rest =
    ap (read_from 0) (show-append n rest) ∙ read_from-show_from (suc n) n rest (omega arith)

-- the same after other digits, for a number of one digit and for one of two
read_from-one :
    (f k n : ℕ) (tail : String)
    → n < f
    → n < 10
    → read_from k (show_from f n tail) ≡ read_from (k * 10 + n) tail
unfolding show_from read_from
read_from-one zero k n tail h one = elim h [ ]
read_from-one (suc f) k n tail h one =
    let few : ltb n 10 ≡ true = ground arith in
    let same : code (digit (n % 10)) - 48 ≡ n = omega (arith, code-digit (n % 10) (omega arith)) in
    rw few (ap (λ m. read_from (k * 10 + m) tail) same)

read_from-two :
    (f k n : ℕ) (tail : String)
    → n < f
    → 10 ≤ n
    → n < 100
    → read_from k (show_from f n tail) ≡ read_from (k * 100 + n) tail
unfolding show_from read_from
read_from-two zero k n tail h two less = elim h [ ]
read_from-two (suc f) k n tail h two less =
    let many : ltb n 10 ≡ false = ground arith in
    let same : code (digit (n % 10)) - 48 ≡ n % 10 = code-digit (n % 10) (omega arith) in
    rw many (
      read_from-one f k (n / 10) (digit (n % 10) ∷ tail) (omega arith) (omega arith)
      ∙ ap (λ m. read_from m tail) (rw same (omega arith)))

-- `String(n).padStart(2, "0")`
unfoldable pub pad : ℕ → String
unfolding show
pad n = if ltb n 10 then "0" ++ show n else show n

pad-eq : (n : ℕ) → pad n ≡ (if ltb n 10 then "0" ++ show n else show n)
unfolding pad
pad-eq n = refl

read_from-zero : (k : ℕ) (s : String) → read_from k ("0" ++ s) ≡ read_from (k * 10) s
unfolding read_from
read_from-zero k s =
    let same : k * 10 + 0 ≡ k * 10 = omega arith in
    ap (read_from k) (cons-append (digit 0) "" s ∙ ap (λ r. digit 0 ∷ r) (nil-append s))
    ∙ ap (λ m. read_from m s) same

pub read_from-pad :
    (k n : ℕ) (rest : String) → n < 100 → read_from k (pad n ++ rest) ≡ read_from (k * 100 + n) rest
read_from-pad k n rest h = elim (Bool-cases (ltb n 10)) [
  | inl one ↦
      rw (pad-eq, one)
        (ap (read_from k) (append_assoc "0" (show n) rest)
          ∙ read_from-zero k (show n ++ rest)
          ∙ ap (read_from (k * 10)) (show-append n rest)
          ∙ read_from-one (suc n) (k * 10) n rest (omega arith) (ground arith)
          ∙ ap (λ m. read_from m rest) (omega arith))
  | inr two ↦
      rw (pad-eq, two)
        (ap (read_from k) (show-append n rest)
          ∙ read_from-two (suc n) k n rest (omega arith) (ground arith) h)
]

-- Different numbers are written differently.
pub show-injective : (m n : ℕ) → show m ≡ show n → m ≡ n
unfolding show read_from
show-injective m n e =
    sym (read_from-show_from (suc m) m "" (omega arith))
    ∙ ap (read_from 0) e
    ∙ read_from-show_from (suc n) n "" (omega arith)

unfoldable pub is_space : Char → Bool
is_space c =
    let k = code c in
    (leb 9 k && leb k 13)
    || eqb k 32
    || eqb k 160
    || eqb k 5760
    || (leb 8192 k && leb k 8202)
    || eqb k 8232
    || eqb k 8233
    || eqb k 8239
    || eqb k 8287
    || eqb k 12288
    || eqb k 65279

unfoldable pub trim_start : String → String
unfolding is_space
trim_start [] = ""
trim_start (c ∷ s) = if is_space c then trim_start s else c ∷ s

unfoldable pub trim_end : String → String
unfolding is_space
trim_end [] = ""
trim_end (c ∷ s) = let rest = trim_end s in if rest == "" && is_space c then "" else c ∷ rest

unfoldable pub trim : String → String
unfolding trim_start trim_end
trim s = trim_end (trim_start s)

-- `parts.join(sep)`
unfoldable pub join : String → List String → String
join sep List.[] = ""
join sep (List.◌∷◌ s List.[]) = s
join sep (List.◌∷◌ s rest) = s ++ sep ++ join sep rest

abbrev pub head_char : Char → List String → List String
head_char c List.[] = List.◌∷◌ (c ∷ "") List.[]
head_char c (List.◌∷◌ s rest) = List.◌∷◌ (c ∷ s) rest

-- `s.split(sep)` at a separator of one character, given by its code
unfoldable pub split : ℕ → String → List String
split sep [] = List.◌∷◌ "" List.[]
split sep (c ∷ s) =
    let rest = split sep s in if eqb (code c) sep then List.◌∷◌ "" rest else head_char c rest

show_tests : (show 0 ≡ "0") × (show 7 ≡ "7") × (show 2048 ≡ "2048")
unfolding show
show_tests = (refl, refl, refl)

text_tests :
    (trim "  a b " ≡ "a b") × (join ", " (split b',' "x,y,") ≡ "x, y, ") × (join "," List.[] ≡ "")
unfolding trim join split
text_tests = (refl, refl, refl)

-- a template literal: its parts one after the other
abbrev pub template : List String → String
template List.[] = ""
template (List.◌∷◌ s rest) = s ++ template rest
