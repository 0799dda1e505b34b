-- ===== src/RowKey/Symbols.antt =====
-- The base64url of web/src/lib/rowkey.ts, read back.
use Prim.Native.Char.{Char, code}
use text.Mathlib.TextBridge.{of_list, to_list, to_list-of_list}
use mathlib.Core.Path.{subst}
use ku_crud.Base.{
  ℕ, zero, suc, ◌+◌, ◌-◌, ◌*◌, ◌/◌, ◌%◌, ◌<◌, String, ◌≡◌, refl, ap, ◌∙◌, inl, inr, Bool, true,
  false, not, ◌&&◌, List, [], ◌∷◌, map, arith, leb, eqb, if◌then◌else◌, Bool-cases, All,
}
use ku_crud.Value.{Value, arr, values}
use ku_crud.Api.{Json}
use ku_crud.RowKey.{
  symbol, btoa, url_char, strip_padding, is_empty, utf8, code_points, key_part, encode_row_key,
}
use ku_crud.RowKey.Bytes.{IsByte, IsByte-utf8, read_utf8, read_utf8-utf8}

-- the groups of six bits, without padding
six : List ℕ → List ℕ
six [] = []
six (a ∷ []) = (a / 4) ∷ (a % 4 * 16) ∷ []
six (a ∷ b ∷ []) = (a / 4) ∷ (a % 4 * 16 + b / 16) ∷ (b % 16 * 4) ∷ []
six (a ∷ b ∷ c ∷ rest) =
    (a / 4) ∷ (a % 4 * 16 + b / 16) ∷ (b % 16 * 4 + c / 64) ∷ (c % 64) ∷ six rest

unsix : List ℕ → List ℕ
unsix (w ∷ x ∷ []) = (w * 4 + x / 16) ∷ []
unsix (w ∷ x ∷ y ∷ []) = (w * 4 + x / 16) ∷ (x % 16 * 16 + y / 4) ∷ []
unsix (w ∷ x ∷ y ∷ z ∷ rest) =
    (w * 4 + x / 16) ∷ (x % 16 * 16 + y / 4) ∷ (y % 4 * 64 + z) ∷ unsix rest
unsix _ = []

same_2 : (x y x' y' : ℕ) (r r' : List ℕ) → x ≡ x' → y ≡ y' → r ≡ r' → x ∷ y ∷ r ≡ x' ∷ y' ∷ r'
same_2 x y x' y' r r' p q s = λ i. p i ∷ q i ∷ s i

unsix-six : (bs : List ℕ) → All IsByte bs → unsix (six bs) ≡ bs
unfolding six unsix IsByte
unsix-six [] h = refl
unsix-six (a ∷ []) (h, t) = ap (λ k. k ∷ []) (omega arith)
unsix-six (a ∷ b ∷ []) (h, (k, t)) = same_2 _ _ a b [] [] (omega arith) (omega arith) refl
unsix-six (a ∷ b ∷ c ∷ rest) (h, (k, (l, more))) =
    same_2 _ _ a b _ _ (omega arith) (omega arith) (λ i. third i ∷ unsix-six rest more i)
  where
    third : (b % 16 * 4 + c / 64) % 4 * 64 + c % 64 ≡ c
    third = omega arith

IsSix : ℕ → Type 0
IsSix n = n < 64

IsSix-six : (bs : List ℕ) → All IsByte bs → All IsSix (six bs)
unfolding six IsByte IsSix
IsSix-six [] h = tt
IsSix-six (a ∷ []) (h, t) = (omega arith, (omega arith, tt))
IsSix-six (a ∷ b ∷ []) (h, (k, t)) = (omega arith, (omega arith, (omega arith, tt)))
IsSix-six (a ∷ b ∷ c ∷ rest) (h, (k, (l, more))) =
    (omega arith, (omega arith, (omega arith, (omega arith, IsSix-six rest more))))

-- the symbols of base64url, and their values
url : ℕ → Char
url n = url_char (symbol n)

value_of : ℕ → ℕ
value_of k =
    if leb 97 k
    then k - 71
    else if leb 65 k && leb k 90
    then k - 65
    else if leb 48 k && leb k 57
    then k + 4
    else if eqb k 45
    then 62
    else 63

fine : ℕ → Bool
fine n = eqb (value_of (code (url n))) n && not (eqb (code (url n)) b'=')

all_below : ℕ → Bool
unfolding fine url value_of
all_below zero = true
all_below (suc n) = fine n && all_below n

all_fine : all_below 64 ≡ true
unfolding all_below symbol
all_fine = refl

all_below-fine : (k n : ℕ) → all_below k ≡ true → n < k → fine n ≡ true
unfolding all_below
all_below-fine zero n h less = absurd (omega arith)
all_below-fine (suc k) n h less = elim (Bool-cases (eqb n k)) [
  | inl here ↦ let same : k ≡ n = ground arith in subst (λ m. fine m ≡ true) same (ground arith)
  | inr below ↦ all_below-fine k n (ground arith) (ground arith)
]

value_of-url : (n : ℕ) → n < 64 → value_of (code (url n)) ≡ n
unfolding fine
value_of-url n h = let is_fine = all_below-fine 64 n all_fine h in ground arith

url-padding : (n : ℕ) → n < 64 → eqb (code (url n)) b'=' ≡ false
unfolding fine
url-padding n h = let is_fine = all_below-fine 64 n all_fine h in ground arith

strip_padding-keep :
    (c : Char) (l : List Char)
    → eqb (code c) b'=' ≡ false
    → strip_padding (c ∷ l) ≡ c ∷ strip_padding l
unfolding strip_padding
strip_padding-keep c l h = elim (Bool-cases (is_empty (strip_padding l))) [
  | inl e ↦ rw (e, h) refl
  | inr e ↦ rw e refl
]

keep :
    (n : ℕ) (l : List Char) {l' : List Char}
    → n < 64
    → strip_padding l ≡ l'
    → strip_padding (url n ∷ l) ≡ url n ∷ l'
keep n l h e = strip_padding-keep (url n) l (url-padding n h) ∙ ap (λ r. url n ∷ r) e

abbrev padding : Char
padding = "="

no_padding :
    (strip_padding [] ≡ [])
    × ((strip_padding (padding ∷ []) ≡ []) × (strip_padding (padding ∷ padding ∷ []) ≡ []))
unfolding strip_padding
no_padding = (refl, (refl, refl))

abbrev written : List ℕ → List Char
written bs = strip_padding (map url_char (btoa bs))

written-six : (bs : List ℕ) → All IsByte bs → written bs ≡ map url (six bs)
unfolding btoa six url IsByte
written-six [] h = no_padding.0
written-six (a ∷ []) (h, t) =
    keep (a / 4) _ (omega arith) (keep (a % 4 * 16) _ (omega arith) no_padding.1.1)
written-six (a ∷ b ∷ []) (h, (k, t)) =
    keep (a / 4) _ (omega arith) (
      keep (a % 4 * 16 + b / 16) _ (omega arith) (keep (b % 16 * 4) _ (omega arith) no_padding.1.0))
written-six (a ∷ b ∷ c ∷ rest) (h, (k, (l, more))) = keep (a / 4) _ (omega arith) (
    keep (a % 4 * 16 + b / 16) _ (omega arith) (
      keep (b % 16 * 4 + c / 64) _ (omega arith)
        (keep (c % 64) _ (omega arith) (written-six rest more))))

map-value_of : (ns : List ℕ) → All IsSix ns → map (λ c. value_of (code c)) (map url ns) ≡ ns
unfolding IsSix
map-value_of [] h = refl
map-value_of (n ∷ ns) (h, hs) = λ i. value_of-url n h i ∷ map-value_of ns hs i

-- the bytes that a base64url was written from
read_back : List Char → List ℕ
read_back l = unsix (map (λ c. value_of (code c)) l)

read_back-written : (bs : List ℕ) → All IsByte bs → read_back (written bs) ≡ bs
unfolding read_back
read_back-written bs h =
    ap (λ l. unsix (map (λ c. value_of (code c)) l)) (written-six bs h)
    ∙ ap unsix (map-value_of (six bs) (IsSix-six bs h))
    ∙ unsix-six bs h

-- The decoder of a path segment: the code points that it was made from.
pub decode : String → List ℕ
decode s = read_utf8 0 0 (read_back (to_list s))

abbrev json_text : Json → List Value → String
json_text js vals = js.stringify (arr (values (map key_part vals)))

encode_row_key-eq :
    (js : Json) (vals : List Value)
    → encode_row_key js vals ≡ of_list (written (utf8 (code_points (json_text js vals))))
unfolding encode_row_key
encode_row_key-eq js vals = refl

-- The path segment of a row key can be read back: a decoder of base64url and UTF-8 gives the code
-- points of the JSON text that the key was written as, for every key and every way of writing JSON.
pub decode-encode_row_key :
    (js : Json) (vals : List Value)
    → decode (encode_row_key js vals)
      ≡ code_points (js.stringify (arr (values (map key_part vals))))
unfolding decode
decode-encode_row_key js vals =
    let s = json_text js vals in
    ap (λ t. read_utf8 0 0 (read_back (to_list t))) (encode_row_key-eq js vals)
    ∙ ap (λ l. read_utf8 0 0 (read_back l)) (to_list-of_list (written (utf8 (code_points s))))
    ∙ ap (read_utf8 0 0) (read_back-written (utf8 (code_points s)) (IsByte-utf8 s))
    ∙ read_utf8-utf8 s
