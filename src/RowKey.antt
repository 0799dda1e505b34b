-- ===== src/RowKey.antt =====
-- web/src/lib/rowkey.ts: a row key as base64url of the UTF-8 bytes of its JSON, and how the audit
-- trail shows a stored key.
pub mod Bytes
pub mod Symbols
use ku_crud.Base.{
  ℕ, zero, suc, ◌+◌, ◌*◌, ◌/◌, ◌%◌, String, ◌≡◌, refl, Bool, true, false, ◌&&◌, Option, none, some,
  List, [], ◌∷◌, ◌++◌, map, ◌==◌, ltb, eqb, if◌then◌else◌,
}
use ku_crud.Base.Text.{join}
use Prim.Native.Char.{Char, code}
use text.Mathlib.TextBridge.{of_list}
use ku_crud.Value.{Value, null, num, str, arr, values, items, to_text}
use ku_crud.Api.{Json}

-- `v === null ? null : String(v)`
abbrev pub key_part : Value → Value
key_part null = null
key_part v = str (to_text v)

abbrev pub code_points : String → List ℕ
code_points String.[] = []
code_points (String.◌∷◌ c s) = code c ∷ code_points s

-- The bytes of one code point in UTF-8.
abbrev pub utf8_char : ℕ → List ℕ
utf8_char n =
    if ltb n 128
    then n ∷ []
    else if ltb n 2048
    then (192 + n / 64) ∷ (128 + n % 64) ∷ []
    else if ltb n 65536
    then (224 + n / 4096) ∷ (128 + n / 64 % 64) ∷ (128 + n % 64) ∷ []
    else (240 + n / 262144) ∷ (128 + n / 4096 % 64) ∷ (128 + n / 64 % 64) ∷ (128 + n % 64) ∷ []

-- `new TextEncoder().encode(text)`, over code points
unfoldable pub utf8 : List ℕ → List ℕ
utf8 [] = []
utf8 (n ∷ ns) = utf8_char n ++ utf8 ns

abbrev pub alphabet : String
alphabet = "ABCDEFGHIJKLMNOPQRSTUVWXYZabcdefghijklmnopqrstuvwxyz0123456789+/"

nth_char : String → ℕ → Char
nth_char String.[] n = "="
nth_char (String.◌∷◌ c s) zero = c
nth_char (String.◌∷◌ c s) (suc n) = nth_char s n

-- the symbol of six bits
unfoldable pub symbol : ℕ → Char
unfolding nth_char
symbol n = nth_char alphabet n

-- `btoa`, from the bytes
unfoldable pub btoa : List ℕ → List Char
unfolding symbol
btoa [] = []
btoa (a ∷ []) = symbol (a / 4) ∷ symbol (a % 4 * 16) ∷ "=" ∷ "=" ∷ []
btoa (a ∷ b ∷ []) = symbol (a / 4) ∷ symbol (a % 4 * 16 + b / 16) ∷ symbol (b % 16 * 4) ∷ "=" ∷ []
btoa (a ∷ b ∷ c ∷ rest) =
    symbol (a / 4)
    ∷ symbol (a % 4 * 16 + b / 16)
    ∷ symbol (b % 16 * 4 + c / 64)
    ∷ symbol (c % 64)
    ∷ btoa rest

-- `.replace(/\+/g, "-").replace(/\//g, "_")`
abbrev pub url_char : Char → Char
url_char c = if eqb (code c) b'+' then "-" else if eqb (code c) b'/' then "_" else c

abbrev pub is_empty : List Char → Bool
is_empty [] = true
is_empty (c ∷ l) = false

-- `.replace(/=+$/, "")`
unfoldable pub strip_padding : List Char → List Char
strip_padding [] = []
strip_padding (c ∷ l) =
    let rest = strip_padding l in if is_empty rest && eqb (code c) b'=' then [] else c ∷ rest

unfoldable pub encode_row_key : Json → List Value → String
unfolding utf8 btoa strip_padding to_text
encode_row_key js vals =
    let text = js.stringify (arr (values (map key_part vals))) in
    of_list (strip_padding (map url_char (btoa (utf8 (code_points text)))))

abbrev shown_part : Value → String
shown_part null = "—"
shown_part v = to_text v

abbrev shown_key : String → Option Value → String
shown_key raw (some (arr vs)) = join " / " (map shown_part (items vs))
shown_key raw _ = if raw == "" then "—" else raw

unfoldable pub display_row_pk : Json → String → String
unfolding to_text join
display_row_pk js raw = shown_key raw (js.parse raw)

-- The two examples of the source's comment.
abbrev fixed : String → Json
fixed text = record { stringify = λ v. text; pretty = λ v. text; parse = λ s. none }

encode_tests :
    (encode_row_key (fixed "[\"3\"]") (num "3" ∷ []) ≡ "WyIzIl0")
    × (encode_row_key (fixed "[\"1\",\"a\"]") (num "1" ∷ str "a" ∷ []) ≡ "WyIxIiwiYSJd")
    × (utf8 (233 ∷ 8364 ∷ 128512 ∷ [])
        ≡ 0xc3 ∷ 0xa9 ∷ 0xe2 ∷ 0x82 ∷ 0xac ∷ 0xf0 ∷ 0x9f ∷ 0x98 ∷ 0x80 ∷ [])
unfolding encode_row_key
encode_tests = (refl, refl, refl)
