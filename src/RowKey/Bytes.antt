-- ===== src/RowKey/Bytes.antt =====
-- The bytes of UTF-8 behind web/src/lib/rowkey.ts, read back.
use Prim.Native.Char.{Char, char, code}
use ku_crud.Base.{
  ℕ, zero, suc, ◌+◌, ◌-◌, ◌*◌, ◌/◌, ◌%◌, ◌<◌, String, ◌≡◌, refl, ap, ◌∙◌, inl, inr, true, false,
  List, [], ◌∷◌, ◌++◌, arith, ltb, if◌then◌else◌, Bool-cases, All,
}
use ku_crud.RowKey.{utf8_char, utf8, code_points}

code-bound : (c : Char) → code c < 1114112
code-bound (char n p) = ground arith

-- A decoder: so many more bytes are to come for the code point that has been read in part.
abbrev more_bytes : ℕ → ℕ
more_bytes b = if ltb b 128 then 0 else if ltb b 224 then 1 else if ltb b 240 then 2 else 3

abbrev first_bits : ℕ → ℕ
first_bits b =
    if ltb b 128 then 0 else if ltb b 224 then b - 192 else if ltb b 240 then b - 224 else b - 240

pub read_utf8 : (more part : ℕ) → List ℕ → List ℕ
read_utf8 more part [] = []
read_utf8 zero part (b ∷ bs) =
    let rest = read_utf8 (more_bytes b) (first_bits b) bs in if ltb b 128 then b ∷ rest else rest
read_utf8 (suc zero) part (b ∷ bs) = (part * 64 + (b - 128)) ∷ read_utf8 0 0 bs
read_utf8 (suc (suc more)) part (b ∷ bs) = read_utf8 (suc more) (part * 64 + (b - 128)) bs

read_utf8-ascii :
    (b : ℕ) (bs : List ℕ) → ltb b 128 ≡ true → read_utf8 0 0 (b ∷ bs) ≡ b ∷ read_utf8 0 0 bs
unfolding read_utf8
read_utf8-ascii b bs one = rw one refl

read_utf8-first :
    (b more part : ℕ) (bs : List ℕ)
    → ltb b 128 ≡ false
    → more_bytes b ≡ more
    → first_bits b ≡ part
    → read_utf8 0 0 (b ∷ bs) ≡ read_utf8 more part bs
unfolding read_utf8
read_utf8-first b more part bs many m p =
    λ i. (if many i then b ∷ read_utf8 (m i) (p i) bs else read_utf8 (m i) (p i) bs)

-- the bytes that follow, up to three of them
follow_1 :
    (n a part : ℕ) (bs : List ℕ)
    → part * 64 + (a - 128) ≡ n
    → read_utf8 1 part (a ∷ bs) ≡ n ∷ read_utf8 0 0 bs
unfolding read_utf8
follow_1 n a part bs e = ap (λ k. k ∷ read_utf8 0 0 bs) e

follow_2 :
    (n a b part : ℕ) (bs : List ℕ)
    → (part * 64 + (a - 128)) * 64 + (b - 128) ≡ n
    → read_utf8 2 part (a ∷ b ∷ bs) ≡ n ∷ read_utf8 0 0 bs
unfolding read_utf8
follow_2 n a b part bs e = ap (λ k. k ∷ read_utf8 0 0 bs) e

follow_3 :
    (n a b c part : ℕ) (bs : List ℕ)
    → ((part * 64 + (a - 128)) * 64 + (b - 128)) * 64 + (c - 128) ≡ n
    → read_utf8 3 part (a ∷ b ∷ c ∷ bs) ≡ n ∷ read_utf8 0 0 bs
unfolding read_utf8
follow_3 n a b c part bs e = ap (λ k. k ∷ read_utf8 0 0 bs) e

read_utf8-char :
    (n : ℕ) (bs : List ℕ) → n < 1114112 → read_utf8 0 0 (utf8_char n ++ bs) ≡ n ∷ read_utf8 0 0 bs
read_utf8-char n bs h = elim (Bool-cases (ltb n 128)) [
  | inl one ↦ rw one (read_utf8-ascii n bs one)
  | inr e1 ↦ elim (Bool-cases (ltb n 2048)) [
    | inl two ↦
        rw (e1, two)
          (read_utf8-first (192 + n / 64) 1 (n / 64) _ (ground arith) (ground arith) (ground arith)
            ∙ follow_1 n (128 + n % 64) (n / 64) bs (omega arith))
    | inr e2 ↦ elim (Bool-cases (ltb n 65536)) [
      | inl three ↦
          rw (e1, e2, three)
            (read_utf8-first (224 + n / 4096) 2 (n / 4096) _ (ground arith) (ground arith)
                (ground arith)
              ∙ follow_2 n (128 + n / 64 % 64) (128 + n % 64) (n / 4096) bs (omega arith))
      | inr e3 ↦
          rw (e1, e2, e3)
            (read_utf8-first (240 + n / 262144) 3 (n / 262144) _ (ground arith) (ground arith)
                (ground arith)
              ∙ follow_3 n (128 + n / 4096 % 64) (128 + n / 64 % 64) (128 + n % 64) (n / 262144) bs
                  (omega arith))
    ]
  ]
]

unfoldable pub IsByte : ℕ → Type 0
IsByte b = b < 256

IsByte-utf8_char : (n : ℕ) → n < 1114112 → All IsByte (utf8_char n)
unfolding IsByte
IsByte-utf8_char n h = elim (Bool-cases (ltb n 128)) [
  | inl one ↦ rw one (ground arith, tt)
  | inr e1 ↦ elim (Bool-cases (ltb n 2048)) [
    | inl two ↦ rw (e1, two) (ground arith, (omega arith, tt))
    | inr e2 ↦ elim (Bool-cases (ltb n 65536)) [
      | inl three ↦ rw (e1, e2, three) (ground arith, (omega arith, (omega arith, tt)))
      | inr e3 ↦ rw (e1, e2, e3) (omega arith, (omega arith, (omega arith, (omega arith, tt))))
    ]
  ]
]

All-append : (xs ys : List ℕ) → All IsByte xs → All IsByte ys → All IsByte (xs ++ ys)
All-append [] ys h k = k
All-append (x ∷ xs) ys (h, hs) k = (h, All-append xs ys hs k)

pub IsByte-utf8 : (s : String) → All IsByte (utf8 (code_points s))
unfolding utf8
IsByte-utf8 String.[] = tt
IsByte-utf8 (String.◌∷◌ c s) =
    All-append (utf8_char (code c)) (utf8 (code_points s))
      (IsByte-utf8_char (code c) (code-bound c)) (IsByte-utf8 s)

-- A text is read back from its bytes.
pub read_utf8-utf8 : (s : String) → read_utf8 0 0 (utf8 (code_points s)) ≡ code_points s
unfolding utf8 read_utf8
read_utf8-utf8 String.[] = refl
read_utf8-utf8 (String.◌∷◌ c s) =
    read_utf8-char (code c) (utf8 (code_points s)) (code-bound c)
    ∙ ap (λ rest. code c ∷ rest) (read_utf8-utf8 s)
