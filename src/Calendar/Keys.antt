-- ===== src/Calendar/Keys.antt =====
-- The key of a day in web/src/components/views/CalendarView.tsx.
use Prim.Native.Char.{Char}
use Prim.Native.String.{◌++◌, ◌∷◌}
use text.Mathlib.TextLemmas.{append-nil, cons-append, nil-append}
use ku_crud.Base.{ℕ, ◌+◌, ◌*◌, String, ◌≡◌, refl, sym, ap, ◌∙◌, arith}
use ku_crud.Base.Text.{show, read_from, read_from-show, pad, read_from-pad}
use ku_crud.Calendar.Dates.{Day, IsDay, key_of}
use ku_crud.Calendar.Days.{month_length_bounds}

abbrev dash : Char
dash = "-"

-- A dash reads as a digit 0.
read_from-dash : (k : ℕ) (s : String) → read_from k ("-" ++ s) ≡ read_from (k * 10) s
unfolding read_from
read_from-dash k s =
    let same : k * 10 + 0 ≡ k * 10 = omega arith in
    ap (read_from k) (cons-append dash "" s ∙ ap (λ r. dash ∷ r) (nil-append s))
    ∙ ap (λ m. read_from m s) same

read_from-end : (k : ℕ) → read_from k "" ≡ k
unfolding read_from
read_from-end k = refl

key_of-eq :
    (d : Day) → key_of d ≡ show d.year ++ "-" ++ pad (d.month + 1) ++ "-" ++ pad d.date ++ ""
unfolding key_of
key_of-eq d = rw (append-nil (pad d.date)) refl

abbrev weight : ℕ → ℕ → ℕ → ℕ
weight y m d = (y * 10 * 100 + (m + 1)) * 10 * 100 + d

read_from-key_of : (d : Day) → IsDay d → read_from 0 (key_of d) ≡ weight d.year d.month d.date
read_from-key_of d h =
    let (_, short) = month_length_bounds d.year d.month in
    ap (read_from 0) (key_of-eq d)
    ∙ read_from-show d.year _
    ∙ read_from-dash d.year _
    ∙ read_from-pad (d.year * 10) (d.month + 1) _ (omega (arith, h.in_year))
    ∙ read_from-dash (d.year * 10 * 100 + (d.month + 1)) _
    ∙ read_from-pad _ d.date "" (omega (arith, h.in_month))
    ∙ read_from-end _

-- Two dates with one key are one date.
pub key_of-injective : (d e : Day) → IsDay d → IsDay e → key_of d ≡ key_of e → d ≡ e
key_of-injective d e h k same =
    let read : weight d.year d.month d.date ≡ weight e.year e.month e.date =
      sym (read_from-key_of d h) ∙ ap (read_from 0) same ∙ read_from-key_of e k in
    let (_, short) = month_length_bounds d.year d.month in
    let (_, shorter) = month_length_bounds e.year e.month in
    let y : d.year ≡ e.year = omega (arith, h.in_year, k.in_year, h.in_month, k.in_month) in
    let m : d.month ≡ e.month = omega (arith, h.in_year, k.in_year, h.in_month, k.in_month) in
    let n : d.date ≡ e.date = omega (arith, h.in_month, k.in_month) in
    λ i. record { year = y i; month = m i; date = n i }
