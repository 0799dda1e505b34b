-- ===== src/Base/Lists.antt =====
-- JavaScript's array methods as functions by clauses, with the lemmas that the components share.
use Prim.Native.Nat.{ℕ, zero, suc, ◌+◌, ◌≤◌, ◌<◌}
use mathlib.Core.Path.{◌≡◌, refl, sym, ap, ◌∙◌}
use mathlib.Core.Bool.{Bool, true, false, not, ◌&&◌, ◌||◌}
use mathlib.Core.Option.{Option, none, some}
use mathlib.Core.List.{List, [], ◌∷◌, ◌++◌, map}
use native.Mathlib.Omega.{arith}
use ku_crud.Base.Tests.{leb, if◌then◌else◌}

module _ {ℓ} {A : Type ℓ} where
  abbrev pub length : List A → ℕ
  length [] = 0
  length (x ∷ xs) = suc (length xs)

  abbrev pub get_elem? : List A → ℕ → Option A
  get_elem? [] i = none
  get_elem? (x ∷ xs) zero = some x
  get_elem? (x ∷ xs) (suc i) = get_elem? xs i

  abbrev pub take : ℕ → List A → List A
  take zero xs = []
  take (suc n) [] = []
  take (suc n) (x ∷ xs) = x ∷ take n xs

  abbrev pub drop : ℕ → List A → List A
  drop zero xs = xs
  drop (suc n) [] = []
  drop (suc n) (x ∷ xs) = drop n xs

  -- `some`, `every`, `filter` and `find` of an array
  abbrev pub any : (A → Bool) → List A → Bool
  any p [] = false
  any p (x ∷ xs) = p x || any p xs

  abbrev pub all : (A → Bool) → List A → Bool
  all p [] = true
  all p (x ∷ xs) = p x && all p xs

  abbrev pub filter : (A → Bool) → List A → List A
  filter p [] = []
  filter p (x ∷ xs) = if p x then x ∷ filter p xs else filter p xs

  abbrev pub find : (A → Bool) → List A → Option A
  find p [] = none
  find p (x ∷ xs) = if p x then some x else find p xs

  -- `list.map((x, i) => f(i, x))`, with the index of the first element
  abbrev pub map_from {κ} : {B : Type κ} → (ℕ → A → B) → ℕ → List A → List B
  map_from f i [] = []
  map_from f i (x ∷ xs) = f i x ∷ map_from f (suc i) xs

  -- `list.map((x, j) => j === i ? f(x) : x)`
  abbrev pub modify : ℕ → (A → A) → List A → List A
  modify i f [] = []
  modify zero f (x ∷ xs) = f x ∷ xs
  modify (suc i) f (x ∷ xs) = x ∷ modify i f xs

  -- `list.filter((_, j) => j !== i)`
  abbrev pub remove_at : ℕ → List A → List A
  remove_at i [] = []
  remove_at zero (x ∷ xs) = xs
  remove_at (suc i) (x ∷ xs) = x ∷ remove_at i xs

  abbrev pub All {κ} : (A → Type κ) → List A → Type κ
  All P [] = Unit
  All P (x ∷ xs) = P x × All P xs

module _ {ℓ} {A : Type ℓ} where
  pub length-append : (xs ys : List A) → length (xs ++ ys) ≡ length xs + length ys
  length-append [] ys = omega arith
  length-append (x ∷ xs) ys = omega (arith, length-append xs ys)

  pub length-filter-le : (p : A → Bool) (xs : List A) → length (filter p xs) ≤ length xs
  length-filter-le p [] = omega arith
  length-filter-le p (x ∷ xs) = ground (arith, length-filter-le p xs)

  pub filter-append :
      (p : A → Bool) (xs ys : List A) → filter p (xs ++ ys) ≡ filter p xs ++ filter p ys
  filter-append p [] ys = refl
  filter-append p (x ∷ xs) ys = ground (arith, filter-append p xs ys)

  pub any-append : (p : A → Bool) (xs ys : List A) → any p (xs ++ ys) ≡ (any p xs || any p ys)
  any-append p [] ys = refl
  any-append p (x ∷ xs) ys = ground (arith, any-append p xs ys)

  pub filter_cong :
      (p q : A → Bool) (xs : List A) → ((x : A) → p x ≡ q x) → filter p xs ≡ filter q xs
  filter_cong p q [] h = refl
  filter_cong p q (x ∷ xs) h = rw (h x, filter_cong p q xs h) refl

  pub any_cong : (p q : A → Bool) (xs : List A) → ((x : A) → p x ≡ q x) → any p xs ≡ any q xs
  any_cong p q [] h = refl
  any_cong p q (x ∷ xs) h = rw (h x, any_cong p q xs h) refl

  pub all_cong : (p q : A → Bool) (xs : List A) → ((x : A) → p x ≡ q x) → all p xs ≡ all q xs
  all_cong p q [] h = refl
  all_cong p q (x ∷ xs) h = rw (h x, all_cong p q xs h) refl

  pub filter-filter :
      (p q : A → Bool) (xs : List A) → filter p (filter q xs) ≡ filter (λ x. q x && p x) xs
  filter-filter p q [] = refl
  filter-filter p q (x ∷ xs) = ground (arith, filter-filter p q xs)

  pub any-filter : (p q : A → Bool) (xs : List A) → any q (filter p xs) ≡ any (λ x. p x && q x) xs
  any-filter p q [] = refl
  any-filter p q (x ∷ xs) = ground (arith, any-filter p q xs)

  pub any-filter-not : (p : A → Bool) (xs : List A) → any p (filter (λ x. not (p x)) xs) ≡ false
  any-filter-not p [] = refl
  any-filter-not p (x ∷ xs) = ground (arith, any-filter-not p xs)

  pub filter_none : (p : A → Bool) (xs : List A) → any p xs ≡ false → filter p xs ≡ []
  filter_none p [] h = refl
  filter_none p (x ∷ xs) h = ground (arith, filter_none p xs)

  pub length-map {κ} : {B : Type κ} (f : A → B) (xs : List A) → length (map f xs) ≡ length xs
  length-map f [] = refl
  length-map f (x ∷ xs) = ap suc (length-map f xs)

  pub length-map_from {κ} :
      {B : Type κ} (f : ℕ → A → B) (i : ℕ) (xs : List A) → length (map_from f i xs) ≡ length xs
  length-map_from f i [] = refl
  length-map_from f i (x ∷ xs) = ap suc (length-map_from f (suc i) xs)

module _ {ℓ} {A : Type ℓ} where
  take_nil : (n : ℕ) → take {A = A} n [] ≡ []
  take_nil zero = refl
  take_nil (suc n) = refl

  pub drop_nil : (n : ℕ) → drop {A = A} n [] ≡ []
  drop_nil zero = refl
  drop_nil (suc n) = refl

  pub length-take-le : (n : ℕ) (xs : List A) → length (take n xs) ≤ length xs
  length-take-le zero xs = omega arith
  length-take-le (suc n) [] = omega arith
  length-take-le (suc n) (x ∷ xs) = omega (arith, length-take-le n xs)

  pub take-append-drop : (n m : ℕ) (xs : List A) → take n xs ++ take m (drop n xs) ≡ take (n + m) xs
  take-append-drop zero m xs = ap (λ j. take j xs) (omega arith)
  take-append-drop (suc n) m [] = take_nil m ∙ sym (take_nil (suc n + m))
  take-append-drop (suc n) m (x ∷ xs) =
      let next : suc (n + m) ≡ suc n + m = omega arith in
      ap (λ rest. x ∷ rest) (take-append-drop n m xs) ∙ ap (λ j. take j (x ∷ xs)) next

  pub take_all : (n : ℕ) (xs : List A) → length xs ≤ length (take n xs) → take n xs ≡ xs
  take_all zero [] h = refl
  take_all zero (x ∷ xs) h = absurd (omega arith)
  take_all (suc n) [] h = refl
  take_all (suc n) (x ∷ xs) h = ap (λ rest. x ∷ rest) (take_all n xs (omega arith))

  pub some_left :
      (n m : ℕ) (xs : List A)
      → 0 < m
      → length (take n xs) < length xs
      → 0 < length (take m (drop n xs))
  some_left n zero xs h more = absurd (omega arith)
  some_left zero (suc m) [] h more = absurd (omega arith)
  some_left zero (suc m) (x ∷ xs) h more = omega arith
  some_left (suc n) (suc m) [] h more = absurd (omega arith)
  some_left (suc n) (suc m) (x ∷ xs) h more = some_left n (suc m) xs h (omega arith)

  pub length-take-count : (n : ℕ) (xs : List A) → length (take n xs) ≤ n
  length-take-count zero xs = omega arith
  length-take-count (suc n) [] = omega arith
  length-take-count (suc n) (x ∷ xs) = omega (arith, length-take-count n xs)

  -- Where n elements reach the end of the list, taking more gives the same.
  pub take_more :
      (n m : ℕ) (xs : List A) → n ≤ m → length xs ≤ length (take n xs) → take n xs ≡ take m xs
  take_more zero m [] h ends = sym (take_nil m)
  take_more zero m (x ∷ xs) h ends = absurd (omega arith)
  take_more (suc n) zero xs h ends = absurd (omega arith)
  take_more (suc n) (suc m) [] h ends = refl
  take_more (suc n) (suc m) (x ∷ xs) h ends =
      ap (λ rest. x ∷ rest) (take_more n m xs (omega arith) (omega arith))

  -- A list has at least n elements exactly where there are n to take.
  pub leb-take : (n : ℕ) (xs : List A) → leb n (length (take n xs)) ≡ leb n (length xs)
  leb-take zero xs = ground arith
  leb-take (suc n) [] = refl
  leb-take (suc n) (x ∷ xs) = ground (arith, leb-take n xs)

  -- Where elements are left, all that were asked for have been taken.
  pub length-take : (n : ℕ) (xs : List A) → length (take n xs) < length xs → length (take n xs) ≡ n
  length-take zero xs h = refl
  length-take (suc n) [] h = absurd (omega arith)
  length-take (suc n) (x ∷ xs) h = omega (arith, length-take n xs)
