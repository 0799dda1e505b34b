-- ===== src/ActionsEditor/Fresh.antt =====
-- The loop of web/src/components/ActionsEditor.tsx that looks for a free id.
use ku_crud.Base.{
  ℕ, zero, suc, ◌+◌, ◌≤◌, ◌<◌, String, ◌≡◌, ◌≢◌, inl, inr, true, false, not, some, List, [], ◌∷◌,
  arith, ◌==◌, eq_iff, Bool-cases, length, filter, length-filter-le,
}
use ku_crud.Base.Text.{show, show-injective}
use text.Mathlib.TextLemmas.{append_cancel_left}
use ku_crud.ActionsEditor.{act_id, is_taken, free_number}

act_id-injective : (m n : ℕ) → act_id m ≡ act_id n → m ≡ n
unfolding act_id
act_id-injective m n e = show-injective m n (append_cancel_left "act_" (show m) (show n) e)

abbrev without : ℕ → List String → List String
without n pool = filter (λ x. not (x == act_id n)) pool

length-without-lt :
    (n : ℕ) (pool : List String) → is_taken n pool ≡ true → length (without n pool) < length pool
length-without-lt n [] h = cc
length-without-lt n (x ∷ pool) h =
    ground (arith, length-without-lt n pool, length-filter-le (λ y. not (y == act_id n)) pool)

is_taken-without :
    (m n : ℕ) (pool : List String)
    → m ≢ n
    → is_taken m pool ≡ true
    → is_taken m (without n pool) ≡ true
is_taken-without m n [] h k = k
is_taken-without m n (x ∷ pool) h k = ground (
  arith,
  is_taken-without m n pool h,
  eq_iff x (act_id m),
  eq_iff x (act_id n),
  act_id-injective m n,
)

-- `pool` holds every id `act_m` with m ≥ n that is taken, so each round takes one id out of it.
free_number-pool :
    (rounds n : ℕ) (taken pool : List String)
    → length pool < rounds
    → ((m : ℕ) → n ≤ m → is_taken m taken ≡ true → is_taken m pool ≡ true)
    → (k : ℕ) × (free_number rounds n taken ≡ some k) × (is_taken k taken ≡ false)
unfolding free_number
free_number-pool zero n taken pool enough covers = elim enough [ ]
free_number-pool (suc rounds) n taken pool enough covers = elim (Bool-cases (is_taken n taken)) [
  | inr free ↦ (n, rw free, free)
  | inl used ↦ rw used (
      free_number-pool rounds (n + 1) taken (without n pool)
        (omega (arith, length-without-lt n pool (covers n (omega arith) used)))
        (λ m above here. is_taken-without m n pool (omega arith) (covers m (omega arith) here)))
]

-- One round more than there are ids finds a number whose id is free, from any number on.
pub free_number-enough :
    (n : ℕ) (taken : List String)
    → (k : ℕ) × (free_number (length taken + 1) n taken ≡ some k) × (is_taken k taken ≡ false)
free_number-enough n taken =
    free_number-pool (length taken + 1) n taken taken (omega arith) (λ m above here. here)
