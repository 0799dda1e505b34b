-- ===== src/Tests/Numbered.antt =====
-- What the servers of the tests share: which page a request is for, and an answer of two rows in total.
use ku_crud.Base.{
  ℕ, ◌<◌, String, ◌≡◌, refl, sym, ◌∙◌, inl, inr, Bool, false, none, List, arith, ◌==◌, eq_iff,
  Bool-cases, or_else,
}
use ku_crud.Base.Assoc.{lookup}
use ku_crud.Base.Text.{show, show-injective}
use ku_crud.Value.{Row}
use ku_crud.Types.{RowsRes}
use ku_crud.Api.{Request}

abbrev pub numbered : String → Request → Bool
numbered n r = or_else (lookup "page" r.query) "" == n

abbrev pub page_of : List Row → RowsRes
page_of rows = record {
  rows = rows;
  total = 2;
  page = 1;
  page_size = 1;
  rels = none;
  m2m_rels = none;
}

pub shown : (show 1 ≡ "1") × (show 2 ≡ "2")
unfolding show
shown = (refl, refl)

pub other_number : (m n : ℕ) (k : String) → show m ≡ k → m < n → (show n == k) ≡ false
other_number m n k e h = elim (Bool-cases (show n == k)) [
  | inr differ ↦ differ
  | inl same ↦
      let one : n ≡ m = show-injective n m ((eq_iff (show n) k).0 same ∙ sym e) in
      absurd (omega arith)
]
