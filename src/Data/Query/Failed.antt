-- ===== src/Data/Query/Failed.antt =====
-- The loop of web/src/pages/Data.tsx for a grouped grid, where a request fails.
use ku_crud.Base.{
  ℕ, zero, suc, ◌+◌, ◌<◌, String, ◌≡◌, refl, inl, inr, false, some, arith, eqb, ap, ◌∙◌, Bool-cases,
  length,
}
use mathlib.Core.Option.{some-injective}
use mathlib.Core.Path.{subst}
use ku_crud.Types.{RowsRes}
use ku_crud.Api.{Json, Request, Result, ok, err, Failure}
use ku_crud.Data.Session.{Session}
use ku_crud.Data.Query.{Grouped, cap, collect, is_last, after_page, grouped_request, fetch_from}
use ku_crud.Data.Query.Loop.{answer, first_pages, collected_pages}

err_inj : {e x : Failure} → ◌≡◌ {A = Result Grouped} (err e) (err x) → e ≡ x
err_inj e = cc

module _ (js : Json) (name : String) (s : Session) (server : Request → Result RowsRes) where
  -- The first pages are answered, and none of them ends the loop: the rows stay below the cap and below
  -- the total, and each page has some.
  abbrev pub IsPassed : ℕ → Type 0
  IsPassed before =
      (k : ℕ)
      → k < before
      → (res : RowsRes) × (server (grouped_request js name s (k + 1)) ≡ ok res)
        × (length (first_pages js name s server (suc k)) < cap)
        × (length (first_pages js name s server (suc k)) < res.total)
        × (0 < length res.rows)

  -- What a failed loop has come to: the server has answered the request for the page after these with
  -- this error.
  pub record IsFailed (e : Failure) : Type 0 where
    pub before : ℕ
    pub failed : server (grouped_request js name s (before + 1)) ≡ err e
    pub answered : IsPassed before

  passes :
      (before : ℕ) (acc : Grouped) (res : RowsRes)
      → acc.rows ≡ first_pages js name s server before
      → answer js name s server (before + 1) ≡ ok res
      → is_last (collect acc res) res ≡ false
      → (length (first_pages js name s server (suc before)) < cap)
        × (length (first_pages js name s server (suc before)) < res.total)
        × (0 < length res.rows)
  unfolding is_last
  passes before acc res rows same more =
      subst (λ l. (length l < cap) × (length l < res.total) × (0 < length res.rows))
        (collected_pages js name s server before acc res rows same)
        (ground arith, ground arith, ground arith)

  IsPassed-suc :
      (before : ℕ) (acc : Grouped) (res : RowsRes)
      → acc.rows ≡ first_pages js name s server before
      → answer js name s server (before + 1) ≡ ok res
      → is_last (collect acc res) res ≡ false
      → IsPassed before
      → IsPassed (suc before)
  IsPassed-suc before acc res rows same more passed k h = elim (Bool-cases (eqb k before)) [
    | inl here ↦
        let e : before ≡ k = ground arith in
        subst
          (λ j.
            (r : RowsRes) × (answer js name s server (j + 1) ≡ ok r)
            × (length (first_pages js name s server (suc j)) < cap)
            × (length (first_pages js name s server (suc j)) < r.total)
            × (0 < length r.rows))
          e (let (a, b, c) = passes before acc res rows same more in (res, same, a, b, c))
    | inr earlier ↦ passed k (ground arith)
  ]

  pub fetch_from-IsFailed :
      (rounds before page : ℕ) (acc : Grouped) {e : Failure}
      → page ≡ before + 1
      → acc.rows ≡ first_pages js name s server before
      → IsPassed before
      → fetch_from js name s server rounds page acc ≡ some (err e)
      → IsFailed e
  unfolding fetch_from after_page
  fetch_from-IsFailed zero before page acc here rows passed found = cc
  fetch_from-IsFailed (suc rounds) before page acc {e} here rows passed found =
      by_answer (answer js name s server page) refl
        (λ next pages more.
          fetch_from-IsFailed rounds (suc before) (page + 1) next (omega arith) pages more)
        found
    where
      by_answer :
          (a : Result RowsRes)
          → answer js name s server page ≡ a
          → ((next : Grouped)
              → next.rows ≡ first_pages js name s server (suc before)
              → IsPassed (suc before)
              → fetch_from js name s server rounds (page + 1) next ≡ some (err e)
              → IsFailed e)
          → after_page acc (fetch_from js name s server rounds (page + 1)) a ≡ some (err e)
          → IsFailed e
      by_answer (err x) same ih h = record {
        before = before;
        failed =
            subst (λ k. answer js name s server k ≡ err e) here
              (same ∙ ap err (err_inj (some-injective _ _ h)));
        answered = passed;
      }
      by_answer (ok res) same ih h =
          let there : answer js name s server (before + 1) ≡ ok res =
            subst (λ k. answer js name s server k ≡ ok res) here same in
          elim (Bool-cases (is_last (collect acc res) res)) [
            | inl last ↦ let wrong = some-injective _ _ (rw last at h) in cc
            | inr more ↦
                ih (collect acc res) (collected_pages js name s server before acc res rows there)
                  (IsPassed-suc before acc res rows there more passed) (rw more at h)
          ]
