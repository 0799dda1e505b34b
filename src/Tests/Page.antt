-- ===== src/Tests/Page.antt =====
-- The state of the data page, and what it asks of the server.
use ku_crud.Base.{
  ℕ, zero, suc, ◌+◌, refl, sym, ap, take, drop, drop_nil, if◌then◌else◌, ◌-◌, ◌*◌, ◌≤◌, ◌<◌, ◌≡◌,
  ◌⊎◌, none, some, List, [], ◌∷◌, arith, length,
}
use mathlib.Core.Path.{subst}
use ku_crud.Types.{RowsRes}
use ku_crud.Api.{Request, Result, ok}
use ku_crud.Data.Session.{Event, page_count, handle, next_page, type_search, debounce_elapsed}
use ku_crud.Data.Session.Laws.{run, IsSameQuery, run-page, page_count_bounds}
use ku_crud.Data.Query.{Grouped, query_params, grouped_request, fetch_grouped}
use ku_crud.Data.Query.Laws.{IsFinished, fetch_grouped_total}
use ku_crud.Data.Query.Pages.{IsCapped, fetch_grouped-IsCapped}
use ku_crud.Server.{IsPage}
use ku_crud.Base.Assoc.{lookup}
use ku_crud.Value.{Row}
use ku_crud.Tests.Numbered.{numbered, page_of, shown, other_number}
use ku_crud.Data.Bulk.{BulkRes, BulkRun, bulk_request, delete_chunks, bulk_delete}
use ku_crud.Data.Bulk.Laws.{Sends, bulk_delete-Sends}
use ku_crud.Tests.Samples.{stub, book, fresh}

abbrev turned : List Event
turned = next_page 3 ∷ type_search "e" ∷ debounce_elapsed ∷ next_page 2 ∷ []

run-page_example :
    ((1 ≤ (run turned fresh).page) × ((run turned fresh).page ≤ 3))
    × ((e : Event)
        → IsSameQuery (handle e (run turned fresh)) (run turned fresh)
          ⊎ ((handle e (run turned fresh)).page ≡ 1))
run-page_example =
    run-page turned fresh 3 (omega arith, (tt, (tt, (omega arith, tt)))) (omega arith) (omega arith)

page_count_bounds_example :
    (41 ≤ page_count (some (41, 20)) * 20)
    × ((page_count (some (41, 20)) ≡ 1) ⊎ ((page_count (some (41, 20)) - 1) * 20 < 41))
page_count_bounds_example = page_count_bounds 41 20 (omega arith)

abbrev answers : Request → Result RowsRes
answers r = ok (record {
  rows = book "1" "new" ∷ [];
  total = 1;
  page = 1;
  page_size = 200;
  rels = none;
  m2m_rels = none;
})

ok_inj : {x y : RowsRes} → Result.ok x ≡ Result.ok y → x ≡ y
ok_inj e = cc

one_row : (r : Request) (res : RowsRes) → answers r ≡ ok res → length res.rows ≤ 1
one_row r res e = subst (λ x. length x.rows ≤ 1) (ok_inj e) (omega arith)

fetch_grouped_total_example :
    (a : Result Grouped) × (fetch_grouped stub "books" fresh answers ≡ some a)
    × IsFinished stub "books" fresh answers 1 a
fetch_grouped_total_example = fetch_grouped_total stub "books" fresh answers 1 one_row

abbrev two_books : List Row
two_books = book "1" "new" ∷ book "2" "old" ∷ []

-- a server of two books: both are on the first page
abbrev shelf : Request → Result RowsRes
shelf r = if numbered "1" r then ok (page_of two_books) else ok (page_of [])

first_shelf : shelf (grouped_request stub "books" fresh 1) ≡ ok (page_of two_books)
unfolding grouped_request query_params lookup
first_shelf = rw shown.0 refl

later_shelf : (n : ℕ) → 1 < n → shelf (grouped_request stub "books" fresh n) ≡ ok (page_of [])
unfolding grouped_request query_params lookup
later_shelf n h = rw (other_number 1 n "1" shown.0 h) refl

drop_books : (n : ℕ) → 2 ≤ n → take 200 (drop n two_books) ≡ []
drop_books zero h = absurd (omega arith)
drop_books (suc zero) h = absurd (omega arith)
drop_books (suc (suc n)) h = ap (take 200) (drop_nil n)

shelf_serves :
    (page : ℕ)
    → (res : RowsRes) × (shelf (grouped_request stub "books" fresh (page + 1)) ≡ ok res)
      × IsPage two_books 200 page res
shelf_serves zero = (page_of two_books, first_shelf, record { rows = refl; total = refl })
shelf_serves (suc page) = (
  page_of [],
  later_shelf (suc page + 1) (omega arith),
  record { rows = sym (drop_books (suc page * 200) (omega arith)); total = refl },
)

fetch_grouped-IsCapped_example :
    (g : Grouped) × (fetch_grouped stub "books" fresh shelf ≡ some (ok g)) × IsCapped two_books g
fetch_grouped-IsCapped_example =
    fetch_grouped-IsCapped stub "books" fresh shelf two_books shelf_serves

abbrev deletes : Request → Result BulkRes
deletes r = ok (record { deleted = 1; failures = [] })

abbrev no_run : BulkRun
no_run = record { sent = []; deleted = 0; failed = []; error = none }

bulk_delete-Sends_example :
    Sends "books" deletes ("k1" ∷ "k2" ∷ []) no_run (bulk_delete "books" deletes ("k1" ∷ "k2" ∷ []))
bulk_delete-Sends_example = bulk_delete-Sends "books" deletes ("k1" ∷ "k2" ∷ [])

-- Both keys are sent in one request.
bulk_delete_test : bulk_delete "books" deletes ("k1" ∷ "k2" ∷ []) ≡ record {
  sent = bulk_request "books" ("k1" ∷ "k2" ∷ []) ∷ [];
  deleted = 1;
  failed = [];
  error = none;
}
unfolding bulk_delete delete_chunks
bulk_delete_test = refl
