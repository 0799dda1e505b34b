-- ===== src/FilterBar/Sound.antt =====
-- Well-formed filters and drafts of web/src/components/FilterBar.tsx.
use ku_crud.Base.{
  ℕ, ◌<◌, String, ◌≡◌, refl, inl, inr, Bool, false, not, ◌||◌, Option, none, some, List, [], ◌∷◌,
  ◌++◌, arith, ◌==◌, eq_iff, eqb, Bool-cases, length, get_elem?, any, filter, All, any-append,
  any-filter-not,
}
use ku_crud.Types.{ColumnDef}
use ku_crud.FilterBar.{
  FilterOp, between, in_list, ActiveFilter, ops_for, Draft, Bar, col_by_name, close, commit_values,
  commit_draft, commit, blank_values,
}

-- The number of values that an operator needs: two for a range, at least one for a list, else one.
abbrev pub HasArity : FilterOp → List String → Type 0
HasArity between vals = length vals ≡ 2
HasArity in_list vals = 0 < length vals
HasArity _ vals = length vals ≡ 1

-- `op` is one of the operators of the column named `column`.
pub record IsOffered (cols : List ColumnDef) (column : String) (op : FilterOp) : Type 0 where
  pub col : ColumnDef
  pub found : col_by_name cols column ≡ some col
  pub index : ℕ
  pub listed : get_elem? (ops_for col) index ≡ some op

pub record IsGood (cols : List ColumnDef) (f : ActiveFilter) : Type 0 where
  pub offered : IsOffered cols f.column f.op
  pub arity : HasArity f.op f.values
  pub no_blank : any (λ v. v == "") f.values ≡ false

abbrev pub on_column : String → ActiveFilter → Bool
on_column n f = f.column == n

-- No two filters are about one column.
abbrev pub HasOneEach : List ActiveFilter → Type 0
HasOneEach [] = Unit
HasOneEach (f ∷ fs) = (any (on_column f.column) fs ≡ false) × HasOneEach fs

-- While a range is drafted there are two inputs, else one.
abbrev pub HasInputs : FilterOp → List String → Type 0
HasInputs between vals = length vals ≡ 2
HasInputs _ vals = length vals ≡ 1

abbrev pub IsGoodDraft : List ColumnDef → Option Draft → List String → Type 0
IsGoodDraft cols none vals = Unit
IsGoodDraft cols (some d) vals = IsOffered cols d.column d.op × HasInputs d.op vals

pub record IsSound (cols : List ColumnDef) (b : Bar) : Type 0 where
  pub good : All (IsGood cols) b.filters
  pub one_each : HasOneEach b.filters
  pub draft : IsGoodDraft cols b.draft b.draft_vals

module _ (cols : List ColumnDef) (p : ActiveFilter → Bool) where
  pub All-filter : (fs : List ActiveFilter) → All (IsGood cols) fs → All (IsGood cols) (filter p fs)
  All-filter [] h = tt
  All-filter (f ∷ fs) (g, h) = elim (Bool-cases (p f)) [
    | inl kept ↦ rw kept (g, All-filter fs h)
    | inr gone ↦ rw gone (All-filter fs h)
  ]

  any-filter-false :
      (n : String) (fs : List ActiveFilter)
      → any (on_column n) fs ≡ false
      → any (on_column n) (filter p fs) ≡ false
  any-filter-false n [] h = refl
  any-filter-false n (f ∷ fs) h = ground (arith, any-filter-false n fs)

  pub HasOneEach-filter : (fs : List ActiveFilter) → HasOneEach fs → HasOneEach (filter p fs)
  HasOneEach-filter [] h = tt
  HasOneEach-filter (f ∷ fs) (h, k) = elim (Bool-cases (p f)) [
    | inl kept ↦ rw kept (any-filter-false f.column fs h, HasOneEach-filter fs k)
    | inr gone ↦ rw gone (HasOneEach-filter fs k)
  ]

All-concat :
    (cols : List ColumnDef) (fs : List ActiveFilter) (f : ActiveFilter)
    → All (IsGood cols) fs
    → IsGood cols f
    → All (IsGood cols) (fs ++ f ∷ [])
All-concat cols [] f h g = (g, tt)
All-concat cols (e ∷ fs) f (k, h) g = (k, All-concat cols fs f h g)

HasOneEach-concat :
    (fs : List ActiveFilter) (f : ActiveFilter)
    → HasOneEach fs
    → any (on_column f.column) fs ≡ false
    → HasOneEach (fs ++ f ∷ [])
HasOneEach-concat [] f h k = (refl, tt)
HasOneEach-concat (e ∷ fs) f (h, hs) k = (
  rw any-append (ground (arith, eq_iff f.column e.column, eq_iff e.column f.column)),
  HasOneEach-concat fs f hs (ground arith),
)

-- The values of a draft that `commit` accepts fit the operator.
HasArity-commit_values :
    (op : FilterOp) (vals : List String)
    → HasInputs op vals
    → eqb (length (commit_values op vals)) 0 ≡ false
    → HasArity op (commit_values op vals)
HasArity-commit_values in_list vals h k = ground arith
HasArity-commit_values between vals h k = unfold commit_values in h
HasArity-commit_values _ vals h k = unfold commit_values in h

module _ (cols : List ColumnDef) (b : Bar) (sound : IsSound cols b) (d : Draft)
    (drafted : IsOffered cols d.column d.op) (inputs : HasInputs d.op b.draft_vals) where
  abbrev sent : List String
  sent = commit_values d.op b.draft_vals

  close-IsSound :
      eqb (length sent) 0 ≡ false → any (λ v. v == "") sent ≡ false → IsSound cols (close b d sent)
  close-IsSound some_value no_blank = record {
    good =
        All-concat cols _ _ (All-filter cols (λ f. not (f.column == d.column)) b.filters sound.good)
          (record {
            offered = drafted;
            arity = HasArity-commit_values d.op b.draft_vals inputs some_value;
            no_blank = no_blank;
          });
    one_each =
        HasOneEach-concat _ _
          (HasOneEach-filter cols (λ f. not (f.column == d.column)) b.filters sound.one_each)
          (any-filter-not (on_column d.column) b.filters);
    draft = tt;
  }

  accept-IsSound : IsSound cols (commit_draft b (some d))
  unfolding commit_draft
  accept-IsSound = elim (Bool-cases (eqb (length sent) 0 || any (λ v. v == "") sent)) [
    | inl refused ↦ rw refused sound
    | inr accepted ↦ rw accepted (close-IsSound (ground arith) (ground arith))
  ]

pub commit-IsSound : (cols : List ColumnDef) (b : Bar) → IsSound cols b → IsSound cols (commit b)
unfolding commit
commit-IsSound cols b sound = by_draft b.draft sound.draft
  where
    by_draft :
        (o : Option Draft) → IsGoodDraft cols o b.draft_vals → IsSound cols (commit_draft b o)
    by_draft none h = unfold commit_draft in sound
    by_draft (some d) h = accept-IsSound cols b sound d h.0 h.1

pub HasInputs-blank_values : (op : FilterOp) → HasInputs op (blank_values op)
HasInputs-blank_values between = refl
HasInputs-blank_values _ = refl
