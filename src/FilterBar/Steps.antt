-- ===== src/FilterBar/Steps.antt =====
-- What a user does to the bar of web/src/components/FilterBar.tsx, as a step relation.
use mathlib.Core.Option.{some-injective}
use mathlib.Core.Path.{subst}
use ku_crud.Base.{
  ℕ, zero, suc, String, ◌≡◌, refl, sym, ◌∙◌, inl, inr, Bool, false, not, Option, none, some, List,
  [], ◌∷◌, arith, ◌==◌, Bool-cases, Option-cases, get_elem?, filter,
}
use ku_crud.Types.{ColumnDef, FieldType, boolean, enum, is_boolean, is_enum}
use ku_crud.FilterBar.{
  FilterOp, between, ops_for, ops_of, start, add_first, pick_found, pick_draft_op, Draft, Bar,
  col_by_name, filterable, add, commit, remove, pick_column, pick_op, cancel, type_value,
}
use ku_crud.FilterBar.Sound.{
  IsOffered, HasInputs, IsGoodDraft, IsSound, All-filter, HasOneEach-filter, commit-IsSound,
  HasInputs-blank_values,
}

-- What a user can do: the buttons and menus are guarded as the page guards them, a menu of operators
-- lists those of the draft's column, and a typed value goes into an input of the draft's operator.
pub data Step (cols : List ColumnDef) : Bar → Bar → Type 0 where
  added : (b b' : Bar) → add cols b ≡ some b' → Step cols b b'
  picked : (v : String) (b b' : Bar) → pick_column cols v b ≡ some b' → Step cols b b'
  switched :
      (op : FilterOp) (b : Bar) (d : Draft)
      → b.draft ≡ some d
      → IsOffered cols d.column op
      → Step cols b (pick_op op b)
  typed :
      (c : ColumnDef) (d : Draft) (second : Bool) (s : String) (b : Bar)
      → b.draft ≡ some d
      → col_by_name cols d.column ≡ some c
      → Step cols b (record b { draft_vals = type_value c d.op second s b.draft_vals })
  committed : (b : Bar) → Step cols b (commit b)
  cancelled : (b : Bar) → Step cols b (cancel b)
  removed : (n : String) (b : Bar) → Step cols b (remove n b)

pub data Reach (cols : List ColumnDef) (b : Bar) : Bar → Type 0 where
  here : Reach cols b b
  next : {c d : Bar} → Reach cols b c → Step cols c d → Reach cols b d

-- Every column is the one that its name finds, as it is where the names are distinct.
abbrev pub IsFoundByName : List ColumnDef → Type 0
IsFoundByName cols =
    (i : ℕ) (c : ColumnDef) → get_elem? cols i ≡ some c → col_by_name cols c.name ≡ some c

first_op-HasInputs :
    (t : FieldType) (op : FilterOp) → get_elem? (ops_of t) 0 ≡ some op → HasInputs op ("" ∷ [])
first_op-HasInputs boolean op h = ground arith
first_op-HasInputs _ op h = ground arith

-- A range is offered only where there are two inputs for it.
between-ops_of :
    (t : FieldType) (i : ℕ)
    → get_elem? (ops_of t) i ≡ some between
    → (is_boolean t ≡ false) × (is_enum t ≡ false)
between-ops_of boolean zero h = cc
between-ops_of boolean (suc i) h = cc
between-ops_of enum zero h = cc
between-ops_of enum (suc zero) h = cc
between-ops_of enum (suc (suc zero)) h = cc
between-ops_of enum (suc (suc (suc i))) h = cc
between-ops_of _ i h = (refl, refl)

HasInputs-type_value :
    (c : ColumnDef) (op : FilterOp) (second : Bool) (s : String) (vals : List String) (i : ℕ)
    → get_elem? (ops_for c) i ≡ some op
    → HasInputs op (type_value c op second s vals)
HasInputs-type_value c between second s vals i h =
    let (not_boolean, not_enum) = between-ops_of c.field_type i (unfold ops_for in h) in
    unfold type_value in ground arith
HasInputs-type_value c _ second s vals i h = unfold type_value in ground arith

get_elem?-filter :
    (p : ColumnDef → Bool) (l : List ColumnDef) {c : ColumnDef} {rest : List ColumnDef}
    → filter p l ≡ c ∷ rest
    → (i : ℕ) × (get_elem? l i ≡ some c)
get_elem?-filter p [] h = cc
get_elem?-filter p (x ∷ l) {rest} h = elim (Bool-cases (p x)) [
  | inl kept ↦ (0, ground arith)
  | inr gone ↦ let (i, e) = get_elem?-filter p l {rest = rest} (ground arith) in (suc i, e)
]

started :
    (v : String) (op : FilterOp) (b : Bar) {b' : Bar}
    → start v (some op) b ≡ some b'
    → record b { draft = some (record { column = v; op = op }); draft_vals = "" ∷ [] } ≡ b'
unfolding start
started v op b h = some-injective _ _ h

module _ (cols : List ColumnDef) (b : Bar) (sound : IsSound cols b) where
  start-IsSound :
      (v : String) (c : ColumnDef) {b' : Bar}
      → col_by_name cols v ≡ some c
      → start v (get_elem? (ops_for c) 0) b ≡ some b'
      → IsSound cols b'
  start-IsSound v c {b'} found e = elim (Option-cases (get_elem? (ops_for c) 0)) [
    | inl nothing ↦ unfold start in cc (rw nothing at e)
    | inr (op, first) ↦
        let drafted : IsGoodDraft cols (some (record { column = v; op = op })) ("" ∷ []) = (
          record { col = c; found = found; index = 0; listed = first },
          first_op-HasInputs c.field_type op (unfold ops_for in first),
        ) in
        let made : start v (some op) b ≡ some b' = rw first at e in
        subst (IsSound cols) (started v op b made)
          (record { good = sound.good; one_each = sound.one_each; draft = drafted })
  ]

  add-IsSound : {b' : Bar} → IsFoundByName cols → add cols b ≡ some b' → IsSound cols b'
  unfolding add
  add-IsSound {b'} unique e = by_list (filterable cols) refl e
    where
      by_list :
          (l : List ColumnDef) → filterable cols ≡ l → add_first l b ≡ some b' → IsSound cols b'
      by_list [] same e = cc
      by_list (c ∷ rest) same e =
          let (i, member) = get_elem?-filter _ cols (unfold filterable in same) in
          start-IsSound c.name c (unique i c member) e

  pick_column-IsSound : (v : String) {b' : Bar} → pick_column cols v b ≡ some b' → IsSound cols b'
  unfolding pick_column
  pick_column-IsSound v {b'} e = by_found (col_by_name cols v) refl e
    where
      by_found :
          (o : Option ColumnDef)
          → col_by_name cols v ≡ o
          → pick_found v o b ≡ some b'
          → IsSound cols b'
      by_found none same e = cc
      by_found (some c) same e = start-IsSound v c same e

  pick_op-IsSound :
      (op : FilterOp) (d : Draft)
      → b.draft ≡ some d
      → IsOffered cols d.column op
      → IsSound cols (pick_op op b)
  unfolding pick_op
  pick_op-IsSound op d e offered =
      subst (λ o. IsSound cols (pick_draft_op op b o)) (sym e)
        (record {
          good = sound.good;
          one_each = sound.one_each;
          draft = (
            record {
              col = offered.col;
              found = offered.found;
              index = offered.index;
              listed = offered.listed;
            },
            HasInputs-blank_values op,
          );
        })

  type_value-IsSound :
      (c : ColumnDef) (d : Draft) (second : Bool) (s : String)
      → b.draft ≡ some d
      → col_by_name cols d.column ≡ some c
      → IsSound cols (record b { draft_vals = type_value c d.op second s b.draft_vals })
  type_value-IsSound c d second s e found =
      let (offered, inputs) = subst (λ o. IsGoodDraft cols o b.draft_vals) e sound.draft in
      let same : offered.col ≡ c = some-injective _ _ (sym offered.found ∙ found) in
      let fits : HasInputs d.op (type_value c d.op second s b.draft_vals) =
        subst (λ x. HasInputs d.op (type_value x d.op second s b.draft_vals)) same
          (HasInputs-type_value offered.col d.op second s b.draft_vals offered.index
            offered.listed) in
      record {
        good = sound.good;
        one_each = sound.one_each;
        draft =
            subst (λ o. IsGoodDraft cols o (type_value c d.op second s b.draft_vals)) (sym e)
              (offered, fits);
      }

module _ (cols : List ColumnDef) (unique : IsFoundByName cols) where
  Step-IsSound : {b c : Bar} → Step cols b c → IsSound cols b → IsSound cols c
  Step-IsSound (added b b' e) sound = add-IsSound cols b sound unique e
  Step-IsSound (picked v b b' e) sound = pick_column-IsSound cols b sound v e
  Step-IsSound (switched op b d e offered) sound = pick_op-IsSound cols b sound op d e offered
  Step-IsSound (typed c d second s b e found) sound =
      type_value-IsSound cols b sound c d second s e found
  Step-IsSound (committed b) sound = commit-IsSound cols b sound
  Step-IsSound (cancelled b) sound = record {
    good = sound.good;
    one_each = sound.one_each;
    draft = tt;
  }
  Step-IsSound (removed n b) sound = record {
    good = unfold remove in All-filter cols (λ f. not (f.column == n)) b.filters sound.good;
    one_each =
        unfold remove in HasOneEach-filter cols (λ f. not (f.column == n)) b.filters sound.one_each;
    draft = unfold remove in sound.draft;
  }

  -- Where every column is found by its name, whatever the user does to a bar whose filters are
  -- sound, they stay sound: each is about its own column, which offers the operator, it has as many
  -- values as the operator needs (two for a range, one or more for a list, else one), and none of
  -- them is empty.
  pub Reach-IsSound : {b c : Bar} → IsSound cols b → Reach cols b c → IsSound cols c
  Reach-IsSound sound here = sound
  Reach-IsSound sound (next r s) = Step-IsSound s (Reach-IsSound sound r)
