-- ===== src/Kanban/Board.antt =====
-- The drop of a card in web/src/components/views/KanbanView.tsx.
use ku_crud.Base.{
  filter_cong, String, ◌≡◌, refl, sym, ap, ◌+◌, ◌-◌, List, map, ◌∙◌, ◌≢◌, inl, inr, Bool, not,
  Option, none, some, [], arith, ◌∷◌, ◌==◌, eq_iff, if◌then◌else◌, Bool-cases, Option-cases, filter,
}
use ku_crud.Base.Text.{join}
use ku_crud.Base.Assoc.{insert, lookup, lookup-insert}
use ku_crud.Value.{Row, cell, null, str, is_nullish, to_text}
use ku_crud.Kanban.{
  Props, PerCol, ColState, key_of, joined, without_card, adjust, moved, taken_from, put_into,
  board_text, dropped,
}

-- the key values of a row as one text, with bars between them and nothing for a missing value
abbrev pub key_text : Props → Row → String
key_text p r =
    join "|"
      (map (λ k. if is_nullish (cell r k) then "" else to_text (cell r k)) p.table.key_columns)

abbrev pub same_key : Props → Row → Row → Bool
same_key p row r = key_text p r == key_text p row

-- the value of a row in the column of the board
abbrev pub home : Props → Row → String
home p row =
    if is_nullish (cell row p.board_col.name) then "" else to_text (cell row p.board_col.name)

-- One column after the drop, from what it was.
abbrev pub after_drop : Props → Row → String → String → Option ColState → Option ColState
after_drop p row target v none = none
after_drop p row target v (some st) =
    let others : List Row = filter (λ r. not (same_key p row r)) st.rows in
    if target == v
    then some (record st {
      rows = insert p.board_col.name (if target == "" then null else str target) row ∷ others;
      total = st.total + 1;
    })
    else if home p row == v
    then some (record st { rows = others; total = st.total - 1 })
    else some (record st { rows = others })

abbrev same_card : Props → Row → Row → Bool
same_card p row r = joined (key_of p r) == joined (key_of p row)

abbrev stripped : Props → Row → Option ColState → Option ColState
stripped p row none = none
stripped p row (some st) = some (record st { rows = filter (λ r. not (same_card p row r)) st.rows })

abbrev mapped : (ColState → ColState) → Option ColState → Option ColState
mapped f none = none
mapped f (some st) = some (f st)

lookup-without_card :
    (p : Props) (row : Row) (v : String) (m : PerCol)
    → lookup v (without_card p row m) ≡ stripped p row (lookup v m)
unfolding lookup
lookup-without_card p row v [] = refl
lookup-without_card p row v ((k, st) ∷ m) = elim (Bool-cases (k == v)) [
  | inl here ↦ rw here
  | inr there ↦ rw there (lookup-without_card p row v m)
]

lookup-adjust :
    (v w : String) (f : ColState → ColState) (m : PerCol)
    → lookup w (adjust v f m) ≡ (if v == w then mapped f (lookup w m) else lookup w m)
lookup-adjust v w f m = elim (Option-cases (lookup v m)) [
  | inl missing ↦
      rw (missing, adjust)
        (elim (Bool-cases (v == w)) [
          | inl same ↦ rw (same, ← (eq_iff v w).0 same, missing)
          | inr other ↦ rw other
        ])
  | inr (st, found) ↦
      rw (found, adjust, lookup-insert)
        (elim (Bool-cases (v == w)) [
          | inl same ↦ rw (same, ← (eq_iff v w).0 same, found)
          | inr other ↦ rw other
        ])
]

abbrev changed : Props → Row → String → String → Option ColState → Option ColState
changed p row target v o =
    if target == v
    then mapped (put_into (moved p row target)) (stripped p row o)
    else if board_text (cell row p.board_col.name) == v
    then mapped taken_from (stripped p row o)
    else stripped p row o

joined-key_of : (p : Props) (r : Row) → joined (key_of p r) ≡ key_text p r
unfolding key_of
joined-key_of p r = ap (join "|") (texts p.table.key_columns)
  where
    texts :
        (ks : List String)
        → map (λ v. if is_nullish v then "" else to_text v) (map (λ k. cell r k) ks)
          ≡ map (λ k. if is_nullish (cell r k) then "" else to_text (cell r k)) ks
    texts [] = refl
    texts (k ∷ ks) = rw (texts ks) refl

other_rows :
    (p : Props) (row : Row) (rows : List Row)
    → filter (λ r. not (same_card p row r)) rows ≡ filter (λ r. not (same_key p row r)) rows
other_rows p row rows = filter_cong _ _ rows (λ r. rw (joined-key_of p r, joined-key_of p row) refl)

changed-after_drop :
    (p : Props) (row : Row) (target v : String) (o : Option ColState)
    → changed p row target v o ≡ after_drop p row target v o
changed-after_drop p row target v none = ground arith
changed-after_drop p row target v (some st) =
    rw (other_rows p row st.rows) (elim (Bool-cases (target == v)) [
      | inl same ↦ rw same refl
      | inr other ↦ rw other (elim (Bool-cases (home p row == v)) [
        | inl here ↦ rw here refl
        | inr elsewhere ↦ rw elsewhere refl
      ])
    ])

lookup-changed :
    (p : Props) (row : Row) (target v : String) (per_col : PerCol)
    → board_text (cell row p.board_col.name) ≢ target
    → lookup v (dropped p row target per_col) ≡ changed p row target v (lookup v per_col)
unfolding dropped
lookup-changed p row target v per_col apart =
    lookup-adjust target v (put_into (moved p row target)) _
    ∙ rw (lookup-adjust, lookup-without_card)
        (elim (Bool-cases (target == v)) [
          | inr other ↦ rw other
          | inl same ↦ elim (Bool-cases (board_text (cell row p.board_col.name) == v)) [
            | inr elsewhere ↦ rw (same, elsewhere)
            | inl here ↦ absurd (apart ((eq_iff _ v).0 here ∙ sym ((eq_iff target v).0 same)))
          ]
        ])

-- After a drop into another column every column has lost the rows whose key values, joined with bars,
-- read as the card's; the target has the card on top, with its value changed to the target's, and
-- counts one row more; the column that the card came from counts one less, if not none; and no column
-- changes otherwise.
pub lookup-dropped :
    (p : Props) (row : Row) (target v : String) (per_col : PerCol)
    → home p row ≢ target
    → lookup v (dropped p row target per_col) ≡ after_drop p row target v (lookup v per_col)
lookup-dropped p row target v per_col apart =
    lookup-changed p row target v per_col apart
    ∙ changed-after_drop p row target v (lookup v per_col)
