-- ===== src/TableForm/Refs/Card.antt =====
-- The card of a many-to-many relation in web/src/components/ColumnListEditor.tsx. `fetched` are the
-- columns of the definitions that the server has answered with, none of them before.
use Prim.Native.Char.{code}
use ku_crud.Base.{
  ℕ, String, Bool, true, false, not, ◌&&◌, ◌||◌, Option, none, some, List, [], ◌∷◌, map, ◌==◌, leb,
  eqb, if◌then◌else◌, or_else, any, filter, find,
}
use ku_crud.Base.Text.{template}
use ku_crud.Types.{ColumnDef, is_fk, TableDefPayload}
use ku_crud.TableForm.{FormCol}
use ku_crud.TableForm.Columns.{is_rel}
use ku_crud.TableForm.Refs.{filled, has_name, is_ref, toggle}

-- the props of the card of a relation
pub record Card : Type 0 where
  pub current_id : Option String
  pub candidates : List TableDefPayload
  pub fetched : String → List ColumnDef

-- `fkCols`, `srcOptions`, `tgtOptions`
unfoldable pub junction_fks : Card → FormCol → List ColumnDef
junction_fks k rel = elim rel.m2m_junction_def_id [
  | none ↦ []
  | some id ↦ if id == "" then [] else filter (λ c. is_fk c.field_type) (k.fetched id)
]

abbrev pub same_id : Option String → Option String → Bool
same_id none none = true
same_id (some a) (some b) = a == b
same_id _ _ = false

unfoldable pub src_options : Card → FormCol → List ColumnDef
unfolding junction_fks
src_options k rel = filter (λ c. same_id c.fk_table_def_id k.current_id) (junction_fks k rel)

unfoldable pub tgt_options : Card → FormCol → List ColumnDef
unfolding junction_fks
tgt_options k rel = filter (λ c. not (is_ref rel.m2m_junction_src_col c.name)) (junction_fks k rel)

-- `replace(/[^A-Za-z0-9_]/g, "_")`
abbrev is_word : ℕ → Bool
is_word k =
    (leb 48 k && leb k 57) || (leb 65 k && leb k 90) || (leb 97 k && leb k 122) || eqb k b'_'

unfoldable pub word_chars : String → String
word_chars String.[] = ""
word_chars (String.◌∷◌ c s) = String.◌∷◌ (if is_word (code c) then c else "_") (word_chars s)

abbrev def_of : Card → String → Option TableDefPayload
def_of k id = find (λ d. d.id == id) k.candidates

unfoldable pub junction_name : Card → String → String
unfolding word_chars
junction_name k id = elim (def_of k id) [ none ↦ "j" | some d ↦ word_chars d.table_name ]

unfoldable pub pick_junction : Card → String → FormCol → FormCol
unfolding junction_name
pick_junction k v rel = record rel {
  column = record rel.column {
    m2m_junction_def_id = some v;
    m2m_junction_src_col = none;
    m2m_junction_tgt_col = none;
    m2m_display_columns = some [];
    name = template ("m2m_" ∷ junction_name k v ∷ "_" ∷ rel.name ∷ []);
  };
}

unfoldable pub pick_src : String → FormCol → FormCol
pick_src v rel = record rel {
  column = record rel.column {
    m2m_junction_src_col = some v;
    m2m_junction_tgt_col = none;
    m2m_display_columns = some [];
  };
}

abbrev junction_table : Card → FormCol → String
junction_table k rel = elim rel.m2m_junction_def_id [
  | none ↦ "j"
  | some id ↦ elim (def_of k id) [ none ↦ "j" | some d ↦ d.table_name ]
]

unfoldable pub pick_tgt : Card → String → FormCol → FormCol
unfolding junction_fks
pick_tgt k v rel = record rel {
  column = record rel.column {
    m2m_junction_tgt_col = some v;
    m2m_display_columns = some [];
    name = template ("m2m_" ∷ junction_table k rel ∷ "_" ∷ v ∷ []);
    label = elim (find (λ c. c.name == v) (junction_fks k rel)) [
      | none ↦ rel.label
      | some c ↦ c.label
    ];
  };
}

-- the columns of the table that a relation leads to
abbrev target_id : Option ColumnDef → String
target_id none = ""
target_id (some c) = or_else c.fk_table_def_id ""

unfoldable pub shown_options : Card → FormCol → List ColumnDef
unfolding junction_fks
shown_options k rel = elim rel.m2m_junction_tgt_col [
  | none ↦ []
  | some v ↦
      let id = target_id (find (λ c. c.name == v) (junction_fks k rel)) in
      if id == "" then [] else k.fetched id
]

abbrev show_columns : List String → FormCol → FormCol
show_columns names rel = record rel {
  column = record rel.column { m2m_display_columns = some names };
}

unfoldable pub toggle_shown : String → FormCol → FormCol
unfolding toggle
toggle_shown name rel = show_columns (toggle name (or_else rel.m2m_display_columns [])) rel

unfoldable pub show_all : Card → FormCol → FormCol
unfolding shown_options
show_all k rel = show_columns (map (λ c. c.name) (shown_options k rel)) rel

unfoldable pub show_none : FormCol → FormCol
show_none rel = show_columns [] rel

unfoldable pub relabel : String → FormCol → FormCol
relabel text rel = record rel { column = record rel.column { label = text } }

-- `setRel`: the first relation of that name is changed
unfoldable pub set_rel : String → (FormCol → FormCol) → List FormCol → List FormCol
set_rel name f [] = []
set_rel name f (c ∷ cols) =
    let rest = set_rel name f cols in if is_rel name c then f c ∷ cols else c ∷ rest

pub data RelEdit : Type 0 where
  junction_picked : String → RelEdit
  src_picked : String → RelEdit
  tgt_picked : String → RelEdit
  shown_toggled : String → RelEdit
  all_shown : RelEdit
  none_shown : RelEdit
  label_typed : String → RelEdit

unfoldable pub rel_offered : Card → FormCol → RelEdit → Bool
unfolding src_options tgt_options shown_options
rel_offered k rel (junction_picked v) = any (λ d. d.id == v) k.candidates
rel_offered k rel (src_picked v) = filled rel.m2m_junction_def_id && has_name (src_options k rel) v
rel_offered k rel (tgt_picked v) = filled rel.m2m_junction_src_col && has_name (tgt_options k rel) v
rel_offered k rel (shown_toggled v) =
    filled rel.m2m_junction_tgt_col && has_name (shown_options k rel) v
rel_offered k rel all_shown = filled rel.m2m_junction_tgt_col
rel_offered k rel none_shown = filled rel.m2m_junction_tgt_col
rel_offered k rel (label_typed text) = true

abbrev pub rel_effect : Card → RelEdit → FormCol → FormCol
rel_effect k (junction_picked v) rel = pick_junction k v rel
rel_effect k (src_picked v) rel = pick_src v rel
rel_effect k (tgt_picked v) rel = pick_tgt k v rel
rel_effect k (shown_toggled v) rel = toggle_shown v rel
rel_effect k all_shown rel = show_all k rel
rel_effect k none_shown rel = show_none rel
rel_effect k (label_typed text) rel = relabel text rel

unfoldable pub rel_edits : Card → List RelEdit → FormCol → FormCol
unfolding rel_offered pick_junction pick_src pick_tgt toggle_shown show_all show_none relabel
rel_edits k [] rel = rel
rel_edits k (e ∷ es) rel = rel_edits k es (if rel_offered k rel e then rel_effect k e rel else rel)
