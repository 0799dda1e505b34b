-- ===== src/Value.antt =====
-- The values of JavaScript that rows, requests and configurations hold (`unknown` in lib/types.ts).
-- A number is carried as the text `String(n)`, which names it: the client compares numbers and
-- prints them, and leaves arithmetic on them to the server. Arrays and objects have list types of
-- their own. `undef` is `undefined`, as a missing property reads.
use ku_crud.Base.{
  String, ◌≡◌, refl, Bool, true, false, Option, none, some, List, [], ◌∷◌, if◌then◌else◌,
}
use ku_crud.Base.Assoc.{Assoc, lookup}
use ku_crud.Base.Text.{join}

mutual
  pub data Value : Type 0 where
    undef : Value
    null : Value
    bool : Bool → Value
    num : String → Value
    str : String → Value
    arr : Values → Value
    obj : Fields → Value

  pub data Values : Type 0 where
    nil : Values
    cons : Value → Values → Values

  pub data Fields : Type 0 where
    end : Fields
    field : String → Value → Fields → Fields

abbrev pub values : List Value → Values
values [] = nil
values (v ∷ vs) = cons v (values vs)

abbrev pub items : Values → List Value
items nil = []
items (cons v vs) = v ∷ items vs

abbrev pub fields : Assoc Value → Fields
fields [] = end
fields ((k, v) ∷ m) = field k v (fields m)

abbrev pub entries : Fields → Assoc Value
entries end = []
entries (field k v m) = (k, v) ∷ entries m

-- A row as the server sends it (`Row` of lib/types.ts), and `row[k]`.
abbrev pub Row : Type 0
Row = Assoc Value

abbrev or_undef : Option Value → Value
or_undef none = undef
or_undef (some v) = v

unfoldable pub cell : Row → String → Value
unfolding lookup
cell row k = or_undef (lookup k row)

-- `v === null || v === undefined`
abbrev pub is_nullish : Value → Bool
is_nullish undef = true
is_nullish null = true
is_nullish _ = false

abbrev bool_text : Bool → String
bool_text true = "true"
bool_text false = "false"

-- `String(v)`; an element of an array that is null or undefined prints as nothing
unfoldable mutual
  pub to_text : Value → String
  to_text undef = "undefined"
  to_text null = "null"
  to_text (bool b) = bool_text b
  to_text (num n) = n
  to_text (str s) = s
  to_text (arr vs) = join "," (item_texts vs)
  to_text (obj m) = "[object Object]"

  pub item_texts : Values → List String
  item_texts nil = []
  item_texts (cons v vs) = (if is_nullish v then "" else to_text v) ∷ item_texts vs

to_text_test : to_text (arr (cons (num "1") (cons null (cons (str "x") nil)))) ≡ "1,,x"
unfolding to_text join
to_text_test = refl

entries-fields : (m : Assoc Value) → entries (fields m) ≡ m
entries-fields [] = refl
entries-fields ((k, v) ∷ m) = λ i. (k, v) ∷ entries-fields m i

pub items-values : (vs : List Value) → items (values vs) ≡ vs
items-values [] = refl
items-values (v ∷ vs) = λ i. v ∷ items-values vs i
