-- ===== src/Data/Bulk.antt =====
-- Deleting rows, alone and in bulk, and the custom actions of web/src/pages/Data.tsx.
pub mod Laws
pub mod Buttons
use ku_crud.Base.{
  ℕ, zero, suc, ◌+◌, ◌-◌, String, Bool, true, false, not, ◌&&◌, Option, none, some, List, [], ◌∷◌,
  ◌++◌, map, ◌==◌, ltb, leb, eqb, if◌then◌else◌, or_else, is_some, length, take, drop, any, all,
  filter,
}
use ku_crud.Base.Assoc.{Assoc}
use ku_crud.Base.Text.{show, join, template}
use ku_crud.Value.{Value, Row, cell, str, obj, arr, fields, values, is_nullish}
use ku_crud.Types.{
  Permissions, TableDefPayload, CustomAction, ActionGrant, read, create, update, delete,
  ActionsConfig, SourceType, query,
}
use ku_crud.Api.{Json, Request, Method, post, request, json, no_body, Result, ok, err, Failure}
use ku_crud.RowKey.{encode_row_key}
use ku_crud.Data.Session.{Session}

-- `rowKey`: the key values of a row, none where one of them is null or missing
unfoldable pub row_key : List String → Row → Option (List Value)
unfolding cell
row_key key_cols row =
    let vals = map (λ c. cell row c) key_cols in if any is_nullish vals then none else some vals

abbrev encoded : Json → Option (List Value) → String
encoded js none = ""
encoded js (some key) = encode_row_key js key

-- `pageKeys`: the keys of the rows of the page that have one
unfoldable pub page_keys : Json → List String → List Row → List String
unfolding row_key encode_row_key
page_keys js key_cols rows =
    filter (λ k. not (k == "")) (map (λ row. encoded js (row_key key_cols row)) rows)

unfoldable pub has : String → List String → Bool
has k sel = any (λ x. x == k) sel

abbrev insert_key : String → List String → List String
insert_key k sel = if any (λ x. x == k) sel then sel else sel ++ k ∷ []

abbrev erase_key : String → List String → List String
erase_key k sel = filter (λ x. not (x == k)) sel

unfoldable pub toggle_sel : String → List String → List String
unfolding has
toggle_sel k sel = if has k sel then erase_key k sel else insert_key k sel

abbrev pub all_page_selected : List String → List String → Bool
all_page_selected keys sel = ltb 0 (length keys) && all (λ k. any (λ x. x == k) sel) keys

-- the checkbox of the header
unfoldable pub select_page : Bool → List String → List String → List String
select_page on [] sel = sel
select_page on (k ∷ keys) sel =
    select_page on keys (if on then insert_key k sel else erase_key k sel)

pub record BulkFailure : Type 0 where
  pub key : String
  pub code : String
  pub message : String

pub record BulkRes : Type 0 where
  pub deleted : ℕ
  pub failures : List BulkFailure

unfoldable pub bulk_request : String → List String → Request
bulk_request name keys =
    request post (template ("/data/" ∷ name ∷ "/rows/bulk-delete" ∷ []))
      (json (obj (fields (("keys", arr (values (map str keys))) ∷ []))))

-- What the loop over the chunks has sent and collected; `result` is none while it goes on, and the
-- exception where a request failed.
pub record BulkRun : Type 0 where
  pub sent : List Request
  pub deleted : ℕ
  pub failed : List BulkFailure
  pub error : Option Failure

module _ (name : String) (server : Request → Result BulkRes) where
  abbrev absorb : BulkRun → Request → Result BulkRes → BulkRun
  absorb run r (ok res) = record {
    sent = run.sent ++ r ∷ [];
    deleted = run.deleted + res.deleted;
    failed = run.failed ++ res.failures;
    error = none;
  }
  absorb run r (err e) = record run { sent = run.sent ++ r ∷ []; error = some e }

  -- `for (let i = 0; i < keys.length; i += 500)`, with as many rounds at most
  unfoldable pub delete_chunks : (rounds : ℕ) → List String → BulkRun → BulkRun
  unfolding bulk_request
  delete_chunks zero keys run = run
  delete_chunks (suc rounds) keys run =
      let r = bulk_request name (take 500 keys) in
      let next = absorb run r (server r) in
      let rest = delete_chunks rounds (drop 500 keys) next in
      if eqb (length keys) 0 then run else if is_some next.error then next else rest

  -- There is a round for each key, since each takes one at least.
  unfoldable pub bulk_delete : List String → BulkRun
  unfolding delete_chunks
  bulk_delete keys =
      delete_chunks (length keys) keys
        (record { sent = []; deleted = 0; failed = []; error = none })

abbrev first_message : BulkFailure → String
first_message f = template ("[" ∷ f.code ∷ "] " ∷ f.message ∷ [])

-- the message and the state after a confirmed bulk delete; `t` translates, `title` is `humanError`
unfoldable pub after_bulk :
    (t : String → Assoc String → String) → (title : Failure → String) → BulkRun → Session → Session
unfolding show join
after_bulk t title run s = elim run.error [
  | some e ↦ record s { bulk_msg = title e }
  | none ↦ record s {
    bulk_msg =
        if ltb 0 (length run.failed)
        then template (
            t "data.bulkPartial"
              (("deleted", show run.deleted) ∷ ("failed", show (length run.failed)) ∷ [])
            ∷ join "; " (map first_message (take 5 run.failed))
            ∷ (if ltb 5 (length run.failed)
                then t "data.bulkMore" (("count", show (length run.failed - 5)) ∷ [])
                else "")
            ∷ [])
        else t "data.bulkDeleted" (("count", show run.deleted) ∷ []);
    sel = [];
    data_version = s.data_version + 1;
  }
]

-- `perms[a.grant]`
unfoldable pub permits : Permissions → ActionGrant → Bool
permits p read = p.read
permits p create = p.create
permits p update = p.update
permits p delete = p.delete

-- `list.sort((a, b) => a.order - b.order)`, which is stable
unfoldable pub insert_action : CustomAction → List CustomAction → List CustomAction
insert_action a [] = a ∷ []
insert_action a (b ∷ l) = if leb a.order b.order then a ∷ b ∷ l else b ∷ insert_action a l

unfoldable pub sort_actions : List CustomAction → List CustomAction
unfolding insert_action
sort_actions [] = []
sort_actions (a ∷ l) = insert_action a (sort_actions l)

abbrev is_table : Option SourceType → Bool
is_table (some query) = false
is_table _ = true

abbrev custom_of : Option ActionsConfig → List CustomAction
custom_of none = []
custom_of (some c) = or_else c.custom []

-- the buttons of a row: those of a physical table whose grant the user has, in their order
unfoldable pub custom_actions : TableDefPayload → List CustomAction
unfolding sort_actions permits
custom_actions def =
    filter (λ a. permits def.permissions a.grant)
      (sort_actions (filter (λ a. is_table def.source_type) (custom_of def.actions)))

unfoldable pub action_request : Json → String → List Value → CustomAction → Request
unfolding encode_row_key
action_request js name key act =
    request post (template ("/data/" ∷ name ∷ "/rows/" ∷ encode_row_key js key ∷ "/action" ∷ []))
      (json (obj (fields (("actionId", str act.id) ∷ []))))

unfoldable pub delete_request : Json → String → List Value → Request
unfolding encode_row_key
delete_request js name key =
    request Method.delete (template ("/data/" ∷ name ∷ "/rows/" ∷ encode_row_key js key ∷ []))
      no_body
