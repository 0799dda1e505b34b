-- ===== src/MetaTransfer/Laws.antt =====
-- What web/src/pages/MetaTransfer.tsx sends, after any clicks.
use mathlib.Core.Path.{subst}
use ku_crud.Base.{
  String, ◌≡◌, refl, ◌∙◌, inl, inr, Bool, true, false, not, ◌&&◌, ◌||◌, none, some, List, [], ◌∷◌,
  map, arith, ◌==◌, eq_iff, if◌then◌else◌, Bool-cases, or_else, any, all, filter,
}
use ku_crud.Base.Assoc.{Assoc, lookup, lookup-insert}
use ku_crud.Api.{ok, err}
use ku_crud.MetaTransfer.{
  DsItem, TblItem, PreviewRes, Transfer, Click, ds_mode, tbl_mode, password, groups, answer,
  initial_tbl, uploaded, selected, mode_of, datasources_of, tables_of, sent_datasources,
  sent_tables, SentDs, SentTbl, offered, effect, click, clicks, is_new, applied, set_ds_mode,
  set_tbl_mode, set_password, set_groups,
}

abbrev named : String → TblItem → Bool
named ref t = t.ref == ref

abbrev valid_named : String → TblItem → Bool
valid_named ref t = t.ref == ref && not t.invalid

lookup-initial_tbl :
    (ref : String) (ts : List TblItem) (m : Assoc String)
    → any (valid_named ref) ts ≡ false
    → lookup ref (initial_tbl ts m) ≡ (if any (named ref) ts then some "skip" else lookup ref m)
unfolding initial_tbl
lookup-initial_tbl ref [] m none_valid = refl
lookup-initial_tbl ref (t ∷ ts) m none_valid =
    lookup-initial_tbl ref ts _ (ground arith)
    ∙ rw lookup-insert (elim (Bool-cases (t.ref == ref)) [
      | inl here ↦
          let invalid : t.invalid ≡ true = ground arith in rw (here, invalid) (ground arith)
      | inr there ↦ rw there refl
    ])

-- A table that no valid one is named like is skipped, whatever is clicked.
record IsForced (ref : String) (res : PreviewRes) (s : Transfer) : Type 0 where
  same : s.preview ≡ some res
  forced : any (named ref) res.tables ≡ true → lookup ref s.tbl_mode ≡ some "skip"

effect-IsForced :
    (to_string : String → String) (ref : String) (res : PreviewRes) (k : Click) (s : Transfer)
    → any (valid_named ref) res.tables ≡ false
    → offered s k ≡ true
    → IsForced ref res s
    → IsForced ref res (effect to_string k s)
unfolding set_ds_mode set_password set_groups applied set_tbl_mode
effect-IsForced to_string ref res (ds_mode r v) s none_valid there h = record {
  same = h.same;
  forced = h.forced;
}
effect-IsForced to_string ref res (password r v) s none_valid there h = record {
  same = h.same;
  forced = h.forced;
}
effect-IsForced to_string ref res (groups b) s none_valid there h = record {
  same = h.same;
  forced = h.forced;
}
effect-IsForced to_string ref res (answer (ok a)) s none_valid there h = record {
  same = h.same;
  forced = h.forced;
}
effect-IsForced to_string ref res (answer (err e)) s none_valid there h = record {
  same = h.same;
  forced = h.forced;
}
effect-IsForced to_string ref res (tbl_mode r v) s none_valid there h =
    let offer : any (valid_named r) res.tables ≡ true =
      subst (λ o. any (valid_named r) (tables_of o) ≡ true) h.same (unfold offered in there) in
    record {
      same = h.same;
      forced = λ named_ref. rw lookup-insert (elim (Bool-cases (r == ref)) [
        | inr other ↦ rw other (h.forced named_ref)
        | inl mine ↦
            let valid : any (valid_named ref) res.tables ≡ true =
              subst (λ w. any (valid_named w) res.tables ≡ true) ((eq_iff r ref).0 mine) offer in
            absurd (ground arith)
      ]);
    }

click-IsForced :
    (to_string : String → String) (ref : String) (res : PreviewRes) (k : Click) (s : Transfer)
    → any (valid_named ref) res.tables ≡ false
    → IsForced ref res s
    → IsForced ref res (click to_string k s)
unfolding click
click-IsForced to_string ref res k s none_valid h = elim (Bool-cases (offered s k)) [
  | inl there ↦ rw there (effect-IsForced to_string ref res k s none_valid there h)
  | inr nothing ↦ rw nothing h
]

clicks-IsForced :
    (to_string : String → String) (ref : String) (res : PreviewRes) (ks : List Click) (s : Transfer)
    → any (valid_named ref) res.tables ≡ false
    → IsForced ref res s
    → IsForced ref res (clicks to_string ks s)
unfolding clicks
clicks-IsForced to_string ref res [] s none_valid h = h
clicks-IsForced to_string ref res (k ∷ ks) s none_valid h =
    clicks-IsForced to_string ref res ks (click to_string k s) none_valid
      (click-IsForced to_string ref res k s none_valid h)

uploaded-IsForced :
    (to_string : String → String) (ref : String) (res : PreviewRes) (s : Transfer)
    → any (valid_named ref) res.tables ≡ false
    → IsForced ref res (uploaded to_string (ok res) s)
unfolding uploaded
uploaded-IsForced to_string ref res s none_valid = record {
  same = refl;
  forced = λ named_ref. lookup-initial_tbl ref res.tables [] none_valid ∙ rw named_ref refl;
}

-- the tables that are sent under a name, where the name is skipped or no table has it
none_sent :
    (ref : String) (ts : List TblItem) (m : Assoc String)
    → (any (named ref) ts ≡ true → lookup ref m ≡ some "skip")
    → any
        (λ (x : SentTbl). x.ref == ref)
        (map
          (λ (t : TblItem). record { ref = t.ref; mode = mode_of t.ref m })
          (filter (λ t. selected t.ref m) ts))
      ≡ false
none_sent ref [] m forced = refl
none_sent ref (t ∷ ts) m forced = elim (Bool-cases (t.ref == ref)) [
  | inl here ↦
      let skipped : lookup ref m ≡ some "skip" = forced (rw here refl) in
      let out : selected t.ref m ≡ false = rw ((eq_iff t.ref ref).0 here, skipped) refl in
      rw out (none_sent ref ts m (λ named_ref. skipped))
  | inr there ↦
      let rest = none_sent ref ts m (λ named_ref. forced (rw (there, named_ref) refl)) in
      elim (Bool-cases (selected t.ref m)) [ inl e ↦ rw (e, there) rest | inr e ↦ rw e rest ]
]

-- After a file has been looked at and whatever is then clicked and answered, a table that is invalid
-- is not sent, where no valid table of the file has its name.
pub sent_tables-invalid :
    (to_string : String → String) (ref : String) (res : PreviewRes) (ks : List Click) (s : Transfer)
    → any (λ t. t.ref == ref && not t.invalid) res.tables ≡ false
    → any (λ x. x.ref == ref) (sent_tables (clicks to_string ks (uploaded to_string (ok res) s)))
      ≡ false
unfolding sent_tables
sent_tables-invalid to_string ref res ks s none_valid =
    let h =
      clicks-IsForced to_string ref res ks (uploaded to_string (ok res) s) none_valid
        (uploaded-IsForced to_string ref res s none_valid) in
    rw h.same (none_sent ref res.tables _ h.forced)

-- No password is kept for a name that no new data source has, whatever is clicked.
record IsBlank (ref : String) (res : PreviewRes) (s : Transfer) : Type 0 where
  same : s.preview ≡ some res
  blank : lookup ref s.ds_password ≡ none

abbrev new_named : String → DsItem → Bool
new_named ref d = d.ref == ref && is_new d

effect-IsBlank :
    (to_string : String → String) (ref : String) (res : PreviewRes) (k : Click) (s : Transfer)
    → any (new_named ref) res.datasources ≡ false
    → offered s k ≡ true
    → IsBlank ref res s
    → IsBlank ref res (effect to_string k s)
unfolding set_ds_mode set_password set_groups applied set_tbl_mode
effect-IsBlank to_string ref res (ds_mode r v) s none_new there h = record {
  same = h.same;
  blank = h.blank;
}
effect-IsBlank to_string ref res (tbl_mode r v) s none_new there h = record {
  same = h.same;
  blank = h.blank;
}
effect-IsBlank to_string ref res (groups b) s none_new there h = record {
  same = h.same;
  blank = h.blank;
}
effect-IsBlank to_string ref res (answer (ok a)) s none_new there h = record {
  same = h.same;
  blank = h.blank;
}
effect-IsBlank to_string ref res (answer (err e)) s none_new there h = record {
  same = h.same;
  blank = h.blank;
}
effect-IsBlank to_string ref res (password r v) s none_new there h =
    let offer : any (new_named r) res.datasources ≡ true =
      subst (λ o. any (new_named r) (datasources_of o) ≡ true) h.same (unfold offered in there) in
    record {
      same = h.same;
      blank = rw lookup-insert (elim (Bool-cases (r == ref)) [
        | inr other ↦ rw other h.blank
        | inl mine ↦
            let new : any (new_named ref) res.datasources ≡ true =
              subst (λ w. any (new_named w) res.datasources ≡ true) ((eq_iff r ref).0 mine) offer in
            absurd (ground arith)
      ]);
    }

clicks-IsBlank :
    (to_string : String → String) (ref : String) (res : PreviewRes) (ks : List Click) (s : Transfer)
    → any (new_named ref) res.datasources ≡ false
    → IsBlank ref res s
    → IsBlank ref res (clicks to_string ks s)
unfolding clicks click
clicks-IsBlank to_string ref res [] s none_new h = h
clicks-IsBlank to_string ref res (k ∷ ks) s none_new h =
    clicks-IsBlank to_string ref res ks (click to_string k s) none_new
      (elim (Bool-cases (offered s k)) [
        | inl there ↦ rw there (effect-IsBlank to_string ref res k s none_new there h)
        | inr nothing ↦ rw nothing h
      ])

no_password :
    (ref : String) (ds : List DsItem) (modes passwords : Assoc String)
    → lookup ref passwords ≡ none
    → all
        (λ (x : SentDs). not (x.ref == ref) || x.password == "")
        (map
          (λ (d : DsItem). record {
            ref = d.ref;
            mode = mode_of d.ref modes;
            password = or_else (lookup d.ref passwords) "";
          })
          (filter (λ d. selected d.ref modes) ds))
      ≡ true
no_password ref [] modes passwords blank = refl
no_password ref (d ∷ ds) modes passwords blank = elim (Bool-cases (selected d.ref modes)) [
  | inr out ↦ rw out (no_password ref ds modes passwords blank)
  | inl e ↦
      rw (e, no_password ref ds modes passwords blank)
        (elim (Bool-cases (d.ref == ref)) [
          | inl here ↦ rw ((eq_iff d.ref ref).0 here, blank) (ground arith)
          | inr there ↦ rw there refl
        ])
]

-- After a file has been looked at and whatever is then clicked and answered, no password is sent for a
-- data source where no new one of the file has its name, not even one typed for an earlier file.
pub sent_datasources-password :
    (to_string : String → String) (ref : String) (res : PreviewRes) (ks : List Click) (s : Transfer)
    → any (λ d. d.ref == ref && is_new d) res.datasources ≡ false
    → all
        (λ x. not (x.ref == ref) || x.password == "")
        (sent_datasources (clicks to_string ks (uploaded to_string (ok res) s)))
      ≡ true
unfolding sent_datasources
sent_datasources-password to_string ref res ks s none_new =
    let h =
      clicks-IsBlank to_string ref res ks (uploaded to_string (ok res) s) none_new
        (unfold uploaded in record { same = refl; blank = refl }) in
    rw h.same (no_password ref res.datasources _ _ h.blank)
