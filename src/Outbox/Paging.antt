-- ===== src/Outbox/Paging.antt =====
-- The pages of web/src/pages/HooksOutbox.tsx. The list of a status has `total status` entries.
use ku_crud.Base.{
  ℕ, zero, suc, ◌+◌, ◌*◌, ◌/◌, ◌≤◌, ◌<◌, String, ◌≡◌, refl, ap, ◌∙◌, inl, inr, false, some, List,
  [], ◌∷◌, arith, ◌==◌, leb, if◌then◌else◌, Bool-cases,
}
use ku_crud.Outbox.{Outbox, Click, select_status, previous, next, click, pages, page_size}

module _ (total : String → ℕ) where
  -- clicks, each with the total of the list that is shown when it comes
  unfoldable pub clicks : List Click → Outbox → Outbox
  clicks [] s = s
  clicks (k ∷ ks) s = clicks ks (click (some (total s.status)) k s)

  abbrev times : ℕ → Click → List Click
  times zero k = []
  times (suc n) k = k ∷ times n k

  pages-bounds : (n : ℕ) → (1 ≤ pages (some n)) × (n ≤ pages (some n) * page_size)
  unfolding pages
  pages-bounds n = ground arith

  click-next :
      (s : Outbox)
      → s.page < pages (some (total s.status))
      → click (some (total s.status)) next s ≡ record s { page = s.page + 1 }
  unfolding click
  click-next s h =
      let open_button : leb (pages (some (total s.status))) s.page ≡ false = ground arith in
      rw open_button refl

  clicks-cons :
      (k : Click) (ks : List Click) (s : Outbox)
      → clicks (k ∷ ks) s ≡ clicks ks (click (some (total s.status)) k s)
  unfolding clicks
  clicks-cons k ks s = refl

  clicks-none : (s : Outbox) → clicks [] s ≡ s
  unfolding clicks
  clicks-none s = refl

  abbrev chosen : String → String
  chosen v = if v == "all" then "" else v

  click-status :
      (v : String) (s : Outbox)
      → click (some (total s.status)) (select_status v) s ≡ record { status = chosen v; page = 1 }
  unfolding click
  click-status v s = refl

  nexts :
      (n page : ℕ) (status : String)
      → page + n ≤ pages (some (total status))
      → clicks (times n next) (record { status = status; page = page })
        ≡ record { status = status; page = page + n }
  nexts zero page status h =
      clicks-none _ ∙ ap (λ k. record { status = status; page = k }) (omega arith)
  nexts (suc n) page status h =
      let s : Outbox = record { status = status; page = page } in
      clicks-cons next (times n next) s
      ∙ ap (clicks (times n next)) (click-next s (omega arith))
      ∙ nexts n (page + 1) status (omega arith)
      ∙ ap (λ k. record { status = status; page = k }) (omega arith)

  -- Every entry of every list can be reached: from any page, choosing a status and then as many clicks
  -- on the next page as there are full pages before the entry lead to the page that the entry is on,
  -- and no button is disabled on the way.
  pub clicks-reach :
      (v : String) (i : ℕ) (s : Outbox)
      → i < total (if v == "all" then "" else v)
      → clicks (select_status v ∷ times (i / page_size) next) s
        ≡ record { status = if v == "all" then "" else v; page = i / page_size + 1 }
  clicks-reach v i s there =
      let (_, enough) = pages-bounds (total (chosen v)) in
      clicks-cons (select_status v) (times (i / page_size) next) s
      ∙ ap (clicks (times (i / page_size) next)) (click-status v s)
      ∙ nexts (i / page_size) 1 (chosen v) (omega arith)
      ∙ ap (λ k. record { status = chosen v; page = k }) (omega arith)

  InPages : Outbox → Type 0
  InPages s = (1 ≤ s.page) × (s.page ≤ pages (some (total s.status)))

  click-InPages : (k : Click) (s : Outbox) → InPages s → InPages (click (some (total s.status)) k s)
  unfolding click InPages
  click-InPages (select_status v) s h = (omega arith, (pages-bounds (total (chosen v))).0)
  click-InPages previous s h = elim (Bool-cases (leb s.page 1)) [
    | inl e ↦ rw e h
    | inr e ↦ rw e (ground arith, omega arith)
  ]
  click-InPages next s h = elim (Bool-cases (leb (pages (some (total s.status))) s.page)) [
    | inl e ↦ rw e h
    | inr e ↦ rw e (omega arith, ground arith)
  ]

  -- Whatever is clicked, the page that is shown is one from 1 to the number of pages of its list.
  clicks-page :
      (ks : List Click) (s : Outbox)
      → (1 ≤ s.page) × (s.page ≤ pages (some (total s.status)))
      → (1 ≤ (clicks ks s).page) × ((clicks ks s).page ≤ pages (some (total (clicks ks s).status)))
  unfolding clicks InPages
  clicks-page [] s h = h
  clicks-page (k ∷ ks) s h =
      clicks-page ks (click (some (total s.status)) k s) (click-InPages k s h)
