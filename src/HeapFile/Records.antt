-- ===== src/HeapFile/Records.antt =====
-- GetRecord and DeleteRecord of src/storage/heap_file.cpp, by the pages that the pool shows.
use court_db.Base.{
  true≢false, ℕ, suc, ◌≡◌, ◌≢◌, refl, sym, ap, ◌∙◌, arith, Bool, true, false, none, some, List,
  ◌==◌, ==_refl, ◌⊎◌, inl, inr, Bool-cases, Option-cases, sub32,
}
use court_db.Page.{Page, get_record, delete_record, invalid_page_id}
use court_db.Page.Invariant
use court_db.Page.Delete.{get_record-delete_record, delete_record-IsValid}
use court_db.Page.Image.Same.{SamePage-get_record}
use court_db.Page.Image.Change.{delete_record-SamePage}
use court_db.Page.Image.Fits.{delete_record-Fits}
use court_db.Record.{Rid, rid_is_valid}
use court_db.Buffer.{assign, fetch_page, unpin_page}
use court_db.Buffer.Store.{Store, IsStorable, SamePage-IsStorable, Represents}
use court_db.Buffer.Store.Load.{some_injective}
use court_db.Buffer.Store.Modify.{set_frame}
use court_db.Buffer.Store.Idle.{
  IsIdle, fetch_page-Access, read-Represents, rewrite-Represents, write-Represents,
}
use court_db.HeapFile.{HeapFile, heap_get, heap_delete}

-- The heap file's pool shows the pages of the store, and no page is pinned.
pub record Shows (store : Store) (h : HeapFile) : Type 0 where
  pub represents : Represents store h.bpm
  pub idle : IsIdle h.bpm

valid_proper : (rid : Rid) → rid_is_valid rid ≡ true → rid.page_id ≢ invalid_page_id
unfolding rid_is_valid
valid_proper rid v e = ground arith

missing :
    (rid : Rid) (h : HeapFile) (f : ℕ)
    → rid_is_valid rid ≡ true
    → (fetch_page rid.page_id h.bpm).0 ≡ some f
    → get_record rid.slot_id ((fetch_page rid.page_id h.bpm).1.pages f) ≡ none
    → heap_get rid h
      ≡ (none, record h { bpm = (unpin_page rid.page_id false (fetch_page rid.page_id h.bpm).1).1 })
unfolding heap_get
missing rid h f v e g = rw (v, heap_get, e) (rw g refl)

found_record :
    (rid : Rid) (h : HeapFile) (f : ℕ) (bs : List ℕ)
    → rid_is_valid rid ≡ true
    → (fetch_page rid.page_id h.bpm).0 ≡ some f
    → get_record rid.slot_id ((fetch_page rid.page_id h.bpm).1.pages f) ≡ some bs
    → heap_get rid h ≡ (some bs, record h { bpm = (fetch_page rid.page_id h.bpm).1 })
unfolding heap_get
found_record rid h f bs v e g = rw (v, heap_get, e) (rw g refl)

-- On a pool that shows the pages of a store and has none pinned, GetRecord with a valid RID in a page
-- of the store returns what the page's own GetRecord returns, and changes no page.
pub heap_get-get_record :
    (store : Store) (p : Page) (rid : Rid) (h : HeapFile)
    → Shows store h
    → rid_is_valid rid ≡ true
    → store rid.page_id ≡ some p
    → ((heap_get rid h).0 ≡ get_record rid.slot_id p) × Represents store (heap_get rid h).1.bpm
heap_get-get_record store p rid h s v e =
    let (f, a) =
      fetch_page-Access rid.page_id store p h.bpm s.represents s.idle e (valid_proper rid v) in
    let same =
      SamePage-get_record _ p rid.slot_id a.same
        (s.represents.holds.storable rid.page_id p e).valid in
    elim (Option-cases (get_record rid.slot_id p)) [
      | inl none_there ↦
          rw (missing rid h f v a.found (same ∙ none_there))
            (sym none_there, (read-Represents rid.page_id f store p h.bpm s.idle a).0)
      | inr (bs, there) ↦
          rw (found_record rid h f bs v a.found (same ∙ there)) (sym there, a.represents)
    ]

abbrev fetched : Rid → HeapFile → ℕ → Page
fetched rid h f = (fetch_page rid.page_id h.bpm).1.pages f

heap_delete_done :
    (rid : Rid) (h : HeapFile) (f : ℕ)
    → rid_is_valid rid ≡ true
    → (fetch_page rid.page_id h.bpm).0 ≡ some f
    → (delete_record rid.slot_id (fetched rid h f)).0 ≡ true
    → ((heap_delete rid h).0 ≡ true)
      × ((heap_delete rid h).1.bpm
          ≡ (unpin_page rid.page_id true (
              set_frame f
                (delete_record rid.slot_id (fetched rid h f)).1
                (fetch_page rid.page_id h.bpm).1)).1)
      × ((heap_delete rid h).1.record_count ≡ sub32 h.record_count 1)
unfolding heap_delete
heap_delete_done rid h f v e d = rw (v, heap_delete, e) (rw d (refl, refl, refl))

heap_delete_refused :
    (rid : Rid) (h : HeapFile) (f : ℕ)
    → rid_is_valid rid ≡ true
    → (fetch_page rid.page_id h.bpm).0 ≡ some f
    → (delete_record rid.slot_id (fetched rid h f)).0 ≡ false
    → heap_delete rid h ≡ (
      false,
      record h {
        bpm =
            (unpin_page rid.page_id false (
              set_frame f
                (delete_record rid.slot_id (fetched rid h f)).1
                (fetch_page rid.page_id h.bpm).1)).1;
      },
    )
unfolding heap_delete
heap_delete_refused rid h f v e d = rw (v, heap_delete, e) (rw d refl)

-- What DeleteRecord leaves, by what the page's own DeleteRecord does.
abbrev pub Deleted : Store → Page → Rid → HeapFile → Bool × HeapFile → Type 0
Deleted store p rid h r =
    ((r.0 ≡ false)
      × (get_record rid.slot_id p ≡ none)
      × (r.1.record_count ≡ h.record_count)
      × Shows store r.1)
    ⊎ ((r.0 ≡ true)
        × (get_record rid.slot_id p ≢ none)
        × (r.1.record_count ≡ sub32 h.record_count 1)
        × Shows (assign rid.page_id (some (delete_record rid.slot_id p).1) store) r.1)

deleted-IsStorable : (i : ℕ) (p : Page) → IsStorable p → IsStorable (delete_record i p).1
deleted-IsStorable i p g =
    let f = delete_record-Fits i p (record { fits = g.fits; slots_fit = g.slots_fit }) in
    record { valid = delete_record-IsValid i p g.valid; fits = f.fits; slots_fit = f.slots_fit }

-- On a pool that shows the pages of a store and has none pinned, DeleteRecord with a valid RID in a
-- page of the store reports whether the page has the record; if it has, the page of the store loses
-- it and the record count goes down by one, and if not, nothing changes.
pub heap_delete-Deleted :
    (store : Store) (p : Page) (rid : Rid) (h : HeapFile)
    → Shows store h
    → rid_is_valid rid ≡ true
    → store rid.page_id ≡ some p
    → Deleted store p rid h (heap_delete rid h)
heap_delete-Deleted store p rid h s v e =
    let proper = valid_proper rid v in
    let (f, a) = fetch_page-Access rid.page_id store p h.bpm s.represents s.idle e proper in
    let q = fetched rid h f in
    let g = s.represents.holds.storable rid.page_id p e in
    let gq = SamePage-IsStorable q p a.same g in
    let d = delete_record-SamePage rid.slot_id q p a.same g.valid in
    elim (get_record-delete_record rid.slot_id (suc rid.slot_id) p g.valid (omega arith)) [
      | inl (not_done, kept, absent) ↦
          let refused : (delete_record rid.slot_id q).0 ≡ false = d.0 ∙ not_done in
          let w = rewrite-Represents rid.page_id f false store p h.bpm s.idle a in
          inl (
            rw (heap_delete_refused rid h f v a.found refused) (
              refl,
              absent,
              refl,
              (rw (delete_kept rid.slot_id q gq refused) (record { represents = w.0; idle = w.1 })),
            ))
      | inr (done, there, _, _) ↦
          let did = heap_delete_done rid h f v a.found (d.0 ∙ done) in
          let w =
            write-Represents rid.page_id f store p (delete_record rid.slot_id p).1
              (delete_record rid.slot_id q).1 h.bpm s.represents s.idle e proper a.found
              (deleted-IsStorable rid.slot_id p g) d.1 in
          inr (did.0, there, did.2, record { represents = rw did.1 w.0; idle = rw did.1 w.1 })
    ]
  where
    delete_kept :
        (i : ℕ) (q : Page)
        → IsStorable q
        → (delete_record i q).0 ≡ false
        → (delete_record i q).1 ≡ q
    delete_kept i q gq not_done =
        elim (get_record-delete_record i (suc i) q gq.valid (omega arith)) [
          | inl (_, kept, _) ↦ kept
          | inr (did, _, _, _) ↦ absurd (true≢false (sym did ∙ not_done))
        ]

-- On a pool that shows the pages of a store and has none pinned, after a delete that succeeds,
-- under a valid RID in a page of the store, GetRecord finds no record under that RID, and what it
-- found before under any other valid RID in a page of the store.
pub heap_get-heap_delete :
    (store : Store) (p q : Page) (rid other : Rid) (h : HeapFile)
    → Shows store h
    → rid_is_valid rid ≡ true
    → store rid.page_id ≡ some p
    → (heap_delete rid h).0 ≡ true
    → rid_is_valid other ≡ true
    → store other.page_id ≡ some q
    → (other.page_id ≢ rid.page_id) ⊎ (other.slot_id ≢ rid.slot_id)
    → ((heap_get rid (heap_delete rid h).1).0 ≡ none)
      × ((heap_get other (heap_delete rid h).1).0 ≡ (heap_get other h).0)
heap_get-heap_delete store p q rid other h s v e done v' e' ne =
    let before = (heap_get-get_record store q other h s v' e').0 in
    let g = (s.represents.holds.storable rid.page_id p e).valid in
    let p' = (delete_record rid.slot_id p).1 in
    let store' = assign rid.page_id (some p') store in
    let here : store' rid.page_id ≡ some p' = rw ==_refl refl in
    elim (heap_delete-Deleted store p rid h s v e) [
      | inl (not_done, _, _, _) ↦ absurd (true≢false (sym done ∙ not_done))
      | inr (_, there, _, after) ↦
          let gone = (heap_get-get_record store' p' rid (heap_delete rid h).1 after v here).0 in
          (
            gone ∙ empty_slot p rid.slot_id g there,
            elim (Bool-cases (other.page_id == rid.page_id)) [
              | inr away ↦
                  let kept : store' other.page_id ≡ some q = rw away e' in
                  (heap_get-get_record store' q other (heap_delete rid h).1 after v' kept).0
                  ∙ sym before
              | inl same ↦
                  let page_eq : other.page_id ≡ rid.page_id = ground arith in
                  let kept : store' other.page_id ≡ some p' = rw same refl in
                  let q_eq : p ≡ q = some_injective (sym e ∙ ap store (sym page_eq) ∙ e') in
                  let slot_ne : other.slot_id ≢ rid.slot_id = ground arith in
                  (heap_get-get_record store' p' other (heap_delete rid h).1 after v' kept).0
                  ∙ other_slot p rid.slot_id other.slot_id g there slot_ne
                  ∙ ap (get_record other.slot_id) q_eq
                  ∙ sym before
            ],
          )
    ]
  where
    empty_slot :
        (x : Page) (i : ℕ)
        → Invariant.IsValid x
        → get_record i x ≢ none
        → get_record i (delete_record i x).1 ≡ none
    empty_slot x i g there = elim (get_record-delete_record i (suc i) x g (omega arith)) [
      | inl (_, _, absent) ↦ absurd (there absent)
      | inr (_, _, empty, _) ↦ empty
    ]

    other_slot :
        (x : Page) (i j : ℕ)
        → Invariant.IsValid x
        → get_record i x ≢ none
        → j ≢ i
        → get_record j (delete_record i x).1 ≡ get_record j x
    other_slot x i j g there ne = elim (get_record-delete_record i j x g ne) [
      | inl (_, _, absent) ↦ absurd (there absent)
      | inr (_, _, _, kept) ↦ kept
    ]

-- GetRecord, and the UnpinPage of the caller where it returns a record, leave the pool as it was shown,
-- with no page pinned.
pub heap_get-Shows :
    (store : Store) (p : Page) (rid : Rid) (h : HeapFile)
    → Shows store h
    → rid_is_valid rid ≡ true
    → store rid.page_id ≡ some p
    → ((get_record rid.slot_id p ≡ none)
        × ((heap_get rid h).0 ≡ none)
        × Shows store (heap_get rid h).1)
      ⊎ ((bs : List ℕ) × (get_record rid.slot_id p ≡ some bs)
          × ((heap_get rid h).0 ≡ some bs)
          × Shows store (record (heap_get rid h).1 {
            bpm = (unpin_page rid.page_id false (heap_get rid h).1.bpm).1;
          }))
heap_get-Shows store p rid h s v e =
    let (f, a) =
      fetch_page-Access rid.page_id store p h.bpm s.represents s.idle e (valid_proper rid v) in
    let same =
      SamePage-get_record _ p rid.slot_id a.same
        (s.represents.holds.storable rid.page_id p e).valid in
    let (shown, idle) = read-Represents rid.page_id f store p h.bpm s.idle a in
    elim (Option-cases (get_record rid.slot_id p)) [
      | inl none_there ↦ inl (
        none_there,
        ap (λ r. r.0) (missing rid h f v a.found (same ∙ none_there)),
        rw (missing rid h f v a.found (same ∙ none_there))
            (record { represents = shown; idle = idle }),
      )
      | inr (bs, there) ↦ inr (
        bs,
        there,
        ap (λ r. r.0) (found_record rid h f bs v a.found (same ∙ there)),
        rw (found_record rid h f bs v a.found (same ∙ there))
            (record { represents = shown; idle = idle }),
      )
    ]
