-- ===== src/HeapFile/Iterator/Visits.antt =====
-- What the heap file iterator of src/storage/heap_file.cpp visits.
use court_db.Base.{
  ℕ, zero, suc, ◌+◌, ◌<◌, ◌≤◌, ◌≡◌, ◌≢◌, refl, sym, ap, subst, ◌∙◌, arith, true, false, List, [],
  ◌∷◌, ◌++◌, inl, inr, if◌then◌else◌, length,
}
use court_db.Page.{Page}
use court_db.Record.{Rid}
use court_db.Buffer.Store.{Store}
use court_db.HeapFile.{HeapFile}
use court_db.HeapFile.Records.{Shows}
use court_db.HeapFile.Iterator.Slots.{rids_from, IsChain, chain_rids, AtRecord, AtEnd, Yields}
use court_db.HeapFile.Iterator.Advance.{advance-Yields, make_iterator-Yields}
use court_db.HeapFile.Iterator.{HeapFileIterator, next_record, begin, visit_all}

-- Next, from a record.
next_record-Yields :
    (fuel : ℕ) (store : Store) (rid : Rid) (rids : List Rid) (it : HeapFileIterator)
    → AtRecord fuel store (rid ∷ rids) it
    → (it.is_valid ≡ true) × (it.current_rid ≡ rid) × Yields fuel store rids (next_record fuel it)
unfolding next_record
next_record-Yields fuel store rid rids it r =
    let e = r.rids_eq in
    let same_rid : rid ≡ record { page_id = r.id; slot_id = r.slot } = cc in
    let same_rids : rids
        ≡ rids_from r.id r.left (r.slot + 1) r.page ++ chain_rids r.page.next_page_id r.pages =
      cc in
    rw (r.state_eq) (
      refl,
      sym same_rid,
      rw same_rids (
          advance-Yields fuel r.id r.slot r.frame r.left store r.page r.pages r.before
            (record { page_id = r.id; slot_id = r.slot }) true r.bounded r.idle r.stored r.access
            r.counted r.chain),
    )

visit_step :
    (n fuel : ℕ) (it : HeapFileIterator)
    → it.is_valid ≡ true
    → visit_all (suc n) fuel it ≡ (
      it.current_rid ∷ (visit_all n fuel (next_record fuel it)).0,
      (visit_all n fuel (next_record fuel it)).1,
    )
unfolding visit_all
visit_step n fuel it e =
    let rest = visit_all n fuel (next_record fuel it) in
    ap (λ b. if b then (it.current_rid ∷ rest.0, rest.1) else ([], it)) e

visit_all-Yields :
    (n fuel : ℕ) (store : Store) (rids : List Rid) (it : HeapFileIterator)
    → length rids < n
    → Yields fuel store rids it
    → ((visit_all n fuel it).0 ≡ rids) × AtEnd store [] (visit_all n fuel it).1
unfolding visit_all
visit_all-Yields zero fuel store rids it h y = absurd (omega (arith, h))
visit_all-Yields (suc n) fuel store rids it h (inl r) =
    rw (r.done, r.none_left)
      (refl, record { done = refl; none_left = refl; represents = r.represents; idle = r.idle })
visit_all-Yields (suc n) fuel store [] it h (inr r) = absurd (nil_cons r.rids_eq)
  where
    nil_cons : {rid : Rid} {rids : List Rid} → [] ≢ rid ∷ rids
    nil_cons e = cc
visit_all-Yields (suc n) fuel store (rid ∷ rids) it h (inr r) =
    let (valid, same, y) = next_record-Yields fuel store rid rids it r in
    let (visited, ended) =
      visit_all-Yields n fuel store rids (next_record fuel it) (omega (arith, h)) y in
    subst (λ v. (v.0 ≡ rid ∷ rids) × AtEnd store [] v.1) (sym (visit_step n fuel it valid))
      (
        ap (λ x. x ∷ (visit_all n fuel (next_record fuel it)).0) same ∙ ap (λ xs. rid ∷ xs) visited,
        ended,
      )

-- On a pool that shows the pages of a store and has none pinned, where the pages of the heap
-- file's chain are in the store: a client that calls Next until the iterator of Begin is not valid
-- visits the RIDs of all records, page by page along the chain and slot by slot, and no others,
-- with fuel for a step per page and for one step more than the records. In the end the pool shows
-- the same pages and none is pinned.
pub visit_all-begin :
    (n fuel : ℕ) (store : Store) (ps : List Page) (h : HeapFile)
    → length ps ≤ fuel
    → length (chain_rids h.first_page_id ps) < n
    → Shows store h
    → IsChain store h.first_page_id ps
    → ((visit_all n fuel (begin fuel h)).0 ≡ chain_rids h.first_page_id ps)
      × ((visit_all n fuel (begin fuel h)).1.is_valid ≡ false)
      × Shows store (record h { bpm = (visit_all n fuel (begin fuel h)).1.bpm })
unfolding begin
visit_all-begin n fuel store ps h pages records s c =
    let (visited, r) =
      visit_all-Yields n fuel store (chain_rids h.first_page_id ps) (begin fuel h) records
        (make_iterator-Yields fuel h.first_page_id store ps h.bpm pages s.represents s.idle c) in
    (visited, r.done, record { represents = r.represents; idle = r.idle })
