-- ===== src/HeapFile/Tests.antt =====
-- The heap file's theorems at a heap file of two pages in a pool of two frames.
use court_db.Base.{
  ℕ, false, ◌<◌, length, append-nil, ◌≡◌, refl, inl, inr, true, none, some, [], ◌∷◌, arith,
}
use court_db.Base.Results.{ok}
use court_db.Page.Tests
use court_db.Record.{Rid, rid_is_valid}
use court_db.Buffer.Store.Tests.{page, pool, store, pool-Represents, pool-IsIdle}
use court_db.HeapFile.{HeapFile, heap_get, heap_delete, heap_insert}
use court_db.HeapFile.Records.{Shows, Deleted, heap_delete-Deleted, heap_get-heap_delete}
use court_db.HeapFile.Iterator.{begin, visit_all}
use court_db.HeapFile.Iterator.Slots.{IsChain, chain_rids, rids_from, length-rids_from}
use court_db.HeapFile.Iterator.Visits.{visit_all-begin}
use court_db.HeapFile.Insert.{first_fit, heap_get-heap_insert}

abbrev heap : HeapFile
heap = record {
  bpm = pool;
  first_page_id = 1;
  last_page_id = 2;
  record_count = 2;
  page_count = 2;
  pages_with_space = 1 ∷ [];
}

heap-Shows : Shows store heap
heap-Shows = record { represents = pool-Represents; idle = pool-IsIdle }

abbrev rid : ℕ → Rid
rid slot = record { page_id = 1; slot_id = slot }

abbrev other : Rid
other = record { page_id = 2; slot_id = 0 }

first_delete : Deleted store page (rid 0) heap (heap_delete (rid 0) heap)
unfolding rid_is_valid
first_delete = heap_delete-Deleted store page (rid 0) heap heap-Shows refl refl

first_deleted : (heap_delete (rid 0) heap).0 ≡ true
first_deleted = elim first_delete [
  | inl (_, absent, _, _) ↦ absurd (Tests.first_record absent)
  | inr (done, _, _, _) ↦ done
]

heap_get-heap_delete_example :
    ((heap_get (rid 0) (heap_delete (rid 0) heap).1).0 ≡ none)
    × ((heap_get other (heap_delete (rid 0) heap).1).0 ≡ (heap_get other heap).0)
unfolding rid_is_valid
heap_get-heap_delete_example =
    heap_get-heap_delete store page page (rid 0) other heap heap-Shows refl refl first_deleted refl
      refl (inl (omega arith))

fits_first : first_fit 2 store (1 ∷ []) ≡ some 1
unfolding first_fit
fits_first = rw Tests.has_space refl

heap_get-heap_insert_example :
    (rid : Rid) × (after : HeapFile) × (heap_insert (some (8 ∷ 9 ∷ [])) heap ≡ ok rid after)
    × ((heap_get rid after).0 ≡ some (8 ∷ 9 ∷ []))
    × ((heap_get other after).0 ≡ (heap_get other heap).0)
unfolding rid_is_valid
heap_get-heap_insert_example =
    heap_get-heap_insert (8 ∷ 9 ∷ []) 1 store page other heap (omega arith) (omega arith) heap-Shows
      ((page, refl, omega arith), tt) fits_first refl refl (omega arith)

one_page : IsChain store 1 (Tests.page ∷ [])
unfolding IsChain
one_page = (omega arith, refl, Tests.last_page)

few_records : length (chain_rids 1 (Tests.page ∷ [])) < 3
unfolding chain_rids
few_records =
    rw (append-nil (rids_from 1 (Tests.page).num_slots 0 Tests.page))
      (omega (arith, length-rids_from 1 (Tests.page).num_slots 0 Tests.page, Tests.one_slot))

visit_all-begin_example :
    ((visit_all 3 1 (begin 1 heap)).0 ≡ chain_rids 1 (Tests.page ∷ []))
    × ((visit_all 3 1 (begin 1 heap)).1.is_valid ≡ false)
    × Shows store (record heap { bpm = (visit_all 3 1 (begin 1 heap)).1.bpm })
visit_all-begin_example =
    visit_all-begin 3 1 store (Tests.page ∷ []) heap (omega arith) few_records heap-Shows one_page
