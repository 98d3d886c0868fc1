-- ===== src/Query/IndexTests.antt =====
-- The index scan at a heap file in whose first page a tuple is written.
use court_db.Base.{ℕ, ◌≡◌, ◌∙◌, refl, none, some, true, List, [], ◌∷◌, arith, length}
use court_db.Base.Bytes.{zeros}
use court_db.Page.{Page, insert_record, get_record}
use court_db.Page.Tests
use court_db.Page.Insert.{insert_record-IsValid}
use court_db.Page.Lookup.{get_record-insert_record}
use court_db.Page.Image.Same.{SamePage-refl}
use court_db.Page.Image.Fits.{insert_record-Fits}
use court_db.Record.{Rid, rid_is_valid, serialize}
use court_db.Record.RoundTrip
use court_db.Record.RoundTrip.{length-serialize}
use court_db.Buffer.{assign, fetch_page, unpin_page}
use court_db.Buffer.Store.{Store, IsStorable}
use court_db.Buffer.Store.Idle.{Access, fetch_page-Access, write-Represents}
use court_db.Buffer.Store.Modify.{set_frame}
use court_db.Buffer.Store.Tests.{page, page-IsStorable, pool, store, pool-Represents, pool-IsIdle}
use court_db.HeapFile.{HeapFile}
use court_db.HeapFile.Records.{Shows}
use court_db.Query.{Produces, IndexScanState, index_scan_executor}
use court_db.Query.IndexScan.{Names, no_more, gone, here, index_scan_executor-Produces}
use court_db.Query.Tests.{scored}

size : length (serialize (scored 2)) ≡ 22
size = omega (arith, length-serialize (scored 2))

abbrev with_tuple : Page
with_tuple = (insert_record (some (serialize (scored 2))) page).1

with_tuple-IsStorable : IsStorable with_tuple
with_tuple-IsStorable =
    let g =
      insert_record-Fits (serialize (scored 2)) page page-IsStorable.valid
        (record { fits = page-IsStorable.fits; slots_fit = page-IsStorable.slots_fit }) in
    record {
      valid = insert_record-IsValid (some (serialize (scored 2))) page page-IsStorable.valid;
      fits = g.fits;
      slots_fit = g.slots_fit;
    }

stored : get_record 1 with_tuple ≡ some (serialize (scored 2))
stored =
    (get_record-insert_record page (serialize (scored 2)) 1 2 page-IsStorable.valid
      (Tests.takes_next (serialize (scored 2)) (omega (arith, size)) (omega (arith, size)))
      (omega arith)).0

missing : get_record 5 with_tuple ≡ none
missing =
    (get_record-insert_record page (serialize (scored 2)) 1 5 page-IsStorable.valid
      (Tests.takes_next (serialize (scored 2)) (omega (arith, size)) (omega (arith, size)))
      (omega arith)).1
    ∙ Tests.no_slot

fetched : (f : ℕ) × Access store 1 page pool f
fetched = fetch_page-Access 1 store page pool pool-Represents pool-IsIdle refl (omega arith)

abbrev heap : HeapFile
heap = record {
  bpm = (unpin_page 1 true (set_frame fetched.0 with_tuple (fetch_page 1 pool).1)).1;
  first_page_id = 1;
  last_page_id = 1;
  record_count = 2;
  page_count = 1;
  pages_with_space = [];
}

abbrev tuples : Store
tuples = assign 1 (some with_tuple) store

heap-Shows : Shows tuples heap
heap-Shows =
    let w =
      write-Represents 1 fetched.0 store page with_tuple with_tuple pool pool-Represents pool-IsIdle
        refl (omega arith) fetched.1.found with_tuple-IsStorable (SamePage-refl with_tuple) in
    record { represents = w.0; idle = w.1 }

-- There is no record under the first of the two RIDs.
abbrev rids : List Rid
rids = record { page_id = 1; slot_id = 5 } ∷ record { page_id = 1; slot_id = 1 } ∷ []

scored-Fits : RoundTrip.Fits (scored 2)
scored-Fits = omega arith

named : Names tuples rids (scored 2 ∷ [])
unfolding rid_is_valid
named =
    gone (with_tuple, refl, refl, missing)
      (here (with_tuple, refl, refl, stored, scored-Fits, omega (arith, size)) no_more)

abbrev unscanned : IndexScanState
unscanned = record { heap_file = heap; results = []; current_idx = 0 }

index_scan_executor-Produces_example :
    Produces
      (index_scan_executor (λ rid. zeros) rids 3)
      ((index_scan_executor (λ rid. zeros) rids 3).init unscanned)
      (scored 2 ∷ [])
index_scan_executor-Produces_example =
    index_scan_executor-Produces (λ rid. zeros) tuples rids 3 unscanned (scored 2 ∷ [])
      (omega arith) named heap-Shows
