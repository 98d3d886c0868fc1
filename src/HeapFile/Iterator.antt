-- ===== src/HeapFile/Iterator.antt =====
-- HeapFileIterator of include/storage/heap_file.h and src/storage/heap_file.cpp. A pointer to a page
-- is the number of its frame.
pub mod Slots
mod Advance
pub mod Visits
use court_db.Base.{
  ℕ, zero, suc, ◌+◌, ◌-◌, Bool, true, false, Option, none, some, List, [], ◌∷◌, ◌==◌, ltb,
  if◌then◌else◌, u16,
}
use court_db.Page.{Page, invalid_page_id, get_record}
use court_db.Record.{Rid, no_rid}
use court_db.Buffer.{BufferPoolManager, fetch_page, unpin_page}
use court_db.HeapFile.{HeapFile}

pub record HeapFileIterator : Type 0 where
  pub bpm : BufferPoolManager
  pub current_page_id : ℕ
  pub current_slot : ℕ
  pub current_page : Option ℕ
  pub current_rid : Rid
  pub is_valid : Bool

-- The loops over the slots of a page from `slot`: the first slot with a record. The fuel is the number
-- of slots left.
pub first_record : ℕ → ℕ → Page → Option ℕ
first_record zero slot p = none
first_record (suc fuel) slot p =
    let rest = first_record fuel (slot + 1) p in
    if ltb slot p.num_slots
    then elim (get_record slot p) [ some bs ↦ some slot | none ↦ rest ]
    else none

-- The iterator at a slot of the page in frame `f`.
abbrev pub stopped : ℕ → ℕ → ℕ → BufferPoolManager → HeapFileIterator
stopped id slot f b = record {
  bpm = b;
  current_page_id = id;
  current_slot = slot;
  current_page = some f;
  current_rid = record { page_id = id; slot_id = slot };
  is_valid = true;
}

-- The end of AdvanceToNextRecord, where no record is left.
abbrev pub exhausted : HeapFileIterator → HeapFileIterator
exhausted it = record it { current_rid = no_rid; is_valid = false }

-- The loop of AdvanceToNextRecord over the pages from `next_page_id`, with fuel.
pub walk_pages : ℕ → ℕ → HeapFileIterator → HeapFileIterator
walk_pages zero next_page_id it = it
walk_pages (suc fuel) next_page_id it =
    let (frame, b) = fetch_page next_page_id it.bpm in
    if next_page_id == invalid_page_id then exhausted it else elim frame [
      | none ↦ exhausted (record it { bpm = b })
      | some f ↦
          let p = b.pages f in
          let rest = walk_pages fuel p.next_page_id (record it {
            bpm = (unpin_page next_page_id false b).1;
            current_page_id = next_page_id;
          }) in
          elim (first_record p.num_slots 0 p) [
            | some slot ↦ stopped next_page_id slot f b
            | none ↦ rest
          ]
    ]

-- HeapFileIterator::AdvanceToNextRecord
pub advance : ℕ → HeapFileIterator → HeapFileIterator
advance fuel it = elim it.current_page [
  | none ↦ exhausted it
  | some f ↦
      let p = it.bpm.pages f in
      let start = u16 (it.current_slot + 1) in
      elim (first_record (p.num_slots - start) start p) [
        | some slot ↦ stopped it.current_page_id slot f it.bpm
        | none ↦ walk_pages fuel p.next_page_id (record it {
          bpm = (unpin_page it.current_page_id false it.bpm).1;
          current_page = none;
        })
      ]
]

-- HeapFileIterator::Next
pub next_record : ℕ → HeapFileIterator → HeapFileIterator
next_record fuel it = if it.is_valid then advance fuel it else it

-- HeapFileIterator::GetRecord, whose assertions are `none`.
pub current_record : HeapFileIterator → Option (List ℕ)
current_record it =
    if it.is_valid
    then elim it.current_page [ none ↦ none | some f ↦ get_record it.current_slot (it.bpm.pages f) ]
    else none

-- The constructor of HeapFileIterator.
pub make_iterator : ℕ → ℕ → BufferPoolManager → HeapFileIterator
make_iterator fuel first_page_id b =
    let it : HeapFileIterator = record {
      bpm = b;
      current_page_id = first_page_id;
      current_slot = 0;
      current_page = none;
      current_rid = no_rid;
      is_valid = false;
    } in
    let (frame, b1) = fetch_page first_page_id b in
    if first_page_id == invalid_page_id then it else elim frame [
      | none ↦ record it { bpm = b1 }
      | some f ↦
          let p = b1.pages f in
          let at_start : HeapFileIterator = record it { bpm = b1; current_page = some f } in
          if p.num_slots == 0 then advance fuel at_start else elim (get_record 0 p) [
            | some bs ↦ stopped first_page_id 0 f b1
            | none ↦ advance fuel at_start
          ]
    ]

-- HeapFile::Begin
pub begin : ℕ → HeapFile → HeapFileIterator
begin fuel h = make_iterator fuel h.first_page_id h.bpm

-- The loop of a client that visits every record, with fuel: the RIDs in order, and the iterator at
-- the end.
pub visit_all : ℕ → ℕ → HeapFileIterator → List Rid × HeapFileIterator
visit_all zero pages it = ([], it)
visit_all (suc fuel) pages it =
    let rest = visit_all fuel pages (next_record pages it) in
    if it.is_valid then (it.current_rid ∷ rest.0, rest.1) else ([], it)
