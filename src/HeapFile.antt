-- ===== src/HeapFile.antt =====
-- include/storage/heap_file.h and src/storage/heap_file.cpp: a chain of slotted pages in the buffer
-- pool. A pointer to a page is the number of its frame.
mod Tests
pub mod Records
pub mod Insert
pub mod Iterator
use court_db.Base.{
  ℕ, zero, suc, ◌+◌, Bool, true, false, not, ◌||◌, ◌&&◌, Option, none, some, List, [], ◌∷◌, ◌++◌,
  ◌==◌, ltb, if◌then◌else◌, length, u32, sub32,
}
use court_db.Base.Results.{Result, ok, throw, ◌>>=◌}
use court_db.Page.{
  Page, invalid_page_id, insert_record, delete_record, get_record, update_record, has_space_for,
}
use court_db.Record.{Rid, no_rid, rid_is_valid}
use court_db.Buffer.{BufferPoolManager, fetch_page, unpin_page, create_page}
use court_db.Buffer.Frames.{has, erase}
use court_db.Buffer.Store.Modify.{set_frame}

pub record HeapFile : Type 0 where
  pub bpm : BufferPoolManager
  pub first_page_id : ℕ
  pub last_page_id : ℕ
  pub record_count : ℕ
  pub page_count : ℕ
  pub pages_with_space : List ℕ

abbrev set_next_page_id : ℕ → Page → Page
set_next_page_id id p = record p { header = record p.header { next_page_id = id } }

abbrev set_flags : ℕ → Page → Page
set_flags flags p = record p { header = record p.header { flags = flags } }

-- PageType::kData
abbrev data_page : ℕ
data_page = 1

-- The part of AllocateNewPage that links the last page to the new one.
pub link_last : ℕ → ℕ → BufferPoolManager → BufferPoolManager
link_last last new_id b =
    let (frame, b1) = fetch_page last b in
    if last == invalid_page_id || last == new_id then b else elim frame [
      | none ↦ b1
      | some f ↦ (unpin_page last true (set_frame f (set_next_page_id new_id (b1.pages f)) b1)).1
    ]

-- HeapFile::AllocateNewPage, once NewPage has given a frame.
pub place_page : ℕ → BufferPoolManager → HeapFile → Result HeapFile ℕ
place_page f b h =
    let new_id = (b.pages f).page_id in
    let b1 = set_frame f (set_flags data_page (b.pages f)) b in
    let b2 = link_last h.last_page_id new_id b1 in
    ok new_id (record h {
      bpm = (unpin_page new_id true b2).1;
      last_page_id = new_id;
      page_count = u32 (h.page_count + 1);
      pages_with_space = h.pages_with_space ++ new_id ∷ [];
    })

pub allocate_new_page : HeapFile → Result HeapFile ℕ
allocate_new_page h = elim (create_page h.bpm) [
  | throw b ↦ throw (record h { bpm = b })
  | ok frame b ↦ elim frame [
    | none ↦ ok invalid_page_id (record h { bpm = b })
    | some f ↦ place_page f b h
  ]
]

-- The loop of FindPageWithSpace: the page found, and what it leaves of the list. A page that cannot
-- be fetched or has not the space leaves the list.
pub find_loop : ℕ → List ℕ → BufferPoolManager → Option ℕ × List ℕ × BufferPoolManager
find_loop record_length [] b = (none, [], b)
find_loop record_length (id ∷ ids) b =
    let (frame, b1) = fetch_page id b in
    let skipped = find_loop record_length ids b1 in
    let released = find_loop record_length ids (unpin_page id false b1).1 in
    elim frame [
      | none ↦ skipped
      | some f ↦
          if has_space_for record_length (b1.pages f)
          then (some id, id ∷ ids, (unpin_page id false b1).1)
          else released
    ]

pub find_page_with_space : ℕ → HeapFile → Result HeapFile ℕ
unfolding find_loop
find_page_with_space record_length h =
    let (found, ids, b) = find_loop record_length h.pages_with_space h.bpm in
    elim found [
      | some id ↦ ok id (record h { pages_with_space = ids; bpm = b })
      | none ↦ allocate_new_page (record h { pages_with_space = ids; bpm = b })
    ]

-- The free space directory loses a page with less than 64 bytes.
abbrev pub track_space : ℕ → Page → List ℕ → List ℕ
track_space id p ids = if has_space_for 64 p then ids else erase id ids

-- The end of InsertRecord: the record is in `slot` of the page in frame `f`.
pub inserted : ℕ → ℕ → ℕ → HeapFile → Result HeapFile Rid
inserted id f slot h =
    ok (record { page_id = id; slot_id = slot })
      (record h {
        pages_with_space = track_space id (h.bpm.pages f) h.pages_with_space;
        record_count = u32 (h.record_count + 1);
        bpm = (unpin_page id true h.bpm).1;
      })

-- InsertRecord on a page that was just allocated because the page chosen first was full.
pub insert_in_new : Option (List ℕ) → ℕ → HeapFile → Result HeapFile Rid
insert_in_new source id h =
    let (frame, b) = fetch_page id h.bpm in
    elim frame [
      | none ↦ ok no_rid (record h { bpm = b })
      | some f ↦
          let (slot, p) = insert_record source (b.pages f) in
          let b1 = set_frame f p b in
          elim slot [
            | none ↦ ok no_rid (record h { bpm = (unpin_page id true b1).1 })
            | some s ↦ inserted id f s (record h { bpm = b1 })
          ]
    ]

-- InsertRecord on the page that FindPageWithSpace chose.
pub insert_in : Option (List ℕ) → ℕ → HeapFile → Result HeapFile Rid
insert_in source id h =
    let (frame, b) = fetch_page id h.bpm in
    elim frame [
      | none ↦ ok no_rid (record h { bpm = b })
      | some f ↦
          let (slot, p) = insert_record source (b.pages f) in
          let b1 = set_frame f p b in
          elim slot [
            | none ↦
                allocate_new_page (record h { bpm = (unpin_page id false b1).1 }) >>= λ new_id h₁.
                insert_in_new source new_id h₁
            | some s ↦ inserted id f s (record h { bpm = b1 })
          ]
    ]

-- HeapFile::InsertRecord. `none` is the null pointer.
pub heap_insert : Option (List ℕ) → HeapFile → Result HeapFile Rid
heap_insert none h = ok no_rid h
heap_insert (some []) h = ok no_rid h
heap_insert (some (x ∷ bs)) h =
    find_page_with_space (suc (length bs)) h >>= λ id h₁. insert_in (some (x ∷ bs)) id h₁

-- HeapFile::DeleteRecord
pub heap_delete : Rid → HeapFile → Bool × HeapFile
heap_delete rid h =
    let (frame, b) = fetch_page rid.page_id h.bpm in
    if not (rid_is_valid rid) then (false, h) else elim frame [
      | none ↦ (false, record h { bpm = b })
      | some f ↦
          let (deleted, p) = delete_record rid.slot_id (b.pages f) in
          let h₁ = record h { bpm = (unpin_page rid.page_id deleted (set_frame f p b)).1 } in
          if deleted
          then (
            true,
            record h₁ {
              record_count = sub32 h.record_count 1;
              pages_with_space =
                  if has rid.page_id h.pages_with_space
                  then h.pages_with_space
                  else h.pages_with_space ++ rid.page_id ∷ [];
            },
          )
          else (false, h₁)
    ]

-- HeapFile::GetRecord: on success the page stays pinned, for the caller to unpin.
pub heap_get : Rid → HeapFile → Option (List ℕ) × HeapFile
heap_get rid h =
    let (frame, b) = fetch_page rid.page_id h.bpm in
    if not (rid_is_valid rid) then (none, h) else elim frame [
      | none ↦ (none, record h { bpm = b })
      | some f ↦ elim (get_record rid.slot_id (b.pages f)) [
        | none ↦ (none, record h { bpm = (unpin_page rid.page_id false b).1 })
        | some bs ↦ (some bs, record h { bpm = b })
      ]
    ]

-- HeapFile::UpdateRecord: a record that does not fit in place is deleted and inserted anew.
pub heap_update : Rid → List ℕ → HeapFile → Result HeapFile Rid
heap_update rid bs h =
    let (frame, b) = fetch_page rid.page_id h.bpm in
    if not (rid_is_valid rid) then ok no_rid h else elim frame [
      | none ↦ ok no_rid (record h { bpm = b })
      | some f ↦
          let (updated, p) = update_record rid.slot_id bs (b.pages f) in
          if updated
          then ok rid (record h { bpm = (unpin_page rid.page_id true (set_frame f p b)).1 })
          else heap_insert (some bs) (record h {
            record_count = sub32 h.record_count 1;
            bpm = (unpin_page rid.page_id true (set_frame f (delete_record rid.slot_id p).1 b)).1;
          })
    ]

-- The loop of the constructor over an existing chain from `current`, with fuel.
pub walk : ℕ → ℕ → HeapFile → HeapFile
walk zero current h = h
walk (suc fuel) current h =
    let (frame, b) = fetch_page current h.bpm in
    if current == invalid_page_id then h else elim frame [
      | none ↦ record h { bpm = b }
      | some f ↦
          let p = b.pages f in
          walk fuel p.next_page_id (record {
            bpm = (unpin_page current false b).1;
            first_page_id = h.first_page_id;
            last_page_id = if p.next_page_id == invalid_page_id then current else h.last_page_id;
            record_count = u32 (h.record_count + p.num_records);
            page_count = u32 (h.page_count + 1);
            pages_with_space =
                if has_space_for 64 p
                then h.pages_with_space ++ current ∷ []
                else h.pages_with_space;
          })
    ]

-- The constructor. With the invalid page id it makes a heap file of one page.
pub open_heap : ℕ → ℕ → BufferPoolManager → Result HeapFile Unit
unfolding walk
open_heap fuel first_page_id b =
    let h : HeapFile = record {
      bpm = b;
      first_page_id = first_page_id;
      last_page_id = first_page_id;
      record_count = 0;
      page_count = 0;
      pages_with_space = [];
    } in
    if first_page_id == invalid_page_id
    then (allocate_new_page h >>= λ id h₁.
        ok tt (record h₁ { first_page_id = id; last_page_id = id }))
    else ok tt (walk fuel first_page_id h)
