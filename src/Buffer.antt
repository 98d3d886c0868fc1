-- ===== src/Buffer.antt =====
-- include/buffer/buffer_pool_manager.h and src/buffer/buffer_pool_manager.cpp: the LRU replacer and
-- the buffer pool. A pointer to a page in the pool is the number of its frame.
mod Tests
pub mod Frames
pub mod Invariant
pub mod Spare
pub mod Operations
pub mod Fetch
pub mod Flush
pub mod Create
pub mod Recency
pub mod Durable
pub mod Store
use court_db.Base.{
  ℕ, zero, suc, ◌+◌, ◌-◌, Bool, true, false, not, ◌&&◌, ◌||◌, Option, none, some, List, [], ◌∷◌,
  ◌++◌, ltb, ◌==◌, if◌then◌else◌, length, u32, sub32,
}
use court_db.Base.Bytes.{zeros}
use court_db.Base.Results.{Result, ok, throw}
use court_db.Page.{Page, new_page, invalid_page_id}
use court_db.Page.Image.{serialize_to_buffer, deserialize_from_buffer}
use court_db.Disk.{DiskManager, read_page, write_page, allocate_page, deallocate_page}
use court_db.Buffer.Frames.{has, erase, back, pop_back}

abbrev pub invalid_frame_id : ℕ
invalid_frame_id = 4294967295

pub record FrameMetadata : Type 0 where
  pub page_id : ℕ
  pub pin_count : ℕ
  pub is_dirty : Bool

abbrev pub is_occupied : FrameMetadata → Bool
is_occupied m = not (m.page_id == invalid_page_id)

abbrev pub is_evictable : FrameMetadata → Bool
is_evictable m = is_occupied m && m.pin_count == 0

abbrev pub no_page : FrameMetadata
no_page = record { page_id = invalid_page_id; pin_count = 0; is_dirty = false }

-- The front of `lru_list` is the frame used last. `frame_map` holds the keys of the map: the
-- iterator of a frame is the one node of the list that holds it.
pub record LruReplacer : Type 0 where
  pub lru_list : List ℕ
  pub frame_map : List ℕ

pub record_access : ℕ → LruReplacer → LruReplacer
record_access frame_id r =
    if has frame_id r.frame_map
    then record r { lru_list = frame_id ∷ erase frame_id r.lru_list }
    else record { lru_list = frame_id ∷ r.lru_list; frame_map = frame_id ∷ r.frame_map }

pub remove : ℕ → LruReplacer → LruReplacer
remove frame_id r =
    if has frame_id r.frame_map
    then record { lru_list = erase frame_id r.lru_list; frame_map = erase frame_id r.frame_map }
    else r

pub evict : LruReplacer → ℕ × LruReplacer
evict r = elim r.lru_list [
  | [] ↦ (invalid_frame_id, r)
  | f ∷ fs ↦
      (back f fs, record { lru_list = pop_back f fs; frame_map = erase (back f fs) r.frame_map })
]

pub record Stats : Type 0 where
  pub hits : ℕ
  pub misses : ℕ
  pub evictions : ℕ
  pub flushes : ℕ

pub record BufferPoolManager : Type 0 where
  pub pool_size : ℕ
  pub disk : DiskManager
  pub pages : ℕ → Page
  pub metadata : ℕ → FrameMetadata
  pub free_list : List ℕ
  pub page_table : ℕ → Option ℕ
  pub replacer : LruReplacer
  pub stats : Stats

-- An assignment to an entry of an array or of a map.
abbrev pub assign {ℓ} : {A : Type ℓ} → ℕ → A → (ℕ → A) → ℕ → A
assign i v f j = if j == i then v else f j

-- `free_list` is filled with `0`, `1`, and so on: `n` frames from frame `i`.
pub frames_from : ℕ → ℕ → List ℕ
frames_from zero i = []
frames_from (suc n) i = i ∷ frames_from n (i + 1)

pub open_pool : ℕ → DiskManager → BufferPoolManager
unfolding frames_from
open_pool n d = record {
  pool_size = n;
  disk = d;
  pages = λ f. new_page invalid_page_id;
  metadata = λ f. no_page;
  free_list = frames_from n 0;
  page_table = λ p. none;
  replacer = record { lru_list = []; frame_map = [] };
  stats = record { hits = 0; misses = 0; evictions = 0; flushes = 0 };
}

-- The three statements that write a frame's page to disk; the result of WritePage is not looked at.
pub write_back : ℕ → ℕ → BufferPoolManager → BufferPoolManager
write_back page_id frame_id b =
    let page = serialize_to_buffer (b.pages frame_id) in
    record b {
      disk = (write_page page_id page.bytes b.disk).1;
      pages = assign frame_id page b.pages;
      metadata = assign frame_id (record (b.metadata frame_id) { is_dirty = false }) b.metadata;
      stats = record b.stats { flushes = b.stats.flushes + 1 };
    }

pub evict_frame : ℕ → BufferPoolManager → BufferPoolManager
evict_frame frame_id b =
    let meta = b.metadata frame_id in
    let b1 = if meta.is_dirty then write_back meta.page_id frame_id b else b in
    record b1 {
      page_table = assign meta.page_id none b1.page_table;
      metadata = assign frame_id no_page b1.metadata;
    }

pub find_free_frame : BufferPoolManager → ℕ × BufferPoolManager
find_free_frame b = elim b.free_list [
  | f ∷ fs ↦ (f, record b { free_list = fs })
  | [] ↦
      let (victim, r) = evict b.replacer in
      let b1 = evict_frame victim (record b { replacer = r }) in
      if victim == invalid_frame_id
      then (invalid_frame_id, record b { replacer = r })
      else (victim, record b1 { stats = record b1.stats { evictions = b1.stats.evictions + 1 } })
]

-- FetchPage on a page that the pool holds.
pub fetch_hit : ℕ → BufferPoolManager → BufferPoolManager
fetch_hit frame_id b =
    let meta = b.metadata frame_id in
    let pins = u32 (meta.pin_count + 1) in
    record b {
      metadata = assign frame_id (record meta { pin_count = pins }) b.metadata;
      replacer = if pins == 1 then remove frame_id b.replacer else b.replacer;
      stats = record b.stats { hits = b.stats.hits + 1 };
    }

-- FetchPage on another page, once a frame is found for it.
pub load_into : ℕ → ℕ → BufferPoolManager → Option ℕ × BufferPoolManager
load_into page_id frame_id b =
    let (done, bytes, d) = read_page page_id (b.pages frame_id).bytes b.disk in
    let page = record (b.pages frame_id) { bytes = bytes } in
    if not done
    then (
      none,
      record b {
        disk = d;
        pages = assign frame_id page b.pages;
        free_list = b.free_list ++ frame_id ∷ [];
      },
    )
    else (
      some frame_id,
      record b {
        disk = d;
        pages = assign frame_id (deserialize_from_buffer page) b.pages;
        metadata =
            assign frame_id (record { page_id = page_id; pin_count = 1; is_dirty = false })
              b.metadata;
        page_table = assign page_id (some frame_id) b.page_table;
      },
    )

abbrev pub count_miss : BufferPoolManager → BufferPoolManager
count_miss b = record b { stats = record b.stats { misses = b.stats.misses + 1 } }

pub fetch_page : ℕ → BufferPoolManager → Option ℕ × BufferPoolManager
fetch_page page_id b = elim (b.page_table page_id) [
  | some frame_id ↦ (some frame_id, fetch_hit frame_id b)
  | none ↦
      let (frame_id, b1) = find_free_frame (count_miss b) in
      if frame_id == invalid_frame_id then (none, b1) else load_into page_id frame_id b1
]

-- UnpinPage on a pinned frame.
pub unpin_frame : ℕ → Bool → BufferPoolManager → BufferPoolManager
unpin_frame frame_id is_dirty b =
    let meta = b.metadata frame_id in
    let pins = meta.pin_count - 1 in
    record b {
      metadata =
          assign frame_id (record meta { pin_count = pins; is_dirty = is_dirty || meta.is_dirty })
            b.metadata;
      replacer = if pins == 0 then record_access frame_id b.replacer else b.replacer;
    }

pub unpin_page : ℕ → Bool → BufferPoolManager → Bool × BufferPoolManager
unpin_page page_id is_dirty b = elim (b.page_table page_id) [
  | none ↦ (false, b)
  | some frame_id ↦
      if (b.metadata frame_id).pin_count == 0
      then (false, b)
      else (true, unpin_frame frame_id is_dirty b)
]

-- NewPage, once a frame is found and a page allocated.
pub place_new : ℕ → ℕ → BufferPoolManager → BufferPoolManager
place_new page_id frame_id b = record b {
  pages = assign frame_id (new_page page_id) b.pages;
  metadata =
      assign frame_id (record { page_id = page_id; pin_count = 1; is_dirty = true }) b.metadata;
  page_table = assign page_id (some frame_id) b.page_table;
}

-- The page is found in its frame; the identifier that was allocated is in its header.
pub create_page : BufferPoolManager → Result BufferPoolManager (Option ℕ)
create_page b =
    let (frame_id, b1) = find_free_frame b in
    if frame_id == invalid_frame_id then ok none b1 else elim (allocate_page b1.disk) [
      | throw d ↦ throw (record b1 { disk = d })
      | ok page_id d ↦ ok (some frame_id) (place_new page_id frame_id (record b1 { disk = d }))
    ]

-- The call of DeallocatePage with which DeletePage ends.
abbrev pub deallocate_on_disk : ℕ → BufferPoolManager → Result BufferPoolManager Bool
deallocate_on_disk page_id b = elim (deallocate_page page_id b.disk) [
  | ok done d ↦ ok done (record b { disk = d })
  | throw d ↦ throw (record b { disk = d })
]

-- DeletePage on a page in an unpinned frame, up to that call.
pub drop_frame : ℕ → ℕ → BufferPoolManager → BufferPoolManager
drop_frame page_id frame_id b = record b {
  replacer = remove frame_id b.replacer;
  page_table = assign page_id none b.page_table;
  metadata = assign frame_id no_page b.metadata;
  free_list = b.free_list ++ frame_id ∷ [];
}

pub delete_page : ℕ → BufferPoolManager → Result BufferPoolManager Bool
delete_page page_id b = elim (b.page_table page_id) [
  | none ↦ deallocate_on_disk page_id b
  | some frame_id ↦
      if ltb 0 (b.metadata frame_id).pin_count
      then ok false b
      else deallocate_on_disk page_id (drop_frame page_id frame_id b)
]

pub flush_page : ℕ → BufferPoolManager → Bool × BufferPoolManager
flush_page page_id b = elim (b.page_table page_id) [
  | none ↦ (false, b)
  | some frame_id ↦ (true, write_back page_id frame_id b)
]

-- The loop of FlushAllPages: `n` frames are left, the next is frame `i`.
pub flush_frames : ℕ → ℕ → BufferPoolManager → BufferPoolManager
flush_frames zero i b = b
flush_frames (suc n) i b =
    let meta = b.metadata i in
    let b1 = if is_occupied meta && meta.is_dirty then write_back meta.page_id i b else b in
    flush_frames n (i + 1) b1

pub flush_all_pages : BufferPoolManager → BufferPoolManager
unfolding flush_frames
flush_all_pages b = flush_frames b.pool_size 0 b
