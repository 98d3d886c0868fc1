-- ===== src/Buffer/Tests.antt =====
-- The buffer pool's theorems at a pool of two frames.
use court_db.Base.{none≢some, ℕ, ◌+◌, ◌≤◌, ◌<◌, ◌≡◌, refl, true, false, some, [], ◌∷◌, arith}
use court_db.Disk.Tests.{two_pages}
use court_db.Buffer.{
  BufferPoolManager, open_pool, fetch_page, unpin_page, create_page, flush_page, load_into,
  write_back, record_access, evict,
}
use court_db.Buffer.Frames.{has, erase, back}
use court_db.Buffer.Recency.{replay, age, evict-replay}
use court_db.Buffer.Durable.{load_into-write_back}
use court_db.Page.{get_record}
use court_db.Page.Tests.{page, page-IsValid, page-HeaderFits, page-SlotFits}
use court_db.Buffer.Invariant.{IsValid}
use court_db.Buffer.Operations.{open_pool-IsValid, unpin_page-IsValid}
use court_db.Buffer.Fetch.{Pins, fetch_page-IsValid}
use court_db.Buffer.Create.{Created, HoldsExisting, create_page-Created}

abbrev pool : BufferPoolManager
pool = open_pool 2 two_pages

pool-IsValid : IsValid pool
pool-IsValid = open_pool-IsValid 2 two_pages (omega arith)

not_held : (f : ℕ) → pool.page_table 1 ≡ some f → (pool.metadata f).pin_count + 1 < 4294967296
unfolding open_pool
not_held f h = ground arith

fetch_page-IsValid_example :
    IsValid (fetch_page 1 pool).1 × Pins 1 (fetch_page 1 pool).0 (fetch_page 1 pool).1
fetch_page-IsValid_example = fetch_page-IsValid 1 pool pool-IsValid (omega arith) not_held

fetched-IsValid : IsValid (fetch_page 1 pool).1
fetched-IsValid = (fetch_page-IsValid 1 pool pool-IsValid (omega arith) not_held).0

abbrev fetched : BufferPoolManager
fetched = (fetch_page 1 pool).1

abbrev unpinned : BufferPoolManager
unpinned = (unpin_page 1 true fetched).1

unpinned-IsValid : IsValid unpinned
unpinned-IsValid = unpin_page-IsValid 1 true fetched fetched-IsValid

-- The frame that was used least recently is evicted first.
least_recent :
    (evict (
      record_access 5
        (record_access 4 (record_access 5 (record { lru_list = []; frame_map = [] }))))).0
    ≡ 4
unfolding evict record_access has erase back
least_recent = refl

not_resident : (flush_page 1 pool).0 ≡ false
unfolding flush_page open_pool
not_resident = refl

pool-HoldsExisting : HoldsExisting pool
unfolding open_pool
pool-HoldsExisting = record {
  existing = λ p f e. absurd (none≢some e);
  head_free = refl;
  count_fits = omega arith;
}

create_page-Created_example : Created pool (create_page pool)
create_page-Created_example = create_page-Created pool pool-IsValid pool-HoldsExisting

-- A pool whose frames hold a page with one record.
abbrev holding : BufferPoolManager
holding = record pool { disk = two_pages; pages = λ f. page }

load_into-write_back_example :
    ((load_into 1 1 (write_back 1 0 holding)).0 ≡ some 1)
    × (((load_into 1 1 (write_back 1 0 holding)).1.pages 1).header ≡ page.header)
    × ((j : ℕ)
        → get_record j ((load_into 1 1 (write_back 1 0 holding)).1.pages 1) ≡ get_record j page)
load_into-write_back_example =
    load_into-write_back 1 0 1 holding (write_back 1 0 holding) refl (omega arith) refl page-IsValid
      page-HeaderFits page-SlotFits

evict-replay_example :
    (has (evict (replay (5 ∷ 4 ∷ 5 ∷ []))).0 (5 ∷ 4 ∷ 5 ∷ []) ≡ true)
    × (age 5 (5 ∷ 4 ∷ 5 ∷ []) ≤ age (evict (replay (5 ∷ 4 ∷ 5 ∷ []))).0 (5 ∷ 4 ∷ 5 ∷ []))
unfolding has
evict-replay_example = evict-replay (5 ∷ 4 ∷ 5 ∷ []) 5 refl
