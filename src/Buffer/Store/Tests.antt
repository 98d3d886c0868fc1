-- ===== src/Buffer/Store/Tests.antt =====
-- The pool's pages at a pool of two frames, whose pages have one record each.
use court_db.Base.{
  none≢some, ℕ, ◌≡◌, ◌≢◌, refl, none, some, true, false, List, [], ◌∷◌, ◌==◌, if◌then◌else◌, arith,
  subst, inl, inr, Bool-cases, ◌⊎◌,
}
use court_db.Base.Bytes.{zeros}
use court_db.Page.{Page, new_page, insert_record}
use court_db.Page.Invariant.{new_page-IsValid}
use court_db.Page.Insert.{insert_record-IsValid}
use court_db.Page.Image.Same.{SamePage-refl}
use court_db.Page.Image.Fits.{new_page-Fits, insert_record-Fits}
use court_db.Disk.{default_header}
use court_db.Buffer.{BufferPoolManager, no_page, fetch_page, flush_all_pages, open_pool}
use court_db.Buffer.Frames.{count}
use court_db.Buffer.Store.{Store, IsStorable, Represents}
use court_db.Buffer.Store.Load.{Fetched, fetch_page-Fetched, some_injective}
use court_db.Buffer.Store.Modify.{flush_all_pages-Represents}
use court_db.Buffer.Store.Idle.{IsIdle}

abbrev bytes : List ℕ
bytes = 10 ∷ 20 ∷ 30 ∷ []

abbrev pub page : Page
page = (insert_record (some bytes) (new_page 1)).1

pub page-IsStorable : IsStorable page
page-IsStorable =
    let g =
      insert_record-Fits bytes (new_page 1) (new_page-IsValid 1) (new_page-Fits 1 (omega arith)) in
    record {
      valid = insert_record-IsValid (some bytes) (new_page 1) (new_page-IsValid 1);
      fits = g.fits;
      slots_fit = g.slots_fit;
    }

-- Two pages are in the two frames, not written back.
abbrev pub pool : BufferPoolManager
pool = record {
  pool_size = 2;
  disk = record {
    file = record { contents = zeros; size = 0 };
    io = [];
    header = record default_header { page_count = 3 };
    num_writes = 0;
    num_reads = 0;
  };
  pages = λ f. page;
  metadata = λ f.
      if f == 0
      then record { page_id = 1; pin_count = 0; is_dirty = true }
      else (if f == 1 then record { page_id = 2; pin_count = 0; is_dirty = true } else no_page);
  free_list = [];
  page_table = λ p. if p == 1 then some 0 else (if p == 2 then some 1 else none);
  replacer = record { lru_list = 0 ∷ 1 ∷ []; frame_map = 0 ∷ 1 ∷ [] };
  stats = record { hits = 0; misses = 0; evictions = 0; flushes = 0 };
}

abbrev pub store : Store
store id = if id == 1 then some page else (if id == 2 then some page else none)

only_page : (id : ℕ) (q : Page) → store id ≡ some q → ((id ≡ 1) ⊎ (id ≡ 2)) × (page ≡ q)
only_page id q e = elim (Bool-cases (id == 1)) [
  | inl h ↦ (inl (ground arith), some_injective (rw h at e))
  | inr h ↦ elim (Bool-cases (id == 2)) [
    | inl k ↦ (inr (ground arith), some_injective (rw (h, k) at e))
    | inr k ↦ absurd (none≢some (rw (h, k) at e))
  ]
]

dirty_clean : true ≢ false
dirty_clean p = cc

pub pool-Represents : Represents store pool
unfolding count
pool-Represents = record {
  valid = record {
    room = omega arith;
    mapped = λ p f e. ground arith;
    table = λ f ne. ground arith;
    unmapped = refl;
    free = λ f. ground arith;
    replaceable = record { listed = λ f. ground arith; keyed = λ f. ground arith };
  };
  holds = record {
    quiet = refl;
    inside = λ id q e. ground arith;
    storable = λ id q e. subst IsStorable (only_page id q e).1 page-IsStorable;
    resident = λ id f e. elim (Bool-cases (id == 1)) [
      | inl h ↦ rw h (page, refl, SamePage-refl page)
      | inr h ↦
          let k : (id == 2) ≡ true = ground arith in rw (h, k) (page, refl, SamePage-refl page)
    ];
    stored = λ id q e c. elim (only_page id q e).0 [
      | inl h ↦ absurd (dirty_clean (c 0 (rw h refl)))
      | inr h ↦ absurd (dirty_clean (c 1 (rw h refl)))
    ];
  };
}

pub pool-IsIdle : IsIdle pool
pool-IsIdle = record { has_frame = omega arith; unpinned = λ f. ground arith }

-- A new pool on the disk that the flush of that pool leaves.
abbrev reopened : BufferPoolManager
reopened = open_pool 1 (flush_all_pages pool).disk

reopened-Represents : Represents store reopened
reopened-Represents = (flush_all_pages-Represents 1 store pool pool-Represents (omega arith)).1

flush_all_pages-Represents_example :
    Represents store (flush_all_pages pool)
    × Represents store (open_pool 1 (flush_all_pages pool).disk)
flush_all_pages-Represents_example =
    flush_all_pages-Represents 1 store pool pool-Represents (omega arith)

fetch_page-Fetched_example : Fetched store 1 page (fetch_page 1 reopened)
unfolding open_pool
fetch_page-Fetched_example =
    fetch_page-Fetched 1 store page reopened reopened-Represents refl (omega arith) (λ f e. cc)

-- The page in frame 0, pinned once.
abbrev held : BufferPoolManager
held = (fetch_page 1 pool).1
