-- ===== src/Buffer/Fetch.antt =====
-- FetchPage, NewPage and DeletePage of src/buffer/buffer_pool_manager.cpp, on every branch.
use court_db.Base.{
  ℕ, ◌+◌, ◌<◌, ◌≡◌, ◌≢◌, false, Option, none, some, ◌==◌, if◌then◌else◌, arith, refl, inl, inr,
  Bool-cases, Option-cases,
}
use court_db.Page.{invalid_page_id}
use court_db.Disk.{read_page}
use court_db.Buffer.{
  BufferPoolManager, invalid_frame_id, find_free_frame, count_miss, fetch_hit, load_into,
  fetch_page,
}
use court_db.Buffer.Invariant.{IsValidBut, IsValid}
use court_db.Buffer.Spare.{find_free_frame-IsSpare}
use court_db.Buffer.Operations.{filled-IsValid, returned-IsValid, fetch_hit-IsValid}

-- `frame`, where there is one, holds page `p` and is pinned.
abbrev pub Pins : ℕ → Option ℕ → BufferPoolManager → Type 0
Pins p none b = Unit
Pins p (some f) b =
    (b.page_table p ≡ some f) × ((b.metadata f).page_id ≡ p) × (0 < (b.metadata f).pin_count)

pub fetch_page_found :
    (p f : ℕ) (b : BufferPoolManager)
    → b.page_table p ≡ some f
    → fetch_page p b ≡ (some f, fetch_hit f b)
unfolding fetch_page
fetch_page_found p f b e = rw (fetch_page, e) refl

pub fetch_page_missing :
    (p : ℕ) (b : BufferPoolManager)
    → b.page_table p ≡ none
    → fetch_page p b ≡ (
        let (frame_id, b1) = find_free_frame (count_miss b) in
        if frame_id == invalid_frame_id then (none, b1) else load_into p frame_id b1)
unfolding fetch_page
fetch_page_missing p b e = rw (fetch_page, e) refl

load_into-IsValid :
    (p f : ℕ) (b : BufferPoolManager)
    → IsValidBut f b
    → f < b.pool_size
    → (b.metadata f).page_id ≡ invalid_page_id
    → p ≢ invalid_page_id
    → b.page_table p ≡ none
    → IsValid (load_into p f b).1 × Pins p (load_into p f b).0 (load_into p f b).1
unfolding load_into
load_into-IsValid p f b v inside empty proper absent =
    elim (Bool-cases (read_page p (b.pages f).bytes b.disk).0) [
      | inl e ↦ rw e (
        let w : IsValid _ = filled-IsValid p f false b v inside empty proper absent in
            record {
              room = w.room;
              mapped = w.mapped;
              table = w.table;
              unmapped = w.unmapped;
              free = w.free;
              replaceable = w.replaceable;
            },
        (ground arith, ground arith, ground arith),
      )
      | inr e ↦ rw e (
        let w : IsValid _ = returned-IsValid f b v inside empty in
            record {
              room = w.room;
              mapped = w.mapped;
              table = w.table;
              unmapped = w.unmapped;
              free = w.free;
              replaceable = w.replaceable;
            },
        tt,
      )
    ]

pub missed-IsValid : (b : BufferPoolManager) → IsValid b → IsValid (count_miss b)
missed-IsValid b w = record {
  room = w.room;
  mapped = w.mapped;
  table = w.table;
  unmapped = w.unmapped;
  free = w.free;
  replaceable = w.replaceable;
}

fetch_missing-IsValid :
    (p : ℕ) (b : BufferPoolManager)
    → IsValid b
    → p ≢ invalid_page_id
    → b.page_table p ≡ none
    → IsValid (fetch_page p b).1 × Pins p (fetch_page p b).0 (fetch_page p b).1
fetch_missing-IsValid p b v proper absent =
    let c : BufferPoolManager = count_miss b in
    rw (fetch_page_missing p b absent) (elim (find_free_frame-IsSpare c (missed-IsValid b v)) [
      | inl (pinned, e) ↦ rw e (missed-IsValid b v, tt)
      | inr s ↦
          let other : ((find_free_frame c).0 == invalid_frame_id) ≡ false =
            ground (arith, s.in_pool, v.room) in
          rw other (
            load_into-IsValid p (find_free_frame c).0 (find_free_frame c).1 s.valid
              (ground (arith, s.in_pool, s.same_size)) s.empty proper (s.table_new p absent))
    ])

-- On a valid pool, fetching a page other than the invalid one keeps the pool valid, and a frame
-- that is returned holds the page, pinned; this assumes that a pin count that the call raises
-- stays below 2^32.
pub fetch_page-IsValid :
    (p : ℕ) (b : BufferPoolManager)
    → IsValid b
    → p ≢ invalid_page_id
    → ((f : ℕ) → b.page_table p ≡ some f → (b.metadata f).pin_count + 1 < 4294967296)
    → IsValid (fetch_page p b).1 × Pins p (fetch_page p b).0 (fetch_page p b).1
unfolding fetch_hit
fetch_page-IsValid p b v proper fits = elim (Option-cases (b.page_table p)) [
  | inl e ↦ fetch_missing-IsValid p b v proper e
  | inr (f, e) ↦ rw (fetch_page_found p f b e) (
    fetch_hit-IsValid p f b v e (fits f e),
    (e, ground (arith, v.mapped p f e), ground (arith, fits f e)),
  )
]
