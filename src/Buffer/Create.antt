-- ===== src/Buffer/Create.antt =====
-- NewPage and DeletePage of src/buffer/buffer_pool_manager.cpp, on every branch.
use court_db.Base.{
  ℕ, not, leb, ◌<◌, ◌≡◌, ◌≢◌, true, false, Option, none, some, ltb, ◌==◌, arith, refl, ◌⊎◌, inl,
  inr, Bool-cases, Option-cases, List-cases, none≢some, ap, sym, subst, ◌∙◌,
}
use court_db.Base.Results.{Result, ok, throw}
use court_db.Page.{invalid_page_id, page_size}
use court_db.Base.Bytes.{Bytes, read}
use court_db.PosixFile.{pwrite}
use court_db.Disk.{
  DiskManager, allocate_page, deallocate_page, and_return, extend_file, write_page, page_offset,
  next_io,
}
use court_db.Buffer.Frames.{count}
use court_db.Buffer.{
  BufferPoolManager, invalid_frame_id, find_free_frame, evict_frame, write_back, evict, place_new,
  create_page, deallocate_on_disk, drop_frame, delete_page,
}
use court_db.Buffer.Invariant.{IsValidBut, IsValid}
use court_db.Buffer.Spare.{IsSpare, AllPinned, find_free_frame-IsSpare}
use court_db.Buffer.Operations.{filled-IsValid, drop_frame-IsValid}
use court_db.Buffer.Fetch.{Pins}

-- The invariant does not read the disk, the pages or the counters.
on_disk-IsValidBut :
    (f : ℕ) (d : DiskManager) (b : BufferPoolManager)
    → IsValidBut f b
    → IsValidBut f (record b { disk = d })
on_disk-IsValidBut f d b w = record {
  room = w.room;
  mapped = w.mapped;
  table = w.table;
  unmapped = w.unmapped;
  free = w.free;
  replaceable = w.replaceable;
}

-- A frame that is lost to the pool: it holds no page, and is in no list of the pool.
pub record IsLost (f : ℕ) (after : BufferPoolManager) : Type 0 where
  pub empty : (after.metadata f).page_id ≡ invalid_page_id
  pub not_free : count f after.free_list ≡ 0
  pub not_replaceable : count f after.replacer.lru_list ≡ 0
  pub not_mapped : (p : ℕ) → after.page_table p ≢ some f

-- What NewPage leaves of the pool `b`. When the disk manager throws, the frame is lost to the pool.
abbrev pub Created : BufferPoolManager → Result BufferPoolManager (Option ℕ) → Type 0
Created b (ok none after) = AllPinned b × (after ≡ b)
Created b (ok (some f) after) =
    IsValid after × ((p : ℕ) × Pins p (some f) after × (b.page_table p ≡ none))
Created b (throw after) = (f : ℕ) × (f < b.pool_size) × IsValidBut f after × IsLost f after

-- The pool holds existing pages, and not the first free one.
pub record HoldsExisting (b : BufferPoolManager) : Type 0 where
  pub existing : (p f : ℕ) → b.page_table p ≡ some f → p < b.disk.header.page_count
  pub head_free : b.page_table b.disk.header.free_list_head ≡ none
  pub count_fits : b.disk.header.page_count < invalid_page_id

returned :
    (x p : ℕ) (r : Result DiskManager Unit) (d : DiskManager) → and_return x r ≡ ok p d → x ≡ p
returned x p (ok u d') d e = cc
returned x p (throw d') d e = cc

-- The disk manager allocates the first free page, or the one behind the last page.
allocated :
    (p : ℕ) (d after : DiskManager)
    → allocate_page d ≡ ok p after
    → ((d.header.free_list_head ≡ p) × (p ≢ invalid_page_id)) ⊎ (d.header.page_count ≡ p)
unfolding allocate_page
allocated p d after e = elim (Bool-cases (d.header.free_list_head == invalid_page_id)) [
  | inr some_free ↦
      let q = returned d.header.free_list_head p _ after (rw some_free at e) in
      inl (q, ground (arith, q))
  | inl none_free ↦ elim (Bool-cases (extend_file d).0) [
    | inl extended ↦ inr (returned d.header.page_count p _ after (rw (none_free, extended) at e))
    | inr failed ↦ absurd (throws (rw (none_free, failed) at e))
  ]
]
  where
    throws : {d' : DiskManager} → throw d' ≢ ok p after
    throws q = cc

write_page_header :
    (p : ℕ) (buffer : Bytes) (d : DiskManager) → (write_page p buffer d).1.header ≡ d.header
unfolding write_page
write_page_header p buffer d = elim (Bool-cases (leb d.header.page_count p)) [
  | inl past ↦ rw past refl
  | inr inside ↦
      elim (Bool-cases (
        not (
          (pwrite (next_io d.io).0 d.file (page_offset p) (read buffer 0 page_size)).0
          == page_size))) [
            | inl failed ↦ rw (inside, failed) refl
            | inr complete ↦ rw (inside, complete) refl
          ]
]

evict_frame_header : (f : ℕ) (b : BufferPoolManager) → (evict_frame f b).disk.header ≡ b.disk.header
unfolding evict_frame write_back
evict_frame_header f b = elim (Bool-cases (b.metadata f).is_dirty) [
  | inl dirty ↦ rw dirty (write_page_header (b.metadata f).page_id _ b.disk)
  | inr clean ↦ rw clean refl
]

find_free_frame_header : (b : BufferPoolManager) → (find_free_frame b).1.disk.header ≡ b.disk.header
unfolding find_free_frame
find_free_frame_header b = elim (List-cases b.free_list) [
  | inr (f, fs, e) ↦ rw (find_free_frame, e) refl
  | inl e ↦ elim (Bool-cases ((evict b.replacer).0 == invalid_frame_id)) [
    | inl no_victim ↦ rw (find_free_frame, e) (rw no_victim refl)
    | inr victim ↦
        rw (find_free_frame, e)
          (rw victim (
            evict_frame_header (evict b.replacer).0 (record b { replacer = (evict b.replacer).1 })))
  ]
]

-- So the page that it allocates is a valid one that the pool does not hold.
fresh :
    (b : BufferPoolManager)
    → HoldsExisting b
    → (p : ℕ) (d : DiskManager) → allocate_page (find_free_frame b).1.disk ≡ ok p d
    → (p ≢ invalid_page_id) × (b.page_table p ≡ none)
fresh b h p d e =
    let same = find_free_frame_header b in
    elim (allocated p (find_free_frame b).1.disk d e) [
      | inl (q, proper) ↦ (
        proper,
        subst (λ k. b.page_table k ≡ none) (sym (ap (λ x. x.free_list_head) same) ∙ q) h.head_free,
      )
      | inr q ↦
          let last : b.disk.header.page_count ≡ p = sym (ap (λ x. x.page_count) same) ∙ q in
          (
            ground (arith, last, h.count_fits),
            elim (Option-cases (b.page_table p)) [
              | inl absent ↦ absent
              | inr (f, held) ↦ absurd (omega (arith, h.existing p f held, last))
            ],
          )
    ]

Result-cases :
    {S A : Type 0} (r : Result S A) → ((a : A) × (s : S) × (r ≡ ok a s)) ⊎ ((s : S) × (r ≡ throw s))
Result-cases (ok a s) = inl (a, s, refl)
Result-cases (throw s) = inr (s, refl)

place_new-IsValid :
    (p f : ℕ) (b : BufferPoolManager)
    → IsValidBut f b
    → f < b.pool_size
    → (b.metadata f).page_id ≡ invalid_page_id
    → p ≢ invalid_page_id
    → b.page_table p ≡ none
    → IsValid (place_new p f b) × Pins p (some f) (place_new p f b)
unfolding place_new
place_new-IsValid p f b v inside empty proper absent =
    let w : IsValid _ = filled-IsValid p f true b v inside empty proper absent in
    (
      record {
        room = w.room;
        mapped = w.mapped;
        table = w.table;
        unmapped = w.unmapped;
        free = w.free;
        replaceable = w.replaceable;
      },
      (ground arith, ground arith, ground arith),
    )

lost :
    (f : ℕ) (d : DiskManager) (b : BufferPoolManager)
    → (b.metadata f).page_id ≡ invalid_page_id
    → IsValidBut f b
    → IsLost f (record b { disk = d })
lost f d b empty v = record {
  empty = empty;
  not_free = ground (arith, v.free f);
  not_replaceable = ground (arith, v.replaceable.listed f, empty);
  not_mapped = λ p e.
      let named = sym (v.mapped p f e).0 ∙ empty in
      none≢some (sym v.unmapped ∙ sym (ap b.page_table named) ∙ e);
}

create_spare :
    (b : BufferPoolManager)
    → IsValid b
    → HoldsExisting b
    → IsSpare (find_free_frame b).0 b (find_free_frame b).1
    → Created b (create_page b)
unfolding create_page
create_spare b v existing s =
    let f : ℕ = (find_free_frame b).0 in
    let b1 : BufferPoolManager = (find_free_frame b).1 in
    let other : (f == invalid_frame_id) ≡ false = ground (arith, s.in_pool, v.room) in
    elim (Result-cases (allocate_page b1.disk)) [
      | inl (p, d, e) ↦
          rw (create_page, other)
            (rw e (
              let w : _ =
                place_new-IsValid p f (record b1 { disk = d }) (on_disk-IsValidBut f d b1 s.valid)
                  (ground (arith, s.in_pool, s.same_size)) s.empty (fresh b existing p d e).0
                  (s.table_new p (fresh b existing p d e).1) in
              (w.0, (p, w.1, (fresh b existing p d e).1))))
      | inr (d, e) ↦
          rw (create_page, other)
            (rw e (f, s.in_pool, on_disk-IsValidBut f d b1 s.valid, lost f d b1 s.empty s.valid))
    ]

-- On a valid pool that holds existing pages and not the first free one, of a file of fewer than
-- 2^32 - 1 pages: NewPage returns no frame only if every frame holds a pinned page, and then
-- leaves the pool alone; a frame that it returns holds a page that the pool did not hold, pinned,
-- and the pool is valid; when the disk manager throws, one frame is left that holds no page, that
-- no entry of the page table names, and that is neither in the free list nor in the replacer.
pub create_page-Created :
    (b : BufferPoolManager) → IsValid b → HoldsExisting b → Created b (create_page b)
unfolding create_page
create_page-Created b v existing = elim (find_free_frame-IsSpare b v) [
  | inl (pinned, e) ↦ rw (create_page, e) (pinned, refl)
  | inr s ↦ create_spare b v existing s
]

-- The state that a call leaves, when it returns and when it throws.
abbrev pub after_call : {S A : Type 0} → Result S A → S
after_call (ok a s) = s
after_call (throw s) = s

deallocated-IsValid :
    (p : ℕ) (b : BufferPoolManager) → IsValid b → IsValid (after_call (deallocate_on_disk p b))
deallocated-IsValid p b v = elim (Result-cases (deallocate_page p b.disk)) [
  | inl (done, d, e) ↦ rw (after_call, e) (on_disk-IsValidBut invalid_frame_id d b v)
  | inr (d, e) ↦ rw (after_call, e) (on_disk-IsValidBut invalid_frame_id d b v)
]

-- Deleting a page keeps a valid pool valid, whatever the disk manager does.
pub delete_page-IsValid :
    (p : ℕ) (b : BufferPoolManager) → IsValid b → IsValid (after_call (delete_page p b))
unfolding delete_page
delete_page-IsValid p b v = elim (Option-cases (b.page_table p)) [
  | inl e ↦ rw (delete_page, e) (deallocated-IsValid p b v)
  | inr (f, e) ↦ elim (Bool-cases (ltb 0 (b.metadata f).pin_count)) [
    | inl pinned ↦ rw (delete_page, e) (rw pinned v)
    | inr unpinned ↦
        rw (delete_page, e)
          (rw unpinned (
            deallocated-IsValid p (drop_frame p f b) (drop_frame-IsValid p f b v e (ground arith))))
  ]
]
