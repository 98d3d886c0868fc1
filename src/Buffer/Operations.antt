-- ===== src/Buffer/Operations.antt =====
-- FetchPage, UnpinPage, NewPage and DeletePage of src/buffer/buffer_pool_manager.cpp on the invariant.
use court_db.Base.{
  ℕ, zero, suc, ◌+◌, ◌≤◌, ◌<◌, ◌≡◌, ◌≢◌, Bool, true, false, not, ◌&&◌, none, some, [], ◌∷◌, ◌++◌,
  ltb, ◌==◌, if◌then◌else◌, arith, refl, ap, inl, inr, Bool-cases, Option-cases,
}
use court_db.Page.{invalid_page_id}
use court_db.Disk.{DiskManager}
use court_db.Buffer.{
  BufferPoolManager, invalid_frame_id, assign, frames_from, open_pool, fetch_hit, unpin_frame,
  unpin_page, remove, record_access, drop_frame,
}
use court_db.Buffer.Frames.{count, one_if, count-append}
use court_db.Buffer.Invariant.{Holds, IsValidBut, IsValid, remove-Holds, record_access-Holds}

count-frames_from :
    (g n i : ℕ) → count g (frames_from n i) ≡ one_if (ltb g (i + n) && not (ltb g i))
unfolding count frames_from
count-frames_from g zero i = ground arith
count-frames_from g (suc n) i = ground (arith, count-frames_from g n (i + 1))

-- A new pool of fewer than 2^32 frames is valid: every frame is in the free list, once.
pub open_pool-IsValid : (n : ℕ) (d : DiskManager) → n ≤ invalid_frame_id → IsValid (open_pool n d)
unfolding open_pool count
open_pool-IsValid n d h = record {
  room = h;
  mapped = λ p f e. ground arith;
  table = λ f ne. absurd (ne refl);
  unmapped = refl;
  free = λ f. ground (arith, count-frames_from f n 0);
  replaceable = record { listed = λ f. refl; keyed = λ f. refl };
}

-- A spare frame takes a page that the pool does not hold.
abbrev filled : ℕ → ℕ → Bool → BufferPoolManager → BufferPoolManager
filled p f dirty b = record b {
  metadata = assign f (record { page_id = p; pin_count = 1; is_dirty = dirty }) b.metadata;
  page_table = assign p (some f) b.page_table;
}

module _ (p f : ℕ) (dirty : Bool) (b : BufferPoolManager) (v : IsValidBut f b)
    (inside : f < b.pool_size) (empty : (b.metadata f).page_id ≡ invalid_page_id)
    (proper : p ≢ invalid_page_id) (absent : b.page_table p ≡ none) where
  filled_mapped :
      (q g : ℕ)
      → (filled p f dirty b).page_table q ≡ some g
      → (((filled p f dirty b).metadata g).page_id ≡ q) × (g < b.pool_size)
  filled_mapped q g h = elim (Bool-cases (q == p)) [
    | inl e ↦ ground arith
    | inr e ↦
        let old : b.page_table q ≡ some g = ground arith in
        let at : ((b.metadata g).page_id ≡ q) × (g < b.pool_size) = v.mapped q g old in
        ground (arith, at.0, at.1, v.unmapped)
  ]

  filled_table :
      (g : ℕ)
      → ((filled p f dirty b).metadata g).page_id ≢ invalid_page_id
      → (filled p f dirty b).page_table ((filled p f dirty b).metadata g).page_id ≡ some g
  filled_table g ne = elim (Bool-cases (g == f)) [
    | inl e ↦ ground arith
    | inr e ↦ ground (arith, v.table g (ground arith))
  ]

  pub filled-IsValid : IsValid (filled p f dirty b)
  filled-IsValid = record {
    room = v.room;
    mapped = filled_mapped;
    table = filled_table;
    unmapped = ground (arith, v.unmapped);
    free = λ g. ground (arith, v.free g, v.room);
    replaceable = record {
      listed = λ g. ground (arith, v.replaceable.listed g);
      keyed = λ g. ground (arith, v.replaceable.keyed g);
    };
  }

-- A spare frame goes back to the free list.
pub returned-IsValid :
    (f : ℕ) (b : BufferPoolManager)
    → IsValidBut f b
    → f < b.pool_size
    → (b.metadata f).page_id ≡ invalid_page_id
    → IsValid (record b { free_list = b.free_list ++ f ∷ [] })
unfolding count
returned-IsValid f b v inside empty = record {
  room = v.room;
  mapped = v.mapped;
  table = v.table;
  unmapped = v.unmapped;
  free = λ g. ground (arith, v.free g, v.room, count-append g b.free_list (f ∷ []));
  replaceable = v.replaceable;
}

-- A hit pins the frame once more.
pub fetch_hit-IsValid :
    (p f : ℕ) (b : BufferPoolManager)
    → IsValid b
    → b.page_table p ≡ some f
    → (b.metadata f).pin_count + 1 < 4294967296
    → IsValid (fetch_hit f b)
unfolding fetch_hit
fetch_hit-IsValid p f b v h fits =
    let held : Holds (remove f b.replacer) _ = remove-Holds f b.replacer _ v.replaceable in
    record {
      room = v.room;
      mapped = λ q g e. ground (arith, v.mapped q g e);
      table = λ g ne. ground (arith, v.table g (ground arith));
      unmapped = v.unmapped;
      free = λ g. ground (arith, v.free g);
      replaceable = record {
        listed = λ g. ground (arith, held.listed g, v.replaceable.listed g);
        keyed = λ g. ground (arith, held.keyed g, v.replaceable.keyed g);
      };
    }

-- One pin less; the last one makes the frame evictable.
unpin_frame-IsValid :
    (p f : ℕ) (dirty : Bool) (b : BufferPoolManager)
    → IsValid b
    → b.page_table p ≡ some f
    → p ≢ invalid_page_id
    → 0 < (b.metadata f).pin_count
    → IsValid (unpin_frame f dirty b)
unfolding unpin_frame
unpin_frame-IsValid p f dirty b v h proper pinned =
    let held : Holds (record_access f b.replacer) _ =
      record_access-Holds f b.replacer _ v.replaceable in
    record {
      room = v.room;
      mapped = λ q g e. ground (arith, v.mapped q g e);
      table = λ g ne. ground (arith, v.table g (ground arith));
      unmapped = v.unmapped;
      free = λ g. ground (arith, v.free g);
      replaceable = record {
        listed = λ g. ground (arith, held.listed g, v.replaceable.listed g, v.mapped p f h);
        keyed = λ g. ground (arith, held.keyed g, v.replaceable.keyed g, v.mapped p f h);
      };
    }

pub unpin_page_found :
    (p f : ℕ) (dirty : Bool) (b : BufferPoolManager)
    → b.page_table p ≡ some f
    → unpin_page p dirty b
      ≡ (if (b.metadata f).pin_count == 0 then (false, b) else (true, unpin_frame f dirty b))
unfolding unpin_page
unpin_page_found p f dirty b e = rw (unpin_page, e) refl

pub unpin_page_missing :
    (p : ℕ) (dirty : Bool) (b : BufferPoolManager)
    → b.page_table p ≡ none
    → unpin_page p dirty b ≡ (false, b)
unfolding unpin_page
unpin_page_missing p dirty b e = rw (unpin_page, e) refl

-- On every branch, unpinning a page keeps a valid pool valid: the frame becomes a candidate for
-- eviction with its last pin, and not before.
pub unpin_page-IsValid :
    (p : ℕ) (dirty : Bool) (b : BufferPoolManager) → IsValid b → IsValid (unpin_page p dirty b).1
unpin_page-IsValid p dirty b v = elim (Option-cases (b.page_table p)) [
  | inl e ↦ rw (unpin_page_missing p dirty b e) v
  | inr (f, e) ↦ elim (Bool-cases ((b.metadata f).pin_count == 0)) [
    | inl zero_pins ↦ rw (unpin_page_found p f dirty b e) (rw zero_pins v)
    | inr pins ↦ rw (unpin_page_found p f dirty b e) (
        rw pins (
          unpin_frame-IsValid p f dirty b v e (λ q. ground (arith, v.unmapped, ap b.page_table q))
            (ground arith)))
  ]
]

-- A page that no one has pinned leaves its frame to the free list.
pub drop_frame-IsValid :
    (p f : ℕ) (b : BufferPoolManager)
    → IsValid b
    → b.page_table p ≡ some f
    → (b.metadata f).pin_count ≡ 0
    → IsValid (drop_frame p f b)
unfolding drop_frame count
drop_frame-IsValid p f b v h unpinned =
    let held : Holds (remove f b.replacer) _ = remove-Holds f b.replacer _ v.replaceable in
    record {
      room = v.room;
      mapped = λ q g e.
          let old : b.page_table q ≡ some g = ground arith in
          ground (arith, v.mapped q g old, v.mapped p f h, ap b.metadata);
      table = λ g ne. ground (arith, v.table g (ground arith), h);
      unmapped = ground (arith, v.unmapped);
      free = λ g. ground (
        arith,
        v.free g,
        v.room,
        v.mapped p f h,
        v.unmapped,
        count-append g b.free_list (f ∷ []),
      );
      replaceable = record {
        listed = λ g. ground (arith, held.listed g, v.replaceable.listed g);
        keyed = λ g. ground (arith, held.keyed g, v.replaceable.keyed g);
      };
    }
