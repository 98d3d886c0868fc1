-- ===== src/Buffer/Spare.antt =====
-- FindFreeFrame and EvictFrame of src/buffer/buffer_pool_manager.cpp.
use court_db.Base.{
  ℕ, ◌+◌, ◌<◌, ◌≡◌, ◌≢◌, true, false, ◌&&◌, none, some, List, [], ◌∷◌, ltb, ◌==◌, if◌then◌else◌,
  arith, refl, ap, ◌⊎◌, inl, inr, List-cases, Bool-cases, ◌∙◌,
}
use court_db.Page.{invalid_page_id}
use court_db.Buffer.{
  FrameMetadata, BufferPoolManager, LruReplacer, is_occupied, is_evictable, invalid_frame_id, Stats,
  assign, no_page, evict, write_back, evict_frame, find_free_frame,
}
use court_db.Buffer.Frames.{count}
use court_db.Buffer.Invariant.{Holds, IsValidBut, IsValid, Evicted, evict-Holds}

-- What evicting a frame leaves of the pool.
record Emptied (f : ℕ) (b after : BufferPoolManager) : Type 0 where
  pub metadata_eq : (g : ℕ) → after.metadata g ≡ assign f no_page b.metadata g
  pub table_eq : after.page_table ≡ assign (b.metadata f).page_id none b.page_table
  pub pages_eq : (g : ℕ) → g ≢ f → after.pages g ≡ b.pages g
  pub size_eq : after.pool_size ≡ b.pool_size
  pub free_eq : after.free_list ≡ b.free_list
  pub replacer_eq : after.replacer ≡ b.replacer

evict_frame-Emptied : (f : ℕ) (b : BufferPoolManager) → Emptied f b (evict_frame f b)
unfolding evict_frame write_back
evict_frame-Emptied f b = elim (Bool-cases (b.metadata f).is_dirty) [
  | inl e ↦ rw e (record {
    metadata_eq = λ g. ground arith;
    table_eq = refl;
    pages_eq = λ g ne. ground arith;
    size_eq = refl;
    free_eq = refl;
    replacer_eq = refl;
  })
  | inr e ↦ rw e (record {
    metadata_eq = λ g. refl;
    table_eq = refl;
    pages_eq = λ g ne. refl;
    size_eq = refl;
    free_eq = refl;
    replacer_eq = refl;
  })
]

-- A frame found for a new page, and what the search leaves of the pool `b`.
pub record IsSpare (f : ℕ) (b after : BufferPoolManager) : Type 0 where
  pub same_size : after.pool_size ≡ b.pool_size
  pub in_pool : f < b.pool_size
  pub empty : (after.metadata f).page_id ≡ invalid_page_id
  pub valid : IsValidBut f after
  pub others : (g : ℕ) → g ≢ f → (after.metadata g ≡ b.metadata g) × (after.pages g ≡ b.pages g)
  pub table_kept : (p g : ℕ) → g ≢ f → b.page_table p ≡ some g → after.page_table p ≡ some g
  pub table_new : (p : ℕ) → b.page_table p ≡ none → after.page_table p ≡ none

-- The frame at the front of the free list.
take_free :
    (f : ℕ) (fs : List ℕ) (b : BufferPoolManager)
    → IsValid b
    → b.free_list ≡ f ∷ fs
    → IsSpare f b (record b { free_list = fs })
unfolding count
take_free f fs b v e = record {
  same_size = refl;
  in_pool = ground (arith, v.free f, ap (count f) e);
  empty = ground (arith, v.free f, ap (count f) e);
  valid = record {
    room = v.room;
    mapped = v.mapped;
    table = v.table;
    unmapped = v.unmapped;
    free = λ g. ground (arith, v.free g, v.free f, v.room, ap (count g) e, ap (count f) e);
    replaceable = v.replaceable;
  };
  others = λ g ne. (refl, refl);
  table_kept = λ p g ne h. h;
  table_new = λ p h. h;
}

module _ (f : ℕ) (b after : BufferPoolManager) (v : IsValid b) (r : LruReplacer)
    (held : is_evictable (b.metadata f) ≡ true)
    (rest : Holds r (λ g. if g == f then false else is_evictable (b.metadata g)))
    (q : Emptied f (record b { replacer = r }) after) (no_free : b.free_list ≡ []) where
  victim_mapped : b.page_table (b.metadata f).page_id ≡ some f
  victim_mapped = v.table f (ground (arith, held))

  victim_in_pool : f < b.pool_size
  victim_in_pool = (v.mapped (b.metadata f).page_id f victim_mapped).1

  meta_other : (g : ℕ) → g ≢ f → after.metadata g ≡ b.metadata g
  meta_other g ne = ground (arith, q.metadata_eq g)

  table_at : (p : ℕ) → after.page_table p ≡ assign (b.metadata f).page_id none b.page_table p
  table_at p = ap (λ t. t p) q.table_eq

  table_before : (p g : ℕ) → after.page_table p ≡ some g → b.page_table p ≡ some g
  table_before p g h = ground (arith, table_at p)

  not_victim : (p g : ℕ) → after.page_table p ≡ some g → g ≢ f
  not_victim p g h e = ground (
    arith,
    table_at p,
    ap (λ m. FrameMetadata.page_id m) (ap b.metadata e),
    (v.mapped p g (table_before p g h)).0,
  )

  table_kept_by : (p g : ℕ) → g ≢ f → b.page_table p ≡ some g → after.page_table p ≡ some g
  table_kept_by p g ne h = ground (arith, table_at p, v.mapped p g h, victim_mapped)

  victim_valid : IsValidBut f after
  unfolding count
  victim_valid = record {
    room = ground (arith, v.room, q.size_eq);
    mapped = λ p g h. (
      ap (λ m. FrameMetadata.page_id m) (meta_other g (not_victim p g h))
          ∙ (v.mapped p g (table_before p g h)).0,
      ground (arith, q.size_eq, (v.mapped p g (table_before p g h)).1),
    );
    table = λ g ne.
        let other : g ≢ f = ground (arith, q.metadata_eq g) in
        let same : after.metadata g ≡ b.metadata g = meta_other g other in
        table_kept_by (after.metadata g).page_id g other
          (rw same (v.table g (ground (arith, same))));
    unmapped = ground (arith, v.unmapped, ap (λ t. t invalid_page_id) q.table_eq);
    free = λ g.
        ground (arith, v.free g, q.metadata_eq g, q.size_eq, q.free_eq, ap (count g) q.free_eq);
    replaceable = record {
      listed = λ g. ground (
        arith,
        rest.listed g,
        q.metadata_eq g,
        ap (λ x. count g (LruReplacer.lru_list x)) q.replacer_eq,
      );
      keyed = λ g. ground (
        arith,
        rest.keyed g,
        q.metadata_eq g,
        ap (λ x. count g (LruReplacer.frame_map x)) q.replacer_eq,
      );
    };
  }

  victim-IsSpare : (s : Stats) → IsSpare f b (record after { stats = s })
  victim-IsSpare s = record {
    same_size = q.size_eq;
    in_pool = victim_in_pool;
    empty = ap (λ m. FrameMetadata.page_id m) (q.metadata_eq f) ∙ ground arith;
    valid =
        let w : IsValidBut f after = victim_valid in
        record {
          room = w.room;
          mapped = w.mapped;
          table = w.table;
          unmapped = w.unmapped;
          free = w.free;
          replaceable = w.replaceable;
        };
    others = λ g ne. (meta_other g ne, q.pages_eq g ne);
    table_kept = λ p g ne h. table_kept_by p g ne h;
    table_new = λ p h. ground (arith, table_at p);
  }

abbrev pub AllPinned : BufferPoolManager → Type 0
AllPinned b =
    (f : ℕ)
    → f < b.pool_size
    → (is_occupied (b.metadata f) && ltb 0 (b.metadata f).pin_count) ≡ true

pinned_if_none :
    (b : BufferPoolManager) (f : ℕ)
    → IsValid b
    → b.free_list ≡ []
    → is_evictable (b.metadata f) ≡ false
    → f < b.pool_size
    → (is_occupied (b.metadata f) && ltb 0 (b.metadata f).pin_count) ≡ true
unfolding count
pinned_if_none b f v empty e h = ground (arith, v.free f, v.room, ap (count f) empty)

pub take_first :
    (b : BufferPoolManager) (f : ℕ) (fs : List ℕ)
    → b.free_list ≡ f ∷ fs
    → find_free_frame b ≡ (f, record b { free_list = fs })
unfolding find_free_frame
take_first b f fs e = rw e refl

-- FindFreeFrame on an empty free list, by the frame that the replacer gives.
pub evict_first :
    (b : BufferPoolManager) (victim : ℕ) (r : LruReplacer)
    → b.free_list ≡ []
    → evict b.replacer ≡ (victim, r)
    → find_free_frame b ≡ (
        let b1 = evict_frame victim (record b { replacer = r }) in
        if victim == invalid_frame_id
        then (invalid_frame_id, record b { replacer = r })
        else (victim, record b1 { stats = record b1.stats { evictions = b1.stats.evictions + 1 } }))
unfolding find_free_frame
evict_first b victim r empty e = rw empty (rw e refl)

search_evict :
    (b : BufferPoolManager)
    → IsValid b
    → b.free_list ≡ []
    → Evicted (λ f. is_evictable (b.metadata f)) (evict b.replacer).0 (evict b.replacer).1
    → IsSpare (find_free_frame b).0 b (find_free_frame b).1
search_evict b v empty x =
    let victim : ℕ = (evict b.replacer).0 in
    let r : LruReplacer = (evict b.replacer).1 in
    let q : Emptied victim (record b { replacer = r })
        (evict_frame victim (record b { replacer = r })) =
      evict_frame-Emptied victim (record b { replacer = r }) in
    let bound : (victim == invalid_frame_id) ≡ false = ground (
      arith,
      v.room,
      victim_in_pool victim b (evict_frame victim (record b { replacer = r })) v r x.held x.rest q
          empty,
    ) in
    rw (evict_first b victim r empty refl) (
      rw bound (
        victim-IsSpare victim b (evict_frame victim (record b { replacer = r })) v r x.held x.rest q
          empty _))

-- On a valid pool, the search fails only if every frame holds a pinned page; else it gives a spare
-- frame.
pub find_free_frame-IsSpare :
    (b : BufferPoolManager)
    → IsValid b
    → (AllPinned b × (find_free_frame b ≡ (invalid_frame_id, b)))
      ⊎ IsSpare (find_free_frame b).0 b (find_free_frame b).1
find_free_frame-IsSpare b v = elim (List-cases b.free_list) [
  | inl empty ↦ elim (evict-Holds b.replacer (λ f. is_evictable (b.metadata f)) v.replaceable) [
    | inl (none_held, eq) ↦ inl (
      (λ f h. pinned_if_none b f v empty (none_held f) h),
      evict_first b invalid_frame_id b.replacer empty eq,
    )
    | inr x ↦ inr (search_evict b v empty x)
  ]
  | inr (f, fs, e) ↦ inr (rw (take_first b f fs e) (take_free f fs b v e))
]
