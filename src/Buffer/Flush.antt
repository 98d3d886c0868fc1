-- ===== src/Buffer/Flush.antt =====
-- FlushPage and FlushAllPages of src/buffer/buffer_pool_manager.cpp.
use court_db.Base.{
  ℕ, zero, suc, ◌+◌, ◌≡◌, Bool, false, not, ◌&&◌, ltb, arith, refl, ap, inl, inr, Bool-cases,
}
use court_db.Buffer.{
  FrameMetadata, BufferPoolManager, is_occupied, write_back, flush_frames, flush_all_pages,
}
use court_db.Buffer.Invariant.{IsValid}

abbrev pub needs_flush : FrameMetadata → Bool
needs_flush m = is_occupied m && m.is_dirty

pub write_back-IsValid : (p f : ℕ) (b : BufferPoolManager) → IsValid b → IsValid (write_back p f b)
unfolding write_back
write_back-IsValid p f b v = record {
  room = v.room;
  mapped = λ q g e. ground (arith, v.mapped q g e);
  table = λ g ne. ground (arith, v.table g (ground arith));
  unmapped = v.unmapped;
  free = λ g. ground (arith, v.free g);
  replaceable = record {
    listed = λ g. ground (arith, v.replaceable.listed g);
    keyed = λ g. ground (arith, v.replaceable.keyed g);
  };
}

-- What a run of the loop from frame `i` over `n` frames leaves of the pool.
record Flushed (n i : ℕ) (b after : BufferPoolManager) : Type 0 where
  pub valid : IsValid after
  pub clean :
      (f : ℕ)
      → needs_flush (after.metadata f)
        ≡ (needs_flush (b.metadata f) && not (ltb f (i + n) && not (ltb f i)))
  pub same :
      (f : ℕ)
      → ((after.metadata f).page_id ≡ (b.metadata f).page_id)
        × ((after.metadata f).pin_count ≡ (b.metadata f).pin_count)
  pub same_size : after.pool_size ≡ b.pool_size

flush_frames-Flushed :
    (n i : ℕ) (b : BufferPoolManager) → IsValid b → Flushed n i b (flush_frames n i b)
unfolding flush_frames write_back
flush_frames-Flushed zero i b v = record {
  valid = v;
  clean = λ f. ground arith;
  same = λ f. (refl, refl);
  same_size = refl;
}
flush_frames-Flushed (suc n) i b v = elim (Bool-cases (needs_flush (b.metadata i))) [
  | inl e ↦
      let b1 : BufferPoolManager = write_back (b.metadata i).page_id i b in
      let r : Flushed n (i + 1) b1 (flush_frames n (i + 1) b1) =
        flush_frames-Flushed n (i + 1) b1 (write_back-IsValid (b.metadata i).page_id i b v) in
      rw e (record {
        valid = r.valid;
        clean = λ f. ground (arith, r.clean f);
        same = λ f. ground (arith, r.same f);
        same_size = r.same_size;
      })
  | inr e ↦
      let r : Flushed n (i + 1) b (flush_frames n (i + 1) b) = flush_frames-Flushed n (i + 1) b v in
      rw e (record {
        valid = r.valid;
        clean = λ f. ground (arith, r.clean f, ap (λ j. needs_flush (b.metadata j)));
        same = λ f. ground (arith, r.same f);
        same_size = r.same_size;
      })
]

-- On a valid pool FlushAllPages keeps the pool valid, leaves no frame that holds a page dirty, and
-- moves and unpins no page.
pub flush_all_pages-clean :
    (b : BufferPoolManager)
    → IsValid b
    → IsValid (flush_all_pages b)
      × ((f : ℕ) → needs_flush ((flush_all_pages b).metadata f) ≡ false)
      × ((f : ℕ)
          → (((flush_all_pages b).metadata f).page_id ≡ (b.metadata f).page_id)
            × (((flush_all_pages b).metadata f).pin_count ≡ (b.metadata f).pin_count))
unfolding flush_all_pages
flush_all_pages-clean b v =
    let r : Flushed b.pool_size 0 b (flush_frames b.pool_size 0 b) =
      flush_frames-Flushed b.pool_size 0 b v in
    (r.valid, λ f. ground (arith, r.clean f, v.table f, v.mapped (b.metadata f).page_id f), r.same)
