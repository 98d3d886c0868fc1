-- ===== src/Buffer/Invariant.antt =====
-- The invariant of the buffer pool of src/buffer/buffer_pool_manager.cpp.
use court_db.Base.{
  ℕ, ◌≤◌, ◌<◌, ◌≡◌, ◌≢◌, Bool, true, false, not, ◌&&◌, none, some, List, [], ◌∷◌, ltb, ◌==◌,
  if◌then◌else◌, arith, List-cases, refl, ap, ◌⊎◌, inl, inr,
}
use court_db.Page.{invalid_page_id}
use court_db.Buffer.{
  BufferPoolManager, LruReplacer, is_occupied, is_evictable, invalid_frame_id, record_access,
  remove, evict,
}
use court_db.Buffer.Frames.{
  count, one_if, erase, back, pop_back, has-count, count-erase, count-pop_back,
}

-- `evictable` tells which frames the replacer is to hold, each of them once.
pub record Holds (r : LruReplacer) (evictable : ℕ → Bool) : Type 0 where
  pub listed : (f : ℕ) → count f r.lru_list ≡ one_if (evictable f)
  pub keyed : (f : ℕ) → count f r.frame_map ≡ one_if (evictable f)

-- The page table and the metadata agree; a frame is in the free list if it is empty and not `spare`,
-- and in the replacer if it holds an unpinned page.
pub record IsValidBut (spare : ℕ) (b : BufferPoolManager) : Type 0 where
  pub room : b.pool_size ≤ invalid_frame_id
  pub mapped :
      (p f : ℕ) → b.page_table p ≡ some f → ((b.metadata f).page_id ≡ p) × (f < b.pool_size)
  pub table :
      (f : ℕ)
      → (b.metadata f).page_id ≢ invalid_page_id
      → b.page_table (b.metadata f).page_id ≡ some f
  pub unmapped : b.page_table invalid_page_id ≡ none
  pub free :
      (f : ℕ)
      → count f b.free_list
        ≡ one_if (ltb f b.pool_size && not (is_occupied (b.metadata f)) && not (f == spare))
  pub replaceable : Holds b.replacer (λ f. is_evictable (b.metadata f))

abbrev pub IsValid : BufferPoolManager → Type 0
IsValid b = IsValidBut invalid_frame_id b

-- A frame that becomes the most recently used is held from then on.
pub record_access-Holds :
    (f : ℕ) (r : LruReplacer) (e : ℕ → Bool)
    → Holds r e
    → Holds (record_access f r) (λ g. if g == f then true else e g)
unfolding record_access count
record_access-Holds f r e h = record {
  listed = λ g. ground (
    arith,
    h.listed g,
    h.listed f,
    h.keyed f,
    has-count f r.frame_map,
    count-erase g f r.lru_list,
  );
  keyed = λ g. ground (
    arith,
    h.keyed g,
    h.listed f,
    h.keyed f,
    has-count f r.frame_map,
    count-erase g f r.lru_list,
  );
}

pub remove-Holds :
    (f : ℕ) (r : LruReplacer) (e : ℕ → Bool)
    → Holds r e
    → Holds (remove f r) (λ g. if g == f then false else e g)
unfolding remove
remove-Holds f r e h = record {
  listed = λ g. ground (
    arith,
    h.listed g,
    h.keyed f,
    h.listed f,
    has-count f r.frame_map,
    count-erase g f r.lru_list,
  );
  keyed = λ g.
      ground (arith, h.keyed g, h.keyed f, has-count f r.frame_map, count-erase g f r.frame_map);
}

-- A victim was held before and is not held after.
pub record Evicted (e : ℕ → Bool) (victim : ℕ) (after : LruReplacer) : Type 0 where
  pub held : e victim ≡ true
  pub rest : Holds after (λ g. if g == victim then false else e g)

pub evict_cases :
    (r : LruReplacer)
    → ((r.lru_list ≡ []) × (evict r ≡ (invalid_frame_id, r)))
      ⊎ ((f : ℕ) × (fs : List ℕ) × (r.lru_list ≡ f ∷ fs)
          × (evict r ≡ (
            back f fs,
            record { lru_list = pop_back f fs; frame_map = erase (back f fs) r.frame_map },
          )))
unfolding evict
evict_cases r = elim (List-cases r.lru_list) [
  | inl e ↦ inl (e, rw e refl)
  | inr (f, fs, e) ↦ inr (f, fs, e, rw e refl)
]

count-back : (f : ℕ) (fs : List ℕ) → 1 ≤ count (back f fs) (f ∷ fs)
count-back f fs = ground (arith, count-pop_back (back f fs) f fs)

none_held : (r : LruReplacer) (e : ℕ → Bool) (f : ℕ) → Holds r e → r.lru_list ≡ [] → e f ≡ false
unfolding count
none_held r e f h empty = ground (arith, h.listed f, ap (count f) empty)

pub evict-Holds :
    (r : LruReplacer) (e : ℕ → Bool)
    → Holds r e
    → ((f : ℕ) → e f ≡ false) × (evict r ≡ (invalid_frame_id, r))
      ⊎ Evicted e (evict r).0 (evict r).1
evict-Holds r e h = elim (evict_cases r) [
  | inl (empty, eq) ↦ inl ((λ f. none_held r e f h empty), eq)
  | inr (f, fs, some_frame, eq) ↦ inr (
      rw eq (record {
        held =
            ground
              (arith, h.listed (back f fs), count-back f fs, ap (count (back f fs)) some_frame);
        rest = record {
          listed = λ g. ground (arith, h.listed g, count-pop_back g f fs, ap (count g) some_frame);
          keyed = λ g. ground (arith, h.keyed g, count-erase g (back f fs) r.frame_map);
        };
      }))
]
