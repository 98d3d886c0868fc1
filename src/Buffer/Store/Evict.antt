-- ===== src/Buffer/Store/Evict.antt =====
-- FindFreeFrame and EvictFrame of src/buffer/buffer_pool_manager.cpp, by the pages that the pool shows.
use court_db.Base.{
  ℕ, ◌≡◌, ◌≢◌, refl, subst, arith, none, some, List, ◌==◌, inl, inr, Bool-cases, List-cases,
}
use court_db.Page.{Page}
use court_db.Buffer.{
  BufferPoolManager, LruReplacer, Stats, invalid_frame_id, is_evictable, no_page, assign,
  write_back, evict, evict_frame, find_free_frame,
}
use court_db.Buffer.Invariant.{IsValid, evict-Holds}
use court_db.Buffer.Spare.{take_first, evict_first}
use court_db.Buffer.Store.{Store, Stored, Holds, IsMapped, frame_unique, write_back-Holds}

-- The pages do not depend on the lists and the counters.
pub listed-Holds :
    (store : Store) (b : BufferPoolManager) (fs : List ℕ) (r : LruReplacer) (s : Stats)
    → Holds store b
    → Holds store (record b { free_list = fs; replacer = r; stats = s })
listed-Holds store b fs r s h = record {
  quiet = h.quiet;
  inside = h.inside;
  storable = h.storable;
  resident = h.resident;
  stored = h.stored;
}

-- A frame whose page is stored can forget it.
forget-Holds :
    (id f : ℕ) (store : Store) (b : BufferPoolManager)
    → IsMapped b
    → Holds store b
    → b.page_table id ≡ some f
    → ((q : Page) → store id ≡ some q → Stored b.disk.file id q)
    → Holds store (record b {
      page_table = assign id none b.page_table;
      metadata = assign f no_page b.metadata;
    })
forget-Holds id f store b v h e st = record {
  quiet = h.quiet;
  inside = h.inside;
  storable = h.storable;
  resident = λ i g t. h.resident i g (ground arith);
  stored = λ i q k t. elim (Bool-cases (i == id)) [
    | inl here ↦
        let i_eq : id ≡ i = ground arith in
        subst (λ x. (y : Page) → store x ≡ some y → Stored b.disk.file x y) i_eq st q k
    | inr away ↦
        let ne : i ≢ id = ground arith in
        h.stored i q k (λ g u. ground (arith, t g, frame_unique b i id g f v u e ne))
  ];
}

written-IsMapped : (id f : ℕ) (b : BufferPoolManager) → IsMapped b → IsMapped (write_back id f b)
unfolding write_back
written-IsMapped id f b v p g e = ground (arith, v p g e)

evict_frame-Holds :
    (f : ℕ) (store : Store) (b : BufferPoolManager)
    → IsMapped b
    → Holds store b
    → b.page_table (b.metadata f).page_id ≡ some f
    → Holds store (evict_frame f b)
unfolding evict_frame
evict_frame-Holds f store b v h e =
    let id = (b.metadata f).page_id in
    elim (Bool-cases (b.metadata f).is_dirty) [
      | inl dirty ↦
          let w = write_back-Holds id f store b v h e in
          rw dirty (
            forget-Holds id f store (write_back id f b) (written-IsMapped id f b v) w.0
              (unfold write_back in e) w.1)
      | inr clean ↦ rw clean (
          forget-Holds id f store b v h e
            (λ q k. h.stored id q k (λ g u. ground (arith, u, e, clean))))
    ]

pub find_free_frame-Holds :
    (store : Store) (b : BufferPoolManager)
    → IsValid b
    → Holds store b
    → Holds store (find_free_frame b).1
find_free_frame-Holds store b v h = elim (List-cases b.free_list) [
  | inr (f, fs, e) ↦ rw (take_first b f fs e) (listed-Holds store b fs b.replacer b.stats h)
  | inl empty ↦ elim (evict-Holds b.replacer (λ f. is_evictable (b.metadata f)) v.replaceable) [
    | inl (none_held, eq) ↦ rw (evict_first b invalid_frame_id b.replacer empty eq) h
    | inr x ↦
        let victim = (evict b.replacer).0 in
        let r = (evict b.replacer).1 in
        let b1 = record b { replacer = r } in
        let e : b.page_table (b.metadata victim).page_id ≡ some victim =
          v.table victim (ground (arith, x.held)) in
        let after =
          evict_frame-Holds victim store b1 v.mapped (listed-Holds store b b.free_list r b.stats h)
            e in
        rw (evict_first b victim r empty refl) (elim (Bool-cases (victim == invalid_frame_id)) [
          | inl lost ↦ rw lost (listed-Holds store b b.free_list r b.stats h)
          | inr found ↦ rw found (
              listed-Holds store (evict_frame victim b1) (evict_frame victim b1).free_list
                (evict_frame victim b1).replacer _ after)
        ])
  ]
]
