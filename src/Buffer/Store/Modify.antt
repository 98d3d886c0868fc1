-- ===== src/Buffer/Store/Modify.antt =====
-- UnpinPage and FlushAllPages of src/buffer/buffer_pool_manager.cpp, by the pages that the pool shows,
-- and what a client writes through its pointer to a page.
use court_db.Base.{
  none≢some, ℕ, zero, suc, ◌+◌, ◌<◌, ◌≤◌, ◌≡◌, ◌≢◌, refl, sym, ap, subst, ◌∙◌, arith, Bool, true,
  false, some, ◌==◌, inl, inr, Bool-cases, Option-cases,
}
use court_db.Page.{Page, invalid_page_id}
use court_db.Page.Image.Same.{SamePage}
use court_db.Buffer.{
  BufferPoolManager, assign, write_back, invalid_frame_id, unpin_frame, unpin_page, flush_frames,
  flush_all_pages, open_pool,
}
use court_db.Buffer.Invariant.{IsValid}
use court_db.Buffer.Operations.{
  unpin_page_found, unpin_page_missing, unpin_page-IsValid, open_pool-IsValid,
}
use court_db.Buffer.Flush.{needs_flush, write_back-IsValid, flush_all_pages-clean}
use court_db.Buffer.Store.{
  Store, Shows, Holds, Represents, IsStorable, IsMapped, frame_unique, write_back-Holds,
}

-- A client writes a page through the pointer that FetchPage or NewPage gave it.
unfoldable pub set_frame : ℕ → Page → BufferPoolManager → BufferPoolManager
set_frame f p b = record b { pages = assign f p b.pages }

pub set_frame-IsValid :
    (f : ℕ) (p : Page) (b : BufferPoolManager) → IsValid b → IsValid (set_frame f p b)
unfolding set_frame
set_frame-IsValid f p b w = record {
  room = w.room;
  mapped = w.mapped;
  table = w.table;
  unmapped = w.unmapped;
  free = w.free;
  replaceable = w.replaceable;
}

unpin_frame-Holds :
    (f : ℕ) (dirty : Bool) (store : Store) (b : BufferPoolManager)
    → Holds store b
    → Holds store (unpin_frame f dirty b)
unfolding unpin_frame
unpin_frame-Holds f dirty store b h = record {
  quiet = h.quiet;
  inside = h.inside;
  storable = h.storable;
  resident = h.resident;
  stored = λ i q k t. h.stored i q k (λ g u. ground (arith, t g u));
}

unpin_page-Holds :
    (id : ℕ) (dirty : Bool) (store : Store) (b : BufferPoolManager)
    → Holds store b
    → Holds store (unpin_page id dirty b).1
unpin_page-Holds id dirty store b h = elim (Option-cases (b.page_table id)) [
  | inl e ↦ rw (unpin_page_missing id dirty b e) h
  | inr (f, e) ↦ elim (Bool-cases ((b.metadata f).pin_count == 0)) [
    | inl zero_pins ↦ rw (unpin_page_found id f dirty b e) (rw zero_pins h)
    | inr pins ↦
        rw (unpin_page_found id f dirty b e) (rw pins (unpin_frame-Holds f dirty store b h))
  ]
]

-- Unpinning a page that was not changed changes no page.
pub unpin_page-Represents :
    (id : ℕ) (dirty : Bool) (store : Store) (b : BufferPoolManager)
    → Represents store b
    → Represents store (unpin_page id dirty b).1
unpin_page-Represents id dirty store b r = record {
  valid = unpin_page-IsValid id dirty b r.valid;
  holds = unpin_page-Holds id dirty store b r.holds;
}

-- A pool that differs from `b` by the page in frame `f`, which is dirty now.
record Replaced (f : ℕ) (p : Page) (b after : BufferPoolManager) : Type 0 where
  disk_eq : after.disk ≡ b.disk
  table_eq : after.page_table ≡ b.page_table
  pages_eq : after.pages ≡ assign f p b.pages
  dirty : (after.metadata f).is_dirty ≡ true
  others : (g : ℕ) → g ≢ f → (after.metadata g).is_dirty ≡ (b.metadata g).is_dirty

-- A frame that is written and dirty holds the new page of the store.
changed-Holds :
    (id f : ℕ) (p q : Page) (store : Store) (b after : BufferPoolManager)
    → IsMapped b
    → Holds store b
    → b.page_table id ≡ some f
    → Replaced f p b after
    → IsStorable q
    → SamePage p q
    → Holds (assign id (some q) store) after
changed-Holds id f p q store b after v h e r g s =
    let (old, old_eq, _) = h.resident id f e in
    let range = h.inside id old old_eq in
    record {
      quiet = rw r.disk_eq h.quiet;
      inside = λ i y k. elim (Bool-cases (i == id)) [
        | inl here ↦ ground (arith, range, ap (λ d. d.header.page_count) r.disk_eq)
        | inr away ↦
            ground (arith, h.inside i y (ground arith), ap (λ d. d.header.page_count) r.disk_eq)
      ];
      storable = λ i y k. elim (Bool-cases (i == id)) [
        | inl here ↦ let y_eq : q ≡ y = ground arith in subst IsStorable y_eq g
        | inr away ↦ h.storable i y (ground arith)
      ];
      resident = λ i k t.
          let t' : b.page_table i ≡ some k = ap (λ x. x i) (sym r.table_eq) ∙ t in
          rw r.pages_eq (elim (Bool-cases (i == id)) [
            | inl here ↦
                let k_eq : k ≡ f = ground (arith, t', e, ap b.page_table) in
                let frame_eq : (k == f) ≡ true = ground arith in rw (here, frame_eq) (q, refl, s)
            | inr away ↦
                let ne : i ≢ id = ground arith in
                let frame_ne : (k == f) ≡ false =
                  ground (arith, frame_unique b i id k f v t' e ne) in
                rw (away, frame_ne) (h.resident i k t')
          ]);
      stored = λ i y k t. elim (Bool-cases (i == id)) [
        | inl here ↦
            let i_eq : i ≡ id = ground arith in
            absurd (dirty_clean r.dirty (t f (rw r.table_eq (ap b.page_table i_eq ∙ e))))
        | inr away ↦
            let ne : i ≢ id = ground arith in
            rw r.disk_eq (
              h.stored i y (ground arith) (λ j u.
                sym (r.others j (frame_unique b i id j f v u e ne)) ∙ t j (rw r.table_eq u)))
      ];
    }
  where
    dirty_clean : {x : Bool} → x ≡ true → x ≢ false
    dirty_clean a c = cc

-- A client that has pinned a page, writes it and unpins it as dirty replaces it in the store, and
-- leaves the other pages.
pub write_unpin-Represents :
    (id f : ℕ) (p q : Page) (store : Store) (b : BufferPoolManager)
    → Represents store b
    → b.page_table id ≡ some f
    → 0 < (b.metadata f).pin_count
    → IsStorable q
    → SamePage p q
    → Represents (assign id (some q) store) (unpin_page id true (set_frame f p b)).1
unfolding set_frame unpin_frame
write_unpin-Represents id f p q store b r e pins g s =
    let c = set_frame f p b in
    let pinned : ((b.metadata f).pin_count == 0) ≡ false = ground arith in
    record {
      valid = unpin_page-IsValid id true c (set_frame-IsValid f p b r.valid);
      holds = rw (unpin_page_found id f true c e) (
          rw pinned (
            changed-Holds id f p q store b (unpin_frame f true c) r.valid.mapped r.holds e
              (record {
                disk_eq = refl;
                table_eq = refl;
                pages_eq = refl;
                dirty = ground arith;
                others = λ g ne. ground arith;
              })
              g s));
    }

-- A client that has a new page pinned can write it more than once.
pub set_frame-Represents :
    (id f : ℕ) (p q : Page) (store : Store) (b : BufferPoolManager)
    → Represents store b
    → b.page_table id ≡ some f
    → (b.metadata f).is_dirty ≡ true
    → IsStorable q
    → SamePage p q
    → Represents (assign id (some q) store) (set_frame f p b)
unfolding set_frame
set_frame-Represents id f p q store b r e dirty g s = record {
  valid = set_frame-IsValid f p b r.valid;
  holds =
      changed-Holds id f p q store b (set_frame f p b) r.valid.mapped r.holds e
        (record {
          disk_eq = refl;
          table_eq = refl;
          pages_eq = refl;
          dirty = dirty;
          others = λ g ne. refl;
        })
        g s;
}

-- A client that writes what is there changes no page.
pub set_same-Represents :
    (f : ℕ) (store : Store) (b : BufferPoolManager)
    → Represents store b
    → Represents store (set_frame f (b.pages f) b)
unfolding set_frame
set_same-Represents f store b r = record {
  valid = set_frame-IsValid f (b.pages f) b r.valid;
  holds = record {
    quiet = r.holds.quiet;
    inside = r.holds.inside;
    storable = r.holds.storable;
    resident = λ id g t. elim (Bool-cases (g == f)) [
      | inl here ↦
          let g_eq : g ≡ f = ground arith in
          rw here (subst (λ x. Shows store id (b.pages x)) g_eq (r.holds.resident id g t))
      | inr away ↦ rw away (r.holds.resident id g t)
    ];
    stored = r.holds.stored;
  };
}

flush_frames-Holds :
    (n i : ℕ) (store : Store) (b : BufferPoolManager)
    → IsValid b
    → Holds store b
    → Holds store (flush_frames n i b)
unfolding flush_frames
flush_frames-Holds zero i store b v h = h
flush_frames-Holds (suc n) i store b v h =
    let id = (b.metadata i).page_id in
    elim (Bool-cases (needs_flush (b.metadata i))) [
      | inl e ↦
          let here : b.page_table id ≡ some i = v.table i (ground (arith, e)) in
          rw e (
            flush_frames-Holds n (i + 1) store (write_back id i b) (write_back-IsValid id i b v)
              (write_back-Holds id i store b v.mapped h here).0)
      | inr e ↦ rw e (flush_frames-Holds n (i + 1) store b v h)
    ]

-- On a pool that shows the pages of a store, FlushAllPages leaves a pool that shows the same
-- pages, and so does a new pool of fewer than 2^32 frames on the disk that it leaves.
pub flush_all_pages-Represents :
    (n : ℕ) (store : Store) (b : BufferPoolManager)
    → Represents store b
    → n ≤ invalid_frame_id
    → Represents store (flush_all_pages b) × Represents store (open_pool n (flush_all_pages b).disk)
unfolding flush_all_pages open_pool
flush_all_pages-Represents n store b r room =
    let clean = flush_all_pages-clean b r.valid in
    let h = flush_frames-Holds b.pool_size 0 store b r.valid r.holds in
    (
      record { valid = clean.0; holds = h },
      record {
        valid = open_pool-IsValid n (flush_all_pages b).disk room;
        holds = record {
          quiet = h.quiet;
          inside = h.inside;
          storable = h.storable;
          resident = λ id f t. absurd (cc);
          stored = λ id q k t. h.stored id q k (λ f u.
              let proper : id ≢ invalid_page_id = λ p.
                none≢some (sym clean.0.unmapped ∙ ap (flush_all_pages b).page_table (sym p) ∙ u) in
              ground (arith, clean.1 f, (clean.0.mapped id f u).0, proper));
        };
      },
    )
