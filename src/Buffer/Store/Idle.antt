-- ===== src/Buffer/Store/Idle.antt =====
-- One client at a time of the pool of src/buffer/buffer_pool_manager.cpp: between its calls no page is
-- pinned, so that FetchPage always finds a frame.
use court_db.Base.{
  none≢some, ℕ, ◌<◌, ◌≡◌, ◌≢◌, refl, sym, ap, subst, ◌∙◌, arith, Bool, true, false, none, some,
  ◌==◌, inl, inr, Bool-cases, Option-cases,
}
use court_db.Page.{Page, invalid_page_id}
use court_db.Page.Image.Same.{SamePage}
use court_db.Disk.{read_page}
use court_db.Buffer.{
  BufferPoolManager, FrameMetadata, assign, invalid_frame_id, find_free_frame, fetch_hit, load_into,
  count_miss, fetch_page, unpin_frame, unpin_page,
}
use court_db.Buffer.Spare.{find_free_frame-IsSpare}
use court_db.Buffer.Fetch.{fetch_page_found, fetch_page_missing, missed-IsValid, Pins}
use court_db.Buffer.Operations.{unpin_page_found}
use court_db.Buffer.Store.{Store, Represents, IsStorable}
use court_db.Buffer.Store.Load.{load_into-Holds, spare_unused, some_injective, fetch_page-Fetched}
use court_db.Buffer.Store.Evict.{find_free_frame-Holds, listed-Holds}
use court_db.Buffer.Store.Modify.{
  set_frame, write_unpin-Represents, unpin_page-Represents, set_same-Represents,
}

-- A pool with a frame, and no page pinned.
pub record IsIdle (b : BufferPoolManager) : Type 0 where
  pub has_frame : 0 < b.pool_size
  pub unpinned : (f : ℕ) → (b.metadata f).pin_count ≡ 0

-- The pool after a fetch into frame `f`, which alone is pinned.
pub record Taken (f : ℕ) (b after : BufferPoolManager) : Type 0 where
  pub same_size : after.pool_size ≡ b.pool_size
  pub pinned : (after.metadata f).pin_count ≡ 1
  pub others : (g : ℕ) → g ≢ f → (after.metadata g).pin_count ≡ 0

load_into_loaded :
    (id f : ℕ) (b : BufferPoolManager)
    → (load_into id f b).0 ≡ some f
    → ((load_into id f b).1.metadata
        ≡ assign f (record { page_id = id; pin_count = 1; is_dirty = false }) b.metadata)
      × ((load_into id f b).1.pool_size ≡ b.pool_size)
unfolding load_into
load_into_loaded id f b e = elim (Bool-cases (read_page id (b.pages f).bytes b.disk).0) [
  | inl done ↦ rw done (refl, refl)
  | inr failed ↦ absurd (none≢some (rw failed at e))
]

hit-Taken : (f : ℕ) (b : BufferPoolManager) → IsIdle b → Taken f b (fetch_hit f b)
unfolding fetch_hit
hit-Taken f b i = record {
  same_size = refl;
  pinned = ground (arith, i.unpinned f);
  others = λ g ne. ground (arith, i.unpinned g);
}

fetch_missing-Taken :
    (id : ℕ) (store : Store) (p : Page) (b : BufferPoolManager)
    → Represents store b
    → store id ≡ some p
    → b.page_table id ≡ none
    → IsIdle b
    → (f : ℕ) × ((fetch_page id b).0 ≡ some f) × Taken f b (fetch_page id b).1
fetch_missing-Taken id store p b v p_eq absent i =
    let c = count_miss b in
    let w = missed-IsValid b v.valid in
    let h =
      find_free_frame-Holds store c w (listed-Holds store b b.free_list b.replacer _ v.holds) in
    let found = (find_free_frame c).0 in
    let b1 = (find_free_frame c).1 in
    rw (fetch_page_missing id b absent) (elim (find_free_frame-IsSpare c w) [
      | inl (pinned, e) ↦ absurd (ground (arith, pinned 0 i.has_frame, i.unpinned 0))
      | inr s ↦
          let other : (found == invalid_frame_id) ≡ false =
            ground (arith, s.in_pool, v.valid.room) in
          let l =
            load_into-Holds id found store p b1 h p_eq (s.table_new id absent)
              (λ j u. spare_unused found j b1 s.valid s.empty u) in
          let m = load_into_loaded id found b1 l.0 in
          rw other (
            found,
            l.0,
            record {
              same_size = m.1 ∙ s.same_size;
              pinned = rw m.0 (ground arith);
              others = λ g ne. rw m.0 (
                  ground
                    (arith, i.unpinned g, ap (λ x. FrameMetadata.pin_count x) (s.others g ne).0));
            },
          )
    ])

pub fetch_page-Taken :
    (id : ℕ) (store : Store) (p : Page) (b : BufferPoolManager)
    → Represents store b
    → store id ≡ some p
    → IsIdle b
    → (f : ℕ) × ((fetch_page id b).0 ≡ some f) × Taken f b (fetch_page id b).1
fetch_page-Taken id store p b v p_eq i = elim (Option-cases (b.page_table id)) [
  | inl e ↦ fetch_missing-Taken id store p b v p_eq e i
  | inr (f, e) ↦ rw (fetch_page_found id f b e) (f, refl, hit-Taken f b i)
]

released-IsIdle :
    (id f : ℕ) (dirty : Bool) (q : Page) (b after : BufferPoolManager)
    → IsIdle b
    → Taken f b after
    → after.page_table id ≡ some f
    → IsIdle (unpin_page id dirty (set_frame f q after)).1
unfolding set_frame unpin_frame
released-IsIdle id f dirty q b after i t e =
    let pinned : ((after.metadata f).pin_count == 0) ≡ false = ground (arith, t.pinned) in
    rw (unpin_page_found id f dirty (set_frame f q after) e) (
      rw pinned (record {
        has_frame = omega (arith, i.has_frame, t.same_size);
        unpinned = λ g. elim (Bool-cases (g == f)) [
          | inl here ↦ ground (arith, t.pinned)
          | inr away ↦ ground (arith, t.others g)
        ];
      }))

read-IsIdle :
    (id f : ℕ) (b after : BufferPoolManager)
    → IsIdle b
    → Taken f b after
    → after.page_table id ≡ some f
    → IsIdle (unpin_page id false after).1
unfolding unpin_frame
read-IsIdle id f b after i t e =
    let pinned : ((after.metadata f).pin_count == 0) ≡ false = ground (arith, t.pinned) in
    rw (unpin_page_found id f false after e) (
      rw pinned (record {
        has_frame = omega (arith, i.has_frame, t.same_size);
        unpinned = λ g. elim (Bool-cases (g == f)) [
          | inl here ↦ ground (arith, t.pinned)
          | inr away ↦ ground (arith, t.others g)
        ];
      }))

-- A fetch on an idle pool: the frame, and what it holds.
pub record Access (store : Store) (id : ℕ) (p : Page) (b : BufferPoolManager) (f : ℕ) : Type 0 where
  pub found : (fetch_page id b).0 ≡ some f
  pub taken : Taken f b (fetch_page id b).1
  pub represents : Represents store (fetch_page id b).1
  pub table : (fetch_page id b).1.page_table id ≡ some f
  pub same : SamePage ((fetch_page id b).1.pages f) p

pub fetch_page-Access :
    (id : ℕ) (store : Store) (p : Page) (b : BufferPoolManager)
    → Represents store b
    → IsIdle b
    → store id ≡ some p
    → id ≢ invalid_page_id
    → (f : ℕ) × Access store id p b f
fetch_page-Access id store p b v i p_eq proper =
    let (f, e, t) = fetch_page-Taken id store p b v p_eq i in
    let w = fetch_page-Fetched id store p b v p_eq proper (λ k u. omega (arith, i.unpinned k)) in
    (
      f,
      record {
        found = e;
        taken = t;
        represents = w.represents;
        table = (subst (λ o. Pins id o (fetch_page id b).1) e w.pinned).0;
        same = w.found f e;
      },
    )

-- A client that fetches a page on an idle pool and unpins it unchanged leaves the pages, and the pool
-- idle.
pub read-Represents :
    (id f : ℕ) (store : Store) (p : Page) (b : BufferPoolManager)
    → IsIdle b
    → Access store id p b f
    → Represents store (unpin_page id false (fetch_page id b).1).1
      × IsIdle (unpin_page id false (fetch_page id b).1).1
read-Represents id f store p b i a = (
  unpin_page-Represents id false store (fetch_page id b).1 a.represents,
  read-IsIdle id f b (fetch_page id b).1 i a.taken a.table,
)

-- So does a client that writes what is there.
pub rewrite-Represents :
    (id f : ℕ) (dirty : Bool) (store : Store) (p : Page) (b : BufferPoolManager)
    → IsIdle b
    → Access store id p b f
    → Represents store
        (unpin_page id dirty (set_frame f ((fetch_page id b).1.pages f) (fetch_page id b).1)).1
      × IsIdle
          (unpin_page id dirty (set_frame f ((fetch_page id b).1.pages f) (fetch_page id b).1)).1
rewrite-Represents id f dirty store p b i a =
    let after = (fetch_page id b).1 in
    (
      unpin_page-Represents id dirty store (set_frame f (after.pages f) after)
          (set_same-Represents f store after a.represents),
      released-IsIdle id f dirty (after.pages f) b after i a.taken a.table,
    )

-- On an idle pool that shows the pages of a store, a client that fetches a page, writes it and
-- unpins it as dirty replaces its page in the store, and
-- the pool is idle again, whatever page was evicted on the way.
pub write-Represents :
    (id f : ℕ) (store : Store) (p q y : Page) (b : BufferPoolManager)
    → Represents store b
    → IsIdle b
    → store id ≡ some p
    → id ≢ invalid_page_id
    → (fetch_page id b).0 ≡ some f
    → IsStorable q
    → SamePage y q
    → Represents
        (assign id (some q) store)
        (unpin_page id true (set_frame f y (fetch_page id b).1)).1
      × IsIdle (unpin_page id true (set_frame f y (fetch_page id b).1)).1
write-Represents id f store p q y b v i p_eq proper e g s =
    let (f', e', t') = fetch_page-Taken id store p b v p_eq i in
    let t = subst (λ x. Taken x b (fetch_page id b).1) (some_injective (sym e' ∙ e)) t' in
    let w = fetch_page-Fetched id store p b v p_eq proper (λ k u. omega (arith, i.unpinned k)) in
    let pins = subst (λ o. Pins id o (fetch_page id b).1) e w.pinned in
    (
      write_unpin-Represents id f y q store (fetch_page id b).1 w.represents pins.0 pins.2 g s,
      released-IsIdle id f true y b (fetch_page id b).1 i t pins.0,
    )
