-- ===== src/Buffer/Store/Load.antt =====
-- FetchPage of src/buffer/buffer_pool_manager.cpp, by the pages that the pool shows.
use court_db.Base.{
  ℕ, ◌+◌, ◌<◌, ◌≡◌, ◌≢◌, refl, sym, ap, subst, ◌∙◌, arith, false, Option, none, some, ◌==◌, ==_refl,
  inl, inr, Bool-cases, Option-cases,
}
use court_db.Base.Bytes.{read}
use court_db.Page.{Page, page_size, invalid_page_id}
use court_db.Page.Image.{deserialize_from_buffer}
use court_db.Page.Image.Same.{SamePage}
use court_db.Disk.{read_page, page_offset}
use court_db.Disk.Pages.{read_page-eq, read-write_sized}
use court_db.Buffer.{
  BufferPoolManager, invalid_frame_id, assign, find_free_frame, fetch_hit, load_into, count_miss,
  fetch_page,
}
use court_db.Buffer.Invariant.{IsValidBut}
use court_db.Buffer.Spare.{find_free_frame-IsSpare}
use court_db.Buffer.Fetch.{
  Pins, fetch_page_found, fetch_page_missing, fetch_page-IsValid, missed-IsValid,
}
use court_db.Buffer.Store.{Store, Shows, Holds, Represents}
use court_db.Buffer.Store.Evict.{listed-Holds, find_free_frame-Holds}

-- A page that is stored is loaded into a frame that holds none.
pub load_into-Holds :
    (id f : ℕ) (store : Store) (p : Page) (b : BufferPoolManager)
    → Holds store b
    → store id ≡ some p
    → b.page_table id ≡ none
    → ((i : ℕ) → b.page_table i ≢ some f)
    → ((load_into id f b).0 ≡ some f)
      × Holds store (load_into id f b).1
      × SamePage ((load_into id f b).1.pages f) p
unfolding load_into
load_into-Holds id f store p b h p_eq absent unused =
    let st = h.stored id p p_eq (λ g u. ground (arith, u, absent)) in
    let old = (b.pages f).bytes in
    let r = read_page-eq id old b.disk h.quiet (h.inside id p p_eq).1 st.complete in
    let page =
      deserialize_from_buffer (record (b.pages f) { bytes = (read_page id old b.disk).1 }) in
    let same : SamePage page p = st.reads (b.pages f) (read_page id old b.disk).1 (
      ap (λ x. read x 0 page_size) r.1
      ∙ read-write_sized old b.disk.file.contents 0 (page_offset id)) in
    let here : SamePage (assign f page b.pages f) p = rw ==_refl same in
    rw r.0 (
      refl,
      record {
        quiet = r.4;
        inside = λ i q k. omega (arith, h.inside i q k, ap (λ x. x.page_count) r.3);
        storable = h.storable;
        resident = λ i g t. elim (Bool-cases (i == id)) [
          | inl e ↦
              let i_eq : id ≡ i = ground arith in
              let g_eq : f ≡ g = ground arith in
              subst (λ x. Shows store i (assign f page b.pages x)) g_eq
                (p, subst (λ x. store x ≡ some p) i_eq p_eq, here)
          | inr e ↦
              let t' : b.page_table i ≡ some g = ground arith in
              let ne : g ≢ f = λ q. unused i (subst (λ x. b.page_table i ≡ some x) q t') in
              let away : (g == f) ≡ false = ground arith in rw away (h.resident i g t')
        ];
        stored = λ i q k t. elim (Bool-cases (i == id)) [
          | inl e ↦
              let i_eq : i ≡ id = ground arith in
              rw r.2 (h.stored i q k (λ g u. absurd (unmapped_at g i_eq u)))
          | inr e ↦ rw r.2 (h.stored i q k (λ g u. not_f i g u (t g (ground arith))))
        ];
      },
      here,
    )
  where
    unmapped_at : {i : ℕ} (g : ℕ) → i ≡ id → b.page_table i ≢ some g
    unmapped_at g e u = ground (arith, ap b.page_table e, absent, u)

    not_f :
        (i g : ℕ)
        → b.page_table i ≡ some g
        → (assign f
            (record { page_id = id; pin_count = 1; is_dirty = false })
            b.metadata
            g).is_dirty
          ≡ false
        → (b.metadata g).is_dirty ≡ false
    not_f i g u t = elim (Bool-cases (g == f)) [
      | inl e ↦
          let g_eq : g ≡ f = ground arith in
          absurd (unused i (subst (λ x. b.page_table i ≡ some x) g_eq u))
      | inr e ↦ ground arith
    ]

-- What FetchPage leaves: the pool shows the same pages, and a frame that is returned is pinned and
-- holds the page.
pub record Fetched (store : Store) (id : ℕ) (p : Page) (r : Option ℕ × BufferPoolManager)
    : Type 0 where
  pub represents : Represents store r.1
  pub pinned : Pins id r.0 r.1
  pub found : (f : ℕ) → r.0 ≡ some f → SamePage (r.1.pages f) p

-- No page is in a frame that was found for a new page.
pub spare_unused :
    (f i : ℕ) (b : BufferPoolManager)
    → IsValidBut f b
    → (b.metadata f).page_id ≡ invalid_page_id
    → b.page_table i ≢ some f
spare_unused f i b v empty u =
    let i_eq : i ≡ invalid_page_id = sym (v.mapped i f u).0 ∙ empty in
    ground (arith, v.unmapped, u, ap b.page_table i_eq)

hit_page :
    (id f : ℕ) (store : Store) (b : BufferPoolManager)
    → Holds store b
    → b.page_table id ≡ some f
    → Shows store id ((fetch_hit f b).pages f)
unfolding fetch_hit
hit_page id f store b h e = h.resident id f e

pub some_injective {ℓ} : {A : Type ℓ} {f g : A} → some f ≡ some g → f ≡ g
some_injective e = cc

hit-Holds :
    (f : ℕ) (store : Store) (b : BufferPoolManager) → Holds store b → Holds store (fetch_hit f b)
unfolding fetch_hit
hit-Holds f store b h = record {
  quiet = h.quiet;
  inside = h.inside;
  storable = h.storable;
  resident = h.resident;
  stored = λ i q k t. h.stored i q k (λ g u. ground (arith, t g u));
}

fetch_missing-Fetched :
    (id : ℕ) (store : Store) (p : Page) (b : BufferPoolManager)
    → Represents store b
    → store id ≡ some p
    → b.page_table id ≡ none
    → Holds store (fetch_page id b).1
      × ((f : ℕ) → (fetch_page id b).0 ≡ some f → SamePage ((fetch_page id b).1.pages f) p)
fetch_missing-Fetched id store p b v p_eq absent =
    let c = count_miss b in
    let w = missed-IsValid b v.valid in
    let h =
      find_free_frame-Holds store c w (listed-Holds store b b.free_list b.replacer _ v.holds) in
    let found = (find_free_frame c).0 in
    let b1 = (find_free_frame c).1 in
    rw (fetch_page_missing id b absent) (elim (find_free_frame-IsSpare c w) [
      | inl (pinned, e) ↦ rw e (listed-Holds store b b.free_list b.replacer _ v.holds, λ f u. cc)
      | inr s ↦
          let other : (found == invalid_frame_id) ≡ false =
            ground (arith, s.in_pool, v.valid.room) in
          let l =
            load_into-Holds id found store p b1 h p_eq (s.table_new id absent)
              (λ i u. spare_unused found i b1 s.valid s.empty u) in
          rw other (
            l.1,
            λ f u.
                subst (λ x. SamePage ((load_into id found b1).1.pages x) p)
                  (some_injective (sym l.0 ∙ u)) l.2,
          )
    ])

-- On a pool that shows the pages of a store, fetching a page of the store leaves a pool that shows
-- the same pages, whatever page it evicts and writes back for it, and a frame that is returned is
-- pinned and holds the page. This assumes that the id is not the invalid one and that a pin count
-- that the call raises stays below 2^32.
pub fetch_page-Fetched :
    (id : ℕ) (store : Store) (p : Page) (b : BufferPoolManager)
    → Represents store b
    → store id ≡ some p
    → id ≢ invalid_page_id
    → ((f : ℕ) → b.page_table id ≡ some f → (b.metadata f).pin_count + 1 < 4294967296)
    → Fetched store id p (fetch_page id b)
fetch_page-Fetched id store p b v p_eq proper fits =
    let w = fetch_page-IsValid id b v.valid proper fits in
    elim (Option-cases (b.page_table id)) [
      | inl e ↦
          let m = fetch_missing-Fetched id store p b v p_eq e in
          record { represents = record { valid = w.0; holds = m.0 }; pinned = w.1; found = m.1 }
      | inr (f, e) ↦
          let hit = fetch_page_found id f b e in
          let (q, q_eq, same) = hit_page id f store b v.holds e in
          record {
            represents = record { valid = w.0; holds = rw hit (hit-Holds f store b v.holds) };
            pinned = w.1;
            found = λ g u.
                let here : SamePage ((fetch_page id b).1.pages f) p = rw hit (
                  subst (λ x. SamePage ((fetch_hit f b).pages f) x)
                    (some_injective (sym q_eq ∙ p_eq)) same) in
                subst (λ x. SamePage ((fetch_page id b).1.pages x) p)
                  (some_injective (ap (λ r. r.0) (sym hit) ∙ u)) here;
          }
    ]
