-- ===== src/Buffer/Store.antt =====
-- What the buffer pool of src/buffer/buffer_pool_manager.cpp shows its clients: a page for each page
-- id, wherever its bytes are, in a frame or in the file.
pub mod Tests
pub mod Evict
pub mod Load
pub mod Modify
pub mod Idle
use court_db.Base.{
  ℕ, ◌+◌, ◌*◌, ◌≤◌, ◌<◌, ◌≡◌, ◌≢◌, refl, sym, ap, subst, ◌∙◌, arith, Bool, true, false, Option,
  none, some, List, [], ◌==◌, if◌then◌else◌, length, All, ◌⊎◌, inl, inr, Bool-cases, max, ==_refl,
}
use court_db.Base.Bytes.{Bytes, read, length-read}
use court_db.PosixFile.{File}
use court_db.Page.{Page, page_size}
use court_db.Page.Invariant
use court_db.Page.Image.{HeaderFits, SlotFits, serialize_to_buffer, deserialize_from_buffer}
use court_db.Page.Image.Same.{
  SamePage, SamePage-refl, SamePage-trans, SamePage-IsValid, serialize_to_buffer-SamePage,
  reread-SamePage,
}
use court_db.Page.Image.Reread.{read-Agrees}
use court_db.Disk.{DiskManager, page_offset, read_page, write_page}
use court_db.Disk.Pages.{
  page_bytes, written_at, write_page-eq, write_page-page_bytes, read-write_sized,
}
use court_db.Buffer.{BufferPoolManager, FrameMetadata, assign, write_back}
use court_db.Buffer.Invariant.{IsValid}

-- A page that its image keeps.
pub record IsStorable (p : Page) : Type 0 where
  pub valid : Invariant.IsValid p
  pub fits : HeaderFits p.header
  pub slots_fit : All SlotFits p.slots

pub SamePage-IsStorable : (p q : Page) → SamePage p q → IsStorable q → IsStorable p
SamePage-IsStorable p q s g = record {
  valid = SamePage-IsValid p q s g.valid;
  fits = subst HeaderFits (sym s.header_eq) g.fits;
  slots_fit = subst (All SlotFits) (sym s.slots_eq) g.slots_fit;
}

-- From the file, page `id` is read as `q`, into any frame.
pub record Stored (f : File) (id : ℕ) (q : Page) : Type 0 where
  pub complete : page_offset id + page_size ≤ f.size
  pub reads :
      (old : Page) (b : Bytes)
      → read b 0 page_size ≡ read f.contents (page_offset id) page_size
      → SamePage (deserialize_from_buffer (record old { bytes = b })) q

-- A partial map from page ids to pages.
abbrev pub Store : Type 0
Store = ℕ → Option Page

-- A frame shows the page that the store has under an id.
abbrev pub Shows : Store → ℕ → Page → Type 0
Shows store id p = (q : Page) × (store id ≡ some q) × SamePage p q

-- The frames and the file together hold the pages of `store`.
pub record Holds (store : Store) (b : BufferPoolManager) : Type 0 where
  pub quiet : b.disk.io ≡ []
  pub inside : (id : ℕ) (q : Page) → store id ≡ some q → (0 < id) × (id < b.disk.header.page_count)
  pub storable : (id : ℕ) (q : Page) → store id ≡ some q → IsStorable q
  pub resident : (id f : ℕ) → b.page_table id ≡ some f → Shows store id (b.pages f)
  pub stored :
      (id : ℕ) (q : Page)
      → store id ≡ some q
      → ((f : ℕ) → b.page_table id ≡ some f → (b.metadata f).is_dirty ≡ false)
      → Stored b.disk.file id q

-- A pool that is valid and holds the pages of `store`.
pub record Represents (store : Store) (b : BufferPoolManager) : Type 0 where
  pub valid : IsValid b
  pub holds : Holds store b

-- A page that is written is stored.
pub write_page-Stored :
    (id : ℕ) (p q : Page) (d : DiskManager)
    → d.io ≡ []
    → id < d.header.page_count
    → IsStorable p
    → SamePage p q
    → Stored (write_page id (serialize_to_buffer p).bytes d).1.file id q
write_page-Stored id p q d quiet inside g s =
    let bs = (serialize_to_buffer p).bytes in
    let w = write_page-eq id bs d quiet inside in
    rw w.1 (record {
      complete = omega (arith, length-read bs 0 page_size);
      reads = λ old b e.
          SamePage-trans (deserialize_from_buffer (record old { bytes = b })) p q
            (reread-SamePage p old b g.valid g.fits g.slots_fit
              (read-Agrees b bs (e ∙ read-write_sized d.file.contents bs (page_offset id) 0)))
            s;
    })

-- The other pages stay stored.
pub write_page-Stored_ne :
    (id other : ℕ) (bs : Bytes) (q : Page) (d : DiskManager)
    → d.io ≡ []
    → id < d.header.page_count
    → other ≢ id
    → Stored d.file other q
    → Stored (write_page id bs d).1.file other q
write_page-Stored_ne id other bs q d quiet inside ne s =
    let w = write_page-eq id bs d quiet inside in
    rw w.1 (record {
      complete = omega (arith, s.complete);
      reads = λ old b e. s.reads old b (e ∙ write_page-page_bytes id other bs d.file ne);
    })

-- The page table agrees with the metadata.
abbrev pub IsMapped : BufferPoolManager → Type 0
IsMapped b = (p f : ℕ) → b.page_table p ≡ some f → ((b.metadata f).page_id ≡ p) × (f < b.pool_size)

-- A frame holds one page.
pub frame_unique :
    (b : BufferPoolManager) (i j f g : ℕ)
    → IsMapped b
    → b.page_table i ≡ some f
    → b.page_table j ≡ some g
    → i ≢ j
    → f ≢ g
frame_unique b i j f g v p q ne e =
    ne (sym (v i f p).0 ∙ ap (λ x. FrameMetadata.page_id (b.metadata x)) e ∙ (v j g q).0)

some_eq : {p q : Page} {o : Option Page} → o ≡ some p → o ≡ some q → p ≡ q
some_eq e f = cc

-- Writing a frame back changes no page, and its page is stored then.
pub write_back-Holds :
    (id f : ℕ) (store : Store) (b : BufferPoolManager)
    → IsMapped b
    → Holds store b
    → b.page_table id ≡ some f
    → Holds store (write_back id f b)
      × ((q : Page) → store id ≡ some q → Stored (write_back id f b).disk.file id q)
unfolding write_back
write_back-Holds id f store b v h e =
    let bs = (serialize_to_buffer (b.pages f)).bytes in
    let (p, p_eq, same) = h.resident id f e in
    let inside = (h.inside id p p_eq).1 in
    let g : IsStorable (b.pages f) =
      SamePage-IsStorable (b.pages f) p same (h.storable id p p_eq) in
    let w = write_page-eq id bs b.disk h.quiet inside in
    let now : (q : Page) → store id ≡ some q → Stored (write_page id bs b.disk).1.file id q =
      λ q q_eq.
        subst (λ x. Stored (write_page id bs b.disk).1.file id x) (some_eq p_eq q_eq)
          (write_page-Stored id (b.pages f) p b.disk h.quiet inside g same) in
    (
      record {
        quiet = w.3;
        inside = λ i q t. omega (arith, h.inside i q t, ap (λ x. x.page_count) w.2);
        storable = h.storable;
        resident = λ i k t. elim (Bool-cases (k == f)) [
          | inl here ↦
              let k_eq : k ≡ f = ground arith in
              let (q, q_eq, s) = h.resident i f (subst (λ x. b.page_table i ≡ some x) k_eq t) in
              rw here (
                q,
                q_eq,
                SamePage-trans (serialize_to_buffer (b.pages f)) (b.pages f) q
                    (serialize_to_buffer-SamePage (b.pages f) g.valid) s,
              )
          | inr away ↦ rw away (h.resident i k t)
        ];
        stored = λ i q k t. elim (Bool-cases (i == id)) [
          | inl here ↦
              let i_eq : id ≡ i = ground arith in
              subst
                (λ x. (y : Page) → store x ≡ some y → Stored (write_page id bs b.disk).1.file x y)
                i_eq now q k
          | inr away ↦
              let ne : i ≢ id = ground arith in
              write_page-Stored_ne id i bs q b.disk h.quiet inside ne
                (h.stored i q k (λ k' u. ground (arith, t k' u, frame_unique b i id k' f v u e ne)))
        ];
      },
      now,
    )
