-- ===== src/Buffer/Durable.antt =====
-- A page that the buffer pool of src/buffer/buffer_pool_manager.cpp writes back and loads again.
use court_db.Base.{ℕ, ◌+◌, arith, ◌<◌, ◌≡◌, refl, ap, ◌∙◌, true, some, [], All, ==_refl}
use court_db.Base.Bytes.{read}
use court_db.Page.{Page, page_size, get_record}
use court_db.Page.Invariant.{IsValid}
use court_db.Page.Image.{HeaderFits, SlotFits, serialize_to_buffer, deserialize_from_buffer}
use court_db.Page.Image.Reread.{read-Agrees, reread-get_record}
use court_db.Disk.{read_page, write_page}
use court_db.Disk.Pages.{read_page-write_page}
use court_db.Buffer.{BufferPoolManager, write_back, load_into}

loaded_page :
    (p g : ℕ) (b : BufferPoolManager)
    → (read_page p (b.pages g).bytes b.disk).0 ≡ true
    → ((load_into p g b).0 ≡ some g)
      × ((load_into p g b).1.pages g
          ≡ deserialize_from_buffer
              (record (b.pages g) { bytes = (read_page p (b.pages g).bytes b.disk).1 }))
unfolding load_into
loaded_page p g b found = rw (found, ==_refl) (refl, refl)

-- A pool writes a frame's page back, and later loads it into a frame.
module _ (p f g : ℕ) (b later : BufferPoolManager) (quiet : b.disk.io ≡ [])
    (exists : p < b.disk.header.page_count) (unchanged : later.disk ≡ (write_back p f b).disk)
    (v : IsValid (b.pages f)) (fits : HeaderFits (b.pages f).header)
    (entries : All SlotFits (b.pages f).slots) where
  written :
      (write_back p f b).disk ≡ (write_page p (serialize_to_buffer (b.pages f)).bytes b.disk).1
  unfolding write_back
  written = refl

  disk_eq : later.disk ≡ (write_page p (serialize_to_buffer (b.pages f)).bytes b.disk).1
  disk_eq = unchanged ∙ written

  reads_back :
      ((read_page p (later.pages g).bytes later.disk).0 ≡ true)
      × (read (read_page p (later.pages g).bytes later.disk).1 0 page_size
          ≡ read (serialize_to_buffer (b.pages f)).bytes 0 page_size)
  reads_back =
      let r : _ =
        read_page-write_page p (p + 1) (serialize_to_buffer (b.pages f)).bytes (later.pages g).bytes
          b.disk quiet exists (omega arith) in
      rw disk_eq (r.1, r.2)

  -- A well-formed page whose fields fit their widths, written back from one frame under the id of
  -- an existing page on a system that transfers what it is asked to, and loaded into any frame of
  -- a pool on the disk that is left, has the same header there, and every slot returns the record
  -- that it returned before.
  pub load_into-write_back :
      ((load_into p g later).0 ≡ some g)
      × (((load_into p g later).1.pages g).header ≡ (b.pages f).header)
      × ((j : ℕ) → get_record j ((load_into p g later).1.pages g) ≡ get_record j (b.pages f))
  load_into-write_back =
      let l : _ = loaded_page p g later reads_back.0 in
      let r : _ =
        reread-get_record (b.pages f) (later.pages g)
          (read_page p (later.pages g).bytes later.disk).1 v fits entries
          (read-Agrees _ _ reads_back.1) in
      (l.0, ap (λ (q : Page). q.header) l.1 ∙ r.0, λ j. ap (get_record j) l.1 ∙ r.2 j)
