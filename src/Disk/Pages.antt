-- ===== src/Disk/Pages.antt =====
-- ReadPage and WritePage of src/disk/disk_manager.cpp, on a system that transfers what it is asked to.
use court_db.Base.{
  ℕ, zero, suc, sym, ◌+◌, ◌-◌, ◌≤◌, ◌<◌, ◌≡◌, ◌≢◌, true, false, none, List, [], ◌∷◌, leb, length,
  take, arith, refl, ap, ◌⊎◌, min, max, ◌∙◌,
}
use court_db.Base.Bytes.{Bytes, read, write, length-read, read-write_self, read-write_disjoint}
use court_db.PosixFile.{File, transferred, pwrite, pread}
use court_db.Page.{page_size}
use court_db.Disk.{DiskManager, page_offset, read_page, write_page}

take_all : (n : ℕ) (bs : List ℕ) → n ≡ length bs → take n bs ≡ bs
take_all zero [] e = refl
take_all zero (b ∷ bs) e = absurd (omega arith)
take_all (suc n) [] e = refl
take_all (suc n) (b ∷ bs) e = ap (λ x. b ∷ x) (take_all n bs (omega arith))

-- The whole file after a write of `bs` at `o`.
abbrev pub written_at : File → ℕ → List ℕ → File
written_at f o bs = record { contents = write f.contents o bs; size = max f.size (o + length bs) }

pub pwrite-all :
    (f : File) (o : ℕ) (d : Bytes)
    → pwrite none f o (read d 0 page_size) ≡ (page_size, written_at f o (read d 0 page_size))
unfolding pwrite transferred
pwrite-all f o d =
    rw (length-read d 0 page_size)
      (rw (take_all page_size (read d 0 page_size) (sym (length-read d 0 page_size))) refl)

pub write_page-eq :
    (p : ℕ) (buffer : Bytes) (d : DiskManager)
    → d.io ≡ []
    → p < d.header.page_count
    → ((write_page p buffer d).0 ≡ true)
      × ((write_page p buffer d).1.file
          ≡ written_at d.file (page_offset p) (read buffer 0 page_size))
      × ((write_page p buffer d).1.header ≡ d.header)
      × ((write_page p buffer d).1.io ≡ [])
unfolding write_page
write_page-eq p buffer d quiet inside =
    let past : leb d.header.page_count p ≡ false = ground arith in
    rw (write_page, quiet)
      (rw past (rw (pwrite-all d.file (page_offset p) buffer) (refl, refl, refl, refl)))

apart :
    (p q : ℕ)
    → q ≢ p
    → (page_offset q + page_size ≤ page_offset p) ⊎ (page_offset p + page_size ≤ page_offset q)
apart p q ne = ground arith

abbrev pub page_bytes : ℕ → DiskManager → List ℕ
page_bytes p d = read d.file.contents (page_offset p) page_size

pub read_page-eq :
    (p : ℕ) (buffer : Bytes) (d : DiskManager)
    → d.io ≡ []
    → p < d.header.page_count
    → page_offset p + page_size ≤ d.file.size
    → ((read_page p buffer d).0 ≡ true)
      × ((read_page p buffer d).1 ≡ write buffer 0 (page_bytes p d))
      × ((read_page p buffer d).2.file ≡ d.file)
      × ((read_page p buffer d).2.header ≡ d.header)
      × ((read_page p buffer d).2.io ≡ [])
unfolding read_page pread transferred
read_page-eq p buffer d quiet inside complete =
    let past : leb d.header.page_count p ≡ false = ground arith in
    let whole : min page_size (d.file.size - page_offset p) ≡ page_size = omega arith in
    rw (read_page, quiet)
      (rw past (
        rw whole (
          rw (length-read d.file.contents (page_offset p) page_size)
            (refl, refl, refl, refl, refl))))

pub read-write_sized :
    (d e : Bytes) (o p : ℕ) → read (write d o (read e p page_size)) o page_size ≡ read e p page_size
read-write_sized d e o p =
    ap (read (write d o (read e p page_size)) o) (sym (length-read e p page_size))
    ∙ read-write_self d o (read e p page_size)

pub write_page-page_bytes :
    (p q : ℕ) (buffer : Bytes) (f : File)
    → q ≢ p
    → read
        (written_at f (page_offset p) (read buffer 0 page_size)).contents
        (page_offset q)
        page_size
      ≡ read f.contents (page_offset q) page_size
write_page-page_bytes p q buffer f ne =
    read-write_disjoint f.contents (page_offset p) (read buffer 0 page_size) (page_offset q)
      page_size (rw (length-read buffer 0 page_size) (apart p q ne))

-- On a system that transfers what it is asked to, an existing page that is written is read back,
-- into any buffer, and any other page of the file is left as it was.
pub read_page-write_page :
    (p q : ℕ) (buffer old : Bytes) (d : DiskManager)
    → d.io ≡ []
    → p < d.header.page_count
    → q ≢ p
    → (let (done, d1) = write_page p buffer d in
        let (found, bytes, d2) = read_page p old d1 in
        (done ≡ true)
        × (found ≡ true)
        × (read bytes 0 page_size ≡ read buffer 0 page_size)
        × (page_bytes q d2 ≡ page_bytes q d))
read_page-write_page p q buffer old d quiet inside ne =
    let w : _ = write_page-eq p buffer d quiet inside in
    let long : page_offset p + page_size ≤ (write_page p buffer d).1.file.size =
      rw (w.1) (rw (length-read buffer 0 page_size) (omega arith)) in
    let r : _ = read_page-eq p old (write_page p buffer d).1 w.3 (ground (arith, w.2)) long in
    (
      w.0,
      r.0,
      rw (r.1) (
          read-write_sized old (write_page p buffer d).1.file.contents 0 (page_offset p)
          ∙ rw (w.1) (read-write_sized d.file.contents buffer (page_offset p) 0)),
      rw (r.2) (rw (w.1) (write_page-page_bytes p q buffer d.file ne)),
    )
