-- ===== src/Disk/FreeList.antt =====
-- AllocatePage and DeallocatePage of src/disk/disk_manager.cpp: the chain of free pages.
use court_db.Base.{
  ℕ, ◌+◌, ◌≤◌, ◌<◌, ◌^◌, ◌≡◌, ◌≢◌, refl, ap, subst, sym, ◌∙◌, inr, true, false, [], arith, leb,
  ◌==◌, u32, sub32,
}
use court_db.Base.Bytes.{
  Bytes, zeros, read, write, get_le, put_le, copied, get_le_ext, get_le-put_le_self, length-read,
  read-write_disjoint,
}
use court_db.Base.Results.{ok}
use court_db.PosixFile.{File}
use court_db.Page.{page_size, invalid_page_id}
use court_db.Disk.{
  DatabaseHeader, DiskManager, page_offset, header_page, read_page, write_page, write_header,
  reuse_page, allocate_page, deallocate_page,
}
use court_db.Disk.Pages.{
  written_at, pwrite-all, write_page-eq, read_page-eq, page_bytes, read-write_sized,
}

-- The state after the header is written by a complete call.
abbrev saved : DiskManager → DiskManager
saved d = record d { file = written_at d.file 0 (read (header_page d.header) 0 page_size); io = [] }

write_header-eq : (d : DiskManager) → d.io ≡ [] → write_header d ≡ ok tt (saved d)
unfolding write_header
write_header-eq d quiet =
    rw (write_header, quiet) (rw (pwrite-all d.file 0 (header_page d.header)) refl)

-- The first field of a page that holds a link.
link_read :
    (v : ℕ) → v < 256 ^ 4 → get_le 4 (write zeros 0 (read (put_le 4 zeros 0 v) 0 page_size)) 0 ≡ v
link_read v h =
    get_le_ext 4 (write zeros 0 (read (put_le 4 zeros 0 v) 0 page_size)) (put_le 4 zeros 0 v) 0 0
      (λ i p.
        copied (put_le 4 zeros 0 v) 0 page_size (0 + i) (omega arith)
        ∙ ap (put_le 4 zeros 0 v) (omega arith))
    ∙ get_le-put_le_self 4 zeros 0 v h

-- The bytes of page `p` are its link, also after the header is written.
linked_bytes :
    (p : ℕ) (x h : Bytes) (f : File)
    → 0 < p
    → read
        (written_at
          (written_at f (page_offset p) (read x 0 page_size))
          0
          (read h 0 page_size)).contents
        (page_offset p)
        page_size
      ≡ read x 0 page_size
linked_bytes p x h f pos =
    read-write_disjoint _ 0 (read h 0 page_size) (page_offset p) page_size
      (inr (omega (arith, length-read h 0 page_size)))
    ∙ read-write_sized f.contents x (page_offset p) 0

-- AllocatePage on a chain that is not empty.
module _ (d : DiskManager) (quiet : d.io ≡ []) (chained : d.header.free_list_head ≢ invalid_page_id)
    (inside : d.header.free_list_head < d.header.page_count)
    (complete : page_offset d.header.free_list_head + page_size ≤ d.file.size) where
  after_read : DiskManager
  after_read = (read_page d.header.free_list_head zeros d).2

  unlinked : DiskManager
  unfolding after_read
  unlinked = record after_read {
    header = record after_read.header {
      free_list_head = get_le 4 (read_page d.header.free_list_head zeros d).1 0;
      free_page_count = sub32 after_read.header.free_page_count 1;
    };
  }

  reused : reuse_page d ≡ (write_page d.header.free_list_head zeros unlinked).1
  unfolding unlinked after_read
  reused =
      rw (reuse_page, (read_page-eq d.header.free_list_head zeros d quiet inside complete).0) refl

  unlinked_header : unlinked.header ≡ record d.header {
    free_list_head = get_le 4 (write zeros 0 (page_bytes d.header.free_list_head d)) 0;
    free_page_count = sub32 d.header.free_page_count 1;
  }
  unfolding unlinked after_read
  unlinked_header =
      let r : _ = read_page-eq d.header.free_list_head zeros d quiet inside complete in
      rw (r.3, r.1) refl

  unlinked_io : unlinked.io ≡ []
  unfolding unlinked after_read
  unlinked_io = (read_page-eq d.header.free_list_head zeros d quiet inside complete).4

  reuse_page-eq :
      ((reuse_page d).io ≡ [])
      × ((reuse_page d).header ≡ record d.header {
        free_list_head = get_le 4 (write zeros 0 (page_bytes d.header.free_list_head d)) 0;
        free_page_count = sub32 d.header.free_page_count 1;
      })
  reuse_page-eq =
      let within : d.header.free_list_head < unlinked.header.page_count =
        subst (λ (h : DatabaseHeader). d.header.free_list_head < h.page_count) (sym unlinked_header)
          inside in
      let w : _ = write_page-eq d.header.free_list_head zeros unlinked unlinked_io within in
      rw reused (w.3, w.2 ∙ unlinked_header)

  allocate_chained : allocate_page d ≡ ok d.header.free_list_head (saved (reuse_page d))
  unfolding allocate_page
  allocate_chained =
      let some_free : (d.header.free_list_head == invalid_page_id) ≡ false = ground arith in
      rw (allocate_page, some_free) (rw (write_header-eq (reuse_page d) reuse_page-eq.0) refl)

-- DeallocatePage on an existing page, then AllocatePage.
module _ (p : ℕ) (d : DiskManager) (quiet : d.io ≡ []) (proper : p < invalid_page_id) (pos : 0 < p)
    (inside : p < d.header.page_count) (head_fits : d.header.free_list_head < 256 ^ 4)
    (count_fits : d.header.free_page_count + 1 < 256 ^ 4) where
  link : Bytes
  link = put_le 4 zeros 0 d.header.free_list_head

  freed : DiskManager
  unfolding link
  freed =
      let d1 = (write_page p link d).1 in
      record d1 {
        header = record d1.header {
          free_list_head = p;
          free_page_count = u32 (d1.header.free_page_count + 1);
        };
      }

  deallocated : deallocate_page p d ≡ ok true (saved freed)
  unfolding deallocate_page freed link
  deallocated =
      let w : _ = write_page-eq p link d quiet inside in
      let nonzero : (p == 0) ≡ false = ground arith in
      let exists : leb d.header.page_count p ≡ false = ground arith in
      rw (deallocate_page, nonzero) (rw exists (rw (w.0) (rw (write_header-eq freed w.3) refl)))

  freed_header :
      freed.header
      ≡ record d.header { free_list_head = p; free_page_count = d.header.free_page_count + 1 }
  unfolding freed link
  freed_header =
      let w : _ = write_page-eq p link d quiet inside in
      let n : u32 (d.header.free_page_count + 1) ≡ d.header.free_page_count + 1 = omega arith in
      rw (w.2) (rw n refl)

  freed_file : freed.file ≡ written_at d.file (page_offset p) (read link 0 page_size)
  unfolding freed link
  freed_file = (write_page-eq p link d quiet inside).1

  head_is : freed.header.free_list_head ≡ p
  head_is = ap (λ (h : DatabaseHeader). h.free_list_head) freed_header

  chained : (saved freed).header.free_list_head ≢ invalid_page_id
  chained e = omega (arith, head_is)

  exists : (saved freed).header.free_list_head < (saved freed).header.page_count
  exists = omega (arith, head_is, ap (λ (h : DatabaseHeader). h.page_count) freed_header)

  complete : page_offset (saved freed).header.free_list_head + page_size ≤ (saved freed).file.size
  complete = omega (
    arith,
    head_is,
    ap (λ (f : File). f.size) freed_file,
    length-read link 0 page_size,
    length-read (header_page freed.header) 0 page_size,
  )

  linked : page_bytes (saved freed).header.free_list_head (saved freed) ≡ read link 0 page_size
  linked =
      ap (λ q. page_bytes q (saved freed)) head_is
      ∙ ap
          (λ f.
            read (written_at f 0 (read (header_page freed.header) 0 page_size)).contents
              (page_offset p) page_size)
          freed_file
      ∙ linked_bytes p link (header_page freed.header) d.file pos

  restored : (reuse_page (saved freed)).header ≡ d.header
  unfolding link
  restored =
      (reuse_page-eq (saved freed) refl chained exists complete).1
      ∙ rw (linked, link_read d.header.free_list_head head_fits, freed_header)
          (ap (λ n. record d.header { free_page_count = n }) (omega arith))

  -- On a system that transfers what it is asked to, deallocating an existing page other than the
  -- header page and the invalid one succeeds, the next allocation returns that page, and the
  -- header, with its chain of free pages and their count, is then what it was; head and count fit
  -- their widths.
  pub allocate_page-deallocate_page :
      (d1 d2 : DiskManager) × (deallocate_page p d ≡ ok true d1)
      × (allocate_page d1 ≡ ok p d2)
      × (d2.header ≡ d.header)
  allocate_page-deallocate_page = (
    saved freed,
    saved (reuse_page (saved freed)),
    deallocated,
    allocate_chained (saved freed) refl chained exists complete
        ∙ ap (λ q. ok q (saved (reuse_page (saved freed)))) head_is,
    restored,
  )
