-- ===== src/Disk/Tests.antt =====
-- The disk manager's theorem at a file of two pages, and the header of a new file.
use court_db.Base.{◌≡◌, refl, Bool, true, false, none, some, [], ◌∷◌, arith}
use court_db.Base.Bytes.{Bytes, zeros, read}
use court_db.Base.Results.{Result, ok, throw}
use court_db.PosixFile.{pwrite, transferred}
use court_db.Page.{page_size}
use court_db.Disk.{
  DiskManager, default_header, write_header, allocate_page, deallocate_page, read_page, write_page,
  open_disk,
}
use court_db.Disk.FreeList.{allocate_page-deallocate_page}
use court_db.Disk.Pages.{page_bytes, read_page-write_page}

abbrev pub two_pages : DiskManager
two_pages = record {
  file = record { contents = zeros; size = 8192 };
  io = [];
  header = record default_header { page_count = 2 };
  num_writes = 0;
  num_reads = 0;
}

abbrev ones : Bytes
ones i = 1

read_page-write_page_example :
    (let (done, d1) = write_page 1 ones two_pages in
      let (found, bytes, d2) = read_page 1 zeros d1 in
      (done ≡ true)
      × (found ≡ true)
      × (read bytes 0 page_size ≡ read ones 0 page_size)
      × (page_bytes 0 d2 ≡ page_bytes 0 two_pages))
read_page-write_page_example =
    read_page-write_page 1 0 ones zeros two_pages refl (omega arith) (omega arith)

-- Where no file can be written, opening throws.
abbrev is_thrown : {S A : Type 0} → Result S A → Bool
is_thrown (ok a s) = false
is_thrown (throw s) = true

unwritable : is_thrown (open_disk (some 0 ∷ []) none) ≡ true
unfolding open_disk write_header pwrite transferred read
unwritable = refl

allocate_page-deallocate_page_example :
    (d1 d2 : DiskManager) × (deallocate_page 1 two_pages ≡ ok true d1)
    × (allocate_page d1 ≡ ok 1 d2)
    × (d2.header ≡ two_pages.header)
allocate_page-deallocate_page_example =
    allocate_page-deallocate_page 1 two_pages refl (omega arith) (omega arith) (omega arith)
      (omega arith) (omega arith)
