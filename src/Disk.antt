-- ===== src/Disk.antt =====
-- include/disk/disk_manager.h and src/disk/disk_manager.cpp: the database file, its header page
-- and its chain of free pages.
pub mod Tests
pub mod Pages
pub mod FreeList
use court_db.Base.{
  ℕ, ◌+◌, ◌*◌, ◌%◌, Bool, true, false, not, ◌||◌, Option, none, some, List, [], ◌∷◌, leb, ◌==◌,
  if◌then◌else◌, length, u32, sub32,
}
use court_db.Base.Bytes.{Bytes, zeros, read, write, get_le, put_le}
use court_db.Base.Results.{Result, ok, throw}
use court_db.PosixFile.{File, pwrite, pread}
use court_db.Page.{page_size, invalid_page_id}

abbrev pub magic_number : ℕ
magic_number = 1129272658

pub record DatabaseHeader : Type 0 where
  pub magic : ℕ
  pub version : ℕ
  pub page_count : ℕ
  pub free_list_head : ℕ
  pub free_page_count : ℕ

abbrev pub default_header : DatabaseHeader
default_header = record {
  magic = magic_number;
  version = 1;
  page_count = 1;
  free_list_head = invalid_page_id;
  free_page_count = 0;
}

-- `io` holds what the system does in the next calls; where it ends, each call transfers everything.
pub record DiskManager : Type 0 where
  pub file : File
  pub io : List (Option ℕ)
  pub header : DatabaseHeader
  pub num_writes : ℕ
  pub num_reads : ℕ

abbrev pub next_io : List (Option ℕ) → Option ℕ × List (Option ℕ)
next_io [] = (none, [])
next_io (c ∷ cs) = (c, cs)

-- Uint64: the product of two 32-bit numbers cannot wrap.
abbrev pub page_offset : ℕ → ℕ
page_offset page_id = page_id * page_size

-- The read leaves in the buffer what was transferred, also when it fails.
unfoldable pub read_page : ℕ → Bytes → DiskManager → Bool × Bytes × DiskManager
read_page page_id buffer d =
    let (c, rest) = next_io d.io in
    let bs = pread c d.file (page_offset page_id) page_size in
    let after = record d { io = rest } in
    if leb d.header.page_count page_id
    then (false, buffer, d)
    else if not (length bs == page_size)
    then (false, write buffer 0 bs, after)
    else (true, write buffer 0 bs, record after { num_reads = u32 (d.num_reads + 1) })

unfoldable pub write_page : ℕ → Bytes → DiskManager → Bool × DiskManager
write_page page_id buffer d =
    let (c, rest) = next_io d.io in
    let (n, f) = pwrite c d.file (page_offset page_id) (read buffer 0 page_size) in
    let after = record d { file = f; io = rest } in
    if leb d.header.page_count page_id
    then (false, d)
    else if not (n == page_size)
    then (false, after)
    else (true, record after { num_writes = u32 (d.num_writes + 1) })

abbrev pub header_page : DatabaseHeader → Bytes
header_page h =
    let b = put_le 4 (put_le 4 zeros 0 h.magic) 4 h.version in
    let b = put_le 4 (put_le 4 b 8 h.page_count) 12 h.free_list_head in
    put_le 4 b 16 h.free_page_count

unfoldable pub write_header : DiskManager → Result DiskManager Unit
write_header d =
    let (c, rest) = next_io d.io in
    let (n, f) = pwrite c d.file 0 (read (header_page d.header) 0 page_size) in
    let after = record d { file = f; io = rest } in
    if not (n == page_size) then throw after else ok tt after

unfoldable pub read_header : DiskManager → Result DiskManager Unit
read_header d =
    let (c, rest) = next_io d.io in
    let bs = pread c d.file 0 page_size in
    let b = write zeros 0 bs in
    let h : DatabaseHeader = record {
      magic = get_le 4 b 0;
      version = get_le 4 b 4;
      page_count = get_le 4 b 8;
      free_list_head = get_le 4 b 12;
      free_page_count = get_le 4 b 16;
    } in
    if not (length bs == page_size)
    then throw (record d { io = rest })
    else ok tt (record d { io = rest; header = h })

-- The constructor: on no file (`none`) it creates one.
pub open_disk : List (Option ℕ) → Option File → Result DiskManager Unit
open_disk cs none = write_header (record {
  file = record { contents = zeros; size = 0 };
  io = cs;
  header = default_header;
  num_writes = 0;
  num_reads = 0;
})
open_disk cs (some f) =
    elim (read_header
      (record { file = f; io = cs; header = default_header; num_writes = 0; num_reads = 0 })) [
        | throw d ↦ throw d
        | ok u d ↦ if d.header.magic == magic_number then ok tt d else throw d
      ]

-- The two branches of AllocatePage, before the header is written.
abbrev pub reuse_page : DiskManager → DiskManager
reuse_page d =
    let new_page_id = d.header.free_list_head in
    let (found, buffer, d1) = read_page new_page_id zeros d in
    let next = record d1 {
      header = record d1.header {
        free_list_head = get_le 4 buffer 0;
        free_page_count = sub32 d1.header.free_page_count 1;
      };
    } in
    (write_page new_page_id zeros (if found then next else d1)).1

abbrev pub extend_file : DiskManager → Bool × DiskManager
extend_file d =
    let (c, rest) = next_io d.io in
    let new_page_id = d.header.page_count in
    let (n, f) = pwrite c d.file (page_offset new_page_id) (read zeros 0 page_size) in
    let after = record d { file = f; io = rest } in
    if not (n == page_size)
    then (false, after)
    else (true, record after { header = record d.header { page_count = u32 (new_page_id + 1) } })

-- Passes on the result of writing the header.
abbrev pub and_return : ℕ → Result DiskManager Unit → Result DiskManager ℕ
and_return page_id (ok u d) = ok page_id d
and_return page_id (throw d) = throw d

unfoldable pub allocate_page : DiskManager → Result DiskManager ℕ
allocate_page d =
    let (extended, d1) = extend_file d in
    if not (d.header.free_list_head == invalid_page_id)
    then and_return d.header.free_list_head (write_header (reuse_page d))
    else if extended
    then and_return d.header.page_count (write_header d1)
    else throw d1

unfoldable pub deallocate_page : ℕ → DiskManager → Result DiskManager Bool
deallocate_page page_id d =
    let (done, d1) = write_page page_id (put_le 4 zeros 0 d.header.free_list_head) d in
    let linked = record d1 {
      header = record d1.header {
        free_list_head = page_id;
        free_page_count = u32 (d1.header.free_page_count + 1);
      };
    } in
    if page_id == 0 || leb d.header.page_count page_id
    then ok false d
    else if not done
    then ok false d1
    else elim (write_header linked) [ ok u d2 ↦ ok true d2 | throw d2 ↦ throw d2 ]
