-- ===== src/PosixFile.antt =====
-- The files that src/disk/disk_manager.cpp and src/recovery/log_manager.cpp keep open, and the two
-- system calls that they make on them. The operating system chooses how much a call transfers.
use court_db.Base.{
  ℕ, ◌+◌, ◌-◌, Option, none, some, List, ◌==◌, if◌then◌else◌, length, take, min, max,
}
use court_db.Base.Bytes.{Bytes, read, write}

pub record File : Type 0 where
  pub contents : Bytes
  pub size : ℕ

-- The number of bytes transferred out of `n`: all of them (`none`), or at most `k`.
unfoldable pub transferred : Option ℕ → ℕ → ℕ
transferred none n = n
transferred (some k) n = min k n

unfoldable pub pwrite : Option ℕ → File → ℕ → List ℕ → ℕ × File
unfolding transferred
pwrite io f offset bs =
    let n = transferred io (length bs) in
    (
      n,
      record {
        contents = write f.contents offset (take n bs);
        size = if n == 0 then f.size else max f.size (offset + n);
      },
    )

-- The bytes that pread transfers: none of them lie past the end of the file.
unfoldable pub pread : Option ℕ → File → ℕ → ℕ → List ℕ
unfolding transferred
pread io f offset n = read f.contents offset (transferred io (min n (f.size - offset)))
