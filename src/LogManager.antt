-- ===== src/LogManager.antt =====
-- include/recovery/log_manager.h and src/recovery/log_manager.cpp: the buffered, append-only log.
mod Tests
pub mod Append
pub mod Durable
pub mod Iterate
use court_db.Base.{
  ℕ, zero, suc, ◌+◌, ◌%◌, ◌-◌, ◌≡◌, Bool, true, false, not, ◌&&◌, ◌||◌, Option, none, some, List,
  [], ◌∷◌, ◌++◌, ltb, leb, ◌==◌, if◌then◌else◌, length, take, min, max, u64,
}
use court_db.Base.Bytes.{Bytes, zeros, read, write, get_le}
use court_db.Base.Results.{Result, ok, throw, ◌>>=◌}
use court_db.PosixFile.{File, pwrite}
use court_db.LogRecord.{LogRecord, LogRecordType, invalid, serialize, deserialize}

-- LogManager::DEFAULT_LOG_BUFFER_SIZE
abbrev pub log_buffer_size : ℕ
log_buffer_size = 65536

-- `log_buffer` is the part of the buffer below `buffer_offset_`.
pub record LogManager : Type 0 where
  pub file : File
  pub next_lsn : ℕ
  pub flushed_lsn : ℕ
  pub log_buffer : List ℕ

-- The constructor, on an existing file or an empty new one.
unfoldable pub open_log : File → LogManager
open_log f = record { file = f; next_lsn = f.size; flushed_lsn = f.size; log_buffer = [] }

pub flush_buffer : Option ℕ → LogManager → Result LogManager Unit
flush_buffer io m =
    let (n, f) = pwrite io m.file m.flushed_lsn m.log_buffer in
    if length m.log_buffer == 0
    then ok tt m
    else if n == length m.log_buffer
    then ok tt (record m {
      file = f;
      flushed_lsn = u64 (m.flushed_lsn + length m.log_buffer);
      log_buffer = [];
    })
    else throw (record m { file = f })

-- The part of AppendLogRecord after the record is serialised and its LSN assigned.
pub store : Option ℕ → ℕ → List ℕ → LogManager → Result LogManager ℕ
store io lsn bs m =
    let (n, f) = pwrite io m.file lsn bs in
    if ltb log_buffer_size (length bs)
    then (if n == length bs
        then ok lsn (record m { file = f; flushed_lsn = m.next_lsn })
        else throw (record m { file = f }))
    else ok lsn (record m { log_buffer = m.log_buffer ++ bs })

pub append_log_record : Option ℕ → Option ℕ → LogRecord → LogManager → Result LogManager ℕ
append_log_record io₁ io₂ r m =
    let bs = serialize r in
    let m' = record m { next_lsn = u64 (m.next_lsn + length bs) } in
    (if ltb log_buffer_size (length m.log_buffer + length bs)
      then flush_buffer io₁ m'
      else ok tt m')
    >>= λ _ m''. store io₂ m.next_lsn bs m''

-- Flush; fsync changes nothing that the process can see.
pub flush : Option ℕ → LogManager → Result LogManager Unit
flush io m = if ltb 0 (length m.log_buffer) then flush_buffer io m else ok tt m

pub flush_up_to : Option ℕ → ℕ → LogManager → Result LogManager Unit
flush_up_to io lsn m =
    if leb m.flushed_lsn lsn && ltb 0 (length m.log_buffer) then flush_buffer io m else ok tt m

pub truncate : LogManager → LogManager
truncate m = record {
  file = record { contents = m.file.contents; size = 0 };
  next_lsn = 0;
  flushed_lsn = 0;
  log_buffer = [];
}

-- LogIterator. The current record counts only while `valid` holds.
pub record LogIterator : Type 0 where
  pub file : File
  pub current_offset : ℕ
  pub current : Option LogRecord

abbrev is_invalid : LogRecordType → Bool
is_invalid invalid = true
is_invalid _ = false

-- ReadCurrentRecord: the record at an offset of the file, if it is valid there. A pread within the
-- file is complete, and one that reaches past its end is short.
pub read_record_at : File → ℕ → Option LogRecord
read_record_at f offset =
    let size = get_le 4 f.contents offset in
    let r = deserialize (write zeros 0 (read f.contents offset size)) size in
    if leb f.size offset
    then none
    else if ltb f.size (offset + 4) || size == 0
    then none
    else if ltb f.size (offset + size)
    then none
    else if is_invalid r.kind
    then none
    else some r

-- The iterator on the file of a log that is flushed.
pub iterator_at : ℕ → LogManager → LogIterator
iterator_at lsn m = record {
  file = m.file;
  current_offset = lsn;
  current = read_record_at m.file lsn;
}

-- Begin and BeginAt: they flush first, so that all records are in the file. Begin starts at 0.
pub begin_at : Option ℕ → ℕ → LogManager → Result LogManager LogIterator
begin_at io lsn m = elim (flush io m) [ throw m' ↦ throw m' | ok u m' ↦ ok (iterator_at lsn m') m' ]

-- Next, from a valid iterator whose current record is `r`.
pub next : LogRecord → LogIterator → LogIterator
next r it =
    let offset = u64 (it.current_offset + r.total_size) in
    record it {
      current_offset = offset;
      current = if leb it.file.size offset then none else read_record_at it.file offset;
    }

-- The records that a loop `while (it.IsValid()) { ...; it.Next(); }` visits, with fuel.
unfoldable pub visit : ℕ → LogIterator → List LogRecord
visit zero it = []
visit (suc fuel) it = elim it.current [ none ↦ [] | some r ↦ r ∷ visit fuel (next r it) ]
