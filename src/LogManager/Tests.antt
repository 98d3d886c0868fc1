-- ===== src/LogManager/Tests.antt =====
-- The log manager's theorems at a log of two records.
use court_db.Base.{◌<◌, ◌≡◌, refl, ◌⊎◌, none, [], ◌∷◌, arith}
use court_db.Base.Bytes.{zeros, read}
use court_db.Base.Results.{ok}
use court_db.PosixFile.{File}
use court_db.LogRecord.{LogRecord, serialize, make_insert, make_new_page}
use court_db.LogRecord.RoundTrip.{make_insert-IsWellFormed, make_new_page-IsWellFormed}
use court_db.LogManager.{LogIterator, LogManager, open_log, flush_up_to, begin_at, visit}
use court_db.LogManager.Append.{IsValid, log_bytes}
use court_db.LogManager.Durable.{flush_up_to-Durable}
use court_db.LogManager.Iterate.{IsLogged, log_image, append_all, visit-append_all}

abbrev empty_file : File
empty_file = record { contents = zeros; size = 0 }

abbrev inserted : LogRecord
inserted = make_insert 0 3 1 (8 ∷ 9 ∷ [])

abbrev allocated : LogRecord
allocated = make_new_page 0 3

inserted-IsLogged : IsLogged inserted
unfolding make_insert
inserted-IsLogged = record {
  well_formed =
      make_insert-IsWellFormed 0 3 1 (8 ∷ 9 ∷ []) (omega arith) (omega arith) (omega arith)
        (omega arith);
  valid = refl;
}

allocated-IsLogged : IsLogged allocated
unfolding make_new_page
allocated-IsLogged = record {
  well_formed = make_new_page-IsWellFormed 0 3 (omega arith) (omega arith);
  valid = refl;
}

-- A log whose buffer holds two bytes.
abbrev buffered : LogManager
buffered = record { file = empty_file; next_lsn = 2; flushed_lsn = 0; log_buffer = 1 ∷ 2 ∷ [] }

buffered-IsValid : IsValid buffered
buffered-IsValid = omega arith

flush_up_to-Durable_example :
    (m' : LogManager) × (flush_up_to none 0 buffered ≡ ok tt m')
    × IsValid m'
    × (log_bytes m' ≡ log_bytes buffered)
    × ((m'.file.size ≡ m'.next_lsn) ⊎ (0 < m'.file.size))
flush_up_to-Durable_example = flush_up_to-Durable 0 buffered buffered-IsValid

visit-append_all_example :
    (m m' : LogManager) × (append_all
        (allocated ∷ inserted ∷ [])
        (open_log (record { contents = zeros; size = 0 }))
      ≡ ok tt m)
    × (it : LogIterator) × (begin_at none 0 m ≡ ok it m')
    × (visit 3 it ≡ allocated ∷ inserted ∷ [])
unfolding log_image serialize read make_insert make_new_page
visit-append_all_example =
    visit-append_all (allocated ∷ inserted ∷ []) zeros (allocated-IsLogged, (inserted-IsLogged, tt))
      (omega arith)
