-- ===== src/LogManager/Durable.antt =====
-- FlushUpTo and Truncate of src/recovery/log_manager.cpp.
use court_db.Base.{
  ℕ, ◌<◌, ◌≡◌, refl, ◌⊎◌, inl, inr, ◌&&◌, none, [], ltb, leb, length, arith, Bool-cases, ap,
}
use court_db.Base.Bytes.{read}
use court_db.Base.Results.{ok}
use court_db.LogManager.{LogManager, flush_up_to, truncate, open_log}
use court_db.LogManager.Append.{IsValid, flush_buffer-Flushed, log_bytes}

-- FlushUpTo, on a valid log and when its write is complete, keeps the log as it is and valid, and
-- afterwards the file holds the whole log, or reaches past the byte at `lsn`.
pub flush_up_to-Durable :
    (lsn : ℕ) (m : LogManager)
    → IsValid m
    → (m' : LogManager) × (flush_up_to none lsn m ≡ ok tt m')
      × IsValid m'
      × (log_bytes m' ≡ log_bytes m)
      × ((m'.file.size ≡ m'.next_lsn) ⊎ (lsn < m'.file.size))
unfolding flush_up_to
flush_up_to-Durable lsn m v =
    elim (Bool-cases (leb m.flushed_lsn lsn && ltb 0 (length m.log_buffer))) [
      | inl e ↦
          let (m', f, r) = flush_buffer-Flushed 0 m v in
          (
            m',
            rw (flush_up_to, e) f,
            r.valid,
            r.holds,
            inl (omega (arith, r.valid.durable, r.valid.assigned, ap length r.emptied)),
          )
      | inr e ↦ (m, rw (flush_up_to, e) refl, v, refl, ground (arith, v.durable, v.assigned))
    ]

-- After Truncate the log is the one that opening the emptied file gives, valid and without bytes.
pub truncate-open_log :
    (m : LogManager)
    → (truncate m ≡ open_log (truncate m).file)
      × IsValid (truncate m)
      × (log_bytes (truncate m) ≡ [])
unfolding truncate open_log log_bytes read
truncate-open_log m = (refl, omega arith, refl)
