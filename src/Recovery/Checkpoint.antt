-- ===== src/Recovery/Checkpoint.antt =====
-- The logging operations and Checkpoint of src/recovery/recovery_manager.cpp.
use court_db.Base.{
  ℕ, ◌+◌, ◌<◌, ◌≤◌, ◌≡◌, refl, ap, ◌∙◌, arith, none, [], ◌++◌, append_assoc, length, length-append,
}
use court_db.Base.Bytes.{read}
use court_db.Base.Results.{ok}
use court_db.LogRecord.{LogRecord, serialize, make_checkpoint_begin, make_checkpoint_end}
use court_db.LogManager.{LogManager, flush}
use court_db.LogManager.Append.{
  IsValid, log_bytes, length-log_bytes, append_log_record-Appended, flush-Flushed,
}
use court_db.Buffer.{invalid_frame_id, flush_all_pages, open_pool}
use court_db.Buffer.Store.{Store, Represents}
use court_db.Buffer.Store.Modify.{flush_all_pages-Represents}
use court_db.Recovery.{RecoveryManager, append, flush_log, checkpoint}

-- A logging operation adds its record at the end of the log and leaves the pool alone.
append-Appended :
    (r : LogRecord) (m : RecoveryManager)
    → IsValid m.log_manager
    → m.log_manager.next_lsn + length (serialize r) < 18446744073709551616
    → (l : LogManager) × (append none none r m
        ≡ ok (length (log_bytes m.log_manager)) (record m { log_manager = l }))
      × IsValid l
      × (log_bytes l ≡ log_bytes m.log_manager ++ serialize r)
unfolding append
append-Appended r m v h =
    let (l, e, w, holds) = append_log_record-Appended r m.log_manager v h in
    (l, rw (append, e) refl, w, holds)

next_lsn-log_bytes : (m : LogManager) → IsValid m → m.next_lsn ≡ length (log_bytes m)
next_lsn-log_bytes m v = omega (arith, length-log_bytes m, v.assigned)

flush_log-ok :
    (m : RecoveryManager) (l : LogManager)
    → flush none m.log_manager ≡ ok tt l
    → flush_log none m ≡ ok tt (record m { log_manager = l })
unfolding flush_log
flush_log-ok m l e = rw (flush_log, e) refl

checkpoint_returns :
    (m : RecoveryManager) (a b : ℕ) (l₁ l₂ l₃ : LogManager)
    → append none none (make_checkpoint_begin 0) m ≡ ok a (record m { log_manager = l₁ })
    → append none none
        (make_checkpoint_end 0 [])
        (record m { log_manager = l₁; bpm = flush_all_pages m.bpm })
      ≡ ok b (record m { log_manager = l₂; bpm = flush_all_pages m.bpm })
    → flush_log none (record m { log_manager = l₂; bpm = flush_all_pages m.bpm })
      ≡ ok tt (record m { log_manager = l₃; bpm = flush_all_pages m.bpm })
    → checkpoint m ≡ ok tt (record m { log_manager = l₃; bpm = flush_all_pages m.bpm })
unfolding checkpoint
checkpoint_returns m a b l₁ l₂ l₃ e₁ e₂ e₃ = rw (checkpoint, e₁) (rw e₂ e₃)

-- A checkpoint, on a valid log with room for its two records below 2^64, by complete writes, and
-- on a pool that shows the pages of a store: it returns, the log's file holds what was logged and
-- the two records, and the pool, and a new pool of fewer than 2^32 frames on the disk, show the
-- pages of the store.
pub checkpoint-Durable :
    (n : ℕ) (store : Store) (m : RecoveryManager)
    → IsValid m.log_manager
    → m.log_manager.next_lsn
        + (length (serialize (make_checkpoint_begin 0))
            + length (serialize (make_checkpoint_end 0 [])))
      < 18446744073709551616
    → Represents store m.bpm
    → n ≤ invalid_frame_id
    → (after : RecoveryManager) × (checkpoint m ≡ ok tt after)
      × (read after.log_manager.file.contents 0 after.log_manager.file.size
          ≡ log_bytes m.log_manager
            ++ (serialize (make_checkpoint_begin 0) ++ serialize (make_checkpoint_end 0 [])))
      × Represents store after.bpm
      × Represents store (open_pool n after.bpm.disk)
checkpoint-Durable n store m v h r room =
    let first = serialize (make_checkpoint_begin 0) in
    let last = serialize (make_checkpoint_end 0 []) in
    let (l₁, e₁, v₁, b₁) = append-Appended (make_checkpoint_begin 0) m v (omega arith) in
    let lsn : l₁.next_lsn ≡ m.log_manager.next_lsn + length first = omega (
      arith,
      next_lsn-log_bytes l₁ v₁,
      next_lsn-log_bytes m.log_manager v,
      ap length b₁,
      length-append (log_bytes m.log_manager) first,
    ) in
    let (l₂, e₂, v₂, b₂) =
      append-Appended (make_checkpoint_end 0 [])
        (record m { log_manager = l₁; bpm = flush_all_pages m.bpm }) v₁ (omega arith) in
    let (l₃, e₃, v₃, b₃, _) = flush-Flushed l₂ v₂ in
    let flushed = flush_all_pages-Represents n store m.bpm r room in
    (
      record m { log_manager = l₃; bpm = flush_all_pages m.bpm },
      checkpoint_returns m _ _ l₁ l₂ l₃ e₁ e₂
          (flush_log-ok (record m { log_manager = l₂; bpm = flush_all_pages m.bpm }) l₃ e₃),
      b₃ ∙ b₂ ∙ ap (λ x. x ++ last) b₁ ∙ append_assoc (log_bytes m.log_manager) first last,
      flushed.0,
      flushed.1,
    )
