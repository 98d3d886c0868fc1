-- ===== src/Recovery.antt =====
-- include/recovery/recovery_manager.h and src/recovery/recovery_manager.cpp: redo of the log into the
-- buffer pool, and checkpoints.
pub mod Redo
pub mod Effects
mod Tests
pub mod Replay
pub mod Checkpoint
use court_db.Base.{
  ℕ, zero, suc, ◌+◌, Bool, true, false, Option, none, some, List, [], ◌∷◌, if◌then◌else◌, u32,
}
use court_db.Base.Results.{Result, ok, throw, ◌>>=◌}
use court_db.Page.{Page, get_record, insert_record, delete_record, update_record}
use court_db.LogRecord.{
  LogRecord, LogRecordType, invalid, insert, delete, update, new_page, checkpoint_begin,
  checkpoint_end, unknown, make_insert, make_delete, make_update, make_new_page,
  make_checkpoint_begin, make_checkpoint_end, get_update_data,
}
use court_db.LogManager.{LogManager, LogIterator, append_log_record, flush, begin_at, next}
use court_db.Buffer.{BufferPoolManager, fetch_page, unpin_page, flush_all_pages}
use court_db.Buffer.Store.Modify.{set_frame}

-- The disk manager that the source keeps is not used after the constructor.
pub record RecoveryManager : Type 0 where
  pub log_manager : LogManager
  pub bpm : BufferPoolManager
  pub redo_count : ℕ

-- The three cases of RedoRecord that change a page: whether they count as redone, and the page that
-- they leave. What the page's own operation returns is not looked at.
pub redo_insert : LogRecord → Page → Bool × Page
redo_insert r p = elim (get_record r.slot_id p) [
  | some existing ↦ (false, p)
  | none ↦ (true, (insert_record (some r.payload) p).1)
]

pub redo_delete : LogRecord → Page → Bool × Page
redo_delete r p = elim (get_record r.slot_id p) [
  | some existing ↦ (true, (delete_record r.slot_id p).1)
  | none ↦ (false, p)
]

pub redo_update : LogRecord → Page → Bool × Page
redo_update r p = elim (get_record r.slot_id p) [
  | some existing ↦ (true, (update_record r.slot_id (get_update_data r).1 p).1)
  | none ↦ (false, p)
]

-- A case fetches its page, changes it through the pointer, and unpins it as dirty.
pub on_page : (LogRecord → Page → Bool × Page) → LogRecord → RecoveryManager → RecoveryManager
on_page redo r m =
    let (frame, b) = fetch_page r.page_id m.bpm in
    elim frame [
      | none ↦ record m { bpm = b }
      | some f ↦
          let (redone, page) = redo r (b.pages f) in
          record m {
            bpm = (unpin_page r.page_id true (set_frame f page b)).1;
            redo_count = if redone then u32 (m.redo_count + 1) else m.redo_count;
          }
    ]

-- RedoRecord, by the type of the record.
pub redo_of : LogRecordType → LogRecord → RecoveryManager → RecoveryManager
redo_of insert r m = on_page redo_insert r m
redo_of delete r m = on_page redo_delete r m
redo_of update r m = on_page redo_update r m
redo_of new_page r m = record m { redo_count = u32 (m.redo_count + 1) }
redo_of checkpoint_begin r m = m
redo_of checkpoint_end r m = m
redo_of invalid r m = m
redo_of (unknown b) r m = m

abbrev pub redo_record : LogRecord → RecoveryManager → RecoveryManager
redo_record r m = redo_of r.kind r m

-- The loop of Recover, with fuel.
pub redo_loop : ℕ → LogIterator → RecoveryManager → RecoveryManager
redo_loop zero it m = m
redo_loop (suc fuel) it m = elim it.current [
  | none ↦ m
  | some r ↦ redo_loop fuel (next r it) (redo_record r m)
]

-- Recover. `io` is what the system does in the flush of Begin.
pub recover : ℕ → Option ℕ → RecoveryManager → Result RecoveryManager ℕ
recover fuel io m = elim (begin_at io 0 m.log_manager) [
  | throw l ↦ throw (record m { redo_count = 0; log_manager = l })
  | ok it l ↦
      let after = redo_loop fuel it (record m { redo_count = 0; log_manager = l }) in
      ok after.redo_count (record after { bpm = flush_all_pages after.bpm })
]

-- The call of AppendLogRecord with which the four logging operations end.
pub append : Option ℕ → Option ℕ → LogRecord → RecoveryManager → Result RecoveryManager ℕ
append io₁ io₂ r m = elim (append_log_record io₁ io₂ r m.log_manager) [
  | throw l ↦ throw (record m { log_manager = l })
  | ok lsn l ↦ ok lsn (record m { log_manager = l })
]

pub log_insert : Option ℕ → Option ℕ → ℕ → ℕ → List ℕ → RecoveryManager → Result RecoveryManager ℕ
log_insert io₁ io₂ page_id slot_id bs m = append io₁ io₂ (make_insert 0 page_id slot_id bs) m

pub log_delete : Option ℕ → Option ℕ → ℕ → ℕ → List ℕ → RecoveryManager → Result RecoveryManager ℕ
log_delete io₁ io₂ page_id slot_id old m = append io₁ io₂ (make_delete 0 page_id slot_id old) m

pub log_update :
    Option ℕ → Option ℕ → ℕ → ℕ → List ℕ → List ℕ → RecoveryManager → Result RecoveryManager ℕ
log_update io₁ io₂ page_id slot_id old new m =
    append io₁ io₂ (make_update 0 page_id slot_id old new) m

pub log_new_page : Option ℕ → Option ℕ → ℕ → RecoveryManager → Result RecoveryManager ℕ
log_new_page io₁ io₂ page_id m = append io₁ io₂ (make_new_page 0 page_id) m

pub flush_log : Option ℕ → RecoveryManager → Result RecoveryManager Unit
flush_log io m = elim (flush io m.log_manager) [
  | throw l ↦ throw (record m { log_manager = l })
  | ok u l ↦ ok tt (record m { log_manager = l })
]

-- Checkpoint, where the writes of the log are complete.
pub checkpoint : RecoveryManager → Result RecoveryManager Unit
checkpoint m = append none none (make_checkpoint_begin 0) m >>= λ _ m₁.
    append none none (make_checkpoint_end 0 []) (record m₁ { bpm = flush_all_pages m₁.bpm })
    >>= λ _ m₂. flush_log none m₂
