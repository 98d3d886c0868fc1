-- ===== src/Recovery/Tests.antt =====
-- The recovery manager's theorems at a pool of one page and a log of two records.
use court_db.Base.{
  ℕ, suc, ◌≡◌, ◌≢◌, refl, ◌⊎◌, true, false, none, some, List, [], ◌∷◌, ◌++◌, arith, length,
}
use court_db.Base.Bytes.{zeros, read}
use court_db.Base.Results.{ok}
use court_db.Page.{get_record}
use court_db.Page.Tests
use court_db.LogRecord.{
  LogRecord, serialize, make_insert, make_new_page, make_checkpoint_begin, make_checkpoint_end,
}
use court_db.LogRecord.RoundTrip.{
  make_insert-IsWellFormed, make_new_page-IsWellFormed, length-serialize,
}
use court_db.LogManager.{LogManager, open_log}
use court_db.LogManager.Append.{log_bytes, open_log-IsValid}
use court_db.LogManager.Iterate.{IsLogged, append_all, log_image}
use court_db.Buffer.{open_pool}
use court_db.Buffer.Store.{Represents}
use court_db.Buffer.Store.Tests.{page, pool, store, pool-Represents, pool-IsIdle}
use court_db.Recovery.{RecoveryManager, redo_insert, recover, checkpoint}
use court_db.Recovery.Redo.{redo_insert-twice}
use court_db.Recovery.Effects.{apply_of, apply_all, AppliesAll}
use court_db.Recovery.Replay.{recover-append_all}
use court_db.Recovery.Checkpoint.{checkpoint-Durable}

-- A record into slot 1, which the page does not have, and into slot 5.
abbrev inserted : LogRecord
inserted = make_insert 0 1 1 (8 ∷ 9 ∷ [])

abbrev misplaced : LogRecord
misplaced = make_insert 0 1 5 (10 ∷ 20 ∷ 30 ∷ [])

abbrev allocated : LogRecord
allocated = make_new_page 0 1

abbrev logged : List LogRecord
logged = allocated ∷ inserted ∷ []

inserted-IsLogged : IsLogged inserted
unfolding make_insert
inserted-IsLogged = record {
  well_formed =
      make_insert-IsWellFormed 0 1 1 (8 ∷ 9 ∷ []) (omega arith) (omega arith) (omega arith)
        (omega arith);
  valid = refl;
}

allocated-IsLogged : IsLogged allocated
unfolding make_new_page
allocated-IsLogged = record {
  well_formed = make_new_page-IsWellFormed 0 1 (omega arith) (omega arith);
  valid = refl;
}

recover-append_all_example :
    (l : LogManager) × (count : ℕ) × (after : RecoveryManager) × (append_all logged
        (open_log (record { contents = zeros; size = 0 }))
      ≡ ok tt l)
    × (recover (suc (length logged)) none (record { log_manager = l; bpm = pool; redo_count = 0 })
        ≡ ok count after)
    × Represents (apply_all logged store) after.bpm
    × Represents (apply_all logged store) (open_pool 1 after.bpm.disk)
    × AppliesAll logged store (apply_all logged store)
unfolding make_insert make_new_page log_image serialize read apply_of
recover-append_all_example =
    recover-append_all logged zeros 1 store pool (allocated-IsLogged, (inserted-IsLogged, tt))
      (omega arith) pool-Represents pool-IsIdle (tt, ((page, refl, omega arith), tt)) (omega arith)

-- InsertRecord puts the record into slot 1, and then into slot 2.
redo_insert-twice_example :
    ((1 ≡ misplaced.slot_id)
      × (redo_insert misplaced (redo_insert misplaced Tests.page).1
          ≡ (false, (redo_insert misplaced Tests.page).1)))
    ⊎ ((1 ≢ misplaced.slot_id)
        × ((redo_insert misplaced (redo_insert misplaced Tests.page).1).0 ≡ true)
        × (◌≢◌ {A = ℕ} 1 2)
        × (get_record 1 (redo_insert misplaced (redo_insert misplaced Tests.page).1).1
            ≡ some misplaced.payload)
        × (get_record 2 (redo_insert misplaced (redo_insert misplaced Tests.page).1).1
            ≡ some misplaced.payload))
unfolding make_insert
redo_insert-twice_example =
    redo_insert-twice misplaced Tests.page 1 2 Tests.page-IsValid Tests.no_slot Tests.second_slot
      Tests.third_slot

abbrev manager : RecoveryManager
manager = record {
  log_manager = open_log (record { contents = zeros; size = 0 });
  bpm = pool;
  redo_count = 0;
}

checkpoint-Durable_example :
    (after : RecoveryManager) × (checkpoint manager ≡ ok tt after)
    × (read after.log_manager.file.contents 0 after.log_manager.file.size
        ≡ log_bytes manager.log_manager
          ++ (serialize (make_checkpoint_begin 0) ++ serialize (make_checkpoint_end 0 [])))
    × Represents store after.bpm
    × Represents store (open_pool 1 after.bpm.disk)
unfolding make_checkpoint_begin make_checkpoint_end open_log
checkpoint-Durable_example =
    checkpoint-Durable 1 store manager
      (open_log-IsValid (record { contents = zeros; size = 0 }) (omega arith))
      (omega (
        arith,
        length-serialize (make_checkpoint_begin 0),
        length-serialize (make_checkpoint_end 0 []),
      ))
      pool-Represents (omega arith)
