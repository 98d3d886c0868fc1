-- ===== src/LogRecord/Tests.antt =====
-- The log records' theorems at small records.
use court_db.Base.{◌≡◌, [], ◌∷◌, arith}
use court_db.Base.Bytes.{read, write, as_buffer, Holds, put_fields, put_le, le_bytes}
use court_db.LogRecord.{
  LogRecord, serialize, deserialize, make_insert, make_update, get_update_data, type_byte,
}
use court_db.LogRecord.RoundTrip.{IsWellFormed, deserialize-serialize_log, make_insert-IsWellFormed}
use court_db.LogRecord.Payloads.{get_update_data-make_update}

abbrev inserted : LogRecord
inserted = make_insert 0 3 1 (8 ∷ 9 ∷ [])

inserted-IsWellFormed : IsWellFormed inserted
inserted-IsWellFormed =
    make_insert-IsWellFormed 0 3 1 (8 ∷ 9 ∷ []) (omega arith) (omega arith) (omega arith)
      (omega arith)

inserted-Holds : Holds (as_buffer (serialize inserted)) 0 (serialize inserted)
unfolding serialize make_insert read write put_fields put_le le_bytes type_byte
inserted-Holds = omega arith

deserialize-serialize_log_example :
    deserialize (as_buffer (serialize inserted)) inserted.total_size ≡ inserted
deserialize-serialize_log_example =
    deserialize-serialize_log inserted (as_buffer (serialize inserted)) inserted-IsWellFormed
      inserted-Holds

get_update_data-make_update_example :
    get_update_data (make_update 0 3 1 (8 ∷ []) (9 ∷ 10 ∷ [])) ≡ (8 ∷ [], 9 ∷ 10 ∷ [])
get_update_data-make_update_example =
    get_update_data-make_update 0 3 1 (8 ∷ []) (9 ∷ 10 ∷ []) (omega arith)
