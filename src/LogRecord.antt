-- ===== src/LogRecord.antt =====
-- include/recovery/log_record.h and src/recovery/log_record.cpp: records of the write-ahead log.
mod Tests
pub mod RoundTrip
pub mod Payloads
use court_db.Base.{
  ℕ, zero, suc, ◌+◌, ◌*◌, ◌≡◌, Bool, ◌&&◌, List, [], ◌∷◌, ltb, leb, ◌==◌, if◌then◌else◌, length,
  u16, u32,
}
use court_db.Base.Bytes.{Bytes, zeros, read, write, get_le, put_le, Field, put_fields}
use court_db.Page.{invalid_page_id}

-- `unknown` is a byte that names no enumerator: a static_cast keeps it.
pub data LogRecordType : Type 0 where
  invalid insert delete update new_page checkpoint_begin checkpoint_end : LogRecordType
  unknown : ℕ → LogRecordType

pub type_byte : LogRecordType → ℕ
type_byte invalid = 0
type_byte insert = 1
type_byte delete = 2
type_byte update = 3
type_byte new_page = 4
type_byte checkpoint_begin = 5
type_byte checkpoint_end = 6
type_byte (unknown b) = b

pub type_of_byte : ℕ → LogRecordType
type_of_byte zero = invalid
type_of_byte (suc zero) = insert
type_of_byte (suc (suc zero)) = delete
type_of_byte (suc (suc (suc zero))) = update
type_of_byte (suc (suc (suc (suc zero)))) = new_page
type_of_byte (suc (suc (suc (suc (suc zero))))) = checkpoint_begin
type_of_byte (suc (suc (suc (suc (suc (suc zero)))))) = checkpoint_end
type_of_byte (suc (suc (suc (suc (suc (suc (suc n))))))) =
    unknown (suc (suc (suc (suc (suc (suc (suc n)))))))

-- LogRecordHeader::HEADER_SIZE
abbrev pub log_header_size : ℕ
log_header_size = 21

pub record LogRecord : Type 0 where
  pub total_size : ℕ
  pub lsn : ℕ
  pub kind : LogRecordType
  pub page_id : ℕ
  pub slot_id : ℕ
  pub payload_size : ℕ
  pub payload : List ℕ

unfoldable pub make_insert : ℕ → ℕ → ℕ → List ℕ → LogRecord
make_insert lsn page_id slot_id bs = record {
  total_size = u32 (log_header_size + length bs);
  lsn = lsn;
  kind = insert;
  page_id = page_id;
  slot_id = slot_id;
  payload_size = length bs;
  payload = bs;
}

pub make_delete : ℕ → ℕ → ℕ → List ℕ → LogRecord
make_delete lsn page_id slot_id old = record {
  total_size = u32 (log_header_size + length old);
  lsn = lsn;
  kind = delete;
  page_id = page_id;
  slot_id = slot_id;
  payload_size = length old;
  payload = old;
}

-- [2B old_len][old_data][2B new_len][new_data], written at offsets that are uint16_t.
pub update_payload : List ℕ → List ℕ → Bytes
update_payload old new =
    let o1 = u16 (2 + length old) in
    let o2 = u16 (o1 + 2) in
    write (put_le 2 (write (put_le 2 zeros 0 (length old)) 2 old) o1 (length new)) o2 new

pub make_update : ℕ → ℕ → ℕ → List ℕ → List ℕ → LogRecord
make_update lsn page_id slot_id old new =
    let size = u16 (2 + length old + 2 + length new) in
    record {
      total_size = u32 (log_header_size + size);
      lsn = lsn;
      kind = update;
      page_id = page_id;
      slot_id = slot_id;
      payload_size = size;
      payload = read (update_payload old new) 0 size;
    }

-- The records without a payload.
abbrev bare : ℕ → LogRecordType → ℕ → LogRecord
bare lsn kind page_id = record {
  total_size = log_header_size;
  lsn = lsn;
  kind = kind;
  page_id = page_id;
  slot_id = 0;
  payload_size = 0;
  payload = [];
}

unfoldable pub make_new_page : ℕ → ℕ → LogRecord
make_new_page lsn page_id = bare lsn new_page page_id

unfoldable pub make_checkpoint_begin : ℕ → LogRecord
make_checkpoint_begin lsn = bare lsn checkpoint_begin invalid_page_id

-- The loop over the dirty pages: 4 bytes of page id and 8 bytes of LSN each.
pub put_dirty_pages : ℕ → List (ℕ × ℕ) → Bytes → Bytes
put_dirty_pages o [] d = d
put_dirty_pages o ((pid, page_lsn) ∷ rest) d =
    put_dirty_pages (u16 (u16 (o + 4) + 8)) rest
      (put_le 8 (put_le 4 d o pid) (u16 (o + 4)) page_lsn)

unfoldable pub make_checkpoint_end : ℕ → List (ℕ × ℕ) → LogRecord
make_checkpoint_end lsn dirty_pages =
    let count = u32 (length dirty_pages) in
    let size = u16 (4 + count * 12) in
    record {
      total_size = u32 (log_header_size + size);
      lsn = lsn;
      kind = checkpoint_end;
      page_id = invalid_page_id;
      slot_id = 0;
      payload_size = size;
      payload = read (put_dirty_pages 4 dirty_pages (put_le 4 zeros 0 count)) 0 size;
    }

abbrev fields : LogRecord → List Field
fields r =
    record { width = 4; offset = 0; value = r.total_size }
    ∷ record { width = 8; offset = 4; value = r.lsn }
    ∷ record { width = 1; offset = 12; value = type_byte r.kind }
    ∷ record { width = 4; offset = 13; value = r.page_id }
    ∷ record { width = 2; offset = 17; value = r.slot_id }
    ∷ record { width = 2; offset = 19; value = r.payload_size }
    ∷ []

-- The vector of `total_size` zero bytes, with the header and the payload copied in.
unfoldable pub serialize : LogRecord → List ℕ
serialize r = read (write (put_fields (fields r) zeros) log_header_size r.payload) 0 r.total_size

pub deserialize : Bytes → ℕ → LogRecord
deserialize d length' =
    let size = get_le 2 d 19 in
    record {
      total_size = get_le 4 d 0;
      lsn = get_le 8 d 4;
      kind = type_of_byte (get_le 1 d 12);
      page_id = get_le 4 d 13;
      slot_id = get_le 2 d 17;
      payload_size = size;
      payload =
          if ltb 0 size && leb (log_header_size + size) length'
          then read d log_header_size size
          else [];
    }

-- GetUpdateData: the old and the new record.
pub get_update_data : LogRecord → List ℕ × List ℕ
get_update_data r =
    let d = write zeros 0 r.payload in
    let old_len = get_le 2 d 0 in
    let o1 = u16 (2 + old_len) in (read d 2 old_len, read d (u16 (o1 + 2)) (get_le 2 d o1))

-- The loop of GetDirtyPageTable.
pub get_dirty_pages : ℕ → ℕ → Bytes → List (ℕ × ℕ)
get_dirty_pages zero o d = []
get_dirty_pages (suc n) o d =
    (get_le 4 d o, get_le 8 d (u16 (o + 4))) ∷ get_dirty_pages n (u16 (u16 (o + 4) + 8)) d

dirty_pages_of : List ℕ → List (ℕ × ℕ)
dirty_pages_of [] = []
dirty_pages_of (b ∷ bs) = let d = write zeros 0 (b ∷ bs) in get_dirty_pages (get_le 4 d 0) 4 d

pub get_dirty_page_table : LogRecord → List (ℕ × ℕ)
unfolding dirty_pages_of
get_dirty_page_table r = dirty_pages_of r.payload
