-- ===== src/Page.antt =====
-- include/storage/page.h and src/storage/page.cpp: the slotted page.
pub mod Tests
pub mod Invariant
pub mod Insert
pub mod Delete
pub mod Update
pub mod Lookup
pub mod Space
pub mod Image
use court_db.Base.{
  ℕ, zero, suc, ◌+◌, ◌-◌, ◌*◌, ◌≤◌, Bool, true, false, ◌&&◌, ◌||◌, Option, none, some, List, [],
  ◌∷◌, ◌++◌, arith, ltb, leb, ◌==◌, if◌then◌else◌, length, get_or, set, u16, sub16,
}
use court_db.Base.Bytes.{Bytes, zeros, read, write}

abbrev pub page_size : ℕ
page_size = 4096

abbrev pub invalid_page_id : ℕ
invalid_page_id = 4294967295

abbrev pub header_size : ℕ
header_size = 20

abbrev pub slot_entry_size : ℕ
slot_entry_size = 4

pub record SlotEntry : Type 0 where
  pub offset : ℕ
  pub size : ℕ

abbrev pub is_empty : SlotEntry → Bool
is_empty s = s.offset == 0 && s.size == 0

abbrev pub empty_entry : SlotEntry
empty_entry = record { offset = 0; size = 0 }

pub record PageHeader : Type 0 where
  pub page_id : ℕ
  pub num_slots : ℕ
  pub free_space_offset : ℕ
  pub free_space_end : ℕ
  pub num_records : ℕ
  pub next_page_id : ℕ
  pub flags : ℕ

pub record Page : Type 0 where
  pub bytes : Bytes
  pub header : PageHeader
  pub open header use *
  pub slots : List SlotEntry

-- Page::Page(PageId)
pub new_page : ℕ → Page
new_page id = record {
  bytes = zeros;
  header = record {
    page_id = id;
    num_slots = 0;
    free_space_offset = header_size;
    free_space_end = page_size;
    num_records = 0;
    next_page_id = invalid_page_id;
    flags = 0;
  };
  slots = [];
}

-- The scan of FindEmptySlot: `n` slots are left, the next is number `i`.
pub find_empty_from : ℕ → ℕ → List SlotEntry → Option ℕ
find_empty_from zero i ss = none
find_empty_from (suc n) i [] = none
find_empty_from (suc n) i (s ∷ ss) = if is_empty s then some i else find_empty_from n (i + 1) ss

pub find_empty_slot : Page → Option ℕ
find_empty_slot p = find_empty_from p.num_slots 0 p.slots

abbrev pub slot_at : Page → ℕ → SlotEntry
slot_at p i = get_or p.slots i empty_entry

-- Both branches of InsertRecord once the slot is chosen: the record goes to the end of the free
-- region. The source compares as `int`, so the test cannot wrap.
abbrev pub place : List ℕ → Page → PageHeader
place bs p = record p.header {
  free_space_end = sub16 p.free_space_end (length bs);
  num_records = u16 (p.num_records + 1);
}

pub insert_at : Option ℕ → List ℕ → Page → Option ℕ × Page
insert_at (some slot_id) bs p =
    let record_offset = sub16 p.free_space_end (length bs) in
    if ltb p.free_space_end (length bs + p.free_space_offset) then (none, p) else (
      some slot_id,
      record p {
        bytes = write p.bytes record_offset bs;
        header = place bs p;
        slots = set p.slots slot_id (record { offset = record_offset; size = length bs });
      },
    )
insert_at none bs p =
    let record_offset = sub16 p.free_space_end (length bs) in
    if ltb p.free_space_end (length bs + slot_entry_size + p.free_space_offset)
    then (none, p)
    else (
      some p.num_slots,
      record p {
        bytes = write p.bytes record_offset bs;
        header = record (place bs p) {
          num_slots = u16 (p.num_slots + 1);
          free_space_offset = u16 (p.free_space_offset + slot_entry_size);
        };
        slots = p.slots ++ record { offset = record_offset; size = length bs } ∷ [];
      },
    )

-- `none` is the null pointer. The `uint16_t length` is the length of the list.
pub insert_record : Option (List ℕ) → Page → Option ℕ × Page
insert_record none p = (none, p)
insert_record (some []) p = (none, p)
insert_record (some (b ∷ bs)) p = insert_at (find_empty_slot p) (b ∷ bs) p

pub delete_record : ℕ → Page → Bool × Page
delete_record slot_id p =
    if leb p.num_slots slot_id
    then (false, p)
    else if is_empty (slot_at p slot_id)
    then (false, p)
    else (
      true,
      record p {
        header = record p.header { num_records = sub16 p.num_records 1 };
        slots = set p.slots slot_id empty_entry;
      },
    )

-- The bytes that the returned pointer and length denote.
pub get_record : ℕ → Page → Option (List ℕ)
get_record slot_id p =
    if leb p.num_slots slot_id
    then none
    else if is_empty (slot_at p slot_id)
    then none
    else some (read p.bytes (slot_at p slot_id).offset (slot_at p slot_id).size)

pub get_free_space : Page → ℕ
get_free_space p =
    if leb p.free_space_end p.free_space_offset
    then 0
    else sub16 p.free_space_end p.free_space_offset

pub has_space_for : ℕ → Page → Bool
has_space_for record_length p = elim (find_empty_slot p) [
  | some i ↦ leb record_length (get_free_space p)
  | none ↦ leb (u16 (record_length + slot_entry_size)) (get_free_space p)
]

-- The two ways in which UpdateRecord writes.
abbrev pub overwrite : ℕ → List ℕ → Page → Page
overwrite slot_id bs p = record p {
  bytes = write p.bytes (slot_at p slot_id).offset bs;
  slots = set p.slots slot_id (record { offset = (slot_at p slot_id).offset; size = length bs });
}

abbrev pub move_to_end : ℕ → List ℕ → Page → Page
move_to_end slot_id bs p =
    let new_offset = sub16 p.free_space_end (length bs) in
    record p {
      bytes = write p.bytes new_offset bs;
      header = record p.header { free_space_end = new_offset };
      slots = set p.slots slot_id (record { offset = new_offset; size = length bs });
    }

pub update_record : ℕ → List ℕ → Page → Bool × Page
update_record slot_id bs p =
    if leb p.num_slots slot_id || is_empty (slot_at p slot_id)
    then (false, p)
    else if leb (length bs) (slot_at p slot_id).size
    then (true, overwrite slot_id bs p)
    else if ltb (get_free_space p) (sub16 (length bs) (slot_at p slot_id).size)
    then (false, p)
    else (true, move_to_end slot_id bs p)
