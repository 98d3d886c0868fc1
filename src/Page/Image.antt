-- ===== src/Page/Image.antt =====
-- SerializeToBuffer and DeserializeFromBuffer of src/storage/page.cpp.
pub mod Reread
pub mod Same
pub mod Change
pub mod Fits
use mathlib.Core.Path.{ap₂}
use court_db.Base.{
  ℕ, zero, suc, ◌+◌, ◌*◌, ◌^◌, ◌≤◌, ◌<◌, ◌≡◌, refl, ap, sym, ◌∙◌, ◌⊎◌, inl, inr, List, [], ◌∷◌,
  arith, false, length, take, drop, All, get_or,
}
use court_db.Base.Bytes.{
  Bytes, read, get_le, put_le, le_value, get_le-put_le_self, get_le-put_le_disjoint,
  read-put_le_disjoint, Field, put_fields, get_le-put_fields, read-put_fields_above,
}
use court_db.Page.Invariant.{IsValid}
use court_db.Page.Lookup.{get_record_ext, live_region}
use court_db.Page.{
  is_empty, Page, PageHeader, SlotEntry, header_size, slot_entry_size, get_record, slot_at,
}

-- The header fields in the order in which `pos` reaches them: offsets 0, 4, 6, 8, 10, 12 and 16.
abbrev fields : PageHeader → List Field
fields h =
    record { width = 4; offset = 0; value = h.page_id }
    ∷ record { width = 2; offset = 4; value = h.num_slots }
    ∷ record { width = 2; offset = 6; value = h.free_space_offset }
    ∷ record { width = 2; offset = 8; value = h.free_space_end }
    ∷ record { width = 2; offset = 10; value = h.num_records }
    ∷ record { width = 4; offset = 12; value = h.next_page_id }
    ∷ record { width = 2; offset = 16; value = h.flags }
    ∷ []

pub put_header : PageHeader → Bytes → Bytes
put_header h d = put_fields (fields h) d

pub get_header : Bytes → PageHeader
get_header d = record {
  page_id = get_le 4 d 0;
  num_slots = get_le 2 d 4;
  free_space_offset = get_le 2 d 6;
  free_space_end = get_le 2 d 8;
  num_records = get_le 2 d 10;
  next_page_id = get_le 4 d 12;
  flags = get_le 2 d 16;
}

-- The loop over the slot directory from offset `pos`.
pub put_slots : ℕ → List SlotEntry → Bytes → Bytes
put_slots pos [] d = d
put_slots pos (s ∷ ss) d =
    put_slots (pos + slot_entry_size) ss (put_le 2 (put_le 2 d pos s.offset) (pos + 2) s.size)

pub get_slots : ℕ → ℕ → Bytes → List SlotEntry
get_slots pos zero d = []
get_slots pos (suc n) d =
    record { offset = get_le 2 d pos; size = get_le 2 d (pos + 2) }
    ∷ get_slots (pos + slot_entry_size) n d

-- Page::SerializeToBuffer
pub serialize_to_buffer : Page → Page
serialize_to_buffer p = record p {
  bytes = put_slots header_size (take p.num_slots p.slots) (put_header p.header p.bytes);
}

-- Page::DeserializeFromBuffer
pub deserialize_from_buffer : Page → Page
deserialize_from_buffer p =
    let h = get_header p.bytes in
    record p { header = h; slots = get_slots header_size h.num_slots p.bytes }

-- The widths of the fields in the source.
pub record HeaderFits (h : PageHeader) : Type 0 where
  pub page_id_fits : h.page_id < 256 ^ 4
  pub num_slots_fits : h.num_slots < 256 ^ 2
  pub free_space_offset_fits : h.free_space_offset < 256 ^ 2
  pub free_space_end_fits : h.free_space_end < 256 ^ 2
  pub num_records_fits : h.num_records < 256 ^ 2
  pub next_page_id_fits : h.next_page_id < 256 ^ 4
  pub flags_fits : h.flags < 256 ^ 2

abbrev pub SlotFits : SlotEntry → Type 0
SlotFits s = (s.offset < 256 ^ 2) × (s.size < 256 ^ 2)

-- The slot loop leaves alone what lies before it and after it.
pub put_slots-read :
    (pos : ℕ) (ss : List SlotEntry) (d : Bytes) (o n : ℕ)
    → (o + n ≤ pos) ⊎ (pos + slot_entry_size * length ss ≤ o)
    → read (put_slots pos ss d) o n ≡ read d o n
unfolding put_slots
put_slots-read pos [] d o n h = refl
put_slots-read pos (s ∷ ss) d o n h =
    put_slots-read (pos + slot_entry_size) ss _ o n (omega arith)
    ∙ read-put_le_disjoint 2 _ (pos + 2) s.size o n (omega arith)
    ∙ read-put_le_disjoint 2 d pos s.offset o n (omega arith)

get_le-put_slots :
    (w pos : ℕ) (ss : List SlotEntry) (d : Bytes) (o : ℕ)
    → o + w ≤ pos
    → get_le w (put_slots pos ss d) o ≡ get_le w d o
unfolding get_le
get_le-put_slots w pos ss d o h = ap le_value (put_slots-read pos ss d o w (inl h))

get_slots-put_slots :
    (pos : ℕ) (ss : List SlotEntry) (d : Bytes)
    → All SlotFits ss
    → get_slots pos (length ss) (put_slots pos ss d) ≡ ss
unfolding get_slots put_slots
get_slots-put_slots pos [] d f = refl
get_slots-put_slots pos (s ∷ ss) d f =
    ap₂ ◌∷◌ entry (get_slots-put_slots (pos + slot_entry_size) ss _ f.1)
  where
    e : Bytes
    e = put_le 2 (put_le 2 d pos s.offset) (pos + 2) s.size

    off : get_le 2 (put_slots (pos + slot_entry_size) ss e) pos ≡ s.offset
    off =
        get_le-put_slots 2 (pos + slot_entry_size) ss e pos (omega arith)
        ∙ get_le-put_le_disjoint 2 2 _ (pos + 2) pos s.size (inl (omega arith))
        ∙ get_le-put_le_self 2 d pos s.offset f.0.0

    len : get_le 2 (put_slots (pos + slot_entry_size) ss e) (pos + 2) ≡ s.size
    len =
        get_le-put_slots 2 (pos + slot_entry_size) ss e (pos + 2) (omega arith)
        ∙ get_le-put_le_self 2 _ (pos + 2) s.size f.0.1

    entry :
        record {
          offset = get_le 2 (put_slots (pos + slot_entry_size) ss e) pos;
          size = get_le 2 (put_slots (pos + slot_entry_size) ss e) (pos + 2);
        }
        ≡ s
    entry = λ i. record { offset = off i; size = len i }

put_header-read :
    (h : PageHeader) (d : Bytes) (o n : ℕ) → 18 ≤ o → read (put_header h d) o n ≡ read d o n
unfolding put_header
put_header-read h d o n p = read-put_fields_above (fields h) d o n (omega arith)

get_header-put_header :
    (h : PageHeader) (d : Bytes) → HeaderFits h → get_header (put_header h d) ≡ h
unfolding get_header put_header put_fields
get_header-put_header h d f = λ i. record {
  page_id = get_le-put_fields 4 0 h.page_id (drop 1 (fields h)) d f.page_id_fits (omega arith) i;
  num_slots =
      get_le-put_fields 2 4 h.num_slots (drop 2 (fields h)) (put_fields (take 1 (fields h)) d)
        f.num_slots_fits (omega arith) i;
  free_space_offset =
      get_le-put_fields 2 6 h.free_space_offset (drop 3 (fields h))
        (put_fields (take 2 (fields h)) d) f.free_space_offset_fits (omega arith) i;
  free_space_end =
      get_le-put_fields 2 8 h.free_space_end (drop 4 (fields h)) (put_fields (take 3 (fields h)) d)
        f.free_space_end_fits (omega arith) i;
  num_records =
      get_le-put_fields 2 10 h.num_records (drop 5 (fields h)) (put_fields (take 4 (fields h)) d)
        f.num_records_fits (omega arith) i;
  next_page_id =
      get_le-put_fields 4 12 h.next_page_id (drop 6 (fields h)) (put_fields (take 5 (fields h)) d)
        f.next_page_id_fits (omega arith) i;
  flags =
      get_le-put_fields 2 16 h.flags [] (put_fields (take 6 (fields h)) d) f.flags_fits
        (omega arith) i;
}

get_header-put_slots :
    (ss : List SlotEntry) (d : Bytes) → get_header (put_slots header_size ss d) ≡ get_header d
unfolding get_header
get_header-put_slots ss d = λ i. record {
  page_id = kept 4 0 (omega arith) i;
  num_slots = kept 2 4 (omega arith) i;
  free_space_offset = kept 2 6 (omega arith) i;
  free_space_end = kept 2 8 (omega arith) i;
  num_records = kept 2 10 (omega arith) i;
  next_page_id = kept 4 12 (omega arith) i;
  flags = kept 2 16 (omega arith) i;
}
  where
    kept : (w o : ℕ) → o + w ≤ header_size → get_le w (put_slots header_size ss d) o ≡ get_le w d o
    kept w o h = get_le-put_slots w header_size ss d o h

take_all {ℓ} : {A : Type ℓ} (n : ℕ) (xs : List A) → length xs ≡ n → take n xs ≡ xs
take_all zero [] h = refl
take_all zero (x ∷ xs) h = absurd (omega arith)
take_all (suc n) [] h = refl
take_all (suc n) (x ∷ xs) h = ap (◌∷◌ x) (take_all n xs (omega arith))

-- The page that a frame holds after the image of `p` is read into it, whatever it held before.
abbrev pub reload : Page → Page → Page
reload p old = deserialize_from_buffer (record old { bytes = (serialize_to_buffer p).bytes })

module _ (p old : Page) (v : IsValid p) (fits : HeaderFits p.header)
    (entries : All SlotFits p.slots) where
  image : Bytes
  image = put_slots header_size p.slots (put_header p.header p.bytes)

  header_read : get_header image ≡ p.header
  unfolding image
  header_read =
      get_header-put_slots p.slots (put_header p.header p.bytes)
      ∙ get_header-put_header p.header p.bytes fits

  slots_read : get_slots header_size p.num_slots image ≡ p.slots
  unfolding image
  slots_read =
      ap (λ n. get_slots header_size n image) (sym v.directory)
      ∙ get_slots-put_slots header_size p.slots (put_header p.header p.bytes) entries

  reload-eq : reload p old ≡ record { bytes = image; header = p.header; slots = p.slots }
  unfolding serialize_to_buffer deserialize_from_buffer image
  reload-eq = rw (take_all p.num_slots p.slots v.directory) (λ i. record {
    bytes = image;
    header = header_read i;
    slots = (ap (λ h. get_slots header_size h.num_slots image) header_read ∙ slots_read) i;
  })

  -- Record bytes lie in the data region, above the directory.
  record_read :
      (j : ℕ)
      → is_empty (slot_at p j) ≡ false
      → read image (slot_at p j).offset (slot_at p j).size
        ≡ read p.bytes (slot_at p j).offset (slot_at p j).size
  unfolding image
  record_read j e =
      put_slots-read header_size p.slots (put_header p.header p.bytes) _ _ (inr above)
      ∙ put_header-read p.header p.bytes _ _ (omega (arith, above))
    where
      above : header_size + slot_entry_size * length p.slots ≤ (slot_at p j).offset
      above = omega (arith, v.directory, v.directory_end, v.ordered, live_region p j v e)

-- The image keeps what lies above the slot directory.
pub serialize_to_buffer-above :
    (p : Page) (i : ℕ)
    → length p.slots ≡ p.num_slots
    → header_size + slot_entry_size * p.num_slots ≤ i
    → (serialize_to_buffer p).bytes i ≡ p.bytes i
unfolding serialize_to_buffer read
serialize_to_buffer-above p i v h = rw (take_all p.num_slots p.slots v) (
    ap (λ bs. get_or bs 0 0)
      (put_slots-read header_size p.slots (put_header p.header p.bytes) i 1 (inr (omega arith))
        ∙ put_header-read p.header p.bytes i 1 (omega arith)))

-- Serialising a well-formed page whose fields fit their widths and deserialising the buffer into
-- any frame gives back its header and its slot directory, and every slot returns the record that
-- it returned before.
pub reload-get_record :
    (p old : Page)
    → IsValid p
    → HeaderFits p.header
    → All SlotFits p.slots
    → ((reload p old).header ≡ p.header)
      × ((reload p old).slots ≡ p.slots)
      × ((j : ℕ) → get_record j (reload p old) ≡ get_record j p)
reload-get_record p old v fits entries =
    rw (reload-eq p old v fits entries)
      (refl, refl, λ j. get_record_ext _ p j refl refl (λ e. record_read p old v fits entries j e))

-- The image of a well-formed page whose fields fit their widths, read into any frame, is a
-- well-formed page.
pub reload-IsValid :
    (p old : Page) → IsValid p → HeaderFits p.header → All SlotFits p.slots → IsValid (reload p old)
reload-IsValid p old v fits entries = rw (reload-eq p old v fits entries) (record {
  directory = v.directory;
  directory_end = v.directory_end;
  ordered = v.ordered;
  within = v.within;
  counted = v.counted;
  regions = v.regions;
  apart = v.apart;
})
