-- ===== src/Page/Image/Reread.antt =====
-- What is read back from a page's image depends on the bytes of the image alone, not on what a buffer
-- holds beyond them.
use court_db.Base.{
  ℕ, zero, suc, ◌+◌, ◌*◌, ◌≤◌, ◌<◌, ◌≡◌, refl, subst, ap, sym, ◌∙◌, inl, false, ◌∷◌, arith, leb,
  All, All-get_or, get_or,
}
use court_db.Base.Bytes.{Bytes, read, get_le, get_le_ext, read_ext, get_or-read}
use court_db.Page.{
  Page, PageHeader, SlotEntry, page_size, header_size, slot_entry_size, is_empty, empty_entry,
  slot_at, get_record,
}
use court_db.Page.Invariant.{IsValid, InRegion}
use court_db.Page.Lookup.{get_record_ext}
use court_db.Page.Image.{
  HeaderFits, SlotFits, get_header, get_slots, serialize_to_buffer, deserialize_from_buffer, reload,
  reload-get_record,
}

abbrev pub Agrees : Bytes → Bytes → Type 0
Agrees b c = (i : ℕ) → i < page_size → b i ≡ c i

pub read-Agrees : (b c : Bytes) → read b 0 page_size ≡ read c 0 page_size → Agrees b c
read-Agrees b c e i h =
    let z : 0 + i ≡ i = omega arith in
    subst (λ j. b j ≡ c j) z
      (sym (get_or-read b 0 page_size i h)
        ∙ ap (λ bs. get_or bs i 0) e
        ∙ get_or-read c 0 page_size i h)

module _ (b c : Bytes) (agrees : Agrees b c) where
  get_le-agrees : (w o : ℕ) → o + w ≤ page_size → get_le w b o ≡ get_le w c o
  get_le-agrees w o h = get_le_ext w b c o o (λ i p. agrees (o + i) (omega arith))

  get_header-agrees : get_header b ≡ get_header c
  unfolding get_header
  get_header-agrees = λ i. record {
    page_id = get_le-agrees 4 0 (omega arith) i;
    num_slots = get_le-agrees 2 4 (omega arith) i;
    free_space_offset = get_le-agrees 2 6 (omega arith) i;
    free_space_end = get_le-agrees 2 8 (omega arith) i;
    num_records = get_le-agrees 2 10 (omega arith) i;
    next_page_id = get_le-agrees 4 12 (omega arith) i;
    flags = get_le-agrees 2 16 (omega arith) i;
  }

  get_slots-agrees :
      (pos n : ℕ) → pos + slot_entry_size * n ≤ page_size → get_slots pos n b ≡ get_slots pos n c
  unfolding get_slots
  get_slots-agrees pos zero h = refl
  get_slots-agrees pos (suc n) h = λ i.
      record {
        offset = get_le-agrees 2 pos (omega arith) i;
        size = get_le-agrees 2 (pos + 2) (omega arith) i;
      }
      ∷ get_slots-agrees (pos + slot_entry_size) n (omega arith) i

module _ (p old : Page) (b : Bytes) (v : IsValid p) (fits : HeaderFits p.header)
    (entries : All SlotFits p.slots) (agrees : Agrees b (serialize_to_buffer p).bytes) where
  abbrev reread : Page
  reread = deserialize_from_buffer (record old { bytes = b })

  same_header : reread.header ≡ (reload p old).header
  unfolding deserialize_from_buffer
  same_header = get_header-agrees b (serialize_to_buffer p).bytes agrees

  room : header_size + slot_entry_size * (reload p old).header.num_slots ≤ page_size
  room = omega (
    arith,
    ap (λ h. PageHeader.num_slots h) (reload-get_record p old v fits entries).0,
    v.directory_end,
    v.ordered,
    v.within,
  )

  same_slots : reread.slots ≡ (reload p old).slots
  unfolding deserialize_from_buffer
  same_slots =
      ap (λ h. get_slots header_size (PageHeader.num_slots h) b) same_header
      ∙ get_slots-agrees b (serialize_to_buffer p).bytes agrees header_size _ room

  live_within :
      (j : ℕ)
      → is_empty (slot_at p j) ≡ false
      → (slot_at p j).offset + (slot_at p j).size ≤ page_size
  live_within j e =
      ground
        (arith, All-get_or (InRegion p.free_space_end) p.slots j empty_entry v.regions (inl refl))

  same_slot : (j : ℕ) → slot_at reread j ≡ slot_at p j
  same_slot j =
      ap (λ ss. get_or ss j empty_entry) (same_slots ∙ (reload-get_record p old v fits entries).1)

  reloaded_slot : (j : ℕ) → slot_at (reload p old) j ≡ slot_at p j
  reloaded_slot j = ap (λ ss. get_or ss j empty_entry) (reload-get_record p old v fits entries).1

  reloaded_within :
      (j : ℕ)
      → is_empty (slot_at (reload p old) j) ≡ false
      → (slot_at (reload p old) j).offset + (slot_at (reload p old) j).size ≤ page_size
  reloaded_within j e =
      subst (λ (s : SlotEntry). s.offset + s.size ≤ page_size) (sym (reloaded_slot j))
        (live_within j (ap is_empty (sym (reloaded_slot j)) ∙ e))

  same_record : (j : ℕ) → get_record j reread ≡ get_record j (reload p old)
  unfolding deserialize_from_buffer
  same_record j =
      get_record_ext reread (reload p old) j (ap (λ h. leb (PageHeader.num_slots h) j) same_header)
        (ap (λ ss. get_or ss j empty_entry) same_slots)
        (λ e.
          read_ext b (serialize_to_buffer p).bytes _ _ _
            (λ i h. agrees _ (omega (arith, reloaded_within j e))))

  -- From any bytes that agree with a page's image, the page is read back.
  pub reread-get_record :
      (reread.header ≡ p.header)
      × (reread.slots ≡ p.slots)
      × ((j : ℕ) → get_record j reread ≡ get_record j p)
  reread-get_record =
      let r : _ = reload-get_record p old v fits entries in
      (same_header ∙ r.0, same_slots ∙ r.1, λ j. same_record j ∙ r.2 j)
