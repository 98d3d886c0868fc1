-- ===== src/Page/Image/Same.antt =====
-- Two pages that no operation of src/storage/page.cpp or src/index/btree.cpp tells apart: they have
-- the same header, the same slots, and the same bytes above the slot directory.
use court_db.Base.{ℕ, ◌+◌, ◌*◌, ◌≤◌, ◌<◌, ◌≡◌, refl, ap, ◌∙◌, arith, leb, get_or, All}
use court_db.Base.Bytes.{Bytes, read_ext}
use court_db.Page.{
  Page, PageHeader, page_size, header_size, slot_entry_size, slot_at, empty_entry, get_record,
}
use court_db.Page.Invariant.{IsValid}
use court_db.Page.Lookup.{get_record_ext, live_region}
use court_db.Page.Image.{
  HeaderFits, SlotFits, serialize_to_buffer, deserialize_from_buffer, serialize_to_buffer-above,
}
use court_db.Page.Image.Reread.{Agrees, reread-get_record}

pub record SamePage (p q : Page) : Type 0 where
  pub header_eq : p.header ≡ q.header
  pub slots_eq : p.slots ≡ q.slots
  pub bytes_eq :
      (i : ℕ)
      → header_size + slot_entry_size * q.num_slots ≤ i
      → i < page_size
      → p.bytes i ≡ q.bytes i

pub SamePage-refl : (p : Page) → SamePage p p
SamePage-refl p = record { header_eq = refl; slots_eq = refl; bytes_eq = λ i a b. refl }

pub SamePage-trans : (p q r : Page) → SamePage p q → SamePage q r → SamePage p r
SamePage-trans p q r s t = record {
  header_eq = s.header_eq ∙ t.header_eq;
  slots_eq = s.slots_eq ∙ t.slots_eq;
  bytes_eq = λ i a b.
      s.bytes_eq i (omega (arith, ap (λ (h : PageHeader). h.num_slots) t.header_eq)) b
      ∙ t.bytes_eq i a b;
}

pub SamePage-IsValid : (p q : Page) → SamePage p q → IsValid q → IsValid p
SamePage-IsValid p q s v =
    let w : IsValid (record { header = p.header; slots = p.slots; bytes = q.bytes }) =
      rw (s.header_eq, s.slots_eq)
        (record {
          directory = v.directory;
          directory_end = v.directory_end;
          ordered = v.ordered;
          within = v.within;
          counted = v.counted;
          regions = v.regions;
          apart = v.apart;
        }) in
    record {
      directory = w.directory;
      directory_end = w.directory_end;
      ordered = w.ordered;
      within = w.within;
      counted = w.counted;
      regions = w.regions;
      apart = w.apart;
    }

pub SamePage-get_record :
    (p q : Page) (j : ℕ) → SamePage p q → IsValid q → get_record j p ≡ get_record j q
SamePage-get_record p q j s v =
    get_record_ext p q j (ap (λ h. leb (PageHeader.num_slots h) j) s.header_eq) slot (λ e.
      let bound = live_region q j v e in
      read_ext p.bytes q.bytes (slot_at q j).offset (slot_at q j).offset (slot_at q j).size (λ i h.
        s.bytes_eq ((slot_at q j).offset + i) (omega (arith, bound.0, v.directory_end, v.ordered))
          (omega (arith, bound.1))))
  where
    slot : slot_at p j ≡ slot_at q j
    slot = ap (λ ss. get_or ss j empty_entry) s.slots_eq

pub serialize_to_buffer-SamePage : (p : Page) → IsValid p → SamePage (serialize_to_buffer p) p
unfolding serialize_to_buffer
serialize_to_buffer-SamePage p v = record {
  header_eq = refl;
  slots_eq = refl;
  bytes_eq = λ i a b. serialize_to_buffer-above p i v.directory a;
}

-- From any bytes that agree with a page's image, the same page is read back.
pub reread-SamePage :
    (p old : Page) (b : Bytes)
    → IsValid p
    → HeaderFits p.header
    → All SlotFits p.slots
    → Agrees b (serialize_to_buffer p).bytes
    → SamePage (deserialize_from_buffer (record old { bytes = b })) p
unfolding deserialize_from_buffer
reread-SamePage p old b v fits entries agrees =
    let r = reread-get_record p old b v fits entries agrees in
    record {
      header_eq = r.0;
      slots_eq = r.1;
      bytes_eq = λ i a h. agrees i h ∙ serialize_to_buffer-above p i v.directory a;
    }
