-- ===== src/Page/Image/Fits.antt =====
-- The record operations of src/storage/page.cpp leave fields that fit their widths.
use court_db.Base.{
  ℕ, ◌+◌, ◌^◌, ◌<◌, arith, Option, none, some, List, [], ◌∷◌, ltb, leb, ◌||◌, inl, inr, Bool-cases,
  length, All, All-set, All-append, All-get_or, sub16,
}
use court_db.Page.{
  Page, slot_entry_size, slot_at, empty_entry, is_empty, find_empty_slot, insert_at, insert_record,
  delete_record, update_record, get_free_space, new_page,
}
use court_db.Page.Invariant.{IsValid}
use court_db.Page.Image.{HeaderFits, SlotFits}

-- The header and the slots of a page keep the widths of their fields.
pub record Fits (p : Page) : Type 0 where
  pub fits : HeaderFits p.header
  pub slots_fit : All SlotFits p.slots

insert_at-Fits :
    (slot : Option ℕ) (bs : List ℕ) (p : Page) → IsValid p → Fits p → Fits (insert_at slot bs p).1
unfolding insert_at
insert_at-Fits (some slot_id) bs p v g =
    elim (Bool-cases (ltb p.free_space_end (length bs + p.free_space_offset))) [
      | inl full ↦ rw full g
      | inr room ↦ rw room (record {
        fits = record {
          page_id_fits = g.fits.page_id_fits;
          num_slots_fits = g.fits.num_slots_fits;
          free_space_offset_fits = g.fits.free_space_offset_fits;
          free_space_end_fits = omega arith;
          num_records_fits = omega arith;
          next_page_id_fits = g.fits.next_page_id_fits;
          flags_fits = g.fits.flags_fits;
        };
        slots_fit =
            All-set SlotFits p.slots slot_id _ g.slots_fit
              (omega arith, ground (arith, v.within, room));
      })
    ]
insert_at-Fits none bs p v g =
    elim (Bool-cases (ltb p.free_space_end (length bs + slot_entry_size + p.free_space_offset))) [
      | inl full ↦ rw full g
      | inr room ↦ rw room (record {
        fits = record {
          page_id_fits = g.fits.page_id_fits;
          num_slots_fits = omega arith;
          free_space_offset_fits = omega arith;
          free_space_end_fits = omega arith;
          num_records_fits = omega arith;
          next_page_id_fits = g.fits.next_page_id_fits;
          flags_fits = g.fits.flags_fits;
        };
        slots_fit =
            All-append SlotFits p.slots (_ ∷ []) g.slots_fit
              ((omega arith, ground (arith, v.within, room)), tt);
      })
    ]

pub insert_record-Fits :
    (bs : List ℕ) (p : Page) → IsValid p → Fits p → Fits (insert_record (some bs) p).1
unfolding insert_record find_empty_slot
insert_record-Fits [] p v g = g
insert_record-Fits (b ∷ bs) p v g = insert_at-Fits (find_empty_slot p) (b ∷ bs) p v g

pub delete_record-Fits : (slot_id : ℕ) (p : Page) → Fits p → Fits (delete_record slot_id p).1
unfolding delete_record
delete_record-Fits slot_id p g = elim (Bool-cases (leb p.num_slots slot_id)) [
  | inl past ↦ rw past g
  | inr inside ↦ elim (Bool-cases (is_empty (slot_at p slot_id))) [
    | inl gone ↦ rw (inside, gone) g
    | inr here ↦
        rw (inside, here)
          (record {
            fits = record {
              page_id_fits = g.fits.page_id_fits;
              num_slots_fits = g.fits.num_slots_fits;
              free_space_offset_fits = g.fits.free_space_offset_fits;
              free_space_end_fits = g.fits.free_space_end_fits;
              num_records_fits = omega arith;
              next_page_id_fits = g.fits.next_page_id_fits;
              flags_fits = g.fits.flags_fits;
            };
            slots_fit = All-set SlotFits p.slots slot_id empty_entry g.slots_fit (omega arith);
          })
  ]
]

-- The new record is at most as long as a page.
pub update_record-Fits :
    (slot_id : ℕ) (bs : List ℕ) (p : Page)
    → length bs < 65536
    → Fits p
    → Fits (update_record slot_id bs p).1
unfolding update_record get_free_space
update_record-Fits slot_id bs p h g =
    elim (Bool-cases (leb p.num_slots slot_id || is_empty (slot_at p slot_id))) [
      | inl gone ↦ rw gone g
      | inr here ↦ elim (Bool-cases (leb (length bs) (slot_at p slot_id).size)) [
        | inl small ↦
            rw (here, small)
              (record {
                fits = g.fits;
                slots_fit = All-set SlotFits p.slots slot_id _ g.slots_fit (
                  (All-get_or SlotFits p.slots slot_id empty_entry g.slots_fit (omega arith)).0,
                  h,
                );
              })
        | inr large ↦
            elim (Bool-cases
              (ltb (get_free_space p) (sub16 (length bs) (slot_at p slot_id).size))) [
                | inl full ↦ rw (here, large, full) g
                | inr room ↦
                    rw (here, large, room)
                      (record {
                        fits = record {
                          page_id_fits = g.fits.page_id_fits;
                          num_slots_fits = g.fits.num_slots_fits;
                          free_space_offset_fits = g.fits.free_space_offset_fits;
                          free_space_end_fits = omega arith;
                          num_records_fits = g.fits.num_records_fits;
                          next_page_id_fits = g.fits.next_page_id_fits;
                          flags_fits = g.fits.flags_fits;
                        };
                        slots_fit = All-set SlotFits p.slots slot_id _ g.slots_fit (omega arith, h);
                      })
              ]
      ]
    ]

pub new_page-Fits : (id : ℕ) → id < 256 ^ 4 → Fits (new_page id)
unfolding new_page
new_page-Fits id h = record {
  fits = record {
    page_id_fits = h;
    num_slots_fits = omega arith;
    free_space_offset_fits = omega arith;
    free_space_end_fits = omega arith;
    num_records_fits = omega arith;
    next_page_id_fits = omega arith;
    flags_fits = omega arith;
  };
  slots_fit = tt;
}
