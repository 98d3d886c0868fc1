-- ===== src/Page/Delete.antt =====
-- `DeleteRecord`: it keeps a page well-formed and removes one record.
use court_db.Base.{
  ℕ, ◌<◌, ◌≡◌, refl, sym, ◌∙◌, ◌⊎◌, inl, inr, ◌≢◌, true, false, none, List, [], ◌∷◌, arith, leb,
  get_or, set, sub16, All, All-set, length-set, Bool-cases, get_or-set_self, get_or-set_ne,
}
use court_db.Page.{Page, SlotEntry, is_empty, empty_entry, slot_at, get_record, delete_record}
use court_db.Page.Invariant.{IsValid, InRegion, IsApart, live, live-set, live-le, AreApart-set}
use court_db.Page.Lookup.{get_record_ext, get_record_past, get_record_gone, get_record_live}

-- The empty entry has no bytes, so it is apart from every other.
empty-IsApart : (ss : List SlotEntry) → All (IsApart empty_entry) ss
empty-IsApart [] = tt
empty-IsApart (s ∷ ss) = (inl (omega arith), empty-IsApart ss)

-- DeleteRecord keeps a well-formed page well-formed, whether it finds a record or not.
pub delete_record-IsValid : (i : ℕ) (p : Page) → IsValid p → IsValid (delete_record i p).1
unfolding delete_record live
delete_record-IsValid i p v = elim (Bool-cases (leb p.num_slots i)) [
  | inl past ↦ rw past v
  | inr inside ↦ elim (Bool-cases (is_empty (slot_at p i))) [
    | inl gone ↦ rw (inside, gone) v
    | inr here ↦ rw (inside, here) (deleted (ground arith) here)
  ]
]
  where
    deleted :
        i < p.num_slots
        → is_empty (slot_at p i) ≡ false
        → IsValid (record p {
          header = record p.header { num_records = sub16 p.num_records 1 };
          slots = set p.slots i empty_entry;
        })
    deleted h e = record {
      directory = length-set p.slots i empty_entry ∙ v.directory;
      directory_end = v.directory_end;
      ordered = v.ordered;
      within = v.within;
      counted =
          ground
            (arith, live-le p.slots, live-set p.slots i empty_entry (omega (arith, v.directory)));
      regions = All-set (InRegion p.free_space_end) p.slots i empty_entry v.regions (inl refl);
      apart = AreApart-set p.slots i empty_entry v.apart (empty-IsApart p.slots);
    }

-- On a well-formed page DeleteRecord succeeds exactly where GetRecord returns a record. Then that
-- slot returns none and any other slot what it returned before; otherwise the page is unchanged.
pub get_record-delete_record :
    (i j : ℕ) (p : Page)
    → IsValid p
    → j ≢ i
    → (((delete_record i p).0 ≡ false) × ((delete_record i p).1 ≡ p) × (get_record i p ≡ none))
      ⊎ (((delete_record i p).0 ≡ true)
          × (get_record i p ≢ none)
          × (get_record i (delete_record i p).1 ≡ none)
          × (get_record j (delete_record i p).1 ≡ get_record j p))
unfolding delete_record
get_record-delete_record i j p v ne = elim (Bool-cases (leb p.num_slots i)) [
  | inl past ↦ inl (rw past refl, rw past refl, get_record_past p i past)
  | inr inside ↦ elim (Bool-cases (is_empty (slot_at p i))) [
    | inl gone ↦ inl (rw (inside, gone) refl, rw (inside, gone) refl, get_record_gone p i gone)
    | inr here ↦ inr (
      rw (inside, here) refl,
      λ e. cc (get_record_live p i (ground arith) here),
      rw (inside, here) (get_record_gone _ i (rw (cleared inside) refl)),
      rw (inside, here)
          (get_record_ext _ p j refl
            (get_or-set_ne p.slots i j empty_entry empty_entry (λ e. ne (sym e))) (λ e. refl)),
    )
  ]
]
  where
    cleared :
        leb p.num_slots i ≡ false → get_or (set p.slots i empty_entry) i empty_entry ≡ empty_entry
    cleared h = get_or-set_self p.slots i empty_entry empty_entry (ground (arith, v.directory))
