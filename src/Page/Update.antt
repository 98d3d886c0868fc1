-- ===== src/Page/Update.antt =====
-- `UpdateRecord`: it keeps a page well-formed and replaces one record, where the new record fits.
use native.Mathlib.Decide.{dec_le}
use court_db.Base.{
  ℕ, zero, suc, ◌+◌, ◌≤◌, ◌<◌, ◌≡◌, refl, ap, sym, ◌∙◌, ◌⊎◌, inl, inr, ◌≢◌, Bool, true, false, some,
  List, [], ◌∷◌, arith, leb, ◌||◌, length, get_or, set, sub16, All, All-set, All-get_or, length-set,
  Bool-cases, get_or-set_self, get_or-set_ne,
}
use court_db.Base.Bytes.{read-write_self, read-write_disjoint}
use court_db.Page.{
  Page, SlotEntry, is_empty, empty_entry, slot_at, get_record, update_record, overwrite,
  move_to_end, get_free_space,
}
use court_db.Page.Invariant.{
  IsValid, InRegion, IsApart, AreApart, live, live-set, All-InRegion-mono, below_region,
  AreApart-set,
}
use court_db.Page.Lookup.{get_record_ext, get_record_stored, live_region, read_above}

-- Replacing an entry by a part of it that begins at the same offset.
AreApart-shrink :
    (ss : List SlotEntry) (i : ℕ) (n : ℕ)
    → n ≤ (get_or ss i empty_entry).size
    → AreApart ss
    → AreApart (set ss i (record { offset = (get_or ss i empty_entry).offset; size = n }))
AreApart-shrink [] i n h a = tt
AreApart-shrink (s ∷ ss) zero n h a = (shrunk ss a.0, a.1)
  where
    shrunk :
        (ts : List SlotEntry)
        → All (IsApart s) ts
        → All (IsApart (record { offset = s.offset; size = n })) ts
    shrunk [] b = tt
    shrunk (t ∷ ts) b = (ground arith, shrunk ts b.1)
AreApart-shrink (s ∷ ss) (suc i) n h a = (
  All-set (IsApart s) ss i _ a.0 (
      let q : IsApart s (get_or ss i empty_entry) =
        All-get_or (IsApart s) ss i empty_entry a.0 (inr (omega arith)) in
      ground arith),
  AreApart-shrink ss i n h a.1,
)

-- Two slots of a well-formed page do not overlap.
pub slots-IsApart :
    (ss : List SlotEntry) (i j : ℕ)
    → AreApart ss
    → i ≢ j
    → IsApart (get_or ss i empty_entry) (get_or ss j empty_entry)
slots-IsApart [] i j a ne = inl (omega arith)
slots-IsApart (s ∷ ss) zero zero a ne = absurd (ne refl)
slots-IsApart (s ∷ ss) zero (suc j) a ne =
    All-get_or (IsApart s) ss j empty_entry a.0 (inr (omega arith))
slots-IsApart (s ∷ ss) (suc i) zero a ne =
    let q : IsApart s (get_or ss i empty_entry) =
      All-get_or (IsApart s) ss i empty_entry a.0 (inr (omega arith)) in
    ground arith
slots-IsApart (s ∷ ss) (suc i) (suc j) a ne = slots-IsApart ss i j a.1 (λ e. ne (ap suc e))

live_kept :
    (ss : List SlotEntry) (i : ℕ) (s : SlotEntry)
    → i < length ss
    → is_empty (get_or ss i empty_entry) ≡ false
    → is_empty s ≡ false
    → live (set ss i s) ≡ live ss
unfolding live
live_kept ss i s h e f = ground (arith, live-set ss i s h)

module _ (i : ℕ) (bs : List ℕ) (p : Page) (v : IsValid p) (inside : i < p.num_slots)
    (here : is_empty (slot_at p i) ≡ false) where
  abbrev old : SlotEntry
  old = slot_at p i

  overwrite-IsValid : length bs ≤ old.size → IsValid (overwrite i bs p)
  overwrite-IsValid h = record {
    directory = length-set p.slots i _ ∙ v.directory;
    directory_end = v.directory_end;
    ordered = v.ordered;
    within = v.within;
    counted =
        v.counted
        ∙ sym (
            live_kept p.slots i _ (omega (arith, v.directory)) here
              (ground (arith, live_region p i v here, v.directory_end, v.ordered)));
    regions =
        All-set (InRegion p.free_space_end) p.slots i _ v.regions
          (inr (omega (arith, live_region p i v here)));
    apart = AreApart-shrink p.slots i (length bs) h v.apart;
  }

  move_to_end-IsValid :
      0 < length bs
      → length bs + p.free_space_offset ≤ p.free_space_end
      → IsValid (move_to_end i bs p)
  move_to_end-IsValid pos h = record {
    directory = length-set p.slots i _ ∙ v.directory;
    directory_end = v.directory_end;
    ordered = omega (arith, v.ordered, v.within);
    within = omega (arith, v.ordered, v.within);
    counted =
        v.counted ∙ sym (live_kept p.slots i _ (omega (arith, v.directory)) here (ground arith));
    regions =
        All-set (InRegion (sub16 p.free_space_end (length bs))) p.slots i _
          (All-InRegion-mono p.free_space_end _ p.slots (omega (arith, v.within)) v.regions)
          (inr (omega (arith, v.within)));
    apart =
        AreApart-set p.slots i _ v.apart
          (below_region p.free_space_end _ p.slots (omega (arith, v.within)) v.regions);
  }

  overwrite-get_self : length bs ≤ old.size → get_record i (overwrite i bs p) ≡ some bs
  overwrite-get_self h =
      get_record_stored (overwrite i bs p) i old.offset bs inside
        (omega (arith, live_region p i v here, v.directory_end, v.ordered))
        (get_or-set_self p.slots i _ empty_entry (omega (arith, v.directory)))
        (read-write_self p.bytes old.offset bs)

  overwrite-get_ne :
      length bs ≤ old.size → (j : ℕ) → j ≢ i → get_record j (overwrite i bs p) ≡ get_record j p
  overwrite-get_ne h j ne =
      get_record_ext _ p j refl (get_or-set_ne p.slots i j _ empty_entry (λ e. ne (sym e))) (λ e.
        read-write_disjoint p.bytes old.offset bs (slot_at p j).offset (slot_at p j).size (
          let a : IsApart (slot_at p i) (slot_at p j) =
            slots-IsApart p.slots i j v.apart (λ e. ne (sym e)) in
          ground arith))

  module _ (pos : 0 < length bs) (room : length bs + p.free_space_offset ≤ p.free_space_end) where
    move_to_end-get_self : get_record i (move_to_end i bs p) ≡ some bs
    move_to_end-get_self =
        get_record_stored (move_to_end i bs p) i (sub16 p.free_space_end (length bs)) bs inside
          (omega arith) (get_or-set_self p.slots i _ empty_entry (omega (arith, v.directory)))
          (read-write_self p.bytes (sub16 p.free_space_end (length bs)) bs)

    move_to_end-get_ne : (j : ℕ) → j ≢ i → get_record j (move_to_end i bs p) ≡ get_record j p
    move_to_end-get_ne j ne =
        get_record_ext (move_to_end i bs p) p j refl
          (get_or-set_ne p.slots i j _ empty_entry (λ e. ne (sym e)))
          (λ e. read_above p j _ bs v e (omega (arith, v.within)))

-- What is asked of an update: the record shrinks, or the free region holds all of it.
abbrev pub HasRoom : ℕ → List ℕ → Page → Type 0
HasRoom i bs p =
    (length bs ≤ (slot_at p i).size) ⊎ (length bs + p.free_space_offset ≤ p.free_space_end)

pub record Updated (i : ℕ) (bs : List ℕ) (p q : Page) : Type 0 where
  pub valid : IsValid q
  pub self : get_record i q ≡ some bs
  pub others : (j : ℕ) → j ≢ i → get_record j q ≡ get_record j p

abbrev pub Absent : ℕ → Page → Type 0
Absent i p = (p.num_slots ≤ i) ⊎ (is_empty (slot_at p i) ≡ true)

update_refuses :
    (i : ℕ) (bs : List ℕ) (p : Page)
    → leb p.num_slots i || is_empty (slot_at p i) ≡ true
    → update_record i bs p ≡ (false, p)
unfolding update_record
update_refuses i bs p e = rw e refl

module _ (i : ℕ) (bs : List ℕ) (p : Page) (v : IsValid p) (inside : i < p.num_slots)
    (here : is_empty (slot_at p i) ≡ false) where
  update_shrinks : length bs ≤ (slot_at p i).size → update_record i bs p ≡ (true, overwrite i bs p)
  unfolding update_record
  update_shrinks h = ground arith

  update_moves :
      (slot_at p i).size < length bs
      → length bs + p.free_space_offset ≤ (slot_at p i).size + p.free_space_end
      → update_record i bs p ≡ (true, move_to_end i bs p)
  unfolding update_record get_free_space
  update_moves grows passes = ground (arith, live_region p i v here)

  shrinks_present :
      length bs ≤ (slot_at p i).size
      → ((update_record i bs p).0 ≡ true) × Updated i bs p (update_record i bs p).1
  shrinks_present h = rw (update_shrinks h) (
    refl,
    record {
      valid = overwrite-IsValid i bs p v inside here h;
      self = overwrite-get_self i bs p v inside here h;
      others = overwrite-get_ne i bs p v inside here h;
    },
  )

  present :
      HasRoom i bs p → ((update_record i bs p).0 ≡ true) × Updated i bs p (update_record i bs p).1
  present (inl h) = shrinks_present h
  present (inr h) = elim (dec_le (length bs) (slot_at p i).size) [
    | yes fits ↦ shrinks_present fits
    | no grows ↦ rw (update_moves (omega arith) (omega arith)) (
      refl,
      record {
        valid = move_to_end-IsValid i bs p v inside here (omega arith) h;
        self = move_to_end-get_self i bs p v inside here (omega arith) h;
        others = move_to_end-get_ne i bs p v inside here (omega arith) h;
      },
    )
  ]

-- On a well-formed page, where the slot's record shrinks or the free region holds the whole new
-- record, UpdateRecord refuses exactly the slots without a record and leaves the page as it is;
-- else it keeps the page well-formed, stores the new record in the slot and changes no other
-- record.
pub update_record-Updated :
    (i : ℕ) (bs : List ℕ) (p : Page)
    → IsValid p
    → HasRoom i bs p
    → (Absent i p × ((update_record i bs p).0 ≡ false) × ((update_record i bs p).1 ≡ p))
      ⊎ (((update_record i bs p).0 ≡ true) × Updated i bs p (update_record i bs p).1)
update_record-Updated i bs p v room = elim (Bool-cases (leb p.num_slots i)) [
  | inl past ↦ absent (inl (ground arith)) (rw past refl)
  | inr inside ↦ elim (Bool-cases (is_empty (slot_at p i))) [
    | inl gone ↦ absent (inr gone) (rw (inside, gone) refl)
    | inr here ↦ inr (present i bs p v (ground arith) here room)
  ]
]
  where
    absent :
        Absent i p
        → leb p.num_slots i || is_empty (slot_at p i) ≡ true
        → (Absent i p × ((update_record i bs p).0 ≡ false) × ((update_record i bs p).1 ≡ p))
          ⊎ (((update_record i bs p).0 ≡ true) × Updated i bs p (update_record i bs p).1)
    absent a e = inl (
      a,
      ap (λ (r : Bool × Page). r.0) (update_refuses i bs p e),
      ap (λ (r : Bool × Page). r.1) (update_refuses i bs p e),
    )

-- On a well-formed page, wherever the growth of a record fits the free region and the whole of the
-- new record does not, UpdateRecord reports success and the page that it leaves is not
-- well-formed: the test compares the growth, but the whole record is written to the free region.
pub update_record_overruns :
    (i : ℕ) (bs : List ℕ) (p : Page)
    → IsValid p
    → i < p.num_slots
    → is_empty (slot_at p i) ≡ false
    → (slot_at p i).size < length bs
    → length bs + p.free_space_offset ≤ (slot_at p i).size + p.free_space_end
    → p.free_space_end < length bs + p.free_space_offset
    → ((update_record i bs p).0 ≡ true) × ¬ IsValid (update_record i bs p).1
update_record_overruns i bs p v inside here grows passes short =
    rw (update_moves i bs p v inside here grows passes) (
      refl,
      λ w. absurd (omega (arith, w.ordered, w.within, v.ordered, v.within, live_region p i v here)),
    )
