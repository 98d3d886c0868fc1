-- ===== src/Page/Lookup.antt =====
-- What `GetRecord` depends on, and what it returns after `InsertRecord`.
use court_db.Base.{
  Option-cases, ℕ, ◌+◌, ◌≤◌, ◌<◌, ◌≡◌, refl, ap, subst, sym, ◌∙◌, inl, inr, ◌≢◌, true, false,
  Option, none, some, List, [], ◌∷◌, ◌++◌, arith, ltb, leb, length, set, u16, sub16, All-get_or,
  Bool-cases, get_or-set_self, get_or-set_ne, get_or-append_left, get_or-append_last,
}
use court_db.Base.Bytes.{read, write, read-write_self, read-write_disjoint}
use court_db.Page.{
  Page, SlotEntry, page_size, slot_entry_size, is_empty, empty_entry, slot_at, find_empty_slot,
  insert_at, insert_record, place, get_record,
}
use court_db.Page.Invariant.{IsValid, InRegion}
use court_db.Page.Insert.{find_empty_from-some}

-- `GetRecord` sees the slot count, its own slot and the bytes of that slot.
pub get_record_ext :
    (p q : Page) (j : ℕ)
    → leb p.num_slots j ≡ leb q.num_slots j
    → slot_at p j ≡ slot_at q j
    → (is_empty (slot_at q j) ≡ false
        → read p.bytes (slot_at q j).offset (slot_at q j).size
          ≡ read q.bytes (slot_at q j).offset (slot_at q j).size)
    → get_record j p ≡ get_record j q
unfolding get_record
get_record_ext p q j n s r = elim (Bool-cases (is_empty (slot_at q j))) [
  | inl e ↦ rw (n, s, e) refl
  | inr e ↦ rw (n, s, e, r e) refl
]

pub get_record_past : (p : Page) (j : ℕ) → leb p.num_slots j ≡ true → get_record j p ≡ none
unfolding get_record
get_record_past p j h = rw h refl

pub get_record_gone : (p : Page) (j : ℕ) → is_empty (slot_at p j) ≡ true → get_record j p ≡ none
unfolding get_record
get_record_gone p j h = ground arith

-- The slot that `GetRecord` reads, if it returns a record.
pub get_record_live :
    (p : Page) (j : ℕ)
    → j < p.num_slots
    → is_empty (slot_at p j) ≡ false
    → get_record j p ≡ some (read p.bytes (slot_at p j).offset (slot_at p j).size)
unfolding get_record
get_record_live p j h e = ground arith

-- A live slot of a well-formed page lies in the data region.
pub live_region :
    (p : Page) (j : ℕ)
    → IsValid p
    → is_empty (slot_at p j) ≡ false
    → (p.free_space_end ≤ (slot_at p j).offset)
      × ((slot_at p j).offset + (slot_at p j).size ≤ page_size)
live_region p j v e =
    go (All-get_or (InRegion p.free_space_end) p.slots j empty_entry v.regions (inl refl))
  where
    go :
        InRegion p.free_space_end (slot_at p j)
        → (p.free_space_end ≤ (slot_at p j).offset)
          × ((slot_at p j).offset + (slot_at p j).size ≤ page_size)
    go (inl z) = absurd (ground (arith, ap is_empty z))
    go (inr r) = r

-- Bytes written just below the data region change no live record.
pub read_above :
    (p : Page) (j : ℕ) (o : ℕ) (bs : List ℕ)
    → IsValid p
    → is_empty (slot_at p j) ≡ false
    → o + length bs ≤ p.free_space_end
    → read (write p.bytes o bs) (slot_at p j).offset (slot_at p j).size
      ≡ read p.bytes (slot_at p j).offset (slot_at p j).size
read_above p j o bs v e h =
    read-write_disjoint p.bytes o bs (slot_at p j).offset (slot_at p j).size
      (inr (omega (arith, live_region p j v e)))

-- A slot that names the place where bytes lie returns them.
pub get_record_stored :
    (q : Page) (i o : ℕ) (bs : List ℕ)
    → i < q.num_slots
    → 0 < o + length bs
    → slot_at q i ≡ record { offset = o; size = length bs }
    → read q.bytes o (length bs) ≡ bs
    → get_record i q ≡ some bs
get_record_stored q i o bs h pos e r =
    get_record_live q i h (rw e (ground arith)) ∙ rw e (ap some r)

module _ (p : Page) (bs : List ℕ) (v : IsValid p) (nonempty : 0 < length bs) where
  -- The page that `insert_at` leaves, with what its callers need to know.
  pub record Inserted (q : Page) (i : ℕ) : Type 0 where
    pub self : get_record i q ≡ some bs
    pub others : (j : ℕ) → j ≢ i → get_record j q ≡ get_record j p

  abbrev start : ℕ
  start = sub16 p.free_space_end (length bs)

  abbrev entry : SlotEntry
  entry = record { offset = start; size = length bs }

  reused :
      (i : ℕ)
      → i < p.num_slots
      → ltb p.free_space_end (length bs + p.free_space_offset) ≡ false
      → Inserted
          (record p {
            bytes = write p.bytes start bs;
            header = place bs p;
            slots = set p.slots i entry;
          })
          i
  reused i h fits = record {
    self =
        get_record_stored _ i start bs h (omega arith)
          (get_or-set_self p.slots i entry empty_entry (omega (arith, v.directory)))
          (read-write_self p.bytes start bs);
    others = λ j ne.
        get_record_ext _ p j refl (get_or-set_ne p.slots i j entry empty_entry (λ e. ne (sym e)))
          (λ e. read_above p j start bs v e (ground arith));
  }

  appended :
      ltb p.free_space_end (length bs + slot_entry_size + p.free_space_offset) ≡ false
      → Inserted
          (record p {
            bytes = write p.bytes start bs;
            header = record (place bs p) {
              num_slots = u16 (p.num_slots + 1);
              free_space_offset = u16 (p.free_space_offset + slot_entry_size);
            };
            slots = p.slots ++ entry ∷ [];
          })
          p.num_slots
  appended fits = record {
    self =
        get_record_stored _ p.num_slots start bs (ground arith) (omega arith)
          (get_or-append_last p.slots entry empty_entry p.num_slots (sym v.directory))
          (read-write_self p.bytes start bs);
    others = λ j ne. elim (Bool-cases (leb p.num_slots j)) [
      | inl past ↦ get_record_past _ j (ground arith) ∙ sym (get_record_past p j past)
      | inr inside ↦
          get_record_ext _ p j (ground arith)
            (get_or-append_left p.slots (entry ∷ []) j empty_entry (ground arith))
            (λ e. read_above p j start bs v e (ground arith))
    ];
  }

  insert_at-Inserted :
      (o : Option ℕ)
      → ((k : ℕ) → o ≡ some k → k < p.num_slots)
      → (i : ℕ) → (insert_at o bs p).0 ≡ some i
      → Inserted (insert_at o bs p).1 i
  unfolding insert_at
  insert_at-Inserted none b i h =
      elim (Bool-cases (ltb p.free_space_end (length bs + slot_entry_size + p.free_space_offset))) [
        | inl full ↦ absurd (let g : none ≡ some i = rw full at h in cc)
        | inr fits ↦
            let g : some p.num_slots ≡ some i = rw fits at h in
            rw fits (subst (Inserted _) (let e : p.num_slots ≡ i = cc g in e) (appended fits))
      ]
  insert_at-Inserted (some k) b i h =
      elim (Bool-cases (ltb p.free_space_end (length bs + p.free_space_offset))) [
        | inl full ↦ absurd (let g : none ≡ some i = rw full at h in cc)
        | inr fits ↦
            let g : some k ≡ some i = rw fits at h in
            rw fits (subst (Inserted _) (let e : k ≡ i = cc g in e) (reused k (b k refl) fits))
      ]

-- When InsertRecord on a well-formed page returns a slot, GetRecord there returns the record that
-- was inserted, and any other slot returns what it returned before.
pub get_record-insert_record :
    (p : Page) (bs : List ℕ) (i j : ℕ)
    → IsValid p
    → (insert_record (some bs) p).0 ≡ some i
    → j ≢ i
    → (get_record i (insert_record (some bs) p).1 ≡ some bs)
      × (get_record j (insert_record (some bs) p).1 ≡ get_record j p)
unfolding insert_record find_empty_slot
get_record-insert_record p [] i j v h ne = cc
get_record-insert_record p (b ∷ bs) i j v h ne =
    let r : Inserted p (b ∷ bs) v (omega arith) (insert_record (some (b ∷ bs)) p).1 i =
      insert_at-Inserted p (b ∷ bs) v (omega arith) (find_empty_slot p)
        (λ k e. ground (arith, find_empty_from-some p.num_slots 0 p.slots k e)) i h in
    (r.self, r.others j ne)

-- InsertRecord takes a slot that has no record, and where it takes none it changes nothing.
pub insert_record_free :
    (p : Page) (bs : List ℕ) (i : ℕ)
    → (insert_record (some bs) p).0 ≡ some i
    → get_record i p ≡ none
unfolding insert_record find_empty_slot insert_at
insert_record_free p [] i h = cc
insert_record_free p (b ∷ bs) i h = elim (Option-cases (find_empty_slot p)) [
  | inl e ↦ get_record_past p i (ground arith)
  | inr (k, e) ↦
      get_record_gone p i (ground (arith, find_empty_from-some p.num_slots 0 p.slots k e))
]

pub insert_record_refused :
    (p : Page) (bs : List ℕ)
    → (insert_record (some bs) p).0 ≡ none
    → (insert_record (some bs) p).1 ≡ p
unfolding insert_record insert_at
insert_record_refused p [] h = refl
insert_record_refused p (b ∷ bs) h = elim (Option-cases (find_empty_slot p)) [
  | inl e ↦ ground arith
  | inr (k, e) ↦ ground arith
]
