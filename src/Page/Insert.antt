-- ===== src/Page/Insert.antt =====
-- `InsertRecord` keeps a page well-formed.
use court_db.Base.{
  ℕ, zero, suc, ◌+◌, ◌-◌, ◌≤◌, ◌<◌, ◌≡◌, refl, ◌∙◌, inl, inr, true, false, Option, none, some, List,
  [], ◌∷◌, ◌++◌, arith, ltb, length, get_or, set, u16, sub16, All-append, All-set, length-set,
  length-append, Bool-cases,
}
use court_db.Base.Bytes.{write}
use court_db.Page.{
  Page, SlotEntry, slot_entry_size, is_empty, empty_entry, slot_at, find_empty_from,
  find_empty_slot, insert_at, insert_record, place,
}
use court_db.Page.Invariant.{
  IsValid, InRegion, live, live-append, live-set, live-le, All-InRegion-mono, below_region,
  AreApart-append, AreApart-set,
}

-- The scan returns an empty slot of the directory.
pub find_empty_from-some :
    (n i : ℕ) (ss : List SlotEntry) (j : ℕ)
    → find_empty_from n i ss ≡ some j
    → (i ≤ j) × (j - i < length ss) × (j - i < n) × (get_or ss (j - i) empty_entry ≡ empty_entry)
unfolding find_empty_from
find_empty_from-some zero i ss j h = ground arith
find_empty_from-some (suc n) i [] j h = ground arith
find_empty_from-some (suc n) i (s ∷ ss) j h = elim (Bool-cases (is_empty s)) [
  | inl e ↦ first (rw e at h) e
  | inr e ↦ later (find_empty_from-some n (i + 1) ss j (rw e at h))
]
  where
    first :
        some i ≡ some j
        → is_empty s ≡ true
        → (i ≤ j)
          × (j - i < suc (length ss))
          × (j - i < suc n)
          × (get_or (s ∷ ss) (j - i) empty_entry ≡ empty_entry)
    first q e =
        let z : j - i ≡ 0 = ground arith in
        (ground arith, ground arith, ground arith, rw z (ground arith))

    later :
        (i + 1 ≤ j)
          × (j - (i + 1) < length ss)
          × (j - (i + 1) < n)
          × (get_or ss (j - (i + 1)) empty_entry ≡ empty_entry)
        → (i ≤ j)
          × (j - i < suc (length ss))
          × (j - i < suc n)
          × (get_or (s ∷ ss) (j - i) empty_entry ≡ empty_entry)
    later q =
        let z : j - i ≡ suc (j - (i + 1)) = omega arith in
        (omega arith, omega arith, omega arith, rw z q.3)

-- If it returns none, every slot of the directory is live.
pub find_empty_from-none :
    (n i : ℕ) (ss : List SlotEntry) → find_empty_from n i ss ≡ none → length ss ≡ n → live ss ≡ n
unfolding find_empty_from live
find_empty_from-none zero i [] h e = refl
find_empty_from-none zero i (s ∷ ss) h e = absurd (omega arith)
find_empty_from-none (suc n) i [] h e = absurd (omega arith)
find_empty_from-none (suc n) i (s ∷ ss) h e = ground (arith, find_empty_from-none n (i + 1) ss)

module _ (p : Page) (bs : List ℕ) (v : IsValid p) (nonempty : 0 < length bs) where
  abbrev start : ℕ
  start = sub16 p.free_space_end (length bs)

  abbrev entry : SlotEntry
  entry = record { offset = start; size = length bs }

  reused :
      (i : ℕ)
      → i < length p.slots
      → slot_at p i ≡ empty_entry
      → ltb p.free_space_end (length bs + p.free_space_offset) ≡ false
      → IsValid (record p {
        bytes = write p.bytes start bs;
        header = place bs p;
        slots = set p.slots i entry;
      })
  unfolding live
  reused i h e fits =
      let low : start + length bs ≡ p.free_space_end = ground arith in
      let bound : live p.slots ≤ length p.slots = live-le p.slots in
      record {
        directory = length-set p.slots i entry ∙ v.directory;
        directory_end = v.directory_end;
        ordered = ground arith;
        within = omega arith;
        counted = ground (arith, live-set p.slots i entry h);
        regions =
            All-set (InRegion start) p.slots i entry
              (All-InRegion-mono p.free_space_end start p.slots (omega arith) v.regions)
              (inr (omega arith));
        apart =
            AreApart-set p.slots i entry v.apart
              (below_region p.free_space_end entry p.slots (omega arith) v.regions);
      }

  appended :
      ltb p.free_space_end (length bs + slot_entry_size + p.free_space_offset) ≡ false
      → IsValid (record p {
        bytes = write p.bytes start bs;
        header = record (place bs p) {
          num_slots = u16 (p.num_slots + 1);
          free_space_offset = u16 (p.free_space_offset + slot_entry_size);
        };
        slots = p.slots ++ entry ∷ [];
      })
  unfolding live
  appended fits =
      let low : start + length bs ≡ p.free_space_end = ground arith in
      let bound : live p.slots ≤ length p.slots = live-le p.slots in
      record {
        directory = omega (arith, length-append p.slots (entry ∷ []));
        directory_end = omega arith;
        ordered = ground arith;
        within = omega arith;
        counted = ground (arith, live-append p.slots entry);
        regions =
            All-append (InRegion start) p.slots (entry ∷ [])
              (All-InRegion-mono p.free_space_end start p.slots (omega arith) v.regions)
              (inr (omega arith), tt);
        apart =
            AreApart-append p.slots entry v.apart
              (below_region p.free_space_end entry p.slots (omega arith) v.regions);
      }

  reuse-IsValid :
      (i : ℕ) → i < length p.slots → slot_at p i ≡ empty_entry → IsValid (insert_at (some i) bs p).1
  unfolding insert_at
  reuse-IsValid i h e = elim (Bool-cases (ltb p.free_space_end (length bs + p.free_space_offset))) [
    | inl full ↦ rw full v
    | inr fits ↦ rw fits (reused i h e fits)
  ]

  append-IsValid : IsValid (insert_at none bs p).1
  unfolding insert_at
  append-IsValid =
      elim (Bool-cases (ltb p.free_space_end (length bs + slot_entry_size + p.free_space_offset))) [
        | inl full ↦ rw full v
        | inr fits ↦ rw fits (appended fits)
      ]

-- A well-formed page stays well-formed under InsertRecord, whether it takes the record or refuses
-- it: the directory has an entry for each slot and ends below the data region, live records lie in
-- that region and apart from each other, and the record count is the number of live slots.
pub insert_record-IsValid :
    (source : Option (List ℕ)) (p : Page) → IsValid p → IsValid (insert_record source p).1
unfolding insert_record find_empty_slot
insert_record-IsValid none p v = v
insert_record-IsValid (some []) p v = v
insert_record-IsValid (some (b ∷ bs)) p v = go (find_empty_slot p) refl
  where
    go : (o : Option ℕ) → find_empty_slot p ≡ o → IsValid (insert_at o (b ∷ bs) p).1
    go none e = append-IsValid p (b ∷ bs) v (omega arith)
    go (some i) e =
        let f : (0 ≤ i)
            × (i - 0 < length p.slots)
            × (i - 0 < p.num_slots)
            × (get_or p.slots (i - 0) empty_entry ≡ empty_entry) =
          find_empty_from-some p.num_slots 0 p.slots i e in
        let z : i - 0 ≡ i = omega arith in
        reuse-IsValid p (b ∷ bs) v (omega arith) i (omega arith) (rw z at f.3)
