-- ===== src/Page/Invariant.antt =====
-- The well-formedness of a slotted page, and that the record operations keep it.
use court_db.Base.{
  ℕ, zero, suc, ◌+◌, ◌*◌, ◌≤◌, ◌<◌, ◌≡◌, ◌⊎◌, List, [], ◌∷◌, ◌++◌, arith, if◌then◌else◌, length,
  get_or, set, All, All-append, All-set,
}
use court_db.Page.{
  Page, SlotEntry, page_size, header_size, slot_entry_size, is_empty, empty_entry, new_page,
}

-- The number of live slots.
unfoldable pub live : List SlotEntry → ℕ
live [] = 0
live (s ∷ ss) = (if is_empty s then 0 else 1) + live ss

-- A live slot lies in the data region, which begins at `end`.
abbrev pub InRegion : ℕ → SlotEntry → Type 0
InRegion end s = (s ≡ empty_entry) ⊎ ((end ≤ s.offset) × (s.offset + s.size ≤ page_size))

abbrev pub IsApart : SlotEntry → SlotEntry → Type 0
IsApart s t = (s.offset + s.size ≤ t.offset) ⊎ (t.offset + t.size ≤ s.offset)

abbrev pub AreApart : List SlotEntry → Type 0
AreApart [] = Unit
AreApart (s ∷ ss) = All (IsApart s) ss × AreApart ss

pub record IsValid (p : Page) : Type 0 where
  pub directory : length p.slots ≡ p.num_slots
  pub directory_end : p.free_space_offset ≡ header_size + slot_entry_size * p.num_slots
  pub ordered : p.free_space_offset ≤ p.free_space_end
  pub within : p.free_space_end ≤ page_size
  pub counted : p.num_records ≡ live p.slots
  pub regions : All (InRegion p.free_space_end) p.slots
  pub apart : AreApart p.slots

pub new_page-IsValid : (id : ℕ) → IsValid (new_page id)
unfolding new_page live
new_page-IsValid id = omega arith

pub live-le : (ss : List SlotEntry) → live ss ≤ length ss
unfolding live
live-le [] = omega arith
live-le (s ∷ ss) = ground (arith, live-le ss)

pub live-append :
    (ss : List SlotEntry) (s : SlotEntry) → live (ss ++ s ∷ []) ≡ live ss + live (s ∷ [])
unfolding live
live-append [] s = omega arith
live-append (t ∷ ss) s = omega (arith, live-append ss s)

-- Writing a slot moves the count by the difference of the two entries.
pub live-set :
    (ss : List SlotEntry) (i : ℕ) (s : SlotEntry)
    → i < length ss
    → live (set ss i s) + live (get_or ss i empty_entry ∷ []) ≡ live ss + live (s ∷ [])
unfolding live
live-set [] i s h = absurd (omega arith)
live-set (t ∷ ss) zero s h = omega arith
live-set (t ∷ ss) (suc i) s h = omega (arith, live-set ss i s (omega arith))

InRegion-mono : (e f : ℕ) (s : SlotEntry) → f ≤ e → InRegion e s → InRegion f s
InRegion-mono e f s h r = ground arith

pub All-InRegion-mono :
    (e f : ℕ) (ss : List SlotEntry) → f ≤ e → All (InRegion e) ss → All (InRegion f) ss
All-InRegion-mono e f [] h r = tt
All-InRegion-mono e f (s ∷ ss) h r = (InRegion-mono e f s h r.0, All-InRegion-mono e f ss h r.1)

-- An entry that ends where the data region begins is apart from all others.
pub below_region :
    (e : ℕ) (s : SlotEntry) (ss : List SlotEntry)
    → s.offset + s.size ≤ e
    → All (InRegion e) ss
    → All (IsApart s) ss
below_region e s [] h r = tt
below_region e s (t ∷ ss) h r = (ground arith, below_region e s ss h r.1)

pub AreApart-append :
    (ss : List SlotEntry) (s : SlotEntry)
    → AreApart ss
    → All (IsApart s) ss
    → AreApart (ss ++ s ∷ [])
AreApart-append [] s a r = (tt, tt)
AreApart-append (t ∷ ss) s a r =
    (All-append (IsApart t) ss (s ∷ []) a.0 (ground arith, tt), AreApart-append ss s a.1 r.1)

-- Replacing an entry by one that is apart from all the others.
pub AreApart-set :
    (ss : List SlotEntry) (i : ℕ) (s : SlotEntry)
    → AreApart ss
    → All (IsApart s) ss
    → AreApart (set ss i s)
AreApart-set [] i s a r = tt
AreApart-set (t ∷ ss) zero s a r = (r.1, a.1)
AreApart-set (t ∷ ss) (suc i) s a r =
    (All-set (IsApart t) ss i s a.0 (ground arith), AreApart-set ss i s a.1 r.1)
