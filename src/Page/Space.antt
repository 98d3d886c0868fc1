-- ===== src/Page/Space.antt =====
-- HasSpaceFor of src/storage/page.cpp against InsertRecord.
use court_db.Base.{
  ℕ, ◌≤◌, ◌<◌, ◌≡◌, ◌⊎◌, inl, inr, Bool, true, false, Option, none, some, List, [], ◌∷◌, arith,
  length, Option-cases,
}
use court_db.Page.{Page, find_empty_slot, insert_at, insert_record, has_space_for, get_free_space}
use court_db.Page.Invariant.{IsValid}

abbrev pub is_some {ℓ} : {A : Type ℓ} → Option A → Bool
is_some none = false
is_some (some a) = true

-- On a well-formed page InsertRecord takes a record of 1 to 65531 bytes exactly when HasSpaceFor
-- answers true for its length, and where it takes none it leaves the page as it is.
pub insert_record-has_space_for :
    (bs : List ℕ) (p : Page)
    → IsValid p
    → 0 < length bs
    → length bs ≤ 65531
    → (is_some (insert_record (some bs) p).0 ≡ has_space_for (length bs) p)
      × ((is_some (insert_record (some bs) p).0 ≡ true) ⊎ ((insert_record (some bs) p).1 ≡ p))
unfolding insert_record has_space_for insert_at get_free_space
insert_record-has_space_for [] p v pos short = absurd (omega arith)
insert_record-has_space_for (b ∷ bs) p v pos short = elim (Option-cases (find_empty_slot p)) [
  | inl e ↦ rw e (ground arith, ground arith)
  | inr (k, e) ↦ rw e (ground arith, ground arith)
]
