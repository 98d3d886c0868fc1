-- ===== src/Page/Image/Change.antt =====
-- The record operations of src/storage/page.cpp on pages that are the same.
use court_db.Base.{
  ℕ, ◌+◌, ◌*◌, ◌≤◌, ◌<◌, ◌≡◌, refl, sym, ap, subst, arith, Option, none, some, List, [], ◌∷◌, ltb,
  leb, ◌||◌, inl, inr, Bool-cases, length, set, sub16,
}
use court_db.Base.Bytes.{Bytes, write}
use court_db.Page.{
  Page, page_size, header_size, slot_entry_size, slot_at, is_empty, find_empty_slot, insert_at,
  insert_record, delete_record, update_record, get_free_space, has_space_for,
}
use court_db.Page.Invariant.{IsValid}
use court_db.Page.Image.Same.{SamePage}

write_agrees :
    (b c : Bytes) (o : ℕ) (bs : List ℕ) (i : ℕ) → b i ≡ c i → write b o bs i ≡ write c o bs i
unfolding write
write_agrees b c o bs i e = ground arith

-- The results of an operation on the two pages are equal, and the pages that it leaves the same.
abbrev pub SameResult {ℓ} : {A : Type ℓ} → A × Page → A × Page → Type ℓ
SameResult r s = (r.0 ≡ s.0) × SamePage r.1 s.1

-- Two pages that are the same differ in their bytes only.
module _ (q : Page) (b : Bytes) (v : IsValid q)
    (agrees : (i : ℕ)
      → header_size + slot_entry_size * q.num_slots ≤ i
      → i < page_size
      → b i ≡ q.bytes i) where
  abbrev other : Page
  other = record q { bytes = b }

  unchanged : SamePage other q
  unchanged = record { header_eq = refl; slots_eq = refl; bytes_eq = agrees }

  insert_at-same :
      (slot : Option ℕ) (bs : List ℕ) → SameResult (insert_at slot bs other) (insert_at slot bs q)
  unfolding insert_at
  insert_at-same (some slot_id) bs =
      elim (Bool-cases (ltb q.free_space_end (length bs + q.free_space_offset))) [
        | inl full ↦ rw full (refl, unchanged)
        | inr fits ↦ rw fits (
          refl,
          record {
            header_eq = refl;
            slots_eq = refl;
            bytes_eq = λ i a h. write_agrees b q.bytes _ bs i (agrees i a h);
          },
        )
      ]
  insert_at-same none bs =
      elim (Bool-cases (ltb q.free_space_end (length bs + slot_entry_size + q.free_space_offset))) [
        | inl full ↦ rw full (refl, unchanged)
        | inr fits ↦ rw fits (
          refl,
          record {
            header_eq = refl;
            slots_eq = refl;
            bytes_eq = λ i a h.
                write_agrees b q.bytes _ bs i
                  (agrees i (omega (arith, v.directory_end, v.ordered, v.within)) h);
          },
        )
      ]

  insert_record-same :
      (bs : List ℕ) → SameResult (insert_record (some bs) other) (insert_record (some bs) q)
  unfolding insert_record find_empty_slot
  insert_record-same [] = (refl, unchanged)
  insert_record-same (x ∷ bs) = insert_at-same (find_empty_slot q) (x ∷ bs)

  delete_record-same :
      (slot_id : ℕ) → SameResult (delete_record slot_id other) (delete_record slot_id q)
  unfolding delete_record
  delete_record-same slot_id = elim (Bool-cases (leb q.num_slots slot_id)) [
    | inl past ↦ rw past (refl, unchanged)
    | inr inside ↦ elim (Bool-cases (is_empty (slot_at q slot_id))) [
      | inl gone ↦ rw (inside, gone) (refl, unchanged)
      | inr here ↦
          rw (inside, here) (refl, record { header_eq = refl; slots_eq = refl; bytes_eq = agrees })
    ]
  ]

  update_record-same :
      (slot_id : ℕ) (bs : List ℕ)
      → SameResult (update_record slot_id bs other) (update_record slot_id bs q)
  unfolding update_record get_free_space
  update_record-same slot_id bs =
      elim (Bool-cases (leb q.num_slots slot_id || is_empty (slot_at q slot_id))) [
        | inl gone ↦ rw gone (refl, unchanged)
        | inr here ↦ elim (Bool-cases (leb (length bs) (slot_at q slot_id).size)) [
          | inl small ↦ rw (here, small) (refl, written (slot_at q slot_id).offset)
          | inr large ↦
              elim (Bool-cases
                (ltb (get_free_space q) (sub16 (length bs) (slot_at q slot_id).size))) [
                  | inl full ↦ rw (here, large, full) (refl, unchanged)
                  | inr fits ↦
                      rw (here, large, fits)
                        (
                          refl,
                          record {
                            header_eq = refl;
                            slots_eq = refl;
                            bytes_eq = λ i a h. write_agrees b q.bytes _ bs i (agrees i a h);
                          },
                        )
                ]
        ]
      ]
    where
      written :
          (o : ℕ)
          → SamePage
              (record q {
                bytes = write b o bs;
                slots = set q.slots slot_id (record { offset = o; size = length bs });
              })
              (record q {
                bytes = write q.bytes o bs;
                slots = set q.slots slot_id (record { offset = o; size = length bs });
              })
      written o = record {
        header_eq = refl;
        slots_eq = refl;
        bytes_eq = λ i a h. write_agrees b q.bytes o bs i (agrees i a h);
      }

-- An operation that answers alike for two pages that differ in their bytes only, below the end of
-- the slot directory.
lift_same {ℓ} :
    {A : Type ℓ}
    → (op : Page → A × Page) (p q : Page) → SamePage p q
    → SameResult (op (record q { bytes = p.bytes })) (op q)
    → SameResult (op p) (op q)
lift_same op p q s r =
    let e : p ≡ record q { bytes = p.bytes } =
      λ i. record { bytes = p.bytes; header = s.header_eq i; slots = s.slots_eq i } in
    subst (λ x. SameResult (op x) (op q)) (sym e) r

pub insert_record-SamePage :
    (bs : List ℕ) (p q : Page)
    → SamePage p q
    → IsValid q
    → SameResult (insert_record (some bs) p) (insert_record (some bs) q)
insert_record-SamePage bs p q s v =
    lift_same (insert_record (some bs)) p q s (insert_record-same q p.bytes v s.bytes_eq bs)

pub delete_record-SamePage :
    (slot_id : ℕ) (p q : Page)
    → SamePage p q
    → IsValid q
    → SameResult (delete_record slot_id p) (delete_record slot_id q)
delete_record-SamePage slot_id p q s v =
    lift_same (delete_record slot_id) p q s (delete_record-same q p.bytes v s.bytes_eq slot_id)

pub update_record-SamePage :
    (slot_id : ℕ) (bs : List ℕ) (p q : Page)
    → SamePage p q
    → IsValid q
    → SameResult (update_record slot_id bs p) (update_record slot_id bs q)
update_record-SamePage slot_id bs p q s v =
    lift_same (update_record slot_id bs) p q s
      (update_record-same q p.bytes v s.bytes_eq slot_id bs)

pub has_space_for-SamePage :
    (n : ℕ) (p q : Page) → SamePage p q → has_space_for n p ≡ has_space_for n q
unfolding has_space_for get_free_space find_empty_slot
has_space_for-SamePage n p q s =
    let e : p ≡ record q { bytes = p.bytes } =
      λ i. record { bytes = p.bytes; header = s.header_eq i; slots = s.slots_eq i } in
    ap (has_space_for n) e
