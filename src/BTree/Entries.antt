-- ===== src/BTree/Entries.antt =====
-- The entries of a leaf as a list of keys with their RIDs, and what a sorted list of entries
-- promises: the reference for src/index/btree.cpp.
use court_db.Base.{
  ℕ, zero, suc, ◌≤◌, ◌≡◌, refl, ap, Bool, true, false, ◌&&◌, List, [], ◌∷◌, if◌then◌else◌, length,
  take, drop, All, arith, inl, inr, Bool-cases,
}
use court_db.Record.{Rid, rid_eq}
use court_db.BTree.{KeyComparator, is_lt, is_eq, is_le, insert_pos, erase_pos}
use court_db.BTree.Order.{IsSorted, IsOrder, lead, less, ge_later}

abbrev pub zip : List ℕ → List Rid → List (ℕ × Rid)
zip [] rs = []
zip (k ∷ ks) [] = []
zip (k ∷ ks) (r ∷ rs) = (k, r) ∷ zip ks rs

-- A new entry goes before the entries whose keys are not less than its own.
unfoldable pub insert_entry : KeyComparator → ℕ → Rid → List (ℕ × Rid) → List (ℕ × Rid)
insert_entry cmp key rid [] = (key, rid) ∷ []
insert_entry cmp key rid ((k, r) ∷ es) =
    let rest = insert_entry cmp key rid es in
    if is_lt (cmp k key) then (k, r) ∷ rest else (key, rid) ∷ (k, r) ∷ es

-- The RIDs of all entries with the key.
unfoldable pub lookup : KeyComparator → ℕ → List (ℕ × Rid) → List Rid
lookup cmp key [] = []
lookup cmp key ((k, r) ∷ es) =
    let rest = lookup cmp key es in if is_eq (cmp k key) then r ∷ rest else rest

-- Whether an entry has the key and the RID.
unfoldable pub has_entry : KeyComparator → ℕ → Rid → List (ℕ × Rid) → Bool
has_entry cmp key rid [] = false
has_entry cmp key rid ((k, r) ∷ es) =
    let rest = has_entry cmp key rid es in if is_eq (cmp k key) && rid_eq r rid then true else rest

-- The first entry with the key and the RID is taken out.
unfoldable pub delete_entry : KeyComparator → ℕ → Rid → List (ℕ × Rid) → List (ℕ × Rid)
delete_entry cmp key rid [] = []
delete_entry cmp key rid ((k, r) ∷ es) =
    let rest = delete_entry cmp key rid es in
    if is_eq (cmp k key) && rid_eq r rid then es else (k, r) ∷ rest

pub length-insert_pos {ℓ} :
    {A : Type ℓ} → (i : ℕ) (x : A) (ys : List A) → length (insert_pos i x ys) ≡ suc (length ys)
length-insert_pos zero x ys = refl
length-insert_pos (suc i) x [] = refl
length-insert_pos (suc i) x (y ∷ ys) = ap suc (length-insert_pos i x ys)

pub length-erase_pos {ℓ} :
    {A : Type ℓ}
    → (i : ℕ) (ys : List A) → suc i ≤ length ys
    → suc (length (erase_pos i ys)) ≡ length ys
length-erase_pos i [] h = absurd (omega arith)
length-erase_pos zero (y ∷ ys) h = refl
length-erase_pos (suc i) (y ∷ ys) h = ap suc (length-erase_pos i ys (omega arith))

pub take-zip :
    (i : ℕ) (ks : List ℕ) (rs : List Rid) → zip (take i ks) (take i rs) ≡ take i (zip ks rs)
take-zip zero ks rs = refl
take-zip (suc i) [] rs = refl
take-zip (suc i) (k ∷ ks) [] = refl
take-zip (suc i) (k ∷ ks) (r ∷ rs) = ap (λ es. (k, r) ∷ es) (take-zip i ks rs)

zip-nil : (ks : List ℕ) → zip ks [] ≡ []
zip-nil [] = refl
zip-nil (k ∷ ks) = refl

pub drop-zip :
    (i : ℕ) (ks : List ℕ) (rs : List Rid) → zip (drop i ks) (drop i rs) ≡ drop i (zip ks rs)
drop-zip zero ks rs = refl
drop-zip (suc i) [] rs = refl
drop-zip (suc i) (k ∷ ks) [] = zip-nil (drop i ks)
drop-zip (suc i) (k ∷ ks) (r ∷ rs) = drop-zip i ks rs

-- The position of the binary search is where the reference inserts.
pub zip-insert_pos :
    (cmp : KeyComparator) (key : ℕ) (rid : Rid) (ks : List ℕ) (rs : List Rid)
    → length rs ≡ length ks
    → zip (insert_pos (lead (less cmp key) ks) key ks) (insert_pos (lead (less cmp key) ks) rid rs)
      ≡ insert_entry cmp key rid (zip ks rs)
unfolding lead insert_entry
zip-insert_pos cmp key rid [] [] e = refl
zip-insert_pos cmp key rid [] (r ∷ rs) e = absurd (omega arith)
zip-insert_pos cmp key rid (k ∷ ks) [] e = absurd (omega arith)
zip-insert_pos cmp key rid (k ∷ ks) (r ∷ rs) e = elim (Bool-cases (is_lt (cmp k key))) [
  | inl l ↦ rw l (ap (λ es. (k, r) ∷ es) (zip-insert_pos cmp key rid ks rs (omega arith)))
  | inr g ↦ rw g refl
]

pub All-insert_pos :
    (P : ℕ → Type 0) (i x : ℕ) (ys : List ℕ) → P x → All P ys → All P (insert_pos i x ys)
All-insert_pos P zero x ys p a = (p, a)
All-insert_pos P (suc i) x [] p a = (p, tt)
All-insert_pos P (suc i) x (y ∷ ys) p a = (a.0, All-insert_pos P i x ys p a.1)

All-erase_pos : (P : ℕ → Type 0) (i : ℕ) (ys : List ℕ) → All P ys → All P (erase_pos i ys)
All-erase_pos P i [] a = tt
All-erase_pos P zero (y ∷ ys) a = a.1
All-erase_pos P (suc i) (y ∷ ys) a = (a.0, All-erase_pos P i ys a.1)

pub insert_pos-IsSorted :
    (cmp : KeyComparator) (o : IsOrder cmp) (key : ℕ) (ks : List ℕ)
    → IsSorted cmp ks
    → IsSorted cmp (insert_pos (lead (less cmp key) ks) key ks)
unfolding lead
insert_pos-IsSorted cmp o key [] s = (tt, tt)
insert_pos-IsSorted cmp o key (k ∷ ks) s = elim (Bool-cases (is_lt (cmp k key))) [
  | inl l ↦ rw l (
    All-insert_pos (λ m. is_le (cmp k m) ≡ true) (lead (less cmp key) ks) key ks (ground arith) s.0,
    insert_pos-IsSorted cmp o key ks s.1,
  )
  | inr g ↦
      rw g ((ground (arith, o.flipped k key), not_less_le ks (ge_later cmp o key k ks g s.0)), s)
]
  where
    not_less_le :
        (ls : List ℕ)
        → All (λ m. is_lt (cmp m key) ≡ false) ls
        → All (λ m. is_le (cmp key m) ≡ true) ls
    not_less_le [] a = tt
    not_less_le (m ∷ ls) a = (ground (arith, o.flipped m key, a.0), not_less_le ls a.1)

pub erase_pos-IsSorted :
    (cmp : KeyComparator) (i : ℕ) (ks : List ℕ) → IsSorted cmp ks → IsSorted cmp (erase_pos i ks)
erase_pos-IsSorted cmp i [] s = tt
erase_pos-IsSorted cmp zero (k ∷ ks) s = s.1
erase_pos-IsSorted cmp (suc i) (k ∷ ks) s =
    (All-erase_pos (λ m. is_le (cmp k m) ≡ true) i ks s.0, erase_pos-IsSorted cmp i ks s.1)
