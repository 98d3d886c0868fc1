-- ===== src/BTree/Leaf.antt =====
-- LeafNode of src/index/btree.cpp against a sorted list of entries.
use court_db.Base.{
  ℕ, zero, suc, ◌+◌, ◌≤◌, ◌<◌, ◌≡◌, refl, sym, ap, subst, u16, ◌∙◌, Bool, true, false, List, [],
  ◌∷◌, ltb, leb, if◌then◌else◌, length, get_or, drop, All, arith, ◌⊎◌, inl, inr, Bool-cases, leb→le,
}
use court_db.Record.{Rid, no_rid}
use court_db.BTree.{
  KeyComparator, is_lt, is_eq, is_le, insert_pos, LeafNode, leaf_insert, find_loop, find_all,
  max_leaf_keys,
}
use court_db.BTree.Order.{IsSorted, IsOrder, lead, less, ge_later, gt_later, find_key_position-lead}
use court_db.BTree.Entries.{
  zip, insert_entry, lookup, zip-insert_pos, insert_pos-IsSorted, length-insert_pos,
}

abbrev pub entries : LeafNode → List (ℕ × Rid)
entries n = zip n.keys n.rids

-- A leaf whose header counts its keys and its RIDs, with the keys in order.
pub record IsValid (cmp : KeyComparator) (n : LeafNode) : Type 0 where
  pub keys_counted : length n.keys ≡ n.num_keys
  pub rids_counted : length n.rids ≡ n.num_keys
  pub fits : n.num_keys ≤ max_leaf_keys
  pub sorted : IsSorted cmp n.keys

pub lead-le : (test : ℕ → Bool) (ks : List ℕ) → lead test ks ≤ length ks
unfolding lead
lead-le test [] = omega arith
lead-le test (k ∷ ks) = ground (arith, lead-le test ks)

-- The entries from a position that has the key on.
run : KeyComparator → ℕ → List ℕ → List Rid → List Rid
run cmp key [] rs = []
run cmp key (k ∷ ks) [] = []
run cmp key (k ∷ ks) (r ∷ rs) =
    let rest = run cmp key ks rs in if is_eq (cmp k key) then r ∷ rest else []

pub drop-get_or :
    {A : Type 0}
    → (i : ℕ) (xs : List A) (d : A) → i < length xs
    → drop i xs ≡ get_or xs i d ∷ drop (i + 1) xs
drop-get_or i [] d h = absurd (omega arith)
drop-get_or zero (x ∷ xs) d h = ground arith
drop-get_or (suc i) (x ∷ xs) d h =
    let e : suc i + 1 ≡ suc (i + 1) = omega arith in rw e (drop-get_or i xs d (omega arith))

pub drop-all : {A : Type 0} → (i : ℕ) (xs : List A) → length xs ≤ i → drop i xs ≡ []
drop-all zero [] h = refl
drop-all (suc i) [] h = refl
drop-all zero (x ∷ xs) h = absurd (omega arith)
drop-all (suc i) (x ∷ xs) h = drop-all i xs (omega arith)

find_loop-run :
    (fuel : ℕ) (cmp : KeyComparator) (key pos : ℕ) (n : LeafNode)
    → length n.keys ≡ n.num_keys
    → length n.rids ≡ n.num_keys
    → n.num_keys ≤ fuel + pos
    → find_loop fuel cmp key pos n ≡ run cmp key (drop pos n.keys) (drop pos n.rids)
unfolding find_loop run
find_loop-run zero cmp key pos n ek er h = rw (drop-all pos n.keys (omega arith)) refl
find_loop-run (suc fuel) cmp key pos n ek er h = elim (Bool-cases (ltb pos n.num_keys)) [
  | inl in_range ↦
      rw
        (
          in_range,
          drop-get_or pos n.keys 0 (ground arith),
          drop-get_or pos n.rids no_rid (ground arith),
          find_loop-run fuel cmp key (pos + 1) n ek er (omega arith),
        )
        refl
  | inr past ↦ rw (past, drop-all pos n.keys (ground arith)) refl
]

-- Where all keys are greater, no entry has the key.
lookup_none :
    (cmp : KeyComparator) (key : ℕ) (ks : List ℕ) (rs : List Rid)
    → All (λ k. is_le (cmp k key) ≡ false) ks
    → lookup cmp key (zip ks rs) ≡ []
unfolding lookup
lookup_none cmp key [] rs a = refl
lookup_none cmp key (k ∷ ks) [] a = refl
lookup_none cmp key (k ∷ ks) (r ∷ rs) a = ground (arith, a.0, lookup_none cmp key ks rs a.1)

-- Where no key is less, the entries with the key come first.
run-lookup :
    (cmp : KeyComparator) (o : IsOrder cmp) (key : ℕ) (ks : List ℕ) (rs : List Rid)
    → IsSorted cmp ks
    → All (λ k. is_lt (cmp k key) ≡ false) ks
    → run cmp key ks rs ≡ lookup cmp key (zip ks rs)
unfolding run lookup
run-lookup cmp o key [] rs s a = refl
run-lookup cmp o key (k ∷ ks) [] s a = refl
run-lookup cmp o key (k ∷ ks) (r ∷ rs) s a = elim (Bool-cases (is_eq (cmp k key))) [
  | inl e ↦ rw (e, run-lookup cmp o key ks rs s.1 a.1) refl
  | inr e ↦
      let g : is_le (cmp k key) ≡ false = ground (arith, a.0) in
      rw (e, lookup_none cmp key ks rs (gt_later cmp o key k ks g s.0)) refl
]

run-lead :
    (cmp : KeyComparator) (o : IsOrder cmp) (key : ℕ) (ks : List ℕ) (rs : List Rid)
    → IsSorted cmp ks
    → run cmp key (drop (lead (less cmp key) ks) ks) (drop (lead (less cmp key) ks) rs)
      ≡ lookup cmp key (zip ks rs)
unfolding lead run lookup
run-lead cmp o key [] rs s = refl
run-lead cmp o key (k ∷ ks) [] s = elim (Bool-cases (is_lt (cmp k key))) [
  | inl l ↦ rw l (run_nil (drop (lead (less cmp key) ks) ks))
  | inr g ↦ rw g refl
]
  where
    run_nil : (ls : List ℕ) → run cmp key ls [] ≡ []
    run_nil [] = refl
    run_nil (l ∷ ls) = refl
run-lead cmp o key (k ∷ ks) (r ∷ rs) s = elim (Bool-cases (is_lt (cmp k key))) [
  | inl l ↦
      let e : is_eq (cmp k key) ≡ false = ground arith in rw (l, e) (run-lead cmp o key ks rs s.1)
  | inr g ↦ rw g (run-lookup cmp o key (k ∷ ks) (r ∷ rs) s (g, ge_later cmp o key k ks g s.0))
]

-- On a valid leaf FindAll returns the RIDs of all entries with the key, in their order.
pub find_all-lookup :
    (cmp : KeyComparator) (n : LeafNode) (key : ℕ)
    → IsOrder cmp
    → IsValid cmp n
    → find_all cmp key n ≡ lookup cmp key (entries n)
unfolding find_all
find_all-lookup cmp n key o v =
    rw
      (
        find_key_position-lead cmp o key n v.keys_counted v.sorted,
        find_loop-run n.num_keys cmp key (lead (less cmp key) n.keys) n v.keys_counted
            v.rids_counted (omega arith),
      )
      (run-lead cmp o key n.keys n.rids v.sorted)

-- The leaf with a new entry at the place that the binary search finds.
pub inserted : KeyComparator → ℕ → Rid → LeafNode → LeafNode
inserted cmp key rid n =
    let pos = lead (less cmp key) n.keys in
    record {
      header = record n.header { num_keys = u16 (n.num_keys + 1) };
      keys = insert_pos pos key n.keys;
      rids = insert_pos pos rid n.rids;
    }

inserted-IsValid :
    (cmp : KeyComparator) (n : LeafNode) (key : ℕ) (rid : Rid)
    → IsOrder cmp
    → IsValid cmp n
    → n.num_keys < max_leaf_keys
    → IsValid cmp (inserted cmp key rid n)
unfolding inserted
inserted-IsValid cmp n key rid o v h = record {
  keys_counted =
      omega (arith, length-insert_pos (lead (less cmp key) n.keys) key n.keys, v.keys_counted);
  rids_counted =
      omega (arith, length-insert_pos (lead (less cmp key) n.keys) rid n.rids, v.rids_counted);
  fits = omega arith;
  sorted = insert_pos-IsSorted cmp o key n.keys v.sorted;
}

-- On a valid leaf, whose keys are in the comparator's order and counted by the header, Insert
-- refuses exactly a full leaf and then changes nothing. Otherwise the leaf stays valid and has the
-- new entry before the first whose key is not less.
pub leaf_insert-insert_entry :
    (cmp : KeyComparator) (n : LeafNode) (key : ℕ) (rid : Rid)
    → IsOrder cmp
    → IsValid cmp n
    → ((n.num_keys ≡ max_leaf_keys) × (leaf_insert cmp key rid n ≡ (false, n)))
      ⊎ ((n.num_keys < max_leaf_keys)
          × ((leaf_insert cmp key rid n).0 ≡ true)
          × IsValid cmp (leaf_insert cmp key rid n).1
          × (entries (leaf_insert cmp key rid n).1 ≡ insert_entry cmp key rid (entries n)))
unfolding leaf_insert
leaf_insert-insert_entry cmp n key rid o v = elim (Bool-cases (leb max_leaf_keys n.num_keys)) [
  | inl full ↦ inl (omega (arith, v.fits, leb→le max_leaf_keys n.num_keys full), rw full refl)
  | inr room ↦
      let h : n.num_keys < max_leaf_keys = ground (arith, room) in
      let e : leaf_insert cmp key rid n ≡ (true, inserted cmp key rid n) =
        unfold inserted in
        rw (find_key_position-lead cmp o key n v.keys_counted v.sorted, room) refl in
      inr (
        h,
        ap (λ r. r.0) e,
        subst (λ r. IsValid cmp r.1) (sym e) (inserted-IsValid cmp n key rid o v h),
        ap (λ r. entries r.1) e
            ∙ (unfold inserted in
                zip-insert_pos cmp key rid n.keys n.rids (v.rids_counted ∙ sym v.keys_counted)),
      )
]
