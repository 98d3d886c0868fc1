-- ===== src/BTree/Delete.antt =====
-- LeafNode::Delete of src/index/btree.cpp against a sorted list of entries.
use court_db.Base.{
  ℕ, suc, ◌≡◌, refl, sym, ap, ◌∙◌, false, List, [], ◌∷◌, ◌++◌, length, take, drop, All, arith, ◌⊎◌,
  inl, inr, Bool-cases,
}
use court_db.Record.{Rid, rid_eq}
use court_db.BTree.{KeyComparator, is_lt, is_eq, is_le, LeafNode, delete_loop, leaf_delete}
use court_db.BTree.Order.{IsSorted, IsOrder, lead, less, ge_later, gt_later, find_key_position-lead}
use court_db.BTree.Entries.{zip, has_entry, delete_entry}
use court_db.BTree.Leaf.{entries, IsValid}
use court_db.BTree.Scan.{scan, delete_loop-Scanned}

-- Where all keys are greater, there is nothing to delete.
nothing_greater :
    (cmp : KeyComparator) (key : ℕ) (rid : Rid) (ks : List ℕ) (rs : List Rid)
    → All (λ k. is_le (cmp k key) ≡ false) ks
    → (has_entry cmp key rid (zip ks rs) ≡ false)
      × (delete_entry cmp key rid (zip ks rs) ≡ zip ks rs)
unfolding has_entry delete_entry
nothing_greater cmp key rid [] rs a = (refl, refl)
nothing_greater cmp key rid (k ∷ ks) [] a = (refl, refl)
nothing_greater cmp key rid (k ∷ ks) (r ∷ rs) a =
    let e : is_eq (cmp k key) ≡ false = ground (arith, a.0) in
    let ih = nothing_greater cmp key rid ks rs a.1 in rw e (ih.0, ap (λ es. (k, r) ∷ es) ih.1)

-- Where no key is less, the entries with the key come first.
scan-delete_entry :
    (cmp : KeyComparator) (o : IsOrder cmp) (key : ℕ) (rid : Rid) (ks : List ℕ) (rs : List Rid)
    → IsSorted cmp ks
    → All (λ k. is_lt (cmp k key) ≡ false) ks
    → scan cmp key rid ks rs
      ≡ (has_entry cmp key rid (zip ks rs), delete_entry cmp key rid (zip ks rs))
unfolding scan has_entry delete_entry
scan-delete_entry cmp o key rid [] rs s a = refl
scan-delete_entry cmp o key rid (k ∷ ks) [] s a = refl
scan-delete_entry cmp o key rid (k ∷ ks) (r ∷ rs) s a = elim (Bool-cases (is_eq (cmp k key))) [
  | inl same ↦ elim (Bool-cases (rid_eq r rid)) [
    | inl hit ↦ rw (same, hit) refl
    | inr miss ↦ rw (same, miss, scan-delete_entry cmp o key rid ks rs s.1 a.1) refl
  ]
  | inr other ↦
      let g : is_le (cmp k key) ≡ false = ground (arith, a.0) in
      let none_left = nothing_greater cmp key rid ks rs (gt_later cmp o key k ks g s.0) in
      rw (other, none_left.0, none_left.1) refl
]

scan-lead :
    (cmp : KeyComparator) (o : IsOrder cmp) (key : ℕ) (rid : Rid) (ks : List ℕ) (rs : List Rid)
    → IsSorted cmp ks
    → length rs ≡ length ks
    → ((scan cmp key rid (drop (lead (less cmp key) ks) ks) (drop (lead (less cmp key) ks) rs)).0
        ≡ has_entry cmp key rid (zip ks rs))
      × (take (lead (less cmp key) ks) (zip ks rs)
            ++ (scan cmp key rid
                (drop (lead (less cmp key) ks) ks)
                (drop (lead (less cmp key) ks) rs)).1
          ≡ delete_entry cmp key rid (zip ks rs))
unfolding lead scan has_entry delete_entry
scan-lead cmp o key rid [] rs s e = (refl, refl)
scan-lead cmp o key rid (k ∷ ks) [] s e = absurd (omega arith)
scan-lead cmp o key rid (k ∷ ks) (r ∷ rs) s e = elim (Bool-cases (is_lt (cmp k key))) [
  | inl l ↦
      let other : is_eq (cmp k key) ≡ false = ground arith in
      let ih = scan-lead cmp o key rid ks rs s.1 (omega arith) in
      rw (l, other) (ih.0, ap (λ es. (k, r) ∷ es) ih.1)
  | inr g ↦
      let q =
        scan-delete_entry cmp o key rid (k ∷ ks) (r ∷ rs) s (g, ge_later cmp o key k ks g s.0) in
      rw g (ap (λ x. x.0) q, ap (λ x. x.1) q)
]

-- On a valid leaf Delete reports whether an entry has the key and the RID, takes out the first
-- such entry, where there is one, and keeps the leaf valid; the leaf that it leaves is the one
-- before or counts one key less.
pub leaf_delete-delete_entry :
    (cmp : KeyComparator) (n : LeafNode) (key : ℕ) (rid : Rid)
    → IsOrder cmp
    → IsValid cmp n
    → ((leaf_delete cmp key rid n).0 ≡ has_entry cmp key rid (entries n))
      × (entries (leaf_delete cmp key rid n).1 ≡ delete_entry cmp key rid (entries n))
      × IsValid cmp (leaf_delete cmp key rid n).1
      × (((leaf_delete cmp key rid n).1 ≡ n)
          ⊎ (suc (leaf_delete cmp key rid n).1.num_keys ≡ n.num_keys))
unfolding leaf_delete
leaf_delete-delete_entry cmp n key rid o v =
    let pos = lead (less cmp key) n.keys in
    let s = delete_loop-Scanned n.num_keys cmp key rid pos n v (omega arith) in
    let l = scan-lead cmp o key rid n.keys n.rids v.sorted (v.rids_counted ∙ sym v.keys_counted) in
    rw (find_key_position-lead cmp o key n v.keys_counted v.sorted) (
      s.found ∙ l.0,
      s.rest ∙ l.1,
      s.valid,
      elim (Bool-cases (delete_loop n.num_keys cmp key rid pos n).0) [
        | inl e ↦ inr (s.fewer e)
        | inr e ↦ inl (s.kept e)
      ],
    )
