-- ===== src/BTree/Scan.antt =====
-- The loop of LeafNode::Delete of src/index/btree.cpp on the entries from its position on.
use court_db.Base.{
  ℕ, zero, suc, ◌+◌, ◌≤◌, ◌<◌, ◌≡◌, refl, sym, ap, ◌∙◌, Bool, true, false, List, [], ◌∷◌, ◌++◌, ltb,
  if◌then◌else◌, length, get_or, take, drop, arith, inl, inr, Bool-cases, sub16,
}
use court_db.Record.{Rid, no_rid, rid_eq}
use court_db.BTree.{KeyComparator, is_eq, erase_pos, LeafNode, delete_loop}
use court_db.BTree.Entries.{zip, erase_pos-IsSorted, length-erase_pos}
use court_db.BTree.Leaf.{entries, IsValid, drop-get_or, drop-all}

-- The loop on the entries from a position on.
unfoldable pub scan : KeyComparator → ℕ → Rid → List ℕ → List Rid → Bool × List (ℕ × Rid)
scan cmp key rid [] rs = (false, [])
scan cmp key rid (k ∷ ks) [] = (false, [])
scan cmp key rid (k ∷ ks) (r ∷ rs) =
    let rest = scan cmp key rid ks rs in
    if is_eq (cmp k key)
    then (if rid_eq r rid then (true, zip ks rs) else (rest.0, (k, r) ∷ rest.1))
    else (false, (k, r) ∷ zip ks rs)

zip_drop-nil : (ks : List ℕ) → zip ks [] ≡ []
zip_drop-nil [] = refl
zip_drop-nil (k ∷ ks) = refl

cut_at :
    (i : ℕ) (ks : List ℕ) (rs : List Rid)
    → zip ks rs ≡ take i (zip ks rs) ++ zip (drop i ks) (drop i rs)
cut_at zero ks rs = refl
cut_at (suc i) [] rs = refl
cut_at (suc i) (k ∷ ks) [] = sym (zip_drop-nil (drop i ks))
cut_at (suc i) (k ∷ ks) (r ∷ rs) = ap (λ es. (k, r) ∷ es) (cut_at i ks rs)

zip-erase_pos :
    (i : ℕ) (ks : List ℕ) (rs : List Rid)
    → i < length ks
    → length rs ≡ length ks
    → zip (erase_pos i ks) (erase_pos i rs)
      ≡ take i (zip ks rs) ++ zip (drop (i + 1) ks) (drop (i + 1) rs)
zip-erase_pos i [] rs h e = absurd (omega arith)
zip-erase_pos i (k ∷ ks) [] h e = absurd (omega arith)
zip-erase_pos zero (k ∷ ks) (r ∷ rs) h e = refl
zip-erase_pos (suc i) (k ∷ ks) (r ∷ rs) h e =
    let d : suc i + 1 ≡ suc (i + 1) = omega arith in
    rw d (ap (λ es. (k, r) ∷ es) (zip-erase_pos i ks rs (omega arith) (omega arith)))

take_past :
    (i : ℕ) (ks : List ℕ) (rs : List Rid) (es : List (ℕ × Rid))
    → i < length ks
    → length rs ≡ length ks
    → take (i + 1) (zip ks rs) ++ es
      ≡ take i (zip ks rs) ++ ((get_or ks i 0, get_or rs i no_rid) ∷ es)
take_past i [] rs es h e = absurd (omega arith)
take_past i (k ∷ ks) [] es h e = absurd (omega arith)
take_past zero (k ∷ ks) (r ∷ rs) es h e = refl
take_past (suc i) (k ∷ ks) (r ∷ rs) es h e =
    let d : suc i + 1 ≡ suc (i + 1) = omega arith in
    rw d (ap (λ fs. (k, r) ∷ fs) (take_past i ks rs es (omega arith) (omega arith)))

-- What the loop returns, by the entries from its position on.
pub record Scanned (cmp : KeyComparator) (key : ℕ) (rid : Rid) (pos : ℕ) (n : LeafNode)
    (r : Bool × LeafNode) : Type 0 where
  pub found : r.0 ≡ (scan cmp key rid (drop pos n.keys) (drop pos n.rids)).0
  pub rest :
      entries r.1 ≡ take pos (entries n) ++ (scan cmp key rid (drop pos n.keys) (drop pos n.rids)).1
  pub valid : IsValid cmp r.1
  pub kept : r.0 ≡ false → r.1 ≡ n
  pub fewer : r.0 ≡ true → suc r.1.num_keys ≡ n.num_keys

erased : ℕ → LeafNode → LeafNode
erased pos n = record {
  header = record n.header { num_keys = sub16 n.num_keys 1 };
  keys = erase_pos pos n.keys;
  rids = erase_pos pos n.rids;
}

erased-IsValid :
    (cmp : KeyComparator) (pos : ℕ) (n : LeafNode)
    → IsValid cmp n
    → pos < n.num_keys
    → IsValid cmp (erased pos n)
unfolding erased
erased-IsValid cmp pos n v h = record {
  keys_counted = omega (arith, length-erase_pos pos n.keys, v.keys_counted, v.fits);
  rids_counted = omega (arith, length-erase_pos pos n.rids, v.rids_counted, v.fits);
  fits = omega (arith, v.fits);
  sorted = erase_pos-IsSorted cmp pos n.keys v.sorted;
}

-- Where the loop stops without a match, the leaf stays as it is.
stopped-Scanned :
    (cmp : KeyComparator) (key : ℕ) (rid : Rid) (pos : ℕ) (n : LeafNode)
    → IsValid cmp n
    → scan cmp key rid (drop pos n.keys) (drop pos n.rids)
      ≡ (false, zip (drop pos n.keys) (drop pos n.rids))
    → Scanned cmp key rid pos n (false, n)
stopped-Scanned cmp key rid pos n v e = record {
  found = sym (ap (λ r. r.0) e);
  rest = cut_at pos n.keys n.rids ∙ ap (λ r. take pos (entries n) ++ r.1) (sym e);
  valid = v;
  kept = λ h. refl;
  fewer = λ h. cc;
}

past-Scanned :
    (cmp : KeyComparator) (key : ℕ) (rid : Rid) (pos : ℕ) (n : LeafNode)
    → IsValid cmp n
    → n.num_keys ≤ pos
    → Scanned cmp key rid pos n (false, n)
past-Scanned cmp key rid pos n v h =
    stopped-Scanned cmp key rid pos n v
      (rw (drop-all pos n.keys (omega (arith, v.keys_counted))) (unfold scan in refl))

-- The entry at a position, before those behind it.
scan_step :
    (cmp : KeyComparator) (key : ℕ) (rid : Rid) (pos : ℕ) (n : LeafNode)
    → IsValid cmp n
    → pos < n.num_keys
    → (drop pos n.keys ≡ get_or n.keys pos 0 ∷ drop (pos + 1) n.keys)
      × (drop pos n.rids ≡ get_or n.rids pos no_rid ∷ drop (pos + 1) n.rids)
scan_step cmp key rid pos n v h = (
  drop-get_or pos n.keys 0 (omega (arith, v.keys_counted)),
  drop-get_or pos n.rids no_rid (omega (arith, v.rids_counted)),
)

hit-Scanned :
    (cmp : KeyComparator) (key : ℕ) (rid : Rid) (pos : ℕ) (n : LeafNode)
    → IsValid cmp n
    → pos < n.num_keys
    → is_eq (cmp (get_or n.keys pos 0) key) ≡ true
    → rid_eq (get_or n.rids pos no_rid) rid ≡ true
    → Scanned cmp key rid pos n (true, erased pos n)
unfolding erased scan
hit-Scanned cmp key rid pos n v lt same hit =
    let heads = scan_step cmp key rid pos n v lt in
    let e : scan cmp key rid (drop pos n.keys) (drop pos n.rids)
        ≡ (true, zip (drop (pos + 1) n.keys) (drop (pos + 1) n.rids)) =
      rw (heads.0, heads.1, scan, same, hit) refl in
    record {
      found = sym (ap (λ r. r.0) e);
      rest =
          zip-erase_pos pos n.keys n.rids (omega (arith, v.keys_counted))
            (v.rids_counted ∙ sym v.keys_counted)
          ∙ ap (λ r. take pos (entries n) ++ r.1) (sym e);
      valid = erased-IsValid cmp pos n v lt;
      kept = λ h. cc;
      fewer = λ h. omega (arith, v.fits);
    }

miss-Scanned :
    (cmp : KeyComparator) (key : ℕ) (rid : Rid) (pos : ℕ) (n : LeafNode) (r : Bool × LeafNode)
    → IsValid cmp n
    → pos < n.num_keys
    → is_eq (cmp (get_or n.keys pos 0) key) ≡ true
    → rid_eq (get_or n.rids pos no_rid) rid ≡ false
    → Scanned cmp key rid (pos + 1) n r
    → Scanned cmp key rid pos n r
unfolding scan
miss-Scanned cmp key rid pos n r v lt same miss s =
    let heads = scan_step cmp key rid pos n v lt in
    let later = scan cmp key rid (drop (pos + 1) n.keys) (drop (pos + 1) n.rids) in
    let e : scan cmp key rid (drop pos n.keys) (drop pos n.rids)
        ≡ (later.0, (get_or n.keys pos 0, get_or n.rids pos no_rid) ∷ later.1) =
      rw (heads.0, heads.1, scan, same, miss) refl in
    record {
      found = s.found ∙ sym (ap (λ x. x.0) e);
      rest =
          s.rest
          ∙ take_past pos n.keys n.rids later.1 (omega (arith, v.keys_counted))
              (v.rids_counted ∙ sym v.keys_counted)
          ∙ ap (λ x. take pos (entries n) ++ x.1) (sym e);
      valid = s.valid;
      kept = s.kept;
      fewer = s.fewer;
    }

pub delete_loop-Scanned :
    (fuel : ℕ) (cmp : KeyComparator) (key : ℕ) (rid : Rid) (pos : ℕ) (n : LeafNode)
    → IsValid cmp n
    → n.num_keys ≤ fuel + pos
    → Scanned cmp key rid pos n (delete_loop fuel cmp key rid pos n)
unfolding delete_loop erased scan
delete_loop-Scanned zero cmp key rid pos n v h = past-Scanned cmp key rid pos n v (omega arith)
delete_loop-Scanned (suc fuel) cmp key rid pos n v h = elim (Bool-cases (ltb pos n.num_keys)) [
  | inr past ↦ rw past (past-Scanned cmp key rid pos n v (ground arith))
  | inl in_range ↦
      let lt : pos < n.num_keys = ground arith in
      let heads = scan_step cmp key rid pos n v lt in
      elim (Bool-cases (is_eq (cmp (get_or n.keys pos 0) key))) [
        | inr other ↦
            rw (in_range, other)
              (stopped-Scanned cmp key rid pos n v (rw (heads.0, heads.1, scan, other) refl))
        | inl same ↦ elim (Bool-cases (rid_eq (get_or n.rids pos no_rid) rid)) [
          | inl hit ↦ rw (in_range, same, hit) (hit-Scanned cmp key rid pos n v lt same hit)
          | inr miss ↦
              rw (in_range, same, miss)
                (miss-Scanned cmp key rid pos n (delete_loop fuel cmp key rid (pos + 1) n) v lt same
                  miss (delete_loop-Scanned fuel cmp key rid (pos + 1) n v (omega arith)))
        ]
      ]
]
