-- ===== src/BTree/Split.antt =====
-- The splits of src/index/btree.cpp: what the two halves hold.
use court_db.Base.{
  ℕ, zero, suc, ◌/◌, ◌<◌, ◌≡◌, ◌≢◌, refl, sym, ◌∙◌, true, List, [], ◌∷◌, ◌++◌, length, get_or, take,
  drop, All, arith, inl, inr, Bool-cases, u16, length-take, length-drop, take-append-drop,
}
use court_db.Record.{Rid}
use court_db.BTree.{
  KeyComparator, is_eq, is_le, insert_pos, LeafNode, split_leaf, max_leaf_keys, find_all,
  find_child, new_root,
}
use court_db.BTree.Order.{IsSorted, IsOrder, lead, less, find_key_position-lead, find_child-lead}
use court_db.BTree.Entries.{
  zip, insert_entry, lookup, zip-insert_pos, insert_pos-IsSorted, length-insert_pos, take-zip,
  drop-zip,
}
use court_db.BTree.Leaf.{entries, IsValid, find_all-lookup}

All-take : (P : ℕ → Type 0) (i : ℕ) (ks : List ℕ) → All P ks → All P (take i ks)
All-take P zero ks a = tt
All-take P (suc i) [] a = tt
All-take P (suc i) (k ∷ ks) a = (a.0, All-take P i ks a.1)

All-drop : (P : ℕ → Type 0) (i : ℕ) (ks : List ℕ) → All P ks → All P (drop i ks)
All-drop P zero ks a = a
All-drop P (suc i) [] a = tt
All-drop P (suc i) (k ∷ ks) a = All-drop P i ks a.1

take-IsSorted :
    (cmp : KeyComparator) (i : ℕ) (ks : List ℕ) → IsSorted cmp ks → IsSorted cmp (take i ks)
take-IsSorted cmp zero ks s = tt
take-IsSorted cmp (suc i) [] s = tt
take-IsSorted cmp (suc i) (k ∷ ks) s =
    (All-take (λ l. is_le (cmp k l) ≡ true) i ks s.0, take-IsSorted cmp i ks s.1)

drop-IsSorted :
    (cmp : KeyComparator) (i : ℕ) (ks : List ℕ) → IsSorted cmp ks → IsSorted cmp (drop i ks)
drop-IsSorted cmp zero ks s = s
drop-IsSorted cmp (suc i) [] s = tt
drop-IsSorted cmp (suc i) (k ∷ ks) s = drop-IsSorted cmp i ks s.1

All-get : (P : ℕ → Type 0) (ks : List ℕ) (i : ℕ) → All P ks → i < length ks → P (get_or ks i 0)
All-get P [] i a h = absurd (omega arith)
All-get P (k ∷ ks) zero a h = a.0
All-get P (k ∷ ks) (suc i) a h = All-get P ks i a.1 (omega arith)

get_or-drop : (ks : List ℕ) (i : ℕ) → get_or (drop i ks) 0 0 ≡ get_or ks i 0
get_or-drop [] zero = refl
get_or-drop [] (suc i) = refl
get_or-drop (k ∷ ks) zero = refl
get_or-drop (k ∷ ks) (suc i) = get_or-drop ks i

-- In sorted keys the one at `i` bounds those before it.
before_bound :
    (cmp : KeyComparator) (i : ℕ) (ks : List ℕ)
    → IsSorted cmp ks
    → i < length ks
    → All (λ k. is_le (cmp k (get_or ks i 0)) ≡ true) (take i ks)
before_bound cmp zero ks s h = tt
before_bound cmp (suc i) [] s h = tt
before_bound cmp (suc i) (k ∷ ks) s h = (
  All-get (λ l. is_le (cmp k l) ≡ true) ks i s.0 (omega arith),
  before_bound cmp i ks s.1 (omega arith),
)

-- And those from it on.
after_bound :
    (cmp : KeyComparator) (o : IsOrder cmp) (i : ℕ) (ks : List ℕ)
    → IsSorted cmp ks
    → All (λ k. is_le (cmp (get_or ks i 0) k) ≡ true) (drop i ks)
after_bound cmp o zero [] s = tt
after_bound cmp o zero (k ∷ ks) s = (ground (arith, o.flipped k k), s.0)
after_bound cmp o (suc i) [] s = tt
after_bound cmp o (suc i) (k ∷ ks) s = after_bound cmp o i ks s.1

-- What a split of the leaf `n` into `p` promises: both halves are valid, in the chain the right one
-- follows the left one, and its first key bounds both.
pub record HasSplit (cmp : KeyComparator) (key : ℕ) (rid : Rid) (right_id : ℕ) (n : LeafNode)
    (p : LeafNode × LeafNode) : Type 0 where
  pub left_valid : IsValid cmp p.0
  pub right_valid : IsValid cmp p.1
  pub joined : entries p.0 ++ entries p.1 ≡ insert_entry cmp key rid (entries n)
  pub halves : (p.0.num_keys ≡ 203) × (p.1.num_keys ≡ 204)
  pub chained : (p.0.next_page_id ≡ right_id) × (p.1.next_page_id ≡ n.next_page_id)
  pub left_bound : All (λ k. is_le (cmp k (get_or p.1.keys 0 0)) ≡ true) p.0.keys
  pub right_bound : All (λ k. is_le (cmp (get_or p.1.keys 0 0) k) ≡ true) p.1.keys

-- The split of a full valid leaf gives two valid leaves of 203 and 204 keys that together hold its
-- entries with the new one in its place; the left one is followed by the right one in the chain
-- and that by what followed the leaf, and the first key of the right one, which goes to the
-- parent, bounds the keys of both.
pub split_leaf-HasSplit :
    (cmp : KeyComparator) (key : ℕ) (rid : Rid) (right_id : ℕ) (n : LeafNode)
    → IsOrder cmp
    → IsValid cmp n
    → n.num_keys ≡ max_leaf_keys
    → HasSplit cmp key rid right_id n (split_leaf cmp key rid right_id n)
unfolding split_leaf
split_leaf-HasSplit cmp key rid right_id n o v full =
    let pos = lead (less cmp key) n.keys in
    let ks = insert_pos pos key n.keys in
    let rs = insert_pos pos rid n.rids in
    let lk : length ks ≡ 407 = omega (arith, length-insert_pos pos key n.keys, v.keys_counted) in
    let lr : length rs ≡ 407 = omega (arith, length-insert_pos pos rid n.rids, v.rids_counted) in
    let mid : u16 (length ks / 2) ≡ 203 = omega arith in
    let s : IsSorted cmp ks = insert_pos-IsSorted cmp o key n.keys v.sorted in
    rw (find_key_position-lead cmp o key n v.keys_counted v.sorted, mid)
      (record {
        left_valid = record {
          keys_counted = omega (arith, length-take 203 ks);
          rids_counted = omega (arith, length-take 203 rs);
          fits = omega arith;
          sorted = take-IsSorted cmp 203 ks s;
        };
        right_valid = record {
          keys_counted = omega (arith, length-drop 203 ks);
          rids_counted = omega (arith, length-drop 203 rs);
          fits = omega arith;
          sorted = drop-IsSorted cmp 203 ks s;
        };
        joined =
            rw (take-zip 203 ks rs, drop-zip 203 ks rs)
              (take-append-drop 203 (zip ks rs)
                ∙ zip-insert_pos cmp key rid n.keys n.rids (v.rids_counted ∙ sym v.keys_counted));
        halves = (refl, omega arith);
        chained = (refl, refl);
        left_bound = rw (get_or-drop ks 203) (before_bound cmp 203 ks s (omega arith));
        right_bound = rw (get_or-drop ks 203) (after_bound cmp o 203 ks s);
      })

last_equal :
    (cmp : KeyComparator) (key : ℕ) (ks : List ℕ) (rs : List Rid) (i : ℕ)
    → length rs ≡ length ks
    → i < length ks
    → is_eq (cmp (get_or ks i 0) key) ≡ true
    → lookup cmp key (zip ks rs) ≢ []
unfolding lookup
last_equal cmp key [] rs i e h q = absurd (omega arith)
last_equal cmp key (k ∷ ks) [] i e h q = absurd (omega arith)
last_equal cmp key (k ∷ ks) (r ∷ rs) zero e h q = rw q (λ p. cc)
last_equal cmp key (k ∷ ks) (r ∷ rs) (suc i) e h q = elim (Bool-cases (is_eq (cmp k key))) [
  | inl same ↦ rw same (λ p. cc)
  | inr different ↦ rw different (last_equal cmp key ks rs i (omega arith) (omega arith) q)
]

-- Where the split of a full valid leaf leaves the last key of the left half equal to the
-- separator, the new root above the halves sends a search for that key to the right half, although
-- FindAll in the left half finds entries with the key.
pub split_leaf-misses :
    (cmp : KeyComparator) (key : ℕ) (rid : Rid) (left_id right_id : ℕ) (n : LeafNode)
    → IsOrder cmp
    → IsValid cmp n
    → n.num_keys ≡ max_leaf_keys
    → is_eq (
        cmp
          (get_or (split_leaf cmp key rid right_id n).0.keys 202 0)
          (get_or (split_leaf cmp key rid right_id n).1.keys 0 0))
      ≡ true
    → (find_child cmp
          (get_or (split_leaf cmp key rid right_id n).1.keys 0 0)
          (new_root left_id (get_or (split_leaf cmp key rid right_id n).1.keys 0 0) right_id)
        ≡ 1)
      × (find_all cmp
            (get_or (split_leaf cmp key rid right_id n).1.keys 0 0)
            (split_leaf cmp key rid right_id n).0
          ≢ [])
unfolding new_root
split_leaf-misses cmp key rid left_id right_id n o v full same =
    let p = split_leaf cmp key rid right_id n in
    let s = split_leaf-HasSplit cmp key rid right_id n o v full in
    let sep = get_or p.1.keys 0 0 in
    let lv = s.left_valid in
    (
      find_child-lead cmp o sep (new_root left_id sep right_id) refl (tt, tt)
          ∙ (unfold lead in ground (arith, o.flipped sep sep)),
      rw (find_all-lookup cmp p.0 sep o lv) (
          last_equal cmp sep p.0.keys p.0.rids 202 (lv.rids_counted ∙ sym lv.keys_counted)
            (omega (arith, lv.keys_counted, s.halves.0)) same),
    )
