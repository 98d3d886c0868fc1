-- ===== src/BTree/Internal.antt =====
-- InternalNode of src/index/btree.cpp: a new child beside the one that was split, and the split of
-- a full parent.
use court_db.Base.{
  ℕ, zero, suc, ◌+◌, ◌/◌, ◌≤◌, ◌<◌, ◌≡◌, refl, sym, ap, ◌∙◌, true, false, List, [], ◌∷◌, ◌++◌,
  length, take, drop, All, arith, inl, inr, Bool-cases, u16, length-take, length-drop,
  take-append-drop,
}
use court_db.BTree.{
  KeyComparator, is_le, insert_pos, InternalNode, insert_after, split_internal, max_internal_keys,
  find_child,
}
use court_db.BTree.Order.{IsSorted, IsOrder, lead, at_most, gt_later, find_child-lead}
use court_db.BTree.Entries.{length-insert_pos, All-insert_pos}
use court_db.BTree.Leaf.{drop-get_or}

-- An internal node whose header counts its keys, with a child more than keys.
pub record IsValid (cmp : KeyComparator) (n : InternalNode) : Type 0 where
  pub keys_counted : length n.keys ≡ n.num_keys
  pub children_counted : length n.children ≡ n.num_keys + 1
  pub fits : n.num_keys ≤ max_internal_keys
  pub sorted : IsSorted cmp n.keys

-- Behind the keys that are at most a key, it stays in order.
insert_at_most-IsSorted :
    (cmp : KeyComparator) (o : IsOrder cmp) (key : ℕ) (ks : List ℕ)
    → IsSorted cmp ks
    → IsSorted cmp (insert_pos (lead (at_most cmp key) ks) key ks)
unfolding lead
insert_at_most-IsSorted cmp o key [] s = (tt, tt)
insert_at_most-IsSorted cmp o key (k ∷ ks) s = elim (Bool-cases (is_le (cmp k key))) [
  | inl l ↦ rw l (
    All-insert_pos (λ m. is_le (cmp k m) ≡ true) (lead (at_most cmp key) ks) key ks l s.0,
    insert_at_most-IsSorted cmp o key ks s.1,
  )
  | inr g ↦
      rw g ((ground (arith, o.flipped k key), greater_le ks (gt_later cmp o key k ks g s.0)), s)
]
  where
    greater_le :
        (ls : List ℕ)
        → All (λ m. is_le (cmp m key) ≡ false) ls
        → All (λ m. is_le (cmp key m) ≡ true) ls
    greater_le [] a = tt
    greater_le (m ∷ ls) a = (ground (arith, o.flipped m key, a.0), greater_le ls a.1)

-- A parent with room stays valid, and the new child follows the child that the search finds for the
-- new key.
pub insert_after-IsValid :
    (cmp : KeyComparator) (key right_child : ℕ) (n : InternalNode)
    → IsOrder cmp
    → IsValid cmp n
    → n.num_keys < max_internal_keys
    → IsValid cmp (insert_after (find_child cmp key n) key right_child n)
      × ((insert_after (find_child cmp key n) key right_child n).keys
          ≡ insert_pos (lead (at_most cmp key) n.keys) key n.keys)
      × ((insert_after (find_child cmp key n) key right_child n).children
          ≡ insert_pos (lead (at_most cmp key) n.keys + 1) right_child n.children)
unfolding insert_after
insert_after-IsValid cmp key right_child n o v room =
    let pos = lead (at_most cmp key) n.keys in
    rw (find_child-lead cmp o key n v.keys_counted v.sorted) (
      record {
        keys_counted = omega (arith, length-insert_pos pos key n.keys, v.keys_counted);
        children_counted =
            omega (arith, length-insert_pos (pos + 1) right_child n.children, v.children_counted);
        fits = omega arith;
        sorted = insert_at_most-IsSorted cmp o key n.keys v.sorted;
      },
      refl,
      refl,
    )

take-append {ℓ} : {A : Type ℓ} → (m : ℕ) (xs ys : List A) → length xs ≡ m → take m (xs ++ ys) ≡ xs
take-append zero [] ys e = refl
take-append (suc m) [] ys e = absurd (omega arith)
take-append zero (x ∷ xs) ys e = absurd (omega arith)
take-append (suc m) (x ∷ xs) ys e = ap (◌∷◌ x) (take-append m xs ys (omega arith))

take-whole {ℓ} : {A : Type ℓ} → (m : ℕ) (xs : List A) → length xs ≡ m → take m xs ≡ xs
take-whole zero [] e = refl
take-whole (suc m) [] e = refl
take-whole zero (x ∷ xs) e = absurd (omega arith)
take-whole (suc m) (x ∷ xs) e = ap (◌∷◌ x) (take-whole m xs (omega arith))

-- What a split of the parent `n` into `p` promises: with the key that moves up between them, the two
-- nodes hold all keys and all children in order. What the left node's vectors hold beyond its keys
-- is not counted.
pub record HasSplit (cmp : KeyComparator) (key right_id : ℕ) (n : InternalNode)
    (p : InternalNode × ℕ × InternalNode) : Type 0 where
  pub halves : (p.0.num_keys ≡ 254) × (p.2.num_keys ≡ 253)
  pub keys_joined :
      take p.0.num_keys p.0.keys ++ (p.1 ∷ p.2.keys)
      ≡ insert_pos (lead (at_most cmp key) n.keys) key n.keys
  pub children_joined :
      take (p.0.num_keys + 1) p.0.children ++ p.2.children
      ≡ insert_pos (lead (at_most cmp key) n.keys + 1) right_id n.children
  pub right_counted : (length p.2.keys ≡ p.2.num_keys) × (length p.2.children ≡ p.2.num_keys + 1)

-- The split of a full valid internal node gives nodes of 254 and 253 keys that, with the key that
-- moves up between them, hold its keys with the new one behind those that are at most it, and its
-- children with the new one at the place that follows, in order.
pub split_internal-HasSplit :
    (cmp : KeyComparator) (key right_id : ℕ) (n : InternalNode)
    → IsOrder cmp
    → IsValid cmp n
    → n.num_keys ≡ max_internal_keys
    → HasSplit cmp key right_id n (split_internal cmp key right_id n)
unfolding split_internal
split_internal-HasSplit cmp key right_id n o v full =
    let pos = lead (at_most cmp key) n.keys in
    let ks = insert_pos pos key n.keys in
    let cs = insert_pos (pos + 1) right_id n.children in
    let lk : length ks ≡ 508 = omega (arith, length-insert_pos pos key n.keys, v.keys_counted) in
    let lc : length cs ≡ 509 =
      omega (arith, length-insert_pos (pos + 1) right_id n.children, v.children_counted) in
    let mid : u16 (length ks / 2) ≡ 254 = omega arith in
    rw
      (
        find_child-lead cmp o key n v.keys_counted v.sorted,
        take-whole n.num_keys n.keys v.keys_counted,
        take-whole (n.num_keys + 1) n.children v.children_counted,
        mid,
      )
      (record {
        halves = (refl, omega arith);
        keys_joined =
            rw (take-append 254 (take 254 ks) (drop 254 n.keys) (omega (arith, length-take 254 ks)))
              (ap (λ r. take 254 ks ++ r) (sym (drop-get_or 254 ks 0 (omega arith)))
                ∙ take-append-drop 254 ks);
        children_joined =
            rw
              (take-append 255 (take 255 cs) (drop 255 n.children)
                (omega (arith, length-take 255 cs)))
              (take-append-drop 255 cs);
        right_counted = (omega (arith, length-drop 255 ks), omega (arith, length-drop 255 cs));
      })
