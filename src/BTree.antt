-- ===== src/BTree.antt =====
-- include/index/btree.h and src/index/btree.cpp: the nodes of the B+tree and their operations.
mod Tests
pub mod Search
pub mod Order
pub mod Entries
pub mod Leaf
pub mod Scan
pub mod Delete
pub mod Split
pub mod Internal
pub mod Image
use Prim.Native.Nat.{compare, Ordering}
use court_db.Base.{
  ℕ, zero, suc, ◌+◌, ◌-◌, ◌/◌, ◌*◌, ◌≤◌, ◌≡◌, Bool, true, false, ◌&&◌, Option, none, some, List, [],
  ◌∷◌, ◌++◌, ltb, leb, ◌==◌, if◌then◌else◌, length, get_or, take, drop, u16, sub16,
}
use court_db.Page.{invalid_page_id}
use court_db.Record.{Rid, no_rid, rid_eq}

-- A KeyComparator, by the sign of the `int` that it returns.
abbrev pub KeyComparator : Type 0
KeyComparator = ℕ → ℕ → Ordering

abbrev pub default_key_comparator : KeyComparator
default_key_comparator = compare

abbrev pub is_lt : Ordering → Bool
is_lt Ordering.lt = true
is_lt _ = false

abbrev pub is_le : Ordering → Bool
is_le Ordering.gt = false
is_le _ = true

abbrev pub is_eq : Ordering → Bool
is_eq Ordering.eq = true
is_eq _ = false

-- LeafNode::MAX_KEYS and InternalNode::MAX_KEYS
abbrev pub max_leaf_keys : ℕ
max_leaf_keys = 406

abbrev pub max_internal_keys : ℕ
max_internal_keys = 507

-- `other` is a byte that names no enumerator.
pub data BTreeNodeType : Type 0 where
  internal_node leaf_node : BTreeNodeType
  other : ℕ → BTreeNodeType

pub record BTreeNodeHeader : Type 0 where
  pub node_type : BTreeNodeType
  pub parent_page_id : ℕ
  pub num_keys : ℕ
  pub next_page_id : ℕ

pub record InternalNode : Type 0 where
  pub header : BTreeNodeHeader
  pub open header use *
  pub children : List ℕ
  pub keys : List ℕ

pub record LeafNode : Type 0 where
  pub header : BTreeNodeHeader
  pub open header use *
  pub keys : List ℕ
  pub rids : List Rid

-- vec.insert(vec.begin() + i, x) and vec.erase(vec.begin() + i).
abbrev pub insert_pos {ℓ} : {A : Type ℓ} → ℕ → A → List A → List A
insert_pos zero x ys = x ∷ ys
insert_pos (suc i) x [] = x ∷ []
insert_pos (suc i) x (y ∷ ys) = y ∷ insert_pos i x ys

abbrev pub erase_pos {ℓ} : {A : Type ℓ} → ℕ → List A → List A
erase_pos i [] = []
erase_pos zero (y ∷ ys) = ys
erase_pos (suc i) (y ∷ ys) = y ∷ erase_pos i ys

-- The loop of both binary searches, with fuel: `lo` moves past `mid` while the test holds there. It has
-- no result where the fuel runs out before the loop ends.
-- `lo` and `hi` stay below 65536, so that uint16_t does not wrap.
pub search_loop : ℕ → (ℕ → Bool) → ℕ → ℕ → Option ℕ
search_loop zero test lo hi = none
search_loop (suc fuel) test lo hi =
    let mid = lo + (hi - lo) / 2 in
    let right = search_loop fuel test (mid + 1) hi in
    let left = search_loop fuel test lo mid in
    if ltb lo hi then (if test mid then right else left) else some lo

-- What a search returns; the loops end before their fuel does.
abbrev pub result_of : Option ℕ → ℕ
result_of none = 0
result_of (some r) = r

module _ (cmp : KeyComparator) where
  -- InternalNode::FindChild
  pub find_child : ℕ → InternalNode → ℕ
  unfolding search_loop
  find_child key n =
      result_of
        (search_loop (suc n.num_keys) (λ mid. is_le (cmp (get_or n.keys mid 0) key)) 0 n.num_keys)

  -- LeafNode::FindKeyPosition
  pub find_key_position : ℕ → LeafNode → ℕ
  unfolding search_loop
  find_key_position key n =
      result_of
        (search_loop (suc n.num_keys) (λ mid. is_lt (cmp (get_or n.keys mid 0) key)) 0 n.num_keys)

-- InternalNode::InsertAfter. The assertion that the node has room is the caller's.
pub insert_after : ℕ → ℕ → ℕ → InternalNode → InternalNode
insert_after pos key right_child n = record {
  header = record n.header { num_keys = u16 (n.num_keys + 1) };
  children = insert_pos (pos + 1) right_child n.children;
  keys = insert_pos pos key n.keys;
}

abbrev pub leaf_is_full : LeafNode → Bool
leaf_is_full n = leb max_leaf_keys n.num_keys

abbrev pub internal_is_full : InternalNode → Bool
internal_is_full n = leb max_internal_keys n.num_keys

-- LeafNode::Insert
pub leaf_insert : KeyComparator → ℕ → Rid → LeafNode → Bool × LeafNode
leaf_insert cmp key rid n =
    let pos = find_key_position cmp key n in
    if leaf_is_full n then (false, n) else (
      true,
      record {
        header = record n.header { num_keys = u16 (n.num_keys + 1) };
        keys = insert_pos pos key n.keys;
        rids = insert_pos pos rid n.rids;
      },
    )

-- The loop of LeafNode::Delete from `pos`, with fuel.
pub delete_loop : ℕ → KeyComparator → ℕ → Rid → ℕ → LeafNode → Bool × LeafNode
delete_loop zero cmp key rid pos n = (false, n)
delete_loop (suc fuel) cmp key rid pos n =
    let rest = delete_loop fuel cmp key rid (pos + 1) n in
    if ltb pos n.num_keys && is_eq (cmp (get_or n.keys pos 0) key)
    then (if rid_eq (get_or n.rids pos no_rid) rid
        then (
          true,
          record {
            header = record n.header { num_keys = sub16 n.num_keys 1 };
            keys = erase_pos pos n.keys;
            rids = erase_pos pos n.rids;
          },
        )
        else rest)
    else (false, n)

-- LeafNode::Delete
pub leaf_delete : KeyComparator → ℕ → Rid → LeafNode → Bool × LeafNode
unfolding delete_loop
leaf_delete cmp key rid n = delete_loop n.num_keys cmp key rid (find_key_position cmp key n) n

-- The loop of LeafNode::FindAll from `pos`, with fuel.
pub find_loop : ℕ → KeyComparator → ℕ → ℕ → LeafNode → List Rid
find_loop zero cmp key pos n = []
find_loop (suc fuel) cmp key pos n =
    let rest = find_loop fuel cmp key (pos + 1) n in
    if ltb pos n.num_keys && is_eq (cmp (get_or n.keys pos 0) key)
    then get_or n.rids pos no_rid ∷ rest
    else []

-- LeafNode::FindAll
pub find_all : KeyComparator → ℕ → LeafNode → List Rid
unfolding find_loop
find_all cmp key n = find_loop n.num_keys cmp key (find_key_position cmp key n) n

-- The part of BPlusTree::Insert that splits a full leaf: the left leaf, and the right one in the page
-- `right_id`. The key for the parent is the first key of the right leaf.
pub split_leaf : KeyComparator → ℕ → Rid → ℕ → LeafNode → LeafNode × LeafNode
split_leaf cmp key rid right_id n =
    let pos = find_key_position cmp key n in
    let all_keys = insert_pos pos key n.keys in
    let all_rids = insert_pos pos rid n.rids in
    let split_pos = u16 (length all_keys / 2) in
    (
      record {
        header = record n.header { num_keys = split_pos; next_page_id = right_id };
        keys = take split_pos all_keys;
        rids = take split_pos all_rids;
      },
      record {
        header = record {
          node_type = leaf_node;
          parent_page_id = n.parent_page_id;
          num_keys = u16 (length all_keys - split_pos);
          next_page_id = n.next_page_id;
        };
        keys = drop split_pos all_keys;
        rids = drop split_pos all_rids;
      },
    )

-- The root that CreateNewRoot makes in a new page.
pub new_root : ℕ → ℕ → ℕ → InternalNode
new_root left_id split_key right_id = record {
  header = record {
    node_type = internal_node;
    parent_page_id = invalid_page_id;
    num_keys = 1;
    next_page_id = invalid_page_id;
  };
  children = left_id ∷ right_id ∷ [];
  keys = split_key ∷ [];
}

-- The part of InsertIntoParent that splits a full parent: the left node, the key that moves up, and
-- the right node, made in a page of zeros. The vectors of the left node keep what lies beyond its
-- keys.
pub split_internal : KeyComparator → ℕ → ℕ → InternalNode → InternalNode × ℕ × InternalNode
split_internal cmp split_key right_id n =
    let pos = find_child cmp split_key n in
    let all_keys = insert_pos pos split_key (take n.num_keys n.keys) in
    let all_children = insert_pos (pos + 1) right_id (take (n.num_keys + 1) n.children) in
    let mid = u16 (length all_keys / 2) in
    (
      record {
        header = record n.header { num_keys = mid };
        keys = take mid all_keys ++ drop mid n.keys;
        children = take (mid + 1) all_children ++ drop (mid + 1) n.children;
      },
      get_or all_keys mid 0,
      record {
        header = record {
          node_type = internal_node;
          parent_page_id = n.parent_page_id;
          num_keys = u16 (length all_keys - mid - 1);
          next_page_id = 0;
        };
        keys = drop (mid + 1) all_keys;
        children = drop (mid + 1) all_children;
      },
    )
