-- ===== src/BTree/Tests.antt =====
-- The B+tree's theorems at small nodes, and at full ones.
use court_db.Base.{
  some, ℕ, zero, suc, ◌<◌, ◌≡◌, ◌≢◌, refl, ap, ◌⊎◌, inl, inr, true, false, List, [], ◌∷◌, arith,
  length, get_or, All,
}
use court_db.Base.Bytes.{Bytes, zeros}
use court_db.Record.{Rid}
use court_db.BTree.{
  is_lt, is_le, is_eq, BTreeNodeHeader, internal_node, leaf_node, LeafNode, InternalNode, find_all,
  find_loop, find_child, find_key_position, search_loop, leaf_insert, leaf_delete, split_leaf,
  split_internal, new_root, max_leaf_keys, default_key_comparator,
}
use court_db.BTree.Search.{Splits, search_loop-Splits}
use court_db.BTree.Order.{IsSorted, compare-IsOrder}
use court_db.BTree.Entries.{insert_entry, lookup, has_entry, delete_entry}
use court_db.BTree.Leaf.{entries, IsValid, find_all-lookup, leaf_insert-insert_entry}
use court_db.BTree.Delete.{leaf_delete-delete_entry}
use court_db.BTree.Split.{HasSplit, split_leaf-HasSplit, split_leaf-misses}
use court_db.BTree.Internal
use court_db.BTree.Image.{
  leaf_serialize, leaf_deserialize, internal_serialize, internal_deserialize,
}
use court_db.BTree.Image.Reread.{
  InPage, leaf_deserialize-leaf_serialize, internal_deserialize-internal_serialize,
}

abbrev rid : ℕ → Rid
rid p = record { page_id = p; slot_id = 0 }

abbrev node_header : ℕ → BTreeNodeHeader
node_header n = record { node_type = leaf_node; parent_page_id = 9; num_keys = n; next_page_id = 8 }

abbrev small_leaf : LeafNode
small_leaf = record {
  header = node_header 3;
  keys = 3 ∷ 5 ∷ 5 ∷ [];
  rids = rid 1 ∷ rid 2 ∷ rid 4 ∷ [];
}

small_leaf-IsValid : IsValid default_key_comparator small_leaf
small_leaf-IsValid = record {
  keys_counted = refl;
  rids_counted = refl;
  fits = omega arith;
  sorted = ((refl, (refl, tt)), ((refl, tt), (tt, tt)));
}

-- Keys that are all equal.
repeat {ℓ} : {A : Type ℓ} → ℕ → A → List A
repeat zero k = []
repeat (suc n) k = k ∷ repeat n k

length-repeat {ℓ} : {A : Type ℓ} → (n : ℕ) (k : A) → length (repeat n k) ≡ n
unfolding repeat
length-repeat zero k = refl
length-repeat (suc n) k = ap suc (length-repeat n k)

All-repeat : (P : ℕ → Type 0) (n k : ℕ) → P k → All P (repeat n k)
unfolding repeat
All-repeat P zero k p = tt
All-repeat P (suc n) k p = (p, All-repeat P n k p)

repeat-IsSorted : (n k : ℕ) → IsSorted default_key_comparator (repeat n k)
unfolding repeat
repeat-IsSorted zero k = tt
repeat-IsSorted (suc n) k = (
  All-repeat (λ l. is_le (default_key_comparator k l) ≡ true) n k (ground arith),
  repeat-IsSorted n k,
)

abbrev full_leaf : LeafNode
full_leaf = record { header = node_header 406; keys = repeat 406 5; rids = repeat 406 (rid 1) }

full_leaf-IsValid : IsValid default_key_comparator full_leaf
full_leaf-IsValid = record {
  keys_counted = length-repeat 406 5;
  rids_counted = length-repeat 406 (rid 1);
  fits = omega arith;
  sorted = repeat-IsSorted 406 5;
}

abbrev full_internal : InternalNode
full_internal = record {
  header = record {
    node_type = internal_node;
    parent_page_id = 9;
    num_keys = 507;
    next_page_id = 0;
  };
  children = repeat 508 7;
  keys = repeat 507 5;
}

full_internal-IsValid : Internal.IsValid default_key_comparator full_internal
full_internal-IsValid = record {
  keys_counted = length-repeat 507 5;
  children_counted = length-repeat 508 7;
  fits = omega arith;
  sorted = repeat-IsSorted 507 5;
}

abbrev small_internal : InternalNode
small_internal = record {
  header = record { node_type = internal_node; parent_page_id = 9; num_keys = 1; next_page_id = 0 };
  children = 6 ∷ 7 ∷ [];
  keys = 5 ∷ [];
}

small_internal-IsValid : Internal.IsValid default_key_comparator small_internal
small_internal-IsValid = record {
  keys_counted = refl;
  children_counted = refl;
  fits = omega arith;
  sorted = (tt, tt);
}

find_all_test : find_all default_key_comparator 5 small_leaf ≡ rid 2 ∷ rid 4 ∷ []
unfolding find_all find_loop find_key_position search_loop
find_all_test = refl

search_loop-Splits_example :
    (r : ℕ) × (search_loop 5 (λ i. is_lt (default_key_comparator i 2)) 0 4 ≡ some r)
    × Splits (λ i. is_lt (default_key_comparator i 2)) 4 r
search_loop-Splits_example =
    search_loop-Splits (λ i. is_lt (default_key_comparator i 2)) 4 (λ i j p q e. ground arith)

find_all-lookup_example :
    find_all default_key_comparator 5 small_leaf
    ≡ lookup default_key_comparator 5 (entries small_leaf)
find_all-lookup_example =
    find_all-lookup default_key_comparator small_leaf 5 compare-IsOrder small_leaf-IsValid

leaf_insert-insert_entry_example :
    ((small_leaf.num_keys ≡ max_leaf_keys)
      × (leaf_insert default_key_comparator 4 (rid 6) small_leaf ≡ (false, small_leaf)))
    ⊎ ((small_leaf.num_keys < max_leaf_keys)
        × ((leaf_insert default_key_comparator 4 (rid 6) small_leaf).0 ≡ true)
        × IsValid default_key_comparator (leaf_insert default_key_comparator 4 (rid 6) small_leaf).1
        × (entries (leaf_insert default_key_comparator 4 (rid 6) small_leaf).1
            ≡ insert_entry default_key_comparator 4 (rid 6) (entries small_leaf)))
leaf_insert-insert_entry_example =
    leaf_insert-insert_entry default_key_comparator small_leaf 4 (rid 6) compare-IsOrder
      small_leaf-IsValid

leaf_delete-delete_entry_example :
    ((leaf_delete default_key_comparator 5 (rid 4) small_leaf).0
      ≡ has_entry default_key_comparator 5 (rid 4) (entries small_leaf))
    × (entries (leaf_delete default_key_comparator 5 (rid 4) small_leaf).1
        ≡ delete_entry default_key_comparator 5 (rid 4) (entries small_leaf))
    × IsValid default_key_comparator (leaf_delete default_key_comparator 5 (rid 4) small_leaf).1
    × (((leaf_delete default_key_comparator 5 (rid 4) small_leaf).1 ≡ small_leaf)
        ⊎ (suc (leaf_delete default_key_comparator 5 (rid 4) small_leaf).1.num_keys
            ≡ small_leaf.num_keys))
leaf_delete-delete_entry_example =
    leaf_delete-delete_entry default_key_comparator small_leaf 5 (rid 4) compare-IsOrder
      small_leaf-IsValid

split_leaf-HasSplit_example :
    HasSplit default_key_comparator 5
      (rid 2)
      30
      full_leaf
      (split_leaf default_key_comparator 5 (rid 2) 30 full_leaf)
split_leaf-HasSplit_example =
    split_leaf-HasSplit default_key_comparator 5 (rid 2) 30 full_leaf compare-IsOrder
      full_leaf-IsValid refl

last_is_separator :
    is_eq (
      default_key_comparator
        (get_or (split_leaf default_key_comparator 5 (rid 2) 30 full_leaf).0.keys 202 0)
        (get_or (split_leaf default_key_comparator 5 (rid 2) 30 full_leaf).1.keys 0 0))
    ≡ true
unfolding split_leaf find_key_position search_loop repeat
last_is_separator = refl

split_leaf-misses_example :
    (find_child default_key_comparator
        (get_or (split_leaf default_key_comparator 5 (rid 2) 30 full_leaf).1.keys 0 0)
        (new_root 20
          (get_or (split_leaf default_key_comparator 5 (rid 2) 30 full_leaf).1.keys 0 0)
          30)
      ≡ 1)
    × (find_all default_key_comparator
          (get_or (split_leaf default_key_comparator 5 (rid 2) 30 full_leaf).1.keys 0 0)
          (split_leaf default_key_comparator 5 (rid 2) 30 full_leaf).0
        ≢ [])
split_leaf-misses_example =
    split_leaf-misses default_key_comparator 5 (rid 2) 20 30 full_leaf compare-IsOrder
      full_leaf-IsValid refl last_is_separator

split_internal-HasSplit_example :
    Internal.HasSplit default_key_comparator 5 30 full_internal
      (split_internal default_key_comparator 5 30 full_internal)
split_internal-HasSplit_example =
    Internal.split_internal-HasSplit default_key_comparator 5 30 full_internal compare-IsOrder
      full_internal-IsValid refl

leaf_deserialize-leaf_serialize_example :
    (after : Bytes) × (leaf_serialize small_leaf zeros ≡ some after)
    × (leaf_deserialize after ≡ small_leaf)
    × InPage zeros after
leaf_deserialize-leaf_serialize_example = leaf_deserialize-leaf_serialize small_leaf zeros (record {
  header_fits = record {
    type_known = inr refl;
    parent_fits = omega arith;
    num_keys_fits = omega arith;
    next_fits = omega arith;
  };
  room = omega arith;
  keys_counted = refl;
  rids_counted = refl;
  keys_fit = omega arith;
  rids_fit = omega arith;
})

internal_deserialize-internal_serialize_example :
    (after : Bytes) × (internal_serialize small_internal zeros ≡ some after)
    × (internal_deserialize after ≡ small_internal)
    × InPage zeros after
internal_deserialize-internal_serialize_example =
    internal_deserialize-internal_serialize small_internal zeros (record {
      header_fits = record {
        type_known = inl refl;
        parent_fits = omega arith;
        num_keys_fits = omega arith;
        next_fits = omega arith;
      };
      room = omega arith;
      keys_counted = refl;
      children_counted = refl;
      keys_fit = omega arith;
      children_fit = omega arith;
      no_keys = λ e. absurd (omega arith);
    })
