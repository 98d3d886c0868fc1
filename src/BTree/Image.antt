-- ===== src/BTree/Image.antt =====
-- SerializeToPage and DeserializeFromPage of both nodes of src/index/btree.cpp, and the node header of
-- include/index/btree.h: type at 20, parent at 21, number of keys at 25, next page at 27, entries
-- from 31 on.
mod Fields
pub mod Reread
use mathlib.Core.Path.{ap₂}
use court_db.Base.{
  ℕ, zero, suc, ◌+◌, ◌*◌, ◌^◌, ◌≤◌, ◌<◌, ◌≡◌, ◌≢◌, refl, ap, sym, ◌∙◌, ◌⊎◌, inl, inr, List, [], ◌∷◌,
  ◌++◌, arith, false, length, take, All, ◌==◌, ltb, Option, none, some, if◌then◌else◌, u16,
}
use court_db.Base.Bytes.{Bytes, read, get_le, put_le, Field, put_fields, get_le-put_fields, From}
use court_db.Page.{page_size}
use court_db.Record.{Rid}
use court_db.BTree.{
  BTreeNodeType, internal_node, leaf_node, other, BTreeNodeHeader, InternalNode, LeafNode,
}

-- The enumerators' values.
abbrev pub node_type_byte : BTreeNodeType → ℕ
node_type_byte internal_node = 1
node_type_byte leaf_node = 2
node_type_byte (other b) = b

abbrev pub node_type_of : ℕ → BTreeNodeType
node_type_of b = if b == 1 then internal_node else (if b == 2 then leaf_node else other b)

abbrev pub header_fields : BTreeNodeHeader → List Field
header_fields h =
    record { width = 1; offset = 20; value = node_type_byte h.node_type }
    ∷ record { width = 4; offset = 21; value = h.parent_page_id }
    ∷ record { width = 2; offset = 25; value = h.num_keys }
    ∷ record { width = 4; offset = 27; value = h.next_page_id }
    ∷ []

pub get_node_header : Bytes → BTreeNodeHeader
get_node_header d = record {
  node_type = node_type_of (get_le 1 d 20);
  parent_page_id = get_le 4 d 21;
  num_keys = get_le 2 d 25;
  next_page_id = get_le 4 d 27;
}

-- The key-RID pairs of a leaf from offset `pos`, a uint16_t.
pub entry_fields : ℕ → List ℕ → List Rid → List Field
entry_fields pos [] rs = []
entry_fields pos (k ∷ ks) [] = []
entry_fields pos (k ∷ ks) (r ∷ rs) =
    record { width = 4; offset = pos; value = k }
    ∷ record { width = 4; offset = u16 (pos + 4); value = r.page_id }
    ∷ record { width = 2; offset = u16 (pos + 8); value = r.slot_id }
    ∷ entry_fields (u16 (pos + 10)) ks rs

-- LeafNode::SerializeToPage, on the bytes of the page. `none` is undefined behaviour: more entries than
-- the page holds, which the loop writes past its end.
pub leaf_serialize : LeafNode → Bytes → Option Bytes
leaf_serialize n d =
    if ltb page_size (31 + 10 * n.num_keys)
    then none
    else some (
        put_fields
          (header_fields n.header
            ++ entry_fields 31 (take n.num_keys n.keys) (take n.num_keys n.rids))
          d)

pub get_leaf_keys : ℕ → ℕ → Bytes → List ℕ
get_leaf_keys pos zero d = []
get_leaf_keys pos (suc n) d = get_le 4 d pos ∷ get_leaf_keys (u16 (pos + 10)) n d

pub get_leaf_rids : ℕ → ℕ → Bytes → List Rid
get_leaf_rids pos zero d = []
get_leaf_rids pos (suc n) d =
    record { page_id = get_le 4 d (u16 (pos + 4)); slot_id = get_le 2 d (u16 (pos + 8)) }
    ∷ get_leaf_rids (u16 (pos + 10)) n d

-- LeafNode::DeserializeFromPage
pub leaf_deserialize : Bytes → LeafNode
leaf_deserialize d =
    let h = get_node_header d in
    record {
      header = h;
      keys = get_leaf_keys 31 h.num_keys d;
      rids = get_leaf_rids 31 h.num_keys d;
    }

-- The children and keys of an internal node from offset `pos`, and the final child.
pub child_fields : ℕ → List ℕ → List ℕ → List Field
child_fields pos [] ks = []
child_fields pos (c ∷ cs) [] = record { width = 4; offset = pos; value = c } ∷ []
child_fields pos (c ∷ cs) (k ∷ ks) =
    record { width = 4; offset = pos; value = c }
    ∷ record { width = 4; offset = u16 (pos + 4); value = k }
    ∷ child_fields (u16 (pos + 8)) cs ks

-- InternalNode::SerializeToPage. A node with no keys has no child written. `none` is undefined
-- behaviour: more children and keys than the page holds.
pub internal_serialize : InternalNode → Bytes → Option Bytes
internal_serialize n d =
    if ltb page_size (35 + 8 * n.num_keys)
    then none
    else some (
        put_fields
          (header_fields n.header
            ++ (if n.num_keys == 0
                then []
                else child_fields 31 (take (n.num_keys + 1) n.children) (take n.num_keys n.keys)))
          d)

pub get_children : ℕ → ℕ → Bytes → List ℕ
get_children pos zero d = get_le 4 d pos ∷ []
get_children pos (suc n) d = get_le 4 d pos ∷ get_children (u16 (pos + 8)) n d

pub get_internal_keys : ℕ → ℕ → Bytes → List ℕ
get_internal_keys pos zero d = []
get_internal_keys pos (suc n) d = get_le 4 d (u16 (pos + 4)) ∷ get_internal_keys (u16 (pos + 8)) n d

-- InternalNode::DeserializeFromPage, on a new node: with no keys, `resize` leaves one child of 0.
pub internal_deserialize : Bytes → InternalNode
internal_deserialize d =
    let h = get_node_header d in
    record {
      header = h;
      children = if h.num_keys == 0 then 0 ∷ [] else get_children 31 h.num_keys d;
      keys = get_internal_keys 31 h.num_keys d;
    }

-- Fields in the order of their offsets, from `q` on, that do not overlap and whose values fit.
abbrev pub Ascending : ℕ → List Field → Type 0
Ascending q [] = Unit
Ascending q (f ∷ fs) =
    (q ≤ f.offset) × (f.value < 256 ^ f.width) × Ascending (f.offset + f.width) fs

pub Ascending-From : (p q : ℕ) (fs : List Field) → p ≤ q → Ascending q fs → From p fs
Ascending-From p q [] h a = tt
Ascending-From p q (f ∷ fs) h a =
    (omega (arith, a.0), Ascending-From p (f.offset + f.width) fs (omega (arith, a.0)) a.2)

-- The buffer holds the fields.
abbrev pub HoldsFields : Bytes → List Field → Type 0
HoldsFields d fs = All (λ f. get_le f.width d f.offset ≡ f.value) fs

pub put_fields-HoldsFields :
    (q : ℕ) (fs : List Field) (d : Bytes) → Ascending q fs → HoldsFields (put_fields fs d) fs
unfolding put_fields
put_fields-HoldsFields q [] d a = tt
put_fields-HoldsFields q (f ∷ fs) d a = (
  get_le-put_fields f.width f.offset f.value fs d a.1
      (Ascending-From (f.offset + f.width) (f.offset + f.width) fs (omega arith) a.2),
  put_fields-HoldsFields (f.offset + f.width) fs _ a.2,
)
