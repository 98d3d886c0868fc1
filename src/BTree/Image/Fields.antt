-- ===== src/BTree/Image/Fields.antt =====
-- The fields of a node's image, of src/index/btree.cpp: that they fit, follow one another within the page,
-- and hold what the node has.
use mathlib.Core.Path.{ap₂}
use court_db.Base.{
  ℕ, ◌+◌, ◌*◌, ◌^◌, ◌<◌, ◌≤◌, u16, ◌≡◌, refl, ap, ◌∙◌, ◌⊎◌, inl, inr, List, [], ◌∷◌, ◌++◌, arith,
  length, All,
}
use court_db.Base.Bytes.{Bytes, get_le, Field, Until}
use court_db.Page.{page_size}
use court_db.Record.{Rid}
use court_db.BTree.{
  BTreeNodeType, internal_node, leaf_node, BTreeNodeHeader, InternalNode, LeafNode, max_leaf_keys,
  max_internal_keys,
}
use court_db.BTree.Image.{
  node_type_byte, node_type_of, header_fields, get_node_header, entry_fields, get_leaf_keys,
  get_leaf_rids, child_fields, get_children, get_internal_keys, Ascending, HoldsFields,
}

-- The widths of the fields in the source.
pub record HeaderFits (h : BTreeNodeHeader) : Type 0 where
  pub type_known : (h.node_type ≡ internal_node) ⊎ (h.node_type ≡ leaf_node)
  pub parent_fits : h.parent_page_id < 256 ^ 4
  pub num_keys_fits : h.num_keys < 256 ^ 2
  pub next_fits : h.next_page_id < 256 ^ 4

abbrev pub RidFits : Rid → Type 0
RidFits r = (r.page_id < 256 ^ 4) × (r.slot_id < 256 ^ 2)

pub record LeafFits (n : LeafNode) : Type 0 where
  pub header_fits : HeaderFits n.header
  pub keys_counted : length n.keys ≡ n.num_keys
  pub rids_counted : length n.rids ≡ n.num_keys
  pub room : n.num_keys ≤ max_leaf_keys
  pub keys_fit : All (λ k. k < 256 ^ 4) n.keys
  pub rids_fit : All RidFits n.rids

-- With no keys there is the child 0 that `resize` makes.
pub record InternalFits (n : InternalNode) : Type 0 where
  pub header_fits : HeaderFits n.header
  pub keys_counted : length n.keys ≡ n.num_keys
  pub children_counted : length n.children ≡ n.num_keys + 1
  pub room : n.num_keys ≤ max_internal_keys
  pub keys_fit : All (λ k. k < 256 ^ 4) n.keys
  pub children_fit : All (λ c. c < 256 ^ 4) n.children
  pub no_keys : n.num_keys ≡ 0 → n.children ≡ 0 ∷ []

pub Ascending-append :
    (h : BTreeNodeHeader) (fs : List Field)
    → HeaderFits h
    → Ascending 31 fs
    → Ascending 20 (header_fields h ++ fs)
Ascending-append h fs f a = (
  omega arith,
  elim f.type_known [ inl e ↦ rw e (omega arith) | inr e ↦ rw e (omega arith) ],
  (omega arith, f.parent_fits, (omega arith, f.num_keys_fits, (omega arith, f.next_fits, a))),
)

pub HoldsFields-right :
    (d : Bytes) (es fs : List Field) → HoldsFields d (es ++ fs) → HoldsFields d fs
HoldsFields-right d [] fs h = h
HoldsFields-right d (e ∷ es) fs h = HoldsFields-right d es fs h.1

node_type_of-byte :
    (t : BTreeNodeType)
    → (t ≡ internal_node) ⊎ (t ≡ leaf_node)
    → node_type_of (node_type_byte t) ≡ t
node_type_of-byte t (inl e) = rw e refl
node_type_of-byte t (inr e) = rw e refl

pub get_node_header-HoldsFields :
    (d : Bytes) (h : BTreeNodeHeader) (fs : List Field)
    → HeaderFits h
    → HoldsFields d (header_fields h ++ fs)
    → get_node_header d ≡ h
unfolding get_node_header
get_node_header-HoldsFields d h fs f e = λ i. record {
  node_type = (ap node_type_of e.0 ∙ node_type_of-byte h.node_type f.type_known) i;
  parent_page_id = e.1.0 i;
  num_keys = e.1.1.0 i;
  next_page_id = e.1.1.1.0 i;
}

pub entry_fields-Ascending :
    (pos : ℕ) (ks : List ℕ) (rs : List Rid)
    → pos + 10 * length ks ≤ page_size
    → All (λ k. k < 256 ^ 4) ks
    → All RidFits rs
    → Ascending pos (entry_fields pos ks rs) × Until page_size (entry_fields pos ks rs)
unfolding entry_fields
entry_fields-Ascending pos [] rs h a b = (tt, tt)
entry_fields-Ascending pos (k ∷ ks) [] h a b = (tt, tt)
entry_fields-Ascending pos (k ∷ ks) (r ∷ rs) h a b =
    let e4 : u16 (pos + 4) ≡ pos + 4 = omega (arith, h) in
    let e8 : u16 (pos + 8) ≡ pos + 8 = omega (arith, h) in
    let e10 : u16 (pos + 10) ≡ pos + 10 = omega (arith, h) in
    let e : pos + 8 + 2 ≡ pos + 10 = omega arith in
    let ih = entry_fields-Ascending (pos + 10) ks rs (omega (arith, h)) a.1 b.1 in
    rw (e4, e8, e10)
      (
        (omega arith, a.0, (omega arith, b.0.0, (omega arith, b.0.1, rw e ih.0))),
        (omega (arith, h), (omega (arith, h), (omega (arith, h), ih.1))),
      )

pub child_fields-Ascending :
    (pos : ℕ) (cs ks : List ℕ)
    → pos + 8 * length ks + 4 ≤ page_size
    → All (λ c. c < 256 ^ 4) cs
    → All (λ k. k < 256 ^ 4) ks
    → Ascending pos (child_fields pos cs ks) × Until page_size (child_fields pos cs ks)
unfolding child_fields
child_fields-Ascending pos [] ks h a b = (tt, tt)
child_fields-Ascending pos (c ∷ cs) [] h a b = ((omega arith, a.0, tt), (omega (arith, h), tt))
child_fields-Ascending pos (c ∷ cs) (k ∷ ks) h a b =
    let e4 : u16 (pos + 4) ≡ pos + 4 = omega (arith, h) in
    let e8 : u16 (pos + 8) ≡ pos + 8 = omega (arith, h) in
    let e : pos + 4 + 4 ≡ pos + 8 = omega arith in
    let ih = child_fields-Ascending (pos + 8) cs ks (omega (arith, h)) a.1 b.1 in
    rw (e4, e8)
      (
        (omega arith, a.0, (omega arith, b.0, rw e ih.0)),
        (omega (arith, h), (omega (arith, h), ih.1)),
      )

pub get_leaf-HoldsFields :
    (pos : ℕ) (ks : List ℕ) (rs : List Rid) (d : Bytes)
    → length rs ≡ length ks
    → HoldsFields d (entry_fields pos ks rs)
    → (get_leaf_keys pos (length ks) d ≡ ks) × (get_leaf_rids pos (length ks) d ≡ rs)
unfolding entry_fields get_leaf_keys get_leaf_rids
get_leaf-HoldsFields pos [] [] d e h = (refl, refl)
get_leaf-HoldsFields pos [] (r ∷ rs) d e h = absurd (omega arith)
get_leaf-HoldsFields pos (k ∷ ks) [] d e h = absurd (omega arith)
get_leaf-HoldsFields pos (k ∷ ks) (r ∷ rs) d e h =
    let ih = get_leaf-HoldsFields (u16 (pos + 10)) ks rs d (omega arith) h.1.1.1 in
    let r' : record { page_id = get_le 4 d (u16 (pos + 4)); slot_id = get_le 2 d (u16 (pos + 8)) }
        ≡ r =
      λ i. record { page_id = h.1.0 i; slot_id = h.1.1.0 i } in
    (ap₂ ◌∷◌ h.0 ih.0, ap₂ ◌∷◌ r' ih.1)

pub get_internal-HoldsFields :
    (pos : ℕ) (cs ks : List ℕ) (d : Bytes)
    → length cs ≡ length ks + 1
    → HoldsFields d (child_fields pos cs ks)
    → (get_children pos (length ks) d ≡ cs) × (get_internal_keys pos (length ks) d ≡ ks)
unfolding child_fields get_children get_internal_keys
get_internal-HoldsFields pos [] ks d e h = absurd (omega arith)
get_internal-HoldsFields pos (c ∷ []) [] d e h = (ap₂ ◌∷◌ h.0 refl, refl)
get_internal-HoldsFields pos (c ∷ b ∷ cs) [] d e h = absurd (omega arith)
get_internal-HoldsFields pos (c ∷ cs) (k ∷ ks) d e h =
    let ih = get_internal-HoldsFields (u16 (pos + 8)) cs ks d (omega arith) h.1.1 in
    (ap₂ ◌∷◌ h.0 ih.0, ap₂ ◌∷◌ h.1.0 ih.1)
