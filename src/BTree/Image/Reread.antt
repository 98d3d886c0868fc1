-- ===== src/BTree/Image/Reread.antt =====
-- The nodes of src/index/btree.cpp, written into a page and read back.
use court_db.Base.{
  false, ltb, some, ℕ, zero, suc, ◌+◌, ◌*◌, ◌≡◌, refl, ap, sym, ◌∙◌, inl, inr, List, [], ◌∷◌, ◌++◌,
  arith, length, take, ◌==◌, if◌then◌else◌, Bool-cases,
}
use court_db.Base.Bytes.{
  Bytes, read, Field, put_fields, Until, read-put_fields, read-put_fields_above,
}
use court_db.Page.{page_size}
use court_db.BTree.{BTreeNodeHeader, InternalNode, LeafNode}
use court_db.BTree.Image.{
  header_fields, get_node_header, entry_fields, leaf_serialize, get_leaf_keys, get_leaf_rids,
  leaf_deserialize, child_fields, internal_serialize, get_children, get_internal_keys,
  internal_deserialize, Ascending, Ascending-From, HoldsFields, put_fields-HoldsFields,
}
use court_db.BTree.Image.Fields.{
  HeaderFits, LeafFits, InternalFits, Ascending-append, HoldsFields-right,
  get_node_header-HoldsFields, entry_fields-Ascending, child_fields-Ascending, get_leaf-HoldsFields,
  get_internal-HoldsFields,
}

take-length {ℓ} : {A : Type ℓ} → (xs : List A) (n : ℕ) → length xs ≡ n → take n xs ≡ xs
take-length [] zero e = refl
take-length [] (suc n) e = refl
take-length (x ∷ xs) zero e = absurd (omega arith)
take-length (x ∷ xs) (suc n) e = ap (◌∷◌ x) (take-length xs n (omega arith))

-- What a buffer holds behind the header, by the number of keys that its header has.
counted {ℓ} :
    {A : Type ℓ}
    → (f : ℕ → A) (d : Bytes) (h : BTreeNodeHeader) (n : ℕ) (x : A) → get_node_header d ≡ h
    → n ≡ h.num_keys
    → f n ≡ x
    → f (get_node_header d).num_keys ≡ x
counted f d h n x e c b = ap (λ (g : BTreeNodeHeader). f g.num_keys) e ∙ ap f (sym c) ∙ b

-- Nothing outside the node's part of the page is written.
abbrev pub InPage : Bytes → Bytes → Type 0
InPage d after =
    (read after 0 20 ≡ read d 0 20) × ((m : ℕ) → read after page_size m ≡ read d page_size m)

-- A node's header and the fields behind it read back, and the writes stay within the page.
written :
    (h : BTreeNodeHeader) (fs : List Field) (d : Bytes)
    → HeaderFits h
    → Ascending 31 fs × Until page_size fs
    → (get_node_header (put_fields (header_fields h ++ fs) d) ≡ h)
      × HoldsFields (put_fields (header_fields h ++ fs) d) fs
      × InPage d (put_fields (header_fields h ++ fs) d)
written h fs d f a =
    let s = header_fields h ++ fs in
    let ascending = Ascending-append h fs f a.0 in
    let holds : HoldsFields (put_fields s d) s = put_fields-HoldsFields 20 s d ascending in
    let below : Until page_size s =
      (omega arith, (omega arith, (omega arith, (omega arith, a.1)))) in
    (
      get_node_header-HoldsFields (put_fields s d) h fs f holds,
      HoldsFields-right (put_fields s d) (header_fields h) fs holds,
      (
        read-put_fields s d 0 20 (Ascending-From 20 20 s (omega arith) ascending),
        λ m. read-put_fields_above s d page_size m below,
      ),
    )

-- A leaf of at most MAX_KEYS keys whose header counts its keys and RIDs and whose fields fit their
-- widths, written into any page, stays within the page, leaves the 20 bytes before the node's
-- header and what is behind the page alone, and is read back as it was.
pub leaf_deserialize-leaf_serialize :
    (n : LeafNode) (d : Bytes)
    → LeafFits n
    → (after : Bytes) × (leaf_serialize n d ≡ some after)
      × (leaf_deserialize after ≡ n)
      × InPage d after
unfolding leaf_deserialize leaf_serialize
leaf_deserialize-leaf_serialize n d f =
    let fs = entry_fields 31 n.keys n.rids in
    let b = put_fields (header_fields n.header ++ fs) d in
    let (header, held, in_page) = written n.header fs d f.header_fits (
      entry_fields-Ascending 31 n.keys n.rids (omega (arith, f.room, f.keys_counted)) f.keys_fit
        f.rids_fit) in
    let body = get_leaf-HoldsFields 31 n.keys n.rids b (f.rids_counted ∙ sym f.keys_counted) held in
    let fits : ltb page_size (31 + 10 * n.num_keys) ≡ false = ground (arith, f.room) in
    (
      b,
      rw
          (
            fits,
            take-length n.keys n.num_keys f.keys_counted,
            take-length n.rids n.num_keys f.rids_counted,
          )
          refl,
      (λ i. record {
        header = header i;
        keys =
            counted (λ m. get_leaf_keys 31 m b) b n.header (length n.keys) n.keys header
              f.keys_counted body.0 i;
        rids =
            counted (λ m. get_leaf_rids 31 m b) b n.header (length n.keys) n.rids header
              f.keys_counted body.1 i;
      }),
      in_page,
    )

no_keys-nil : (ks : List ℕ) → length ks ≡ 0 → ks ≡ []
no_keys-nil [] e = refl
no_keys-nil (k ∷ ks) e = absurd (omega arith)

-- An internal node of at most MAX_KEYS keys whose header counts them, with one child more than
-- keys, or the one child 0 where it has no keys, and whose fields fit their widths, written into
-- any page, stays within the page, leaves the 20 bytes before the node's header and what is behind
-- the page alone, and is read back as it was.
pub internal_deserialize-internal_serialize :
    (n : InternalNode) (d : Bytes)
    → InternalFits n
    → (after : Bytes) × (internal_serialize n d ≡ some after)
      × (internal_deserialize after ≡ n)
      × InPage d after
unfolding internal_deserialize internal_serialize get_internal_keys
internal_deserialize-internal_serialize n d f = elim (Bool-cases (n.num_keys == 0)) [
  | inr some_keys ↦
      let fs = child_fields 31 n.children n.keys in
      let b = put_fields (header_fields n.header ++ fs) d in
      let (header, held, in_page) = written n.header fs d f.header_fits (
        child_fields-Ascending 31 n.children n.keys (omega (arith, f.room, f.keys_counted))
          f.children_fit f.keys_fit) in
      let body =
        get_internal-HoldsFields 31 n.children n.keys b
          (f.children_counted ∙ ap (λ m. m + 1) (sym f.keys_counted)) held in
      let fits : ltb page_size (35 + 8 * n.num_keys) ≡ false = ground (arith, f.room) in
      (
        b,
        rw
            (
              fits,
              some_keys,
              take-length n.keys n.num_keys f.keys_counted,
              take-length n.children (n.num_keys + 1) f.children_counted,
            )
            refl,
        (λ i. record {
          header = header i;
          children =
              counted (λ m. if m == 0 then 0 ∷ [] else get_children 31 m b) b n.header
                (length n.keys) n.children header f.keys_counted
                (rw (ap (λ m. m == 0) f.keys_counted ∙ some_keys) body.0) i;
          keys =
              counted (λ m. get_internal_keys 31 m b) b n.header (length n.keys) n.keys header
                f.keys_counted body.1 i;
        }),
        in_page,
      )
  | inl none_left ↦
      let z : n.num_keys ≡ 0 = ground arith in
      let b = put_fields (header_fields n.header ++ []) d in
      let (header, _, in_page) = written n.header [] d f.header_fits (tt, tt) in
      let fits : ltb page_size (35 + 8 * n.num_keys) ≡ false = ground (arith, z) in
      (
        b,
        rw (fits, none_left) refl,
        (λ i. record {
          header = header i;
          children =
              counted (λ m. if m == 0 then 0 ∷ [] else get_children 31 m b) b n.header 0 n.children
                header (sym z) (sym (f.no_keys z)) i;
          keys =
              counted (λ m. get_internal_keys 31 m b) b n.header 0 n.keys header (sym z)
                (sym (no_keys-nil n.keys (f.keys_counted ∙ z))) i;
        }),
        in_page,
      )
]
