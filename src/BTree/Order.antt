-- ===== src/BTree/Order.antt =====
-- The comparators of src/index/btree.cpp, and the positions that its searches find in sorted keys.
use Prim.Native.Nat.{compare, Ordering}
use court_db.Base.{
  ap, ℕ, zero, suc, ◌≤◌, ◌<◌, ◌≡◌, subst, Bool, true, false, List, [], ◌∷◌, if◌then◌else◌, length,
  get_or, All, arith, inl, inr, Bool-cases,
}
use court_db.BTree.{
  result_of, KeyComparator, is_lt, is_le, InternalNode, LeafNode, find_child, result_of,
  find_key_position,
}
use court_db.BTree.Search.{Splits, search_loop_unique}

abbrev pub flip : Ordering → Ordering
flip Ordering.lt = Ordering.gt
flip Ordering.eq = Ordering.eq
flip Ordering.gt = Ordering.lt

-- A comparator that orders the keys, where keys that it calls equal may differ.
pub record IsOrder (cmp : KeyComparator) : Type 0 where
  pub flipped : (a b : ℕ) → cmp b a ≡ flip (cmp a b)
  pub le_trans :
      (a b c : ℕ) → is_le (cmp a b) ≡ true → is_le (cmp b c) ≡ true → is_le (cmp a c) ≡ true

pub compare-IsOrder : IsOrder compare
compare-IsOrder = record { flipped = λ a b. ground arith; le_trans = λ a b c h k. ground arith }

-- No key comes before a smaller one.
abbrev pub IsSorted : KeyComparator → List ℕ → Type 0
IsSorted cmp [] = Unit
IsSorted cmp (k ∷ ks) = All (λ l. is_le (cmp k l) ≡ true) ks × IsSorted cmp ks

-- The number of leading keys where a test holds.
unfoldable pub lead : (ℕ → Bool) → List ℕ → ℕ
lead test [] = 0
lead test (k ∷ ks) = let rest = lead test ks in if test k then suc rest else 0

-- Where the test fails, it fails for what follows.
abbrev pub IsDown : (ℕ → Bool) → List ℕ → Type 0
IsDown test [] = Unit
IsDown test (k ∷ ks) = (test k ≡ false → All (λ l. test l ≡ false) ks) × IsDown test ks

All-get : (P : ℕ → Type 0) (ks : List ℕ) (i : ℕ) → All P ks → i < length ks → P (get_or ks i 0)
All-get P [] i a h = absurd (omega arith)
All-get P (k ∷ ks) zero a h = a.0
All-get P (k ∷ ks) (suc i) a h = All-get P ks i a.1 (omega arith)

-- The index shifts by one under a first element where the test holds.
before_suc :
    (test : ℕ → Bool) (k : ℕ) (ks : List ℕ) (r i : ℕ)
    → test k ≡ true
    → ((j : ℕ) → j < r → test (get_or ks j 0) ≡ true)
    → i < suc r
    → test (get_or (k ∷ ks) i 0) ≡ true
before_suc test k ks r zero h b p = h
before_suc test k ks r (suc i) h b p = b i (omega arith)

after_suc :
    (test : ℕ → Bool) (k : ℕ) (ks : List ℕ) (r i : ℕ)
    → ((j : ℕ) → r ≤ j → j < length ks → test (get_or ks j 0) ≡ false)
    → suc r ≤ i
    → i < suc (length ks)
    → test (get_or (k ∷ ks) i 0) ≡ false
after_suc test k ks r zero a p q = absurd (omega arith)
after_suc test k ks r (suc i) a p q = a i (omega arith) (omega arith)

after_zero :
    (test : ℕ → Bool) (k : ℕ) (ks : List ℕ) (i : ℕ)
    → test k ≡ false
    → All (λ l. test l ≡ false) ks
    → i < suc (length ks)
    → test (get_or (k ∷ ks) i 0) ≡ false
after_zero test k ks zero h a p = h
after_zero test k ks (suc i) h a p = All-get (λ l. test l ≡ false) ks i a (omega arith)

pub lead-Splits :
    (test : ℕ → Bool) (ks : List ℕ)
    → IsDown test ks
    → Splits (λ i. test (get_or ks i 0)) (length ks) (lead test ks)
unfolding lead
lead-Splits test [] d = record {
  within = omega arith;
  before = λ i p. absurd (omega arith);
  after = λ i p q. absurd (omega arith);
}
lead-Splits test (k ∷ ks) d = elim (Bool-cases (test k)) [
  | inl holds ↦
      let r : Splits (λ i. test (get_or ks i 0)) (length ks) (lead test ks) =
        lead-Splits test ks d.1 in
      rw holds (record {
        within = omega (arith, r.within);
        before = λ i p. before_suc test k ks (lead test ks) i holds r.before p;
        after = λ i p q. after_suc test k ks (lead test ks) i r.after p q;
      })
  | inr fails ↦ rw fails (record {
    within = omega arith;
    before = λ i p. absurd (omega arith);
    after = λ i p q. after_zero test k ks i fails (d.0 fails) q;
  })
]

-- The keys that are less than `key`, and those that are at most `key`.
abbrev pub less : KeyComparator → ℕ → ℕ → Bool
less cmp key k = is_lt (cmp k key)

abbrev pub at_most : KeyComparator → ℕ → ℕ → Bool
at_most cmp key k = is_le (cmp k key)

module _ (cmp : KeyComparator) (o : IsOrder cmp) where
  -- What is at least `key` is followed by what is at least `key`.
  pub ge_later :
      (key k : ℕ) (ks : List ℕ)
      → is_lt (cmp k key) ≡ false
      → All (λ l. is_le (cmp k l) ≡ true) ks
      → All (λ l. is_lt (cmp l key) ≡ false) ks
  ge_later key k [] h a = tt
  ge_later key k (l ∷ ks) h a = (
    ground (arith, o.flipped k key, o.flipped l key, o.le_trans key k l, a.0),
    ge_later key k ks h a.1,
  )

  pub gt_later :
      (key k : ℕ) (ks : List ℕ)
      → is_le (cmp k key) ≡ false
      → All (λ l. is_le (cmp k l) ≡ true) ks
      → All (λ l. is_le (cmp l key) ≡ false) ks
  gt_later key k [] h a = tt
  gt_later key k (l ∷ ks) h a = (ground (arith, o.le_trans k l key, a.0), gt_later key k ks h a.1)

  pub less-IsDown : (key : ℕ) (ks : List ℕ) → IsSorted cmp ks → IsDown (less cmp key) ks
  less-IsDown key [] s = tt
  less-IsDown key (k ∷ ks) s = (λ h. ge_later key k ks h s.0, less-IsDown key ks s.1)

  pub at_most-IsDown : (key : ℕ) (ks : List ℕ) → IsSorted cmp ks → IsDown (at_most cmp key) ks
  at_most-IsDown key [] s = tt
  at_most-IsDown key (k ∷ ks) s = (λ h. gt_later key k ks h s.0, at_most-IsDown key ks s.1)

  pub find_key_position-lead :
      (key : ℕ) (n : LeafNode)
      → length n.keys ≡ n.num_keys
      → IsSorted cmp n.keys
      → find_key_position cmp key n ≡ lead (less cmp key) n.keys
  unfolding find_key_position
  find_key_position-lead key n e s = ap result_of (
      search_loop_unique (λ i. less cmp key (get_or n.keys i 0)) n.num_keys
        (lead (less cmp key) n.keys)
        (subst (λ m. Splits (λ i. less cmp key (get_or n.keys i 0)) m (lead (less cmp key) n.keys))
          e (lead-Splits (less cmp key) n.keys (less-IsDown key n.keys s))))

  pub find_child-lead :
      (key : ℕ) (n : InternalNode)
      → length n.keys ≡ n.num_keys
      → IsSorted cmp n.keys
      → find_child cmp key n ≡ lead (at_most cmp key) n.keys
  unfolding find_child
  find_child-lead key n e s = ap result_of (
      search_loop_unique (λ i. at_most cmp key (get_or n.keys i 0)) n.num_keys
        (lead (at_most cmp key) n.keys)
        (subst
          (λ m. Splits (λ i. at_most cmp key (get_or n.keys i 0)) m (lead (at_most cmp key) n.keys))
          e (lead-Splits (at_most cmp key) n.keys (at_most-IsDown key n.keys s))))
