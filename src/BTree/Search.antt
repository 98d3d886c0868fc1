-- ===== src/BTree/Search.antt =====
-- The binary searches of src/index/btree.cpp.
use court_db.Base.{
  ℕ, zero, suc, ◌+◌, ◌-◌, ◌/◌, ◌≤◌, ◌<◌, ◌≡◌, refl, ap, ◌∙◌, Bool, true, false, some, ltb, arith,
  inl, inr, Bool-cases,
}
use court_db.BTree.{search_loop}

-- `r` splits the indices below `n` into those where the test holds and those where it does not.
pub record Splits (test : ℕ → Bool) (n r : ℕ) : Type 0 where
  pub within : r ≤ n
  pub before : (i : ℕ) → i < r → test i ≡ true
  pub after : (i : ℕ) → r ≤ i → i < n → test i ≡ false

-- With fuel for a round for each index and one more, the loop ends, at the split point, which it keeps
-- between `lo` and `hi`.
narrowed :
    (fuel : ℕ) (test : ℕ → Bool) (n lo hi : ℕ)
    → ((i j : ℕ) → i ≤ j → j < n → test j ≡ true → test i ≡ true)
    → lo ≤ hi
    → hi ≤ n
    → hi < lo + fuel
    → ((i : ℕ) → i < lo → test i ≡ true)
    → ((i : ℕ) → hi ≤ i → i < n → test i ≡ false)
    → (r : ℕ) × (search_loop fuel test lo hi ≡ some r) × Splits test n r
unfolding search_loop
narrowed zero test n lo hi mono le top f below above = absurd (omega arith)
narrowed (suc fuel) test n lo hi mono le top f below above = elim (Bool-cases (ltb lo hi)) [
  | inr done ↦ (
    lo,
    rw done refl,
    record { within = omega arith; before = below; after = λ i p q. above i (ground arith) q },
  )
  | inl more ↦ elim (Bool-cases (test (lo + (hi - lo) / 2))) [
    | inl holds ↦
        rw (more, holds)
          (narrowed fuel test n (lo + (hi - lo) / 2 + 1) hi mono (ground arith) top (ground arith)
            (λ i p. mono i (lo + (hi - lo) / 2) (omega arith) (ground arith) holds) above)
    | inr fails ↦
        rw (more, fails)
          (narrowed fuel test n lo (lo + (hi - lo) / 2) mono (ground arith) (ground arith)
            (ground arith) below
            (λ i p q. elim (Bool-cases (test i)) [
              | inl e ↦ cc (mono (lo + (hi - lo) / 2) i p q e)
              | inr e ↦ e
            ]))
  ]
]

-- Where a test that holds at an index holds at all before it, the binary search ends, with fuel
-- for a round for each index and one more, and returns the split point: the test holds at every
-- index below it and at none from it on.
pub search_loop-Splits :
    (test : ℕ → Bool) (n : ℕ)
    → ((i j : ℕ) → i ≤ j → j < n → test j ≡ true → test i ≡ true)
    → (r : ℕ) × (search_loop (suc n) test 0 n ≡ some r) × Splits test n r
search_loop-Splits test n mono =
    narrowed (suc n) test n 0 n mono (omega arith) (omega arith) (omega arith)
      (λ i p. absurd (omega arith)) (λ i p q. absurd (omega arith))

pub Splits-unique : (test : ℕ → Bool) (n r s : ℕ) → Splits test n r → Splits test n s → r ≡ s
Splits-unique test n r s p q =
    ground (arith, p.within, q.within, p.before s, p.after r, q.before r, q.after s)

-- The search returns the split point, where there is one.
pub search_loop_unique :
    (test : ℕ → Bool) (n r : ℕ) → Splits test n r → search_loop (suc n) test 0 n ≡ some r
search_loop_unique test n r s =
    let (k, e, t) =
      search_loop-Splits test n (λ i j p q h. ground (arith, s.before i, s.after j)) in
    e ∙ ap some (Splits-unique test n k r t s)
