-- ===== src/Query/Sorting.antt =====
-- The blocking executors: sort and top-N.
use mathlib.Core.List.{Perm}
use native.Mathlib.Nat.{le_refl}
use court_db.Base.{
  ℕ, zero, suc, ◌+◌, ◌≤◌, ◌<◌, ◌≡◌, refl, ap, sym, ◌∙◌, inl, inr, Bool, List, [], ◌∷◌, arith, ltb,
  if◌then◌else◌, length, u32, min, take, drop, drop_suc, drop_past, get_elem?, Bool-cases,
  Option-cases,
}
use court_db.Base.Sort.{sort, sort-perm, sort-IsSorted, length-sort, IsSorted, IsStrictWeakOrder}
use court_db.Query.{
  Tuple, Executor, Produces, done, more, Materialized, materialized_next, sort_executor, sort_init,
  top_n_executor, top_n_init,
}
use court_db.Query.Streams.{drain-Produces}

-- An executor that hands out a vector it holds, whatever its Init.
abbrev Holder : {S : Type 0} → (Materialized S → Materialized S) → Executor
Holder {S} init = record { State = Materialized S; init = init; next = materialized_next }

holder-Produces :
    {S : Type 0} (init : Materialized S → Materialized S) (n : ℕ) (s : Materialized S)
    → length (drop s.current_idx s.tuples) ≤ n
    → Produces (Holder init) s (drop s.current_idx s.tuples)
unfolding materialized_next
holder-Produces init zero s h = elim (Option-cases (get_elem? s.tuples s.current_idx)) [
  | inl e ↦ rw (drop_past s.tuples s.current_idx e) (done (rw (materialized_next, e) refl))
  | inr (t, e) ↦ absurd (omega (arith, ap length (drop_suc s.tuples s.current_idx t e)))
]
holder-Produces init (suc n) s h = elim (Option-cases (get_elem? s.tuples s.current_idx)) [
  | inl e ↦ rw (drop_past s.tuples s.current_idx e) (done (rw (materialized_next, e) refl))
  | inr (t, e) ↦ rw (drop_suc s.tuples s.current_idx t e) (
      more (rw (materialized_next, e) refl) (
        rw (materialized_next, e)
          (holder-Produces init n (record s { current_idx = s.current_idx + 1 })
            (omega (arith, ap length (drop_suc s.tuples s.current_idx t e))))))
]

take_min : (n m : ℕ) (xs : List Tuple) → length xs ≡ m → take (min n m) xs ≡ take n xs
take_min zero m xs h = rw (min_zero m) refl
  where
    min_zero : (m : ℕ) → min 0 m ≡ 0
    min_zero m = omega arith
take_min (suc n) m [] h = take_nil (min (suc n) m)
  where
    take_nil : (k : ℕ) → take {A = Tuple} k [] ≡ []
    take_nil zero = refl
    take_nil (suc k) = refl
take_min (suc n) zero (x ∷ xs) h = absurd (omega arith)
take_min (suc n) (suc m) (x ∷ xs) h =
    let e : min (suc n) (suc m) ≡ suc (min n m) = omega arith in
    rw e (ap (◌∷◌ x) (take_min n m xs (omega arith)))

-- What TopN keeps of the sorted tuples.
top_k :
    (limit n : ℕ) (xs : List Tuple)
    → length xs ≡ n
    → n < 4294967296
    → (if ltb 0 (min limit (u32 n)) then take (min limit (u32 n)) xs else []) ≡ take limit xs
top_k limit n xs h fits =
    let e : u32 n ≡ n = omega arith in
    rw e (elim (Bool-cases (ltb 0 (min limit n))) [
      | inl pos ↦ rw pos (take_min limit n xs h)
      | inr neg ↦
          let z : min limit n ≡ 0 = ground arith in
          rw neg (ap (λ k. take k xs) (sym z) ∙ take_min limit n xs h)
    ])

module _ (child : Executor) (comparator : Tuple → Tuple → Bool)
    (order : IsStrictWeakOrder comparator) (fuel : ℕ) (s : Materialized child.State)
    {ts : List Tuple} (input : Produces child (child.init s.child) ts)
    (enough : length ts < fuel) where
  -- From its Init state on, with fuel for one tuple more than the child gives and a comparator
  -- that is a strict weak order, the sort gives a permutation of the child's tuples in which no
  -- tuple comes before one that the comparator puts first.
  pub sort_executor-Produces :
      (us : List Tuple) × Produces
        (sort_executor child comparator fuel)
        ((sort_executor child comparator fuel).init s)
        us
      × Perm us ts
      × IsSorted comparator us
  unfolding sort_init
  sort_executor-Produces = (
    sort comparator ts,
    rw (drain-Produces child fuel input enough) (
        holder-Produces (sort_init child comparator fuel) (length (sort comparator ts)) _
          (omega arith)),
    sort-perm comparator ts,
    sort-IsSorted comparator order ts,
  )

  -- From its Init state on, with fuel for one tuple more than the child gives, fewer than 2^32 of
  -- them, and a comparator that is a strict weak order, top-N gives the first `limit` tuples of a
  -- permutation of the child's tuples in which no tuple comes before one that the comparator puts
  -- first.
  pub top_n_executor-Produces :
      (limit : ℕ)
      → length ts < 4294967296
      → (us : List Tuple) × Produces
          (top_n_executor child comparator limit fuel)
          ((top_n_executor child comparator limit fuel).init s)
          (take limit us)
        × Perm us ts
        × IsSorted comparator us
  unfolding top_n_init
  top_n_executor-Produces limit fits = (
    sort comparator ts,
    rw (drain-Produces child fuel input enough) (
        rw (← top_k limit (length ts) (sort comparator ts) (length-sort comparator ts) fits)
          (holder-Produces (top_n_init child comparator limit fuel) _ _ (le_refl _))),
    sort-perm comparator ts,
    sort-IsSorted comparator order ts,
  )
