-- ===== src/Query/Aggregate/Groups.antt =====
-- The groups that the aggregation loop of src/query/executor.cpp builds.
use court_db.Base.{
  ℕ, ◌≡◌, refl, ap, ◌∙◌, inl, inr, Bool, true, false, Option, none, some, List, [], ◌∷◌, arith,
  if◌then◌else◌, Bool-cases,
}
use court_db.Query.{Tuple}
use court_db.Query.Streams.{filter_by}
use court_db.Query.Aggregate.{
  DoubleOps, AggSpec, GroupAccumulator, or_empty, accumulate, Groups, find_group, update_group,
  group_all, eq_bytes,
}

pub eq_bytes_iff :
    (xs ys : List ℕ) → (eq_bytes xs ys ≡ true → xs ≡ ys) × (xs ≡ ys → eq_bytes xs ys ≡ true)
unfolding eq_bytes
eq_bytes_iff [] [] = (λ h. refl, λ h. refl)
eq_bytes_iff [] (y ∷ ys) = (λ h. cc, λ h. cc)
eq_bytes_iff (x ∷ xs) [] = (λ h. cc, λ h. cc)
eq_bytes_iff (x ∷ xs) (y ∷ ys) =
    (λ h. ground (arith, (eq_bytes_iff xs ys).0), λ h. ground (arith, (eq_bytes_iff xs ys).1))

module _ (d : DoubleOps) where
  -- The accumulator that the tuples of a group alone give, in their order.
  unfoldable pub accumulate_all :
      List (AggSpec d) → Option (GroupAccumulator d) → List Tuple → Option (GroupAccumulator d)
  accumulate_all specs o [] = o
  accumulate_all specs o (t ∷ ts) =
      accumulate_all specs (some (accumulate d specs (or_empty d o) t)) ts

  find_group-update_group :
      (specs : List (AggSpec d)) (j k : List ℕ) (t : Tuple) (groups : Groups d)
      → find_group d k (update_group d specs j t groups) ≡ (
          if eq_bytes j k
          then some (accumulate d specs (or_empty d (find_group d k groups)) t)
          else find_group d k groups)
  unfolding find_group update_group
  find_group-update_group specs j k t [] = refl
  find_group-update_group specs j k t ((i, acc) ∷ groups) = ground (
    arith,
    eq_bytes_iff i j,
    eq_bytes_iff i k,
    eq_bytes_iff j k,
    find_group-update_group specs j k t groups,
  )

  find_group-group_all :
      (specs : List (AggSpec d)) (key : Tuple → List ℕ) (k : List ℕ) (ts : List Tuple)
      (groups : Groups d)
      → find_group d k (group_all d specs key ts groups)
        ≡ accumulate_all specs (find_group d k groups) (filter_by (λ t. eq_bytes (key t) k) ts)
  unfolding group_all accumulate_all
  find_group-group_all specs key k [] groups = refl
  find_group-group_all specs key k (t ∷ ts) groups = elim (Bool-cases (eq_bytes (key t) k)) [
    | inl e ↦
        let found : find_group d k (update_group d specs (key t) t groups)
            ≡ some (accumulate d specs (or_empty d (find_group d k groups)) t) =
          find_group-update_group specs (key t) k t groups ∙ chosen e _ _ in
        rw e (
          find_group-group_all specs key k ts (update_group d specs (key t) t groups)
          ∙ ap (λ o. accumulate_all specs o (filter_by (λ u. eq_bytes (key u) k) ts)) found)
    | inr e ↦
        let found : find_group d k (update_group d specs (key t) t groups) ≡ find_group d k groups =
          find_group-update_group specs (key t) k t groups ∙ passed_over e _ _ in
        rw e (
          find_group-group_all specs key k ts (update_group d specs (key t) t groups)
          ∙ ap (λ o. accumulate_all specs o (filter_by (λ u. eq_bytes (key u) k) ts)) found)
  ]
    where
      chosen :
          {b : Bool} → b ≡ true → (x y : Option (GroupAccumulator d)) → (if b then x else y) ≡ x
      chosen e x y = rw e refl

      passed_over :
          {b : Bool} → b ≡ false → (x y : Option (GroupAccumulator d)) → (if b then x else y) ≡ y
      passed_over e x y = rw e refl

  find_group-nil : (k : List ℕ) → find_group d k [] ≡ none
  unfolding find_group
  find_group-nil k = refl

  -- After the loop, the group of a key has the accumulator that the tuples with that key give alone.
  pub find_group-own :
      (specs : List (AggSpec d)) (key : Tuple → List ℕ) (k : List ℕ) (ts : List Tuple)
      → find_group d k (group_all d specs key ts [])
        ≡ accumulate_all specs none (filter_by (λ t. eq_bytes (key t) k) ts)
  find_group-own specs key k ts =
      find_group-group_all specs key k ts []
      ∙ ap (λ o. accumulate_all specs o (filter_by (λ t. eq_bytes (key t) k) ts)) (find_group-nil k)
