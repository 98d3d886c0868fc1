-- ===== src/Base/Sort.antt =====
-- Sorting by a comparator `lt`. std::sort returns some permutation in which no element comes before a
-- smaller one; insertion sort computes one of them.
use mathlib.Core.List.{Perm}
use mathlib.Core.List.Perm
use court_db.Base.{
  suc, ◌≡◌, refl, ap, ◌∙◌, ◌⊎◌, inl, inr, Bool, true, false, List, [], ◌∷◌, arith, if◌then◌else◌,
  length, All, Bool-cases,
}

module _ {A : Type 0} where
  pub insert_sorted : (A → A → Bool) → A → List A → List A
  insert_sorted lt x [] = x ∷ []
  insert_sorted lt x (y ∷ ys) = if lt x y then x ∷ y ∷ ys else y ∷ insert_sorted lt x ys

  pub sort : (A → A → Bool) → List A → List A
  sort lt [] = []
  sort lt (x ∷ xs) = insert_sorted lt x (sort lt xs)

  -- No later element is smaller than an earlier one.
  abbrev pub IsSorted : (A → A → Bool) → List A → Type 0
  IsSorted lt [] = Unit
  IsSorted lt (x ∷ xs) = All (λ y. lt y x ≡ false) xs × IsSorted lt xs

  -- A strict weak order: what std::sort and std::partial_sort require.
  pub record IsStrictWeakOrder (lt : A → A → Bool) : Type 0 where
    pub asym : (x y : A) → lt x y ≡ true → lt y x ≡ false
    pub trans : (x y z : A) → lt x y ≡ true → lt y z ≡ true → lt x z ≡ true
    pub weak : (x y z : A) → lt x y ≡ false → lt y z ≡ false → lt x z ≡ false

  pub All-insert_sorted :
      (P : A → Type 0) (lt : A → A → Bool) (x : A) (ys : List A)
      → P x
      → All P ys
      → All P (insert_sorted lt x ys)
  unfolding insert_sorted
  All-insert_sorted P lt x [] h hs = (h, tt)
  All-insert_sorted P lt x (y ∷ ys) h hs = elim (Bool-cases (lt x y)) [
    | inl e ↦ rw e (h, hs)
    | inr e ↦ rw e (hs.0, All-insert_sorted P lt x ys h hs.1)
  ]

  pub All-sort : (P : A → Type 0) (lt : A → A → Bool) (xs : List A) → All P xs → All P (sort lt xs)
  unfolding sort
  All-sort P lt [] h = tt
  All-sort P lt (x ∷ xs) h = All-insert_sorted P lt x (sort lt xs) h.0 (All-sort P lt xs h.1)

  insert_sorted-perm :
      (lt : A → A → Bool) (x : A) (ys : List A) → Perm (insert_sorted lt x ys) (x ∷ ys)
  unfolding insert_sorted
  insert_sorted-perm lt x [] = Perm.refl (x ∷ [])
  insert_sorted-perm lt x (y ∷ ys) = elim (Bool-cases (lt x y)) [
    | inl e ↦ rw e (Perm.refl (x ∷ y ∷ ys))
    | inr e ↦ rw e (Perm.trans (Perm.cons y (insert_sorted-perm lt x ys)) (Perm.swap x y ys))
  ]

  pub sort-perm : (lt : A → A → Bool) (xs : List A) → Perm (sort lt xs) xs
  unfolding sort
  sort-perm lt [] = Perm.refl []
  sort-perm lt (x ∷ xs) =
      Perm.trans (insert_sorted-perm lt x (sort lt xs)) (Perm.cons x (sort-perm lt xs))

  length-insert_sorted :
      (lt : A → A → Bool) (x : A) (ys : List A) → length (insert_sorted lt x ys) ≡ suc (length ys)
  unfolding insert_sorted
  length-insert_sorted lt x [] = refl
  length-insert_sorted lt x (y ∷ ys) = ground (arith, length-insert_sorted lt x ys)

  pub length-sort : (lt : A → A → Bool) (xs : List A) → length (sort lt xs) ≡ length xs
  unfolding sort
  length-sort lt [] = refl
  length-sort lt (x ∷ xs) = length-insert_sorted lt x (sort lt xs) ∙ ap suc (length-sort lt xs)

  module _ (lt : A → A → Bool) (o : IsStrictWeakOrder lt) where
    smaller-All :
        (x y : A) (ys : List A)
        → lt x y ≡ true
        → All (λ z. lt z y ≡ false) ys
        → All (λ z. lt z x ≡ false) ys
    smaller-All x y [] h hs = tt
    smaller-All x y (z ∷ zs) h hs = (below (Bool-cases (lt z x)), smaller-All x y zs h hs.1)
      where
        below : (lt z x ≡ true) ⊎ (lt z x ≡ false) → lt z x ≡ false
        below (inl e) = ground (arith, o.trans z x y e h, hs.0)
        below (inr e) = e

    insert_sorted-IsSorted :
        (x : A) (ys : List A) → IsSorted lt ys → IsSorted lt (insert_sorted lt x ys)
    unfolding insert_sorted
    insert_sorted-IsSorted x [] h = (tt, tt)
    insert_sorted-IsSorted x (y ∷ ys) h = elim (Bool-cases (lt x y)) [
      | inl e ↦ rw e ((o.asym x y e, smaller-All x y ys e h.0), h)
      | inr e ↦
          rw e
            (All-insert_sorted (λ z. lt z y ≡ false) lt x ys e h.0, insert_sorted-IsSorted x ys h.1)
    ]

    pub sort-IsSorted : (xs : List A) → IsSorted lt (sort lt xs)
    unfolding sort
    sort-IsSorted [] = tt
    sort-IsSorted (x ∷ xs) = insert_sorted-IsSorted x (sort lt xs) (sort-IsSorted xs)
