-- ===== src/Buffer/Frames.antt =====
-- The operations of `std::list` on frame numbers that the buffer pool uses, and how often a frame
-- occurs after each.
use court_db.Base.{
  ℕ, ◌+◌, ◌-◌, ◌≡◌, refl, Bool, true, false, ltb, List, [], ◌∷◌, ◌++◌, ◌==◌, if◌then◌else◌, arith,
}

unfoldable pub has : ℕ → List ℕ → Bool
has f [] = false
has f (g ∷ gs) = if f == g then true else has f gs

unfoldable pub erase : ℕ → List ℕ → List ℕ
erase f [] = []
erase f (g ∷ gs) = let rest = erase f gs in if f == g then gs else g ∷ rest

-- The last element of `f ∷ fs`, and what precedes it.
unfoldable pub back : ℕ → List ℕ → ℕ
back f [] = f
back f (g ∷ gs) = back g gs

pub pop_back : ℕ → List ℕ → List ℕ
pop_back f [] = []
pop_back f (g ∷ gs) = f ∷ pop_back g gs

abbrev pub one_if : Bool → ℕ
one_if true = 1
one_if false = 0

unfoldable pub count : ℕ → List ℕ → ℕ
count f [] = 0
count f (g ∷ gs) = one_if (f == g) + count f gs

pub count-append : (f : ℕ) (xs ys : List ℕ) → count f (xs ++ ys) ≡ count f xs + count f ys
unfolding count
count-append f [] ys = omega arith
count-append f (x ∷ xs) ys = omega (arith, count-append f xs ys)

pub count-erase : (f g : ℕ) (xs : List ℕ) → count f (erase g xs) ≡ count f xs - one_if (f == g)
unfolding count erase
count-erase f g [] = ground arith
count-erase f g (x ∷ xs) = ground (arith, count-erase f g xs)

pub count-pop_back :
    (f g : ℕ) (gs : List ℕ) → count f (pop_back g gs) + one_if (f == back g gs) ≡ count f (g ∷ gs)
unfolding count back pop_back
count-pop_back f g [] = ground arith
count-pop_back f g (x ∷ xs) = omega (arith, count-pop_back f x xs)

pub has-count : (f : ℕ) (xs : List ℕ) → has f xs ≡ ltb 0 (count f xs)
unfolding count has
has-count f [] = refl
has-count f (x ∷ xs) = ground (arith, has-count f xs)
