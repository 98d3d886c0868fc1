-- ===== src/Buffer/Recency.antt =====
-- The LRU replacer of src/buffer/buffer_pool_manager.cpp against the history of the accesses.
use court_db.Base.{
  ℕ, suc, ◌≤◌, ◌<◌, ◌≡◌, refl, ap, subst, sym, inl, inr, true, false, List, [], ◌∷◌, ◌==◌,
  if◌then◌else◌, arith, All, Bool-cases, ==_iff,
}
use court_db.Buffer.{LruReplacer, record_access, evict}
use court_db.Buffer.Frames.{has, erase, back, count, has-count, count-erase}
use court_db.Buffer.Invariant.{Holds, record_access-Holds, evict_cases}

-- A replacer after a run of accesses, of which the last comes first.
unfoldable pub replay : List ℕ → LruReplacer
replay [] = record { lru_list = []; frame_map = [] }
replay (f ∷ fs) = record_access f (replay fs)

-- How many accesses came after the last one of a frame.
unfoldable pub age : ℕ → List ℕ → ℕ
age f [] = 0
age f (g ∷ gs) = let rest = age f gs in if f == g then 0 else suc rest

InOrder : List ℕ → List ℕ → Type 0
InOrder hs [] = Unit
InOrder hs (x ∷ xs) = All (λ y. age x hs < age y hs) xs × InOrder hs xs

replay-Holds : (hs : List ℕ) → Holds (replay hs) (λ g. has g hs)
unfolding replay has count
replay-Holds [] = record { listed = λ f. refl; keyed = λ f. refl }
replay-Holds (f ∷ hs) = record_access-Holds f (replay hs) (λ g. has g hs) (replay-Holds hs)

younger :
    (f x : ℕ) (hs xs : List ℕ)
    → (x == f) ≡ false
    → count f xs ≡ 0
    → All (λ y. age x hs < age y hs) xs
    → All (λ y. age x (f ∷ hs) < age y (f ∷ hs)) xs
unfolding count age
younger f x hs [] ne h a = tt
younger f x hs (y ∷ ys) ne h a = (ground arith, younger f x hs ys ne (ground arith) a.1)

youngest : (f : ℕ) (hs xs : List ℕ) → count f xs ≡ 0 → All (λ y. age f (f ∷ hs) < age y (f ∷ hs)) xs
unfolding count age
youngest f hs [] h = tt
youngest f hs (y ∷ ys) h = (ground arith, youngest f hs ys (ground arith))

InOrder-access : (f : ℕ) (hs xs : List ℕ) → count f xs ≡ 0 → InOrder hs xs → InOrder (f ∷ hs) xs
unfolding InOrder count
InOrder-access f hs [] h o = tt
InOrder-access f hs (x ∷ xs) h o =
    (younger f x hs xs (ground arith) (ground arith) o.0, InOrder-access f hs xs (ground arith) o.1)

All-erase : (P : ℕ → Type 0) (f : ℕ) (xs : List ℕ) → All P xs → All P (erase f xs)
unfolding erase
All-erase P f [] a = tt
All-erase P f (x ∷ xs) a = elim (Bool-cases (f == x)) [
  | inl e ↦ rw e a.1
  | inr e ↦ rw e (a.0, All-erase P f xs a.1)
]

InOrder-erase : (f : ℕ) (hs xs : List ℕ) → InOrder hs xs → InOrder hs (erase f xs)
unfolding InOrder erase
InOrder-erase f hs [] o = tt
InOrder-erase f hs (x ∷ xs) o = elim (Bool-cases (f == x)) [
  | inl e ↦ rw e o.1
  | inr e ↦ rw e (All-erase (λ y. age x hs < age y hs) f xs o.0, InOrder-erase f hs xs o.1)
]

replay-InOrder : (hs : List ℕ) → InOrder hs (replay hs).lru_list
unfolding replay record_access InOrder
replay-InOrder [] = tt
replay-InOrder (f ∷ hs) =
    let r : Holds (replay hs) (λ g. has g hs) = replay-Holds hs in
    let l : List ℕ = (replay hs).lru_list in
    elim (Bool-cases (has f (replay hs).frame_map)) [
      | inl e ↦
          let once : count f (erase f l) ≡ 0 = ground (arith, r.listed f, count-erase f f l) in
          rw e (
            youngest f hs (erase f l) once,
            InOrder-access f hs (erase f l) once (InOrder-erase f hs l (replay-InOrder hs)),
          )
      | inr e ↦
          let absent : count f l ≡ 0 =
            ground (arith, r.listed f, r.keyed f, has-count f (replay hs).frame_map) in
          rw e (youngest f hs l absent, InOrder-access f hs l absent (replay-InOrder hs))
    ]

back_oldest :
    (hs : List ℕ) (x : ℕ) (xs : List ℕ)
    → InOrder hs (x ∷ xs)
    → All (λ y. age y hs ≤ age (back x xs) hs) (x ∷ xs)
unfolding InOrder back
back_oldest hs x [] o = (omega arith, tt)
back_oldest hs x (y ∷ ys) o =
    let later : _ = back_oldest hs y ys o.1 in (omega (arith, o.0.0, later.0), later)

All-count : (P : ℕ → Type 0) (g : ℕ) (xs : List ℕ) → All P xs → 1 ≤ count g xs → P g
unfolding count
All-count P g [] a h = absurd (omega arith)
All-count P g (x ∷ xs) a h = elim (Bool-cases (g == x)) [
  | inl e ↦ subst P (sym ((==_iff g x).0 e)) a.0
  | inr e ↦ All-count P g xs a.1 (ground arith)
]

back-count : (x : ℕ) (xs : List ℕ) → 1 ≤ count (back x xs) (x ∷ xs)
unfolding count back
back-count x [] = ground arith
back-count x (y ∷ ys) = ground (arith, back-count y ys)

-- After any run of accesses to an empty replacer in which there was one, Evict returns a frame
-- that was accessed, and whose last access is at least as long ago as that of every frame that
-- was.
pub evict-replay :
    (hs : List ℕ) (g : ℕ)
    → has g hs ≡ true
    → (has (evict (replay hs)).0 hs ≡ true) × (age g hs ≤ age (evict (replay hs)).0 hs)
unfolding count
evict-replay hs g h =
    let r : Holds (replay hs) (λ f. has f hs) = replay-Holds hs in
    let held : 1 ≤ count g (replay hs).lru_list = ground (arith, r.listed g) in
    elim (evict_cases (replay hs)) [
      | inl (empty, e) ↦ absurd (omega (arith, held, ap (count g) empty))
      | inr (x, xs, some_frames, e) ↦ rw e (
        (let last : 1 ≤ count (back x xs) (replay hs).lru_list = rw some_frames (back-count x xs) in
            ground (arith, r.listed (back x xs))),
        All-count (λ y. age y hs ≤ age (back x xs) hs) g (x ∷ xs)
            (back_oldest hs x xs (subst (InOrder hs) some_frames (replay-InOrder hs)))
            (subst (λ l. 1 ≤ count g l) some_frames held),
      )
    ]
