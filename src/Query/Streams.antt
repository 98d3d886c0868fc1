-- ===== src/Query/Streams.antt =====
-- The pipelined executors hand out what the list functions give.
use court_db.Base.{
  ℕ, zero, suc, ◌+◌, ◌-◌, ◌<◌, ◌≡◌, refl, ap, subst, sym, ◌⊎◌, inl, inr, Bool, Option, none, some,
  List, [], ◌∷◌, map, arith, leb, if◌then◌else◌, length, u32, take, Bool-cases,
}
use court_db.Query.{
  Tuple, Executor, Produces, done, more, filter_next, filter_executor, projection_executor,
  projection_next, LimitState, limit_next, limit_executor, drain,
}

-- The elements that pass a test, in order.
abbrev pub filter_by {ℓ} : {A : Type ℓ} → (A → Bool) → List A → List A
filter_by p [] = []
filter_by p (x ∷ xs) = if p x then x ∷ filter_by p xs else filter_by p xs

module _ (child : Executor) (predicate : Tuple → Bool) where
  -- What one Next of the filter does when the child has `ts` to give.
  abbrev Filtered : Option Tuple × child.State → List Tuple → Type 0
  Filtered r ts =
      ((r.0 ≡ none) × (filter_by predicate ts ≡ []))
      ⊎ ((t : Tuple) × (rest : List Tuple) × (r.0 ≡ some t)
          × (filter_by predicate ts ≡ t ∷ filter_by predicate rest)
          × (length rest < length ts)
          × Produces child r.1 rest)

  filter_next-Filtered :
      (fuel : ℕ) {s : child.State} {ts : List Tuple}
      → Produces child s ts
      → length ts < fuel
      → Filtered (filter_next child predicate fuel s) ts
  unfolding filter_next
  filter_next-Filtered zero p h = absurd (omega arith)
  filter_next-Filtered (suc fuel) (done e) h = rw (e, filter_next) (inl (refl, refl))
  filter_next-Filtered (suc fuel) {s = s} (more {t = t} {ts = ts} e p) h =
      elim (Bool-cases (predicate t)) [
        | inl passes ↦ rw (e, filter_next, passes) (inr (t, ts, refl, refl, omega arith, p))
        | inr fails ↦ rw (e, filter_next, fails) (later (filter_next-Filtered fuel p (omega arith)))
      ]
    where
      later :
          Filtered (filter_next child predicate fuel (child.next s).1) ts
          → ((filter_next child predicate fuel (child.next s).1).0 ≡ none
              × (filter_by predicate ts ≡ []))
            ⊎ ((u : Tuple) × (rest : List Tuple) × ((filter_next child predicate fuel
                    (child.next s).1).0
                  ≡ some u)
                × (filter_by predicate ts ≡ u ∷ filter_by predicate rest)
                × (length rest < suc (length ts))
                × Produces child (filter_next child predicate fuel (child.next s).1).1 rest)
      later (inl q) = inl q
      later (inr (u, rest, a, b, c, d)) = inr (u, rest, a, b, omega arith, d)

  filter-Produces :
      (n fuel : ℕ) {s : child.State} {ts : List Tuple}
      → length ts < n
      → length ts < fuel
      → Produces child s ts
      → Produces (filter_executor child predicate fuel) s (filter_by predicate ts)
  filter-Produces zero fuel h f p = absurd (omega arith)
  filter-Produces (suc n) fuel {s = s} {ts = ts} h f p = elim (filter_next-Filtered fuel p f) [
    | inl (a, b) ↦ rw b (done a)
    | inr (t, rest, a, b, c, q) ↦
        rw b (more a (filter-Produces n fuel (omega arith) (omega arith) q))
  ]

  -- With fuel for one tuple more than the child gives, the filter gives exactly the child's tuples
  -- that pass the predicate, in order, and then ends.
  pub filter_executor-Produces :
      (fuel : ℕ) {s : child.State} {ts : List Tuple}
      → Produces child s ts
      → length ts < fuel
      → Produces (filter_executor child predicate fuel) s (filter_by predicate ts)
  filter_executor-Produces fuel {ts = ts} p h =
      filter-Produces (suc (length ts)) fuel (omega arith) h p

-- The projection gives the image of each tuple that the child gives, in order.
pub projection_executor-Produces :
    (child : Executor) (projection : Tuple → Tuple) {s : child.State} {ts : List Tuple}
    → Produces child s ts
    → Produces (projection_executor child projection) s (map projection ts)
unfolding projection_next
projection_executor-Produces child projection (done e) = done (rw (e, projection_next) refl)
projection_executor-Produces child projection {s = s} (more {t = t} {ts = ts} e p) =
    more (rw (e, projection_next) refl)
      (rw (e, projection_next) (projection_executor-Produces child projection p))

module _ (child : Executor) (limit : ℕ) (fits : limit < 4294967296) where
  limit-Produces :
      {s : child.State} {ts : List Tuple} (emitted : ℕ)
      → Produces child s ts
      → Produces
          (limit_executor child limit)
          (record { child = s; emitted = emitted })
          (take (limit - emitted) ts)
  unfolding limit_next
  limit-Produces emitted (done e) = elim (Bool-cases (leb limit emitted)) [
    | inl full ↦
        let z : limit - emitted ≡ 0 = ground arith in rw z (done (rw (limit_next, full) refl))
    | inr open_ ↦
        let z : limit - emitted ≡ suc (limit - emitted - 1) = ground arith in
        rw z (done (rw (limit_next, open_, e) refl))
  ]
  limit-Produces {s = s} emitted (more {t = t} {ts = ts} e p) =
      elim (Bool-cases (leb limit emitted)) [
        | inl full ↦
            let z : limit - emitted ≡ 0 = ground arith in rw z (done (rw (limit_next, full) refl))
        | inr open_ ↦
            let n : u32 (emitted + 1) ≡ emitted + 1 = ground arith in
            let z : limit - emitted ≡ suc (limit - (emitted + 1)) = ground arith in
            rw z (
              more (rw (limit_next, open_, e) refl)
                (rw (limit_next, open_, e, n) (limit-Produces (emitted + 1) p)))
      ]

  -- From its Init state on, the limit, which is below 2^32, gives the first `limit` tuples of the
  -- child.
  pub limit_executor-Produces :
      (s : LimitState child.State) {ts : List Tuple}
      → Produces child (child.init s.child) ts
      → Produces (limit_executor child limit) ((limit_executor child limit).init s) (take limit ts)
  limit_executor-Produces s {ts = ts} p =
      let z : limit ≡ limit - 0 = omega arith in
      subst
        (λ n.
          Produces (limit_executor child limit) ((limit_executor child limit).init s) (take n ts))
        (sym z) (limit-Produces 0 p)

-- Draining takes all that the child gives.
pub drain-Produces :
    (child : Executor) (fuel : ℕ) {s : child.State} {ts : List Tuple}
    → Produces child s ts
    → length ts < fuel
    → (drain child fuel s).0 ≡ ts
unfolding drain
drain-Produces child zero p h = absurd (omega arith)
drain-Produces child (suc fuel) (done e) h = rw (e, drain) refl
drain-Produces child (suc fuel) (more {t = t} e p) h =
    rw (e, drain) (ap (◌∷◌ t) (drain-Produces child fuel p (omega arith)))
