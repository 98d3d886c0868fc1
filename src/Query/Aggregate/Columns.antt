-- ===== src/Query/Aggregate/Columns.antt =====
-- The groups of the aggregation of src/query/executor.cpp, column by column: what each aggregate has of
-- all values of its column.
use court_db.Base.{
  ℕ, ◌+◌, ◌<◌, ◌≤◌, ◌≡◌, refl, sym, ap, ◌∙◌, Bool, Option, none, some, List, [], ◌∷◌, map, arith,
  if◌then◌else◌, length, u64,
}
use court_db.Query.{Tuple, Executor, drain, Produces}
use court_db.Query.Streams.{filter_by, drain-Produces}
use court_db.Query.Aggregate.{
  DoubleOps, AggSpec, Cell, GroupAccumulator, initial_cell, accumulate, update_cells, sized_cells,
  find_group, group_all, eq_bytes,
}
use court_db.Query.Aggregate.Groups.{accumulate_all, find_group-own}

module _ (d : DoubleOps) where
  open d use {Double, zero_point, lowest, highest, add, less}

  -- The sum of a column, in its order, its least value and its greatest one.
  abbrev pub total : Double → List Double → Double
  total x [] = x
  total x (v ∷ vs) = total (add x v) vs

  abbrev pub least : Double → List Double → Double
  least x [] = x
  least x (v ∷ vs) = least (if less v x then v else x) vs

  abbrev pub greatest : Double → List Double → Double
  greatest x [] = x
  greatest x (v ∷ vs) = greatest (if less x v then v else x) vs

  abbrev summary : AggSpec d → Cell d → List Tuple → Cell d
  summary spec c ts = record {
    sum = total c.sum (map spec.value_extractor ts);
    min = least c.min (map spec.value_extractor ts);
    max = greatest c.max (map spec.value_extractor ts);
  }

  abbrev pub column_cell : List Tuple → AggSpec d → Cell d
  column_cell ts spec = record {
    sum = total zero_point (map spec.value_extractor ts);
    min = least highest (map spec.value_extractor ts);
    max = greatest lowest (map spec.value_extractor ts);
  }

  -- The group of these tuples; without tuples there is none.
  abbrev pub group_of : List (AggSpec d) → List Tuple → Option (GroupAccumulator d)
  group_of specs [] = none
  group_of specs (t ∷ ts) =
      some (record { count = length (t ∷ ts); cells = map (column_cell (t ∷ ts)) specs })

  summaries : List (AggSpec d) → List (Cell d) → List Tuple → List (Cell d)
  summaries [] cs ts = []
  summaries (spec ∷ specs) [] ts = []
  summaries (spec ∷ specs) (c ∷ cs) ts = summary spec c ts ∷ summaries specs cs ts

  length-update_cells :
      (specs : List (AggSpec d)) (t : Tuple) (cs : List (Cell d))
      → length cs ≡ length specs
      → length (update_cells d specs t cs) ≡ length specs
  unfolding update_cells
  length-update_cells [] t cs h = h
  length-update_cells (spec ∷ specs) t [] h = absurd (omega arith)
  length-update_cells (spec ∷ specs) t (c ∷ cs) h =
      omega (arith, length-update_cells specs t cs (omega arith))

  summaries-update_cells :
      (specs : List (AggSpec d)) (t : Tuple) (cs : List (Cell d)) (ts : List Tuple)
      → summaries specs (update_cells d specs t cs) ts ≡ summaries specs cs (t ∷ ts)
  unfolding summaries update_cells
  summaries-update_cells [] t cs ts = refl
  summaries-update_cells (spec ∷ specs) t [] ts = refl
  summaries-update_cells (spec ∷ specs) t (c ∷ cs) ts =
      ap (λ xs. summary spec c (t ∷ ts) ∷ xs) (summaries-update_cells specs t cs ts)

  summaries-nil :
      (specs : List (AggSpec d)) (cs : List (Cell d))
      → length cs ≡ length specs
      → summaries specs cs [] ≡ cs
  unfolding summaries
  summaries-nil [] [] h = refl
  summaries-nil [] (c ∷ cs) h = absurd (omega arith)
  summaries-nil (spec ∷ specs) [] h = absurd (omega arith)
  summaries-nil (spec ∷ specs) (c ∷ cs) h = ap (λ xs. c ∷ xs) (summaries-nil specs cs (omega arith))

  sized_cells-same :
      (specs : List (AggSpec d)) (cs : List (Cell d))
      → length cs ≡ length specs
      → sized_cells d specs cs ≡ cs
  unfolding sized_cells
  sized_cells-same [] [] h = refl
  sized_cells-same (spec ∷ specs) [] h = absurd (omega arith)
  sized_cells-same specs (c ∷ cs) h = refl

  accumulate_all-summaries :
      (specs : List (AggSpec d)) (n : ℕ) (cs : List (Cell d)) (ts : List Tuple)
      → length cs ≡ length specs
      → n + length ts < 18446744073709551616
      → accumulate_all d specs (some (record { count = n; cells = cs })) ts
        ≡ some (record { count = n + length ts; cells = summaries specs cs ts })
  unfolding accumulate_all accumulate
  accumulate_all-summaries specs n cs [] h f =
      let z : n ≡ n + 0 = omega arith in
      λ i. some (record { count = z i; cells = sym (summaries-nil specs cs h) i })
  accumulate_all-summaries specs n cs (t ∷ ts) h f =
      let z : u64 (n + 1) ≡ n + 1 = omega arith in
      let y : n + 1 + length ts ≡ n + length (t ∷ ts) = omega arith in
      rw (z, sized_cells-same specs cs h)
        (accumulate_all-summaries specs (n + 1) (update_cells d specs t cs) ts
            (length-update_cells specs t cs h) (omega arith)
          ∙ (λ i. some (record { count = y i; cells = summaries-update_cells specs t cs ts i })))

  length-initial :
      (specs : List (AggSpec d)) → length (map (λ _. initial_cell d) specs) ≡ length specs
  length-initial [] = refl
  length-initial (spec ∷ specs) = omega (arith, length-initial specs)

  summaries-initial :
      (specs : List (AggSpec d)) (ts : List Tuple)
      → summaries specs (map (λ _. initial_cell d) specs) ts ≡ map (column_cell ts) specs
  unfolding summaries
  summaries-initial [] ts = refl
  summaries-initial (spec ∷ specs) ts =
      ap (λ xs. column_cell ts spec ∷ xs) (summaries-initial specs ts)

  accumulate_all-group_of :
      (specs : List (AggSpec d)) (ts : List Tuple)
      → length ts < 18446744073709551616
      → accumulate_all d specs none ts ≡ group_of specs ts
  unfolding accumulate_all accumulate sized_cells
  accumulate_all-group_of specs [] f = refl
  accumulate_all-group_of specs (t ∷ ts) f =
      let initial = map (λ _. initial_cell d) specs in
      let y : 1 + length ts ≡ length (t ∷ ts) = omega arith in
      accumulate_all-summaries specs 1 (update_cells d specs t initial) ts
        (length-update_cells specs t initial (length-initial specs)) (omega arith)
      ∙ (λ i. some (record {
        count = y i;
        cells = (summaries-update_cells specs t initial ts ∙ summaries-initial specs (t ∷ ts)) i;
      }))

  length-filter_by : (p : Tuple → Bool) (ts : List Tuple) → length (filter_by p ts) ≤ length ts
  length-filter_by p [] = omega arith
  length-filter_by p (t ∷ ts) = ground (arith, length-filter_by p ts)

  -- After the aggregation loop over all tuples of the child, fewer than 2^64 of them and with fuel
  -- for one more than their number: there is a group for a key where a tuple has it, it counts the
  -- tuples with that key, and has for each aggregate the sum, the least and the greatest value of
  -- its column in these tuples, taken in their order and starting from 0, the highest and the
  -- lowest `double`.
  pub group_all-drain :
      (child : Executor) (specs : List (AggSpec d)) (key : Tuple → List ℕ) (k : List ℕ) (fuel : ℕ)
      {s : child.State} {ts : List Tuple}
      → Produces child (child.init s) ts
      → length ts < fuel
      → length ts < 18446744073709551616
      → find_group d k (group_all d specs key (drain child fuel (child.init s)).0 [])
        ≡ group_of specs (filter_by (λ t. eq_bytes (key t) k) ts)
  group_all-drain child specs key k fuel {ts = ts} p h f = rw (drain-Produces child fuel p h) (
      find_group-own d specs key k ts
      ∙ accumulate_all-group_of specs (filter_by (λ t. eq_bytes (key t) k) ts)
          (omega (arith, length-filter_by (λ t. eq_bytes (key t) k) ts)))
