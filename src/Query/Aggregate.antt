-- ===== src/Query/Aggregate.antt =====
-- AggregationExecutor of src/query/executor.cpp: groups, accumulators and results.
mod Tests
pub mod Groups
pub mod Columns
use court_db.Base.{
  ℕ, zero, suc, ◌+◌, ◌*◌, ◌<◌, ◌≤◌, ◌≡◌, ◌≢◌, refl, ap, sym, ◌∙◌, ◌⊎◌, inl, inr, Bool, true, false,
  Option, none, some, List, [], ◌∷◌, ◌++◌, map, arith, ltb, leb, ◌==◌, ==_iff, if◌then◌else◌,
  length, get_elem?, Bool-cases, u64,
}
use court_db.Query.{Tuple, Executor, drain, Produces}
use court_db.Query.Streams.{filter_by, drain-Produces}

-- `double`, with the operations that the executor uses of it.
pub record DoubleOps : Type 1 where
  pub Double : Type 0
  pub zero_point : Double
  pub lowest : Double
  pub highest : Double
  pub add : Double → Double → Double
  pub divide : Double → Double → Double
  pub of_count : ℕ → Double
  pub less : Double → Double → Bool
  pub to_u16 : Double → ℕ

pub data AggType : Type 0 where
  count sum avg min max : AggType

-- Group keys are strings.
pub eq_bytes : List ℕ → List ℕ → Bool
eq_bytes [] [] = true
eq_bytes [] (y ∷ ys) = false
eq_bytes (x ∷ xs) [] = false
eq_bytes (x ∷ xs) (y ∷ ys) = if x == y then eq_bytes xs ys else false

module _ (d : DoubleOps) where
  open d use {Double, zero_point, lowest, highest, add, divide, of_count, less, to_u16}

  pub record AggSpec : Type 0 where
    pub kind : AggType
    pub value_extractor : Tuple → Double

  -- The entries of `sums`, `mins` and `maxs` at one index.
  pub record Cell : Type 0 where
    pub sum : Double
    pub min : Double
    pub max : Double

  pub record GroupAccumulator : Type 0 where
    pub count : ℕ
    pub cells : List Cell

  abbrev pub empty_accumulator : GroupAccumulator
  empty_accumulator = record { count = 0; cells = [] }

  abbrev pub initial_cell : Cell
  initial_cell = record { sum = zero_point; min = highest; max = lowest }

  -- The inner loop: std::min(a, v) is v where v < a, and std::max(a, v) is v where a < v.
  pub update_cells : List AggSpec → Tuple → List Cell → List Cell
  update_cells [] t cells = cells
  update_cells (spec ∷ specs) t [] = []
  update_cells (spec ∷ specs) t (c ∷ cells) =
      let v = spec.value_extractor t in
      record {
        sum = add c.sum v;
        min = if less v c.min then v else c.min;
        max = if less c.max v then v else c.max;
      }
      ∷ update_cells specs t cells

  -- `resize` of vectors that are empty.
  pub sized_cells : List AggSpec → List Cell → List Cell
  sized_cells specs [] = map (λ _. initial_cell) specs
  sized_cells specs (c ∷ cells) = c ∷ cells

  pub accumulate : List AggSpec → GroupAccumulator → Tuple → GroupAccumulator
  accumulate specs acc t = record {
    count = u64 (acc.count + 1);
    cells = update_cells specs t (sized_cells specs acc.cells);
  }

  -- The hash map, as an association list in the order of insertion. The source iterates over it in an
  -- order that the library does not specify.
  abbrev pub Groups : Type 0
  Groups = List (List ℕ × GroupAccumulator)

  pub find_group : List ℕ → Groups → Option GroupAccumulator
  find_group key [] = none
  find_group key ((k, acc) ∷ rest) = if eq_bytes k key then some acc else find_group key rest

  abbrev pub or_empty : Option GroupAccumulator → GroupAccumulator
  or_empty none = empty_accumulator
  or_empty (some acc) = acc

  -- groups[key], created where it is missing, with the accumulator that it is given.
  pub update_group : List AggSpec → List ℕ → Tuple → Groups → Groups
  update_group specs key t [] = (key, accumulate specs empty_accumulator t) ∷ []
  update_group specs key t ((k, acc) ∷ rest) =
      if eq_bytes k key
      then (k, accumulate specs acc t) ∷ rest
      else (k, acc) ∷ update_group specs key t rest

  pub group_all : List AggSpec → (Tuple → List ℕ) → List Tuple → Groups → Groups
  group_all specs key [] groups = groups
  group_all specs key (t ∷ ts) groups = group_all specs key ts (update_group specs (key t) t groups)

  pub record AggResult : Type 0 where
    pub group_key : List ℕ
    pub values : List Double

  pub agg_value : AggType → ℕ → Cell → Double
  agg_value count n c = of_count n
  agg_value sum n c = c.sum
  agg_value avg n c = if ltb 0 n then divide c.sum (of_count n) else zero_point
  agg_value min n c = c.min
  agg_value max n c = c.max

  pub agg_values : List AggSpec → ℕ → List Cell → List Double
  agg_values [] n cells = []
  agg_values (spec ∷ specs) n [] = []
  agg_values (spec ∷ specs) n (c ∷ cells) = agg_value spec.kind n c ∷ agg_values specs n cells

  pub agg_results : List AggSpec → Groups → List AggResult
  agg_results specs [] = []
  agg_results specs ((key, acc) ∷ rest) =
      record { group_key = key; values = agg_values specs acc.count acc.cells }
      ∷ agg_results specs rest

  -- AggregationExecutor::Init, from the child's state after its own Init; the results start at 0.
  pub agg_init :
      (child : Executor) → List AggSpec → (Tuple → List ℕ) → ℕ → child.State → List AggResult
  agg_init child specs key fuel s =
      agg_results specs (group_all specs key (drain child fuel (child.init s)).0 [])

  -- AggregationExecutor::Next: fields that are not assigned keep the value of the caller's tuple.
  pub encode_result : AggResult → Tuple → Tuple
  encode_result r output = with_third r.values (with_second r.values (with_first r.values cleared))
    where
      cleared : Tuple
      cleared = record output { game_id = []; team = r.group_key; description = [] }

      with_first : List Double → Tuple → Tuple
      with_first [] t = record t { season = 0 }
      with_first (v ∷ vs) t = record t { home_score = to_u16 v; season = to_u16 v }

      with_second : List Double → Tuple → Tuple
      with_second (v ∷ w ∷ vs) t = record t { away_score = to_u16 w }
      with_second vs t = t

      with_third : List Double → Tuple → Tuple
      with_third (v ∷ w ∷ x ∷ vs) t = record t { shot_distance = to_u16 x }
      with_third vs t = t

  pub agg_next : List AggResult → ℕ → Tuple → Option Tuple × ℕ
  agg_next results idx output = elim (get_elem? results idx) [
    | none ↦ (none, idx)
    | some r ↦ (some (encode_result r output), idx + 1)
  ]
