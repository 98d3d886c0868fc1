-- ===== src/Query/Tests.antt =====
-- The executors over a child that holds two tuples.
use mathlib.Core.List.{Perm}
use court_db.Base.{ℕ, refl, Bool, Option, none, some, List, [], ◌∷◌, arith, ltb, take}
use court_db.Base.Sort.{IsSorted, IsStrictWeakOrder}
use court_db.Query.{
  Tuple, Executor, Produces, done, more, Materialized, sort_executor, top_n_executor,
}
use court_db.Query.Sorting.{sort_executor-Produces, top_n_executor-Produces}

abbrev pub scored : ℕ → Tuple
scored n = record {
  game_id = [];
  season = 2024;
  quarter = 1;
  clock = [];
  team = 65 ∷ [];
  player = [];
  event_type = 0;
  description = [];
  points = n;
  shot_distance = 0;
  home_score = 0;
  away_score = 0;
}

abbrev pub shots : List Tuple
shots = scored 3 ∷ scored 2 ∷ []

-- A child whose state is the tuples that are left.
abbrev scan_next : List Tuple → Option Tuple × List Tuple
scan_next [] = (none, [])
scan_next (t ∷ ts) = (some t, ts)

abbrev pub scan : Executor
scan = record { State = List Tuple; init = λ ts. ts; next = scan_next }

pub shots-Produces : Produces scan shots shots
shots-Produces = more refl (more refl (done refl))

abbrev fewer_points : Tuple → Tuple → Bool
fewer_points t u = ltb t.points u.points

fewer_points-IsStrictWeakOrder : IsStrictWeakOrder fewer_points
fewer_points-IsStrictWeakOrder = record {
  asym = λ t u h. ground arith;
  trans = λ t u w h k. ground arith;
  weak = λ t u w h k. ground arith;
}

abbrev unsorted : Materialized (List Tuple)
unsorted = record { child = shots; tuples = []; current_idx = 0 }

sort_executor-Produces_example :
    (us : List Tuple) × Produces
      (sort_executor scan fewer_points 3)
      ((sort_executor scan fewer_points 3).init unsorted)
      us
    × Perm us shots
    × IsSorted fewer_points us
sort_executor-Produces_example =
    sort_executor-Produces scan fewer_points fewer_points-IsStrictWeakOrder 3 unsorted
      shots-Produces (omega arith)

top_n_executor-Produces_example :
    (us : List Tuple) × Produces
      (top_n_executor scan fewer_points 1 3)
      ((top_n_executor scan fewer_points 1 3).init unsorted)
      (take 1 us)
    × Perm us shots
    × IsSorted fewer_points us
top_n_executor-Produces_example =
    top_n_executor-Produces scan fewer_points fewer_points-IsStrictWeakOrder 3 unsorted
      shots-Produces (omega arith) 1 (omega arith)
