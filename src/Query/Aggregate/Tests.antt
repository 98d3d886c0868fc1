-- ===== src/Query/Aggregate/Tests.antt =====
-- Runs of the aggregation on two tuples, with whole numbers in place of `double`.
use court_db.Base.{ℕ, ◌+◌, ◌/◌, ◌≡◌, refl, some, List, [], ◌∷◌, arith, ltb}
use court_db.Query.{Tuple, drain}
use court_db.Query.Streams.{filter_by}
use court_db.Query.Tests.{scored, shots, scan, shots-Produces}
use court_db.Query.Aggregate.Columns.{group_of, group_all-drain}
use court_db.Query.Aggregate.{
  DoubleOps, AggType, AggSpec, AggResult, find_group, group_all, update_group, accumulate,
  update_cells, sized_cells, agg_results, agg_values, agg_value, eq_bytes, agg_init, agg_next,
  encode_result,
}

-- Whole numbers in place of `double`.
abbrev whole_numbers : DoubleOps
whole_numbers = record {
  Double = ℕ;
  zero_point = 0;
  lowest = 0;
  highest = 1000;
  add = ◌+◌;
  divide = ◌/◌;
  of_count = λ n. n;
  less = ltb;
  to_u16 = λ n. n;
}

abbrev total_points : AggSpec whole_numbers
total_points = record { kind = AggType.sum; value_extractor = λ t. t.points }

abbrev team_of : Tuple → List ℕ
team_of t = t.team

group_all-drain_example :
    find_group whole_numbers
      (65 ∷ [])
      (group_all whole_numbers (total_points ∷ []) team_of (drain scan 3 shots).0 [])
    ≡ group_of whole_numbers
        (total_points ∷ [])
        (filter_by (λ t. eq_bytes (team_of t) (65 ∷ [])) shots)
group_all-drain_example =
    group_all-drain whole_numbers scan (total_points ∷ []) team_of (65 ∷ []) 3 shots-Produces
      (omega arith) (omega arith)

abbrev totals : List (AggResult whole_numbers)
totals = agg_init whole_numbers scan (total_points ∷ []) team_of 3 shots

summed : totals ≡ record { group_key = 65 ∷ []; values = 5 ∷ [] } ∷ []
unfolding agg_init agg_results agg_values agg_value group_all update_group accumulate update_cells
    sized_cells drain eq_bytes
summed = refl

encoded :
    agg_next whole_numbers totals 0 (scored 9)
    ≡ (some (record (scored 9) { season = 5; home_score = 5 }), 1)
unfolding agg_next encode_result agg_init agg_results agg_values agg_value group_all update_group
    accumulate update_cells sized_cells drain eq_bytes
encoded = refl
