-- ===== src/Record/Tests.antt =====
-- The record's theorems at one record.
use court_db.Base.{ℕ, ◌≡◌, refl, false, [], ◌∷◌, arith}
use court_db.Base.Bytes.{as_buffer, le_bytes}
use court_db.Record.{
  Rid, NbaRecord, no_rid, rid_is_valid, serialize, deserialize, write_string, write_fixed,
}
use court_db.Record.RoundTrip.{Fits, deserialize-serialize}

abbrev shot : NbaRecord
shot = record {
  game_id = 1 ∷ 2 ∷ [];
  season = 2024;
  quarter = 4;
  clock = 5 ∷ [];
  team = 6 ∷ [];
  player = 7 ∷ [];
  event_type = 3;
  description = [];
  points = 2;
  shot_distance = 300;
  home_score = 101;
  away_score = 99;
}

shot-Fits : Fits shot
shot-Fits = omega arith

deserialize-serialize_example : deserialize (as_buffer (serialize shot)) ≡ shot
unfolding serialize write_string write_fixed le_bytes
deserialize-serialize_example =
    deserialize-serialize shot (as_buffer (serialize shot)) shot-Fits (omega arith) (omega arith)

abbrev rid : ℕ → ℕ → Rid
rid p s = record { page_id = p; slot_id = s }

no_rid_invalid : rid_is_valid no_rid ≡ false
unfolding rid_is_valid
no_rid_invalid = refl
