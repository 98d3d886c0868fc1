-- ===== src/Record.antt =====
-- include/storage/record.h and src/storage/record.cpp: record identifiers and the binary format.
mod Tests
pub mod RoundTrip
pub mod Order
use court_db.Base.{
  ℕ, ◌+◌, ◌*◌, ◌/◌, ◌%◌, ◌≡◌, Bool, true, false, not, ◌&&◌, List, [], ◌∷◌, ◌++◌, ltb, ◌==◌,
  if◌then◌else◌, length, u16, get_or,
}
use court_db.Base.Bytes.{Bytes, read, get_le, le_bytes}
use court_db.Page.{invalid_page_id}

pub record Rid : Type 0 where
  pub page_id : ℕ
  pub slot_id : ℕ

-- RID{}
abbrev pub no_rid : Rid
no_rid = record { page_id = invalid_page_id; slot_id = 0 }

unfoldable pub rid_is_valid : Rid → Bool
rid_is_valid r = not (r.page_id == invalid_page_id)

pub rid_eq : Rid → Rid → Bool
rid_eq r s = r.page_id == s.page_id && r.slot_id == s.slot_id

pub rid_lt : Rid → Rid → Bool
rid_lt r s =
    if not (r.page_id == s.page_id) then ltb r.page_id s.page_id else ltb r.slot_id s.slot_id

-- A std::string is the list of its bytes.
pub record NbaRecord : Type 0 where
  pub game_id : List ℕ
  pub season : ℕ
  pub quarter : ℕ
  pub clock : List ℕ
  pub team : List ℕ
  pub player : List ℕ
  pub event_type : ℕ
  pub description : List ℕ
  pub points : ℕ
  pub shot_distance : ℕ
  pub home_score : ℕ
  pub away_score : ℕ

-- What WriteString appends: the two bytes of the length, cut to a uint16_t, then the string.
pub write_string : List ℕ → List ℕ
write_string s = u16 (length s) % 256 ∷ (u16 (length s) / 256 % 256) ∷ s

-- What WriteFixed appends for a type of `w` bytes.
pub write_fixed : ℕ → ℕ → List ℕ
write_fixed w v = le_bytes w v

pub serialize : NbaRecord → List ℕ
serialize r =
    write_string r.game_id
    ++ (write_fixed 2 r.season
        ++ (write_fixed 1 r.quarter
            ++ (write_string r.clock
                ++ (write_string r.team
                    ++ (write_string r.player
                        ++ (write_fixed 1 r.event_type
                            ++ (write_string r.description
                                ++ (write_fixed 1 r.points
                                    ++ (write_fixed 2 r.shot_distance
                                        ++ (write_fixed 2 r.home_score
                                            ++ write_fixed 2 r.away_score))))))))))

-- A reader takes the buffer and the offset, which is a uint16_t, and returns the new offset.
abbrev pub Reader : Type 0 → Type 0
Reader A = Bytes → ℕ → A × ℕ

infixl 5 ◌>>=◌
unfoldable pub ◌>>=◌ : {A B : Type 0} → Reader A → (A → Reader B) → Reader B
◌>>=◌ m f d o = let (a, o') = m d o in f a d o'

unfoldable pub pure : {A : Type 0} → A → Reader A
pure a d o = (a, o)

pub read_string : Reader (List ℕ)
read_string d o =
    let len = d o + d (o + 1) * 256 in (read d (u16 (o + 2)) len, u16 (u16 (o + 2) + len))

pub read_fixed : ℕ → Reader ℕ
read_fixed w d o = (get_le w d o, u16 (o + w))

pub read_record : Reader NbaRecord
read_record = do
  game_id ← read_string
  season ← read_fixed 2
  quarter ← read_fixed 1
  clock ← read_string
  team ← read_string
  player ← read_string
  event_type ← read_fixed 1
  description ← read_string
  points ← read_fixed 1
  shot_distance ← read_fixed 2
  home_score ← read_fixed 2
  away_score ← read_fixed 2
  pure (record {
    game_id = game_id;
    season = season;
    quarter = quarter;
    clock = clock;
    team = team;
    player = player;
    event_type = event_type;
    description = description;
    points = points;
    shot_distance = shot_distance;
    home_score = home_score;
    away_score = away_score;
  })

-- RecordSerializer::Deserialize. Its length serves only the assertion on the final offset.
pub deserialize : Bytes → NbaRecord
deserialize d = (read_record d 0).0

pub compute_serialized_size : NbaRecord → ℕ
compute_serialized_size r =
    let s1 = u16 (2 + u16 (length r.game_id)) in
    let s2 = u16 (s1 + (2 + u16 (length r.clock))) in
    let s3 = u16 (s2 + (2 + u16 (length r.team))) in
    let s4 = u16 (s3 + (2 + u16 (length r.player))) in
    let s5 = u16 (s4 + (2 + u16 (length r.description))) in u16 (s5 + 11)
