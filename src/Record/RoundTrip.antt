-- ===== src/Record/RoundTrip.antt =====
-- Deserialize reads back what Serialize wrote.
use court_db.Base.{
  ℕ, suc, ◌+◌, ◌*◌, ◌^◌, ◌<◌, ◌≡◌, ap, ◌∙◌, List, [], ◌++◌, arith, length, length-append, u16,
  append-nil,
}
use court_db.Base.Bytes.{
  Bytes, read, le_bytes, Holds, Holds-append, read-Holds, get_le-Holds, length-le_bytes,
}
use court_db.Record.{
  NbaRecord, Reader, ◌>>=◌, pure, write_string, write_fixed, serialize, read_string, read_fixed,
  read_record, deserialize, compute_serialized_size,
}

-- Wherever the bytes lie in a buffer, below the range of the offset, the reader returns this value and
-- the offset behind them.
pub record Reads {A : Type 0} (m : Reader A) (bs : List ℕ) (a : A) : Type 0 where
  pub at : (d : Bytes) (o : ℕ) → o + length bs < 65536 → Holds d o bs → m d o ≡ (a, o + length bs)

Reads-pure : {A : Type 0} (a : A) → Reads (pure a) [] a
unfolding pure
Reads-pure a = record { at = λ d o h k. ap (λ n. (a, n)) (omega arith) }

Reads-bind :
    {A B : Type 0} {m : Reader A} (f : A → Reader B) {xs ys : List ℕ} {a : A} {b : B}
    → Reads m xs a
    → Reads (f a) ys b
    → Reads (m >>= f) (xs ++ ys) b
unfolding ◌>>=◌
Reads-bind {A} {m = m} f {xs = xs} {ys = ys} {a = a} {b = b} r s = record {
  at = λ d o h k.
      let n : length (xs ++ ys) ≡ length xs + length ys = length-append xs ys in
      let e : m d o ≡ (a, o + length xs) = r.at d o (omega arith) (Holds-append d o xs ys k).0 in
      let g : f a d (o + length xs) ≡ (b, o + length xs + length ys) =
        s.at d (o + length xs) (omega arith) (Holds-append d o xs ys k).1 in
      ap (λ (t : A × ℕ). f t.0 d t.1) e ∙ g ∙ ap (λ t. (b, t)) (omega arith);
}

Reads-fixed : (w v : ℕ) → v < 256 ^ w → Reads (read_fixed w) (write_fixed w v) v
unfolding read_fixed write_fixed
Reads-fixed w v h = record {
  at = λ d o p k.
      let n : length (le_bytes w v) ≡ w = length-le_bytes w v in
      let e : u16 (o + w) ≡ o + length (le_bytes w v) = omega arith in
      λ i. (get_le-Holds w d o v h k i, e i);
}

Reads-string : (s : List ℕ) → length s < 65536 → Reads read_string (write_string s) s
unfolding read_string write_string
Reads-string s h = record {
  at = λ d o p k.
      let start : u16 (o + 2) ≡ o + 1 + 1 = omega arith in
      let len : d o + d (o + 1) * 256 ≡ length s = omega (arith, k.0, k.1.0) in
      let end : u16 (u16 (o + 2) + length s) ≡ o + suc (suc (length s)) = omega arith in
      rw len
        (λ i. ((ap (λ n. read d n (length s)) start ∙ read-Holds d (o + 1 + 1) s k.1.1) i, end i));
}

-- The widths of the fields in the source, and strings that the length prefix can count.
pub record Fits (r : NbaRecord) : Type 0 where
  pub game_id : length r.game_id < 65536
  pub season : r.season < 256 ^ 2
  pub quarter : r.quarter < 256 ^ 1
  pub clock : length r.clock < 65536
  pub team : length r.team < 65536
  pub player : length r.player < 65536
  pub event_type : r.event_type < 256 ^ 1
  pub description : length r.description < 65536
  pub points : r.points < 256 ^ 1
  pub shot_distance : r.shot_distance < 256 ^ 2
  pub home_score : r.home_score < 256 ^ 2
  pub away_score : r.away_score < 256 ^ 2

Reads-last :
    {A B : Type 0} {m : Reader A} (g : A → B) {xs : List ℕ} {a : A}
    → Reads m xs a
    → Reads (m >>= λ x. pure (g x)) xs (g a)
Reads-last {m = m} g {xs = xs} {a = a} r =
    let e : xs ++ [] ≡ xs = append-nil xs in
    rw e at (Reads-bind (λ x. pure (g x)) r (Reads-pure (g a)))

read_record-Reads : (r : NbaRecord) → Fits r → Reads read_record (serialize r) r
unfolding read_record serialize
read_record-Reads r f = Reads-bind _ (Reads-string r.game_id f.game_id) (
    Reads-bind _ (Reads-fixed 2 r.season f.season) (
      Reads-bind _ (Reads-fixed 1 r.quarter f.quarter) (
        Reads-bind _ (Reads-string r.clock f.clock) (
          Reads-bind _ (Reads-string r.team f.team) (
            Reads-bind _ (Reads-string r.player f.player) (
              Reads-bind _ (Reads-fixed 1 r.event_type f.event_type) (
                Reads-bind _ (Reads-string r.description f.description) (
                  Reads-bind _ (Reads-fixed 1 r.points f.points) (
                    Reads-bind _ (Reads-fixed 2 r.shot_distance f.shot_distance) (
                      Reads-bind _ (Reads-fixed 2 r.home_score f.home_score)
                        (Reads-last _ (Reads-fixed 2 r.away_score f.away_score))))))))))))

-- Where a buffer begins with the serialised bytes of a record, whatever follows them, Deserialize
-- returns that record, provided that its fields fit their widths, its strings are shorter than
-- 65536 bytes, and so is the whole.
pub deserialize-serialize :
    (r : NbaRecord) (d : Bytes)
    → Fits r
    → length (serialize r) < 65536
    → Holds d 0 (serialize r)
    → deserialize d ≡ r
unfolding deserialize
deserialize-serialize r d f h k =
    ap (λ (t : NbaRecord × ℕ). t.0) ((read_record-Reads r f).at d 0 (omega (arith, h)) k)

length-write_string : (s : List ℕ) → length (write_string s) ≡ 2 + length s
unfolding write_string
length-write_string s = omega arith

length-write_fixed : (w v : ℕ) → length (write_fixed w v) ≡ w
unfolding write_fixed
length-write_fixed w v = length-le_bytes w v

pub length-serialize :
    (r : NbaRecord)
    → length (serialize r)
      ≡ 21
        + length r.game_id
        + length r.clock
        + length r.team
        + length r.player
        + length r.description
unfolding serialize
length-serialize r = simp (length-append, length-write_string, length-write_fixed) (omega arith)

-- ComputeSerializedSize is the number of bytes that Serialize writes, where the record's fields
-- fit their widths and that number fits a uint16_t.
pub compute_serialized_size-serialize :
    (r : NbaRecord)
    → Fits r
    → length (serialize r) < 65536
    → compute_serialized_size r ≡ length (serialize r)
unfolding compute_serialized_size
compute_serialized_size-serialize r f h = omega (arith, length-serialize r)
