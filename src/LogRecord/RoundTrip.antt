-- ===== src/LogRecord/RoundTrip.antt =====
-- Deserialize reads back what Serialize wrote.
use court_db.Base.{
  ℕ, zero, suc, ◌+◌, ◌^◌, ◌≤◌, ◌<◌, ◌≡◌, refl, ap, ◌∙◌, inl, inr, true, ◌&&◌, List, [], ◌∷◌, arith,
  ltb, leb, if◌then◌else◌, length, take, drop, Bool-cases,
}
use court_db.Base.Bytes.{
  Bytes, zeros, read, write, get_le, put_fields, Holds, Holds-read, get_le_ext, Holds-ext,
  get_le-write_disjoint, get_le-put_fields, read_ext, read-write_self, length-read,
}
use court_db.LogRecord.{
  LogRecord, LogRecordType, invalid, unknown, type_byte, type_of_byte, log_header_size, fields,
  serialize, deserialize, make_insert, make_delete, make_update, make_new_page,
  make_checkpoint_begin, make_checkpoint_end,
}

-- A byte that names no enumerator.
abbrev pub IsCanonical : LogRecordType → Type 0
IsCanonical (unknown b) = (7 ≤ b) × (b < 256)
IsCanonical k = Unit

type_of_byte-type_byte : (k : LogRecordType) → IsCanonical k → type_of_byte (type_byte k) ≡ k
unfolding type_of_byte type_byte
type_of_byte-type_byte (unknown zero) h = absurd (omega arith)
type_of_byte-type_byte (unknown (suc zero)) h = absurd (omega arith)
type_of_byte-type_byte (unknown (suc (suc zero))) h = absurd (omega arith)
type_of_byte-type_byte (unknown (suc (suc (suc zero)))) h = absurd (omega arith)
type_of_byte-type_byte (unknown (suc (suc (suc (suc zero))))) h = absurd (omega arith)
type_of_byte-type_byte (unknown (suc (suc (suc (suc (suc zero)))))) h = absurd (omega arith)
type_of_byte-type_byte (unknown (suc (suc (suc (suc (suc (suc zero))))))) h = absurd (omega arith)
type_of_byte-type_byte (unknown (suc (suc (suc (suc (suc (suc (suc n)))))))) h = refl
type_of_byte-type_byte invalid h = refl
type_of_byte-type_byte _ h = refl

type_byte-lt : (k : LogRecordType) → IsCanonical k → type_byte k < 256 ^ 1
unfolding type_byte
type_byte-lt (unknown b) h = h.1
type_byte-lt invalid h = omega arith
type_byte-lt _ h = omega arith

-- The sizes in the header are right, and the fields have the widths of the source.
pub record IsWellFormed (r : LogRecord) : Type 0 where
  pub sized : r.total_size ≡ log_header_size + r.payload_size
  pub payload_sized : r.payload_size ≡ length r.payload
  pub lsn_fits : r.lsn < 256 ^ 8
  pub kind_fits : IsCanonical r.kind
  pub page_id_fits : r.page_id < 256 ^ 4
  pub slot_id_fits : r.slot_id < 256 ^ 2
  pub payload_size_fits : r.payload_size < 256 ^ 2

no_length : (xs : List ℕ) → length xs ≡ 0 → [] ≡ xs
no_length [] h = refl
no_length (x ∷ xs) h = absurd (omega arith)

-- What is read back, field by field, when a buffer agrees with the image of a record.
module _ (r : LogRecord) (v : IsWellFormed r) (d : Bytes) (held : Holds d 0 (serialize r)) where
  image : Bytes
  image = write (put_fields (fields r) zeros) log_header_size r.payload

  agrees : (o i : ℕ) → o + i < r.total_size → d (o + i) ≡ image (o + i)
  unfolding serialize image
  agrees o i h =
      ap d (omega arith)
      ∙ Holds-read d (write (put_fields (fields r) zeros) log_header_size r.payload) 0 0
          r.total_size held (o + i) h
      ∙ ap (write (put_fields (fields r) zeros) log_header_size r.payload) (omega arith)

  -- A field of the header that the writes of `fields` left at its offset.
  field :
      (w o x : ℕ)
      → o + w ≤ log_header_size
      → get_le w (put_fields (fields r) zeros) o ≡ x
      → get_le w d o ≡ x
  unfolding image
  field w o x h e =
      get_le_ext w d image o o (λ i p. agrees o i (omega (arith, v.sized)))
      ∙ get_le-write_disjoint w (put_fields (fields r) zeros) log_header_size r.payload o (inl h)
      ∙ e

  payload_read : read d log_header_size (length r.payload) ≡ r.payload
  unfolding image
  payload_read =
      read_ext d image log_header_size log_header_size (length r.payload)
        (λ i p. agrees log_header_size i (omega (arith, v.sized, v.payload_sized)))
      ∙ read-write_self (put_fields (fields r) zeros) log_header_size r.payload

  payload_size_read : get_le 2 d 19 ≡ r.payload_size
  unfolding put_fields
  payload_size_read = field 2 19 _ (omega arith) (
      get_le-put_fields 2 19 r.payload_size [] (put_fields (take 5 (fields r)) zeros)
        v.payload_size_fits tt)

  payload_taken :
      (if ltb 0 r.payload_size && leb (log_header_size + r.payload_size) r.total_size
        then read d log_header_size r.payload_size
        else [])
      ≡ r.payload
  payload_taken = elim (Bool-cases (ltb 0 r.payload_size)) [
    | inl some_bytes ↦
        let e : leb (log_header_size + r.payload_size) r.total_size ≡ true =
          ground (arith, v.sized) in
        rw (some_bytes, e) (ap (read d log_header_size) v.payload_sized ∙ payload_read)
    | inr no_bytes ↦ rw no_bytes (no_length r.payload (ground (arith, v.payload_sized)))
  ]

-- LogRecord::Deserialize, given the first `total_size` bytes of a buffer that begins with a
-- serialised well-formed record, returns that record.
pub deserialize-serialize_log :
    (r : LogRecord) (d : Bytes)
    → IsWellFormed r
    → Holds d 0 (serialize r)
    → deserialize d r.total_size ≡ r
unfolding deserialize put_fields
deserialize-serialize_log r d v held = rw (payload_size_read r v d held) λ i. record {
  total_size =
      field r v d held 4 0 _ (omega arith)
        (get_le-put_fields 4 0 r.total_size (drop 1 (fields r)) zeros
          (omega (arith, v.sized, v.payload_size_fits)) (omega arith))
        i;
  lsn =
      field r v d held 8 4 _ (omega arith)
        (get_le-put_fields 8 4 r.lsn (drop 2 (fields r)) (put_fields (take 1 (fields r)) zeros)
          v.lsn_fits (omega arith))
        i;
  kind =
      (ap type_of_byte (
            field r v d held 1 12 _ (omega arith) (
              get_le-put_fields 1 12 (type_byte r.kind) (drop 3 (fields r))
                (put_fields (take 2 (fields r)) zeros) (type_byte-lt r.kind v.kind_fits)
                (omega arith)))
          ∙ type_of_byte-type_byte r.kind v.kind_fits)
        i;
  page_id =
      field r v d held 4 13 _ (omega arith)
        (get_le-put_fields 4 13 r.page_id (drop 4 (fields r)) (put_fields (take 3 (fields r)) zeros)
          v.page_id_fits (omega arith))
        i;
  slot_id =
      field r v d held 2 17 _ (omega arith)
        (get_le-put_fields 2 17 r.slot_id (drop 5 (fields r)) (put_fields (take 4 (fields r)) zeros)
          v.slot_id_fits (omega arith))
        i;
  payload_size = r.payload_size;
  payload = payload_taken r v d held i;
}

pub length-serialize : (r : LogRecord) → length (serialize r) ≡ r.total_size
unfolding serialize
length-serialize r = length-read _ 0 r.total_size

-- The size that a reader finds at the offset of a serialised record.
pub get_le-serialize :
    (r : LogRecord) (d : Bytes) (o : ℕ)
    → IsWellFormed r
    → Holds d o (serialize r)
    → get_le 4 d o ≡ r.total_size
unfolding deserialize
get_le-serialize r d o v held =
    get_le_ext 4 d (λ i. d (o + i)) o 0 (λ i p. ap (λ n. d (o + n)) (omega arith))
    ∙ ap (λ (s : LogRecord). s.total_size)
        (deserialize-serialize_log r (λ i. d (o + i)) v
          (Holds-ext (λ i. d (o + i)) d 0 o (serialize r) (λ i p. ap (λ n. d (o + n)) (omega arith))
            held))

-- The constructor functions produce well-formed records for arguments of their types: page ids of
-- four bytes, slots and lengths of two.
pub make_insert-IsWellFormed :
    (lsn page_id slot_id : ℕ) (bs : List ℕ)
    → lsn < 256 ^ 8
    → page_id < 256 ^ 4
    → slot_id < 256 ^ 2
    → length bs < 256 ^ 2
    → IsWellFormed (make_insert lsn page_id slot_id bs)
unfolding make_insert
make_insert-IsWellFormed lsn page_id slot_id bs h1 h2 h3 h4 = omega arith

pub make_delete-IsWellFormed :
    (lsn page_id slot_id : ℕ) (old : List ℕ)
    → lsn < 256 ^ 8
    → page_id < 256 ^ 4
    → slot_id < 256 ^ 2
    → length old < 256 ^ 2
    → IsWellFormed (make_delete lsn page_id slot_id old)
unfolding make_delete
make_delete-IsWellFormed lsn page_id slot_id old h1 h2 h3 h4 = omega arith

pub make_update-IsWellFormed :
    (lsn page_id slot_id : ℕ) (old new : List ℕ)
    → lsn < 256 ^ 8
    → page_id < 256 ^ 4
    → slot_id < 256 ^ 2
    → IsWellFormed (make_update lsn page_id slot_id old new)
unfolding make_update
make_update-IsWellFormed lsn page_id slot_id old new h1 h2 h3 = omega (arith, length-read)

pub make_new_page-IsWellFormed :
    (lsn page_id : ℕ) → lsn < 256 ^ 8 → page_id < 256 ^ 4 → IsWellFormed (make_new_page lsn page_id)
unfolding make_new_page
make_new_page-IsWellFormed lsn page_id h1 h2 = omega arith

pub make_checkpoint_begin-IsWellFormed :
    (lsn : ℕ) → lsn < 256 ^ 8 → IsWellFormed (make_checkpoint_begin lsn)
unfolding make_checkpoint_begin
make_checkpoint_begin-IsWellFormed lsn h = omega arith

pub make_checkpoint_end-IsWellFormed :
    (lsn : ℕ) (dirty_pages : List (ℕ × ℕ))
    → lsn < 256 ^ 8
    → IsWellFormed (make_checkpoint_end lsn dirty_pages)
unfolding make_checkpoint_end
make_checkpoint_end-IsWellFormed lsn dirty_pages h = omega (arith, length-read)
