-- ===== src/LogManager/Iterate.antt =====
-- The log iterator visits the records of the file, in order and up to the last.
use court_db.Base.{
  u64, ℕ, zero, suc, ◌+◌, ◌≤◌, ◌<◌, ◌≡◌, refl, ap, sym, ◌∙◌, inl, inr, true, false, none, some,
  List, [], ◌∷◌, ◌++◌, arith, leb, if◌then◌else◌, length, length-append, Bool-cases, append_assoc,
  append-nil, All,
}
use court_db.Base.Bytes.{
  Bytes, zeros, read, write, Holds, Holds-append, length-read, Holds-ext, Holds-of_read, copied,
}
use court_db.LogRecord.{LogRecord, serialize}
use court_db.LogRecord.RoundTrip.{
  IsWellFormed, deserialize-serialize_log, length-serialize, get_le-serialize,
}
use court_db.LogManager.Append.{
  IsValid, log_bytes, length-log_bytes, append_log_record-Appended, flush-Flushed, open_log-IsValid,
}
use court_db.Base.Results.{Result, ok, ◌>>=◌}
use court_db.PosixFile.{File}
use court_db.LogManager.{
  append_log_record, flush, open_log, LogManager, LogIterator, is_invalid, read_record_at, begin_at,
  iterator_at, next, visit,
}

-- The bytes of a sequence of records, back to back.
unfoldable pub log_image : List LogRecord → List ℕ
log_image [] = []
log_image (r ∷ rs) = serialize r ++ log_image rs

-- What Append and recovery write: well-formed records of a valid type.
pub record IsLogged (r : LogRecord) : Type 0 where
  pub well_formed : IsWellFormed r
  pub valid : is_invalid r.kind ≡ false

-- At the offset of a record the iterator reads that record.
read_record_at-serialize :
    (f : File) (o : ℕ) (r : LogRecord)
    → IsLogged r
    → Holds f.contents o (serialize r)
    → o + r.total_size ≤ f.size
    → read_record_at f o ≡ some r
unfolding read_record_at
read_record_at-serialize f o r l held within =
    rw
      (
        get_le-serialize r f.contents o l.well_formed held,
        deserialize-serialize_log r copy l.well_formed held_by_copy,
        l.valid,
      )
      (ground (arith, l.well_formed.sized))
  where
    copy : Bytes
    copy = write zeros 0 (read f.contents o r.total_size)

    held_by_copy : Holds copy 0 (serialize r)
    held_by_copy =
        Holds-ext copy f.contents 0 o (serialize r)
          (λ i p.
            ap copy (omega arith)
            ∙ copied f.contents o r.total_size i (omega (arith, length-serialize r)))
          held

read_record_at-past : (f : File) (o : ℕ) → leb f.size o ≡ true → read_record_at f o ≡ none
unfolding read_record_at
read_record_at-past f o h = rw h refl

beyond_or_at :
    (f : File) (o : ℕ) → (if leb f.size o then none else read_record_at f o) ≡ read_record_at f o
beyond_or_at f o = elim (Bool-cases (leb f.size o)) [
  | inl past ↦ rw past (sym (read_record_at-past f o past))
  | inr inside ↦ rw inside refl
]

visit-log_image :
    (rs : List LogRecord) (fuel o : ℕ) (it : LogIterator)
    → All IsLogged rs
    → length rs < fuel
    → it.current_offset ≡ o
    → Holds it.file.contents o (log_image rs)
    → o + length (log_image rs) ≡ it.file.size
    → it.file.size < 18446744073709551616
    → it.current ≡ read_record_at it.file o
    → visit fuel it ≡ rs
unfolding visit log_image next
visit-log_image rs zero o it l fuel e held end fits cur = absurd (omega arith)
visit-log_image [] (suc fuel) o it l q e held end fits cur =
    let past : leb it.file.size o ≡ true = ground arith in
    let none_left : it.current ≡ none = cur ∙ read_record_at-past it.file o past in
    rw none_left refl
visit-log_image (r ∷ rs) (suc fuel) o it l q e held end fits cur =
    let n : length (serialize r ++ log_image rs) ≡ length (serialize r) + length (log_image rs) =
      length-append (serialize r) (log_image rs) in
    let s : length (serialize r) ≡ r.total_size = length-serialize r in
    let at : u64 (it.current_offset + r.total_size) ≡ o + length (serialize r) = omega arith in
    let current : (next r it).current ≡ read_record_at it.file (o + length (serialize r)) =
      rw at (beyond_or_at it.file (o + length (serialize r))) in
    let found : it.current ≡ some r =
      cur
      ∙ read_record_at-serialize it.file o r l.0
          (Holds-append it.file.contents o (serialize r) (log_image rs) held).0 (omega arith) in
    rw found (
      ap (◌∷◌ r) (
        visit-log_image rs fuel (o + length (serialize r)) (next r it) l.1 (omega arith) at
          (Holds-append it.file.contents o (serialize r) (log_image rs) held).1 (omega arith) fits
          current))

-- A client's run of appends, each with complete writes.
pub append_all : List LogRecord → LogManager → Result LogManager Unit
append_all [] m = ok tt m
append_all (r ∷ rs) m = append_log_record none none r m >>= λ _ m'. append_all rs m'

append_all-log_bytes :
    (rs : List LogRecord) (m : LogManager)
    → IsValid m
    → m.next_lsn + length (log_image rs) < 18446744073709551616
    → (m' : LogManager) × (append_all rs m ≡ ok tt m')
      × IsValid m'
      × (log_bytes m' ≡ log_bytes m ++ log_image rs)
unfolding append_all log_image
append_all-log_bytes [] m v h = (m, refl, v, sym (append-nil (log_bytes m)))
append_all-log_bytes (r ∷ rs) m v h =
    let n : length (serialize r ++ log_image rs) ≡ length (serialize r) + length (log_image rs) =
      length-append (serialize r) (log_image rs) in
    let (m₁, e₁, v₁, b₁) = append_log_record-Appended r m v (omega arith) in
    let (m', e, v', b) = append_all-log_bytes rs m₁ v₁ (room m₁ v₁ b₁ n) in
    (
      m',
      ap (λ s. s >>= λ _ m''. append_all rs m'') e₁ ∙ e,
      v',
      b
          ∙ ap (λ bs. bs ++ log_image rs) b₁
          ∙ append_assoc (log_bytes m) (serialize r) (log_image rs),
    )
  where
    room :
        (m₁ : LogManager)
        → IsValid m₁
        → log_bytes m₁ ≡ log_bytes m ++ serialize r
        → length (serialize r ++ log_image rs) ≡ length (serialize r) + length (log_image rs)
        → m₁.next_lsn + length (log_image rs) < 18446744073709551616
    room m₁ v₁ b₁ n = omega (
      arith,
      v₁.assigned,
      v.assigned,
      ap length b₁,
      length-log_bytes m₁,
      length-log_bytes m,
      length-append (log_bytes m) (serialize r),
    )

log_bytes-open_log :
    (contents : Bytes) (bs : List ℕ)
    → log_bytes (open_log (record { contents = contents; size = 0 })) ++ bs ≡ bs
unfolding log_bytes open_log read
log_bytes-open_log contents bs = refl

next_lsn-open_log :
    (contents : Bytes) → (open_log (record { contents = contents; size = 0 })).next_lsn ≡ 0
unfolding open_log
next_lsn-open_log contents = refl

begin_offset : (m : LogManager) → (iterator_at 0 m).current_offset ≡ 0
unfolding iterator_at
begin_offset m = refl

begin_file : (m : LogManager) → (iterator_at 0 m).file ≡ m.file
unfolding iterator_at
begin_file m = refl

begin_current :
    (m : LogManager) → (iterator_at 0 m).current ≡ read_record_at (iterator_at 0 m).file 0
unfolding iterator_at
begin_current m = refl

begin_flushed :
    (m m' : LogManager) → flush none m ≡ ok tt m' → begin_at none 0 m ≡ ok (iterator_at 0 m') m'
unfolding begin_at
begin_flushed m m' e = rw (begin_at, e) refl

-- Well-formed records of a valid type, appended to an empty log of less than 2^64 bytes by
-- complete writes and whatever the flushes in between, are the records that the iterator visits
-- that BeginAt gives at 0, after its own flush: in order, each as it was appended, and no others;
-- fuel for one more than their number is enough.
pub visit-append_all :
    (rs : List LogRecord) (contents : Bytes)
    → All IsLogged rs
    → length (log_image rs) < 18446744073709551616
    → (m m' : LogManager) × (append_all rs (open_log (record { contents = contents; size = 0 }))
        ≡ ok tt m)
      × (it : LogIterator) × (begin_at none 0 m ≡ ok it m')
      × (visit (suc (length rs)) it ≡ rs)
visit-append_all rs contents l h =
    let (m, e, v, b) = append_all-log_bytes rs empty (open_log-IsValid _ (omega arith)) room in
    let (m', f, v', c, n) = flush-Flushed m v in
    (m, m', e, iterator_at 0 m', begin_flushed m m' f, visited m m' c (b ∙ started))
  where
    empty : LogManager
    empty = open_log (record { contents = contents; size = 0 })

    started : log_bytes empty ++ log_image rs ≡ log_image rs
    started = log_bytes-open_log contents (log_image rs)

    room : empty.next_lsn + length (log_image rs) < 18446744073709551616
    room = omega (arith, next_lsn-open_log contents)

    visited :
        (m m' : LogManager)
        → read m'.file.contents 0 m'.file.size ≡ log_bytes m
        → log_bytes m ≡ log_image rs
        → visit (suc (length rs)) (iterator_at 0 m') ≡ rs
    visited m m' c b =
        let size : m'.file.size ≡ length (log_image rs) =
          sym (length-read m'.file.contents 0 m'.file.size) ∙ ap length (c ∙ b) in
        visit-log_image rs (suc (length rs)) 0 (iterator_at 0 m') l (omega arith) (begin_offset m')
          (rw begin_file (Holds-of_read m'.file.contents 0 (log_image rs) (rw (← size) (c ∙ b))))
          (rw begin_file (omega arith)) (rw begin_file (omega arith)) (begin_current m')
