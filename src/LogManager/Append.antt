-- ===== src/LogManager/Append.antt =====
-- The log as one sequence of bytes: what is in the file, then what is in the buffer.
use mathlib.Core.Path.{ap₂}
use court_db.Base.{
  u64, ℕ, ◌+◌, ◌≤◌, ◌<◌, ◌≡◌, refl, ap, sym, ◌∙◌, inl, inr, true, false, none, List, [], ◌∷◌, ◌++◌,
  arith, ltb, ◌==◌, length, length-append, take, Bool-cases, append_assoc, append-nil,
}
use court_db.Base.Bytes.{
  Bytes, read, write, length-read, read-write_self, read-write_disjoint, read-append,
}
use court_db.LogRecord.{LogRecord, serialize}
use court_db.Base.Results.{ok, ◌>>=◌}
use court_db.PosixFile.{File, transferred, pwrite}
use court_db.LogManager.{
  LogManager, log_buffer_size, flush_buffer, store, append_log_record, flush, open_log,
}

unfoldable pub log_bytes : LogManager → List ℕ
log_bytes m = read m.file.contents 0 m.flushed_lsn ++ m.log_buffer

-- A log whose last `k` assigned bytes are not stored yet.
pub record IsValidUpTo (k : ℕ) (m : LogManager) : Type 0 where
  pub durable : m.file.size ≡ m.flushed_lsn
  pub assigned : m.next_lsn ≡ m.flushed_lsn + length m.log_buffer + k
  pub bounded : length m.log_buffer ≤ log_buffer_size
  pub lsn_fits : m.next_lsn < 18446744073709551616

abbrev pub IsValid : LogManager → Type 0
IsValid = IsValidUpTo 0

pub length-log_bytes : (m : LogManager) → length (log_bytes m) ≡ m.flushed_lsn + length m.log_buffer
unfolding log_bytes
length-log_bytes m = omega (
  arith,
  length-append (read m.file.contents 0 m.flushed_lsn) m.log_buffer,
  length-read m.file.contents 0 m.flushed_lsn,
)

take-length {ℓ} : {A : Type ℓ} (xs : List A) → take (length xs) xs ≡ xs
take-length [] = refl
take-length (x ∷ xs) = ap (◌∷◌ x) (take-length xs)

-- A complete write at the end of the log extends what the file holds.
extended :
    (d : Bytes) (n : ℕ) (bs : List ℕ)
    → read (write d n (take (length bs) bs)) 0 (n + length bs) ≡ read d 0 n ++ bs
extended d n bs =
    rw (take-length bs, read-append)
      (ap₂ ◌++◌ (read-write_disjoint d n bs 0 n (inl (omega arith)))
        (ap (λ o. read (write d n bs) o (length bs)) (omega arith) ∙ read-write_self d n bs))

pub record Flushed (k : ℕ) (m m' : LogManager) : Type 0 where
  pub valid : IsValidUpTo k m'
  pub holds : log_bytes m' ≡ log_bytes m
  pub emptied : m'.log_buffer ≡ []
  pub same_lsn : m'.next_lsn ≡ m.next_lsn

no_bytes : (bs : List ℕ) → length bs ≡ 0 → bs ≡ []
no_bytes [] h = refl
no_bytes (b ∷ bs) h = absurd (omega arith)

-- FlushBuffer, when its write is complete.
pub flush_buffer-Flushed :
    (k : ℕ) (m : LogManager)
    → IsValidUpTo k m
    → (m' : LogManager) × (flush_buffer none m ≡ ok tt m') × Flushed k m m'
unfolding flush_buffer pwrite transferred log_bytes
flush_buffer-Flushed k m v = elim (Bool-cases (length m.log_buffer == 0)) [
  | inl empty ↦ (
    m,
    rw empty refl,
    record {
      valid = v;
      holds = refl;
      emptied = no_bytes m.log_buffer (ground arith);
      same_lsn = refl;
    },
  )
  | inr full ↦
      let all : (length m.log_buffer == length m.log_buffer) ≡ true = ground arith in
      (
        record m {
          file = (pwrite none m.file m.flushed_lsn m.log_buffer).1;
          flushed_lsn = u64 (m.flushed_lsn + length m.log_buffer);
          log_buffer = [];
        },
        rw (full, all) refl,
        record {
          valid = rw full (omega (arith, v.durable, v.assigned, v.lsn_fits));
          holds =
              append-nil _
              ∙ ap (read (write m.file.contents m.flushed_lsn _) 0)
                  (omega (arith, v.assigned, v.lsn_fits))
              ∙ extended m.file.contents m.flushed_lsn m.log_buffer;
          emptied = refl;
          same_lsn = refl;
        },
      )
]

-- What a successful append leaves, for the bytes of the record.
pub record Appended (bs : List ℕ) (m m' : LogManager) : Type 0 where
  pub valid : IsValid m'
  pub holds : log_bytes m' ≡ log_bytes m ++ bs

store_buffered :
    (bs : List ℕ) (lsn : ℕ) (m : LogManager)
    → IsValidUpTo (length bs) m
    → length m.log_buffer + length bs ≤ log_buffer_size
    → (m' : LogManager) × (store none lsn bs m ≡ ok lsn m') × Appended bs m m'
unfolding store log_bytes
store_buffered bs lsn m v h =
    let small : ltb log_buffer_size (length bs) ≡ false = ground arith in
    (
      record m { log_buffer = m.log_buffer ++ bs },
      rw small refl,
      record {
        valid = omega (arith, v.durable, v.assigned, v.lsn_fits, length-append m.log_buffer bs);
        holds = sym (append_assoc (read m.file.contents 0 m.flushed_lsn) m.log_buffer bs);
      },
    )

store_direct :
    (bs : List ℕ) (lsn : ℕ) (m : LogManager)
    → IsValidUpTo (length bs) m
    → m.log_buffer ≡ []
    → lsn ≡ m.flushed_lsn
    → log_buffer_size < length bs
    → (m' : LogManager) × (store none lsn bs m ≡ ok lsn m') × Appended bs m m'
unfolding store log_bytes pwrite transferred
store_direct bs lsn m v empty at_end h =
    let large : ltb log_buffer_size (length bs) ≡ true = ground arith in
    let all : (length bs == length bs) ≡ true = ground arith in
    let some_bytes : (length bs == 0) ≡ false = ground arith in
    let none_left : length m.log_buffer ≡ 0 = ap length empty in
    (
      record m { file = (pwrite none m.file lsn bs).1; flushed_lsn = m.next_lsn },
      rw (large, all) refl,
      record {
        valid = rw some_bytes (omega (arith, v.durable, v.assigned, v.lsn_fits, none_left, at_end));
        holds =
            let end : m.next_lsn ≡ m.flushed_lsn + length bs =
              omega (arith, v.assigned, none_left) in
            rw (empty, append-nil, append-nil, end, at_end)
              (extended m.file.contents m.flushed_lsn bs);
      },
    )

pub append_log_record-Appended :
    (r : LogRecord) (m : LogManager)
    → IsValid m
    → m.next_lsn + length (serialize r) < 18446744073709551616
    → (m' : LogManager) × (append_log_record none none r m ≡ ok (length (log_bytes m)) m')
      × IsValid m'
      × (log_bytes m' ≡ log_bytes m ++ serialize r)
unfolding append_log_record log_bytes
append_log_record-Appended r m v h =
    elim (Bool-cases (ltb log_buffer_size (length m.log_buffer + length (serialize r)))) [
      | inr fits ↦
          let (m', e, a) = store_buffered (serialize r) m.next_lsn pending waiting (ground arith) in
          (m', rw fits (e ∙ ap (λ n. ok n m') lsn), a.valid, a.holds)
      | inl full ↦
          let (m₁, e₁, f) = flush_buffer-Flushed (length (serialize r)) pending waiting in
          let (m', e, a) = after_flush m₁ f in
          (
            m',
            rw full (
                ap (λ s. s >>= λ _ m''. store none m.next_lsn (serialize r) m'') e₁
                ∙ e
                ∙ ap (λ n. ok n m') lsn),
            a.valid,
            a.holds ∙ ap (λ bs. bs ++ serialize r) f.holds,
          )
    ]
  where
    pending : LogManager
    pending = record m { next_lsn = u64 (m.next_lsn + length (serialize r)) }

    waiting : IsValidUpTo (length (serialize r)) pending
    waiting = omega (arith, v.durable, v.assigned, v.bounded, v.lsn_fits)

    lsn : m.next_lsn ≡ length (log_bytes m)
    lsn = omega (arith, v.assigned, length-log_bytes m)

    after_flush :
        (m₁ : LogManager)
        → Flushed (length (serialize r)) pending m₁
        → (m' : LogManager) × (store none m.next_lsn (serialize r) m₁ ≡ ok m.next_lsn m')
          × Appended (serialize r) m₁ m'
    after_flush m₁ f = elim (Bool-cases (ltb log_buffer_size (length (serialize r)))) [
      | inl large ↦
          store_direct (serialize r) m.next_lsn m₁ f.valid f.emptied
            (omega (arith, f.valid.assigned, f.same_lsn, ap length f.emptied, v.lsn_fits))
            (ground arith)
      | inr small ↦
          store_buffered (serialize r) m.next_lsn m₁ f.valid
            (let none_left : length m₁.log_buffer ≡ 0 = ap length f.emptied in ground arith)
    ]

settled :
    (m : LogManager)
    → IsValid m
    → m.log_buffer ≡ []
    → read m.file.contents 0 m.file.size ≡ log_bytes m
unfolding log_bytes
settled m v empty = rw (empty, append-nil) (ap (read m.file.contents 0) v.durable)

-- Flush on a valid log, when its write is complete, moves the whole log into the file, whose size
-- is then the next LSN.
pub flush-Flushed :
    (m : LogManager)
    → IsValid m
    → (m' : LogManager) × (flush none m ≡ ok tt m')
      × IsValid m'
      × (read m'.file.contents 0 m'.file.size ≡ log_bytes m)
      × (m'.file.size ≡ m.next_lsn)
unfolding flush
flush-Flushed m v = elim (Bool-cases (ltb 0 (length m.log_buffer))) [
  | inl full ↦
      let (m', e, f) = flush_buffer-Flushed 0 m v in
      (
        m',
        rw full e,
        f.valid,
        settled m' f.valid f.emptied ∙ f.holds,
        omega (arith, f.valid.durable, f.valid.assigned, f.same_lsn, ap length f.emptied),
      )
  | inr empty ↦ (
    m,
    rw empty refl,
    v,
    settled m v (no_bytes m.log_buffer (ground arith)),
    ground (arith, v.durable, v.assigned),
  )
]

-- A new or reopened log is valid, and holds the bytes of its file.
pub open_log-IsValid : (f : File) → f.size < 18446744073709551616 → IsValid (open_log f)
unfolding open_log
open_log-IsValid f h = omega arith
