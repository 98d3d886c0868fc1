-- ===== src/Query.antt =====
-- include/query/executor.h and src/query/executor.cpp: executors that hand out one tuple at a time.
mod Tests
pub mod Streams
pub mod Sorting
pub mod Aggregate
pub mod IndexScan
mod IndexTests
use court_db.Base.{
  ℕ, zero, suc, ◌+◌, ◌<◌, ◌≡◌, refl, Bool, true, false, Option, none, some, List, [], ◌∷◌, arith,
  ltb, leb, if◌then◌else◌, length, u32, min, take, get_elem?,
}
use court_db.Base.Sort.{sort}
use court_db.Base.Bytes.{Bytes, write}
use court_db.Record.{NbaRecord, Rid, deserialize}
use court_db.Buffer.{unpin_page}
use court_db.HeapFile.{HeapFile, heap_get}

abbrev pub Tuple : Type 0
Tuple = NbaRecord

-- The virtual interface: the object's state, Init, and Next, which returns the tuple that it wrote, or
-- none for `false`.
pub record Executor : Type 1 where
  pub State : Type 0
  pub init : State → State
  pub next : State → Option Tuple × State

-- From this state, repeated Next hands out these tuples and then returns false.
pub data Produces (e : Executor) : e.State → List Tuple → Type 0 where
  done : {s : e.State} → (e.next s).0 ≡ none → Produces e s []
  more :
      {s : e.State} {t : Tuple} {ts : List Tuple}
      → (e.next s).0 ≡ some t
      → Produces e (e.next s).1 ts
      → Produces e s (t ∷ ts)

-- FilterExecutor::Next: the while loop, with fuel for the tuples of the child.
pub filter_next : (child : Executor) → (Tuple → Bool) → ℕ → child.State → Option Tuple × child.State
filter_next child predicate zero s = (none, s)
filter_next child predicate (suc fuel) s =
    let rest = filter_next child predicate fuel (child.next s).1 in
    elim (child.next s).0 [
      | none ↦ (none, (child.next s).1)
      | some t ↦ if predicate t then (some t, (child.next s).1) else rest
    ]

abbrev pub filter_executor : Executor → (Tuple → Bool) → ℕ → Executor
filter_executor child predicate fuel = record {
  State = child.State;
  init = child.init;
  next = filter_next child predicate fuel;
}

pub projection_next :
    (child : Executor) → (Tuple → Tuple) → child.State → Option Tuple × child.State
projection_next child projection s = elim (child.next s).0 [
  | none ↦ (none, (child.next s).1)
  | some t ↦ (some (projection t), (child.next s).1)
]

abbrev pub projection_executor : Executor → (Tuple → Tuple) → Executor
projection_executor child projection = record {
  State = child.State;
  init = child.init;
  next = projection_next child projection;
}

pub record LimitState (S : Type 0) : Type 0 where
  pub child : S
  pub emitted : ℕ

pub limit_next :
    (child : Executor) → ℕ → LimitState child.State → Option Tuple × LimitState child.State
limit_next child limit s = if leb limit s.emitted then (none, s) else elim (child.next s.child).0 [
  | none ↦ (none, record s { child = (child.next s.child).1 })
  | some t ↦ (some t, record { child = (child.next s.child).1; emitted = u32 (s.emitted + 1) })
]

abbrev pub limit_executor : Executor → ℕ → Executor
limit_executor child limit = record {
  State = LimitState child.State;
  init = λ s. record { child = child.init s.child; emitted = 0 };
  next = limit_next child limit;
}

-- The loop that materialises all input, with fuel.
pub drain : (child : Executor) → ℕ → child.State → List Tuple × child.State
drain child zero s = ([], s)
drain child (suc fuel) s =
    let rest = drain child fuel (child.next s).1 in
    elim (child.next s).0 [ none ↦ ([], (child.next s).1) | some t ↦ (t ∷ rest.0, rest.1) ]

-- The state of the executors that hold their output.
pub record Materialized (S : Type 0) : Type 0 where
  pub child : S
  pub tuples : List Tuple
  pub current_idx : ℕ

pub materialized_next : {S : Type 0} → Materialized S → Option Tuple × Materialized S
materialized_next s = elim (get_elem? s.tuples s.current_idx) [
  | none ↦ (none, s)
  | some t ↦ (some t, record s { current_idx = s.current_idx + 1 })
]

pub sort_init :
    (child : Executor)
    → (Tuple → Tuple → Bool)
    → ℕ
    → Materialized child.State
    → Materialized child.State
sort_init child comparator fuel s =
    let (ts, c) = drain child fuel (child.init s.child) in
    record { child = c; tuples = sort comparator ts; current_idx = 0 }

abbrev pub sort_executor : Executor → (Tuple → Tuple → Bool) → ℕ → Executor
sort_executor child comparator fuel = record {
  State = Materialized child.State;
  init = sort_init child comparator fuel;
  next = materialized_next;
}

-- std::partial_sort brings the first `k` of the sorted order to the front; the rest is dropped.
pub top_n_init :
    (child : Executor)
    → (Tuple → Tuple → Bool)
    → ℕ
    → ℕ
    → Materialized child.State
    → Materialized child.State
top_n_init child comparator limit fuel s =
    let (ts, c) = drain child fuel (child.init s.child) in
    let k = min limit (u32 (length ts)) in
    record {
      child = c;
      tuples = if ltb 0 k then take k (sort comparator ts) else [];
      current_idx = 0;
    }

abbrev pub top_n_executor : Executor → (Tuple → Tuple → Bool) → ℕ → ℕ → Executor
top_n_executor child comparator limit fuel = record {
  State = Materialized child.State;
  init = top_n_init child comparator limit fuel;
  next = materialized_next;
}

pub record IndexScanState : Type 0 where
  pub heap_file : HeapFile
  pub results : List Rid
  pub current_idx : ℕ

-- IndexScanExecutor::Next, with fuel. `behind` are the bytes that stand behind a record in its page,
-- where Deserialize reads from the record on; a tuple that is handed out is unpinned.
pub index_scan_next : (Rid → Bytes) → ℕ → IndexScanState → Option Tuple × IndexScanState
index_scan_next behind zero s = (none, s)
index_scan_next behind (suc fuel) s = elim (get_elem? s.results s.current_idx) [
  | none ↦ (none, s)
  | some rid ↦
      let (bytes, h) = heap_get rid s.heap_file in
      let advanced = record s { current_idx = s.current_idx + 1; heap_file = h } in
      let rest = index_scan_next behind fuel advanced in
      elim bytes [
        | none ↦ rest
        | some bs ↦ (
          some (deserialize (write (behind rid) 0 bs)),
          record advanced { heap_file = record h { bpm = (unpin_page rid.page_id false h.bpm).1 } },
        )
      ]
]

-- `rids` is what Init finds in the index.
abbrev pub index_scan_executor : (Rid → Bytes) → List Rid → ℕ → Executor
index_scan_executor behind rids fuel = record {
  State = IndexScanState;
  init = λ s. record s { results = rids; current_idx = 0 };
  next = index_scan_next behind fuel;
}
