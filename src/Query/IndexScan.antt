-- ===== src/Query/IndexScan.antt =====
-- IndexScanExecutor of src/query/executor.cpp, over a heap file in the buffer pool.
use court_db.Base.{
  none≢some, false, ℕ, zero, suc, ◌+◌, ◌<◌, ◌≤◌, ◌≡◌, refl, sym, ap, subst, ◌∙◌, ◌⊎◌, inl, inr,
  Option, none, some, true, List, [], ◌∷◌, arith, length, drop, drop_suc, drop_past, get_elem?,
  Option-cases,
}
use court_db.Base.Bytes.{Bytes, write, Holds-of_read, read-write_self}
use court_db.Page.{Page, get_record}
use court_db.Record.{Rid, rid_is_valid, serialize, deserialize}
use court_db.Record.RoundTrip.{Fits, deserialize-serialize}
use court_db.Buffer.{unpin_page}
use court_db.Buffer.Store.{Store}
use court_db.Buffer.Store.Load.{some_injective}
use court_db.HeapFile.{HeapFile, heap_get}
use court_db.HeapFile.Records.{Shows, heap_get-Shows}
use court_db.Query.{
  Tuple, Produces, done, more, IndexScanState, index_scan_next, index_scan_executor,
}

-- In the page of the store that a RID names there is no record, or a serialised tuple.
abbrev pub Gone : Store → Rid → Type 0
Gone store rid =
    (p : Page) × (rid_is_valid rid ≡ true)
    × (store rid.page_id ≡ some p)
    × (get_record rid.slot_id p ≡ none)

abbrev pub HoldsTuple : Store → Rid → Tuple → Type 0
HoldsTuple store rid t =
    (p : Page) × (rid_is_valid rid ≡ true)
    × (store rid.page_id ≡ some p)
    × (get_record rid.slot_id p ≡ some (serialize t))
    × Fits t
    × (length (serialize t) < 65536)

-- The tuples that the RIDs name, in their order.
pub data Names (store : Store) : List Rid → List Tuple → Type 0 where
  no_more : Names store [] []
  gone :
      {rid : Rid} {rids : List Rid} {ts : List Tuple}
      → Gone store rid
      → Names store rids ts
      → Names store (rid ∷ rids) ts
  here :
      {rid : Rid} {rids : List Rid} {t : Tuple} {ts : List Tuple}
      → HoldsTuple store rid t
      → Names store rids ts
      → Names store (rid ∷ rids) (t ∷ ts)

module _ (behind : Rid → Bytes) (store : Store) (rids : List Rid) where
  abbrev at : HeapFile → ℕ → IndexScanState
  at h i = record { heap_file = h; results = rids; current_idx = i }

  -- What one Next does from index `i`: the pool still shows the store, with no page pinned.
  abbrev Scanned : Option Tuple × IndexScanState → List Tuple → ℕ → Type 0
  Scanned r ts i =
      ((r.0 ≡ none) × (ts ≡ []) × Shows store r.1.heap_file)
      ⊎ ((t : Tuple) × (us : List Tuple) × (h : HeapFile) × (j : ℕ) × (r ≡ (some t, at h j))
          × (ts ≡ t ∷ us)
          × Names store (drop j rids) us
          × Shows store h
          × (length (drop j rids) < length (drop i rids)))

  headed :
      (i : ℕ) (rid : Rid) (xs : List Rid)
      → drop i rids ≡ rid ∷ xs
      → (get_elem? rids i ≡ some rid) × (drop (i + 1) rids ≡ xs)
  headed i rid xs e = elim (Option-cases (get_elem? rids i)) [
    | inl past ↦ absurd (omega (arith, ap length (drop_past rids i past), ap length e))
    | inr (r, k) ↦
        let split : r ∷ drop (i + 1) rids ≡ rid ∷ xs = sym (drop_suc rids i r k) ∙ e in
        let same : r ≡ rid = cc in
        let tail : drop (i + 1) rids ≡ xs = cc in (k ∙ ap some same, tail)
  ]

  index_scan_next-Scanned :
      (fuel i : ℕ) (h : HeapFile) (xs : List Rid) (ts : List Tuple)
      → drop i rids ≡ xs
      → length xs < fuel
      → Names store xs ts
      → Shows store h
      → Scanned (index_scan_next behind fuel (at h i)) ts i
  unfolding index_scan_next
  index_scan_next-Scanned zero i h xs ts e f n s = absurd (omega arith)
  index_scan_next-Scanned (suc fuel) i h xs ts e f no_more s =
      elim (Option-cases (get_elem? rids i)) [
        | inl past ↦ rw (index_scan_next, past) (inl (refl, refl, s))
        | inr (rid, k) ↦ absurd (omega (arith, ap length (drop_suc rids i rid k), ap length e))
      ]
  index_scan_next-Scanned (suc fuel) i h xs ts e f
        (gone {rid = rid} {rids = rest} (p, v, stored, absent) n) s =
      let (k, tail) = headed i rid rest e in
      elim (heap_get-Shows store p rid h s v stored) [
        | inr (bs, there, _, _) ↦ absurd (none≢some (sym absent ∙ there))
        | inl (_, none_there, shown) ↦
            elim (index_scan_next-Scanned fuel (i + 1) (heap_get rid h).1 rest ts tail (omega arith)
              n shown) [
                | inl r ↦ rw (index_scan_next, k) (rw none_there (inl r))
                | inr (t, us, h', j, r, same, names, last, fewer) ↦ inr (
                  t,
                  us,
                  h',
                  j,
                  rw (index_scan_next, k) (rw none_there r),
                  same,
                  names,
                  last,
                  omega (arith, ap length tail, ap length e),
                )
              ]
      ]
  index_scan_next-Scanned (suc fuel) i h xs ts e f
        (here {rid = rid} {rids = rest} {t = t} {ts = us} (p, v, stored, there, fits, short) n) s =
      let (k, tail) = headed i rid rest e in
      elim (heap_get-Shows store p rid h s v stored) [
        | inl (absent, _, _) ↦ absurd (none≢some (sym absent ∙ there))
        | inr (bs, also, returned, shown) ↦
            let same : bs ≡ serialize t = some_injective (sym also ∙ there) in
            let read_back : deserialize (write (behind rid) 0 bs) ≡ t = rw same (
              deserialize-serialize t _ fits short
                (Holds-of_read _ 0 (serialize t) (read-write_self (behind rid) 0 (serialize t)))) in
            inr (
              t,
              us,
              record (heap_get rid h).1 {
                bpm = (unpin_page rid.page_id false (heap_get rid h).1.bpm).1;
              },
              i + 1,
              rw (index_scan_next, k) (rw (returned, read_back) refl),
              refl,
              subst (λ l. Names store l us) (sym tail) n,
              shown,
              omega (arith, ap length tail, ap length e),
            )
      ]

  index_scan-Produces :
      (n fuel i : ℕ) (h : HeapFile) (ts : List Tuple)
      → length (drop i rids) < n
      → length rids < fuel
      → length (drop i rids) ≤ length rids
      → Names store (drop i rids) ts
      → Shows store h
      → Produces (index_scan_executor behind rids fuel) (at h i) ts
  index_scan-Produces zero fuel i h ts enough f le n s = absurd (omega arith)
  index_scan-Produces (suc k) fuel i h ts enough f le n s =
      elim (index_scan_next-Scanned fuel i h (drop i rids) ts refl (omega arith) n s) [
        | inl (a, b, _) ↦ rw b (done a)
        | inr (t, us, h', j, r, same, names, shown, fewer) ↦ rw same (
            more (ap (λ (x : Option Tuple × IndexScanState). x.0) r)
              (rw r (index_scan-Produces k fuel j h' us (omega arith) f (omega arith) names shown)))
      ]

  -- On a heap file whose pool shows the pages of a store and has none pinned, where each RID that
  -- the index returned is valid and names a page of the store, in which there is under it no
  -- record or a serialised tuple of fewer than 65536 bytes whose fields fit their widths: from its
  -- Init state on, with fuel for one more than the RIDs, the index scan gives these tuples, in the
  -- order of the RIDs, and skips the RIDs without a record.
  pub index_scan_executor-Produces :
      (fuel : ℕ) (s : IndexScanState) (ts : List Tuple)
      → length rids < fuel
      → Names store rids ts
      → Shows store s.heap_file
      → Produces
          (index_scan_executor behind rids fuel)
          ((index_scan_executor behind rids fuel).init s)
          ts
  index_scan_executor-Produces fuel s ts f n shown =
      index_scan-Produces (suc (length rids)) fuel 0 s.heap_file ts (omega arith) f (omega arith) n
        shown
