-- ===== src/HeapFile/Insert.antt =====
-- FindPageWithSpace and InsertRecord of src/storage/heap_file.cpp, by the pages that the pool shows,
-- where a page of the free space directory has the space.
use court_db.Base.{
  none≢some, ℕ, suc, ◌+◌, ◌<◌, ◌≤◌, ◌≡◌, ◌≢◌, refl, sym, ap, subst, ◌∙◌, arith, true, false, Option,
  none, some, List, [], ◌∷◌, ◌==◌, ==_refl, if◌then◌else◌, length, All, inl, inr, Bool-cases, u32,
}
use court_db.Base.Results.{Result, ok}
use court_db.Page.{Page, insert_record, has_space_for, invalid_page_id}
use court_db.Page.Insert.{insert_record-IsValid}
use court_db.Page.Lookup.{get_record-insert_record}
use court_db.Page.Space.{is_some, insert_record-has_space_for}
use court_db.Page.Image.Change.{insert_record-SamePage, has_space_for-SamePage}
use court_db.Page.Image.Fits.{insert_record-Fits}
use court_db.Record.{Rid, rid_is_valid}
use court_db.Buffer.{BufferPoolManager, assign, fetch_page, unpin_page}
use court_db.Buffer.Store.{Store, Represents}
use court_db.Buffer.Store.Load.{some_injective}
use court_db.Buffer.Store.Modify.{set_frame}
use court_db.Buffer.Store.Idle.{IsIdle, fetch_page-Access, read-Represents, write-Represents}
use court_db.HeapFile.{
  HeapFile, find_loop, find_page_with_space, insert_in, inserted, heap_insert, heap_get,
}
use court_db.HeapFile.Records.{Shows, heap_get-get_record}

-- The first page of a list that has space for a record.
unfoldable pub first_fit : ℕ → Store → List ℕ → Option ℕ
first_fit n store [] = none
first_fit n store (id ∷ ids) =
    let rest = first_fit n store ids in
    elim (store id) [ none ↦ rest | some p ↦ if has_space_for n p then some id else rest ]

-- Every page of the list is in the store.
abbrev pub AreStored : Store → List ℕ → Type 0
AreStored store ids = All (λ id. (p : Page) × (store id ≡ some p) × (id ≢ invalid_page_id)) ids

-- What the loop of FindPageWithSpace leaves.
record Searched (n : ℕ) (store : Store) (ids : List ℕ) (r : Option ℕ × List ℕ × BufferPoolManager)
    : Type 0 where
  found : r.0 ≡ first_fit n store ids
  represents : Represents store r.2
  idle : IsIdle r.2

find_fits :
    (n id f : ℕ) (ids : List ℕ) (b : BufferPoolManager)
    → (fetch_page id b).0 ≡ some f
    → has_space_for n ((fetch_page id b).1.pages f) ≡ true
    → find_loop n (id ∷ ids) b ≡ (some id, id ∷ ids, (unpin_page id false (fetch_page id b).1).1)
unfolding find_loop
find_fits n id f ids b e h = rw (find_loop, e) (rw h refl)

find_skips :
    (n id f : ℕ) (ids : List ℕ) (b : BufferPoolManager)
    → (fetch_page id b).0 ≡ some f
    → has_space_for n ((fetch_page id b).1.pages f) ≡ false
    → find_loop n (id ∷ ids) b ≡ find_loop n ids (unpin_page id false (fetch_page id b).1).1
unfolding find_loop
find_skips n id f ids b e h = rw (find_loop, e) (rw h refl)

first_fit_at :
    (n id : ℕ) (p : Page) (store : Store) (ids : List ℕ)
    → store id ≡ some p
    → first_fit n store (id ∷ ids) ≡ (if has_space_for n p then some id else first_fit n store ids)
unfolding first_fit
first_fit_at n id p store ids e = rw (first_fit, e) refl

find_loop-Searched :
    (n : ℕ) (store : Store) (ids : List ℕ) (b : BufferPoolManager)
    → Represents store b
    → IsIdle b
    → AreStored store ids
    → Searched n store ids (find_loop n ids b)
unfolding find_loop first_fit
find_loop-Searched n store [] b r i a = record { found = refl; represents = r; idle = i }
find_loop-Searched n store (id ∷ ids) b r i a =
    let (p, e, proper) = a.0 in
    let (f, x) = fetch_page-Access id store p b r i e proper in
    let w = read-Represents id f store p b i x in
    let same = has_space_for-SamePage n _ p x.same in
    let at = first_fit_at n id p store ids e in
    elim (Bool-cases (has_space_for n p)) [
      | inl fits ↦
          let first : first_fit n store (id ∷ ids) ≡ some id =
            at ∙ ap (λ c. if c then some id else first_fit n store ids) fits in
          rw (find_fits n id f ids b x.found (same ∙ fits))
            (record { found = sym first; represents = w.0; idle = w.1 })
      | inr full ↦
          let later : first_fit n store (id ∷ ids) ≡ first_fit n store ids =
            at ∙ ap (λ c. if c then some id else first_fit n store ids) full in
          let s =
            find_loop-Searched n store ids (unpin_page id false (fetch_page id b).1).1 w.0 w.1
              a.1 in
          rw (find_skips n id f ids b x.found (same ∙ full))
            (record { found = s.found ∙ sym later; represents = s.represents; idle = s.idle })
    ]

fit_has_space :
    (n : ℕ) (store : Store) (ids : List ℕ) (id : ℕ)
    → AreStored store ids
    → first_fit n store ids ≡ some id
    → (p : Page) × (store id ≡ some p) × (id ≢ invalid_page_id) × (has_space_for n p ≡ true)
unfolding first_fit
fit_has_space n store [] id a h = absurd (none≢some h)
fit_has_space n store (x ∷ ids) id a h =
    let (p, e, proper) = a.0 in
    elim (Bool-cases (has_space_for n p)) [
      | inl fits ↦
          let x_eq : x ≡ id = some_injective (
            sym (
              first_fit_at n x p store ids e
              ∙ ap (λ c. if c then some x else first_fit n store ids) fits)
            ∙ h) in
          (
            p,
            subst (λ y. store y ≡ some p) x_eq e,
            subst (λ y. y ≢ invalid_page_id) x_eq proper,
            fits,
          )
      | inr full ↦ fit_has_space n store ids id a.1 (
          sym (
            first_fit_at n x p store ids e
            ∙ ap (λ c. if c then some x else first_fit n store ids) full)
          ∙ h)
    ]

some_of : (o : Option ℕ) → is_some o ≡ true → (s : ℕ) × (o ≡ some s)
some_of none e = cc
some_of (some s) e = (s, refl)

insert_in_found :
    (bs : List ℕ) (id f s : ℕ) (h : HeapFile)
    → (fetch_page id h.bpm).0 ≡ some f
    → (insert_record (some bs) ((fetch_page id h.bpm).1.pages f)).0 ≡ some s
    → insert_in (some bs) id h
      ≡ inserted id f s (record h {
        bpm =
            set_frame f
              (insert_record (some bs) ((fetch_page id h.bpm).1.pages f)).1
              (fetch_page id h.bpm).1;
      })
unfolding insert_in
insert_in_found bs id f s h e i = rw (insert_in, e) (rw i refl)

heap_insert_found :
    (x : ℕ) (bs : List ℕ) (id : ℕ) (h : HeapFile)
    → (find_loop (suc (length bs)) h.pages_with_space h.bpm).0 ≡ some id
    → heap_insert (some (x ∷ bs)) h
      ≡ insert_in (some (x ∷ bs)) id (record h {
        pages_with_space = (find_loop (suc (length bs)) h.pages_with_space h.bpm).1;
        bpm = (find_loop (suc (length bs)) h.pages_with_space h.bpm).2;
      })
unfolding heap_insert find_page_with_space
heap_insert_found x bs id h e = rw (heap_insert, find_page_with_space, e) refl

-- What an insert into page `id` of the store leaves.
pub record Inserted (bs : List ℕ) (id : ℕ) (store : Store) (h : HeapFile) (r : Result HeapFile Rid)
    : Type 0 where
  pub slot_id : ℕ
  pub page : Page
  pub after : HeapFile
  pub returned : r ≡ ok (record { page_id = id; slot_id = slot_id }) after
  pub in_store : store id ≡ some page
  pub chosen : (insert_record (some bs) page).0 ≡ some slot_id
  pub shown : Shows (assign id (some (insert_record (some bs) page).1) store) after
  pub counted : after.record_count ≡ u32 (h.record_count + 1)

-- On a pool that shows the pages of a store and has none pinned, where every page of the free space
-- directory is in the store and `id` is the first of them with space for the record: InsertRecord
-- inserts the record of 1 to 65531 bytes into that page of the store, at the slot that the page's own
-- InsertRecord chooses, returns the RID and counts it.
pub heap_insert-Inserted :
    (bs : List ℕ) (id : ℕ) (store : Store) (h : HeapFile)
    → 0 < length bs
    → length bs ≤ 65531
    → Shows store h
    → AreStored store h.pages_with_space
    → first_fit (length bs) store h.pages_with_space ≡ some id
    → Inserted bs id store h (heap_insert (some bs) h)
unfolding inserted
heap_insert-Inserted [] id store h long short s a first = absurd (omega arith)
heap_insert-Inserted (x ∷ bs) id store h long short s a first =
    let n = suc (length bs) in
    let m = find_loop-Searched n store h.pages_with_space h.bpm s.represents s.idle a in
    let (p, e, proper, fits) = fit_has_space n store h.pages_with_space id a first in
    let b = (find_loop n h.pages_with_space h.bpm).2 in
    let h₁ : HeapFile = record h {
      pages_with_space = (find_loop n h.pages_with_space h.bpm).1;
      bpm = b;
    } in
    let g = s.represents.holds.storable id p e in
    let (f, y) = fetch_page-Access id store p b m.represents m.idle e proper in
    let q = (fetch_page id b).1.pages f in
    let same = insert_record-SamePage (x ∷ bs) q p y.same g.valid in
    let space = insert_record-has_space_for (x ∷ bs) p g.valid long short in
    let (slot, slot_eq) = some_of (insert_record (some (x ∷ bs)) p).0 (space.0 ∙ fits) in
    let fit =
      insert_record-Fits (x ∷ bs) p g.valid (record { fits = g.fits; slots_fit = g.slots_fit }) in
    let w =
      write-Represents id f store p (insert_record (some (x ∷ bs)) p).1
        (insert_record (some (x ∷ bs)) q).1 b m.represents m.idle e proper y.found
        (record {
          valid = insert_record-IsValid (some (x ∷ bs)) p g.valid;
          fits = fit.fits;
          slots_fit = fit.slots_fit;
        })
        same.1 in
    record {
      slot_id = slot;
      page = p;
      after = _;
      returned =
          heap_insert_found x bs id h (m.found ∙ first)
          ∙ insert_in_found (x ∷ bs) id f slot h₁ y.found (same.0 ∙ slot_eq);
      in_store = e;
      chosen = slot_eq;
      shown = record { represents = w.0; idle = w.1 };
      counted = refl;
    }

-- On a pool that shows the pages of a store and has none pinned, where every page of the free
-- space directory is in the store and one of them has space for a record of 1 to 65531 bytes:
-- InsertRecord returns a RID under which GetRecord then returns the record, and under a valid RID
-- in another page of the store GetRecord returns what it returned before.
pub heap_get-heap_insert :
    (bs : List ℕ) (id : ℕ) (store : Store) (q : Page) (other : Rid) (h : HeapFile)
    → 0 < length bs
    → length bs ≤ 65531
    → Shows store h
    → AreStored store h.pages_with_space
    → first_fit (length bs) store h.pages_with_space ≡ some id
    → store other.page_id ≡ some q
    → rid_is_valid other ≡ true
    → other.page_id ≢ id
    → (rid : Rid) × (after : HeapFile) × (heap_insert (some bs) h ≡ ok rid after)
      × ((heap_get rid after).0 ≡ some bs)
      × ((heap_get other after).0 ≡ (heap_get other h).0)
heap_get-heap_insert bs id store q other h long short s a first e v ne =
    let r = heap_insert-Inserted bs id store h long short s a first in
    let (p, _, proper, _) = fit_has_space (length bs) store h.pages_with_space id a first in
    let rid : Rid = record { page_id = id; slot_id = r.slot_id } in
    let p' = (insert_record (some bs) r.page).1 in
    let store' = assign id (some p') store in
    let here : store' id ≡ some p' = rw ==_refl refl in
    let away : (other.page_id == id) ≡ false = ground arith in
    let there : store' other.page_id ≡ some q = rw away e in
    let g = (s.represents.holds.storable id r.page r.in_store).valid in
    (
      rid,
      r.after,
      r.returned,
      (heap_get-get_record store' p' rid r.after r.shown (unfold rid_is_valid in ground arith)
            here).0
          ∙ (get_record-insert_record r.page bs r.slot_id (suc r.slot_id) g r.chosen
              (omega arith)).0,
      (heap_get-get_record store' q other r.after r.shown v there).0
          ∙ sym (heap_get-get_record store q other h s v e).0,
    )
