-- ===== src/Recovery/Replay.antt =====
-- Recover of src/recovery/recovery_manager.cpp: the log replayed into the buffer pool, against the same
-- records applied to a store of pages.
use court_db.Base.{
  ℕ, zero, suc, ◌<◌, ◌≤◌, ◌≡◌, ◌≢◌, refl, sym, ap, subst, arith, Bool, true, Option, none, some,
  List, [], ◌∷◌, length, All, inl, inr, Option-cases,
}
use court_db.Base.Results.{ok}
use court_db.Page.{Page, invalid_page_id, get_record}
use court_db.Page.Invariant
use court_db.LogRecord.{
  LogRecord, LogRecordType, invalid, insert, delete, update, new_page, checkpoint_begin,
  checkpoint_end, unknown,
}
use court_db.LogManager.{LogManager, LogIterator, next, visit, begin_at, open_log}
use court_db.LogManager.Iterate.{IsLogged, log_image, append_all, visit-append_all}
use court_db.Base.Bytes.{Bytes}
use court_db.Buffer.{
  BufferPoolManager, assign, invalid_frame_id, fetch_page, unpin_page, flush_all_pages, open_pool,
}
use court_db.Buffer.Store.{Store, Represents}
use court_db.Buffer.Store.Load.{fetch_page-Fetched}
use court_db.Buffer.Store.Modify.{set_frame, flush_all_pages-Represents}
use court_db.Buffer.Store.Idle.{IsIdle, fetch_page-Taken, write-Represents}
use court_db.Recovery.{
  RecoveryManager, redo_insert, redo_delete, redo_update, on_page, redo_of, redo_record, redo_loop,
  recover,
}
use court_db.Recovery.Effects.{
  insert_into, insert_into_done, insert_into_skipped, delete_from, update_in, delete_from_eq,
  delete_from_skipped, update_in_done, update_in_skipped, apply_of, apply_all, CanApply,
  CanApplyAll, AppliesAll, apply_of-Applies,
}
use court_db.Recovery.Redo.{
  redo_insert_done, redo_insert_skipped, redo_delete_done, redo_delete_skipped, redo_update_done,
  redo_update_skipped, IsRedo, redo_insert-IsRedo, redo_delete-IsRedo, redo_update-IsRedo,
}

-- The pool shows the pages of the store, and no page is pinned.
pub record Shows (store : Store) (m : RecoveryManager) : Type 0 where
  pub represents : Represents store m.bpm
  pub idle : IsIdle m.bpm

on_page_found :
    (redo : LogRecord → Page → Bool × Page) (r : LogRecord) (m : RecoveryManager) (f : ℕ)
    → (fetch_page r.page_id m.bpm).0 ≡ some f
    → (on_page redo r m).bpm
      ≡ (unpin_page r.page_id true (
          set_frame f
            (redo r ((fetch_page r.page_id m.bpm).1.pages f)).1
            (fetch_page r.page_id m.bpm).1)).1
unfolding on_page
on_page_found redo r m f e = rw (on_page, e) refl

on_page-Shows :
    (redo : LogRecord → Page → Bool × Page) (r : LogRecord) (p : Page) (store : Store)
    (m : RecoveryManager)
    → Shows store m
    → store r.page_id ≡ some p
    → r.page_id ≢ invalid_page_id
    → IsRedo (redo r) p
    → Shows (assign r.page_id (some (redo r p).1) store) (on_page redo r m)
on_page-Shows redo r p store m s e proper redoes =
    let (f, found, t) = fetch_page-Taken r.page_id store p m.bpm s.represents e s.idle in
    let w =
      fetch_page-Fetched r.page_id store p m.bpm s.represents e proper
        (λ k u. omega (arith, s.idle.unpinned k)) in
    let same = redoes.same ((fetch_page r.page_id m.bpm).1.pages f) (w.found f found) in
    let after =
      write-Represents r.page_id f store p (redo r p).1
        (redo r ((fetch_page r.page_id m.bpm).1.pages f)).1 m.bpm s.represents s.idle e proper found
        redoes.storable same.1 in
    record {
      represents = rw (on_page_found redo r m f found) after.0;
      idle = rw (on_page_found redo r m f found) after.1;
    }

-- What RedoRecord leaves of a page.
redo_insert_into : (r : LogRecord) (p : Page) → (redo_insert r p).1 ≡ insert_into r p
redo_insert_into r p = elim (Option-cases (get_record r.slot_id p)) [
  | inl e ↦ rw (redo_insert_done r p e, insert_into_done r p e) refl
  | inr (x, e) ↦ rw (redo_insert_skipped r p x e, insert_into_skipped r p x e) refl
]

redo_delete_from :
    (r : LogRecord) (p : Page) → Invariant.IsValid p → (redo_delete r p).1 ≡ delete_from r p
redo_delete_from r p v = elim (Option-cases (get_record r.slot_id p)) [
  | inl e ↦ rw (redo_delete_skipped r p e) (sym (delete_from_skipped r p v e))
  | inr (x, e) ↦ rw (redo_delete_done r p x e) (sym (delete_from_eq r p))
]

redo_update_in : (r : LogRecord) (p : Page) → (redo_update r p).1 ≡ update_in r p
redo_update_in r p = elim (Option-cases (get_record r.slot_id p)) [
  | inl e ↦ rw (redo_update_skipped r p e, update_in_skipped r p e) refl
  | inr (x, e) ↦ rw (redo_update_done r p x e, update_in_done r p x e) refl
]

-- Redoing a record in the pool is applying it to the store that the pool shows.
redo_of-Shows :
    (t : LogRecordType) (r : LogRecord) (store : Store) (m : RecoveryManager)
    → Shows store m
    → CanApply t r store
    → Shows (apply_of t r store) (redo_of t r m)
unfolding redo_of apply_of
redo_of-Shows insert r store m s (p, e, proper) =
    rw (e, ← redo_insert_into r p)
      (on_page-Shows redo_insert r p store m s e proper
        (redo_insert-IsRedo r p (s.represents.holds.storable r.page_id p e)))
redo_of-Shows delete r store m s (p, e, proper) =
    rw (e, ← redo_delete_from r p (s.represents.holds.storable r.page_id p e).valid)
      (on_page-Shows redo_delete r p store m s e proper
        (redo_delete-IsRedo r p (s.represents.holds.storable r.page_id p e)))
redo_of-Shows update r store m s (p, e, proper, room, short) =
    rw (e, ← redo_update_in r p)
      (on_page-Shows redo_update r p store m s e proper
        (redo_update-IsRedo r p (s.represents.holds.storable r.page_id p e) room short))
redo_of-Shows new_page r store m s c = record { represents = s.represents; idle = s.idle }
redo_of-Shows checkpoint_begin r store m s c = s
redo_of-Shows checkpoint_end r store m s c = s
redo_of-Shows invalid r store m s c = s
redo_of-Shows (unknown b) r store m s c = s

visits_first :
    (fuel : ℕ) (it : LogIterator) (r : LogRecord)
    → it.current ≡ some r
    → visit (suc fuel) it ≡ r ∷ visit fuel (next r it)
unfolding visit
visits_first fuel it r e =
    ap
      (λ (o : Option LogRecord). elim o as (λ x. List LogRecord) [
        | none ↦ []
        | some x ↦ x ∷ visit fuel (next x it)
      ])
      e

ended : (fuel : ℕ) (it : LogIterator) → it.current ≡ none → visit (suc fuel) it ≡ []
unfolding visit
ended fuel it e = rw (visit, e) refl

loop_some :
    (fuel : ℕ) (it : LogIterator) (r : LogRecord) (m : RecoveryManager)
    → it.current ≡ some r
    → redo_loop (suc fuel) it m ≡ redo_loop fuel (next r it) (redo_record r m)
unfolding redo_loop
loop_some fuel it r m e =
    ap
      (λ (o : Option LogRecord). elim o as (λ x. RecoveryManager) [
        | none ↦ m
        | some x ↦ redo_loop fuel (next x it) (redo_record x m)
      ])
      e

loop_none :
    (fuel : ℕ) (it : LogIterator) (m : RecoveryManager)
    → it.current ≡ none
    → redo_loop (suc fuel) it m ≡ m
unfolding redo_loop
loop_none fuel it m e = rw (redo_loop, e) refl

-- The loop of Recover applies the records that the iterator visits.
pub redo_loop-Shows :
    (fuel : ℕ) (it : LogIterator) (store : Store) (m : RecoveryManager)
    → Shows store m
    → CanApplyAll (visit fuel it) store
    → Shows (apply_all (visit fuel it) store) (redo_loop fuel it m)
      × AppliesAll (visit fuel it) store (apply_all (visit fuel it) store)
unfolding redo_loop visit apply_all
redo_loop-Shows zero it store m s c = (s, refl)
redo_loop-Shows (suc fuel) it store m s c = elim (Option-cases it.current) [
  | inl e ↦ rw (ended fuel it e, loop_none fuel it m e) (s, refl)
  | inr (r, e) ↦
      let c' : CanApplyAll (r ∷ visit fuel (next r it)) store =
        subst (λ rs. CanApplyAll rs store) (visits_first fuel it r e) c in
      let (shown, rest) =
        redo_loop-Shows fuel (next r it) (apply_of r.kind r store) (redo_record r m)
          (redo_of-Shows r.kind r store m s c'.0) c'.1 in
      let first = apply_of-Applies r.kind r store s.represents.holds.storable c'.0 in
      rw (visits_first fuel it r e, loop_some fuel it r m e)
        (shown, (apply_of r.kind r store, first, rest))
]

-- Recover, where Begin returns an iterator, on a pool that shows the pages of a store and has
-- none pinned: where each record that the iterator visits can be applied, it returns, and the pool
-- that it leaves, and any new pool on the disk that it leaves, show the store with these records
-- applied in order.
pub recover-apply_all :
    (fuel n : ℕ) (store : Store) (m : RecoveryManager) (it : LogIterator) (l : LogManager)
    → begin_at none 0 m.log_manager ≡ ok it l
    → Shows store m
    → CanApplyAll (visit fuel it) store
    → n ≤ invalid_frame_id
    → (count : ℕ) × (after : RecoveryManager) × (recover fuel none m ≡ ok count after)
      × Represents (apply_all (visit fuel it) store) after.bpm
      × Represents (apply_all (visit fuel it) store) (open_pool n after.bpm.disk)
      × AppliesAll (visit fuel it) store (apply_all (visit fuel it) store)
unfolding recover
recover-apply_all fuel n store m it l e s c room =
    let start = record m { redo_count = 0; log_manager = l } in
    let looped = redo_loop fuel it start in
    let (shown, applied) =
      redo_loop-Shows fuel it store start (record { represents = s.represents; idle = s.idle }) c in
    let flushed =
      flush_all_pages-Represents n (apply_all (visit fuel it) store) looped.bpm shown.represents
        room in
    (
      looped.redo_count,
      record looped { bpm = flush_all_pages looped.bpm },
      rw (recover, e) refl,
      flushed.0,
      flushed.1,
      applied,
    )

-- Well-formed records of a valid type, appended to an empty log of less than 2^64 bytes by
-- complete writes and not flushed by the client, are the records that Recover applies, with fuel
-- for one more than their number: on a pool that shows the pages of a store and has none pinned,
-- where the page of each record that changes one is in the store when its turn comes, and has room
-- for an update, Recover returns, and the pool, and any new pool of fewer than 2^32 frames on the
-- disk that it leaves, show the store that the records lead to one by one. A record changes its
-- page only: an insert leaves a page that has a record in its slot, and one that takes no more, as
-- they are, and else puts the payload into some free slot; a delete leaves its slot without a
-- record; an update leaves its slot without a record as it is, and else puts the new record there;
-- no other slot changes.
pub recover-append_all :
    (rs : List LogRecord) (contents : Bytes) (n : ℕ) (store : Store) (b : BufferPoolManager)
    → All IsLogged rs
    → length (log_image rs) < 18446744073709551616
    → Represents store b
    → IsIdle b
    → CanApplyAll rs store
    → n ≤ invalid_frame_id
    → (l : LogManager) × (count : ℕ) × (after : RecoveryManager) × (append_all rs
          (open_log (record { contents = contents; size = 0 }))
        ≡ ok tt l)
      × (recover (suc (length rs)) none (record { log_manager = l; bpm = b; redo_count = 0 })
          ≡ ok count after)
      × Represents (apply_all rs store) after.bpm
      × Represents (apply_all rs store) (open_pool n after.bpm.disk)
      × AppliesAll rs store (apply_all rs store)
recover-append_all rs contents n store b logged small r i c room =
    let (l, flushed, appended, it, e, visited) = visit-append_all rs contents logged small in
    let (count, after, returned, shown, reopened, applied) =
      recover-apply_all (suc (length rs)) n store
        (record { log_manager = l; bpm = b; redo_count = 0 }) it flushed e
        (record { represents = r; idle = i }) (subst (λ x. CanApplyAll x store) (sym visited) c)
        room in
    (
      l,
      count,
      after,
      appended,
      returned,
      subst (λ x. Represents (apply_all x store) after.bpm) visited shown,
      subst (λ x. Represents (apply_all x store) (open_pool n after.bpm.disk)) visited reopened,
      subst (λ x. AppliesAll x store (apply_all x store)) visited applied,
    )
