-- ===== src/Recovery/Redo.antt =====
-- RedoRecord of src/recovery/recovery_manager.cpp on one page.
use court_db.Base.{
  none≢some, ℕ, suc, ◌<◌, ◌≡◌, ◌≢◌, refl, sym, ap, subst, ◌∙◌, arith, Bool, true, false, Option,
  none, some, List, ◌==◌, length, ◌⊎◌, inl, inr, Bool-cases, Option-cases,
}
use court_db.Page.{Page, get_record, insert_record, delete_record, update_record}
use court_db.Page.Invariant
use court_db.Page.Insert.{insert_record-IsValid}
use court_db.Page.Delete.{delete_record-IsValid, get_record-delete_record}
use court_db.Page.Update.{HasRoom, update_record-Updated}
use court_db.Page.Lookup.{get_record-insert_record, insert_record_free}
use court_db.Page.Image.Same.{SamePage, SamePage-get_record}
use court_db.Page.Image.Change.{
  SameResult, insert_record-SamePage, delete_record-SamePage, update_record-SamePage,
}
use court_db.Page.Image.Fits.{Fits, insert_record-Fits, delete_record-Fits, update_record-Fits}
use court_db.LogRecord.{LogRecord, get_update_data}
use court_db.Buffer.Store.{IsStorable}
use court_db.Recovery.{redo_insert, redo_delete, redo_update}

-- A case of RedoRecord that answers alike for pages that are the same, and leaves a page that can be
-- stored.
pub record IsRedo (redo : Page → Bool × Page) (q : Page) : Type 0 where
  pub same : (p : Page) → SamePage p q → SameResult (redo p) (redo q)
  pub storable : IsStorable (redo q).1

fitting-IsStorable : (p : Page) → Invariant.IsValid p → Fits p → IsStorable p
fitting-IsStorable p v g = record { valid = v; fits = g.fits; slots_fit = g.slots_fit }

shortened : (p : Page) → IsStorable p → Fits p
shortened p g = record { fits = g.fits; slots_fit = g.slots_fit }

pub redo_insert_done :
    (r : LogRecord) (p : Page)
    → get_record r.slot_id p ≡ none
    → redo_insert r p ≡ (true, (insert_record (some r.payload) p).1)
unfolding redo_insert
redo_insert_done r p e = rw (redo_insert, e) refl

pub redo_insert_skipped :
    (r : LogRecord) (p : Page) (x : List ℕ)
    → get_record r.slot_id p ≡ some x
    → redo_insert r p ≡ (false, p)
unfolding redo_insert
redo_insert_skipped r p x e = rw (redo_insert, e) refl

pub redo_delete_done :
    (r : LogRecord) (p : Page) (x : List ℕ)
    → get_record r.slot_id p ≡ some x
    → redo_delete r p ≡ (true, (delete_record r.slot_id p).1)
unfolding redo_delete
redo_delete_done r p x e = rw (redo_delete, e) refl

pub redo_delete_skipped :
    (r : LogRecord) (p : Page) → get_record r.slot_id p ≡ none → redo_delete r p ≡ (false, p)
unfolding redo_delete
redo_delete_skipped r p e = rw (redo_delete, e) refl

pub redo_update_done :
    (r : LogRecord) (p : Page) (x : List ℕ)
    → get_record r.slot_id p ≡ some x
    → redo_update r p ≡ (true, (update_record r.slot_id (get_update_data r).1 p).1)
unfolding redo_update
redo_update_done r p x e = rw (redo_update, e) refl

pub redo_update_skipped :
    (r : LogRecord) (p : Page) → get_record r.slot_id p ≡ none → redo_update r p ≡ (false, p)
unfolding redo_update
redo_update_skipped r p e = rw (redo_update, e) refl

-- Two pages that are the same give the same record.
moved :
    (r : LogRecord) (p q : Page) (o : Option (List ℕ))
    → SamePage p q
    → IsStorable q
    → get_record r.slot_id q ≡ o
    → get_record r.slot_id p ≡ o
moved r p q o s g e = SamePage-get_record p q r.slot_id s g.valid ∙ e

pub redo_insert-IsRedo : (r : LogRecord) (q : Page) → IsStorable q → IsRedo (redo_insert r) q
redo_insert-IsRedo r q g = elim (Option-cases (get_record r.slot_id q)) [
  | inl e ↦ record {
    same = λ p s.
        rw (redo_insert_done r p (moved r p q none s g e), redo_insert_done r q e)
          (refl, (insert_record-SamePage r.payload p q s g.valid).1);
    storable = rw (redo_insert_done r q e) (
        fitting-IsStorable _ (insert_record-IsValid (some r.payload) q g.valid)
          (insert_record-Fits r.payload q g.valid (shortened q g)));
  }
  | inr (x, e) ↦ record {
    same = λ p s.
        rw (redo_insert_skipped r p x (moved r p q (some x) s g e), redo_insert_skipped r q x e)
          (refl, s);
    storable = rw (redo_insert_skipped r q x e) g;
  }
]

pub redo_delete-IsRedo : (r : LogRecord) (q : Page) → IsStorable q → IsRedo (redo_delete r) q
redo_delete-IsRedo r q g = elim (Option-cases (get_record r.slot_id q)) [
  | inl e ↦ record {
    same = λ p s.
        rw (redo_delete_skipped r p (moved r p q none s g e), redo_delete_skipped r q e) (refl, s);
    storable = rw (redo_delete_skipped r q e) g;
  }
  | inr (x, e) ↦ record {
    same = λ p s.
        rw (redo_delete_done r p x (moved r p q (some x) s g e), redo_delete_done r q x e)
          (refl, (delete_record-SamePage r.slot_id p q s g.valid).1);
    storable = rw (redo_delete_done r q x e) (
        fitting-IsStorable _ (delete_record-IsValid r.slot_id q g.valid)
          (delete_record-Fits r.slot_id q (shortened q g)));
  }
]

-- An update needs room for the new record.
updated-IsValid :
    (i : ℕ) (bs : List ℕ) (p : Page)
    → Invariant.IsValid p
    → HasRoom i bs p
    → Invariant.IsValid (update_record i bs p).1
updated-IsValid i bs p v room = elim (update_record-Updated i bs p v room) [
  | inl (_, _, e) ↦ rw e v
  | inr (_, u) ↦ u.valid
]

pub redo_update-IsRedo :
    (r : LogRecord) (q : Page)
    → IsStorable q
    → HasRoom r.slot_id (get_update_data r).1 q
    → length (get_update_data r).1 < 65536
    → IsRedo (redo_update r) q
redo_update-IsRedo r q g room short = elim (Option-cases (get_record r.slot_id q)) [
  | inl e ↦ record {
    same = λ p s.
        rw (redo_update_skipped r p (moved r p q none s g e), redo_update_skipped r q e) (refl, s);
    storable = rw (redo_update_skipped r q e) g;
  }
  | inr (x, e) ↦ record {
    same = λ p s.
        rw (redo_update_done r p x (moved r p q (some x) s g e), redo_update_done r q x e)
          (refl, (update_record-SamePage r.slot_id (get_update_data r).1 p q s g.valid).1);
    storable = rw (redo_update_done r q x e) (
        fitting-IsStorable _ (updated-IsValid r.slot_id (get_update_data r).1 q g.valid room)
          (update_record-Fits r.slot_id (get_update_data r).1 q short (shortened q g)));
  }
]

-- A delete that is redone twice leaves what it leaves once.
pub redo_delete-twice :
    (r : LogRecord) (p : Page)
    → Invariant.IsValid p
    → redo_delete r (redo_delete r p).1 ≡ (false, (redo_delete r p).1)
redo_delete-twice r p v = elim (Option-cases (get_record r.slot_id p)) [
  | inl e ↦ rw (redo_delete_skipped r p e) (redo_delete_skipped r p e)
  | inr (x, e) ↦
      rw (redo_delete_done r p x e) (redo_delete_skipped r (delete_record r.slot_id p).1 (gone x e))
]
  where
    gone :
        (x : List ℕ)
        → get_record r.slot_id p ≡ some x
        → get_record r.slot_id (delete_record r.slot_id p).1 ≡ none
    gone x e = elim (get_record-delete_record r.slot_id (suc r.slot_id) p v (omega arith)) [
      | inl (_, _, absent) ↦ absurd (none≢some (sym absent ∙ e))
      | inr (_, _, empty, _) ↦ empty
    ]

-- The redo of an insert into a slot without a record, on a well-formed page on which InsertRecord
-- chooses slot `i`, and slot `j` for the same record once more: redone again, it changes nothing
-- if `i` is the slot of the log record, and if not, the page then holds the record in both slots,
-- which are different.
pub redo_insert-twice :
    (r : LogRecord) (p : Page) (i j : ℕ)
    → Invariant.IsValid p
    → get_record r.slot_id p ≡ none
    → (insert_record (some r.payload) p).0 ≡ some i
    → (insert_record (some r.payload) (insert_record (some r.payload) p).1).0 ≡ some j
    → ((i ≡ r.slot_id) × (redo_insert r (redo_insert r p).1 ≡ (false, (redo_insert r p).1)))
      ⊎ ((i ≢ r.slot_id)
          × ((redo_insert r (redo_insert r p).1).0 ≡ true)
          × (i ≢ j)
          × (get_record i (redo_insert r (redo_insert r p).1).1 ≡ some r.payload)
          × (get_record j (redo_insert r (redo_insert r p).1).1 ≡ some r.payload))
redo_insert-twice r p i j v absent e again =
    rw (redo_insert_done r p absent) (elim (Bool-cases (i == r.slot_id)) [
      | inl same ↦
          let i_eq : i ≡ r.slot_id = ground arith in
          inl (
            i_eq,
            redo_insert_skipped r after r.payload
                (subst (λ k. get_record k after ≡ some r.payload) i_eq got),
          )
      | inr different ↦
          let ne : i ≢ r.slot_id = ground arith in
          let kept = (get_record-insert_record p r.payload i r.slot_id v e (λ q. ne (sym q))).1 in
          let apart : i ≢ j = λ q. none≢some (
            sym (insert_record_free after r.payload j again)
            ∙ ap (λ k. get_record k after) (sym q)
            ∙ got) in
          let w = insert_record-IsValid (some r.payload) p v in
          let second = get_record-insert_record after r.payload j i w again apart in
          rw (redo_insert_done r after (kept ∙ absent))
            (inr (ne, refl, apart, second.1 ∙ got, second.0))
    ])
  where
    after : Page
    after = (insert_record (some r.payload) p).1

    got : get_record i after ≡ some r.payload
    got = (get_record-insert_record p r.payload i (suc i) v e (omega arith)).0
