-- ===== src/Recovery/Effects.antt =====
-- What the records of the log do to a store of pages: by the operations of a page, and by the records
-- that the page holds before and after.
use court_db.Base.{
  none≢some, ℕ, suc, ◌<◌, ◌≡◌, ◌≢◌, refl, sym, ap, subst, ◌∙◌, arith, Option, none, some, List, [],
  ◌∷◌, length, ◌⊎◌, inl, inr, Option-cases,
}
use court_db.Page.{Page, invalid_page_id, get_record, insert_record, delete_record, update_record}
use court_db.Page.Invariant
use court_db.Page.Delete.{get_record-delete_record}
use court_db.Page.Lookup.{
  get_record-insert_record, insert_record_free, insert_record_refused, get_record_past,
  get_record_gone,
}
use court_db.Page.Update.{HasRoom, Absent, Updated, update_record-Updated}
use court_db.LogRecord.{
  LogRecord, LogRecordType, invalid, insert, delete, update, new_page, checkpoint_begin,
  checkpoint_end, unknown, get_update_data,
}
use court_db.Buffer.{assign}
use court_db.Buffer.Store.{Store, IsStorable}

-- The page after an insert, a delete and an update.
pub insert_into : LogRecord → Page → Page
insert_into r p = elim (get_record r.slot_id p) [
  | none ↦ (insert_record (some r.payload) p).1
  | some old ↦ p
]

pub delete_from : LogRecord → Page → Page
delete_from r p = (delete_record r.slot_id p).1

pub update_in : LogRecord → Page → Page
update_in r p = elim (get_record r.slot_id p) [
  | none ↦ p
  | some old ↦ (update_record r.slot_id (get_update_data r).1 p).1
]

abbrev pub change_page : (Page → Page) → ℕ → Option Page → Store → Store
change_page change id none store = store
change_page change id (some p) store = assign id (some (change p)) store

unfoldable pub apply_of : LogRecordType → LogRecord → Store → Store
apply_of insert r store = change_page (insert_into r) r.page_id (store r.page_id) store
apply_of delete r store = change_page (delete_from r) r.page_id (store r.page_id) store
apply_of update r store = change_page (update_in r) r.page_id (store r.page_id) store
apply_of new_page r store = store
apply_of checkpoint_begin r store = store
apply_of checkpoint_end r store = store
apply_of invalid r store = store
apply_of (unknown b) r store = store

-- The records of a log, applied in order.
unfoldable pub apply_all : List LogRecord → Store → Store
apply_all [] store = store
apply_all (r ∷ rs) store = apply_all rs (apply_of r.kind r store)

abbrev pub HasPage : LogRecord → Store → Type 0
HasPage r store = (p : Page) × (store r.page_id ≡ some p) × (r.page_id ≢ invalid_page_id)

-- The page that a record changes is in the store, with room for an update.
abbrev pub CanApply : LogRecordType → LogRecord → Store → Type 0
CanApply insert r store = HasPage r store
CanApply delete r store = HasPage r store
CanApply update r store =
    (p : Page) × (store r.page_id ≡ some p)
    × (r.page_id ≢ invalid_page_id)
    × HasRoom r.slot_id (get_update_data r).1 p
    × (length (get_update_data r).1 < 65536)
CanApply new_page r store = Unit
CanApply checkpoint_begin r store = Unit
CanApply checkpoint_end r store = Unit
CanApply invalid r store = Unit
CanApply (unknown b) r store = Unit

abbrev pub CanApplyAll : List LogRecord → Store → Type 0
CanApplyAll [] store = Unit
CanApplyAll (r ∷ rs) store = CanApply r.kind r store × CanApplyAll rs (apply_of r.kind r store)

-- No slot but `i` has another record.
abbrev pub SameBut : ℕ → Page → Page → Type 0
SameBut i p q = (j : ℕ) → j ≢ i → get_record j q ≡ get_record j p

-- An insert puts the record into a free slot, where the page takes it, unless its own slot holds one.
abbrev pub HasInserted : LogRecord → Page → Page → Type 0
HasInserted r p q =
    ((get_record r.slot_id p ≢ none) × (q ≡ p))
    ⊎ ((get_record r.slot_id p ≡ none)
        × ((((insert_record (some r.payload) p).0 ≡ none) × (q ≡ p))
            ⊎ ((i : ℕ) × (get_record i p ≡ none)
                × (get_record i q ≡ some r.payload)
                × SameBut i p q)))

abbrev pub HasDeleted : LogRecord → Page → Page → Type 0
HasDeleted r p q = (get_record r.slot_id q ≡ none) × SameBut r.slot_id p q

abbrev pub HasUpdated : LogRecord → Page → Page → Type 0
HasUpdated r p q =
    ((get_record r.slot_id p ≡ none) × (q ≡ p))
    ⊎ ((get_record r.slot_id p ≢ none)
        × (get_record r.slot_id q ≡ some (get_update_data r).1)
        × SameBut r.slot_id p q)

-- A record changes its page only.
abbrev pub ChangesPage : (Page → Page → Type 0) → ℕ → Store → Store → Type 0
ChangesPage Change id s t =
    (p q : Page) × (s id ≡ some p) × (t id ≡ some q) × Change p q × ((k : ℕ) → k ≢ id → t k ≡ s k)

abbrev pub Applies : LogRecordType → LogRecord → Store → Store → Type 0
Applies insert r s t = ChangesPage (HasInserted r) r.page_id s t
Applies delete r s t = ChangesPage (HasDeleted r) r.page_id s t
Applies update r s t = ChangesPage (HasUpdated r) r.page_id s t
Applies new_page r s t = t ≡ s
Applies checkpoint_begin r s t = t ≡ s
Applies checkpoint_end r s t = t ≡ s
Applies invalid r s t = t ≡ s
Applies (unknown b) r s t = t ≡ s

-- One record after the other, from `s` to `t`.
abbrev pub AppliesAll : List LogRecord → Store → Store → Type 0
AppliesAll [] s t = t ≡ s
AppliesAll (r ∷ rs) s t = (mid : Store) × Applies r.kind r s mid × AppliesAll rs mid t

get_record-Absent : (i : ℕ) (p : Page) → Absent i p → get_record i p ≡ none
get_record-Absent i p (inl past) = get_record_past p i (ground arith)
get_record-Absent i p (inr gone) = get_record_gone p i gone

pub insert_into_done :
    (r : LogRecord) (p : Page)
    → get_record r.slot_id p ≡ none
    → insert_into r p ≡ (insert_record (some r.payload) p).1
unfolding insert_into
insert_into_done r p e = rw (insert_into, e) refl

pub insert_into_skipped :
    (r : LogRecord) (p : Page) (x : List ℕ) → get_record r.slot_id p ≡ some x → insert_into r p ≡ p
unfolding insert_into
insert_into_skipped r p x e = rw (insert_into, e) refl

pub update_in_done :
    (r : LogRecord) (p : Page) (x : List ℕ)
    → get_record r.slot_id p ≡ some x
    → update_in r p ≡ (update_record r.slot_id (get_update_data r).1 p).1
unfolding update_in
update_in_done r p x e = rw (update_in, e) refl

pub update_in_skipped :
    (r : LogRecord) (p : Page) → get_record r.slot_id p ≡ none → update_in r p ≡ p
unfolding update_in
update_in_skipped r p e = rw (update_in, e) refl

pub delete_from_eq : (r : LogRecord) (p : Page) → delete_from r p ≡ (delete_record r.slot_id p).1
unfolding delete_from
delete_from_eq r p = refl

pub delete_from_skipped :
    (r : LogRecord) (p : Page)
    → Invariant.IsValid p
    → get_record r.slot_id p ≡ none
    → delete_from r p ≡ p
unfolding delete_from
delete_from_skipped r p v e =
    elim (get_record-delete_record r.slot_id (suc r.slot_id) p v (omega arith)) [
      | inl (_, same, _) ↦ same
      | inr (_, there, _, _) ↦ absurd (there e)
    ]

insert_into-HasInserted :
    (r : LogRecord) (p : Page) → Invariant.IsValid p → HasInserted r p (insert_into r p)
insert_into-HasInserted r p v = elim (Option-cases (get_record r.slot_id p)) [
  | inr (x, e) ↦ inl (λ q. none≢some (sym q ∙ e), insert_into_skipped r p x e)
  | inl e ↦ inr (
    e,
    rw (insert_into_done r p e) (elim (Option-cases (insert_record (some r.payload) p).0) [
      | inl full ↦ inl (full, insert_record_refused p r.payload full)
      | inr (i, chosen) ↦ inr (
        i,
        insert_record_free p r.payload i chosen,
        (get_record-insert_record p r.payload i (suc i) v chosen (omega arith)).0,
        λ j ne. (get_record-insert_record p r.payload i j v chosen ne).1,
      )
    ]),
  )
]

delete_from-HasDeleted :
    (r : LogRecord) (p : Page) → Invariant.IsValid p → HasDeleted r p (delete_from r p)
unfolding delete_from
delete_from-HasDeleted r p v = (
  elim (get_record-delete_record r.slot_id (suc r.slot_id) p v (omega arith)) [
    | inl (_, same, absent) ↦ rw same absent
    | inr (_, _, gone, _) ↦ gone
  ],
  λ j ne. elim (get_record-delete_record r.slot_id j p v ne) [
    | inl (_, same, _) ↦ ap (get_record j) same
    | inr (_, _, _, kept) ↦ kept
  ],
)

update_in-HasUpdated :
    (r : LogRecord) (p : Page)
    → Invariant.IsValid p
    → HasRoom r.slot_id (get_update_data r).1 p
    → HasUpdated r p (update_in r p)
update_in-HasUpdated r p v room = elim (Option-cases (get_record r.slot_id p)) [
  | inl e ↦ inl (e, update_in_skipped r p e)
  | inr (x, e) ↦
      let u = updated x e in
      inr (
        λ q. none≢some (sym q ∙ e),
        rw (update_in_done r p x e) u.self,
        λ j ne. rw (update_in_done r p x e) (u.others j ne),
      )
]
  where
    updated :
        (x : List ℕ)
        → get_record r.slot_id p ≡ some x
        → Updated r.slot_id
            (get_update_data r).1
            p
            (update_record r.slot_id (get_update_data r).1 p).1
    updated x e = elim (update_record-Updated r.slot_id (get_update_data r).1 p v room) [
      | inl (gone, _, _) ↦ absurd (none≢some (sym (get_record-Absent r.slot_id p gone) ∙ e))
      | inr (_, u) ↦ u
    ]

change_page-ChangesPage :
    (Change : Page → Page → Type 0) (change : Page → Page) (id : ℕ) (p : Page) (s : Store)
    → s id ≡ some p
    → Change p (change p)
    → ChangesPage Change id s (change_page change id (s id) s)
change_page-ChangesPage Change change id p s e c =
    subst (λ o. ChangesPage Change id s (change_page change id o s)) (sym e)
      (p, change p, e, ground arith, c, λ k ne. ground arith)

-- Each kind of record does to its page what it stands for.
pub apply_of-Applies :
    (t : LogRecordType) (r : LogRecord) (s : Store)
    → ((id : ℕ) (p : Page) → s id ≡ some p → IsStorable p)
    → CanApply t r s
    → Applies t r s (apply_of t r s)
unfolding apply_of
apply_of-Applies insert r s g (p, e, _) =
    change_page-ChangesPage (HasInserted r) (insert_into r) r.page_id p s e
      (insert_into-HasInserted r p (g r.page_id p e).valid)
apply_of-Applies delete r s g (p, e, _) =
    change_page-ChangesPage (HasDeleted r) (delete_from r) r.page_id p s e
      (delete_from-HasDeleted r p (g r.page_id p e).valid)
apply_of-Applies update r s g (p, e, _, room, _) =
    change_page-ChangesPage (HasUpdated r) (update_in r) r.page_id p s e
      (update_in-HasUpdated r p (g r.page_id p e).valid room)
apply_of-Applies new_page r s g c = refl
apply_of-Applies checkpoint_begin r s g c = refl
apply_of-Applies checkpoint_end r s g c = refl
apply_of-Applies invalid r s g c = refl
apply_of-Applies (unknown b) r s g c = refl
