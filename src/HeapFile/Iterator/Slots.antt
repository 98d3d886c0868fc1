-- ===== src/HeapFile/Iterator/Slots.antt =====
-- The loops over the slots of a page in the heap file iterator of src/storage/heap_file.cpp, and what
-- the iterator still yields.
use court_db.Base.{
  ℕ, zero, suc, ◌+◌, ◌<◌, ◌≤◌, ◌≡◌, ◌≢◌, refl, ap, ◌∙◌, arith, true, false, Option, none, some,
  List, [], ◌∷◌, ◌++◌, inl, inr, ◌⊎◌, Option-cases, ltb, length,
}
use court_db.Page.{Page, PageHeader, invalid_page_id, get_record}
use court_db.Page.Image.Same.{SamePage-get_record}
use court_db.Record.{Rid}
use court_db.Buffer.{BufferPoolManager, fetch_page}
use court_db.Buffer.Store.{Store, IsStorable, Represents}
use court_db.Buffer.Store.Idle.{IsIdle, Access}
use court_db.HeapFile.Iterator.{HeapFileIterator, first_record, stopped}

-- The RIDs of the records in the `n` slots of a page from `slot`.
unfoldable pub rids_from : ℕ → ℕ → ℕ → Page → List Rid
rids_from id zero slot p = []
rids_from id (suc n) slot p =
    let rest = rids_from id n (slot + 1) p in
    elim (get_record slot p) [
      | none ↦ rest
      | some bs ↦ record { page_id = id; slot_id = slot } ∷ rest
    ]

-- `ps` are the pages of the chain from `id`.
unfoldable pub IsChain : Store → ℕ → List Page → Type 0
IsChain store id [] = id ≡ invalid_page_id
IsChain store id (p ∷ ps) =
    (id ≢ invalid_page_id) × (store id ≡ some p) × IsChain store p.next_page_id ps

-- The RIDs of the records of a chain, page by page and slot by slot.
unfoldable pub chain_rids : ℕ → List Page → List Rid
chain_rids id [] = []
chain_rids id (p ∷ ps) = rids_from id p.num_slots 0 p ++ chain_rids p.next_page_id ps

-- What the slot loop found: no record, or the first one and those behind it.
abbrev First : ℕ → ℕ → ℕ → Page → Option ℕ → Type 0
First id n slot p none = rids_from id n slot p ≡ []
First id n slot p (some t) =
    (m : ℕ) × (t + 1 + m ≡ slot + n)
    × (rids_from id n slot p ≡ record { page_id = id; slot_id = t } ∷ rids_from id m (t + 1) p)

pub rids_past :
    (id n slot : ℕ) (p : Page)
    → get_record slot p ≡ none
    → rids_from id (suc n) slot p ≡ rids_from id n (slot + 1) p
unfolding rids_from
rids_past id n slot p e = rw (rids_from, e) refl

pub rids_at :
    (id n slot : ℕ) (p : Page) (bs : List ℕ)
    → get_record slot p ≡ some bs
    → rids_from id (suc n) slot p
      ≡ record { page_id = id; slot_id = slot } ∷ rids_from id n (slot + 1) p
unfolding rids_from
rids_at id n slot p bs e = rw (rids_from, e) refl

pub length-rids_from : (id n slot : ℕ) (p : Page) → length (rids_from id n slot p) ≤ n
unfolding rids_from
length-rids_from id zero slot p = omega arith
length-rids_from id (suc n) slot p =
    let rest = length-rids_from id n (slot + 1) p in
    elim (Option-cases (get_record slot p)) [
      | inl e ↦ rw (rids_past id n slot p e) (omega arith)
      | inr (bs, e) ↦ rw (rids_at id n slot p bs e) (omega arith)
    ]

skip-First :
    (id n slot : ℕ) (p : Page) (o : Option ℕ)
    → get_record slot p ≡ none
    → First id n (slot + 1) p o
    → First id (suc n) slot p o
skip-First id n slot p none e r = rids_past id n slot p e ∙ r
skip-First id n slot p (some t) e (m, h, r) = (m, omega (arith, h), rids_past id n slot p e ∙ r)

first_record-First :
    (id n slot : ℕ) (p q : Page)
    → ((j : ℕ) → get_record j q ≡ get_record j p)
    → slot + n ≡ q.num_slots
    → First id n slot p (first_record n slot q)
unfolding first_record rids_from
first_record-First id zero slot p q same h = refl
first_record-First id (suc n) slot p q same h =
    let inside : ltb slot q.num_slots ≡ true = ground (arith, h) in
    elim (Option-cases (get_record slot p)) [
      | inl e ↦
          rw (inside, same slot, e)
            (skip-First id n slot p (first_record n (slot + 1) q) e
              (first_record-First id n (slot + 1) p q same (omega (arith, h))))
      | inr (bs, e) ↦ rw (inside, same slot, e) (n, omega arith, rids_at id n slot p bs e)
    ]

-- The iterator's pool shows the pages of the store. Either no record is left, and no page is pinned,
-- or the iterator is at the first RID of `rids`, with the page pinned by a fetch on an idle pool.
pub record AtRecord (fuel : ℕ) (store : Store) (rids : List Rid) (it : HeapFileIterator)
    : Type 0 where
  pub before : BufferPoolManager
  pub idle : IsIdle before
  pub id : ℕ
  pub slot : ℕ
  pub frame : ℕ
  pub page : Page
  pub left : ℕ
  pub pages : List Page
  pub stored : store id ≡ some page
  pub access : Access store id page before frame
  pub counted : slot + 1 + left ≡ page.num_slots
  pub chain : IsChain store page.next_page_id pages
  pub bounded : length pages < fuel
  pub state_eq : it ≡ stopped id slot frame (fetch_page id before).1
  pub rids_eq :
      rids
      ≡ record { page_id = id; slot_id = slot }
        ∷ (rids_from id left (slot + 1) page ++ chain_rids page.next_page_id pages)

pub record AtEnd (store : Store) (rids : List Rid) (it : HeapFileIterator) : Type 0 where
  pub done : it.is_valid ≡ false
  pub none_left : rids ≡ []
  pub represents : Represents store it.bpm
  pub idle : IsIdle it.bpm

abbrev pub Yields : ℕ → Store → List Rid → HeapFileIterator → Type 0
Yields fuel store rids it = AtEnd store rids it ⊎ AtRecord fuel store rids it

-- The slot loop on the page in frame `f` from `slot`, and the pages behind it.
choose-Yields :
    (fuel : ℕ) (store : Store) (id f n slot : ℕ) (p : Page) (ps : List Page) (b : BufferPoolManager)
    (rest : HeapFileIterator) (o : Option ℕ)
    → length ps < fuel
    → IsIdle b
    → store id ≡ some p
    → Access store id p b f
    → slot + n ≡ p.num_slots
    → IsChain store p.next_page_id ps
    → First id n slot p o
    → Yields fuel store (chain_rids p.next_page_id ps) rest
    → Yields fuel store
        (rids_from id n slot p ++ chain_rids p.next_page_id ps)
        (elim o [ some t ↦ stopped id t f (fetch_page id b).1 | none ↦ rest ])
choose-Yields fuel store id f n slot p ps b rest none bound i e a h c r y = rw r y
choose-Yields fuel store id f n slot p ps b rest (some t) bound i e a h c (m, k, r) y =
    inr (record {
      before = b;
      idle = i;
      id = id;
      slot = t;
      frame = f;
      page = p;
      left = m;
      pages = ps;
      stored = e;
      access = a;
      counted = k ∙ h;
      chain = c;
      bounded = bound;
      state_eq = refl;
      rids_eq = rw r refl;
    })

pub slots-Yields :
    (fuel : ℕ) (store : Store) (id f n slot : ℕ) (p : Page) (ps : List Page) (b : BufferPoolManager)
    (rest : HeapFileIterator)
    → length ps < fuel
    → IsIdle b
    → store id ≡ some p
    → IsStorable p
    → Access store id p b f
    → slot + n ≡ p.num_slots
    → IsChain store p.next_page_id ps
    → Yields fuel store (chain_rids p.next_page_id ps) rest
    → Yields fuel store
        (rids_from id n slot p ++ chain_rids p.next_page_id ps)
        (elim (first_record n slot ((fetch_page id b).1.pages f)) [
          | some t ↦ stopped id t f (fetch_page id b).1
          | none ↦ rest
        ])
slots-Yields fuel store id f n slot p ps b rest bound i e g a h c y =
    let counts = ap (λ x. PageHeader.num_slots x) a.same.header_eq in
    choose-Yields fuel store id f n slot p ps b rest _ bound i e a h c
      (first_record-First id n slot p ((fetch_page id b).1.pages f)
        (λ j. SamePage-get_record _ p j a.same g.valid) (omega (arith, h, counts)))
      y
