-- ===== src/HeapFile/Iterator/Advance.antt =====
-- The loops over the pages of a chain in the heap file iterator of src/storage/heap_file.cpp, and its
-- constructor.
use court_db.Base.{
  ℕ, zero, suc, ◌+◌, ◌-◌, ◌<◌, ◌≤◌, ◌≡◌, refl, ap, ◌∙◌, arith, Bool, true, false, some, List, [],
  ◌∷◌, ◌++◌, inl, inr, ◌⊎◌, Option-cases, ◌==◌, length, u16,
}
use court_db.Page.{Page, PageHeader, invalid_page_id, get_record}
use court_db.Page.Image.Same.{SamePage-get_record}
use court_db.Record.{Rid, no_rid}
use court_db.Buffer.{BufferPoolManager, fetch_page}
use court_db.Buffer.Store.{Store, Represents}
use court_db.Buffer.Store.Idle.{IsIdle, Access, fetch_page-Access, read-Represents}
use court_db.HeapFile.Iterator.{HeapFileIterator, first_record, walk_pages, advance, make_iterator}
use court_db.HeapFile.Iterator.Slots.{
  rids_from, rids_past, rids_at, IsChain, chain_rids, Yields, slots-Yields,
}

-- Where the frame's page says what the store's does.
num_slots_same :
    (store : Store) (id f : ℕ) (p : Page) (b : BufferPoolManager)
    → Access store id p b f
    → ((fetch_page id b).1.pages f).num_slots ≡ p.num_slots
num_slots_same store id f p b a = ap (λ x. PageHeader.num_slots x) a.same.header_eq

next_same :
    (store : Store) (id f : ℕ) (p : Page) (b : BufferPoolManager)
    → Access store id p b f
    → ((fetch_page id b).1.pages f).next_page_id ≡ p.next_page_id
next_same store id f p b a = ap (λ x. PageHeader.next_page_id x) a.same.header_eq

-- The loop over the pages of a chain, on an idle pool.
walk_pages-Yields :
    (limit fuel id : ℕ) (store : Store) (ps : List Page) (it : HeapFileIterator)
    → length ps < fuel
    → fuel ≤ limit
    → Represents store it.bpm
    → IsIdle it.bpm
    → IsChain store id ps
    → Yields limit store (chain_rids id ps) (walk_pages fuel id it)
unfolding walk_pages IsChain chain_rids
walk_pages-Yields limit zero id store ps it h l v i c = absurd (omega (arith, h))
walk_pages-Yields limit (suc fuel) id store [] it h l v i c =
    rw c (inl (record { done = refl; none_left = refl; represents = v; idle = i }))
walk_pages-Yields limit (suc fuel) id store (p ∷ ps) it h l v i (proper, e, c) =
    let (f, a) = fetch_page-Access id store p it.bpm v i e proper in
    let is_proper : (id == invalid_page_id) ≡ false = ground (arith, proper) in
    let (v', i') = read-Represents id f store p it.bpm i a in
    rw (is_proper, a.found, num_slots_same store id f p it.bpm a)
      (slots-Yields limit store id f p.num_slots 0 p ps it.bpm _ (omega (arith, h, l)) i e
        (v.holds.storable id p e) a (omega arith) c
        (rw (next_same store id f p it.bpm a) (
          walk_pages-Yields limit fuel p.next_page_id store ps _ (omega (arith, h))
            (omega (arith, l)) v' i' c)))

-- The iterator at a slot of the page that a fetch pinned.
abbrev pinned : ℕ → ℕ → ℕ → BufferPoolManager → Rid → Bool → HeapFileIterator
pinned id slot f b rid valid = record {
  bpm = (fetch_page id b).1;
  current_page_id = id;
  current_slot = slot;
  current_page = some f;
  current_rid = rid;
  is_valid = valid;
}

-- AdvanceToNextRecord, from a slot of a page that a fetch on an idle pool pinned.
pub advance-Yields :
    (fuel id slot f left : ℕ) (store : Store) (p : Page) (ps : List Page) (b : BufferPoolManager)
    (rid : Rid) (valid : Bool)
    → length ps < fuel
    → IsIdle b
    → store id ≡ some p
    → Access store id p b f
    → slot + 1 + left ≡ p.num_slots
    → IsChain store p.next_page_id ps
    → Yields fuel store
        (rids_from id left (slot + 1) p ++ chain_rids p.next_page_id ps)
        (advance fuel (pinned id slot f b rid valid))
unfolding advance
advance-Yields fuel id slot f left store p ps b rid valid h i e a k c =
    let g = a.represents.holds.storable id p e in
    let start : u16 (slot + 1) ≡ slot + 1 = omega (arith, k, g.fits.num_slots_fits) in
    let slots : (((fetch_page id b).1.pages f).num_slots - (slot + 1)) ≡ left =
      omega (arith, k, num_slots_same store id f p b a) in
    let (v', i') = read-Represents id f store p b i a in
    rw (advance, start, slots)
      (slots-Yields fuel store id f left (slot + 1) p ps b _ h i e g a k c (
        rw (next_same store id f p b a)
          (walk_pages-Yields fuel fuel p.next_page_id store ps _ h (omega arith) v' i' c)))

-- AdvanceToNextRecord on a page without slots.
empty-Yields :
    (fuel id f : ℕ) (store : Store) (p : Page) (ps : List Page) (b : BufferPoolManager)
    → length ps < fuel
    → IsIdle b
    → Access store id p b f
    → p.num_slots ≡ 0
    → IsChain store p.next_page_id ps
    → Yields fuel store
        (rids_from id p.num_slots 0 p ++ chain_rids p.next_page_id ps)
        (advance fuel (pinned id 0 f b no_rid false))
unfolding advance first_record rids_from
empty-Yields fuel id f store p ps b h i a empty c =
    let (v', i') = read-Represents id f store p b i a in
    let none_here : (((fetch_page id b).1.pages f).num_slots - 1) ≡ 0 =
      omega (arith, empty, num_slots_same store id f p b a) in
    rw (advance, none_here, empty, next_same store id f p b a)
      (walk_pages-Yields fuel fuel p.next_page_id store ps _ h (omega arith) v' i' c)

-- The constructor: on an idle pool, the iterator is at the first record of the chain.
pub make_iterator-Yields :
    (fuel id : ℕ) (store : Store) (ps : List Page) (b : BufferPoolManager)
    → length ps ≤ fuel
    → Represents store b
    → IsIdle b
    → IsChain store id ps
    → Yields fuel store (chain_rids id ps) (make_iterator fuel id b)
unfolding make_iterator IsChain chain_rids
make_iterator-Yields fuel id store [] b h v i c =
    rw c (inl (record { done = refl; none_left = refl; represents = v; idle = i }))
make_iterator-Yields fuel id store (p ∷ ps) b h v i (proper, e, c) =
    let (f, a) = fetch_page-Access id store p b v i e proper in
    let is_proper : (id == invalid_page_id) ≡ false = ground (arith, proper) in
    let g = v.holds.storable id p e in
    let same = SamePage-get_record _ p 0 a.same g.valid in
    let counts = num_slots_same store id f p b a in
    elim (nat-cases p.num_slots) [
      | inl empty ↦
          let here : (((fetch_page id b).1.pages f).num_slots == 0) ≡ true =
            ground (arith, empty, counts) in
          rw (is_proper, a.found, here)
            (empty-Yields fuel id f store p ps b (omega (arith, h)) i a empty c)
      | inr (left, some_slots) ↦
          let here : (((fetch_page id b).1.pages f).num_slots == 0) ≡ false =
            ground (arith, some_slots, counts) in
          let first_rids = ap (λ n. rids_from id n 0 p) some_slots in
          elim (Option-cases (get_record 0 p)) [
            | inl absent ↦
                rw
                  (
                    is_proper,
                    a.found,
                    here,
                    same,
                    absent,
                    first_rids ∙ rids_past id left 0 p absent,
                  )
                  (advance-Yields fuel id 0 f left store p ps b no_rid false (omega (arith, h)) i e
                    a (omega (arith, some_slots)) c)
            | inr (bs, there) ↦
                rw
                  (is_proper, a.found, here, same, there, first_rids ∙ rids_at id left 0 p bs there)
                  (inr (record {
                    before = b;
                    idle = i;
                    id = id;
                    slot = 0;
                    frame = f;
                    page = p;
                    left = left;
                    pages = ps;
                    stored = e;
                    access = a;
                    counted = omega (arith, some_slots);
                    chain = c;
                    bounded = omega (arith, h);
                    state_eq = refl;
                    rids_eq = refl;
                  }))
          ]
    ]
  where
    nat-cases : (n : ℕ) → (n ≡ 0) ⊎ ((k : ℕ) × (n ≡ suc k))
    nat-cases zero = inl refl
    nat-cases (suc k) = inr (k, refl)
