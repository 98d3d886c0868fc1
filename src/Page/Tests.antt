-- ===== src/Page/Tests.antt =====
-- The page's theorems at small pages.
use court_db.Base.{
  ℕ, ◌<◌, ◌≡◌, ◌≢◌, refl, ◌⊎◌, inl, true, false, none, some, List, [], ◌∷◌, arith, length, All,
}
use court_db.Page.{
  Page, invalid_page_id, new_page, insert_record, insert_at, find_empty_slot, find_empty_from,
  delete_record, get_record, update_record, has_space_for, get_free_space,
}
use court_db.Page.Invariant.{IsValid, live, new_page-IsValid}
use court_db.Page.Insert.{insert_record-IsValid}
use court_db.Page.Lookup.{get_record-insert_record}
use court_db.Page.Delete.{get_record-delete_record}
use court_db.Page.Update.{Absent, Updated, update_record-Updated, update_record_overruns}
use court_db.Page.Space.{is_some, insert_record-has_space_for}
use court_db.Page.Image.{HeaderFits, SlotFits, reload, reload-get_record}

abbrev bytes : List ℕ
bytes = 10 ∷ 20 ∷ 30 ∷ []

abbrev pub page : Page
page = (insert_record (some bytes) (new_page 1)).1

pub last_page : page.next_page_id ≡ invalid_page_id
unfolding insert_record insert_at find_empty_slot find_empty_from new_page
last_page = refl

pub one_slot : page.num_slots ≡ 1
unfolding insert_record insert_at find_empty_slot find_empty_from new_page
one_slot = refl

pub page-IsValid : IsValid page
page-IsValid = insert_record-IsValid (some bytes) (new_page 1) (new_page-IsValid 1)

insert_record-IsValid_example : IsValid (insert_record (some bytes) (new_page 1)).1
insert_record-IsValid_example = insert_record-IsValid (some bytes) (new_page 1) (new_page-IsValid 1)

get_record-insert_record_example :
    (get_record 0 page ≡ some bytes) × (get_record 1 page ≡ get_record 1 (new_page 1))
unfolding insert_record insert_at find_empty_slot find_empty_from new_page
get_record-insert_record_example =
    get_record-insert_record (new_page 1) bytes 0 1 (new_page-IsValid 1) refl (omega arith)

get_record-delete_record_example :
    (((delete_record 0 page).0 ≡ false)
      × ((delete_record 0 page).1 ≡ page)
      × (get_record 0 page ≡ none))
    ⊎ (((delete_record 0 page).0 ≡ true)
        × (get_record 0 page ≢ none)
        × (get_record 0 (delete_record 0 page).1 ≡ none)
        × (get_record 1 (delete_record 0 page).1 ≡ get_record 1 page))
get_record-delete_record_example = get_record-delete_record 0 1 page page-IsValid (omega arith)

update_record-Updated_example :
    (Absent 0 page
      × ((update_record 0 (1 ∷ []) page).0 ≡ false)
      × ((update_record 0 (1 ∷ []) page).1 ≡ page))
    ⊎ (((update_record 0 (1 ∷ []) page).0 ≡ true)
        × Updated 0 (1 ∷ []) page (update_record 0 (1 ∷ []) page).1)
unfolding insert_record insert_at find_empty_slot find_empty_from new_page
update_record-Updated_example =
    update_record-Updated 0 (1 ∷ []) page page-IsValid (inl (omega arith))

insert_record-has_space_for_example :
    (is_some (insert_record (some bytes) page).0 ≡ has_space_for (length bytes) page)
    × ((is_some (insert_record (some bytes) page).0 ≡ true)
        ⊎ ((insert_record (some bytes) page).1 ≡ page))
insert_record-has_space_for_example =
    insert_record-has_space_for bytes page page-IsValid (omega arith) (omega arith)

pub page-HeaderFits : HeaderFits page.header
unfolding insert_record insert_at find_empty_slot find_empty_from new_page
page-HeaderFits = omega arith

pub page-SlotFits : All SlotFits page.slots
unfolding insert_record insert_at find_empty_slot find_empty_from new_page
page-SlotFits = omega arith

reload-get_record_example :
    ((reload page (new_page 9)).header ≡ page.header)
    × ((reload page (new_page 9)).slots ≡ page.slots)
    × ((j : ℕ) → get_record j (reload page (new_page 9)) ≡ get_record j page)
reload-get_record_example =
    reload-get_record page (new_page 9) page-IsValid page-HeaderFits page-SlotFits

-- A page whose free region is four bytes long, with one record of two bytes at its end.
abbrev full_page : Page
full_page = record page {
  header = record {
    page_id = 7;
    num_slots = 1;
    free_space_offset = 24;
    free_space_end = 28;
    num_records = 1;
    next_page_id = 4294967295;
    flags = 0;
  };
  slots = record { offset = 28; size = 2 } ∷ [];
}

full_page-IsValid : IsValid full_page
unfolding live
full_page-IsValid = ground arith

update_record_overruns_example :
    ((update_record 0 (1 ∷ 2 ∷ 3 ∷ 4 ∷ 5 ∷ []) full_page).0 ≡ true)
    × ¬ IsValid (update_record 0 (1 ∷ 2 ∷ 3 ∷ 4 ∷ 5 ∷ []) full_page).1
update_record_overruns_example =
    update_record_overruns 0 (1 ∷ 2 ∷ 3 ∷ 4 ∷ 5 ∷ []) full_page full_page-IsValid (omega arith) refl
      (omega arith) (omega arith) (omega arith)

pub takes_next :
    (bs : List ℕ) → 0 < length bs → length bs < 100 → (insert_record (some bs) page).0 ≡ some 1
unfolding insert_record insert_at find_empty_slot find_empty_from new_page
takes_next [] pos short = absurd (omega arith)
takes_next (b ∷ bs) pos short = ground arith

pub second_slot : (insert_record (some bytes) page).0 ≡ some 1
unfolding insert_record insert_at find_empty_slot find_empty_from new_page
second_slot = refl

pub third_slot : (insert_record (some bytes) (insert_record (some bytes) page).1).0 ≡ some 2
unfolding insert_record insert_at find_empty_slot find_empty_from new_page
third_slot = refl

pub no_slot : get_record 5 page ≡ none
unfolding insert_record insert_at find_empty_slot find_empty_from new_page get_record
no_slot = refl

pub first_record : get_record 0 page ≢ none
unfolding insert_record insert_at find_empty_slot find_empty_from new_page get_record
first_record e = cc

pub has_space : has_space_for 2 page ≡ true
unfolding insert_record insert_at find_empty_slot find_empty_from new_page has_space_for
    get_free_space
has_space = refl
