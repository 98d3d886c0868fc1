-- ===== src/LogRecord/Payloads.antt =====
-- The payloads of update and checkpoint records, read back by their accessors.
use mathlib.Core.Path.{ap₂}
use court_db.Base.{
  ℕ, zero, suc, ◌+◌, ◌*◌, ◌^◌, ◌≤◌, ◌<◌, ◌≡◌, refl, ap, ◌∙◌, inl, List, [], ◌∷◌, arith, length, u16,
  u32, All,
}
use court_db.Base.Bytes.{
  Bytes, zeros, read, write, get_le, put_le, get_le_ext, get_le-write_disjoint, copied, read_ext,
  read-write_self, length-read, get_le-put_le_self, get_le-put_le_disjoint, read-put_le_disjoint,
  read-write_disjoint,
}
use court_db.LogRecord.{
  make_update, update_payload, get_update_data, make_checkpoint_end, put_dirty_pages,
  get_dirty_pages, get_dirty_page_table, dirty_pages_of,
}

-- A copy of the first `n` bytes of a buffer agrees with it below `n`.
copied_from_start : (e : Bytes) (n i : ℕ) → i < n → write zeros 0 (read e 0 n) i ≡ e i
copied_from_start e n i h = copied e 0 n i h ∙ ap e (omega arith)

copied_le :
    (w : ℕ) (e : Bytes) (n o : ℕ)
    → o + w ≤ n
    → get_le w (write zeros 0 (read e 0 n)) o ≡ get_le w e o
copied_le w e n o h =
    get_le_ext w (write zeros 0 (read e 0 n)) e o o
      (λ i p. copied_from_start e n (o + i) (omega arith))

copied_read :
    (e : Bytes) (n o m : ℕ) → o + m ≤ n → read (write zeros 0 (read e 0 n)) o m ≡ read e o m
copied_read e n o m h =
    read_ext (write zeros 0 (read e 0 n)) e o o m
      (λ i p. copied_from_start e n (o + i) (omega arith))

module _ (old new : List ℕ) (fits : length old + length new + 4 < 65536) where
  old-length : get_le 2 (update_payload old new) 0 ≡ length old
  unfolding update_payload
  old-length =
      get_le-write_disjoint 2 _ _ new 0 (inl (omega arith))
      ∙ get_le-put_le_disjoint 2 2 _ _ 0 (length new) (inl (omega arith))
      ∙ get_le-write_disjoint 2 _ 2 old 0 (inl (omega arith))
      ∙ get_le-put_le_self 2 zeros 0 (length old) (omega arith)

  old_record : read (update_payload old new) 2 (length old) ≡ old
  unfolding update_payload
  old_record =
      read-write_disjoint _ _ new 2 (length old) (inl (omega arith))
      ∙ read-put_le_disjoint 2 _ _ (length new) 2 (length old) (inl (omega arith))
      ∙ read-write_self _ 2 old

  new_length : get_le 2 (update_payload old new) (u16 (2 + length old)) ≡ length new
  unfolding update_payload
  new_length =
      get_le-write_disjoint 2 _ _ new _ (inl (omega arith))
      ∙ get_le-put_le_self 2 _ _ (length new) (omega arith)

  new_record : read (update_payload old new) (u16 (u16 (2 + length old) + 2)) (length new) ≡ new
  unfolding update_payload
  new_record = read-write_self _ _ new

-- GetUpdateData returns the two records that MakeUpdate was given, where the payload's size fits
-- its uint16_t.
pub get_update_data-make_update :
    (lsn page_id slot_id : ℕ) (old new : List ℕ)
    → length old + length new + 4 < 65536
    → get_update_data (make_update lsn page_id slot_id old new) ≡ (old, new)
unfolding get_update_data make_update
get_update_data-make_update lsn page_id slot_id old new fits =
    rw
      (
        copied_le 2 (update_payload old new) (u16 (2 + length old + 2 + length new)) 0
            (omega arith),
        old-length old new fits,
        copied_le 2 (update_payload old new) (u16 (2 + length old + 2 + length new))
            (u16 (2 + length old)) (omega arith),
        new_length old new fits,
        copied_read (update_payload old new) (u16 (2 + length old + 2 + length new)) 2 (length old)
            (omega arith),
        copied_read (update_payload old new) (u16 (2 + length old + 2 + length new))
            (u16 (u16 (2 + length old) + 2)) (length new) (omega arith),
        old_record old new fits,
        new_record old new fits,
      )
      refl

abbrev pub PageLsnFits : ℕ × ℕ → Type 0
PageLsnFits (pid, page_lsn) = (pid < 256 ^ 4) × (page_lsn < 256 ^ 8)

-- The loop writes from its offset on.
put_dirty_pages-below :
    (w p o : ℕ) (ps : List (ℕ × ℕ)) (d : Bytes)
    → o + 12 * length ps < 65536
    → p + w ≤ o
    → get_le w (put_dirty_pages o ps d) p ≡ get_le w d p
unfolding put_dirty_pages
put_dirty_pages-below w p o [] d h q = refl
put_dirty_pages-below w p o ((pid, page_lsn) ∷ ps) d h q =
    put_dirty_pages-below w p (u16 (u16 (o + 4) + 8)) ps _ (omega arith) (omega arith)
    ∙ get_le-put_le_disjoint 8 w _ (u16 (o + 4)) p page_lsn (inl (omega arith))
    ∙ get_le-put_le_disjoint 4 w d o p pid (inl (omega arith))

get_dirty_pages_ext :
    (n o m : ℕ) (d e : Bytes)
    → o + 12 * n < 65536
    → o + 12 * n ≤ m
    → ((i : ℕ) → i < m → d i ≡ e i)
    → get_dirty_pages n o d ≡ get_dirty_pages n o e
unfolding get_dirty_pages
get_dirty_pages_ext zero o m d e h q a = refl
get_dirty_pages_ext (suc n) o m d e h q a =
    ap₂ ◌∷◌
      (λ i. (
        get_le_ext 4 d e o o (λ j p. a (o + j) (omega arith)) i,
        get_le_ext 8 d e (u16 (o + 4)) (u16 (o + 4)) (λ j p. a (u16 (o + 4) + j) (omega arith)) i,
      ))
      (get_dirty_pages_ext n (u16 (u16 (o + 4) + 8)) m d e (omega arith) (omega arith) a)

get_dirty_pages-put_dirty_pages :
    (o : ℕ) (ps : List (ℕ × ℕ)) (d : Bytes)
    → o + 12 * length ps < 65536
    → All PageLsnFits ps
    → get_dirty_pages (length ps) o (put_dirty_pages o ps d) ≡ ps
unfolding get_dirty_pages put_dirty_pages
get_dirty_pages-put_dirty_pages o [] d h f = refl
get_dirty_pages-put_dirty_pages o ((pid, page_lsn) ∷ ps) d h f =
    ap₂ ◌∷◌
      (λ i. (
        (put_dirty_pages-below 4 o (u16 (u16 (o + 4) + 8)) ps _ (omega arith) (omega arith)
              ∙ get_le-put_le_disjoint 8 4 _ (u16 (o + 4)) o page_lsn (inl (omega arith))
              ∙ get_le-put_le_self 4 d o pid f.0.0)
            i,
        (put_dirty_pages-below 8 (u16 (o + 4)) (u16 (u16 (o + 4) + 8)) ps _ (omega arith)
                (omega arith)
              ∙ get_le-put_le_self 8 (put_le 4 d o pid) (u16 (o + 4)) page_lsn f.0.1)
            i,
      ))
      (get_dirty_pages-put_dirty_pages (u16 (u16 (o + 4) + 8)) ps _ (omega arith) f.1)

table_loop :
    (bs : List ℕ)
    → 0 < length bs
    → dirty_pages_of bs ≡ get_dirty_pages (get_le 4 (write zeros 0 bs) 0) 4 (write zeros 0 bs)
unfolding dirty_pages_of
table_loop [] h = absurd (omega arith)
table_loop (b ∷ bs) h = refl

-- GetDirtyPageTable returns the table that MakeCheckpointEnd was given, where the payload's size
-- fits its uint16_t and the entries fit their widths.
pub get_dirty_page_table-make_checkpoint_end :
    (lsn : ℕ) (ps : List (ℕ × ℕ))
    → 4 + 12 * length ps < 65536
    → All PageLsnFits ps
    → get_dirty_page_table (make_checkpoint_end lsn ps) ≡ ps
unfolding get_dirty_page_table make_checkpoint_end
get_dirty_page_table-make_checkpoint_end lsn ps h f =
    table_loop (read e 0 size) (omega (arith, length-read e 0 size))
    ∙ ap (λ n. get_dirty_pages n 4 (write zeros 0 (read e 0 size)))
        (copied_le 4 e size 0 (omega arith) ∙ count)
    ∙ get_dirty_pages_ext (length ps) 4 size (write zeros 0 (read e 0 size)) e h (omega arith)
        (λ i p. copied_from_start e size i p)
    ∙ get_dirty_pages-put_dirty_pages 4 ps (put_le 4 zeros 0 (u32 (length ps))) h f
  where
    size : ℕ
    size = u16 (4 + u32 (length ps) * 12)

    e : Bytes
    e = put_dirty_pages 4 ps (put_le 4 zeros 0 (u32 (length ps)))

    count : get_le 4 e 0 ≡ length ps
    count =
        put_dirty_pages-below 4 0 4 ps (put_le 4 zeros 0 (u32 (length ps))) h (omega arith)
        ∙ get_le-put_le_self 4 zeros 0 (u32 (length ps)) (omega arith)
        ∙ omega arith
