-- ===== src/Record/Order.antt =====
-- The order on record identifiers of include/storage/record.h, by which the index sorts them.
use court_db.Base.{◌≡◌, ◌⊎◌, true, false, arith}
use court_db.Base.Sort.{IsStrictWeakOrder}
use court_db.Record.{Rid, rid_eq, rid_lt}

-- `<` on RIDs is a strict order.
pub rid_lt-IsStrictWeakOrder : IsStrictWeakOrder rid_lt
unfolding rid_lt
rid_lt-IsStrictWeakOrder = record {
  asym = λ r s h. ground arith;
  trans = λ r s t h k. ground arith;
  weak = λ r s t h k. ground arith;
}

-- Of two RIDs exactly one relation holds: the first is less, they are equal, or the second is
-- less.
pub rid_lt-total :
    (r s : Rid)
    → ((rid_lt r s ≡ true) × (rid_eq r s ≡ false) × (rid_lt s r ≡ false))
      ⊎ (((r ≡ s) × (rid_eq r s ≡ true) × (rid_lt r s ≡ false) × (rid_lt s r ≡ false))
          ⊎ ((rid_lt r s ≡ false) × (rid_eq r s ≡ false) × (rid_lt s r ≡ true)))
unfolding rid_lt rid_eq
rid_lt-total r s = ground arith
