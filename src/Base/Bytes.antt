-- ===== src/Base/Bytes.antt =====
-- Buffers of bytes: `memcpy` in and out of them, and integers in little-endian order.
use mathlib.Core.Path.{ap₂}
use native.Mathlib.Nat.{pow-suc}
use court_db.Base.{
  ℕ, zero, suc, ◌+◌, ◌-◌, ◌*◌, ◌/◌, ◌%◌, ◌^◌, ◌≤◌, ◌<◌, ◌≡◌, refl, ap, sym, ◌∙◌, ◌⊎◌, inl, inr,
  List, [], ◌∷◌, ◌++◌, ◌&&◌, arith, ltb, leb, if◌then◌else◌, length, get_or, All,
}

-- The contents of a buffer, by offset. What an operation touches beyond a buffer's size is
-- undefined in the source: the components prove that their offsets lie within.
abbrev pub Bytes : Type 0
Bytes = ℕ → ℕ

-- memset(buffer, 0, size)
abbrev pub zeros : Bytes
zeros i = 0

-- The `n` bytes from offset `o`.
unfoldable pub read : Bytes → ℕ → ℕ → List ℕ
read d o zero = []
read d o (suc n) = d o ∷ read d (o + 1) n

-- memcpy(buffer + o, bs, size of bs)
unfoldable pub write : Bytes → ℕ → List ℕ → Bytes
write d o bs i = if leb o i && ltb i (o + length bs) then get_or bs (i - o) 0 else d i

-- The object representation of an unsigned integer of `w` bytes, lowest byte first.
unfoldable pub le_bytes : ℕ → ℕ → List ℕ
le_bytes zero v = []
le_bytes (suc w) v = (v % 256) ∷ le_bytes w (v / 256)

unfoldable pub le_value : List ℕ → ℕ
le_value [] = 0
le_value (b ∷ bs) = b + 256 * le_value bs

-- memcpy(&value, buffer + o, w) and memcpy(buffer + o, &value, w)
unfoldable pub get_le : ℕ → Bytes → ℕ → ℕ
get_le w d o = le_value (read d o w)

unfoldable pub put_le : ℕ → Bytes → ℕ → ℕ → Bytes
put_le w d o v = write d o (le_bytes w v)

pub length-read : (d : Bytes) (o n : ℕ) → length (read d o n) ≡ n
unfolding read
length-read d o zero = refl
length-read d o (suc n) = ap suc (length-read d (o + 1) n)

pub length-le_bytes : (w v : ℕ) → length (le_bytes w v) ≡ w
unfolding le_bytes
length-le_bytes zero v = refl
length-le_bytes (suc w) v = ap suc (length-le_bytes w (v / 256))

pub le_value-le_bytes : (w v : ℕ) → v < 256 ^ w → le_value (le_bytes w v) ≡ v
unfolding le_bytes le_value
le_value-le_bytes zero v h = omega arith
le_value-le_bytes (suc w) v h =
    omega (arith, le_value-le_bytes w (v / 256) (omega (arith, pow-suc 256 w)))

-- A buffer holds a list of bytes at an offset when it agrees with it there, byte by byte.
pub read_list :
    (d : Bytes) (o : ℕ) (bs : List ℕ)
    → ((i : ℕ) → i < length bs → d (o + i) ≡ get_or bs i 0)
    → read d o (length bs) ≡ bs
unfolding read
read_list d o [] h = refl
read_list d o (b ∷ bs) h =
    ap₂ ◌∷◌ (ap d (omega arith) ∙ h 0 (omega arith))
      (read_list d (o + 1) bs (λ i p. ap d (omega arith) ∙ h (suc i) (omega arith)))

-- Two buffers that agree on a range read alike there.
pub read_ext :
    (d e : Bytes) (o p n : ℕ) → ((i : ℕ) → i < n → d (o + i) ≡ e (p + i)) → read d o n ≡ read e p n
unfolding read
read_ext d e o p zero h = refl
read_ext d e o p (suc n) h = ap₂ ◌∷◌ (ap d (omega arith) ∙ h 0 (omega arith) ∙ ap e (omega arith)) (
    read_ext d e (o + 1) (p + 1) n
      (λ i q. ap d (omega arith) ∙ h (suc i) (omega arith) ∙ ap e (omega arith)))

pub write_inside :
    (d : Bytes) (o : ℕ) (bs : List ℕ) (i : ℕ) → i < length bs → write d o bs (o + i) ≡ get_or bs i 0
unfolding write
write_inside d o bs i h =
    let e : (o + i) - o ≡ i = omega arith in ground (arith, ap (λ k. get_or bs k 0) e)

pub write_outside :
    (d : Bytes) (o : ℕ) (bs : List ℕ) (i : ℕ) → (i < o) ⊎ (o + length bs ≤ i) → write d o bs i ≡ d i
unfolding write
write_outside d o bs i h = ground arith

pub read-write_self : (d : Bytes) (o : ℕ) (bs : List ℕ) → read (write d o bs) o (length bs) ≡ bs
read-write_self d o bs = read_list (write d o bs) o bs (write_inside d o bs)

pub read-write_disjoint :
    (d : Bytes) (o : ℕ) (bs : List ℕ) (p n : ℕ)
    → (p + n ≤ o) ⊎ (o + length bs ≤ p)
    → read (write d o bs) p n ≡ read d p n
read-write_disjoint d o bs p n (inl h) =
    read_ext (write d o bs) d p p n (λ i q. write_outside d o bs (p + i) (inl (omega arith)))
read-write_disjoint d o bs p n (inr h) =
    read_ext (write d o bs) d p p n (λ i q. write_outside d o bs (p + i) (inr (omega arith)))

pub get_le-put_le_self :
    (w : ℕ) (d : Bytes) (o v : ℕ) → v < 256 ^ w → get_le w (put_le w d o v) o ≡ v
unfolding get_le put_le
get_le-put_le_self w d o v h =
    ap le_value (
      ap (read (write d o (le_bytes w v)) o) (sym (length-le_bytes w v))
      ∙ read-write_self d o (le_bytes w v))
    ∙ le_value-le_bytes w v h

pub get_le-put_le_disjoint :
    (w x : ℕ) (d : Bytes) (o p v : ℕ)
    → (p + x ≤ o) ⊎ (o + w ≤ p)
    → get_le x (put_le w d o v) p ≡ get_le x d p
unfolding get_le put_le
get_le-put_le_disjoint w x d o p v h =
    ap le_value (read-write_disjoint d o (le_bytes w v) p x (rw (length-le_bytes w v) h))

pub read-put_le_disjoint :
    (w : ℕ) (d : Bytes) (o v p n : ℕ)
    → (p + n ≤ o) ⊎ (o + w ≤ p)
    → read (put_le w d o v) p n ≡ read d p n
unfolding put_le
read-put_le_disjoint w d o v p n h =
    read-write_disjoint d o (le_bytes w v) p n (rw (length-le_bytes w v) h)

-- A run of `memcpy(buffer + offset, &field, width)`, in order.
pub record Field : Type 0 where
  pub width : ℕ
  pub offset : ℕ
  pub value : ℕ

unfoldable pub put_fields : List Field → Bytes → Bytes
put_fields [] d = d
put_fields (f ∷ fs) d = put_fields fs (put_le f.width d f.offset f.value)

-- Fields written from `q` on leave alone what ends by `q`.
abbrev pub From : ℕ → List Field → Type 0
From q fs = All (λ f. q ≤ f.offset) fs

pub read-put_fields :
    (fs : List Field) (d : Bytes) (o n : ℕ)
    → From (o + n) fs
    → read (put_fields fs d) o n ≡ read d o n
unfolding put_fields
read-put_fields [] d o n h = refl
read-put_fields (f ∷ fs) d o n h =
    read-put_fields fs _ o n h.1 ∙ read-put_le_disjoint f.width d f.offset f.value o n (inl h.0)

-- A field reads back after the fields that follow it.
pub get_le-put_fields :
    (w o v : ℕ) (fs : List Field) (d : Bytes)
    → v < 256 ^ w
    → From (o + w) fs
    → get_le w (put_fields fs (put_le w d o v)) o ≡ v
unfolding get_le
get_le-put_fields w o v fs d h p =
    ap le_value (read-put_fields fs (put_le w d o v) o w p) ∙ get_le-put_le_self w d o v h

-- Fields that all end by `o` leave alone what begins there.
abbrev pub Until : ℕ → List Field → Type 0
Until o fs = All (λ f. f.offset + f.width ≤ o) fs

pub read-put_fields_above :
    (fs : List Field) (d : Bytes) (o n : ℕ) → Until o fs → read (put_fields fs d) o n ≡ read d o n
unfolding put_fields
read-put_fields_above [] d o n h = refl
read-put_fields_above (f ∷ fs) d o n h =
    read-put_fields_above fs _ o n h.1
    ∙ read-put_le_disjoint f.width d f.offset f.value o n (inr h.0)

-- The buffer holds these bytes from this offset.
abbrev pub Holds : Bytes → ℕ → List ℕ → Type 0
Holds d o [] = Unit
Holds d o (b ∷ bs) = (d o ≡ b) × Holds d (o + 1) bs

pub Holds-append :
    (d : Bytes) (o : ℕ) (xs ys : List ℕ)
    → Holds d o (xs ++ ys)
    → Holds d o xs × Holds d (o + length xs) ys
Holds-append d o [] ys h = let e : o + 0 ≡ o = omega arith in (tt, rw e h)
Holds-append d o (x ∷ xs) ys h =
    let e : o + suc (length xs) ≡ o + 1 + length xs = omega arith in
    let r : Holds d (o + 1) xs × Holds d (o + 1 + length xs) ys =
      Holds-append d (o + 1) xs ys h.1 in
    ((h.0, r.0), rw e r.1)

pub read-Holds : (d : Bytes) (o : ℕ) (bs : List ℕ) → Holds d o bs → read d o (length bs) ≡ bs
unfolding read
read-Holds d o [] h = refl
read-Holds d o (b ∷ bs) h = ap₂ ◌∷◌ h.0 (read-Holds d (o + 1) bs h.1)

pub get_le-Holds :
    (w : ℕ) (d : Bytes) (o v : ℕ) → v < 256 ^ w → Holds d o (le_bytes w v) → get_le w d o ≡ v
unfolding get_le
get_le-Holds w d o v h k =
    ap le_value (ap (read d o) (sym (length-le_bytes w v)) ∙ read-Holds d o (le_bytes w v) k)
    ∙ le_value-le_bytes w v h

-- A list as a buffer.
abbrev pub as_buffer : List ℕ → Bytes
as_buffer bs i = get_or bs i 0

pub as_buffer-Holds :
    (d : Bytes) (o : ℕ) (bs : List ℕ)
    → ((i : ℕ) → i < length bs → d (o + i) ≡ get_or bs i 0)
    → Holds d o bs
as_buffer-Holds d o [] h = tt
as_buffer-Holds d o (b ∷ bs) h = (
  ap d (omega arith) ∙ h 0 (omega arith),
  as_buffer-Holds d (o + 1) bs (λ i p. ap d (omega arith) ∙ h (suc i) (omega arith)),
)

-- Where a buffer holds what was read from another, the two agree.
pub Holds-read :
    (d e : Bytes) (o p n : ℕ) → Holds d o (read e p n) → (i : ℕ) → i < n → d (o + i) ≡ e (p + i)
unfolding read
Holds-read d e o p zero h i q = absurd (omega arith)
Holds-read d e o p (suc n) h zero q = ap d (omega arith) ∙ h.0 ∙ ap e (omega arith)
Holds-read d e o p (suc n) h (suc i) q =
    ap d (omega arith) ∙ Holds-read d e (o + 1) (p + 1) n h.1 i (omega arith) ∙ ap e (omega arith)

pub get_le_ext :
    (w : ℕ) (d e : Bytes) (o p : ℕ)
    → ((i : ℕ) → i < w → d (o + i) ≡ e (p + i))
    → get_le w d o ≡ get_le w e p
unfolding get_le
get_le_ext w d e o p h = ap le_value (read_ext d e o p w h)

pub get_le-write_disjoint :
    (w : ℕ) (d : Bytes) (o : ℕ) (bs : List ℕ) (p : ℕ)
    → (p + w ≤ o) ⊎ (o + length bs ≤ p)
    → get_le w (write d o bs) p ≡ get_le w d p
unfolding get_le
get_le-write_disjoint w d o bs p h = ap le_value (read-write_disjoint d o bs p w h)

pub get_or-read : (d : Bytes) (o n i : ℕ) → i < n → get_or (read d o n) i 0 ≡ d (o + i)
unfolding read
get_or-read d o zero i h = absurd (omega arith)
get_or-read d o (suc n) zero h = ap d (omega arith)
get_or-read d o (suc n) (suc i) h = get_or-read d (o + 1) n i (omega arith) ∙ ap d (omega arith)

pub read-append : (d : Bytes) (o m n : ℕ) → read d o (m + n) ≡ read d o m ++ read d (o + m) n
unfolding read
read-append d o zero n =
    let e : 0 + n ≡ n = omega arith in let f : o + 0 ≡ o = omega arith in rw (e, f) refl
read-append d o (suc m) n =
    let e : suc m + n ≡ suc (m + n) = omega arith in
    let f : o + suc m ≡ o + 1 + m = omega arith in
    rw (e, f) (ap (◌∷◌ (d o)) (read-append d (o + 1) m n))

pub Holds-ext :
    (d e : Bytes) (o p : ℕ) (bs : List ℕ)
    → ((i : ℕ) → i < length bs → d (o + i) ≡ e (p + i))
    → Holds e p bs
    → Holds d o bs
Holds-ext d e o p [] h k = tt
Holds-ext d e o p (b ∷ bs) h k = (
  ap d (omega arith) ∙ h 0 (omega arith) ∙ ap e (omega arith) ∙ k.0,
  Holds-ext d e (o + 1) (p + 1) bs
      (λ i q. ap d (omega arith) ∙ h (suc i) (omega arith) ∙ ap e (omega arith)) k.1,
)

cons_head : {b c : ℕ} {bs cs : List ℕ} → b ∷ bs ≡ c ∷ cs → b ≡ c
cons_head h = cc

cons_tail : {b c : ℕ} {bs cs : List ℕ} → b ∷ bs ≡ c ∷ cs → bs ≡ cs
cons_tail h = cc

pub Holds-of_read : (d : Bytes) (o : ℕ) (bs : List ℕ) → read d o (length bs) ≡ bs → Holds d o bs
unfolding read
Holds-of_read d o [] h = tt
Holds-of_read d o (b ∷ bs) h = (cons_head h, Holds-of_read d (o + 1) bs (cons_tail h))

-- A copy of `n` bytes of a buffer, at the start of another.
pub copied : (e : Bytes) (o n i : ℕ) → i < n → write zeros 0 (read e o n) i ≡ e (o + i)
copied e o n i h =
    ap (write zeros 0 (read e o n)) (omega arith)
    ∙ write_inside zeros 0 (read e o n) i (omega (arith, length-read e o n))
    ∙ get_or-read e o n i h
