-- ===== src/SeatMap/Decoded.antt =====
-- Both decoders against the layout that Redis documents for BITFIELD: the unsigned two-bit field at
-- offset 2 n is the n-th of the value, the fields of a byte from its most significant bits down.
use bookit.Common.{
  ℕ, zero, suc, ◌+◌, ◌-◌, ◌*◌, ◌/◌, ◌%◌, ◌<◌, ◌≡◌, ◌⊎◌, refl, sym, ap, subst, ◌∙◌, inl, inr, Bool,
  true, false, none, some, List, [], ◌∷◌, ℤ, pos, ltb, if◌then◌else◌, get_elem?, arith,
}
use bookit.SeatMap.Bitmap.{
  SeatState, from_bitmap, two_bits, state_at, bitmap_seat_status, unless_available,
}

abbrev pub byte_of : (ℕ → ℕ) → ℕ → ℕ
byte_of field i =
    64 * field (4 * i) + 16 * field (4 * i + 1) + 4 * field (4 * i + 2) + field (4 * i + 3)

-- The value of the key: `k` bytes from the `i`-th on.
unfoldable pub encode : (ℕ → ℕ) → ℕ → ℕ → List ℕ
encode field i zero = []
encode field i (suc k) = byte_of field i ∷ encode field (suc i) k

get_elem?-encode :
    (field : ℕ → ℕ) (i k j : ℕ)
    → get_elem? (encode field i k) j ≡ (if ltb j k then some (byte_of field (i + j)) else none)
unfolding encode
get_elem?-encode field i zero j = ground arith
get_elem?-encode field i (suc k) zero =
    let e : i + 0 ≡ i = omega arith in let t : ltb 0 (suc k) ≡ true = ground arith in rw (e, t) refl
get_elem?-encode field i (suc k) (suc j) =
    let e : i + suc j ≡ suc i + j = omega arith in
    let t : ltb (suc j) (suc k) ≡ ltb j k = ground arith in
    rw (e, t) (get_elem?-encode field (suc i) k j)

-- The four fields of a byte.
module _ (a b c d : ℕ) (ha : a < 4) (hb : b < 4) (hc : c < 4) (hd : d < 4) where
  field_0 : two_bits (64 * a + 16 * b + 4 * c + d) 6 ≡ a
  field_0 = omega (arith, ha, hb, hc, hd)

  field_1 : two_bits (64 * a + 16 * b + 4 * c + d) 4 ≡ b
  field_1 = omega (arith, ha, hb, hc, hd)

  field_2 : two_bits (64 * a + 16 * b + 4 * c + d) 2 ≡ c
  field_2 = omega (arith, ha, hb, hc, hd)

  field_3 : two_bits (64 * a + 16 * b + 4 * c + d) 0 ≡ d
  field_3 = omega (arith, ha, hb, hc, hd)

-- Every field has two bits.
abbrev pub Fields : (ℕ → ℕ) → Type 0
Fields field = (n : ℕ) → field n < 4

-- The byte and the shift that the code takes for a seat, with the seat's place in the byte.
abbrev DecodesAt : (ℕ → ℕ) → ℕ → ℕ → Type 0
DecodesAt field q n = (n * 2 / 8 ≡ q) × (two_bits (byte_of field q) (6 - n * 2 % 8) ≡ field n)

module _ (field : ℕ → ℕ) (h : Fields field) (q : ℕ) where
  decodes_0 : DecodesAt field q (4 * q)
  decodes_0 =
      let e : 6 - 4 * q * 2 % 8 ≡ 6 = omega arith in
      (omega arith, rw e (field_0 _ _ _ _ (h _) (h _) (h _) (h _)))

  decodes_1 : DecodesAt field q (4 * q + 1)
  decodes_1 =
      let e : 6 - (4 * q + 1) * 2 % 8 ≡ 4 = omega arith in
      (omega arith, rw e (field_1 _ _ _ _ (h _) (h _) (h _) (h _)))

  decodes_2 : DecodesAt field q (4 * q + 2)
  decodes_2 =
      let e : 6 - (4 * q + 2) * 2 % 8 ≡ 2 = omega arith in
      (omega arith, rw e (field_2 _ _ _ _ (h _) (h _) (h _) (h _)))

  decodes_3 : DecodesAt field q (4 * q + 3)
  decodes_3 =
      let e : 6 - (4 * q + 3) * 2 % 8 ≡ 0 = omega arith in
      (omega arith, rw e (field_3 _ _ _ _ (h _) (h _) (h _) (h _)))

place_cases :
    (n : ℕ)
    → (n ≡ 4 * (n / 4)) ⊎ ((n ≡ 4 * (n / 4) + 1) ⊎ ((n ≡ 4 * (n / 4) + 2) ⊎ (n ≡ 4 * (n / 4) + 3)))
place_cases n = ground arith

decodes : (field : ℕ → ℕ) (n : ℕ) → Fields field → DecodesAt field (n / 4) n
decodes field n h = elim (place_cases n) [
  | inl e ↦ subst (DecodesAt field (n / 4)) (sym e) (decodes_0 field h (n / 4))
  | inr (inl e) ↦ subst (DecodesAt field (n / 4)) (sym e) (decodes_1 field h (n / 4))
  | inr (inr (inl e)) ↦ subst (DecodesAt field (n / 4)) (sym e) (decodes_2 field h (n / 4))
  | inr (inr (inr e)) ↦ subst (DecodesAt field (n / 4)) (sym e) (decodes_3 field h (n / 4))
]

state_at-if :
    (offset byte : ℕ) (b : Bool) (v : ℕ)
    → two_bits byte (6 - offset % 8) ≡ v
    → state_at offset (if b then some byte else none) ≡ (if b then some (from_bitmap v) else none)
state_at-if offset byte true v e = ap (λ t. some (from_bitmap t)) e
state_at-if offset byte false v e = refl

-- Decoding what BITFIELD has laid out gives the field back: the HTTP server reads the state of the seat
-- `n` off a value of `k` bytes as the `n`-th field, and nothing where the value ends before it.
pub bitmap_seat_status-encode :
    (field : ℕ → ℕ) (k n : ℕ)
    → Fields field
    → bitmap_seat_status (encode field 0 k) (pos n)
      ≡ (if ltb n (4 * k) then some (from_bitmap (field n)) else none)
unfolding bitmap_seat_status
bitmap_seat_status-encode field k n h =
    let both = decodes field n h in
    let get : get_elem? (encode field 0 k) (n * 2 / 8)
        ≡ (if ltb (n / 4) k then some (byte_of field (n / 4)) else none) =
      ap (get_elem? (encode field 0 k)) both.0
      ∙ get_elem?-encode field 0 k (n / 4)
      ∙ (let z : 0 + n / 4 ≡ n / 4 = omega arith in rw z refl) in
    let inside : ltb (n / 4) k ≡ ltb n (4 * k) = ground arith in
    ap (state_at (n * 2)) get
    ∙ state_at-if (n * 2) (byte_of field (n / 4)) (ltb (n / 4) k) (field n) both.1
    ∙ ap (λ b. if b then some (from_bitmap (field n)) else none) inside

-- The seats from the `i`-th on, `n` of them, that are locked or booked.
unfoldable pub taken_from : (ℕ → ℕ) → ℕ → ℕ → List (ℤ × SeatState)
taken_from field i zero = []
taken_from field i (suc n) =
    unless_available (pos i) (from_bitmap (field i)) (taken_from field (suc i) n)

-- The seat `n` in front of what follows, where it is locked or booked.
abbrev pub taken_seat : (ℕ → ℕ) → ℕ → List (ℤ × SeatState) → List (ℤ × SeatState)
taken_seat field n rest = unless_available (pos n) (from_bitmap (field n)) rest
