-- ===== src/Script/Num/Codec.antt =====
-- Encoding and decoding are inverse on the numbers of at most 31 bits, and refuse the others.
use mathlib.Core.Path.{subst}
use bitclone.Base.{
  ℕ, suc, ◌+◌, ◌-◌, ◌*◌, ◌/◌, ◌%◌, ◌^◌, ◌≤◌, ◌<◌, ◌≡◌, ◌≢◌, refl, ap, Bool-cases, ltb→lt, ◌∙◌, inl,
  inr, Result, Error, ok, err, Bool, [], ◌∷◌, length, length-append, length-take, take, last_or,
  ltb, ◌==◌, if◌then◌else◌, bit_or, arith,
}
use bitclone.Base.Bits.{top_bit, set_top_bit}
use bitclone.Base.Bytes.{Bytes, int_to_le, to_le, length-to_le}
use bitclone.Base.Int.{ℤ, pos, neg, magnitude, ltb_ℤ}
use bitclone.Script.Num.{has_sign_bit, place_sign, encode, decode, byte_length}
use bitclone.Script.Num.Length.{lt-byte_length, byte_length_le, byte_length_gt}

-- A magnitude of `k` bytes is written on `k` bytes.
int_to_le-eq : (k n : ℕ) → n < 256 ^ k → int_to_le k n ≡ ok (to_le k n)
unfolding int_to_le
int_to_le-eq k n h = ground arith

sign_bit-eq : (b : ℕ) → b < 256 → has_sign_bit b ≡ ltb 127 b
sign_bit-eq b h = ground (arith, top_bit b)

-- The bytes of a nonzero magnitude below 2^31, by their number.
data Width (a : ℕ) : Type 0 where
  one : 1 ≤ a → a < 0x100 → Width a
  two : 0x100 ≤ a → a < 0x1_0000 → Width a
  three : 0x1_0000 ≤ a → a < 0x100_0000 → Width a
  four : 0x100_0000 ≤ a → a < 0x8000_0000 → Width a

width : (a : ℕ) → 1 ≤ a → a < 0x8000_0000 → Width a
width a h k = elim (Bool-cases (ltb a 0x100)) [
  | inl small ↦ one h (ltb→lt _ _ small)
  | inr e ↦ elim (Bool-cases (ltb a 0x1_0000)) [
    | inl small ↦ two (ground arith) (ltb→lt _ _ small)
    | inr e' ↦ elim (Bool-cases (ltb a 0x100_0000)) [
      | inl small ↦ three (ground arith) (ltb→lt _ _ small)
      | inr e'' ↦ four (ground arith) k
    ]
  ]
]

byte_length-eq : (a j : ℕ) → 2 ^ (8 * j) ≤ a → a < 2 ^ (8 * suc j) → byte_length a ≡ suc j
byte_length-eq a j h k = omega (arith, byte_length_le a (suc j) k, byte_length_gt a j h)

signed : Bool → ℕ → ℤ
signed negative a = if negative then neg (pos a) else pos a

-- Placing the sign over a top byte that is not zero and reading it back, at each width.
module _ (negative : Bool) (t : ℕ) (lo : 1 ≤ t) (hi : t < 256) where
  decode_one :
      (bs : Bytes) → place_sign negative (t ∷ []) ≡ ok bs → decode bs ≡ ok (signed negative t)
  unfolding decode place_sign signed
  decode_one bs e = ground (arith, top_bit t hi, set_top_bit t, top_bit (t + 128))

  decode_two :
      (a : ℕ) (bs : Bytes)
      → place_sign negative (a ∷ t ∷ []) ≡ ok bs
      → decode bs ≡ ok (signed negative (a + 256 * t))
  unfolding decode place_sign signed
  decode_two a bs e = ground (arith, top_bit t hi, set_top_bit t, top_bit (t + 128))

  decode_three :
      (a b : ℕ) (bs : Bytes)
      → place_sign negative (a ∷ b ∷ t ∷ []) ≡ ok bs
      → decode bs ≡ ok (signed negative (a + 256 * (b + 256 * t)))
  unfolding decode place_sign signed
  decode_three a b bs e = ground (arith, top_bit t hi, set_top_bit t, top_bit (t + 128))

  decode_four :
      (a b c : ℕ) (bs : Bytes)
      → place_sign negative (a ∷ b ∷ c ∷ t ∷ []) ≡ ok bs
      → decode bs ≡ ok (signed negative (a + 256 * (b + 256 * (c + 256 * t))))
  unfolding decode place_sign signed
  decode_four a b c bs e = ground (arith, top_bit t hi, set_top_bit t, top_bit (t + 128))

module _ (negative : Bool) (a : ℕ) (bs : Bytes) where
  -- The same, by the number of bytes of the magnitude.
  decode_width :
      (k : ℕ)
      → byte_length a ≡ k
      → (v : ℕ) → v ≡ a
      → (place_sign negative (to_le k a) ≡ ok bs → decode bs ≡ ok (signed negative v))
      → place_sign negative (to_le (byte_length a) a) ≡ ok bs
      → decode bs ≡ ok (signed negative a)
  decode_width k hk v hv f e =
      subst (λ u. decode bs ≡ ok (signed negative u)) hv
        (f (subst (λ u. place_sign negative (to_le u a) ≡ ok bs) hk e))

  decode-place_sign :
      Width a
      → place_sign negative (to_le (byte_length a) a) ≡ ok bs
      → decode bs ≡ ok (signed negative a)
  decode-place_sign (one h k) =
      decode_width 1 (byte_length-eq a 0 (omega arith) (omega arith)) (a % 256) (omega arith)
        (decode_one negative (a % 256) (omega arith) (omega arith) bs)
  decode-place_sign (two h k) =
      decode_width 2 (byte_length-eq a 1 (omega arith) (omega arith)) _ (omega arith)
        (decode_two negative (a / 256 % 256) (omega arith) (omega arith) (a % 256) bs)
  decode-place_sign (three h k) =
      decode_width 3 (byte_length-eq a 2 (omega arith) (omega arith)) _ (omega arith) (
        decode_three negative (a / 256 / 256 % 256) (omega arith) (omega arith) (a % 256)
          (a / 256 % 256) bs)
  decode-place_sign (four h k) =
      decode_width 4 (byte_length-eq a 3 (omega arith) (omega arith)) _ (omega arith) (
        decode_four negative (a / 256 / 256 / 256 % 256) (omega arith) (omega arith) (a % 256)
          (a / 256 % 256) (a / 256 / 256 % 256) bs)

abbrev FitsFour : Result Bytes → Type 0
FitsFour (ok bs) = length bs ≤ 4
FitsFour (err e) = ⊥

FitsFour-ok : (r : Result Bytes) → FitsFour r → (bs : Bytes) × (r ≡ ok bs) × (length bs ≤ 4)
FitsFour-ok (ok bs) h = (bs, refl, h)
FitsFour-ok (err e) h = absurd h

place_sign-FitsFour :
    (negative : Bool) (mag : Bytes)
    → 1 ≤ length mag
    → length mag + (if has_sign_bit (last_or 0 mag) then 1 else 0) ≤ 4
    → FitsFour (place_sign negative mag)
unfolding place_sign
place_sign-FitsFour negative mag some_byte h = ground (
  arith,
  length-append mag ((if negative then 0x80 else 0x00) ∷ []),
  length-append (take (length mag - 1) mag) (bit_or (last_or 0 mag) 0x80 ∷ []),
  length-take (length mag - 1) mag,
)

width-FitsFour :
    (negative : Bool) (a : ℕ) → Width a → FitsFour (place_sign negative (to_le (byte_length a) a))
width-FitsFour negative a (one h k) =
    rw (byte_length-eq a 0 (omega arith) (omega arith))
      (place_sign-FitsFour negative _ (omega arith) (ground arith))
width-FitsFour negative a (two h k) =
    rw (byte_length-eq a 1 (omega arith) (omega arith))
      (place_sign-FitsFour negative _ (omega arith) (ground arith))
width-FitsFour negative a (three h k) =
    rw (byte_length-eq a 2 (omega arith) (omega arith))
      (place_sign-FitsFour negative _ (omega arith) (ground arith))
width-FitsFour negative a (four h k) = rw (byte_length-eq a 3 (omega arith) (omega arith)) (
    place_sign-FitsFour negative _ (omega arith)
      (ground (arith, top_bit (a / 256 / 256 / 256 % 256))))

-- What `encode` does with a number other than zero.
encode_nonzero :
    (n : ℤ)
    → magnitude n ≢ 0
    → encode n ≡ place_sign (ltb_ℤ n (pos 0)) (to_le (byte_length (magnitude n)) (magnitude n))
unfolding encode
encode_nonzero n h =
    ground
      (arith, int_to_le-eq (byte_length (magnitude n)) (magnitude n) (lt-byte_length (magnitude n)))

signed-magnitude : (n : ℤ) → signed (ltb_ℤ n (pos 0)) (magnitude n) ≡ n
unfolding signed
signed-magnitude n = ground arith

-- Every number below 2^31 in magnitude is encoded on at most four bytes, and decoded from them.
pub decode-encode :
    (n : ℤ)
    → magnitude n < 2 ^ 31
    → (bs : Bytes) × (encode n ≡ ok bs) × (length bs ≤ 4) × (decode bs ≡ ok n)
decode-encode n h = elim (Bool-cases (magnitude n == 0)) [
  | inl zero_case ↦ ([], unfold encode in ground arith, omega arith, unfold decode in ground arith)
  | inr nonzero ↦
      let w = width (magnitude n) (ground arith) h in
      let (bs, e, small) = FitsFour-ok _ (width-FitsFour (ltb_ℤ n (pos 0)) (magnitude n) w) in
      (
        bs,
        encode_nonzero n (ground arith) ∙ e,
        small,
        decode-place_sign (ltb_ℤ n (pos 0)) (magnitude n) bs w e ∙ ap ok (signed-magnitude n),
      )
]

place_sign_too_long :
    (negative : Bool) (mag : Bytes)
    → 4 < length mag + (if has_sign_bit (last_or 0 mag) then 1 else 0)
    → place_sign negative mag ≡ err Error.bit_num_error
unfolding place_sign
place_sign_too_long negative mag h = ground arith

-- Every other number is refused with BitNumError.
pub encode_too_large : (n : ℤ) → 2 ^ 31 ≤ magnitude n → encode n ≡ err Error.bit_num_error
encode_too_large n h =
    encode_nonzero n (omega arith) ∙ elim (Bool-cases (ltb (magnitude n) 0x1_0000_0000)) [
      | inl four_bytes ↦
          rw (byte_length-eq (magnitude n) 3 (omega arith) (ltb→lt _ _ four_bytes)) (
            place_sign_too_long _ _ (ground (arith, top_bit (magnitude n / 256 / 256 / 256 % 256))))
      | inr more ↦ place_sign_too_long _ _ (
          omega (
            arith,
            length-to_le (byte_length (magnitude n)) (magnitude n),
            byte_length_gt (magnitude n) 4 (ground arith),
          ))
    ]
