-- ===== src/Chain/Difficulty/Pow.antt =====
-- The headers that `_validate_header_pow` accepts, by the number that their compact bits stand for.
use bitclone.Base.{
  ℕ, zero, suc, ◌+◌, ◌*◌, ◌-◌, ◌/◌, ◌^◌, ◌≤◌, ◌<◌, ◌≡◌, ◌↔◌, sym, ap, ◌∙◌, ok, >>=-eq-ok,
  guard_true, leb→le, ok_inj, true, [], ◌∷◌, All, reverse, bit_and, arith,
}
use mathlib.Core.Path.{subst}
use mathlib.Core.List.{reverse-reverse}
use bitclone.Base.Bytes.{Bytes, IsByte, to_le, from_le, from_be, int_to_be, from_le-to_le}
use bitclone.Base.Bits.{top_bit, bit_and-shift}
use bitclone.Data.TargetBits.{bits_to_target}
use bitclone.Data.TargetBits.RoundTrip.{times_256, expand_lem, int_to_be-fits, shifted_lt}
use bitclone.Block.Header
use bitclone.Block.Header.{BlockHeader}
use bitclone.Chain.Difficulty.{validate_header_pow, check_target, meets_target, is_canonical}

-- The coefficient, its highest byte first.
abbrev pub coefficient : ℕ → ℕ → ℕ → ℕ
coefficient c1 c2 c3 = c3 + 256 * (c2 + 256 * c1)

-- Compact bits of a positive coefficient and an exponent, and a hash that is, as a number, at most
-- the coefficient times a power of 256.
abbrev pub IsMined : (Bytes → Bytes) → BlockHeader → Type 0
IsMined hash256 h =
    (exponent c1 c2 c3 : ℕ) × (id : Bytes) × (h.bits ≡ exponent ∷ c1 ∷ c2 ∷ c3 ∷ [])
    × (3 ≤ exponent)
    × (exponent ≤ 32)
    × (c1 < 128)
    × (0 < coefficient c1 c2 c3)
    × (Header.block_id hash256 h ≡ ok id)
    × (from_le id ≤ coefficient c1 c2 c3 * 256 ^ (exponent - 3))

from_be-coefficient : (c1 c2 c3 : ℕ) → from_be (c1 ∷ c2 ∷ c3 ∷ []) ≡ coefficient c1 c2 c3
from_be-coefficient c1 c2 c3 = omega arith

sign_lem :
    (c1 c2 c3 : ℕ)
    → All IsByte (c1 ∷ c2 ∷ c3 ∷ [])
    → bit_and (from_be (c1 ∷ c2 ∷ c3 ∷ [])) 0x800000 ≡ 65536 * (c1 / 128 * 128)
sign_lem c1 c2 c3 (h1, (h2, (h3, _))) =
    let low : coefficient c1 c2 c3 / 256 ≡ c2 + 256 * c1 = omega (arith, h3) in
    let high : (c2 + 256 * c1) / 256 ≡ c1 = omega (arith, h2) in
    ap (λ n. bit_and n 0x800000) (from_be-coefficient c1 c2 c3)
    ∙ omega (
      arith,
      rw low at (bit_and-shift (coefficient c1 c2 c3) 0x8000),
      rw high at (bit_and-shift (c2 + 256 * c1) 0x80),
      top_bit c1 h1,
    )

-- The target is the number.
target_lem :
    (k c1 c2 c3 : ℕ)
    → All IsByte (c1 ∷ c2 ∷ c3 ∷ [])
    → k ≤ 29
    → (target : Bytes) × (bits_to_target ((3 + k) ∷ c1 ∷ c2 ∷ c3 ∷ []) ≡ ok target)
      × (from_be target ≡ coefficient c1 c2 c3 * 256 ^ k)
      × (from_be target < 256 ^ 32)
unfolding bits_to_target
target_lem k c1 c2 c3 bytes small =
    let n = coefficient c1 c2 c3 * 256 ^ k in
    let fits : n < 256 ^ 32 =
      subst (λ m. n < 256 ^ m) {x = k + (3 + (29 - k))} {y = 32} (omega (arith, small))
        (shifted_lt (coefficient c1 c2 c3) k (29 - k) (omega (arith, bytes))) in
    let value : from_be (reverse (to_le 32 n)) ≡ n =
      ap from_le (reverse-reverse (to_le 32 n)) ∙ from_le-to_le 32 n fits in
    (
      reverse (to_le 32 n),
      expand_lem k (c1 ∷ c2 ∷ c3 ∷ [])
          ∙ ap (λ c. int_to_be 32 (c * 256 ^ k)) (from_be-coefficient c1 c2 c3)
          ∙ int_to_be-fits 32 n fits,
      value,
      subst (λ m. m < 256 ^ 32) (sym value) fits,
    )

positive_lem : (c k : ℕ) → 0 < c → 0 < c * 256 ^ k
positive_lem c zero h = omega (arith, h)
positive_lem c (suc k) h = omega (arith, positive_lem c k h, times_256 c k)

canonical_lem :
    (k c1 c2 c3 : ℕ)
    → All IsByte (c1 ∷ c2 ∷ c3 ∷ [])
    → k ≤ 29
    → c1 < 128
    → 0 < coefficient c1 c2 c3
    → is_canonical ((3 + k) ∷ c1 ∷ c2 ∷ c3 ∷ []) ≡ true
unfolding is_canonical
canonical_lem k c1 c2 c3 bytes small sign positive =
    let mask = sign_lem c1 c2 c3 bytes in
    let number = from_be-coefficient c1 c2 c3 in
    let clear : bit_and (from_be (c1 ∷ c2 ∷ c3 ∷ [])) 0x800000 ≡ 0 = omega (arith, mask, sign) in
    ground (arith, clear, number, small, positive)

canonical_parts :
    (bits : Bytes)
    → All IsByte bits
    → is_canonical bits ≡ true
    → (k c1 c2 c3 : ℕ) × (bits ≡ (3 + k) ∷ c1 ∷ c2 ∷ c3 ∷ [])
      × All IsByte (c1 ∷ c2 ∷ c3 ∷ [])
      × (k ≤ 29)
      × (c1 < 128)
      × (0 < coefficient c1 c2 c3)
unfolding is_canonical
canonical_parts (e ∷ c1 ∷ c2 ∷ c3 ∷ []) bytes h =
    let mask = sign_lem c1 c2 c3 bytes.1 in
    let number = from_be-coefficient c1 c2 c3 in
    let low : 3 ≤ e = ground (arith, h) in
    let high : e ≤ 32 = ground (arith, h) in
    let clear : bit_and (from_be (c1 ∷ c2 ∷ c3 ∷ [])) 0x800000 ≡ 0 = ground (arith, h) in
    let exponent : e ≡ 3 + (e - 3) = omega (arith, low) in
    (
      e - 3,
      c1,
      c2,
      c3,
      ap (λ x. x ∷ c1 ∷ c2 ∷ c3 ∷ []) exponent,
      bytes.1,
      omega (arith, high),
      omega (arith, mask, clear),
      ground (arith, h, number),
    )
canonical_parts (e ∷ c1 ∷ c2 ∷ c3 ∷ c4 ∷ more) bytes h = ground (arith, h)
canonical_parts (e ∷ c1 ∷ c2 ∷ []) bytes h = ground (arith, h)
canonical_parts (e ∷ c1 ∷ []) bytes h = ground (arith, h)
canonical_parts (e ∷ []) bytes h = ground (arith, h)
canonical_parts [] bytes h = ground (arith, h)

-- Behind the checks of the bits.
validate_lem :
    (hash256 : Bytes → Bytes) (h : BlockHeader) (k c1 c2 c3 : ℕ)
    → h.bits ≡ (3 + k) ∷ c1 ∷ c2 ∷ c3 ∷ []
    → All IsByte (c1 ∷ c2 ∷ c3 ∷ [])
    → k ≤ 29
    → c1 < 128
    → 0 < coefficient c1 c2 c3
    → validate_header_pow hash256 h ≡ meets_target hash256 h (coefficient c1 c2 c3 * 256 ^ k)
unfolding validate_header_pow check_target
validate_lem hash256 h k c1 c2 c3 bits bytes small sign least =
    let (target, expanded, value, fits) = target_lem k c1 c2 c3 bytes small in
    let positive = positive_lem (coefficient c1 c2 c3) k least in
    rw (bits, validate_header_pow)
      (rw (canonical_lem k c1 c2 c3 bytes small sign least, expanded)
        (ground (arith, value, fits, positive)))

meets_target_iff :
    (hash256 : Bytes → Bytes) (h : BlockHeader) (target : ℕ)
    → (meets_target hash256 h target ≡ ok true)
      ↔ ((id : Bytes) × (Header.block_id hash256 h ≡ ok id) × (from_le id ≤ target))
unfolding meets_target
meets_target_iff hash256 h target = (
  (λ met.
      let (id, e, low) = >>=-eq-ok (Header.block_id hash256 h) _ met in
      (id, e, leb→le _ _ (ok_inj _ _ low))),
  λ (id, e, low). rw e (ground (arith, low)),
)

-- Of the headers with bytes as compact bits, `_validate_header_pow` accepts exactly those that have
-- four of them, an exponent from 3 to 32 and a coefficient that is positive and has a clear sign
-- bit, and whose hash, read as a number, is at most the coefficient times 256 to the exponent less 3.
pub validate_header_pow-IsMined :
    (hash256 : Bytes → Bytes) (h : BlockHeader)
    → All IsByte h.bits
    → (validate_header_pow hash256 h ≡ ok true) ↔ IsMined hash256 h
unfolding validate_header_pow
validate_header_pow-IsMined hash256 h bytes = (forward, backward)
  where
    forward : validate_header_pow hash256 h ≡ ok true → IsMined hash256 h
    forward accepted =
        let (shape, _) = guard_true (is_canonical h.bits) _ accepted in
        let (k, c1, c2, c3, bits, parts, small, sign, least) = canonical_parts h.bits bytes shape in
        let met = sym (validate_lem hash256 h k c1 c2 c3 bits parts small sign least) ∙ accepted in
        let (id, e, low) = (meets_target_iff hash256 h _).0 met in
        let power : 3 + k - 3 ≡ k = omega arith in
        (
          3 + k,
          c1,
          c2,
          c3,
          id,
          bits,
          omega arith,
          omega (arith, small),
          sign,
          least,
          e,
          rw power low,
        )

    backward : IsMined hash256 h → validate_header_pow hash256 h ≡ ok true
    backward (e, c1, c2, c3, id, bits, low, high, sign, least, hashed, meets) =
        let exponent : e ≡ 3 + (e - 3) = omega (arith, low) in
        let parts : All IsByte (e ∷ c1 ∷ c2 ∷ c3 ∷ []) = subst (All IsByte) bits bytes in
        validate_lem hash256 h (e - 3) c1 c2 c3 (bits ∙ ap (λ x. x ∷ c1 ∷ c2 ∷ c3 ∷ []) exponent)
          parts.1 (omega (arith, high)) sign least
        ∙ (meets_target_iff hash256 h _).1 (id, hashed, meets)
