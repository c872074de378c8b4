-- ===== src/Script/Num/Length.antt =====
-- The number of bytes that a magnitude takes.
use native.Mathlib.Nat.{pow-suc, pow-le-pow_right, one-le-pow, le_trans}
use native.Mathlib.Numerals.{towards_suc}
use bitclone.Base.{ℕ, zero, suc, ◌+◌, ◌*◌, ◌/◌, ◌^◌, ◌≤◌, ◌<◌, ◌≡◌, ap, ◌∙◌, arith}
use bitclone.Script.Num.{bit_length, bit_length_from, byte_length}

bit_length_le : (fuel n k : ℕ) → n < 2 ^ k → bit_length_from fuel n ≤ k
unfolding bit_length_from
bit_length_le zero n k h = omega arith
bit_length_le (suc fuel) n zero h = ground arith
bit_length_le (suc fuel) n (suc k) h = ground (arith, pow-suc 2 k, bit_length_le fuel (n / 2) k)

bit_length_gt : (fuel n k : ℕ) → n ≤ fuel → 2 ^ k ≤ n → k < bit_length_from fuel n
unfolding bit_length_from
bit_length_gt zero n k h p = absurd (omega (arith, one-le-pow k 2 (omega arith)))
bit_length_gt (suc fuel) n zero h p = ground arith
bit_length_gt (suc fuel) n (suc k) h p =
    ground (arith, pow-suc 2 k, one-le-pow k 2 (omega arith), bit_length_gt fuel (n / 2) k)

lt-two_pow : (fuel n : ℕ) → n ≤ fuel → n < 2 ^ bit_length_from fuel n
unfolding bit_length_from
lt-two_pow zero n h = ground arith
lt-two_pow (suc fuel) n h =
    ground (arith, pow-suc 2 (bit_length_from fuel (n / 2)), lt-two_pow fuel (n / 2))

eight_bits : (k : ℕ) → 2 ^ (8 * suc k) ≡ 256 * 2 ^ (8 * k)
eight_bits k = ap (λ t. 2 ^ t) (omega arith) ∙ shift (8 * k)
  where
    shift : (s : ℕ) → 2 ^ (s + 8) ≡ 256 * 2 ^ s
    shift s = simp towards_suc (omega arith)

two_pow_bytes : (k : ℕ) → 2 ^ (8 * k) ≤ 256 ^ k
two_pow_bytes zero = omega arith
two_pow_bytes (suc k) = omega (arith, two_pow_bytes k, eight_bits k, pow-suc 256 k)

-- The magnitude fits the bytes that are asked for it, so `to_bytes` never overflows.
pub lt-byte_length : (n : ℕ) → n < 256 ^ byte_length n
unfolding bit_length
lt-byte_length n =
    le_trans (lt-two_pow n n (omega arith))
      (le_trans (pow-le-pow_right (omega arith) (omega arith)) (two_pow_bytes (byte_length n)))

pub byte_length_le : (n j : ℕ) → n < 2 ^ (8 * j) → byte_length n ≤ j
unfolding bit_length
byte_length_le n j h = omega (arith, bit_length_le n n (8 * j) h)

pub byte_length_gt : (n j : ℕ) → 2 ^ (8 * j) ≤ n → j < byte_length n
unfolding bit_length
byte_length_gt n j h = omega (arith, bit_length_gt n n (8 * j) (omega arith) h)
