-- ===== src/Base/Bits.antt =====
-- Masks on one byte as arithmetic; each is a table of 256 entries at most, checked by evaluation.
use Prim.Native.Nat.{
  ℕ, zero, suc, ◌+◌, ◌*◌, ◌/◌, ◌%◌, ◌<◌, ◌≤◌, min, digits, bit_and-bitwise, bit_and, bit_or,
}
use mathlib.Core.Path.{◌≡◌, refl, ap}
use mathlib.Core.Bool.{Bool, true, ◌&&◌}
use native.Mathlib.Omega.{arith}
use bitclone.Base.Tests.{◌==◌, ==_iff}

-- The test holds on every number up to the bound, the bound included, tried from there downwards.
holds_to : (test : ℕ → Bool) → ℕ → Bool
holds_to test zero = test zero
holds_to test (suc bound) = holds_to test bound && test (suc bound)

holds_to_lem :
    (test : ℕ → Bool) (bound b : ℕ) → b ≤ bound → holds_to test bound ≡ true → test b ≡ true
unfolding holds_to
holds_to_lem test zero b small table = rw (zero_only b small) table
  where
    zero_only : (c : ℕ) → c ≤ 0 → c ≡ 0
    zero_only c h = omega arith
holds_to_lem test (suc bound) b small table =
    ground (arith, λ (below : b ≤ bound). holds_to_lem test bound b below)

top_bit_table : holds_to (λ b. bit_and b 0x80 == b / 128 * 128) 255 ≡ true
unfolding holds_to
top_bit_table = refl

pub top_bit : (b : ℕ) → b < 256 → bit_and b 0x80 ≡ b / 128 * 128
top_bit b h = (==_iff _ _).0 (holds_to_lem _ 255 b (omega arith) top_bit_table)

set_top_bit_table : holds_to (λ b. bit_or b 0x80 == b + 128) 127 ≡ true
unfolding holds_to
set_top_bit_table = refl

pub set_top_bit : (b : ℕ) → b < 128 → bit_or b 0x80 ≡ b + 128
set_top_bit b h = (==_iff _ _).0 (holds_to_lem _ 127 b (omega arith) set_top_bit_table)

-- With rounds for its first number to run out, the digits do not depend on how many are left.
rounds_lem : (k l a b : ℕ) → a ≤ k → a ≤ l → digits (λ _. 0) min k a b ≡ digits (λ _. 0) min l a b
rounds_lem zero zero a b h h' = refl
rounds_lem zero (suc l) zero b h h' = refl
rounds_lem zero (suc l) (suc a) b h h' = absurd (omega (arith, h))
rounds_lem (suc k) zero zero b h h' = refl
rounds_lem (suc k) zero (suc a) b h h' = absurd (omega (arith, h'))
rounds_lem (suc k) (suc l) zero b h h' = refl
rounds_lem (suc k) (suc l) (suc a) b h h' =
    rw (rounds_lem k l (suc a / 2) (b / 2) (omega (arith, h)) (omega (arith, h'))) refl

lowest_digit : (a b : ℕ) → bit_and a b ≡ bit_and (a / 2) (b / 2) * 2 + min (a % 2) (b % 2)
lowest_digit zero b = simp bit_and-bitwise (omega arith)
lowest_digit (suc a) b =
    simp bit_and-bitwise
      (omega (arith, rounds_lem a (suc a / 2) (suc a / 2) (b / 2) (omega arith) (omega arith)))

bit_and-double : (n m : ℕ) → bit_and n (2 * m) ≡ 2 * bit_and (n / 2) m
bit_and-double n m =
    let half : 2 * m / 2 ≡ m = omega arith in omega (arith, rw half at (lowest_digit n (2 * m)))

bit_and-quarter : (n m : ℕ) → bit_and n (4 * m) ≡ 4 * bit_and (n / 4) m
bit_and-quarter n m =
    let parts : 4 * m ≡ 2 * (2 * m) = omega arith in
    let again : n / 2 / 2 ≡ n / 4 = omega arith in
    omega (
      arith,
      ap (bit_and n) parts,
      bit_and-double n (2 * m),
      rw again at (bit_and-double (n / 2) m),
    )

bit_and-nibble : (n m : ℕ) → bit_and n (16 * m) ≡ 16 * bit_and (n / 16) m
bit_and-nibble n m =
    let parts : 16 * m ≡ 4 * (4 * m) = omega arith in
    let again : n / 4 / 4 ≡ n / 16 = omega arith in
    omega (
      arith,
      ap (bit_and n) parts,
      bit_and-quarter n (4 * m),
      rw again at (bit_and-quarter (n / 4) m),
    )

-- A mask of whole bytes passes over the lowest byte.
pub bit_and-shift : (n m : ℕ) → bit_and n (256 * m) ≡ 256 * bit_and (n / 256) m
bit_and-shift n m =
    let parts : 256 * m ≡ 16 * (16 * m) = omega arith in
    let again : n / 16 / 16 ≡ n / 256 = omega arith in
    omega (
      arith,
      ap (bit_and n) parts,
      bit_and-nibble n (16 * m),
      rw again at (bit_and-nibble (n / 16) m),
    )
