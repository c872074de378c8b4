-- ===== src/Data/TargetBits.antt =====
-- data/target_bits.py: the target of a block, 32 bytes, and its compact form, 4 bytes.
pub mod RoundTrip
use bitclone.Base.{
  ℕ, suc, ◌+◌, ◌*◌, ◌-◌, ◌^◌, Result, Error, ok, err, ◌>>=◌, List, [], ◌∷◌, ◌++◌, length, take,
  drop, replicate, ltb, leb, ◌==◌, if◌then◌else◌,
}
use bitclone.Base.Bytes.{Bytes, from_be, int_to_be}

-- `coeff * pow(2, 8 * (exp - 3))`. A negative exponent makes it a float, which has no `to_bytes`.
unfoldable pub expand : ℕ → Bytes → Result Bytes
expand exp coeff =
    if ltb exp 3
    then err Error.attribute_error
    else int_to_be 32 (from_be (take 3 coeff) * 2 ^ (8 * (exp - 3)))

unfoldable pub bits_to_target : Bytes → Result Bytes
bits_to_target [] = err Error.target_bits_error
bits_to_target (exp ∷ coeff) =
    if suc (length coeff) == 4 then expand exp coeff else err Error.target_bits_error

-- `next((i for i, b in enumerate(target) if b != 0), len(target))`
unfoldable pub first_nonzero : Bytes → ℕ
first_nonzero [] = 0
first_nonzero (b ∷ bs) = let rest = first_nonzero bs in if b == 0 then suc rest else 0

-- `data.ljust(n, b'\x00')`
unfoldable pub pad_right : ℕ → Bytes → Bytes
pad_right n bs = bs ++ replicate (n - length bs) 0

-- The coefficient's sign bit must stay clear. One byte holds the exponent, which is at most 33.
unfoldable pub compact : ℕ → Bytes → Result Bytes
compact exp [] = err Error.index_error
compact exp (c ∷ cs) = if leb 0x80 c then ok (suc exp ∷ 0 ∷ take 2 (c ∷ cs)) else ok (exp ∷ c ∷ cs)

unfoldable pub target_to_bits : Bytes → Result Bytes
target_to_bits target =
    if length target == 32
    then compact (32 - first_nonzero target)
        (pad_right 3 (take 3 (drop (first_nonzero target) target)))
    else err Error.target_bits_error
