-- ===== src/Chain/Difficulty.antt =====
-- blockchain/blockchain.py and database/database.py: what a target asks of a block, the work that it
-- stands for, and how the next one is found. A difference of timestamps that is negative in the
-- source is 0 here, which the lower bound on it raises alike.
pub mod Retarget
pub mod Pow
use bitclone.Base.{
  ℕ, suc, ◌+◌, ◌*◌, ◌-◌, ◌/◌, ◌%◌, ◌^◌, min, bit_and, Result, Error, ok, err, ◌>>=◌, Bool, true,
  false, not, ◌&&◌, ◌||◌, List, [], ◌∷◌, length, ltb, leb, ◌==◌, if◌then◌else◌,
}
use bitclone.Base.Bytes.{Bytes, from_le, from_be}
use bitclone.Formats.BlockSize
use bitclone.Data.TargetBits.{bits_to_target, target_to_bits}
use bitclone.Block.Header
use bitclone.Block.Header.{BlockHeader}

abbrev pub two_week_seconds : ℕ
two_week_seconds = 1_209_600

abbrev pub max_future_block_time : ℕ
max_future_block_time = 7200

-- The clamps on `actual_time`: `max` with a quarter and `min` with four times two weeks.
unfoldable pub clamp_time : ℕ → ℕ
clamp_time actual_time =
    let raised =
      if leb actual_time (two_week_seconds / 4) then two_week_seconds / 4 else actual_time in
    min raised (two_week_seconds * 4)

unfoldable pub calculate_retarget : Bytes → ℕ → ℕ → Result ℕ
calculate_retarget current_target first_timestamp last_timestamp = do
  genesis_target ← bits_to_target BlockSize.genesis_block_bits
  let new_target =
      from_be current_target * clamp_time (last_timestamp - first_timestamp) / two_week_seconds
  ok (min new_target (from_be genesis_target))

-- `calc_block_work` of database/database.py.
unfoldable pub calc_block_work : Bytes → Result ℕ
calc_block_work bits = do
  target ← bits_to_target bits
  if from_be target == 0 then ok 0 else ok (2 ^ 256 / (from_be target + 1))

-- The header's hash, read as a number, against a target.
unfoldable pub meets_target : (Bytes → Bytes) → BlockHeader → ℕ → Result Bool
meets_target hash256 h target = do id ← Header.block_id hash256 h; ok (leb (from_le id) target)

-- The end of `_validate_header_pow`; the errors of `bits_to_target` are caught.
unfoldable pub check_target : (Bytes → Bytes) → BlockHeader → Result Bytes → Result Bool
check_target hash256 h (err e) = ok false
check_target hash256 h (ok target) =
    if ltb 0 (from_be target) && ltb (from_be target) (2 ^ 256)
    then meets_target hash256 h (from_be target)
    else ok false

-- The shape that `_validate_header_pow` asks of the compact target.
unfoldable pub is_canonical : Bytes → Bool
is_canonical [] = false
is_canonical (exponent ∷ coeff) =
    (suc (length coeff) == BlockSize.bits)
    && leb 3 exponent
    && leb exponent 32
    && not (from_be coeff == 0)
    && (bit_and (from_be coeff) 0x800000 == 0)

unfoldable pub validate_header_pow : (Bytes → Bytes) → BlockHeader → Result Bool
validate_header_pow hash256 h =
    if is_canonical h.bits then check_target hash256 h (bits_to_target h.bits) else ok false
