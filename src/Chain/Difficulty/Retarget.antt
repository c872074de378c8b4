-- ===== src/Chain/Difficulty/Retarget.antt =====
-- The bounds of a retarget.
use bitclone.Base.{ℕ, ◌*◌, ◌-◌, ◌/◌, ◌^◌, ◌≤◌, ◌≡◌, refl, min, ok, replicate, ◌∷◌, ◌++◌, arith}
use native.Mathlib.Nat.{mul-le-mul_left}
use bitclone.Base.Bytes.{Bytes, from_be, int_to_be}
use bitclone.Formats.BlockSize
use bitclone.Data.TargetBits.{bits_to_target, expand}
use bitclone.Chain.Difficulty.{two_week_seconds, clamp_time, calculate_retarget}

clamp_time-between :
    (t : ℕ) → (two_week_seconds / 4 ≤ clamp_time t) × (clamp_time t ≤ 4 * two_week_seconds)
unfolding clamp_time
clamp_time-between t = ground arith

-- A target times a time between a quarter and four times two weeks.
scaled :
    (target time : ℕ)
    → two_week_seconds / 4 ≤ time
    → time ≤ 4 * two_week_seconds
    → (target / 4 ≤ target * time / two_week_seconds)
      × (target * time / two_week_seconds ≤ 4 * target)
scaled target time low high =
    let least = mul-le-mul_left target low in
    let most = mul-le-mul_left target high in (omega (arith, least), omega (arith, most))

-- The target of the first block.
abbrev limit : ℕ
limit = 0xffff * 2 ^ 208

genesis_bytes : Bytes
genesis_bytes = replicate 4 0 ++ (0xff ∷ 0xff ∷ replicate 26 0)

genesis_expands : bits_to_target BlockSize.genesis_block_bits ≡ ok genesis_bytes
unfolding bits_to_target expand int_to_be genesis_bytes
genesis_expands = refl

from_be-genesis : from_be genesis_bytes ≡ limit
unfolding genesis_bytes
from_be-genesis = refl

-- A retarget returns, whatever the timestamps. The new target is at most that of the first block and
-- at most four times the current one; and it is at least a quarter of the current one, unless that
-- is above the first block's.
pub retarget_bounds :
    (current_target : Bytes) (first_timestamp last_timestamp : ℕ)
    → (target : ℕ) × (calculate_retarget current_target first_timestamp last_timestamp ≡ ok target)
      × (target ≤ 0xffff * 2 ^ 208)
      × (target ≤ 4 * from_be current_target)
      × (min (from_be current_target / 4) (0xffff * 2 ^ 208) ≤ target)
unfolding calculate_retarget
retarget_bounds current_target first_timestamp last_timestamp =
    let time = clamp_time (last_timestamp - first_timestamp) in
    let (low, high) = clamp_time-between (last_timestamp - first_timestamp) in
    let (least, most) = scaled (from_be current_target) time low high in
    (
      min (from_be current_target * time / two_week_seconds) limit,
      rw (genesis_expands, from_be-genesis) refl,
      omega arith,
      omega (arith, most),
      omega (arith, least),
    )
