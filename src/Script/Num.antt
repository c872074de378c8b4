-- ===== src/Script/Num.antt =====
-- script/stack.py, class BitNum: Script's signed-magnitude numbers, lowest byte first.
mod Length
pub mod Codec
use bitclone.Base.{
  ℕ, zero, suc, ◌+◌, ◌-◌, ◌*◌, ◌/◌, ◌^◌, Result, Error, ok, err, ◌>>=◌, Bool, true, false, not,
  List, [], ◌∷◌, ◌++◌, length, take, last_or, ltb, ◌==◌, if◌then◌else◌, bit_and, bit_or,
}
use bitclone.Base.Bytes.{Bytes, int_to_le, from_le}
use bitclone.Base.Int.{ℤ, pos, neg, magnitude, ltb_ℤ, eqb_ℤ}
use bitclone.Formats.ScriptLimit.{max_bitnum}

-- `n.bit_length()`, with `n` halvings as the bound: each round takes at least one from `n`.
bit_length_from : ℕ → ℕ → ℕ
bit_length_from zero n = 0
bit_length_from (suc fuel) n = elim (n == 0) [
  | true ↦ 0
  | false ↦ suc (bit_length_from fuel (n / 2))
]

pub bit_length : ℕ → ℕ
bit_length n = bit_length_from n n

-- The number of bytes that `to_bytes` is called with.
abbrev pub byte_length : ℕ → ℕ
byte_length n = (bit_length n + 7) / 8

-- `b & 0x80`, as a test.
abbrev pub has_sign_bit : ℕ → Bool
has_sign_bit b = not (bit_and b 0x80 == 0)

-- `_encode` once the magnitude's bytes are known, with the sign bit's place.
unfoldable pub place_sign : Bool → Bytes → Result Bytes
place_sign negative mag =
    let top = last_or 0 mag in
    let predicted_len = length mag + (if has_sign_bit top then 1 else 0) in
    if ltb max_bitnum predicted_len
    then err Error.bit_num_error
    else if has_sign_bit top
    then ok (mag ++ ((if negative then 0x80 else 0x00) ∷ []))
    else if negative
    then ok (take (length mag - 1) mag ++ (bit_or top 0x80 ∷ []))
    else ok mag

-- `_encode`, which `to_bytes` caches.
unfoldable pub encode : ℤ → Result Bytes
encode n = if eqb_ℤ n (pos 0) then ok [] else (do
  mag ← int_to_le (byte_length (magnitude n)) (magnitude n)
  place_sign (ltb_ℤ n (pos 0)) mag)

-- `from_bytes`. Clearing a sign bit that is set takes its weight away.
unfoldable pub decode : Bytes → Result ℤ
decode [] = ok (pos 0)
decode (b ∷ bs) =
    let size = suc (length bs) in
    let num = from_le (b ∷ bs) in
    if ltb max_bitnum size
    then err Error.bit_num_error
    else if has_sign_bit (last_or b bs)
    then ok (neg (pos (num - 2 ^ (8 * size - 1))))
    else ok (pos num)
