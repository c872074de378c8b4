-- ===== src/Script/Instruction/Raw.antt =====
-- An instruction's raw bytes are those that the engine's reader took.
use bitclone.Base.{
  ℕ, zero, suc, ◌<◌, ◌≡◌, refl, sym, ap, ◌∙◌, Result, ok, err, [], ◌∷◌, ◌++◌, Option, some, none,
  append_assoc, length, take, drop, take-append-drop, arith, All,
}
use bitclone.Base.Bytes.{Bytes, IsByte, to_le, from_le, to_le-from_le}
use bitclone.ByteStream.{read_stream, read_little_int}
use bitclone.Script.Instruction.{Instruction, read_direct, read_pushdata, read_instruction}

-- The bytes that were there are the instruction's and those that follow.
abbrev pub Splits : Bytes → Result (Option Instruction × Bytes) → Type 0
Splits s (ok (none, rest)) = (s ≡ []) × (rest ≡ [])
Splits s (ok (some i, rest)) = s ≡ i.raw ++ rest
Splits s (err e) = Unit

abbrev SplitsPush : Bytes → Result (Instruction × Bytes) → Type 0
SplitsPush s (ok (i, rest)) = s ≡ i.raw ++ rest
SplitsPush s (err e) = Unit

direct_splits : (opcode : ℕ) (s : Bytes) → SplitsPush (opcode ∷ s) (read_direct opcode s)
unfolding read_direct read_stream
direct_splits opcode s = ground (arith, take-append-drop opcode s)

All-take : (n : ℕ) (s : Bytes) → All IsByte s → All IsByte (take n s)
All-take zero s h = tt
All-take (suc n) [] h = tt
All-take (suc n) (b ∷ s) h = (h.0, All-take n s h.1)

-- The length, the data and the rest, put together again.
rejoin :
    (width n : ℕ) (s : Bytes)
    → All IsByte s
    → length (take width s) ≡ width
    → (to_le width (from_le (take width s)) ++ take n (drop width s)) ++ drop n (drop width s) ≡ s
rejoin width n s h e =
    append_assoc (to_le width (from_le (take width s))) (take n (drop width s))
      (drop n (drop width s))
    ∙ ap (λ t. to_le width (from_le (take width s)) ++ t) (take-append-drop n (drop width s))
    ∙ ap (λ t. t ++ drop width s) same
    ∙ take-append-drop width s
  where
    same : to_le width (from_le (take width s)) ≡ take width s
    same =
        ap (λ w. to_le w (from_le (take width s))) (sym e)
        ∙ to_le-from_le (take width s) (All-take width s h)

pushdata_splits :
    (opcode width : ℕ) (s : Bytes)
    → All IsByte s
    → SplitsPush (opcode ∷ s) (read_pushdata opcode width s)
unfolding read_pushdata read_little_int read_stream
pushdata_splits opcode width s h =
    ground
      (arith, λ (e : length (take width s) ≡ width). rejoin width (from_le (take width s)) s h e)

-- Every instruction that the engine reads from a byte string holds in `raw` exactly the bytes that
-- the reader took, and it finds none only at the end.
pub read_instruction-Splits : (s : Bytes) → All IsByte s → Splits s (read_instruction s)
unfolding read_instruction
read_instruction-Splits [] h = (refl, refl)
read_instruction-Splits (opcode ∷ s) h = ground (
  arith,
  direct_splits opcode s,
  pushdata_splits opcode 1 s h.1,
  pushdata_splits opcode 2 s h.1,
  pushdata_splits opcode 4 s h.1,
)

abbrev HasOpcode : ℕ → Result (Instruction × Bytes) → Type 0
HasOpcode opcode (ok (i, rest)) = i.opcode ≡ opcode
HasOpcode opcode (err e) = Unit

direct_opcode : (opcode : ℕ) (s : Bytes) → HasOpcode opcode (read_direct opcode s)
unfolding read_direct
direct_opcode opcode s = ground arith

pushdata_opcode : (opcode width : ℕ) (s : Bytes) → HasOpcode opcode (read_pushdata opcode width s)
unfolding read_pushdata
pushdata_opcode opcode width s = ground arith

-- An opcode that pushes nothing is the whole instruction.
single_raw :
    (opcode : ℕ) (s : Bytes) (i : Instruction) (rest : Bytes)
    → read_instruction (opcode ∷ s) ≡ ok (some i, rest)
    → 0x4e < i.opcode
    → opcode ∷ s ≡ i.opcode ∷ rest
unfolding read_instruction
single_raw opcode s i rest h big = ground (
  arith,
  direct_opcode opcode s,
  pushdata_opcode opcode 1 s,
  pushdata_opcode opcode 2 s,
  pushdata_opcode opcode 4 s,
)

pub marker_raw :
    (s : Bytes) (i : Instruction) (rest : Bytes)
    → read_instruction s ≡ ok (some i, rest)
    → 0x4e < i.opcode
    → s ≡ i.opcode ∷ rest
unfolding read_instruction
marker_raw [] i rest h big = ground arith
marker_raw (opcode ∷ s) i rest h big = single_raw opcode s i rest h big
