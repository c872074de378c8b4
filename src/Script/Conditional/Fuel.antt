-- ===== src/Script/Conditional/Fuel.antt =====
-- The rounds that `_parse_conditional_block` is given are enough.
use bitclone.Base.{
  ◌>>=◌, ℕ, zero, suc, ◌+◌, ◌≡◌, ◌≤◌, ◌<◌, refl, ap, ◌∙◌, Result, ok, err, Bool, false, [], ◌∷◌,
  Option, none, some, length, length-append, All, arith, inl, inr, Result-cases,
}
use bitclone.Base.Bytes.{Bytes, IsByte}
use bitclone.Script.Instruction.{Instruction, read_direct, read_pushdata, read_instruction}
use bitclone.Script.Conditional.{mark, Branches, parse_from, parse_conditional_block}
use bitclone.Script.Conditional.Parsed.{Mark-cases, taken}

-- An instruction takes a byte at least.
abbrev TakesSome : Result (Option Instruction × Bytes) → Type 0
TakesSome (ok (some i, rest)) = 1 ≤ length i.raw
TakesSome _ = Unit

abbrev PushTakesSome : Result (Instruction × Bytes) → Type 0
PushTakesSome (ok (i, rest)) = 1 ≤ length i.raw
PushTakesSome (err e) = Unit

direct_takes : (opcode : ℕ) (s : Bytes) → PushTakesSome (read_direct opcode s)
unfolding read_direct
direct_takes opcode s = ground arith

pushdata_takes : (opcode width : ℕ) (s : Bytes) → PushTakesSome (read_pushdata opcode width s)
unfolding read_pushdata
pushdata_takes opcode width s = ground arith

read_takes : (s : Bytes) → TakesSome (read_instruction s)
unfolding read_instruction
read_takes [] = tt
read_takes (opcode ∷ s) = ground (
  arith,
  direct_takes opcode s,
  pushdata_takes opcode 1 s,
  pushdata_takes opcode 2 s,
  pushdata_takes opcode 4 s,
)

shorter :
    (s : Bytes) (i : Instruction) (rest : Bytes)
    → All IsByte s
    → read_instruction s ≡ ok (some i, rest)
    → length rest < length s
shorter s i rest bytes r =
    let some_taken : 1 ≤ length i.raw = (rw r at (read_takes s)) in
    let total : length s ≡ length i.raw + length rest =
      ap length (taken s i rest bytes r).0 ∙ length-append i.raw rest in
    omega (arith, some_taken, total)

enough :
    (fuel fuel' nested : ℕ) (in_else : Bool) (b : Branches) (s : Bytes)
    → All IsByte s
    → length s < fuel
    → length s < fuel'
    → parse_from fuel nested in_else b s ≡ parse_from fuel' nested in_else b s
unfolding parse_from
enough zero fuel' nested in_else b s bytes h h' = ground arith
enough (suc fuel) zero nested in_else b s bytes h h' = ground arith
enough (suc fuel) (suc fuel') zero in_else b s bytes h h' =
    elim (Result-cases (read_instruction s)) [
      | inr (e, r) ↦ rw r refl
      | inl ((none, rest), r) ↦ rw r refl
      | inl ((some i, rest), r) ↦
          let less = shorter s i rest bytes r in
          let again : (n : ℕ) (e : Bool) (c : Branches)
              → parse_from fuel n e c rest ≡ parse_from fuel' n e c rest =
            λ n e c.
              enough fuel fuel' n e c rest (taken s i rest bytes r).1 (omega (arith, less, h))
                (omega (arith, less, h')) in
          rw r (elim (Mark-cases (mark i.opcode)) [
            | inl m ↦ rw (m, ◌>>=◌) (again zero _ _)
            | inr (inl m) ↦ rw (m, ◌>>=◌) refl
            | inr (inr (inl m)) ↦ rw (m, ◌>>=◌) (again (suc zero) _ _)
            | inr (inr (inr m)) ↦ rw (m, ◌>>=◌) (again zero _ _)
          ])
    ]
enough (suc fuel) (suc fuel') (suc n) in_else b s bytes h h' =
    elim (Result-cases (read_instruction s)) [
      | inr (e, r) ↦ rw r refl
      | inl ((none, rest), r) ↦ rw r refl
      | inl ((some i, rest), r) ↦
          let less = shorter s i rest bytes r in
          let again : (n : ℕ) (e : Bool) (c : Branches)
              → parse_from fuel n e c rest ≡ parse_from fuel' n e c rest =
            λ n e c.
              enough fuel fuel' n e c rest (taken s i rest bytes r).1 (omega (arith, less, h))
                (omega (arith, less, h')) in
          rw r (elim (Mark-cases (mark i.opcode)) [
            | inl m ↦ rw (m, ◌>>=◌) (again (suc n) _ _)
            | inr (inl m) ↦ rw (m, ◌>>=◌) (again n _ _)
            | inr (inr (inl m)) ↦ rw (m, ◌>>=◌) (again (suc (suc n)) _ _)
            | inr (inr (inr m)) ↦ rw (m, ◌>>=◌) (again (suc n) _ _)
          ])
    ]

-- Given any larger number of rounds, `_parse_conditional_block` does the same on a byte string as
-- with those that it is given here: they do not run out.
pub parse_conditional_block-enough :
    (fuel : ℕ) (s : Bytes)
    → All IsByte s
    → length s < fuel
    → parse_from fuel 0 false (record { if_branch = []; else_branch = []; else_at = s }) s
      ≡ parse_conditional_block s
unfolding parse_conditional_block
parse_conditional_block-enough fuel s bytes h =
    enough fuel (suc (length s)) 0 false _ s bytes h (omega arith)
