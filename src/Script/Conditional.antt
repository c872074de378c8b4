-- ===== src/Script/Conditional.antt =====
-- script/script_engine.py: `_parse_conditional_block`, `_stack_value_is_true` and
-- `_select_conditional_branch`. A position of the stream is the list of the bytes behind it.
pub mod Cuts
pub mod Parsed
pub mod Fuel
use bitclone.Base.{
  ℕ, zero, suc, ◌-◌, Result, Error, ok, err, ◌>>=◌, Bool, true, false, not, ◌||◌, List, [], ◌∷◌,
  ◌++◌, Option, none, some, length, ◌==◌, if◌then◌else◌,
}
use bitclone.Base.Bytes.{Bytes}
use bitclone.Base.Int.{pos, eqb_ℤ}
use bitclone.Script.Num.{decode}
use bitclone.Script.Instruction.{Instruction, read_instruction}

-- What an opcode is to the structure: OP_IF or OP_NOTIF, OP_ELSE, OP_ENDIF, or none of them.
pub data Mark : Type 0 where
  opens otherwise ends plain : Mark

unfoldable pub mark : ℕ → Mark
mark opcode =
    if (opcode == 0x63) || (opcode == 0x64)
    then Mark.opens
    else if opcode == 0x67
    then Mark.otherwise
    else if opcode == 0x68
    then Mark.ends
    else Mark.plain

-- The two buffers, and where the stream stood when the second was last turned to.
pub record Branches : Type 0 where
  pub if_branch : Bytes
  pub else_branch : Bytes
  pub else_at : Bytes

-- `current_branch.write(raw)`
unfoldable pub write : Bool → Bytes → Branches → Branches
write false raw b = record b { if_branch = b.if_branch ++ raw }
write true raw b = record b { else_branch = b.else_branch ++ raw }

-- The loop, from a depth of 1 + `nested`; `in_else` tells the current branch. Each round reads an
-- instruction, so one round for each byte and one more are enough.
unfoldable pub parse_from : ℕ → ℕ → Bool → Branches → Bytes → Result (Branches × Bytes)
parse_from zero nested in_else b s = err Error.script_engine_error
parse_from (suc fuel) nested in_else b s = do
  (instr, rest) ← read_instruction s
  elim instr [
    | none ↦ err Error.script_engine_error
    | some i ↦ elim (mark i.opcode) [
      | Mark.opens ↦ parse_from fuel (suc nested) in_else (write in_else i.raw b) rest
      | Mark.otherwise ↦ elim nested [
        | zero ↦ parse_from fuel 0 true (record b { else_at = rest }) rest
        | suc n ↦ parse_from fuel (suc n) in_else (write in_else i.raw b) rest
      ]
      | Mark.ends ↦ elim nested [
        | zero ↦ ok (b, rest)
        | suc n ↦ parse_from fuel n in_else (write in_else i.raw b) rest
      ]
      | Mark.plain ↦ parse_from fuel nested in_else (write in_else i.raw b) rest
    ]
  ]

unfoldable pub parse_conditional_block : Bytes → Result (Branches × Bytes)
parse_conditional_block s =
    parse_from (suc (length s)) 0 false (record { if_branch = []; else_branch = []; else_at = s }) s

-- False exactly for the number 0, which a value too long to be a number is not asked for: it raises.
unfoldable pub stack_value_is_true : Bytes → Result Bool
stack_value_is_true [] = ok false
stack_value_is_true (b ∷ bs) = do n ← decode (b ∷ bs); ok (not (eqb_ℤ n (pos 0)))

-- `_select_conditional_branch` of a popped condition: the branch to run, where it stood, and the
-- stream behind OP_ENDIF.
unfoldable pub select_branch : ℕ → Bytes → Bytes → Result (Bytes × Bytes × Bytes)
select_branch opcode condition s = do
  is_true ← stack_value_is_true condition
  (b, rest) ← parse_conditional_block s
  if (if opcode == 0x64 then not is_true else is_true)
      then ok (b.if_branch, s, rest)
      else ok (b.else_branch, b.else_at, rest)
