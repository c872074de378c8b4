-- ===== src/Tests/Scripts.antt =====
-- script/ at concrete inputs.
use bitclone.Base.{List, false, ◌≡◌, ◌≤◌, refl, ok, err, Error, [], ◌∷◌, length, All, arith}
use bitclone.Base.Bytes.{Bytes, IsByte}
use bitclone.Base.Int.{pos, negsuc}
use bitclone.Script.Num.{encode, decode}
use bitclone.Script.Num.Codec.{decode-encode, encode_too_large}
use bitclone.Script.Stack.{BitStack}
use bitclone.Script.Stack.Bounded.{IsBounded}
use bitclone.Script.StackOps.{op_pick, op_roll}
use bitclone.Script.StackOps.Moves.{stack, FixedMoves, fixed_moves}
use bitclone.Script.StackOps.Index.{op_pick_negative, op_roll_moves, op_roll_negative}
use bitclone.Script.OpcodeMap.{Hashes, plain, opcode_map, run_entry}
use bitclone.Script.OpcodeMap.Table.{opcode_map_keeps}
use bitclone.Script.Numeric.{op_add}
use bitclone.Script.Parser.{parse_op}
use bitclone.Script.Instruction.{Instruction, read_instruction}
use bitclone.Script.Instruction.Raw.{Splits, read_instruction-Splits}
use bitclone.Script.Conditional.{Branches, parse_conditional_block, parse_from, mark, write}
use bitclone.Script.Conditional.Cuts.{Stretches, raws, concat}
use bitclone.Script.Conditional.Fuel.{parse_conditional_block-enough}
use bitclone.Script.Conditional.Parsed.{parse_conditional_block-cuts}
use bitclone.Script.Instruction.Agree.{Agree, readers-Agree}

-- -255 is FF 80.
decode-encode_example :
    (bs : Bytes) × (encode (negsuc 254) ≡ ok bs) × (length bs ≤ 4) × (decode bs ≡ ok (negsuc 254))
decode-encode_example = decode-encode (negsuc 254) (omega arith)

encode_too_large_example : encode (pos 0x8000_0000) ≡ err Error.bit_num_error
encode_too_large_example = encode_too_large (pos 0x8000_0000) (omega arith)

abbrev a : Bytes
a = 7 ∷ []

abbrev b : Bytes
b = 8 ∷ []

abbrev c : Bytes
c = 9 ∷ []

fixed_moves_example : FixedMoves a b c a b c (c ∷ []) 0
fixed_moves_example = fixed_moves a b c a b c (c ∷ []) 0

-- -1 takes the bottom item.
op_pick_negative_example :
    op_pick (stack ((0x81 ∷ []) ∷ a ∷ b ∷ []) 1000) ≡ (ok tt, stack (b ∷ a ∷ b ∷ []) 1000)
unfolding decode
op_pick_negative_example =
    op_pick_negative (0x81 ∷ []) b (a ∷ b ∷ []) 1000 0 refl (omega arith) refl (omega arith)

op_roll_moves_example :
    op_roll (stack ((1 ∷ []) ∷ a ∷ b ∷ c ∷ []) 1000) ≡ (ok tt, stack (b ∷ a ∷ c ∷ []) 1000)
unfolding decode
op_roll_moves_example = op_roll_moves (1 ∷ []) b (a ∷ b ∷ c ∷ []) 1000 1 refl refl (omega arith)

op_roll_negative_example :
    op_roll (stack ((0x81 ∷ []) ∷ a ∷ b ∷ []) 1000) ≡ (ok tt, stack (a ∷ b ∷ []) 1000)
unfolding decode
op_roll_negative_example = op_roll_negative (0x81 ∷ []) (a ∷ b ∷ []) 1000 0 refl (omega arith)

abbrev hashes : Hashes
hashes = record { sha1 = λ x. x; sha256 = λ x. x; ripemd160 = λ x. x }

abbrev two : BitStack
two = stack ((1 ∷ []) ∷ (2 ∷ []) ∷ []) 2

-- OP_ADD on a full stack of two.
opcode_map_keeps_example :
    IsBounded (run_entry (plain op_add) (two, stack [] 2)).1.0
    × IsBounded (run_entry (plain op_add) (two, stack [] 2)).1.1
unfolding opcode_map
opcode_map_keeps_example =
    opcode_map_keeps hashes 0x93 (plain op_add) two (stack [] 2) refl (omega arith) (omega arith)

-- OP_PUSHDATA1 of two bytes.
readers-Agree_example :
    Agree 0x4c (parse_op 0x4c (2 ∷ 7 ∷ 8 ∷ 9 ∷ [])) (read_instruction (0x4c ∷ 2 ∷ 7 ∷ 8 ∷ 9 ∷ []))
readers-Agree_example = readers-Agree 0x4c (2 ∷ 7 ∷ 8 ∷ 9 ∷ [])

-- OP_1 OP_IF OP_ELSE OP_ENDIF, OP_ELSE OP_0 OP_ENDIF, and one more opcode.
abbrev conditional : Bytes
conditional = 0x51 ∷ 0x63 ∷ 0x67 ∷ 0x68 ∷ 0x67 ∷ 0x00 ∷ 0x68 ∷ 0x61 ∷ []

abbrev branches : Branches
branches = record {
  if_branch = 0x51 ∷ 0x63 ∷ 0x67 ∷ 0x68 ∷ [];
  else_branch = 0x00 ∷ [];
  else_at = 0x00 ∷ 0x68 ∷ 0x61 ∷ [];
}

conditional_parses : parse_conditional_block conditional ≡ ok (branches, 0x61 ∷ [])
unfolding parse_conditional_block parse_from read_instruction mark write
conditional_parses = refl

conditional-IsByte : All IsByte conditional
conditional-IsByte = (
  omega arith,
  (
    omega arith,
    (omega arith, (omega arith, (omega arith, (omega arith, (omega arith, (omega arith, tt)))))),
  ),
)

parse_conditional_block-cuts_example :
    (first : List Instruction) × (more : List (List Instruction)) × Stretches 0 conditional first
      more
      (0x61 ∷ [])
    × (branches.if_branch ≡ raws first)
    × (branches.else_branch ≡ concat more)
parse_conditional_block-cuts_example =
    parse_conditional_block-cuts conditional branches (0x61 ∷ []) conditional-IsByte
      conditional_parses

-- OP_PUSHDATA1 again.
read_instruction-Splits_example :
    Splits (0x4c ∷ 1 ∷ 7 ∷ 9 ∷ []) (read_instruction (0x4c ∷ 1 ∷ 7 ∷ 9 ∷ []))
read_instruction-Splits_example =
    read_instruction-Splits (0x4c ∷ 1 ∷ 7 ∷ 9 ∷ [])
      (omega arith, (omega arith, (omega arith, (omega arith, tt))))

parse_conditional_block-enough_example :
    parse_from 9 0 false
      (record { if_branch = []; else_branch = []; else_at = conditional })
      conditional
    ≡ parse_conditional_block conditional
parse_conditional_block-enough_example =
    parse_conditional_block-enough 9 conditional conditional-IsByte (omega arith)
