-- ===== src/Script/Parser.antt =====
-- script/parser.py, `parse_script_ops`, and script/stack_ops.py, `encode_pushdata`. The loop's
-- position is the list of the bytes that it has not reached.
use bitclone.Base.{
  ℕ, zero, suc, Result, Error, ok, err, ◌>>=◌, ◌&&◌, List, [], ◌∷◌, Option, none, some, length,
  take, drop, ltb, leb, ◌==◌, if◌then◌else◌,
}
use bitclone.Base.Bytes.{Bytes, from_le, int_to_le}
use bitclone.ByteStream.Writer.{◌<+>◌}

-- The length that a push opcode announces, read from `width` bytes.
unfoldable pub read_length : ℕ → Bytes → Result (ℕ × Bytes)
read_length width rest =
    if ltb (length rest) width
    then err Error.op_code_error
    else ok (from_le (take width rest), drop width rest)

-- `push_length`, and the bytes behind the length.
unfoldable pub push_length : ℕ → Bytes → Result (Option ℕ × Bytes)
push_length opcode rest =
    if leb 1 opcode && leb opcode 0x4b
    then ok (some opcode, rest)
    else if opcode == 0x4c
    then (do (n, rest') ← read_length 1 rest; ok (some n, rest'))
    else if opcode == 0x4d
    then (do (n, rest') ← read_length 2 rest; ok (some n, rest'))
    else if opcode == 0x4e
    then (do (n, rest') ← read_length 4 rest; ok (some n, rest'))
    else ok (none, rest)

-- One round of the loop behind the opcode.
unfoldable pub parse_op : ℕ → Bytes → Result (Option Bytes × Bytes)
parse_op opcode rest = do
  (pushed, rest') ← push_length opcode rest
  elim pushed [
    | none ↦ ok (none, rest')
    | some n ↦
        if ltb (length rest') n
        then err Error.op_code_error
        else ok (some (take n rest'), drop n rest')
  ]

-- Each round takes the opcode at least, so as many rounds as there are bytes are enough.
unfoldable pub parse_ops_from : ℕ → Bytes → Result (List (ℕ × Option Bytes))
parse_ops_from fuel [] = ok []
parse_ops_from zero (opcode ∷ rest) = err Error.op_code_error
parse_ops_from (suc fuel) (opcode ∷ rest) = do
  (pushed, rest') ← parse_op opcode rest
  operations ← parse_ops_from fuel rest'
  ok ((opcode, pushed) ∷ operations)

unfoldable pub parse_script_ops : Bytes → Result (List (ℕ × Option Bytes))
parse_script_ops script = parse_ops_from (length script) script

unfoldable pub encode_pushdata : Bytes → Result Bytes
encode_pushdata item =
    let size = length item in
    if leb 0x01 size && leb size 0x4b
    then int_to_le 1 size <+> ok item
    else if leb size 0xff
    then ok (0x4c ∷ []) <+> (int_to_le 1 size <+> ok item)
    else if leb size 0xffff
    then ok (0x4d ∷ []) <+> (int_to_le 2 size <+> ok item)
    else if leb size 0xffff_ffff
    then ok (0x4e ∷ []) <+> (int_to_le 4 size <+> ok item)
    else err Error.bit_stack_error
