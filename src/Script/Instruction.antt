-- ===== src/Script/Instruction.antt =====
-- script/script_engine.py: `Instruction` and `_read_instructions`.
pub mod Agree
pub mod Raw
use bitclone.Base.{
  ℕ, zero, suc, Result, ok, err, Error, Bool, true, false, ◌&&◌, List, [], ◌∷◌, ◌++◌, Option, none,
  some, leb, ◌==◌, if◌then◌else◌,
}
use bitclone.Base.Bytes.{Bytes, to_le}
use bitclone.ByteStream.{Parser, pure, ◌>>=◌, read_stream, read_little_int}

pub record Instruction : Type 0 where
  pub opcode : ℕ
  pub raw : Bytes
  pub is_push : Bool
  pub push_data : Option Bytes

-- A push whose length stands in the opcode.
unfoldable pub read_direct : ℕ → Parser Instruction
read_direct opcode = do
  item ← read_stream opcode
  pure (record { opcode = opcode; raw = opcode ∷ item; is_push = true; push_data = some item })

-- OP_PUSHDATA1, 2 and 4: the length was read from `width` bytes, so writing it back on as many
-- cannot overflow.
unfoldable pub read_pushdata : ℕ → ℕ → Parser Instruction
read_pushdata opcode width = do
  size ← read_little_int width
  item ← read_stream size
  pure (record {
    opcode = opcode;
    raw = opcode ∷ (to_le width size ++ item);
    is_push = true;
    push_data = some item;
  })

-- `None` at the end of the stream.
unfoldable pub read_instruction : Parser (Option Instruction)
read_instruction [] = ok (none, [])
read_instruction (opcode ∷ s) =
    (if leb 0x01 opcode && leb opcode 0x4b
        then (do i ← read_direct opcode; pure (some i))
        else if opcode == 0x4c
        then (do i ← read_pushdata opcode 1; pure (some i))
        else if opcode == 0x4d
        then (do i ← read_pushdata opcode 2; pure (some i))
        else if opcode == 0x4e
        then (do i ← read_pushdata opcode 4; pure (some i))
        else pure (
            some
              (record { opcode = opcode; raw = opcode ∷ []; is_push = false; push_data = none })))
      s
