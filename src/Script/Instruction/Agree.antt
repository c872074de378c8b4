-- ===== src/Script/Instruction/Agree.antt =====
-- The engine's reader and the static parser take a script apart alike.
use bitclone.Base.{
  ℕ, ◌≡◌, Result, ok, err, Error, true, ◌∷◌, ◌++◌, Option, some, ◌>>=◌, ltb, if◌then◌else◌, length,
  take, drop, length-take, arith,
}
use bitclone.Base.Bytes.{Bytes, to_le, from_le}
use bitclone.ByteStream.{read_stream, read_little_int}
use bitclone.Script.Parser.{read_length, push_length, parse_op}
use bitclone.Script.Instruction.{Instruction, read_direct, read_pushdata, read_instruction}

-- What the two readers make of one opcode: both fail, or both find the same data and stop at the
-- same byte.
abbrev pub Agree : ℕ → Result (Option Bytes × Bytes) → Result (Option Instruction × Bytes) → Type 0
Agree opcode (ok (pushed, rest)) (ok (some i, rest')) =
    (i.opcode ≡ opcode) × (i.push_data ≡ pushed) × (rest' ≡ rest)
Agree opcode (err x) (err y) = Unit
Agree opcode _ _ = ⊥

-- `read_stream` refuses exactly where less is left.
read_stream-eq :
    (n : ℕ) (s : Bytes)
    → read_stream n s ≡ (if ltb (length s) n then err Error.read_error else ok (take n s, drop n s))
unfolding read_stream
read_stream-eq n s = ground (arith, length-take n s)

-- What the static parser does once it knows the length.
unfoldable finish : ℕ → Bytes → Result (Option Bytes × Bytes)
finish n s = if ltb (length s) n then err Error.op_code_error else ok (some (take n s), drop n s)

abbrev wrap : Result (Instruction × Bytes) → Result (Option Instruction × Bytes)
wrap (ok (i, rest)) = ok (some i, rest)
wrap (err e) = err e

-- `read_pushdata` once it knows the length.
unfoldable read_sized : ℕ → ℕ → ℕ → Bytes → Result (Instruction × Bytes)
read_sized opcode width size s = elim (read_stream size s) [
  | ok (item, rest) ↦ ok (
    record {
      opcode = opcode;
      raw = opcode ∷ (to_le width size ++ item);
      is_push = true;
      push_data = some item;
    },
    rest,
  )
  | err e ↦ err e
]

read_direct-eq :
    (n : ℕ) (s : Bytes)
    → read_direct n s ≡ (
        if ltb (length s) n
        then err Error.read_error
        else ok (
          record { opcode = n; raw = n ∷ take n s; is_push = true; push_data = some (take n s) },
          drop n s,
        ))
unfolding read_direct
read_direct-eq n s = ground (arith, read_stream-eq n s)

direct_agrees :
    (opcode : ℕ) (s : Bytes) → Agree opcode (finish opcode s) (wrap (read_direct opcode s))
unfolding finish
direct_agrees opcode s = ground (arith, read_direct-eq opcode s)

read_pushdata-eq :
    (opcode width : ℕ) (s : Bytes)
    → read_pushdata opcode width s ≡ (
        if ltb (length s) width
        then err Error.read_error
        else read_sized opcode width (from_le (take width s)) (drop width s))
unfolding read_pushdata read_little_int read_sized
read_pushdata-eq opcode width s = ground (arith, read_stream-eq width s)

pushdata_agrees :
    (opcode width : ℕ) (s : Bytes)
    → Agree opcode
        (do (n, rest) ← read_length width s; finish n rest)
        (wrap (read_pushdata opcode width s))
unfolding read_length finish read_sized
pushdata_agrees opcode width s =
    ground (
      arith,
      read_pushdata-eq opcode width s,
      read_stream-eq (from_le (take width s)) (drop width s),
    )

-- On every opcode and all that follows it, the engine's reader and `parse_script_ops` agree.
pub readers-Agree :
    (opcode : ℕ) (s : Bytes) → Agree opcode (parse_op opcode s) (read_instruction (opcode ∷ s))
unfolding parse_op push_length read_instruction finish
readers-Agree opcode s = ground (
  arith,
  direct_agrees opcode s,
  pushdata_agrees opcode 1 s,
  pushdata_agrees opcode 2 s,
  pushdata_agrees opcode 4 s,
)
