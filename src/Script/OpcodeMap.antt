-- ===== src/Script/OpcodeMap.antt =====
-- script/opcode_map.py and script/opcodes/crypto.py: the table that the engine dispatches by.
mod StackOpsKeep
mod NumericKeep
pub mod Table
use bitclone.Base.{
  ℕ, Result, ok, err, Bool, true, List, [], ◌∷◌, Option, none, some, ◌==◌, if◌then◌else◌,
}
use bitclone.Base.Bytes.{Bytes}
use bitclone.Script.Stack.{Action, ⊤, BitStack, ◌>>=◌, bytes, push, pop}
use bitclone.Script.StackOps.{
  op_toaltstack, op_fromaltstack, op_2drop, op_2dup, op_3dup, op_2over, op_2rot, op_2swap, op_ifdup,
  op_depth, op_drop, op_dup, op_nip, op_over, op_pick, op_roll, op_rot, op_swap, op_tuck,
}
use bitclone.Script.Numeric.{
  op_size, op_equal, op_1add, op_1sub, op_negate, op_abs, op_not, op_0notequal, op_add, op_sub,
  op_booland, op_boolor, op_numequal, op_numnotequal, op_lessthan, op_greaterthan,
  op_lessthanorequal, op_greaterthanorequal, op_min, op_max, op_within, op_false, op_true,
  op_1negate, op_verify, op_equalverify, op_numequalverify,
}

-- The digests of hashlib, on which the functions of cryptography/hash_functions.py stand.
pub record Hashes : Type 0 where
  pub sha1 : Bytes → Bytes
  pub sha256 : Bytes → Bytes
  pub ripemd160 : Bytes → Bytes

abbrev pub hash256 : Hashes → Bytes → Bytes
hash256 h b = h.sha256 (h.sha256 b)

abbrev pub hash160 : Hashes → Bytes → Bytes
hash160 h b = h.ripemd160 (h.sha256 b)

-- Each of the crypto opcodes is this one, at its own digest.
unfoldable pub op_digest : (Bytes → Bytes) → Action ⊤
op_digest digest = do b ← pop; push (bytes (digest b))

-- What the engine does with an entry depends on its opcode: functions on the main stack, the
-- verifying ones whose answer stops the script, and those on both stacks.
pub data Entry : Type 0 where
  plain : Action ⊤ → Entry
  verify : Action Bool → Entry
  to_alt from_alt : Entry

unfoldable pub opcode_map : Hashes → List (ℕ × Entry)
opcode_map h =
    (0x00, plain op_false)
    ∷ (0x4f, plain op_1negate)
    ∷ (0x51, plain op_true)
    ∷ (0x69, verify op_verify)
    ∷ (0x88, verify op_equalverify)
    ∷ (0x9d, verify op_numequalverify)
    ∷ (0x6b, to_alt)
    ∷ (0x6c, from_alt)
    ∷ (0x6d, plain op_2drop)
    ∷ (0x6e, plain op_2dup)
    ∷ (0x6f, plain op_3dup)
    ∷ (0x70, plain op_2over)
    ∷ (0x71, plain op_2rot)
    ∷ (0x72, plain op_2swap)
    ∷ (0x73, plain op_ifdup)
    ∷ (0x74, plain op_depth)
    ∷ (0x75, plain op_drop)
    ∷ (0x76, plain op_dup)
    ∷ (0x77, plain op_nip)
    ∷ (0x78, plain op_over)
    ∷ (0x79, plain op_pick)
    ∷ (0x7a, plain op_roll)
    ∷ (0x7b, plain op_rot)
    ∷ (0x7c, plain op_swap)
    ∷ (0x7d, plain op_tuck)
    ∷ (0xa6, plain (op_digest h.ripemd160))
    ∷ (0xa7, plain (op_digest h.sha1))
    ∷ (0xa8, plain (op_digest h.sha256))
    ∷ (0xa9, plain (op_digest (hash160 h)))
    ∷ (0xaa, plain (op_digest (hash256 h)))
    ∷ (0x82, plain op_size)
    ∷ (0x87, plain op_equal)
    ∷ (0x8b, plain op_1add)
    ∷ (0x8c, plain op_1sub)
    ∷ (0x8f, plain op_negate)
    ∷ (0x90, plain op_abs)
    ∷ (0x91, plain op_not)
    ∷ (0x92, plain op_0notequal)
    ∷ (0x93, plain op_add)
    ∷ (0x94, plain op_sub)
    ∷ (0x9a, plain op_booland)
    ∷ (0x9b, plain op_boolor)
    ∷ (0x9c, plain op_numequal)
    ∷ (0x9e, plain op_numnotequal)
    ∷ (0x9f, plain op_lessthan)
    ∷ (0xa0, plain op_greaterthan)
    ∷ (0xa1, plain op_lessthanorequal)
    ∷ (0xa2, plain op_greaterthanorequal)
    ∷ (0xa3, plain op_min)
    ∷ (0xa4, plain op_max)
    ∷ (0xa5, plain op_within)
    ∷ []

-- `OPCODE_MAP[opcode]`; a missing key is a KeyError.
abbrev pub lookup_op : ℕ → List (ℕ × Entry) → Option Entry
lookup_op n [] = none
lookup_op n ((k, e) ∷ es) = if n == k then some e else lookup_op n es

-- What the engine does with an entry, on the main stack and the other one: whether the script is
-- still valid, and the stacks.
unfoldable pub run_entry : Entry → BitStack × BitStack → Result Bool × (BitStack × BitStack)
run_entry (plain f) (main, alt) =
    let (r, main') = f main in (elim r [ ok _ ↦ ok true | err e ↦ err e ], (main', alt))
run_entry (verify f) (main, alt) = let (r, main') = f main in (r, (main', alt))
run_entry to_alt (main, alt) =
    let (r, stacks) = op_toaltstack (main, alt) in
    (elim r [ ok _ ↦ ok true | err e ↦ err e ], stacks)
run_entry from_alt (main, alt) =
    let (r, stacks) = op_fromaltstack (main, alt) in
    (elim r [ ok _ ↦ ok true | err e ↦ err e ], stacks)
