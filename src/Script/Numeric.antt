-- ===== src/Script/Numeric.antt =====
-- script/opcodes/numeric.py, bools.py and verify.py: the opcodes on numbers and truth values.
use bitclone.Base.{
  Error, Bool, true, false, not, ◌&&◌, ◌||◌, [], ◌∷◌, Option, none, some, length, if◌then◌else◌,
}
use bitclone.Base.Bytes.{Bytes, bytes_eq}
use bitclone.Base.Int.{ℤ, pos, negsuc, neg, magnitude, ◌+ℤ◌, ◌-ℤ◌, ltb_ℤ, leb_ℤ, eqb_ℤ}
use bitclone.Script.Stack.{
  num, Action, ⊤, pure, raise, ◌>>=◌, ◌>>◌, top, push, pop, pushbool, popnum,
}

-- `len(None)` is a TypeError.
abbrev pub push_size : Option Bytes → Action ⊤
push_size none = raise Error.type_error
push_size (some b) = push (num (pos (length b)))

unfoldable pub op_size : Action ⊤
op_size = top >>= push_size

unfoldable pub op_equal : Action ⊤
op_equal = do a ← pop; b ← pop; pushbool (bytes_eq a b)

unfoldable pub op_1add : Action ⊤
op_1add = do n ← popnum; push (num (n +ℤ pos 1))

unfoldable pub op_1sub : Action ⊤
op_1sub = do n ← popnum; push (num (n -ℤ pos 1))

unfoldable pub op_negate : Action ⊤
op_negate = do n ← popnum; push (num (neg n))

unfoldable pub op_abs : Action ⊤
op_abs = do n ← popnum; push (num (pos (magnitude n)))

unfoldable pub op_not : Action ⊤
op_not = do n ← popnum; pushbool (eqb_ℤ n (pos 0))

unfoldable pub op_0notequal : Action ⊤
op_0notequal = do n ← popnum; pushbool (not (eqb_ℤ n (pos 0)))

unfoldable pub op_add : Action ⊤
op_add = do a ← popnum; b ← popnum; push (num (a +ℤ b))

unfoldable pub op_sub : Action ⊤
op_sub = do a ← popnum; b ← popnum; push (num (b -ℤ a))

unfoldable pub op_booland : Action ⊤
op_booland = do a ← popnum; b ← popnum; pushbool (not (eqb_ℤ a (pos 0)) && not (eqb_ℤ b (pos 0)))

unfoldable pub op_boolor : Action ⊤
op_boolor = do a ← popnum; b ← popnum; pushbool (not (eqb_ℤ a (pos 0)) || not (eqb_ℤ b (pos 0)))

unfoldable pub op_numequal : Action ⊤
op_numequal = do a ← popnum; b ← popnum; pushbool (eqb_ℤ a b)

unfoldable pub op_numnotequal : Action ⊤
op_numnotequal = do a ← popnum; b ← popnum; pushbool (not (eqb_ℤ a b))

unfoldable pub op_lessthan : Action ⊤
op_lessthan = do a ← popnum; b ← popnum; pushbool (ltb_ℤ b a)

unfoldable pub op_greaterthan : Action ⊤
op_greaterthan = do a ← popnum; b ← popnum; pushbool (ltb_ℤ a b)

unfoldable pub op_lessthanorequal : Action ⊤
op_lessthanorequal = do a ← popnum; b ← popnum; pushbool (leb_ℤ b a)

unfoldable pub op_greaterthanorequal : Action ⊤
op_greaterthanorequal = do a ← popnum; b ← popnum; pushbool (leb_ℤ a b)

-- Python's `min(a, b)` and `max(a, b)`: the first unless the second is strictly smaller or larger.
abbrev pub min_ℤ : ℤ → ℤ → ℤ
min_ℤ a b = if ltb_ℤ b a then b else a

abbrev pub max_ℤ : ℤ → ℤ → ℤ
max_ℤ a b = if ltb_ℤ a b then b else a

unfoldable pub op_min : Action ⊤
op_min = do a ← popnum; b ← popnum; push (num (min_ℤ a b))

unfoldable pub op_max : Action ⊤
op_max = do a ← popnum; b ← popnum; push (num (max_ℤ a b))

unfoldable pub op_within : Action ⊤
op_within = do upper ← popnum; lower ← popnum; n ← popnum; pushbool (leb_ℤ lower n && ltb_ℤ n upper)

-- bools.py
unfoldable pub op_false : Action ⊤
op_false = pushbool false

unfoldable pub op_true : Action ⊤
op_true = pushbool true

unfoldable pub op_1negate : Action ⊤
op_1negate = push (num (negsuc 0))

-- verify.py: the answer says whether the script goes on. The list `[b'', 0, b'\x00']` holds the
-- number 0 too, which no item is equal to, since all items are bytes.
unfoldable pub op_verify : Action Bool
op_verify = do b ← pop; pure (not (bytes_eq b [] || bytes_eq b (0 ∷ [])))

unfoldable pub op_equalverify : Action Bool
op_equalverify = do a ← pop; b ← pop; pushbool (bytes_eq a b); op_verify

unfoldable pub op_numequalverify : Action Bool
op_numequalverify = do a ← popnum; b ← popnum; pushbool (eqb_ℤ a b); op_verify
