-- ===== src/Script/OpcodeMap/NumericKeep.antt =====
-- The opcodes of numeric.py, bools.py, verify.py and crypto.py keep the bound on the stack.
use bitclone.Base.{length, Option, none, some}
use bitclone.Base.Bytes.{Bytes}
use bitclone.Base.Int.{pos}
use bitclone.Script.Stack.{num, top}
use bitclone.Script.Stack.Bounded.{
  Keeps, keeps_rules, bind-Keeps, top-Keeps, raise-Keeps, push-Keeps,
}
use bitclone.Script.Numeric.{
  push_size, op_size, op_equal, op_1add, op_1sub, op_negate, op_abs, op_not, op_0notequal, op_add,
  op_sub, op_booland, op_boolor, op_numequal, op_numnotequal, op_lessthan, op_greaterthan,
  op_lessthanorequal, op_greaterthanorequal, op_min, op_max, op_within, op_false, op_true,
  op_1negate, op_verify, op_equalverify, op_numequalverify,
}
use bitclone.Script.OpcodeMap.{op_digest}

pub op_equal-Keeps : Keeps op_equal
unfolding op_equal
op_equal-Keeps = search keeps_rules

pub op_1add-Keeps : Keeps op_1add
unfolding op_1add
op_1add-Keeps = search keeps_rules

pub op_1sub-Keeps : Keeps op_1sub
unfolding op_1sub
op_1sub-Keeps = search keeps_rules

pub op_negate-Keeps : Keeps op_negate
unfolding op_negate
op_negate-Keeps = search keeps_rules

pub op_abs-Keeps : Keeps op_abs
unfolding op_abs
op_abs-Keeps = search keeps_rules

pub op_not-Keeps : Keeps op_not
unfolding op_not
op_not-Keeps = search keeps_rules

pub op_0notequal-Keeps : Keeps op_0notequal
unfolding op_0notequal
op_0notequal-Keeps = search keeps_rules

pub op_add-Keeps : Keeps op_add
unfolding op_add
op_add-Keeps = search keeps_rules

pub op_sub-Keeps : Keeps op_sub
unfolding op_sub
op_sub-Keeps = search keeps_rules

pub op_booland-Keeps : Keeps op_booland
unfolding op_booland
op_booland-Keeps = search keeps_rules

pub op_boolor-Keeps : Keeps op_boolor
unfolding op_boolor
op_boolor-Keeps = search keeps_rules

pub op_numequal-Keeps : Keeps op_numequal
unfolding op_numequal
op_numequal-Keeps = search keeps_rules

pub op_numnotequal-Keeps : Keeps op_numnotequal
unfolding op_numnotequal
op_numnotequal-Keeps = search keeps_rules

pub op_lessthan-Keeps : Keeps op_lessthan
unfolding op_lessthan
op_lessthan-Keeps = search keeps_rules

pub op_greaterthan-Keeps : Keeps op_greaterthan
unfolding op_greaterthan
op_greaterthan-Keeps = search keeps_rules

pub op_lessthanorequal-Keeps : Keeps op_lessthanorequal
unfolding op_lessthanorequal
op_lessthanorequal-Keeps = search keeps_rules

pub op_greaterthanorequal-Keeps : Keeps op_greaterthanorequal
unfolding op_greaterthanorequal
op_greaterthanorequal-Keeps = search keeps_rules

pub op_min-Keeps : Keeps op_min
unfolding op_min
op_min-Keeps = search keeps_rules

pub op_max-Keeps : Keeps op_max
unfolding op_max
op_max-Keeps = search keeps_rules

pub op_within-Keeps : Keeps op_within
unfolding op_within
op_within-Keeps = search keeps_rules

pub op_false-Keeps : Keeps op_false
unfolding op_false
op_false-Keeps = search keeps_rules

pub op_true-Keeps : Keeps op_true
unfolding op_true
op_true-Keeps = search keeps_rules

pub op_1negate-Keeps : Keeps op_1negate
unfolding op_1negate
op_1negate-Keeps = search keeps_rules

pub op_verify-Keeps : Keeps op_verify
unfolding op_verify
op_verify-Keeps = search keeps_rules

pub op_equalverify-Keeps : Keeps op_equalverify
unfolding op_equalverify
op_equalverify-Keeps = search (keeps_rules, op_verify-Keeps)

pub op_numequalverify-Keeps : Keeps op_numequalverify
unfolding op_numequalverify
op_numequalverify-Keeps = search (keeps_rules, op_verify-Keeps)

pub op_digest-Keeps : (digest : Bytes → Bytes) → Keeps (op_digest digest)
unfolding op_digest
op_digest-Keeps digest = search keeps_rules

push_size-Keeps : (o : Option Bytes) → Keeps (push_size o)
push_size-Keeps none = raise-Keeps _
push_size-Keeps (some b) = push-Keeps (num (pos (length b)))

pub op_size-Keeps : Keeps op_size
unfolding op_size
op_size-Keeps = bind-Keeps top push_size top-Keeps push_size-Keeps
