-- ===== src/Script/OpcodeMap/Table.antt =====
-- Every entry of OPCODE_MAP keeps the bound on the stacks.
use mathlib.Core.Path.{subst}
use bitclone.Base.{
  ℕ, ◌≡◌, List, [], ◌∷◌, some, All, Bool-cases, inl, inr, ◌==◌, Result, Result-cases,
}
use bitclone.Script.Stack.{BitStack, ⊤, bytes, pop}
use bitclone.Script.Stack.Bounded.{IsBounded, Keeps, pop-Keeps, push-Keeps}
use bitclone.Script.StackOps.{move_item, op_toaltstack, op_fromaltstack}
use bitclone.Script.OpcodeMap.{
  Hashes, Entry, plain, verify, to_alt, from_alt, opcode_map, run_entry, lookup_op,
}
use bitclone.Script.OpcodeMap.StackOpsKeep.{
  op_2drop-Keeps, op_2dup-Keeps, op_2over-Keeps, op_2rot-Keeps, op_2swap-Keeps, op_3dup-Keeps,
  op_depth-Keeps, op_drop-Keeps, op_dup-Keeps, op_ifdup-Keeps, op_nip-Keeps, op_over-Keeps,
  op_pick-Keeps, op_roll-Keeps, op_rot-Keeps, op_swap-Keeps, op_tuck-Keeps,
}
use bitclone.Script.OpcodeMap.NumericKeep.{
  op_digest-Keeps, op_0notequal-Keeps, op_1add-Keeps, op_1negate-Keeps, op_1sub-Keeps, op_abs-Keeps,
  op_add-Keeps, op_booland-Keeps, op_boolor-Keeps, op_equal-Keeps, op_equalverify-Keeps,
  op_false-Keeps, op_greaterthan-Keeps, op_greaterthanorequal-Keeps, op_lessthan-Keeps,
  op_lessthanorequal-Keeps, op_max-Keeps, op_min-Keeps, op_negate-Keeps, op_not-Keeps,
  op_numequal-Keeps, op_numequalverify-Keeps, op_numnotequal-Keeps, op_size-Keeps, op_sub-Keeps,
  op_true-Keeps, op_verify-Keeps, op_within-Keeps,
}

-- Both stacks of a pair stay within their bounds.
abbrev KeepsBoth : (BitStack × BitStack → Result ⊤ × (BitStack × BitStack)) → Type 0
KeepsBoth f =
    (main alt : BitStack)
    → IsBounded main
    → IsBounded alt
    → let (r, (main', alt')) = f (main, alt) in IsBounded main' × IsBounded alt'

-- What the bound means for an entry of the table, by what it is applied to.
abbrev pub EntryKeeps : Entry → Type 0
EntryKeeps (plain m) = Keeps m
EntryKeeps (verify m) = Keeps m
EntryKeeps to_alt = KeepsBoth op_toaltstack
EntryKeeps from_alt = KeepsBoth op_fromaltstack

move_item_keeps : KeepsBoth move_item
unfolding move_item
move_item_keeps main alt hm ha = elim (Result-cases (pop main).0) [
  | inl (b, e) ↦
      rw (e, move_item) ((pop-Keeps.keeps main hm).0, ((push-Keeps (bytes b)).keeps alt ha).0)
  | inr (x, e) ↦ rw (e, move_item) ((pop-Keeps.keeps main hm).0, ha)
]

op_toaltstack_keeps : KeepsBoth op_toaltstack
unfolding op_toaltstack
op_toaltstack_keeps main alt hm ha = move_item_keeps main alt hm ha

op_fromaltstack_keeps : KeepsBoth op_fromaltstack
unfolding op_fromaltstack
op_fromaltstack_keeps main alt hm ha = let (ha', hm') = move_item_keeps alt main ha hm in (hm', ha')

lookup_op-All :
    (P : Entry → Type 0) (n : ℕ) (es : List (ℕ × Entry)) {e : Entry}
    → All (λ p. P p.1) es
    → lookup_op n es ≡ some e
    → P e
lookup_op-All P n [] h q = cc
lookup_op-All P n ((k, f) ∷ es) h q = elim (Bool-cases (n == k)) [
  | inl hit ↦ subst P (cc) h.0
  | inr miss ↦ lookup_op-All P n es h.1 (rw miss at q)
]

table_keeps : (h : Hashes) → All (λ p. EntryKeeps p.1) (opcode_map h)
unfolding opcode_map
table_keeps h = (
  op_false-Keeps,
  (
    op_1negate-Keeps,
    (
      op_true-Keeps,
      (
        op_verify-Keeps,
        (
          op_equalverify-Keeps,
          (
            op_numequalverify-Keeps,
            (
              op_toaltstack_keeps,
              (
                op_fromaltstack_keeps,
                (
                  op_2drop-Keeps,
                  (
                    op_2dup-Keeps,
                    (
                      op_3dup-Keeps,
                      (
                        op_2over-Keeps,
                        (
                          op_2rot-Keeps,
                          (
                            op_2swap-Keeps,
                            (
                              op_ifdup-Keeps,
                              (
                                op_depth-Keeps,
                                (
                                  op_drop-Keeps,
                                  (
                                    op_dup-Keeps,
                                    (
                                      op_nip-Keeps,
                                      (
                                        op_over-Keeps,
                                        (
                                          op_pick-Keeps,
                                          (
                                            op_roll-Keeps,
                                            (
                                              op_rot-Keeps,
                                              (
                                                op_swap-Keeps,
                                                (
                                                  op_tuck-Keeps,
                                                  (
                                                    op_digest-Keeps _,
                                                    (
                                                      op_digest-Keeps _,
                                                      (
                                                        op_digest-Keeps _,
                                                        (
                                                          op_digest-Keeps _,
                                                          (
                                                            op_digest-Keeps _,
                                                            (
                                                            op_size-Keeps,
                                                            (
                                                            op_equal-Keeps,
                                                            (
                                                            op_1add-Keeps,
                                                            (
                                                            op_1sub-Keeps,
                                                            (
                                                            op_negate-Keeps,
                                                            (
                                                            op_abs-Keeps,
                                                            (
                                                            op_not-Keeps,
                                                            (
                                                            op_0notequal-Keeps,
                                                            (
                                                            op_add-Keeps,
                                                            (
                                                            op_sub-Keeps,
                                                            (
                                                            op_booland-Keeps,
                                                            (
                                                            op_boolor-Keeps,
                                                            (
                                                            op_numequal-Keeps,
                                                            (
                                                            op_numnotequal-Keeps,
                                                            (
                                                            op_lessthan-Keeps,
                                                            (
                                                            op_greaterthan-Keeps,
                                                            (
                                                            op_lessthanorequal-Keeps,
                                                            (
                                                            op_greaterthanorequal-Keeps,
                                                            (
                                                            op_min-Keeps,
                                                            (op_max-Keeps, (op_within-Keeps, tt)),
                                                            ),
                                                            ),
                                                            ),
                                                            ),
                                                            ),
                                                            ),
                                                            ),
                                                            ),
                                                            ),
                                                            ),
                                                            ),
                                                            ),
                                                            ),
                                                            ),
                                                            ),
                                                            ),
                                                            ),
                                                            ),
                                                            ),
                                                          ),
                                                        ),
                                                      ),
                                                    ),
                                                  ),
                                                ),
                                              ),
                                            ),
                                          ),
                                        ),
                                      ),
                                    ),
                                  ),
                                ),
                              ),
                            ),
                          ),
                        ),
                      ),
                    ),
                  ),
                ),
              ),
            ),
          ),
        ),
      ),
    ),
  ),
)

run_entry_keeps :
    (e : Entry) (main alt : BitStack)
    → EntryKeeps e
    → IsBounded main
    → IsBounded alt
    → IsBounded (run_entry e (main, alt)).1.0 × IsBounded (run_entry e (main, alt)).1.1
unfolding run_entry
run_entry_keeps (plain f) main alt k hm ha = ((k.keeps main hm).0, ha)
run_entry_keeps (verify f) main alt k hm ha = ((k.keeps main hm).0, ha)
run_entry_keeps to_alt main alt k hm ha = k main alt hm ha
run_entry_keeps from_alt main alt k hm ha = k main alt hm ha

-- Whatever opcode of OPCODE_MAP runs on two stacks within their limits, and whether it returns or
-- raises, it leaves both stacks within their limits.
pub opcode_map_keeps :
    (h : Hashes) (opcode : ℕ) (e : Entry) (main alt : BitStack)
    → lookup_op opcode (opcode_map h) ≡ some e
    → IsBounded main
    → IsBounded alt
    → IsBounded (run_entry e (main, alt)).1.0 × IsBounded (run_entry e (main, alt)).1.1
opcode_map_keeps h opcode e main alt q hm ha =
    run_entry_keeps e main alt (lookup_op-All EntryKeeps opcode (opcode_map h) (table_keeps h) q) hm
      ha
