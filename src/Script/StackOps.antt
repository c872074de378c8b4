-- ===== src/Script/StackOps.antt =====
-- script/opcodes/stackops.py: the opcodes that move items.
pub mod Moves
pub mod Index
use bitclone.Base.{
  suc, ◌-◌, Result, Error, ok, err, List, [], ◌∷◌, ◌++◌, Option, none, some, length, take, drop,
  map, ltb, get_elem?, if◌then◌else◌,
}
use bitclone.Base.Bytes.{Bytes, bytes_eq}
use bitclone.Base.Int.{ℤ, pos, negsuc, pos_part, leb_ℤ, ltb_ℤ, ◌+ℤ◌}
use bitclone.Script.Stack.{
  StackItem, bytes, num, BitStack, Action, ⊤, pure, raise, ◌>>=◌, ◌>>◌, height, top, get_height,
  push, pushitems, pop, popitems, pushlist, popnum,
}

-- Popped items are pushed back as bytes.
abbrev pub all_bytes : List Bytes → List StackItem
all_bytes = map bytes

-- `op_toaltstack` and `op_fromaltstack`, from one stack to the other: the item is popped first.
unfoldable pub move_item : BitStack × BitStack → Result ⊤ × (BitStack × BitStack)
move_item (source, target) =
    let (r, source') = pop source in
    elim r [
      | err e ↦ (err e, (source', target))
      | ok b ↦ let (r', target') = push (bytes b) target in (r', (source', target'))
    ]

unfoldable pub op_toaltstack : BitStack × BitStack → Result ⊤ × (BitStack × BitStack)
op_toaltstack (main, alt) = move_item (main, alt)

unfoldable pub op_fromaltstack : BitStack × BitStack → Result ⊤ × (BitStack × BitStack)
op_fromaltstack (main, alt) = let (r, (alt', main')) = move_item (alt, main) in (r, (main', alt'))

unfoldable pub op_2drop : Action ⊤
op_2drop = do pop; pop; pure tt

unfoldable pub op_2dup : Action ⊤
op_2dup = do items ← popitems 2; pushlist (all_bytes (items ++ items))

unfoldable pub op_3dup : Action ⊤
op_3dup = do items ← popitems 3; pushlist (all_bytes (items ++ items))

unfoldable pub op_2over : Action ⊤
op_2over = do items ← popitems 4; pushlist (all_bytes (drop 2 items ++ items))

unfoldable pub op_2rot : Action ⊤
op_2rot = do items ← popitems 6; pushlist (all_bytes (drop 4 items ++ take 4 items))

unfoldable pub op_2swap : Action ⊤
op_2swap = do items ← popitems 4; pushlist (all_bytes (drop 2 items ++ take 2 items))

-- `None != b''` holds, and pushing `None` fails the type check.
abbrev pub dup_if : Option Bytes → Action ⊤
dup_if none = raise Error.bit_stack_error
dup_if (some b) = if bytes_eq b [] then pure tt else push (bytes b)

unfoldable pub op_ifdup : Action ⊤
op_ifdup = top >>= dup_if

unfoldable pub op_depth : Action ⊤
op_depth = do n ← get_height; push (num (pos n))

unfoldable pub op_drop : Action ⊤
op_drop = do pop; pure tt

abbrev pub dup_top : Option Bytes → Action ⊤
dup_top none = raise Error.bit_stack_error
dup_top (some b) = push (bytes b)

unfoldable pub op_dup : Action ⊤
op_dup = top >>= dup_top

-- The assignments `[a, b] = popitems(2)` and `[a, b, c] = popitems(3)`, which `popitems` never
-- answers with another number of items.
abbrev pub with_two : (Bytes → Bytes → Action ⊤) → List Bytes → Action ⊤
with_two f (a ∷ b ∷ []) = f a b
with_two f _ = raise Error.value_error

abbrev pub with_three : (Bytes → Bytes → Bytes → Action ⊤) → List Bytes → Action ⊤
with_three f (a ∷ b ∷ c ∷ []) = f a b c
with_three f _ = raise Error.value_error

unfoldable pub op_nip : Action ⊤
op_nip = popitems 2 >>= with_two (λ a b. push (bytes a))

unfoldable pub op_over : Action ⊤
op_over = popitems 2 >>= with_two (λ a b. pushlist (all_bytes (b ∷ a ∷ b ∷ [])))

-- `main_stack.stack[n]`: a negative index counts from the bottom.
abbrev pub stack_index : ℤ → List Bytes → Option Bytes
stack_index (pos n) xs = get_elem? xs n
stack_index (negsuc n) xs = if ltb n (length xs) then get_elem? xs (length xs - suc n) else none

abbrev pub push_index : Option Bytes → Action ⊤
push_index none = raise Error.index_error
push_index (some b) = push (bytes b)

unfoldable pub pick_at : ℤ → Action ⊤
pick_at n s =
    (if leb_ℤ (pos (height s)) n
        then raise Error.bit_stack_error
        else push_index (stack_index n s.items))
      s

unfoldable pub op_pick : Action ⊤
op_pick = popnum >>= pick_at

-- `items[-1:] + items[:-1]`
abbrev pub last_first : List Bytes → List Bytes
last_first items = drop (length items - 1) items ++ take (length items - 1) items

-- `popitems(n + 1)` with a negative `n` pops nothing, and raises nothing.
unfoldable pub roll_at : ℤ → Action ⊤
roll_at n s =
    (if ltb_ℤ (pos (height s)) (n +ℤ pos 1)
        then raise Error.bit_stack_error
        else (do items ← popitems (pos_part (n +ℤ pos 1)); pushlist (all_bytes (last_first items))))
      s

unfoldable pub op_roll : Action ⊤
op_roll = popnum >>= roll_at

unfoldable pub op_rot : Action ⊤
op_rot = popitems 3 >>= with_three (λ a b c. pushlist (all_bytes (c ∷ a ∷ b ∷ [])))

unfoldable pub op_swap : Action ⊤
op_swap = do items ← popitems 2; pushitems (all_bytes items)

unfoldable pub op_tuck : Action ⊤
op_tuck = popitems 2 >>= with_two (λ a b. pushlist (all_bytes (a ∷ b ∷ a ∷ [])))
