-- ===== src/Script/StackOps/Moves.antt =====
-- What the opcodes of fixed depth do to a stack that is deep enough and has room.
use bitclone.Base.{
  ℕ, suc, ◌+◌, ◌≤◌, ◌≡◌, refl, ap, sym, ◌∙◌, ok, List, [], ◌∷◌, ◌++◌, append_assoc, length, reverse,
  length-reverse, length-append, take-append, drop-append, arith,
}
use mathlib.Core.List.{map-append, reverse-append, reverse-reverse}
use bitclone.Base.Bytes.{Bytes}
use bitclone.Script.Stack.{
  bytes, BitStack, check_max_size, check_min_height, item_bytes, append_left, append_all, push,
  pushitems, pop, popitems, pushlist,
}
use bitclone.Script.StackOps.{
  all_bytes, op_2drop, op_2dup, op_3dup, op_2over, op_2rot, op_2swap, op_drop, op_dup, op_nip,
  op_over, op_rot, op_swap, op_tuck,
}

-- A stack with the items `xs` and the limit `m`.
abbrev pub stack : List Bytes → ℕ → BitStack
stack xs m = record { items = xs; max_size = m }

append_all-bytes :
    (ys xs : List Bytes) (m : ℕ)
    → append_all (all_bytes ys) (stack xs m) ≡ (ok tt, stack (reverse ys ++ xs) m)
unfolding append_all append_left item_bytes
append_all-bytes [] xs m = refl
append_all-bytes (y ∷ ys) xs m =
    append_all-bytes ys (y ∷ xs) m
    ∙ ap (λ zs. (ok tt, stack zs m))
        (sym (
          ap (λ zs. zs ++ xs) (reverse-append (y ∷ []) ys) ∙ append_assoc (reverse ys) (y ∷ []) xs))

all_bytes-reverse : (ys : List Bytes) → reverse (all_bytes ys) ≡ all_bytes (reverse ys)
all_bytes-reverse [] = refl
all_bytes-reverse (y ∷ ys) =
    reverse-append (bytes y ∷ []) (all_bytes ys)
    ∙ (ap (λ zs. zs ++ (bytes y ∷ [])) (all_bytes-reverse ys)
        ∙ (sym (map-append bytes (reverse ys) (y ∷ []))
            ∙ ap all_bytes (sym (reverse-append (y ∷ []) ys))))

append_reversed :
    (ys xs : List Bytes) (m : ℕ)
    → append_all (reverse (all_bytes ys)) (stack xs m) ≡ (ok tt, stack (ys ++ xs) m)
append_reversed ys xs m =
    ap (λ zs. append_all zs (stack xs m)) (all_bytes-reverse ys)
    ∙ (append_all-bytes (reverse ys) xs m
        ∙ ap (λ zs. (ok tt, stack (zs ++ xs) m)) (reverse-reverse ys))

length-all_bytes : (ys : List Bytes) → length (reverse (all_bytes ys)) ≡ length ys
length-all_bytes ys = length-reverse (all_bytes ys) ∙ count ys
  where
    count : (zs : List Bytes) → length (all_bytes zs) ≡ length zs
    count = elim [ [] ↦ refl | z ∷ (zs → ih) ↦ ap suc ih ]

-- `pushlist` puts the list on the stack in its own order, its head on top.
pub pushlist-bytes :
    (ys xs : List Bytes) (m : ℕ)
    → length xs + length ys ≤ m
    → pushlist (all_bytes ys) (stack xs m) ≡ (ok tt, stack (ys ++ xs) m)
unfolding pushlist pushitems check_max_size
pushlist-bytes ys xs m h = ground (arith, append_reversed ys xs m, length-all_bytes ys)

popitems_top :
    (ys xs : List Bytes) (m : ℕ) → popitems (length ys) (stack (ys ++ xs) m) ≡ (ok ys, stack xs m)
unfolding popitems check_min_height
popitems_top ys xs m = ground (arith, length-append ys xs, take-append ys xs, drop-append ys xs)

-- The documented effect of each opcode that moves a fixed number of items, the items being `a`, `b`,
-- `c`, … from the top, on a stack whose limit leaves `m` slots free when the opcode is done.
abbrev pub FixedMoves : (a b c d e f : Bytes) → List Bytes → ℕ → Type 0
FixedMoves a b c d e f xs m =
    (op_2drop (stack (a ∷ b ∷ xs) (length xs + m)) ≡ (ok tt, stack (xs) (length xs + m)))
    × (op_drop (stack (a ∷ xs) (length xs + m)) ≡ (ok tt, stack (xs) (length xs + m)))
    × (op_dup (stack (a ∷ xs) (length xs + 2 + m))
        ≡ (ok tt, stack (a ∷ a ∷ xs) (length xs + 2 + m)))
    × (op_2dup (stack (a ∷ b ∷ xs) (length xs + 4 + m))
        ≡ (ok tt, stack (a ∷ b ∷ a ∷ b ∷ xs) (length xs + 4 + m)))
    × (op_3dup (stack (a ∷ b ∷ c ∷ xs) (length xs + 6 + m))
        ≡ (ok tt, stack (a ∷ b ∷ c ∷ a ∷ b ∷ c ∷ xs) (length xs + 6 + m)))
    × (op_2over (stack (a ∷ b ∷ c ∷ d ∷ xs) (length xs + 6 + m))
        ≡ (ok tt, stack (c ∷ d ∷ a ∷ b ∷ c ∷ d ∷ xs) (length xs + 6 + m)))
    × (op_2rot (stack (a ∷ b ∷ c ∷ d ∷ e ∷ f ∷ xs) (length xs + 6 + m))
        ≡ (ok tt, stack (e ∷ f ∷ a ∷ b ∷ c ∷ d ∷ xs) (length xs + 6 + m)))
    × (op_2swap (stack (a ∷ b ∷ c ∷ d ∷ xs) (length xs + 4 + m))
        ≡ (ok tt, stack (c ∷ d ∷ a ∷ b ∷ xs) (length xs + 4 + m)))
    × (op_nip (stack (a ∷ b ∷ xs) (length xs + 1 + m))
        ≡ (ok tt, stack (a ∷ xs) (length xs + 1 + m)))
    × (op_over (stack (a ∷ b ∷ xs) (length xs + 3 + m))
        ≡ (ok tt, stack (b ∷ a ∷ b ∷ xs) (length xs + 3 + m)))
    × (op_rot (stack (a ∷ b ∷ c ∷ xs) (length xs + 3 + m))
        ≡ (ok tt, stack (c ∷ a ∷ b ∷ xs) (length xs + 3 + m)))
    × (op_swap (stack (a ∷ b ∷ xs) (length xs + 2 + m))
        ≡ (ok tt, stack (b ∷ a ∷ xs) (length xs + 2 + m)))
    × (op_tuck (stack (a ∷ b ∷ xs) (length xs + 3 + m))
        ≡ (ok tt, stack (a ∷ b ∷ a ∷ xs) (length xs + 3 + m)))

-- Each opcode that moves a fixed number of items has its documented effect on every stack that has
-- these items and whose limit is not below the height that the opcode leaves.
pub fixed_moves : (a b c d e f : Bytes) (xs : List Bytes) (m : ℕ) → FixedMoves a b c d e f xs m
unfolding op_2drop op_drop op_dup op_2dup
fixed_moves a b c d e f xs m = (
  unfold pop in ground arith,
  unfold pop in ground arith,
  unfold push check_max_size append_left item_bytes in ground arith,
  ground (
    arith,
    popitems_top (a ∷ b ∷ []) xs (length xs + 4 + m),
    pushlist-bytes (a ∷ b ∷ a ∷ b ∷ []) xs (length xs + 4 + m),
  ),
  unfold op_3dup in
      ground (
        arith,
        popitems_top (a ∷ b ∷ c ∷ []) xs (length xs + 6 + m),
        pushlist-bytes (a ∷ b ∷ c ∷ a ∷ b ∷ c ∷ []) xs (length xs + 6 + m),
      ),
  unfold op_2over in
      ground (
        arith,
        popitems_top (a ∷ b ∷ c ∷ d ∷ []) xs (length xs + 6 + m),
        pushlist-bytes (c ∷ d ∷ a ∷ b ∷ c ∷ d ∷ []) xs (length xs + 6 + m),
      ),
  unfold op_2rot in
      ground (
        arith,
        popitems_top (a ∷ b ∷ c ∷ d ∷ e ∷ f ∷ []) xs (length xs + 6 + m),
        pushlist-bytes (e ∷ f ∷ a ∷ b ∷ c ∷ d ∷ []) xs (length xs + 6 + m),
      ),
  unfold op_2swap in
      ground (
        arith,
        popitems_top (a ∷ b ∷ c ∷ d ∷ []) xs (length xs + 4 + m),
        pushlist-bytes (c ∷ d ∷ a ∷ b ∷ []) xs (length xs + 4 + m),
      ),
  unfold op_nip push check_max_size append_left item_bytes in
      ground (arith, popitems_top (a ∷ b ∷ []) xs (length xs + 1 + m)),
  unfold op_over in
      ground (
        arith,
        popitems_top (a ∷ b ∷ []) xs (length xs + 3 + m),
        pushlist-bytes (b ∷ a ∷ b ∷ []) xs (length xs + 3 + m),
      ),
  unfold op_rot in
      ground (
        arith,
        popitems_top (a ∷ b ∷ c ∷ []) xs (length xs + 3 + m),
        pushlist-bytes (c ∷ a ∷ b ∷ []) xs (length xs + 3 + m),
      ),
  unfold op_swap pushitems check_max_size in
      ground (
        arith,
        popitems_top (a ∷ b ∷ []) xs (length xs + 2 + m),
        append_all-bytes (a ∷ b ∷ []) xs (length xs + 2 + m),
      ),
  unfold op_tuck in
      ground (
        arith,
        popitems_top (a ∷ b ∷ []) xs (length xs + 3 + m),
        pushlist-bytes (a ∷ b ∷ a ∷ []) xs (length xs + 3 + m),
      ),
)
