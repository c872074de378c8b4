-- ===== src/Script/StackOps/Index.antt =====
-- OP_PICK and OP_ROLL, which take a position from the stack.
use mathlib.Core.Path.{ap₂}
use bitclone.Base.{
  ℕ, zero, suc, ◌+◌, ◌-◌, ◌≤◌, ◌<◌, ◌≡◌, refl, ap, ◌∙◌, ok, List, [], ◌∷◌, ◌++◌, some, length,
  length-take, length-drop, take, drop, get_elem?, arith,
}
use bitclone.Base.Bytes.{Bytes}
use bitclone.Base.Int.{ℤ, pos, negsuc, ◌+ℤ◌}
use bitclone.Script.Num.{decode}
use bitclone.Script.Stack.{
  ◌>>=◌, check_max_size, check_min_height, item_bytes, append_left, push, pop, popitems, pushlist,
  popnum,
}
use bitclone.Script.StackOps.{op_pick, op_roll, pick_at, roll_at, last_first, all_bytes}
use bitclone.Script.StackOps.Moves.{stack, pushlist-bytes}

popnum_top :
    (b : Bytes) (xs : List Bytes) (m : ℕ) (n : ℤ)
    → decode b ≡ ok n
    → popnum (stack (b ∷ xs) m) ≡ (ok n, stack xs m)
unfolding popnum pop
popnum_top b xs m n e = rw e

-- OP_PICK with a position inside the stack copies the item that stands there to the top.
op_pick_copies :
    (b x : Bytes) (xs : List Bytes) (m n : ℕ)
    → decode b ≡ ok (pos n)
    → get_elem? xs n ≡ some x
    → n < length xs
    → length xs + 1 ≤ m
    → op_pick (stack (b ∷ xs) m) ≡ (ok tt, stack (x ∷ xs) m)
unfolding op_pick pick_at push check_max_size append_left item_bytes
op_pick_copies b x xs m n e hx hn room = ground (arith, popnum_top b xs m (pos n) e)

-- A negative position is not refused: it copies an item counted from the bottom.
pub op_pick_negative :
    (b x : Bytes) (xs : List Bytes) (m n : ℕ)
    → decode b ≡ ok (negsuc n)
    → n < length xs
    → get_elem? xs (length xs - suc n) ≡ some x
    → length xs + 1 ≤ m
    → op_pick (stack (b ∷ xs) m) ≡ (ok tt, stack (x ∷ xs) m)
unfolding op_pick pick_at push check_max_size append_left item_bytes
op_pick_negative b x xs m n e hn hx room = ground (arith, popnum_top b xs m (negsuc n) e)

module _ (x : Bytes) where
  get_elem?-lt : (xs : List Bytes) (n : ℕ) → get_elem? xs n ≡ some x → n < length xs
  get_elem?-lt [] n h = cc
  get_elem?-lt (y ∷ ys) zero h = omega arith
  get_elem?-lt (y ∷ ys) (suc n) h = omega (arith, get_elem?-lt ys n h)

  drop-take :
      (xs : List Bytes) (n : ℕ) → get_elem? xs n ≡ some x → drop n (take (suc n) xs) ≡ x ∷ []
  drop-take [] n h = cc
  drop-take (y ∷ ys) zero h = cc
  drop-take (y ∷ ys) (suc n) h = drop-take ys n h

take-take : (xs : List Bytes) (n : ℕ) → take n (take (suc n) xs) ≡ take n xs
take-take xs zero = refl
take-take [] (suc n) = refl
take-take (y ∷ ys) (suc n) = ap (λ zs. y ∷ zs) (take-take ys n)

-- `items[-1:] + items[:-1]` of the items down to position `n`.
last_first-take :
    (xs : List Bytes) (n : ℕ) (x : Bytes)
    → get_elem? xs n ≡ some x
    → last_first (take (suc n) xs) ≡ x ∷ take n xs
last_first-take xs n x h =
    ap (λ k. drop k (take (suc n) xs) ++ take k (take (suc n) xs)) last_index
    ∙ ap₂ (λ ys zs. ys ++ zs) (drop-take x xs n h) (take-take xs n)
  where
    last_index : length (take (suc n) xs) - 1 ≡ n
    last_index = omega (arith, length-take (suc n) xs, get_elem?-lt x xs n h)

roll_items :
    (xs : List Bytes) (m n : ℕ) (x : Bytes)
    → get_elem? xs n ≡ some x
    → length xs ≤ m
    → (popitems (suc n) >>= λ items. pushlist (all_bytes (last_first items))) (stack xs m)
      ≡ (ok tt, stack (x ∷ (take n xs ++ drop (suc n) xs)) m)
unfolding popitems check_min_height
roll_items xs m n x h room = ground (
  arith,
  get_elem?-lt x xs n h,
  last_first-take xs n x h,
  pushlist-bytes (x ∷ take n xs) (drop (suc n) xs) m,
  length-drop (suc n) xs,
  length-take n xs,
)

-- OP_ROLL with a position inside the stack takes the item out from there and puts it on top.
pub op_roll_moves :
    (b x : Bytes) (xs : List Bytes) (m n : ℕ)
    → decode b ≡ ok (pos n)
    → get_elem? xs n ≡ some x
    → length xs ≤ m
    → op_roll (stack (b ∷ xs) m) ≡ (ok tt, stack (x ∷ (take n xs ++ drop (suc n) xs)) m)
unfolding op_roll roll_at ◌+ℤ◌
op_roll_moves b x xs m n e hx room =
    ground (arith, popnum_top b xs m (pos n) e, get_elem?-lt x xs n hx, roll_items xs m n x hx room)

roll_none :
    (xs : List Bytes) (m : ℕ)
    → length xs ≤ m
    → (popitems 0 >>= λ items. pushlist (all_bytes (last_first items))) (stack xs m)
      ≡ (ok tt, stack xs m)
unfolding popitems check_min_height
roll_none xs m room = ground (arith, pushlist-bytes [] xs m)

-- A negative position is not refused either: it leaves the stack below it as it was.
pub op_roll_negative :
    (b : Bytes) (xs : List Bytes) (m n : ℕ)
    → decode b ≡ ok (negsuc n)
    → length xs ≤ m
    → op_roll (stack (b ∷ xs) m) ≡ (ok tt, stack xs m)
unfolding op_roll roll_at ◌+ℤ◌
op_roll_negative b xs m n e room =
    ground (arith, popnum_top b xs m (negsuc n) e, roll_none xs m room)
