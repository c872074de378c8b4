-- ===== src/Script/OpcodeMap/StackOpsKeep.antt =====
-- The opcodes of stackops.py keep the bound on the stack, whether they return or raise.
use bitclone.Base.{
  Error, Bool, true, false, List, [], ◌∷◌, Option, none, some, Bool-cases, inl, inr, if◌then◌else◌,
}
use bitclone.Base.Bytes.{Bytes, bytes_eq}
use bitclone.Base.Int.{ℤ, pos, pos_part, leb_ℤ, ltb_ℤ, ◌+ℤ◌}
use bitclone.Script.Stack.{
  raise, Action, ⊤, BitStack, ◌>>=◌, bytes, height, push, popitems, pushlist, popnum, top,
}
use bitclone.Script.Stack.Bounded.{
  Keeps, keeps_rules, bind-Keeps, popitems-Keeps, popnum-Keeps, top-Keeps, pure-Keeps, raise-Keeps,
  push-Keeps, pushlist-Keeps,
}
use bitclone.Script.StackOps.{
  dup_if, dup_top, with_two, with_three, push_index, pick_at, roll_at, stack_index, last_first,
  all_bytes, op_2drop, op_2dup, op_3dup, op_2over, op_2rot, op_2swap, op_ifdup, op_depth, op_drop,
  op_dup, op_nip, op_over, op_pick, op_roll, op_rot, op_swap, op_tuck,
}

pub op_2drop-Keeps : Keeps op_2drop
unfolding op_2drop
op_2drop-Keeps = search keeps_rules

pub op_2dup-Keeps : Keeps op_2dup
unfolding op_2dup
op_2dup-Keeps = search keeps_rules

pub op_3dup-Keeps : Keeps op_3dup
unfolding op_3dup
op_3dup-Keeps = search keeps_rules

pub op_2over-Keeps : Keeps op_2over
unfolding op_2over
op_2over-Keeps = search keeps_rules

pub op_2rot-Keeps : Keeps op_2rot
unfolding op_2rot
op_2rot-Keeps = search keeps_rules

pub op_2swap-Keeps : Keeps op_2swap
unfolding op_2swap
op_2swap-Keeps = search keeps_rules

pub op_depth-Keeps : Keeps op_depth
unfolding op_depth
op_depth-Keeps = search keeps_rules

pub op_drop-Keeps : Keeps op_drop
unfolding op_drop
op_drop-Keeps = search keeps_rules

pub op_swap-Keeps : Keeps op_swap
unfolding op_swap
op_swap-Keeps = search keeps_rules

dup_if-Keeps : (o : Option Bytes) → Keeps (dup_if o)
dup_if-Keeps none = raise-Keeps _
dup_if-Keeps (some b) = elim (Bool-cases (bytes_eq b [])) [
  | inl e ↦ rw e (pure-Keeps tt)
  | inr e ↦ rw e (push-Keeps (bytes b))
]

dup_top-Keeps : (o : Option Bytes) → Keeps (dup_top o)
dup_top-Keeps none = raise-Keeps _
dup_top-Keeps (some b) = push-Keeps (bytes b)

push_index-Keeps : (o : Option Bytes) → Keeps (push_index o)
push_index-Keeps none = raise-Keeps _
push_index-Keeps (some b) = push-Keeps (bytes b)

with_two-Keeps :
    (f : Bytes → Bytes → Action ⊤)
    → ((a b : Bytes) → Keeps (f a b))
    → (xs : List Bytes) → Keeps (with_two f xs)
with_two-Keeps f k [] = raise-Keeps _
with_two-Keeps f k (a ∷ []) = raise-Keeps _
with_two-Keeps f k (a ∷ b ∷ []) = k a b
with_two-Keeps f k (a ∷ b ∷ c ∷ xs) = raise-Keeps _

with_three-Keeps :
    (f : Bytes → Bytes → Bytes → Action ⊤)
    → ((a b c : Bytes) → Keeps (f a b c))
    → (xs : List Bytes) → Keeps (with_three f xs)
with_three-Keeps f k [] = raise-Keeps _
with_three-Keeps f k (a ∷ []) = raise-Keeps _
with_three-Keeps f k (a ∷ b ∷ []) = raise-Keeps _
with_three-Keeps f k (a ∷ b ∷ c ∷ []) = k a b c
with_three-Keeps f k (a ∷ b ∷ c ∷ d ∷ xs) = raise-Keeps _

-- A method that looks at the stack before it chooses what to do.
choose-Keeps :
    (choice : BitStack → Action ⊤) → ((s : BitStack) → Keeps (choice s)) → Keeps (λ s. choice s s)
choose-Keeps choice k = record { keeps = λ s h. (k s).keeps s h }

if-Keeps : (b : Bool) (m k : Action ⊤) → Keeps m → Keeps k → Keeps (if b then m else k)
if-Keeps true m k hm hk = hm
if-Keeps false m k hm hk = hk

pub op_ifdup-Keeps : Keeps op_ifdup
unfolding op_ifdup
op_ifdup-Keeps = bind-Keeps top dup_if top-Keeps dup_if-Keeps

pub op_dup-Keeps : Keeps op_dup
unfolding op_dup
op_dup-Keeps = bind-Keeps top dup_top top-Keeps dup_top-Keeps

pub op_nip-Keeps : Keeps op_nip
unfolding op_nip
op_nip-Keeps =
    bind-Keeps (popitems 2) _ (popitems-Keeps 2)
      (with_two-Keeps (λ a b. push (bytes a)) (λ a b. push-Keeps (bytes a)))

pub op_over-Keeps : Keeps op_over
unfolding op_over
op_over-Keeps =
    bind-Keeps (popitems 2) _ (popitems-Keeps 2)
      (with_two-Keeps (λ a b. pushlist (all_bytes (b ∷ a ∷ b ∷ []))) (λ a b. pushlist-Keeps _))

pub op_tuck-Keeps : Keeps op_tuck
unfolding op_tuck
op_tuck-Keeps =
    bind-Keeps (popitems 2) _ (popitems-Keeps 2)
      (with_two-Keeps (λ a b. pushlist (all_bytes (a ∷ b ∷ a ∷ []))) (λ a b. pushlist-Keeps _))

pub op_rot-Keeps : Keeps op_rot
unfolding op_rot
op_rot-Keeps =
    bind-Keeps (popitems 3) _ (popitems-Keeps 3) (
      with_three-Keeps (λ a b c. pushlist (all_bytes (c ∷ a ∷ b ∷ []))) (λ a b c. pushlist-Keeps _))

pick_at-Keeps : (n : ℤ) → Keeps (pick_at n)
unfolding pick_at
pick_at-Keeps n =
    choose-Keeps
      (λ s.
        if leb_ℤ (pos (height s)) n
        then raise Error.bit_stack_error
        else push_index (stack_index n s.items))
      (λ s. if-Keeps (leb_ℤ (pos (height s)) n) _ _ (raise-Keeps _) (push_index-Keeps _))

roll_at-Keeps : (n : ℤ) → Keeps (roll_at n)
unfolding roll_at
roll_at-Keeps n =
    choose-Keeps
      (λ s. if ltb_ℤ (pos (height s)) (n +ℤ pos 1) then raise Error.bit_stack_error else roll_items)
      (λ s. if-Keeps (ltb_ℤ (pos (height s)) (n +ℤ pos 1)) _ _ (raise-Keeps _) roll_items-Keeps)
  where
    roll_items : Action ⊤
    roll_items = do
      items ← popitems (pos_part (n +ℤ pos 1))
      pushlist (all_bytes (last_first items))

    roll_items-Keeps : Keeps roll_items
    roll_items-Keeps = search keeps_rules

pub op_pick-Keeps : Keeps op_pick
unfolding op_pick
op_pick-Keeps = bind-Keeps popnum pick_at popnum-Keeps pick_at-Keeps

pub op_roll-Keeps : Keeps op_roll
unfolding op_roll
op_roll-Keeps = bind-Keeps popnum roll_at popnum-Keeps roll_at-Keeps
