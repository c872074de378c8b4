-- ===== src/Script/Stack.antt =====
-- script/stack.py, class BitStack: a bounded stack. A method takes the stack to its result, or the
-- exception that it raises, and the stack that it leaves, which after a raise may be half done.
pub mod Bounded
use bitclone.Base.{
  ℕ, suc, ◌+◌, Result, Error, ok, err, Bool, List, [], ◌∷◌, Option, none, some, length, take, drop,
  reverse, ltb, ◌==◌, if◌then◌else◌,
}
use bitclone.Base.Bytes.{Bytes}
use bitclone.Base.Int.{ℤ}
use bitclone.Script.Num.{encode, decode}

-- What may be pushed: `StackItem`. A BitNum is stored as its bytes.
pub data StackItem : Type 0 where
  bytes : Bytes → StackItem
  num : ℤ → StackItem

-- The deque, its left end first: the top of the stack.
pub record BitStack : Type 0 where
  pub items : List Bytes
  pub max_size : ℕ

abbrev pub Action : Type 0 → Type 0
Action A = BitStack → Result A × BitStack

abbrev pub ⊤ : Type 0
⊤ = Unit

abbrev pub pure : {A : Type 0} → A → Action A
pure a s = (ok a, s)

abbrev pub raise : {A : Type 0} → Error → Action A
raise e s = (err e, s)

abbrev pub lift : {A : Type 0} → Result A → Action A
lift r s = (r, s)

infixl 5 ◌>>=◌ ◌>>◌
abbrev pub ◌>>=◌ : {A B : Type 0} → Action A → (A → Action B) → Action B
◌>>=◌ m f s = let (r, s') = m s in elim r [ ok a ↦ f a s' | err e ↦ raise e s' ]

abbrev pub ◌>>◌ : {A B : Type 0} → Action A → Action B → Action B
m >> k = m >>= λ _. k

abbrev pub height : BitStack → ℕ
height s = length s.items

-- The property `top`, `None` on an empty stack.
abbrev pub top : Action (Option Bytes)
top s = (ok (elim s.items [ [] ↦ none | x ∷ xs ↦ some x ]), s)

abbrev pub get_height : Action ℕ
get_height s = (ok (height s), s)

unfoldable pub check_max_size : ℕ → Action ⊤
check_max_size n s = (if ltb s.max_size (height s + n) then err Error.bit_stack_error else ok tt, s)

unfoldable pub check_min_height : ℕ → Action ⊤
check_min_height n s = (if ltb (height s) n then err Error.bit_stack_error else ok tt, s)

-- `item.to_bytes() if isinstance(item, BitNum) else item`
unfoldable pub item_bytes : StackItem → Result Bytes
item_bytes (bytes b) = ok b
item_bytes (num n) = encode n

-- `self.stack.appendleft(...)`
unfoldable pub append_left : StackItem → Action ⊤
append_left item s = elim (item_bytes item) [
  | ok b ↦ (ok tt, record s { items = b ∷ s.items })
  | err e ↦ (err e, s)
]

unfoldable pub push : StackItem → Action ⊤
push item = check_max_size 1 >> append_left item

-- The loop of `pushitems`.
unfoldable pub append_all : List StackItem → Action ⊤
append_all [] = pure tt
append_all (x ∷ xs) = append_left x >> append_all xs

unfoldable pub pushitems : List StackItem → Action ⊤
pushitems items = check_max_size (length items) >> append_all items

unfoldable pub pop : Action Bytes
pop s = elim s.items [
  | [] ↦ (err Error.bit_stack_error, s)
  | x ∷ xs ↦ (ok x, record s { items = xs })
]

-- `[self.stack.popleft() for _ in range(n)]`, after the check of the height.
unfoldable pub popitems : ℕ → Action (List Bytes)
popitems n = check_min_height n >> λ s. (ok (take n s.items), record s { items = drop n s.items })

unfoldable pub pushlist : List StackItem → Action ⊤
pushlist items = pushitems (reverse items)

unfoldable pub pushbool : Bool → Action ⊤
pushbool b = push (bytes (if b then 1 ∷ [] else []))

unfoldable pub popnum : Action ℤ
popnum = do b ← pop; lift (decode b)
