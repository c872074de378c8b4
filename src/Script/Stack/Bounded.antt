-- ===== src/Script/Stack/Bounded.antt =====
-- The stack never holds more than `max_size` items, whatever a method does, raising included.
use bitclone.Base.{
  ℕ, ◌+◌, ◌≤◌, ◌≡◌, refl, Result, Error, ok, err, Bool, List, [], ◌∷◌, length, length-drop, reverse,
  inl, inr, Result-cases, ◌∙◌, arith,
}
use bitclone.Script.Num.{decode}
use bitclone.Script.Stack.{
  StackItem, BitStack, Action, pure, raise, lift, ◌>>=◌, height, check_max_size, check_min_height,
  append_left, append_all, push, pushitems, pop, popitems, pushlist, pushbool, popnum, item_bytes,
  top, get_height,
}

abbrev pub IsBounded : BitStack → Type 0
IsBounded s = height s ≤ s.max_size

-- A method that keeps the bound, and the bound itself.
pub record Keeps {A : Type 0} (m : Action A) : Type 0 where
  pub keeps : (s : BitStack) → IsBounded s → IsBounded (m s).1 × ((m s).1.max_size ≡ s.max_size)

pub pure-Keeps : {A : Type 0} (a : A) → Keeps (pure a)
pure-Keeps a = record { keeps = λ s h. (h, refl) }

pub raise-Keeps : {A : Type 0} (e : Error) → Keeps {A = A} (raise e)
raise-Keeps e = record { keeps = λ s h. (h, refl) }

pub lift-Keeps : {A : Type 0} (r : Result A) → Keeps (lift r)
lift-Keeps r = record { keeps = λ s h. (h, refl) }

pub get_height-Keeps : Keeps get_height
get_height-Keeps = record { keeps = λ s h. (h, refl) }

pub top-Keeps : Keeps top
top-Keeps = record { keeps = λ s h. (h, refl) }

-- What a bind does with the result of its first part.
continue-Keeps :
    {A B : Type 0} (f : A → Action B) (n : ℕ) (r : Result A) (s : BitStack)
    → ((a : A) → Keeps (f a))
    → IsBounded s × (s.max_size ≡ n)
    → let s' = (◌>>=◌ (λ u. (r, u)) f s).1 in IsBounded s' × (s'.max_size ≡ n)
continue-Keeps f n (ok a) s kf h = let (bounded, same) = (kf a).keeps s h.0 in (bounded, same ∙ h.1)
continue-Keeps f n (err e) s kf h = h

pub bind-Keeps :
    {A B : Type 0} (m : Action A) (f : A → Action B)
    → Keeps m
    → ((a : A) → Keeps (f a))
    → Keeps (m >>= f)
bind-Keeps m f km kf = record {
  keeps = λ s h. continue-Keeps f s.max_size (m s).0 (m s).1 kf (km.keeps s h);
}

pub push-Keeps : (item : StackItem) → Keeps (push item)
unfolding push check_max_size append_left
push-Keeps item = record { keeps = λ s h. ground arith }

pub pop-Keeps : Keeps pop
unfolding pop
pop-Keeps = record { keeps = λ s h. ground arith }

pub popitems-Keeps : (n : ℕ) → Keeps (popitems n)
unfolding popitems check_min_height
popitems-Keeps n = record { keeps = λ s h. ground (arith, length-drop n s.items) }

-- Each round adds one item at most.
append_all_grows :
    (xs : List StackItem) (s : BitStack)
    → (height (append_all xs s).1 ≤ height s + length xs)
      × ((append_all xs s).1.max_size ≡ s.max_size)
unfolding append_all append_left
append_all_grows [] s = omega arith
append_all_grows (x ∷ xs) s = elim (Result-cases (item_bytes x)) [
  | inl (b, e) ↦ ground (arith, append_all_grows xs (record s { items = b ∷ s.items }))
  | inr (e, h) ↦ ground arith
]

pub pushitems-Keeps : (items : List StackItem) → Keeps (pushitems items)
unfolding pushitems check_max_size
pushitems-Keeps items = record { keeps = λ s h. ground (arith, append_all_grows items s) }

pub pushlist-Keeps : (items : List StackItem) → Keeps (pushlist items)
unfolding pushlist
pushlist-Keeps items = pushitems-Keeps (reverse items)

pub pushbool-Keeps : (b : Bool) → Keeps (pushbool b)
unfolding pushbool
pushbool-Keeps b = push-Keeps _

pub popnum-Keeps : Keeps popnum
unfolding popnum
popnum-Keeps = bind-Keeps pop (λ b. lift (decode b)) pop-Keeps (λ b. lift-Keeps (decode b))

pub ruleset keeps_rules = (
  pure-Keeps, raise-Keeps, lift-Keeps, get_height-Keeps, top-Keeps, bind-Keeps, push-Keeps,
  pop-Keeps, popitems-Keeps, pushitems-Keeps, pushlist-Keeps, pushbool-Keeps, popnum-Keeps,
)
