-- ===== src/Base/Errors.antt =====
-- Python's exceptions as values. A call returns, or it raises one of the classes named here.
use mathlib.Core.Path.{◌≡◌, refl}
use mathlib.Core.Logic.{◌⊎◌, inl, inr}
use mathlib.Core.List.{List, [], ◌∷◌}
use mathlib.Core.Bool.{Bool, true, false}
use bitclone.Base.Tests.{if◌then◌else◌}

-- `BitStackError` to `NetworkError` and `NetworkDataError` are of core/exceptions.py, the last is
-- of sqlite3, and the rest are Python's own; but `out_of_rounds` is none: it marks a loop of the model
-- that was given too few rounds.
pub data Error : Type 0 where
  bit_stack_error bit_num_error op_code_error script_engine_error : Error
  read_error write_error merkle_error target_bits_error transaction_error network_error : Error
  value_error type_error index_error key_error overflow_error attribute_error stop_iteration : Error
  network_data_error integrity_error : Error
  out_of_rounds : Error

-- What a call gives back.
pub data Result {ℓ} (A : Type ℓ) : Type ℓ where
  ok : (value : A) → Result A
  err : (raised : Error) → Result A

module _ {ℓ κ} {A : Type ℓ} {B : Type κ} where
  infixl 5 ◌>>=◌ ◌>>◌
  -- The statements after a call run only if it returned.
  abbrev pub ◌>>=◌ : (call : Result A) (then_do : A → Result B) → Result B
  err raised >>= then_do = err raised
  ok value >>= then_do = then_do value

  abbrev pub ◌>>◌ : (call : Result A) (then_do : Result B) → Result B
  call >> then_do = call >>= λ _. then_do

  -- Two calls in a row returned `last` only if the first returned something for the second.
  pub >>=-eq-ok :
      (call : Result A) (then_do : A → Result B) {last : B}
      → (call >>= then_do) ≡ ok last
      → (first : A) × (call ≡ ok first) × (then_do first ≡ ok last)
  >>=-eq-ok (err raised) then_do both = cc
  >>=-eq-ok (ok value) then_do both = (value, refl, both)

module _ {ℓ} {A : Type ℓ} where
  pub ok_inj : (x y : A) → ok x ≡ ok y → x ≡ y
  ok_inj x y same = cc

  pub Result-cases :
      (call : Result A) → ((x : A) × (call ≡ ok x)) ⊎ ((why : Error) × (call ≡ err why))
  Result-cases = elim [ err raised ↦ inr (raised, refl) | ok value ↦ inl (value, refl) ]

-- `[f(x) for x in xs]`, where `f` may raise.
abbrev pub for_each : {A B : Type 0} → (A → Result B) → List A → Result (List B)
for_each f [] = ok []
for_each f (x ∷ xs) = do y ← f x; ys ← for_each f xs; ok (y ∷ ys)

-- A check behind a guard that returned true.
pub guard_true :
    (b : Bool) (check : Result Bool)
    → (if b then check else ok false) ≡ ok true
    → (b ≡ true) × (check ≡ ok true)
guard_true true check h = (refl, h)
guard_true false check h = cc

-- A value behind a guard that let it through.
pub guard_ok :
    {A : Type 0} (b : Bool) (x y : A) (why : Error)
    → (if b then ok x else err why) ≡ ok y
    → (b ≡ true) × (x ≡ y)
guard_ok true x y why h = (refl, ok_inj x y h)
guard_ok false x y why h = cc
