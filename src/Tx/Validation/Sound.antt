-- ===== src/Tx/Validation/Sound.antt =====
-- What a transaction that `validate_loaded_tx` accepts satisfies.
use bitclone.Base.{
  ℕ, ◌+◌, ◌≤◌, ◌≡◌, refl, ok, >>=-eq-ok, Bool, true, false, List, [], ◌∷◌, ◌++◌, Option, none, some,
  length, All, inl, inr, Bool-cases, Option-cases, arith,
}
use bitclone.Base.Bytes.{Bytes, bytes_eq}
use bitclone.Base.Dict.{is_member, add_member}
use bitclone.Tx.TxIn
use bitclone.Tx.TxIn.{TxIn}
use bitclone.Tx.Utxo.{Utxo}
use bitclone.Tx.Validation.{TxValidationContext, check_inputs, mark_seen, input_allowed, is_mature}

-- The inputs' outpoints, in order.
abbrev pub Outpoints : List TxIn → List Bytes → Type 0
Outpoints [] [] = Unit
Outpoints [] (o ∷ os) = ⊥
Outpoints (i ∷ is) [] = ⊥
Outpoints (i ∷ is) (o ∷ os) = (TxIn.outpoint i ≡ ok o) × Outpoints is os

abbrev pub Distinct : List Bytes → Type 0
Distinct [] = Unit
Distinct (o ∷ os) = (is_member bytes_eq o os ≡ false) × Distinct os

-- No outpoint is in the set that the block has spent.
abbrev pub Unspent : Option (List Bytes) → List Bytes → Type 0
Unspent none os = Unit
Unspent (some seen) os = All (λ o. is_member bytes_eq o seen ≡ false) os

-- A coinbase that is spent has enough blocks on it: by the maturity, the height, whether it is a
-- coinbase, and its own height.
abbrev pub MatureAt : Option ℕ → Option ℕ → Bool → ℕ → Type 0
MatureAt (some maturity) (some height) true mined = maturity + mined ≤ height
MatureAt _ _ _ mined = Unit

abbrev pub IsMature : TxValidationContext → Utxo → Type 0
IsMature ctx u = MatureAt ctx.coinbase_maturity ctx.next_height u.is_coinbase u.block_height

is_mature_lem : (ctx : TxValidationContext) (u : Utxo) → is_mature u ctx ≡ true → IsMature ctx u
unfolding is_mature
is_mature_lem ctx u h = ground arith

bytes_eq_sym : (a b : Bytes) → bytes_eq a b ≡ bytes_eq b a
bytes_eq_sym [] [] = refl
bytes_eq_sym [] (y ∷ ys) = refl
bytes_eq_sym (x ∷ xs) [] = refl
bytes_eq_sym (x ∷ xs) (y ∷ ys) = ground (arith, bytes_eq_sym xs ys)

-- What the loop has found when it ends in `true`.
abbrev pub Checked :
    TxValidationContext → List Bytes → Option (List Bytes) → List TxIn → List Utxo → Type 0
Checked ctx local_seen seen is us =
    (os : List Bytes) × Outpoints is os
    × Distinct os
    × All (λ o. is_member bytes_eq o local_seen ≡ false) os
    × Unspent seen os
    × All (IsMature ctx) us

fresh_head :
    (o : Bytes) (local_seen os : List Bytes)
    → All (λ p. is_member bytes_eq p (o ∷ local_seen) ≡ false) os
    → (is_member bytes_eq o os ≡ false) × All (λ p. is_member bytes_eq p local_seen ≡ false) os
fresh_head o local_seen [] h = (refl, tt)
fresh_head o local_seen (p ∷ ps) h =
    ground (arith, h.0, fresh_head o local_seen ps h.1, bytes_eq_sym o p)

member_append :
    (p o : Bytes) (seen : List Bytes)
    → is_member bytes_eq p (seen ++ (o ∷ [])) ≡ false
    → is_member bytes_eq p seen ≡ false
member_append p o [] h = refl
member_append p o (x ∷ xs) h = ground (arith, member_append p o xs)

member_add :
    (p o : Bytes) (seen : List Bytes)
    → is_member bytes_eq p (add_member bytes_eq o seen) ≡ false
    → is_member bytes_eq p seen ≡ false
member_add p o seen h = ground (arith, member_append p o seen)

Unspent-tail :
    (o : Bytes) (seen os : List Bytes)
    → Unspent (some (add_member bytes_eq o seen)) os
    → Unspent (some seen) os
Unspent-tail o seen [] h = tt
Unspent-tail o seen (p ∷ ps) h =
    ground (arith, h.0, Unspent-tail o seen ps h.1, member_add p o seen)

-- One round of the loop that did not refuse.
round_lem :
    (ctx : TxValidationContext) (local_seen : List Bytes) (seen : Option (List Bytes)) (i : TxIn)
    (is : List TxIn) (u : Utxo) (us : List Utxo) (left : Option (List Bytes))
    → check_inputs ctx local_seen seen (i ∷ is) (u ∷ us) ≡ ok (true, left)
    → (o : Bytes) × (seen' : Option (List Bytes)) × (TxIn.outpoint i ≡ ok o)
      × (is_member bytes_eq o local_seen ≡ false)
      × (mark_seen o seen ≡ some seen')
      × (input_allowed ctx i u ≡ true)
      × (check_inputs ctx (o ∷ local_seen) seen' is us ≡ ok (true, left))
unfolding check_inputs
round_lem ctx local_seen seen i is u us left h =
    let (o, p, q) = >>=-eq-ok (TxIn.outpoint i) _ h in
    elim (Bool-cases (is_member bytes_eq o local_seen)) [
      | inl m ↦ ground (arith, q, m)
      | inr m ↦ elim (Option-cases (mark_seen o seen)) [
        | inl s ↦ ground (arith, q, m, s)
        | inr (seen', s) ↦ elim (Bool-cases (input_allowed ctx i u)) [
          | inl a ↦ (o, seen', p, m, s, a, ground (arith, q, m, s, a))
          | inr a ↦ ground (arith, q, m, s, a)
        ]
      ]
    ]

Unspent-cons :
    (o : Bytes) (os : List Bytes) (seen seen' : Option (List Bytes))
    → mark_seen o seen ≡ some seen'
    → Unspent seen' os
    → Unspent seen (o ∷ os)
unfolding mark_seen
Unspent-cons o os none seen' h k = tt
Unspent-cons o os (some s) none h k = ground arith
Unspent-cons o os (some s) (some s') h k = elim (Bool-cases (is_member bytes_eq o s)) [
  | inl m ↦ ground (arith, h, m)
  | inr m ↦
      let e : s' ≡ add_member bytes_eq o s = ground (arith, h, m) in
      (m, Unspent-tail o s os (rw⁻¹ e k))
]

allowed-mature :
    (ctx : TxValidationContext) (i : TxIn) (u : Utxo)
    → input_allowed ctx i u ≡ true
    → is_mature u ctx ≡ true
unfolding input_allowed
allowed-mature ctx i u h = ground arith

pub check_inputs_lem :
    (ctx : TxValidationContext) (local_seen : List Bytes) (seen : Option (List Bytes))
    (is : List TxIn) (us : List Utxo) (left : Option (List Bytes))
    → length us ≡ length is
    → check_inputs ctx local_seen seen is us ≡ ok (true, left)
    → Checked ctx local_seen seen is us
unfolding check_inputs
check_inputs_lem ctx local_seen none [] [] left n h = ([], tt, tt, tt, tt, tt)
check_inputs_lem ctx local_seen (some s) [] [] left n h = ([], tt, tt, tt, tt, tt)
check_inputs_lem ctx local_seen seen [] (u ∷ us) left n h = ground arith
check_inputs_lem ctx local_seen seen (i ∷ is) [] left n h = ground arith
check_inputs_lem ctx local_seen seen (i ∷ is) (u ∷ us) left n h =
    let (o, seen', p, m, s, a, next) = round_lem ctx local_seen seen i is u us left h in
    let (os, same, distinct, fresh, unspent, mature) =
      check_inputs_lem ctx (o ∷ local_seen) seen' is us left (omega (arith, n)) next in
    let (head, tail) = fresh_head o local_seen os fresh in
    (
      o ∷ os,
      (p, same),
      (head, distinct),
      (m, tail),
      Unspent-cons o os seen seen' s unspent,
      (is_mature_lem ctx u (allowed-mature ctx i u a), mature),
    )
