-- ===== src/Chain/Undo/Capture.antt =====
-- What `_build_block_undo` captures of the table.
use bitclone.Base.{
  ◌≡◌, ◌⊎◌, refl, not, ◌&&◌, List, [], ◌∷◌, ◌++◌, none, some, if◌then◌else◌, arith, Option-cases,
  Bool-cases, inl, inr,
}
use bitclone.Base.Bytes.{Bytes, bytes_eq, bytes_eq→eq, bytes_eq_refl}
use bitclone.Tx.Utxo.{Utxo}
use bitclone.Chain.Utxos.{UtxoTable, get_utxo}
use bitclone.Chain.Undo.{in_set, capture_one, capture_spent, capture_overwritten}
use bitclone.Chain.Undo.Views.{or_else, get_utxo-key, Distinct, in_set-outpoints}

get_utxo-append :
    (o : Bytes) (us vs : List Utxo)
    → get_utxo o (us ++ vs) ≡ or_else (get_utxo o us) (get_utxo o vs)
unfolding get_utxo
get_utxo-append o [] vs = refl
get_utxo-append o (u ∷ us) vs = ground (arith, get_utxo-append o us vs)

Distinct-append :
    (us : List Utxo) (u : Utxo)
    → Distinct us
    → get_utxo u.outpoint us ≡ none
    → Distinct (us ++ (u ∷ []))
unfolding get_utxo
Distinct-append [] u d h = (refl, tt)
Distinct-append (v ∷ us) u d h = (
  ground (
    arith,
    get_utxo-append v.outpoint us (u ∷ []),
    d.0,
    h,
    bytes_eq→eq v.outpoint u.outpoint,
    bytes_eq_refl u.outpoint,
  ),
  Distinct-append us u d.1 (ground (arith, h)),
)

-- A row is captured if it is in the table and not captured already.
capture_one-cases :
    (t : UtxoTable) (k : Bytes) (captured : List Utxo)
    → ((capture_one t k captured ≡ captured)
        × (or_else (get_utxo k captured) (get_utxo k t) ≡ get_utxo k captured))
      ⊎ ((u : Utxo) × (capture_one t k captured ≡ captured ++ (u ∷ []))
          × (get_utxo k t ≡ some u)
          × (u.outpoint ≡ k)
          × (get_utxo u.outpoint captured ≡ none))
unfolding capture_one
capture_one-cases t k captured = elim (Option-cases (get_utxo k t)) [
  | inl e ↦ inl (ground (arith, e))
  | inr (u, e) ↦
      let same = get_utxo-key k t u e in
      elim (Option-cases (get_utxo u.outpoint captured)) [
        | inl f ↦ inr (u, ground (arith, e, f, in_set-outpoints u.outpoint captured), e, same, f)
        | inr (v, f) ↦ inl (ground (arith, e, f, same, in_set-outpoints u.outpoint captured))
      ]
]

capture_one-Distinct :
    (t : UtxoTable) (k : Bytes) (captured : List Utxo)
    → Distinct captured
    → Distinct (capture_one t k captured)
capture_one-Distinct t k captured d = elim (capture_one-cases t k captured) [
  | inl (e, _) ↦ rw e d
  | inr (u, e, _, _, fresh) ↦ rw e (Distinct-append captured u d fresh)
]

get_utxo-capture_one :
    (o : Bytes) (t : UtxoTable) (k : Bytes) (captured : List Utxo)
    → get_utxo o (capture_one t k captured)
      ≡ or_else (get_utxo o captured) (if bytes_eq o k then get_utxo o t else none)
unfolding get_utxo
get_utxo-capture_one o t k captured = elim (capture_one-cases t k captured) [
  | inl (e, f) ↦ rw e (ground (arith, f, bytes_eq→eq o k))
  | inr (u, e, f, same, fresh) ↦
      rw e (ground (arith, get_utxo-append o captured (u ∷ []), f, same, fresh, bytes_eq→eq o k))
]

pub capture_spent-Distinct :
    (created : List Bytes) (t : UtxoTable) (os : List Bytes) (captured : List Utxo)
    → Distinct captured
    → Distinct (capture_spent created t os captured)
unfolding capture_spent
capture_spent-Distinct created t [] captured d = d
capture_spent-Distinct created t (o ∷ os) captured d =
    capture_spent-Distinct created t os _ (elim (Bool-cases (in_set o created)) [
      | inl e ↦ rw e d
      | inr e ↦ rw e (capture_one-Distinct t o captured d)
    ])

pub capture_overwritten-Distinct :
    (t : UtxoTable) (os : List Bytes) (captured : List Utxo)
    → Distinct captured
    → Distinct (capture_overwritten t os captured)
unfolding capture_overwritten
capture_overwritten-Distinct t [] captured d = d
capture_overwritten-Distinct t (o ∷ os) captured d =
    capture_overwritten-Distinct t os _ (capture_one-Distinct t o captured d)

-- The captured rows are those of the table at the spent outpoints that the block did not create.
pub get_utxo-capture_spent :
    (o : Bytes) (created : List Bytes) (t : UtxoTable) (os : List Bytes) (captured : List Utxo)
    → get_utxo o (capture_spent created t os captured)
      ≡ or_else
          (get_utxo o captured)
          (if in_set o os && not (in_set o created) then get_utxo o t else none)
unfolding capture_spent
get_utxo-capture_spent o created t [] captured = ground arith
get_utxo-capture_spent o created t (k ∷ os) captured = ground (
  arith,
  get_utxo-capture_spent o created t os captured,
  get_utxo-capture_spent o created t os (capture_one t k captured),
  get_utxo-capture_one o t k captured,
  bytes_eq→eq o k,
)

pub get_utxo-capture_overwritten :
    (o : Bytes) (t : UtxoTable) (os : List Bytes) (captured : List Utxo)
    → get_utxo o (capture_overwritten t os captured)
      ≡ or_else (get_utxo o captured) (if in_set o os then get_utxo o t else none)
unfolding capture_overwritten
get_utxo-capture_overwritten o t [] captured = ground arith
get_utxo-capture_overwritten o t (k ∷ os) captured = ground (
  arith,
  get_utxo-capture_overwritten o t os (capture_one t k captured),
  get_utxo-capture_one o t k captured,
)
