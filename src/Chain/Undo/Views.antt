-- ===== src/Chain/Undo/Views.antt =====
-- What the table of unspent outputs holds at an outpoint after each of its operations.
use bitclone.Base.{
  ◌≡◌, refl, ok, true, false, List, [], ◌∷◌, Option, none, some, All, if◌then◌else◌, arith,
  >>=-eq-ok, Option-cases, inl, inr,
}
use bitclone.Base.Bytes.{Bytes, bytes_eq, bytes_eq→eq, bytes_eq_refl}
use bitclone.Tx.Utxo.{Utxo}
use bitclone.Chain.Utxos.{
  UtxoTable, get_utxo, delete_row, delete_rows, insert_row, insert_rows, outpoints,
}
use bitclone.Chain.Undo.{in_set}

abbrev pub or_else : {A : Type 0} → Option A → Option A → Option A
or_else none y = y
or_else (some x) y = some x

pub get_utxo-key : (o : Bytes) (t : UtxoTable) (u : Utxo) → get_utxo o t ≡ some u → u.outpoint ≡ o
unfolding get_utxo
get_utxo-key o [] u h = cc
get_utxo-key o (v ∷ t) u h = ground (arith, get_utxo-key o t u, bytes_eq→eq o v.outpoint)

get_utxo-delete_row :
    (o k : Bytes) (t : UtxoTable)
    → get_utxo o (delete_row k t) ≡ (if bytes_eq o k then none else get_utxo o t)
unfolding get_utxo delete_row
get_utxo-delete_row o k [] = ground arith
get_utxo-delete_row o k (u ∷ t) = ground (
  arith,
  get_utxo-delete_row o k t,
  bytes_eq→eq k u.outpoint,
  bytes_eq→eq o u.outpoint,
  bytes_eq→eq o k,
  bytes_eq_refl o,
)

pub get_utxo-delete_rows :
    (o : Bytes) (ks : List Bytes) (t : UtxoTable)
    → get_utxo o (delete_rows ks t) ≡ (if in_set o ks then none else get_utxo o t)
unfolding delete_rows
get_utxo-delete_rows o [] t = refl
get_utxo-delete_rows o (k ∷ ks) t =
    ground (arith, get_utxo-delete_rows o ks (delete_row k t), get_utxo-delete_row o k t)

insert_row-ok :
    (u : Utxo) (t t' : UtxoTable)
    → insert_row u t ≡ ok t'
    → (get_utxo u.outpoint t ≡ none) × (t' ≡ u ∷ t)
unfolding insert_row
insert_row-ok u t t' h = ground arith

-- Rows that went in were not there before.
pub insert_rows-fresh :
    (us : List Utxo) (t t' : UtxoTable) (o : Bytes) (u : Utxo)
    → insert_rows us t ≡ ok t'
    → get_utxo o us ≡ some u
    → get_utxo o t ≡ none
unfolding insert_rows get_utxo
insert_rows-fresh [] t t' o u h e = cc
insert_rows-fresh (v ∷ us) t t' o u h e =
    let (t1, h1, h2) = >>=-eq-ok (insert_row v t) _ h in
    let (fresh, made) = insert_row-ok v t t1 h1 in
    ground (arith, insert_rows-fresh us t1 t' o u h2, bytes_eq→eq o v.outpoint, fresh, made, e)

-- What a table holds after rows went in.
pub get_utxo-insert_rows :
    (us : List Utxo) (t t' : UtxoTable) (o : Bytes)
    → insert_rows us t ≡ ok t'
    → get_utxo o t' ≡ or_else (get_utxo o us) (get_utxo o t)
unfolding insert_rows get_utxo
get_utxo-insert_rows [] t t' o h = ground arith
get_utxo-insert_rows (v ∷ us) t t' o h =
    let (t1, h1, h2) = >>=-eq-ok (insert_row v t) _ h in
    let (fresh, made) = insert_row-ok v t t1 h1 in
    elim (Option-cases (get_utxo o us)) [
      | inl e ↦ ground (arith, get_utxo-insert_rows us t1 t' o h2, made, e)
      | inr (u, e) ↦
          ground (
            arith,
            get_utxo-insert_rows us t1 t' o h2,
            made,
            insert_rows-fresh us t1 t' o u h2 e,
            e,
          )
    ]

-- Every row has another key.
abbrev pub Distinct : List Utxo → Type 0
Distinct [] = Unit
Distinct (u ∷ us) = (get_utxo u.outpoint us ≡ none) × Distinct us

abbrev Fresh : List Utxo → UtxoTable → Type 0
Fresh us t = All (λ u. get_utxo u.outpoint t ≡ none) us

Fresh-insert :
    (us : List Utxo) (u : Utxo) (t : UtxoTable)
    → Fresh us t
    → get_utxo u.outpoint us ≡ none
    → Fresh us (u ∷ t)
unfolding get_utxo
Fresh-insert [] u t h k = tt
Fresh-insert (v ∷ us) u t h k = (
  ground (arith, h.0, bytes_eq→eq v.outpoint u.outpoint, k, bytes_eq_refl u.outpoint),
  Fresh-insert us u t h.1 (ground (arith, k)),
)

-- Rows with other keys than the table's and each other's go in.
pub insert_rows-returns :
    (us : List Utxo) (t : UtxoTable)
    → Distinct us
    → Fresh us t
    → (t' : UtxoTable) × (insert_rows us t ≡ ok t')
unfolding insert_rows insert_row
insert_rows-returns [] t d f = (t, refl)
insert_rows-returns (u ∷ us) t d f =
    let (t', e) = insert_rows-returns us (u ∷ t) d.1 (Fresh-insert us u t f.1 d.0) in
    (t', ground (arith, f.0, e))

-- The keys of a list of rows.
pub in_set-outpoints :
    (o : Bytes) (us : List Utxo)
    → in_set o (outpoints us) ≡ elim (get_utxo o us) [ none ↦ false | some _ ↦ true ]
unfolding get_utxo
in_set-outpoints o [] = refl
in_set-outpoints o (u ∷ us) = ground (arith, in_set-outpoints o us)

in_set-wider :
    (k : Bytes) (ks : List Bytes) (us : List Utxo)
    → All (λ u. in_set u.outpoint ks ≡ true) us
    → All (λ u. in_set u.outpoint (k ∷ ks) ≡ true) us
in_set-wider k ks [] h = tt
in_set-wider k ks (u ∷ us) h = (ground (arith, h.0), in_set-wider k ks us h.1)

in_set-own : (us : List Utxo) → All (λ u. in_set u.outpoint (outpoints us) ≡ true) us
in_set-own [] = tt
in_set-own (u ∷ us) = (
  ground (arith, bytes_eq_refl u.outpoint),
  in_set-wider u.outpoint (outpoints us) us (in_set-own us),
)

Fresh-delete_rows :
    (us : List Utxo) (ks : List Bytes) (t : UtxoTable)
    → All (λ u. in_set u.outpoint ks ≡ true) us
    → Fresh us (delete_rows ks t)
Fresh-delete_rows [] ks t h = tt
Fresh-delete_rows (u ∷ us) ks t h =
    (ground (arith, get_utxo-delete_rows u.outpoint ks t, h.0), Fresh-delete_rows us ks t h.1)

pub Fresh-own : (us : List Utxo) (t : UtxoTable) → Fresh us (delete_rows (outpoints us) t)
Fresh-own us t = Fresh-delete_rows us (outpoints us) t (in_set-own us)
