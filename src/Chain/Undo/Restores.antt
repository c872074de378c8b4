-- ===== src/Chain/Undo/Restores.antt =====
-- The table that a block's undo record gives back shows what the table before the block did.
use bitclone.Base.{
  ℕ, suc, ◌≡◌, ◌⊎◌, refl, ap, ok, >>=-eq-ok, Bool, true, false, not, ◌&&◌, ◌||◌, List, [], ◌∷◌,
  ◌++◌, Option, none, if◌then◌else◌, arith, Bool-cases, inl, inr,
}
use bitclone.Base.Bytes.{Bytes, bytes_eq→eq, int_to_le}
use bitclone.Tx.Transaction
use bitclone.Tx.Transaction.{Tx}
use bitclone.Tx.TxOut.{TxOut}
use bitclone.Tx.Utxo.{Utxo}
use bitclone.Formats.TxSize
use bitclone.Chain.Utxos.{
  UtxoTable, BlockUndo, get_utxo, outpoints, delete_rows, apply_utxo_delta, disconnect_chain_block,
}
use bitclone.Chain.Undo.{
  in_set, output_outpoints, output_utxos, capture_spent, capture_overwritten, utxo_delta,
  none_unspent, created_outpoints, block_utxos,
}
use bitclone.Chain.Undo.Views.{
  or_else, get_utxo-delete_rows, get_utxo-insert_rows, insert_rows-returns, Distinct, Fresh-own,
  in_set-outpoints,
}
use bitclone.Chain.Undo.Capture.{
  capture_spent-Distinct, capture_overwritten-Distinct, get_utxo-capture_spent,
  get_utxo-capture_overwritten,
}

-- Two tables that no lookup tells apart.
abbrev pub SameView : UtxoTable → UtxoTable → Type 0
SameView t t' = (o : Bytes) → get_utxo o t ≡ get_utxo o t'

-- What a disconnected table shows.
abbrev pub disconnected : BlockUndo → UtxoTable → Bytes → Option Utxo
disconnected undo t o =
    or_else (get_utxo o undo.spent_utxos)
      (if in_set o undo.created_outpoints then none else get_utxo o t)

pub disconnect-returns :
    (undo : BlockUndo) (t : UtxoTable)
    → Distinct undo.spent_utxos
    → (t' : UtxoTable) × (disconnect_chain_block undo t ≡ ok t')
      × ((o : Bytes) → get_utxo o t' ≡ disconnected undo t o)
unfolding disconnect_chain_block
disconnect-returns undo t d =
    let spent = undo.spent_utxos in
    let rows = delete_rows undo.created_outpoints t in
    let (t', e) =
      insert_rows-returns spent (delete_rows (outpoints spent) rows) d (Fresh-own spent rows) in
    (
      t',
      e,
      λ o. ground (
        arith,
        get_utxo-insert_rows spent _ t' o e,
        get_utxo-delete_rows o (outpoints spent) rows,
        get_utxo-delete_rows o undo.created_outpoints t,
        in_set-outpoints o spent,
      ),
    )

-- The outputs of a block stand at the outpoints that its undo record names.
output_outpoints-output_utxos :
    (height : ℕ) (coinbase : Bool) (txid : Bytes) (vout : ℕ) (os : List TxOut) (us : List Utxo)
    → output_utxos height coinbase txid vout os ≡ ok us
    → output_outpoints txid vout os ≡ ok (outpoints us)
unfolding output_utxos output_outpoints
output_outpoints-output_utxos height coinbase txid vout [] us e = ground arith
output_outpoints-output_utxos height coinbase txid vout (o ∷ os) us e =
    let (index, e1, e') = >>=-eq-ok (int_to_le TxSize.vout vout) _ e in
    let (rest, e2, e'') = >>=-eq-ok (output_utxos height coinbase txid (suc vout) os) _ e' in
    ground
      (arith, e1, e'', output_outpoints-output_utxos height coinbase txid (suc vout) os rest e2)

outpoints-append : (us vs : List Utxo) → outpoints (us ++ vs) ≡ outpoints us ++ outpoints vs
outpoints-append [] vs = refl
outpoints-append (u ∷ us) vs = ap (λ os. u.outpoint ∷ os) (outpoints-append us vs)

pub created_outpoints-block_utxos :
    (hash256 : Bytes → Bytes) (height : ℕ) (txs : List Tx) (us : List Utxo)
    → block_utxos hash256 height txs ≡ ok us
    → created_outpoints hash256 txs ≡ ok (outpoints us)
unfolding block_utxos created_outpoints
created_outpoints-block_utxos hash256 height [] us e = ground arith
created_outpoints-block_utxos hash256 height (tx ∷ txs) us e =
    let (txid, e1, e') = >>=-eq-ok (Transaction.txid hash256 tx) _ e in
    let (coinbase, e2, e'') = >>=-eq-ok (Transaction.is_coinbase tx) _ e' in
    let (own, e3, e_rest) = >>=-eq-ok (output_utxos height coinbase txid 0 tx.outputs) _ e'' in
    let (rest, e4, e_all) = >>=-eq-ok (block_utxos hash256 height txs) _ e_rest in
    ground (
      arith,
      e1,
      e_all,
      output_outpoints-output_utxos height coinbase txid 0 tx.outputs own e3,
      created_outpoints-block_utxos hash256 height txs rest e4,
      outpoints-append own rest,
    )

-- Away from the block's outputs, the delta only deletes what the block spends.
utxo_delta-elsewhere :
    (excepted : Bool) (spent : List Bytes) (us : List Utxo) (o : Bytes)
    → in_set o (outpoints us) ≡ false
    → (in_set o (utxo_delta excepted spent us).0 ≡ in_set o spent)
      × (get_utxo o (utxo_delta excepted spent us).1 ≡ none)
unfolding utxo_delta get_utxo
utxo_delta-elsewhere excepted spent [] o h = (refl, refl)
utxo_delta-elsewhere excepted spent (u ∷ us) o h = ground (
  arith,
  utxo_delta-elsewhere excepted spent us o,
  utxo_delta-elsewhere excepted (u.outpoint ∷ spent) us o,
)

none_unspent_lem :
    (os : List Bytes) (t : UtxoTable) (o : Bytes)
    → none_unspent os t ≡ true
    → in_set o os ≡ true
    → get_utxo o t ≡ none
unfolding none_unspent
none_unspent_lem [] t o h k = cc
none_unspent_lem (k ∷ os) t o h e = ground (arith, none_unspent_lem os t o, bytes_eq→eq o k, h, e)

-- The record of `_build_block_undo`, from what the block spends and creates.
abbrev pub undo_of : Bool → List Bytes → List Bytes → UtxoTable → BlockUndo
undo_of excepted spent created t =
    let captured = capture_spent created t spent [] in
    record {
      spent_utxos = if excepted then capture_overwritten t created captured else captured;
      created_outpoints = created;
    }

pub undo_of-Distinct :
    (excepted : Bool) (spent created : List Bytes) (t : UtxoTable)
    → Distinct (undo_of excepted spent created t).spent_utxos
undo_of-Distinct true spent created t =
    capture_overwritten-Distinct t created _ (capture_spent-Distinct created t spent [] tt)
undo_of-Distinct false spent created t = capture_spent-Distinct created t spent [] tt

get_utxo-undo_of :
    (excepted : Bool) (spent created : List Bytes) (t : UtxoTable) (o : Bytes)
    → get_utxo o (undo_of excepted spent created t).spent_utxos ≡ (
        if (in_set o spent && not (in_set o created)) || (excepted && in_set o created)
        then get_utxo o t
        else none)
unfolding get_utxo
get_utxo-undo_of true spent created t o = ground (
  arith,
  get_utxo-capture_spent o created t spent [],
  get_utxo-capture_overwritten o t created (capture_spent created t spent []),
)
get_utxo-undo_of false spent created t o =
    ground (arith, get_utxo-capture_spent o created t spent [])

pub restores_at :
    (excepted : Bool) (spent : List Bytes) (us : List Utxo) (t t' : UtxoTable) (o : Bytes)
    → (excepted ≡ true) ⊎ (none_unspent (outpoints us) t ≡ true)
    → apply_utxo_delta (utxo_delta excepted spent us).0 (utxo_delta excepted spent us).1 t ≡ ok t'
    → disconnected (undo_of excepted spent (outpoints us) t) t' o ≡ get_utxo o t
unfolding apply_utxo_delta
restores_at excepted spent us t t' o new e =
    let (kept, created) = utxo_delta excepted spent us in
    rw (get_utxo-undo_of excepted spent (outpoints us) t o)
      (elim (Bool-cases (in_set o (outpoints us))) [
        | inl h ↦ elim new [
          | inl x ↦ rw (h, x) (ground arith)
          | inr x ↦ rw (h, none_unspent_lem (outpoints us) t o x h) (ground arith)
        ]
        | inr h ↦
            let (same, none_new) = utxo_delta-elsewhere excepted spent us o h in
            ground (
              arith,
              h,
              same,
              none_new,
              get_utxo-insert_rows created (delete_rows kept t) t' o e,
              get_utxo-delete_rows o kept t,
            )
      ])
