-- ===== src/Chain/Undo.antt =====
-- blockchain/blockchain.py: what a block does to the table of unspent outputs, and how it is undone.
pub mod Views
pub mod Capture
pub mod Restores
pub mod Reorganize
use bitclone.Base.{
  ℕ, suc, Result, ok, err, ◌>>=◌, Bool, true, false, List, [], ◌∷◌, ◌++◌, Option, none, some, map,
  for_each, if◌then◌else◌,
}
use bitclone.Base.Bytes.{Bytes, bytes_eq, int_to_le}
use bitclone.Base.Dict.{is_member}
use bitclone.Formats.TxSize
use bitclone.Tx.TxIn
use bitclone.Tx.TxOut.{TxOut}
use bitclone.Tx.Utxo.{Utxo}
use bitclone.Tx.Transaction
use bitclone.Tx.Transaction.{Tx}
use bitclone.Block.Body
use bitclone.Block.Body.{Block}
use bitclone.Chain.Params.{ChainParams, is_bip30_exception}
use bitclone.Chain.Utxos.{UtxoTable, BlockUndo, get_utxo, outpoints}

abbrev pub in_set : Bytes → List Bytes → Bool
in_set o os = is_member bytes_eq o os

-- The outpoints of one transaction's outputs, from the output `vout` on.
unfoldable pub output_outpoints : Bytes → ℕ → List TxOut → Result (List Bytes)
output_outpoints txid vout [] = ok []
output_outpoints txid vout (o ∷ os) = do
  index ← int_to_le TxSize.vout vout
  rest ← output_outpoints txid (suc vout) os
  ok ((txid ++ index) ∷ rest)

-- The same outputs as `UTXO.from_txoutput` makes them.
unfoldable pub output_utxos : ℕ → Bool → Bytes → ℕ → List TxOut → Result (List Utxo)
output_utxos block_height is_coinbase txid vout [] = ok []
output_utxos block_height is_coinbase txid vout (o ∷ os) = do
  index ← int_to_le TxSize.vout vout
  rest ← output_utxos block_height is_coinbase txid (suc vout) os
  ok (
      record {
        outpoint = txid ++ index;
        amount = o.amount;
        scriptpubkey = o.scriptpubkey;
        block_height = block_height;
        is_coinbase = is_coinbase;
      }
      ∷ rest)

-- `txin.outpoint for tx in block.txs if not tx.is_coinbase for txin in tx.inputs`
unfoldable pub spent_outpoints : List Tx → Result (List Bytes)
spent_outpoints [] = ok []
spent_outpoints (tx ∷ txs) = do
  coinbase ← Transaction.is_coinbase tx
  spent ← (if coinbase then ok [] else for_each TxIn.outpoint tx.inputs)
  rest ← spent_outpoints txs
  ok (spent ++ rest)

-- One round of the loops of `_build_block_undo`: what the table holds at `o` is captured, unless an
-- output of that outpoint is. `captured_outpoints` has the outpoints of the captured outputs.
unfoldable pub capture_one : UtxoTable → Bytes → List Utxo → List Utxo
capture_one t o captured = elim (get_utxo o t) [
  | none ↦ captured
  | some u ↦ if in_set u.outpoint (outpoints captured) then captured else captured ++ (u ∷ [])
]

-- The two loops, over the inputs and over the outputs of a block that BIP 30 excepts.
unfoldable pub capture_spent : List Bytes → UtxoTable → List Bytes → List Utxo → List Utxo
capture_spent created t [] captured = captured
capture_spent created t (o ∷ os) captured =
    capture_spent created t os (if in_set o created then captured else capture_one t o captured)

unfoldable pub capture_overwritten : UtxoTable → List Bytes → List Utxo → List Utxo
capture_overwritten t [] captured = captured
capture_overwritten t (o ∷ os) captured = capture_overwritten t os (capture_one t o captured)

-- The loop of `_block_utxo_delta` over the outputs; `spent` is a set, here what was put into it.
unfoldable pub utxo_delta : Bool → List Bytes → List Utxo → List Bytes × List Utxo
utxo_delta excepted spent [] = (spent, [])
utxo_delta excepted spent (u ∷ us) =
    if in_set u.outpoint spent
    then utxo_delta excepted spent us
    else (let (spent', created) =
          utxo_delta excepted (if excepted then u.outpoint ∷ spent else spent) us in
        (spent', u ∷ created))

-- No output of the block is in the table.
unfoldable pub none_unspent : List Bytes → UtxoTable → Bool
none_unspent [] t = true
none_unspent (o ∷ os) t = elim (get_utxo o t) [ none ↦ none_unspent os t | some _ ↦ false ]

module _ (hash256 : Bytes → Bytes) where
  unfoldable pub created_outpoints : List Tx → Result (List Bytes)
  created_outpoints [] = ok []
  created_outpoints (tx ∷ txs) = do
    txid ← Transaction.txid hash256 tx
    created ← output_outpoints txid 0 tx.outputs
    rest ← created_outpoints txs
    ok (created ++ rest)

  unfoldable pub block_utxos : ℕ → List Tx → Result (List Utxo)
  block_utxos block_height [] = ok []
  block_utxos block_height (tx ∷ txs) = do
    txid ← Transaction.txid hash256 tx
    coinbase ← Transaction.is_coinbase tx
    utxos ← output_utxos block_height coinbase txid 0 tx.outputs
    rest ← block_utxos block_height txs
    ok (utxos ++ rest)

module _ (now : ℕ) (hash256 : Bytes → Bytes) (params : ChainParams) where
  unfoldable pub is_excepted : Block → ℕ → Result Bool
  is_excepted block block_height = do
    id ← Body.block_id now hash256 block
    ok (is_bip30_exception params block_height id)

  unfoldable pub build_block_undo : Block → ℕ → UtxoTable → Result BlockUndo
  build_block_undo block block_height t = do
    created ← created_outpoints hash256 block.txs
    spent ← spent_outpoints block.txs
    excepted ← is_excepted block block_height
    let captured = capture_spent created t spent []
    ok (record {
      spent_utxos = if excepted then capture_overwritten t created captured else captured;
      created_outpoints = created;
    })

  unfoldable pub block_utxo_delta : Block → ℕ → Result (List Bytes × List Utxo)
  block_utxo_delta block block_height = do
    spent ← spent_outpoints block.txs
    utxos ← block_utxos hash256 block_height block.txs
    excepted ← is_excepted block block_height
    ok (utxo_delta excepted spent utxos)

  unfoldable pub validate_bip30 : Block → ℕ → UtxoTable → Result Bool
  validate_bip30 block block_height t = do
    excepted ← is_excepted block block_height
    if excepted
        then ok true
        else (do created ← created_outpoints hash256 block.txs; ok (none_unspent created t))
