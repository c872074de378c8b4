-- ===== src/Chain/Utxos.antt =====
-- database/database.py: the table of the unspent outputs, as its rows. `outpoint` is the key.
use bitclone.Base.{
  Result, Error, ok, err, ◌>>=◌, List, [], ◌∷◌, Option, none, some, map, if◌then◌else◌,
}
use bitclone.Base.Bytes.{Bytes, bytes_eq}
use bitclone.Tx.Utxo.{Utxo}

abbrev pub UtxoTable : Type 0
UtxoTable = List Utxo

unfoldable pub get_utxo : Bytes → UtxoTable → Option Utxo
get_utxo o [] = none
get_utxo o (u ∷ t) = let rest = get_utxo o t in if bytes_eq o u.outpoint then some u else rest

-- `DELETE FROM utxos WHERE outpoint = ?`, once and for each of a list.
unfoldable pub delete_row : Bytes → UtxoTable → UtxoTable
delete_row o [] = []
delete_row o (u ∷ t) = let rest = delete_row o t in if bytes_eq o u.outpoint then rest else u ∷ rest

unfoldable pub delete_rows : List Bytes → UtxoTable → UtxoTable
delete_rows [] t = t
delete_rows (o ∷ os) t = delete_rows os (delete_row o t)

-- `INSERT INTO utxos(...)`, once and for each of a list: a key that is there is refused.
unfoldable pub insert_row : Utxo → UtxoTable → Result UtxoTable
insert_row u t = elim (get_utxo u.outpoint t) [
  | none ↦ ok (u ∷ t)
  | some _ ↦ err Error.integrity_error
]

unfoldable pub insert_rows : List Utxo → UtxoTable → Result UtxoTable
insert_rows [] t = ok t
insert_rows (u ∷ us) t = insert_row u t >>= λ t'. insert_rows us t'

-- `_apply_utxo_delta`; an error leaves the transaction, which rolls the table back.
unfoldable pub apply_utxo_delta : List Bytes → List Utxo → UtxoTable → Result UtxoTable
apply_utxo_delta spent_outpoints created_utxos t =
    insert_rows created_utxos (delete_rows spent_outpoints t)

pub record BlockUndo : Type 0 where
  pub spent_utxos : List Utxo
  pub created_outpoints : List Bytes

abbrev pub outpoints : List Utxo → List Bytes
outpoints us = map (λ u. u.outpoint) us

-- What `disconnect_chain_block` does to the table.
unfoldable pub disconnect_chain_block : BlockUndo → UtxoTable → Result UtxoTable
disconnect_chain_block undo t =
    insert_rows undo.spent_utxos
      (delete_rows (outpoints undo.spent_utxos) (delete_rows undo.created_outpoints t))

-- The first loop of `reorganize_to`: the undo records of the disconnected blocks, the tip's first.
unfoldable pub disconnect_blocks : List BlockUndo → UtxoTable → Result UtxoTable
disconnect_blocks [] t = ok t
disconnect_blocks (undo ∷ undos) t =
    disconnect_chain_block undo t >>= λ t'. disconnect_blocks undos t'
