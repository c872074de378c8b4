-- ===== src/Tx/Utxo.antt =====
-- tx/tx.py, class UTXO.
use bitclone.Base.{ℕ, Result, ok, Bool, not, length, ◌==◌, if◌then◌else◌}
use bitclone.Base.Bytes.{Bytes, int_to_le}
use bitclone.ByteStream.{Parser, pure, ◌>>=◌, read_stream, read_little_int, read_compact_size}
use bitclone.ByteStream.Writer.{◌<+>◌, write_compact_size}
use bitclone.Formats.TxSize

pub record Utxo : Type 0 where
  pub outpoint : Bytes
  pub amount : ℕ
  pub scriptpubkey : Bytes
  pub block_height : ℕ
  pub is_coinbase : Bool

unfoldable pub to_bytes : Utxo → Result Bytes
to_bytes u =
    ok u.outpoint
    <+> int_to_le TxSize.amount u.amount
    <+> write_compact_size (length u.scriptpubkey)
    <+> ok u.scriptpubkey
    <+> int_to_le TxSize.height u.block_height
    <+> int_to_le TxSize.is_coinbase (if u.is_coinbase then 1 else 0)

unfoldable pub from_bytes : Parser Utxo
from_bytes = do
  outpoint ← read_stream TxSize.outpoint
  amount ← read_little_int TxSize.amount
  script_len ← read_compact_size
  scriptpubkey ← read_stream script_len
  block_height ← read_little_int TxSize.height
  flag ← read_little_int TxSize.is_coinbase
  pure (record {
    outpoint = outpoint;
    amount = amount;
    scriptpubkey = scriptpubkey;
    block_height = block_height;
    is_coinbase = not (flag == 0);
  })
