-- ===== src/Tx/TxOut.antt =====
-- tx/tx.py, class TxOut.
use bitclone.Base.{ℕ, Result}
use bitclone.Base.Bytes.{Bytes, int_to_le}
use bitclone.ByteStream.{Parser, pure, ◌>>=◌, read_little_int, deserialize_data}
use bitclone.ByteStream.Writer.{◌<+>◌, serialize_data}
use bitclone.Formats.TxSize

pub record TxOut : Type 0 where
  pub amount : ℕ
  pub scriptpubkey : Bytes

unfoldable pub to_bytes : TxOut → Result Bytes
to_bytes o = int_to_le TxSize.amount o.amount <+> serialize_data o.scriptpubkey

unfoldable pub from_bytes : Parser TxOut
from_bytes = do
  amount ← read_little_int TxSize.amount
  scriptpubkey ← deserialize_data
  pure (record { amount = amount; scriptpubkey = scriptpubkey })
