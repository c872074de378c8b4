-- ===== src/Tx/TxIn.antt =====
-- tx/tx.py, class TxIn. The numbers of a transaction are natural here: a negative Python int has
-- no `to_bytes` either.
use bitclone.Base.{ℕ, Result, ok, length}
use bitclone.Base.Bytes.{Bytes, int_to_le}
use bitclone.ByteStream.{Parser, pure, ◌>>=◌, read_stream, read_little_int, read_compact_size}
use bitclone.ByteStream.Writer.{◌<+>◌, write_compact_size}
use bitclone.Formats.TxSize

pub record TxIn : Type 0 where
  pub txid : Bytes
  pub vout : ℕ
  pub scriptsig : Bytes
  pub sequence : ℕ

-- The property `outpoint`.
unfoldable pub outpoint : TxIn → Result Bytes
outpoint i = ok i.txid <+> int_to_le TxSize.vout i.vout

unfoldable pub to_bytes : TxIn → Result Bytes
to_bytes i =
    ok i.txid
    <+> int_to_le TxSize.vout i.vout
    <+> write_compact_size (length i.scriptsig)
    <+> ok i.scriptsig
    <+> int_to_le TxSize.sequence i.sequence

unfoldable pub from_bytes : Parser TxIn
from_bytes = do
  txid ← read_stream TxSize.txid
  vout ← read_little_int TxSize.vout
  scriptsig_size ← read_compact_size
  scriptsig ← read_stream scriptsig_size
  sequence ← read_little_int TxSize.sequence
  pure (record { txid = txid; vout = vout; scriptsig = scriptsig; sequence = sequence })
