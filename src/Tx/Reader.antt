-- ===== src/Tx/Reader.antt =====
-- tx/tx.py, Tx.from_bytes.
use bitclone.Base.{ℕ, ok, err, Error, Bool, true, false, List, [], ◌∷◌, drop, ◌==◌, if◌then◌else◌}
use bitclone.Base.Bytes.{Bytes, from_le}
use bitclone.ByteStream.{
  Parser, pure, ◌>>=◌, read_stream, read_little_int, read_compact_size, read_many,
}
use bitclone.Formats.TxSize
use bitclone.Tx.TxIn
use bitclone.Tx.TxOut
use bitclone.Tx.Witness
use bitclone.Tx.Witness.{Witness}
use bitclone.Tx.Transaction.{Tx}

-- The flag behind a marker; at the end of the stream it is `b''`, which is no valid flag either.
unfoldable pub read_flag : Parser Bool
read_flag [] = err Error.value_error
read_flag (flag ∷ s) = if flag == 1 then ok (true, s) else err Error.value_error

-- The marker. `seek(-1)` puts another byte back; at the end of the stream, where `read(1)` took
-- nothing, it steps back into the last byte of the version.
unfoldable pub read_marker : Bytes → Parser Bool
read_marker raw [] = ok (false, drop 3 raw)
read_marker raw (marker ∷ s) = if marker == 0 then read_flag s else ok (false, marker ∷ s)

unfoldable pub read_witness : Bool → ℕ → Parser (List Witness)
read_witness segwit num_inputs = if segwit then read_many num_inputs Witness.from_bytes else pure []

-- What follows the marker.
unfoldable pub read_body : ℕ → Bool → Parser Tx
read_body version segwit = do
  num_inputs ← read_compact_size
  inputs ← read_many num_inputs TxIn.from_bytes
  num_outputs ← read_compact_size
  outputs ← read_many num_outputs TxOut.from_bytes
  witness ← read_witness segwit num_inputs
  locktime ← read_little_int TxSize.locktime
  pure (record {
    inputs = inputs;
    outputs = outputs;
    witness = witness;
    locktime = locktime;
    version = version;
  })

-- `raw` holds the bytes of the version.
unfoldable pub from_bytes : Parser Tx
from_bytes = do
  raw ← read_stream TxSize.version
  segwit ← read_marker raw
  read_body (from_le raw) segwit
