-- ===== src/Tx/Witness.antt =====
-- tx/tx.py, class Witness.
use bitclone.Base.{Result, List, length, map}
use bitclone.Base.Bytes.{Bytes}
use bitclone.ByteStream.{Parser, pure, ◌>>=◌, read_compact_size, deserialize_data, read_many}
use bitclone.ByteStream.Writer.{◌<+>◌, serialize_data, write_compact_size, join_all}

pub record Witness : Type 0 where
  pub items : List Bytes

unfoldable pub to_bytes : Witness → Result Bytes
to_bytes w = write_compact_size (length w.items) <+> join_all (map serialize_data w.items)

unfoldable pub from_bytes : Parser Witness
from_bytes = do
  stack_items ← read_compact_size
  witness_items ← read_many stack_items deserialize_data
  pure (record { items = witness_items })
