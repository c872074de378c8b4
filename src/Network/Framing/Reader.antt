-- ===== src/Network/Framing/Reader.antt =====
-- network/messages/header.py and network/messages/message.py, the readers.
use bitclone.Base.{ok, err}
use bitclone.Base.Bytes.{Bytes}
use bitclone.ByteStream.{Parser, pure, ◌>>=◌, returning, read_stream, read_little_int}
use bitclone.Network.Framing
use bitclone.Network.Framing.{Header, command_length, header_length, decode_command, check_envelope}

unfoldable pub from_bytes : Parser Header
from_bytes = do
  magic_bytes ← read_stream 4
  raw_command ← read_stream command_length
  command ← returning (decode_command raw_command)
  size ← read_little_int 4
  checksum ← read_stream 4
  returning (Framing.new command size checksum magic_bytes)

-- `Header.from_bytes` of the bytes that were read for it.
unfoldable pub read_header : Parser Header
read_header = do
  header_bytes ← read_stream header_length
  returning (elim (from_bytes header_bytes) [ ok (h, _) ↦ ok h | err e ↦ err e ])

-- `Message.from_bytes` of the class of `command`: the payload and the network's magic bytes. What
-- `from_payload` leaves of the payload is not looked at.
unfoldable pub read_message : (Bytes → Bytes) → Bytes → {A : Type 0} → Parser A → Parser (A × Bytes)
read_message hash256 command from_payload = do
  header ← read_header
  raw ← read_stream header.size
  payload ← returning (check_envelope hash256 command header raw)
  message ← returning (elim (from_payload payload) [ ok (a, _) ↦ ok a | err e ↦ err e ])
  pure (message, header.magic_bytes)
