-- ===== src/Network/Framing.antt =====
-- network/messages/header.py, and the envelope of network/messages/message.py. A command is the bytes
-- of its ASCII form.
pub mod Reader
pub mod RoundTrip
use bitclone.Base.{
  ℕ, suc, ◌+◌, ◌-◌, Result, Error, ok, err, ◌>>=◌, Bool, true, false, not, ◌&&◌, ◌||◌, List, [],
  ◌∷◌, ◌++◌, length, take, replicate, map, ltb, leb, ◌==◌, if◌then◌else◌,
}
use bitclone.Base.Bytes.{Bytes, bytes_eq, int_to_le}
use bitclone.Base.Dict.{is_member}
use bitclone.ByteStream.Writer.{◌<+>◌}

-- NETWORK of core/formats.py.
abbrev pub command_length : ℕ
command_length = 12

abbrev pub header_length : ℕ
header_length = 24

abbrev pub max_payload_size : ℕ
max_payload_size = 4_000_000

-- MAGICBYTES.ALLOWED_MAGIC of core/formats.py, with the values of core/network_profiles.py.
abbrev pub allowed_magic : List Bytes
allowed_magic =
    (0xf9 ∷ 0xbe ∷ 0xb4 ∷ 0xd9 ∷ [])
    ∷ (0x0b ∷ 0x11 ∷ 0x09 ∷ 0x07 ∷ [])
    ∷ (0xfa ∷ 0xbf ∷ 0xb5 ∷ 0xda ∷ [])
    ∷ (0x0a ∷ 0x03 ∷ 0xcf ∷ 0x40 ∷ [])
    ∷ []

pub record Header : Type 0 where
  pub magic_bytes : Bytes
  pub command : Bytes
  pub size : ℕ
  pub checksum : Bytes

-- `str.lower`, of one ASCII character.
abbrev pub lower_byte : ℕ → ℕ
lower_byte b = if leb 0x41 b && leb b 0x5a then b + 32 else b

abbrev pub all_bytes : (ℕ → Bool) → Bytes → Bool
all_bytes p [] = true
all_bytes p (b ∷ bs) = p b && all_bytes p bs

abbrev pub is_printable : ℕ → Bool
is_printable b = leb 0x20 b && leb b 0x7e

-- `_validate_header`: each check raises NetworkError.
unfoldable pub is_valid : Bytes → Bytes → ℕ → Bytes → Bool
is_valid magic_bytes command size checksum =
    is_member bytes_eq magic_bytes allowed_magic
    && leb 1 (length command)
    && leb (length command) command_length
    && all_bytes is_printable command
    && leb size max_payload_size
    && (length checksum == 4)

-- The constructor.
unfoldable pub new : Bytes → ℕ → Bytes → Bytes → Result Header
new command size checksum magic_bytes =
    if is_valid magic_bytes (map lower_byte command) size checksum
    then ok (record {
      magic_bytes = magic_bytes;
      command = map lower_byte command;
      size = size;
      checksum = checksum;
    })
    else err Error.network_error

-- `_decode_command`: the bytes before the first zero byte, behind which only zero bytes may stand.
unfoldable pub decode_command : Bytes → Result Bytes
decode_command [] = ok []
decode_command (b ∷ bs) =
    let rest = decode_command bs in
    if b == 0
    then (if all_bytes (λ c. c == 0) bs then ok [] else err Error.network_error)
    else if leb 0x80 b
    then err Error.network_error
    else rest >>= λ cs. ok (b ∷ cs)

-- `command.ljust(12, b'\x00')[:12]`
unfoldable pub encode_command : Bytes → Bytes
encode_command command =
    take command_length (command ++ replicate (command_length - length command) 0)

unfoldable pub to_bytes : Header → Result Bytes
to_bytes h =
    ok h.magic_bytes <+> ok (encode_command h.command) <+> int_to_le 4 h.size <+> ok h.checksum

-- `_get_header` of a payload, and `to_bytes` of a message with that payload.
module _ (hash256 : Bytes → Bytes) where
  unfoldable pub get_header : Bytes → Bytes → Bytes → Result Header
  get_header command magic_bytes payload =
      new command (length payload) (take 4 (hash256 payload)) magic_bytes

  unfoldable pub write_message : Bytes → Bytes → Result Bytes → Result Bytes
  write_message command magic_bytes to_payload = do
    payload ← to_payload
    header ← get_header command magic_bytes payload
    to_bytes header <+> ok payload

  unfoldable pub validate_package : Header → Bytes → Bool
  validate_package h payload =
      bytes_eq (take 4 (hash256 payload)) h.checksum
      && (length payload == h.size)
      && is_member bytes_eq h.magic_bytes allowed_magic

  -- `from_envelope` of the message class of `command`, behind which the payload is read.
  unfoldable pub check_envelope : Bytes → Header → Bytes → Result Bytes
  check_envelope command h payload =
      if not (validate_package h payload)
      then err Error.value_error
      else if bytes_eq h.command command
      then ok payload
      else err Error.value_error
