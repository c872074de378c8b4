-- ===== src/Block/Header.antt =====
-- block/block.py, class BlockHeader. `now` stands for `int(time.time())`.
use bitclone.Base.{ℕ, Result, ok, [], ◌∷◌, replicate, reverse, ◌==◌, if◌then◌else◌}
use bitclone.Base.Bytes.{Bytes, int_to_le}
use bitclone.ByteStream.{Parser, pure, ◌>>=◌, read_stream, read_little_int}
use bitclone.ByteStream.Writer.{◌<+>◌}
use bitclone.Formats.BlockSize

pub record BlockHeader : Type 0 where
  pub version : ℕ
  pub prev_block : Bytes
  pub merkle_root : Bytes
  pub timestamp : ℕ
  pub bits : Bytes
  pub nonce : ℕ

-- `n or default` and `bs or default`: zero and the empty byte string are false.
abbrev pub or_number : ℕ → ℕ → ℕ
or_number n default = if n == 0 then default else n

abbrev pub or_bytes : Bytes → Bytes → Bytes
or_bytes [] default = default
or_bytes (b ∷ bs) default = b ∷ bs

-- The constructor.
unfoldable pub new : ℕ → ℕ → Bytes → Bytes → ℕ → Bytes → ℕ → BlockHeader
new now version prev_block merkle_root timestamp bits nonce = record {
  version = or_number version BlockSize.bip65_version;
  prev_block = or_bytes prev_block (replicate BlockSize.prev_block 0);
  merkle_root = or_bytes merkle_root (replicate BlockSize.merkle_root 0);
  timestamp = or_number timestamp now;
  bits = or_bytes bits BlockSize.genesis_block_bits;
  nonce = or_number nonce 0;
}

unfoldable pub from_bytes : ℕ → Parser BlockHeader
from_bytes now = do
  version ← read_little_int BlockSize.version
  prev_block ← read_stream BlockSize.prev_block
  merkle_root ← read_stream BlockSize.merkle_root
  timestamp ← read_little_int BlockSize.time
  raw_bits ← read_stream BlockSize.bits
  nonce ← read_little_int BlockSize.nonce
  pure (new now version prev_block merkle_root timestamp (reverse raw_bits) nonce)

unfoldable pub to_bytes : BlockHeader → Result Bytes
to_bytes h =
    int_to_le BlockSize.version h.version
    <+> ok h.prev_block
    <+> ok h.merkle_root
    <+> int_to_le BlockSize.time h.timestamp
    <+> ok (reverse h.bits)
    <+> int_to_le BlockSize.nonce h.nonce

-- The property `block_id`, with double SHA-256, which hashlib computes.
unfoldable pub block_id : (Bytes → Bytes) → BlockHeader → Result Bytes
block_id hash256 h = elim (to_bytes h) [
  | Result.err e ↦ Result.err e
  | Result.ok bs ↦ ok (hash256 bs)
]
