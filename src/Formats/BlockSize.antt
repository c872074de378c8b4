-- ===== src/Formats/BlockSize.antt =====
-- core/formats.py, class BLOCK.
use bitclone.Base.{ℕ, [], ◌∷◌}
use bitclone.Base.Bytes.{Bytes}

abbrev pub version : ℕ
version = 4

abbrev pub bip65_version : ℕ
bip65_version = 4

abbrev pub prev_block : ℕ
prev_block = 32

abbrev pub merkle_root : ℕ
merkle_root = 32

abbrev pub time : ℕ
time = 4

abbrev pub bits : ℕ
bits = 4

abbrev pub nonce : ℕ
nonce = 4

abbrev pub genesis_block_bits : Bytes
genesis_block_bits = 0x1d ∷ 0x00 ∷ 0xff ∷ 0xff ∷ []
