-- ===== src/Network/Payloads/Messages.antt =====
-- Whole messages of some commands: the envelope around a payload.
use bitclone.Base.{◌≡◌, refl, ok, [], ◌∷◌, ◌++◌, length, All}
use bitclone.Base.Bytes.{Bytes}
use bitclone.Block.RoundTrip.{IsReadable}
use bitclone.Network.Framing.{write_message}
use bitclone.Network.Framing.Reader.{read_message}
use bitclone.Network.Framing.RoundTrip.{read_message-write_message}
use bitclone.Network.Payloads.{
  HeaderAndShortIds, BlockTxnsRequest, hash_length, write_header_and_short_ids,
  write_block_txns_request,
}
use bitclone.Network.Payloads.Reader.{read_header_and_short_ids, read_block_txns_request}
use bitclone.Network.Payloads.RoundTrip.{
  header_and_short_ids-RoundTrips, block_txns_request-RoundTrips,
}

-- The ASCII forms of "cmpctblock" and "getblocktxn".
abbrev pub cmpctblock_command : Bytes
cmpctblock_command = 0x63 ∷ 0x6d ∷ 0x70 ∷ 0x63 ∷ 0x74 ∷ 0x62 ∷ 0x6c ∷ 0x6f ∷ 0x63 ∷ 0x6b ∷ []

abbrev pub getblocktxn_command : Bytes
getblocktxn_command =
    0x67 ∷ 0x65 ∷ 0x74 ∷ 0x62 ∷ 0x6c ∷ 0x6f ∷ 0x63 ∷ 0x6b ∷ 0x74 ∷ 0x78 ∷ 0x6e ∷ []

module _ (hash256 : Bytes → Bytes) where
  -- A `cmpctblock` message with an 80-byte header, six-byte short ids and prefilled transactions that
  -- `Tx.from_bytes` can read back is read back as it was sent, with the indices that its differences
  -- stand for, whatever follows it.
  pub cmpctblock_message :
      (magic : Bytes) (m : HeaderAndShortIds) (bs rest : Bytes)
      → length m.header ≡ 80
      → All (λ x. length x ≡ 6) m.short_ids
      → All (λ p. IsReadable p.tx) m.prefilled_txs
      → write_message hash256 cmpctblock_command magic (write_header_and_short_ids m) ≡ ok bs
      → read_message hash256 cmpctblock_command read_header_and_short_ids (bs ++ rest)
        ≡ ok ((m, magic), rest)
  cmpctblock_message magic m bs rest size ids txs e =
      read_message-write_message hash256 cmpctblock_command magic _ _ m bs rest refl
        (header_and_short_ids-RoundTrips m size ids txs) e

  -- A `getblocktxn` message with a 32-byte block hash is read back as it was sent, whatever follows it:
  -- if its indices do not grow, it is not sent.
  pub getblocktxn_message :
      (magic : Bytes) (m : BlockTxnsRequest) (bs rest : Bytes)
      → length m.block_hash ≡ hash_length
      → write_message hash256 getblocktxn_command magic (write_block_txns_request m) ≡ ok bs
      → read_message hash256 getblocktxn_command read_block_txns_request (bs ++ rest)
        ≡ ok ((m, magic), rest)
  getblocktxn_message magic m bs rest size e =
      read_message-write_message hash256 getblocktxn_command magic _ _ m bs rest refl
        (block_txns_request-RoundTrips m size) e
