-- ===== src/Block/RoundTrip.antt =====
-- Block headers and blocks are read back as they were written.
use bitclone.Base.{
  ℕ, ◌≡◌, ◌≢◌, refl, sym, ap, ◌∙◌, ok, >>=-eq-ok, ok_inj, true, List, [], ◌∷◌, ◌++◌, length,
  reverse, replicate, length-reverse, All, arith,
}
use mathlib.Core.Path.{subst}
use mathlib.Core.List.{reverse-reverse}
use bitclone.Base.Bytes.{Bytes}
use bitclone.ByteStream.RoundTrip.{
  RoundTrips, seq-RoundTrips, last-RoundTrips, raw-RoundTrips, int-RoundTrips, call-RoundTrips,
  compact_size-RoundTrips, many-RoundTrips,
}
use bitclone.Formats.BlockSize
use bitclone.Merkle.{merkle_tree}
use bitclone.Merkle.Root.{IsHash, HasHashSize, merkle_root-IsHash}
use bitclone.Tx.Transaction
use bitclone.Tx.Transaction.{Tx, is_segwit}
use bitclone.Tx.Reader
use bitclone.Tx.RoundTripTx.{HasTxid, from_bytes-to_bytes}
use bitclone.Block.Header
use bitclone.Block.Header.{BlockHeader, or_number, or_bytes}
use bitclone.Block.Body
use bitclone.Block.Body.{Block}
use bitclone.Block.Reader as BlockReader

-- A header that the constructor leaves as it is, with fields of the right size.
abbrev pub HasWireForm : BlockHeader → Type 0
HasWireForm h =
    (h.version ≢ 0)
    × (h.timestamp ≢ 0)
    × (length h.prev_block ≡ BlockSize.prev_block)
    × (length h.merkle_root ≡ BlockSize.merkle_root)
    × (length h.bits ≡ BlockSize.bits)

or_number_lem : (n default : ℕ) → n ≢ 0 → or_number n default ≡ n
or_number_lem n default h = ground (arith, h)

or_number-nonzero : (n default : ℕ) → default ≢ 0 → or_number n default ≢ 0
or_number-nonzero n default h = ground (arith, h)

or_number_zero : (n : ℕ) → or_number n 0 ≡ n
or_number_zero n = ground arith

or_bytes_lem : (bs default : Bytes) → length bs ≢ 0 → or_bytes bs default ≡ bs
or_bytes_lem [] default h = absurd (h refl)
or_bytes_lem (b ∷ bs) default h = refl

new_lem :
    (now : ℕ) (h : BlockHeader)
    → HasWireForm h
    → Header.new now h.version h.prev_block h.merkle_root h.timestamp
        (reverse (reverse h.bits))
        h.nonce
      ≡ h
unfolding Header.new
new_lem now h w =
    rw
      (
        reverse-reverse h.bits,
        or_number_lem h.version BlockSize.bip65_version w.0,
        or_number_lem h.timestamp now w.1,
        or_number_zero h.nonce,
        or_bytes_lem h.prev_block (replicate BlockSize.prev_block 0) (ground (arith, w.2)),
        or_bytes_lem h.merkle_root (replicate BlockSize.merkle_root 0) (ground (arith, w.3)),
        or_bytes_lem h.bits BlockSize.genesis_block_bits (ground (arith, w.4)),
      )
      refl

pub header-RoundTrips :
    (now : ℕ) (h : BlockHeader)
    → HasWireForm h
    → RoundTrips (Header.to_bytes h) (Header.from_bytes now) h
unfolding Header.to_bytes Header.from_bytes
header-RoundTrips now h w = subst (RoundTrips _ _) (new_lem now h w) (
    seq-RoundTrips _ _ _ _ h.version _ (int-RoundTrips 4 h.version) (
      seq-RoundTrips _ _ _ _ h.prev_block _ (raw-RoundTrips 32 h.prev_block w.2) (
        seq-RoundTrips _ _ _ _ h.merkle_root _ (raw-RoundTrips 32 h.merkle_root w.3) (
          seq-RoundTrips _ _ _ _ h.timestamp _ (int-RoundTrips 4 h.timestamp) (
            seq-RoundTrips _ _ _ _ (reverse h.bits) _
              (raw-RoundTrips 4 (reverse h.bits) (length-reverse h.bits ∙ w.4))
              (last-RoundTrips _ _ _ h.nonce (int-RoundTrips 4 h.nonce)))))))

-- A transaction that the reader can take back.
abbrev pub IsReadable : Tx → Type 0
IsReadable tx =
    All HasTxid tx.inputs
    × (length tx.inputs ≢ 0)
    × (is_segwit tx ≡ true → length tx.witness ≡ length tx.inputs)

pub tx-RoundTrips :
    (tx : Tx) → IsReadable tx → RoundTrips (Transaction.to_bytes tx) Reader.from_bytes tx
tx-RoundTrips tx h = record { reads = λ bs e rest. from_bytes-to_bytes tx bs rest h.0 h.1 h.2 e }

pub txs-RoundTrips :
    (txs : List Tx)
    → All IsReadable txs
    → All (λ tx. RoundTrips (Transaction.to_bytes tx) Reader.from_bytes tx) txs
txs-RoundTrips [] h = tt
txs-RoundTrips (tx ∷ txs) h = (tx-RoundTrips tx h.0, txs-RoundTrips txs h.1)

-- The header of a block, field by field.
abbrev header_of : Block → BlockHeader
header_of b = record {
  version = b.version;
  prev_block = b.prev_block;
  merkle_root = b.merkle_tree.merkle_root;
  timestamp = b.timestamp;
  bits = b.bits;
  nonce = b.nonce;
}

-- The parts that a call of the constructor returned.
module _ (hash256 : Bytes → Bytes) where
  abbrev HasParts : Block → Type 0
  HasParts b =
      (ids : List Bytes) × (Body.txids hash256 b.txs ≡ ok ids)
      × (merkle_tree hash256 ids ≡ ok b.merkle_tree)
      × (Body.calculate_block_weight b.txs ≡ ok b.weight)

  new-HasParts :
      (now version : ℕ) (prev_block : Bytes) (timestamp : ℕ) (bits : Bytes) (nonce : ℕ)
      (txs : List Tx) (b : Block)
      → Body.new now hash256 version prev_block timestamp bits nonce txs ≡ ok b
      → HasParts b × (b.version ≢ 0) × (now ≢ 0 → b.timestamp ≢ 0)
  unfolding Body.new
  new-HasParts now version prev_block timestamp bits nonce txs b e =
      let (ids, e1, e_tree) = >>=-eq-ok (Body.txids hash256 txs) _ e in
      let (tree, e2, e_weight) = >>=-eq-ok (merkle_tree hash256 ids) _ e_tree in
      let (weight, e3, e_block) = >>=-eq-ok (Body.calculate_block_weight txs) _ e_weight in
      subst (λ b'. HasParts b' × (b'.version ≢ 0) × (now ≢ 0 → b'.timestamp ≢ 0))
        (ok_inj _ _ e_block)
        (
          (ids, e1, e2, e3),
          or_number-nonzero version 4 (ground arith),
          or_number-nonzero timestamp now,
        )

  -- The constructor makes the same block again.
  HasParts-new :
      (now : ℕ) (b : Block)
      → HasParts b
      → HasWireForm (header_of b)
      → Body.new now hash256 b.version b.prev_block b.timestamp b.bits b.nonce b.txs ≡ ok b
  unfolding Body.new
  HasParts-new now b (ids, e1, e2, e3) w =
      rw
        (
          e1,
          e2,
          e3,
          or_number_lem b.version BlockSize.version w.0,
          or_number_lem b.timestamp now w.1,
          or_number_zero b.nonce,
          or_bytes_lem b.prev_block (replicate BlockSize.prev_block 0) (ground (arith, w.2)),
          or_bytes_lem b.bits BlockSize.genesis_block_bits (ground (arith, w.4)),
        )
        refl

  get_header_lem :
      (now : ℕ) (b : Block)
      → HasWireForm (header_of b)
      → Body.get_header now hash256 b ≡ header_of b
  unfolding Body.get_header
  get_header_lem now b w =
      ap
        (λ bits.
          Header.new now b.version b.prev_block b.merkle_tree.merkle_root b.timestamp bits b.nonce)
        (sym (reverse-reverse b.bits))
      ∙ new_lem now (header_of b) w

  block-RoundTrips :
      (now now' : ℕ) (b : Block)
      → HasParts b
      → HasWireForm (header_of b)
      → All IsReadable b.txs
      → RoundTrips (Body.to_bytes now hash256 b) (BlockReader.from_bytes now' hash256) b
  unfolding Body.to_bytes BlockReader.from_bytes Body.from_header
  block-RoundTrips now now' b p w r = rw (get_header_lem now b w) (
      seq-RoundTrips _ _ _ _ (header_of b) _ (header-RoundTrips now' (header_of b) w) (
        seq-RoundTrips _ _ _ _ (length b.txs) _ (compact_size-RoundTrips _) (
          call-RoundTrips _ _ _ b.txs b
            (many-RoundTrips Transaction.to_bytes Reader.from_bytes b.txs (txs-RoundTrips b.txs r))
            (HasParts-new now' b p w))))

  txids-IsHash :
      HasHashSize hash256
      → (txs : List Tx) (ids : List Bytes) → Body.txids hash256 txs ≡ ok ids
      → All IsHash ids
  unfolding Body.txids Transaction.txid
  txids-IsHash size [] ids e = subst (All IsHash) (ok_inj _ _ e) tt
  txids-IsHash size (tx ∷ txs) ids e =
      let (id, e1, e') = >>=-eq-ok (Transaction.txid hash256 tx) _ e in
      let (others, e2, e'') = >>=-eq-ok (Body.txids hash256 txs) _ e' in
      let (preimage, _, e3) = >>=-eq-ok (Transaction.get_txid_preimage tx) _ e1 in
      subst (All IsHash) (ok_inj _ _ e'')
        (subst IsHash (ok_inj _ _ e3) (size preimage), txids-IsHash size txs others e2)

-- A block that the constructor made, with a 32-byte predecessor, 4-byte bits and transactions that
-- `Tx.from_bytes` can read back, is read back by `Block.from_bytes` from the bytes that
-- `Block.to_bytes` wrote, with its Merkle tree and weight and whatever follows, if the clock did not
-- stand at 0 when it was made and every hash has 32 bytes.
pub block_from_bytes-to_bytes :
    (hash256 : Bytes → Bytes) (made written read version : ℕ) (prev_block : Bytes) (timestamp : ℕ)
    (bits : Bytes) (nonce : ℕ) (txs : List Tx) (b : Block) (bs rest : Bytes)
    → HasHashSize hash256
    → made ≢ 0
    → Body.new made hash256 version prev_block timestamp bits nonce txs ≡ ok b
    → length b.prev_block ≡ BlockSize.prev_block
    → length b.bits ≡ BlockSize.bits
    → All IsReadable b.txs
    → Body.to_bytes written hash256 b ≡ ok bs
    → BlockReader.from_bytes read hash256 (bs ++ rest) ≡ ok (b, rest)
block_from_bytes-to_bytes hash256 made written read version prev_block timestamp bits nonce txs b bs
      rest size clock e prev_size bits_size readable w =
    let (parts, v, t) = new-HasParts hash256 made version prev_block timestamp bits nonce txs b e in
    let (ids, e1, e2, e3) = parts in
    let root =
      merkle_root-IsHash hash256 size ids b.merkle_tree (txids-IsHash hash256 size b.txs ids e1)
        e2 in
    (block-RoundTrips hash256 written read b parts (v, t clock, prev_size, root, bits_size)
        readable).reads
      bs w rest

-- A header with the sizes of the wire format, and a version and a timestamp other than 0, is read
-- back by `BlockHeader.from_bytes` from the bytes that `BlockHeader.to_bytes` wrote, whatever
-- follows them.
pub header_from_bytes-to_bytes :
    (now : ℕ) (h : BlockHeader) (bs rest : Bytes)
    → HasWireForm h
    → Header.to_bytes h ≡ ok bs
    → Header.from_bytes now (bs ++ rest) ≡ ok (h, rest)
header_from_bytes-to_bytes now h bs rest w e = (header-RoundTrips now h w).reads bs e rest
