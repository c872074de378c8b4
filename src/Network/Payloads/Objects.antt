-- ===== src/Network/Payloads/Objects.antt =====
-- The payloads without differences are read back as they were written, too.
use bitclone.Base.{
  ℕ, ◌≤◌, ◌≡◌, refl, ap, ok, Bool, true, false, not, List, [], ◌∷◌, length, All, ltb, ◌==◌,
  if◌then◌else◌, replicate, arith,
}
use mathlib.Core.Path.{subst}
use bitclone.Base.Bytes.{Bytes}
use bitclone.ByteStream.{read_stream}
use bitclone.ByteStream.RoundTrip.{
  RoundTrips, seq-RoundTrips, last-RoundTrips, raw-RoundTrips, int-RoundTrips, call-RoundTrips,
  compact_size-RoundTrips, many-RoundTrips,
}
use bitclone.Tx.Reader as TxReader
use bitclone.Tx.Transaction
use bitclone.Block.Header.{or_bytes}
use bitclone.Block.RoundTrip.{HasWireForm, IsReadable, header-RoundTrips, txs-RoundTrips}
use bitclone.Network.Payloads.{
  InvVector, GetBlocks, MerkleBlock, SendCmpct, BlockTxns, hash_length, inv_types, one_of,
  max_inventory_entries, new_inv_vector, write_inv_vector, new_inv, write_inv, write_get_blocks,
  write_merkle_block, write_send_cmpct, write_block_txns,
}
use bitclone.Network.Payloads.Reader.{
  read_inv_vector, read_inv, read_get_blocks, read_merkle_block, read_send_cmpct, read_block_txns,
}
use bitclone.Network.Payloads.RoundTrip.{All-raw}

-- What the constructor of InvVector asks.
abbrev pub IsInventory : InvVector → Type 0
IsInventory v = (length v.obj_hash ≡ hash_length) × (one_of v.inv_type inv_types ≡ true)

inv_vector-RoundTrips :
    (v : InvVector) → IsInventory v → RoundTrips (write_inv_vector v) read_inv_vector v
unfolding write_inv_vector read_inv_vector new_inv_vector
inv_vector-RoundTrips v (size, known) =
    seq-RoundTrips _ _ _ _ v.inv_type _ (int-RoundTrips 4 v.inv_type) (
      call-RoundTrips _ _ _ v.obj_hash v (raw-RoundTrips 32 v.obj_hash size)
        (rw (size, known) (ground arith)))

All-inv_vector :
    (vs : List InvVector)
    → All IsInventory vs
    → All (λ v. RoundTrips (write_inv_vector v) read_inv_vector v) vs
All-inv_vector [] h = tt
All-inv_vector (v ∷ vs) h = (inv_vector-RoundTrips v h.0, All-inv_vector vs h.1)

inv-RoundTrips :
    (items : List InvVector)
    → All IsInventory items
    → length items ≤ max_inventory_entries
    → RoundTrips (write_inv items) read_inv items
unfolding write_inv read_inv new_inv
inv-RoundTrips items h few =
    let fits : ltb max_inventory_entries (length items) ≡ false = ground (arith, few) in
    seq-RoundTrips _ _ _ _ (length items) _ (compact_size-RoundTrips _) (
      rw fits (
        call-RoundTrips _ _ _ items items
          (many-RoundTrips write_inv_vector read_inv_vector items (All-inv_vector items h))
          (rw fits refl)))

stop_lem : (bs : Bytes) → length bs ≡ hash_length → or_bytes bs (replicate hash_length 0) ≡ bs
stop_lem [] h = absurd (omega (arith, h))
stop_lem (b ∷ bs) h = refl

get_blocks-RoundTrips :
    (m : GetBlocks)
    → All (λ x. length x ≡ hash_length) m.locator_hashes
    → length m.hash_stop ≡ hash_length
    → RoundTrips (write_get_blocks m) read_get_blocks m
unfolding write_get_blocks read_get_blocks
get_blocks-RoundTrips m hs stop =
    subst (RoundTrips _ _) (ap (λ s. record m { hash_stop = s }) (stop_lem m.hash_stop stop)) (
      seq-RoundTrips _ _ _ _ m.version _ (int-RoundTrips 4 m.version) (
        seq-RoundTrips _ _ _ _ (length m.locator_hashes) _ (compact_size-RoundTrips _) (
          seq-RoundTrips _ _ _ _ m.locator_hashes _
            (many-RoundTrips ok (read_stream 32) m.locator_hashes (All-raw 32 m.locator_hashes hs))
            (last-RoundTrips _ _ _ m.hash_stop (raw-RoundTrips 32 m.hash_stop stop)))))

merkle_block-RoundTrips :
    (now : ℕ) (m : MerkleBlock)
    → HasWireForm m.header
    → All (λ x. length x ≡ hash_length) m.hashes
    → RoundTrips (write_merkle_block m) (read_merkle_block now) m
unfolding write_merkle_block read_merkle_block
merkle_block-RoundTrips now m w hs =
    seq-RoundTrips _ _ _ _ m.header _ (header-RoundTrips now m.header w) (
      seq-RoundTrips _ _ _ _ m.tx_num _ (int-RoundTrips 4 m.tx_num) (
        seq-RoundTrips _ _ _ _ (length m.hashes) _ (compact_size-RoundTrips _) (
          seq-RoundTrips _ _ _ _ m.hashes _
            (many-RoundTrips ok (read_stream 32) m.hashes (All-raw 32 m.hashes hs))
            (seq-RoundTrips _ _ _ _ (length m.flags) _ (compact_size-RoundTrips _)
              (last-RoundTrips _ _ _ m.flags (raw-RoundTrips (length m.flags) m.flags refl))))))

announced : (b : Bool) → not ((if b then 1 else 0) == 0) ≡ b
announced true = refl
announced false = refl

send_cmpct-RoundTrips : (m : SendCmpct) → RoundTrips (write_send_cmpct m) read_send_cmpct m
unfolding write_send_cmpct read_send_cmpct
send_cmpct-RoundTrips m =
    subst (RoundTrips _ _) (ap (λ b. record m { announce = b }) (announced m.announce)) (
      seq-RoundTrips _ _ _ _ (if m.announce then 1 else 0) _ (int-RoundTrips 1 _)
        (last-RoundTrips _ _ _ m.version (int-RoundTrips 8 m.version)))

block_txns-RoundTrips :
    (m : BlockTxns)
    → length m.block_hash ≡ hash_length
    → All IsReadable m.txs
    → RoundTrips (write_block_txns m) read_block_txns m
unfolding write_block_txns read_block_txns
block_txns-RoundTrips m h txs =
    seq-RoundTrips _ _ _ _ m.block_hash _ (raw-RoundTrips 32 m.block_hash h) (
      seq-RoundTrips _ _ _ _ (length m.txs) _ (compact_size-RoundTrips _) (
        last-RoundTrips _ _ _ m.txs (
          many-RoundTrips Transaction.to_bytes TxReader.from_bytes m.txs
            (txs-RoundTrips m.txs txs))))
