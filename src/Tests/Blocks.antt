-- ===== src/Tests/Blocks.antt =====
-- block/block.py, data/target_bits.py and the table of unspent outputs at concrete inputs.
use bitclone.Base.{
  ℕ, ◌*◌, ◌/◌, ◌^◌, ◌≤◌, min, inr, ◌≡◌, refl, ok, true, false, List, [], ◌∷◌, ◌++◌, length,
  length-append, length-take, take, replicate, arith, ◌∙◌,
}
use bitclone.Base.Bytes.{Bytes, int_to_le, from_be}
use bitclone.ByteStream.Writer.{serialize_data, write_compact_size}
use bitclone.Merkle.{merkle_tree, create_levels, tree_height, ceil_log2}
use bitclone.Merkle.Root.{HasHashSize}
use bitclone.Tx.TxIn
use bitclone.Tx.TxOut
use bitclone.Tx.Utxo.{Utxo}
use bitclone.Tx.Transaction
use bitclone.Tx.Transaction.{Tx}
use bitclone.Block.Header
use bitclone.Block.Body
use bitclone.Block.Body.{Block}
use bitclone.Block.Reader
use bitclone.Block.RoundTrip.{block_from_bytes-to_bytes}
use bitclone.Chain.Params.{is_bip30_exception}
use bitclone.Chain.Networks.{regtest_chain_params}
use bitclone.Chain.Utxos.{
  UtxoTable, BlockUndo, get_utxo, delete_row, delete_rows, insert_row, insert_rows,
  apply_utxo_delta, disconnect_blocks,
}
use bitclone.Chain.Undo.{
  output_outpoints, output_utxos, spent_outpoints, capture_one, capture_spent, utxo_delta,
  none_unspent, created_outpoints, block_utxos, is_excepted, build_block_undo, block_utxo_delta,
  validate_bip30,
}
use bitclone.Chain.Undo.Restores.{SameView}
use bitclone.Chain.Undo.Reorganize.{Connects, Connected, disconnect-Connected}
use bitclone.Data.TargetBits.{bits_to_target, target_to_bits}
use bitclone.Data.TargetBits.RoundTrip.{target_to_bits-bits_to_target, three}
use bitclone.Chain.Difficulty.{calculate_retarget}
use bitclone.Chain.Difficulty.Retarget.{retarget_bounds}
use bitclone.Chain.Subsidy.{calc_subsidy, block_subsidy, halving_interval}
use bitclone.Chain.Subsidy.Supply.{total, scheduled_supply, claimed_supply}
use bitclone.Base.Int.{pos}

-- A hash function for the examples: the first 32 bytes, or as many zero bytes as are missing.
abbrev pub short_hash : Bytes → Bytes
short_hash bs = take 32 (bs ++ replicate 32 0)

short_hash-size : HasHashSize short_hash
short_hash-size bs =
    length-take 32 (bs ++ replicate 32 0) ∙ omega (arith, length-append bs (replicate {A = ℕ} 32 0))

abbrev pub coinbase : Tx
coinbase = record {
  inputs =
      record {
        txid = replicate 32 0;
        vout = 0xffff_ffff;
        scriptsig = 0x51 ∷ 0x51 ∷ [];
        sequence = 0;
      }
      ∷ [];
  outputs = record { amount = 300; scriptpubkey = 0x51 ∷ [] } ∷ [];
  witness = [];
  locktime = 0;
  version = 1;
}

abbrev coinbase_id : Bytes
coinbase_id = (1 ∷ 0 ∷ 0 ∷ 0 ∷ 1 ∷ []) ++ replicate 27 0

abbrev small_block : Block
small_block = record {
  version = 1;
  prev_block = replicate 32 0;
  timestamp = 7;
  bits = 0x1d ∷ 0x00 ∷ 0xff ∷ 0xff ∷ [];
  nonce = 3;
  txs = coinbase ∷ [];
  merkle_tree = record { levels = []; merkle_root = coinbase_id };
  weight = 572;
}

small_block_made : Body.new 9 short_hash 1 [] 7 [] 3 (coinbase ∷ []) ≡ ok small_block
unfolding Body.new Body.txids Body.calculate_block_weight merkle_tree create_levels tree_height
    ceil_log2 Transaction.txid Transaction.get_txid_preimage Transaction.wu Transaction.is_segwit
    Transaction.to_bytes Transaction.segwit_part Transaction.get_input_bytes
    Transaction.get_output_bytes Transaction.get_witness_bytes TxIn.to_bytes TxOut.to_bytes
    serialize_data write_compact_size int_to_le
small_block_made = refl

abbrev pub coinbase_bytes : Bytes
coinbase_bytes =
    (1 ∷ 0 ∷ 0 ∷ 0 ∷ 1 ∷ [])
    ++ (replicate 32 0
        ++ (0xff ∷ 0xff ∷ 0xff ∷ 0xff ∷ 2 ∷ 0x51 ∷ 0x51 ∷ 0 ∷ 0 ∷ 0 ∷ 0 ∷ 1 ∷ 0x2c ∷ 1 ∷ 0 ∷ 0 ∷ 0
            ∷ 0 ∷ 0 ∷ 0 ∷ 1 ∷ 0x51 ∷ 0 ∷ 0 ∷ 0 ∷ 0 ∷ []))

abbrev small_block_bytes : Bytes
small_block_bytes =
    (1 ∷ 0 ∷ 0 ∷ 0 ∷ [])
    ++ (replicate 32 0
        ++ (coinbase_id
            ++ ((7 ∷ 0 ∷ 0 ∷ 0 ∷ 0xff ∷ 0xff ∷ 0x00 ∷ 0x1d ∷ 3 ∷ 0 ∷ 0 ∷ 0 ∷ 1 ∷ [])
                ++ coinbase_bytes)))

small_block_written : Body.to_bytes 9 short_hash small_block ≡ ok small_block_bytes
unfolding Body.to_bytes Body.get_header Header.new Header.to_bytes Transaction.is_segwit
    Transaction.to_bytes Transaction.segwit_part Transaction.get_input_bytes
    Transaction.get_output_bytes Transaction.get_witness_bytes TxIn.to_bytes TxOut.to_bytes
    serialize_data write_compact_size int_to_le
small_block_written = refl

block_from_bytes-to_bytes_example :
    Reader.from_bytes 11 short_hash (small_block_bytes ++ (9 ∷ [])) ≡ ok (small_block, 9 ∷ [])
unfolding Transaction.is_segwit
block_from_bytes-to_bytes_example =
    block_from_bytes-to_bytes short_hash 9 9 11 1 [] 7 [] 3 (coinbase ∷ []) small_block
      small_block_bytes (9 ∷ []) short_hash-size (ground arith) small_block_made refl refl
      (((refl, tt), ground arith, ground arith), tt) small_block_written

target_to_bits-bits_to_target_example :
    (target : Bytes) × (bits_to_target (0x1d ∷ three 0x00 0xff 0xff) ≡ ok target)
    × (length target ≡ 32)
    × (target_to_bits target ≡ ok (0x1d ∷ three 0x00 0xff 0xff))
target_to_bits-bits_to_target_example = target_to_bits-bits_to_target 0x1d 0x00 0xff 0xff (
  omega arith,
  omega arith,
  (omega arith, (omega arith, (omega arith, tt))),
  omega arith,
  inr (omega arith),
)

retarget_bounds_example :
    (target : ℕ) × (calculate_retarget (replicate 32 1) 5 9 ≡ ok target)
    × (target ≤ 0xffff * 2 ^ 208)
    × (target ≤ 4 * from_be (replicate 32 1))
    × (min (from_be (replicate 32 1) / 4) (0xffff * 2 ^ 208) ≤ target)
retarget_bounds_example = retarget_bounds (replicate 32 1) 5 9

scheduled_supply_example :
    (total (λ height. calc_subsidy (pos height)) 3 ≤ 2_099_999_997_690_000)
    × (halving_interval * 64 ≤ 3
        → total (λ height. calc_subsidy (pos height)) 3 ≡ 2_099_999_997_690_000)
scheduled_supply_example = scheduled_supply 3

claimed_supply_example :
    (block_subsidy 3 ≡ calc_subsidy (pos 2))
    × (total block_subsidy 3 ≤ 2_100_004_997_690_000)
    × (halving_interval * 64 ≤ 2 → total block_subsidy 3 ≡ 2_100_004_997_690_000)
claimed_supply_example = claimed_supply 2

-- A block whose second transaction spends the only output of the table.
abbrev coin : Utxo
coin = record {
  outpoint = replicate 36 5;
  amount = 400;
  scriptpubkey = 0x51 ∷ [];
  block_height = 0;
  is_coinbase = false;
}

abbrev spend : Tx
spend = record {
  inputs = record { txid = replicate 32 5; vout = 0x0505_0505; scriptsig = []; sequence = 0 } ∷ [];
  outputs = record { amount = 300; scriptpubkey = 0x52 ∷ [] } ∷ [];
  witness = [];
  locktime = 0;
  version = 2;
}

abbrev spending_block : Block
spending_block = record small_block { txs = coinbase ∷ spend ∷ [] }

abbrev coinbase_out : Bytes
coinbase_out = coinbase_id ++ replicate 4 0

abbrev spend_out : Bytes
spend_out = (2 ∷ 0 ∷ 0 ∷ 0 ∷ 1 ∷ []) ++ (replicate 27 5 ++ replicate 4 0)

abbrev undo : BlockUndo
undo = record { spent_utxos = coin ∷ []; created_outpoints = coinbase_out ∷ spend_out ∷ [] }

abbrev new_coins : List Utxo
new_coins =
    record {
      outpoint = coinbase_out;
      amount = 300;
      scriptpubkey = 0x51 ∷ [];
      block_height = 1;
      is_coinbase = true;
    }
    ∷ record {
      outpoint = spend_out;
      amount = 300;
      scriptpubkey = 0x52 ∷ [];
      block_height = 1;
      is_coinbase = false;
    }
    ∷ []

abbrev after : UtxoTable
after =
    record {
      outpoint = spend_out;
      amount = 300;
      scriptpubkey = 0x52 ∷ [];
      block_height = 1;
      is_coinbase = false;
    }
    ∷ record {
      outpoint = coinbase_out;
      amount = 300;
      scriptpubkey = 0x51 ∷ [];
      block_height = 1;
      is_coinbase = true;
    }
    ∷ []

spending_block-Connects :
    Connects 9 short_hash regtest_chain_params spending_block 1 (coin ∷ []) after undo
unfolding validate_bip30 build_block_undo block_utxo_delta apply_utxo_delta is_excepted
    is_bip30_exception regtest_chain_params created_outpoints block_utxos output_outpoints
    output_utxos spent_outpoints capture_spent capture_one utxo_delta none_unspent get_utxo
    delete_row delete_rows insert_row insert_rows TxIn.outpoint Transaction.is_coinbase
    Transaction.txid Transaction.get_txid_preimage Body.block_id Header.block_id Body.get_header
    Header.new Header.to_bytes Transaction.is_segwit Transaction.to_bytes Transaction.segwit_part
    Transaction.get_input_bytes Transaction.get_output_bytes Transaction.get_witness_bytes
    TxIn.to_bytes TxOut.to_bytes serialize_data write_compact_size int_to_le
spending_block-Connects = record {
  checked = refl;
  recorded = refl;
  spent = replicate 36 5 ∷ [];
  created = new_coins;
  delta = refl;
  applied = refl;
}

disconnect-Connected_example :
    (t : UtxoTable) × (disconnect_blocks (undo ∷ []) after ≡ ok t) × SameView t (coin ∷ [])
disconnect-Connected_example =
    disconnect-Connected 9 short_hash regtest_chain_params (coin ∷ []) after after (undo ∷ [])
      (Connected.next Connected.start spending_block-Connects) (λ o. refl)
