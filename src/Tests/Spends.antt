-- ===== src/Tests/Spends.antt =====
-- tx/validation.py and mempool/orphan_pool.py at a concrete transaction.
use bitclone.Base.{ℕ, ◌≡◌, ◌≤◌, refl, ok, true, [], ◌∷◌, ◌++◌, none, some, replicate, arith}
use bitclone.Base.Bytes.{Bytes, int_to_le}
use bitclone.ByteStream.Writer.{write_compact_size, serialize_data}
use bitclone.Tx.TxIn
use bitclone.Tx.TxIn.{TxIn}
use bitclone.Tx.TxOut
use bitclone.Tx.TxOut.{TxOut}
use bitclone.Tx.Utxo.{Utxo}
use bitclone.Tx.Transaction
use bitclone.Tx.Transaction.{
  Tx, wu, segwit_part, get_input_bytes, get_output_bytes, get_witness_bytes, get_txid_preimage,
}
use bitclone.Tx.Loaded.{
  LoadedTx, load, check_outpoints, input_total, output_total, sum_utxos, sum_outputs, fee,
}
use bitclone.Tx.Validation.{
  TxValidationContext, validate_loaded_tx, max_money, max_tx_weight, validate_tx_structure,
  outputs_within, utxos_within, weight_within, check_spend, check_inputs, mark_seen, input_allowed,
  is_mature, check_scripts, validate_absolute_locktime, validate_relative_locktime, all_final,
}
use bitclone.Tx.Validation.Sound.{Checked}
use bitclone.Tx.Validation.Accepted.{accepted_tx_is_sound}
use bitclone.Mempool.OrphanPool.{OrphanTx, OrphanPool, add, remove, pop_dependents, evict_expired}
use bitclone.Mempool.OrphanPool.Bounded.{IsBounded, removals-IsBounded}
use bitclone.Mempool.OrphanPool.Add.{Added, add_returns}

abbrev outpoint : Bytes
outpoint = replicate 32 5 ++ (1 ∷ 0 ∷ 0 ∷ 0 ∷ [])

abbrev payment : Tx
payment = record {
  inputs = record { txid = replicate 32 5; vout = 1; scriptsig = []; sequence = 0xffff_ffff } ∷ [];
  outputs = record { amount = 300; scriptpubkey = 0x51 ∷ [] } ∷ [];
  witness = [];
  locktime = 0;
  version = 2;
}

abbrev coin : Utxo
coin = record {
  outpoint = outpoint;
  amount = 400;
  scriptpubkey = 0x51 ∷ [];
  block_height = 10;
  is_coinbase = true;
}

abbrev loaded : LoadedTx
loaded = record { tx = payment; utxos = coin ∷ [] }

abbrev context : TxValidationContext
context = record {
  next_height = some 200;
  block_timestamp = none;
  get_block_at_height = none;
  coinbase_maturity = some 100;
  check_locktime = true;
  check_relative_locktime = true;
  validate_scripts = true;
  script_validator = λ _. ok true;
  current_time = 0;
}

payment_loads : load payment (coin ∷ []) ≡ ok loaded
unfolding load check_outpoints TxIn.outpoint int_to_le
payment_loads = refl

payment_accepted : validate_loaded_tx loaded context (some []) ≡ ok (true, some (outpoint ∷ []))
unfolding validate_loaded_tx validate_tx_structure outputs_within utxos_within weight_within wu
    check_spend check_inputs mark_seen input_allowed is_mature check_scripts
    validate_absolute_locktime validate_relative_locktime all_final fee input_total output_total
    sum_utxos sum_outputs Transaction.is_coinbase TxIn.outpoint TxIn.to_bytes TxOut.to_bytes
    write_compact_size serialize_data int_to_le Transaction.to_bytes Transaction.is_segwit
    segwit_part get_input_bytes get_output_bytes get_witness_bytes
payment_accepted = refl

accepted_tx_is_sound_example :
    (1 ≤ 1)
    × (output_total loaded ≤ max_money)
    × (output_total loaded ≤ input_total loaded)
    × ((w : ℕ) × (wu payment ≡ ok w) × (w ≤ max_tx_weight))
    × Checked context [] (some []) payment.inputs (coin ∷ [])
accepted_tx_is_sound_example =
    accepted_tx_is_sound payment (coin ∷ []) loaded context (some []) (some (outpoint ∷ []))
      payment_loads payment_accepted

abbrev orphan : OrphanTx
orphan = record { tx = payment; vbytes = 61; missing_parents = (3 ∷ []) ∷ []; arrival_time = 10 }

abbrev pool : OrphanPool
pool = record {
  max_count = 1;
  max_vbytes = 1000;
  max_time = 1200;
  total_vbytes = 61;
  entries = ((1 ∷ []), orphan) ∷ [];
  by_parent = ((3 ∷ []), (1 ∷ []) ∷ []) ∷ [];
}

removals-IsBounded_example :
    IsBounded (remove (1 ∷ []) pool).1
    × IsBounded (pop_dependents (3 ∷ []) pool).1
    × IsBounded (evict_expired 5000 pool).1
removals-IsBounded_example =
    removals-IsBounded (1 ∷ []) (3 ∷ []) 5000 pool (refl, omega arith, omega arith)

abbrev digest : Bytes → Bytes
digest b = 2 ∷ []

payment_txid : Transaction.txid digest payment ≡ ok (2 ∷ [])
unfolding Transaction.txid get_txid_preimage TxIn.to_bytes TxOut.to_bytes write_compact_size
    serialize_data int_to_le Transaction.to_bytes Transaction.is_segwit segwit_part get_input_bytes
    get_output_bytes get_witness_bytes
payment_txid = refl

payment_vbytes : Transaction.vbytes payment ≡ ok 61
unfolding Transaction.vbytes wu TxIn.to_bytes TxOut.to_bytes write_compact_size serialize_data
    int_to_le Transaction.to_bytes Transaction.is_segwit segwit_part get_input_bytes
    get_output_bytes get_witness_bytes
payment_vbytes = refl

-- The pool holds one transaction: the older one goes.
add_returns_example : Added (2 ∷ []) pool (add digest 20 payment ((4 ∷ []) ∷ []) pool)
add_returns_example =
    add_returns digest 20 payment ((4 ∷ []) ∷ []) pool (2 ∷ []) 61 (refl, omega arith, omega arith)
      payment_txid payment_vbytes
