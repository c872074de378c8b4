-- ===== src/Tx/Validation.antt =====
-- tx/validation.py: the checks of a transaction whose spent outputs are loaded. An amount is natural,
-- so that the tests for a negative one have no case here. The log lines, some of which compute the txid
-- of what is refused, are left out.
pub mod Sound
pub mod Accepted
use bitclone.Base.{
  ℕ, ◌+◌, ◌*◌, Result, Error, ok, err, ◌>>=◌, Bool, true, false, not, ◌&&◌, ◌||◌, List, [], ◌∷◌,
  Option, none, some, length, ltb, leb, ◌==◌, if◌then◌else◌, bit_and,
}
use bitclone.Base.Bytes.{Bytes, bytes_eq}
use bitclone.Base.Dict.{is_member, add_member}
use bitclone.Tx.TxIn
use bitclone.Tx.TxIn.{TxIn}
use bitclone.Tx.TxOut.{TxOut}
use bitclone.Tx.Utxo.{Utxo}
use bitclone.Tx.Transaction.{Tx, is_segwit, is_coinbase, wu}
use bitclone.Tx.Loaded.{LoadedTx, output_total, fee}

abbrev pub max_money : ℕ
max_money = 21_000_000 * 100_000_000

abbrev pub max_tx_weight : ℕ
max_tx_weight = 4_000_000

-- `get_block_at_height` is asked for the block's timestamp only. `script_validator` is the one given,
-- or `validate_tx_scripts`.
pub record TxValidationContext : Type 0 where
  pub next_height : Option ℕ
  pub block_timestamp : Option ℕ
  pub get_block_at_height : Option (ℕ → Option ℕ)
  pub coinbase_maturity : Option ℕ
  pub check_locktime : Bool
  pub check_relative_locktime : Bool
  pub validate_scripts : Bool
  pub script_validator : LoadedTx → Result Bool
  pub current_time : ℕ

unfoldable pub outputs_within : List TxOut → Bool
outputs_within [] = true
outputs_within (o ∷ os) = leb o.amount max_money && outputs_within os

unfoldable pub utxos_within : List Utxo → Bool
utxos_within [] = true
utxos_within (u ∷ us) = leb u.amount max_money && utxos_within us

-- An exception of the property `wu` is a refusal.
unfoldable pub weight_within : Tx → Bool
weight_within tx = elim (wu tx) [ ok tx_weight ↦ leb tx_weight max_tx_weight | err e ↦ false ]

unfoldable pub validate_tx_structure : LoadedTx → Bool
validate_tx_structure loaded_tx =
    let tx = loaded_tx.tx in
    if length tx.inputs == 0
    then false
    else if length tx.outputs == 0
    then false
    else if not (outputs_within tx.outputs)
    then false
    else if ltb max_money (output_total loaded_tx)
    then false
    else if not (utxos_within loaded_tx.utxos)
    then false
    else if is_segwit tx && not (length tx.witness == length tx.inputs)
    then false
    else weight_within tx

unfoldable pub all_final : List TxIn → Bool
all_final [] = true
all_final (i ∷ is) = (i.sequence == 0xffff_ffff) && all_final is

unfoldable pub validate_absolute_locktime : LoadedTx → TxValidationContext → Bool
validate_absolute_locktime loaded_tx ctx =
    let tx = loaded_tx.tx in
    if (tx.locktime == 0) || all_final tx.inputs
    then true
    else if ltb tx.locktime 500_000_000
    then elim ctx.next_height [ none ↦ true | some height ↦ ltb tx.locktime height ]
    else leb tx.locktime ctx.current_time

-- A lock counted in units of 512 seconds. `a - b < c` on integers is `a < c + b`.
unfoldable pub relative_time_met : ℕ → Utxo → TxValidationContext → Bool
relative_time_met sequence utxo ctx = elim ctx.block_timestamp [
  | none ↦ true
  | some timestamp ↦ elim ctx.get_block_at_height [
    | none ↦ true
    | some get_block ↦ elim (get_block utxo.block_height) [
      | none ↦ true
      | some mined ↦ not (ltb timestamp (bit_and sequence 0xffff * 512 + mined))
    ]
  ]
]

unfoldable pub relative_height_met : ℕ → Utxo → TxValidationContext → Bool
relative_height_met sequence utxo ctx = elim ctx.next_height [
  | none ↦ true
  | some height ↦ not (ltb height (bit_and sequence 0xffff + utxo.block_height))
]

unfoldable pub validate_relative_locktime : ℕ → Utxo → TxValidationContext → Bool
validate_relative_locktime sequence utxo ctx =
    if not (bit_and sequence 0x8000_0000 == 0)
    then true
    else if not (bit_and sequence 0x40_0000 == 0)
    then relative_time_met sequence utxo ctx
    else relative_height_met sequence utxo ctx

-- The test of the loop for an output of a coinbase.
unfoldable pub is_mature : Utxo → TxValidationContext → Bool
is_mature utxo ctx = elim ctx.coinbase_maturity [
  | none ↦ true
  | some maturity ↦ elim ctx.next_height [
    | none ↦ true
    | some height ↦ not (utxo.is_coinbase && ltb height (maturity + utxo.block_height))
  ]
]

-- The verdict, and `ctx.seen_outpoints` as the call leaves it. What the set holds after an
-- exception is not kept.
abbrev pub Verdict : Type 0
Verdict = Result (Bool × Option (List Bytes))

-- `seen_outpoints`: the outpoint was there, or it is added.
unfoldable pub mark_seen : Bytes → Option (List Bytes) → Option (Option (List Bytes))
mark_seen outpoint none = some none
mark_seen outpoint (some seen) =
    if is_member bytes_eq outpoint seen
    then none
    else some (some (add_member bytes_eq outpoint seen))

-- The two tests that end a round.
unfoldable pub input_allowed : TxValidationContext → TxIn → Utxo → Bool
input_allowed ctx txin utxo =
    is_mature utxo ctx
    && (not ctx.check_relative_locktime || validate_relative_locktime txin.sequence utxo ctx)

-- The loop over the inputs. `utxo_for_input` past the last output raises IndexError.
unfoldable pub check_inputs :
    TxValidationContext → List Bytes → Option (List Bytes) → List TxIn → List Utxo → Verdict
check_inputs ctx local_seen seen [] us = ok (true, seen)
check_inputs ctx local_seen seen (i ∷ is) [] = err Error.index_error
check_inputs ctx local_seen seen (i ∷ is) (u ∷ us) = do
  outpoint ← TxIn.outpoint i
  elim (is_member bytes_eq outpoint local_seen) [
    | true ↦ ok (false, seen)
    | false ↦ elim (mark_seen outpoint seen) [
      | none ↦ ok (false, seen)
      | some seen' ↦ elim (input_allowed ctx i u) [
        | true ↦ check_inputs ctx (outpoint ∷ local_seen) seen' is us
        | false ↦ ok (false, seen')
      ]
    ]
  ]

-- The script checks, which come last.
unfoldable pub check_scripts : TxValidationContext → LoadedTx → Bool × Option (List Bytes) → Verdict
check_scripts ctx loaded_tx (false, seen) = ok (false, seen)
check_scripts ctx loaded_tx (true, seen) =
    if ctx.validate_scripts
    then (do valid ← ctx.script_validator loaded_tx; ok (valid, seen))
    else ok (true, seen)

-- The guards before the loop, behind the one of the structure.
unfoldable pub check_spend : LoadedTx → TxValidationContext → Result Bool
check_spend loaded_tx ctx = do
  coinbase ← is_coinbase loaded_tx.tx
  if coinbase then ok false else elim (fee loaded_tx) [
    | err e ↦ ok false
    | ok _ ↦ ok (not ctx.check_locktime || validate_absolute_locktime loaded_tx ctx)
  ]

unfoldable pub validate_loaded_tx : LoadedTx → TxValidationContext → Option (List Bytes) → Verdict
validate_loaded_tx loaded_tx ctx seen =
    if validate_tx_structure loaded_tx
    then (do
      spendable ← check_spend loaded_tx ctx
      if spendable
          then (do
            checked ← check_inputs ctx [] seen loaded_tx.tx.inputs loaded_tx.utxos
            check_scripts ctx loaded_tx checked)
          else ok (false, seen))
    else ok (false, seen)
