-- ===== src/Tx/Validation/Accepted.antt =====
-- The guarantees of a transaction that was loaded and then accepted.
use bitclone.Base.{
  ℕ, ◌≤◌, ◌≡◌, ap, ◌∙◌, ok, >>=-eq-ok, Bool, true, false, List, [], Option, length, inl, inr,
  Bool-cases, arith, Result-cases,
}
use bitclone.Base.Bytes.{Bytes}
use bitclone.Tx.Utxo.{Utxo}
use bitclone.Tx.Transaction.{Tx, wu, is_coinbase}
use bitclone.Tx.Loaded.{LoadedTx, load, check_outpoints, input_total, output_total, fee}
use bitclone.Tx.Validation.{
  TxValidationContext, validate_tx_structure, weight_within, check_spend, check_inputs,
  check_scripts, validate_loaded_tx, max_money, max_tx_weight,
}
use bitclone.Tx.Validation.Sound.{Checked, check_inputs_lem}

load_lem :
    (tx : Tx) (utxos : List Utxo) (loaded_tx : LoadedTx)
    → load tx utxos ≡ ok loaded_tx
    → length loaded_tx.utxos ≡ length loaded_tx.tx.inputs
unfolding load
load_lem tx utxos loaded_tx h = ground (arith, h, Result-cases (check_outpoints tx.inputs utxos))

weight_within_lem :
    (tx : Tx) → weight_within tx ≡ true → (w : ℕ) × (wu tx ≡ ok w) × (w ≤ max_tx_weight)
unfolding weight_within
weight_within_lem tx h = elim (Result-cases (wu tx)) [
  | inl (w, e) ↦ (w, e, ground (arith, h, e))
  | inr (x, e) ↦ ground (arith, h, e)
]

structure_lem :
    (loaded_tx : LoadedTx)
    → validate_tx_structure loaded_tx ≡ true
    → (1 ≤ length loaded_tx.tx.inputs)
      × (output_total loaded_tx ≤ max_money)
      × (weight_within loaded_tx.tx ≡ true)
unfolding validate_tx_structure
structure_lem loaded_tx h = ground arith

spend_lem :
    (loaded_tx : LoadedTx) (ctx : TxValidationContext)
    → check_spend loaded_tx ctx ≡ ok true
    → output_total loaded_tx ≤ input_total loaded_tx
unfolding check_spend fee
spend_lem loaded_tx ctx h =
    let (coinbase, p, q) = >>=-eq-ok (is_coinbase loaded_tx.tx) _ h in ground (arith, q)

scripts_lem :
    (loaded_tx : LoadedTx) (ctx : TxValidationContext) (c : Bool × Option (List Bytes))
    (left : Option (List Bytes))
    → check_scripts ctx loaded_tx c ≡ ok (true, left)
    → c ≡ (true, left)
unfolding check_scripts
scripts_lem loaded_tx ctx (false, seen) left h = ground (arith, h)
scripts_lem loaded_tx ctx (true, seen) left h =
    ground (arith, h, Result-cases (ctx.script_validator loaded_tx))

accepted_parts :
    (loaded_tx : LoadedTx) (ctx : TxValidationContext) (seen left : Option (List Bytes))
    → validate_loaded_tx loaded_tx ctx seen ≡ ok (true, left)
    → (validate_tx_structure loaded_tx ≡ true)
      × (check_spend loaded_tx ctx ≡ ok true)
      × (check_inputs ctx [] seen loaded_tx.tx.inputs loaded_tx.utxos ≡ ok (true, left))
unfolding validate_loaded_tx
accepted_parts loaded_tx ctx seen left h = elim (Bool-cases (validate_tx_structure loaded_tx)) [
  | inr s ↦ ground (arith, h, s)
  | inl s ↦
      let (spendable, p, q) = >>=-eq-ok (check_spend loaded_tx ctx) _ (rw s at h) in
      elim (Bool-cases spendable) [
        | inr n ↦ ground (arith, q, n)
        | inl y ↦
            let (c, p', q') =
              >>=-eq-ok (check_inputs ctx [] seen loaded_tx.tx.inputs loaded_tx.utxos) _
                (rw y at q) in
            (s, p ∙ ap ok y, p' ∙ ap ok (scripts_lem loaded_tx ctx c left q'))
      ]
]

-- A transaction that `LoadedTx` took with its outputs and that `validate_loaded_tx` accepts has an input; its outputs
-- add up to no more than the money there is, nor than its inputs; its weight can be computed and is
-- within the limit; its outpoints are distinct and not among those that the block has spent; and no
-- coinbase among the spent outputs is younger than the maturity.
pub accepted_tx_is_sound :
    (tx : Tx) (utxos : List Utxo) (loaded_tx : LoadedTx) (ctx : TxValidationContext)
    (seen left : Option (List Bytes))
    → load tx utxos ≡ ok loaded_tx
    → validate_loaded_tx loaded_tx ctx seen ≡ ok (true, left)
    → (1 ≤ length loaded_tx.tx.inputs)
      × (output_total loaded_tx ≤ max_money)
      × (output_total loaded_tx ≤ input_total loaded_tx)
      × ((w : ℕ) × (wu loaded_tx.tx ≡ ok w) × (w ≤ max_tx_weight))
      × Checked ctx [] seen loaded_tx.tx.inputs loaded_tx.utxos
accepted_tx_is_sound tx utxos loaded_tx ctx seen left l h =
    let (structure, spend, checked) = accepted_parts loaded_tx ctx seen left h in
    let (inputs, outputs, weight) = structure_lem loaded_tx structure in
    (
      inputs,
      outputs,
      spend_lem loaded_tx ctx spend,
      weight_within_lem loaded_tx.tx weight,
      check_inputs_lem ctx [] seen loaded_tx.tx.inputs loaded_tx.utxos left
          (load_lem tx utxos loaded_tx l) checked,
    )
