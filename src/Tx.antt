-- ===== src/Tx.antt =====
-- tx/tx.py: the parts of a transaction, the transaction, and its referenced outputs.
pub mod TxIn
pub mod TxOut
pub mod Witness
pub mod Utxo
pub mod Transaction
pub mod Reader
pub mod RoundTrip
pub mod RoundTripTx
pub mod Weight
pub mod Loaded
pub mod Validation
