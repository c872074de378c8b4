-- ===== src/Tx/RoundTrip.antt =====
-- Every part of a transaction is read back as it was written.
use bitclone.Base.{
  ◌++◌, ok, ◌≡◌, refl, Bool, true, false, not, List, [], ◌∷◌, length, All, ◌==◌, if◌then◌else◌,
}
use mathlib.Core.Path.{ap, subst}
use bitclone.Base.Bytes.{Bytes}
use bitclone.ByteStream.{deserialize_data}
use bitclone.ByteStream.Writer.{serialize_data}
use bitclone.ByteStream.RoundTrip.{
  RoundTrips, seq-RoundTrips, last-RoundTrips, raw-RoundTrips, int-RoundTrips,
  compact_size-RoundTrips, data-RoundTrips, many-RoundTrips,
}
use bitclone.Formats.TxSize
use bitclone.Tx.TxIn
use bitclone.Tx.TxIn.{TxIn}
use bitclone.Tx.TxOut
use bitclone.Tx.TxOut.{TxOut}
use bitclone.Tx.Witness
use bitclone.Tx.Witness.{Witness}
use bitclone.Tx.Utxo
use bitclone.Tx.Utxo.{Utxo}

pub tx_in-RoundTrips :
    (i : TxIn) → length i.txid ≡ TxSize.txid → RoundTrips (TxIn.to_bytes i) TxIn.from_bytes i
unfolding TxIn.to_bytes TxIn.from_bytes
tx_in-RoundTrips i h = seq-RoundTrips _ _ _ _ i.txid _ (raw-RoundTrips 32 i.txid h) (
    seq-RoundTrips _ _ _ _ i.vout _ (int-RoundTrips 4 i.vout) (
      seq-RoundTrips _ _ _ _ (length i.scriptsig) _ (compact_size-RoundTrips _) (
        seq-RoundTrips _ _ _ _ i.scriptsig _ (raw-RoundTrips _ i.scriptsig refl)
          (last-RoundTrips _ _ _ i.sequence (int-RoundTrips 4 i.sequence)))))

pub tx_out-RoundTrips : (o : TxOut) → RoundTrips (TxOut.to_bytes o) TxOut.from_bytes o
unfolding TxOut.to_bytes TxOut.from_bytes
tx_out-RoundTrips o =
    seq-RoundTrips _ _ _ _ o.amount _ (int-RoundTrips 8 o.amount)
      (last-RoundTrips _ _ _ o.scriptpubkey (data-RoundTrips o.scriptpubkey))

pub witness-RoundTrips : (w : Witness) → RoundTrips (Witness.to_bytes w) Witness.from_bytes w
unfolding Witness.to_bytes Witness.from_bytes
witness-RoundTrips w = seq-RoundTrips _ _ _ _ (length w.items) _ (compact_size-RoundTrips _) (
    last-RoundTrips _ _ _ w.items
      (many-RoundTrips serialize_data deserialize_data w.items (All-RoundTrips w.items)))
  where
    All-RoundTrips :
        (xs : List Bytes) → All (λ x. RoundTrips (serialize_data x) deserialize_data x) xs
    All-RoundTrips = elim [ [] ↦ tt | x ∷ (xs → ih) ↦ (data-RoundTrips x, ih) ]

flag-eq : (b : Bool) → not ((if b then 1 else 0) == 0) ≡ b
flag-eq true = refl
flag-eq false = refl

pub utxo-RoundTrips :
    (u : Utxo)
    → length u.outpoint ≡ TxSize.outpoint
    → RoundTrips (Utxo.to_bytes u) Utxo.from_bytes u
unfolding Utxo.to_bytes Utxo.from_bytes
utxo-RoundTrips u h =
    subst (RoundTrips _ _) (ap (λ b. record u { is_coinbase = b }) (flag-eq u.is_coinbase)) (
      seq-RoundTrips _ _ _ _ u.outpoint _ (raw-RoundTrips 36 u.outpoint h) (
        seq-RoundTrips _ _ _ _ u.amount _ (int-RoundTrips 8 u.amount) (
          seq-RoundTrips _ _ _ _ (length u.scriptpubkey) _ (compact_size-RoundTrips _) (
            seq-RoundTrips _ _ _ _ u.scriptpubkey _ (raw-RoundTrips _ u.scriptpubkey refl) (
              seq-RoundTrips _ _ _ _ u.block_height _ (int-RoundTrips 4 u.block_height)
                (last-RoundTrips _ _ _ (if u.is_coinbase then 1 else 0) (int-RoundTrips 1 _)))))))

-- An output with a 36-byte outpoint that `UTXO.to_bytes` wrote is read back unchanged, its coinbase
-- flag included, whatever follows it.
pub utxo_from_bytes-to_bytes :
    (u : Utxo) (bs rest : Bytes)
    → length u.outpoint ≡ TxSize.outpoint
    → Utxo.to_bytes u ≡ ok bs
    → Utxo.from_bytes (bs ++ rest) ≡ ok (u, rest)
utxo_from_bytes-to_bytes u bs rest h e = (utxo-RoundTrips u h).reads bs e rest
