-- ===== src/Tx/RoundTripTx.antt =====
-- A transaction is read back as it was written, in the legacy and in the SegWit form.
use mathlib.Core.Path.{ap, subst}
use bitclone.Base.{
  ◌<◌, ◌^◌, ℕ, err, Bool-cases, ◌≡◌, refl, ◌≢◌, inl, inr, Result, ok, Bool, true, false, List, [],
  ◌∷◌, ◌++◌, length, All, ltb, arith, >>=-eq-ok,
}
use bitclone.Base.Bytes.{
  Bytes, int_to_le, int_to_le-ok, to_le, from_le, from_le-to_le, length-to_le,
}
use bitclone.ByteStream.{◌>>=◌, read_stream}
use bitclone.ByteStream.Writer.{◌<+>◌, write_compact_size}
use bitclone.ByteStream.RoundTrip.{
  RoundTrips, seq-RoundTrips, last-RoundTrips, regroup-RoundTrips, read_stream-Reads,
  int-RoundTrips, compact_size-RoundTrips, many-RoundTrips,
}
use bitclone.Formats.TxSize
use bitclone.Tx.TxIn
use bitclone.Tx.TxIn.{TxIn}
use bitclone.Tx.TxOut
use bitclone.Tx.TxOut.{TxOut}
use bitclone.Tx.Witness
use bitclone.Tx.Witness.{Witness}
use bitclone.Tx.Transaction.{
  Tx, is_segwit, to_bytes, get_input_bytes, get_output_bytes, get_witness_bytes, segwit_part,
  marker_flag,
}
use bitclone.Tx.Reader.{from_bytes, read_body, read_marker, read_flag, read_witness}
use bitclone.Tx.RoundTrip.{tx_in-RoundTrips, tx_out-RoundTrips, witness-RoundTrips}

abbrev pub HasTxid : TxIn → Type 0
HasTxid i = length i.txid ≡ TxSize.txid

All-tx_in :
    (is : List TxIn) → All HasTxid is → All (λ i. RoundTrips (TxIn.to_bytes i) TxIn.from_bytes i) is
All-tx_in [] h = tt
All-tx_in (i ∷ is) h = (tx_in-RoundTrips i h.0, All-tx_in is h.1)

All-tx_out : (os : List TxOut) → All (λ o. RoundTrips (TxOut.to_bytes o) TxOut.from_bytes o) os
All-tx_out [] = tt
All-tx_out (o ∷ os) = (tx_out-RoundTrips o, All-tx_out os)

All-witness :
    (ws : List Witness) → All (λ w. RoundTrips (Witness.to_bytes w) Witness.from_bytes w) ws
All-witness [] = tt
All-witness (w ∷ ws) = (witness-RoundTrips w, All-witness ws)

-- Four parts that the reader takes apart with a function of the first value.
body-RoundTrips :
    (tx : Tx) (ws : Result Bytes) (segwit : Bool)
    → All HasTxid tx.inputs
    → RoundTrips ws (read_witness segwit (length tx.inputs)) tx.witness
    → RoundTrips
        (get_input_bytes tx
          <+> get_output_bytes tx
          <+> ws
          <+> int_to_le TxSize.locktime tx.locktime)
        (read_body tx.version segwit)
        tx
unfolding get_input_bytes get_output_bytes read_body
body-RoundTrips tx ws segwit h hw = regroup-RoundTrips _ _ _ _ _ (
    seq-RoundTrips _ _ _ _ (length tx.inputs) _ (compact_size-RoundTrips _) (
      seq-RoundTrips _ _ _ _ tx.inputs _
        (many-RoundTrips TxIn.to_bytes TxIn.from_bytes tx.inputs (All-tx_in tx.inputs h))
        (regroup-RoundTrips _ _ _ _ _ (
          seq-RoundTrips _ _ _ _ (length tx.outputs) _ (compact_size-RoundTrips _) (
            seq-RoundTrips _ _ _ _ tx.outputs _
              (many-RoundTrips TxOut.to_bytes TxOut.from_bytes tx.outputs (All-tx_out tx.outputs))
              (seq-RoundTrips _ _ _ _ tx.witness _ hw
                (last-RoundTrips _ _ _ tx.locktime (int-RoundTrips 4 tx.locktime))))))))

-- A CompactSize of a number other than zero does not begin with the SegWit marker.
abbrev NonzeroHead : Bytes → Type 0
NonzeroHead [] = ⊥
NonzeroHead (b ∷ bs) = b ≢ 0

compact_size-NonzeroHead :
    (n : ℕ) (bs : Bytes) → n ≢ 0 → write_compact_size n ≡ ok bs → NonzeroHead bs
unfolding write_compact_size int_to_le
compact_size-NonzeroHead n [] h e = ground arith
compact_size-NonzeroHead n (b ∷ bs) h e = ground arith

NonzeroHead-append : (xs ys : Bytes) → NonzeroHead xs → NonzeroHead (xs ++ ys)
NonzeroHead-append [] ys h = absurd h
NonzeroHead-append (x ∷ xs) ys h = h

read_marker_legacy : (raw bs : Bytes) → NonzeroHead bs → read_marker raw bs ≡ ok (false, bs)
unfolding read_marker
read_marker_legacy raw [] h = absurd h
read_marker_legacy raw (b ∷ bs) h = ground arith

read_marker_segwit : (raw bs : Bytes) → read_marker raw (marker_flag ++ bs) ≡ ok (true, bs)
unfolding read_marker read_flag
read_marker_segwit raw bs = refl

-- A written list of parts begins as its first part does.
<+>-NonzeroHead :
    (w w' : Result Bytes)
    → ((bs : Bytes) → w ≡ ok bs → NonzeroHead bs)
    → (bs : Bytes) → (w <+> w') ≡ ok bs
    → NonzeroHead bs
<+>-NonzeroHead w w' h bs e =
    let (xs, ex, e') = >>=-eq-ok w _ e in
    let (ys, ey, e'') = >>=-eq-ok w' _ e' in
    subst NonzeroHead (ok_inj _ _ e'') (NonzeroHead-append xs ys (h xs ex))
  where
    ok_inj : (cs ds : Bytes) → ◌≡◌ {A = Result Bytes} (ok cs) (ok ds) → cs ≡ ds
    ok_inj cs ds p = cc

version-RoundTrips :
    (v : ℕ) → RoundTrips (int_to_le TxSize.version v) (read_stream TxSize.version) (to_le 4 v)
version-RoundTrips v = record {
  reads = λ bs e rest.
      rw ((int_to_le-ok 4 v e).1) (read_stream-Reads 4 (to_le 4 v) (length-to_le 4 v) rest);
}

-- The version is followed by a marker, or by the body itself.
head-RoundTrips :
    (tx : Tx) (w : Result Bytes)
    → tx.version < 256 ^ 4
    → RoundTrips w (read_marker (to_le 4 tx.version) >>= read_body tx.version) tx
    → RoundTrips (int_to_le TxSize.version tx.version <+> w) from_bytes tx
unfolding from_bytes
head-RoundTrips tx w small k =
    seq-RoundTrips _ _ _ (λ raw. read_marker raw >>= read_body (from_le raw)) (to_le 4 tx.version)
      tx (version-RoundTrips tx.version) (rw (from_le-to_le 4 tx.version small) k)

-- The bytes behind the version and the marker.
abbrev body_bytes : Tx → Result Bytes → Result Bytes
body_bytes tx ws =
    get_input_bytes tx <+> get_output_bytes tx <+> ws <+> int_to_le TxSize.locktime tx.locktime

to_bytes_segwit :
    (tx : Tx)
    → is_segwit tx ≡ true
    → to_bytes tx ≡ (
        int_to_le TxSize.version tx.version
        <+> ok marker_flag
        <+> body_bytes tx (get_witness_bytes tx))
unfolding to_bytes segwit_part
to_bytes_segwit tx h = rw h

to_bytes_legacy :
    (tx : Tx)
    → is_segwit tx ≡ false
    → to_bytes tx ≡ (int_to_le TxSize.version tx.version <+> body_bytes tx (ok []))
unfolding to_bytes segwit_part
to_bytes_legacy tx h = rw h (ap (λ w. int_to_le TxSize.version tx.version <+> w) (ok_nil-<+> _))
  where
    ok_nil-<+> : (w : Result Bytes) → (ok [] <+> w) ≡ w
    ok_nil-<+> = elim [ ok xs ↦ refl | err x ↦ refl ]

segwit-RoundTrips :
    (tx : Tx)
    → tx.version < 256 ^ 4
    → is_segwit tx ≡ true
    → All HasTxid tx.inputs
    → length tx.witness ≡ length tx.inputs
    → RoundTrips (to_bytes tx) from_bytes tx
unfolding read_witness get_witness_bytes
segwit-RoundTrips tx small h ids same = rw (to_bytes_segwit tx h) (
    head-RoundTrips tx _ small (
      seq-RoundTrips (ok marker_flag) _ (read_marker (to_le 4 tx.version)) (read_body tx.version)
        true tx
        (record {
          reads = λ bs e rest. ground (arith, read_marker_segwit (to_le 4 tx.version) rest);
        })
        (body-RoundTrips tx (get_witness_bytes tx) true ids (
          rw (← same) (
            many-RoundTrips Witness.to_bytes Witness.from_bytes tx.witness
              (All-witness tx.witness))))))

version_first :
    (tx : Tx) (bs : Bytes)
    → to_bytes tx ≡ ok bs
    → (raw : Bytes) × (int_to_le TxSize.version tx.version ≡ ok raw)
unfolding to_bytes
version_first tx bs e = let (raw, er, _) = >>=-eq-ok _ _ e in (raw, er)

no_witness : (ws : List Witness) → ltb 0 (length ws) ≡ false → ws ≡ []
no_witness [] h = refl
no_witness (w ∷ ws) h = ground arith

-- Without a witness the reader finds no marker, since the number of inputs is not zero.
marker_free-RoundTrips :
    (tx : Tx) (raw : Bytes)
    → tx.witness ≡ []
    → All HasTxid tx.inputs
    → length tx.inputs ≢ 0
    → RoundTrips (body_bytes tx (ok [])) (read_marker raw >>= read_body tx.version) tx
unfolding get_input_bytes read_witness
marker_free-RoundTrips tx raw e ids some_input =
    let body =
      body-RoundTrips tx (ok []) false ids
        (rw e (many-RoundTrips {A = Witness} Witness.to_bytes Witness.from_bytes [] tt)) in
    record {
      reads = λ bs w rest. ground (
        arith,
        read_marker_legacy raw (bs ++ rest) (
            NonzeroHead-append bs rest (
              <+>-NonzeroHead _ _
                (<+>-NonzeroHead _ _ (λ cs c. compact_size-NonzeroHead _ cs some_input c)) bs w)),
        body.reads bs w rest,
      );
    }

legacy-RoundTrips :
    (tx : Tx)
    → tx.version < 256 ^ 4
    → is_segwit tx ≡ false
    → All HasTxid tx.inputs
    → length tx.inputs ≢ 0
    → RoundTrips (to_bytes tx) from_bytes tx
unfolding is_segwit
legacy-RoundTrips tx small h ids some_input = rw (to_bytes_legacy tx h) (
    head-RoundTrips tx _ small
      (marker_free-RoundTrips tx _ (no_witness tx.witness h) ids some_input))

-- A transaction with 32-byte txids, at least one input, and no witness or one for each input, is
-- read back by `Tx.from_bytes` from the bytes that `Tx.to_bytes` wrote, whatever follows them.
pub from_bytes-to_bytes :
    (tx : Tx) (bs rest : Bytes)
    → All HasTxid tx.inputs
    → length tx.inputs ≢ 0
    → (is_segwit tx ≡ true → length tx.witness ≡ length tx.inputs)
    → to_bytes tx ≡ ok bs
    → from_bytes (bs ++ rest) ≡ ok (tx, rest)
from_bytes-to_bytes tx bs rest ids some_input same e = elim (Bool-cases (is_segwit tx)) [
  | inl h ↦ (segwit-RoundTrips tx small h ids (same h)).reads bs e rest
  | inr h ↦ (legacy-RoundTrips tx small h ids some_input).reads bs e rest
]
  where
    small : tx.version < 256 ^ 4
    small = (int_to_le-ok 4 tx.version (version_first tx bs e).1).0
