-- ===== src/Tx/Weight.antt =====
-- The weight of a transaction, and what its two identifiers are hashes of.
use bitclone.Base.{
  ℕ, ◌+◌, ◌*◌, ◌≡◌, ap, sym, ◌∙◌, ◌↔◌, inl, inr, Result, ok, true, false, List, [], ◌∷◌, ◌++◌,
  length, length-append, map, ok_inj, Bool-cases, arith,
}
use bitclone.Base.Bytes.{Bytes, int_to_le, int_to_le-ok, length-to_le}
use bitclone.ByteStream.Writer.{
  ◌<+>◌, <+>-eq-ok, join_all, total_length, total_length-join_all, write_compact_size,
}
use bitclone.Formats.TxSize
use bitclone.Tx.TxIn
use bitclone.Tx.TxOut
use bitclone.Tx.Witness
use bitclone.Tx.Transaction.{
  Tx, is_segwit, to_bytes, get_txid_preimage, get_wtxid_preimage, get_input_bytes, get_output_bytes,
  get_witness_bytes, segwit_part, marker_flag, wu,
}

-- The bytes of a counted list, measured as `wu` measures them.
counted_length :
    (n : ℕ) (ws : List (Result Bytes)) {bs : Bytes}
    → (write_compact_size n <+> join_all ws) ≡ ok bs
    → (cs : Bytes) × (k : ℕ) × (write_compact_size n ≡ ok cs)
      × (total_length ws ≡ ok k)
      × (length bs ≡ length cs + k)
counted_length n ws h =
    let (xs, ys, ex, ey, e) = <+>-eq-ok (write_compact_size n) (join_all ws) h in
    (xs, length ys, ex, total_length-join_all ws ey, ap length e ∙ length-append xs ys)

int_length : (k n : ℕ) {bs : Bytes} → int_to_le k n ≡ ok bs → length bs ≡ k
int_length k n h = ap length (int_to_le-ok k n h).1 ∙ length-to_le k n

-- The parts of a SegWit transaction that was serialized.
record Parts (tx : Tx) : Type 0 where
  version_bytes : Bytes
  input_bytes : Bytes
  output_bytes : Bytes
  witness_bytes : Bytes
  locktime_bytes : Bytes
  has_version : int_to_le TxSize.version tx.version ≡ ok version_bytes
  has_inputs : get_input_bytes tx ≡ ok input_bytes
  has_outputs : get_output_bytes tx ≡ ok output_bytes
  has_witness : get_witness_bytes tx ≡ ok witness_bytes
  has_locktime : int_to_le TxSize.locktime tx.locktime ≡ ok locktime_bytes

segwit_part_lem : (tx : Tx) (w : Result Bytes) → is_segwit tx ≡ true → segwit_part tx w ≡ w
unfolding segwit_part
segwit_part_lem tx w h = rw h

parts : (tx : Tx) (full : Bytes) → is_segwit tx ≡ true → to_bytes tx ≡ ok full → Parts tx
unfolding to_bytes
parts tx full segwit h =
    let (v, r1, ev, e1, q1) = <+>-eq-ok _ _ h in
    let (m, r2, em, e2, q2) = <+>-eq-ok _ _ e1 in
    let (i, r3, ei, e3, q3) = <+>-eq-ok _ _ e2 in
    let (o, r4, eo, e4, q4) = <+>-eq-ok _ _ e3 in
    let (w, l, ew, el, q5) = <+>-eq-ok _ _ e4 in
    record {
      version_bytes = v;
      input_bytes = i;
      output_bytes = o;
      witness_bytes = w;
      locktime_bytes = l;
      has_version = ev;
      has_inputs = ei;
      has_outputs = eo;
      has_witness = sym (segwit_part_lem tx (get_witness_bytes tx) segwit) ∙ ew;
      has_locktime = el;
    }

module _ (tx : Tx) (segwit : is_segwit tx ≡ true) (p : Parts tx) where
  full-eq :
      to_bytes tx
      ≡ ok (
          p.version_bytes
          ++ (marker_flag
              ++ (p.input_bytes ++ (p.output_bytes ++ (p.witness_bytes ++ p.locktime_bytes)))))
  unfolding to_bytes segwit_part
  full-eq = rw (segwit, p.has_version, p.has_inputs, p.has_outputs, p.has_witness, p.has_locktime)

  stripped-eq :
      get_txid_preimage tx
      ≡ ok (p.version_bytes ++ (p.input_bytes ++ (p.output_bytes ++ p.locktime_bytes)))
  unfolding get_txid_preimage
  stripped-eq = rw (segwit, p.has_version, p.has_inputs, p.has_outputs, p.has_locktime)

  preimage-eq :
      get_wtxid_preimage tx
      ≡ ok (
          p.version_bytes
          ++ (marker_flag
              ++ (p.input_bytes ++ (p.output_bytes ++ (p.locktime_bytes ++ p.witness_bytes)))))
  unfolding get_wtxid_preimage
  preimage-eq =
      rw (segwit, p.has_version, p.has_inputs, p.has_outputs, p.has_witness, p.has_locktime)

  wu-eq :
      wu tx
      ≡ ok (4 * (8 + length p.input_bytes + length p.output_bytes) + (length p.witness_bytes + 2))
  unfolding wu get_input_bytes get_output_bytes get_witness_bytes
  wu-eq =
      let (ci, ki, eci, eki, qi) =
        counted_length (length tx.inputs) (map TxIn.to_bytes tx.inputs) p.has_inputs in
      let (co, ko, eco, eko, qo) =
        counted_length (length tx.outputs) (map TxOut.to_bytes tx.outputs) p.has_outputs in
      rw
        (
          segwit,
          eki,
          eko,
          total_length-join_all (map Witness.to_bytes tx.witness) p.has_witness,
          eci,
          eco,
        )
        (ap ok (omega arith))

legacy_weight :
    (tx : Tx) (stripped full : Bytes)
    → is_segwit tx ≡ false
    → get_txid_preimage tx ≡ ok stripped
    → to_bytes tx ≡ ok full
    → wu tx ≡ ok (3 * length stripped + length full)
unfolding wu get_txid_preimage
legacy_weight tx stripped full legacy hs hf =
    rw (legacy, hf)
      (ap ok (omega (arith, ap length (ok_inj full stripped (sym hf ∙ (sym (rw legacy) ∙ hs))))))

segwit_weight :
    (tx : Tx) (stripped full : Bytes)
    → is_segwit tx ≡ true
    → get_txid_preimage tx ≡ ok stripped
    → to_bytes tx ≡ ok full
    → wu tx ≡ ok (3 * length stripped + length full)
segwit_weight tx stripped full segwit hs hf =
    let p = parts tx full segwit hf in
    wu-eq tx segwit p
    ∙ ap ok (
        omega (
          arith,
          length_full p,
          length_stripped p,
          int_length 4 tx.version p.has_version,
          int_length 4 tx.locktime p.has_locktime,
        ))
  where
    length_full :
        (p : Parts tx)
        → length full
          ≡ length p.version_bytes
            + (2
                + (length p.input_bytes
                    + (length p.output_bytes + (length p.witness_bytes + length p.locktime_bytes))))
    length_full p =
        ap length (ok_inj full _ (sym hf ∙ full-eq tx segwit p)) ∙ simp length-append (omega arith)

    length_stripped :
        (p : Parts tx)
        → length stripped
          ≡ length p.version_bytes
            + (length p.input_bytes + (length p.output_bytes + length p.locktime_bytes))
    length_stripped p =
        ap length (ok_inj stripped _ (sym hs ∙ stripped-eq tx segwit p)) ∙ simp length-append

-- BIP 141: the weight is three times the size without marker, flag and witness (what the txid is
-- the hash of) plus the size of the whole, for legacy and SegWit transactions alike.
pub wu-eq-bip141 :
    (tx : Tx) (stripped full : Bytes)
    → get_txid_preimage tx ≡ ok stripped
    → to_bytes tx ≡ ok full
    → wu tx ≡ ok (3 * length stripped + length full)
wu-eq-bip141 tx stripped full hs hf = elim (Bool-cases (is_segwit tx)) [
  | inl h ↦ segwit_weight tx stripped full h hs hf
  | inr h ↦ legacy_weight tx stripped full h hs hf
]

append_cancel : (xs ys zs : Bytes) → xs ++ ys ≡ xs ++ zs → ys ≡ zs
append_cancel [] ys zs h = h
append_cancel (x ∷ xs) ys zs h = append_cancel xs ys zs (cc)

-- What `wtxid` hashes, for a SegWit transaction that serializes: the same bytes as the wire form
-- of BIP 144 exactly where the witness and the lock time can change places.
pub wtxid_preimage_order :
    (tx : Tx) (full ws lt : Bytes)
    → is_segwit tx ≡ true
    → to_bytes tx ≡ ok full
    → get_witness_bytes tx ≡ ok ws
    → int_to_le TxSize.locktime tx.locktime ≡ ok lt
    → (get_wtxid_preimage tx ≡ ok full) ↔ (ws ++ lt ≡ lt ++ ws)
wtxid_preimage_order tx full ws lt segwit hf hw hl =
    let p = parts tx full segwit hf in
    let ew = ok_inj p.witness_bytes ws (sym p.has_witness ∙ hw) in
    let el = ok_inj p.locktime_bytes lt (sym p.has_locktime ∙ hl) in
    (
      λ same.
          rw (← ew, ← el)
            (tails p (
              sym (
                ok_inj _ _
                  (sym (preimage-eq tx segwit p) ∙ (same ∙ (sym hf ∙ full-eq tx segwit p)))))),
      λ swap.
          preimage-eq tx segwit p
          ∙ (ap
                (λ t.
                  ok (p.version_bytes ++ (marker_flag ++ (p.input_bytes ++ (p.output_bytes ++ t)))))
                (rw (ew, el) (sym swap))
              ∙ (sym (full-eq tx segwit p) ∙ hf)),
    )
  where
    tails :
        (p : Parts tx)
        → p.version_bytes
            ++ (marker_flag
                ++ (p.input_bytes ++ (p.output_bytes ++ (p.witness_bytes ++ p.locktime_bytes))))
          ≡ p.version_bytes
            ++ (marker_flag
                ++ (p.input_bytes ++ (p.output_bytes ++ (p.locktime_bytes ++ p.witness_bytes))))
        → p.witness_bytes ++ p.locktime_bytes ≡ p.locktime_bytes ++ p.witness_bytes
    tails p e = append_cancel p.output_bytes _ _ (
        append_cancel p.input_bytes _ _
          (append_cancel marker_flag _ _ (append_cancel p.version_bytes _ _ e)))
