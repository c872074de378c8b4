-- ===== src/Network/Payloads/RoundTrip.antt =====
-- Payloads are read back as they were written.
use bitclone.Base.{
  ℕ, suc, ◌+◌, ◌-◌, ◌≤◌, ◌≡◌, refl, sym, ap, ◌∙◌, Error, ok, ok_inj, false, not, List, [], ◌∷◌,
  ◌++◌, length, map, All, inl, inr, Bool-cases, leb, ltb, ◌==◌, if◌then◌else◌, arith,
}
use mathlib.Core.Path.{subst}
use bitclone.Base.Int.{sub_ℕ}
use bitclone.Base.Bytes.{Bytes}
use bitclone.ByteStream.{
  pure, raise, ◌>>=◌, read_stream, read_little_int, read_compact_size, read_many,
}
use bitclone.ByteStream.Writer.{◌<+>◌, <+>-eq-ok, write_compact_size, join_all}
use bitclone.ByteStream.RoundTrip.{
  RoundTrips, seq-RoundTrips, last-RoundTrips, raw-RoundTrips, int-RoundTrips, call-RoundTrips,
  compact_size-RoundTrips, many-RoundTrips,
}
use bitclone.Block.Header.{BlockHeader}
use bitclone.Block.RoundTrip.{HasWireForm, IsReadable, header-RoundTrips, tx-RoundTrips}
use bitclone.Network.Payloads.{
  BlockTxnsRequest, PrefilledTx, HeaderAndShortIds, hash_length, max_headers_results, new_headers,
  write_counted_header, write_headers, encode_from, decode_from, write_difference,
  write_block_txns_request, write_prefilled_tx, write_prefilled_txs, write_header_and_short_ids,
}
use bitclone.Network.Payloads.Reader.{
  read_counted_header, read_headers, read_block_txns_request, read_prefilled_tx, read_prefilled_txs,
  read_header_and_short_ids,
}

-- Byte strings of one length, as hashes and short ids are.
pub All-raw :
    (n : ℕ) (xs : List Bytes)
    → All (λ x. length x ≡ n) xs
    → All (λ x. RoundTrips (ok x) (read_stream n) x) xs
All-raw n [] h = tt
All-raw n (x ∷ xs) h = (raw-RoundTrips n x h.0, All-raw n xs h.1)

-- A difference that was written is not negative.
written_difference :
    (i next : ℕ) (bs : Bytes)
    → write_difference (sub_ℕ i next) ≡ ok bs
    → (next ≤ i) × (write_difference (sub_ℕ i next) ≡ write_compact_size (i - next))
unfolding write_difference
written_difference i next bs e = elim (Bool-cases (leb next i)) [
  | inl h ↦ (ground (arith, h), rw h refl)
  | inr h ↦ ground (arith, h, e)
]

-- The differences of indices that were written, and what they are decoded to.
written_differences :
    (next : ℕ) (is : List ℕ) (bs : Bytes)
    → join_all (map write_difference (encode_from next is)) ≡ ok bs
    → (ds : List ℕ) × (length ds ≡ length is)
      × (decode_from next ds ≡ is)
      × (join_all (map write_difference (encode_from next is))
          ≡ join_all (map write_compact_size ds))
unfolding encode_from decode_from
written_differences next [] bs e = ([], refl, refl, refl)
written_differences next (i ∷ is) bs e =
    let (xs, ys, e1, e2, joined) = <+>-eq-ok (write_difference (sub_ℕ i next)) _ e in
    let (above, same) = written_difference i next xs e1 in
    let (ds, size, decoded, rest) = written_differences (suc i) is ys e2 in
    let back : next + (i - next) ≡ i = omega (arith, above) in
    (
      (i - next) ∷ ds,
      ap suc size,
      rw (back, decoded) refl,
      ap (λ w. w <+> join_all (map write_difference (encode_from (suc i) is))) same
          ∙ ap (λ w. write_compact_size (i - next) <+> w) rest,
    )

All-compact_size :
    (ds : List ℕ) → All (λ d. RoundTrips (write_compact_size d) read_compact_size d) ds
All-compact_size [] = tt
All-compact_size (d ∷ ds) = (compact_size-RoundTrips d, All-compact_size ds)

indices-RoundTrips :
    {B : Type 0} (g : List ℕ → B) (next : ℕ) (is : List ℕ)
    → RoundTrips
        (join_all (map write_difference (encode_from next is)))
        (read_many (length is) read_compact_size >>= λ ds. pure (g (decode_from next ds)))
        (g is)
indices-RoundTrips g next is = record {
  reads = λ bs e rest.
      let (ds, size, decoded, same) = written_differences next is bs e in
      let whole =
        last-RoundTrips _ _ (λ xs. g (decode_from next xs)) ds
          (many-RoundTrips write_compact_size read_compact_size ds (All-compact_size ds)) in
      subst
        (λ n.
          ◌>>=◌ (read_many n read_compact_size) (λ xs. pure (g (decode_from next xs))) (bs ++ rest)
          ≡ ok (g is, rest))
        size (whole.reads bs (sym same ∙ e) rest ∙ ap (λ js. ok (g js, rest)) decoded);
}

pub block_txns_request-RoundTrips :
    (m : BlockTxnsRequest)
    → length m.block_hash ≡ hash_length
    → RoundTrips (write_block_txns_request m) read_block_txns_request m
unfolding write_block_txns_request read_block_txns_request
block_txns_request-RoundTrips m h =
    seq-RoundTrips _ _ _ _ m.block_hash _ (raw-RoundTrips 32 m.block_hash h) (
      seq-RoundTrips _ _ _ _ (length m.indices) _ (compact_size-RoundTrips _)
        (indices-RoundTrips (λ is. record { block_hash = m.block_hash; indices = is }) 0 m.indices))

prefilled_tx-RoundTrips :
    (next : ℕ) (p : PrefilledTx)
    → IsReadable p.tx
    → RoundTrips (write_prefilled_tx next p) (read_prefilled_tx next) p
unfolding write_prefilled_tx read_prefilled_tx
prefilled_tx-RoundTrips next p h = elim (Bool-cases (ltb p.block_index next)) [
  | inl low ↦ rw low (record { reads = λ bs e rest. cc })
  | inr high ↦ rw high (
      subst (RoundTrips _ _) (ap (λ i. record p { block_index = i }) (ground (arith, high))) (
        seq-RoundTrips _ _ _ _ (p.block_index - next) _ (compact_size-RoundTrips _)
          (last-RoundTrips _ _ _ p.tx (tx-RoundTrips p.tx h))))
]

prefilled_txs-RoundTrips :
    (next : ℕ) (ps : List PrefilledTx)
    → All (λ p. IsReadable p.tx) ps
    → RoundTrips (write_prefilled_txs next ps) (read_prefilled_txs (length ps) next) ps
unfolding write_prefilled_txs read_prefilled_txs
prefilled_txs-RoundTrips next [] h = record { reads = λ bs e rest. ground (arith, e) }
prefilled_txs-RoundTrips next (p ∷ ps) h =
    seq-RoundTrips _ _ _ _ p _ (prefilled_tx-RoundTrips next p h.0)
      (last-RoundTrips _ _ (λ qs. p ∷ qs) ps (prefilled_txs-RoundTrips (suc p.block_index) ps h.1))

pub header_and_short_ids-RoundTrips :
    (m : HeaderAndShortIds)
    → length m.header ≡ 80
    → All (λ x. length x ≡ 6) m.short_ids
    → All (λ p. IsReadable p.tx) m.prefilled_txs
    → RoundTrips (write_header_and_short_ids m) read_header_and_short_ids m
unfolding write_header_and_short_ids read_header_and_short_ids
header_and_short_ids-RoundTrips m h ids txs =
    seq-RoundTrips _ _ _ _ m.header _ (raw-RoundTrips 80 m.header h) (
      seq-RoundTrips _ _ _ _ m.nonce _ (int-RoundTrips 8 m.nonce) (
        seq-RoundTrips _ _ _ _ (length m.short_ids) _ (compact_size-RoundTrips _) (
          seq-RoundTrips _ _ _ _ m.short_ids _
            (many-RoundTrips ok (read_stream 6) m.short_ids (All-raw 6 m.short_ids ids))
            (seq-RoundTrips _ _ _ _ (length m.prefilled_txs) _ (compact_size-RoundTrips _) (
              last-RoundTrips _ _ _ m.prefilled_txs
                (prefilled_txs-RoundTrips 0 m.prefilled_txs txs))))))

no_txs-RoundTrips :
    (h : BlockHeader)
    → RoundTrips
        (ok (0 ∷ []))
        (read_little_int 1 >>= λ tx_count.
          if not (tx_count == 0) then raise Error.network_data_error else pure h)
        h
unfolding read_little_int read_stream
no_txs-RoundTrips h = record {
  reads = λ bs e rest.
      subst
        (λ cs.
          ◌>>=◌ (read_little_int 1)
            (λ tx_count. if not (tx_count == 0) then raise Error.network_data_error else pure h)
            (cs ++ rest)
          ≡ ok (h, rest))
        (ok_inj _ _ e) refl;
}

counted_header-RoundTrips :
    (now : ℕ) (h : BlockHeader)
    → HasWireForm h
    → RoundTrips (write_counted_header h) (read_counted_header now) h
unfolding write_counted_header read_counted_header
counted_header-RoundTrips now h w =
    seq-RoundTrips _ _ _ _ h _ (header-RoundTrips now h w) (no_txs-RoundTrips h)

All-counted_header :
    (now : ℕ) (hs : List BlockHeader)
    → All HasWireForm hs
    → All (λ h. RoundTrips (write_counted_header h) (read_counted_header now) h) hs
All-counted_header now [] w = tt
All-counted_header now (h ∷ hs) w =
    (counted_header-RoundTrips now h w.0, All-counted_header now hs w.1)

pub headers-RoundTrips :
    (now : ℕ) (hs : List BlockHeader)
    → All HasWireForm hs
    → length hs ≤ max_headers_results
    → RoundTrips (write_headers hs) (read_headers now) hs
unfolding write_headers read_headers new_headers
headers-RoundTrips now hs w few =
    let fits : ltb max_headers_results (length hs) ≡ false = ground (arith, few) in
    seq-RoundTrips _ _ _ _ (length hs) _ (compact_size-RoundTrips _) (
      rw fits (
        call-RoundTrips _ _ _ hs hs
          (many-RoundTrips write_counted_header (read_counted_header now) hs
            (All-counted_header now hs w))
          (rw fits refl)))
