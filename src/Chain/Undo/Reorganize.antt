-- ===== src/Chain/Undo/Reorganize.antt =====
-- A block that is disconnected leaves the unspent outputs as they were before it.
use bitclone.Base.{
  ℕ, ◌≡◌, ◌⊎◌, refl, sym, ap, ◌∙◌, ok, >>=-eq-ok, ok_inj, Bool, true, false, List, [], ◌∷◌, none,
  if◌then◌else◌, arith, inl, inr,
}
use mathlib.Core.Path.{subst}
use bitclone.Base.Bytes.{Bytes}
use bitclone.Tx.Utxo.{Utxo}
use bitclone.Block.Body.{Block}
use bitclone.Chain.Params.{ChainParams}
use bitclone.Chain.Utxos.{
  UtxoTable, BlockUndo, get_utxo, outpoints, apply_utxo_delta, disconnect_blocks,
}
use bitclone.Chain.Undo.{
  in_set, spent_outpoints, utxo_delta, none_unspent, created_outpoints, block_utxos, is_excepted,
  build_block_undo, block_utxo_delta, validate_bip30,
}
use bitclone.Chain.Undo.Views.{or_else, Distinct}
use bitclone.Chain.Undo.Restores.{
  SameView, disconnected, disconnect-returns, created_outpoints-block_utxos, undo_of,
  undo_of-Distinct, restores_at,
}

disconnected-cong :
    (undo : BlockUndo) (t t' : UtxoTable) (o : Bytes)
    → get_utxo o t ≡ get_utxo o t'
    → disconnected undo t o ≡ disconnected undo t' o
disconnected-cong undo t t' o e =
    ap
      (λ u.
        or_else (get_utxo o undo.spent_utxos) (if in_set o undo.created_outpoints then none else u))
      e

module _ (now : ℕ) (hash256 : Bytes → Bytes) (params : ChainParams) where
  -- The steps of `_connect_tip_block` on the table: the block passed the check of BIP 30, its undo
  -- record was made, and its delta went into the table.
  pub record Connects (block : Block) (height : ℕ) (t t' : UtxoTable) (undo : BlockUndo)
      : Type 0 where
    pub checked : validate_bip30 now hash256 params block height t ≡ ok true
    pub recorded : build_block_undo now hash256 params block height t ≡ ok undo
    pub spent : List Bytes
    pub created : List Utxo
    pub delta : block_utxo_delta now hash256 params block height ≡ ok (spent, created)
    pub applied : apply_utxo_delta spent created t ≡ ok t'

  -- Where each check of BIP 30 that returned true comes from.
  bip30_cases :
      (block : Block) (height : ℕ) (t : UtxoTable) (excepted : Bool) (created : List Bytes)
      → validate_bip30 now hash256 params block height t ≡ ok true
      → is_excepted now hash256 params block height ≡ ok excepted
      → created_outpoints hash256 block.txs ≡ ok created
      → (excepted ≡ true) ⊎ (none_unspent created t ≡ true)
  unfolding validate_bip30
  bip30_cases block height t true created e x c = inl refl
  bip30_cases block height t false created e x c = inr (ground (arith, e, x, c))

  -- The records that the two functions made, by the same three calls.
  undo_parts :
      (block : Block) (height : ℕ) (t : UtxoTable) (undo : BlockUndo)
      → build_block_undo now hash256 params block height t ≡ ok undo
      → (created spent : List Bytes) × (excepted : Bool) × (created_outpoints hash256 block.txs
          ≡ ok created)
        × (spent_outpoints block.txs ≡ ok spent)
        × (is_excepted now hash256 params block height ≡ ok excepted)
        × (undo_of excepted spent created t ≡ undo)
  unfolding build_block_undo
  undo_parts block height t undo e =
      let (created, e1, c1) = >>=-eq-ok (created_outpoints hash256 block.txs) _ e in
      let (spent, e2, c2) = >>=-eq-ok (spent_outpoints block.txs) _ c1 in
      let (excepted, e3, c3) = >>=-eq-ok (is_excepted now hash256 params block height) _ c2 in
      (created, spent, excepted, e1, e2, e3, ok_inj _ _ c3)

  delta_parts :
      (block : Block) (height : ℕ) (spent : List Bytes) (excepted : Bool) (kept : List Bytes)
      (made : List Utxo)
      → spent_outpoints block.txs ≡ ok spent
      → is_excepted now hash256 params block height ≡ ok excepted
      → block_utxo_delta now hash256 params block height ≡ ok (kept, made)
      → (us : List Utxo) × (created_outpoints hash256 block.txs ≡ ok (outpoints us))
        × (utxo_delta excepted spent us ≡ (kept, made))
  unfolding block_utxo_delta
  delta_parts block height spent excepted kept made e x d =
      let (spent', _, d1) = >>=-eq-ok (spent_outpoints block.txs) _ d in
      let (us, f, _) = >>=-eq-ok (block_utxos hash256 height block.txs) _ d1 in
      (us, created_outpoints-block_utxos hash256 height block.txs us f, ground (arith, e, x, f, d))

  Connects-restores :
      (block : Block) (height : ℕ) (t t' : UtxoTable) (undo : BlockUndo)
      → Connects block height t t' undo
      → Distinct undo.spent_utxos × ((o : Bytes) → disconnected undo t' o ≡ get_utxo o t)
  Connects-restores block height t t' undo c =
      let (created, spent, excepted, e1, e2, e3, made) =
        undo_parts block height t undo c.recorded in
      let (us, e4, d) = delta_parts block height spent excepted c.spent c.created e2 e3 c.delta in
      let same : created ≡ outpoints us = ok_inj _ _ (sym e1 ∙ e4) in
      let new = bip30_cases block height t excepted (outpoints us) c.checked e3 e4 in
      let applied : apply_utxo_delta (utxo_delta excepted spent us).0
            (utxo_delta excepted spent us).1 t
          ≡ ok t' =
        ap (λ p. apply_utxo_delta p.0 p.1 t) d ∙ c.applied in
      subst (λ u. Distinct u.spent_utxos × ((o : Bytes) → disconnected u t' o ≡ get_utxo o t))
        (ap (λ cs. undo_of excepted spent cs t) (sym same) ∙ made)
        (
          undo_of-Distinct excepted spent (outpoints us) t,
          λ o. restores_at excepted spent us t t' o new applied,
        )

  -- The blocks from one table on, each connected to what the one before it left.
  pub data Connected : UtxoTable → UtxoTable → List BlockUndo → Type 0 where
    start : {t : UtxoTable} → Connected t t []
    next :
        {t t1 t2 : UtxoTable} {undos : List BlockUndo} {block : Block} {height : ℕ}
        {undo : BlockUndo}
        → Connected t t1 undos
        → Connects block height t1 t2 undo
        → Connected t t2 (undo ∷ undos)

  -- However many blocks were connected, each past the check of BIP 30, disconnecting them from the
  -- last to the first by their undo records does not fail, and every outpoint is again unspent with
  -- the same output as before the first, or again not.
  pub disconnect-Connected :
      (t t' s : UtxoTable) (undos : List BlockUndo)
      → Connected t t' undos
      → SameView s t'
      → (t'' : UtxoTable) × (disconnect_blocks undos s ≡ ok t'') × SameView t'' t
  unfolding disconnect_blocks
  disconnect-Connected t t' s undos start same = (s, refl, same)
  disconnect-Connected t t' s undos (next {t1 = t1} {undos = undos'} {undo = undo} before c) same =
      let (distinct, back) = Connects-restores _ _ t1 t' undo c in
      let (s1, e1, shows) = disconnect-returns undo s distinct in
      let (t'', e2, same'') =
        disconnect-Connected t t1 s1 undos' before
          (λ o. shows o ∙ disconnected-cong undo s t' o (same o) ∙ back o) in
      (t'', rw e1 e2, same'')
