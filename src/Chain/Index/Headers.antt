-- ===== src/Chain/Index/Headers.antt =====
-- blockchain/blockchain.py, `add_headers`: a batch goes into the index header by header, and what is
-- in stays there when a later one is refused. `now` stands for `int(time.time())`.
use bitclone.Base.{
  ℕ, ◌+◌, Result, Error, ok, err, Bool, true, false, not, ◌&&◌, List, [], ◌∷◌, Option, none, some,
  ltb, ◌==◌, if◌then◌else◌,
}
use bitclone.Base.Bytes.{Bytes, bytes_eq}
use bitclone.Block.Header
use bitclone.Block.Header.{BlockHeader}
use bitclone.Chain.Params.{ChainParams, checkpoint_matches}
use bitclone.Chain.Difficulty.{max_future_block_time, validate_header_pow}
use bitclone.Chain.Index.{Index, BlockIndexEntry, get_block_index, add_block_header}

-- `existing` continues `parent` as the header does.
abbrev pub agrees : BlockIndexEntry → BlockHeader → BlockIndexEntry → Bool
agrees existing h parent =
    bytes_eq existing.prev_hash h.prev_block && (existing.height == (parent.height + 1))

module _ (hash256 : Bytes → Bytes) (params : ChainParams) (now : ℕ) where
  -- What is asked of a header that the index does not have, and its place there.
  unfoldable pub add_new_header : BlockHeader → Bytes → ℕ → Index → Result Index
  add_new_header h id height index =
      if not (checkpoint_matches params height id)
      then err Error.network_data_error
      else elim (validate_header_pow hash256 h) [
        | err e ↦ err e
        | ok false ↦ err Error.network_data_error
        | ok true ↦
            if ltb (now + max_future_block_time) h.timestamp
            then err Error.network_data_error
            else add_block_header hash256 h height index
      ]

  -- The loop. The row that was written is read again, as the next parent.
  unfoldable pub add_from :
      Bytes → Option BlockIndexEntry → List BlockHeader → Index → Result (List BlockHeader) × Index
  add_from previous_hash parent [] index = (ok [], index)
  add_from previous_hash none (h ∷ hs) index =
      if bytes_eq h.prev_block previous_hash
      then (err Error.attribute_error, index)
      else (err Error.network_data_error, index)
  add_from previous_hash (some parent) (h ∷ hs) index =
      if not (bytes_eq h.prev_block previous_hash)
      then (err Error.network_data_error, index)
      else elim (Header.block_id hash256 h) [
        | err e ↦ (err e, index)
        | ok id ↦ elim (get_block_index id index) [
          | some existing ↦
              if agrees existing h parent
              then add_from id (some existing) hs index
              else (err Error.network_data_error, index)
          | none ↦ elim (add_new_header h id (parent.height + 1) index) [
            | err e ↦ (err e, index)
            | ok index' ↦
                let (accepted, last) = add_from id (get_block_index id index') hs index' in
                (elim accepted [ err e ↦ err e | ok others ↦ ok (h ∷ others) ], last)
          ]
        ]
      ]

  unfoldable pub add_headers : List BlockHeader → Index → Result (List BlockHeader) × Index
  add_headers [] index = (ok [], index)
  add_headers (h ∷ hs) index = elim (get_block_index h.prev_block index) [
    | none ↦ (err Error.network_data_error, index)
    | some parent ↦ add_from h.prev_block (some parent) (h ∷ hs) index
  ]
