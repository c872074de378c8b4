-- ===== src/Chain/Index/Paths.antt =====
-- blockchain/blockchain.py: `_reorganization_paths` and `get_block_locator`, which follow the rows of
-- the index from child to parent.
pub mod Ancestors
pub mod Meet
pub mod Locate
use bitclone.Base.{
  ℕ, zero, suc, ◌+◌, ◌*◌, ◌-◌, Result, Error, ok, err, ◌>>=◌, Bool, true, false, not, List, [], ◌∷◌,
  Option, none, some, reverse, ◌++◌, ltb, leb, ◌==◌, if◌then◌else◌,
}
use bitclone.Base.Bytes.{Bytes, bytes_eq}
use bitclone.Chain.Index.{
  Index, BlockIndexEntry, get_block_index, get_best_header, get_block_index_ancestor,
}

-- `entry.height` of None raises AttributeError.
abbrev pub parent_of : BlockIndexEntry → Index → Result BlockIndexEntry
parent_of e index = elim (get_block_index e.prev_hash index) [
  | none ↦ err Error.attribute_error
  | some p ↦ ok p
]

-- One of the first two loops: the rows above `height`, and the first that is not.
unfoldable pub lower :
    ℕ → ℕ → BlockIndexEntry → Index → Result (List BlockIndexEntry × BlockIndexEntry)
lower zero height e index = if ltb height e.height then err Error.out_of_rounds else ok ([], e)
lower (suc fuel) height e index =
    if ltb height e.height
    then (do p ← parent_of e index; (es, last) ← lower fuel height p index; ok (e ∷ es, last))
    else ok ([], e)

-- The third loop, on two rows of one height.
unfoldable pub meet :
    ℕ
    → BlockIndexEntry
    → BlockIndexEntry
    → Index
    → Result (List BlockIndexEntry × List BlockIndexEntry × BlockIndexEntry)
meet zero active other index =
    if bytes_eq active.block_hash other.block_hash
    then ok ([], [], active)
    else err Error.out_of_rounds
meet (suc fuel) active other index =
    if bytes_eq active.block_hash other.block_hash
    then ok ([], [], active)
    else elim (get_block_index active.prev_hash index) [
      | none ↦ err Error.network_data_error
      | some p ↦ elim (get_block_index other.prev_hash index) [
        | none ↦ err Error.network_data_error
        | some q ↦ do
          (disconnect, connect, fork) ← meet fuel p q index
          ok (active ∷ disconnect, other ∷ connect, fork)
      ]
    ]

-- The heights are rounds enough for each loop.
unfoldable pub reorganization_paths :
    BlockIndexEntry
    → BlockIndexEntry
    → Index
    → Result (List BlockIndexEntry × List BlockIndexEntry × BlockIndexEntry)
reorganization_paths active_tip candidate index = do
  (above, active) ← lower active_tip.height candidate.height active_tip index
  (over, other) ← lower candidate.height active.height candidate index
  (disconnect, connect, fork) ← meet (suc active.height) active other index
  ok (above ++ disconnect, reverse (over ++ connect), fork)

-- The loop of `get_block_locator`, with the number of hashes that it has.
unfoldable pub locate : ℕ → ℕ → ℕ → BlockIndexEntry → Index → List Bytes
locate zero step count e index = e.block_hash ∷ []
locate (suc fuel) step count e index =
    if e.height == 0
    then e.block_hash ∷ []
    else (let step' = if leb 10 (suc count) then step * 2 else step in
        elim (get_block_index_ancestor e.block_hash (e.height - step) index) [
          | none ↦ e.block_hash ∷ []
          | some ancestor ↦ e.block_hash ∷ locate fuel step' (suc count) ancestor index
        ])

unfoldable pub start_entry : Option Bytes → Index → Option BlockIndexEntry
start_entry none index = get_best_header index
start_entry (some hash) index = get_block_index hash index

unfoldable pub get_block_locator : Option Bytes → Index → List Bytes
get_block_locator start_hash index = elim (start_entry start_hash index) [
  | none ↦ []
  | some e ↦ locate e.height 1 0 e index
]
