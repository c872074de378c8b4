-- ===== src/Chain/Index.antt =====
-- database/database.py: the table `block_index`, as its rows. `block_hash` is the key.
pub mod Headers
pub mod Linked
pub mod Grows
pub mod Paths
use bitclone.Base.{
  ℕ, zero, suc, ◌+◌, Result, Error, ok, err, ◌>>=◌, Bool, true, false, not, ◌&&◌, ◌||◌, List, [],
  ◌∷◌, Option, none, some, ltb, leb, ◌==◌, if◌then◌else◌,
}
use bitclone.Base.Bytes.{Bytes, bytes_eq, int_to_be}
use bitclone.Block.Header
use bitclone.Block.Header.{BlockHeader}
use bitclone.Chain.Difficulty.{calc_block_work}

-- The texts of the column `status`.
pub data BlockStatus : Type 0 where
  valid candidate headers_only invalid : BlockStatus

pub record BlockIndexEntry : Type 0 where
  pub block_hash : Bytes
  pub prev_hash : Bytes
  pub height : ℕ
  pub bits : Bytes
  pub timestamp : ℕ
  pub work : ℕ
  pub chainwork : ℕ
  pub active : Bool
  pub status : BlockStatus

abbrev pub Index : Type 0
Index = List BlockIndexEntry

unfoldable pub get_block_index : Bytes → Index → Option BlockIndexEntry
get_block_index hash [] = none
get_block_index hash (e ∷ index) =
    let rest = get_block_index hash index in if bytes_eq hash e.block_hash then some e else rest

-- `INSERT OR REPLACE`
unfoldable pub put_entry : BlockIndexEntry → Index → Index
put_entry e [] = e ∷ []
put_entry e (f ∷ index) =
    let rest = put_entry e index in
    if bytes_eq e.block_hash f.block_hash then e ∷ index else f ∷ rest

abbrev pub chainwork_of : Option BlockIndexEntry → ℕ
chainwork_of none = 0
chainwork_of (some parent) = parent.chainwork

-- The row of a header.
abbrev pub index_row : BlockHeader → Bytes → ℕ → ℕ → ℕ → Bool → BlockStatus → BlockIndexEntry
index_row h id height work chainwork active status = record {
  block_hash = id;
  prev_hash = h.prev_block;
  height = height;
  bits = h.bits;
  timestamp = h.timestamp;
  work = work;
  chainwork = chainwork;
  active = active;
  status = status;
}

-- `_add_block_index_entry`. CHAINWORK_BYTES is 32, which the sum of the work must fit.
unfoldable pub add_block_index_entry :
    (Bytes → Bytes) → BlockHeader → ℕ → Bool → BlockStatus → Index → Result Index
add_block_index_entry hash256 h block_height active status index = do
  work ← calc_block_work h.bits
  id ← Header.block_id hash256 h
  let chainwork = chainwork_of (get_block_index h.prev_block index) + work
  _ ← int_to_be 32 work
  _ ← int_to_be 32 chainwork
  ok (put_entry (index_row h id block_height work chainwork active status) index)

-- `add_block_header`
unfoldable pub add_block_header : (Bytes → Bytes) → BlockHeader → ℕ → Index → Result Index
add_block_header hash256 h block_height index =
    add_block_index_entry hash256 h block_height false BlockStatus.headers_only index

abbrev pub is_invalid : BlockStatus → Bool
is_invalid BlockStatus.invalid = true
is_invalid BlockStatus.valid = false
is_invalid BlockStatus.candidate = false
is_invalid BlockStatus.headers_only = false

-- `ORDER BY chainwork DESC, height DESC LIMIT 1`; of equals the first row is taken here.
abbrev pub better : BlockIndexEntry → Option BlockIndexEntry → BlockIndexEntry
better e none = e
better e (some f) =
    if ltb e.chainwork f.chainwork || ((e.chainwork == f.chainwork) && ltb e.height f.height)
    then f
    else e

unfoldable pub get_best_header : Index → Option BlockIndexEntry
get_best_header [] = none
get_best_header (e ∷ index) =
    let best = get_best_header index in if is_invalid e.status then best else some (better e best)

abbrev higher : BlockIndexEntry → Option BlockIndexEntry → BlockIndexEntry
higher e none = e
higher e (some f) = if ltb e.height f.height then f else e

unfoldable pub get_active_tip : Index → Option BlockIndexEntry
get_active_tip [] = none
get_active_tip (e ∷ index) =
    let tip = get_active_tip index in if e.active then some (higher e tip) else tip

-- `would_reorganize_to` of blockchain/blockchain.py.
unfoldable pub would_reorganize_to : Bytes → Index → Bool
would_reorganize_to hash index = elim (get_block_index hash index) [
  | none ↦ false
  | some entry ↦ elim (get_active_tip index) [
    | none ↦ false
    | some tip ↦
        not entry.active && not (is_invalid entry.status) && ltb tip.chainwork entry.chainwork
  ]
]

-- The loop of `get_block_index_ancestor`; a row's height bounds its rounds.
unfoldable pub walk_back : ℕ → ℕ → BlockIndexEntry → Index → Option BlockIndexEntry
walk_back zero height e index = if ltb height e.height then none else some e
walk_back (suc fuel) height e index =
    if ltb height e.height
    then elim (get_block_index e.prev_hash index) [
      | none ↦ none
      | some parent ↦ walk_back fuel height parent index
    ]
    else some e

unfoldable pub get_block_index_ancestor : Bytes → ℕ → Index → Option BlockIndexEntry
get_block_index_ancestor hash height index = elim (get_block_index hash index) [
  | none ↦ none
  | some e ↦ if ltb e.height height then none else walk_back e.height height e index
]
