-- ===== src/Merkle.antt =====
-- data/merkle_trees.py: the Merkle tree of a list of identifiers, and its proofs.
pub mod Proof
pub mod Root
use bitclone.Base.{
  ℕ, zero, suc, ◌+◌, ◌-◌, ◌/◌, ◌%◌, Result, Error, ok, err, ◌>>=◌, Bool, true, false, not, List, [],
  ◌∷◌, ◌++◌, Option, none, some, length, get_elem?, last_or, ltb, leb, ◌==◌, if◌then◌else◌,
}
use bitclone.Base.Bytes.{Bytes, bytes_eq}

-- `ceil(log2(n))` for n > 1, and 0 for 1: the halvings, rounded up, that bring `n` to 1. The float
-- of the source is exact for every list that fits a memory.
unfoldable pub ceil_log2 : ℕ → ℕ → ℕ
ceil_log2 zero n = 0
ceil_log2 (suc fuel) n = elim (leb n 1) [ true ↦ 0 | false ↦ suc (ceil_log2 fuel ((n + 1) / 2)) ]

unfoldable pub tree_height : List Bytes → ℕ
tree_height ids = ceil_log2 (length ids) (length ids)

-- A level of odd length is completed by its last element. The source appends to the list that it
-- was given, so at the leaves the caller's list grows too.
abbrev pub pad : List Bytes → List Bytes
pad ids = if length ids % 2 == 0 then ids else ids ++ (last_or [] ids ∷ [])

-- The side on which a sibling stands.
pub data Side : Type 0 where
  left right : Side

-- The levels from the leaves up to the root, each completed but the root's own.
pub record MerkleTree : Type 0 where
  pub levels : List (List Bytes)
  pub merkle_root : Bytes

-- `next(i for i, h in enumerate(leaves) if h == target_id)`, from index `i` on.
unfoldable pub find_leaf : Bytes → ℕ → List Bytes → Option ℕ
find_leaf target i [] = none
find_leaf target i (x ∷ xs) = if bytes_eq x target then some i else find_leaf target (suc i) xs

-- One level of `get_merkle_proof`; a sibling beyond the level is the node itself.
unfoldable pub sibling : List Bytes → ℕ → Option (Bytes × Side)
sibling nodes idx =
    let is_right = idx % 2 == 1 in
    let sib_idx = (if is_right then idx - 1 else idx + 1) in
    let side = (if is_right then Side.left else Side.right) in
    elim (get_elem? nodes (if leb (length nodes) sib_idx then idx else sib_idx)) [
      | none ↦ none
      | some node ↦ some (node, side)
    ]

-- The loop of `get_merkle_proof` from the leaves up.
unfoldable pub proof_from : List (List Bytes) → ℕ → Result (List (Bytes × Side))
proof_from [] idx = ok []
proof_from (nodes ∷ levels) idx = elim (sibling nodes idx) [
  | none ↦ err Error.index_error
  | some s ↦ do rest ← proof_from levels (idx / 2); ok (s ∷ rest)
]

-- The leaves are `tree[height]`: the lowest level, or the root's list in a tree of one node.
unfoldable pub leaves : MerkleTree → List Bytes
leaves t = elim t.levels [ [] ↦ t.merkle_root ∷ [] | l ∷ ls ↦ l ]

unfoldable pub get_merkle_proof : MerkleTree → Bytes → Result (List (Bytes × Side))
get_merkle_proof t target = elim (find_leaf target 0 (leaves t)) [
  | none ↦ err Error.value_error
  | some idx ↦ proof_from t.levels idx
]

-- `hash256` is double SHA-256, which hashlib computes.
module _ (hash256 : Bytes → Bytes) where
  -- The nodes over a completed level.
  unfoldable pub upper_level : List Bytes → List Bytes
  upper_level (x ∷ y ∷ ids) = hash256 (x ++ y) ∷ upper_level ids
  upper_level _ = []

  -- The loop of `_create_tree`, with the levels above the root's place that it has still to make.
  unfoldable pub create_levels : ℕ → List Bytes → List (List Bytes) × List Bytes
  create_levels zero ids = ([], ids)
  create_levels (suc h) ids =
      let (above, root) = create_levels h (upper_level (pad ids)) in (pad ids ∷ above, root)

  -- The constructor.
  unfoldable pub merkle_tree : List Bytes → Result MerkleTree
  merkle_tree [] = err Error.merkle_error
  merkle_tree (x ∷ ids) =
      let (levels, root) = create_levels (tree_height (x ∷ ids)) (x ∷ ids) in
      elim root [
        | [] ↦ err Error.index_error
        | r ∷ rs ↦ ok (record { levels = levels; merkle_root = r })
      ]

  unfoldable pub fold_proof : List (Bytes × Side) → Bytes → Bytes
  fold_proof [] target = target
  fold_proof ((node, Side.right) ∷ proof) target = fold_proof proof (hash256 (target ++ node))
  fold_proof ((node, Side.left) ∷ proof) target = fold_proof proof (hash256 (node ++ target))

  unfoldable pub verify_merkle_proof : MerkleTree → List (Bytes × Side) → Bytes → Bool
  verify_merkle_proof t proof target = bytes_eq (fold_proof proof target) t.merkle_root
