-- ===== src/Merkle/Root.antt =====
-- The root of a Merkle tree is a hash, or the only identifier.
use bitclone.Base.{zero, suc, ℕ, ◌≡◌, ok, List, [], ◌∷◌, length, All, arith}
use bitclone.Base.Bytes.{Bytes}
use bitclone.Merkle.{MerkleTree, merkle_tree, create_levels, upper_level, pad, tree_height}

abbrev pub IsHash : Bytes → Type 0
IsHash bs = length bs ≡ 32

abbrev pub HasHashSize : (Bytes → Bytes) → Type 0
HasHashSize hash256 = (bs : Bytes) → IsHash (hash256 bs)

module _ (hash256 : Bytes → Bytes) (size : HasHashSize hash256) where
  upper_level-IsHash : (ids : List Bytes) → All IsHash (upper_level hash256 ids)
  unfolding upper_level
  upper_level-IsHash [] = tt
  upper_level-IsHash (x ∷ []) = tt
  upper_level-IsHash (x ∷ y ∷ ids) = (size _, upper_level-IsHash ids)

  create_levels-IsHash :
      (h : ℕ) (ids : List Bytes) → All IsHash ids → All IsHash (create_levels hash256 h ids).1
  unfolding create_levels
  create_levels-IsHash zero ids k = k
  create_levels-IsHash (suc h) ids k =
      create_levels-IsHash h (upper_level hash256 (pad ids)) (upper_level-IsHash (pad ids))

  pub merkle_root-IsHash :
      (ids : List Bytes) (t : MerkleTree)
      → All IsHash ids
      → merkle_tree hash256 ids ≡ ok t
      → IsHash t.merkle_root
  unfolding merkle_tree
  merkle_root-IsHash [] t k e = cc
  merkle_root-IsHash (x ∷ ids) t k e =
      ground (arith, create_levels-IsHash (tree_height (x ∷ ids)) (x ∷ ids) k)
