-- ===== src/Tests/Trees.antt =====
-- data/merkle_trees.py at a concrete list of three identifiers.
use bitclone.Base.{◌≡◌, refl, ok, true, List, [], ◌∷◌}
use bitclone.Base.Bytes.{Bytes}
use bitclone.Merkle.{MerkleTree, Side, merkle_tree, get_merkle_proof, verify_merkle_proof}
use bitclone.Merkle.Proof.{merkle_proof_verifies}

abbrev ids : List Bytes
ids = (1 ∷ []) ∷ (2 ∷ []) ∷ (3 ∷ []) ∷ []

merkle_proof_verifies_example :
    (t : MerkleTree) × (proof : List (Bytes × Side)) × (merkle_tree (λ b. b) ids ≡ ok t)
    × (get_merkle_proof t (3 ∷ []) ≡ ok proof)
    × (verify_merkle_proof (λ b. b) t proof (3 ∷ []) ≡ true)
merkle_proof_verifies_example = merkle_proof_verifies (λ b. b) ids 2 (3 ∷ []) refl
