-- ===== src/Merkle/Proof.antt =====
-- Every identifier of the list has a proof, and the proof verifies, whatever the hash function is.
use mathlib.Core.Path.{subst}
use bitclone.Base.{
  ℕ, zero, suc, ◌+◌, ◌-◌, ◌*◌, ◌/◌, ◌%◌, ◌≤◌, ◌<◌, ◌≡◌, refl, ap, sym, ◌∙◌, ok, true, false, List,
  [], ◌∷◌, ◌++◌, some, length, length-append, get_elem?, last_or, leb, ◌==◌, arith, Bool-cases,
  leb→le, inl, inr,
}
use bitclone.Base.Bytes.{Bytes, bytes_eq, bytes_eq→eq, bytes_eq_refl}
use bitclone.Merkle.{
  Side, MerkleTree, ceil_log2, tree_height, pad, find_leaf, sibling, proof_from, upper_level,
  create_levels, merkle_tree, leaves, get_merkle_proof, fold_proof, verify_merkle_proof,
}

get_elem?-append :
    (xs ys : List Bytes) (i : ℕ) (x : Bytes)
    → get_elem? xs i ≡ some x
    → get_elem? (xs ++ ys) i ≡ some x
get_elem?-append [] ys i x h = cc
get_elem?-append (a ∷ xs) ys zero x h = h
get_elem?-append (a ∷ xs) ys (suc i) x h = get_elem?-append xs ys i x h

get_elem?-pad :
    (ids : List Bytes) (i : ℕ) (x : Bytes)
    → get_elem? ids i ≡ some x
    → get_elem? (pad ids) i ≡ some x
get_elem?-pad ids i x h = ground (arith, get_elem?-append ids (last_or [] ids ∷ []) i x h)

get_elem?-some : (xs : List Bytes) (i : ℕ) → i < length xs → (x : Bytes) × (get_elem? xs i ≡ some x)
get_elem?-some [] i h = absurd (omega arith)
get_elem?-some (x ∷ xs) zero h = (x, refl)
get_elem?-some (x ∷ xs) (suc i) h = get_elem?-some xs i (omega arith)

get_elem?-lt : (xs : List Bytes) (i : ℕ) (x : Bytes) → get_elem? xs i ≡ some x → i < length xs
get_elem?-lt [] i x h = cc
get_elem?-lt (y ∷ xs) zero x h = omega arith
get_elem?-lt (y ∷ xs) (suc i) x h = omega (arith, get_elem?-lt xs i x h)

length-pad : (ids : List Bytes) → length (pad ids) ≡ (length ids + 1) / 2 * 2
length-pad ids = ground (arith, length-append ids (last_or [] ids ∷ []))

sibling_right :
    (nodes : List Bytes) (idx : ℕ) (y : Bytes)
    → (idx % 2 == 1) ≡ false
    → suc idx < length nodes
    → get_elem? nodes (idx + 1) ≡ some y
    → sibling nodes idx ≡ some (y, Side.right)
unfolding sibling
sibling_right nodes idx y e inside hy = ground arith

ceil_log2_one : (fuel n : ℕ) → leb n 1 ≡ true → ceil_log2 (suc fuel) n ≡ 0
unfolding ceil_log2
ceil_log2_one fuel n h = ground arith

ceil_log2_more :
    (fuel n : ℕ) → leb n 1 ≡ false → ceil_log2 (suc fuel) n ≡ suc (ceil_log2 fuel ((n + 1) / 2))
unfolding ceil_log2
ceil_log2_more fuel n h = ground arith

module _ (hash256 : Bytes → Bytes) where
  length-upper_level : (ids : List Bytes) → length (upper_level hash256 ids) ≡ length ids / 2
  unfolding upper_level
  length-upper_level [] = omega arith
  length-upper_level (x ∷ []) = omega arith
  length-upper_level (x ∷ y ∷ ids) = omega (arith, length-upper_level ids)

  get_elem?-upper_level :
      (ids : List Bytes) (i : ℕ) (x y : Bytes)
      → i % 2 ≡ 0
      → get_elem? ids i ≡ some x
      → get_elem? ids (suc i) ≡ some y
      → get_elem? (upper_level hash256 ids) (i / 2) ≡ some (hash256 (x ++ y))
  unfolding upper_level
  get_elem?-upper_level [] i x y even hx hy = cc
  get_elem?-upper_level (a ∷ []) i x y even hx hy = cc
  get_elem?-upper_level (a ∷ b ∷ ids) zero x y even hx hy = cc
  get_elem?-upper_level (a ∷ b ∷ ids) (suc zero) x y even hx hy = absurd (omega arith)
  get_elem?-upper_level (a ∷ b ∷ ids) (suc (suc i)) x y even hx hy =
      let half : suc (i / 2) ≡ suc (suc i) / 2 = omega arith in
      subst
        (λ j. get_elem? (hash256 (a ++ b) ∷ upper_level hash256 ids) j ≡ some (hash256 (x ++ y)))
        half (get_elem?-upper_level ids i x y (omega arith) hx hy)

  -- What a proof's step makes of a node.
  abbrev climb : Bytes × Side → Bytes → Bytes
  climb (node, Side.left) x = hash256 (node ++ x)
  climb (node, Side.right) x = hash256 (x ++ node)

  -- In a completed level every node has a sibling, and the two hash to the node above.
  sibling_climbs :
      (nodes : List Bytes) (idx : ℕ) (x : Bytes)
      → length nodes % 2 ≡ 0
      → get_elem? nodes idx ≡ some x
      → (s : Bytes × Side) × (sibling nodes idx ≡ some s)
        × (get_elem? (upper_level hash256 nodes) (idx / 2) ≡ some (climb s x))
  unfolding sibling
  sibling_climbs nodes idx x even hx = elim (Bool-cases (idx % 2 == 1)) [
    | inl odd ↦
        let (y, hy) = get_elem?-some nodes (idx - 1) (omega (arith, get_elem?-lt nodes idx x hx)) in
        let next : suc (idx - 1) ≡ idx = ground arith in
        let half : (idx - 1) / 2 ≡ idx / 2 = ground arith in
        (
          (y, Side.left),
          ground (arith, get_elem?-lt nodes idx x hx),
          subst (λ j. get_elem? (upper_level hash256 nodes) j ≡ some (hash256 (y ++ x))) half
              (get_elem?-upper_level nodes (idx - 1) y x (ground arith) hy
                (subst (λ j. get_elem? nodes j ≡ some x) (sym next) hx)),
        )
    | inr e ↦
        let inside : suc idx < length nodes = ground (arith, get_elem?-lt nodes idx x hx) in
        let (y, hy) = get_elem?-some nodes (suc idx) inside in
        let next : idx + 1 ≡ suc idx = omega arith in
        (
          (y, Side.right),
          sibling_right nodes idx y e inside
              (subst (λ j. get_elem? nodes j ≡ some y) (sym next) hy),
          get_elem?-upper_level nodes idx x y (ground arith) hx hy,
        )
  ]

  -- The leaves that a proof of height `h` starts from.
  abbrev bottom : ℕ → List Bytes → List Bytes
  bottom zero ids = ids
  bottom (suc h) ids = pad ids

  get_elem?-bottom :
      (h : ℕ) (ids : List Bytes) (i : ℕ) (x : Bytes)
      → get_elem? ids i ≡ some x
      → get_elem? (bottom h ids) i ≡ some x
  get_elem?-bottom zero ids i x e = e
  get_elem?-bottom (suc h) ids i x e = get_elem?-pad ids i x e

  fold_proof-climb :
      (s : Bytes × Side) (proof : List (Bytes × Side)) (x : Bytes)
      → fold_proof hash256 (s ∷ proof) x ≡ fold_proof hash256 proof (climb s x)
  unfolding fold_proof
  fold_proof-climb (node, Side.left) proof x = refl
  fold_proof-climb (node, Side.right) proof x = refl

  -- From any node of the lowest level, `get_merkle_proof` climbs to the root.
  proof_reaches_root :
      (h : ℕ) (ids : List Bytes) (idx : ℕ) (x r : Bytes)
      → (create_levels hash256 h ids).1 ≡ r ∷ []
      → get_elem? (bottom h ids) idx ≡ some x
      → (proof : List (Bytes × Side)) × (proof_from (create_levels hash256 h ids).0 idx ≡ ok proof)
        × (fold_proof hash256 proof x ≡ r)
  unfolding create_levels proof_from
  proof_reaches_root zero ids idx x r root hx =
      ([], refl, only idx (subst (λ l. get_elem? l idx ≡ some x) root hx))
    where
      only : (i : ℕ) → get_elem? (r ∷ []) i ≡ some x → fold_proof hash256 [] x ≡ r
      only zero h = unfold fold_proof in cc
      only (suc i) h = cc
  proof_reaches_root (suc h) ids idx x r root hx =
      let (s, hs, up) = sibling_climbs (pad ids) idx x (omega (arith, length-pad ids)) hx in
      let above = upper_level hash256 (pad ids) in
      let (proof, hp, done) =
        proof_reaches_root h above (idx / 2) (climb s x) r root
          (get_elem?-bottom h above (idx / 2) (climb s x) up) in
      (s ∷ proof, ground arith, fold_proof-climb s proof x ∙ done)

  -- `ceil_log2` counts as many levels as it takes to come down to one node.
  one_root :
      (fuel : ℕ) (ids : List Bytes)
      → 1 ≤ length ids
      → length ids ≤ fuel
      → (r : Bytes) × ((create_levels hash256 (ceil_log2 fuel (length ids)) ids).1 ≡ r ∷ [])
  unfolding create_levels
  one_root zero ids h k = absurd (omega arith)
  one_root (suc fuel) ids h k = elim (Bool-cases (leb (length ids) 1)) [
    | inl one ↦ rw (ceil_log2_one fuel (length ids) one) (single ids h (leb→le _ _ one))
    | inr more ↦ rw (ceil_log2_more fuel (length ids) more) (
        subst (λ n. (r : Bytes) × ((create_levels hash256 (ceil_log2 fuel n) above).1 ≡ r ∷ []))
          halved (one_root fuel above (ground (arith, halved)) (ground (arith, halved))))
  ]
    where
      above : List Bytes
      above = upper_level hash256 (pad ids)

      halved : length above ≡ (length ids + 1) / 2
      halved = length-upper_level (pad ids) ∙ omega (arith, length-pad ids)

      single : (xs : List Bytes) → 1 ≤ length xs → length xs ≤ 1 → (r : Bytes) × (xs ≡ r ∷ [])
      single [] a b = absurd (omega arith)
      single (x ∷ []) a b = (x, refl)
      single (x ∷ y ∷ xs) a b = absurd (omega arith)

  leaves-bottom :
      (k : ℕ) (ids : List Bytes) (r : Bytes)
      → (create_levels hash256 k ids).1 ≡ r ∷ []
      → leaves (record { levels = (create_levels hash256 k ids).0; merkle_root = r }) ≡ bottom k ids
  unfolding leaves create_levels
  leaves-bottom zero ids r h = sym h
  leaves-bottom (suc k) ids r h = refl

find_leaf_finds :
    (target : Bytes) (xs : List Bytes) (start i : ℕ)
    → get_elem? xs i ≡ some target
    → (j : ℕ) × (find_leaf target start xs ≡ some (start + j)) × (get_elem? xs j ≡ some target)
unfolding find_leaf
find_leaf_finds target [] start i h = cc
find_leaf_finds target (x ∷ xs) start zero h = (0, ground (arith, bytes_eq_refl target, same), h)
  where
    same : x ≡ target
    same = cc
find_leaf_finds target (x ∷ xs) start (suc i) h =
    let (j, hj, gj) = find_leaf_finds target xs (suc start) i h in
    elim (Bool-cases (bytes_eq x target)) [
      | inl same ↦ (0, ground arith, ap some (bytes_eq→eq x target same))
      | inr differ ↦ (suc j, ground arith, gj)
    ]

-- For every nonempty list of identifiers, under any hash function, the tree is built, and each
-- identifier of the list has a proof that `verify_merkle_proof` accepts.
pub merkle_proof_verifies :
    (hash256 : Bytes → Bytes) (ids : List Bytes) (i : ℕ) (target : Bytes)
    → get_elem? ids i ≡ some target
    → (t : MerkleTree) × (proof : List (Bytes × Side)) × (merkle_tree hash256 ids ≡ ok t)
      × (get_merkle_proof t target ≡ ok proof)
      × (verify_merkle_proof hash256 t proof target ≡ true)
unfolding merkle_tree tree_height get_merkle_proof verify_merkle_proof
merkle_proof_verifies hash256 [] i target h = cc
merkle_proof_verifies hash256 (x ∷ xs) i target h =
    let ids : List Bytes = x ∷ xs in
    let k : ℕ = tree_height ids in
    let (r, root) = one_root hash256 (length ids) ids (omega arith) (omega arith) in
    let (idx, found, there) =
      find_leaf_finds target (bottom hash256 k ids) 0 i
        (get_elem?-bottom hash256 k ids i target h) in
    let (proof, built, climbed) = proof_reaches_root hash256 k ids idx target r root there in
    (
      record { levels = (create_levels hash256 k ids).0; merkle_root = r },
      proof,
      ground (arith, root),
      ground (arith, built, found, leaves-bottom hash256 k ids r root),
      rw climbed (bytes_eq_refl r),
    )
