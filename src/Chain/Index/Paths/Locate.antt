-- ===== src/Chain/Index/Paths/Locate.antt =====
-- A locator goes back to a row of height 0.
use bitclone.Base.{
  ℕ, zero, suc, ◌-◌, ◌*◌, ◌≤◌, ◌<◌, ◌≡◌, refl, List, [], ◌∷◌, Option, some, ltb, leb, ◌==◌, ltb→lt,
  if◌then◌else◌, arith, Bool-cases, inl, inr,
}
use bitclone.Base.Bytes.{Bytes}
use bitclone.Chain.Index.{Index, BlockIndexEntry, walk_back, get_block_index_ancestor}
use bitclone.Chain.Index.Linked.{IsLinked}
use bitclone.Chain.Index.Paths.{locate, start_entry, get_block_locator}
use bitclone.Chain.Index.Paths.Ancestors.{IsRow, parent_lem}

-- Hashes of rows of the index from `e` on, each below the one before it, the last of height 0.
pub data Locates (index : Index) : List Bytes → BlockIndexEntry → Type 0 where
  root : {e : BlockIndexEntry} → e.height ≡ 0 → Locates index (e.block_hash ∷ []) e
  back :
      {e a : BlockIndexEntry} {hashes : List Bytes}
      → IsRow index a
      → a.height < e.height
      → Locates index hashes a
      → Locates index (e.block_hash ∷ hashes) e

walk_back_lem :
    (fuel height : ℕ) (e : BlockIndexEntry) (index : Index)
    → IsLinked index
    → IsRow index e
    → height ≤ e.height
    → e.height ≤ fuel
    → (a : BlockIndexEntry) × (walk_back fuel height e index ≡ some a)
      × IsRow index a
      × (a.height ≡ height)
unfolding walk_back
walk_back_lem zero height e index linked row low enough =
    (e, ground (arith, enough), row, omega (arith, low, enough))
walk_back_lem (suc fuel) height e index linked row low enough =
    elim (Bool-cases (ltb height e.height)) [
      | inr at ↦ (e, rw at refl, row, ground (arith, at, low))
      | inl above ↦
          let (p, held, row', next) = parent_lem index e height linked row (ltb→lt _ _ above) in
          let (a, ran, row_a, at) =
            walk_back_lem fuel height p index linked row' (omega (arith, ltb→lt _ _ above, next))
              (omega (arith, next, enough)) in
          (a, rw (above, held) ran, row_a, at)
    ]

ancestor_step :
    (height : ℕ) (e a : BlockIndexEntry) (index : Index)
    → IsRow index e
    → height ≤ e.height
    → walk_back e.height height e index ≡ some a
    → get_block_index_ancestor e.block_hash height index ≡ some a
unfolding get_block_index_ancestor
ancestor_step height e a index row low ran = ground (arith, row, low, ran)

ancestor_lem :
    (height : ℕ) (e : BlockIndexEntry) (index : Index)
    → IsLinked index
    → IsRow index e
    → height ≤ e.height
    → (a : BlockIndexEntry) × (get_block_index_ancestor e.block_hash height index ≡ some a)
      × IsRow index a
      × (a.height ≡ height)
ancestor_lem height e index linked row low =
    let (a, ran, row_a, at) = walk_back_lem e.height height e index linked row low (omega arith) in
    (a, ancestor_step height e a index row low ran, row_a, at)

locate_lem :
    (fuel step count : ℕ) (e : BlockIndexEntry) (index : Index)
    → IsLinked index
    → IsRow index e
    → 1 ≤ step
    → e.height ≤ fuel
    → Locates index (locate fuel step count e index) e
unfolding locate
locate_lem zero step count e index linked row some_step enough =
    Locates.root (omega (arith, enough))
locate_lem (suc fuel) step count e index linked row some_step enough =
    elim (Bool-cases (e.height == 0)) [
      | inl z ↦ rw z (Locates.root (ground (arith, z)))
      | inr z ↦
          let (a, found, row_a, at) =
            ancestor_lem (e.height - step) e index linked row (omega arith) in
          let lower : a.height < e.height = ground (arith, at, z, some_step) in
          rw (z, found)
            (Locates.back row_a lower (
              locate_lem fuel (if leb 10 (suc count) then step * 2 else step) (suc count) a index
                linked row_a (ground (arith, some_step)) (omega (arith, lower, enough))))
    ]

-- On an index whose rows continue each other down to height 0, the locator from a row, given by its
-- hash or the best header, ends, and it goes in steps down to the hash of a row of height 0.
pub get_block_locator-Locates :
    (start_hash : Option Bytes) (e : BlockIndexEntry) (index : Index)
    → IsLinked index
    → start_entry start_hash index ≡ some e
    → IsRow index e
    → Locates index (get_block_locator start_hash index) e
unfolding get_block_locator
get_block_locator-Locates start_hash e index linked found row =
    rw (found, get_block_locator)
      (locate_lem e.height 1 0 e index linked row (omega arith) (omega arith))
