-- ===== src/Chain/Index/Paths/Ancestors.antt =====
-- Rows of the index and their ancestors.
use bitclone.Base.{
  ℕ, suc, ◌+◌, ◌≤◌, ◌<◌, ◌≡◌, inl, inr, sym, ap, ◌∙◌, ok, List, [], ◌∷◌, ◌++◌, length, none, arith,
}
use mathlib.Core.Path.{subst}
use bitclone.Base.Bytes.{Bytes}
use bitclone.Chain.Index.{Index, BlockIndexEntry, get_block_index}
use bitclone.Chain.Index.Linked.{Holds, IsLinked, get_block_index-key}
use bitclone.Chain.Index.Paths.{parent_of}

-- The rows from `top` down to `bottom`, that one left out, each with its parent behind it.
abbrev pub Descends : Index → List BlockIndexEntry → BlockIndexEntry → BlockIndexEntry → Type 0
Descends index [] top bottom = top ≡ bottom
Descends index (e ∷ es) top bottom =
    (e ≡ top) × (p : BlockIndexEntry) × Holds index top.prev_hash p × Descends index es p bottom

-- A row of the index, under its own hash.
abbrev pub IsRow : Index → BlockIndexEntry → Type 0
IsRow index e = Holds index e.block_hash e

pub Holds-IsRow :
    (index : Index) (hash : Bytes) (e : BlockIndexEntry) → Holds index hash e → IsRow index e
Holds-IsRow index hash e h =
    subst (λ k. Holds index k e) (sym (get_block_index-key hash index e h)) h

pub parent_lem :
    (index : Index) (e : BlockIndexEntry) (n : ℕ)
    → IsLinked index
    → IsRow index e
    → n < e.height
    → (p : BlockIndexEntry) × Holds index e.prev_hash p × IsRow index p × (e.height ≡ suc p.height)
parent_lem index e n linked row h = elim (linked e.block_hash e row) [
  | inl z ↦ absurd (omega (arith, z, h))
  | inr (p, held, above, _) ↦ (p, held, Holds-IsRow index e.prev_hash p held, above)
]

pub parent_of-held :
    (index : Index) (e p : BlockIndexEntry) → Holds index e.prev_hash p → parent_of e index ≡ ok p
parent_of-held index e p h = ground (arith, h)

pub Descends-append :
    (index : Index) (es fs : List BlockIndexEntry) (top middle bottom : BlockIndexEntry)
    → Descends index es top middle
    → Descends index fs middle bottom
    → Descends index (es ++ fs) top bottom
Descends-append index [] fs top middle bottom h k =
    subst (λ t. Descends index fs t bottom) (sym h) k
Descends-append index (e ∷ es) fs top middle bottom (same, p, held, h) k =
    (same, p, held, Descends-append index es fs p middle bottom h k)

-- No row of height 0 names another row as its predecessor.
abbrev pub IsRooted : Index → Type 0
IsRooted index =
    (hash : Bytes) (e : BlockIndexEntry)
    → Holds index hash e
    → e.height ≡ 0
    → get_block_index e.prev_hash index ≡ none

-- No row is an ancestor of both, nor is one of them an ancestor of the other.
abbrev pub IsApart : Index → BlockIndexEntry → BlockIndexEntry → Type 0
IsApart index active other =
    (down up : List BlockIndexEntry) (fork : BlockIndexEntry)
    → Descends index down active fork
    → ¬ Descends index up other fork

-- A parent is a row, one below.
pub child_lem :
    (index : Index) (e p : BlockIndexEntry)
    → IsLinked index
    → IsRooted index
    → IsRow index e
    → Holds index e.prev_hash p
    → IsRow index p × (e.height ≡ suc p.height)
child_lem index e p linked rooted row held = elim (linked e.block_hash e row) [
  | inl z ↦ let missing = rooted e.block_hash e row z in cc
  | inr (q, held', above, _) ↦
      let same : q ≡ p = cc in
      (Holds-IsRow index e.prev_hash p held, above ∙ ap (λ x. suc x.height) same)
]

pub Descends-height :
    (index : Index) (es : List BlockIndexEntry) (top bottom : BlockIndexEntry)
    → IsLinked index
    → IsRooted index
    → IsRow index top
    → Descends index es top bottom
    → top.height ≡ length es + bottom.height
Descends-height index [] top bottom linked rooted row h = ap (λ e. e.height) h ∙ omega arith
Descends-height index (e ∷ es) top bottom linked rooted row (same, p, held, h) =
    let (row_p, above) = child_lem index top p linked rooted row held in
    omega (arith, above, Descends-height index es p bottom linked rooted row_p h)

-- A row that is not above `middle` is reached from there.
pub Descends-behind :
    (index : Index) (es fs : List BlockIndexEntry) (top middle bottom : BlockIndexEntry)
    → IsLinked index
    → IsRooted index
    → IsRow index top
    → Descends index es top middle
    → Descends index fs top bottom
    → bottom.height ≤ middle.height
    → (gs : List BlockIndexEntry) × Descends index gs middle bottom
Descends-behind index [] fs top middle bottom linked rooted row h k low =
    (fs, subst (λ t. Descends index fs t bottom) h k)
Descends-behind index (e ∷ es) [] top middle bottom linked rooted row h k low = absurd (
    omega (
      arith,
      low,
      Descends-height index (e ∷ es) top middle linked rooted row h,
      ap (λ x. x.height) k,
    ))
Descends-behind index (e ∷ es) (f ∷ fs) top middle bottom linked rooted row (same, p, held, h)
      (same', q, held', k) low =
    let one : q ≡ p = cc in
    Descends-behind index es fs p middle bottom linked rooted
      (child_lem index top p linked rooted row held).0 h
      (subst (λ x. Descends index fs x bottom) one k) low
