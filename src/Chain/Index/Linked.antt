-- ===== src/Chain/Index/Linked.antt =====
-- Every row of the index but those of height 0 continues a row.
use bitclone.Base.{
  suc, ◌+◌, ◌≡◌, ◌⊎◌, inl, inr, refl, [], ◌∷◌, none, some, if◌then◌else◌, arith, Bool-cases,
}
use mathlib.Core.Path.{subst}
use bitclone.Base.Bytes.{Bytes, bytes_eq, bytes_eq→eq, bytes_eq_refl}
use bitclone.Chain.Index.{Index, BlockIndexEntry, get_block_index, put_entry}

abbrev pub Holds : Index → Bytes → BlockIndexEntry → Type 0
Holds index hash e = get_block_index hash index ≡ some e

-- A row of height 0, or one that stands one above its parent's row, with its work added.
abbrev pub Continues : Index → BlockIndexEntry → Type 0
Continues index e =
    (e.height ≡ 0)
    ⊎ ((p : BlockIndexEntry) × Holds index e.prev_hash p
        × (e.height ≡ suc p.height)
        × (e.chainwork ≡ p.chainwork + e.work))

abbrev pub IsLinked : Index → Type 0
IsLinked index = (hash : Bytes) (e : BlockIndexEntry) → Holds index hash e → Continues index e

-- Every row stays as it is.
abbrev pub Extends : Index → Index → Type 0
Extends index index' =
    (hash : Bytes) (e : BlockIndexEntry) → Holds index hash e → Holds index' hash e

pub get_block_index-key :
    (hash : Bytes) (index : Index) (e : BlockIndexEntry) → Holds index hash e → e.block_hash ≡ hash
unfolding get_block_index
get_block_index-key hash [] e h = cc
get_block_index-key hash (f ∷ index) e h =
    ground (arith, get_block_index-key hash index e, bytes_eq→eq hash f.block_hash)

get_block_index-put_entry :
    (hash : Bytes) (e : BlockIndexEntry) (index : Index)
    → get_block_index hash (put_entry e index)
      ≡ (if bytes_eq hash e.block_hash then some e else get_block_index hash index)
unfolding get_block_index put_entry
get_block_index-put_entry hash e [] = refl
get_block_index-put_entry hash e (f ∷ index) = ground (
  arith,
  get_block_index-put_entry hash e index,
  bytes_eq→eq e.block_hash f.block_hash,
  bytes_eq→eq hash e.block_hash,
  bytes_eq_refl e.block_hash,
)

pub put_entry-Holds :
    (e : BlockIndexEntry) (index : Index) → Holds (put_entry e index) e.block_hash e
put_entry-Holds e index =
    ground (arith, get_block_index-put_entry e.block_hash e index, bytes_eq_refl e.block_hash)

pub fresh-Extends :
    (e : BlockIndexEntry) (index : Index)
    → get_block_index e.block_hash index ≡ none
    → Extends index (put_entry e index)
fresh-Extends e index fresh hash f h =
    ground (arith, get_block_index-put_entry hash e index, h, fresh, bytes_eq→eq hash e.block_hash)

Continues-Extends :
    (index index' : Index) (e : BlockIndexEntry)
    → Extends index index'
    → Continues index e
    → Continues index' e
Continues-Extends index index' e grows (inl h) = inl h
Continues-Extends index index' e grows (inr (p, h, height, work)) =
    inr (p, grows e.prev_hash p h, height, work)

-- A new row over a row of the index.
pub fresh-IsLinked :
    (e p : BlockIndexEntry) (index : Index)
    → IsLinked index
    → get_block_index e.block_hash index ≡ none
    → Holds index e.prev_hash p
    → e.height ≡ suc p.height
    → e.chainwork ≡ p.chainwork + e.work
    → IsLinked (put_entry e index)
fresh-IsLinked e p index linked fresh parent height work hash f h =
    let grows = fresh-Extends e index fresh in
    Continues-Extends index (put_entry e index) f grows
      (elim (Bool-cases (bytes_eq hash e.block_hash)) [
        | inl same ↦
            let own : e ≡ f = ground (arith, get_block_index-put_entry hash e index, h, same) in
            subst (Continues index) own (inr (p, parent, height, work))
        | inr other ↦
            linked hash f (ground (arith, get_block_index-put_entry hash e index, h, other))
      ])
