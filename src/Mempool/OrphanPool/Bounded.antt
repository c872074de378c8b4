-- ===== src/Mempool/OrphanPool/Bounded.antt =====
-- The pool's account of its size, its bounds, and the end of `add`'s loop.
use bitclone.Base.{
  ℕ, zero, suc, ◌+◌, ◌-◌, ◌≤◌, ◌≡◌, refl, ap, ◌∙◌, ok, true, false, List, [], ◌∷◌, ◌++◌, none, some,
  length, arith, Bool-cases, Option-cases, inl, inr,
}
use bitclone.Base.Bytes.{Bytes, bytes_eq, bytes_eq_refl}
use bitclone.Base.Dict.{lookup, erase, contains, contains_last}
use bitclone.Mempool.OrphanPool.{
  OrphanTx, OrphanPool, remove, is_over, evict_oldest, remove_all, pop_dependents, evict_expired,
  unindex_all,
}

abbrev pub vbytes_of : List (Bytes × OrphanTx) → ℕ
vbytes_of [] = 0
vbytes_of ((_, entry) ∷ entries) = entry.vbytes + vbytes_of entries

-- `total_vbytes` counts every entry, and the pool is within its limits.
abbrev pub IsBounded : OrphanPool → Type 0
IsBounded pool =
    (pool.total_vbytes ≡ vbytes_of pool.entries)
    × (length pool.entries ≤ pool.max_count)
    × (pool.total_vbytes ≤ pool.max_vbytes)

-- The limits stay as they are.
abbrev pub SameLimits : OrphanPool → OrphanPool → Type 0
SameLimits pool pool' =
    (pool'.max_count ≡ pool.max_count)
    × (pool'.max_vbytes ≡ pool.max_vbytes)
    × (pool'.max_time ≡ pool.max_time)

pub vbytes_of-append :
    (xs ys : List (Bytes × OrphanTx)) → vbytes_of (xs ++ ys) ≡ vbytes_of xs + vbytes_of ys
vbytes_of-append [] ys = omega arith
vbytes_of-append (x ∷ xs) ys = omega (arith, vbytes_of-append xs ys)

-- What erasing a key takes away.
erase_lem :
    (txid : Bytes) (entries : List (Bytes × OrphanTx)) (entry : OrphanTx)
    → lookup bytes_eq txid entries ≡ some entry
    → (vbytes_of (erase bytes_eq txid entries) + entry.vbytes ≡ vbytes_of entries)
      × (suc (length (erase bytes_eq txid entries)) ≡ length entries)
erase_lem txid [] entry h = cc
erase_lem txid ((k, e) ∷ entries) entry h = ground (arith, erase_lem txid entries entry)

remove_missing :
    (txid : Bytes) (pool : OrphanPool)
    → lookup bytes_eq txid pool.entries ≡ none
    → (remove txid pool).1 ≡ pool
unfolding remove
remove_missing txid pool h = rw (h, remove) refl

remove_found :
    (txid : Bytes) (entry : OrphanTx) (pool : OrphanPool)
    → lookup bytes_eq txid pool.entries ≡ some entry
    → (remove txid pool).1 ≡ record pool {
      entries = erase bytes_eq txid pool.entries;
      total_vbytes = pool.total_vbytes - entry.vbytes;
      by_parent = unindex_all txid entry.missing_parents pool.by_parent;
    }
unfolding remove
remove_found txid entry pool h = rw (h, remove) refl

pub remove_lem :
    (txid : Bytes) (pool : OrphanPool)
    → IsBounded pool
    → IsBounded (remove txid pool).1 × SameLimits pool (remove txid pool).1
remove_lem txid pool h = elim (Option-cases (lookup bytes_eq txid pool.entries)) [
  | inl e ↦ rw (remove_missing txid pool e) (h, (refl, refl, refl))
  | inr (entry, e) ↦
      rw (remove_found txid entry pool e) (ground (arith, erase_lem txid pool.entries entry e))
]

pub remove_all_lem :
    (txids : List Bytes) (pool : OrphanPool)
    → IsBounded pool
    → IsBounded (remove_all txids pool).1 × SameLimits pool (remove_all txids pool).1
unfolding remove_all
remove_all_lem [] pool h = (h, (refl, refl, refl))
remove_all_lem (txid ∷ txids) pool h =
    let (bounded, same) = remove_lem txid pool h in
    let (bounded', same') = remove_all_lem txids (remove txid pool).1 bounded in
    (bounded', (same'.0 ∙ same.0, same'.1 ∙ same.1, same'.2 ∙ same.2))

-- Taking out an entry, the dependents of a parent or what has expired keeps the account and the
-- limits of a bounded pool.
pub removals-IsBounded :
    (txid parent : Bytes) (now : ℕ) (pool : OrphanPool)
    → IsBounded pool
    → IsBounded (remove txid pool).1
      × IsBounded (pop_dependents parent pool).1
      × IsBounded (evict_expired now pool).1
unfolding pop_dependents evict_expired
removals-IsBounded txid parent now pool h =
    ((remove_lem txid pool h).0, (remove_all_lem _ pool h).0, (remove_all_lem _ pool h).0)

remove_oldest :
    (txid : Bytes) (entry : OrphanTx) (entries : List (Bytes × OrphanTx)) (pool : OrphanPool)
    → pool.entries ≡ (txid, entry) ∷ entries
    → (remove txid pool).1 ≡ record pool {
      entries = entries;
      total_vbytes = pool.total_vbytes - entry.vbytes;
      by_parent = unindex_all txid entry.missing_parents pool.by_parent;
    }
remove_oldest txid entry entries pool h =
    remove_found txid entry pool (rw h (rw (bytes_eq_refl txid) refl))
    ∙ rw h (rw (bytes_eq_refl txid) refl)

evict-within :
    (fuel : ℕ) (pool : OrphanPool) → is_over pool ≡ false → evict_oldest fuel pool ≡ ok pool
unfolding evict_oldest
evict-within zero pool h = rw h refl
evict-within (suc fuel) pool h = rw h refl

evict-over :
    (fuel : ℕ) (pool : OrphanPool) (txid : Bytes) (entry : OrphanTx)
    (entries : List (Bytes × OrphanTx))
    → is_over pool ≡ true
    → pool.entries ≡ (txid, entry) ∷ entries
    → evict_oldest (suc fuel) pool ≡ evict_oldest fuel (remove txid pool).1
unfolding evict_oldest
evict-over fuel pool txid entry entries h e = simp (h, e)

is_over→IsBounded :
    (pool : OrphanPool)
    → is_over pool ≡ false
    → pool.total_vbytes ≡ vbytes_of pool.entries
    → IsBounded pool
unfolding is_over
is_over→IsBounded pool h e = ground arith

newest_alone :
    (pool : OrphanPool) (txid : Bytes) (entry : OrphanTx)
    → pool.entries ≡ (txid, entry) ∷ []
    → pool.total_vbytes ≡ vbytes_of pool.entries
    → entry.vbytes ≤ pool.max_vbytes
    → 1 ≤ pool.max_count
    → is_over pool ≡ false
unfolding is_over
newest_alone pool txid entry h e v c = ground arith

-- The loop ends within its limits and never reaches the newest entry.
abbrev Evicted : ℕ → OrphanPool → Bytes → Type 0
Evicted fuel pool txid =
    (pool' : OrphanPool) × (evict_oldest fuel pool ≡ ok pool')
    × IsBounded pool'
    × SameLimits pool pool'
    × (contains bytes_eq txid pool'.entries ≡ true)

Evicted-within :
    (fuel : ℕ) (pool : OrphanPool) (older : List (Bytes × OrphanTx)) (txid : Bytes)
    (entry : OrphanTx)
    → pool.entries ≡ older ++ ((txid, entry) ∷ [])
    → pool.total_vbytes ≡ vbytes_of pool.entries
    → is_over pool ≡ false
    → Evicted fuel pool txid
Evicted-within fuel pool older txid entry h e w = (
  pool,
  evict-within fuel pool w,
  is_over→IsBounded pool w e,
  (refl, refl, refl),
  rw h (contains_last bytes_eq txid entry older (bytes_eq_refl txid)),
)

pub evict_lem :
    (fuel : ℕ) (pool : OrphanPool) (older : List (Bytes × OrphanTx)) (txid : Bytes)
    (entry : OrphanTx)
    → pool.entries ≡ older ++ ((txid, entry) ∷ [])
    → pool.total_vbytes ≡ vbytes_of pool.entries
    → length older ≤ fuel
    → entry.vbytes ≤ pool.max_vbytes
    → 1 ≤ pool.max_count
    → Evicted fuel pool txid
evict_lem fuel pool [] txid entry h e f v c =
    Evicted-within fuel pool [] txid entry h e (newest_alone pool txid entry h e v c)
evict_lem zero pool (o ∷ os) txid entry h e f v c = ground arith
evict_lem (suc fuel) pool ((oldest, first) ∷ os) txid entry h e f v c =
    elim (Bool-cases (is_over pool)) [
      | inr w ↦ Evicted-within (suc fuel) pool ((oldest, first) ∷ os) txid entry h e w
      | inl w ↦
          let entries' = os ++ ((txid, entry) ∷ []) in
          let pool1 = record pool {
            entries = entries';
            total_vbytes = pool.total_vbytes - first.vbytes;
            by_parent = unindex_all oldest first.missing_parents pool.by_parent;
          } in
          let ih =
            evict_lem fuel pool1 os txid entry refl (ground (arith, h, e)) (omega arith) v c in
          (
            ih.0,
            evict-over fuel pool oldest first entries' w h
                ∙ ap (evict_oldest fuel) (remove_oldest oldest first entries' pool h)
                ∙ ih.1,
            ih.2,
            ih.3,
            ih.4,
          )
    ]
