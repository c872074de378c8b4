-- ===== src/Mempool/OrphanPool.antt =====
-- mempool/orphan_pool.py, class OrphanTransactionPool. `now` stands for `int(time.time())`.
pub mod Bounded
pub mod Add
use bitclone.Base.{
  ℕ, zero, suc, ◌+◌, ◌-◌, Result, Error, ok, err, ◌>>=◌, Bool, true, false, ◌||◌, List, [], ◌∷◌,
  Option, none, some, length, ltb, ◌==◌, if◌then◌else◌,
}
use bitclone.Base.Bytes.{Bytes, bytes_eq}
use bitclone.Base.Dict.{lookup, erase, insert, contains, add_member, discard}
use bitclone.Tx.Transaction
use bitclone.Tx.Transaction.{Tx}

-- `vbytes` is the property of that name, which the transaction keeps once it is computed.
pub record OrphanTx : Type 0 where
  pub tx : Tx
  pub vbytes : ℕ
  pub missing_parents : List Bytes
  pub arrival_time : ℕ

pub record OrphanPool : Type 0 where
  pub max_count : ℕ
  pub max_vbytes : ℕ
  pub max_time : ℕ
  pub total_vbytes : ℕ
  pub entries : List (Bytes × OrphanTx)
  pub by_parent : List (Bytes × List Bytes)

abbrev pub Index : Type 0
Index = List (Bytes × List Bytes)

-- `self._by_parent[parent_txid].add(txid)` for each parent; a missing key starts with no dependent.
unfoldable pub index_all : Bytes → List Bytes → Index → Index
index_all txid [] index = index
index_all txid (parent ∷ parents) index = index_all txid parents (
    insert bytes_eq parent
      (elim (lookup bytes_eq parent index) [
        | none ↦ txid ∷ []
        | some dependents ↦ add_member bytes_eq txid dependents
      ])
      index)

-- `remove`'s loop over the parents: a parent without dependents leaves the index.
unfoldable pub unindex_all : Bytes → List Bytes → Index → Index
unindex_all txid [] index = index
unindex_all txid (parent ∷ parents) index =
    unindex_all txid parents (elim (lookup bytes_eq parent index) [
      | none ↦ index
      | some dependents ↦ elim (discard bytes_eq txid dependents) [
        | [] ↦ erase bytes_eq parent index
        | d ∷ ds ↦ insert bytes_eq parent (d ∷ ds) index
      ]
    ])

-- The difference stays in the naturals: the total counts every entry.
unfoldable pub remove : Bytes → OrphanPool → Option OrphanTx × OrphanPool
remove txid pool = elim (lookup bytes_eq txid pool.entries) [
  | none ↦ (none, pool)
  | some entry ↦ (
    some entry,
    record pool {
      entries = erase bytes_eq txid pool.entries;
      total_vbytes = pool.total_vbytes - entry.vbytes;
      by_parent = unindex_all txid entry.missing_parents pool.by_parent;
    },
  )
]

-- The condition of `add`'s loop.
unfoldable pub is_over : OrphanPool → Bool
is_over pool = ltb pool.max_count (length pool.entries) || ltb pool.max_vbytes pool.total_vbytes

-- The loop: `next(iter(...))` of an empty dict raises StopIteration.
unfoldable pub evict_oldest : ℕ → OrphanPool → Result OrphanPool
evict_oldest zero pool = if is_over pool then err Error.stop_iteration else ok pool
evict_oldest (suc fuel) pool =
    if is_over pool
    then elim pool.entries [
      | [] ↦ err Error.stop_iteration
      | (oldest_txid, _) ∷ _ ↦ evict_oldest fuel (remove oldest_txid pool).1
    ]
    else ok pool

-- The entry goes in, with its parents.
unfoldable pub store : Bytes → OrphanTx → OrphanPool → OrphanPool
store txid entry pool = record pool {
  entries = insert bytes_eq txid entry pool.entries;
  total_vbytes = pool.total_vbytes + entry.vbytes;
  by_parent = index_all txid entry.missing_parents pool.by_parent;
}

-- `add` behind its guards. One round of the loop for each entry is enough.
unfoldable pub add_entry : Bytes → OrphanTx → OrphanPool → Result (Bool × OrphanPool)
add_entry txid entry pool = do
  pool' ← evict_oldest (suc (length pool.entries)) (store txid entry pool)
  ok (contains bytes_eq txid pool'.entries, pool')

-- `add` of a transaction that waits for `parents` and is not in the pool.
unfoldable pub add_new : ℕ → Tx → Bytes → List Bytes → OrphanPool → Result (Bool × OrphanPool)
add_new now tx txid parents pool = do
  vbytes ← Transaction.vbytes tx
  if ltb pool.max_vbytes vbytes || (pool.max_count == 0)
      then ok (false, pool)
      else add_entry txid
          (record { tx = tx; vbytes = vbytes; missing_parents = parents; arrival_time = now }) pool

module _ (hash256 : Bytes → Bytes) where
  unfoldable pub add : ℕ → Tx → List Bytes → OrphanPool → Result (Bool × OrphanPool)
  add now tx [] pool = ok (false, pool)
  add now tx (parent ∷ parents) pool = do
    txid ← Transaction.txid hash256 tx
    if contains bytes_eq txid pool.entries
        then ok (false, pool)
        else add_new now tx txid (parent ∷ parents) pool

-- `self.remove(txid)` for each, and the entries that were there.
unfoldable pub remove_all : List Bytes → OrphanPool → List OrphanTx × OrphanPool
remove_all [] pool = ([], pool)
remove_all (txid ∷ txids) pool =
    let (removed, pool') = remove txid pool in
    let (others, pool'') = remove_all txids pool' in
    (elim removed [ none ↦ others | some entry ↦ entry ∷ others ], pool'')

unfoldable pub pop_dependents : Bytes → OrphanPool → List OrphanTx × OrphanPool
pop_dependents parent_txid pool =
    remove_all
      (elim (lookup bytes_eq parent_txid pool.by_parent) [
        | none ↦ []
        | some dependents ↦ dependents
      ])
      pool

-- `arrival_time < now - max_time` on integers.
unfoldable pub expired_txids : ℕ → ℕ → List (Bytes × OrphanTx) → List Bytes
expired_txids now max_time [] = []
expired_txids now max_time ((txid, entry) ∷ entries) =
    let rest = expired_txids now max_time entries in
    if ltb (entry.arrival_time + max_time) now then txid ∷ rest else rest

unfoldable pub evict_expired : ℕ → OrphanPool → ℕ × OrphanPool
evict_expired now pool =
    let expired = expired_txids now pool.max_time pool.entries in
    (length expired, (remove_all expired pool).1)
