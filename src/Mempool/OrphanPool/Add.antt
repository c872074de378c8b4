-- ===== src/Mempool/OrphanPool/Add.antt =====
-- What `add` returns, on every branch.
use bitclone.Base.{
  ℕ, suc, ◌≤◌, ◌≡◌, refl, Result, ok, err, Bool, true, false, ◌||◌, List, [], ◌∷◌, length, ltb,
  ◌==◌, if◌then◌else◌, arith,
}
use bitclone.Base.Bytes.{Bytes, bytes_eq}
use bitclone.Base.Dict.{contains, insert_fresh}
use bitclone.Tx.Transaction
use bitclone.Tx.Transaction.{Tx}
use bitclone.Mempool.OrphanPool.{OrphanTx, OrphanPool, store, add_entry, add_new, add}
use bitclone.Mempool.OrphanPool.Bounded.{IsBounded, SameLimits, evict_lem, vbytes_of-append}

-- `add` returns and the pool keeps its bounds: either it says so and the transaction is in the pool, or it refuses
-- it and the pool is as it was.
abbrev pub Added : Bytes → OrphanPool → Result (Bool × OrphanPool) → Type 0
Added txid pool (ok (accepted, pool')) =
    IsBounded pool'
    × SameLimits pool pool'
    × (if accepted then contains bytes_eq txid pool'.entries ≡ true else pool' ≡ pool)
Added txid pool (err e) = ⊥

Added-if :
    (txid : Bytes) (pool : OrphanPool) (c : Bool) (x y : Result (Bool × OrphanPool))
    → (c ≡ true → Added txid pool x)
    → (c ≡ false → Added txid pool y)
    → Added txid pool (if c then x else y)
Added-if txid pool true x y h k = h refl
Added-if txid pool false x y h k = k refl

add_entry_lem :
    (txid : Bytes) (entry : OrphanTx) (pool : OrphanPool)
    → IsBounded pool
    → contains bytes_eq txid pool.entries ≡ false
    → entry.vbytes ≤ pool.max_vbytes
    → 1 ≤ pool.max_count
    → Added txid pool (add_entry txid entry pool)
unfolding add_entry store
add_entry_lem txid entry pool b h v c =
    let evicted =
      evict_lem (suc (length pool.entries)) (store txid entry pool) pool.entries txid entry
        (insert_fresh bytes_eq txid entry pool.entries h)
        (rw (insert_fresh bytes_eq txid entry pool.entries h)
          (omega (arith, b.0, vbytes_of-append pool.entries ((txid, entry) ∷ []))))
        (omega arith) v c in
    rw evicted.1 (rw evicted.4 (evicted.2, evicted.3, refl))

-- On a bounded pool, `add` of a transaction whose id and size can be computed returns, and the
-- pool stays within its limits. If it returns true, the transaction is in the pool; if it returns
-- false, the pool is unchanged.
pub add_returns :
    (hash256 : Bytes → Bytes) (now : ℕ) (tx : Tx) (parents : List Bytes) (pool : OrphanPool)
    (txid : Bytes) (vbytes : ℕ)
    → IsBounded pool
    → Transaction.txid hash256 tx ≡ ok txid
    → Transaction.vbytes tx ≡ ok vbytes
    → Added txid pool (add hash256 now tx parents pool)
unfolding add add_new
add_returns hash256 now tx [] pool txid vbytes b t v = (b, (refl, refl, refl), refl)
add_returns hash256 now tx (p ∷ ps) pool txid vbytes b t v =
    let refused : Added txid pool (ok (false, pool)) = (b, (refl, refl, refl), refl) in
    rw t (
      rw v (
        Added-if _ _ (contains bytes_eq txid pool.entries) _ _ (λ _. refused)
          (λ fresh.
            Added-if _ _ (ltb pool.max_vbytes vbytes || (pool.max_count == 0)) _ _ (λ _. refused)
              (λ fits.
                add_entry_lem txid _ pool b fresh (ground (arith, fits)) (ground (arith, fits))))))
